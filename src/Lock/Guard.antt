-- ===== src/Lock/Guard.antt =====
-- harness/merge_lock.py, `acquire_peer_merge_guard`: the merge of a branch asks the wave board for
-- its claim, then the order of merges, then the lock.
use dc_ness.Base.{
  ℕ, String, string_eq, Bool, true, false, not, Option, none, some, [], ◌∷◌, if◌then◌else◌, ◌==◌,
  ◌≡◌, refl, eq_iff, Bool-cases, inl, inr, ◌⊎◌,
}
use dc_ness.Board.Records.{Platform, Claim, Board}
use dc_ness.Base.Dict.{Dict}
use dc_ness.Board.Status.{find_claim_by_branch, IsFound, find_claim_by_branch-IsFound}
use dc_ness.Lock.Records.{LockRecord, Lock, Error, Result, ok, err, Token}
use dc_ness.Lock.Mutex.{new_record, acquire}
use dc_ness.Lock.Frontmatter.{Digits}
use dc_ness.Lock.Order.{
  GuardContext, GuardDecision, no_claim, claim_state, allow, block, Tree, check_merge_order,
}

pub data GuardMode : Type 0 where
  serial peer : GuardMode

pub record PeerMergeGuard : Type 0 where
  pub mode : GuardMode
  pub token : String
  pub claim_key : String
  pub impl_path : String
  pub order : GuardDecision

-- MergeOrderBlocked, what the lock raises, and an error of reading a task file.
pub data Refusal : Type 0 where
  order_blocked : GuardDecision → Refusal
  lock_refused : Error → Refusal
  unreadable : Refusal

pub data Guarded : Type 0 where
  granted : PeerMergeGuard → Guarded
  refused : Refusal → Guarded

abbrev pub claim_context : GuardContext
claim_context = record { guard = "merge-order"; category = "peer_claim" }

abbrev pub serial_guard : PeerMergeGuard
serial_guard = record {
  mode = serial;
  token = "";
  claim_key = "";
  impl_path = "";
  order = allow claim_context no_claim;
}

-- The guard of a claim whose lock was asked for.
abbrev pub with_token : Claim → GuardDecision → Lock × Result Token → Lock × Guarded
with_token claim order (l, ok t) = (
  l,
  granted (record {
    mode = peer;
    token = t.token;
    claim_key = claim.key;
    impl_path = claim.canonical_impl_path;
    order = order;
  }),
)
with_token claim order (l, err e) = (l, refused (lock_refused e))

-- What MergeLock.acquire is called with.
pub record Attempt : Type 0 where
  pub pid : ℕ
  pub token : String
  pub owner : String
  pub branch : String
  pub pr_number : Option ℕ
  pub now : ℕ

abbrev pub attempt : Attempt → Lock → Lock × Result Token
attempt a = acquire a.pid a.token a.owner a.branch a.pr_number a.now

abbrev pub in_order : Attempt → Lock → Claim → Option GuardDecision → Lock × Guarded
in_order a l claim none = (l, refused unreadable)
in_order a l claim (some order) =
    if not order.allowed
    then (l, refused (order_blocked order))
    else with_token claim order (attempt a l)

module _ (p : Platform) (tree : Tree) (digit : Digits) (b : Board) (external : String → Bool) where
  abbrev pub of_claim : Attempt → Lock → Option Claim → Lock × Guarded
  of_claim a l none = (l, granted serial_guard)
  of_claim a l (some claim) =
      if not (claim.state == "claimed")
      then (
        l,
        refused (
            order_blocked
              (block claim_context (claim_state claim.state) (claim.canonical_impl_path ∷ []))),
      )
      else in_order a l claim (check_merge_order p tree digit b external claim.canonical_impl_path)

  unfoldable pub acquire_peer_merge_guard : Attempt → Lock → Lock × Guarded
  unfolding find_claim_by_branch check_merge_order acquire
  acquire_peer_merge_guard a l = of_claim a l (find_claim_by_branch b a.branch)

  -- What a guard in peer mode rests on: the claim of the branch, still claimed, whose turn it is in
  -- the order of merges, and the lock, which was free and is now held with the guard's token.
  pub record IsEarned (a : Attempt) (l l' : Lock) (g : PeerMergeGuard) : Type 0 where
    pub claim : Claim
    pub found : IsFound b a.branch claim
    pub is_claimed : claim.state ≡ "claimed"
    pub its_path : g.impl_path ≡ claim.canonical_impl_path
    pub checked : check_merge_order p tree digit b external claim.canonical_impl_path ≡ some g.order
    pub in_turn : g.order.allowed ≡ true
    pub was_free : l.lock_file ≡ none
    pub is_held :
        l'.lock_file ≡ some (some (new_record a.pid a.token a.owner a.branch a.pr_number a.now))
    pub its_token : g.token ≡ a.token

  abbrev pub IsSound : Attempt → Lock → Lock × Guarded → Type 0
  IsSound a l (l', refused e) = l' ≡ l
  IsSound a l (l', granted g) =
      ((l' ≡ l) × (g ≡ serial_guard) × (find_claim_by_branch b a.branch ≡ none)) ⊎ IsEarned a l l' g

  module _ (a : Attempt) (claim : Claim) (found : IsFound b a.branch claim) where
    attempt-IsSound :
        (order : GuardDecision) (file : Option (Option LockRecord))
        (archive : Dict String LockRecord)
        → claim.state ≡ "claimed"
        → check_merge_order p tree digit b external claim.canonical_impl_path ≡ some order
        → order.allowed ≡ true
        → let l : Lock = record { lock_file = file; archive = archive } in
          IsSound a l (with_token claim order (attempt a l))
    unfolding acquire
    attempt-IsSound order none archive is_claimed checked in_turn = inr (record {
      claim = claim;
      found = found;
      is_claimed = is_claimed;
      its_path = refl;
      checked = checked;
      in_turn = in_turn;
      was_free = refl;
      is_held = refl;
      its_token = refl;
    })
    attempt-IsSound order (some r) archive is_claimed checked in_turn = refl

    in_order-IsSound :
        (l : Lock) (found_order : Option GuardDecision)
        → claim.state ≡ "claimed"
        → check_merge_order p tree digit b external claim.canonical_impl_path ≡ found_order
        → IsSound a l (in_order a l claim found_order)
    in_order-IsSound l none is_claimed checked = refl
    in_order-IsSound l (some order) is_claimed checked =
        (elim order.allowed
            as (λ x.
              (order.allowed ≡ x)
              → IsSound a l (
                  if not x
                  then (l, refused (order_blocked order))
                  else with_token claim order (attempt a l))) [
                    | true ↦ attempt-IsSound order l.lock_file l.archive is_claimed checked
                    | false ↦ λ e. refl
                  ])
          refl

  of_claim-IsSound :
      (a : Attempt) (l : Lock) (found : Option Claim)
      → find_claim_by_branch b a.branch ≡ found
      → IsSound a l (of_claim a l found)
  of_claim-IsSound a l none e = inl (refl, refl, e)
  of_claim-IsSound a l (some claim) e = elim (Bool-cases (claim.state == "claimed")) [
    | inl c ↦ rw c (
        in_order-IsSound a claim (find_claim_by_branch-IsFound b a.branch claim e) l _
          ((eq_iff claim.state "claimed").0 c) refl)
    | inr c ↦ rw c refl
  ]

  -- A guard in peer mode is given only for a claim of the branch that is on file and still claimed,
  -- whose merge the order allows, and only where the lock was free; the lock is then held with the
  -- guard's token. Where the guard is refused, or the branch has no claim and the guard is serial,
  -- the lock is as it was.
  pub acquire_peer_merge_guard-IsSound :
      (a : Attempt) (l : Lock) → IsSound a l (acquire_peer_merge_guard a l)
  unfolding acquire_peer_merge_guard
  acquire_peer_merge_guard-IsSound a l = of_claim-IsSound a l (find_claim_by_branch b a.branch) refl
