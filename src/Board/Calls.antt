-- ===== src/Board/Calls.antt =====
-- What the calls of the board answer, one after another.
use dc_ness.Base.{
  ℕ, String, string_eq, true, false, Option, none, some, ◌≡◌, ◌≢◌, refl, ◌∙◌, ◌⊎◌, arith, eq_iff,
}
use dc_ness.Base.Dict.{lookup, lookup-put}
use dc_ness.Board.Records.{
  Platform, Claim, Board, Error, conflict, already_completed, already_claimed,
  stale_requires_reclaim, Result, ok, err, canonical_path, key_for_path, key_from_key_or_path,
}
use dc_ness.Board.Operations.{
  Claimant, read_claim, with_claim, write_claim, claim_if_registered, is_registered, create_claim,
  refusal, complete, is_completed, new_claim, heartbeat, release, reclaim, get_record, or_else,
  truthy,
}
use dc_ness.Board.Machine.{IsHexDigest, get_record-read}
use dc_ness.Board.Claims.{IsDone}

module _ (p : Platform) where
  -- The key that a claim of the path uses.
  abbrev pub claim_key : String → String
  claim_key path = key_for_path p (canonical_path p path)

  -- A claim of a held path is refused, and changes nothing.
  abbrev pub IsRefused : String → Claimant → (now stale : ℕ) → Claim → Board → Type 0
  IsRefused path who now stale r b =
      (claim_if_registered p path who now stale b ≡ (b, err (conflict already_claimed false r)))
      ⊎ (claim_if_registered p path who now stale b
          ≡ (b, err (conflict stale_requires_reclaim true r)))

  held-IsRefused :
      (path : String) (who : Claimant) (now stale : ℕ) (r : Claim) (b : Board)
      → is_registered p (canonical_path p path) b ≡ true
      → lookup (claim_key path) b.claims ≡ some (some r)
      → r.state ≡ "claimed"
      → IsRefused path who now stale r b
  unfolding claim_if_registered refusal
  held-IsRefused path who now stale r b reg held fresh = rw (reg, held, fresh) (ground arith)

  registered-write :
      (path key : String) (r : Claim) (b : Board)
      → is_registered p path (write_claim key r b) ≡ is_registered p path b
  unfolding is_registered write_claim
  registered-write path key r b = refl

  lookup-write :
      (key : String) (r : Claim) (b : Board)
      → lookup key (write_claim key r b).claims ≡ some (some r)
  unfolding write_claim
  lookup-write key r b = ground (arith, lookup-put key key (some r) b.claims, eq_iff key key)

  lookup-registered :
      (path : String) (b : Board)
      → is_registered p path b ≡ true
      → lookup (key_for_path p path) b.registrations ≢ none
  unfolding is_registered
  lookup-registered path b h = ground arith

  -- A registered path that nobody holds is claimed as a peer.
  free-claimed :
      (path : String) (who : Claimant) (now stale : ℕ) (b : Board)
      → is_registered p (canonical_path p path) b ≡ true
      → lookup (claim_key path) b.claims ≡ none
      → (claim_if_registered p path who now stale b).0
        ≡ write_claim (claim_key path) (new_claim p (canonical_path p path) who now) b
  unfolding claim_if_registered
  free-claimed path who now stale b reg free = rw (reg, free)

-- Where a registered path is free, one session's claim takes it, and from the board that it leaves
-- every further claim of the path, by whomever and whenever, is refused with the first holder's
-- record and changes nothing.
pub claim_if_registered_once :
    (p : Platform) (path : String) (who other : Claimant) (now stale now' stale' : ℕ) (b : Board)
    → is_registered p (canonical_path p path) b ≡ true
    → lookup (claim_key p path) b.claims ≡ none
    → IsRefused p path other now' stale'
        (new_claim p (canonical_path p path) who now)
        (claim_if_registered p path who now stale b).0
claim_if_registered_once p path who other now stale now' stale' b reg free =
    let r = new_claim p (canonical_path p path) who now in
    let key = claim_key p path in
    rw (free-claimed p path who now stale b reg free) (
      held-IsRefused p path other now' stale' r (write_claim key r b)
        (registered-write p (canonical_path p path) key r b ∙ reg) (lookup-write p key r b) refl)

-- A claim of a registered path whose claim is completed is refused as completed.
claim_if_registered-IsDone :
    (p : Platform) (path : String) (who : Claimant) (now stale : ℕ) (b : Board)
    → is_registered p (canonical_path p path) b ≡ true
    → IsDone (claim_key p path) b
    → (r : Claim) × (claim_if_registered p path who now stale b
        ≡ (b, err (conflict already_completed false r)))
unfolding claim_if_registered refusal
claim_if_registered-IsDone p path who now stale b reg done =
    go (lookup (claim_key p path) b.claims) refl
  where
    go :
        (found : Option (Option Claim))
        → lookup (claim_key p path) b.claims ≡ found
        → (r : Claim) × (claim_if_registered p path who now stale b
            ≡ (b, err (conflict already_completed false r)))
    go none e = cc
    go (some none) e = cc
    go (some (some r)) e = (r, ground (arith, eq_iff r.state "completed"))

-- A call of the board, with its arguments.
pub data Call : Type 0 where
  claim_call : (path : String) → Claimant → (now stale : ℕ) → Call
  heartbeat_call : (v session_id run_id : String) → ℕ → Call
  complete_call : (v : String) → Option ℕ → Option String → ℕ → Call
  release_call : (v state reason : String) → ℕ → Call
  reclaim_call : (v reason : String) → ℕ → Call

abbrev pub raised {ℓ} : {A : Type ℓ} → Board × Result A → Board × Option Error
raised (b, ok a) = (b, none)
raised (b, err e) = (b, some e)

-- The board that a call leaves, and what it raises.
unfoldable pub perform : Platform → Call → Board → Board × Option Error
perform p (claim_call path who now stale) b = raised (claim_if_registered p path who now stale b)
perform p (heartbeat_call v session_id run_id now) b =
    raised (heartbeat p v session_id run_id now b)
perform p (complete_call v pr_number url now) b = raised (complete p v pr_number url now b)
perform p (release_call v state reason now) b = raised (release p v state reason now b)
perform p (reclaim_call v reason now) b = raised (reclaim p v reason now b)

with_claim-error :
    {A : Type 0} (b : Board) (m : Result Claim) (f : Claim → Board × Result A) (e : Error)
    → ((r : Claim) → (raised (f r)).1 ≡ some e → (raised (f r)).0 ≡ b)
    → (raised (with_claim b m f)).1 ≡ some e
    → (raised (with_claim b m f)).0 ≡ b
with_claim-error b (ok r) f e h k = h r k
with_claim-error b (err x) f e h k = refl

create_claim-error :
    (p : Platform) (key canonical : String) (who : Claimant) (now stale : ℕ)
    (found : Option (Option Claim)) (b : Board) (e : Error)
    → (raised (create_claim p key canonical who now stale found b)).1 ≡ some e
    → (raised (create_claim p key canonical who now stale found b)).0 ≡ b
create_claim-error p key canonical who now stale none b e k = cc
create_claim-error p key canonical who now stale (some none) b e k = refl
create_claim-error p key canonical who now stale (some (some r)) b e k = refl

-- A call that raises leaves the board as it was.
perform-error :
    (p : Platform) (call : Call) (b : Board) (e : Error)
    → (perform p call b).1 ≡ some e
    → (perform p call b).0 ≡ b
unfolding perform claim_if_registered heartbeat complete release reclaim
perform-error p (claim_call path who now stale) b e k = ground (
  arith,
  create_claim-error p (claim_key p path) (canonical_path p path) who now stale
      (lookup (claim_key p path) b.claims) b e,
)
perform-error p (heartbeat_call v session_id run_id now) b e k =
    with_claim-error b (get_record p (key_from_key_or_path p v) b) _ e (λ r h. ground arith) k
perform-error p (complete_call v pr_number url now) b e k =
    with_claim-error b (get_record p (key_from_key_or_path p v) b) _ e (λ r h. cc) k
perform-error p (release_call v state reason now) b e k =
    with_claim-error b (get_record p (key_from_key_or_path p v) b) _ e (λ r h. ground arith) k
perform-error p (reclaim_call v reason now) b e k =
    with_claim-error b (read_claim b (key_from_key_or_path p v)) _ e (λ r h. ground arith) k

-- The record that a completion writes.
abbrev completed_claim : Claim → Option ℕ → Option String → ℕ → Claim
completed_claim r pr_number url now = record r {
  state = "completed";
  completed_at = some now;
  pr_number = or_else pr_number r.pr_number;
  url = or_else (truthy url) r.url;
}

read-write : (key : String) (r : Claim) (b : Board) → read_claim (write_claim key r b) key ≡ ok r
unfolding read_claim write_claim
read-write key r b = ground (arith, lookup-put key key (some r) b.claims, eq_iff key key)

module _ (p : Platform) (hex : IsHexDigest p) (path : String) (b : Board) (r : Claim) where
  complete_lem :
      (pr_number : Option ℕ) (url : Option String) (now : ℕ)
      → key_from_key_or_path p path ≡ key_for_path p path
      → read_claim b (key_for_path p path) ≡ ok r
      → complete p path pr_number url now b ≡ (
        write_claim (key_for_path p path) (completed_claim r pr_number url now) b,
        ok (completed_claim r pr_number url now),
      )
  unfolding complete
  complete_lem pr_number url now plain held =
      let found = get_record-read p hex path b in rw (found, plain, held)

  is_completed-write :
      (r' : Claim)
      → r'.state ≡ "completed"
      → is_completed p path (write_claim (key_for_path p path) r' b) ≡ true
  unfolding is_completed
  is_completed-write r' done = rw (read-write (key_for_path p path) r' b, done)

-- Where the claim of a path can be read, completing it raises nothing, and the path is completed on
-- the board that it leaves; for a path that is not itself 24 hexadecimal digits, and a digest that
-- is.
complete-is_completed :
    (p : Platform) (path : String) (b : Board) (r : Claim) (pr_number : Option ℕ)
    (url : Option String) (now : ℕ)
    → IsHexDigest p
    → key_from_key_or_path p path ≡ key_for_path p path
    → read_claim b (key_for_path p path) ≡ ok r
    → ((perform p (complete_call path pr_number url now) b).1 ≡ none)
      × (is_completed p path (perform p (complete_call path pr_number url now) b).0 ≡ true)
unfolding perform
complete-is_completed p path b r pr_number url now hex plain held =
    let done = complete_lem p hex path b r pr_number url now plain held in
    rw done (refl, is_completed-write p hex path b r (completed_claim r pr_number url now) refl)
