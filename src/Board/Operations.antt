-- ===== src/Board/Operations.antt =====
-- harness/wave_board.py, the operations of WaveBoard. Each returns the board that it leaves, also
-- where it raises.
use mathlib.Core.Bool.{true, false}
use dc_ness.Base.{
  ℕ, String, string_eq, Bool, not, ◌||◌, Option, none, some, List, [], ◌∷◌, ◌++◌, if◌then◌else◌,
  ◌==◌,
}
use dc_ness.Base.Dict.{lookup, put, delete}
use dc_ness.Board.Records.{
  Platform, Registration, Claim, Board, empty_board, already_completed, failed_requires_reclaim,
  stale_requires_reclaim, already_claimed, identity_mismatch, completed_not_reclaimable, Error,
  conflict, file_not_found, json_error, Result, ok, err, serial, peer, ClaimResult, canonical_path,
  key_for_path, key_from_key_or_path, is_stale,
}

-- `reset` removes the board's directory.
unfoldable reset : Board → Board
reset b = empty_board

-- What a claim is made with.
pub record Claimant : Type 0 where
  pub session_id : String
  pub run_id : String
  pub worktree : String
  pub branch : String

abbrev pub Action : Type 0 → Type 0
Action A = Board → Board × Result A

-- `_read_json` of a claim file.
unfoldable pub read_claim : Board → String → Result Claim
read_claim b key = elim (lookup key b.claims) [
  | none ↦ err file_not_found
  | some none ↦ err json_error
  | some (some r) ↦ ok r
]

-- Reads a claim, and goes on with it; an error of the reading is passed on.
abbrev pub with_claim {ℓ} :
    {A : Type ℓ} → Board → Result Claim → (Claim → Board × Result A) → Board × Result A
with_claim b (ok r) f = f r
with_claim b (err e) f = (b, err e)

unfoldable pub write_claim : String → Claim → Board → Board
write_claim key r b = record b { claims = put key (some r) b.claims }

unfoldable pub archive_record : String → Claim → Board → Board
archive_record key r b = record b { archive = b.archive ++ (key, r) ∷ [] }

unfoldable pub unlink_claim : String → Board → Board
unlink_claim key b = record b { claims = delete key b.claims }

abbrev pub or_else {ℓ} : {A : Type ℓ} → Option A → Option A → Option A
or_else none d = d
or_else (some a) d = some a

-- A text that is truthy.
abbrev pub truthy : Option String → Option String
truthy none = none
truthy (some s) = if s == "" then none else some s

abbrev pub says_completed : Result Claim → Bool
says_completed (ok r) = r.state == "completed"
says_completed (err e) = false

-- Which ClaimConflict a claim raises where the claim file exists.
unfoldable pub refusal : Claim → (now stale_after_seconds : ℕ) → Error
refusal existing now stale_after_seconds =
    if existing.state == "completed"
    then conflict already_completed false existing
    else if existing.state == "failed"
    then conflict failed_requires_reclaim false existing
    else if is_stale existing now stale_after_seconds
    then conflict stale_requires_reclaim true existing
    else conflict already_claimed false existing

module _ (p : Platform) where
  abbrev pub registration : String → Option String → ℕ → Registration
  registration raw plan_id now =
      let canonical = canonical_path p raw in
      record {
        key = key_for_path p canonical;
        canonical_impl_path = canonical;
        impl_name = p.name canonical;
        impl_slug = p.stem canonical;
        plan_id = plan_id;
        state = "registered";
        registered_at = now;
      }

  unfoldable pub register : List String → Option String → ℕ → Action (List Registration)
  register [] plan_id now b = (b, ok [])
  register (raw ∷ paths) plan_id now b =
      let r = registration raw plan_id now in
      let (b', result) =
        register paths plan_id now
          (record b { registrations = put r.key (some r) b.registrations }) in
      (b', elim result [ ok rs ↦ ok (r ∷ rs) | err e ↦ err e ])

  unfoldable pub is_registered : String → Board → Bool
  is_registered path b = elim (lookup (key_for_path p path) b.registrations) [
    | none ↦ false
    | some r ↦ true
  ]

  abbrev pub new_claim : String → Claimant → ℕ → Claim
  new_claim canonical who now = record {
    key = key_for_path p canonical;
    canonical_impl_path = canonical;
    impl_name = p.name canonical;
    impl_slug = p.stem canonical;
    session_id = who.session_id;
    run_id = who.run_id;
    worktree = who.worktree;
    branch = who.branch;
    state = "claimed";
    claimed_at = now;
    heartbeat_at = some now;
    heartbeat_pid = p.pid;
    completed_at = none;
    released_at = none;
    reclaimed_at = none;
    pr_number = none;
    url = none;
    reason = none;
  }

  -- O_EXCL creation of the claim file.
  abbrev pub create_claim :
      String
      → String
      → Claimant
      → (now stale_after_seconds : ℕ) → Option (Option Claim)
      → Action ClaimResult
  create_claim key canonical who now stale_after_seconds none b =
      let r = new_claim canonical who now in
      (
        write_claim key r b,
        ok (record {
          mode = peer;
          claimed = true;
          key = key;
          canonical_impl_path = canonical;
          claim_record = some r;
        }),
      )
  create_claim key canonical who now stale_after_seconds (some none) b = (b, err json_error)
  create_claim key canonical who now stale_after_seconds (some (some existing)) b =
      (b, err (refusal existing now stale_after_seconds))

  unfoldable pub claim_if_registered :
      String → Claimant → (now stale_after_seconds : ℕ) → Action ClaimResult
  unfolding refusal
  claim_if_registered path who now stale_after_seconds b =
      let canonical = canonical_path p path in
      let key = key_for_path p canonical in
      if not (is_registered canonical b)
      then (
        b,
        ok (record {
          mode = serial;
          claimed = false;
          key = key;
          canonical_impl_path = canonical;
          claim_record = none;
        }),
      )
      else create_claim key canonical who now stale_after_seconds (lookup key b.claims) b

  unfoldable pub get_record : String → Board → Result Claim
  unfolding read_claim
  get_record key_or_path b = read_claim b (key_from_key_or_path p key_or_path)

  unfoldable pub heartbeat : String → (session_id run_id : String) → ℕ → Action Claim
  unfolding get_record
  heartbeat key_or_path session_id run_id now b =
      let key = key_from_key_or_path p key_or_path in
      with_claim b (get_record key b) λ r.
        if not (r.session_id == session_id) || not (r.run_id == run_id)
        then (b, err (conflict identity_mismatch false r))
        else (let r' = record r { heartbeat_at = some now; heartbeat_pid = p.pid } in
            (write_claim key r' b, ok r'))

  unfoldable pub complete : String → Option ℕ → Option String → ℕ → Action Claim
  unfolding get_record
  complete key_or_path pr_number url now b =
      let key = key_from_key_or_path p key_or_path in
      with_claim b (get_record key b) λ r.
        let r' = record r {
          state = "completed";
          completed_at = some now;
          pr_number = or_else pr_number r.pr_number;
          url = or_else (truthy url) r.url;
        } in
        (write_claim key r' b, ok r')

  unfoldable pub release : String → (state reason : String) → ℕ → Action Claim
  unfolding get_record
  release key_or_path state reason now b =
      let key = key_from_key_or_path p key_or_path in
      with_claim b (get_record key b) λ r.
        let r' = record r {
          state = state;
          released_at = some now;
          reason = or_else (truthy (some reason)) r.reason;
        } in
        if r.state == "completed"
        then (b, ok r)
        else if state == "released"
        then (unlink_claim key (archive_record key r' b), ok r')
        else (write_claim key r' b, ok r')

  unfoldable pub reclaim : String → (reason : String) → ℕ → Action Claim
  unfolding read_claim
  reclaim key_or_path reason now b =
      let key = key_from_key_or_path p key_or_path in
      with_claim b (read_claim b key) λ r.
        let r' = record r {
          state = "stale_reclaimed";
          reclaimed_at = some now;
          reason = some reason;
        } in
        if r.state == "completed"
        then (b, err (conflict completed_not_reclaimable false r))
        else (unlink_claim key (archive_record key r' b), ok r')

  unfoldable pub is_completed : String → Board → Bool
  is_completed path b = says_completed (read_claim b (key_for_path p path))
