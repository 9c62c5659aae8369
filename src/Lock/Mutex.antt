-- ===== src/Lock/Mutex.antt =====
-- harness/merge_lock.py, class MergeLock. Each operation returns the lock that it leaves, also where
-- it raises. The process's number and the fresh token are arguments. Each operation is
-- one step here. In the code that is so of the creation of the file in `acquire`;
-- `release` and `break_stale` read the file, check it, write the archive and unlink the file one
-- after the other, and what another process does in between is not modelled.
use dc_ness.Base.{
  ℕ, String, string_eq, Bool, false, not, Option, none, some, if◌then◌else◌, ◌==◌, ltb, ◌-◌,
}
use dc_ness.Base.Dict.{put}
use dc_ness.Lock.Records.{
  LockRecord, Lock, held_by, not_stale, token_mismatch, json_error, Result, ok, err, Token, Outcome,
  missing, gone,
}

-- `record.get("owner") or record.get("branch") or "unknown"`
unfoldable pub holder : LockRecord → String
holder r =
    if not (r.owner == "") then r.owner else if not (r.branch == "") then r.branch else "unknown"

-- The holder that the refusal of `acquire` names.
abbrev pub holder_in : Option LockRecord → String
holder_in none = "unknown"
holder_in (some r) = holder r

unfoldable pub is_stale : LockRecord → (stale_after_seconds now : ℕ) → Bool
is_stale r stale_after_seconds now = elim r.acquired_at [
  | none ↦ false
  | some acquired ↦ ltb stale_after_seconds (now - acquired)
]

unfoldable pub archive_and_unlink : LockRecord → Lock → Lock
archive_and_unlink r l = record { lock_file = none; archive = put r.token r l.archive }

abbrev pub given_reason : String → Option String → Option String
given_reason reason old = if reason == "" then old else some reason

abbrev pub new_record : (pid : ℕ) (token owner branch : String) → Option ℕ → (now : ℕ) → LockRecord
new_record pid token owner branch pr_number now = record {
  token = token;
  owner = owner;
  branch = branch;
  pr_number = pr_number;
  pid = pid;
  state = "locked";
  acquired_at = some now;
  released_at = none;
  broken_by = none;
  stale_after_seconds = none;
  reason = none;
}

unfoldable pub acquire :
    (pid : ℕ) (token owner branch : String) → Option ℕ → (now : ℕ) → Lock → Lock × Result Token
unfolding holder
acquire pid token owner branch pr_number now l =
    let r = new_record pid token owner branch pr_number now in
    elim l.lock_file [
      | none ↦
          (record l { lock_file = some (some r) }, ok (record { token = token; lock_record = r }))
      | some existing ↦ (l, err (held_by (holder_in existing)))
    ]

-- What `release` and `break_stale` do with the record that they read.
abbrev pub with_lock :
    Lock → Option (Option LockRecord) → (LockRecord → Lock × Result Outcome) → Lock × Result Outcome
with_lock l none f = (l, ok missing)
with_lock l (some none) f = (l, err json_error)
with_lock l (some (some r)) f = f r

unfoldable pub release : (token state reason : String) (now : ℕ) → Lock → Lock × Result Outcome
unfolding archive_and_unlink
release token state reason now l = with_lock l l.lock_file λ r.
    let r' = record r {
      state = state;
      released_at = some now;
      reason = given_reason reason r.reason;
    } in
    if not (r.token == token)
    then (l, err token_mismatch)
    else (archive_and_unlink r' l, ok (gone r'))

unfoldable pub break_stale :
    (owner : String) (stale_after_seconds : ℕ) (reason : String) (now : ℕ)
    → Lock
    → Lock × Result Outcome
unfolding archive_and_unlink holder is_stale
break_stale owner stale_after_seconds reason now l = with_lock l l.lock_file λ r.
    let r' = record r {
      state = "stale_broken";
      released_at = some now;
      broken_by = some owner;
      stale_after_seconds = some stale_after_seconds;
      reason = given_reason reason r.reason;
    } in
    if not (is_stale r stale_after_seconds now)
    then (l, err (not_stale (holder r)))
    else (archive_and_unlink r' l, ok (gone r'))
