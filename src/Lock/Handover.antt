-- ===== src/Lock/Handover.antt =====
-- From one holder of the lock to the next.
use dc_ness.Base.{
  ℕ, String, string_eq, Option, some, ◌==◌, ◌≡◌, ◌≢◌, refl, true, eq_iff, Bool-cases, inl, inr,
  if◌then◌else◌,
}
use dc_ness.Base.Dict.{lookup, lookup-put}
use dc_ness.Lock.Records.{LockRecord, Lock, ok, err, gone, held_by, token_mismatch}
use dc_ness.Lock.Mutex.{new_record, holder, acquire, release, given_reason}

-- The record that a release leaves in the archive.
abbrev pub released : LockRecord → (state reason : String) (now : ℕ) → LockRecord
released r state reason now = record r {
  state = state;
  released_at = some now;
  reason = given_reason reason r.reason;
}

module _ (l : Lock) (r : LockRecord) (held : l.lock_file ≡ some (some r)) where
  -- While a record holds the lock, every acquire is refused in its holder's name and every release
  -- with another token as a mismatch, and both leave the lock as it is.
  pub held-refused :
      (pid : ℕ) (token owner branch : String) (pr_number : Option ℕ) (state reason : String)
      (now : ℕ)
      → r.token ≢ token
      → (acquire pid token owner branch pr_number now l ≡ (l, err (held_by (holder r))))
        × (release token state reason now l ≡ (l, err token_mismatch))
  unfolding acquire release
  held-refused pid token owner branch pr_number state reason now other =
      elim (Bool-cases (r.token == token)) [
        | inl e ↦ absurd (other ((eq_iff r.token token).0 e))
        | inr e ↦ (rw held, rw (held, e))
      ]

  -- The holder's release succeeds: its record goes to the archive under its token, with the state
  -- and the moment of the release, the archive keeps all else, and whoever comes next takes the
  -- lock.
  pub release-acquire :
      (state reason other : String) (now : ℕ) (pid : ℕ) (token owner branch : String)
      (pr_number : Option ℕ) (later : ℕ)
      → let after = release r.token state reason now l in
        let next = acquire pid token owner branch pr_number later after.0 in
        (after.1 ≡ ok (gone (released r state reason now)))
        × (lookup other after.0.archive ≡ (
            if r.token == other
            then some (released r state reason now)
            else lookup other l.archive))
        × (next.0.lock_file ≡ some (some (new_record pid token owner branch pr_number later)))
        × (next.1
            ≡ ok (record {
              token = token;
              lock_record = new_record pid token owner branch pr_number later;
            }))
  unfolding acquire release
  release-acquire state reason other now pid token owner branch pr_number later =
      let same : (r.token == r.token) ≡ true = (eq_iff r.token r.token).1 refl in
      (rw (held, same), rw (held, same) (lookup-put _ _ _ _), rw (held, same), rw (held, same))
