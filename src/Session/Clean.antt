-- ===== src/Session/Clean.antt =====
-- harness/session_state.py, stale_runs_cleaned: the runs that are left.
use dc_ness.Base.{
  ℕ, Text, text_eq, Bool, Option, none, [], ◌∷◌, ◌≡◌, ◌⊎◌, inl, inr, refl, ap, arith, Bool-cases,
  keep,
}
use dc_ness.Base.Dict.{lookup, IsUnique}
use dc_ness.Session.Records.{Slot}
use dc_ness.Session.Runs.{Runs, find_slot, slot_of}
use dc_ness.Session.Runtime.{clean_stale_runs, survives}

module _ (p : Text × Option Slot → Bool) where
  keep-none : (k : Text) (d : Runs) → lookup k d ≡ none → lookup k (keep p d) ≡ none
  unfolding lookup
  keep-none k [] h = refl
  keep-none k ((j, v) ∷ d) h = ground (arith, keep-none k d)

  keep-IsUnique : (d : Runs) → IsUnique d → IsUnique (keep p d)
  keep-IsUnique [] u = tt
  keep-IsUnique ((j, v) ∷ d) u = elim (Bool-cases (p (j, v))) [
    | inl q ↦ rw q (keep-none j d u.0, keep-IsUnique d u.1)
    | inr q ↦ rw q (keep-IsUnique d u.1)
  ]

  lookup-keep :
      (k : Text) (d : Runs)
      → IsUnique d
      → (lookup k (keep p d) ≡ lookup k d) ⊎ (lookup k (keep p d) ≡ none)
  unfolding lookup
  lookup-keep k [] u = inl refl
  lookup-keep k ((j, v) ∷ d) u =
      ground (arith, lookup-keep k d u.1, keep-none j d u.0, text_eq.same_iff j k)

-- Every run that is left is one that was there, with the slot that it had.
pub clean-find_slot :
    (now ttl : ℕ) (active : Runs) (rid : Text)
    → IsUnique active
    → (find_slot (clean_stale_runs now ttl active) rid ≡ find_slot active rid)
      ⊎ (find_slot (clean_stale_runs now ttl active) rid ≡ none)
unfolding find_slot clean_stale_runs
clean-find_slot now ttl active rid u = elim (lookup-keep (λ r. survives now ttl r.1) rid active u) [
  | inl e ↦ inl (ap slot_of e)
  | inr e ↦ inr (ap slot_of e)
]

pub clean-IsUnique :
    (now ttl : ℕ) (active : Runs) → IsUnique active → IsUnique (clean_stale_runs now ttl active)
unfolding clean_stale_runs
clean-IsUnique now ttl active u = keep-IsUnique (λ r. survives now ttl r.1) active u
