-- ===== src/Waves/Planner/Reports.antt =====
-- What a plan of `compute_waves` reports of itself.
use mathlib.Core.List.Perm
use mathlib.Core.List.{Perm, perm_middle}
use dc_ness.Base.{
  ℕ, zero, suc, ◌+◌, Text, text_eq, Bool, mem, true, false, List, [], ◌∷◌, ◌++◌, ◌≡◌, ◌≢◌, refl, ap,
  map, map-append, append_assoc, ◌⊎◌, inl, inr, All, All-append, arith, Bool-cases, keep, none,
  length, leb,
}
use dc_ness.Waves.Tasks.{
  ImplTask, Cause, WaveStep, Demotion, demotion, demotions, serial_demotions, parallel_steps,
  is_parallel, serial_only, serial_cause,
}
use dc_ness.Waves.Scopes.{Regex}
use dc_ness.Waves.Planner.{
  Batch, batch, slugs, deps_satisfied, is_serial, serial_cause_of, collect, behind, wave_step,
  ready_step, frontier_step, next_step, rounds, compute_waves,
}
use dc_ness.Waves.Planner.Plans.{scheduled, compute_waves-perm}

demoted : List WaveStep → List Text
demoted ss = map (λ d. d.slug) (demotions ss)

slugs-demotions :
    (s : WaveStep) (ts : List ImplTask) → map (λ d. d.slug) (map (demotion s) ts) ≡ slugs ts
slugs-demotions s [] = refl
slugs-demotions s (t ∷ ts) = ap (λ l. t.slug ∷ l) (slugs-demotions s ts)

regroup-perm : (a b c : List Text) → Perm (b ++ (a ++ c)) (a ++ (b ++ c))
regroup-perm a [] c = Perm.refl _
regroup-perm a (x ∷ b) c =
    Perm.trans (Perm.cons x (regroup-perm a b c)) (Perm.symm (perm_middle a (b ++ c)))

reports-perm :
    (ss : List WaveStep)
    → Perm
        (demoted ss ++ slugs (scheduled (keep (λ s. is_parallel s.mode) ss)))
        (slugs (scheduled ss))
unfolding demoted demotions
reports-perm [] = Perm.refl _
reports-perm (s ∷ ss) = elim (Bool-cases (is_parallel s.mode)) [
  | inl par ↦
      rw (par, map-append (λ (t : ImplTask). t.slug) s.tasks (scheduled ss))
        (rw
          (map-append (λ (t : ImplTask). t.slug) s.tasks
            (scheduled (keep (λ r. is_parallel r.mode) ss)))
          (Perm.trans (regroup-perm (slugs s.tasks) (demoted ss) _)
            (Perm.append_left (slugs s.tasks) (reports-perm ss))))
  | inr ser ↦
      rw
        (
          ser,
          map-append (λ (t : ImplTask). t.slug) s.tasks (scheduled ss),
          map-append (λ (d : Demotion). d.slug) (map (demotion s) s.tasks) (demotions ss),
          slugs-demotions s s.tasks,
          append_assoc (slugs s.tasks) (demoted ss) _,
        )
        (Perm.append_left (slugs s.tasks) (reports-perm ss))
]

-- Every task is reported once: as a serial demotion or in a parallel wave, never as both and never
-- as neither, each slug as often as it was given.
pub serial_demotions-perm :
    (re : Regex) (tasks : List ImplTask) (n : ℕ) (hr : List Text)
    → Perm
        (map (λ d. d.slug) (serial_demotions (compute_waves re tasks n hr))
          ++ slugs (scheduled (parallel_steps (compute_waves re tasks n hr))))
        (slugs tasks)
unfolding serial_demotions parallel_steps demoted
serial_demotions-perm re tasks n hr =
    Perm.trans (reports-perm (compute_waves re tasks n hr).steps) (compute_waves-perm re tasks n hr)

-- What the cause of a step says of each of its tasks.
abbrev pub Explains : Batch → (done : List Text) → Cause → ImplTask → Type 0
Explains b done Cause.parallel t = is_serial b t ≡ false
Explains b done Cause.forced t = t.force_serial ≡ true
Explains b done Cause.unknown_deps t = (t.force_serial ≡ false) × (t.depends_on ≡ none)
Explains b done Cause.scope_unnormalized t =
    (t.force_serial ≡ false)
    × (t.depends_on ≢ none)
    × ((t.scope_ambiguous ≡ true) ⊎ (t.scope_paths ≡ []))
Explains b done Cause.high_risk t = (mem t.slug b.high_risk ≡ true) × (serial_only t ≡ false)
Explains b done Cause.no_disjoint_pair t = is_serial b t ≡ false
Explains b done Cause.dep_unresolved t = deps_satisfied done b.in_batch t ≡ false
Explains b done Cause.serial t = ⊥

serial_cause_of-Explains :
    (b : Batch) (done : List Text) (t : ImplTask) (c : Cause)
    → is_serial b t ≡ true
    → serial_cause_of b t ≡ c
    → Explains b done c t
unfolding is_serial serial_cause_of serial_cause serial_only
serial_cause_of-Explains b done t Cause.parallel held e = ground arith
serial_cause_of-Explains b done t _ held e = ground arith

keep-none :
    (p : ImplTask → Bool) (t : ImplTask) (ts : List ImplTask) → keep p (t ∷ ts) ≡ [] → p t ≡ false
keep-none p t ts h = ground (arith, h)

module _ (re : Regex) (b : Batch) where
  abbrev pub IsExplained : (done : List Text) → WaveStep → Type 0
  IsExplained done s = All (Explains b done s.cause) s.tasks

  -- The cause of each step is true of its tasks, when the steps before it are done.
  abbrev pub AreExplained : (done : List Text) → List WaveStep → Type 0
  AreExplained done [] = Unit
  AreExplained done (s ∷ ss) = IsExplained done s × AreExplained (done ++ slugs s.tasks) ss

  wave_step-IsExplained :
      (done : List Text) (i : ℕ) (head : ImplTask) (wave : List ImplTask)
      → is_serial b head ≡ false
      → All (λ t. is_serial b t ≡ false) wave
      → IsExplained done (wave_step i head wave)
  unfolding wave_step
  wave_step-IsExplained done i head wave free h = elim (Bool-cases (leb 2 (length wave))) [
    | inl many ↦ rw many h
    | inr one ↦ rw one (free, tt)
  ]

  collect-free :
      (done : List Text) (wave cands : List ImplTask)
      → All (λ t. is_serial b t ≡ false) wave
      → All (λ t. is_serial b t ≡ false) (collect re b done wave cands)
  unfolding collect
  collect-free done wave [] h = h
  collect-free done wave (c ∷ cands) h =
      ground (arith, longer, collect-free done (wave ++ c ∷ []) cands)
    where
      longer : is_serial b c ≡ false → All (λ t. is_serial b t ≡ false) (wave ++ c ∷ [])
      longer free = All-append _ wave (c ∷ []) h (free, tt)

  ready_step-IsExplained :
      (i : ℕ) (done : List Text) (remaining : List ImplTask) (head : ImplTask)
      → IsExplained done (ready_step re b i done remaining head)
  unfolding ready_step
  ready_step-IsExplained i done remaining head = elim (Bool-cases (is_serial b head)) [
    | inl held ↦ rw held (serial_cause_of-Explains b done head _ held refl, tt)
    | inr free ↦ rw free (
        wave_step-IsExplained done i head _ free
          (collect-free done (head ∷ []) (behind head remaining) (free, tt)))
  ]

  frontier_step-IsExplained :
      (i : ℕ) (done : List Text) (first : ImplTask) (rest frontier : List ImplTask)
      → keep (deps_satisfied done b.in_batch) (first ∷ rest) ≡ frontier
      → IsExplained done (frontier_step re b i done first rest frontier)
  unfolding frontier_step
  frontier_step-IsExplained i done first rest [] none_ready =
      (keep-none (deps_satisfied done b.in_batch) first rest none_ready, tt)
  frontier_step-IsExplained i done first rest (head ∷ _) ready =
      ready_step-IsExplained i done (first ∷ rest) head

  rounds-IsExplained :
      (fuel i : ℕ) (done : List Text) (remaining : List ImplTask)
      → AreExplained done (rounds re b fuel i done remaining)
  unfolding rounds next_step
  rounds-IsExplained zero i done remaining = tt
  rounds-IsExplained (suc fuel) i done [] = tt
  rounds-IsExplained (suc fuel) i done (first ∷ rest) = (
    frontier_step-IsExplained (i + 1) done first rest _ refl,
    rounds-IsExplained fuel (i + 1) _ _,
  )

-- The machine-readable cause of each step is true of its tasks: `forced` ones are marked so,
-- `unknown_deps` and `scope_unnormalized` ones have that defect and are not forced, `high_risk` ones
-- were judged so and have no other reason, those of a wave or without a pair are not held back,
-- `dep_unresolved` ones wait for a task of the batch that no step before has finished, and the
-- fallback cause `serial` never occurs.
pub compute_waves-IsExplained :
    (re : Regex) (tasks : List ImplTask) (n : ℕ) (hr : List Text)
    → AreExplained re (batch tasks n hr) [] (compute_waves re tasks n hr).steps
unfolding compute_waves
compute_waves-IsExplained re tasks n hr = rounds-IsExplained re _ _ 0 [] tasks
