-- ===== src/Waves/Planner/Plans.antt =====
-- What `compute_waves` promises of the whole plan.
use mathlib.Core.List.Perm
use mathlib.Core.List.{Perm}
use dc_ness.Base.{
  ℕ, zero, suc, ◌+◌, ◌≤◌, Text, text_eq, List, [], ◌∷◌, ◌++◌, ◌≡◌, map-append, length, arith,
}
use dc_ness.Waves.Tasks.{ImplTask, WaveStep}
use dc_ness.Waves.Scopes.{Regex}
use dc_ness.Waves.Planner.{Batch, batch, slugs, remove_all, next_step, rounds, compute_waves}
use dc_ness.Waves.Planner.Embeds.{slugs-remove_all-perm, length-remove_all}
use dc_ness.Waves.Planner.Steps.{
  IsStep, next_step-IsStep, next_step-Embeds, next_step-pos, index-next_step,
}

-- The tasks of a plan, in the order of their steps.
abbrev pub scheduled : List WaveStep → List ImplTask
scheduled [] = []
scheduled (s ∷ ss) = s.tasks ++ scheduled ss

-- The steps are numbered from `i + 1`.
abbrev pub IsNumbered : ℕ → List WaveStep → Type 0
IsNumbered i [] = Unit
IsNumbered i (s ∷ ss) = (s.index ≡ i + 1) × IsNumbered (i + 1) ss

module _ (re : Regex) (b : Batch) where
  -- Each step is sound for the slugs that the steps before it finished.
  abbrev pub Follows : (done : List Text) → List WaveStep → Type 0
  Follows done [] = Unit
  Follows done (s ∷ ss) = IsStep re b done s × Follows (done ++ slugs s.tasks) ss

  -- A step that embeds leaves fewer tasks than the fuel that is left.
  pub length-left :
      (i fuel : ℕ) (done : List Text) (first : ImplTask) (rest : List ImplTask)
      → suc (length rest) ≤ suc fuel
      → length (remove_all (next_step re b i done first rest).tasks (first ∷ rest)) ≤ fuel
  length-left i fuel done first rest h = omega (
    arith,
    length-remove_all (next_step-Embeds re b done i first rest),
    next_step-pos re b done i first rest,
  )

  rounds-perm :
      (fuel i : ℕ) (done : List Text) (remaining : List ImplTask)
      → length remaining ≤ fuel
      → Perm (slugs (scheduled (rounds re b fuel i done remaining))) (slugs remaining)
  unfolding rounds
  rounds-perm zero i done [] h = Perm.refl _
  rounds-perm zero i done (t ∷ ts) h = absurd (omega arith)
  rounds-perm (suc fuel) i done [] h = Perm.refl _
  rounds-perm (suc fuel) i done (first ∷ rest) h =
      let s = next_step re b (i + 1) done first rest in
      let left = remove_all s.tasks (first ∷ rest) in
      rw (map-append (λ (t : ImplTask). t.slug) s.tasks _) (
        Perm.trans
          (Perm.append_left (slugs s.tasks) (
            rounds-perm fuel (i + 1) (done ++ slugs s.tasks) left
              (length-left (i + 1) fuel done first rest h)))
          (slugs-remove_all-perm (next_step-Embeds re b done (i + 1) first rest)))

  module _ (workers : 1 ≤ b.workers) where
    rounds-Follows :
        (fuel i : ℕ) (done : List Text) (remaining : List ImplTask)
        → Follows done (rounds re b fuel i done remaining)
    unfolding rounds
    rounds-Follows zero i done remaining = tt
    rounds-Follows (suc fuel) i done [] = tt
    rounds-Follows (suc fuel) i done (first ∷ rest) =
        (next_step-IsStep re b done workers (i + 1) first rest, rounds-Follows fuel (i + 1) _ _)

workers-pos : (tasks : List ImplTask) (n : ℕ) (hr : List Text) → 1 ≤ (batch tasks n hr).workers
workers-pos tasks n hr = ground arith

-- Every task is scheduled exactly once: the slugs of the plan's steps are those of the tasks, each
-- as often as it was given, for every limit of workers and every set of high-risk slugs. So the
-- fuel, one round for each task, is enough.
pub compute_waves-perm :
    (re : Regex) (tasks : List ImplTask) (n : ℕ) (hr : List Text)
    → Perm (slugs (scheduled (compute_waves re tasks n hr).steps)) (slugs tasks)
unfolding compute_waves
compute_waves-perm re tasks n hr =
    rounds-perm re (batch tasks n hr) (length tasks) 0 [] tasks (omega arith)

-- Every step of a plan is a serial step of one task, or a parallel wave of at least two and at most
-- `max_parallel_workers` tasks (1 where a smaller limit is given) in which no task is serial-only or high-risk and the scopes of
-- any two are disjoint. The in-batch predecessors of each task of a step are finished by the steps
-- before it, unless the step is reported as `dep_unresolved`.
pub compute_waves-Follows :
    (re : Regex) (tasks : List ImplTask) (n : ℕ) (hr : List Text)
    → Follows re (batch tasks n hr) [] (compute_waves re tasks n hr).steps
unfolding compute_waves
compute_waves-Follows re tasks n hr =
    rounds-Follows re (batch tasks n hr) (workers-pos tasks n hr) (length tasks) 0 [] tasks

rounds-IsNumbered :
    (re : Regex) (b : Batch) (fuel i : ℕ) (done : List Text) (remaining : List ImplTask)
    → IsNumbered i (rounds re b fuel i done remaining)
unfolding rounds
rounds-IsNumbered re b zero i done remaining = tt
rounds-IsNumbered re b (suc fuel) i done [] = tt
rounds-IsNumbered re b (suc fuel) i done (first ∷ rest) =
    (index-next_step re b done (i + 1) first rest, rounds-IsNumbered re b fuel (i + 1) _ _)

-- The steps of a plan are numbered 1, 2, 3 and so on.
pub compute_waves-IsNumbered :
    (re : Regex) (tasks : List ImplTask) (n : ℕ) (hr : List Text)
    → IsNumbered 0 (compute_waves re tasks n hr).steps
unfolding compute_waves
compute_waves-IsNumbered re tasks n hr = rounds-IsNumbered re _ _ 0 [] tasks
