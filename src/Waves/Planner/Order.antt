-- ===== src/Waves/Planner/Order.antt =====
-- When `compute_waves` keeps the order of the tasks, and when it never reports a cycle.
use dc_ness.Base.{
  ℕ, zero, suc, ◌+◌, ◌≤◌, Text, text_eq, mem, Bool, true, false, not, ◌&&◌, Option, none, some,
  List, [], ◌∷◌, ◌++◌, ◌≡◌, refl, subst, sym, ap, ◌∙◌, ◌⊎◌, inl, inr, append-nil, append_assoc, All,
  all, length, leb, arith, Bool-cases,
}
use dc_ness.Waves.Tasks.{ImplTask}
use dc_ness.Waves.Scopes.{Regex}
use dc_ness.Waves.Planner.{
  Batch, batch, slugs, deps_satisfied, is_serial, behind, remove_all, wave_step, ready_step,
  next_step, frontier_step, rounds, compute_waves,
}
use dc_ness.Waves.Planner.Equality.{task_beq_refl}
use dc_ness.Waves.Planner.Steps.{collect-prefix}
use dc_ness.Waves.Planner.Plans.{scheduled, length-left}

-- Every predecessor of the task that is in the batch stands among `seen`.
abbrev pub DepsWithin : (in_batch seen : List Text) → Option (List Text) → Type 0
DepsWithin in_batch seen none = Unit
DepsWithin in_batch seen (some deps) =
    All (λ d. (mem d in_batch ≡ false) ⊎ (mem d seen ≡ true)) deps

-- Every task stands behind its in-batch predecessors.
abbrev pub IsOrdered : (in_batch seen : List Text) → List ImplTask → Type 0
IsOrdered in_batch seen [] = Unit
IsOrdered in_batch seen (t ∷ ts) =
    DepsWithin in_batch seen t.depends_on × IsOrdered in_batch (seen ++ t.slug ∷ []) ts

all-satisfied :
    (in_batch done deps : List Text)
    → All (λ d. (mem d in_batch ≡ false) ⊎ (mem d done ≡ true)) deps
    → all (λ d. not (mem d in_batch && not (mem d done))) deps ≡ true
all-satisfied in_batch done [] h = refl
all-satisfied in_batch done (d ∷ deps) h = ground (arith, h.0, all-satisfied in_batch done deps h.1)

pub DepsWithin→deps_satisfied :
    (in_batch done : List Text) (t : ImplTask)
    → DepsWithin in_batch done t.depends_on
    → deps_satisfied done in_batch t ≡ true
unfolding deps_satisfied
DepsWithin→deps_satisfied in_batch done t = go t.depends_on
  where
    go :
        (d : Option (List Text))
        → DepsWithin in_batch done d
        → (elim d as (λ _. Bool) [
          | none ↦ true
          | some deps ↦ all (λ dep. not (mem dep in_batch && not (mem dep done))) deps
        ])
          ≡ true
    go none h = refl
    go (some deps) h = all-satisfied in_batch done deps h

remove_all-prefix : (cs rest : List ImplTask) → remove_all cs (cs ++ rest) ≡ rest
unfolding remove_all
remove_all-prefix [] rest = refl
remove_all-prefix (c ∷ cs) rest = rw (task_beq_refl c) (remove_all-prefix cs rest)

IsOrdered-drop :
    (in_batch seen : List Text) (xs ys : List ImplTask)
    → IsOrdered in_batch seen (xs ++ ys)
    → IsOrdered in_batch (seen ++ slugs xs) ys
IsOrdered-drop in_batch seen [] ys h = rw append-nil h
IsOrdered-drop in_batch seen (x ∷ xs) ys h =
    subst (λ l. IsOrdered in_batch l ys) (append_assoc seen (x.slug ∷ []) (slugs xs))
      (IsOrdered-drop in_batch (seen ++ x.slug ∷ []) xs ys h.1)

module _ (re : Regex) (b : Batch) (done : List Text) where
  -- Where the first task is ready, a round takes a stretch from the front.
  wave_step-prefix :
      (i : ℕ) (head : ImplTask) (wave more rest : List ImplTask)
      → wave ≡ head ∷ more
      → (left : List ImplTask) × (head ∷ (more ++ rest) ≡ (wave_step i head wave).tasks ++ left)
  unfolding wave_step
  wave_step-prefix i head wave more rest e = elim (Bool-cases (leb 2 (length wave))) [
    | inl many ↦ rw many (rest, ap (λ (l : List ImplTask). l ++ rest) (sym e))
    | inr one ↦ rw one (more ++ rest, refl)
  ]

  ready_step-prefix :
      (i : ℕ) (first : ImplTask) (rest : List ImplTask)
      → (left : List ImplTask) × (first ∷ rest
          ≡ (ready_step re b i done (first ∷ rest) first).tasks ++ left)
  unfolding ready_step behind
  ready_step-prefix i first rest = elim (Bool-cases (is_serial b first)) [
    | inl held ↦ rw held (rest, refl)
    | inr free ↦
        let (more, rest', wave, split) = collect-prefix re b done (first ∷ []) rest in
        let (left, e) = wave_step-prefix i first _ more rest' wave in
        rw (free, task_beq_refl first) (left, ap (λ l. first ∷ l) split ∙ e)
  ]

  next_step-prefix :
      (i : ℕ) (first : ImplTask) (rest : List ImplTask)
      → deps_satisfied done b.in_batch first ≡ true
      → (left : List ImplTask) × (first ∷ rest ≡ (next_step re b i done first rest).tasks ++ left)
  unfolding next_step frontier_step
  next_step-prefix i first rest ready = rw ready (ready_step-prefix i first rest)

module _ (re : Regex) (b : Batch) where
  rounds_in_order :
      (fuel i : ℕ) (done : List Text) (remaining : List ImplTask)
      → length remaining ≤ fuel
      → IsOrdered b.in_batch done remaining
      → scheduled (rounds re b fuel i done remaining) ≡ remaining
  unfolding rounds
  rounds_in_order zero i done [] h o = refl
  rounds_in_order zero i done (t ∷ ts) h o = absurd (omega arith)
  rounds_in_order (suc fuel) i done [] h o = refl
  rounds_in_order (suc fuel) i done (first ∷ rest) h o =
      let ready = DepsWithin→deps_satisfied b.in_batch done first o.0 in
      let (left, e) = next_step-prefix re b done (i + 1) first rest ready in
      let s = next_step re b (i + 1) done first rest in
      let removed : remove_all s.tasks (first ∷ rest) ≡ left =
        subst (λ l. remove_all s.tasks l ≡ left) (sym e) (remove_all-prefix s.tasks left) in
      let fits = length-left re b (i + 1) fuel done first rest h in
      let later : IsOrdered b.in_batch (done ++ slugs s.tasks) left =
        IsOrdered-drop b.in_batch done s.tasks left
          (subst (λ l. IsOrdered b.in_batch done l) e o) in
      let ih =
        rounds_in_order fuel (i + 1) (done ++ slugs s.tasks) (remove_all s.tasks (first ∷ rest))
          fits (subst (λ l. IsOrdered b.in_batch (done ++ slugs s.tasks) l) (sym removed) later) in
      ap (λ (l : List ImplTask). s.tasks ++ l) (ih ∙ removed) ∙ sym e

-- Where every task stands behind its in-batch predecessors, the plan runs the tasks in exactly the
-- order in which they were given.
pub scheduled-compute_waves :
    (re : Regex) (tasks : List ImplTask) (n : ℕ) (hr : List Text)
    → IsOrdered (slugs tasks) [] tasks
    → scheduled (compute_waves re tasks n hr).steps ≡ tasks
unfolding compute_waves
scheduled-compute_waves re tasks n hr o =
    rounds_in_order re (batch tasks n hr) (length tasks) 0 [] tasks (omega arith) o
