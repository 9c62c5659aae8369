-- ===== src/Waves/Planner/Cycles.antt =====
-- Without a cycle of in-batch predecessors, `compute_waves` reports none.
use dc_ness.Base.{
  ℕ, zero, suc, ◌+◌, ◌≤◌, ◌<◌, Text, text_eq, text_beq, text_beq_iff, mem, mem-append, Bool, true,
  false, ◌||◌, Option, none, some, List, [], ◌∷◌, ◌++◌, ◌≡◌, ◌≢◌, ◌⊎◌, inl, inr, All, All-map, keep,
  length, arith, Bool-cases, leb,
}
use dc_ness.Waves.Tasks.{ImplTask, Cause, WaveStep, task_beq}
use dc_ness.Waves.Scopes.{Regex}
use dc_ness.Waves.Planner.{
  Batch, batch, slugs, deps_satisfied, remove, remove_all, next_step, rounds, compute_waves,
}
use dc_ness.Waves.Planner.Embeds.{slug-task_beq}
use dc_ness.Waves.Planner.Steps.{next_step-unresolved}
use dc_ness.Waves.Planner.Order.{DepsWithin, DepsWithin→deps_satisfied}

slugs-remove :
    (a : Text) (c : ImplTask) (xs : List ImplTask)
    → mem a (slugs xs) ≡ true
    → mem a (c.slug ∷ slugs (remove c xs)) ≡ true
unfolding mem remove
slugs-remove a c [] h = cc
slugs-remove a c (x ∷ xs) h = elim (Bool-cases (task_beq x c)) [
  | inl same ↦ rw same (rw (← slug-task_beq x c same) h)
  | inr other ↦ rw other (ground (arith, slugs-remove a c xs))
]

slugs-remove_all :
    (a : Text) (cs xs : List ImplTask)
    → mem a (slugs xs) ≡ true
    → (mem a (slugs cs) || mem a (slugs (remove_all cs xs))) ≡ true
unfolding mem remove_all
slugs-remove_all a [] xs h = h
slugs-remove_all a (c ∷ cs) xs h =
    ground (arith, slugs-remove a c xs h, slugs-remove_all a cs (remove c xs))

module _ (P : ImplTask → Type 0) where
  All-remove : (c : ImplTask) (xs : List ImplTask) → All P xs → All P (remove c xs)
  unfolding remove
  All-remove c [] h = tt
  All-remove c (x ∷ xs) h = elim (Bool-cases (task_beq x c)) [
    | inl same ↦ rw same h.1
    | inr other ↦ rw other (h.0, All-remove c xs h.1)
  ]

  All-remove_all : (cs xs : List ImplTask) → All P xs → All P (remove_all cs xs)
  unfolding remove_all
  All-remove_all [] xs h = h
  All-remove_all (c ∷ cs) xs h = All-remove_all cs (remove c xs) (All-remove c xs h)

abbrev pub NoneUnresolved : List WaveStep → Type 0
NoneUnresolved = All (λ s. s.cause ≢ Cause.dep_unresolved)

module _ (rank : Text → ℕ) where
  -- The in-batch predecessors of the task have a smaller rank.
  abbrev pub DepsBelow : (in_batch : List Text) → ℕ → Option (List Text) → Type 0
  DepsBelow in_batch r none = Unit
  DepsBelow in_batch r (some deps) = All (λ d. (mem d in_batch ≡ false) ⊎ (rank d < r)) deps

  abbrev pub IsRanked : (in_batch : List Text) → List ImplTask → Type 0
  IsRanked in_batch = All (λ t. DepsBelow in_batch (rank t.slug) t.depends_on)

  least :
      (Q : ImplTask → Type 0) (x : ImplTask) (xs : List ImplTask)
      → All Q (x ∷ xs)
      → (m : ImplTask) × Q m × All (λ t. rank m.slug ≤ rank t.slug) (x ∷ xs)
  least Q x [] h = (x, h.0, (omega arith, tt))
  least Q x (y ∷ ys) h =
      let (m, q, low) = least Q y ys h.1 in
      elim (Bool-cases (leb (rank x.slug) (rank m.slug))) [
        | inl le ↦ (
          x,
          h.0,
          (
            (omega arith),
            All-map (λ t. rank m.slug ≤ rank t.slug) (λ t. rank x.slug ≤ rank t.slug) (y ∷ ys)
                (below m le) low,
          ),
        )
        | inr gt ↦ (m, q, ((ground arith), low))
      ]
    where
      below :
          (m : ImplTask)
          → leb (rank x.slug) (rank m.slug) ≡ true
          → (t : ImplTask) → rank m.slug ≤ rank t.slug
          → rank x.slug ≤ rank t.slug
      below m le t k = ground arith

  least-mem :
      (r : ℕ) (d : Text) (xs : List ImplTask)
      → mem d (slugs xs) ≡ true
      → All (λ t. r ≤ rank t.slug) xs
      → r ≤ rank d
  unfolding mem
  least-mem r d [] m h = cc
  least-mem r d (x ∷ xs) m h = elim (Bool-cases (text_beq x.slug d)) [
    | inl same ↦ rw (← (text_beq_iff x.slug d).0 same) h.0
    | inr other ↦ least-mem r d xs (rw other at m) h.1
  ]

  -- Every slug of the batch is done or waits.
  abbrev Covers : (in_batch done : List Text) → List ImplTask → Type 0
  Covers in_batch done remaining =
      (a : Text) → mem a in_batch ≡ true → (mem a done || mem a (slugs remaining)) ≡ true

  module _ (in_batch done : List Text) (remaining : List ImplTask)
      (covers : Covers in_batch done remaining) where
    within :
        (r : ℕ) (deps : List Text)
        → All (λ t. r ≤ rank t.slug) remaining
        → All (λ d. (mem d in_batch ≡ false) ⊎ (rank d < r)) deps
        → All (λ d. (mem d in_batch ≡ false) ⊎ (mem d done ≡ true)) deps
    within r [] low h = tt
    within r (d ∷ deps) low h = (first h.0, within r deps low h.1)
      where
        known : rank d < r → mem d in_batch ≡ true → mem d done ≡ true
        known lt i = elim (Bool-cases (mem d done)) [
          | inl yes_done ↦ yes_done
          | inr open_ ↦
              absurd (omega (arith, least-mem r d remaining (rw open_ at (covers d i)) low))
        ]

        first :
            (mem d in_batch ≡ false) ⊎ (rank d < r) → (mem d in_batch ≡ false) ⊎ (mem d done ≡ true)
        first (inl out) = inl out
        first (inr lt) = elim (Bool-cases (mem d in_batch)) [
          | inl i ↦ inr (known lt i)
          | inr out ↦ inl out
        ]

    DepsBelow→DepsWithin :
        (r : ℕ) (d : Option (List Text))
        → All (λ t. r ≤ rank t.slug) remaining
        → DepsBelow in_batch r d
        → DepsWithin in_batch done d
    DepsBelow→DepsWithin r none low h = tt
    DepsBelow→DepsWithin r (some deps) low h = within r deps low h

  none-kept :
      (p : ImplTask → Bool) (xs : List ImplTask) → keep p xs ≡ [] → All (λ t. p t ≡ false) xs
  none-kept p [] e = tt
  none-kept p (x ∷ xs) e = elim (Bool-cases (p x)) [
    | inl kept ↦ cc
    | inr out ↦ (out, none-kept p xs (rw out at e))
  ]

  -- Some waiting task is ready: one of the least rank.
  some_ready :
      (in_batch done : List Text) (first : ImplTask) (rest : List ImplTask)
      → Covers in_batch done (first ∷ rest)
      → IsRanked in_batch (first ∷ rest)
      → keep (deps_satisfied done in_batch) (first ∷ rest) ≢ []
  some_ready in_batch done first rest covers ranked e =
      let blocked = none-kept (deps_satisfied done in_batch) (first ∷ rest) e in
      let (m, (below, stuck), low) = least Waits first rest (both (first ∷ rest) ranked blocked) in
      let within_done =
        DepsBelow→DepsWithin in_batch done (first ∷ rest) covers (rank m.slug) m.depends_on low
          below in
      cc (DepsWithin→deps_satisfied in_batch done m within_done)
    where
      Waits : ImplTask → Type 0
      Waits t =
          DepsBelow in_batch (rank t.slug) t.depends_on × (deps_satisfied done in_batch t ≡ false)

      both :
          (xs : List ImplTask)
          → IsRanked in_batch xs
          → All (λ t. deps_satisfied done in_batch t ≡ false) xs
          → All Waits xs
      both [] h k = tt
      both (x ∷ xs) h k = ((h.0, k.0), both xs h.1 k.1)

  module _ (re : Regex) (b : Batch) where
    Covers-next :
        (done : List Text) (cs remaining : List ImplTask)
        → Covers b.in_batch done remaining
        → Covers b.in_batch (done ++ slugs cs) (remove_all cs remaining)
    Covers-next done cs remaining covers a i =
        ground (arith, mem-append a done (slugs cs), covers a i, slugs-remove_all a cs remaining)

    rounds-NoneUnresolved :
        (fuel i : ℕ) (done : List Text) (remaining : List ImplTask)
        → Covers b.in_batch done remaining
        → IsRanked b.in_batch remaining
        → NoneUnresolved (rounds re b fuel i done remaining)
    unfolding rounds
    rounds-NoneUnresolved zero i done remaining covers ranked = tt
    rounds-NoneUnresolved (suc fuel) i done [] covers ranked = tt
    rounds-NoneUnresolved (suc fuel) i done (first ∷ rest) covers ranked =
        let s = next_step re b (i + 1) done first rest in
        (
          λ e.
              some_ready b.in_batch done first rest covers ranked
                (next_step-unresolved re b done (i + 1) first rest e),
          rounds-NoneUnresolved fuel (i + 1) (done ++ slugs s.tasks)
              (remove_all s.tasks (first ∷ rest)) (Covers-next done s.tasks (first ∷ rest) covers)
              (All-remove_all _ s.tasks (first ∷ rest) ranked),
        )

-- Where the in-batch predecessors of every task have a smaller rank than the task, for some
-- ranking of the slugs, so that there is no cycle among them, no step of the plan is reported as
-- `dep_unresolved`.
pub compute_waves-NoneUnresolved :
    (rank : Text → ℕ) (re : Regex) (tasks : List ImplTask) (n : ℕ) (hr : List Text)
    → IsRanked rank (slugs tasks) tasks
    → NoneUnresolved (compute_waves re tasks n hr).steps
unfolding compute_waves mem
compute_waves-NoneUnresolved rank re tasks n hr ranked =
    rounds-NoneUnresolved rank re (batch tasks n hr) (length tasks) 0 [] tasks (λ a i. i) ranked
