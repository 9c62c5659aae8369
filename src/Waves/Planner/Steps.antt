-- ===== src/Waves/Planner/Steps.antt =====
-- What one round of `compute_waves` appends to the plan.
use dc_ness.Base.{
  ℕ, ◌≤◌, Text, text_eq, Bool, true, false, List, [], ◌∷◌, ◌++◌, ◌≡◌, ◌≢◌, refl, sym, ap, ◌⊎◌, inl,
  inr, All, All-append, All-map, ◌∙◌, all, any, keep, length, leb, length-append, append_assoc,
  append-nil, arith, Bool-cases,
}
use dc_ness.Waves.Tasks.{ImplTask, Mode, Cause, WaveStep, serial_cause, task_beq}
use dc_ness.Waves.Scopes.{Regex, scopes_disjoint}
use dc_ness.Waves.Planner.{
  Batch, behind, deps_satisfied, is_serial, serial_cause_of, collect, wave_step, ready_step,
  frontier_step, next_step,
}
use dc_ness.Waves.Planner.Equality.{||-true, task_beq_refl}
use dc_ness.Waves.Planner.Embeds.{Embeds, nothing, skip, here}

Embeds-prefix : (cs rest : List ImplTask) → Embeds cs (cs ++ rest)
Embeds-prefix [] rest = nothing
Embeds-prefix (c ∷ cs) rest = here (task_beq_refl c) (Embeds-prefix cs rest)

-- The first of the kept elements passes the test and stands in the list.
head-keep :
    (p : ImplTask → Bool) (xs : List ImplTask) {h : ImplTask} {tl : List ImplTask}
    → keep p xs ≡ h ∷ tl
    → (p h ≡ true) × (any (λ x. task_beq x h) xs ≡ true)
head-keep p [] e = cc
head-keep p (x ∷ xs) {h} {tl} e = elim (Bool-cases (p x)) [
  | inl passes ↦ ground (arith, task_beq_refl x)
  | inr fails ↦
      let (ph, found) = head-keep p xs {h = h} {tl = tl} (rw fails at e) in
      (ph, rw (found, ||-true (task_beq x h)))
]

behind-Embeds :
    (head : ImplTask) (xs cs rest : List ImplTask)
    → any (λ x. task_beq x head) xs ≡ true
    → behind head xs ≡ cs ++ rest
    → Embeds (head ∷ cs) xs
unfolding behind
behind-Embeds head [] cs rest m e = cc
behind-Embeds head (x ∷ xs) cs rest m e = elim (Bool-cases (task_beq x head)) [
  | inl same ↦ here same (rw (rw same at e) (Embeds-prefix cs rest))
  | inr other ↦ skip (behind-Embeds head xs cs rest (rw other at m) (rw other at e))
]

-- What a parallel wave promises: the tasks are ready, none is held back, and each later one is
-- disjoint from each earlier one.
module _ (re : Regex) (b : Batch) (done : List Text) where
  abbrev pub IsReady : ImplTask → Type 0
  IsReady t = deps_satisfied done b.in_batch t ≡ true

  abbrev pub MayJoin : ImplTask → Type 0
  MayJoin t = IsReady t × (is_serial b t ≡ false)

  abbrev pub IsApart : List ImplTask → Type 0
  IsApart [] = Unit
  IsApart (w ∷ ws) =
      All (λ v. scopes_disjoint re v.scope_paths w.scope_paths ≡ true) ws × IsApart ws

  IsApart-snoc :
      (ws : List ImplTask) (c : ImplTask)
      → IsApart ws
      → all (λ w. scopes_disjoint re c.scope_paths w.scope_paths) ws ≡ true
      → IsApart (ws ++ c ∷ [])
  IsApart-snoc [] c h k = (tt, tt)
  IsApart-snoc (w ∷ ws) c h k =
      (All-append _ ws (c ∷ []) h.0 (ground arith), IsApart-snoc ws c h.1 (ground arith))

  pub record IsWave (wave : List ImplTask) : Type 0 where
    pub joined : All MayJoin wave
    pub apart : IsApart wave
    pub capped : length wave ≤ b.workers

  collect-IsWave :
      (wave cands : List ImplTask) → IsWave wave → IsWave (collect re b done wave cands)
  unfolding collect
  collect-IsWave wave [] h = h
  collect-IsWave wave (c ∷ rest) h = ground (arith, longer, collect-IsWave (wave ++ c ∷ []) rest)
    where
      longer :
          leb b.workers (length wave) ≡ false
          → deps_satisfied done b.in_batch c ≡ true
          → is_serial b c ≡ false
          → all (λ w. scopes_disjoint re c.scope_paths w.scope_paths) wave ≡ true
          → IsWave (wave ++ c ∷ [])
      longer room ready free disjoint = record {
        joined = All-append _ wave (c ∷ []) h.joined ((ready, free), tt);
        apart = IsApart-snoc wave c h.apart disjoint;
        capped = ground (arith, length-append {0} wave (c ∷ []));
      }

  collect-cases :
      (wave : List ImplTask) (c : ImplTask) (cands : List ImplTask)
      → (collect re b done wave (c ∷ cands) ≡ wave)
        ⊎ (collect re b done wave (c ∷ cands) ≡ collect re b done (wave ++ c ∷ []) cands)
  unfolding collect
  collect-cases wave c cands = ground arith

  -- A wave is its first tasks and a stretch of the candidates, in their order.
  pub collect-prefix :
      (wave cands : List ImplTask)
      → (more rest : List ImplTask) × (collect re b done wave cands ≡ wave ++ more)
        × (cands ≡ more ++ rest)
  unfolding collect
  collect-prefix wave [] = ([], [], sym (append-nil wave), refl)
  collect-prefix wave (c ∷ cands) = elim (collect-cases wave c cands) [
    | inl stop ↦ ([], c ∷ cands, stop ∙ sym (append-nil wave), refl)
    | inr grow ↦
        let (more, rest, e, split) = collect-prefix (wave ++ c ∷ []) cands in
        (c ∷ more, rest, grow ∙ (e ∙ append_assoc wave (c ∷ []) more), ap (λ l. c ∷ l) split)
  ]

  abbrev pub IsAlone : WaveStep → Type 0
  IsAlone s = (s.mode ≡ Mode.serial) × (length s.tasks ≡ 1)

  abbrev pub IsParallel : WaveStep → Type 0
  IsParallel s = (s.mode ≡ Mode.parallel) × (2 ≤ length s.tasks) × IsWave s.tasks

  -- What every step of a plan satisfies, given the slugs that the steps before it finished.
  pub record IsStep (s : WaveStep) : Type 0 where
    pub shape : IsAlone s ⊎ IsParallel s
    pub ready : (s.cause ≡ Cause.dep_unresolved) ⊎ All IsReady s.tasks

  All-IsReady : (wave : List ImplTask) → All MayJoin wave → All IsReady wave
  All-IsReady wave h = All-map MayJoin IsReady wave (λ t m. m.0) h

  wave_step-IsStep :
      (i : ℕ) (head : ImplTask) (wave : List ImplTask)
      → IsReady head
      → IsWave wave
      → IsStep (wave_step i head wave)
  unfolding wave_step
  wave_step-IsStep i head wave r w = elim (Bool-cases (leb 2 (length wave))) [
    | inl many ↦
        rw many (record {
          shape = inr (refl, (ground arith), w);
          ready = inr (All-IsReady wave w.joined);
        })
    | inr one ↦ rw one (record { shape = inl (refl, refl); ready = inr (r, tt) })
  ]

  module _ (workers : 1 ≤ b.workers) where
    ready_step-IsStep :
        (i : ℕ) (remaining : List ImplTask) (head : ImplTask)
        → IsReady head
        → IsStep (ready_step re b i done remaining head)
    unfolding ready_step
    ready_step-IsStep i remaining head r = elim (Bool-cases (is_serial b head)) [
      | inl held ↦ rw held (record { shape = inl (refl, refl); ready = inr (r, tt) })
      | inr free ↦ rw free (
          wave_step-IsStep i head _ r (
            collect-IsWave (head ∷ []) (behind head remaining)
              (record { joined = ((r, free), tt); apart = (tt, tt); capped = workers })))
    ]

    frontier_step-IsStep :
        (i : ℕ) (first : ImplTask) (rest frontier : List ImplTask)
        → keep (deps_satisfied done b.in_batch) (first ∷ rest) ≡ frontier
        → IsStep (frontier_step re b i done first rest frontier)
    unfolding frontier_step
    frontier_step-IsStep i first rest [] e = record { shape = inl (refl, refl); ready = inl refl }
    frontier_step-IsStep i first rest (head ∷ tl) e =
        let (ready, found) = head-keep (deps_satisfied done b.in_batch) (first ∷ rest) e in
        ready_step-IsStep i (first ∷ rest) head ready

    pub next_step-IsStep :
        (i : ℕ) (first : ImplTask) (rest : List ImplTask)
        → IsStep (next_step re b i done first rest)
    unfolding next_step
    next_step-IsStep i first rest = frontier_step-IsStep i first rest _ refl

  collect-Embeds :
      (head : ImplTask) (remaining : List ImplTask)
      → any (λ x. task_beq x head) remaining ≡ true
      → Embeds (collect re b done (head ∷ []) (behind head remaining)) remaining
  collect-Embeds head remaining found =
      let (more, rest, wave, split) = collect-prefix (head ∷ []) (behind head remaining) in
      rw wave (behind-Embeds head remaining more rest found split)

  member-Embeds :
      (head : ImplTask) (remaining : List ImplTask)
      → any (λ x. task_beq x head) remaining ≡ true
      → Embeds (head ∷ []) remaining
  member-Embeds head remaining found = behind-Embeds head remaining [] _ found refl

  wave_step-Embeds :
      (i : ℕ) (head : ImplTask) (wave remaining : List ImplTask)
      → Embeds (head ∷ []) remaining
      → Embeds wave remaining
      → Embeds (wave_step i head wave).tasks remaining
  unfolding wave_step
  wave_step-Embeds i head wave remaining h w = elim (Bool-cases (leb 2 (length wave))) [
    | inl many ↦ rw many w
    | inr one ↦ rw one h
  ]

  ready_step-Embeds :
      (i : ℕ) (head : ImplTask) (remaining : List ImplTask)
      → any (λ x. task_beq x head) remaining ≡ true
      → Embeds (ready_step re b i done remaining head).tasks remaining
  unfolding ready_step
  ready_step-Embeds i head remaining found = elim (Bool-cases (is_serial b head)) [
    | inl held ↦ rw held (member-Embeds head remaining found)
    | inr free ↦ rw free (
        wave_step-Embeds i head _ remaining (member-Embeds head remaining found)
          (collect-Embeds head remaining found))
  ]

  frontier_step-Embeds :
      (i : ℕ) (first : ImplTask) (rest frontier : List ImplTask)
      → keep (deps_satisfied done b.in_batch) (first ∷ rest) ≡ frontier
      → Embeds (frontier_step re b i done first rest frontier).tasks (first ∷ rest)
  unfolding frontier_step
  frontier_step-Embeds i first rest [] e = here (task_beq_refl first) nothing
  frontier_step-Embeds i first rest (head ∷ tl) e =
      let (ready, found) = head-keep (deps_satisfied done b.in_batch) (first ∷ rest) e in
      ready_step-Embeds i head (first ∷ rest) found

  -- A step takes its tasks from the remaining ones.
  pub next_step-Embeds :
      (i : ℕ) (first : ImplTask) (rest : List ImplTask)
      → Embeds (next_step re b i done first rest).tasks (first ∷ rest)
  unfolding next_step
  next_step-Embeds i first rest = frontier_step-Embeds i first rest _ refl

  frontier_step-pos :
      (i : ℕ) (first : ImplTask) (rest frontier : List ImplTask)
      → 1 ≤ length (frontier_step re b i done first rest frontier).tasks
  unfolding frontier_step ready_step wave_step
  frontier_step-pos i first rest [] = omega arith
  frontier_step-pos i first rest (head ∷ _) = ground arith

  -- A step is never empty.
  pub next_step-pos :
      (i : ℕ) (first : ImplTask) (rest : List ImplTask)
      → 1 ≤ length (next_step re b i done first rest).tasks
  unfolding next_step
  next_step-pos i first rest = frontier_step-pos i first rest _

  index-frontier_step :
      (i : ℕ) (first : ImplTask) (rest frontier : List ImplTask)
      → (frontier_step re b i done first rest frontier).index ≡ i
  unfolding frontier_step ready_step wave_step
  index-frontier_step i first rest [] = refl
  index-frontier_step i first rest (head ∷ _) = ground arith

  pub index-next_step :
      (i : ℕ) (first : ImplTask) (rest : List ImplTask)
      → (next_step re b i done first rest).index ≡ i
  unfolding next_step
  index-next_step i first rest = index-frontier_step i first rest _

  -- The only step that is reported as unresolved is that of an empty frontier.
  ready_step-resolved :
      (i : ℕ) (remaining : List ImplTask) (head : ImplTask)
      → (ready_step re b i done remaining head).cause ≢ Cause.dep_unresolved
  unfolding ready_step wave_step serial_cause_of serial_cause
  ready_step-resolved i remaining head = ground arith

  frontier_step-unresolved :
      (i : ℕ) (first : ImplTask) (rest frontier : List ImplTask)
      → (frontier_step re b i done first rest frontier).cause ≡ Cause.dep_unresolved
      → frontier ≡ []
  unfolding frontier_step
  frontier_step-unresolved i first rest [] e = refl
  frontier_step-unresolved i first rest (head ∷ tl) e =
      absurd (ready_step-resolved i (first ∷ rest) head e)

  pub next_step-unresolved :
      (i : ℕ) (first : ImplTask) (rest : List ImplTask)
      → (next_step re b i done first rest).cause ≡ Cause.dep_unresolved
      → keep (deps_satisfied done b.in_batch) (first ∷ rest) ≡ []
  unfolding next_step
  next_step-unresolved i first rest = frontier_step-unresolved i first rest _
