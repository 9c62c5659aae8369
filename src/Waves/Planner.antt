-- ===== src/Waves/Planner.antt =====
-- harness/parallel_wave.py, `compute_waves`: the loop that turns the tasks, in their serial order,
-- into an ordered plan of serial steps and parallel waves.
mod Equality
mod Embeds
mod Steps
pub mod Plans
pub mod Order
pub mod Cycles
pub mod Reports
use dc_ness.Base.{
  ℕ, zero, suc, ◌+◌, String, Text, text_eq, Bool, true, not, ◌&&◌, ◌||◌, Option, none, some, List,
  [], ◌∷◌, ◌++◌, map, if◌then◌else◌, ltb, leb, mem, all, keep, length,
}
use dc_ness.Waves.Tasks.{
  ImplTask, Mode, Cause, WaveStep, WavePlan, serial_only, serial_reason, serial_cause, task_beq,
}
use dc_ness.Waves.Scopes.{Regex, scopes_disjoint}

abbrev pub slugs : List ImplTask → List Text
slugs = map (λ t. t.slug)

-- The predecessors of a task that are in the batch are done; others count as merged.
unfoldable pub deps_satisfied : (done in_batch : List Text) → ImplTask → Bool
deps_satisfied done in_batch t = elim t.depends_on [
  | none ↦ true
  | some deps ↦ all (λ dep. not (mem dep in_batch && not (mem dep done))) deps
]

-- `remaining[remaining.index(head) + 1:]`
unfoldable pub behind : ImplTask → List ImplTask → List ImplTask
behind head [] = []
behind head (t ∷ ts) = let rest = behind head ts in if task_beq t head then ts else rest

-- `remaining.remove(t)`
unfoldable pub remove : ImplTask → List ImplTask → List ImplTask
remove t [] = []
remove t (x ∷ xs) = let rest = remove t xs in if task_beq x t then xs else x ∷ rest

unfoldable pub remove_all : List ImplTask → List ImplTask → List ImplTask
unfolding remove
remove_all [] xs = xs
remove_all (t ∷ ts) xs = remove_all ts (remove t xs)

abbrev pub unresolved_reason : String
unresolved_reason = "의존 미해결/순환 → 직렬"

abbrev pub parallel_reason : String
parallel_reason = "독립 — depends_on 선후 없음 + Scope 파일집합 disjoint"

abbrev pub alone_reason : String
alone_reason = "동시 가능한 짝 없음 (Scope 중첩 등) → 직렬"

abbrev pub serial_step : ℕ → ImplTask → String → Cause → WaveStep
serial_step i t reason cause = record {
  index = i;
  mode = Mode.serial;
  tasks = t ∷ [];
  reason = reason;
  cause = cause;
}

-- What the loop holds fixed: the workers, the slugs judged as high risk, the slugs of the batch.
pub record Batch : Type 0 where
  pub workers : ℕ
  pub high_risk : List Text
  pub in_batch : List Text

unfoldable pub is_serial : Batch → ImplTask → Bool
is_serial b t = serial_only t || mem t.slug b.high_risk

abbrev pub or_else {ℓ} : {A : Type ℓ} → Option A → A → A
or_else none d = d
or_else (some a) d = a

unfoldable pub serial_reason_of : Batch → ImplTask → String
serial_reason_of b t =
    if mem t.slug b.high_risk && not (serial_only t)
    then "고위험 task (dry-preview 판정) → 직렬"
    else or_else (serial_reason t) "직렬"

unfoldable pub serial_cause_of : Batch → ImplTask → Cause
serial_cause_of b t =
    if mem t.slug b.high_risk && not (serial_only t)
    then Cause.high_risk
    else or_else (serial_cause t) Cause.serial

-- The end of a round whose head may run in parallel.
unfoldable pub wave_step : ℕ → ImplTask → List ImplTask → WaveStep
wave_step i head wave =
    if leb 2 (length wave)
    then record {
      index = i;
      mode = Mode.parallel;
      tasks = wave;
      reason = parallel_reason;
      cause = Cause.parallel;
    }
    else serial_step i head alone_reason Cause.no_disjoint_pair

module _ (re : Regex) (b : Batch) where
  -- The `for cand in …` loop: `wave` grows until a candidate is a barrier.
  unfoldable pub collect : (done : List Text) (wave cands : List ImplTask) → List ImplTask
  collect done wave [] = wave
  collect done wave (cand ∷ rest) =
      let longer = collect done (wave ++ cand ∷ []) rest in
      if leb b.workers (length wave)
      then wave
      else if not (deps_satisfied done b.in_batch cand)
      then wave
      else if is_serial b cand
      then wave
      else if all (λ w. scopes_disjoint re cand.scope_paths w.scope_paths) wave
      then longer
      else wave

  -- A round whose frontier begins with `head`.
  unfoldable pub ready_step :
      ℕ → (done : List Text) (remaining : List ImplTask) → ImplTask → WaveStep
  unfolding wave_step
  ready_step i done remaining head =
      if is_serial b head
      then serial_step i head (serial_reason_of b head) (serial_cause_of b head)
      else wave_step i head (collect done (head ∷ []) (behind head remaining))

  -- One round, by its frontier. `first` is `remaining[0]`.
  unfoldable pub frontier_step :
      ℕ → (done : List Text) (first : ImplTask) (rest frontier : List ImplTask) → WaveStep
  unfolding ready_step
  frontier_step i done first rest [] = serial_step i first unresolved_reason Cause.dep_unresolved
  frontier_step i done first rest (head ∷ _) = ready_step i done (first ∷ rest) head

  -- One round: the step that it appends.
  unfoldable pub next_step :
      ℕ → (done : List Text) (first : ImplTask) (rest : List ImplTask) → WaveStep
  unfolding frontier_step
  next_step i done first rest =
      frontier_step i done first rest (keep (deps_satisfied done b.in_batch) (first ∷ rest))

  -- `while remaining`, with fuel for the rounds.
  unfoldable pub rounds :
      ℕ → (step_index : ℕ) (done : List Text) (remaining : List ImplTask) → List WaveStep
  unfolding next_step remove_all
  rounds zero i done remaining = []
  rounds (suc fuel) i done [] = []
  rounds (suc fuel) i done (first ∷ rest) =
      let s = next_step (i + 1) done first rest in
      s ∷ rounds fuel (i + 1) (done ++ slugs s.tasks) (remove_all s.tasks (first ∷ rest))

abbrev pub batch : List ImplTask → ℕ → List Text → Batch
batch tasks max_parallel_workers high_risk_slugs = record {
  workers = if ltb max_parallel_workers 1 then 1 else max_parallel_workers;
  high_risk = high_risk_slugs;
  in_batch = slugs tasks;
}

unfoldable pub compute_waves : Regex → List ImplTask → ℕ → List Text → WavePlan
unfolding rounds
compute_waves re tasks max_parallel_workers high_risk_slugs =
    let b = batch tasks max_parallel_workers high_risk_slugs in
    record { steps = rounds re b (length tasks) 0 [] tasks; max_parallel_workers = b.workers }
