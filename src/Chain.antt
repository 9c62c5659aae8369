-- ===== src/Chain.antt =====
-- harness/chain_view.py: the progress view of a chain of tasks, and the operations that redraw it in
-- a task list.
pub mod Build
pub mod Rows
pub mod Redraw
pub mod Views
pub mod Boundaries
pub mod Progress
pub mod Input
mod Samples
use dc_ness.Base.{
  ℕ, suc, ◌+◌, String, Bool, true, false, not, ◌&&◌, ◌||◌, Option, none, some, List, [], ◌∷◌, ◌++◌,
  map, length, if◌then◌else◌, ltb, leb, nat_beq, is_there, get_elem?, drop,
}

-- The keys of ENGINE_SUBSTEPS.
pub data Engine : Type 0 where
  build_worker ui_build_worker : Engine

pub data Closes : Type 0 where
  story epic : Closes

pub record ChainTask : Type 0 where
  pub name : String
  pub engine : Option Engine
  pub closes : Option Closes
  pub substeps : Option (List String)

abbrev engine_substeps : Engine → List String
engine_substeps Engine.build_worker = "build-worker" ∷ []
engine_substeps Engine.ui_build_worker = "canvas-design" ∷ "build-worker" ∷ []

abbrev close_validation_sequence : Closes → List String
close_validation_sequence Closes.story = "validation-sequence:STORY" ∷ []
close_validation_sequence Closes.epic = "validation-sequence:EPIC" ∷ []

-- What a ValueError says.
pub data Error : Type 0 where
  engine_required no_tasks current_out_of_range prev_out_of_range not_adjacent : Error

pub data Result {ℓ} (A : Type ℓ) : Type ℓ where
  ok : A → Result A
  err : Error → Result A

infixl 5 ◌>>=◌
abbrev pub ◌>>=◌ {ℓ κ} : {A : Type ℓ} {B : Type κ} → Result A → (A → Result B) → Result B
ok a >>= f = f a
err e >>= f = err e

abbrev base_substeps : Option (List String) → Option Engine → Result (List String)
base_substeps (some steps) engine = ok steps
base_substeps none none = err engine_required
base_substeps none (some engine) = ok (engine_substeps engine)

abbrev closing_substeps : Option Closes → List String
closing_substeps none = []
closing_substeps (some closes) = close_validation_sequence closes

unfoldable pub substeps_for : ChainTask → Result (List String)
substeps_for t = do
  steps ← base_substeps t.substeps t.engine
  ok (steps ++ closing_substeps t.closes)

pub data Strategy : Type 0 where
  full partial minimal : Strategy

unfoldable pub redraw_strategy : ℕ → Strategy
redraw_strategy total =
    if leb total 10
    then Strategy.full
    else if leb total 20
    then Strategy.partial
    else Strategy.minimal

abbrev is_full : Strategy → Bool
is_full Strategy.full = true
is_full _ = false

-- `task{index + 1} · {name}`, and an indented label.
pub data Subject : Type 0 where
  header : (number : ℕ) → (name : String) → Subject
  substep : (label : String) → Subject

abbrev pub header_subject : ℕ → ChainTask → Subject
header_subject index t = Subject.header (index + 1) t.name

unfoldable pub expands_substeps : Strategy → Option ChainTask → Bool
expands_substeps strategy none = false
expands_substeps strategy (some t) = is_full strategy || is_there t.closes

-- A line of the view, by its glyph.
pub data Line : Type 0 where
  finished underway waiting indented : Subject → Line

pub data Status : Type 0 where
  completed in_progress pending : Status

pub data Operation : Type 0 where
  create_header : (index : ℕ) → Subject → Status → Operation
  create_substep : (index : ℕ) → Subject → (label : String) → Operation
  delete_substeps complete_header set_in_progress delete_header : (index : ℕ) → Operation

-- The lines of the current task.
abbrev pub current_lines : Bool → ℕ → ChainTask → Result (List Line)
current_lines show i t = do
  labels ← (if show then substeps_for t else ok [])
  ok (
      Line.underway (header_subject i t)
      ∷ map (λ label. Line.indented (Subject.substep label)) labels)

abbrev pub task_lines : (show : Bool) → (i current : ℕ) → ChainTask → Result (List Line)
task_lines show i current t =
    if ltb i current
    then ok (Line.finished (header_subject i t) ∷ [])
    else if nat_beq i current
    then current_lines show i t
    else ok (Line.waiting (header_subject i t) ∷ [])

-- The loop over the tasks, from the index `i` on.
unfoldable pub render_from : (show : Bool) → (i current : ℕ) → List ChainTask → Result (List Line)
unfolding substeps_for
render_from show i current [] = ok []
render_from show i current (t ∷ ts) = do
  lines ← task_lines show i current t
  rest ← render_from show (suc i) current ts
  ok (lines ++ rest)

abbrev pub is_empty_chain : List ChainTask → Bool
is_empty_chain [] = true
is_empty_chain (t ∷ ts) = false

abbrev given_or : Bool → Option Bool → Bool
given_or default none = default
given_or default (some b) = b

-- `show_substeps` is given wherever the code calls it with an argument.
unfoldable pub render_view : List ChainTask → (current : ℕ) → Option Bool → Result (List Line)
unfolding render_from expands_substeps redraw_strategy
render_view tasks current show_substeps =
    let default = expands_substeps (redraw_strategy (length tasks)) (get_elem? tasks current) in
    if is_empty_chain tasks
    then err no_tasks
    else if not (leb current (length tasks))
    then err current_out_of_range
    else render_from (given_or default show_substeps) 0 current tasks

abbrev pub create_substeps : ℕ → List String → List Operation
create_substeps i labels = map (λ label. create_substep i (Subject.substep label) label) labels

abbrev initial_status : (i current : ℕ) → Status
initial_status i current =
    if ltb i current
    then Status.completed
    else if nat_beq i current
    then Status.in_progress
    else Status.pending

unfoldable pub initial_from : (i current : ℕ) → List ChainTask → Result (List Operation)
unfolding substeps_for
initial_from i current [] = ok []
initial_from i current (t ∷ ts) = do
  labels ← (if nat_beq i current then substeps_for t else ok [])
  rest ← initial_from (suc i) current ts
  ok (
      create_header i (header_subject i t) (initial_status i current)
      ∷ (create_substeps i labels ++ rest))

unfoldable pub initial_operations : List ChainTask → (current : ℕ) → Result (List Operation)
unfolding initial_from
initial_operations tasks current = initial_from 0 current tasks

unfoldable pub delete_from : (k : ℕ) → List ChainTask → List Operation
delete_from k [] = []
delete_from k (t ∷ ts) = delete_header k ∷ delete_from (suc k) ts

-- The headers behind the current one again.
unfoldable pub create_pending : (k : ℕ) → List ChainTask → List Operation
create_pending k [] = []
create_pending k (t ∷ ts) =
    create_header k (header_subject k t) Status.pending ∷ create_pending (suc k) ts

-- The headers from the current one on, whose tasks are given, and the sub-steps of the first.
unfoldable pub recreate : (current : ℕ) → List ChainTask → Result (List Operation)
unfolding create_pending substeps_for
recreate current [] = ok []
recreate current (t ∷ ts) = do
  labels ← substeps_for t
  ok (
      create_header current (header_subject current t) Status.in_progress
      ∷ (create_substeps current labels ++ create_pending (suc current) ts))

abbrev pub finish_prev : ℕ → List Operation
finish_prev prev = delete_substeps prev ∷ complete_header prev ∷ []

abbrev pub redraw :
    (strategy : Strategy)
    → (current : ℕ) → List ChainTask
    → Option ChainTask
    → Result (List Operation)
redraw strategy current tasks none = ok []
redraw strategy current tasks (some t) =
    let left = drop current tasks in
    if expands_substeps strategy (some t)
    then (do created ← recreate current left; ok (delete_from current left ++ created))
    else ok (set_in_progress current ∷ [])

-- From the task before to the current one.
unfoldable pub transition_operations : List ChainTask → (prev current : ℕ) → Result (List Operation)
unfolding recreate delete_from expands_substeps redraw_strategy
transition_operations tasks prev current =
    let total = length tasks in
    if not (ltb prev total)
    then err prev_out_of_range
    else if not (leb current total)
    then err current_out_of_range
    else if not (nat_beq current (prev + 1))
    then err not_adjacent
    else do
      ops ← redraw (redraw_strategy total) current tasks (get_elem? tasks current)
      ok (finish_prev prev ++ ops)
