-- ===== src/Chain/Build.antt =====
-- harness/chain_view.py, build_chain_view: the view and the operations of one boundary of a chain.
use dc_ness.Base.{
  ℕ, zero, suc, String, Bool, true, false, not, Option, none, some, List, [], length, if◌then◌else◌,
  leb, is_there, get_elem?,
}
use dc_ness.Chain.{
  ChainTask, Strategy, Line, Operation, Result, ok, err, ◌>>=◌, no_tasks, current_out_of_range,
  is_empty_chain, transition_operations, initial_operations, render_view, substeps_for,
  expands_substeps, redraw_strategy,
}

pub data Mode : Type 0 where
  initial transition : Mode

pub record ChainView : Type 0 where
  pub task_total : ℕ
  pub current_index : ℕ
  pub strategy : Strategy
  pub operation_mode : Mode
  pub substeps_expanded : Bool
  pub view : List Line
  pub current_substeps : List String
  pub operations : List Operation

-- `prev`, which is no number below 0 here, or the index before `current`; none where that is below 0.
abbrev pub effective_prev : (prev : Option ℕ) → (current : ℕ) → Option ℕ
effective_prev (some p) current = some p
effective_prev none zero = none
effective_prev none (suc c) = some c

-- The operations, the mode, and whether the sub-steps are shown.
abbrev pub drawn :
    List ChainTask
    → (current : ℕ) → (as_initial : Bool) → Option ℕ
    → Result (List Operation × Mode × Bool)
drawn tasks current false (some prev) = do
  ops ← transition_operations tasks prev current
  ok (
    ops,
    Mode.transition,
    expands_substeps (redraw_strategy (length tasks)) (get_elem? tasks current),
  )
drawn tasks current _ _ = do
  ops ← initial_operations tasks current
  ok (ops, Mode.initial, is_there (get_elem? tasks current))

abbrev pub shown_substeps : Bool → Option ChainTask → Result (List String)
shown_substeps true (some t) = substeps_for t
shown_substeps _ _ = ok []

abbrev pub payload :
    List ChainTask
    → (current : ℕ) → List Operation × Mode × Bool
    → List Line
    → List String
    → ChainView
payload tasks current (ops, mode, expands) lines labels = record {
  task_total = length tasks;
  current_index = current;
  strategy = redraw_strategy (length tasks);
  operation_mode = mode;
  substeps_expanded = expands;
  view = lines;
  current_substeps = labels;
  operations = ops;
}

-- The view and the sub-steps that go with what was drawn.
abbrev pub with_view :
    List ChainTask → (current : ℕ) → List Operation × Mode × Bool → Result ChainView
with_view tasks current (ops, mode, expands) = do
  lines ← render_view tasks current (some expands)
  labels ← shown_substeps expands (get_elem? tasks current)
  ok (payload tasks current (ops, mode, expands) lines labels)

unfoldable pub build_chain_view :
    List ChainTask → (current : ℕ) → (prev : Option ℕ) → (as_initial : Bool) → Result ChainView
unfolding transition_operations initial_operations render_view substeps_for expands_substeps
    redraw_strategy
build_chain_view tasks current prev as_initial =
    if is_empty_chain tasks
    then err no_tasks
    else if not (leb current (length tasks))
    then err current_out_of_range
    else do
      drew ← drawn tasks current as_initial (effective_prev prev current)
      with_view tasks current drew
