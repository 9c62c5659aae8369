-- ===== src/Chain/Samples.antt =====
-- The progress view on a small chain.
use dc_ness.Base.{
  String, string_eq, true, false, Option, none, some, List, [], ◌∷◌, ◌≡◌, refl, arith,
}
use dc_ness.Chain.{
  ChainTask, Engine, Closes, Line, Subject, Operation, Status, redraw_strategy, Strategy,
  transition_operations, not_adjacent, prev_out_of_range, render_view, current_out_of_range,
}
use dc_ness.Chain
use dc_ness.Chain.Input
use dc_ness.Chain.Input.{Python, Item, Value, parse_tasks}
use dc_ness.Chain.Build.{build_chain_view}
use dc_ness.Chain.Progress.{progress, IsShown, progress-parse_tasks}

program : Unit {0}
unfolding build_chain_view transition_operations parse_tasks progress
program = tt

abbrev py : Python
py = record { strip = λ s. s; lower = λ s. s }

abbrev item : String → String → Option Item
item name closes = some (record {
  name = Value.text name;
  engine = Value.text "ui-build-worker";
  closes = Value.text closes;
  substeps = Value.null;
})

abbrev items : List (Option Item)
items = item "core" "" ∷ item "web" "story" ∷ []

abbrev task : String → Option Closes → ChainTask
task name closes = record {
  name = name;
  engine = some Engine.ui_build_worker;
  closes = closes;
  substeps = none;
}

abbrev tasks : List ChainTask
tasks = task "core" none ∷ task "web" (some Closes.story) ∷ []

parsed : parse_tasks py items ≡ Input.ok tasks
unfolding program
parsed = refl

without_engine :
    parse_tasks py (
      some (record {
        name = Value.text "core";
        engine = Value.null;
        closes = Value.null;
        substeps = Value.null;
      })
      ∷ [])
    ≡ Input.err Input.engine_or_substeps
unfolding program
without_engine = refl

progress-parse_tasks_example : IsShown (progress tasks 0 1)
progress-parse_tasks_example = progress-parse_tasks py items tasks 0 1 parsed refl (omega arith)

shown :
    Chain.◌>>=◌ (build_chain_view tasks 1 none false) (λ v. Chain.ok v.view)
    ≡ Chain.ok (
        Line.finished (Subject.header 1 "core")
        ∷ Line.underway (Subject.header 2 "web")
        ∷ Line.indented (Subject.substep "canvas-design")
        ∷ Line.indented (Subject.substep "build-worker")
        ∷ Line.indented (Subject.substep "validation-sequence:STORY")
        ∷ [])
unfolding program
shown = refl

jump : transition_operations tasks 0 2 ≡ Chain.err not_adjacent
unfolding program
jump = refl

before_first : transition_operations tasks 2 2 ≡ Chain.err prev_out_of_range
unfolding program
before_first = refl

after_last :
    transition_operations tasks 1 2
    ≡ Chain.ok (Operation.delete_substeps 1 ∷ Operation.complete_header 1 ∷ [])
unfolding program
after_last = refl

past_end : render_view tasks 3 (some true) ≡ Chain.err current_out_of_range
unfolding program render_view
past_end = refl
