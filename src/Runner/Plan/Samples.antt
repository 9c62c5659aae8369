-- ===== src/Runner/Plan/Samples.antt =====
-- The planning of a run on small inputs.
use dc_ness.Base.{String, string_eq, some, List, [], ◌∷◌, mem, ◌≡◌, ◌↔◌, refl}
use dc_ness.Base.Dict.{lookup, put}
use dc_ness.Runner.Tasks
use dc_ness.Runner.Tasks.{State}
use dc_ness.Runner.Actions.{task_action, next_action}
use dc_ness.Runner.Plan.{
  ImplTask, to_state, validate_story_contiguity, validate_dependency_order, build_state, new_state,
  non_contiguous, dependency_order, ok, err,
}
use dc_ness.Runner.Plan.Contiguity.{IsContiguous, validate_story_contiguity-IsContiguous}
use dc_ness.Runner.Plan.Dependencies.{IsOrdered, validate_dependency_order-IsOrdered}
use dc_ness.Runner.Plan.Start.{build_state-next_action}

abbrev task : (slug story : String) → List String → ImplTask
task slug story deps = record {
  path = slug;
  slug = slug;
  story = story;
  task_index = "1/1";
  title = slug;
  depends_on = some deps;
}

abbrev core_task : ImplTask
core_task = task "01-core" "1" []

abbrev ui_task : ImplTask
ui_task = task "02-ui" "2" ("01-core" ∷ "00-gone" ∷ [])

abbrev docs_task : ImplTask
docs_task = task "03-docs" "1" []

program : Unit {0}
unfolding validate_story_contiguity validate_dependency_order build_state lookup put mem
program = tt

story_comes_back :
    validate_story_contiguity (core_task ∷ ui_task ∷ docs_task ∷ [])
    ≡ err (non_contiguous ("1" ∷ []))
unfolding program
story_comes_back = refl

late_dependency :
    validate_dependency_order (ui_task ∷ core_task ∷ [])
    ≡ err (dependency_order (("02-ui", "01-core") ∷ []))
unfolding program
late_dependency = refl

abbrev built : State
built = new_state "c1" "/repo" "epic" (core_task ∷ ui_task ∷ [])

two_built : build_state (core_task ∷ ui_task ∷ []) "auto" "c1" "/repo" ≡ ok built
unfolding program
two_built = refl

validate_story_contiguity-IsContiguous_example :
    (validate_story_contiguity (core_task ∷ docs_task ∷ ui_task ∷ []) ≡ ok tt)
    ↔ IsContiguous (core_task ∷ docs_task ∷ ui_task ∷ [])
validate_story_contiguity-IsContiguous_example =
    validate_story_contiguity-IsContiguous (core_task ∷ docs_task ∷ ui_task ∷ [])

validate_dependency_order-IsOrdered_example :
    (validate_dependency_order (core_task ∷ ui_task ∷ []) ≡ ok tt)
    ↔ IsOrdered (core_task ∷ ui_task ∷ [])
validate_dependency_order-IsOrdered_example =
    validate_dependency_order-IsOrdered (core_task ∷ ui_task ∷ [])

build_state-next_action_example :
    IsContiguous (core_task ∷ ui_task ∷ [])
    × IsOrdered (core_task ∷ ui_task ∷ [])
    × (next_action built
        ≡ Tasks.ok (task_action (to_state core_task 1) (record { completed = 0; total = 2 })))
build_state-next_action_example =
    build_state-next_action core_task (ui_task ∷ []) "auto" "c1" "/repo" built two_built
