-- ===== src/Runner/Plan/Start.antt =====
-- How a run begins.
use dc_ness.Base.{
  ℕ, ◌+◌, suc, String, string_eq, none, List, [], ◌∷◌, keep, length, ◌≡◌, refl, ap, ◌∙◌, arith,
}
use dc_ness.Runner.Tasks.{Task, State}
use dc_ness.Runner.Tasks
use dc_ness.Runner.Actions.{task_action, has_status, is_stopped, first_task, progress, next_action}
use dc_ness.Runner.Plan.{
  ImplTask, to_state, to_states, build_state, new_state, resolved_scope, story_ids,
  validate_story_contiguity, validate_dependency_order, Planned, ok, err,
}
use dc_ness.Runner.Plan.Contiguity.{IsContiguous, validate_story_contiguity-IsContiguous}
use dc_ness.Runner.Plan.Dependencies.{IsOrdered, validate_dependency_order-IsOrdered}

none-stopped : (i : ℕ) (ts : List ImplTask) → first_task is_stopped (to_states i ts) ≡ none
unfolding first_task to_states
none-stopped i [] = refl
none-stopped i (t ∷ ts) = none-stopped (i + 1) ts

none-running :
    (i : ℕ) (ts : List ImplTask) → first_task (has_status "running") (to_states i ts) ≡ none
unfolding first_task to_states
none-running i [] = refl
none-running i (t ∷ ts) = none-running (i + 1) ts

none-completed : (i : ℕ) (ts : List ImplTask) → keep (has_status "completed") (to_states i ts) ≡ []
unfolding to_states
none-completed i [] = refl
none-completed i (t ∷ ts) = none-completed (i + 1) ts

length-to_states : (i : ℕ) (ts : List ImplTask) → length (to_states i ts) ≡ length ts
unfolding to_states
length-to_states i [] = refl
length-to_states i (t ∷ ts) = ap suc (length-to_states (i + 1) ts)

new_state-next_action :
    (chain_id root scope : String) (t : ImplTask) (ts : List ImplTask)
    → next_action (new_state chain_id root scope (t ∷ ts))
      ≡ Tasks.ok (task_action (to_state t 1) (record { completed = 0; total = length (t ∷ ts) }))
unfolding next_action to_states progress
new_state-next_action chain_id root scope t ts =
    rw
      (
        none-stopped (1 + 1) ts,
        none-running (1 + 1) ts,
        none-completed (1 + 1) ts,
        length-to_states (1 + 1) ts,
      )
      refl

build_state_lem :
    (tasks : List ImplTask) (scope chain_id root : String) (s : State)
    → build_state tasks scope chain_id root ≡ ok s
    → (validate_story_contiguity tasks ≡ ok tt)
      × (validate_dependency_order tasks ≡ ok tt)
      × (s ≡ new_state chain_id root (resolved_scope scope (length (story_ids tasks))) tasks)
unfolding build_state
build_state_lem tasks scope chain_id root s e =
    go (validate_story_contiguity tasks) (validate_dependency_order tasks) refl refl
  where
    go :
        (c d : Planned (Unit {0}))
        → validate_story_contiguity tasks ≡ c
        → validate_dependency_order tasks ≡ d
        → (validate_story_contiguity tasks ≡ ok tt)
          × (validate_dependency_order tasks ≡ ok tt)
          × (s ≡ new_state chain_id root (resolved_scope scope (length (story_ids tasks))) tasks)
    go (ok u) (ok v) p q = (p, q, ground (arith, e, p, q))
    go (err x) d p q = ground (arith, e, p)
    go (ok u) (err x) p q = ground (arith, e, p, q)

-- Where a state can be built of the tasks that were found, no story comes back once another one has
-- begun, no task depends on its own slug or on that of a later one, and the run begins with the
-- first task, with none of them completed.
pub build_state-next_action :
    (t : ImplTask) (ts : List ImplTask) (scope chain_id root : String) (s : State)
    → build_state (t ∷ ts) scope chain_id root ≡ ok s
    → IsContiguous (t ∷ ts)
      × IsOrdered (t ∷ ts)
      × (next_action s
          ≡ Tasks.ok
              (task_action (to_state t 1) (record { completed = 0; total = length (t ∷ ts) })))
build_state-next_action t ts scope chain_id root s e =
    let (contiguous, ordered, made) = build_state_lem (t ∷ ts) scope chain_id root s e in
    (
      (validate_story_contiguity-IsContiguous (t ∷ ts)).0 contiguous,
      (validate_dependency_order-IsOrdered (t ∷ ts)).0 ordered,
      ap next_action made ∙ new_state-next_action chain_id root _ t ts,
    )
