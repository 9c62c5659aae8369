-- ===== src/Runner/Samples.antt =====
-- A run of two stories.
use dc_ness.Base.{
  is_empty, String, string_eq, true, false, Option, none, some, List, [], ◌∷◌, ◌≡◌, ◌≢◌, ◌↔◌, refl,
  all, ◌==◌, eq_iff, mem, ap, arith, inl, All,
}
use dc_ness.Base.Dict.{lookup, put}
use dc_ness.Runner.Tasks.{
  Task, State, Python, default_branch, ok, err, commit_required, find_task, update_task, mark_task,
  refers,
}
use dc_ness.Runner.Actions.{
  task_action, progress, has_status, first_task, first_pending, last_task, is_sealed, story_summary,
  story_branch_ref, tasks_for_story, story_boundary_before, story_order, story_order_from,
  pr_base_ref, pr_base_after, next_action, seal_story, seal_story_from_git, Worktree,
}
use dc_ness.Runner.Marks.{IsRecorded}
use dc_ness.Runner.Seals.{offered, seal_story-next_action}
use dc_ness.Runner.Turns.{handed, is_done, next_action-is_done}

program : Unit {0}
unfolding mem mark_task find_task update_task refers lookup put story_summary story_branch_ref
    tasks_for_story story_boundary_before story_order story_order_from pr_base_ref pr_base_after
    progress first_task first_pending last_task next_action seal_story seal_story_from_git
program = tt

abbrev python : Python
python = record { str = λ n. "1"; has_text = λ s. true }

abbrev core_task : Task
core_task = record {
  id = 1;
  path = "docs/impl/01-core.md";
  slug = "01-core";
  title = "core";
  story = "1";
  task_index = "1/1";
  status = "running";
  attempts = 1;
  commit = none;
  provider = none;
  note = none;
}

abbrev ui_task : Task
ui_task = record {
  id = 2;
  path = "docs/impl/02-ui.md";
  slug = "02-ui";
  title = "ui";
  story = "2";
  task_index = "1/1";
  status = "pending";
  attempts = 0;
  commit = none;
  provider = none;
  note = none;
}

abbrev state_of : List Task → State
state_of ts = record {
  chain_id = "epic-01";
  scope = "epic";
  project_root = "/repo";
  tasks = ts;
  sealed_stories = [];
}

abbrev done_core : Task
done_core = record core_task { status = "completed"; commit = some "abc" }

abbrev running_state : State
running_state = state_of (core_task ∷ ui_task ∷ [])

abbrev boundary_state : State
boundary_state = state_of (done_core ∷ ui_task ∷ [])

abbrev sealed_state : State
sealed_state = record boundary_state {
  sealed_stories =
      ("1", record { branch = "story-1"; tip = "abc"; pr_base = default_branch "main" }) ∷ [];
}

marked_state :
    mark_task python running_state "01-core" "completed" (some "abc") none none ≡ ok boundary_state
unfolding program
marked_state = refl

unmarked_state :
    mark_task python running_state "01-core" "completed" none none none ≡ err commit_required
unfolding program
unmarked_state = refl

sealed : seal_story boundary_state "story-1" "abc" ≡ ok sealed_state
unfolding program
sealed = refl

differ : (a b : String) → (a == b) ≡ false → a ≢ b
differ a b h e = ground (arith, h, (eq_iff a b).1 e)

text_of : Option String → String
text_of none = ""
text_of (some s) = s

full_commit : ◌≢◌ {A = Option String} (some "abc") (some "")
unfolding text_of
full_commit e = differ "abc" "" refl (ap text_of e)

recorded : All (IsRecorded python) running_state.tasks
unfolding program
recorded = (
  record {
    valid = refl;
    committed = inl (differ "running" "completed" refl);
    noted = inl (differ "running" "error" refl, differ "running" "blocked" refl);
  },
  (
    record {
      valid = refl;
      committed = inl (differ "pending" "completed" refl);
      noted = inl (differ "pending" "error" refl, differ "pending" "blocked" refl);
    },
    tt,
  ),
)

story_offered : offered (next_action boundary_state) ≡ some ("1", ui_task)
unfolding program
story_offered = refl

abbrev worktree : Worktree
worktree = record { current_branch = "story-1"; head = "abc"; is_ancestor = λ c. c == "abc" }

sealed_from_git : seal_story_from_git boundary_state worktree ≡ ok sealed_state
unfolding program
sealed_from_git = refl

seal_story-next_action_example :
    (story : String) × (t : Task) × (offered (next_action boundary_state) ≡ some (story, t))
    × (is_sealed sealed_state story ≡ true)
    × (next_action sealed_state ≡ ok (task_action t (progress boundary_state)))
seal_story-next_action_example =
    seal_story-next_action boundary_state sealed_state "story-1" "abc" sealed

handed_task : handed (next_action sealed_state) ≡ some ui_task
unfolding program
handed_task = refl

next_action-is_done_example : (is_done (next_action boundary_state) ≡ true) ↔ (
    (is_empty boundary_state.tasks ≡ false)
    × (all (has_status "completed") boundary_state.tasks ≡ true))
next_action-is_done_example = next_action-is_done boundary_state
