-- ===== src/Runner/Actions.antt =====
-- harness/story_runner.py, the choice of the next action, and the seal of a story.
use dc_ness.Base.{
  is_empty, ℕ, String, string_eq, Bool, true, false, not, ◌&&◌, ◌||◌, Option, none, some, List, [],
  ◌∷◌, ◌++◌, map, if◌then◌else◌, ◌==◌, mem, all, keep, length,
}
use dc_ness.Base.Dict.{lookup, put}
use dc_ness.Runner.Tasks.{
  Task, BranchRef, default_branch, story_branch, Seal, State, seal_requires_story_pr,
  story_not_found, no_story_branch, commit_not_in_head, Result, ok, err, ◌>>=◌,
}

abbrev pub has_status : String → Task → Bool
has_status status t = t.status == status

unfoldable pub tasks_for_story : State → String → List Task
tasks_for_story s story = keep (λ t. t.story == story) s.tasks

pub record Summary : Type 0 where
  pub story : String
  pub task_ids : List ℕ
  pub commits : List (Option String)

unfoldable pub story_summary : State → String → Summary
unfolding tasks_for_story
story_summary s story = record {
  story = story;
  task_ids = map (λ t. t.id) (tasks_for_story s story);
  commits = map (λ t. t.commit) (tasks_for_story s story);
}

-- The loop of _story_order.
unfoldable pub story_order_from : List String → List Task → List String
story_order_from ordered [] = ordered
story_order_from ordered (t ∷ ts) =
    story_order_from (if mem t.story ordered then ordered else ordered ++ t.story ∷ []) ts

unfoldable pub story_order : State → List String
unfolding story_order_from
story_order s = story_order_from [] s.tasks

abbrev pub branch_of : Option Seal → Option String
branch_of none = none
branch_of (some seal) = some seal.branch

unfoldable pub story_branch_ref : State → String → BranchRef
story_branch_ref s story = story_branch story (branch_of (lookup story s.sealed_stories))

-- What stands before the first occurrence of the story, if it occurs.
unfoldable pub pr_base_after :
    State → (previous : Option String) → String → List String → Result BranchRef
unfolding story_branch_ref
pr_base_after s previous story [] = err story_not_found
pr_base_after s previous story (o ∷ order) =
    let later = pr_base_after s (some o) story order in
    if o == story
    then elim previous [
      | none ↦ ok (default_branch "main")
      | some before ↦ ok (story_branch_ref s before)
    ]
    else later

unfoldable pub pr_base_ref : State → String → Result BranchRef
unfolding story_order pr_base_after
pr_base_ref s story = pr_base_after s none story (story_order s)

pub record Progress : Type 0 where
  pub completed : ℕ
  pub total : ℕ

unfoldable pub progress : State → Progress
progress s = record {
  completed = length (keep (has_status "completed") s.tasks);
  total = length s.tasks;
}

abbrev pub is_sealed : State → String → Bool
is_sealed s story = elim (lookup story s.sealed_stories) [ none ↦ false | some seal ↦ true ]

-- `previous` is the task before the pending one.
unfoldable pub story_boundary_before : State → (previous : Option Task) → Task → Option String
unfolding tasks_for_story
story_boundary_before s none t = none
story_boundary_before s (some before) t =
    let story_tasks = tasks_for_story s before.story in
    if before.story == t.story
    then none
    else if is_sealed s before.story
    then none
    else if not (is_empty story_tasks) && all (has_status "completed") story_tasks
    then some before.story
    else none

pub data Action : Type 0 where
  blocked_action error_action : Task → Progress → Action
  task_action : Task → Progress → Action
  story_pr :
      (story : Summary) (pr_base next_branch_base : BranchRef) (next_task : Task)
      → Progress
      → Action
  done : (final_story : Summary) (pr_base stack_tip : BranchRef) → Progress → Action
  invalid : Progress → Action

-- The first task of the list that passes the test.
unfoldable pub first_task : (Task → Bool) → List Task → Option Task
first_task p [] = none
first_task p (t ∷ ts) = let rest = first_task p ts in if p t then some t else rest

-- The first pending task, and the task before it.
unfoldable pub first_pending : (previous : Option Task) → List Task → Option (Option Task × Task)
first_pending previous [] = none
first_pending previous (t ∷ ts) =
    let later = first_pending (some t) ts in
    if has_status "pending" t then some (previous, t) else later

unfoldable pub last_task : List Task → Option Task
last_task [] = none
last_task (t ∷ ts) = elim (last_task ts) [ none ↦ some t | some u ↦ some u ]

abbrev pub is_stopped : Task → Bool
is_stopped t = has_status "blocked" t || has_status "error" t

-- The action at the first pending task.
abbrev pub pending_action : State → (previous : Option Task) → Task → Result Action
pending_action s previous t = elim (story_boundary_before s previous t) [
  | none ↦ ok (task_action t (progress s))
  | some story ↦ pr_base_ref s story >>= λ base.
      ok (story_pr (story_summary s story) base (story_branch_ref s story) t (progress s))
]

-- The action where no task is stopped, running or pending.
abbrev pub final_action : State → Option Task → Result Action
final_action s none = ok (invalid (progress s))
final_action s (some last) =
    if all (has_status "completed") s.tasks
    then (pr_base_ref s last.story >>= λ base.
        ok (done (story_summary s last.story) base (story_branch_ref s last.story) (progress s)))
    else ok (invalid (progress s))

abbrev pub stopped_action : State → Task → Action
stopped_action s t =
    if has_status "blocked" t then blocked_action t (progress s) else error_action t (progress s)

abbrev pub open_action : State → Option (Option Task × Task) → Result Action
open_action s (some (previous, t)) = pending_action s previous t
open_action s none = final_action s (last_task s.tasks)

abbrev pub live_action : State → Option Task → Result Action
live_action s (some t) = ok (task_action t (progress s))
live_action s none = open_action s (first_pending none s.tasks)

abbrev pub next_from : State → Option Task → Result Action
next_from s (some t) = ok (stopped_action s t)
next_from s none = live_action s (first_task (has_status "running") s.tasks)

unfoldable pub next_action : State → Result Action
unfolding first_task first_pending last_task story_boundary_before pr_base_ref story_summary
next_action s = next_from s (first_task is_stopped s.tasks)

-- seal_story on the boundary action.
abbrev pub sealed_with : State → Action → (branch tip : String) → Result State
sealed_with s (story_pr story pr_base next_base next_task p) branch tip = ok (record s {
  sealed_stories =
      put story.story (record { branch = branch; tip = tip; pr_base = pr_base }) s.sealed_stories;
})
sealed_with s _ branch tip = err seal_requires_story_pr

unfoldable pub seal_story : State → (branch tip : String) → Result State
unfolding next_action
seal_story s branch tip = next_action s >>= λ action. sealed_with s action branch tip

-- What git says of the project's worktree: the branch, the tip, and whether a commit is behind it.
pub record Worktree : Type 0 where
  pub current_branch : String
  pub head : String
  pub is_ancestor : String → Bool

abbrev pub last_commit : List (Option String) → String
last_commit [] = ""
last_commit (none ∷ []) = ""
last_commit (some commit ∷ []) = commit
last_commit (_ ∷ c ∷ cs) = last_commit (c ∷ cs)

-- The checks of seal_story_from_git on the boundary action.
abbrev pub sealed_from : State → Worktree → Action → Result State
sealed_from s git (story_pr story pr_base next_base next_task p) =
    if git.current_branch == "" || git.head == ""
    then err no_story_branch
    else if not (git.is_ancestor (last_commit story.commits))
    then err commit_not_in_head
    else sealed_with s (story_pr story pr_base next_base next_task p) git.current_branch git.head
sealed_from s git _ = err seal_requires_story_pr

unfoldable pub seal_story_from_git : State → Worktree → Result State
unfolding next_action
seal_story_from_git s git = next_action s >>= sealed_from s git

unfoldable pub next_task : State → Option Task
unfolding next_action
next_task s = elim (next_action s) [
  | ok action ↦ elim action [ task_action t p ↦ some t | _ ↦ none ]
  | err e ↦ none
]
