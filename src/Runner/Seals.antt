-- ===== src/Runner/Seals.antt =====
-- harness/story_runner.py: what a story's pull request waits for, and what its seal changes.
use dc_ness.Base.{
  String, string_eq, true, false, Option, none, some, ◌==◌, refl, sym, ap, ◌∙◌, ◌≡◌, arith, eq_iff,
  subst,
}
use dc_ness.Base.Dict.{Dict, put, lookup-put}
use dc_ness.Runner.Tasks.{Task, Seal, State, Result, ok, err, ◌>>=◌}
use dc_ness.Runner.Actions.{
  Action, Summary, task_action, story_pr, has_status, is_stopped, first_task, first_pending,
  last_task, is_sealed, progress, story_summary, story_boundary_before, pending_action,
  final_action, stopped_action, open_action, live_action, next_action, sealed_with, seal_story,
  seal_story_from_git, sealed_from, last_commit, Worktree,
}
use dc_ness.Runner.Choice.{IsBoundary, story_boundary_before_lem}

-- The state in which next_action offers the pull request of a story.
abbrev pub AtStory : State → String → Task → Type 0
AtStory s story t =
    (first_task is_stopped s.tasks ≡ none)
    × (first_task (has_status "running") s.tasks ≡ none)
    × (before : Task) × (first_pending none s.tasks ≡ some (some before, t))
    × (before.story ≡ story)
    × IsBoundary s before t

-- The story whose pull request an action asks for, and the task that waits for it.
abbrev pub offered : Result Action → Option (String × Task)
offered (ok (story_pr story pr_base next_base t p)) = some (story.story, t)
offered _ = none

-- The story at whose end an action stands.
abbrev pub at_boundary : Result Action → Option Summary
at_boundary (ok (story_pr story pr_base next_base t p)) = some story
at_boundary _ = none

pending_action-offered :
    (s : State) (previous : Option Task) (t u : Task) (story : String)
    → offered (pending_action s previous t) ≡ some (story, u)
    → (t ≡ u) × (story_boundary_before s previous t ≡ some story)
unfolding story_summary
pending_action-offered s previous t u story w = go (story_boundary_before s previous t) refl
  where
    go :
        (b : Option String)
        → story_boundary_before s previous t ≡ b
        → (t ≡ u) × (story_boundary_before s previous t ≡ some story)
    go none h = ground (arith, h, w)
    go (some name) h = ground (arith, h, w)

final_action-offered : (s : State) (last : Option Task) → offered (final_action s last) ≡ none
final_action-offered s none = refl
final_action-offered s (some last) = ground arith

open_action-offered :
    (s : State) (t : Task) (story : String) (r : Option (Option Task × Task))
    → offered (open_action s r) ≡ some (story, t)
    → (previous : Option Task) × (r ≡ some (previous, t))
      × (story_boundary_before s previous t ≡ some story)
open_action-offered s t story none w = ground (arith, w, final_action-offered s (last_task s.tasks))
open_action-offered s t story (some (previous, u)) w =
    let (same, h) = pending_action-offered s previous u t story w in
    (
      previous,
      ap (λ x. some (previous, x)) same,
      subst (λ x. story_boundary_before s previous x ≡ some story) same h,
    )

-- next_action asks for the pull request of a story only when no task is stopped or running, the
-- story of the task before the first pending one is another one, it is not sealed and all its
-- tasks are completed.
next_action-AtStory :
    (s : State) (t : Task) (story : String)
    → offered (next_action s) ≡ some (story, t)
    → AtStory s story t
unfolding next_action
next_action-AtStory s t story w =
    go (first_task is_stopped s.tasks) (first_task (has_status "running") s.tasks) refl refl w
  where
    go :
        (stopped running : Option Task)
        → first_task is_stopped s.tasks ≡ stopped
        → first_task (has_status "running") s.tasks ≡ running
        → offered (elim stopped [ some x ↦ ok (stopped_action s x) | none ↦ live_action s running ])
          ≡ some (story, t)
        → AtStory s story t
    go (some x) running e e' h = ground (arith, h)
    go none (some x) e e' h = ground (arith, h)
    go none none e e' h =
        let (previous, at, boundary) =
          open_action-offered s t story (first_pending none s.tasks) h in
        let (before, found, name, ends) = story_boundary_before_lem s previous t story boundary in
        (e, e', before, at ∙ ap (λ x. some (x, t)) found, name, ends)

-- The seal that seal_story stores.
seal_story_lem :
    (s s' : State) (branch tip : String)
    → seal_story s branch tip ≡ ok s'
    → (story : String) × (t : Task) × (seal : Seal) × (offered (next_action s) ≡ some (story, t))
      × (s' ≡ record s { sealed_stories = put story seal s.sealed_stories })
unfolding seal_story
seal_story_lem s s' branch tip e = go (next_action s) e
  where
    go :
        (r : Result Action)
        → (r >>= λ a. sealed_with s a branch tip) ≡ ok s'
        → (story : String) × (t : Task) × (seal : Seal) × (offered r ≡ some (story, t))
          × (s' ≡ record s { sealed_stories = put story seal s.sealed_stories })
    go (err x) h = ground (arith, h)
    go (ok (story_pr story pr_base next_base t p)) h = (
      story.story,
      t,
      record { branch = branch; tip = tip; pr_base = pr_base },
      refl,
      ground (arith, h),
    )
    go (ok a) h = ground (arith, h)

sealed_story_is_no_boundary :
    (s : State) (before t : Task)
    → is_sealed s before.story ≡ true
    → story_boundary_before s (some before) t ≡ none
unfolding story_boundary_before
sealed_story_is_no_boundary s before t h = ground (arith, h)

next_action-sealed :
    (s : State) (story : String) (t : Task)
    → AtStory s story t
    → (seals : Dict String Seal) → (is_sealed (record s { sealed_stories = seals }) story ≡ true)
    → next_action (record s { sealed_stories = seals }) ≡ ok (task_action t (progress s))
unfolding next_action story_boundary_before progress
next_action-sealed s story t (e, e', before, at, name, ends) seals h =
    rw
      (
        e,
        e',
        at,
        pending_action,
        sealed_story_is_no_boundary (record s { sealed_stories = seals }) before t
            (subst (λ x. is_sealed (record s { sealed_stories = seals }) x ≡ true) (sym name) h),
      )
      refl

-- After the seal of a story its pull request is not asked for again: the next action is the task
-- that waited for it.
pub seal_story-next_action :
    (s s' : State) (branch tip : String)
    → seal_story s branch tip ≡ ok s'
    → (story : String) × (t : Task) × (offered (next_action s) ≡ some (story, t))
      × (is_sealed s' story ≡ true)
      × (next_action s' ≡ ok (task_action t (progress s)))
seal_story-next_action s s' branch tip e =
    let (story, t, seal, at, left) = seal_story_lem s s' branch tip e in
    let stored : is_sealed (record s { sealed_stories = put story seal s.sealed_stories }) story
        ≡ true =
      rw (is_sealed, lookup-put story story seal s.sealed_stories, (eq_iff story story).1 refl)
        refl in
    (
      story,
      t,
      at,
      subst (λ x. is_sealed x story ≡ true) (sym left) stored,
      subst (λ x. next_action x ≡ ok (task_action t (progress s))) (sym left)
          (next_action-sealed s story t (next_action-AtStory s t story at)
            (put story seal s.sealed_stories) stored),
    )

-- A story sealed from the worktree is sealed with its branch and its tip, both named, and the tip
-- has the commit of the story's last task.
seal_story_from_git-seal_story :
    (s s' : State) (git : Worktree)
    → seal_story_from_git s git ≡ ok s'
    → (seal_story s git.current_branch git.head ≡ ok s')
      × ((git.current_branch == "") ≡ false)
      × ((git.head == "") ≡ false)
      × (story : Summary) × (at_boundary (next_action s) ≡ some story)
      × (git.is_ancestor (last_commit story.commits) ≡ true)
unfolding seal_story_from_git seal_story
seal_story_from_git-seal_story s s' git e = go (next_action s) e
  where
    go :
        (r : Result Action)
        → (r >>= sealed_from s git) ≡ ok s'
        → ((r >>= λ a. sealed_with s a git.current_branch git.head) ≡ ok s')
          × ((git.current_branch == "") ≡ false)
          × ((git.head == "") ≡ false)
          × (story : Summary) × (at_boundary r ≡ some story)
          × (git.is_ancestor (last_commit story.commits) ≡ true)
    go (err x) h = ground (arith, h)
    go (ok (story_pr story pr_base next_base t p)) h =
        (ground (arith, h), ground (arith, h), ground (arith, h), story, refl, ground (arith, h))
    go (ok a) h = ground (arith, h)
