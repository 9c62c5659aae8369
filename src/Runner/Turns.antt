-- ===== src/Runner/Turns.antt =====
-- harness/story_runner.py: when next_action hands out a task, and when a run is done.
use dc_ness.Base.{
  is_empty, string_eq, Bool, true, false, not, ◌||◌, Option, none, some, List, [], ◌∷◌, all, refl,
  ap, ◌∙◌, ◌≡◌, inl, inr, ◌↔◌, arith, eq_iff, Bool-cases, Option-cases, subst,
}
use dc_ness.Runner.Tasks.{Task, State, Result, ok}
use dc_ness.Runner.Choice.{pr_base_ref-ok, last_task-Contains}
use dc_ness.Runner.Actions.{
  Action, task_action, done, has_status, is_stopped, first_task, first_pending, last_task, progress,
  pending_action, final_action, stopped_action, open_action, live_action, next_from, next_action,
}

-- The task that an action hands out.
abbrev pub handed : Result Action → Option Task
handed (ok (task_action t p)) = some t
handed _ = none

-- Whether an action ends the run.
abbrev pub is_done : Result Action → Bool
is_done (ok (done story base tip p)) = true
is_done _ = false

first_task-none :
    (p : Task → Bool) (ts : List Task) → first_task p ts ≡ none → all (λ t. not (p t)) ts ≡ true
unfolding first_task
first_task-none p [] e = refl
first_task-none p (t ∷ ts) e = ground (arith, e, first_task-none p ts)

first_task-all :
    (p : Task → Bool) (ts : List Task) → all (λ t. not (p t)) ts ≡ true → first_task p ts ≡ none
unfolding first_task
first_task-all p [] e = refl
first_task-all p (t ∷ ts) e = ground (arith, e, first_task-all p ts)

first_task-some :
    (p : Task → Bool) (ts : List Task) (t : Task) → first_task p ts ≡ some t → p t ≡ true
unfolding first_task
first_task-some p [] t e = ground (arith, e)
first_task-some p (u ∷ us) t e = elim (Bool-cases (p u)) [
  | inl h ↦ subst (λ x. p x ≡ true) (ground (arith, e, h)) h
  | inr h ↦ first_task-some p us t (ground (arith, e, h))
]

first_pending-some :
    (previous before : Option Task) (ts : List Task) (t : Task)
    → first_pending previous ts ≡ some (before, t)
    → has_status "pending" t ≡ true
unfolding first_pending
first_pending-some previous before [] t e = ground (arith, e)
first_pending-some previous before (u ∷ us) t e = elim (Bool-cases (has_status "pending" u)) [
  | inl h ↦ subst (λ x. has_status "pending" x ≡ true) {x = u} {y = t} (ground (arith, e, h)) h
  | inr h ↦ first_pending-some (some u) before us t (ground (arith, e, h))
]

first_pending-none :
    (previous : Option Task) (ts : List Task)
    → all (λ t. not (has_status "pending" t)) ts ≡ true
    → first_pending previous ts ≡ none
unfolding first_pending
first_pending-none previous [] e = refl
first_pending-none previous (u ∷ us) e = ground (arith, e, first_pending-none (some u) us)

pending_action-handed :
    (s : State) (previous : Option Task) (t u : Task)
    → handed (pending_action s previous t) ≡ some u
    → t ≡ u
pending_action-handed s previous t u e = ground (arith, e)

final_action-handed : (s : State) (last : Option Task) → handed (final_action s last) ≡ none
final_action-handed s none = refl
final_action-handed s (some last) = ground arith

-- next_action hands out a task only when no task is
-- blocked or failed, and it is a running one or a pending one.
next_action-handed :
    (s : State) (t : Task)
    → handed (next_action s) ≡ some t
    → (all (λ u. not (is_stopped u)) s.tasks ≡ true)
      × ((has_status "running" t || has_status "pending" t) ≡ true)
unfolding next_action
next_action-handed s t w =
    go (first_task is_stopped s.tasks) (first_task (has_status "running") s.tasks)
      (first_pending none s.tasks) refl refl refl w
  where
    go :
        (stopped running : Option Task) (pending : Option (Option Task × Task))
        → first_task is_stopped s.tasks ≡ stopped
        → first_task (has_status "running") s.tasks ≡ running
        → first_pending none s.tasks ≡ pending
        → handed (elim stopped [
          | some x ↦ ok (stopped_action s x)
          | none ↦ elim running [
            | some y ↦ ok (task_action y (progress s))
            | none ↦ open_action s pending
          ]
        ])
          ≡ some t
        → (all (λ u. not (is_stopped u)) s.tasks ≡ true)
          × ((has_status "running" t || has_status "pending" t) ≡ true)
    go (some x) r q e e' e'' h = ground (arith, h)
    go none (some y) q e e' e'' h = (
      first_task-none is_stopped s.tasks e,
      subst (λ x. (has_status "running" x || has_status "pending" x) ≡ true) {x = y} {y = t}
          (ground (arith, h)) (ground (arith, first_task-some (has_status "running") s.tasks y e')),
    )
    go none none none e e' e'' h = ground (arith, h, final_action-handed s (last_task s.tasks))
    go none none (some (previous, u)) e e' e'' h = (
      first_task-none is_stopped s.tasks e,
      subst (λ x. (has_status "running" x || has_status "pending" x) ≡ true) {x = u} {y = t}
          (pending_action-handed s previous u t h)
          (ground (arith, first_pending-some none previous s.tasks u e'')),
    )

pending_action-is_done :
    (s : State) (previous : Option Task) (t : Task) → is_done (pending_action s previous t) ≡ false
pending_action-is_done s previous t = ground arith

final_action-is_done :
    (s : State) (last : Option Task)
    → is_done (final_action s last) ≡ true
    → all (has_status "completed") s.tasks ≡ true
final_action-is_done s none h = ground (arith, h)
final_action-is_done s (some last) h = ground (arith, h)

all_completed-running :
    (ts : List Task)
    → all (has_status "completed") ts ≡ true
    → (all (λ t. not (is_stopped t)) ts ≡ true)
      × (all (λ t. not (has_status "running" t)) ts ≡ true)
      × (all (λ t. not (has_status "pending" t)) ts ≡ true)
all_completed-running [] h = (refl, refl, refl)
all_completed-running (t ∷ ts) h =
    let rest = all_completed-running ts (ground (arith, h)) in
    let e : t.status ≡ "completed" = (eq_iff t.status "completed").0 (ground (arith, h)) in
    (rw (e, rest.0) refl, rw (e, rest.1) refl, rw (e, rest.2) refl)

last_task-some : (t : Task) (ts : List Task) → (u : Task) × (last_task (t ∷ ts) ≡ some u)
unfolding last_task
last_task-some t ts = elim (Option-cases (last_task ts)) [
  | inl e ↦ (t, rw (e) refl)
  | inr (u, e) ↦ (u, rw (e) refl)
]

done_by_last :
    (s : State) (t : Task)
    → last_task s.tasks ≡ some t
    → all (has_status "completed") s.tasks ≡ true
    → is_done (final_action s (some t)) ≡ true
done_by_last s t e h =
    let (base, resolved) = pr_base_ref-ok s t (last_task-Contains s.tasks t e) in
    rw (h, resolved) refl

finished_tasks :
    (s : State) (t : Task) (ts : List Task)
    → s.tasks ≡ t ∷ ts
    → all (has_status "completed") s.tasks ≡ true
    → is_done (next_action s) ≡ true
unfolding next_action
finished_tasks s t ts same h =
    let (no_stop, no_run, no_open) = all_completed-running s.tasks h in
    let (last, e) = last_task-some t ts in
    let at : last_task s.tasks ≡ some last = ap last_task same ∙ e in
    rw
      (
        first_task-all is_stopped s.tasks no_stop,
        first_task-all (has_status "running") s.tasks no_run,
        first_pending-none none s.tasks no_open,
        at,
      )
      (done_by_last s last at h)

open_action-is_done :
    (s : State) (r : Option (Option Task × Task))
    → is_done (open_action s r) ≡ true
    → is_done (final_action s (last_task s.tasks)) ≡ true
open_action-is_done s none h = h
open_action-is_done s (some (previous, t)) h =
    ground (arith, h, pending_action-is_done s previous t)

live_action-is_done :
    (s : State) (r : Option Task)
    → is_done (live_action s r) ≡ true
    → is_done (final_action s (last_task s.tasks)) ≡ true
live_action-is_done s none h = open_action-is_done s (first_pending none s.tasks) h
live_action-is_done s (some t) h = ground (arith, h)

next_from-is_done :
    (s : State) (r : Option Task)
    → is_done (next_from s r) ≡ true
    → is_done (final_action s (last_task s.tasks)) ≡ true
next_from-is_done s none h = live_action-is_done s (first_task (has_status "running") s.tasks) h
next_from-is_done s (some t) h = ground (arith, h)

final_action-nonempty :
    (s : State) (ts : List Task)
    → is_done (final_action s (last_task ts)) ≡ true
    → is_empty ts ≡ false
unfolding last_task
final_action-nonempty s [] h = ground (arith, h)
final_action-nonempty s (t ∷ ts) h = refl

done_run :
    (s : State)
    → is_done (next_action s) ≡ true
    → (is_empty s.tasks ≡ false) × (all (has_status "completed") s.tasks ≡ true)
unfolding next_action
done_run s h =
    let final = next_from-is_done s (first_task is_stopped s.tasks) h in
    (final_action-nonempty s s.tasks final, final_action-is_done s (last_task s.tasks) final)

completed_run :
    (s : State) (ts : List Task)
    → s.tasks ≡ ts
    → is_empty ts ≡ false
    → all (has_status "completed") s.tasks ≡ true
    → is_done (next_action s) ≡ true
completed_run s [] same h k = ground (arith, h)
completed_run s (t ∷ ts) same h k = finished_tasks s t ts same k

-- next_action says that the run is done exactly when it has tasks and all are completed.
pub next_action-is_done :
    (s : State)
    → (is_done (next_action s) ≡ true)
      ↔ ((is_empty s.tasks ≡ false) × (all (has_status "completed") s.tasks ≡ true))
next_action-is_done s = (done_run s, λ h. completed_run s s.tasks refl h.0 h.1)
