-- ===== src/Runner/Choice.antt =====
-- What `next_action` chooses.
use dc_ness.Base.{
  String, string_eq, Bool, true, false, Option, none, some, List, [], ◌∷◌, ◌++◌, if◌then◌else◌,
  ◌==◌, mem, all, sym, ◌∙◌, ◌≡◌, ◌⊎◌, inl, inr, refl, ap, arith, Bool-cases, Option-cases,
  mem-append, mem_self,
}
use dc_ness.Runner.Tasks.{Task, State, Result, ok, BranchRef, default_branch}
use dc_ness.Runner.Actions.{
  Action, task_action, story_pr, done, invalid, progress, has_status, is_stopped, first_task,
  first_pending, last_task, is_sealed, story_order, story_order_from, pr_base_after, pr_base_ref,
  story_boundary_before, tasks_for_story, story_summary, story_branch_ref, pending_action,
  final_action, stopped_action, open_action, live_action, next_from, next_action,
}

-- The order of the stories holds the story of every task.
story_order_from-keeps :
    (story : String) (ordered : List String) (ts : List Task)
    → mem story ordered ≡ true
    → mem story (story_order_from ordered ts) ≡ true
unfolding story_order_from
story_order_from-keeps story ordered [] h = h
story_order_from-keeps story ordered (t ∷ ts) h =
    story_order_from-keeps story (if mem t.story ordered then ordered else ordered ++ t.story ∷ [])
      ts (ground (arith, mem-append story ordered (t.story ∷ [])))

abbrev pub Contains : Task → List Task → Type 0
Contains t [] = ⊥
Contains t (u ∷ us) = (t ≡ u) ⊎ Contains t us

story_order_from-mem :
    (t : Task) (ordered : List String) (ts : List Task)
    → Contains t ts
    → mem t.story (story_order_from ordered ts) ≡ true
unfolding story_order_from
story_order_from-mem t ordered [] c = elim c [ ]
story_order_from-mem t ordered (u ∷ us) (inl e) =
    story_order_from-keeps t.story
      (if mem u.story ordered then ordered else ordered ++ u.story ∷ []) us
      (ground (
        arith,
        mem-append u.story ordered (u.story ∷ []),
        mem_self u.story [],
        ap (λ (x : Task). x.story) e,
      ))
story_order_from-mem t ordered (u ∷ us) (inr c) =
    story_order_from-mem t (if mem u.story ordered then ordered else ordered ++ u.story ∷ []) us c

base_before-ok :
    (s : State) (previous : Option String)
    → (base : BranchRef) × ((elim previous [
      | none ↦ ok (default_branch "main")
      | some before ↦ ok (story_branch_ref s before)
    ])
        ≡ ok base)
base_before-ok s none = (default_branch "main", refl)
base_before-ok s (some before) = (story_branch_ref s before, refl)

mem_rest :
    (x y : String) (ys : List String) → (y == x) ≡ false → mem x (y ∷ ys) ≡ true → mem x ys ≡ true
unfolding mem
mem_rest x y ys e h = ground (arith, e, h)

pr_base_after-ok :
    (s : State) (previous : Option String) (story : String) (order : List String)
    → mem story order ≡ true
    → (base : BranchRef) × (pr_base_after s previous story order ≡ ok base)
unfolding pr_base_after mem
pr_base_after-ok s previous story [] h = cc
pr_base_after-ok s previous story (o ∷ order) h = elim (Bool-cases (o == story)) [
  | inl e ↦ rw (e) (base_before-ok s previous)
  | inr e ↦ rw (e) (pr_base_after-ok s (some o) story order (mem_rest story o order e h))
]

-- Every reference to a pull request's base resolves for a story of a task.
pub pr_base_ref-ok :
    (s : State) (t : Task)
    → Contains t s.tasks
    → (base : BranchRef) × (pr_base_ref s t.story ≡ ok base)
unfolding pr_base_ref story_order
pr_base_ref-ok s t c = pr_base_after-ok s none t.story _ (story_order_from-mem t [] s.tasks c)

first_pending-Contains :
    (previous : Option Task) (ts : List Task) (before t : Task)
    → first_pending previous ts ≡ some (some before, t)
    → Contains before ts ⊎ (previous ≡ some before)
unfolding first_pending
first_pending-Contains previous [] before t e = ground (arith, e)
first_pending-Contains previous (u ∷ us) before t e = elim (Bool-cases (has_status "pending" u)) [
  | inl p ↦ ground (arith, e, p)
  | inr p ↦ elim (first_pending-Contains (some u) us before t (ground (arith, e, p))) [
    | inl c ↦ inl (inr c)
    | inr found ↦ ground (arith, found)
  ]
]

pub last_task-Contains : (ts : List Task) (t : Task) → last_task ts ≡ some t → Contains t ts
unfolding last_task
last_task-Contains [] t e = ground (arith, e)
last_task-Contains (u ∷ us) t e = elim (Option-cases (last_task us)) [
  | inl r ↦ inl (ground (arith, e, r))
  | inr (v, r) ↦ inr (last_task-Contains us t (ground (arith, e, r)))
]

abbrev IsChosen : State → Result Action → Type 0
IsChosen s r = (a : Action) × (r ≡ ok a)

IsChosen-if :
    (s : State) (b : Bool) (q r : Result Action)
    → IsChosen s q
    → IsChosen s r
    → IsChosen s (if b then q else r)
IsChosen-if s true q r h k = h
IsChosen-if s false q r h k = k

-- A story before the pending task ends there: all its tasks are completed and it is not sealed.
abbrev pub IsBoundary : State → Task → Task → Type 0
IsBoundary s before t =
    ((before.story == t.story) ≡ false)
    × (is_sealed s before.story ≡ false)
    × (all (has_status "completed") (tasks_for_story s before.story) ≡ true)

pub story_boundary_before_lem :
    (s : State) (previous : Option Task) (t : Task) (story : String)
    → story_boundary_before s previous t ≡ some story
    → (before : Task) × (previous ≡ some before) × (before.story ≡ story) × IsBoundary s before t
unfolding story_boundary_before
story_boundary_before_lem s none t story e = ground (arith, e)
story_boundary_before_lem s (some before) t story e =
    (before, refl, ground (arith, e), (ground (arith, e), ground (arith, e), ground (arith, e)))

pending_action-ok :
    (s : State) (previous : Option Task) (t : Task)
    → ((before : Task) → previous ≡ some before → Contains before s.tasks)
    → IsChosen s (pending_action s previous t)
pending_action-ok s previous t h = elim (Option-cases (story_boundary_before s previous t)) [
  | inl e ↦ rw (pending_action, e) (task_action t (progress s), refl)
  | inr (story, e) ↦
      let (before, at, same, _) = story_boundary_before_lem s previous t story e in
      let (base, resolved) = pr_base_ref-ok s before (h before at) in
      rw (pending_action, e, sym same, resolved)
        (
          story_pr (story_summary s before.story) base (story_branch_ref s before.story) t
              (progress s),
          refl,
        )
]

final_action-ok : (s : State) → IsChosen s (final_action s (last_task s.tasks))
final_action-ok s = go (last_task s.tasks) refl
  where
    go : (r : Option Task) → last_task s.tasks ≡ r → IsChosen s (final_action s r)
    go none r = (invalid (progress s), refl)
    go (some last) r =
        let (base, resolved) = pr_base_ref-ok s last (last_task-Contains s.tasks last r) in
        rw (resolved) (
          IsChosen-if s (all (has_status "completed") s.tasks)
            (ok
              (done (story_summary s last.story) base (story_branch_ref s last.story) (progress s)))
            (ok (invalid (progress s)))
            (
              done (story_summary s last.story) base (story_branch_ref s last.story) (progress s),
              refl,
            )
            (invalid (progress s), refl))

open_action-ok :
    (s : State) (r : Option (Option Task × Task))
    → first_pending none s.tasks ≡ r
    → IsChosen s (open_action s r)
open_action-ok s none e = final_action-ok s
open_action-ok s (some (previous, t)) e = pending_action-ok s previous t (λ before at.
    inside before (first_pending-Contains none s.tasks before t (e ∙ ap (λ x. some (x, t)) at)))
  where
    inside :
        (before : Task) → Contains before s.tasks ⊎ (none ≡ some before) → Contains before s.tasks
    inside before (inl c) = c
    inside before (inr e') = ground (arith, e')

live_action-ok : (s : State) (r : Option Task) → IsChosen s (live_action s r)
live_action-ok s (some t) = (task_action t (progress s), refl)
live_action-ok s none = open_action-ok s (first_pending none s.tasks) refl

next_from-ok : (s : State) (r : Option Task) → IsChosen s (next_from s r)
next_from-ok s (some t) = (stopped_action s t, refl)
next_from-ok s none = live_action-ok s (first_task (has_status "running") s.tasks)

-- next_action raises nothing: it chooses an action for every state, whatever the statuses are.
next_action-ok : (s : State) → (a : Action) × (next_action s ≡ ok a)
unfolding next_action
next_action-ok s = next_from-ok s (first_task is_stopped s.tasks)
