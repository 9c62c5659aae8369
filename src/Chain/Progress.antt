-- ===== src/Chain/Progress.antt =====
-- A whole chain of harness/chain_view.py: what its operations draw, boundary after boundary.
use dc_ness.Base.{
  ℕ, String, zero, suc, ◌+◌, ◌<◌, ◌≤◌, Bool, true, false, Option, none, some, List, [], ◌∷◌, ◌++◌,
  map, ◌≡◌, refl, arith, ap, ◌∙◌, sym, All, length, take, drop, get_elem?, is_there, subst,
}
use dc_ness.Chain.{
  ChainTask, Status, Operation, Result, ok, ◌>>=◌, render_view, is_empty_chain, initial_operations,
}
use dc_ness.Chain.Rows.{Row, apply_all, labels, line, header_rows, left_rows}
use dc_ness.Chain.Redraw.{IsTask}
use dc_ness.Chain.Views.{rows_at, initial_ops, initial-ops, apply-initial, render-rows}
use dc_ness.Chain.Build.{
  ChainView, Mode, build_chain_view, drawn, shown_substeps, with_view, payload, effective_prev,
}
use dc_ness.Chain.Input
use dc_ness.Chain.Input.{Python, Item, parse_tasks, AllAccepted, parse_tasks-AllAccepted}
use dc_ness.Chain.Boundaries.{expanded, transition_lem, All-get_elem?}

-- The rows and the last view of a chain that starts at a task and goes on for `n` boundaries.
unfoldable pub progress : List ChainTask → (start n : ℕ) → Result (ChainView × List Row)
unfolding build_chain_view apply_all
progress tasks start zero = do
  v ← build_chain_view tasks start none true
  ok (v, apply_all v.operations [])
progress tasks start (suc n) = do
  (w, rows) ← progress tasks start n
  v ← build_chain_view tasks (suc (start + n)) none false
  ok (v, apply_all v.operations rows)

render_view-rows :
    (show : Bool) (tasks : List ChainTask) (c : ℕ)
    → All IsTask tasks
    → is_empty_chain tasks ≡ false
    → c ≤ length tasks
    → render_view tasks c (some show) ≡ ok (map line (rows_at show 0 c c tasks))
unfolding render_view
render_view-rows show tasks c h k le = ground (arith, k, render-rows show 0 c c tasks h)

shown-labels :
    (show : Bool) (tasks : List ChainTask) (c : ℕ)
    → All IsTask tasks
    → (o : Option ChainTask) → get_elem? tasks c ≡ o
    → (names : List String) × (shown_substeps show o ≡ ok names)
shown-labels true tasks c h (some t) e = (labels t, All-get_elem? tasks c t h e)
shown-labels true tasks c h none e = ([], refl)
shown-labels false tasks c h o e = ([], refl)

-- The view is that of the rows at the index, and the operations are those that were drawn.
abbrev Shows : List ChainTask → ℕ → List Operation → Bool → Result ChainView → Type 0
Shows tasks c ops show r =
    (v : ChainView) × (r ≡ ok v)
    × (v.operations ≡ ops)
    × (v.view ≡ map line (rows_at show 0 c c tasks))

with_view-Shows :
    (tasks : List ChainTask) (c : ℕ) (ops : List Operation) (mode : Mode) (show : Bool)
    → All IsTask tasks
    → is_empty_chain tasks ≡ false
    → c ≤ length tasks
    → Shows tasks c ops show (with_view tasks c (ops, mode, show))
with_view-Shows tasks c ops mode show h k le =
    let (names, e) = shown-labels show tasks c h (get_elem? tasks c) refl in
    let lines = map line (rows_at show 0 c c tasks) in
    (
      payload tasks c (ops, mode, show) lines names,
      rw (render_view-rows show tasks c h k le, e),
      refl,
      refl,
    )

build-drawn :
    (tasks : List ChainTask) (c : ℕ) (prev : Option ℕ) (as_initial : Bool)
    (drew : List Operation × Mode × Bool)
    → is_empty_chain tasks ≡ false
    → c ≤ length tasks
    → drawn tasks c as_initial (effective_prev prev c) ≡ ok drew
    → build_chain_view tasks c prev as_initial ≡ with_view tasks c drew
unfolding build_chain_view
build-drawn tasks c prev as_initial drew k le e = ground (arith, k, e)

-- Whether the last view shows the sub-steps of its task.
abbrev shows_at : List ChainTask → (start n : ℕ) → Bool
shows_at tasks start zero = is_there (get_elem? tasks start)
shows_at tasks start (suc n) = expanded tasks (suc (start + n))

-- The progress of a chain: the last view is what its rows show.
abbrev pub IsShown : Result (ChainView × List Row) → Type 0
IsShown r = (v : ChainView) × (rows : List Row) × (r ≡ ok (v, rows)) × (v.view ≡ map line rows)

left-none :
    (tasks : List ChainTask) (c j : ℕ)
    → is_there (get_elem? tasks c) ≡ false
    → left_rows true j (drop c tasks) ≡ left_rows false j (drop c tasks)
left-none [] zero j e = refl
left-none [] (suc c) j e = refl
left-none (x ∷ xs) zero j e = ground arith
left-none (x ∷ xs) (suc c) j e = left-none xs c j e

rows-open :
    (b : Bool) (tasks : List ChainTask) (c : ℕ)
    → is_there (get_elem? tasks c) ≡ b
    → rows_at true 0 c c tasks ≡ rows_at b 0 c c tasks
rows-open true tasks c e = refl
rows-open false tasks c e =
    ap (λ rows. header_rows Status.completed 0 (take c tasks) ++ rows) (left-none tasks c c e)

abbrev IsAt : Result (ChainView × List Row) → (show : Bool) → ℕ → List ChainTask → Type 0
IsAt r show c tasks =
    (v : ChainView) × (rows : List Row) × (r ≡ ok (v, rows))
    × (rows ≡ rows_at show 0 c c tasks)
    × (v.view ≡ map line (rows_at show 0 c c tasks))

initial-drawn :
    (tasks : List ChainTask) (c : ℕ)
    → All IsTask tasks
    → drawn tasks c true (effective_prev none c)
      ≡ ok (initial_ops 0 c c tasks, Mode.initial, is_there (get_elem? tasks c))
unfolding initial_operations
initial-drawn tasks zero h =
    ap (λ r. r >>= (λ ops. ok (ops, Mode.initial, is_there (get_elem? tasks zero))))
      (initial-ops 0 zero zero tasks h (omega arith))
initial-drawn tasks (suc c) h =
    ap (λ r. r >>= (λ ops. ok (ops, Mode.initial, is_there (get_elem? tasks (suc c)))))
      (initial-ops 0 (suc c) (suc c) tasks h (omega arith))

initial-IsAt :
    (tasks : List ChainTask) (c : ℕ)
    → All IsTask tasks
    → is_empty_chain tasks ≡ false
    → c ≤ length tasks
    → IsAt (progress tasks c zero) (is_there (get_elem? tasks c)) c tasks
unfolding progress
initial-IsAt tasks c h k le =
    let show = is_there (get_elem? tasks c) in
    let ops = initial_ops 0 c c tasks in
    let drew = initial-drawn tasks c h in
    let (v, e, o, w) = with_view-Shows tasks c ops Mode.initial show h k le in
    (
      v,
      apply_all v.operations [],
      ap (λ r. r >>= (λ x. ok (x, apply_all x.operations [])))
          (build-drawn tasks c none true (ops, Mode.initial, show) k le drew ∙ e),
      ap (λ xs. apply_all xs []) o ∙ apply-initial 0 c c tasks [] ∙ rows-open show tasks c refl,
      w,
    )

next-IsAt :
    (tasks : List ChainTask) (start n : ℕ) (show : Bool)
    → All IsTask tasks
    → is_empty_chain tasks ≡ false
    → start + n < length tasks
    → IsAt (progress tasks start n) show (start + n) tasks
    → IsAt (progress tasks start (suc n)) (expanded tasks (suc (start + n))) (suc (start + n)) tasks
unfolding progress
next-IsAt tasks start n show h k lt (w, rows, p, q, r) =
    let c = start + n in
    let (ops, t, a) = transition_lem show tasks c lt h in
    let expand = expanded tasks (suc c) in
    let (v, e, o, x) = with_view-Shows tasks (suc c) ops Mode.transition expand h k (omega arith) in
    let drew : drawn tasks (suc c) false (some c) ≡ ok (ops, Mode.transition, expand) =
      ap (λ t. t >>= (λ ops. ok (ops, Mode.transition, expand))) t in
    (
      v,
      apply_all v.operations rows,
      ap
            (λ s. s >>= (λ y.
              build_chain_view tasks (suc c) none false
              >>= (λ z. ok (z, apply_all z.operations y.1))))
            p
          ∙ ap (λ s. s >>= (λ z. ok (z, apply_all z.operations rows)))
              (build-drawn tasks (suc c) none false (ops, Mode.transition, expand) k (omega arith)
                  drew
                ∙ e),
      ap (λ xs. apply_all xs rows) o ∙ ap (apply_all ops) q ∙ a,
      x,
    )

step_index : (start n : ℕ) → suc (start + n) ≡ start + suc n
step_index start n = omega arith

progress-IsAt :
    (tasks : List ChainTask) (start n : ℕ)
    → All IsTask tasks
    → is_empty_chain tasks ≡ false
    → start + n ≤ length tasks
    → IsAt (progress tasks start n) (shows_at tasks start n) (start + n) tasks
progress-IsAt tasks start zero h k le =
    subst (λ c. IsAt (progress tasks start zero) (is_there (get_elem? tasks start)) c tasks)
      (omega arith) (initial-IsAt tasks start h k (omega arith))
progress-IsAt tasks start (suc n) h k le =
    subst (λ c. IsAt (progress tasks start (suc n)) (expanded tasks (suc (start + n))) c tasks)
      (step_index start n)
      (next-IsAt tasks start n (shows_at tasks start n) h k (omega arith)
        (progress-IsAt tasks start n h k (omega arith)))

progress-IsShown :
    (tasks : List ChainTask) (start n : ℕ)
    → All IsTask tasks
    → is_empty_chain tasks ≡ false
    → start + n ≤ length tasks
    → IsShown (progress tasks start n)
progress-IsShown tasks start n h k le =
    let (v, rows, p, q, r) = progress-IsAt tasks start n h k le in
    (v, rows, p, r ∙ ap (map line) (sym q))

-- Where a list of items was parsed to the tasks of a chain, at least one, then from any task of it
-- on, boundary after boundary up to its end, the operations can be made, and after each of them the
-- view is what the task list shows that they have drawn so far, row by row.
pub progress-parse_tasks :
    (py : Python) (items : List (Option Item)) (tasks : List ChainTask) (start n : ℕ)
    → parse_tasks py items ≡ Input.ok tasks
    → is_empty_chain tasks ≡ false
    → start + n ≤ length tasks
    → IsShown (progress tasks start n)
progress-parse_tasks py items tasks start n e k le =
    progress-IsShown tasks start n (subst (AllAccepted py) e (parse_tasks-AllAccepted py items)) k
      le
