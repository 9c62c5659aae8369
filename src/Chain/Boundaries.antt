-- ===== src/Chain/Boundaries.antt =====
-- The boundaries of a chain in harness/chain_view.py: from the view of one task to that of the next.
use dc_ness.Base.{
  ℕ, zero, suc, ◌+◌, ◌<◌, Bool, true, false, Option, none, some, List, [], ◌∷◌, ◌++◌, nat_beq, ltb,
  leb, ◌≡◌, refl, arith, ap, ◌∙◌, sym, All, length, take, drop, get_elem?, subst,
}
use native.Mathlib.Decide.{dec_lt}
use dc_ness.Chain.{
  ChainTask, Status, Operation, Result, ok, ◌>>=◌, delete_from, finish_prev, set_in_progress,
  redraw, Strategy, expands_substeps, redraw_strategy, transition_operations,
}
use dc_ness.Chain.Rows.{Row, apply_all, apply_all-append, header_rows, left_rows}
use dc_ness.Chain.Redraw.{
  Below, finished, finish_lem, delete_lem, set_in_progress_lem, IsTask, created, recreate-created,
  created_lem,
}
use dc_ness.Chain.Views.{rows_at, split, past_end, headers-Below, headers-finished}

-- Whether the view shows the sub-steps of the task at an index behind a boundary.
abbrev pub expanded : List ChainTask → ℕ → Bool
expanded tasks c = expands_substeps (redraw_strategy (length tasks)) (get_elem? tasks c)

-- What redraws the rows `before` with the waiting tasks behind them.
abbrev Draws : Result (List Operation) → (rows rows' : List Row) → Type 0
Draws r rows rows' = (ops : List Operation) × (r ≡ ok ops) × (apply_all ops rows ≡ rows')

redraw-next :
    (strategy : Strategy) (before : List Row) (tasks : List ChainTask) (k : ℕ) (t : ChainTask)
    (ts : List ChainTask)
    → Below k before
    → IsTask t
    → drop k tasks ≡ t ∷ ts
    → (b : Bool) → expands_substeps strategy (some t) ≡ b
    → Draws
        (redraw strategy k tasks (some t))
        (before ++ header_rows Status.pending k (t ∷ ts))
        (before ++ left_rows b k (t ∷ ts))
unfolding apply_all
redraw-next strategy before tasks k t ts below h d true e = (
  delete_from k (t ∷ ts) ++ created k (t ∷ ts),
  rw (e, d, recreate-created k t ts h),
  apply_all-append (delete_from k (t ∷ ts)) (created k (t ∷ ts)) _
      ∙ ap (apply_all (created k (t ∷ ts))) (delete_lem before k (t ∷ ts) below)
      ∙ created_lem before k t ts,
)
redraw-next strategy before tasks k t ts below h d false e =
    (set_in_progress k ∷ [], rw e, set_in_progress_lem before k t ts below)

pub All-get_elem? :
    (tasks : List ChainTask) (k : ℕ) (t : ChainTask)
    → All IsTask tasks
    → get_elem? tasks k ≡ some t
    → IsTask t
All-get_elem? [] k t h e = ground arith
All-get_elem? (x ∷ xs) zero t h e = ground (arith, h.0)
All-get_elem? (x ∷ xs) (suc k) t h e = All-get_elem? xs k t h.1 e

-- The redrawing where `o` is the task at the index, and `left` are the tasks from there on.
abbrev RedrawsAt : List Row → List ChainTask → ℕ → Option ChainTask → List ChainTask → Type 0
RedrawsAt before tasks k o left =
    Draws (redraw (redraw_strategy (length tasks)) k tasks o)
      (before ++ header_rows Status.pending k left)
      (before ++ left_rows (expands_substeps (redraw_strategy (length tasks)) o) k left)

redraw-left :
    (before : List Row) (tasks : List ChainTask) (k : ℕ)
    → Below k before
    → All IsTask tasks
    → RedrawsAt before tasks k (get_elem? tasks k) (drop k tasks)
unfolding apply_all
redraw-left before tasks k below h = elim (dec_lt k (length tasks)) [
  | yes lt ↦
      let (t, (d, _, g)) = split tasks k lt in
      let strategy = redraw_strategy (length tasks) in
      subst (λ o. RedrawsAt before tasks k o (drop k tasks)) (sym g)
        (subst (RedrawsAt before tasks k (some t)) (sym d) (
          redraw-next strategy before tasks k t (drop (suc k) tasks) below
            (All-get_elem? tasks k t h g) d (expands_substeps strategy (some t)) refl))
  | no ge ↦
      let (d, g) = past_end tasks k (omega arith) in
      subst (λ o. RedrawsAt before tasks k o (drop k tasks)) (sym g)
        (subst (RedrawsAt before tasks k none) (sym d) ([], refl, refl))
]

before-Below :
    (c : ℕ) (tasks : List ChainTask) → Below c (header_rows Status.completed 0 (take c tasks))
before-Below c tasks =
    subst (λ j. Below j (header_rows Status.completed 0 (take c tasks))) (omega arith)
      (headers-Below 0 c tasks)

before-finished :
    (c : ℕ) (tasks : List ChainTask) (p : ChainTask)
    → c < length tasks
    → header_rows Status.completed 0 (take c tasks ++ p ∷ [])
      ≡ finished (header_rows Status.completed 0 (take c tasks)) c p
before-finished c tasks p h =
    headers-finished 0 c tasks p h
    ∙ ap (λ j. finished (header_rows Status.completed 0 (take c tasks)) j p) (omega arith)

finished-prev :
    (show : Bool) (tasks : List ChainTask) (c : ℕ)
    → c < length tasks
    → apply_all (finish_prev c) (rows_at show 0 c c tasks)
      ≡ header_rows Status.completed 0 (take (suc c) tasks)
        ++ header_rows Status.pending (suc c) (drop (suc c) tasks)
finished-prev show tasks c h =
    let (p, (d, t, g)) = split tasks c h in
    let before = header_rows Status.completed 0 (take c tasks) in
    ap (λ left. apply_all (finish_prev c) (before ++ left_rows show c left)) d
    ∙ finish_lem before show c p (drop (suc c) tasks) (before-Below c tasks)
    ∙ ap (λ rows. rows ++ header_rows Status.pending (suc c) (drop (suc c) tasks))
        (sym (before-finished c tasks p h) ∙ ap (header_rows Status.completed 0) (sym t))

transition-redraw :
    (tasks : List ChainTask) (c : ℕ) (ops : List Operation)
    → c < length tasks
    → redraw (redraw_strategy (length tasks)) (suc c) tasks (get_elem? tasks (suc c)) ≡ ok ops
    → transition_operations tasks c (suc c) ≡ ok (finish_prev c ++ ops)
unfolding transition_operations
transition-redraw tasks c ops lt e =
    let in_range : ltb c (length tasks) ≡ true = ground arith in
    let below_end : leb (suc c) (length tasks) ≡ true = ground arith in
    let adjacent : nat_beq (suc c) (c + 1) ≡ true = ground arith in
    rw (in_range, below_end, adjacent) (ap (λ r. r >>= (λ more. ok (finish_prev c ++ more))) e)

pub transition_lem :
    (show : Bool) (tasks : List ChainTask) (c : ℕ)
    → c < length tasks
    → All IsTask tasks
    → Draws
        (transition_operations tasks c (suc c))
        (rows_at show 0 c c tasks)
        (rows_at (expanded tasks (suc c)) 0 (suc c) (suc c) tasks)
transition_lem show tasks c lt h =
    let before = header_rows Status.completed 0 (take (suc c) tasks) in
    let (ops, e, a) = redraw-left before tasks (suc c) (before-Below (suc c) tasks) h in
    (
      finish_prev c ++ ops,
      transition-redraw tasks c ops lt e,
      apply_all-append (finish_prev c) ops (rows_at show 0 c c tasks)
          ∙ ap (apply_all ops) (finished-prev show tasks c lt)
          ∙ a,
    )
