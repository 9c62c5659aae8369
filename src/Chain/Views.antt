-- ===== src/Chain/Views.antt =====
-- The progress view of harness/chain_view.py against its operations: they draw what it shows.
use dc_ness.Base.{
  ℕ, String, zero, suc, ◌+◌, ◌<◌, ◌≤◌, Bool, true, false, none, some, List, [], ◌∷◌, ◌++◌, map, ◌≡◌,
  refl, arith, ap, ◌∙◌, sym, append-nil, append_assoc, map-append, All, length, take, drop,
  get_elem?, subst,
}
use dc_ness.Chain.{
  ChainTask, Status, Operation, Line, ok, ◌>>=◌, create_pending, create_header, header_subject,
  initial_from, render_from, task_lines, current_lines, Subject,
}
use dc_ness.Chain.Rows.{
  Row, header_row, apply_all, labels, line, header_rows, open_rows, left_rows, substep_rows,
}
use dc_ness.Chain.Redraw.{Below, finished, IsTask, created, created_lem}

-- The rows at the index `c`: the tasks before it are finished, and those behind it wait.
abbrev pub rows_at : (show : Bool) → (i c n : ℕ) → List ChainTask → List Row
rows_at show i c n ts = header_rows Status.completed i (take n ts) ++ left_rows show c (drop n ts)

initial-pending :
    (i c : ℕ) (ts : List ChainTask) → c < i → initial_from i c ts ≡ ok (create_pending i ts)
unfolding initial_from create_pending
initial-pending i c [] h = refl
initial-pending i c (t ∷ ts) h = ground (arith, initial-pending (suc i) c ts)

-- The operations that draw the list from the index `i` on.
abbrev pub initial_ops : (i c n : ℕ) → List ChainTask → List Operation
initial_ops i c n [] = []
initial_ops i c zero (t ∷ ts) = created c (t ∷ ts)
initial_ops i c (suc n) (t ∷ ts) =
    create_header i (header_subject i t) Status.completed ∷ initial_ops (suc i) c n ts

pub initial-ops :
    (i c n : ℕ) (ts : List ChainTask)
    → All IsTask ts
    → c ≡ i + n
    → initial_from i c ts ≡ ok (initial_ops i c n ts)
unfolding initial_from
initial-ops i c n [] h e = refl
initial-ops i c zero (t ∷ ts) h e = ground (arith, h.0, initial-pending (suc i) c ts)
initial-ops i c (suc n) (t ∷ ts) h e = ground (arith, initial-ops (suc i) c n ts h.1)

pub apply-initial :
    (i c n : ℕ) (ts : List ChainTask) (rows : List Row)
    → apply_all (initial_ops i c n ts) rows ≡ rows ++ rows_at true i c n ts
unfolding apply_all
apply-initial i c zero [] rows = sym (append-nil rows)
apply-initial i c (suc n) [] rows = sym (append-nil rows)
apply-initial i c zero (t ∷ ts) rows = created_lem rows c t ts
apply-initial i c (suc n) (t ∷ ts) rows =
    apply-initial (suc i) c n ts (rows ++ header_row i (header_subject i t) Status.completed ∷ [])
    ∙ append_assoc rows _ _

render-pending :
    (show : Bool) (i c : ℕ) (ts : List ChainTask)
    → c < i
    → render_from show i c ts ≡ ok (map line (header_rows Status.pending i ts))
unfolding render_from line
render-pending show i c [] h = refl
render-pending show i c (t ∷ ts) h = ground (arith, render-pending show (suc i) c ts)

lines-substeps :
    (i : ℕ) (names : List String)
    → map line (substep_rows i names) ≡ map (λ name. Line.indented (Subject.substep name)) names
unfolding line
lines-substeps i [] = refl
lines-substeps i (n ∷ ns) =
    ap (λ rest. Line.indented (Subject.substep n) ∷ rest) (lines-substeps i ns)

current-lines :
    (show : Bool) (c : ℕ) (t : ChainTask)
    → IsTask t
    → current_lines show c t ≡ ok (map line (open_rows show c t))
unfolding line
current-lines true c t h = ground (arith, h, lines-substeps c (labels t))
current-lines false c t h = refl

task-lines : (show : Bool) (c : ℕ) (t : ChainTask) → task_lines show c c t ≡ current_lines show c t
task-lines show c t = ground arith

render-here :
    (show : Bool) (c : ℕ) (t : ChainTask) (ts : List ChainTask)
    → IsTask t
    → render_from show c c (t ∷ ts) ≡ ok (map line (left_rows show c (t ∷ ts)))
unfolding render_from
render-here show c t ts h =
    ap (λ r. r >>= (λ lines. render_from show (suc c) c ts >>= (λ rest. ok (lines ++ rest))))
      (task-lines show c t ∙ current-lines show c t h)
    ∙ ap (λ r. r >>= (λ rest. ok (map line (open_rows show c t) ++ rest)))
        (render-pending show (suc c) c ts (omega arith))
    ∙ ap ok (sym (map-append line (open_rows show c t) (header_rows Status.pending (suc c) ts)))

pub render-rows :
    (show : Bool) (i c n : ℕ) (ts : List ChainTask)
    → All IsTask ts
    → c ≡ i + n
    → render_from show i c ts ≡ ok (map line (rows_at show i c n ts))
unfolding render_from line
render-rows show i c zero [] h e = refl
render-rows show i c (suc n) [] h e = refl
render-rows show i c zero (t ∷ ts) h e =
    subst (λ j. render_from show j c (t ∷ ts) ≡ ok (map line (left_rows show c (t ∷ ts))))
      (omega arith) (render-here show c t ts h.0)
render-rows show i c (suc n) (t ∷ ts) h e = ground (arith, render-rows show (suc i) c n ts h.1)

-- A list at an index inside it.
module _ {ℓ} {A : Type ℓ} where
  abbrev IsSplit : List A → ℕ → A → Type ℓ
  IsSplit xs c x =
      (drop c xs ≡ x ∷ drop (suc c) xs)
      × (take (suc c) xs ≡ take c xs ++ x ∷ [])
      × (get_elem? xs c ≡ some x)

  pub split : (xs : List A) (c : ℕ) → c < length xs → (x : A) × IsSplit xs c x
  split [] c h = absurd (omega arith)
  split (x ∷ xs) zero h = (x, (refl, refl, refl))
  split (x ∷ xs) (suc c) h =
      let (y, (p, q, r)) = split xs c (omega arith) in (y, (p, ap (λ rest. x ∷ rest) q, r))

  pub past_end : (xs : List A) (c : ℕ) → length xs ≤ c → (drop c xs ≡ []) × (get_elem? xs c ≡ none)
  past_end [] zero h = (refl, refl)
  past_end [] (suc c) h = (refl, refl)
  past_end (x ∷ xs) zero h = absurd (omega arith)
  past_end (x ∷ xs) (suc c) h = past_end xs c (omega arith)

pub headers-Below :
    (i n : ℕ) (ts : List ChainTask) → Below (i + n) (header_rows Status.completed i (take n ts))
headers-Below i zero ts = tt
headers-Below i (suc n) [] = tt
headers-Below i (suc n) (t ∷ ts) = (
  omega arith,
  subst (λ j. Below j (header_rows Status.completed (suc i) (take n ts))) (omega arith)
      (headers-Below (suc i) n ts),
)

pub headers-finished :
    (i n : ℕ) (ts : List ChainTask) (p : ChainTask)
    → n < length ts
    → header_rows Status.completed i (take n ts ++ p ∷ [])
      ≡ finished (header_rows Status.completed i (take n ts)) (i + n) p
headers-finished i zero ts p h =
    ap (λ j. header_row j (header_subject j p) Status.completed ∷ []) (omega arith)
headers-finished i (suc n) [] p h = absurd (omega arith)
headers-finished i (suc n) (t ∷ ts) p h =
    ap (λ rest. header_row i (header_subject i t) Status.completed ∷ rest)
      (headers-finished (suc i) n ts p (omega arith)
        ∙ ap (λ j. finished (header_rows Status.completed (suc i) (take n ts)) j p) (omega arith))
