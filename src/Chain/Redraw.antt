-- ===== src/Chain/Redraw.antt =====
-- The redrawing of harness/chain_view.py on the rows of a list, one operation after the other.
use dc_ness.Base.{
  ℕ, suc, ◌<◌, ◌≤◌, Bool, true, false, not, List, [], ◌∷◌, ◌++◌, map, keep, ◌≡◌, refl, arith, ap,
  ◌∙◌, append-nil, append_assoc, map-append,
}
use dc_ness.Chain.{
  ChainTask, Status, Operation, set_in_progress, create_header, ok, ◌>>=◌, substeps_for,
  create_substeps, create_pending, delete_from, recreate, finish_prev, String, header_subject,
}
use dc_ness.Chain.Rows.{
  Row, header_row, substep_row, is_header_of, is_substep_of, set_status, apply, apply_all,
  apply_all-append, labels, substep_rows, header_rows, left_rows, apply-substeps, apply-pending,
}

-- Rows of tasks before an index, without sub-steps.
abbrev pub Below : ℕ → List Row → Type 0
Below i [] = Unit
Below i (header_row j s status ∷ rows) = (j < i) × Below i rows
Below i (substep_row j s ∷ rows) = ⊥

keep-append {ℓ} :
    {A : Type ℓ} (p : A → Bool) (xs ys : List A) → keep p (xs ++ ys) ≡ keep p xs ++ keep p ys
keep-append p [] ys = refl
keep-append p (x ∷ xs) ys = ground (arith, keep-append p xs ys)

Below-append : (i j : ℕ) (xs ys : List Row) → i ≤ j → Below i xs → Below j ys → Below j (xs ++ ys)
Below-append i j [] ys le h k = k
Below-append i j (header_row m s status ∷ xs) ys le h k =
    (omega arith, Below-append i j xs ys le h.1 k)
Below-append i j (substep_row m s ∷ xs) ys le h k = absurd h

Below-no_substeps :
    (i k : ℕ) (xs : List Row) → Below i xs → keep (λ r. not (is_substep_of k r)) xs ≡ xs
Below-no_substeps i k [] h = refl
Below-no_substeps i k (header_row m s status ∷ xs) h =
    ap (λ rest. header_row m s status ∷ rest) (Below-no_substeps i k xs h.1)
Below-no_substeps i k (substep_row m s ∷ xs) h = absurd h

Below-set_status :
    (i k : ℕ) (status : Status) (xs : List Row)
    → i ≤ k
    → Below i xs
    → map (set_status k status) xs ≡ xs
Below-set_status i k status [] le h = refl
Below-set_status i k status (header_row m s old ∷ xs) le h =
    ground (arith, h.0, Below-set_status i k status xs le h.1)
Below-set_status i k status (substep_row m s ∷ xs) le h = absurd h

Below-delete :
    (i k : ℕ) (xs : List Row) → i ≤ k → Below i xs → keep (λ r. not (is_header_of k r)) xs ≡ xs
Below-delete i k [] le h = refl
Below-delete i k (header_row m s status ∷ xs) le h = ground (arith, h.0, Below-delete i k xs le h.1)
Below-delete i k (substep_row m s ∷ xs) le h = absurd h

substeps-gone :
    (i : ℕ) (names : List String) → keep (λ r. not (is_substep_of i r)) (substep_rows i names) ≡ []
substeps-gone i [] = refl
substeps-gone i (n ∷ ns) = ground (arith, substeps-gone i ns)

headers-no_substeps :
    (status : Status) (k i : ℕ) (ts : List ChainTask)
    → keep (λ r. not (is_substep_of k r)) (header_rows status i ts) ≡ header_rows status i ts
headers-no_substeps status k i [] = refl
headers-no_substeps status k i (t ∷ ts) =
    ap (λ rest. header_row i (header_subject i t) status ∷ rest)
      (headers-no_substeps status k (suc i) ts)

headers-set_status :
    (old status : Status) (k i : ℕ) (ts : List ChainTask)
    → k < i
    → map (set_status k status) (header_rows old i ts) ≡ header_rows old i ts
headers-set_status old status k i [] h = refl
headers-set_status old status k i (t ∷ ts) h =
    ground (arith, headers-set_status old status k (suc i) ts)

headers-delete :
    (status : Status) (k i : ℕ) (ts : List ChainTask)
    → k < i
    → keep (λ r. not (is_header_of k r)) (header_rows status i ts) ≡ header_rows status i ts
headers-delete status k i [] h = refl
headers-delete status k i (t ∷ ts) h = ground (arith, headers-delete status k (suc i) ts)

-- The rows with the task `p` finished, those of the tasks `before` being in front.
abbrev pub finished : List Row → ℕ → ChainTask → List Row
finished before i p = before ++ header_row i (header_subject i p) Status.completed ∷ []

finished-Below :
    (before : List Row) (i : ℕ) (p : ChainTask)
    → Below i before
    → Below (suc i) (finished before i p)
finished-Below before i p h = Below-append i (suc i) before _ (omega arith) h (omega arith, tt)

without_substeps :
    (before : List Row) (show : Bool) (i : ℕ) (p : ChainTask) (bs : List ChainTask)
    → Below i before
    → keep (λ r. not (is_substep_of i r)) (before ++ left_rows show i (p ∷ bs))
      ≡ before
        ++ header_row i (header_subject i p) Status.in_progress
          ∷ header_rows Status.pending (suc i) bs
without_substeps before show i p bs h = simp (
  keep-append,
  Below-no_substeps i i before h,
  substeps-gone i,
  headers-no_substeps Status.pending i,
)

Below-weaken : (k : ℕ) (xs : List Row) → Below k xs → Below (suc k) xs
Below-weaken k [] h = tt
Below-weaken k (header_row m s status ∷ xs) h = (omega arith, Below-weaken k xs h.1)
Below-weaken k (substep_row m s ∷ xs) h = absurd h

completed-header :
    (before : List Row) (i : ℕ) (p : ChainTask) (bs : List ChainTask)
    → Below i before
    → map (set_status i Status.completed) (
        before
        ++ header_row i (header_subject i p) Status.in_progress
          ∷ header_rows Status.pending (suc i) bs)
      ≡ finished before i p ++ header_rows Status.pending (suc i) bs
completed-header before i p bs h =
    map-append (set_status i Status.completed) before _
    ∙ ground (
      arith,
      Below-set_status i i Status.completed before,
      headers-set_status Status.pending Status.completed i (suc i) bs,
      append_assoc before (header_row i (header_subject i p) Status.completed ∷ [])
          (header_rows Status.pending (suc i) bs),
    )

pub finish_lem :
    (before : List Row) (show : Bool) (i : ℕ) (p : ChainTask) (bs : List ChainTask)
    → Below i before
    → apply_all (finish_prev i) (before ++ left_rows show i (p ∷ bs))
      ≡ finished before i p ++ header_rows Status.pending (suc i) bs
unfolding apply_all
finish_lem before show i p bs h =
    ap (map (set_status i Status.completed)) (without_substeps before show i p bs h)
    ∙ completed-header before i p bs h

deleted-header :
    (before : List Row) (k : ℕ) (t : ChainTask) (ts : List ChainTask)
    → Below k before
    → keep (λ r. not (is_header_of k r)) (before ++ header_rows Status.pending k (t ∷ ts))
      ≡ before ++ header_rows Status.pending (suc k) ts
deleted-header before k t ts h =
    keep-append (λ r. not (is_header_of k r)) before _
    ∙ ground (arith, Below-delete k k before, headers-delete Status.pending k (suc k) ts)

pub delete_lem :
    (before : List Row) (k : ℕ) (ts : List ChainTask)
    → Below k before
    → apply_all (delete_from k ts) (before ++ header_rows Status.pending k ts) ≡ before
unfolding apply_all delete_from
delete_lem before k [] h = append-nil before
delete_lem before k (t ∷ ts) h =
    ap (apply_all (delete_from (suc k) ts)) (deleted-header before k t ts h)
    ∙ delete_lem before (suc k) ts (Below-weaken k before h)

pub set_in_progress_lem :
    (before : List Row) (k : ℕ) (t : ChainTask) (ts : List ChainTask)
    → Below k before
    → apply (set_in_progress k) (before ++ header_rows Status.pending k (t ∷ ts))
      ≡ before ++ left_rows false k (t ∷ ts)
unfolding apply
set_in_progress_lem before k t ts h =
    map-append (set_status k Status.in_progress) before _
    ∙ ground (
      arith,
      Below-set_status k k Status.in_progress before,
      headers-set_status Status.pending Status.in_progress k (suc k) ts,
    )

-- A task that its constructor accepted.
abbrev pub IsTask : ChainTask → Type 0
IsTask t = substeps_for t ≡ ok (labels t)

abbrev pub created : ℕ → List ChainTask → List Operation
created k [] = []
created k (t ∷ ts) =
    create_header k (header_subject k t) Status.in_progress
    ∷ (create_substeps k (labels t) ++ create_pending (suc k) ts)

pub recreate-created :
    (k : ℕ) (t : ChainTask) (ts : List ChainTask)
    → IsTask t
    → recreate k (t ∷ ts) ≡ ok (created k (t ∷ ts))
unfolding recreate
recreate-created k t ts h =
    ap
      (λ r. r >>= (λ names. ok (
        create_header k (header_subject k t) Status.in_progress
        ∷ (create_substeps k names ++ create_pending (suc k) ts))))
      h

pub created_lem :
    (before : List Row) (k : ℕ) (t : ChainTask) (ts : List ChainTask)
    → apply_all (created k (t ∷ ts)) before ≡ before ++ left_rows true k (t ∷ ts)
unfolding apply_all
created_lem before k t ts =
    let start = before ++ header_row k (header_subject k t) Status.in_progress ∷ [] in
    apply_all-append (create_substeps k (labels t)) (create_pending (suc k) ts) start
    ∙ ap (apply_all (create_pending (suc k) ts)) (apply-substeps k (labels t) start)
    ∙ apply-pending (suc k) ts (start ++ substep_rows k (labels t))
    ∙ simp append_assoc
