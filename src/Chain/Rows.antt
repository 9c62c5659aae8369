-- ===== src/Chain/Rows.antt =====
-- The task list that the operations of harness/chain_view.py draw on: a flat list, to whose end rows
-- are added.
use dc_ness.Base.{
  ℕ, suc, String, Bool, false, not, List, [], ◌∷◌, ◌++◌, map, keep, if◌then◌else◌, nat_beq, ◌≡◌,
  refl, ◌∙◌, sym, append-nil, append_assoc,
}
use dc_ness.Chain.{
  ChainTask, Status, Operation, create_header, create_substep, delete_substeps, complete_header,
  set_in_progress, delete_header, Subject, header_subject, substeps_for, Result, ok, err,
  create_substeps, create_pending, Line,
}

pub data Row : Type 0 where
  header_row : (index : ℕ) → Subject → Status → Row
  substep_row : (index : ℕ) → Subject → Row

abbrev pub is_header_of : ℕ → Row → Bool
is_header_of i (header_row j s status) = nat_beq j i
is_header_of i (substep_row j s) = false

abbrev pub is_substep_of : ℕ → Row → Bool
is_substep_of i (header_row j s status) = false
is_substep_of i (substep_row j s) = nat_beq j i

abbrev pub set_status : ℕ → Status → Row → Row
set_status i status (header_row j s old) = header_row j s (if nat_beq j i then status else old)
set_status i status (substep_row j s) = substep_row j s

-- What an operation does to the list.
unfoldable pub apply : Operation → List Row → List Row
apply (create_header i s status) rows = rows ++ header_row i s status ∷ []
apply (create_substep i s label) rows = rows ++ substep_row i s ∷ []
apply (delete_substeps i) rows = keep (λ r. not (is_substep_of i r)) rows
apply (complete_header i) rows = map (set_status i Status.completed) rows
apply (set_in_progress i) rows = map (set_status i Status.in_progress) rows
apply (delete_header i) rows = keep (λ r. not (is_header_of i r)) rows

unfoldable pub apply_all : List Operation → List Row → List Row
unfolding apply
apply_all [] rows = rows
apply_all (op ∷ ops) rows = apply_all ops (apply op rows)

-- The line that shows a row.
unfoldable pub line : Row → Line
line (header_row i s Status.completed) = Line.finished s
line (header_row i s Status.in_progress) = Line.underway s
line (header_row i s Status.pending) = Line.waiting s
line (substep_row i s) = Line.indented s

pub apply_all-append :
    (xs ys : List Operation) (rows : List Row)
    → apply_all (xs ++ ys) rows ≡ apply_all ys (apply_all xs rows)
unfolding apply_all
apply_all-append [] ys rows = refl
apply_all-append (x ∷ xs) ys rows = apply_all-append xs ys (apply x rows)

abbrev labels_of : Result (List String) → List String
labels_of (ok labels) = labels
labels_of (err e) = []

abbrev pub labels : ChainTask → List String
labels t = labels_of (substeps_for t)

abbrev pub substep_rows : ℕ → List String → List Row
substep_rows i names = map (λ name. substep_row i (Subject.substep name)) names

-- The finished tasks, and the waiting ones.
abbrev pub header_rows : Status → ℕ → List ChainTask → List Row
header_rows status i [] = []
header_rows status i (t ∷ ts) =
    header_row i (header_subject i t) status ∷ header_rows status (suc i) ts

-- The task that is underway, with its sub-steps or without.
abbrev pub open_rows : (show : Bool) → ℕ → ChainTask → List Row
open_rows show i t =
    header_row i (header_subject i t) Status.in_progress
    ∷ substep_rows i (if show then labels t else [])

abbrev pub left_rows : (show : Bool) → ℕ → List ChainTask → List Row
left_rows show i [] = []
left_rows show i (t ∷ ts) = open_rows show i t ++ header_rows Status.pending (suc i) ts

pub apply-substeps :
    (i : ℕ) (names : List String) (rows : List Row)
    → apply_all (create_substeps i names) rows ≡ rows ++ substep_rows i names
unfolding apply_all
apply-substeps i [] rows = sym (append-nil rows)
apply-substeps i (n ∷ ns) rows =
    apply-substeps i ns (rows ++ substep_row i (Subject.substep n) ∷ []) ∙ append_assoc rows _ _

pub apply-pending :
    (k : ℕ) (ts : List ChainTask) (rows : List Row)
    → apply_all (create_pending k ts) rows ≡ rows ++ header_rows Status.pending k ts
unfolding apply_all create_pending
apply-pending k [] rows = sym (append-nil rows)
apply-pending k (t ∷ ts) rows =
    apply-pending (suc k) ts (rows ++ header_row k (header_subject k t) Status.pending ∷ [])
    ∙ append_assoc rows _ _
