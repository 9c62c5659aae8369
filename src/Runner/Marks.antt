-- ===== src/Runner/Marks.antt =====
-- What `mark_task` keeps.
use dc_ness.Base.{
  String, string_eq, true, false, not, ◌&&◌, ◌||◌, Option, none, some, List, [], ◌∷◌, if◌then◌else◌,
  ◌==◌, mem, subst, sym, ◌≡◌, ◌≢◌, ◌⊎◌, inl, inr, refl, ap, All, arith, eq_iff, Bool-cases,
}
use dc_ness.Runner.Tasks.{
  Task, State, Result, ok, err, valid_statuses, Python, refers, find_task, update_task, given,
  truthy, has_note, marked, mark_task,
}

module _ (py : Python) where
  -- The status is one of the five, a completed task has a commit, a stopped one says why.
  pub record IsRecorded (t : Task) : Type 0 where
    pub valid : mem t.status valid_statuses ≡ true
    pub committed : (t.status ≢ "completed") ⊎ (truthy py t.commit ≡ true)
    pub noted : ((t.status ≢ "error") × (t.status ≢ "blocked")) ⊎ (has_note py t.note ≡ true)

  -- What mark_task checks of the task that it finds.
  abbrev MayMark : String → Option String → Option String → Task → Type 0
  MayMark status commit note t =
      (mem status valid_statuses ≡ true)
      × ((status == "completed" && not (truthy py commit || truthy py t.commit)) ≡ false)
      × (((status == "error" || status == "blocked") && not (has_note py note)) ≡ false)

  mark_task_lem :
      (s s' : State) (ref status : String) (commit provider note : Option String)
      → mark_task py s ref status commit provider note ≡ ok s'
      → (t : Task) × (find_task py s.tasks ref ≡ ok t)
        × MayMark status commit note t
        × (s' ≡ record s {
          tasks = update_task py s.tasks ref (marked py status commit provider note);
        })
  unfolding mark_task
  mark_task_lem s s' ref status commit provider note e = go (find_task py s.tasks ref) refl
    where
      go :
          (r : Result Task)
          → find_task py s.tasks ref ≡ r
          → (t : Task) × (find_task py s.tasks ref ≡ ok t)
            × MayMark status commit note t
            × (s' ≡ record s {
              tasks = update_task py s.tasks ref (marked py status commit provider note);
            })
      go (ok t) h = (t, h, ground arith, ground arith)
      go (err x) h = ground arith

  truthy-given :
      (new old : Option String)
      → new ≢ some ""
      → (truthy py new || truthy py old) ≡ true
      → truthy py (given py new old) ≡ true
  truthy-given none old full h = h
  truthy-given (some c) old full h = elim (Bool-cases (c == "")) [
    | inl e ↦ elim (full (ap some ((eq_iff c "").0 e))) [ ]
    | inr e ↦ ground (arith, e)
  ]

  has_note-given :
      (new old : Option String) → has_note py new ≡ true → has_note py (given py new old) ≡ true
  has_note-given none old h = ground (arith, h)
  has_note-given (some n) old h = h

  marked-IsRecorded :
      (status : String) (commit provider note : Option String) (t : Task)
      → commit ≢ some ""
      → MayMark status commit note t
      → IsRecorded (marked py status commit provider note t)
  marked-IsRecorded status commit provider note t full may = record {
    valid = may.0;
    committed = elim (Bool-cases (status == "completed")) [
      | inl e ↦ inr (truthy-given commit t.commit full (ground (arith, may.1, e)))
      | inr e ↦ inl (λ e'. ground (arith, e, (eq_iff status "completed").1 e'))
    ];
    noted = elim (Bool-cases (status == "error" || status == "blocked")) [
      | inl e ↦ inr (has_note-given note t.note (ground (arith, may.2, e)))
      | inr e ↦ inl (
        (λ e'. ground (arith, e, (eq_iff status "error").1 e')),
        (λ e'. ground (arith, e, (eq_iff status "blocked").1 e')),
      )
    ];
  }

  update_task-All :
      (P : Task → Type 0) (ref : String) (f : Task → Task) (t : Task) (ts : List Task)
      → find_task py ts ref ≡ ok t
      → P (f t)
      → All P ts
      → All P (update_task py ts ref f)
  unfolding find_task update_task
  update_task-All P ref f t [] e p h = h
  update_task-All P ref f t (u ∷ us) e p h = elim (Bool-cases (refers py ref u)) [
    | inl r ↦ rw (r) (subst (λ x. P (f x)) (same e r) p, h.1)
    | inr r ↦ rw (r) (h.0, update_task-All P ref f t us (ground (arith, e, r)) p h.1)
  ]
    where
      same :
          (if refers py ref u then ok u else find_task py us ref) ≡ ok t
          → refers py ref u ≡ true
          → t ≡ u
      same found r = ground (arith, found, r)

  -- A task recorded as completed has a commit, and one that is stopped says why: marking a task,
  -- with a commit that is not the empty text, keeps this for every task of the state.
  mark_task-IsRecorded :
      (s s' : State) (ref status : String) (commit provider note : Option String)
      → commit ≢ some ""
      → All IsRecorded s.tasks
      → mark_task py s ref status commit provider note ≡ ok s'
      → All IsRecorded s'.tasks
  mark_task-IsRecorded s s' ref status commit provider note full all_recorded e =
      let (t, found, may, left) = mark_task_lem s s' ref status commit provider note e in
      subst (λ (x : State). All IsRecorded x.tasks) (sym left)
        (update_task-All IsRecorded ref (marked py status commit provider note) t s.tasks found
          (marked-IsRecorded status commit provider note t full may) all_recorded)
