-- ===== src/Runner/Init/Archives.antt =====
-- What becomes of the state file of an earlier run.
use dc_ness.Base.{
  ℕ, zero, suc, ◌+◌, String, Bool, true, false, Option, none, some, [], ◌∷◌, all, any, ◌≡◌, ◌⊎◌,
  refl, subst, sym, arith, Bool-cases, Option-cases, inl, inr,
}
use dc_ness.Base.Dict.{Dict, lookup, put}
use dc_ness.Cache.Records.{File, no_file, doc, StateDoc, TasksField, no_list, items, is_number}
use dc_ness.Cache.Scope.{Files}
use dc_ness.Runner.Init.{
  ArchiveName, name_eq, Disk, Error, Result, ok, err, load_state, free_name, archive_as,
  archive_completed_state, is_no_object, is_completed, without_cache, prepare_tasks, prepare_forced,
  prepare_loaded, prepare_file, prepare_init_state,
}

lookup-free_name :
    (rounds : ℕ) (stamp : String) (index : ℕ) (archives : Dict ArchiveName StateDoc)
    (name : ArchiveName)
    → free_name rounds stamp index archives ≡ some name
    → lookup name archives ≡ none
unfolding free_name
lookup-free_name zero stamp index archives name e = cc
lookup-free_name (suc rounds) stamp index archives name e =
    let here : ArchiveName = record { stamp = stamp; index = index } in
    elim (Option-cases (lookup here archives)) [
      | inl none_ ↦
          let same : here ≡ name = ground (arith, e, none_) in
          subst (λ n. lookup n archives ≡ none) same none_
      | inr (s, e') ↦
          lookup-free_name rounds stamp (index + 1) archives name (ground (arith, e, e'))
    ]

-- A list of tasks, not empty, of which all are completed.
abbrev pub AllCompleted : TasksField → Type 0
AllCompleted no_list = ⊥
AllCompleted (items []) = ⊥
AllCompleted (items (t ∷ ts)) = all is_completed (t ∷ ts) ≡ true

module _ (force : Bool) (d : Disk) where
  -- The state file is in the archives under a name that was free, with all that was there before.
  pub record IsArchived (after : Disk × Result (Option ArchiveName)) : Type 0 where
    pub state : StateDoc
    pub name : ArchiveName
    pub was_there : d.state_file ≡ doc state
    pub completed : AllCompleted state.tasks
    pub not_forced : force ≡ false
    pub was_free : lookup name d.archives ≡ none
    pub is_gone : after.0.state_file ≡ no_file
    pub is_archived : after.0.archives ≡ put name state d.archives
    pub answer : after.1 ≡ ok (some name)

  pub record IsKept (after : Disk × Result (Option ArchiveName)) : Type 0 where
    pub state_file : after.0.state_file ≡ d.state_file
    pub archives : after.0.archives ≡ d.archives
    pub answer :
        ((e : Error) × (after.1 ≡ err e))
        ⊎ ((after.1 ≡ ok none) × ((force ≡ true) ⊎ (d.state_file ≡ no_file)))

  abbrev pub IsSafe : Disk × Result (Option ArchiveName) → Type 0
  IsSafe after = IsArchived after ⊎ IsKept after

refused-IsKept :
    (force : Bool) (d after : Disk) (e : Error)
    → after.state_file ≡ d.state_file
    → after.archives ≡ d.archives
    → IsSafe force d (after, err e)
refused-IsKept force d after e p q =
    inr (record { state_file = p; archives = q; answer = inl (e, refl) })

module _ (files : Files) (path stamp : String) (d : Disk) where
  archive_as-IsSafe :
      (s : StateDoc) (found : Option ArchiveName)
      → d.state_file ≡ doc s
      → AllCompleted s.tasks
      → free_name 999 stamp 1 d.archives ≡ found
      → IsSafe false d (archive_as s (without_cache files path stamp s d) found)
  archive_as-IsSafe s none is_doc done e = refused-IsKept false d _ _ refl refl
  archive_as-IsSafe s (some name) is_doc done e = inl (record {
    state = s;
    name = name;
    was_there = is_doc;
    completed = done;
    not_forced = refl;
    was_free = lookup-free_name 999 stamp 1 d.archives name e;
    is_gone = refl;
    is_archived = refl;
    answer = refl;
  })

  prepare_tasks-IsSafe :
      (s : StateDoc) (tasks : TasksField)
      → d.state_file ≡ doc s
      → s.tasks ≡ tasks
      → IsSafe false d (prepare_tasks files path stamp s d tasks)
  unfolding archive_completed_state
  prepare_tasks-IsSafe s no_list is_doc e = refused-IsKept false d _ _ refl refl
  prepare_tasks-IsSafe s (items []) is_doc e = refused-IsKept false d _ _ refl refl
  prepare_tasks-IsSafe s (items (t ∷ ts)) is_doc e = elim (Bool-cases (any is_no_object (t ∷ ts))) [
    | inl bad ↦ rw bad (refused-IsKept false d _ _ refl refl)
    | inr good ↦ elim (Bool-cases (all is_completed (t ∷ ts))) [
      | inl done ↦
          rw (good, done)
            (archive_as-IsSafe s (free_name 999 stamp 1 d.archives) is_doc
              (subst AllCompleted (sym e) done) refl)
      | inr open_ ↦ rw (good, open_) (refused-IsKept false d _ _ refl refl)
    ]
  ]

  prepare_loaded-IsSafe :
      (file : File StateDoc)
      → d.state_file ≡ file
      → IsSafe false d (prepare_loaded files path stamp d (load_state file))
  unfolding load_state
  prepare_loaded-IsSafe (doc s) is_file = elim (Bool-cases (is_number 2 s.schema_version)) [
    | inl current ↦ rw current (prepare_tasks-IsSafe s s.tasks is_file refl)
    | inr old ↦ rw old (refused-IsKept false d _ _ refl refl)
  ]
  prepare_loaded-IsSafe _ is_file = refused-IsKept false d _ _ refl refl

  prepare_forced-IsSafe :
      (loaded : Result StateDoc) → IsSafe true d (prepare_forced files path stamp d loaded)
  prepare_forced-IsSafe (err e) =
      inr (record { state_file = refl; archives = refl; answer = inr (refl, inl refl) })
  prepare_forced-IsSafe (ok s) =
      inr (record { state_file = refl; archives = refl; answer = inr (refl, inl refl) })

  prepare_file-IsSafe :
      (force : Bool) (file : File StateDoc)
      → d.state_file ≡ file
      → IsSafe force d (prepare_file files path stamp d force file)
  prepare_file-IsSafe force no_file is_file =
      inr (record { state_file = refl; archives = refl; answer = inr (refl, inr is_file) })
  prepare_file-IsSafe true file is_file = prepare_forced-IsSafe (load_state file)
  prepare_file-IsSafe false file is_file = prepare_loaded-IsSafe file is_file

  -- Preparing a new run never loses the state of an earlier one. Either the state file and the
  -- archives are as they were, and the answer is an error or, where there is no state file or
  -- `force` is given, that nothing stands in the way; or all tasks of the state were completed, and
  -- it was moved to the archives under a name that was free, which is the answer.
  pub prepare_init_state-IsSafe :
      (force : Bool) → IsSafe force d (prepare_init_state files path stamp force d)
  unfolding prepare_init_state
  prepare_init_state-IsSafe force = prepare_file-IsSafe force d.state_file refl
