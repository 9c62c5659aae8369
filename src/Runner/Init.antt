-- ===== src/Runner/Init.antt =====
-- harness/story_runner.py, the state file of a run before a new one takes its place: load_state,
-- archive_completed_state and prepare_init_state.
pub mod Archives
mod Samples
use dc_ness.Base.{
  is_there, ℕ, zero, suc, ◌+◌, String, string_eq, Bool, true, false, ◌&&◌, Option, none, some, [],
  ◌∷◌, if◌then◌else◌, ◌==◌, nat_beq, nat_beq_iff, all, any, ◌≡◌, ◌↔◌, arith, eq_iff, Eq,
}
use dc_ness.Base.Dict.{Dict, lookup, put}
use dc_ness.Cache.Records.{
  File, no_file, not_json, not_object, doc, StateDoc, TaskItem, no_object, status, TasksField,
  no_list, items, Caches, is_number, is_text,
}
use dc_ness.Cache.Scope.{Files}
use dc_ness.Cache.Store.{invalidate_state_cache}

-- The name of an archive: the moment, to the second, and the number that is put behind it from 2 on.
pub record ArchiveName : Type 0 where
  pub stamp : String
  pub index : ℕ

abbrev pub name_beq : ArchiveName → ArchiveName → Bool
name_beq a b = a.stamp == b.stamp && nat_beq a.index b.index

pub name_beq_iff : (a b : ArchiveName) → (name_beq a b ≡ true) ↔ (a ≡ b)
name_beq_iff a b = ground (arith, eq_iff a.stamp b.stamp, nat_beq_iff a.index b.index)

instance abbrev pub name_eq : Eq ArchiveName
name_eq = record { same = name_beq; same_iff = name_beq_iff }

-- The state file, the archives beside it, and the caches of failures.
pub record Disk : Type 0 where
  pub state_file : File StateDoc
  pub archives : Dict ArchiveName StateDoc
  pub caches : Caches

-- What is raised: JSONDecodeError, OSError or ValueError of `load_state`, the errors of
-- `prepare_init_state`, and AttributeError of a task that is no object.
pub data Error : Type 0 where
  invalid_json unreadable unsupported_schema : Error
  no_tasks incomplete_tasks no_archive_path attribute_error : Error

pub data Result {ℓ} (A : Type ℓ) : Type ℓ where
  ok : A → Result A
  err : Error → Result A

unfoldable pub load_state : File StateDoc → Result StateDoc
unfolding is_number
load_state no_file = err unreadable
load_state not_json = err invalid_json
load_state not_object = err unsupported_schema
load_state (doc s) = if is_number 2 s.schema_version then ok s else err unsupported_schema

-- `for index in range(1, 1000)`: the first name that is free.
unfoldable pub free_name :
    (rounds : ℕ) (stamp : String) (index : ℕ) → Dict ArchiveName StateDoc → Option ArchiveName
unfolding lookup
free_name zero stamp index archives = none
free_name (suc rounds) stamp index archives =
    let name : ArchiveName = record { stamp = stamp; index = index } in
    let later = free_name rounds stamp (index + 1) archives in
    if is_there (lookup name archives) then later else some name

abbrev pub archive_as : StateDoc → Disk → Option ArchiveName → Disk × Result (Option ArchiveName)
archive_as s d none = (d, err no_archive_path)
archive_as s d (some name) =
    (record d { state_file = no_file; archives = put name s d.archives }, ok (some name))

unfoldable pub archive_completed_state :
    (stamp : String) → StateDoc → Disk → Disk × Result (Option ArchiveName)
unfolding free_name
archive_completed_state stamp s d = archive_as s d (free_name 999 stamp 1 d.archives)

abbrev pub is_no_object : TaskItem → Bool
is_no_object no_object = true
is_no_object (status v) = false

abbrev pub is_completed : TaskItem → Bool
is_completed no_object = false
is_completed (status v) = is_text "completed" v

module _ (files : Files) (path stamp : String) where
  abbrev pub without_cache : StateDoc → Disk → Disk
  without_cache s d = record d { caches = (invalidate_state_cache files path s d.caches).0 }

  abbrev pub prepare_tasks : StateDoc → Disk → TasksField → Disk × Result (Option ArchiveName)
  prepare_tasks s d no_list = (d, err no_tasks)
  prepare_tasks s d (items []) = (d, err no_tasks)
  prepare_tasks s d (items (t ∷ ts)) =
      if any is_no_object (t ∷ ts)
      then (d, err attribute_error)
      else if all is_completed (t ∷ ts)
      then archive_completed_state stamp s (without_cache s d)
      else (d, err incomplete_tasks)

  abbrev pub prepare_forced : Disk → Result StateDoc → Disk × Result (Option ArchiveName)
  prepare_forced d (err e) = (d, ok none)
  prepare_forced d (ok s) = (without_cache s d, ok none)

  abbrev pub prepare_loaded : Disk → Result StateDoc → Disk × Result (Option ArchiveName)
  prepare_loaded d (err e) = (d, err e)
  prepare_loaded d (ok s) = prepare_tasks s d s.tasks

  abbrev pub prepare_file :
      Disk → (force : Bool) → File StateDoc → Disk × Result (Option ArchiveName)
  prepare_file d force no_file = (d, ok none)
  prepare_file d force file =
      if force then prepare_forced d (load_state file) else prepare_loaded d (load_state file)

  unfoldable pub prepare_init_state : (force : Bool) → Disk → Disk × Result (Option ArchiveName)
  unfolding load_state archive_completed_state is_text
  prepare_init_state force d = prepare_file d force d.state_file
