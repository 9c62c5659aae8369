-- ===== src/Runner/Init/Samples.antt =====
-- An earlier run of two completed tasks makes room for a new one.
use dc_ness.Base.{String, string_eq, true, false, some, [], ◌∷◌, ◌≡◌, refl}
use dc_ness.Base.Dict.{lookup, put, delete}
use dc_ness.Cache.Records.{text, number, no_file, doc, status, items, StateDoc, Caches, Location}
use dc_ness.Cache.Scope.{Files}
use dc_ness.Cache.Store.{invalidate_state_cache, empty_cache}
use dc_ness.Runner.Init.{ArchiveName, name_eq, Disk, ok, err, incomplete_tasks, prepare_init_state}
use dc_ness.Runner.Init.Archives.{IsSafe, prepare_init_state-IsSafe}

program : Unit {0}
unfolding prepare_init_state invalidate_state_cache lookup put delete empty_cache
program = tt

abbrev state_of : (last_status : String) → StateDoc
state_of last_status = record {
  schema_version = number 2;
  kind = text "dcness-story-run";
  project_root = text "/repo";
  chain_id = text "c1";
  tasks = items (status (text "completed") ∷ status (text last_status) ∷ []);
}

abbrev files : Files
files = record { resolve = λ s. s; parent = λ s. "/runs"; states = λ s. no_file }

abbrev location : Location
location = record { directory = "/runs"; chain_id = "c1" }

abbrev caches : Caches
caches =
    (
      location,
      doc (
          empty_cache (record {
            location = location;
            chain_id = "c1";
            project_root = "/repo";
            active = true;
          })),
    )
    ∷ []

abbrev first_name : ArchiveName
first_name = record { stamp = "20260701T000000Z"; index = 1 }

abbrev second_name : ArchiveName
second_name = record { stamp = "20260701T000000Z"; index = 2 }

-- An archive of the same second is there.
abbrev disk_with : StateDoc → Disk
disk_with s = record { state_file = doc s; archives = (first_name, s) ∷ []; caches = caches }

prepare_init_state-IsSafe_example : IsSafe false (disk_with (state_of "completed")) (
    prepare_init_state files "/runs/state.json" "20260701T000000Z" false
      (disk_with (state_of "completed")))
prepare_init_state-IsSafe_example =
    prepare_init_state-IsSafe files "/runs/state.json" "20260701T000000Z"
      (disk_with (state_of "completed")) false

archived :
    prepare_init_state files "/runs/state.json" "20260701T000000Z" false
      (disk_with (state_of "completed"))
    ≡ (
      record {
        state_file = no_file;
        archives = (first_name, state_of "completed") ∷ (second_name, state_of "completed") ∷ [];
        caches = [];
      },
      ok (some second_name),
    )
unfolding program
archived = refl

not_archived :
    prepare_init_state files "/runs/state.json" "20260701T000000Z" false
      (disk_with (state_of "pending"))
    ≡ (disk_with (state_of "pending"), err incomplete_tasks)
unfolding program
not_archived = refl
