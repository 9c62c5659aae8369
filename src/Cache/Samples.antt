-- ===== src/Cache/Samples.antt =====
-- The cache of one chain on small inputs.
use dc_ness.Base.{
  String, string_eq, codes, true, none, some, [], ◌∷◌, mem, if◌then◌else◌, ◌==◌, ◌≡◌, ◌≢◌, ◌⊎◌,
  refl, eq_iff,
}
use dc_ness.Base.Dict.{lookup, put, delete}
use dc_ness.Cache.Records.{
  text, number, no_file, doc, status, items, StateDoc, FailureDoc, File, Entry, Caches, ok, err,
  identity_mismatch,
}
use dc_ness.Cache.Failures.{new_receipt, emit_failure, classify_failure, load_failure}
use dc_ness.Cache.Scope.{Files, scope}
use dc_ness.Cache.Store.{
  check_cached_failure, record_failure, clear_cached_failure, load_cache, is_true,
}
use dc_ness.Cache.Checks.{record_failure-check, clear_cached_failure-check}
use dc_ness.Cache.Changes.{IsEarned, record_failure-IsEarned}
use dc_ness.Cache.Receipts.{classify-emit-load}

program : Unit {0}
unfolding lookup put delete mem load_failure scope record_failure check_cached_failure
    clear_cached_failure load_cache emit_failure
program = tt

abbrev state : StateDoc
state = record {
  schema_version = number 2;
  kind = text "dcness-story-run";
  project_root = text "/repo";
  chain_id = text "c1";
  tasks = items (status (text "completed") ∷ status (text "pending") ∷ []);
}

abbrev files : Files
files = record {
  resolve = λ s. s;
  parent = λ s. "/runs";
  states = λ s. if s == "/runs/state.json" then doc state else no_file;
}

abbrev receipt : String → FailureDoc
receipt category = new_receipt (λ s. s) "now" "codex" category "/log" none

abbrev missing_cli : File FailureDoc
missing_cli = doc (receipt "cli_missing")

abbrev no_login : File FailureDoc
no_login = doc (receipt "auth_unavailable")

abbrev first_entry : Entry
first_entry = record {
  provider = "codex";
  category = "cli_missing";
  first_failed_at = text "now";
  raw_log = text "/log";
  scope = "chain:c1";
}

abbrev recorded : Caches
recorded = (record_failure files "/runs/state.json" "/repo" missing_cli "codex" []).0

first_recorded :
    (record_failure files "/runs/state.json" "/repo" missing_cli "codex" []).1
    ≡ ok (some first_entry)
unfolding program
first_recorded = refl

no_login_loads : load_failure no_login "codex" ≡ ok (receipt "auth_unavailable")
unfolding program
no_login_loads = refl

no_login_cacheable : is_true (receipt "auth_unavailable").cacheable ≡ true
unfolding program
no_login_cacheable = refl

record_failure-check_example :
    (check_cached_failure files "/runs/state.json" "/repo" "codex" recorded ≡ ok (some first_entry))
    × (record_failure files "/runs/state.json" "/repo" no_login "codex" recorded
        ≡ (recorded, ok (some first_entry)))
record_failure-check_example =
    record_failure-check files "/runs/state.json" "/repo" missing_cli no_login
      (receipt "auth_unavailable") "codex" [] first_entry first_recorded no_login_loads
      no_login_cacheable

codex_known :
    check_cached_failure files "/runs/state.json" "/repo" "codex" recorded ≡ ok (some first_entry)
unfolding program
codex_known = refl

codex_cleared : (clear_cached_failure files "/runs/state.json" "/repo" "codex" recorded).1 ≡ ok true
unfolding program
codex_cleared = refl

clear_cached_failure-check_example :
    check_cached_failure files "/runs/state.json" "/repo" "codex"
      (clear_cached_failure files "/runs/state.json" "/repo" "codex" recorded).0
    ≡ ok (if ◌==◌ {V = String} "codex" "codex" then none else some first_entry)
clear_cached_failure-check_example =
    clear_cached_failure-check files "/runs/state.json" "/repo" "codex" "codex" recorded
      (some first_entry) true codex_known codex_cleared

record_failure-IsEarned_example :
    ((record_failure files "/runs/state.json" "/repo" missing_cli "codex" []).0 ≡ [])
    ⊎ IsEarned files "/runs/state.json" "/repo" missing_cli "codex"
record_failure-IsEarned_example =
    record_failure-IsEarned files "/runs/state.json" "/repo" missing_cli "codex" []

not_empty : (path : String) → ◌≢◌ {A = String} "/abs" ""
not_empty path e = cc ((eq_iff "/abs" "").1 e)

codex_ne_claude : ◌≢◌ {A = String} "codex" "claude"
codex_ne_claude e = cc ((eq_iff "codex" "claude").1 e)

classify-emit-load_example :
    (f : FailureDoc) × (emit_failure
        (λ s. "/abs")
        "now"
        "codex"
        (classify_failure (λ t. t) 1 (some (codes "error: not logged in")) "")
        "/log"
        (some "/receipt")
      ≡ ok f)
    × (load_failure (doc f) "codex" ≡ ok f)
    × (load_failure (doc f) "claude" ≡ err identity_mismatch)
classify-emit-load_example =
    classify-emit-load (λ t. t) 1 (some (codes "error: not logged in")) "" (λ s. "/abs") "now"
      "codex" "claude" "/log" (some "/receipt") not_empty codex_ne_claude

not_logged_in :
    classify_failure (λ t. t) 1 (some (codes "error: not logged in")) "" ≡ "auth_unavailable"
unfolding classify_failure mem
not_logged_in = refl
