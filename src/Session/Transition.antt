-- ===== src/Session/Transition.antt =====
-- harness/session_state.py, transition: the one writer of a session's state and of its ledgers.
use dc_ness.Base.{
  ℕ, Text, text_eq, Bool, true, false, not, Option, none, some, List, [], ◌∷◌, ◌++◌, if◌then◌else◌,
  length, nat_beq, ◌-◌,
}
use dc_ness.Base.Dict.{Dict, lookup, put}
use dc_ness.Session.Names.{valid_session_id, is_run_id}
use dc_ness.Session.Records.{
  Live, LiveFile, Ledger, events, unreadable, Event, Result, ok, err, Files, invalid_session_id,
  invalid_run_id, state_format,
}
use dc_ness.Session.Runs.{Runs, Outcome, Effect}
use dc_ness.Session.Lifecycle.{RunAction, apply_run_transition}
use dc_ness.Session.Steps.{StepAction, apply_step_transition}
use dc_ness.Session.Pending.{PendingArgs, set_pending, spawn_pending_agent, clear_pending_agent}
use dc_ness.Session.Runtime.{
  BindArgs, bind_identity, stage_prose, record_stop_block, defer_journeys, mark_post_task,
  set_active_agent, clean_stale_runs,
}

-- The files of a session: its live.json and the ledgers of its runs.
pub record Session : Type 0 where
  pub live : LiveFile
  pub ledgers : Dict Text Ledger

-- The transitions on one run besides those of the run and its steps.
pub data RuntimeAction : Type 0 where
  pending_set : PendingArgs → RuntimeAction
  pending_spawned : (agent agent_id : Option Text) → RuntimeAction
  pending_cleared : (tool_use_id : Option Text) → (require_exact : Bool) → RuntimeAction
  identity_bound : BindArgs → RuntimeAction
  prose_staged : (prose_file : Text) → RuntimeAction
  stop_block : (step_key : Text) → RuntimeAction
  journeys_deferred : (journey_ids : List Text) → RuntimeAction

-- Those that need no run.
pub data LiveAction : Type 0 where
  initialize : LiveAction
  active_agent : (agent mode : Option Text) → LiveAction
  post_task : (reason : Text) → LiveAction
  clean : (ttl : ℕ) → LiveAction

pub data Action : Type 0 where
  run : Text → RunAction → Action
  step : Text → StepAction → Action
  runtime : Text → RuntimeAction → Action
  whole : LiveAction → Action

abbrev pub ledger_in : Option Ledger → Ledger
ledger_in none = events []
ledger_in (some ledger) = ledger

unfoldable pub ledger_of : Session → Text → Ledger
unfolding lookup
ledger_of s rid = ledger_in (lookup rid s.ledgers)

abbrev pub append_events : Ledger → List Event → Ledger
append_events unreadable es = unreadable
append_events (events old) es = events (old ++ es)

-- `_append_ledger_record`, for the records of one transition.
unfoldable pub append_ledger : Text → List Event → Session → Dict Text Ledger
unfolding ledger_of put
append_ledger rid [] s = s.ledgers
append_ledger rid (e ∷ es) s = put rid (append_events (ledger_of s rid) (e ∷ es)) s.ledgers

abbrev empty_live : Live
empty_live = record {
  active_runs = [];
  active_agent = none;
  active_mode = none;
  post_task_markers = [];
}

-- `read_live(…) or _empty_live(…)`
abbrev pub read_live : LiveFile → Result Live
read_live LiveFile.missing = ok empty_live
read_live LiveFile.malformed = err state_format
read_live (LiveFile.live_doc live) = ok live

unfoldable pub apply_runtime_transition : ℕ → Text → RuntimeAction → Runs → Result Effect
unfolding set_pending spawn_pending_agent clear_pending_agent bind_identity stage_prose
    record_stop_block defer_journeys
apply_runtime_transition now rid (pending_set a) active = ok (set_pending now rid a active)
apply_runtime_transition now rid (pending_spawned agent id) active =
    ok (spawn_pending_agent now rid agent id active)
apply_runtime_transition now rid (pending_cleared id exact) active =
    ok (clear_pending_agent rid id exact active)
apply_runtime_transition now rid (identity_bound a) active = bind_identity rid a active
apply_runtime_transition now rid (prose_staged file) active = stage_prose rid file active
apply_runtime_transition now rid (stop_block key) active = record_stop_block rid key active
apply_runtime_transition now rid (journeys_deferred ids) active = defer_journeys rid ids active

-- The live.json that is written, none where it is left.
abbrev pub cleaned : ℕ → ℕ → Live → Option Live × Outcome
cleaned now ttl live =
    let survivors = clean_stale_runs now ttl live.active_runs in
    let removed = length live.active_runs - length survivors in
    if nat_beq removed 0
    then (none, Outcome.count 0)
    else (some (record live { active_runs = survivors }), Outcome.count removed)

abbrev pub is_missing : LiveFile → Bool
is_missing LiveFile.missing = true
is_missing _ = false

unfoldable pub apply_live_action :
    ℕ → LiveAction → (file_is_missing : Bool) → Live → Option Live × Outcome
unfolding set_active_agent mark_post_task clean_stale_runs
apply_live_action now initialize file_is_missing live =
    (if file_is_missing then some live else none, Outcome.nothing)
apply_live_action now (active_agent agent mode) file_is_missing live =
    (some (set_active_agent agent mode live), Outcome.nothing)
apply_live_action now (post_task reason) file_is_missing live =
    let marked = mark_post_task now reason live in
    (some marked, Outcome.count (length marked.post_task_markers))
apply_live_action now (clean ttl) file_is_missing live = cleaned now ttl live

abbrev pub written_live : Live → Option Runs → LiveFile → LiveFile
written_live live none old = old
written_live live (some active) old = LiveFile.live_doc (record live { active_runs = active })

-- What an effect on a run leaves of the session.
unfoldable pub commit : Text → Live → Effect → Session → Session
unfolding append_ledger
commit rid live e s = record {
  live = written_live live e.active s.live;
  ledgers = append_ledger rid e.appended s;
}

abbrev pub committed : Text → Live → Session → Result Effect → Session × Result Outcome
committed rid live s (err e) = (s, err e)
committed rid live s (ok effect) = (commit rid live effect s, ok effect.outcome)

abbrev pub given_live : Option Live → LiveFile → LiveFile
given_live none old = old
given_live (some live) old = LiveFile.live_doc live

-- What an action on a run does, on the runs and the run's ledger.
abbrev pub on_live : Files → ℕ → Action → Live → Session → Session × Result Outcome
on_live files now (run rid a) live s =
    committed rid live s (apply_run_transition files now rid a live.active_runs (ledger_of s rid))
on_live files now (step rid a) live s =
    committed rid live s (apply_step_transition files now rid a live.active_runs (ledger_of s rid))
on_live files now (runtime rid a) live s =
    committed rid live s (apply_runtime_transition now rid a live.active_runs)
on_live files now (whole a) live s =
    let (written, outcome) = apply_live_action now a (is_missing s.live) live in
    (record s { live = given_live written s.live }, ok outcome)

abbrev pub run_of : Action → Option Text
run_of (run rid a) = some rid
run_of (step rid a) = some rid
run_of (runtime rid a) = some rid
run_of (whole a) = none

abbrev pub has_valid_run : Option Text → Bool
has_valid_run none = true
has_valid_run (some rid) = is_run_id rid

abbrev pub on_read : Files → ℕ → Action → Session → Result Live → Session × Result Outcome
on_read files now action s (err e) = (s, err e)
on_read files now action s (ok live) = on_live files now action live s

unfoldable pub transition :
    Files → ℕ → (session_id : Text) → Action → Session → Session × Result Outcome
unfolding valid_session_id is_run_id apply_run_transition apply_step_transition
    apply_runtime_transition apply_live_action commit ledger_of
transition files now session_id action s =
    if not (valid_session_id session_id)
    then (s, err invalid_session_id)
    else if not (has_valid_run (run_of action))
    then (s, err invalid_run_id)
    else on_read files now action s (read_live s.live)
