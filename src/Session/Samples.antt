-- ===== src/Session/Samples.antt =====
-- Runs of harness/session_state.py at concrete inputs.
use dc_ness.Base.{
  ◌≤◌, Text, codes, text_eq, text_beq, true, false, none, some, List, [], ◌∷◌, ◌++◌, ◌==◌, ◌≡◌,
  refl, length, all, is_there, ◌⊎◌, ◌≢◌, mem, nat_eq,
}
use dc_ness.Session.Names.{valid_session_id, valid_session_id-safe, id_char}
use dc_ness.Session.Records.{
  Files, Live, LiveFile, Ledger, events, Event, Result, ok, err, no_boundary_block,
}
use dc_ness.Session.Runs.{
  Outcome, RunArgs, BlockArgs, find_slot, boundary_block_marker, read_events, last_verdict,
}
use dc_ness.Session.Lifecycle.{start, block, accept}
use dc_ness.Session.Steps.{StepArgs, step_start, step_complete}
use dc_ness.Session.Transition.{
  Session, run, step, whole, post_task, read_live, transition, ledger_of,
}
use dc_ness.Session.Blocks.{is_open}
use dc_ness.Session.Again.{transition-again}
use dc_ness.Session.History.{transition-elsewhere}
use dc_ness.Session.Reach.{IsReached, fresh, after, boundary_block_marker-is_open}
use dc_ness.Base.Dict.{Dict}
use dc_ness.Session.Records.{Pending}
use dc_ness.Session.Pending.{new_pending, Spawned, claimed, claim_pending}
use dc_ness.Session.Claims.{IsClaimed, claim_pending-IsClaimed}
use dc_ness.Session.Bounds.{post_task_markers-length}

abbrev pub files : Files
files = record {
  receipt_is_valid = λ e. true;
  design_doc = λ p. some p;
  sha256 = λ t. t;
  conclusion = λ t. t;
}

abbrev pub sid : Text
sid = codes "s-1"

abbrev pub rid : Text
rid = codes "run-0123abcd"

abbrev other : Text
other = codes "run-89abcdef"

abbrev args : RunArgs
args = record {
  entry_point = codes "impl";
  lane = some (codes "lite");
  stage = none;
  design_doc = none;
  issue_num = none;
  acceptance_required = false;
}

abbrev step_args : StepArgs
step_args = record {
  agent = codes "dcness:tester";
  mode = none;
  tool_use_id = some (codes "t1");
  agent_id = none;
  lifecycle_owner = none;
  candidate_head = none;
  candidate_tree = none;
  candidate_root = none;
  chain_state = none;
  strict_identity = true;
  category = none;
  provider = none;
  enum = codes "PASS";
  prose = codes "PASS";
  prose_path = codes "tester.md";
}

abbrev block_args : BlockArgs
block_args = record {
  category = codes "worker_boundary";
  agent = none;
  mode = none;
  provider = none;
  reason = none;
  raw_log = none;
}

abbrev empty : Session
empty = record { live = LiveFile.missing; ledgers = [] }

abbrev started : Session
started = (transition files 10 sid (run rid (start args)) empty).0

abbrev stepped : Session
stepped = (transition files 11 sid (step rid (step_start step_args)) started).0

abbrev completed : Session × Result Outcome
completed = transition files 12 sid (step rid (step_complete step_args)) stepped

abbrev pub held : Session
held = (transition files 12 sid (run rid (block block_args)) started).0

abbrev outcome_of : Result Outcome → Outcome
outcome_of (ok o) = o
outcome_of (err e) = Outcome.nothing

abbrev pub events_in : Ledger → List Event
events_in (events es) = es
events_in _ = []

abbrev pub live_in : LiveFile → Live
live_in (LiveFile.live_doc live) = live
live_in _ = record {
  active_runs = [];
  active_agent = none;
  active_mode = none;
  post_task_markers = [];
}

completed-ok :
    transition files 12 sid (step rid (step_complete step_args)) stepped
    ≡ (completed.0, ok (outcome_of completed.1))
unfolding transition text_beq
completed-ok = refl

completed-readable :
    read_events files (ledger_of completed.0 rid) ≡ ok (events_in (ledger_of completed.0 rid))
unfolding transition ledger_of read_events text_beq
completed-readable = refl

transition-again_example :
    transition files 20 sid (step rid (step_complete step_args)) completed.0
    ≡ (completed.0, ok (outcome_of completed.1))
transition-again_example =
    transition-again files 12 20 sid rid step_args stepped completed.0 (outcome_of completed.1)
      (events_in (ledger_of completed.0 rid)) refl refl completed-ok completed-readable

pub held-live : read_live held.live ≡ ok (live_in held.live)
unfolding transition text_beq
held-live = refl

pub held-readable : read_events files (ledger_of held rid) ≡ ok (events_in (ledger_of held rid))
unfolding transition ledger_of read_events text_beq
held-readable = refl

pub held-IsReached : IsReached files sid held
held-IsReached =
    after 12 (run rid (block block_args)) started (after 10 (run rid (start args)) empty fresh)

boundary_block_marker-is_open_example :
    is_there (
      boundary_block_marker files
        (find_slot (live_in held.live).active_runs rid)
        (ledger_of held rid))
    ≡ is_open (last_verdict (events_in (ledger_of held rid)))
boundary_block_marker-is_open_example =
    boundary_block_marker-is_open files sid rid held (live_in held.live)
      (events_in (ledger_of held rid)) held-IsReached held-live held-readable

-- The run is held.
held-is_open : is_open (last_verdict (events_in (ledger_of held rid))) ≡ true
unfolding transition ledger_of last_verdict text_beq
held-is_open = refl

started-live : read_live started.live ≡ ok (live_in started.live)
unfolding transition text_beq
started-live = refl

both-live :
    read_live (transition files 11 sid (run other (start args)) started).0.live
    ≡ ok (live_in (transition files 11 sid (run other (start args)) started).0.live)
unfolding transition text_beq
both-live = refl

ids_differ : other == rid ≡ false
unfolding text_beq
ids_differ = refl

transition-elsewhere_example :
    (ledger_of (transition files 11 sid (run other (start args)) started).0 rid
      ≡ ledger_of started rid)
    × (find_slot
          (live_in (transition files 11 sid (run other (start args)) started).0.live).active_runs
          rid
        ≡ find_slot (live_in started.live).active_runs rid)
transition-elsewhere_example =
    transition-elsewhere files 11 sid other rid (run other (start args)) started
      (live_in started.live)
      (live_in (transition files 11 sid (run other (start args)) started).0.live) refl ids_differ
      started-live both-live

abbrev marked : Session
marked = (transition files 12 sid (whole (post_task (codes "done"))) empty).0

marked-live : read_live marked.live ≡ ok (live_in marked.live)
unfolding transition text_beq
marked-live = refl

post_task_markers-length_example : length (live_in marked.live).post_task_markers ≤ 20
post_task_markers-length_example =
    post_task_markers-length files sid marked (live_in marked.live)
      (after 12 (whole (post_task (codes "done"))) empty fresh) marked-live

sid-valid : valid_session_id sid ≡ true
unfolding valid_session_id
sid-valid = refl

valid_session_id-safe_example :
    ((t : Text) × ((sid ≡ t) ⊎ (sid ≡ t ++ (10 ∷ [])))
      × (t ≢ [])
      × (all id_char t ≡ true)
      × (mem 10 t ≡ false)
      × (length t ≤ 256))
    × (mem b'/' sid ≡ false)
    × (mem b'\\' sid ≡ false)
    × (mem b'.' sid ≡ false)
valid_session_id-safe_example = valid_session_id-safe sid sid-valid

-- A newline at the end is let through.
newline-valid : valid_session_id (sid ++ 10 ∷ []) ≡ true
unfolding valid_session_id
newline-valid = refl

-- The acceptance of a block that is not there.
accept-none :
    transition files 12 sid (run rid (accept (codes "ok"))) started
    ≡ (started, err no_boundary_block)
unfolding transition text_beq
accept-none = refl

abbrev waiting : Dict Text Pending
waiting =
    (
      codes "t1",
      new_pending (codes "t1")
          (record {
            tool_use_id = some (codes "t1");
            sub_type = some (codes "dcness:tester");
            mode = none;
            background = true;
            auto_start = false;
          })
          5,
    )
    ∷ []

abbrev taken : Spawned × Dict Text Pending
taken = claim_pending 6 (codes "tester") (codes "a1") waiting

abbrev call_in : Dict Text Pending → Pending
call_in ((k, p) ∷ pending) = p
call_in [] =
    new_pending []
      (record {
        tool_use_id = none;
        sub_type = none;
        mode = none;
        background = false;
        auto_start = false;
      })
      0

taken-claimed : taken ≡ (claimed (call_in taken.1), taken.1)
unfolding claim_pending text_beq
taken-claimed = refl

claim_pending-IsClaimed_example :
    IsClaimed (codes "tester") (codes "a1") 6 9 (codes "tester") (call_in taken.1) waiting taken.1
claim_pending-IsClaimed_example =
    claim_pending-IsClaimed 6 9 (codes "tester") (codes "tester") (codes "a1") (call_in taken.1)
      waiting taken.1 taken-claimed
