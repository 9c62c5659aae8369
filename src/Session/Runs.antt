-- ===== src/Session/Runs.antt =====
-- harness/session_state.py, _apply_run_transition, and the marker of a blocked run.
use dc_ness.Base.{
  ℕ, Text, codes, text_eq, Bool, true, false, not, ◌&&◌, Option, none, some, List, [], ◌∷◌,
  if◌then◌else◌, ◌==◌, mem, is_empty, is_none, keep,
}
use dc_ness.Base.Dict.{Dict, lookup, put}
use dc_ness.Session.Records.{
  Block, Pending, Slot, Deferral, Event, EventType, new_event, Ledger, events, unreadable, Step,
  Result, ok, err, ◌>>=◌, ◌>>◌, guard, Files, ledger_format, entry_point_empty, bad_lane, bad_stage,
  acceptance_not_impl, design_doc_not_impl, bad_design_doc, already_active, not_active,
  category_empty,
}

abbrev pub Runs : Type 0
Runs = Dict Text (Option Slot)

-- What a transition returns.
pub data Outcome : Type 0 where
  nothing : Outcome
  flag : Bool → Outcome
  count : ℕ → Outcome
  names : List Text → Outcome
  marker : Block → Outcome
  recorded : Event → Outcome
  step : Step → Outcome
  call : Pending → Outcome

-- The outcome, the runs where they change, and what is appended to the run's ledger.
pub record Effect : Type 0 where
  pub outcome : Outcome
  pub active : Option Runs
  pub appended : List Event

abbrev pub unchanged : Outcome → Effect
unchanged outcome = record { outcome = outcome; active = none; appended = [] }

abbrev pub writes : Text → Slot → Runs → Outcome → List Event → Effect
writes rid slot active outcome appended = record {
  outcome = outcome;
  active = some (put rid (some slot) active);
  appended = appended;
}

abbrev pub slot_of : Option (Option Slot) → Option Slot
slot_of (some (some slot)) = some slot
slot_of _ = none

-- `_active_slot(active, run_id, missing_ok=True)`
unfoldable pub find_slot : Runs → Text → Option Slot
unfolding lookup
find_slot active rid = slot_of (lookup rid active)

abbrev pub required : Option Slot → Result Slot
required none = err not_active
required (some slot) = ok slot

unfoldable pub active_slot : Runs → Text → Result Slot
unfolding find_slot
active_slot active rid = required (find_slot active rid)

pub record RunArgs : Type 0 where
  pub entry_point : Text
  pub lane : Option Text
  pub stage : Option Text
  pub design_doc : Option Text
  pub issue_num : Option Text
  pub acceptance_required : Bool

abbrev valid_lanes : List Text
valid_lanes = codes "lite" ∷ codes "standard" ∷ []

abbrev valid_design_stages : List Text
valid_design_stages = codes "design-ux" ∷ codes "design-system" ∷ []

-- A value that is given is one of these, for this entry point.
abbrev pub allowed : Option Text → List Text → Bool → Bool
allowed none values here = true
allowed (some v) values here = here && mem v values

abbrev checked_doc : Files → (is_impl : Bool) → Option Text → Result (Option Text)
checked_doc files is_impl none = ok none
checked_doc files is_impl (some doc) =
    if not is_impl
    then err design_doc_not_impl
    else elim (files.design_doc doc) [ none ↦ err bad_design_doc | some path ↦ ok (some path) ]

abbrev pub new_slot : RunArgs → Option Text → ℕ → Slot
new_slot a doc now = record {
  entry_point = a.entry_point;
  started_at = now;
  last_confirmed_at = now;
  completed_at = none;
  finalized_at = none;
  current_step = none;
  issue_num = a.issue_num;
  design_doc = doc;
  lane = a.lane;
  stage = a.stage;
  acceptance_required = a.acceptance_required;
  blocked = none;
  pending_agents = [];
  stop_block_count = [];
  journey_deferred = Deferral.absent;
}

-- The checks of `run_started`, and the path of the design document.
unfoldable pub checked_start : Files → Text → RunArgs → Runs → Result (Option Text)
unfolding lookup mem
checked_start files rid a active = do
  let is_impl = a.entry_point == codes "impl"
  guard (not (is_empty a.entry_point)) entry_point_empty
  guard (allowed a.lane valid_lanes is_impl) bad_lane
  guard (allowed a.stage valid_design_stages (a.entry_point == codes "design")) bad_stage
  guard (not (a.acceptance_required && not is_impl)) acceptance_not_impl
  doc ← checked_doc files is_impl a.design_doc
  guard (is_none (lookup rid active)) already_active
  ok doc

abbrev pub started : ℕ → Text → RunArgs → Runs → Option Text → Effect
started now rid a active doc =
    writes rid (new_slot a doc now) active Outcome.nothing
      (new_event EventType.run_started now ∷ [])

-- `run_started`
unfoldable pub start_run : Files → ℕ → Text → RunArgs → Runs → Result Effect
unfolding checked_start put
start_run files now rid a active = do
  doc ← checked_start files rid a active
  ok (started now rid a active doc)

pub record BlockArgs : Type 0 where
  pub category : Text
  pub agent : Option Text
  pub mode : Option Text
  pub provider : Option Text
  pub reason : Option Text
  pub raw_log : Option Text

abbrev new_block : BlockArgs → ℕ → Block
new_block a now = record {
  category = a.category;
  at = now;
  agent = a.agent;
  mode = a.mode;
  provider = a.provider;
  reason = a.reason;
  raw_log = a.raw_log;
}

abbrev pub block_event : BlockArgs → ℕ → Event
block_event a now = record (new_event EventType.blocked now) {
  agent = a.agent;
  mode = a.mode;
  provider = a.provider;
  category = some a.category;
  reason = a.reason;
  raw_log = a.raw_log;
}

abbrev pub blocked_effect : ℕ → Text → BlockArgs → Runs → Slot → Effect
blocked_effect now rid a active slot =
    let written = record slot { blocked = some (new_block a now); last_confirmed_at = now } in
    writes rid written active (Outcome.marker (new_block a now)) (block_event a now ∷ [])

-- `run_blocked`
unfoldable pub block_run : ℕ → Text → BlockArgs → Runs → Result Effect
unfolding active_slot put
block_run now rid a active = do
  slot ← active_slot active rid
  guard (not (is_empty a.category)) category_empty
  ok (blocked_effect now rid a active slot)

abbrev pub worker_boundary : Text
worker_boundary = codes "worker_boundary"

abbrev pub is_boundary : Option Text → Bool
is_boundary none = false
is_boundary (some category) = category == worker_boundary

abbrev pub is_step_completed : EventType → Bool
is_step_completed EventType.step_completed = true
is_step_completed _ = false

-- `ledger.read_events`: a receipt that is not valid makes the whole ledger invalid.
unfoldable pub read_events : Files → Ledger → Result (List Event)
read_events files unreadable = err ledger_format
read_events files (events es) =
    if is_empty (keep (λ e. is_step_completed e.event && not (files.receipt_is_valid e)) es)
    then ok es
    else err ledger_format

unfoldable pub read_step_completed : Files → Ledger → Result (List Event)
unfolding read_events
read_step_completed files ledger = do
  es ← read_events files ledger
  ok (keep (λ e. is_step_completed e.event) es)

pub data Verdict : Type 0 where
  open_block : Event → Verdict
  accepted silent : Verdict

abbrev pub verdict_at : EventType → Event → Verdict
verdict_at EventType.boundary_block_accepted e = accepted
verdict_at EventType.blocked e = if is_boundary e.category then open_block e else silent
verdict_at _ e = silent

abbrev pub verdict_of : Event → Verdict
verdict_of e = verdict_at e.event e

-- The loop over the reversed events.
abbrev pub or_earlier : Verdict → Verdict → Verdict
or_earlier silent earlier = earlier
or_earlier later earlier = later

unfoldable pub last_verdict : List Event → Verdict
last_verdict [] = silent
last_verdict (e ∷ es) = or_earlier (last_verdict es) (verdict_of e)

-- The category, the reason and the log of the block that holds a run.
pub record Held : Type 0 where
  pub reason : Option Text
  pub raw_log : Option Text

abbrev pub held_by_verdict : Verdict → Option Held
held_by_verdict (open_block e) = some (record { reason = e.reason; raw_log = e.raw_log })
held_by_verdict _ = none

-- An exception of the ledger's reader is passed over.
abbrev pub held_by_ledger : Result (List Event) → Option Held
held_by_ledger (err e) = none
held_by_ledger (ok es) = held_by_verdict (last_verdict es)

abbrev pub held_by_block : Option Block → Option Held → Option Held
held_by_block none other = other
held_by_block (some b) other =
    if b.category == worker_boundary
    then some (record { reason = b.reason; raw_log = b.raw_log })
    else other

abbrev pub block_in : Option Slot → Option Block
block_in none = none
block_in (some slot) = slot.blocked

-- `_run_worker_boundary_block_marker`
unfoldable pub boundary_block_marker : Files → Option Slot → Ledger → Option Held
unfolding read_events last_verdict
boundary_block_marker files slot ledger =
    held_by_block (block_in slot) (held_by_ledger (read_events files ledger))
