-- ===== src/Session/Records.antt =====
-- harness/session_state.py and harness/ledger.py, the data: a session's live.json, the ledgers of its
-- runs, and the arguments of the transitions.
use dc_ness.Base.{
  ℕ, Text, text_eq, Bool, true, false, not, Option, none, some, List, if◌then◌else◌, is_empty,
}
use dc_ness.Base.Dict.{Dict}

-- A moment is a number of seconds. A text that is missing or null is `none`.
pub record Step : Type 0 where
  pub agent : Text
  pub mode : Option Text
  pub started_at : ℕ
  pub steps_count_at_begin : ℕ
  pub tool_use_id : Option Text
  pub agent_id : Option Text
  pub lifecycle_owner : Option Text
  pub candidate_head : Option Text
  pub candidate_tree : Option Text
  pub candidate_root : Option Text
  pub chain_state : Option Text
  pub prose_file : Option Text

pub record Pending : Type 0 where
  pub tool_use_id : Text
  pub sub_type : Text
  pub mode : Option Text
  pub background : Bool
  pub auto_start : Bool
  pub started_at : ℕ
  pub agent_id : Option Text
  pub spawned_at : Option ℕ

-- The marker of a blocked run.
pub record Block : Type 0 where
  pub category : Text
  pub at : ℕ
  pub agent : Option Text
  pub mode : Option Text
  pub provider : Option Text
  pub reason : Option Text
  pub raw_log : Option Text

-- The journeys that were put off: no entry, a value that is not a list of texts, or the list.
pub data Deferral : Type 0 where
  absent corrupt : Deferral
  deferred : List Text → Deferral

pub record Slot : Type 0 where
  pub entry_point : Text
  pub started_at : ℕ
  pub last_confirmed_at : ℕ
  pub completed_at : Option ℕ
  pub finalized_at : Option ℕ
  pub current_step : Option Step
  pub issue_num : Option Text
  pub design_doc : Option Text
  pub lane : Option Text
  pub stage : Option Text
  pub acceptance_required : Bool
  pub blocked : Option Block
  pub pending_agents : Dict Text Pending
  pub stop_block_count : Dict Text ℕ
  pub journey_deferred : Deferral

pub record Marker : Type 0 where
  pub at : ℕ
  pub reason : Text

-- A slot that is not an object is `none`.
pub record Live : Type 0 where
  pub active_runs : Dict Text (Option Slot)
  pub active_agent : Option Text
  pub active_mode : Option Text
  pub post_task_markers : List Marker

pub data LiveFile : Type 0 where
  missing malformed : LiveFile
  live_doc : Live → LiveFile

-- EVENT_TYPES
pub data EventType : Type 0 where
  run_started step_started step_aborted step_completed validator_passed validator_failed : EventType
  pr_created pr_merged task_completed blocked run_finished : EventType
  acceptance_required_marked boundary_block_accepted : EventType

-- A record of the ledger, by the fields that are read again. What a receipt derives of its prose for
-- the reader (the excerpt, the findings, the evidence, the next action) is left out.
pub record Event : Type 0 where
  pub event : EventType
  pub ts : ℕ
  pub agent : Option Text
  pub mode : Option Text
  pub tool_use_id : Option Text
  pub agent_id : Option Text
  pub provider : Option Text
  pub category : Option Text
  pub reason : Option Text
  pub raw_log : Option Text
  pub enum : Option Text
  pub prose_file : Option Text
  pub sha256 : Option Text
  pub candidate_head : Option Text
  pub candidate_tree : Option Text
  pub candidate_root : Option Text

abbrev pub new_event : EventType → ℕ → Event
new_event event ts = record {
  event = event;
  ts = ts;
  agent = none;
  mode = none;
  tool_use_id = none;
  agent_id = none;
  provider = none;
  category = none;
  reason = none;
  raw_log = none;
  enum = none;
  prose_file = none;
  sha256 = none;
  candidate_head = none;
  candidate_tree = none;
  candidate_root = none;
}

-- A ledger that is not readable as events, or the events of its file; no file has none.
pub data Ledger : Type 0 where
  unreadable : Ledger
  events : List Event → Ledger

-- What a call raises.
pub data Error : Type 0 where
  state_format ledger_format invalid_session_id invalid_run_id : Error
  entry_point_empty bad_lane bad_stage acceptance_not_impl design_doc_not_impl bad_design_doc :
      Error
  already_active not_active category_empty reason_empty no_boundary_block not_manual : Error
  slot_format agent_empty identity_mismatch step_missing deferral_corrupt : Error

pub data Result {ℓ} (A : Type ℓ) : Type ℓ where
  ok : A → Result A
  err : Error → Result A

infixl 5 ◌>>=◌
abbrev pub ◌>>=◌ {ℓ κ} : {A : Type ℓ} {B : Type κ} → Result A → (A → Result B) → Result B
ok a >>= f = f a
err e >>= f = err e

abbrev pub guard : Bool → Error → Result (Unit {0})
guard true e = ok tt
guard false e = err e

infixl 5 ◌>>◌
abbrev pub ◌>>◌ {ℓ} : {B : Type ℓ} → Result (Unit {0}) → Result B → Result B
m >> k = m >>= λ _. k

-- What Python takes for true of an optional text, and the text then.
abbrev pub truthy : Option Text → Bool
truthy none = false
truthy (some t) = not (is_empty t)

abbrev pub present : Option Text → Option Text
present none = none
present (some t) = if is_empty t then none else some t

-- The other parts of the program and the machine: whether a receipt's prose is on the disk with the
-- digest that it has, the path of a design document that is accepted, and the conclusion that a
-- prose file is read to have.
pub record Files : Type 0 where
  pub receipt_is_valid : Event → Bool
  pub design_doc : Text → Option Text
  pub sha256 : Text → Text
  pub conclusion : Text → Text
