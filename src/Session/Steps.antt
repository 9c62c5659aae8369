-- ===== src/Session/Steps.antt =====
-- harness/session_state.py, _apply_step_transition: the steps of a run and their receipts.
use dc_ness.Base.{
  ℕ, Text, codes, text_eq, Bool, true, false, not, ◌&&◌, ◌||◌, Option, none, some, List, [], ◌∷◌,
  if◌then◌else◌, ◌==◌, is_empty, length, mem,
}
use dc_ness.Base.Dict.{put}
use dc_ness.Session.Names.{canonical_agent}
use dc_ness.Session.Records.{
  Slot, Step, Event, EventType, new_event, Ledger, Result, ok, err, ◌>>=◌, ◌>>◌, guard, Files,
  truthy, present, agent_empty, identity_mismatch, step_missing,
}
use dc_ness.Session.Runs.{
  Runs, Outcome, Effect, unchanged, writes, active_slot, read_events, read_step_completed,
  is_step_completed,
}

pub record StepArgs : Type 0 where
  pub agent : Text
  pub mode : Option Text
  pub tool_use_id : Option Text
  pub agent_id : Option Text
  pub lifecycle_owner : Option Text
  pub candidate_head : Option Text
  pub candidate_tree : Option Text
  pub candidate_root : Option Text
  pub chain_state : Option Text
  pub strict_identity : Bool
  pub category : Option Text
  pub provider : Option Text
  pub enum : Text
  pub prose : Text
  pub prose_path : Text

-- Equality of two optional texts.
abbrev pub same_text : Option Text → Option Text → Bool
same_text none none = true
same_text (some a) (some b) = a == b
same_text _ _ = false

-- A given value must be the current one.
abbrev pub agrees : (given current : Option Text) → Bool
agrees given current = not (truthy given) || same_text current given

abbrev same_call : StepArgs → Step → Bool
same_call a current = current.agent == a.agent && same_text current.mode a.mode

-- No `identity_mismatch`
unfoldable pub matches : StepArgs → Step → Bool
matches a current =
    same_call a current
    && (agrees a.tool_use_id current.tool_use_id && agrees a.agent_id current.agent_id)

abbrev new_step : StepArgs → ℕ → ℕ → Step
new_step a now steps = record {
  agent = a.agent;
  mode = a.mode;
  started_at = now;
  steps_count_at_begin = steps;
  tool_use_id = present a.tool_use_id;
  agent_id = present a.agent_id;
  lifecycle_owner = present a.lifecycle_owner;
  candidate_head = present a.candidate_head;
  candidate_tree = present a.candidate_tree;
  candidate_root = present a.candidate_root;
  chain_state = present a.chain_state;
  prose_file = none;
}

-- The owner and the chain's state are left out of the record.
abbrev started_event : StepArgs → ℕ → Event
started_event a now = record (new_event EventType.step_started now) {
  agent = some a.agent;
  mode = a.mode;
  tool_use_id = present a.tool_use_id;
  agent_id = present a.agent_id;
  candidate_head = present a.candidate_head;
  candidate_tree = present a.candidate_tree;
  candidate_root = present a.candidate_root;
}

abbrev open_step : Files → ℕ → Text → StepArgs → Runs → Slot → Ledger → Result Effect
open_step files now rid a active slot ledger = do
  steps ← read_step_completed files ledger
  let written = record slot {
    current_step = some (new_step a now (length steps));
    last_confirmed_at = now;
  }
  ok (writes rid written active Outcome.nothing (started_event a now ∷ []))

abbrev strict_start : Bool → Option Step → Option Step
strict_start true current = current
strict_start false current = none

abbrev pub start_at :
    Files → ℕ → Text → StepArgs → Runs → Slot → Ledger → Option Step → Result Effect
start_at files now rid a active slot ledger none = open_step files now rid a active slot ledger
start_at files now rid a active slot ledger (some current) =
    if matches a current then ok (unchanged (Outcome.step current)) else err identity_mismatch

-- `step_started`
unfoldable pub start_step : Files → ℕ → Text → StepArgs → Runs → Slot → Ledger → Result Effect
unfolding matches read_step_completed put
start_step files now rid a active slot ledger =
    start_at files now rid a active slot ledger (strict_start a.strict_identity slot.current_step)

abbrev aborted_event : StepArgs → ℕ → Event
aborted_event a now = record (new_event EventType.step_aborted now) {
  agent = some a.agent;
  mode = a.mode;
  tool_use_id = a.tool_use_id;
  agent_id = a.agent_id;
  category = a.category;
}

abbrev pub abort_at : ℕ → Text → StepArgs → Runs → Slot → Option Step → Result Effect
abort_at now rid a active slot none =
    if a.strict_identity then err step_missing else ok (unchanged Outcome.nothing)
abort_at now rid a active slot (some current) =
    if matches a current
    then (let written = record slot { current_step = none; last_confirmed_at = now } in
        ok (
          writes rid written active (Outcome.recorded (aborted_event a now))
            (aborted_event a now ∷ [])))
    else if a.strict_identity
    then err identity_mismatch
    else ok (unchanged Outcome.nothing)

-- `step_aborted`
unfoldable pub abort_step : ℕ → Text → StepArgs → Runs → Slot → Result Effect
unfolding matches put
abort_step now rid a active slot = abort_at now rid a active slot slot.current_step

abbrev pub completion_here : Option Text → Event → Option Event
completion_here tool_use_id e =
    if is_step_completed e.event && same_text e.tool_use_id tool_use_id then some e else none

-- The later one of two, where it is there.
abbrev pub or_before : Option Event → Option Event → Option Event
or_before none before = before
or_before (some e) before = some e

-- The newest completion of that call.
unfoldable pub find_completed : Option Text → List Event → Option Event
find_completed tool_use_id [] = none
find_completed tool_use_id (e ∷ es) =
    or_before (find_completed tool_use_id es) (completion_here tool_use_id e)

abbrev pub earlier_completion : Files → StepArgs → Ledger → Result (Option Event)
earlier_completion files a ledger =
    if a.strict_identity && truthy a.tool_use_id
    then (do es ← read_events files ledger; ok (find_completed a.tool_use_id es))
    else ok none

abbrev pub checked_identity : StepArgs → Option Step → Result (Unit {0})
checked_identity a none = guard (not a.strict_identity) step_missing
checked_identity a (some current) =
    guard (not (a.strict_identity && not (matches a current))) identity_mismatch

abbrev candidate_of : (Step → Option Text) → Option Step → Option Text
candidate_of field none = none
candidate_of field (some current) = present (field current)

-- `ledger.build_receipt`, with the candidate of the current step.
abbrev pub receipt : Files → ℕ → StepArgs → Option Step → Event
receipt files now a current = record (new_event EventType.step_completed now) {
  agent = some a.agent;
  mode = a.mode;
  enum = some a.enum;
  prose_file = some a.prose_path;
  sha256 = some (files.sha256 a.prose);
  provider = present a.provider;
  tool_use_id = present a.tool_use_id;
  agent_id = present a.agent_id;
  candidate_head = candidate_of (λ s. s.candidate_head) current;
  candidate_tree = candidate_of (λ s. s.candidate_tree) current;
  candidate_root = candidate_of (λ s. s.candidate_root) current;
}

abbrev headless_providers : List Text
headless_providers = codes "codex-headless" ∷ codes "claude-headless" ∷ []

abbrev is_headless : Option Text → Bool
is_headless none = false
is_headless (some provider) = mem provider headless_providers

abbrev pub is_validation_block : Files → StepArgs → Bool
is_validation_block files a =
    a.agent == codes "build-worker"
    && (is_headless a.provider && files.conclusion a.prose == codes "VALIDATION_BLOCKED")

abbrev pub validation_event : ℕ → StepArgs → Event
validation_event now a = record (new_event EventType.blocked now) {
  agent = some a.agent;
  mode = a.mode;
  provider = a.provider;
  category = some (codes "headless_validation_blocked");
  prose_file = some a.prose_path;
}

-- `_record_headless_validation_block`
unfoldable pub validation_block : Files → ℕ → StepArgs → List Event
unfolding mem
validation_block files now a =
    if is_validation_block files a then validation_event now a ∷ [] else []

abbrev pub is_current : StepArgs → Option Step → Bool
is_current a none = false
is_current a (some current) = same_call a current

-- The current step is taken away where it is the one that is completed.
abbrev pub ended_step : Bool → ℕ → Text → Runs → Slot → Option Runs
ended_step true now rid active slot =
    some (put rid (some (record slot { current_step = none; last_confirmed_at = now })) active)
ended_step false now rid active slot = none

abbrev pub record_step : Files → ℕ → Text → StepArgs → Runs → Slot → Effect
record_step files now rid a active slot =
    let e = receipt files now a slot.current_step in
    record {
      outcome = Outcome.recorded e;
      active = ended_step (is_current a slot.current_step) now rid active slot;
      appended = e ∷ validation_block files now a;
    }

abbrev pub complete_with : Files → ℕ → Text → StepArgs → Runs → Slot → Option Event → Result Effect
complete_with files now rid a active slot (some e) = ok (unchanged (Outcome.recorded e))
complete_with files now rid a active slot none = do
  checked_identity a slot.current_step
  ok (record_step files now rid a active slot)

-- `step_completed`
unfoldable pub complete_step : Files → ℕ → Text → StepArgs → Runs → Slot → Ledger → Result Effect
unfolding read_events find_completed validation_block matches put
complete_step files now rid a active slot ledger = do
  earlier ← earlier_completion files a ledger
  complete_with files now rid a active slot earlier

pub data StepAction : Type 0 where
  step_start step_abort step_complete : StepArgs → StepAction

-- The agent's name without the plugin's prefix.
abbrev pub normalized : StepArgs → StepArgs
normalized a = record a { agent = canonical_agent a.agent }

abbrev pub step_args : StepAction → StepArgs
step_args (step_start a) = a
step_args (step_abort a) = a
step_args (step_complete a) = a

abbrev pub on_slot : Files → ℕ → Text → StepAction → Runs → Slot → Ledger → Result Effect
on_slot files now rid (step_start a) active slot ledger =
    start_step files now rid (normalized a) active slot ledger
on_slot files now rid (step_abort a) active slot ledger =
    abort_step now rid (normalized a) active slot
on_slot files now rid (step_complete a) active slot ledger =
    complete_step files now rid (normalized a) active slot ledger

unfoldable pub apply_step_transition : Files → ℕ → Text → StepAction → Runs → Ledger → Result Effect
unfolding active_slot start_step abort_step complete_step canonical_agent
apply_step_transition files now rid action active ledger = do
  slot ← active_slot active rid
  guard (not (is_empty (step_args action).agent)) agent_empty
  on_slot files now rid action active slot ledger
