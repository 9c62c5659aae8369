-- ===== src/Session/Gate.antt =====
-- harness/session_state.py, evaluate_order_gate_for_step: whether a step of a run may start.
use dc_ness.Base.{
  Text, codes, text_eq, Bool, false, not, ◌&&◌, ◌||◌, Option, none, some, List, [], ◌∷◌,
  if◌then◌else◌, ◌==◌, is_none,
}
use dc_ness.Base.Dict.{Dict}
use dc_ness.Session.Names.{valid_session_id, matches_run_id, canonical_agent}
use dc_ness.Session.Prose.{run_has_module_architect_pass}
use dc_ness.Session.Records.{
  Slot, Step, Event, Ledger, Live, Result, ok, err, ◌>>=◌, ◌>>◌, guard, Files, truthy,
  invalid_session_id, invalid_run_id,
}
use dc_ness.Session.Runs.{find_slot, read_step_completed, Held, boundary_block_marker}
use dc_ness.Session.Steps.{same_text}
use dc_ness.Session.Transition.{Session, read_live, ledger_of}

-- What a message of the gate says.
pub data Refusal : Type 0 where
  boundary_held : Held → Refusal
  validator_missing validator_not_passed other_candidate root_missing other_root : Refusal
  design_missing : Refusal

pub record GateArgs : Type 0 where
  pub agent : Text
  pub mode : Option Text
  pub candidate_head : Option Text
  pub candidate_tree : Option Text
  pub candidate_root : Option Text

-- The files of a run: the prose that a receipt names, empty where it cannot be read, the names and
-- texts of its directory's files, and whether a design document is a file.
pub record RunFiles : Type 0 where
  pub read : Option Text → Text
  pub prose : Dict Text Text
  pub is_file : Text → Bool

abbrev is_validator : Event → Bool
is_validator e = same_text e.agent (some (codes "impl-validator")) && is_none e.mode

abbrev pub later : Option Event → Option Event → Option Event
later none before = before
later (some e) before = some e

-- The newest completion of the validator of the whole candidate.
unfoldable pub last_validator : List Event → Option Event
last_validator [] = none
last_validator (e ∷ es) = later (last_validator es) (if is_validator e then some e else none)

abbrev is_acceptance_mode : Option Text → Bool
is_acceptance_mode none = false
is_acceptance_mode (some m) = m == codes "STORY_ACCEPTANCE" || m == codes "EPIC_ACCEPTANCE"

abbrev requires_acceptance : Option Slot → Bool
requires_acceptance none = false
requires_acceptance (some slot) = slot.entry_point == codes "impl" && slot.acceptance_required

unfoldable pub is_acceptance : Text → GateArgs → Option Slot → Bool
is_acceptance agent a slot =
    agent == codes "product-acceptance" && (is_acceptance_mode a.mode && requires_acceptance slot)

-- A frozen candidate.
pub record Candidate : Type 0 where
  pub head : Option Text
  pub tree : Option Text
  pub root : Option Text

-- `all` and `any` of the identity.
abbrev pub is_complete : Candidate → Bool
is_complete c = truthy c.head && truthy c.tree

abbrev pub has_identity : Candidate → Bool
has_identity c = truthy c.head || truthy c.tree

abbrev pub given : GateArgs → Candidate
given a = record { head = a.candidate_head; tree = a.candidate_tree; root = a.candidate_root }

abbrev pub of_event : Event → Candidate
of_event e = record { head = e.candidate_head; tree = e.candidate_tree; root = e.candidate_root }

-- What is not given is taken from the current step.
abbrev completed_by : Candidate → Step → Candidate
completed_by c current = record {
  head = (if is_complete c then c.head else current.candidate_head);
  tree = (if is_complete c then c.tree else current.candidate_tree);
  root = (if truthy c.root then c.root else current.candidate_root);
}

abbrev from_current : Text → GateArgs → Option Step → Candidate
from_current agent a none = given a
from_current agent a (some current) =
    if current.agent == agent && same_text current.mode a.mode
    then completed_by (given a) current
    else given a

abbrev current_of : Option Slot → Option Step
current_of none = none
current_of (some slot) = slot.current_step

unfoldable pub requested : Text → GateArgs → Option Slot → Candidate
requested agent a slot = from_current agent a (current_of slot)

unfoldable pub candidate_refusal : (requested validated : Candidate) → Option Refusal
candidate_refusal r v =
    if has_identity v
      && (not (is_complete r) || not (same_text r.head v.head && same_text r.tree v.tree))
    then some other_candidate
    else if has_identity v && not (truthy v.root)
    then some root_missing
    else if truthy v.root && (not (truthy r.root) || not (same_text r.root v.root))
    then some other_root
    else none

abbrev pub validator_refusal :
    Files → RunFiles → (requested : Candidate) → Option Event → Option Refusal
validator_refusal files run r none = some validator_missing
validator_refusal files run r (some e) =
    if files.conclusion (run.read e.prose_file) == codes "PASS"
    then candidate_refusal r (of_event e)
    else some validator_not_passed

abbrev pub acceptance_gate :
    Files → RunFiles → (requested : Candidate) → Ledger → Result (Option Refusal)
acceptance_gate files run r ledger = do
  steps ← read_step_completed files ledger
  ok (validator_refusal files run r (last_validator steps))

abbrev is_lite : Option Slot → Bool
is_lite none = false
is_lite (some slot) = same_text slot.lane (some (codes "lite"))

abbrev doc_is_file : RunFiles → Option Text → Bool
doc_is_file run none = false
doc_is_file run (some doc) = truthy (some doc) && run.is_file doc

abbrev has_design : RunFiles → Option Slot → Bool
has_design run none = false
has_design run (some slot) = doc_is_file run slot.design_doc

unfoldable pub worker_refusal : RunFiles → Text → Option Slot → Option Refusal
unfolding run_has_module_architect_pass
worker_refusal run agent slot =
    if agent == codes "build-worker"
      && (not (is_lite slot)
          && (not (run_has_module_architect_pass run.prose) && not (has_design run slot)))
    then some design_missing
    else none

abbrev pub or_else : Option Refusal → Option Refusal → Option Refusal
or_else none other = other
or_else (some r) other = some r

-- The gate of a run that no block holds.
unfoldable pub gate_of_slot :
    Files → RunFiles → (agent : Text) → GateArgs → Option Slot → Ledger → Result (Option Refusal)
unfolding read_step_completed last_validator requested candidate_refusal is_acceptance
    worker_refusal
gate_of_slot files run agent a slot ledger = do
  refusal ←
      (if is_acceptance agent a slot
        then acceptance_gate files run (requested agent a slot) ledger
        else ok none)
  ok (or_else refusal (worker_refusal run agent slot))

-- A live.json that cannot be read is passed over where the block is looked for.
abbrev pub slot_in : Result Live → Text → Option Slot
slot_in (err e) rid = none
slot_in (ok live) rid = find_slot live.active_runs rid

abbrev pub gate_of_marker :
    Files
    → RunFiles
    → (agent rid : Text) → GateArgs
    → Session
    → Option Held
    → Result (Option Refusal)
gate_of_marker files run agent rid a s (some held) = ok (some (boundary_held held))
gate_of_marker files run agent rid a s none = do
  live ← read_live s.live
  gate_of_slot files run agent a (find_slot live.active_runs rid) (ledger_of s rid)

unfoldable pub evaluate_order_gate_for_step :
    Files → RunFiles → (session_id rid : Text) → GateArgs → Session → Result (Option Refusal)
unfolding valid_session_id matches_run_id boundary_block_marker find_slot ledger_of gate_of_slot
    canonical_agent
evaluate_order_gate_for_step files run session_id rid a s = do
  guard (matches_run_id rid) invalid_run_id
  guard (valid_session_id session_id) invalid_session_id
  let slot = slot_in (read_live s.live) rid
  let marker = boundary_block_marker files slot (ledger_of s rid)
  gate_of_marker files run (canonical_agent a.agent) rid a s marker
