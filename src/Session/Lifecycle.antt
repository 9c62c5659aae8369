-- ===== src/Session/Lifecycle.antt =====
-- harness/session_state.py, the other transitions of a run: the acceptance of a block, the mark of an
-- acceptance, the end of a run and a manual record.
use dc_ness.Base.{
  ℕ, Text, codes, text_eq, Bool, true, false, not, Option, none, some, [], ◌∷◌, if◌then◌else◌, ◌==◌,
  is_empty, is_there,
}
use dc_ness.Base.Dict.{lookup, put}
use dc_ness.Base.Python.{strip}
use dc_ness.Session.Records.{
  Slot, Event, EventType, new_event, Ledger, Result, ok, err, ◌>>=◌, ◌>>◌, guard, Files,
  acceptance_not_impl, reason_empty, no_boundary_block, not_manual, slot_format,
}
use dc_ness.Session.Runs.{
  Runs, Outcome, Effect, unchanged, writes, active_slot, boundary_block_marker, RunArgs, BlockArgs,
  start_run, block_run,
}

-- The fields that the record copies of the block are left out.
abbrev acceptance_event : Text → ℕ → Event
acceptance_event reason now = record (new_event EventType.boundary_block_accepted now) {
  reason = some (strip reason);
}

abbrev pub accepted_effect : ℕ → Text → Text → Runs → Slot → Effect
accepted_effect now rid reason active slot =
    let written = record slot { blocked = none; last_confirmed_at = now } in
    writes rid written active (Outcome.recorded (acceptance_event reason now))
      (acceptance_event reason now ∷ [])

-- `boundary_block_accepted`
unfoldable pub accept_block : Files → ℕ → Text → (reason : Text) → Runs → Ledger → Result Effect
unfolding active_slot boundary_block_marker put strip
accept_block files now rid reason active ledger = do
  slot ← active_slot active rid
  guard (not (is_empty (strip reason))) reason_empty
  guard (is_there (boundary_block_marker files (some slot) ledger)) no_boundary_block
  ok (accepted_effect now rid reason active slot)

abbrev pub require_acceptance : ℕ → Text → Runs → Slot → Effect
require_acceptance now rid active slot =
    if slot.acceptance_required
    then unchanged (Outcome.flag false)
    else (let written = record slot { acceptance_required = true; last_confirmed_at = now } in
        writes rid written active (Outcome.flag true)
          (new_event EventType.acceptance_required_marked now ∷ []))

-- `acceptance_required_marked`
unfoldable pub mark_acceptance : ℕ → Text → Runs → Result Effect
unfolding active_slot put
mark_acceptance now rid active = do
  slot ← active_slot active rid
  guard (slot.entry_point == codes "impl") acceptance_not_impl
  ok (require_acceptance now rid active slot)

-- `run_finalized`
unfoldable pub finalize_run : ℕ → Text → Runs → Result Effect
unfolding active_slot put
finalize_run now rid active = do
  slot ← active_slot active rid
  ok (writes rid (record slot { finalized_at = some now }) active Outcome.nothing [])

abbrev finish : ℕ → Text → Runs → Slot → Effect
finish now rid active slot =
    if is_there slot.completed_at
    then unchanged Outcome.nothing
    else (let written = record slot {
      completed_at = some now;
      last_confirmed_at = now;
      current_step = none;
    } in
        writes rid written active Outcome.nothing (new_event EventType.run_finished now ∷ []))

-- `dict(active[run_id])` fails on what is not an object.
abbrev pub complete_slot : ℕ → Text → Runs → Option (Option Slot) → Result Effect
complete_slot now rid active none = ok (unchanged Outcome.nothing)
complete_slot now rid active (some none) = err slot_format
complete_slot now rid active (some (some slot)) = ok (finish now rid active slot)

-- `run_completed`
unfoldable pub complete_run : ℕ → Text → Runs → Result Effect
unfolding lookup put
complete_run now rid active = complete_slot now rid active (lookup rid active)

-- MANUAL_EVENT_TYPES
abbrev pub is_manual : EventType → Bool
is_manual EventType.validator_passed = true
is_manual EventType.validator_failed = true
is_manual EventType.pr_created = true
is_manual EventType.pr_merged = true
is_manual EventType.task_completed = true
is_manual EventType.blocked = true
is_manual _ = false

-- `ledger_checkpoint`: the record has the fields that are given.
unfoldable pub checkpoint : ℕ → Text → (fields : Event) → Runs → Result Effect
unfolding active_slot
checkpoint now rid fields active = do
  slot ← active_slot active rid
  guard (is_manual fields.event) not_manual
  let written = record fields { ts = now }
  ok (record { outcome = Outcome.recorded written; active = none; appended = written ∷ [] })

pub data RunAction : Type 0 where
  start : RunArgs → RunAction
  block : BlockArgs → RunAction
  accept : (reason : Text) → RunAction
  mark_required finalize complete : RunAction
  note : (fields : Event) → RunAction

unfoldable pub apply_run_transition : Files → ℕ → Text → RunAction → Runs → Ledger → Result Effect
unfolding start_run block_run accept_block mark_acceptance finalize_run complete_run checkpoint
apply_run_transition files now rid (start a) active ledger = start_run files now rid a active
apply_run_transition files now rid (block a) active ledger = block_run now rid a active
apply_run_transition files now rid (accept reason) active ledger =
    accept_block files now rid reason active ledger
apply_run_transition files now rid mark_required active ledger = mark_acceptance now rid active
apply_run_transition files now rid finalize active ledger = finalize_run now rid active
apply_run_transition files now rid complete active ledger = complete_run now rid active
apply_run_transition files now rid (note fields) active ledger = checkpoint now rid fields active
