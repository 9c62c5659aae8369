-- ===== src/Session/Quiet.antt =====
-- harness/session_state.py, the transitions of a run that keep the block of the run's slot.
use dc_ness.Base.{
  ℕ, Text, text_eq, Bool, true, false, not, Option, none, some, [], ◌∷◌, if◌then◌else◌, ◌==◌, ◌≡◌,
  refl, sym, ap, arith, is_there, codes, is_empty, text_beq,
}
use dc_ness.Session.Records.{
  Slot, Step, Event, EventType, Ledger, Result, ok, Files, acceptance_not_impl, agent_empty,
}
use dc_ness.Session.Runs.{
  Runs, Effect, slot_of, find_slot, is_boundary, verdict_at, silent, open_block, last_verdict,
  or_earlier, read_step_completed, block_in,
}
use dc_ness.Session.Lifecycle.{
  mark_acceptance, require_acceptance, finalize_run, complete_run, complete_slot, checkpoint,
  is_manual,
}
use dc_ness.Session.Steps.{
  StepArgs, StepAction, step_start, step_abort, step_complete, start_step, start_at, abort_step,
  abort_at, matches, complete_step, complete_with, record_step, ended_step, earlier_completion,
  checked_identity, receipt, validation_block, on_slot, apply_step_transition, normalized,
  is_current, step_args, is_validation_block, validation_event,
}
use dc_ness.Session.Effects.{
  AllOk, AllOk-bind, AllOk-slot, AllOk-guard, Touches, block_at, is_accepted, IsQuiet,
  unchanged-IsQuiet, writes-IsQuiet, if-IsQuiet,
}

pub mark_acceptance-IsQuiet :
    (now : ℕ) (rid : Text) (active : Runs)
    → AllOk (IsQuiet rid active) (mark_acceptance now rid active)
unfolding mark_acceptance last_verdict
mark_acceptance-IsQuiet now rid active = AllOk-slot (IsQuiet rid active) rid active _ λ slot here.
    AllOk-guard (IsQuiet rid active) (slot.entry_point == codes "impl") acceptance_not_impl
      (ok (require_acceptance now rid active slot))
      λ _.
        if-IsQuiet rid active slot.acceptance_required _ _ (unchanged-IsQuiet rid active _)
          (writes-IsQuiet rid active slot _ _ _ here refl refl)

pub finalize_run-IsQuiet :
    (now : ℕ) (rid : Text) (active : Runs)
    → AllOk (IsQuiet rid active) (finalize_run now rid active)
unfolding finalize_run last_verdict
finalize_run-IsQuiet now rid active =
    AllOk-slot (IsQuiet rid active) rid active _
      λ slot here. writes-IsQuiet rid active slot _ _ _ here refl refl

complete_slot-IsQuiet :
    (now : ℕ) (rid : Text) (active : Runs) (found : Option (Option Slot))
    → find_slot active rid ≡ slot_of found
    → AllOk (IsQuiet rid active) (complete_slot now rid active found)
unfolding last_verdict
complete_slot-IsQuiet now rid active none here = unchanged-IsQuiet rid active _
complete_slot-IsQuiet now rid active (some none) here = tt
complete_slot-IsQuiet now rid active (some (some slot)) here =
    if-IsQuiet rid active (is_there slot.completed_at) _ _ (unchanged-IsQuiet rid active _)
      (writes-IsQuiet rid active slot _ _ _ here refl refl)

pub complete_run-IsQuiet :
    (now : ℕ) (rid : Text) (active : Runs)
    → AllOk (IsQuiet rid active) (complete_run now rid active)
unfolding complete_run find_slot
complete_run-IsQuiet now rid active = complete_slot-IsQuiet now rid active _ refl

verdict_if : (b : Bool) (e : Event) → is_accepted (if b then open_block e else silent) ≡ false
verdict_if true e = refl
verdict_if false e = refl

manual-verdict :
    (kind : EventType) (e : Event)
    → is_manual kind ≡ true
    → is_accepted (or_earlier silent (verdict_at kind e)) ≡ false
manual-verdict EventType.boundary_block_accepted e m = ground arith
manual-verdict EventType.blocked e m = verdict_if (is_boundary e.category) e
manual-verdict EventType.run_started e m = refl
manual-verdict EventType.step_started e m = refl
manual-verdict EventType.step_aborted e m = refl
manual-verdict EventType.step_completed e m = refl
manual-verdict EventType.validator_passed e m = refl
manual-verdict EventType.validator_failed e m = refl
manual-verdict EventType.pr_created e m = refl
manual-verdict EventType.pr_merged e m = refl
manual-verdict EventType.task_completed e m = refl
manual-verdict EventType.run_finished e m = refl
manual-verdict EventType.acceptance_required_marked e m = refl

pub checkpoint-IsQuiet :
    (now : ℕ) (rid : Text) (fields : Event) (active : Runs)
    → AllOk (IsQuiet rid active) (checkpoint now rid fields active)
unfolding checkpoint last_verdict
checkpoint-IsQuiet now rid fields active = AllOk-slot (IsQuiet rid active) rid active _ λ slot here.
    AllOk-guard (IsQuiet rid active) (is_manual fields.event) _ _ λ m. record {
      kept = refl;
      quiet = manual-verdict fields.event (record fields { ts = now }) m;
    }

-- Steps

if-AllOk {κ} :
    (P : Effect → Type κ) (b : Bool) (x y : Result Effect)
    → AllOk P x
    → AllOk P y
    → AllOk P (if b then x else y)
if-AllOk P true x y h k = h
if-AllOk P false x y h k = k

start_at-IsQuiet :
    (files : Files) (now : ℕ) (rid : Text) (a : StepArgs) (active : Runs) (slot : Slot)
    (ledger : Ledger) (current : Option Step)
    → find_slot active rid ≡ some slot
    → AllOk (IsQuiet rid active) (start_at files now rid a active slot ledger current)
unfolding last_verdict
start_at-IsQuiet files now rid a active slot ledger none here =
    AllOk-bind (IsQuiet rid active) (read_step_completed files ledger) _
      λ _. writes-IsQuiet rid active slot _ _ _ here refl refl
start_at-IsQuiet files now rid a active slot ledger (some current) here =
    if-AllOk (IsQuiet rid active) (matches a current) _ _ (unchanged-IsQuiet rid active _) tt

abort_at-IsQuiet :
    (now : ℕ) (rid : Text) (a : StepArgs) (active : Runs) (slot : Slot) (current : Option Step)
    → find_slot active rid ≡ some slot
    → AllOk (IsQuiet rid active) (abort_at now rid a active slot current)
unfolding last_verdict
abort_at-IsQuiet now rid a active slot none here =
    if-AllOk (IsQuiet rid active) a.strict_identity _ _ tt (unchanged-IsQuiet rid active _)
abort_at-IsQuiet now rid a active slot (some current) here =
    if-AllOk (IsQuiet rid active) (matches a current) _ _
      (writes-IsQuiet rid active slot _ _ _ here refl refl)
      (if-AllOk (IsQuiet rid active) a.strict_identity _ _ tt (unchanged-IsQuiet rid active _))

start_step-IsQuiet :
    (files : Files) (now : ℕ) (rid : Text) (a : StepArgs) (active : Runs) (slot : Slot)
    (ledger : Ledger)
    → find_slot active rid ≡ some slot
    → AllOk (IsQuiet rid active) (start_step files now rid a active slot ledger)
unfolding start_step
start_step-IsQuiet files now rid a active slot ledger here =
    start_at-IsQuiet files now rid a active slot ledger _ here

abort_step-IsQuiet :
    (now : ℕ) (rid : Text) (a : StepArgs) (active : Runs) (slot : Slot)
    → find_slot active rid ≡ some slot
    → AllOk (IsQuiet rid active) (abort_step now rid a active slot)
unfolding abort_step
abort_step-IsQuiet now rid a active slot here =
    abort_at-IsQuiet now rid a active slot slot.current_step here

ended-Touches :
    (b : Bool) (now : ℕ) (rid : Text) (active : Runs) (slot : Slot)
    → find_slot active rid ≡ some slot
    → Touches rid active (block_at active rid) (ended_step b now rid active slot)
ended-Touches true now rid active slot here = (_, refl, sym (ap block_in here))
ended-Touches false now rid active slot here = refl

validation-verdict :
    (b : Bool) (now : ℕ) (a : StepArgs)
    → is_accepted (or_earlier (last_verdict (if b then validation_event now a ∷ [] else [])) silent)
      ≡ false
unfolding last_verdict text_beq
validation-verdict true now a = refl
validation-verdict false now a = refl

receipt-verdict :
    (files : Files) (now : ℕ) (a : StepArgs) (current : Option Step)
    → is_accepted (last_verdict (receipt files now a current ∷ validation_block files now a))
      ≡ false
unfolding last_verdict validation_block
receipt-verdict files now a current = validation-verdict (is_validation_block files a) now a

record_step-IsQuiet :
    (files : Files) (now : ℕ) (rid : Text) (a : StepArgs) (active : Runs) (slot : Slot)
    → find_slot active rid ≡ some slot
    → IsQuiet rid active (record_step files now rid a active slot)
record_step-IsQuiet files now rid a active slot here = record {
  kept = ended-Touches (is_current a slot.current_step) now rid active slot here;
  quiet = receipt-verdict files now a slot.current_step;
}

complete_with-IsQuiet :
    (files : Files) (now : ℕ) (rid : Text) (a : StepArgs) (active : Runs) (slot : Slot)
    (earlier : Option Event)
    → find_slot active rid ≡ some slot
    → AllOk (IsQuiet rid active) (complete_with files now rid a active slot earlier)
complete_with-IsQuiet files now rid a active slot (some e) here = unchanged-IsQuiet rid active _
complete_with-IsQuiet files now rid a active slot none here =
    AllOk-bind (IsQuiet rid active) (checked_identity a slot.current_step) _
      λ _. record_step-IsQuiet files now rid a active slot here

complete_step-IsQuiet :
    (files : Files) (now : ℕ) (rid : Text) (a : StepArgs) (active : Runs) (slot : Slot)
    (ledger : Ledger)
    → find_slot active rid ≡ some slot
    → AllOk (IsQuiet rid active) (complete_step files now rid a active slot ledger)
unfolding complete_step
complete_step-IsQuiet files now rid a active slot ledger here =
    AllOk-bind (IsQuiet rid active) (earlier_completion files a ledger) _
      λ found. complete_with-IsQuiet files now rid a active slot found here

on_slot-IsQuiet :
    (files : Files) (now : ℕ) (rid : Text) (action : StepAction) (active : Runs) (slot : Slot)
    (ledger : Ledger)
    → find_slot active rid ≡ some slot
    → AllOk (IsQuiet rid active) (on_slot files now rid action active slot ledger)
on_slot-IsQuiet files now rid (step_start a) active slot ledger =
    start_step-IsQuiet files now rid (normalized a) active slot ledger
on_slot-IsQuiet files now rid (step_abort a) active slot ledger =
    abort_step-IsQuiet now rid (normalized a) active slot
on_slot-IsQuiet files now rid (step_complete a) active slot ledger =
    complete_step-IsQuiet files now rid (normalized a) active slot ledger

-- No transition of a step settles a block of the run.
pub step-IsQuiet :
    (files : Files) (now : ℕ) (rid : Text) (action : StepAction) (active : Runs) (ledger : Ledger)
    → AllOk (IsQuiet rid active) (apply_step_transition files now rid action active ledger)
unfolding apply_step_transition
step-IsQuiet files now rid action active ledger =
    AllOk-slot (IsQuiet rid active) rid active _ λ slot here.
      AllOk-guard (IsQuiet rid active) (not (is_empty (step_args action).agent)) agent_empty
        (on_slot files now rid action active slot ledger)
        λ _. on_slot-IsQuiet files now rid action active slot ledger here
