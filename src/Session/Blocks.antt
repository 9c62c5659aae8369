-- ===== src/Session/Blocks.antt =====
-- harness/session_state.py, the blocks of a run: what the transitions of a run leave of them.
use dc_ness.Base.{
  ℕ, Text, text_eq, Bool, true, false, not, Option, none, some, List, [], ◌∷◌, ◌++◌, if◌then◌else◌,
  ◌==◌, ◌≡◌, refl, sym, ap, ◌∙◌, arith, is_empty, is_there,
}
use dc_ness.Base.Dict.{put, lookup-put}
use dc_ness.Session.Records.{
  Slot, Block, Event, Ledger, Result, ok, err, ◌>>◌, guard, Files, category_empty, reason_empty,
  no_boundary_block,
}
use dc_ness.Base.Python.{strip}
use dc_ness.Session.Runs.{
  Runs, Outcome, Effect, writes, find_slot, verdict_of, silent, accepted, Verdict, open_block,
  last_verdict, or_earlier, block_in, worker_boundary, start_run, block_run, RunArgs, BlockArgs,
  block_event, checked_start, new_slot, blocked_effect, boundary_block_marker,
}
use dc_ness.Session.Lifecycle.{
  RunAction, start, block, accept, mark_required, finalize, complete, note, accept_block,
  apply_run_transition, accepted_effect,
}
use dc_ness.Session.Steps.{StepAction, apply_step_transition}
use dc_ness.Session.Transition.{RuntimeAction, apply_runtime_transition}
use dc_ness.Session.Effects.{
  AllOk, AllOk-bind, AllOk-slot, AllOk-guard, Touches, block_at, is_accepted, IsQuiet,
}
use dc_ness.Session.Quiet.{
  mark_acceptance-IsQuiet, finalize_run-IsQuiet, complete_run-IsQuiet, checkpoint-IsQuiet,
  step-IsQuiet,
}
use dc_ness.Session.QuietCalls.{runtime-IsQuiet}
use dc_ness.Session.Replay.{runs_after}

or_earlier-silent : (v : Verdict) → v ≡ or_earlier v silent
or_earlier-silent silent = refl
or_earlier-silent accepted = refl
or_earlier-silent (open_block e) = refl

or_earlier_assoc : (a b c : Verdict) → or_earlier (or_earlier a b) c ≡ or_earlier a (or_earlier b c)
or_earlier_assoc silent b c = refl
or_earlier_assoc accepted b c = refl
or_earlier_assoc (open_block e) b c = refl

last_verdict-append :
    (xs ys : List Event) → last_verdict (xs ++ ys) ≡ or_earlier (last_verdict ys) (last_verdict xs)
unfolding last_verdict
last_verdict-append [] ys = or_earlier-silent (last_verdict ys)
last_verdict-append (x ∷ xs) ys =
    ap (λ v. or_earlier v (verdict_of x)) (last_verdict-append xs ys)
    ∙ or_earlier_assoc (last_verdict ys) (last_verdict xs) (verdict_of x)

abbrev pub is_open : Verdict → Bool
is_open (open_block e) = true
is_open _ = false

-- Whether a marker is that of a worker's boundary.
abbrev pub holds : Option Block → Bool
holds none = false
holds (some b) = b.category == worker_boundary

-- A run that its slot holds is held by its ledger.
abbrev pub Agrees : Option Block → List Event → Type 0
Agrees b es = holds b ≡ true → is_open (last_verdict es) ≡ true

abbrev pub IsWritten : Text → Runs → Option Runs → Type 0
IsWritten rid active none = Unit
IsWritten rid active (some written) = (slot : Slot) × (written ≡ put rid (some slot) active)

-- An effect writes the run's slot alone, and keeps the agreement.
pub record IsSound (rid : Text) (active : Runs) (e : Effect) : Type 0 where
  pub written : IsWritten rid active e.active
  pub agrees :
      (es : List Event)
      → Agrees (block_at active rid) es
      → Agrees (block_at (runs_after active e.active) rid) (es ++ e.appended)

pub find_slot-put :
    (rid j : Text) (slot : Slot) (active : Runs)
    → find_slot (put rid (some slot) active) j
      ≡ (if rid == j then some slot else find_slot active j)
unfolding find_slot
find_slot-put rid j slot active = ground (arith, lookup-put rid j (some slot) active)

block_at-put :
    (rid : Text) (slot : Slot) (active : Runs)
    → block_at (put rid (some slot) active) rid ≡ slot.blocked
block_at-put rid slot active = ap block_in (
    find_slot-put rid rid slot active
    ∙ ap (λ b. if b then some slot else find_slot active rid) ((text_eq.same_iff rid rid).1 refl))

Touches-IsWritten :
    (rid : Text) (active : Runs) (b : Option Block) (w : Option Runs)
    → Touches rid active b w
    → IsWritten rid active w × (block_at (runs_after active w) rid ≡ b)
Touches-IsWritten rid active b none h = (tt, h)
Touches-IsWritten rid active b (some w) (slot, here, same) =
    ((slot, here), ap (λ d. block_at d rid) here ∙ block_at-put rid slot active ∙ same)

is_open-earlier :
    (v w : Verdict) → is_accepted v ≡ false → is_open w ≡ true → is_open (or_earlier v w) ≡ true
is_open-earlier silent w h k = k
is_open-earlier (open_block e) w h k = refl
is_open-earlier accepted w h k = ground arith

IsQuiet-IsSound :
    (rid : Text) (active : Runs) (e : Effect) → IsQuiet rid active e → IsSound rid active e
IsQuiet-IsSound rid active e q =
    let (w, same) = Touches-IsWritten rid active (block_at active rid) e.active q.kept in
    record {
      written = w;
      agrees = λ es h held.
          ap is_open (last_verdict-append es e.appended)
          ∙ is_open-earlier (last_verdict e.appended) (last_verdict es) q.quiet
              (h (ap holds (sym same) ∙ held));
    }

AllOk-map {ℓ κ ι} :
    {A : Type ℓ} {P : A → Type κ} {Q : A → Type ι} (m : Result A)
    → ((x : A) → P x → Q x)
    → AllOk P m
    → AllOk Q m
AllOk-map (ok x) f h = f x h
AllOk-map (err e) f h = tt

unblocked-IsSound :
    (rid : Text) (active : Runs) (slot : Slot) (o : Outcome) (es : List Event)
    → slot.blocked ≡ none
    → IsSound rid active (writes rid slot active o es)
unblocked-IsSound rid active slot o es none_here = record {
  written = (slot, refl);
  agrees = λ fs h held. ground (arith, ap holds (block_at-put rid slot active ∙ none_here));
}

start_run-IsSound :
    (files : Files) (now : ℕ) (rid : Text) (a : RunArgs) (active : Runs)
    → AllOk (IsSound rid active) (start_run files now rid a active)
unfolding start_run
start_run-IsSound files now rid a active =
    AllOk-bind (IsSound rid active) (checked_start files rid a active) _
      λ doc. unblocked-IsSound rid active (new_slot a doc now) Outcome.nothing _ refl

accept_block-IsSound :
    (files : Files) (now : ℕ) (rid reason : Text) (active : Runs) (ledger : Ledger)
    → AllOk (IsSound rid active) (accept_block files now rid reason active ledger)
unfolding accept_block
accept_block-IsSound files now rid reason active ledger =
    let P = IsSound rid active in
    AllOk-slot P rid active _ λ slot here.
      AllOk-guard P (not (is_empty (strip reason))) reason_empty
        (guard (is_there (boundary_block_marker files (some slot) ledger)) no_boundary_block
          >> ok (accepted_effect now rid reason active slot))
        λ _.
          AllOk-guard P (is_there (boundary_block_marker files (some slot) ledger))
            no_boundary_block (ok (accepted_effect now rid reason active slot))
            λ _.
              unblocked-IsSound rid active (record slot { blocked = none; last_confirmed_at = now })
                _ _ refl

-- The event of a block that holds the slot holds the ledger.
block_event-is_open :
    (a : BlockArgs) (now : ℕ) (w : Verdict)
    → a.category == worker_boundary ≡ true
    → is_open (or_earlier (last_verdict (block_event a now ∷ [])) w) ≡ true
unfolding last_verdict
block_event-is_open a now w h =
    ap
      (λ b.
        is_open
          (or_earlier (or_earlier silent (if b then open_block (block_event a now) else silent)) w))
      h

blocked-IsSound :
    (now : ℕ) (rid : Text) (a : BlockArgs) (active : Runs) (slot : Slot)
    → IsSound rid active (blocked_effect now rid a active slot)
blocked-IsSound now rid a active slot = record {
  written = (_, refl);
  agrees = λ es h held.
      ap is_open (last_verdict-append es (block_event a now ∷ []))
      ∙ block_event-is_open a now (last_verdict es)
          (ap holds (sym (block_at-put rid _ active)) ∙ held);
}

block_run-IsSound :
    (now : ℕ) (rid : Text) (a : BlockArgs) (active : Runs)
    → AllOk (IsSound rid active) (block_run now rid a active)
unfolding block_run
block_run-IsSound now rid a active =
    let P = IsSound rid active in
    AllOk-slot P rid active _ λ slot here.
      AllOk-guard P (not (is_empty a.category)) category_empty
        (ok (blocked_effect now rid a active slot)) λ _. blocked-IsSound now rid a active slot

-- Every transition of a run.
pub run-IsSound :
    (files : Files) (now : ℕ) (rid : Text) (action : RunAction) (active : Runs) (ledger : Ledger)
    → AllOk (IsSound rid active) (apply_run_transition files now rid action active ledger)
unfolding apply_run_transition
run-IsSound files now rid (start a) active ledger = start_run-IsSound files now rid a active
run-IsSound files now rid (block a) active ledger = block_run-IsSound now rid a active
run-IsSound files now rid (accept reason) active ledger =
    accept_block-IsSound files now rid reason active ledger
run-IsSound files now rid mark_required active ledger =
    AllOk-map _ (IsQuiet-IsSound rid active) (mark_acceptance-IsQuiet now rid active)
run-IsSound files now rid finalize active ledger =
    AllOk-map _ (IsQuiet-IsSound rid active) (finalize_run-IsQuiet now rid active)
run-IsSound files now rid complete active ledger =
    AllOk-map _ (IsQuiet-IsSound rid active) (complete_run-IsQuiet now rid active)
run-IsSound files now rid (note fields) active ledger =
    AllOk-map _ (IsQuiet-IsSound rid active) (checkpoint-IsQuiet now rid fields active)

pub step-IsSound :
    (files : Files) (now : ℕ) (rid : Text) (action : StepAction) (active : Runs) (ledger : Ledger)
    → AllOk (IsSound rid active) (apply_step_transition files now rid action active ledger)
step-IsSound files now rid action active ledger =
    AllOk-map _ (IsQuiet-IsSound rid active) (step-IsQuiet files now rid action active ledger)

pub runtime-IsSound :
    (now : ℕ) (rid : Text) (action : RuntimeAction) (active : Runs)
    → AllOk (IsSound rid active) (apply_runtime_transition now rid action active)
runtime-IsSound now rid action active =
    AllOk-map _ (IsQuiet-IsSound rid active) (runtime-IsQuiet now rid action active)
