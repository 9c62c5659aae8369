-- ===== src/Session/QuietCalls.antt =====
-- harness/session_state.py, _apply_runtime_transition: the block of the run's slot is kept.
use dc_ness.Base.{ℕ, Text, text_eq, Bool, Option, none, some, ◌≡◌, refl, is_empty}
use dc_ness.Base.Dict.{Dict}
use dc_ness.Session.Records.{Slot, Step, present, Pending}
use dc_ness.Session.Names.{normalize_agent_type}
use dc_ness.Session.Runs.{Runs, Effect, find_slot, last_verdict}
use dc_ness.Session.Pending.{
  set_pending, spawn_pending_agent, spawned, clear_pending_agent, cleared, clear_pending, with_call,
  PendingArgs, Spawned, known, claimed, no_intent, or_empty, clear_in,
}
use dc_ness.Session.Runtime.{
  bind_identity, bind_current, stage_prose, stage_current, record_stop_block, defer_journeys,
  BindArgs, readable, can_bind,
}
use dc_ness.Session.Transition.{
  RuntimeAction, apply_runtime_transition, pending_set, pending_spawned, pending_cleared,
  identity_bound, prose_staged, stop_block, journeys_deferred,
}
use dc_ness.Session.Effects.{
  AllOk, AllOk-bind, AllOk-slot, AllOk-guard, IsQuiet, unchanged-IsQuiet, writes-IsQuiet,
  if-IsQuiet,
}

with_call-IsQuiet :
    (rid : Text) (active : Runs) (found : Option Slot) (id : Option Text) (f : Slot → Text → Effect)
    → ((slot : Slot) (i : Text) → found ≡ some slot → IsQuiet rid active (f slot i))
    → IsQuiet rid active (with_call found id f)
with_call-IsQuiet rid active (some slot) (some id) f h = h slot id refl
with_call-IsQuiet rid active (some slot) none f h = unchanged-IsQuiet rid active _
with_call-IsQuiet rid active none id f h = unchanged-IsQuiet rid active _

set_pending-IsQuiet :
    (now : ℕ) (rid : Text) (a : PendingArgs) (active : Runs)
    → IsQuiet rid active (set_pending now rid a active)
unfolding set_pending last_verdict
set_pending-IsQuiet now rid a active =
    with_call-IsQuiet rid active (find_slot active rid) (present a.tool_use_id) _
      λ slot id here. writes-IsQuiet rid active slot _ _ _ here refl refl

spawned-IsQuiet :
    (rid : Text) (active : Runs) (slot : Slot) (s : Spawned) (pending : Dict Text Pending)
    → find_slot active rid ≡ some slot
    → IsQuiet rid active (spawned rid active slot (s, pending))
unfolding last_verdict
spawned-IsQuiet rid active slot (known p) pending here = unchanged-IsQuiet rid active _
spawned-IsQuiet rid active slot (claimed p) pending here =
    writes-IsQuiet rid active slot _ _ _ here refl refl
spawned-IsQuiet rid active slot no_intent pending here = unchanged-IsQuiet rid active _

spawn-IsQuiet :
    (now : ℕ) (rid : Text) (agent id : Option Text) (active : Runs)
    → IsQuiet rid active (spawn_pending_agent now rid agent id active)
unfolding spawn_pending_agent
spawn-IsQuiet now rid agent id active =
    with_call-IsQuiet rid active (find_slot active rid) (present id) _ λ slot i here.
      if-IsQuiet rid active (is_empty (normalize_agent_type (or_empty agent))) _ _
        (unchanged-IsQuiet rid active _) (spawned-IsQuiet rid active slot _ _ here)

cleared-IsQuiet :
    (rid : Text) (active : Runs) (slot : Slot) (taken : Option (Pending × Dict Text Pending))
    → find_slot active rid ≡ some slot
    → IsQuiet rid active (cleared rid active slot taken)
unfolding last_verdict
cleared-IsQuiet rid active slot none here = unchanged-IsQuiet rid active _
cleared-IsQuiet rid active slot (some (p, pending)) here =
    writes-IsQuiet rid active slot _ _ _ here refl refl

clear_in-IsQuiet :
    (rid : Text) (id : Option Text) (exact : Bool) (active : Runs) (found : Option Slot)
    → find_slot active rid ≡ found
    → IsQuiet rid active (clear_in rid id exact active found)
clear_in-IsQuiet rid id exact active none here = unchanged-IsQuiet rid active _
clear_in-IsQuiet rid id exact active (some slot) here =
    cleared-IsQuiet rid active slot (clear_pending id exact slot.pending_agents) here

clear-IsQuiet :
    (rid : Text) (id : Option Text) (exact : Bool) (active : Runs)
    → IsQuiet rid active (clear_pending_agent rid id exact active)
unfolding clear_pending_agent
clear-IsQuiet rid id exact active = clear_in-IsQuiet rid id exact active _ refl

bind_current-IsQuiet :
    (rid : Text) (a : BindArgs) (active : Runs) (slot : Slot) (current : Option Step)
    → find_slot active rid ≡ some slot
    → AllOk (IsQuiet rid active) (bind_current rid a active slot current)
unfolding last_verdict
bind_current-IsQuiet rid a active slot none here = tt
bind_current-IsQuiet rid a active slot (some current) here =
    AllOk-guard (IsQuiet rid active) (can_bind a current) _ _
      λ _. writes-IsQuiet rid active slot _ _ _ here refl refl

stage_current-IsQuiet :
    (rid file : Text) (active : Runs) (slot : Slot) (current : Option Step)
    → find_slot active rid ≡ some slot
    → IsQuiet rid active (stage_current rid file active slot current)
unfolding last_verdict
stage_current-IsQuiet rid file active slot none here = unchanged-IsQuiet rid active _
stage_current-IsQuiet rid file active slot (some current) here =
    writes-IsQuiet rid active slot _ _ _ here refl refl

-- Nor does one of the agents, the identity, the stops or the journeys.
pub runtime-IsQuiet :
    (now : ℕ) (rid : Text) (action : RuntimeAction) (active : Runs)
    → AllOk (IsQuiet rid active) (apply_runtime_transition now rid action active)
unfolding apply_runtime_transition bind_identity stage_prose record_stop_block defer_journeys
    last_verdict
runtime-IsQuiet now rid (pending_set a) active = set_pending-IsQuiet now rid a active
runtime-IsQuiet now rid (pending_spawned agent id) active = spawn-IsQuiet now rid agent id active
runtime-IsQuiet now rid (pending_cleared id exact) active = clear-IsQuiet rid id exact active
runtime-IsQuiet now rid (identity_bound a) active =
    AllOk-slot (IsQuiet rid active) rid active _
      λ slot here. bind_current-IsQuiet rid a active slot slot.current_step here
runtime-IsQuiet now rid (prose_staged file) active =
    AllOk-slot (IsQuiet rid active) rid active _
      λ slot here. stage_current-IsQuiet rid file active slot slot.current_step here
runtime-IsQuiet now rid (stop_block key) active =
    AllOk-slot (IsQuiet rid active) rid active _
      λ slot here. writes-IsQuiet rid active slot _ _ _ here refl refl
runtime-IsQuiet now rid (journeys_deferred ids) active =
    AllOk-slot (IsQuiet rid active) rid active _ λ slot here.
      AllOk-bind (IsQuiet rid active) (readable slot.journey_deferred) _
        λ old. writes-IsQuiet rid active slot _ _ _ here refl refl
