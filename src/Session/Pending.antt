-- ===== src/Session/Pending.antt =====
-- harness/session_state.py, _apply_runtime_transition: the agents that are on their way.
use dc_ness.Base.{
  ℕ, Text, text_eq, Bool, not, ◌&&◌, Option, none, some, [], ◌∷◌, if◌then◌else◌, ◌==◌, is_empty,
  leb, is_there,
}
use dc_ness.Base.Dict.{Dict, lookup, put, delete}
use dc_ness.Session.Names.{canonical_agent, normalize_agent_type}
use dc_ness.Session.Records.{Slot, Pending, truthy, present}
use dc_ness.Session.Runs.{Runs, Outcome, Effect, unchanged, writes, find_slot}
use dc_ness.Session.Steps.{same_text}

pub record PendingArgs : Type 0 where
  pub tool_use_id : Option Text
  pub sub_type : Option Text
  pub mode : Option Text
  pub background : Bool
  pub auto_start : Bool

-- `value or ""`
abbrev pub or_empty : Option Text → Text
or_empty none = []
or_empty (some t) = t

abbrev pub new_pending : Text → PendingArgs → ℕ → Pending
new_pending tool_use_id a now = record {
  tool_use_id = tool_use_id;
  sub_type = or_empty a.sub_type;
  mode = present a.mode;
  background = a.background;
  auto_start = a.auto_start;
  started_at = now;
  agent_id = none;
  spawned_at = none;
}

-- What a transition does that passes over a run that is not there, and without an identity.
abbrev pub with_call : Option Slot → Option Text → (Slot → Text → Effect) → Effect
with_call (some slot) (some id) f = f slot id
with_call _ _ f = unchanged Outcome.nothing

-- `pending_agent_set`
unfoldable pub set_pending : ℕ → Text → PendingArgs → Runs → Effect
unfolding find_slot put
set_pending now rid a active = with_call (find_slot active rid) (present a.tool_use_id) λ slot id.
    let written = record slot {
      pending_agents = put id (new_pending id a now) slot.pending_agents;
    } in
    writes rid written active Outcome.nothing []

-- The pending call that an agent has taken already.
unfoldable pub find_spawned : Text → Dict Text Pending → Option Pending
find_spawned agent_id [] = none
find_spawned agent_id ((k, p) ∷ pending) =
    let rest = find_spawned agent_id pending in
    if same_text p.agent_id (some agent_id) then some p else rest

unfoldable pub is_candidate : Text → Pending → Bool
unfolding canonical_agent
is_candidate agent p = not (truthy p.agent_id) && canonical_agent p.sub_type == agent

-- The newest candidate, the first one of the same moment.
abbrev pub newer : Text × Pending → Option (Text × Pending) → Option (Text × Pending)
newer c none = some c
newer c (some d) = if leb d.1.started_at c.1.started_at then some c else some d

unfoldable pub newest_candidate : Text → Dict Text Pending → Option (Text × Pending)
unfolding is_candidate
newest_candidate agent [] = none
newest_candidate agent ((k, p) ∷ pending) =
    let rest = newest_candidate agent pending in
    if is_candidate agent p then newer (k, p) rest else rest

-- What the spawned agent's record becomes.
pub data Spawned : Type 0 where
  known claimed : Pending → Spawned
  no_intent : Spawned

abbrev pub spawned_at : Pending → Text → ℕ → Pending
spawned_at p agent_id now = record p { agent_id = some agent_id; spawned_at = some now }

abbrev pub claim_newest :
    ℕ → Text → Option (Text × Pending) → Dict Text Pending → Spawned × Dict Text Pending
claim_newest now agent_id none pending = (no_intent, pending)
claim_newest now agent_id (some (k, p)) pending =
    (claimed (spawned_at p agent_id now), put k (spawned_at p agent_id now) pending)

abbrev pub claim_unless :
    ℕ → Text → Text → Option Pending → Dict Text Pending → Spawned × Dict Text Pending
claim_unless now agent agent_id (some p) pending = (known p, pending)
claim_unless now agent agent_id none pending =
    claim_newest now agent_id (newest_candidate agent pending) pending

-- `_claim_pending_agent_spawn`, on the pending calls of a run.
unfoldable pub claim_pending :
    ℕ → (agent agent_id : Text) → Dict Text Pending → Spawned × Dict Text Pending
unfolding find_spawned newest_candidate put
claim_pending now agent agent_id pending =
    claim_unless now agent agent_id (find_spawned agent_id pending) pending

-- The call that is cleared: that one, or the only one.
abbrev only_key : Dict Text Pending → Option Text
only_key ((k, p) ∷ []) = some k
only_key _ = none

abbrev exact_key : Option Text → Dict Text Pending → Option Text
exact_key none pending = none
exact_key (some id) pending = if is_there (lookup id pending) then some id else none

abbrev else_key : Option Text → Option Text → Option Text
else_key none other = other
else_key (some k) other = some k

unfoldable cleared_key :
    (tool_use_id : Option Text) → (require_exact : Bool) → Dict Text Pending → Option Text
unfolding lookup
cleared_key tool_use_id require_exact pending =
    else_key (exact_key tool_use_id pending) (if require_exact then none else only_key pending)

abbrev take_key : Option Text → Dict Text Pending → Option (Pending × Dict Text Pending)
take_key none pending = none
take_key (some k) pending = elim (lookup k pending) [
  | none ↦ none
  | some p ↦ some (p, delete k pending)
]

-- `pending_agent_cleared`, on the pending calls of a run: the call that is taken out, and the others.
unfoldable pub clear_pending :
    (tool_use_id : Option Text)
    → (require_exact : Bool) → Dict Text Pending
    → Option (Pending × Dict Text Pending)
unfolding cleared_key delete lookup
clear_pending tool_use_id require_exact pending =
    take_key (cleared_key tool_use_id require_exact pending) pending

abbrev write_pending : Text → Runs → Slot → Pending → Dict Text Pending → Effect
write_pending rid active slot p pending =
    writes rid (record slot { pending_agents = pending }) active (Outcome.call p) []

abbrev pub cleared : Text → Runs → Slot → Option (Pending × Dict Text Pending) → Effect
cleared rid active slot none = unchanged Outcome.nothing
cleared rid active slot (some (p, pending)) = write_pending rid active slot p pending

abbrev pub clear_in : Text → Option Text → Bool → Runs → Option Slot → Effect
clear_in rid tool_use_id require_exact active none = unchanged Outcome.nothing
clear_in rid tool_use_id require_exact active (some slot) =
    cleared rid active slot (clear_pending tool_use_id require_exact slot.pending_agents)

unfoldable pub clear_pending_agent :
    Text → (tool_use_id : Option Text) → (require_exact : Bool) → Runs → Effect
unfolding clear_pending find_slot put
clear_pending_agent rid tool_use_id require_exact active =
    clear_in rid tool_use_id require_exact active (find_slot active rid)

abbrev pub spawned : Text → Runs → Slot → Spawned × Dict Text Pending → Effect
spawned rid active slot (known p, pending) = unchanged (Outcome.call p)
spawned rid active slot (claimed p, pending) = write_pending rid active slot p pending
spawned rid active slot (no_intent, pending) = unchanged Outcome.nothing

-- `pending_agent_spawned`
unfoldable pub spawn_pending_agent : ℕ → Text → (agent agent_id : Option Text) → Runs → Effect
unfolding claim_pending find_slot put normalize_agent_type
spawn_pending_agent now rid agent agent_id active =
    with_call (find_slot active rid) (present agent_id) λ slot id.
      let name = normalize_agent_type (or_empty agent) in
      if is_empty name
      then unchanged Outcome.nothing
      else spawned rid active slot (claim_pending now name id slot.pending_agents)
