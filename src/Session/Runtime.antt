-- ===== src/Session/Runtime.antt =====
-- harness/session_state.py, _apply_runtime_transition: the current step's identity, the blocks of a
-- stop, the journeys that are put off, and the transitions that need no run.
use dc_ness.Base.{
  ℕ, ◌+◌, ◌-◌, Text, codes, text_eq, Bool, false, not, ◌&&◌, ◌||◌, Option, none, some, List, [],
  ◌∷◌, ◌++◌, if◌then◌else◌, ◌==◌, is_empty, length, mem, leb, drop, keep,
}
use dc_ness.Base.Dict.{lookup, put}
use dc_ness.Base.Python.{strip}
use dc_ness.Session.Names.{canonical_agent}
use dc_ness.Session.Records.{
  Slot, Step, Deferral, Live, Result, ok, err, ◌>>=◌, ◌>>◌, guard, truthy, present,
  identity_mismatch, step_missing, deferral_corrupt,
}
use dc_ness.Session.Runs.{Runs, Outcome, Effect, unchanged, writes, active_slot}
use dc_ness.Session.Steps.{same_text}

pub record BindArgs : Type 0 where
  pub agent : Text
  pub mode : Option Text
  pub tool_use_id : Option Text
  pub agent_id : Option Text
  pub lifecycle_owner : Option Text

-- Two identities that are both given must be one.
abbrev binds : (given existing : Option Text) → Bool
binds given existing = not (truthy existing && truthy given) || same_text existing given

abbrev bound : (given existing : Option Text) → Option Text
bound given existing = if truthy given then given else existing

unfoldable pub can_bind : BindArgs → Step → Bool
unfolding canonical_agent
can_bind a current =
    (current.agent == canonical_agent a.agent && same_text current.mode a.mode)
    && (binds a.tool_use_id current.tool_use_id && binds a.agent_id current.agent_id)

abbrev bound_step : BindArgs → Step → Step
bound_step a current = record current {
  tool_use_id = bound a.tool_use_id current.tool_use_id;
  agent_id = bound a.agent_id current.agent_id;
  lifecycle_owner = (if truthy a.lifecycle_owner then a.lifecycle_owner else some (codes "hook"));
}

abbrev pub bind_current : Text → BindArgs → Runs → Slot → Option Step → Result Effect
bind_current rid a active slot none = err step_missing
bind_current rid a active slot (some current) = do
  guard (can_bind a current) identity_mismatch
  let written = record slot { current_step = some (bound_step a current) }
  ok (writes rid written active (Outcome.step (bound_step a current)) [])

-- `step_identity_bound`
unfoldable pub bind_identity : Text → BindArgs → Runs → Result Effect
unfolding active_slot can_bind put
bind_identity rid a active = do
  slot ← active_slot active rid
  bind_current rid a active slot slot.current_step

abbrev pub stage_current : Text → Text → Runs → Slot → Option Step → Effect
stage_current rid file active slot none = unchanged Outcome.nothing
stage_current rid file active slot (some current) =
    let written = record slot { current_step = some (record current { prose_file = some file }) } in
    writes rid written active Outcome.nothing []

-- `prose_staged`
unfoldable pub stage_prose : Text → (prose_file : Text) → Runs → Result Effect
unfolding active_slot put
stage_prose rid file active = do
  slot ← active_slot active rid
  ok (stage_current rid file active slot slot.current_step)

abbrev count_of : Option ℕ → ℕ
count_of none = 0
count_of (some n) = n

-- `stop_block_recorded`
unfoldable pub record_stop_block : Text → (step_key : Text) → Runs → Result Effect
unfolding active_slot lookup put
record_stop_block rid key active = do
  slot ← active_slot active rid
  let n = count_of (lookup key slot.stop_block_count) + 1
  let written = record slot { stop_block_count = put key n slot.stop_block_count }
  ok (writes rid written active (Outcome.count n) [])

abbrev pub readable : Deferral → Result (List Text)
readable Deferral.absent = ok []
readable Deferral.corrupt = err deferral_corrupt
readable (Deferral.deferred ids) = ok ids

-- The loop over the journeys that are given.
unfoldable add_journeys : List Text → List Text → List Text
unfolding strip mem
add_journeys deferred [] = deferred
add_journeys deferred (id ∷ ids) =
    let value = strip id in
    add_journeys (if is_empty value || mem value deferred then deferred else deferred ++ value ∷ [])
      ids

-- `journey_deferred_recorded`
unfoldable pub defer_journeys : Text → (journey_ids : List Text) → Runs → Result Effect
unfolding active_slot add_journeys put
defer_journeys rid ids active = do
  slot ← active_slot active rid
  old ← readable slot.journey_deferred
  let deferred = add_journeys old ids
  let written = record slot { journey_deferred = Deferral.deferred deferred }
  ok (writes rid written active (Outcome.names deferred) [])

-- `xs[-n:]`
abbrev pub last_n {ℓ} : {A : Type ℓ} → ℕ → List A → List A
last_n n xs = drop (length xs - n) xs

-- `post_task_marked`
unfoldable pub mark_post_task : ℕ → (reason : Text) → Live → Live
mark_post_task now reason live =
    let markers = live.post_task_markers ++ record { at = now; reason = reason } ∷ [] in
    record live { post_task_markers = last_n 20 markers }

-- `active_agent_set`
unfoldable pub set_active_agent : (agent mode : Option Text) → Live → Live
set_active_agent agent mode live =
    if truthy agent
    then record live { active_agent = agent; active_mode = present mode }
    else record live { active_agent = none; active_mode = none }

-- The moment by which a slot grows old.
abbrev pub stamp : Slot → ℕ
stamp slot = elim slot.completed_at [ none ↦ slot.last_confirmed_at | some at ↦ at ]

abbrev pub survives : (now ttl : ℕ) → Option Slot → Bool
survives now ttl none = false
survives now ttl (some slot) = leb (now - stamp slot) ttl

-- `stale_runs_cleaned`
unfoldable pub clean_stale_runs : (now ttl : ℕ) → Runs → Runs
clean_stale_runs now ttl active = keep (λ r. survives now ttl r.1) active
