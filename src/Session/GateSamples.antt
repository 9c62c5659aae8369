-- ===== src/Session/GateSamples.antt =====
-- The gate of harness/session_state.py at concrete inputs.
use dc_ness.Session.Prose.{run_has_module_architect_pass}
use dc_ness.Base.{◌∷◌, codes, text_eq, text_beq, true, false, none, some, [], ◌≡◌, refl}
use dc_ness.Session.Names.{valid_session_id, matches_run_id, canonical_agent}
use dc_ness.Session.Records.{LiveFile, ok}
use dc_ness.Session.Runs.{RunArgs, find_slot, last_verdict}
use dc_ness.Session.Lifecycle.{start}
use dc_ness.Session.Steps.{StepArgs, step_start, step_complete}
use dc_ness.Session.Transition.{Session, run, step, read_live, transition, ledger_of}
use dc_ness.Session.Blocks.{is_open}
use dc_ness.Session.Samples.{
  files, sid, rid, held, events_in, live_in, held-live, held-readable, held-IsReached,
}
use dc_ness.Session.Gate.{
  GateArgs, RunFiles, is_acceptance, requested, evaluate_order_gate_for_step,
}
use dc_ness.Session.Gates.{
  is_held_back, evaluate_order_gate-held, IsValidated, evaluate_order_gate-IsValidated,
}

abbrev run_files : RunFiles
run_files = record {
  read = λ path. codes "PASS";
  prose = (codes "module-architect-1.md", codes "PASS") ∷ [];
  is_file = λ path. false;
}

abbrev run_args : RunArgs
run_args = record {
  entry_point = codes "impl";
  lane = some (codes "lite");
  stage = none;
  design_doc = none;
  issue_num = none;
  acceptance_required = true;
}

abbrev validator : StepArgs
validator = record {
  agent = codes "impl-validator";
  mode = none;
  tool_use_id = some (codes "t1");
  agent_id = none;
  lifecycle_owner = none;
  candidate_head = some (codes "h");
  candidate_tree = some (codes "t");
  candidate_root = some (codes "/w");
  chain_state = none;
  strict_identity = true;
  category = none;
  provider = none;
  enum = codes "PASS";
  prose = codes "PASS";
  prose_path = codes "v.md";
}

abbrev acceptance : GateArgs
acceptance = record {
  agent = codes "dcness:product-acceptance";
  mode = some (codes "STORY_ACCEPTANCE");
  candidate_head = some (codes "h");
  candidate_tree = some (codes "t");
  candidate_root = some (codes "/w");
}

abbrev started : Session
started =
    (transition files 10 sid (run rid (start run_args))
      (record { live = LiveFile.missing; ledgers = [] })).0

abbrev validating : Session
validating = (transition files 11 sid (step rid (step_start validator)) started).0

abbrev validated : Session
validated = (transition files 12 sid (step rid (step_complete validator)) validating).0

rid-valid : matches_run_id rid ≡ true
unfolding matches_run_id text_beq
rid-valid = refl

sid-valid : valid_session_id sid ≡ true
unfolding valid_session_id
sid-valid = refl

evaluate_order_gate-held_example :
    is_held_back (evaluate_order_gate_for_step files run_files sid rid acceptance held)
    ≡ is_open (last_verdict (events_in (ledger_of held rid)))
evaluate_order_gate-held_example =
    evaluate_order_gate-held files run_files sid rid acceptance held (live_in held.live)
      (events_in (ledger_of held rid)) held-IsReached rid-valid sid-valid held-live held-readable

validated-live : read_live validated.live ≡ ok (live_in validated.live)
unfolding transition text_beq
validated-live = refl

validated-is_acceptance :
    is_acceptance
      (canonical_agent acceptance.agent)
      acceptance
      (find_slot (live_in validated.live).active_runs rid)
    ≡ true
unfolding transition is_acceptance find_slot canonical_agent text_beq
validated-is_acceptance = refl

validated-allowed :
    evaluate_order_gate_for_step files run_files sid rid acceptance validated ≡ ok none
unfolding transition evaluate_order_gate_for_step text_beq
validated-allowed = refl

evaluate_order_gate-IsValidated_example :
    IsValidated files run_files
      (requested
        (canonical_agent acceptance.agent)
        acceptance
        (find_slot (live_in validated.live).active_runs rid))
      (ledger_of validated rid)
evaluate_order_gate-IsValidated_example =
    evaluate_order_gate-IsValidated files run_files sid rid acceptance validated
      (live_in validated.live) rid-valid sid-valid validated-live validated-is_acceptance
      validated-allowed

-- The prose of the module architect, by its name.
architect-passed :
    run_has_module_architect_pass ((codes "module-architect-PLAN-2.md", codes "all PASS") ∷ [])
    ≡ true
unfolding run_has_module_architect_pass text_beq
architect-passed = refl

refresh-skipped :
    run_has_module_architect_pass
      ((codes "module-architect-CARTOGRAPHY_REFRESH-1.md", codes "PASS") ∷ [])
    ≡ false
unfolding run_has_module_architect_pass text_beq
refresh-skipped = refl
