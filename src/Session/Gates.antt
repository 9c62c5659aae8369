-- ===== src/Session/Gates.antt =====
-- harness/session_state.py, evaluate_order_gate_for_step: the steps that may start.
use dc_ness.Base.{
  Text, codes, text_eq, Bool, true, false, not, ◌&&◌, ◌||◌, Option, none, some, List, if◌then◌else◌,
  ◌==◌, ◌≡◌, refl, sym, ap, ◌∙◌, arith, is_there, ◌⊎◌, inl, inr, Bool-cases,
}
use dc_ness.Session.Names.{valid_session_id, matches_run_id, canonical_agent}
use dc_ness.Session.Records.{Slot, Event, Ledger, Live, Result, ok, err, ◌>>=◌, Files, truthy}
use dc_ness.Session.Runs.{
  find_slot, read_events, read_step_completed, last_verdict, Held, boundary_block_marker,
}
use dc_ness.Session.Steps.{same_text}
use dc_ness.Session.Transition.{Session, read_live, ledger_of}
use dc_ness.Session.Replay.{ok_injective, bind-ok}
use dc_ness.Session.Blocks.{is_open}
use dc_ness.Session.Reach.{IsReached, boundary_block_marker-is_open}
use dc_ness.Session.Gate.{
  Refusal, boundary_held, GateArgs, RunFiles, Candidate, last_validator, is_acceptance, requested,
  candidate_refusal, validator_refusal, worker_refusal, or_else, gate_of_slot, slot_in,
  gate_of_marker, evaluate_order_gate_for_step, of_event, has_identity, is_complete,
  acceptance_gate,
}

-- Whether a result refuses the step for a block of a worker's boundary.
abbrev pub is_held_back : Result (Option Refusal) → Bool
is_held_back (ok (some (boundary_held h))) = true
is_held_back _ = false

evaluate-valid :
    (files : Files) (run : RunFiles) (sid rid : Text) (a : GateArgs) (s : Session)
    → matches_run_id rid ≡ true
    → valid_session_id sid ≡ true
    → evaluate_order_gate_for_step files run sid rid a s
      ≡ gate_of_marker files run
          (canonical_agent a.agent)
          rid
          a
          s
          (boundary_block_marker files (slot_in (read_live s.live) rid) (ledger_of s rid))
unfolding evaluate_order_gate_for_step
evaluate-valid files run sid rid a s h k = rw h rw k refl

worker-never_held :
    (run : RunFiles) (agent : Text) (slot : Option Slot)
    → is_held_back (ok (worker_refusal run agent slot)) ≡ false
unfolding worker_refusal
worker-never_held run agent slot = ground arith

candidate-never_held :
    (r v : Candidate) (other : Option Refusal)
    → is_held_back (ok other) ≡ false
    → is_held_back (ok (or_else (candidate_refusal r v) other)) ≡ false
unfolding candidate_refusal
candidate-never_held r v other h = ground arith

validator-never_held :
    (files : Files) (run : RunFiles) (r : Candidate) (found : Option Event) (other : Option Refusal)
    → is_held_back (ok other) ≡ false
    → is_held_back (ok (or_else (validator_refusal files run r found) other)) ≡ false
validator-never_held files run r none other h = refl
validator-never_held files run r (some e) other h =
    passed (files.conclusion (run.read e.prose_file) == codes "PASS")
  where
    passed :
        (b : Bool)
        → is_held_back (
            ok (
              or_else
                (if b then candidate_refusal r (of_event e) else some Refusal.validator_not_passed)
                other))
          ≡ false
    passed true = candidate-never_held r (of_event e) other h
    passed false = refl

acceptance-never_held :
    (files : Files) (run : RunFiles) (r : Candidate) (m : Result (List Event))
    (other : Option Refusal)
    → is_held_back (ok other) ≡ false
    → is_held_back (
        (m >>= λ steps. ok (validator_refusal files run r (last_validator steps))) >>= λ refusal.
        ok (or_else refusal other))
      ≡ false
acceptance-never_held files run r (ok steps) other h =
    validator-never_held files run r (last_validator steps) other h
acceptance-never_held files run r (err e) other h = refl

gate_if :
    (b : Bool) (files : Files) (run : RunFiles) (r : Candidate) (m : Result (List Event))
    (other : Option Refusal)
    → is_held_back (ok other) ≡ false
    → is_held_back (
        (if b
          then (m >>= λ steps. ok (validator_refusal files run r (last_validator steps)))
          else ok none)
        >>= λ refusal. ok (or_else refusal other))
      ≡ false
gate_if true files run r m other h = acceptance-never_held files run r m other h
gate_if false files run r m other h = h

gate_of_slot-never_held :
    (files : Files) (run : RunFiles) (agent : Text) (a : GateArgs) (slot : Option Slot)
    (ledger : Ledger)
    → is_held_back (gate_of_slot files run agent a slot ledger) ≡ false
unfolding gate_of_slot
gate_of_slot-never_held files run agent a slot ledger =
    gate_if (is_acceptance agent a slot) files run (requested agent a slot)
      (read_step_completed files ledger) (worker_refusal run agent slot)
      (worker-never_held run agent slot)

marker-held :
    (files : Files) (run : RunFiles) (agent rid : Text) (a : GateArgs) (s : Session) (live : Live)
    (found : Option Held)
    → read_live s.live ≡ ok live
    → is_held_back (gate_of_marker files run agent rid a s found) ≡ is_there found
marker-held files run agent rid a s live (some held) l = refl
marker-held files run agent rid a s live none l =
    ap
      (λ m.
        is_held_back (
          m >>= λ x.
          gate_of_slot files run agent a (find_slot x.active_runs rid) (ledger_of s rid)))
      l
    ∙ gate_of_slot-never_held files run agent a (find_slot live.active_runs rid) (ledger_of s rid)

-- In a session that transitions have led to, the gate refuses a step for a block of a worker's
-- boundary just where the last verdict of the run's ledger is such a block, whatever agent, mode or
-- candidate the step has: it lets no step start between the block and its acceptance, and refuses
-- none for a block that was accepted. The names of the session and the run are valid, and live.json
-- and the run's ledger can be read.
pub evaluate_order_gate-held :
    (files : Files) (run : RunFiles) (sid rid : Text) (a : GateArgs) (s : Session) (live : Live)
    (es : List Event)
    → IsReached files sid s
    → matches_run_id rid ≡ true
    → valid_session_id sid ≡ true
    → read_live s.live ≡ ok live
    → read_events files (ledger_of s rid) ≡ ok es
    → is_held_back (evaluate_order_gate_for_step files run sid rid a s) ≡ is_open (last_verdict es)
evaluate_order_gate-held files run sid rid a s live es reached h k l readable =
    ap is_held_back (evaluate-valid files run sid rid a s h k)
    ∙ marker-held files run (canonical_agent a.agent) rid a s live _ l
    ∙ ap (λ m. is_there (boundary_block_marker files (slot_in m rid) (ledger_of s rid))) l
    ∙ boundary_block_marker-is_open files sid rid s live es reached l readable

-- A validated candidate has no identity, or the requested one is the same.
abbrev IsMatched : Candidate → Candidate → Type 0
IsMatched r v =
    (has_identity v ≡ false)
    ⊎ ((is_complete r ≡ true)
        × (r.head ≡ v.head)
        × (r.tree ≡ v.tree)
        × (truthy v.root ≡ true)
        × (r.root ≡ v.root))

same_text-eq : (a b : Option Text) → same_text a b ≡ true → a ≡ b
same_text-eq none none h = refl
same_text-eq (some x) (some y) h = ap some ((text_eq.same_iff x y).0 h)
same_text-eq none (some y) h = ground arith
same_text-eq (some x) none h = ground arith

no_refusal :
    (i c p q t u w : Bool)
    → (if i && (not c || not (p && q))
        then some Refusal.other_candidate
        else if i && not t
        then some Refusal.root_missing
        else if t && (not u || not w)
        then some Refusal.other_root
        else none)
      ≡ none
    → i ≡ true
    → (c ≡ true) × (p ≡ true) × (q ≡ true) × (t ≡ true) × (w ≡ true)
no_refusal i c p q t u w h k = ground arith

candidate_refusal-none : (r v : Candidate) → candidate_refusal r v ≡ none → IsMatched r v
unfolding candidate_refusal
candidate_refusal-none r v h = elim (Bool-cases (has_identity v)) [
  | inr i ↦ inl i
  | inl i ↦
      let (c, p, q, t, w) =
        no_refusal (has_identity v) (is_complete r) (same_text r.head v.head)
          (same_text r.tree v.tree) (truthy v.root) (truthy r.root) (same_text r.root v.root) h i in
      inr (
        c,
        same_text-eq r.head v.head p,
        same_text-eq r.tree v.tree q,
        t,
        same_text-eq r.root v.root w,
      )
]

validator_refusal-none :
    (files : Files) (run : RunFiles) (r : Candidate) (found : Option Event)
    → validator_refusal files run r found ≡ none
    → (e : Event) × (found ≡ some e)
      × (files.conclusion (run.read e.prose_file) == codes "PASS" ≡ true)
      × IsMatched r (of_event e)
validator_refusal-none files run r none h = ground arith
validator_refusal-none files run r (some e) h =
    passed (files.conclusion (run.read e.prose_file) == codes "PASS") refl h
  where
    passed :
        (b : Bool)
        → (files.conclusion (run.read e.prose_file) == codes "PASS") ≡ b
        → (if b then candidate_refusal r (of_event e) else some Refusal.validator_not_passed) ≡ none
        → (x : Event) × (some e ≡ some x)
          × (files.conclusion (run.read x.prose_file) == codes "PASS" ≡ true)
          × IsMatched r (of_event x)
    passed true q k = (e, refl, q, candidate_refusal-none r (of_event e) k)
    passed false q k = ground arith

or_else-none : (r other : Option Refusal) → or_else r other ≡ none → r ≡ none
or_else-none none other h = refl
or_else-none (some r) other h = ground arith

-- What lets an acceptance begin: the newest completion of the validator is there, its prose
-- concludes in PASS, and the candidate that it names is the one that is asked for.
abbrev pub IsValidated : Files → RunFiles → (requested : Candidate) → Ledger → Type 0
IsValidated files run r ledger =
    (steps : List Event) × (e : Event) × (read_step_completed files ledger ≡ ok steps)
    × (last_validator steps ≡ some e)
    × (files.conclusion (run.read e.prose_file) == codes "PASS" ≡ true)
    × IsMatched r (of_event e)

acceptance_gate-none :
    (files : Files) (run : RunFiles) (r : Candidate) (ledger : Ledger) (other : Option Refusal)
    → (acceptance_gate files run r ledger >>= λ refusal. ok (or_else refusal other)) ≡ ok none
    → IsValidated files run r ledger
acceptance_gate-none files run r ledger other h =
    let (refusal, m, k) = bind-ok (acceptance_gate files run r ledger) _ none h in
    let (steps, readable, n) = bind-ok (read_step_completed files ledger) _ refusal m in
    let nothing = ok_injective _ _ n ∙ or_else-none refusal other (ok_injective _ _ k) in
    let (e, found, passed, matched) =
      validator_refusal-none files run r (last_validator steps) nothing in
    (steps, e, readable, found, passed, matched)

gate_of_slot-none :
    (files : Files) (run : RunFiles) (agent : Text) (a : GateArgs) (slot : Option Slot)
    (ledger : Ledger)
    → is_acceptance agent a slot ≡ true
    → gate_of_slot files run agent a slot ledger ≡ ok none
    → IsValidated files run (requested agent a slot) ledger
unfolding gate_of_slot
gate_of_slot-none files run agent a slot ledger k h =
    let other = worker_refusal run agent slot in
    acceptance_gate-none files run (requested agent a slot) ledger other (
      sym (
        ap
          (λ b.
            (if b then acceptance_gate files run (requested agent a slot) ledger else ok none)
            >>= λ refusal. ok (or_else refusal other))
          k)
      ∙ h)

marker-none :
    (files : Files) (run : RunFiles) (agent rid : Text) (a : GateArgs) (s : Session) (live : Live)
    (found : Option Held)
    → read_live s.live ≡ ok live
    → gate_of_marker files run agent rid a s found ≡ ok none
    → gate_of_slot files run agent a (find_slot live.active_runs rid) (ledger_of s rid) ≡ ok none
marker-none files run agent rid a s live (some held) l h = ground arith
marker-none files run agent rid a s live none l h =
    sym (
      ap
        (λ m.
          m >>= λ x. gate_of_slot files run agent a (find_slot x.active_runs rid) (ledger_of s rid))
        l)
    ∙ h

-- Where the gate lets the acceptance of a story or an epic start in a run that must be accepted, the
-- run's ledger can be read, its newest completion of the holistic validator has a prose that
-- concludes in PASS, and, where that completion names a frozen candidate, the one that is asked for
-- has the same head, tree and workspace. The names of the session and the run are valid, and
-- live.json can be read.
pub evaluate_order_gate-IsValidated :
    (files : Files) (run : RunFiles) (sid rid : Text) (a : GateArgs) (s : Session) (live : Live)
    → matches_run_id rid ≡ true
    → valid_session_id sid ≡ true
    → read_live s.live ≡ ok live
    → is_acceptance (canonical_agent a.agent) a (find_slot live.active_runs rid) ≡ true
    → evaluate_order_gate_for_step files run sid rid a s ≡ ok none
    → IsValidated files run
        (requested (canonical_agent a.agent) a (find_slot live.active_runs rid))
        (ledger_of s rid)
evaluate_order_gate-IsValidated files run sid rid a s live h k l acceptance e =
    gate_of_slot-none files run (canonical_agent a.agent) a (find_slot live.active_runs rid)
      (ledger_of s rid) acceptance
      (marker-none files run (canonical_agent a.agent) rid a s live _ l
        (sym (evaluate-valid files run sid rid a s h k) ∙ e))
