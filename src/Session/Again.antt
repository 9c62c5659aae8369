-- ===== src/Session/Again.antt =====
-- harness/session_state.py, transition: a strict completion that is sent again.
use dc_ness.Base.{
  ℕ, Text, text_eq, true, Option, none, some, List, [], ◌∷◌, if◌then◌else◌, ◌≡◌, refl, sym, ap, ◌∙◌,
  arith, subst, append-nil,
}
use dc_ness.Base.Dict.{lookup, lookup-put}
use dc_ness.Session.Names.{valid_session_id}
use dc_ness.Session.Records.{
  Event, Ledger, events, unreadable, Result, ok, err, Files, truthy, Live, LiveFile,
}
use dc_ness.Session.Runs.{Runs, Outcome, Effect, read_events}
use dc_ness.Session.Steps.{StepArgs, step_complete, apply_step_transition}
use dc_ness.Session.Transition.{
  Session, Action, step, run_of, has_valid_run, on_read, read_live, transition, ledger_of,
  ledger_in, append_ledger, append_events, commit, committed, written_live, on_live,
}
use dc_ness.Session.Replay.{complete_transition-again, runs_after, ok_injective}

-- A transition that returns has passed the checks of its names.
transition-ok :
    (files : Files) (now : ℕ) (sid : Text) (action : Action) (s s1 : Session) (o : Outcome)
    → transition files now sid action s ≡ (s1, ok o)
    → (valid_session_id sid ≡ true)
      × (has_valid_run (run_of action) ≡ true)
      × (on_read files now action s (read_live s.live) ≡ (s1, ok o))
unfolding transition
transition-ok files now sid action s s1 o h = ground arith

transition-valid :
    (files : Files) (now : ℕ) (sid : Text) (action : Action) (s : Session)
    → valid_session_id sid ≡ true
    → has_valid_run (run_of action) ≡ true
    → transition files now sid action s ≡ on_read files now action s (read_live s.live)
unfolding transition
transition-valid files now sid action s v w = rw v rw w refl

append_events-nil : (ledger : Ledger) → append_events ledger [] ≡ ledger
append_events-nil unreadable = refl
append_events-nil (events es) = ap events (append-nil es)

-- The ledger of the run that was written.
pub ledger_of-append :
    (rid : Text) (es : List Event) (s : Session) (live : LiveFile)
    → ledger_of (record { live = live; ledgers = append_ledger rid es s }) rid
      ≡ append_events (ledger_of s rid) es
unfolding ledger_of append_ledger
ledger_of-append rid [] s live = sym (append_events-nil (ledger_of s rid))
ledger_of-append rid (e ∷ es) s live = ap ledger_in (
    lookup-put rid rid (append_events (ledger_of s rid) (e ∷ es)) s.ledgers
    ∙ ap (λ b. if b then some (append_events (ledger_of s rid) (e ∷ es)) else lookup rid s.ledgers)
        ((text_eq.same_iff rid rid).1 refl))

pub read_live-written :
    (live : Live) (old : LiveFile) (active : Option Runs)
    → read_live old ≡ ok live
    → read_live (written_live live active old)
      ≡ ok (record live { active_runs = runs_after live.active_runs active })
read_live-written live old none h = h
read_live-written live old (some active) h = refl

read_live-cases :
    (files : Files) (now : ℕ) (action : Action) (s s1 : Session) (o : Outcome) (m : Result Live)
    → on_read files now action s m ≡ (s1, ok o)
    → (live : Live) × (m ≡ ok live) × (on_live files now action live s ≡ (s1, ok o))
read_live-cases files now action s s1 o (ok live) h = (live, refl, h)
read_live-cases files now action s s1 o (err e) h = ground arith

committed-ok :
    (rid : Text) (live : Live) (s s1 : Session) (o : Outcome) (m : Result Effect)
    → committed rid live s m ≡ (s1, ok o)
    → (effect : Effect) × (m ≡ ok effect) × (s1 ≡ commit rid live effect s) × (o ≡ effect.outcome)
committed-ok rid live s s1 o (ok effect) h =
    (effect, refl, sym (ap (λ q. q.0) h), ok_injective _ _ (sym (ap (λ q. q.1) h)))
committed-ok rid live s s1 o (err e) h = ground arith

step-again :
    (files : Files) (now later : ℕ) (rid : Text) (a : StepArgs) (live : Live) (s : Session)
    (effect : Effect) (fs : List Event)
    → a.strict_identity ≡ true
    → truthy a.tool_use_id ≡ true
    → read_live s.live ≡ ok live
    → apply_step_transition files now rid (step_complete a) live.active_runs (ledger_of s rid)
      ≡ ok effect
    → read_events files (ledger_of (commit rid live effect s) rid) ≡ ok fs
    → on_read files later
        (step rid (step_complete a))
        (commit rid live effect s)
        (read_live (commit rid live effect s).live)
      ≡ (commit rid live effect s, ok effect.outcome)
unfolding commit
step-again files now later rid a live s effect fs h k l e r =
    let s1 = commit rid live effect s in
    let live1 : Live = record live { active_runs = runs_after live.active_runs effect.active } in
    let same = ledger_of-append rid effect.appended s s1.live in
    ap (on_read files later (step rid (step_complete a)) s1)
      (read_live-written live s.live effect.active l)
    ∙ ap
        (λ ledger.
          committed rid live1 s1
            (apply_step_transition files later rid (step_complete a) live1.active_runs ledger))
        same
    ∙ ap (committed rid live1 s1) (
        complete_transition-again files now later rid a live.active_runs (ledger_of s rid) effect fs
          h k e (ap (read_events files) (sym same) ∙ r))

-- A strict completion that carries the identity of its call, and that has returned, returns the
-- same result when the next transition of the session is that completion again, at whatever moment,
-- and changes nothing: where the run's ledger can be read then, no second receipt is appended.
pub transition-again :
    (files : Files) (now later : ℕ) (sid rid : Text) (a : StepArgs) (s s1 : Session) (o : Outcome)
    (fs : List Event)
    → a.strict_identity ≡ true
    → truthy a.tool_use_id ≡ true
    → transition files now sid (step rid (step_complete a)) s ≡ (s1, ok o)
    → read_events files (ledger_of s1 rid) ≡ ok fs
    → transition files later sid (step rid (step_complete a)) s1 ≡ (s1, ok o)
transition-again files now later sid rid a s s1 o fs h k e r =
    let action = step rid (step_complete a) in
    let (v, w, e1) = transition-ok files now sid action s s1 o e in
    let (live, l, e2) = read_live-cases files now action s s1 o (read_live s.live) e1 in
    let (effect, m, here, same) = committed-ok rid live s s1 o _ e2 in
    transition-valid files later sid action s1 v w
    ∙ subst (λ t. on_read files later action t (read_live t.live) ≡ (t, ok o)) (sym here)
        (subst
          (λ y.
            on_read files later action (commit rid live effect s)
              (read_live (commit rid live effect s).live)
            ≡ (commit rid live effect s, ok y))
          (sym same)
          (step-again files now later rid a live s effect fs h k l m
            (ap (λ t. read_events files (ledger_of t rid)) (sym here) ∙ r)))
