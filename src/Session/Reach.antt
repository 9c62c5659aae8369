-- ===== src/Session/Reach.antt =====
-- harness/session_state.py, the histories of a session: the blocks of its runs in live.json and in
-- their ledgers.
use dc_ness.Base.{
  ℕ, Text, text_eq, Bool, true, false, Option, none, some, List, [], ◌++◌, if◌then◌else◌, ◌==◌, ◌≡◌,
  ◌⊎◌, inl, inr, refl, sym, ap, ◌∙◌, arith, subst, Bool-cases, length, nat_beq, ◌-◌, is_there,
}
use dc_ness.Base.Dict.{lookup, IsUnique, put-IsUnique}
use dc_ness.Session.Records.{Slot, Block, Event, events, ok, Files, Live, LiveFile}
use dc_ness.Session.Runs.{
  Runs, Outcome, Effect, find_slot, block_in, last_verdict, boundary_block_marker, held_by_block,
  held_by_ledger, held_by_verdict, Verdict, Held, open_block, accepted, silent, read_events,
  worker_boundary,
}
use dc_ness.Session.Runtime.{clean_stale_runs, set_active_agent, mark_post_task}
use dc_ness.Session.Transition.{
  Session, Action, LiveAction, run, step, runtime, initialize, active_agent, post_task, clean,
  whole, on_live, read_live, transition, ledger_of, append_events, commit, apply_live_action,
  is_missing, given_live, written_live,
}
use dc_ness.Session.Effects.{block_at}
use dc_ness.Session.Blocks.{IsSound, IsWritten, Agrees, holds, is_open}
use dc_ness.Session.Replay.{runs_after, ok_injective, read_events-events}
use dc_ness.Session.Again.{ledger_of-append}
use dc_ness.Session.Clean.{clean-find_slot, clean-IsUnique}
use dc_ness.Session.History.{
  IsAfter, same, changed, on_live-IsAfter, transition-keeps, read_live-commit, written-elsewhere,
  append_ledger-elsewhere,
}

-- The sessions that transitions lead to, at any moments, from one that has no file yet.
pub data IsReached (files : Files) (sid : Text) : Session → Type 0 where
  fresh : IsReached files sid (record { live = LiveFile.missing; ledgers = [] })
  after :
      (now : ℕ) (action : Action) (s : Session)
      → IsReached files sid s
      → IsReached files sid (transition files now sid action s).0

-- The ledger of a run is a list of events that holds the run where its slot does.
abbrev RunAgrees : Runs → Session → Text → Type 0
RunAgrees active s rid =
    (es : List Event) × (ledger_of s rid ≡ events es) × Agrees (block_at active rid) es

abbrev IsConsistent : Session → Type 0
IsConsistent s =
    (live : Live)
    → read_live s.live ≡ ok live
    → IsUnique live.active_runs × ((rid : Text) → RunAgrees live.active_runs s rid)

written-IsUnique :
    (rid : Text) (active : Runs) (w : Option Runs)
    → IsUnique active
    → IsWritten rid active w
    → IsUnique (runs_after active w)
written-IsUnique rid active none u h = u
written-IsUnique rid active (some w) u (slot, here) =
    subst IsUnique (sym here) (put-IsUnique rid (some slot) active u)

commit-here :
    (rid : Text) (live : Live) (effect : Effect) (s : Session)
    → IsSound rid live.active_runs effect
    → RunAgrees live.active_runs s rid
    → RunAgrees (runs_after live.active_runs effect.active) (commit rid live effect s) rid
unfolding commit
commit-here rid live effect s sound (es, l, agrees) = (
  es ++ effect.appended,
  ledger_of-append rid effect.appended s (written_live live effect.active s.live)
      ∙ ap (λ y. append_events y effect.appended) l,
  sound.agrees es agrees,
)

commit-elsewhere :
    (rid j : Text) (live : Live) (effect : Effect) (s : Session)
    → rid == j ≡ false
    → IsSound rid live.active_runs effect
    → RunAgrees live.active_runs s j
    → RunAgrees (runs_after live.active_runs effect.active) (commit rid live effect s) j
unfolding commit
commit-elsewhere rid j live effect s ne sound (es, l, agrees) = (
  es,
  append_ledger-elsewhere rid j effect.appended s (written_live live effect.active s.live) ne ∙ l,
  subst (λ b. Agrees b es)
      (sym (ap block_in (written-elsewhere rid j live.active_runs effect.active ne sound.written)))
      agrees,
)

commit-RunAgrees :
    (rid j : Text) (live : Live) (effect : Effect) (s : Session)
    → IsSound rid live.active_runs effect
    → ((i : Text) → RunAgrees live.active_runs s i)
    → RunAgrees (runs_after live.active_runs effect.active) (commit rid live effect s) j
commit-RunAgrees rid j live effect s sound h = elim (Bool-cases (rid == j)) [
  | inl eq ↦
      subst (RunAgrees (runs_after live.active_runs effect.active) (commit rid live effect s))
        ((text_eq.same_iff rid j).0 eq) (commit-here rid live effect s sound (h rid))
  | inr ne ↦ commit-elsewhere rid j live effect s ne sound (h j)
]

IsAfter-IsConsistent :
    (rid : Text) (s s1 : Session) → IsAfter rid s s1 → IsConsistent s → IsConsistent s1
IsAfter-IsConsistent rid s s1 same h = h
IsAfter-IsConsistent rid s s1 (changed old effect o sound) h = λ live l.
    subst (λ active. IsUnique active × ((j : Text) → RunAgrees active (commit rid old effect s) j))
      (sym (read_live-commit rid old live effect s o l))
      (
        written-IsUnique rid old.active_runs effect.active (h old o).0 sound.written,
        λ j. commit-RunAgrees rid j old effect s sound (h old o).1,
      )

-- Runs of which each one is as it was or is gone.
abbrev IsLeft : Runs → Runs → Type 0
IsLeft old active =
    (rid : Text) → (find_slot active rid ≡ find_slot old rid) ⊎ (find_slot active rid ≡ none)

Agrees-left :
    (found old : Option Slot) (es : List Event)
    → (found ≡ old) ⊎ (found ≡ none)
    → Agrees (block_in old) es
    → Agrees (block_in found) es
Agrees-left found old es (inl e) h = subst (λ o. Agrees (block_in o) es) (sym e) h
Agrees-left found old es (inr e) h =
    subst (λ o. Agrees (block_in o) es) (sym e) λ held. ground arith

rewritten-IsConsistent :
    (live live1 : Live) (s : Session)
    → read_live s.live ≡ ok live
    → IsUnique live1.active_runs
    → IsLeft live.active_runs live1.active_runs
    → IsConsistent s
    → IsConsistent (record s { live = LiveFile.live_doc live1 })
unfolding ledger_of
rewritten-IsConsistent live live1 s l u left h = λ live2 m.
    let (_, runs) = h live l in
    subst
      (λ x.
        IsUnique x.active_runs
        × ((rid : Text)
            → RunAgrees x.active_runs (record s { live = LiveFile.live_doc live1 }) rid))
      (ok_injective _ _ m)
      (
        u,
        λ rid.
            let (es, e, agrees) = runs rid in
            (
              es,
              e,
              Agrees-left (find_slot live1.active_runs rid) (find_slot live.active_runs rid) es
                  (left rid) agrees,
            ),
      )

-- An action on the whole session.
given-IsConsistent :
    (live live1 : Live) (b : Bool) (s : Session)
    → read_live s.live ≡ ok live
    → IsUnique live1.active_runs
    → IsLeft live.active_runs live1.active_runs
    → IsConsistent s
    → IsConsistent (record s { live = given_live (if b then some live1 else none) s.live })
given-IsConsistent live live1 true s l u left h = rewritten-IsConsistent live live1 s l u left h
given-IsConsistent live live1 false s l u left h = h

left-or-given :
    (live live1 : Live) (b : Bool) (o o1 : Outcome) (s : Session)
    → read_live s.live ≡ ok live
    → IsUnique live1.active_runs
    → IsLeft live.active_runs live1.active_runs
    → IsConsistent s
    → IsConsistent (record s {
      live =
          given_live
            (if◌then◌else◌ {A = Option Live × Outcome} b (none, o) (some live1, o1)).0
            s.live;
    })
left-or-given live live1 true o o1 s l u left h = h
left-or-given live live1 false o o1 s l u left h = rewritten-IsConsistent live live1 s l u left h

set_active_agent-runs :
    (agent mode : Option Text) (live : Live)
    → (set_active_agent agent mode live).active_runs ≡ live.active_runs
unfolding set_active_agent
set_active_agent-runs agent mode live = ground arith

whole-IsConsistent :
    (files : Files) (now : ℕ) (action : LiveAction) (live : Live) (s : Session)
    → read_live s.live ≡ ok live
    → IsConsistent s
    → IsConsistent (on_live files now (whole action) live s).0
unfolding apply_live_action mark_post_task
whole-IsConsistent files now initialize live s l h =
    given-IsConsistent live live (is_missing s.live) s l (h live l).0 (λ rid. inl refl) h
whole-IsConsistent files now (active_agent agent mode) live s l h =
    let e = set_active_agent-runs agent mode live in
    rewritten-IsConsistent live (set_active_agent agent mode live) s l
      (subst IsUnique (sym e) (h live l).0) (λ rid. inl (ap (λ d. find_slot d rid) e)) h
whole-IsConsistent files now (post_task reason) live s l h =
    rewritten-IsConsistent live (mark_post_task now reason live) s l (h live l).0 (λ rid. inl refl)
      h
whole-IsConsistent files now (clean ttl) live s l h =
    let runs = clean_stale_runs now ttl live.active_runs in
    let removed = length live.active_runs - length runs in
    left-or-given live (record live { active_runs = runs }) (nat_beq removed 0) (Outcome.count 0)
      (Outcome.count removed) s l (clean-IsUnique now ttl live.active_runs (h live l).0)
      (λ rid. clean-find_slot now ttl live.active_runs rid (h live l).0) h

action-IsConsistent :
    (files : Files) (now : ℕ) (action : Action) (live : Live) (s : Session)
    → read_live s.live ≡ ok live
    → IsConsistent s
    → IsConsistent (on_live files now action live s).0
action-IsConsistent files now (run rid a) live s l h =
    IsAfter-IsConsistent rid s _ (on_live-IsAfter files now rid (run rid a) live s refl l) h
action-IsConsistent files now (step rid a) live s l h =
    IsAfter-IsConsistent rid s _ (on_live-IsAfter files now rid (step rid a) live s refl l) h
action-IsConsistent files now (runtime rid a) live s l h =
    IsAfter-IsConsistent rid s _ (on_live-IsAfter files now rid (runtime rid a) live s refl l) h
action-IsConsistent files now (whole a) live s l h = whole-IsConsistent files now a live s l h

IsReached-IsConsistent :
    (files : Files) (sid : Text) (s : Session) → IsReached files sid s → IsConsistent s
unfolding ledger_of lookup find_slot
IsReached-IsConsistent files sid s fresh = λ live l.
    subst
      (λ x.
        IsUnique x.active_runs
        × ((rid : Text)
            → RunAgrees x.active_runs (record { live = LiveFile.missing; ledgers = [] }) rid))
      (ok_injective _ _ l) (tt, λ rid. ([], refl, λ held. ground arith))
IsReached-IsConsistent files sid s1 (after now action s r) =
    transition-keeps IsConsistent files now sid action s (IsReached-IsConsistent files sid s r)
      λ live l. action-IsConsistent files now action live s l (IsReached-IsConsistent files sid s r)

-- The marker of a run is there just where the ledger's last verdict is open.
verdict-is_there : (v : Verdict) → is_there (held_by_verdict v) ≡ is_open v
verdict-is_there silent = refl
verdict-is_there accepted = refl
verdict-is_there (open_block e) = refl

held-is_there :
    (b : Bool) (x : Held) (v : Verdict)
    → (b ≡ true → is_open v ≡ true)
    → is_there (if b then some x else held_by_verdict v) ≡ is_open v
held-is_there true x v h = sym (h refl)
held-is_there false x v h = verdict-is_there v

marker-is_open :
    (found : Option Block) (v : Verdict)
    → (holds found ≡ true → is_open v ≡ true)
    → is_there (held_by_block found (held_by_verdict v)) ≡ is_open v
marker-is_open none v h = verdict-is_there v
marker-is_open (some b) v h =
    held-is_there (b.category == worker_boundary)
      (record { reason = b.reason; raw_log = b.raw_log }) v h

-- In a session that transitions have led to, a run is held by a block of a worker's boundary just
-- where the last verdict of its ledger is such a block, whatever has overwritten or removed the
-- marker in the run's slot; live.json and the run's ledger can be read.
pub boundary_block_marker-is_open :
    (files : Files) (sid rid : Text) (s : Session) (live : Live) (es : List Event)
    → IsReached files sid s
    → read_live s.live ≡ ok live
    → read_events files (ledger_of s rid) ≡ ok es
    → is_there (boundary_block_marker files (find_slot live.active_runs rid) (ledger_of s rid))
      ≡ is_open (last_verdict es)
unfolding boundary_block_marker
boundary_block_marker-is_open files sid rid s live es r l readable =
    let (_, runs) = IsReached-IsConsistent files sid s r live l in
    let (fs, e, agrees) = runs rid in
    let same_events = read_events-events files fs es (ap (read_events files) (sym e) ∙ readable) in
    ap (λ m. is_there (held_by_block (block_at live.active_runs rid) (held_by_ledger m))) readable
    ∙ marker-is_open (block_at live.active_runs rid) (last_verdict es)
        (subst (Agrees (block_at live.active_runs rid)) same_events agrees)
