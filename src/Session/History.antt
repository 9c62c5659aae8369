-- ===== src/Session/History.antt =====
-- harness/session_state.py, transition: what one transition leaves of a session, of the run that it is
-- about and of the others.
use dc_ness.Base.{
  ℕ, Text, text_eq, Bool, true, false, not, Option, none, some, List, [], ◌∷◌, if◌then◌else◌, ◌==◌,
  ◌≡◌, refl, sym, ap, ◌∙◌, arith, subst,
}
use dc_ness.Base.Dict.{lookup, lookup-put}
use dc_ness.Session.Names.{valid_session_id}
use dc_ness.Session.Records.{Event, Result, ok, err, Files, Live, LiveFile}
use dc_ness.Session.Runs.{Runs, Outcome, Effect, find_slot}
use dc_ness.Session.Transition.{
  Session, Action, run, step, runtime, whole, run_of, has_valid_run, on_read, on_live, read_live,
  transition, ledger_of, ledger_in, append_ledger, append_events, commit, committed, written_live,
}
use dc_ness.Session.Effects.{AllOk}
use dc_ness.Session.Blocks.{
  IsSound, IsWritten, find_slot-put, run-IsSound, step-IsSound, runtime-IsSound,
}
use dc_ness.Session.Replay.{runs_after, ok_injective}
use dc_ness.Session.Again.{read_live-written}

-- The session after a transition on a run: as it was, or with the effect of the transition.
pub data IsAfter (rid : Text) (s : Session) : Session → Type 0 where
  same : IsAfter rid s s
  changed :
      (live : Live) (effect : Effect)
      → read_live s.live ≡ ok live
      → IsSound rid live.active_runs effect
      → IsAfter rid s (commit rid live effect s)

committed-IsAfter :
    (rid : Text) (live : Live) (s : Session) (m : Result Effect)
    → read_live s.live ≡ ok live
    → AllOk (IsSound rid live.active_runs) m
    → IsAfter rid s (committed rid live s m).0
committed-IsAfter rid live s (ok effect) l h = changed live effect l h
committed-IsAfter rid live s (err e) l h = same

some_injective : (j rid : Text) → some j ≡ some rid → j ≡ rid
some_injective j rid h = ground arith

pub on_live-IsAfter :
    (files : Files) (now : ℕ) (rid : Text) (action : Action) (live : Live) (s : Session)
    → run_of action ≡ some rid
    → read_live s.live ≡ ok live
    → IsAfter rid s (on_live files now action live s).0
on_live-IsAfter files now rid (run j a) live s h l =
    subst (λ i. IsAfter i s (on_live files now (run j a) live s).0) (some_injective j rid h)
      (committed-IsAfter j live s _ l (run-IsSound files now j a live.active_runs (ledger_of s j)))
on_live-IsAfter files now rid (step j a) live s h l =
    subst (λ i. IsAfter i s (on_live files now (step j a) live s).0) (some_injective j rid h)
      (committed-IsAfter j live s _ l (step-IsSound files now j a live.active_runs (ledger_of s j)))
on_live-IsAfter files now rid (runtime j a) live s h l =
    subst (λ i. IsAfter i s (on_live files now (runtime j a) live s).0) (some_injective j rid h)
      (committed-IsAfter j live s _ l (runtime-IsSound now j a live.active_runs))
on_live-IsAfter files now rid (whole a) live s h l = ground arith

on_read-keeps :
    (P : Session → Type 0) (files : Files) (now : ℕ) (action : Action) (s : Session)
    (m : Result Live)
    → P s
    → ((live : Live) → m ≡ ok live → P (on_live files now action live s).0)
    → P (on_read files now action s m).0
on_read-keeps P files now action s (ok live) h k = k live refl
on_read-keeps P files now action s (err e) h k = h

if-keeps :
    (P : Session → Type 0) (b : Bool) (x y : Session × Result Outcome)
    → P x.0
    → P y.0
    → P (if b then x else y).0
if-keeps P true x y h k = h
if-keeps P false x y h k = k

-- What holds of the session that is left and of the one that is written.
pub transition-keeps :
    (P : Session → Type 0) (files : Files) (now : ℕ) (sid : Text) (action : Action) (s : Session)
    → P s
    → ((live : Live) → read_live s.live ≡ ok live → P (on_live files now action live s).0)
    → P (transition files now sid action s).0
unfolding transition
transition-keeps P files now sid action s h k = if-keeps P (not (valid_session_id sid)) _ _ h (
    if-keeps P (not (has_valid_run (run_of action))) _ _ h
      (on_read-keeps P files now action s (read_live s.live) h k))

transition-IsAfter :
    (files : Files) (now : ℕ) (sid rid : Text) (action : Action) (s : Session)
    → run_of action ≡ some rid
    → IsAfter rid s (transition files now sid action s).0
transition-IsAfter files now sid rid action s h =
    transition-keeps (IsAfter rid s) files now sid action s same
      λ live l. on_live-IsAfter files now rid action live s h l

-- The other runs
pub written-elsewhere :
    (rid j : Text) (active : Runs) (w : Option Runs)
    → rid == j ≡ false
    → IsWritten rid active w
    → find_slot (runs_after active w) j ≡ find_slot active j
written-elsewhere rid j active none ne h = refl
written-elsewhere rid j active (some w) ne (slot, here) =
    ap (λ d. find_slot d j) here
    ∙ find_slot-put rid j slot active
    ∙ ap (λ b. if b then some slot else find_slot active j) ne

pub append_ledger-elsewhere :
    (rid j : Text) (es : List Event) (s : Session) (live : LiveFile)
    → rid == j ≡ false
    → ledger_of (record { live = live; ledgers = append_ledger rid es s }) j ≡ ledger_of s j
unfolding ledger_of append_ledger
append_ledger-elsewhere rid j [] s live ne = refl
append_ledger-elsewhere rid j (e ∷ es) s live ne = ap ledger_in (
    lookup-put rid j (append_events (ledger_of s rid) (e ∷ es)) s.ledgers
    ∙ ap (λ b. if b then some (append_events (ledger_of s rid) (e ∷ es)) else lookup j s.ledgers)
        ne)

-- The runs of the session that an effect leaves.
pub read_live-commit :
    (rid : Text) (live live1 : Live) (effect : Effect) (s : Session)
    → read_live s.live ≡ ok live
    → read_live (commit rid live effect s).live ≡ ok live1
    → live1.active_runs ≡ runs_after live.active_runs effect.active
unfolding commit
read_live-commit rid live live1 effect s l m =
    ap (λ x. x.active_runs)
      (ok_injective _ _ (sym m ∙ read_live-written live s.live effect.active l))

IsAfter-elsewhere :
    (rid j : Text) (s s1 : Session) (live live1 : Live)
    → IsAfter rid s s1
    → rid == j ≡ false
    → read_live s.live ≡ ok live
    → read_live s1.live ≡ ok live1
    → (ledger_of s1 j ≡ ledger_of s j)
      × (find_slot live1.active_runs j ≡ find_slot live.active_runs j)
unfolding commit
IsAfter-elsewhere rid j s s1 live live1 same ne l m =
    (refl, ap (λ x. find_slot x.active_runs j) (ok_injective _ _ (sym m ∙ l)))
IsAfter-elsewhere rid j s s1 live live1 (changed old effect o sound) ne l m = (
  append_ledger-elsewhere rid j effect.appended s (written_live old effect.active s.live) ne,
  ap (λ d. find_slot d j) (read_live-commit rid old live1 effect s o m)
      ∙ written-elsewhere rid j old.active_runs effect.active ne sound.written
      ∙ ap (λ x. find_slot x.active_runs j) (ok_injective _ _ (sym o ∙ l)),
)

-- A transition on one run leaves the slot and the ledger of every other run as they were, whatever
-- it returns, where live.json can be read before it and after it.
pub transition-elsewhere :
    (files : Files) (now : ℕ) (sid rid j : Text) (action : Action) (s : Session) (live live1 : Live)
    → run_of action ≡ some rid
    → rid == j ≡ false
    → read_live s.live ≡ ok live
    → read_live (transition files now sid action s).0.live ≡ ok live1
    → (ledger_of (transition files now sid action s).0 j ≡ ledger_of s j)
      × (find_slot live1.active_runs j ≡ find_slot live.active_runs j)
transition-elsewhere files now sid rid j action s live live1 h ne l m =
    IsAfter-elsewhere rid j s (transition files now sid action s).0 live live1
      (transition-IsAfter files now sid rid action s h) ne l m
