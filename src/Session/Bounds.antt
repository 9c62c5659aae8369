-- ===== src/Session/Bounds.antt =====
-- harness/session_state.py, the markers of finished tasks in a session's live.json.
use dc_ness.Base.{
  ℕ, zero, suc, ◌-◌, ◌≤◌, Text, Bool, true, false, Option, none, some, List, [], ◌∷◌, if◌then◌else◌,
  ◌≡◌, ◌++◌, refl, sym, ◌∙◌, arith, subst, length, drop, nat_beq,
}
use dc_ness.Session.Records.{Live, LiveFile, ok, Files}
use dc_ness.Session.Runs.{Outcome}
use dc_ness.Session.Runtime.{last_n, mark_post_task, set_active_agent, clean_stale_runs}
use dc_ness.Session.Transition.{
  Session, Action, LiveAction, initialize, active_agent, post_task, clean, run, step, runtime,
  whole, on_live, read_live, commit, apply_live_action, is_missing, given_live,
}
use dc_ness.Session.Replay.{ok_injective}
use dc_ness.Session.Again.{read_live-written}
use dc_ness.Session.History.{IsAfter, same, changed, on_live-IsAfter, transition-keeps}
use dc_ness.Session.Reach.{IsReached, fresh, after}

length-drop {ℓ} : {A : Type ℓ} (n : ℕ) (xs : List A) → length (drop n xs) ≡ length xs - n
length-drop zero [] = refl
length-drop zero (x ∷ xs) = omega arith
length-drop (suc n) [] = omega arith
length-drop (suc n) (x ∷ xs) = omega (arith, length-drop n xs)

-- No more than that many are left of a list.
last_n-length {ℓ} : {A : Type ℓ} (n : ℕ) (xs : List A) → length (last_n n xs) ≤ n
last_n-length n xs = omega (arith, length-drop (length xs - n) xs)

abbrev FileIsBounded : LiveFile → Type 0
FileIsBounded file = (live : Live) → read_live file ≡ ok live → length live.post_task_markers ≤ 20

abbrev IsBounded : Session → Type 0
IsBounded s = FileIsBounded s.live

doc-IsBounded :
    (live : Live) → length live.post_task_markers ≤ 20 → FileIsBounded (LiveFile.live_doc live)
doc-IsBounded live h = λ x l. subst (λ y. length y.post_task_markers ≤ 20) (ok_injective _ _ l) h

IsAfter-IsBounded : (rid : Text) (s s1 : Session) → IsAfter rid s s1 → IsBounded s → IsBounded s1
unfolding commit
IsAfter-IsBounded rid s s1 same h = h
IsAfter-IsBounded rid s s1 (changed old effect o sound) h = λ live l.
    subst (λ x. length x.post_task_markers ≤ 20)
      (ok_injective _ _ (sym (read_live-written old s.live effect.active o) ∙ l)) (h old o)

given-IsBounded :
    (live : Live) (b : Bool) (file : LiveFile)
    → length live.post_task_markers ≤ 20
    → FileIsBounded file
    → FileIsBounded (given_live (if b then some live else none) file)
given-IsBounded live true file h k = doc-IsBounded live h
given-IsBounded live false file h k = k

left-IsBounded :
    (live : Live) (b : Bool) (o o1 : Outcome) (file : LiveFile)
    → length live.post_task_markers ≤ 20
    → FileIsBounded file
    → FileIsBounded
        (given_live (if◌then◌else◌ {A = Option Live × Outcome} b (none, o) (some live, o1)).0 file)
left-IsBounded live true o o1 file h k = k
left-IsBounded live false o o1 file h k = doc-IsBounded live h

set_active_agent-markers :
    (agent mode : Option Text) (live : Live)
    → (set_active_agent agent mode live).post_task_markers ≡ live.post_task_markers
unfolding set_active_agent
set_active_agent-markers agent mode live = ground arith

whole-IsBounded :
    (files : Files) (now : ℕ) (action : LiveAction) (live : Live) (s : Session)
    → read_live s.live ≡ ok live
    → IsBounded s
    → IsBounded (on_live files now (whole action) live s).0
unfolding apply_live_action mark_post_task
whole-IsBounded files now initialize live s l h =
    given-IsBounded live (is_missing s.live) s.live (h live l) h
whole-IsBounded files now (active_agent agent mode) live s l h =
    doc-IsBounded (set_active_agent agent mode live)
      (subst (λ xs. length xs ≤ 20) (sym (set_active_agent-markers agent mode live)) (h live l))
whole-IsBounded files now (post_task reason) live s l h =
    doc-IsBounded (mark_post_task now reason live)
      (last_n-length 20 (live.post_task_markers ++ record { at = now; reason = reason } ∷ []))
whole-IsBounded files now (clean ttl) live s l h =
    let runs = clean_stale_runs now ttl live.active_runs in
    let removed = length live.active_runs - length runs in
    left-IsBounded (record live { active_runs = runs }) (nat_beq removed 0) (Outcome.count 0)
      (Outcome.count removed) s.live (h live l) h

action-IsBounded :
    (files : Files) (now : ℕ) (action : Action) (live : Live) (s : Session)
    → read_live s.live ≡ ok live
    → IsBounded s
    → IsBounded (on_live files now action live s).0
action-IsBounded files now (run rid a) live s l h =
    IsAfter-IsBounded rid s _ (on_live-IsAfter files now rid (run rid a) live s refl l) h
action-IsBounded files now (step rid a) live s l h =
    IsAfter-IsBounded rid s _ (on_live-IsAfter files now rid (step rid a) live s refl l) h
action-IsBounded files now (runtime rid a) live s l h =
    IsAfter-IsBounded rid s _ (on_live-IsAfter files now rid (runtime rid a) live s refl l) h
action-IsBounded files now (whole a) live s l h = whole-IsBounded files now a live s l h

-- In a session that transitions have led to, live.json never holds more than twenty markers of
-- finished tasks.
pub post_task_markers-length :
    (files : Files) (sid : Text) (s : Session) (live : Live)
    → IsReached files sid s
    → read_live s.live ≡ ok live
    → length live.post_task_markers ≤ 20
post_task_markers-length files sid s live fresh l =
    subst (λ x. length x.post_task_markers ≤ 20) (ok_injective _ _ l) (omega arith)
post_task_markers-length files sid s1 live (after now action s r) l =
    transition-keeps IsBounded files now sid action s
      (λ x m. post_task_markers-length files sid s x r m)
      (λ x m.
        action-IsBounded files now action x s m (λ y n. post_task_markers-length files sid s y r n))
      live l
