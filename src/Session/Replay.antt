-- ===== src/Session/Replay.antt =====
-- harness/session_state.py, a step that is completed twice by the same call.
use dc_ness.Base.{
  ℕ, Text, text_eq, Bool, true, false, not, Option, none, some, List, [], ◌∷◌, ◌++◌, if◌then◌else◌,
  ◌≡◌, refl, sym, ap, ◌∙◌, arith, subst, append-nil, is_empty,
}
use dc_ness.Base.Dict.{lookup, put, lookup-put}
use dc_ness.Session.Records.{
  Slot, Step, Event, Ledger, events, unreadable, Result, ok, err, ◌>>=◌, Files, truthy, present,
  guard, ◌>>◌, Error, agent_empty,
}
use dc_ness.Session.Runs.{
  Runs, Outcome, Effect, unchanged, read_events, active_slot, find_slot, slot_of, required,
}
use dc_ness.Session.Transition.{append_events}
use dc_ness.Session.Steps.{
  StepArgs, same_text, find_completed, or_before, completion_here, earlier_completion,
  complete_with, complete_step, receipt, validation_block, record_step, checked_identity,
  ended_step, step_complete, apply_step_transition, normalized,
}

or_before_assoc : (a b c : Option Event) → or_before (or_before a b) c ≡ or_before a (or_before b c)
or_before_assoc none b c = refl
or_before_assoc (some a) b c = refl

or_before-none : (a : Option Event) → a ≡ or_before a none
or_before-none none = refl
or_before-none (some a) = refl

find_completed-append :
    (id : Option Text) (xs ys : List Event)
    → find_completed id (xs ++ ys) ≡ or_before (find_completed id ys) (find_completed id xs)
unfolding find_completed
find_completed-append id [] ys = or_before-none (find_completed id ys)
find_completed-append id (x ∷ xs) ys =
    ap (λ o. or_before o (completion_here id x)) (find_completed-append id xs ys)
    ∙ or_before_assoc (find_completed id ys) (find_completed id xs) (completion_here id x)

same_text_self : (o : Option Text) → same_text o o ≡ true
same_text_self none = refl
same_text_self (some t) = (text_eq.same_iff t t).1 refl

present-truthy : (o : Option Text) → truthy o ≡ true → present o ≡ o
present-truthy none h = refl
present-truthy (some t) h = ground arith

pub read_events-events :
    (files : Files) (es fs : List Event) → read_events files (events es) ≡ ok fs → es ≡ fs
unfolding read_events
read_events-events files es fs h = ground arith

validation_block-find :
    (files : Files) (now : ℕ) (a : StepArgs)
    → find_completed a.tool_use_id (validation_block files now a) ≡ none
unfolding find_completed validation_block
validation_block-find files now a = ground arith

receipt-here :
    (files : Files) (now : ℕ) (a : StepArgs) (current : Option Step)
    → truthy a.tool_use_id ≡ true
    → completion_here a.tool_use_id (receipt files now a current)
      ≡ some (receipt files now a current)
receipt-here files now a current h =
    ap (λ b. if b then some (receipt files now a current) else none)
      (ap (λ o. same_text o a.tool_use_id) (present-truthy a.tool_use_id h)
        ∙ same_text_self a.tool_use_id)

-- The receipt is found again.
receipt-find :
    (files : Files) (now : ℕ) (a : StepArgs) (current : Option Step) (es : List Event)
    → truthy a.tool_use_id ≡ true
    → find_completed a.tool_use_id
        (es ++ receipt files now a current ∷ validation_block files now a)
      ≡ some (receipt files now a current)
unfolding find_completed
receipt-find files now a current es h =
    let e = receipt files now a current in
    find_completed-append a.tool_use_id es (e ∷ validation_block files now a)
    ∙ ap (λ o. or_before o (find_completed a.tool_use_id es))
        (ap (λ o. or_before o (completion_here a.tool_use_id e)) (validation_block-find files now a)
          ∙ receipt-here files now a current h)

-- The completion of a call is in the ledger that its effect leaves.
abbrev IsIn : StepArgs → List Event → Effect → Type 0
IsIn a es effect =
    (e : Event) × (effect.outcome ≡ Outcome.recorded e)
    × (find_completed a.tool_use_id (es ++ effect.appended) ≡ some e)

record_step-IsIn :
    (files : Files) (now : ℕ) (rid : Text) (a : StepArgs) (active : Runs) (slot : Slot)
    (es : List Event)
    → truthy a.tool_use_id ≡ true
    → IsIn a es (record_step files now rid a active slot)
record_step-IsIn files now rid a active slot es h =
    (receipt files now a slot.current_step, refl, receipt-find files now a slot.current_step es h)

pub bind-ok {ℓ κ} :
    {A : Type ℓ} {B : Type κ} (m : Result A) (f : A → Result B) (b : B)
    → (m >>= f) ≡ ok b
    → (x : A) × (m ≡ ok x) × (f x ≡ ok b)
bind-ok (ok x) f b h = (x, refl, h)
bind-ok (err e) f b h = ground arith

-- The runs after an effect.
abbrev pub runs_after : Runs → Option Runs → Runs
runs_after active none = active
runs_after active (some written) = written

abbrev HasSlot : Text → Runs → Type 0
HasSlot rid active = (slot : Slot) × (active_slot active rid ≡ ok slot)

pub ok_injective {ℓ} : {A : Type ℓ} (x y : A) → ok x ≡ ok y → x ≡ y
ok_injective x y h = ground arith

HasSlot-put :
    (rid : Text) (slot : Slot) (active : Runs)
    → active_slot (put rid (some slot) active) rid ≡ ok slot
unfolding active_slot find_slot
HasSlot-put rid slot active =
    ap (λ o. required (slot_of o))
      (lookup-put rid rid (some slot) active
        ∙ ap (λ b. if b then some (some slot) else lookup rid active)
            ((text_eq.same_iff rid rid).1 refl))

-- What the completion of a call leaves: its receipt in the ledger, and the run's slot.
abbrev Settles : Text → StepArgs → Runs → List Event → Effect → Type 0
Settles rid a active es effect = IsIn a es effect × HasSlot rid (runs_after active effect.active)

HasSlot-ended :
    (b : Bool) (now : ℕ) (rid : Text) (active : Runs) (slot : Slot)
    → active_slot active rid ≡ ok slot
    → HasSlot rid (runs_after active (ended_step b now rid active slot))
HasSlot-ended true now rid active slot h = (_, HasSlot-put rid _ active)
HasSlot-ended false now rid active slot h = (slot, h)

complete_with-Settles :
    (files : Files) (now : ℕ) (rid : Text) (a : StepArgs) (active : Runs) (slot : Slot)
    (es : List Event) (effect : Effect) (found : Option Event)
    → truthy a.tool_use_id ≡ true
    → active_slot active rid ≡ ok slot
    → find_completed a.tool_use_id es ≡ found
    → complete_with files now rid a active slot found ≡ ok effect
    → Settles rid a active es effect
complete_with-Settles files now rid a active slot es effect (some x) h here f e =
    subst (Settles rid a active es) (ok_injective _ _ e)
      ((x, refl, ap (find_completed a.tool_use_id) (append-nil es) ∙ f), (slot, here))
complete_with-Settles files now rid a active slot es effect none h here f e =
    let (_, _, r) = bind-ok (checked_identity a slot.current_step) _ effect e in
    subst (Settles rid a active es) (ok_injective _ _ r)
      (record_step-IsIn files now rid a active slot es h, HasSlot-ended _ now rid active slot here)

-- What a strict call with an identity looks up.
earlier_completion-strict :
    (files : Files) (a : StepArgs) (ledger : Ledger)
    → a.strict_identity ≡ true
    → truthy a.tool_use_id ≡ true
    → earlier_completion files a ledger
      ≡ (read_events files ledger >>= λ es. ok (find_completed a.tool_use_id es))
earlier_completion-strict files a ledger h k = rw h rw k refl

found_earlier :
    (files : Files) (a : StepArgs) (es : List Event) (found : Option Event)
    → a.strict_identity ≡ true
    → truthy a.tool_use_id ≡ true
    → earlier_completion files a (events es) ≡ ok found
    → find_completed a.tool_use_id es ≡ found
found_earlier files a es found h k e =
    let (fs, r, t) =
      bind-ok (read_events files (events es)) _ found
        (sym (earlier_completion-strict files a (events es) h k) ∙ e) in
    ap (find_completed a.tool_use_id) (read_events-events files es fs r) ∙ ok_injective _ _ t

complete_step-Settles :
    (files : Files) (now : ℕ) (rid : Text) (a : StepArgs) (active : Runs) (slot : Slot)
    (ledger : Ledger) (effect : Effect)
    → a.strict_identity ≡ true
    → truthy a.tool_use_id ≡ true
    → active_slot active rid ≡ ok slot
    → complete_step files now rid a active slot ledger ≡ ok effect
    → (es : List Event) × (ledger ≡ events es) × Settles rid a active es effect
unfolding complete_step read_events
complete_step-Settles files now rid a active slot unreadable effect h k here e = ground arith
complete_step-Settles files now rid a active slot (events es) effect h k here e =
    let (found, m, r) = bind-ok (earlier_completion files a (events es)) _ effect e in
    (
      es,
      refl,
      complete_with-Settles files now rid a active slot es effect found k here
          (found_earlier files a es found h k m) r,
    )

complete_step-again :
    (files : Files) (now : ℕ) (rid : Text) (a : StepArgs) (active : Runs) (slot : Slot)
    (es : List Event) (x : Event)
    → a.strict_identity ≡ true
    → truthy a.tool_use_id ≡ true
    → read_events files (events es) ≡ ok es
    → find_completed a.tool_use_id es ≡ some x
    → complete_step files now rid a active slot (events es) ≡ ok (unchanged (Outcome.recorded x))
unfolding complete_step
complete_step-again files now rid a active slot es x h k r f =
    ap (λ o. o >>= complete_with files now rid a active slot)
      (earlier_completion-strict files a (events es) h k
        ∙ ap (λ m. m >>= λ fs. ok (find_completed a.tool_use_id fs)) r)
    ∙ ap (complete_with files now rid a active slot) f

ok_guard : (b : Bool) (e : Error) (u : Unit {0}) → guard b e ≡ ok u → b ≡ true
ok_guard true e u h = refl
ok_guard false e u h = ground arith

appended-readable :
    (files : Files) (es fs appended : List Event) (ledger : Ledger)
    → ledger ≡ events es
    → read_events files (append_events ledger appended) ≡ ok fs
    → (append_events ledger appended ≡ events (es ++ appended))
      × (read_events files (events (es ++ appended)) ≡ ok (es ++ appended))
appended-readable files es fs appended ledger le r =
    let same = ap (λ l. append_events l appended) le in
    let r1 = ap (read_events files) (sym same) ∙ r in
    (same, r1 ∙ ap ok (sym (read_events-events files (es ++ appended) fs r1)))

apply_step_transition-again :
    (files : Files) (now : ℕ) (rid : Text) (a : StepArgs) (active : Runs) (slot : Slot)
    (es : List Event) (x : Event)
    → a.strict_identity ≡ true
    → truthy a.tool_use_id ≡ true
    → not (is_empty a.agent) ≡ true
    → active_slot active rid ≡ ok slot
    → read_events files (events es) ≡ ok es
    → find_completed a.tool_use_id es ≡ some x
    → apply_step_transition files now rid (step_complete a) active (events es)
      ≡ ok (unchanged (Outcome.recorded x))
unfolding apply_step_transition
apply_step_transition-again files now rid a active slot es x h k named here r f =
    ap
      (λ m. m >>= λ slot.
        guard (not (is_empty a.agent)) agent_empty
        >> complete_step files now rid (normalized a) active slot (events es))
      here
    ∙ ap
        (λ b.
          guard b agent_empty >> complete_step files now rid (normalized a) active slot (events es))
        named
    ∙ complete_step-again files now rid (normalized a) active slot es x h k r f

pub complete_transition-again :
    (files : Files) (now later : ℕ) (rid : Text) (a : StepArgs) (active : Runs) (ledger : Ledger)
    (effect : Effect) (fs : List Event)
    → a.strict_identity ≡ true
    → truthy a.tool_use_id ≡ true
    → apply_step_transition files now rid (step_complete a) active ledger ≡ ok effect
    → read_events files (append_events ledger effect.appended) ≡ ok fs
    → apply_step_transition files later rid
        (step_complete a)
        (runs_after active effect.active)
        (append_events ledger effect.appended)
      ≡ ok (unchanged effect.outcome)
unfolding apply_step_transition
complete_transition-again files now later rid a active ledger effect fs h k e readable =
    let (slot, here, e1) = bind-ok (active_slot active rid) _ effect e in
    let (u, named, e2) = bind-ok (guard (not (is_empty a.agent)) agent_empty) _ effect e1 in
    let (es, le, ((x, o, f), (slot1, here1))) =
      complete_step-Settles files now rid (normalized a) active slot ledger effect h k here e2 in
    let (same, r) = appended-readable files es fs effect.appended ledger le readable in
    ap (apply_step_transition files later rid (step_complete a) (runs_after active effect.active))
      same
    ∙ apply_step_transition-again files later rid a _ slot1 (es ++ effect.appended) x h k
        (ok_guard _ agent_empty u named) here1 r f
    ∙ ap (λ y. ok (unchanged y)) (sym o)
