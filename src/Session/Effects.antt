-- ===== src/Session/Effects.antt =====
-- harness/session_state.py, the transitions of a run: what each one leaves of the run's slot and of
-- its ledger.
use dc_ness.Base.{
  Text, text_eq, Bool, true, false, Option, none, some, List, if◌then◌else◌, ◌≡◌, refl, sym, ap,
  ◌∙◌,
}
use dc_ness.Base.Dict.{put}
use dc_ness.Session.Records.{Slot, Block, Event, Result, ok, err, Error, ◌>>=◌, ◌>>◌, guard}
use dc_ness.Session.Runs.{
  Runs, Outcome, Effect, unchanged, writes, find_slot, active_slot, block_in, required, Verdict,
  accepted, last_verdict,
}

-- A property of what a call returns.
abbrev pub AllOk {ℓ κ} : {A : Type ℓ} → (A → Type κ) → Result A → Type κ
AllOk P (ok x) = P x
AllOk P (err e) = Unit

pub AllOk-bind {ℓ κ ι} :
    {A : Type ℓ} {B : Type κ} (P : B → Type ι) (m : Result A) (f : A → Result B)
    → ((x : A) → AllOk P (f x))
    → AllOk P (m >>= f)
AllOk-bind P (ok x) f h = h x
AllOk-bind P (err e) f h = tt

AllOk-required {κ} :
    (P : Effect → Type κ) (found : Option Slot) (f : Slot → Result Effect)
    → ((slot : Slot) → found ≡ some slot → AllOk P (f slot))
    → AllOk P (required found >>= f)
AllOk-required P none f h = tt
AllOk-required P (some slot) f h = h slot refl

-- What follows the look-up of the run's slot.
pub AllOk-slot {κ} :
    (P : Effect → Type κ) (rid : Text) (active : Runs) (f : Slot → Result Effect)
    → ((slot : Slot) → find_slot active rid ≡ some slot → AllOk P (f slot))
    → AllOk P (active_slot active rid >>= f)
unfolding active_slot
AllOk-slot P rid active f h = AllOk-required P (find_slot active rid) f h

pub AllOk-guard {κ} :
    (P : Effect → Type κ) (b : Bool) (x : Error) (m : Result Effect)
    → (b ≡ true → AllOk P m)
    → AllOk P (guard b x >> m)
AllOk-guard P true x m h = h refl
AllOk-guard P false x m h = tt

abbrev pub block_at : Runs → Text → Option Block
block_at active rid = block_in (find_slot active rid)

-- The runs are left, with this block in the run's slot, or the run's slot alone is written, with it.
abbrev pub Touches : Text → Runs → Option Block → Option Runs → Type 0
Touches rid active b none = block_at active rid ≡ b
Touches rid active b (some written) =
    (slot : Slot) × (written ≡ put rid (some slot) active) × (slot.blocked ≡ b)

abbrev pub is_accepted : Verdict → Bool
is_accepted accepted = true
is_accepted _ = false

-- The block of the run is kept, and no acceptance is recorded.
pub record IsQuiet (rid : Text) (active : Runs) (e : Effect) : Type 0 where
  pub kept : Touches rid active (block_at active rid) e.active
  pub quiet : is_accepted (last_verdict e.appended) ≡ false

pub unchanged-IsQuiet :
    (rid : Text) (active : Runs) (o : Outcome) → IsQuiet rid active (unchanged o)
unfolding last_verdict
unchanged-IsQuiet rid active o = record { kept = refl; quiet = refl }

pub writes-IsQuiet :
    (rid : Text) (active : Runs) (slot written : Slot) (o : Outcome) (es : List Event)
    → find_slot active rid ≡ some slot
    → written.blocked ≡ slot.blocked
    → is_accepted (last_verdict es) ≡ false
    → IsQuiet rid active (writes rid written active o es)
writes-IsQuiet rid active slot written o es here same quiet = record {
  kept = (written, refl, same ∙ sym (ap block_in here));
  quiet = quiet;
}

pub if-IsQuiet :
    (rid : Text) (active : Runs) (b : Bool) (x y : Effect)
    → IsQuiet rid active x
    → IsQuiet rid active y
    → IsQuiet rid active (if b then x else y)
if-IsQuiet rid active true x y h k = h
if-IsQuiet rid active false x y h k = k
