-- ===== src/Cache/Receipts.antt =====
-- The receipts of failures: those that are written are accepted, and what an accepted one says.
use dc_ness.Base.{
  ℕ, String, string_eq, Text, Bool, true, false, Option, none, some, ◌==◌, nat_eq, mem, ◌≡◌, ◌≢◌,
  ◌⊎◌, refl, ap, subst, arith, eq_iff, Bool-cases, inl, inr,
}
use dc_ness.Cache.Records.{
  Value, text, flag, is_number, File, doc, FailureDoc, Result, ok, err, is_text, identity_mismatch,
}
use dc_ness.Cache.Failures.{
  cacheable_categories, failure_categories, classify_failure, new_receipt, emit_failure,
  known_category, is_flag, permission, is_filled, is_none, valid_failure, load_failure,
}

abbrev IsKnown : String → Type 0
IsKnown c = mem c failure_categories ≡ true

named-IsKnown :
    IsKnown "timeout"
    × IsKnown "interrupt"
    × IsKnown "auth_unavailable"
    × IsKnown "config_unavailable"
    × IsKnown "network_transient"
    × IsKnown "provider_error"
unfolding mem
named-IsKnown = (refl, refl, refl, refl, refl, refl)

classify_failure-IsKnown :
    (lower : Text → Text) (exit_code : ℕ) (raw_log : Option Text) (cause : String)
    → IsKnown (classify_failure lower exit_code raw_log cause)
unfolding classify_failure
classify_failure-IsKnown lower exit_code raw_log cause = ground (arith, named-IsKnown)

is_flag_self : (b : Bool) → is_flag b (flag b) ≡ true
is_flag_self true = refl
is_flag_self false = refl

module _ (resolve : String → String) (now provider category raw_log : String) where
  new_receipt-valid :
      (receipt : Option String)
      → ((path : String) → resolve path ≢ "")
      → IsKnown category
      → let f = new_receipt resolve now provider category raw_log receipt in
        valid_failure f provider ≡ ok f
  unfolding valid_failure
  new_receipt-valid none absolute known =
      rw
        ((eq_iff provider provider).1 refl, known, is_flag_self (mem category cacheable_categories))
        refl
  new_receipt-valid (some path) absolute known = elim (Bool-cases (resolve path == "")) [
    | inl e ↦ absurd (absolute path ((eq_iff (resolve path) "").0 e))
    | inr e ↦
        rw
          (
            (eq_iff provider provider).1 refl,
            known,
            is_flag_self (mem category cacheable_categories),
            e,
          )
          refl
  ]

  new_receipt-other :
      (receipt : Option String) (other : String)
      → provider ≢ other
      → valid_failure (new_receipt resolve now provider category raw_log receipt) other
        ≡ err identity_mismatch
  unfolding valid_failure
  new_receipt-other receipt other differs = elim (Bool-cases (provider == other)) [
    | inl e ↦ absurd (differs ((eq_iff provider other).0 e))
    | inr e ↦ rw e refl
  ]

-- Whatever a worker's failure is, by its exit code, its log and the cause that it names, the receipt
-- of the classified failure can be written, and reads back as it is for its provider, and for no
-- other; where resolved paths are not empty.
pub classify-emit-load :
    (lower : Text → Text) (exit_code : ℕ) (log : Option Text) (cause : String)
    (resolve : String → String) (now provider other raw_log : String) (receipt : Option String)
    → ((path : String) → resolve path ≢ "")
    → provider ≢ other
    → (f : FailureDoc) × (emit_failure resolve now provider
          (classify_failure lower exit_code log cause)
          raw_log
          receipt
        ≡ ok f)
      × (load_failure (doc f) provider ≡ ok f)
      × (load_failure (doc f) other ≡ err identity_mismatch)
unfolding load_failure emit_failure
classify-emit-load lower exit_code log cause resolve now provider other raw_log receipt absolute
      differs =
    let category = classify_failure lower exit_code log cause in
    let known : IsKnown category = classify_failure-IsKnown lower exit_code log cause in
    (
      new_receipt resolve now provider category raw_log receipt,
      rw known refl,
      new_receipt-valid resolve now provider category raw_log receipt absolute known,
      new_receipt-other resolve now provider category raw_log receipt other differs,
    )

-- What an accepted receipt says: its contract, its provider, its category and the flag that goes
-- with it, and a permission receipt just where one is required.
pub record IsReceipt (provider : String) (f : FailureDoc) (category : String) : Type 0 where
  pub its_version : is_number 1 f.schema_version ≡ true
  pub its_kind : is_text "dcness-provider-failure" f.kind ≡ true
  pub its_provider : is_text provider f.provider ≡ true
  pub its_category : f.category ≡ text category
  pub is_known : mem category failure_categories ≡ true
  pub flagged : is_flag (mem category cacheable_categories) f.cacheable ≡ true
  pub its_permission :
      ((permission f.permission_required ≡ ok true) × (is_filled f.permission_receipt ≡ true))
      ⊎ ((permission f.permission_required ≡ ok false) × (is_none f.permission_receipt ≡ true))

known_category-ok :
    (v : Value) (category : String)
    → known_category v ≡ ok category
    → (v ≡ text category) × IsKnown category
known_category-ok (text c) category e = elim (Bool-cases (mem c failure_categories)) [
  | inl known ↦
      let same : c ≡ category = ground (arith, e, known) in (ap text same, subst IsKnown same known)
  | inr other ↦ ground (arith, e, other)
]
known_category-ok _ category e = cc

pub load_failure-IsReceipt :
    (file : File FailureDoc) (provider : String) (f : FailureDoc)
    → load_failure file provider ≡ ok f
    → (category : String) × (file ≡ doc f) × IsReceipt provider f category
unfolding load_failure
load_failure-IsReceipt (doc g) provider f e = go (known_category g.category) refl
  where
    go :
        (known : Result String)
        → known_category g.category ≡ known
        → (category : String) × (doc g ≡ doc f) × IsReceipt provider f category
    go (err x) k = ground (arith, e, k)
    go (ok category) k =
        let (is_category, is_known) = known_category-ok g.category category k in
        let same : g ≡ f = ground (arith, e, k) in
        subst (λ (x : FailureDoc). (c : String) × (doc g ≡ doc x) × IsReceipt provider x c) same
          (
            category,
            refl,
            record {
              its_version = ground (arith, e, k);
              its_kind = ground (arith, e, k);
              its_provider = ground (arith, e, k);
              its_category = is_category;
              is_known = is_known;
              flagged = ground (arith, e, k);
              its_permission = ground (arith, e, k);
            },
          )
load_failure-IsReceipt _ provider f e = cc
