-- ===== src/Cache/Changes.antt =====
-- What it takes to add to the cache of a chain.
use dc_ness.Base.{
  String, string_eq, Bool, true, false, Option, none, some, mem, ◌≡◌, ◌⊎◌, refl, arith, Bool-cases,
  inl, inr,
}
use dc_ness.Cache.Records.{Value, flag, File, doc, FailureDoc, CacheScope, Caches, Result, ok, err}
use dc_ness.Cache.Failures.{cacheable_categories, is_flag, load_failure}
use dc_ness.Cache.Scope.{Files, scope}
use dc_ness.Cache.Store.{record_scope, record_loaded, record_failure, is_true}
use dc_ness.Cache.Receipts.{IsReceipt, load_failure-IsReceipt}

flagged-true : (b : Bool) (v : Value) → is_flag b v ≡ true → is_true v ≡ true → b ≡ true
flagged-true true v h k = refl
flagged-true false (flag true) h k = cc
flagged-true false v h k = ground (arith, h, k)

module _ (files : Files) (state_path project_root : String) (file : File FailureDoc)
    (provider : String) where
  -- A valid receipt of the provider, of a category that may be cached, in a chain that still has
  -- work to do.
  pub record IsEarned : Type 0 where
    pub failure : FailureDoc
    pub category : String
    pub chain : CacheScope
    pub is_file : file ≡ doc failure
    pub is_receipt : IsReceipt provider failure category
    pub may_be_cached : mem category cacheable_categories ≡ true
    pub in_chain : scope files state_path project_root ≡ ok (some chain)
    pub is_active : chain.active ≡ true

  scope-Earned :
      (f : FailureDoc) (category : String) (caches : Caches) (at_scope : Result (Option CacheScope))
      → file ≡ doc f
      → IsReceipt provider f category
      → mem category cacheable_categories ≡ true
      → scope files state_path project_root ≡ at_scope
      → ((record_scope f provider caches at_scope).0 ≡ caches) ⊎ IsEarned
  scope-Earned f category caches (err x) is_doc receipt may e = inl refl
  scope-Earned f category caches (ok none) is_doc receipt may e = inl refl
  scope-Earned f category caches (ok (some s)) is_doc receipt may e = elim (Bool-cases s.active) [
    | inl on ↦ inr (record {
      failure = f;
      category = category;
      chain = s;
      is_file = is_doc;
      is_receipt = receipt;
      may_be_cached = may;
      in_chain = e;
      is_active = on;
    })
    | inr off ↦ inl (ground (arith, off))
  ]

  -- Recording a failure changes the caches only for a valid receipt of that provider, of a category
  -- that may be cached, in a chain whose state can be read and in which a task is not completed.
  pub record_failure-IsEarned :
      (caches : Caches)
      → ((record_failure files state_path project_root file provider caches).0 ≡ caches) ⊎ IsEarned
  unfolding record_failure
  record_failure-IsEarned caches = go (load_failure file provider) refl
    where
      go :
          (loaded : Result FailureDoc)
          → load_failure file provider ≡ loaded
          → ((record_loaded files state_path project_root provider caches loaded).0 ≡ caches)
            ⊎ IsEarned
      go (err x) e = inl refl
      go (ok f) e = elim (Bool-cases (is_true f.cacheable)) [
        | inl t ↦
            let (category, is_doc, receipt) = load_failure-IsReceipt file provider f e in
            rw t (
              scope-Earned f category caches (scope files state_path project_root) is_doc receipt
                (flagged-true (mem category cacheable_categories) f.cacheable receipt.flagged t)
                refl)
        | inr t ↦ rw t (inl refl)
      ]
