-- ===== src/Cache/Checks.antt =====
-- What a look at the cache finds after a change of it.
use dc_ness.Base.{
  String, string_eq, Bool, true, Option, none, some, if◌then◌else◌, ◌==◌, ◌≡◌, refl, sym, ◌∙◌, ap,
  arith, Bool-cases, inl, inr,
}
use dc_ness.Cache.Records.{
  File, FailureDoc, Entry, location_eq, CacheScope, Caches, Result, ok, err, ◌>>=◌,
}
use dc_ness.Cache.Failures.{load_failure}
use dc_ness.Cache.Scope.{Files, scope}
use dc_ness.Cache.Store.{
  load_cache, entry_in, active_only, entry_of, check_cached_failure, record_active, record_scope,
  is_true, record_loaded, record_failure, clear_scope, clear_cached_failure,
}
use dc_ness.Cache.Memory.{record_active-entry, clear_loaded-entry}

module _ (files : Files) (state_path project_root : String) where
  checks : Result (Option CacheScope) → String → Caches → Result (Option Entry)
  checks (err x) provider caches = err x
  checks (ok found) provider caches = ok (entry_of (active_only found) caches provider)

  record_scope-check :
      (f : FailureDoc) (provider : String) (caches : Caches) (at_scope : Result (Option CacheScope))
      (e : Entry)
      → (record_scope f provider caches at_scope).1 ≡ ok (some e)
      → checks at_scope provider (record_scope f provider caches at_scope).0 ≡ ok (some e)
  unfolding checks
  record_scope-check f provider caches (err x) e h = ground (arith, h)
  record_scope-check f provider caches (ok found) e h =
      ap ok (record_active-entry f provider caches (active_only found) e h)

  check-checks :
      (provider : String) (caches : Caches)
      → check_cached_failure files state_path project_root provider caches
        ≡ checks (scope files state_path project_root) provider caches
  unfolding check_cached_failure checks
  check-checks provider caches = go (scope files state_path project_root)
    where
      go :
          (at_scope : Result (Option CacheScope))
          → (at_scope >>= λ found. ok (entry_of (active_only found) caches provider))
            ≡ checks at_scope provider caches
      go (ok found) = refl
      go (err x) = refl

  record_loaded-check :
      (provider : String) (caches : Caches) (loaded : Result FailureDoc) (e : Entry)
      → (record_loaded files state_path project_root provider caches loaded).1 ≡ ok (some e)
      → checks
          (scope files state_path project_root)
          provider
          (record_loaded files state_path project_root provider caches loaded).0
        ≡ ok (some e)
  record_loaded-check provider caches (err x) e h = ground (arith, h)
  record_loaded-check provider caches (ok f) e h = elim (Bool-cases (is_true f.cacheable)) [
    | inl t ↦
        rw t
          (record_scope-check f provider caches (scope files state_path project_root) e (rw t at h))
    | inr t ↦ ground (arith, h, t)
  ]

  remembered :
      (first : File FailureDoc) (provider : String) (caches : Caches) (e : Entry)
      → (record_failure files state_path project_root first provider caches).1 ≡ ok (some e)
      → check_cached_failure files state_path project_root provider
          (record_failure files state_path project_root first provider caches).0
        ≡ ok (some e)
  unfolding record_failure
  remembered first provider caches e h =
      check-checks provider _
      ∙ record_loaded-check provider caches (load_failure first provider) e h

  record_scope-kept :
      (f : FailureDoc) (provider : String) (caches : Caches) (at_scope : Result (Option CacheScope))
      (e : Entry)
      → checks at_scope provider caches ≡ ok (some e)
      → record_scope f provider caches at_scope ≡ (caches, ok (some e))
  unfolding checks
  record_scope-kept f provider caches (err x) e h = ground (arith, h)
  record_scope-kept f provider caches (ok found) e h = go (active_only found) h
    where
      go :
          (active : Option CacheScope)
          → ok (entry_of active caches provider) ≡ ok (some e)
          → record_active f provider caches active ≡ (caches, ok (some e))
      go none k = ground (arith, k)
      go (some s) k =
          let known : entry_in (load_cache s caches) provider ≡ some e = ground (arith, k) in
          rw known refl

  record_failure-kept :
      (later : File FailureDoc) (f : FailureDoc) (provider : String) (caches : Caches) (e : Entry)
      → load_failure later provider ≡ ok f
      → is_true f.cacheable ≡ true
      → check_cached_failure files state_path project_root provider caches ≡ ok (some e)
      → record_failure files state_path project_root later provider caches ≡ (caches, ok (some e))
  unfolding record_failure
  record_failure-kept later f provider caches e loaded true_ known =
      rw (loaded, true_)
        (record_scope-kept f provider caches (scope files state_path project_root) e
          (sym (check-checks provider caches) ∙ known))

  -- Where recording a failure of a provider answers with an entry, a look at the caches that are
  -- left, with the same state files, finds the entry, and recording another failure of the provider
  -- that may be cached next, with those files, answers with the same, first entry and changes nothing.
  pub record_failure-check :
      (first later : File FailureDoc) (f : FailureDoc) (provider : String) (caches : Caches)
      (e : Entry)
      → (record_failure files state_path project_root first provider caches).1 ≡ ok (some e)
      → load_failure later provider ≡ ok f
      → is_true f.cacheable ≡ true
      → let after = (record_failure files state_path project_root first provider caches).0 in
        (check_cached_failure files state_path project_root provider after ≡ ok (some e))
        × (record_failure files state_path project_root later provider after ≡ (after, ok (some e)))
  record_failure-check first later f provider caches e h loaded true_ =
      let found = remembered first provider caches e h in
      (found, record_failure-kept later f provider _ e loaded true_ found)

  clear_scope-checks :
      (provider other : String) (caches : Caches) (at_scope : Result (Option CacheScope))
      (known : Option Entry) (cleared : Bool)
      → checks at_scope other caches ≡ ok known
      → (clear_scope provider caches at_scope).1 ≡ ok cleared
      → checks at_scope other (clear_scope provider caches at_scope).0
        ≡ ok (if provider == other then none else known)
  unfolding checks
  clear_scope-checks provider other caches (err x) known cleared k h = ground (arith, h)
  clear_scope-checks provider other caches (ok none) known cleared k h = ground (arith, k)
  clear_scope-checks provider other caches (ok (some s)) known cleared k h =
      ground (arith, k, clear_loaded-entry s caches provider other (load_cache s caches) refl)

  -- Clearing a provider's failure makes every look at the cache find none for that provider, and
  -- leaves what it finds for any other provider as it was.
  pub clear_cached_failure-check :
      (provider other : String) (caches : Caches) (known : Option Entry) (cleared : Bool)
      → check_cached_failure files state_path project_root other caches ≡ ok known
      → (clear_cached_failure files state_path project_root provider caches).1 ≡ ok cleared
      → check_cached_failure files state_path project_root other
          (clear_cached_failure files state_path project_root provider caches).0
        ≡ ok (if provider == other then none else known)
  unfolding clear_cached_failure
  clear_cached_failure-check provider other caches known cleared k h =
      check-checks other _
      ∙ clear_scope-checks provider other caches (scope files state_path project_root) known cleared
          (sym (check-checks other caches) ∙ k) h
