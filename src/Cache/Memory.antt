-- ===== src/Cache/Memory.antt =====
-- What the cache of a chain remembers.
use dc_ness.Base.{
  is_empty, String, string_eq, true, Option, none, some, [], ◌∷◌, if◌then◌else◌, ◌==◌, ◌≡◌, refl,
  ◌∙◌, ap, subst, arith, eq_iff, Bool-cases, Option-cases, inl, inr,
}
use dc_ness.Base.Dict.{Dict, lookup, put, delete, lookup-put, lookup-delete}
use dc_ness.Cache.Records.{
  File, doc, FailureDoc, Entry, EntryValue, entry, entries_of, CacheDoc, location_eq, location_beq,
  location_beq_iff, CacheScope, Caches, Result, ok, err,
}
use dc_ness.Cache.Store.{
  entries_in, empty_cache, is_valid_cache, valid_only, load_cache, as_entry, entry_in, entry_of,
  or_empty, write_entry, store_entry, record_in, record_active, write_rest, clear_in, clear_loaded,
}

module _ (s : CacheScope) (caches : Caches) where
  here : location_beq s.location s.location ≡ true
  here = (location_beq_iff s.location s.location).1 refl

  -- A cache that is written is read again.
  load_cache-put :
      (d : CacheDoc)
      → is_valid_cache s d ≡ true
      → load_cache s (put s.location (doc d) caches) ≡ some d
  unfolding load_cache
  load_cache-put d valid = rw (lookup-put s.location s.location (doc d) caches, here, valid) refl

  load_cache-delete : load_cache s (delete s.location caches) ≡ none
  unfolding load_cache
  load_cache-delete = rw (lookup-delete s.location s.location caches, here) refl

  valid_only-valid :
      (o : Option (File CacheDoc)) (d : CacheDoc)
      → valid_only s o ≡ some d
      → is_valid_cache s d ≡ true
  valid_only-valid (some (doc x)) d e = elim (Bool-cases (is_valid_cache s x)) [
    | inl v ↦
        let same : x ≡ d = ground (arith, e, v) in subst (λ y. is_valid_cache s y ≡ true) same v
    | inr v ↦ ground (arith, e, v)
  ]
  valid_only-valid _ d e = cc

  pub load_cache-valid : (d : CacheDoc) → load_cache s caches ≡ some d → is_valid_cache s d ≡ true
  unfolding load_cache
  load_cache-valid d e = valid_only-valid (lookup s.location caches) d e

  empty_cache-valid : is_valid_cache s (empty_cache s) ≡ true
  unfolding is_valid_cache empty_cache
  empty_cache-valid =
      ground (arith, eq_iff s.chain_id s.chain_id, eq_iff s.project_root s.project_root)

  valid-entries :
      (d : CacheDoc) (entries : Dict String EntryValue)
      → is_valid_cache s d ≡ true
      → is_valid_cache s (record d { entries = entries_of entries }) ≡ true
  unfolding is_valid_cache
  valid-entries d entries valid = ground (arith, valid)

  or_empty-valid : is_valid_cache s (or_empty s (load_cache s caches)) ≡ true
  or_empty-valid = elim (Option-cases (load_cache s caches)) [
    | inl e ↦ rw e empty_cache-valid
    | inr (d, e) ↦ rw e (load_cache-valid d e)
  ]

  -- What is written is what a look at the cache finds.
  pub entry_in-write :
      (d : CacheDoc) (k j : String) (e : Entry)
      → is_valid_cache s d ≡ true
      → entry_in (load_cache s (write_entry s d k e caches)) j
        ≡ (if k == j then some e else as_entry (lookup j (entries_in d.entries)))
  unfolding write_entry
  entry_in-write d k j e valid =
      rw (load_cache-put _ (valid-entries d (put k (entry e) (entries_in d.entries)) valid))
        (ground (arith, lookup-put k j (entry e) (entries_in d.entries)))

  pub entry_in-rest :
      (d : CacheDoc) (k j : String)
      → is_valid_cache s d ≡ true
      → entry_in (load_cache s (write_rest s d (delete k (entries_in d.entries)) caches)) j
        ≡ (if k == j then none else as_entry (lookup j (entries_in d.entries)))
  unfolding write_rest lookup
  entry_in-rest d k j valid =
      go (delete k (entries_in d.entries)) (lookup-delete k j (entries_in d.entries))
    where
      go :
          (rest : Dict String EntryValue)
          → lookup j rest ≡ (if k == j then none else lookup j (entries_in d.entries))
          → entry_in
              (load_cache s (
                if is_empty rest
                then delete s.location caches
                else put s.location (doc (record d { entries = entries_of rest })) caches))
              j
            ≡ (if k == j then none else as_entry (lookup j (entries_in d.entries)))
      go [] h = rw load_cache-delete (ground (arith, h))
      go (x ∷ xs) h = rw (load_cache-put _ (valid-entries d (x ∷ xs) valid)) (ground (arith, h))

store_entry-entry :
    (s : CacheScope) (caches : Caches) (provider : String) (made : Result Entry) (e : Entry)
    → (store_entry s provider caches made).1 ≡ ok (some e)
    → entry_in (load_cache s (store_entry s provider caches made).0) provider ≡ some e
store_entry-entry s caches provider (err x) e h = ground (arith, h)
store_entry-entry s caches provider (ok x) e h =
    rw
      (entry_in-write s caches (or_empty s (load_cache s caches)) provider provider x
        (or_empty-valid s caches))
      (ground (arith, h, eq_iff provider provider))

record_in-entry :
    (s : CacheScope) (f : FailureDoc) (provider : String) (caches : Caches) (found : Option Entry)
    (e : Entry)
    → entry_in (load_cache s caches) provider ≡ found
    → (record_in s f provider caches found).1 ≡ ok (some e)
    → entry_in (load_cache s (record_in s f provider caches found).0) provider ≡ some e
record_in-entry s f provider caches (some x) e at_x h = at_x ∙ ground (arith, h)
record_in-entry s f provider caches none e at_x h = store_entry-entry s caches provider _ e h

pub record_active-entry :
    (f : FailureDoc) (provider : String) (caches : Caches) (found : Option CacheScope) (e : Entry)
    → (record_active f provider caches found).1 ≡ ok (some e)
    → entry_of found (record_active f provider caches found).0 provider ≡ some e
record_active-entry f provider caches none e h = ground (arith, h)
record_active-entry f provider caches (some s) e h =
    record_in-entry s f provider caches (entry_in (load_cache s caches) provider) e refl h

pub clear_loaded-entry :
    (s : CacheScope) (caches : Caches) (provider other : String) (loaded : Option CacheDoc)
    → load_cache s caches ≡ loaded
    → entry_in (load_cache s (clear_loaded s provider caches loaded).0) other
      ≡ (if provider == other then none else entry_in (load_cache s caches) other)
clear_loaded-entry s caches provider other none e = rw e (ground arith)
clear_loaded-entry s caches provider other (some d) e =
    go (lookup provider (entries_in d.entries)) refl
  where
    go :
        (v : Option EntryValue)
        → lookup provider (entries_in d.entries) ≡ v
        → entry_in (load_cache s (clear_in s d provider caches v).0) other
          ≡ (if provider == other then none else entry_in (load_cache s caches) other)
    go none f = elim (Bool-cases (provider == other)) [
      | inl same ↦
          rw (e, same)
            (subst (λ o. as_entry (lookup o (entries_in d.entries)) ≡ none)
              ((eq_iff provider other).0 same) (ap as_entry f))
      | inr other_ ↦ rw other_ refl
    ]
    go (some v) f = rw e (entry_in-rest s caches d provider other (load_cache-valid s caches d e))
