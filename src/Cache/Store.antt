-- ===== src/Cache/Store.antt =====
-- harness/provider_failure_cache.py, the cache of a chain: checking, recording, clearing and
-- invalidating its entries. A change returns the cache files that it leaves, also where it raises;
-- what it does under its lock is one step.
use Prim.Native.String.{◌++◌}
use dc_ness.Base.{
  is_there, is_empty, String, string_eq, Bool, true, false, not, ◌&&◌, Option, none, some, [],
  if◌then◌else◌,
}
use dc_ness.Base.Dict.{Dict, lookup, put, delete}
use dc_ness.Cache.Records.{
  Value, absent, number, flag, text, is_number, is_text, File, doc, StateDoc, FailureDoc, Entry,
  EntryValue, entry, EntriesField, no_dict, entries_of, CacheDoc, Location, location_eq, CacheScope,
  Caches, key_error, Result, ok, err, ◌>>=◌,
}
use dc_ness.Cache.Failures.{load_failure}
use dc_ness.Cache.Scope.{Files, is_chain_id, scope}

abbrev pub has_dict : EntriesField → Bool
has_dict no_dict = false
has_dict (entries_of d) = true

abbrev pub entries_in : EntriesField → Dict String EntryValue
entries_in no_dict = []
entries_in (entries_of d) = d

unfoldable pub empty_cache : CacheScope → CacheDoc
empty_cache s = record {
  schema_version = number 1;
  kind = text "dcness-provider-failure-cache";
  chain_id = text s.chain_id;
  project_root = text s.project_root;
  entries = entries_of [];
}

unfoldable pub is_valid_cache : CacheScope → CacheDoc → Bool
unfolding is_number is_text
is_valid_cache s d =
    is_number 1 d.schema_version
    && (is_text "dcness-provider-failure-cache" d.kind
        && (is_text s.chain_id d.chain_id
            && (is_text s.project_root d.project_root && has_dict d.entries)))

abbrev pub valid_only : CacheScope → Option (File CacheDoc) → Option CacheDoc
valid_only s (some (doc d)) = if is_valid_cache s d then some d else none
valid_only s _ = none

-- `_load_cache`: a cache that cannot be read, or is another chain's, counts as missing.
unfoldable pub load_cache : CacheScope → Caches → Option CacheDoc
unfolding lookup is_valid_cache
load_cache s caches = valid_only s (lookup s.location caches)

abbrev pub as_entry : Option EntryValue → Option Entry
as_entry (some (entry e)) = some e
as_entry _ = none

abbrev pub entry_in : Option CacheDoc → String → Option Entry
entry_in none provider = none
entry_in (some d) provider = as_entry (lookup provider (entries_in d.entries))

-- An inactive chain has no failures to ask for.
abbrev pub active_only : Option CacheScope → Option CacheScope
active_only none = none
active_only (some s) = if s.active then some s else none

abbrev pub entry_of : Option CacheScope → Caches → String → Option Entry
entry_of none caches provider = none
entry_of (some s) caches provider = entry_in (load_cache s caches) provider

unfoldable pub check_cached_failure :
    Files → (state_path project_root provider : String) → Caches → Result (Option Entry)
unfolding scope load_cache
check_cached_failure files state_path project_root provider caches =
    scope files state_path project_root >>= λ found.
    ok (entry_of (active_only found) caches provider)

abbrev pub or_empty : CacheScope → Option CacheDoc → CacheDoc
or_empty s none = empty_cache s
or_empty s (some d) = d

unfoldable pub write_entry : CacheScope → CacheDoc → String → Entry → Caches → Caches
write_entry s d provider e caches =
    put s.location
      (doc (record d { entries = entries_of (put provider (entry e) (entries_in d.entries)) }))
      caches

-- The new entry; `failure["recorded_at"]` and `failure["raw_log"]` raise where the field is absent.
abbrev pub new_entry :
    CacheScope → (provider : String) (category recorded_at raw_log : Value) → Result Entry
new_entry s provider category absent raw_log = err key_error
new_entry s provider category recorded_at absent = err key_error
new_entry s provider (text category) recorded_at raw_log = ok (record {
  provider = provider;
  category = category;
  first_failed_at = recorded_at;
  raw_log = raw_log;
  scope = "chain:" ++ s.chain_id;
})
new_entry s provider category recorded_at raw_log = err key_error

abbrev pub store_entry :
    CacheScope → String → Caches → Result Entry → Caches × Result (Option Entry)
store_entry s provider caches (err e) = (caches, err e)
store_entry s provider caches (ok e) =
    (write_entry s (or_empty s (load_cache s caches)) provider e caches, ok (some e))

-- Under the lock: an entry that is there stays.
abbrev pub record_in :
    CacheScope → FailureDoc → String → Caches → Option Entry → Caches × Result (Option Entry)
record_in s f provider caches (some existing) = (caches, ok (some existing))
record_in s f provider caches none =
    store_entry s provider caches (new_entry s provider f.category f.recorded_at f.raw_log)

abbrev pub record_active :
    FailureDoc → String → Caches → Option CacheScope → Caches × Result (Option Entry)
record_active f provider caches none = (caches, ok none)
record_active f provider caches (some s) =
    record_in s f provider caches (entry_in (load_cache s caches) provider)

abbrev pub record_scope :
    FailureDoc → String → Caches → Result (Option CacheScope) → Caches × Result (Option Entry)
record_scope f provider caches (err e) = (caches, err e)
record_scope f provider caches (ok found) = record_active f provider caches (active_only found)

abbrev pub is_true : Value → Bool
is_true (flag b) = b
is_true _ = false

abbrev pub record_loaded :
    Files
    → (state_path project_root provider : String) → Caches
    → Result FailureDoc
    → Caches × Result (Option Entry)
record_loaded files state_path project_root provider caches (err e) = (caches, err e)
record_loaded files state_path project_root provider caches (ok f) =
    if not (is_true f.cacheable)
    then (caches, ok none)
    else record_scope f provider caches (scope files state_path project_root)

unfoldable pub record_failure :
    Files
    → (state_path project_root : String) → File FailureDoc
    → (expected_provider : String) → Caches
    → Caches × Result (Option Entry)
unfolding load_failure scope load_cache write_entry empty_cache
record_failure files state_path project_root failure_file expected_provider caches =
    record_loaded files state_path project_root expected_provider caches
      (load_failure failure_file expected_provider)

-- The cache file without the entries that are gone; the last one takes the file with it.
unfoldable pub write_rest : CacheScope → CacheDoc → Dict String EntryValue → Caches → Caches
write_rest s d rest caches =
    if is_empty rest
    then delete s.location caches
    else put s.location (doc (record d { entries = entries_of rest })) caches

abbrev pub clear_in :
    CacheScope → CacheDoc → String → Caches → Option EntryValue → Caches × Result Bool
clear_in s d provider caches none = (caches, ok false)
clear_in s d provider caches (some v) =
    (write_rest s d (delete provider (entries_in d.entries)) caches, ok true)

abbrev pub clear_loaded : CacheScope → String → Caches → Option CacheDoc → Caches × Result Bool
clear_loaded s provider caches none = (caches, ok false)
clear_loaded s provider caches (some d) =
    clear_in s d provider caches (lookup provider (entries_in d.entries))

abbrev pub clear_scope : String → Caches → Result (Option CacheScope) → Caches × Result Bool
clear_scope provider caches (err e) = (caches, err e)
clear_scope provider caches (ok none) = (caches, ok false)
clear_scope provider caches (ok (some s)) = clear_loaded s provider caches (load_cache s caches)

unfoldable pub clear_cached_failure :
    Files → (state_path project_root provider : String) → Caches → Caches × Result Bool
unfolding scope load_cache write_rest
clear_cached_failure files state_path project_root provider caches =
    clear_scope provider caches (scope files state_path project_root)

abbrev pub invalidate_chain : Files → String → Value → Caches → Caches × Bool
invalidate_chain files state_path (text chain) caches =
    let location : Location = record {
      directory = files.parent (files.resolve state_path);
      chain_id = chain;
    } in
    if not (is_chain_id chain)
    then (caches, false)
    else (delete location caches, is_there (lookup location caches))
invalidate_chain files state_path _ caches = (caches, false)

-- Of the state only `chain_id` is looked at.
unfoldable pub invalidate_state_cache : Files → String → StateDoc → Caches → Caches × Bool
unfolding is_chain_id
invalidate_state_cache files state_path state caches =
    invalidate_chain files state_path state.chain_id caches
