-- ===== src/Cache/Scope.antt =====
-- harness/provider_failure_cache.py, `_scope`: the chain that a story-run state names, and where its
-- cache lies.
use dc_ness.Base.{
  ℕ, String, string_eq, codes, Bool, false, not, ◌&&◌, ◌||◌, Option, none, some, [], ◌∷◌,
  if◌then◌else◌, ◌==◌, leb, nat_beq, length, all, any,
}
use dc_ness.Cache.Records.{
  Value, text, is_number, is_text, File, no_file, TaskItem, no_object, status, TasksField, no_list,
  items, StateDoc, Location, location_eq, CacheScope, root_mismatch, Result, ok, err, ◌>>=◌,
  read_json,
}

-- Path.resolve, the parent of a path, and the files of story-run states, by their resolved paths.
pub record Files : Type 0 where
  pub resolve : String → String
  pub parent : String → String
  pub states : String → File StateDoc

abbrev pub is_chain_char : ℕ → Bool
is_chain_char c =
    (leb b'A' c && leb c b'Z')
    || ((leb b'a' c && leb c b'z')
        || ((leb b'0' c && leb c b'9') || (nat_beq c b'_' || nat_beq c b'-')))

-- `_CHAIN_ID.fullmatch`
unfoldable pub is_chain_id : String → Bool
is_chain_id s =
    leb 1 (length (codes s)) && (leb (length (codes s)) 128 && all is_chain_char (codes s))

abbrev pub is_open : TaskItem → Bool
is_open no_object = false
is_open (status v) = not (is_text "completed" v)

-- The checks of _scope, one field after the other.
abbrev pub scope_of_tasks :
    (directory root chain : String) → TasksField → Result (Option CacheScope)
scope_of_tasks directory root chain no_list = ok none
scope_of_tasks directory root chain (items []) = ok none
scope_of_tasks directory root chain (items (t ∷ ts)) = ok (
    some (record {
      location = record { directory = directory; chain_id = chain };
      chain_id = chain;
      project_root = root;
      active = any is_open (t ∷ ts);
    }))

abbrev pub scope_of_chain :
    (directory root : String) → TasksField → Value → Result (Option CacheScope)
scope_of_chain directory root tasks (text chain) =
    if not (is_chain_id chain) then ok none else scope_of_tasks directory root chain tasks
scope_of_chain directory root tasks _ = ok none

abbrev pub scope_of_root :
    Files → (directory root : String) → StateDoc → Value → Result (Option CacheScope)
scope_of_root files directory root s (text state_root) =
    if state_root == ""
    then ok none
    else if not (files.resolve state_root == root)
    then err root_mismatch
    else scope_of_chain directory root s.tasks s.chain_id
scope_of_root files directory root s _ = ok none

abbrev pub scope_of_state :
    Files → (directory root : String) → StateDoc → Result (Option CacheScope)
scope_of_state files directory root s =
    if not (is_number 2 s.schema_version) || not (is_text "dcness-story-run" s.kind)
    then ok none
    else scope_of_root files directory root s s.project_root

abbrev pub scope_of_file :
    Files → (directory root : String) → File StateDoc → Result (Option CacheScope)
scope_of_file files directory root no_file = ok none
scope_of_file files directory root file =
    read_json file >>= λ s. scope_of_state files directory root s

unfoldable pub scope : Files → (state_path project_root : String) → Result (Option CacheScope)
unfolding is_chain_id is_number is_text read_json
scope files state_path project_root =
    let resolved = files.resolve state_path in
    scope_of_file files (files.parent resolved) (files.resolve project_root) (files.states resolved)

unfoldable pub cache_path_for_state :
    Files → (state_path project_root : String) → Result (Option Location)
unfolding scope
cache_path_for_state files state_path project_root =
    scope files state_path project_root >>= λ found.
    ok (elim found [ none ↦ none | some s ↦ some s.location ])
