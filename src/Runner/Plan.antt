-- ===== src/Runner/Plan.antt =====
-- harness/story_runner.py, the making of a run's state: the tasks of the files that were found, the
-- checks of their order, and `build_state`.
pub mod Dependencies
pub mod Contiguity
pub mod Start
mod Samples
use dc_ness.Base.{
  ℕ, ◌+◌, String, string_eq, Bool, true, not, ◌&&◌, Option, none, some, List, [], ◌∷◌, ◌++◌,
  if◌then◌else◌, ◌==◌, nat_beq, ltb, mem, length,
}
use dc_ness.Base.Dict.{Dict, lookup, put}
use dc_ness.Runner.Tasks.{Task, State}

pub record ImplTask : Type 0 where
  pub path : String
  pub slug : String
  pub story : String
  pub task_index : String
  pub title : String
  pub depends_on : Option (List String)

unfoldable pub to_state : ImplTask → ℕ → Task
to_state t task_id = record {
  id = task_id;
  path = t.path;
  slug = t.slug;
  title = t.title;
  story = t.story;
  task_index = t.task_index;
  status = "pending";
  attempts = 0;
  commit = none;
  provider = none;
  note = none;
}

-- What a ValueError of `build_state` says.
pub data PlanError : Type 0 where
  invalid_scope many_stories : PlanError
  non_contiguous : (stories : List String) → PlanError
  dependency_order : (task_and_dependency : List (String × String)) → PlanError

pub data Planned {ℓ} (A : Type ℓ) : Type ℓ where
  ok : A → Planned A
  err : PlanError → Planned A

abbrev pub or_empty : Option (List ℕ) → List ℕ
or_empty none = []
or_empty (some indexes) = indexes

-- `story_indexes.setdefault(task.story, []).append(index)`, for the tasks from an index on.
unfoldable pub story_indexes : ℕ → List ImplTask → Dict String (List ℕ) → Dict String (List ℕ)
unfolding lookup put
story_indexes index [] d = d
story_indexes index (t ∷ ts) d =
    story_indexes (index + 1) ts (put t.story (or_empty (lookup t.story d) ++ index ∷ []) d)

-- `all(right == left + 1 …)`
unfoldable pub is_consecutive : List ℕ → Bool
is_consecutive [] = true
is_consecutive (i ∷ []) = true
is_consecutive (i ∷ j ∷ rest) = nat_beq j (i + 1) && is_consecutive (j ∷ rest)

unfoldable pub crossing_stories : Dict String (List ℕ) → List String
unfolding is_consecutive
crossing_stories [] = []
crossing_stories ((story, indexes) ∷ d) =
    let rest = crossing_stories d in if is_consecutive indexes then rest else story ∷ rest

abbrev pub contiguity_of : List String → Planned (Unit {0})
contiguity_of [] = ok tt
contiguity_of (story ∷ stories) = err (non_contiguous (story ∷ stories))

unfoldable pub validate_story_contiguity : List ImplTask → Planned (Unit {0})
unfolding story_indexes crossing_stories
validate_story_contiguity tasks = contiguity_of (crossing_stories (story_indexes 0 tasks []))

-- `{task.slug: index for …}`: a later task of the same slug takes the place.
unfoldable pub positions : ℕ → List ImplTask → Dict String ℕ → Dict String ℕ
unfolding put
positions index [] d = d
positions index (t ∷ ts) d = positions (index + 1) ts (put t.slug index d)

abbrev pub is_before : ℕ → Option ℕ → Bool
is_before index none = true
is_before index (some dependency_index) = ltb dependency_index index

abbrev pub deps_of : ImplTask → List String
deps_of t = elim t.depends_on [ none ↦ [] | some deps ↦ deps ]

unfoldable pub late_deps : Dict String ℕ → ℕ → ImplTask → List String → List (String × String)
unfolding lookup
late_deps d index t [] = []
late_deps d index t (dep ∷ deps) =
    let rest = late_deps d index t deps in
    if is_before index (lookup dep d) then rest else (t.path, dep) ∷ rest

unfoldable pub order_violations : Dict String ℕ → ℕ → List ImplTask → List (String × String)
unfolding late_deps
order_violations d index [] = []
order_violations d index (t ∷ ts) =
    late_deps d index t (deps_of t) ++ order_violations d (index + 1) ts

abbrev pub order_of : List (String × String) → Planned (Unit {0})
order_of [] = ok tt
order_of (v ∷ vs) = err (dependency_order (v ∷ vs))

unfoldable pub validate_dependency_order : List ImplTask → Planned (Unit {0})
unfolding positions order_violations
validate_dependency_order tasks = order_of (order_violations (positions 0 tasks []) 0 tasks)

infixl 5 ◌>>◌
abbrev pub ◌>>◌ {ℓ} : {A : Type ℓ} → Planned (Unit {0}) → Planned A → Planned A
ok u >> k = k
err e >> k = err e

unfoldable pub to_states : ℕ → List ImplTask → List Task
unfolding to_state
to_states idx [] = []
to_states idx (t ∷ ts) = to_state t idx ∷ to_states (idx + 1) ts

-- The elements of `{task["story"] for task in tasks}`.
unfoldable pub story_ids : List ImplTask → List String
unfolding mem
story_ids [] = []
story_ids (t ∷ ts) = let rest = story_ids ts in if mem t.story rest then rest else t.story ∷ rest

abbrev pub valid_scopes : List String
valid_scopes = "auto" ∷ "story" ∷ "epic" ∷ []

abbrev pub resolved_scope : String → ℕ → String
resolved_scope scope stories =
    let resolved = if scope == "auto" && nat_beq stories 1 then "story" else scope in
    if resolved == "auto" then "epic" else resolved

abbrev pub new_state : (chain_id project_root scope : String) → List ImplTask → State
new_state chain_id project_root scope tasks = record {
  chain_id = chain_id;
  scope = scope;
  project_root = project_root;
  tasks = to_states 1 tasks;
  sealed_stories = [];
}

-- The tasks are those of the files that `discover_tasks` found; the identity of the chain is fresh.
unfoldable pub build_state : List ImplTask → (scope chain_id project_root : String) → Planned State
unfolding validate_story_contiguity validate_dependency_order to_states story_ids
build_state tasks scope chain_id project_root =
    let stories = length (story_ids tasks) in
    let resolved = resolved_scope scope stories in
    if not (mem scope valid_scopes)
    then err invalid_scope
    else validate_story_contiguity tasks
      >> validate_dependency_order tasks
      >> (if resolved == "story" && ltb 1 stories
          then err many_stories
          else ok (new_state chain_id project_root resolved tasks))
