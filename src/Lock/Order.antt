-- ===== src/Lock/Order.antt =====
-- harness/merge_lock.py, the order of merges: `check_merge_order` and the tasks that stand before
-- one in its story; and the decisions of harness/guard_core.py.
pub mod Siblings
pub mod Gate
use dc_ness.Base.{
  is_empty, ℕ, String, string_eq, Text, text_eq, codes, Bool, true, false, not, ◌&&◌, ◌||◌, Option,
  none, some, List, [], ◌∷◌, map, if◌then◌else◌, ◌==◌, ltb, nat_beq,
}
use dc_ness.Base.Python.{strip}
use dc_ness.Board.Records.{Platform, Board, canonical_path}
use dc_ness.Board.Operations.{is_completed}
use dc_ness.Lock.Frontmatter.{Digits, extract_frontmatter, get_text, task_index_i, story_is_numeric}

pub record GuardContext : Type 0 where
  pub guard : String
  pub category : String

-- What the text of a decision's reason says.
pub data Reason : Type 0 where
  not_applicable all_completed no_claim : Reason
  not_proven : (names : List String) → Reason
  claim_state : (state : String) → Reason

pub record GuardDecision : Type 0 where
  pub context : GuardContext
  pub allowed : Bool
  pub reason : Reason
  pub evidence : List String

abbrev pub allow : GuardContext → Reason → GuardDecision
allow context reason = record { context = context; allowed = true; reason = reason; evidence = [] }

abbrev pub block : GuardContext → Reason → List String → GuardDecision
block context reason evidence = record {
  context = context;
  allowed = false;
  reason = reason;
  evidence = evidence;
}

-- The files: the text of one, where it can be read, and the sorted `*.md` beside one.
pub record Tree : Type 0 where
  pub read : String → Option Text
  pub impls_beside : String → List String

abbrev pub is_below : ℕ → Option ℕ → Bool
is_below current_i none = false
is_below current_i (some i) = ltb i current_i

-- Whether a file with this text stands before the task with this index in the story.
unfoldable pub stands_before : Digits → (story : Text) (current_i : ℕ) → Text → Bool
stands_before digit story current_i text =
    let fm = extract_frontmatter text in
    strip (get_text (codes "story") fm) == strip story
    && is_below current_i (task_index_i digit (get_text (codes "task_index") fm))

abbrev pub joined : Bool → String → Option (List String) → Option (List String)
joined b path none = none
joined b path (some paths) = some (if b then path ∷ paths else paths)

abbrev pub order_context : GuardContext
order_context = record { guard = "merge-order"; category = "story_order" }

module _ (p : Platform) (tree : Tree) (digit : Digits) where
  -- The loop over the files beside the current one; `none` where reading one raises.
  unfoldable pub prior_among :
      (current : String) (story : Text) (current_i : ℕ) → List String → Option (List String)
  unfolding stands_before
  prior_among current story current_i [] = some []
  prior_among current story current_i (path ∷ paths) =
      let rest = prior_among current story current_i paths in
      if canonical_path p path == canonical_path p current then rest else elim (tree.read path) [
        | none ↦ none
        | some text ↦ joined (stands_before digit story current_i text) path rest
      ]

  -- The siblings before a task with this story and this index.
  abbrev pub prior_of :
      (current : String) (story : Text) (current_i : Option ℕ) → Option (List String)
  prior_of current story none = some []
  prior_of current story (some current_i) =
      if not (story_is_numeric digit story)
      then some []
      else prior_among current story current_i (tree.impls_beside current)

  unfoldable pub prior_sibling_impls : (current : String) → Option (List String)
  unfolding prior_among
  prior_sibling_impls current = elim (tree.read current) [
    | none ↦ none
    | some text ↦
        let fm = extract_frontmatter text in
        prior_of current (get_text (codes "story") fm)
          (task_index_i digit (get_text (codes "task_index") fm))
  ]

  -- A sibling whose completion is known.
  abbrev pub is_proven : Board → (external_completed : String → Bool) → String → Bool
  is_proven b external_completed path =
      let canonical = canonical_path p path in
      is_completed p canonical b || external_completed canonical

  -- `blocked` in check_merge_order
  unfoldable pub blocked_by :
      Board → (external_completed : String → Bool) → List String → List String
  blocked_by b external_completed [] = []
  blocked_by b external_completed (path ∷ paths) =
      let rest = blocked_by b external_completed paths in
      if is_proven b external_completed path then rest else canonical_path p path ∷ rest

  abbrev pub decide : (prior blocked : List String) → GuardDecision
  decide [] blocked = allow order_context not_applicable
  decide (x ∷ xs) [] = allow order_context all_completed
  decide (x ∷ xs) (c ∷ cs) = block order_context (not_proven (map p.name (c ∷ cs))) (c ∷ cs)

  abbrev pub decided :
      Board → (external_completed : String → Bool) → Option (List String) → Option GuardDecision
  decided b external_completed none = none
  decided b external_completed (some prior) =
      some (decide prior (blocked_by b external_completed prior))

  -- `none` where reading a file raises.
  unfoldable pub check_merge_order :
      Board → (external_completed : String → Bool) → (impl_path : String) → Option GuardDecision
  unfolding prior_sibling_impls blocked_by
  check_merge_order b external_completed impl_path =
      decided b external_completed (prior_sibling_impls (canonical_path p impl_path))

-- What `git log <base_ref> --grep <slug> --format=%H -n 1` answers: its exit code and its output, or
-- `none` where the process fails or takes too long.
abbrev pub GitLog : Type 0
GitLog = (base_ref slug : String) → Option (ℕ × Text)

unfoldable pub external_git_completed :
    Platform → GitLog → (base_ref : String) → (impl_path : String) → Bool
unfolding strip
external_git_completed p git base_ref impl_path = elim (git base_ref (p.stem impl_path)) [
  | none ↦ false
  | some (code, out) ↦ nat_beq code 0 && not (is_empty (strip out))
]
