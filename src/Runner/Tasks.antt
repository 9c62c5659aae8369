-- ===== src/Runner/Tasks.antt =====
-- harness/story_runner.py, the state and its transitions: marking a task, and looking one up.
use dc_ness.Base.{
  ℕ, suc, String, string_eq, Bool, false, not, ◌&&◌, ◌||◌, Option, none, some, List, [], ◌∷◌,
  if◌then◌else◌, ◌==◌, mem,
}
use dc_ness.Base.Dict.{Dict}

-- A task as `to_state` makes it.
pub record Task : Type 0 where
  pub id : ℕ
  pub path : String
  pub slug : String
  pub title : String
  pub story : String
  pub task_index : String
  pub status : String
  pub attempts : ℕ
  pub commit : Option String
  pub provider : Option String
  pub note : Option String

-- A reference to a branch: the default branch, or that of a story, named where it is sealed.
pub data BranchRef : Type 0 where
  default_branch : String → BranchRef
  story_branch : (story : String) → (branch : Option String) → BranchRef

pub record Seal : Type 0 where
  pub branch : String
  pub tip : String
  pub pr_base : BranchRef

pub record State : Type 0 where
  pub chain_id : String
  pub scope : String
  pub project_root : String
  pub tasks : List Task
  pub sealed_stories : Dict String Seal

-- What a ValueError says.
pub data Error : Type 0 where
  invalid_status task_not_found commit_required note_required : Error
  seal_requires_story_pr story_not_found no_story_branch commit_not_in_head : Error

pub data Result {ℓ} (A : Type ℓ) : Type ℓ where
  ok : A → Result A
  err : Error → Result A

infixl 5 ◌>>=◌
abbrev pub ◌>>=◌ {ℓ κ} : {A : Type ℓ} {B : Type κ} → Result A → (A → Result B) → Result B
ok a >>= f = f a
err e >>= f = err e

abbrev pub valid_statuses : List String
valid_statuses = "pending" ∷ "running" ∷ "completed" ∷ "error" ∷ "blocked" ∷ []

-- `str` of a number, and whether a text has more than white space, are Python's.
pub record Python : Type 0 where
  pub str : ℕ → String
  pub has_text : String → Bool

module _ (py : Python) where
  unfoldable pub refers : String → Task → Bool
  refers ref t = py.str t.id == ref || (t.path == ref || t.slug == ref)

  unfoldable pub find_task : List Task → String → Result Task
  unfolding refers
  find_task [] ref = err task_not_found
  find_task (t ∷ ts) ref = let rest = find_task ts ref in if refers ref t then ok t else rest

  -- A change of the task that find_task returns, which is an object of the list.
  unfoldable pub update_task : List Task → String → (Task → Task) → List Task
  unfolding refers
  update_task [] ref f = []
  update_task (t ∷ ts) ref f =
      let rest = update_task ts ref f in if refers ref t then f t ∷ ts else t ∷ rest

  abbrev pub given {ℓ} : {A : Type ℓ} → Option A → Option A → Option A
  given none old = old
  given (some new) old = some new

  -- `bool(value)` of an optional text.
  abbrev pub truthy : Option String → Bool
  truthy none = false
  truthy (some s) = not (s == "")

  abbrev pub has_note : Option String → Bool
  has_note none = false
  has_note (some s) = not (s == "") && py.has_text s

  abbrev pub marked : (status : String) (commit provider note : Option String) → Task → Task
  marked status commit provider note t = record t {
    status = status;
    attempts = if status == "running" then suc t.attempts else t.attempts;
    commit = given commit t.commit;
    provider = given provider t.provider;
    note = given note t.note;
  }

  unfoldable pub mark_task :
      State → String → (status : String) (commit provider note : Option String) → Result State
  unfolding find_task update_task
  mark_task s ref status commit provider note =
      if not (mem status valid_statuses)
      then err invalid_status
      else (find_task s.tasks ref >>= λ t.
          if status == "completed" && not (truthy commit || truthy t.commit)
          then err commit_required
          else if (status == "error" || status == "blocked") && not (has_note note)
          then err note_required
          else ok
              (record s { tasks = update_task s.tasks ref (marked status commit provider note) }))
