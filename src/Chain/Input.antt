-- ===== src/Chain/Input.antt =====
-- harness/chain_view.py, parse_tasks: the tasks of a chain from the objects of a JSON list.
use dc_ness.Base.{
  String, string_eq, Bool, not, Option, none, some, List, [], ◌∷◌, map, all, if◌then◌else◌, ◌==◌,
  ◌≡◌, refl, arith, All, Bool-cases, subst, inl, inr,
}
use dc_ness.Chain.{ChainTask, Engine, Closes, substeps_for}
use dc_ness.Chain.Redraw.{IsTask}

-- `strip` and `lower` of texts are Python's.
pub record Python : Type 0 where
  pub strip : String → String
  pub lower : String → String

-- A value of an item, by what the code asks of it; `null` is a missing one too. A text that is left
-- blank in the list of sub-steps is in `texts`, and any other element makes the list `other`.
pub data Value : Type 0 where
  null other : Value
  text : String → Value
  texts : List String → Value

pub record Item : Type 0 where
  pub name : Value
  pub engine : Value
  pub closes : Value
  pub substeps : Value

-- What a ValueError says.
pub data Error : Type 0 where
  not_an_object name_missing bad_substeps engine_or_substeps bad_engine bad_closes : Error

pub data Result {ℓ} (A : Type ℓ) : Type ℓ where
  ok : A → Result A
  err : Error → Result A

infixl 5 ◌>>=◌
abbrev pub ◌>>=◌ {ℓ κ} : {A : Type ℓ} {B : Type κ} → Result A → (A → Result B) → Result B
ok a >>= f = f a
err e >>= f = err e

abbrev parse_closes : Value → Result (Option Closes)
parse_closes null = ok none
parse_closes (text s) =
    if s == ""
    then ok none
    else if s == "story"
    then ok (some Closes.story)
    else if s == "epic"
    then ok (some Closes.epic)
    else err bad_closes
parse_closes (texts xs) = err bad_closes
parse_closes other = err bad_closes

module _ (py : Python) where
  abbrev pub has_text : String → Bool
  has_text s = not (py.strip s == "")

  abbrev parse_name : Value → Result String
  parse_name (text s) = if has_text s then ok (py.strip s) else err name_missing
  parse_name _ = err name_missing

  abbrev parse_substeps : Value → Result (Option (List String))
  parse_substeps null = ok none
  parse_substeps (text s) = if s == "" then ok none else err bad_substeps
  parse_substeps (texts []) = ok none
  parse_substeps (texts (x ∷ xs)) =
      if all has_text (x ∷ xs) then ok (some (map py.strip (x ∷ xs))) else err bad_substeps
  parse_substeps other = err bad_substeps

  unfoldable normalize_engine : Value → Result (Option Engine)
  normalize_engine (text s) =
      let key = py.lower (py.strip s) in
      if key == "build-worker"
      then ok (some Engine.build_worker)
      else if key == "ui-build-worker"
      then ok (some Engine.ui_build_worker)
      else err bad_engine
  normalize_engine _ = err bad_engine

  abbrev pub without_engine : Option (List String) → Result (Option Engine)
  without_engine none = err engine_or_substeps
  without_engine (some steps) = ok none

  abbrev parse_engine : Value → Option (List String) → Result (Option Engine)
  parse_engine null substeps = without_engine substeps
  parse_engine (text s) substeps =
      if s == "" then without_engine substeps else normalize_engine (text s)
  parse_engine v substeps = normalize_engine v

  unfoldable parse_item : Option Item → Result ChainTask
  unfolding normalize_engine
  parse_item none = err not_an_object
  parse_item (some item) = do
    name ← parse_name item.name
    substeps ← parse_substeps item.substeps
    engine ← parse_engine item.engine substeps
    closes ← parse_closes item.closes
    ok (record { name = name; engine = engine; closes = closes; substeps = substeps })

  -- An element that is no object is `none`.
  unfoldable pub parse_tasks : List (Option Item) → Result (List ChainTask)
  unfolding parse_item
  parse_tasks [] = ok []
  parse_tasks (item ∷ items) = do t ← parse_item item; ts ← parse_tasks items; ok (t ∷ ts)

  -- A task has sub-steps of its own or an engine.
  abbrev HasSteps : Option (List String) → Option Engine → Type 0
  HasSteps none none = ⊥
  HasSteps _ _ = Unit

  without_engine-HasSteps :
      (s : Option (List String)) (e : Option Engine) → without_engine s ≡ ok e → HasSteps s e
  without_engine-HasSteps none none h = cc
  without_engine-HasSteps none (some e) h = tt
  without_engine-HasSteps (some s) e h = tt

  normalize_engine-HasSteps :
      (v : Value) (s : Option (List String)) (e : Option Engine)
      → normalize_engine v ≡ ok e
      → HasSteps s e
  unfolding normalize_engine
  normalize_engine-HasSteps v (some s) e h = tt
  normalize_engine-HasSteps v none (some e) h = tt
  normalize_engine-HasSteps null none none h = cc
  normalize_engine-HasSteps other none none h = cc
  normalize_engine-HasSteps (texts xs) none none h = cc
  normalize_engine-HasSteps (text t) none none h = ground arith

  parse_engine-HasSteps :
      (v : Value) (s : Option (List String)) (e : Option Engine)
      → parse_engine v s ≡ ok e
      → HasSteps s e
  parse_engine-HasSteps null s e h = without_engine-HasSteps s e h
  parse_engine-HasSteps other s e h = normalize_engine-HasSteps other s e h
  parse_engine-HasSteps (texts xs) s e h = normalize_engine-HasSteps (texts xs) s e h
  parse_engine-HasSteps (text t) s e h = elim (Bool-cases (t == "")) [
    | inl q ↦
        without_engine-HasSteps s e
          (subst (λ b. (if b then without_engine s else normalize_engine (text t)) ≡ ok e) q h)
    | inr q ↦
        normalize_engine-HasSteps (text t) s e
          (subst (λ b. (if b then without_engine s else normalize_engine (text t)) ≡ ok e) q h)
  ]

  HasSteps-IsTask :
      (name : String) (s : Option (List String)) (e : Option Engine) (c : Option Closes)
      → HasSteps s e
      → IsTask (record { name = name; engine = e; closes = c; substeps = s })
  unfolding substeps_for
  HasSteps-IsTask name none none c h = absurd h
  HasSteps-IsTask name none (some e) c h = refl
  HasSteps-IsTask name (some s) e c h = refl

  abbrev Accepted : Result ChainTask → Type 0
  Accepted (ok t) = IsTask t
  Accepted (err e) = Unit

  -- The last steps of an item, as its values were parsed.
  finish-Accepted :
      (name : String) (s : Option (List String)) (re : Result (Option Engine))
      (rc : Result (Option Closes))
      → ((e : Option Engine) → re ≡ ok e → HasSteps s e)
      → Accepted (
          re >>= (λ e.
            rc >>= (λ c. ok (record { name = name; engine = e; closes = c; substeps = s }))))
  finish-Accepted name s (err e) rc f = tt
  finish-Accepted name s (ok e) (err x) f = tt
  finish-Accepted name s (ok e) (ok c) f = HasSteps-IsTask name s e c (f e refl)

  parse_item-Accepted : (item : Option Item) → Accepted (parse_item item)
  unfolding parse_item
  parse_item-Accepted none = tt
  parse_item-Accepted (some item) = go (parse_name item.name) (parse_substeps item.substeps)
    where
      go :
          (rn : Result String) (rs : Result (Option (List String)))
          → Accepted (
              rn >>= (λ name. rs >>= (λ s. parse_engine item.engine s >>= (λ e.
                parse_closes item.closes
                >>= (λ c. ok (record { name = name; engine = e; closes = c; substeps = s }))))))
      go (err e) rs = tt
      go (ok name) (err e) = tt
      go (ok name) (ok s) =
          finish-Accepted name s (parse_engine item.engine s) (parse_closes item.closes)
            (λ e h. parse_engine-HasSteps item.engine s e h)

  abbrev pub AllAccepted : Result (List ChainTask) → Type 0
  AllAccepted (ok ts) = All IsTask ts
  AllAccepted (err e) = Unit

  pub parse_tasks-AllAccepted : (items : List (Option Item)) → AllAccepted (parse_tasks items)
  unfolding parse_tasks
  parse_tasks-AllAccepted [] = tt
  parse_tasks-AllAccepted (item ∷ items) =
      go (parse_item item) (parse_tasks items) (parse_item-Accepted item)
        (parse_tasks-AllAccepted items)
    where
      go :
          (r : Result ChainTask) (rs : Result (List ChainTask))
          → Accepted r
          → AllAccepted rs
          → AllAccepted (r >>= (λ t. rs >>= (λ ts. ok (t ∷ ts))))
      go (err e) rs h k = tt
      go (ok t) (err e) h k = tt
      go (ok t) (ok ts) h k = (h, k)
