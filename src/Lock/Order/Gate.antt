-- ===== src/Lock/Order/Gate.antt =====
-- When `check_merge_order` lets a merge go ahead.
use dc_ness.Base.{
  is_empty, ℕ, String, string_eq, Text, Bool, true, Option, none, some, List, [], ◌∷◌, ◌==◌, mem,
  ◌≡◌, ◌↔◌, ◌⊎◌, refl, sym, ◌∙◌, subst, ap, arith, eq_iff, Bool-cases, inl, inr,
}
use dc_ness.Board.Records.{Platform, Board, canonical_path}
use dc_ness.Board.Operations.{is_completed}
use dc_ness.Lock.Frontmatter.{Digits, story_is_numeric}
use dc_ness.Lock.Order.{
  GuardDecision, Tree, prior_among, prior_sibling_impls, is_proven, blocked_by, decide, decided,
  check_merge_order,
}
use dc_ness.Lock.Order.Siblings.{story_in, index_in, IsPrior, prior_among-mem}

module _ (p : Platform) (tree : Tree) (digit : Digits) (b : Board) (external : String → Bool) where
  -- A task is known to be completed: on the board, or by what is merged.
  abbrev pub IsProven : String → Type 0
  IsProven path =
      (is_completed p (canonical_path p path) b ≡ true) ⊎ (external (canonical_path p path) ≡ true)

  is_proven-IsProven :
      (path : String) → (is_proven p tree digit b external path ≡ true) ↔ IsProven path
  is_proven-IsProven path = (
    (λ h. elim (Bool-cases (is_completed p (canonical_path p path) b)) [
      | inl c ↦ inl c
      | inr c ↦ inr (ground (arith, h, c))
    ]),
    (λ h. ground (arith, h)),
  )

  blocked_by-nil :
      (paths : List String)
      → (is_empty (blocked_by p tree digit b external paths) ≡ true)
        ↔ ((path : String) → mem path paths ≡ true → IsProven path)
  unfolding blocked_by mem
  blocked_by-nil [] = ((λ h path m. cc), (λ h. refl))
  blocked_by-nil (x ∷ paths) = elim (Bool-cases (is_proven p tree digit b external x)) [
    | inl proven ↦ (
      (λ h path m. elim (Bool-cases (x == path)) [
        | inl e ↦ subst IsProven ((eq_iff x path).0 e) ((is_proven-IsProven x).0 proven)
        | inr e ↦ (blocked_by-nil paths).0 (rw proven at h) path (ground (arith, m, e))
      ]),
      (λ h. rw proven ((blocked_by-nil paths).1 (λ path m. h path (ground (arith, m))))),
    )
    | inr open_ ↦ (
      (λ h. ground (arith, h, open_)),
      (λ h.
          let q : is_proven p tree digit b external x ≡ true =
            (is_proven-IsProven x).1 (h x (ground (arith, eq_iff x x))) in
          ground (arith, q, open_)),
    )
  ]

  decide-allowed :
      (prior : List String)
      → ((decide p tree digit prior (blocked_by p tree digit b external prior)).allowed ≡ true)
        ↔ ((path : String) → mem path prior ≡ true → IsProven path)
  unfolding mem
  decide-allowed [] = ((λ h path m. cc), (λ h. refl))
  decide-allowed (x ∷ xs) = go (blocked_by p tree digit b external (x ∷ xs)) refl
    where
      go :
          (blocked : List String)
          → blocked_by p tree digit b external (x ∷ xs) ≡ blocked
          → ((decide p tree digit (x ∷ xs) blocked).allowed ≡ true)
            ↔ ((path : String) → mem path (x ∷ xs) ≡ true → IsProven path)
      go [] e = ((λ h. (blocked_by-nil (x ∷ xs)).0 (ap is_empty e)), (λ h. refl))
      go (c ∷ cs) e = ((λ h. cc), (λ h. ground (arith, e, (blocked_by-nil (x ∷ xs)).1 h)))

  prior_sibling_impls_lem :
      (current : String) (text : Text) (current_i : ℕ)
      → tree.read current ≡ some text
      → story_is_numeric digit (story_in text) ≡ true
      → index_in digit text ≡ some current_i
      → prior_sibling_impls p tree digit current
        ≡ prior_among p tree digit current (story_in text) current_i (tree.impls_beside current)
  unfolding prior_sibling_impls
  prior_sibling_impls_lem current text current_i read numeric indexed =
      ground (arith, read, indexed, numeric)

  same :
      (prior : List String) (d : GuardDecision)
      → decided p tree digit b external (some prior) ≡ some d
      → decide p tree digit prior (blocked_by p tree digit b external prior) ≡ d
  same prior d e = cc

  -- Where a task file gives a numeric story and its index, and the files can be read, its merge is
  -- allowed exactly when every other file beside it that is of the same story and has a smaller
  -- index is completed on the board or, claimed on the board or not, known to be merged.
  pub check_merge_order-allowed :
      (impl_path : String) (text : Text) (current_i : ℕ) (d : GuardDecision)
      → tree.read (canonical_path p impl_path) ≡ some text
      → story_is_numeric digit (story_in text) ≡ true
      → index_in digit text ≡ some current_i
      → check_merge_order p tree digit b external impl_path ≡ some d
      → (d.allowed ≡ true) ↔ (
          (path : String)
          → mem path (tree.impls_beside (canonical_path p impl_path)) ≡ true
          → IsPrior p tree digit (canonical_path p impl_path) (story_in text) current_i path
          → IsProven path)
  unfolding check_merge_order
  check_merge_order-allowed impl_path text current_i d read numeric indexed e =
      go (prior_sibling_impls p tree digit current) refl
    where
      current : String
      current = canonical_path p impl_path

      go :
          (found : Option (List String))
          → prior_sibling_impls p tree digit current ≡ found
          → (d.allowed ≡ true) ↔ (
              (path : String)
              → mem path (tree.impls_beside current) ≡ true
              → IsPrior p tree digit current (story_in text) current_i path
              → IsProven path)
      go none f = ground (arith, e, f)
      go (some prior) f =
          let made : decide p tree digit prior (blocked_by p tree digit b external prior) ≡ d =
            same prior d (rw f at e) in
          let among =
            prior_among-mem p tree digit current (story_in text) current_i
              (tree.impls_beside current) prior
              (sym (prior_sibling_impls_lem current text current_i read numeric indexed) ∙ f) in
          let free = decide-allowed prior in
          (
            (λ h path m pr.
                free.0 (ap (λ (x : GuardDecision). x.allowed) made ∙ h) path
                  ((among path).1 (m, pr))),
            (λ h.
                sym (ap (λ (x : GuardDecision). x.allowed) made)
                ∙ free.1 (λ path m. let (l, pr) = (among path).0 m in h path l pr)),
          )
