-- ===== src/Base/Sorts.antt =====
-- `sorted` of Python: a stable sort by a key, and the order of texts by code points.
use mathlib.Core.Bool.{Bool, true, false}
use mathlib.Core.List.{List, [], ◌∷◌}
use dc_ness.Base.Tests.{if◌then◌else◌, ltb, nat_beq}
use dc_ness.Base.Texts.{Text}
use dc_ness.Base.Lists.{All}

unfoldable pub text_leb : Text → Text → Bool
text_leb [] t = true
text_leb (c ∷ s) [] = false
text_leb (c ∷ s) (d ∷ t) =
    let rest = text_leb s t in if ltb c d then true else if nat_beq c d then rest else false

module _ {ℓ} {A : Type ℓ} (key : A → Text) where
  unfoldable pub insert_by : A → List A → List A
  insert_by x [] = x ∷ []
  insert_by x (y ∷ ys) =
      let rest = insert_by x ys in if text_leb (key x) (key y) then x ∷ y ∷ ys else y ∷ rest

  -- `sorted(xs, key=…)`
  unfoldable pub sorted : List A → List A
  unfolding insert_by text_leb
  sorted [] = []
  sorted (x ∷ xs) = insert_by x (sorted xs)

  insert_by-All {κ} :
      (P : A → Type κ) (x : A) (ys : List A) → P x → All P ys → All P (insert_by x ys)
  unfolding insert_by
  insert_by-All P x [] p h = (p, tt)
  insert_by-All P x (y ∷ ys) p h =
      elim (text_leb (key x) (key y))
        as (λ b. All P (if b then x ∷ y ∷ ys else y ∷ insert_by x ys)) [
          | true ↦ (p, h)
          | false ↦ (h.0, insert_by-All P x ys p h.1)
        ]

  pub sorted-All {κ} : (P : A → Type κ) (xs : List A) → All P xs → All P (sorted xs)
  unfolding sorted
  sorted-All P [] h = tt
  sorted-All P (x ∷ xs) h = insert_by-All P x (sorted xs) h.0 (sorted-All P xs h.1)
