-- ===== src/Waves/Planner/Embeds.antt =====
-- Which tasks `list.remove` takes out of the remaining ones.
use mathlib.Core.List.Perm
use mathlib.Core.List.{Perm}
use dc_ness.Base.{
  suc, ◌+◌, text_beq_iff, true, ◌≡◌, List, [], ◌∷◌, ◌++◌, arith, length, Bool-cases, inl, inr,
}
use dc_ness.Waves.Tasks.{ImplTask, task_beq}
use dc_ness.Waves.Planner.{slugs, remove, remove_all}

pub slug-task_beq : (a b : ImplTask) → task_beq a b ≡ true → a.slug ≡ b.slug
unfolding task_beq
slug-task_beq a b h = ground (arith, text_beq_iff a.slug b.slug)

-- `cs` can be found in `xs` in this order, up to the program's equality of tasks.
pub data Embeds : List ImplTask → List ImplTask → Type 0 where
  nothing : {xs : List ImplTask} → Embeds [] xs
  skip : {cs xs : List ImplTask} {x : ImplTask} → Embeds cs xs → Embeds cs (x ∷ xs)
  here :
      {c x : ImplTask} {cs xs : List ImplTask}
      → task_beq x c ≡ true
      → Embeds cs xs
      → Embeds (c ∷ cs) (x ∷ xs)

Embeds-tail : {c : ImplTask} {cs xs : List ImplTask} → Embeds (c ∷ cs) xs → Embeds cs xs
Embeds-tail (skip e) = skip (Embeds-tail e)
Embeds-tail (here h e) = skip e

remove-Embeds :
    {c : ImplTask} {cs xs : List ImplTask} → Embeds (c ∷ cs) xs → Embeds cs (remove c xs)
unfolding remove
remove-Embeds {c} (skip {x = x} e) = elim (Bool-cases (task_beq x c)) [
  | inl same ↦ rw same (Embeds-tail e)
  | inr other ↦ rw other (skip (remove-Embeds e))
]
remove-Embeds {c} (here {x = x} h e) = rw h e

slugs-remove-perm :
    {c : ImplTask} {cs xs : List ImplTask}
    → Embeds (c ∷ cs) xs
    → Perm (c.slug ∷ slugs (remove c xs)) (slugs xs)
unfolding remove
slugs-remove-perm {c} (skip {x = x} e) = elim (Bool-cases (task_beq x c)) [
  | inl same ↦ rw same (rw (slug-task_beq x c same) (Perm.refl _))
  | inr other ↦ rw other (Perm.trans (Perm.swap _ _ _) (Perm.cons x.slug (slugs-remove-perm e)))
]
slugs-remove-perm {c} (here {x = x} h e) = rw h (rw (slug-task_beq x c h) (Perm.refl _))

length-remove :
    {c : ImplTask} {cs xs : List ImplTask}
    → Embeds (c ∷ cs) xs
    → suc (length (remove c xs)) ≡ length xs
unfolding remove
length-remove {c} (skip {x = x} e) = ground (arith, length-remove e)
length-remove {c} (here h e) = ground arith

-- Removing what embeds takes out those slugs, each as often as it was there.
pub slugs-remove_all-perm :
    {cs xs : List ImplTask} → Embeds cs xs → Perm (slugs cs ++ slugs (remove_all cs xs)) (slugs xs)
unfolding remove_all
slugs-remove_all-perm {cs = []} e = Perm.refl _
slugs-remove_all-perm {cs = c ∷ cs} e =
    Perm.trans (Perm.cons c.slug (slugs-remove_all-perm {cs = cs} (remove-Embeds e)))
      (slugs-remove-perm e)

pub length-remove_all :
    {cs xs : List ImplTask} → Embeds cs xs → length cs + length (remove_all cs xs) ≡ length xs
unfolding remove_all
length-remove_all {cs = []} e = omega arith
length-remove_all {cs = c ∷ cs} e =
    omega (arith, length-remove e, length-remove_all {cs = cs} (remove-Embeds e))
