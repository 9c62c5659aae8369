-- ===== src/Waves/Planner/Equality.antt =====
-- The program's equality of tasks is reflexive.
use dc_ness.Base.{
  Text, text_eq, text_beq_iff, mem, mem-append, mem_self, Bool, true, false, ◌||◌, Option, none,
  some, List, [], ◌∷◌, ◌++◌, ◌≡◌, refl, subst, all, append_assoc, arith,
}
use dc_ness.Waves.Tasks.{ImplTask, task_beq, set_beq, deps_beq, depends_beq, bool_beq}

pub ||-true : (b : Bool) → (b || true) ≡ true
||-true true = refl
||-true false = refl

-- The elements of a list are members of every list that ends in it.
all-mem_suffix : (xs zs : List Text) → all (λ x. mem x (zs ++ xs)) xs ≡ true
unfolding mem
all-mem_suffix [] zs = refl
all-mem_suffix (x ∷ xs) zs =
    rw (mem-append x zs (x ∷ xs), mem_self x xs, ||-true (mem x zs))
      (subst (λ l. all (λ y. mem y l) xs ≡ true) (append_assoc zs (x ∷ []) xs)
        (all-mem_suffix xs (zs ++ x ∷ [])))

deps_beq_refl : (xs : List Text) → deps_beq xs xs ≡ true
unfolding deps_beq
deps_beq_refl [] = refl
deps_beq_refl (x ∷ xs) = ground (arith, text_beq_iff x x, deps_beq_refl xs)

set_beq_refl : (xs : List Text) → set_beq xs xs ≡ true
unfolding set_beq
set_beq_refl xs = rw (all-mem_suffix xs [])

depends_beq_refl : (d : Option (List Text)) → depends_beq d d ≡ true
depends_beq_refl none = refl
depends_beq_refl (some xs) = deps_beq_refl xs

bool_beq_refl : (b : Bool) → bool_beq b b ≡ true
bool_beq_refl true = refl
bool_beq_refl false = refl

pub task_beq_refl : (t : ImplTask) → task_beq t t ≡ true
unfolding task_beq
task_beq_refl t = ground (
  arith,
  text_beq_iff t.slug t.slug,
  text_beq_iff t.path t.path,
  depends_beq_refl t.depends_on,
  set_beq_refl t.scope_paths,
  bool_beq_refl t.scope_ambiguous,
  bool_beq_refl t.force_serial,
)
