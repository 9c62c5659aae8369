-- ===== src/Waves/Scopes/Conflicts.antt =====
-- What `scopes_disjoint` promises.
use mathlib.Core.Path.{fun_ext}
use dc_ness.Base.{
  Text, text_beq, text_beq_iff, text_eq, starts_with, mem, Bool, true, false, not, ◌&&◌, List, [],
  ◌∷◌, ◌++◌, ◌≡◌, ◌≢◌, refl, sym, ◌∙◌, ap, all, arith, nat_beq_iff,
}
use dc_ness.Waves.Scopes.{
  Regex, slash, glob_dir_prefix, rstrip_slash, paths_overlap, scopes_disjoint,
}

text_beq_comm : (a b : Text) → text_beq a b ≡ text_beq b a
text_beq_comm a b = ground (arith, text_beq_iff a b, text_beq_iff b a)

-- The order of the two paths does not matter.
pub paths_overlap_comm : (re : Regex) (a b : Text) → paths_overlap re a b ≡ paths_overlap re b a
unfolding paths_overlap
paths_overlap_comm re a b =
    ground (arith, text_beq_comm a b, text_beq_comm (glob_dir_prefix a) (glob_dir_prefix b))

all-true : (ys : List Text) → all (λ y. true) ys ≡ true
all-true [] = refl
all-true (y ∷ ys) = all-true ys

all-and : (f g : Text → Bool) (ys : List Text) → all (λ y. f y && g y) ys ≡ (all f ys && all g ys)
all-and f g [] = refl
all-and f g (y ∷ ys) = ground (arith, all-and f g ys)

all_swap :
    (p : Text → Text → Bool) (xs ys : List Text)
    → all (λ x. all (λ y. p x y) ys) xs ≡ all (λ y. all (λ x. p x y) xs) ys
all_swap p [] ys = sym (all-true ys)
all_swap p (x ∷ xs) ys =
    ap (λ b. all (λ y. p x y) ys && b) (all_swap p xs ys)
    ∙ sym (all-and (λ y. p x y) (λ y. all (λ z. p z y) xs) ys)

-- Disjointness of two scopes does not depend on their order.
scopes_disjoint_comm :
    (re : Regex) (a b : List Text) → scopes_disjoint re a b ≡ scopes_disjoint re b a
unfolding scopes_disjoint
scopes_disjoint_comm re a b =
    all_swap (λ x y. not (paths_overlap re x y)) a b
    ∙ ap (λ (q : Text → Text → Bool). all (λ y. all (λ x. q x y) a) b)
        (fun_ext (λ x. fun_ext (λ y. ap not (paths_overlap_comm re x y))))

starts_with-append : (p r : Text) → starts_with (p ++ r) p ≡ true
unfolding starts_with
starts_with-append [] [] = refl
starts_with-append [] (c ∷ r) = refl
starts_with-append (c ∷ p) r = ground (arith, nat_beq_iff c c, starts_with-append p r)

-- Everything below a directory overlaps it.
below-overlaps :
    (re : Regex) (a rest : Text)
    → paths_overlap re a ((rstrip_slash a ++ slash ∷ []) ++ rest) ≡ true
unfolding paths_overlap
below-overlaps re a rest = ground (arith, starts_with-append (rstrip_slash a ++ slash ∷ []) rest)

all-mem :
    (p : Text → Bool) (x : Text) (xs : List Text) → all p xs ≡ true → mem x xs ≡ true → p x ≡ true
unfolding mem
all-mem p x [] h m = cc
all-mem p x (y ∷ ys) h m = ground (arith, all-mem p x ys, text_beq_iff y x)

-- Two paths that keep apart: not the same, and neither begins with the other and a slash.
abbrev pub KeepApart : Text → Text → Type 0
KeepApart a b =
    (a ≢ b)
    × ((rest : Text) → b ≢ (rstrip_slash a ++ slash ∷ []) ++ rest)
    × ((rest : Text) → a ≢ (rstrip_slash b ++ slash ∷ []) ++ rest)

overlap_self : (re : Regex) (a : Text) → paths_overlap re a a ≡ true
unfolding paths_overlap
overlap_self re a = rw ((text_beq_iff a a).1 refl)

no-overlap→KeepApart : (re : Regex) (a b : Text) → paths_overlap re a b ≡ false → KeepApart a b
no-overlap→KeepApart re a b h = (
  (λ e. cc (overlap_self re a)),
  (λ rest e. cc (below-overlaps re a rest)),
  (λ rest e. cc (below-overlaps re b rest, paths_overlap_comm re a b)),
)

-- Where the scopes are disjoint, a path of the one and a path of the other are never the same, and
-- neither begins with the other, without the slashes at its end, and a slash behind it, as a path in
-- that directory does, whatever the regular expressions match. Beside the
-- empty path, to which `./` is parsed, that says only that the other path is neither empty nor begins
-- with a slash.
pub scopes_disjoint-KeepApart :
    (re : Regex) (a b : List Text) (x y : Text)
    → scopes_disjoint re a b ≡ true
    → mem x a ≡ true
    → mem y b ≡ true
    → KeepApart x y
unfolding scopes_disjoint
scopes_disjoint-KeepApart re a b x y h mx my =
    let row = all-mem (λ pa. all (λ pb. not (paths_overlap re pa pb)) b) x a h mx in
    let cell = all-mem (λ pb. not (paths_overlap re x pb)) y b row my in
    no-overlap→KeepApart re x y (ground arith)
