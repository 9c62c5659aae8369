-- ===== src/Waves/Header/Items.antt =====
-- The items of harness/parallel_wave.py's predecessors: a slug is cleaned to itself.
use dc_ness.Base.{
  is_empty, ℕ, Text, codes, text_eq, Bool, true, false, not, ◌||◌, Option, none, some, [], ◌∷◌,
  ◌++◌, ◌≡◌, ◌==◌, refl, ap, ◌∙◌, arith, all, mem, nat_eq, nat_beq,
}
use dc_ness.Base.Python.{is_quote, is_space, strip, strip_by, lstrip, rstrip, put_before}
use dc_ness.Waves.Header.{strip_inline_comment, is_backtick, clean_item, is_placeholder}

-- A character of a slug that the parser leaves alone.
abbrev pub plain : ℕ → Bool
plain c = not (
    is_space c
    || (is_quote c || (is_backtick c || (nat_beq c b'#' || (nat_beq c b'<' || nat_beq c b'>')))))

-- A slug as the task files have them.
abbrev pub IsSlug : Text → Type 0
IsSlug t = (all plain t ≡ true) × (is_empty t ≡ false) × ((t == codes "...") ≡ false)

-- An item of the block: a slug, and the comment behind it where there is one.
pub record Item : Type 0 where
  pub slug : Text
  pub comment : Option Text

abbrev pub tail : Option Text → Text
tail none = []
tail (some c) = codes " #" ++ c

abbrev pub item_line : Item → Text
item_line i = codes "  - " ++ i.slug ++ tail i.comment

pub lstrip-kept : (p : ℕ → Bool) (t : Text) → all (λ c. not (p c)) t ≡ true → lstrip p t ≡ t
unfolding lstrip
lstrip-kept p [] h = refl
lstrip-kept p (c ∷ t) h = ground arith

pub rstrip-kept : (p : ℕ → Bool) (t : Text) → all (λ c. not (p c)) t ≡ true → rstrip p t ≡ t
unfolding rstrip
rstrip-kept p [] h = refl
rstrip-kept p (c ∷ []) h = ground arith
rstrip-kept p (c ∷ d ∷ t) h = ground (arith, rstrip-kept p (d ∷ t))

pub all_weaken :
    (p q : ℕ → Bool)
    → ((c : ℕ) → p c ≡ true → q c ≡ true)
    → (t : Text) → all p t ≡ true
    → all q t ≡ true
all_weaken p q f [] h = refl
all_weaken p q f (c ∷ t) h = ground (arith, f c, all_weaken p q f t)

strip_by-plain :
    (p : ℕ → Bool)
    → ((c : ℕ) → plain c ≡ true → not (p c) ≡ true)
    → (t : Text) → all plain t ≡ true
    → strip_by p t ≡ t
unfolding strip_by
strip_by-plain p f t h =
    let k = all_weaken plain (λ c. not (p c)) f t h in
    ap (lstrip p) (rstrip-kept p t k) ∙ lstrip-kept p t k

rstrip-append : (p : ℕ → Bool) (t u : Text) → rstrip p u ≡ [] → rstrip p (t ++ u) ≡ rstrip p t
unfolding rstrip
rstrip-append p [] u h = h
rstrip-append p (c ∷ t) u h = ap (put_before p c) (rstrip-append p t u h)

pub strip_inline_comment-plain :
    (t u : Text) → all plain t ≡ true → strip_inline_comment (t ++ u) ≡ t ++ strip_inline_comment u
unfolding strip_inline_comment
strip_inline_comment-plain [] u h = refl
strip_inline_comment-plain (c ∷ t) u h = ground (arith, strip_inline_comment-plain t u)

rstrip-tail : (o : Option Text) → rstrip is_space (strip_inline_comment (tail o)) ≡ []
unfolding strip_inline_comment rstrip is_space
rstrip-tail none = refl
rstrip-tail (some c) = refl

pub not_space : (c : ℕ) → plain c ≡ true → not (is_space c) ≡ true
not_space c h = ground arith

not_quote : (c : ℕ) → plain c ≡ true → not (is_quote c) ≡ true
not_quote c h = ground arith

not_backtick : (c : ℕ) → plain c ≡ true → not (is_backtick c) ≡ true
not_backtick c h = ground arith

pub strip-plain : (t : Text) → all plain t ≡ true → strip t ≡ t
unfolding strip
strip-plain t h = strip_by-plain is_space not_space t h

strip-comment :
    (t : Text) (o : Option Text)
    → all plain t ≡ true
    → strip (strip_inline_comment (t ++ tail o)) ≡ t
unfolding strip strip_by
strip-comment t o h =
    ap strip (strip_inline_comment-plain t (tail o) h)
    ∙ ap (lstrip is_space)
        (rstrip-append is_space t (strip_inline_comment (tail o)) (rstrip-tail o))
    ∙ strip-plain t h

pub clean_item-item :
    (t : Text) (o : Option Text) → all plain t ≡ true → clean_item (t ++ tail o) ≡ t
unfolding clean_item
clean_item-item t o h =
    ap (λ x. strip (strip_by is_backtick (strip_by is_quote x))) (strip-comment t o h)
    ∙ ap (λ x. strip (strip_by is_backtick x)) (strip_by-plain is_quote not_quote t h)
    ∙ ap strip (strip_by-plain is_backtick not_backtick t h)
    ∙ strip-plain t h

mem-plain : (x : ℕ) → plain x ≡ false → (t : Text) → all plain t ≡ true → mem x t ≡ false
unfolding mem
mem-plain x k [] h = refl
mem-plain x k (c ∷ t) h = ground (arith, mem-plain x k t)

pub is_placeholder-slug : (t : Text) → IsSlug t → is_placeholder t ≡ false
unfolding is_placeholder is_space
is_placeholder-slug t (h, k, l) =
    ground (arith, mem-plain b'<' refl t h, mem-plain b'>' refl t h, l)
