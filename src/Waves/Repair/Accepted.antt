-- ===== src/Waves/Repair/Accepted.antt =====
-- The repair of harness/parallel_wave.py against its parser: the rewritten bullets are read.
use dc_ness.Base.{
  ℕ, Text, codes, Bool, true, false, not, none, some, [], ◌∷◌, ◌++◌, ◌≡◌, refl, ap, sym, subst,
  text_eq, ◌∙◌, arith, all, if◌then◌else◌, nat_eq,
}
use dc_ness.Base.Python.{is_space, strip, strip_by, lstrip, rstrip, put_before, words}
use dc_ness.Waves.Header.{strip_inline_comment}
use dc_ness.Waves.Header.Items.{plain, rstrip-kept, all_weaken, not_space}
use dc_ness.Waves.Section.{
  path_char, is_path_like, normalize_path, unquoted, only_path, bullet_path,
  clean_scope_bullet_path,
}
use dc_ness.Waves.Repair.{indent, with_dash, bullet_candidate, replacement}
use dc_ness.Waves.Repair.Normal.{
  path_char-plain, is_path_like-all, GivesNormal, bullet_candidate-GivesNormal,
}

indent-all : (raw : Text) → all is_space (indent raw) ≡ true
unfolding indent
indent-all [] = refl
indent-all (c ∷ t) = ground (arith, indent-all t)

lstrip-indent :
    (p : ℕ → Bool) (i : Text) (x : ℕ) (xs : Text)
    → all p i ≡ true
    → p x ≡ false
    → lstrip p (i ++ x ∷ xs) ≡ x ∷ xs
unfolding lstrip
lstrip-indent p [] x xs h k = ground arith
lstrip-indent p (c ∷ i) x xs h k = ground (arith, lstrip-indent p i x xs)

put_before-append :
    (p : ℕ → Bool) (c : ℕ) (i : Text) (x : ℕ) (xs : Text)
    → put_before p c (i ++ x ∷ xs) ≡ c ∷ i ++ x ∷ xs
put_before-append p c [] x xs = refl
put_before-append p c (d ∷ i) x xs = refl

rstrip-indent :
    (p : ℕ → Bool) (i : Text) (x : ℕ) (xs : Text)
    → rstrip p (x ∷ xs) ≡ x ∷ xs
    → rstrip p (i ++ x ∷ xs) ≡ i ++ x ∷ xs
unfolding rstrip
rstrip-indent p [] x xs h = h
rstrip-indent p (c ∷ i) x xs h =
    ap (put_before p c) (rstrip-indent p i x xs h) ∙ put_before-append p c i x xs

-- Spaces before a text that has none at its end and does not begin with one.
strip-indent :
    (i : Text) (x : ℕ) (xs : Text)
    → all is_space i ≡ true
    → is_space x ≡ false
    → rstrip is_space (x ∷ xs) ≡ x ∷ xs
    → strip (i ++ x ∷ xs) ≡ x ∷ xs
unfolding strip strip_by
strip-indent i x xs h k l =
    ap (lstrip is_space) (rstrip-indent is_space i x xs l) ∙ lstrip-indent is_space i x xs h k

words-plain : (c : ℕ) (t : Text) → all plain (c ∷ t) ≡ true → words (c ∷ t) ≡ (c ∷ t) ∷ []
unfolding words
words-plain c [] h = ground arith
words-plain c (d ∷ t) h = ground (arith, words-plain d t)

strip_inline_comment-path : (t : Text) → all plain t ≡ true → strip_inline_comment t ≡ t
unfolding strip_inline_comment
strip_inline_comment-path [] h = refl
strip_inline_comment-path (c ∷ t) h = ground (arith, strip_inline_comment-path t)

unquoted-path : (c : ℕ) (t : Text) → all path_char (c ∷ t) ≡ true → unquoted (c ∷ t) ≡ c ∷ t
unfolding unquoted
unquoted-path c t h = ground arith

first_not_space : (c : ℕ) (t : Text) → all plain (c ∷ t) ≡ true → is_space c ≡ false
first_not_space c t h = ground arith

rstrip-plain : (t : Text) → all plain t ≡ true → rstrip is_space t ≡ t
rstrip-plain t h = rstrip-kept is_space t (all_weaken plain (λ c. not (is_space c)) not_space t h)

strip-before_path :
    (i : Text) (c : ℕ) (t : Text)
    → all is_space i ≡ true
    → all plain (c ∷ t) ≡ true
    → strip (i ++ c ∷ t) ≡ c ∷ t
strip-before_path i c t h k = strip-indent i c t h (first_not_space c t k) (rstrip-plain (c ∷ t) k)

comment-before_path : (t : Text) → all plain t ≡ true → strip_inline_comment (b' ' ∷ t) ≡ b' ' ∷ t
unfolding strip_inline_comment
comment-before_path t h = ap (λ u. b' ' ∷ u) (strip_inline_comment-path t h)

only_path-path : (p : Text) → is_path_like p ≡ true → only_path (p ∷ []) ≡ some (normalize_path p)
only_path-path p h = ap (λ b. if b then some (normalize_path p) else none) h

bullet_path-path :
    (c : ℕ) (t : Text)
    → is_path_like (c ∷ t) ≡ true
    → bullet_path (b' ' ∷ c ∷ t) ≡ some (normalize_path (c ∷ t))
unfolding bullet_path
bullet_path-path c t h =
    let k = is_path_like-all c t h in
    let l = all_weaken path_char plain path_char-plain (c ∷ t) k in
    ap (λ u. only_path (words (unquoted (strip u)))) (comment-before_path (c ∷ t) l)
    ∙ ap (λ u. only_path (words (unquoted u))) (strip-before_path (b' ' ∷ []) c t refl l)
    ∙ ap (λ u. only_path (words u)) (unquoted-path c t k)
    ∙ ap only_path (words-plain c t l)
    ∙ only_path-path (c ∷ t) h

dash-append : (t : Text) → codes "- " ++ t ≡ b'-' ∷ b' ' ∷ t
dash-append t = refl

bullet-clean :
    (i : Text) (c : ℕ) (t : Text)
    → all is_space i ≡ true
    → is_path_like (c ∷ t) ≡ true
    → clean_scope_bullet_path (strip (i ++ (codes "- " ++ c ∷ t))) ≡ some (normalize_path (c ∷ t))
unfolding clean_scope_bullet_path is_space
bullet-clean i c t h k =
    let l = all_weaken path_char plain path_char-plain (c ∷ t) (is_path_like-all c t k) in
    ap (λ u. clean_scope_bullet_path (strip (i ++ u))) (dash-append (c ∷ t))
    ∙ ap clean_scope_bullet_path (
        strip-indent i b'-' (b' ' ∷ c ∷ t) h refl
          (rstrip-indent is_space (codes "- ") c t (rstrip-plain (c ∷ t) l)))
    ∙ bullet_path-path c t k

with_dash-new :
    (raw new : Text) (c : ℕ) (t : Text)
    → with_dash raw (some (c ∷ t)) ≡ some new
    → indent raw ++ (codes "- " ++ c ∷ t) ≡ new
with_dash-new raw new c t h = ground arith

with_dash-clean :
    (raw new p : Text)
    → with_dash raw (some p) ≡ some new
    → is_path_like p ≡ true
    → clean_scope_bullet_path (strip new) ≡ some (normalize_path p)
with_dash-clean raw new [] h k = ground arith
with_dash-clean raw new (c ∷ t) h k =
    ap (λ u. clean_scope_bullet_path (strip u)) (sym (with_dash-new raw new c t h))
    ∙ bullet-clean (indent raw) c t (indent-all raw) k

-- A line that the repair rewrites to a new one for the path that was found in it is a bullet for
-- the parser then, with this path, where the path looks like one by itself.
pub replacement-clean :
    (raw new p : Text)
    → replacement raw ≡ some new
    → bullet_candidate (strip raw) ≡ some p
    → is_path_like p ≡ true
    → clean_scope_bullet_path (strip new) ≡ some p
unfolding replacement
replacement-clean raw new p h e k =
    with_dash-clean raw new p (sym (ap (with_dash raw) e) ∙ h) k
    ∙ ap some (subst GivesNormal e (bullet_candidate-GivesNormal (strip raw)))
