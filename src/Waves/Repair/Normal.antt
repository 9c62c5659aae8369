-- ===== src/Waves/Repair/Normal.antt =====
-- The paths that the repair of harness/parallel_wave.py finds are normalized.
use dc_ness.Base.{
  is_none, is_empty, ℕ, Text, codes, Bool, true, false, not, ◌&&◌, ◌||◌, Option, none, some, List,
  [], ◌∷◌, ◌≡◌, refl, ap, sym, ◌==◌, text_eq, ◌∙◌, arith, all, All, if◌then◌else◌, nat_beq, nat_eq,
}
use dc_ness.Base.Python.{is_space, strip, strip_by}
use dc_ness.Waves.Header.{strip_inline_comment}
use dc_ness.Waves.Header.Items.{plain, strip-plain, all_weaken}
use dc_ness.Waves.Section.{
  path_char, is_path_like, normalize_path, clean_scope_bullet_path, drop_dots,
}
use dc_ness.Waves.Repair.{
  candidates, only_value, plain_words, is_mark, single_path_candidate, bullet_candidate,
}

pub path_char-plain : (c : ℕ) → path_char c ≡ true → plain c ≡ true
unfolding is_space
path_char-plain c h = ground arith

pub is_path_like-all :
    (c : ℕ) (t : Text) → is_path_like (c ∷ t) ≡ true → all path_char (c ∷ t) ≡ true
unfolding is_path_like
is_path_like-all c t h = ground arith

drop_dots-all : (p : ℕ → Bool) (t : Text) → all p t ≡ true → all p (drop_dots t) ≡ true
unfolding drop_dots
drop_dots-all p [] h = refl
drop_dots-all p (c ∷ []) h = h
drop_dots-all p (c ∷ d ∷ t) h = ground (arith, drop_dots-all p t)

-- A text that does not start with `./`.
abbrev is_dotless : Text → Bool
is_dotless [] = true
is_dotless (c ∷ []) = true
is_dotless (c ∷ d ∷ t) = not (nat_beq c b'.' && nat_beq d b'/')

drop_dots-dotless : (t : Text) → is_dotless (drop_dots t) ≡ true
unfolding drop_dots
drop_dots-dotless [] = refl
drop_dots-dotless (c ∷ []) = refl
drop_dots-dotless (c ∷ d ∷ t) = ground (arith, drop_dots-dotless t)

dotless-drop_dots : (t : Text) → is_dotless t ≡ true → drop_dots t ≡ t
unfolding drop_dots
dotless-drop_dots [] h = refl
dotless-drop_dots (c ∷ []) h = refl
dotless-drop_dots (c ∷ d ∷ t) h = ground arith

normalize_path-plain : (t : Text) → all plain t ≡ true → normalize_path t ≡ drop_dots t
unfolding normalize_path
normalize_path-plain t h = ap drop_dots (strip-plain t h)

normalize_path-twice :
    (t : Text) → all plain t ≡ true → normalize_path (normalize_path t) ≡ normalize_path t
normalize_path-twice t h =
    ap normalize_path (normalize_path-plain t h)
    ∙ normalize_path-plain (drop_dots t) (drop_dots-all plain t h)
    ∙ dotless-drop_dots (drop_dots t) (drop_dots-dotless t)
    ∙ sym (normalize_path-plain t h)

is_path_like-plain : (t : Text) → is_path_like t ≡ true → all plain t ≡ true
is_path_like-plain [] h = refl
is_path_like-plain (c ∷ t) h =
    all_weaken path_char plain path_char-plain (c ∷ t) (is_path_like-all c t h)

-- A path that is normalized already.
abbrev pub IsNormal : Text → Type 0
IsNormal p = normalize_path p ≡ p

All-if :
    (b : Bool) (x : Text) (xs : List Text)
    → (b ≡ true → IsNormal x)
    → All IsNormal xs
    → All IsNormal (if b then x ∷ xs else xs)
All-if true x xs f h = (f refl, h)
All-if false x xs f h = h

candidates-IsNormal : (parts : List Text) → All IsNormal (candidates parts)
unfolding candidates
candidates-IsNormal [] = tt
candidates-IsNormal (part ∷ parts) =
    let cand = strip_by is_mark (strip part) in
    All-if (is_path_like cand) (normalize_path cand) (candidates parts)
      (λ h. normalize_path-twice cand (is_path_like-plain cand h)) (candidates-IsNormal parts)

abbrev pub GivesNormal : Option Text → Type 0
GivesNormal none = Unit
GivesNormal (some p) = IsNormal p

GivesNormal-if : (b : Bool) (o : Option Text) → GivesNormal o → GivesNormal (if b then o else none)
GivesNormal-if true o h = h
GivesNormal-if false o h = tt

GivesNormal-unless :
    (b : Bool) (o : Option Text) → GivesNormal o → GivesNormal (if b then none else o)
GivesNormal-unless true o h = tt
GivesNormal-unless false o h = h

only_value-GivesNormal : (ps : List Text) → All IsNormal ps → GivesNormal (only_value ps)
unfolding only_value
only_value-GivesNormal [] h = tt
only_value-GivesNormal (x ∷ []) h = h.0
only_value-GivesNormal (x ∷ y ∷ xs) h =
    GivesNormal-if (x == y) (only_value (y ∷ xs)) (only_value-GivesNormal (y ∷ xs) h.1)

single_path_candidate-GivesNormal : (t : Text) → GivesNormal (single_path_candidate t)
unfolding single_path_candidate
single_path_candidate-GivesNormal t =
    let token = strip (strip_inline_comment t) in
    GivesNormal-unless (is_empty token || token == codes "-")
      (only_value (candidates (plain_words token)))
      (only_value-GivesNormal (candidates (plain_words token))
        (candidates-IsNormal (plain_words token)))

pub bullet_candidate-GivesNormal : (s : Text) → GivesNormal (bullet_candidate s)
bullet_candidate-GivesNormal [] = tt
bullet_candidate-GivesNormal (c ∷ t) =
    GivesNormal-if (nat_beq c b'-' && is_none (clean_scope_bullet_path (c ∷ t)))
      (single_path_candidate t) (single_path_candidate-GivesNormal t)
