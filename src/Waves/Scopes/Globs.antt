-- ===== src/Waves/Scopes/Globs.antt =====
-- The translation of globs to regular expressions.
use dc_ness.Base.{
  ℕ, zero, suc, ◌≤◌, ◌<◌, Text, Bool, true, false, ◌||◌, Option, none, some, [], ◌∷◌, ◌++◌, ◌≡◌,
  refl, ap, length, arith, nat_beq, if◌then◌else◌,
}
use dc_ness.Waves.Scopes.{
  Regex, has_glob, until_close, class_body, char_class, put_front, star_piece, next_piece,
  bracket_piece, glob_regex, glob_to_regex,
}

-- What is left behind a class is not longer than what was read.
abbrev Shorter : ℕ → Option (Text × Text) → Type 0
Shorter n none = Unit
Shorter n (some (before, after)) = length after ≤ n

Shorter-weaken : (n : ℕ) (o : Option (Text × Text)) → Shorter n o → Shorter (suc n) o
Shorter-weaken n none h = tt
Shorter-weaken n (some (before, after)) h = omega arith

Shorter-put_front :
    (n : ℕ) (p : Text) (o : Option (Text × Text)) → Shorter n o → Shorter n (put_front p o)
Shorter-put_front n p none h = tt
Shorter-put_front n p (some (before, after)) h = h

Shorter-if :
    (n : ℕ) (b : Bool) (x y : Option (Text × Text))
    → Shorter n x
    → Shorter n y
    → Shorter n (if b then x else y)
Shorter-if n true x y h k = h
Shorter-if n false x y h k = k

Shorter-until_close : (t : Text) → Shorter (length t) (until_close t)
unfolding until_close
Shorter-until_close [] = tt
Shorter-until_close (c ∷ t) =
    Shorter-if _ (nat_beq c b']') _ (put_front (c ∷ []) (until_close t)) (omega arith) (
      Shorter-weaken _ (put_front (c ∷ []) (until_close t))
        (Shorter-put_front _ (c ∷ []) (until_close t) (Shorter-until_close t)))

Shorter-class_body : (t : Text) → Shorter (length t) (class_body t)
unfolding class_body
Shorter-class_body [] = tt
Shorter-class_body (c ∷ t) =
    Shorter-if _ (nat_beq c b']') (put_front (c ∷ []) (until_close t)) (until_close (c ∷ t))
      (Shorter-weaken _ (put_front (c ∷ []) (until_close t))
        (Shorter-put_front _ (c ∷ []) (until_close t) (Shorter-until_close t)))
      (Shorter-until_close (c ∷ t))

Shorter-char_class : (t : Text) → Shorter (length t) (char_class t)
unfolding char_class
Shorter-char_class [] = tt
Shorter-char_class (c ∷ t) =
    Shorter-if _ (nat_beq c b'!' || nat_beq c b'^') (put_front (c ∷ []) (class_body t))
      (class_body (c ∷ t))
      (Shorter-weaken _ (put_front (c ∷ []) (class_body t))
        (Shorter-put_front _ (c ∷ []) (class_body t) (Shorter-class_body t)))
      (Shorter-class_body (c ∷ t))

length-star_piece : (t : Text) → length (star_piece t).1 ≤ length t
unfolding star_piece
length-star_piece [] = omega arith
length-star_piece (d ∷ []) = ground arith
length-star_piece (d ∷ e ∷ t) = ground arith

module _ (re : Regex) where
  length-bracket_piece :
      (t : Text) (o : Option (Text × Text))
      → Shorter (length t) o
      → length (bracket_piece re t o).1 ≤ length t
  length-bracket_piece t none h = omega arith
  length-bracket_piece t (some (inner, after)) h = h

  length-next_piece : (c : ℕ) (t : Text) → length (next_piece re c t).1 ≤ length t
  unfolding next_piece
  length-next_piece c t =
      ground
        (arith, length-star_piece t, length-bracket_piece t (char_class t) (Shorter-char_class t))

  -- More fuel than the pattern's length changes nothing.
  glob_regex_enough :
      (f g : ℕ) (p : Text) → length p ≤ f → length p ≤ g → glob_regex re f p ≡ glob_regex re g p
  unfolding glob_regex
  glob_regex_enough zero zero [] h k = refl
  glob_regex_enough zero (suc g) [] h k = refl
  glob_regex_enough (suc f) zero [] h k = refl
  glob_regex_enough (suc f) (suc g) [] h k = refl
  glob_regex_enough zero g (c ∷ t) h k = absurd (omega arith)
  glob_regex_enough (suc f) zero (c ∷ t) h k = absurd (omega arith)
  glob_regex_enough (suc f) (suc g) (c ∷ t) h k =
      let shorter = length-next_piece c t in
      ap (λ r. (next_piece re c t).0 ++ r)
        (glob_regex_enough f g (next_piece re c t).1 (omega arith) (omega arith))

-- The translation ends for every pattern: it is one turn of the loop, followed by the translation
-- of what that turn leaves, which is shorter.
glob_to_regex-cons :
    (re : Regex) (c : ℕ) (t : Text)
    → (glob_to_regex re (c ∷ t) ≡ (next_piece re c t).0 ++ glob_to_regex re (next_piece re c t).1)
      × (length (next_piece re c t).1 < length (c ∷ t))
unfolding glob_to_regex
glob_to_regex-cons re c t = (
  ap (λ r. (next_piece re c t).0 ++ r)
      (glob_regex_enough re (length t) _ (next_piece re c t).1 (length-next_piece re c t)
        (omega arith)),
  omega (arith, length-next_piece re c t),
)

-- The characters, each escaped.
abbrev pub escaped : Regex → Text → Text
escaped re [] = []
escaped re (c ∷ t) = re.escape (c ∷ []) ++ escaped re t

-- A pattern with no wildcard is translated to its characters, each of them escaped.
pub glob_to_regex-literal :
    (re : Regex) (p : Text) → has_glob p ≡ false → glob_to_regex re p ≡ escaped re p
unfolding glob_to_regex has_glob next_piece
glob_to_regex-literal re [] h = refl
glob_to_regex-literal re (c ∷ t) h =
    ground (arith, glob_to_regex-literal re t, glob_to_regex-cons re c t)
