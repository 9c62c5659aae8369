-- ===== src/Base/Python.antt =====
-- Python's operations on texts, over their code points: `strip`, `splitlines`, `split`.
use Prim.Native.Nat.{ℕ}
use mathlib.Core.Bool.{Bool, false, ◌&&◌, ◌||◌}
use mathlib.Core.List.{List, [], ◌∷◌}
use mathlib.Core.Option.{Option, none, some}
use dc_ness.Base.Tests.{if◌then◌else◌, nat_beq, leb}
use dc_ness.Base.Texts.{Text, codes}

abbrev between : ℕ → ℕ → ℕ → Bool
between lo hi c = leb lo c && leb c hi

-- `str.isspace` of a character.
unfoldable pub is_space : ℕ → Bool
is_space c =
    nat_beq c 32
    || (between 9 13 c
        || (between 28 31 c
            || (nat_beq c 133
                || (nat_beq c 160
                    || (nat_beq c 5760
                        || (between 8192 8202 c
                            || (between 8232 8233 c
                                || (nat_beq c 8239 || (nat_beq c 8287 || nat_beq c 12288)))))))))

-- The ends of lines of `str.splitlines`.
unfoldable pub is_line_end : ℕ → Bool
is_line_end c = between 10 13 c || (between 28 30 c || (nat_beq c 133 || between 8232 8233 c))

-- `t.lstrip(…)` of the characters that pass the test.
unfoldable pub lstrip : (ℕ → Bool) → Text → Text
lstrip p [] = []
lstrip p (c ∷ t) = let rest = lstrip p t in if p c then rest else c ∷ t

abbrev pub put_before : (ℕ → Bool) → ℕ → Text → Text
put_before p c [] = if p c then [] else c ∷ []
put_before p c (x ∷ t) = c ∷ x ∷ t

-- `t.rstrip(…)`
unfoldable pub rstrip : (ℕ → Bool) → Text → Text
rstrip p [] = []
rstrip p (c ∷ t) = put_before p c (rstrip p t)

unfoldable pub strip_by : (ℕ → Bool) → Text → Text
unfolding lstrip rstrip
strip_by p t = lstrip p (rstrip p t)

unfoldable pub strip : Text → Text
unfolding strip_by is_space
strip t = strip_by is_space t

-- A character put before the first line.
abbrev pub onto_first : ℕ → List Text → List Text
onto_first c [] = (c ∷ []) ∷ []
onto_first c (l ∷ ls) = (c ∷ l) ∷ ls

-- `after_cr` says that a carriage return ended the line before.
unfoldable pub lines_from : (after_cr : Bool) → Text → List Text
unfolding is_line_end
lines_from after_cr [] = []
lines_from after_cr (c ∷ t) =
    let rest = lines_from (nat_beq c 13) t in
    if after_cr && nat_beq c 10
    then rest
    else if is_line_end c
    then [] ∷ rest
    else onto_first c rest

-- `t.splitlines()`
unfoldable pub splitlines : Text → List Text
unfolding lines_from
splitlines t = lines_from false t

-- `t.split(c, 1)` where the character is in the text.
unfoldable pub split_once : ℕ → Text → Option (Text × Text)
split_once c [] = none
split_once c (x ∷ t) =
    let rest = split_once c t in
    if nat_beq x c
    then some ([], t)
    else elim rest [ none ↦ none | some (before, after) ↦ some (x ∷ before, after) ]

-- `t.split(c)`
unfoldable pub split : ℕ → Text → List Text
split c [] = [] ∷ []
split c (x ∷ t) = let rest = split c t in if nat_beq x c then [] ∷ rest else onto_first x rest

-- `t.endswith` of one character.
unfoldable pub ends_with_char : ℕ → Text → Bool
ends_with_char c [] = false
ends_with_char c (x ∷ []) = nat_beq x c
ends_with_char c (x ∷ y ∷ t) = ends_with_char c (y ∷ t)

-- A character put before the first word of the text `t`, whose words are `ws`.
abbrev pub onto_word : ℕ → Text → List Text → List Text
onto_word c [] ws = (c ∷ []) ∷ ws
onto_word c (x ∷ t) ws = if is_space x then (c ∷ []) ∷ ws else onto_first c ws

-- `t.split()`
unfoldable pub words : Text → List Text
unfolding is_space
words [] = []
words (c ∷ t) = let rest = words t in if is_space c then rest else onto_word c t rest

-- What stands behind the prefix `p`.
unfoldable pub drop_prefix : (p t : Text) → Option Text
drop_prefix [] t = some t
drop_prefix (p ∷ ps) [] = none
drop_prefix (p ∷ ps) (c ∷ t) = let rest = drop_prefix ps t in if nat_beq c p then rest else none

-- `t[:-1]`
unfoldable pub drop_last : Text → Text
drop_last [] = []
drop_last (c ∷ []) = []
drop_last (c ∷ d ∷ t) = c ∷ drop_last (d ∷ t)

abbrev pub fence : Text
fence = codes "---"

abbrev pub is_quote : ℕ → Bool
is_quote c = nat_beq c b'\'' || nat_beq c b'"'
