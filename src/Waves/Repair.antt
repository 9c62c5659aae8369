-- ===== src/Waves/Repair.antt =====
-- harness/parallel_wave.py, the repair of the bullets of a scope section.
pub mod Places
pub mod Changes
pub mod Normal
pub mod Accepted
use dc_ness.Base.{
  is_none, is_empty, ℕ, suc, Text, codes, text_eq, nat_eq, Bool, true, false, not, ◌&&◌, ◌||◌,
  Option, none, some, List, [], ◌∷◌, ◌++◌, if◌then◌else◌, ◌==◌, nat_beq, starts_with, mem, map,
}
use dc_ness.Base.Python.{is_space, strip, strip_by, rstrip, splitlines, words, ends_with_char}
use dc_ness.Waves.Header.{strip_inline_comment}
use dc_ness.Waves.Section.{
  is_path_like, normalize_path, is_scope_header, is_next_header, clean_scope_bullet_path,
}

-- The loop of `t.replace(cc, "")`: `held` says that the character before is a `c` that is held back.
abbrev pub pair_step : (c x : ℕ) (held : Bool) → Text → Text
pair_step c x true rest = if nat_beq x c then rest else c ∷ x ∷ rest
pair_step c x false rest = if nat_beq x c then rest else x ∷ rest

unfoldable pub without_pair_from : ℕ → (held : Bool) → Text → Text
without_pair_from c held [] = if held then c ∷ [] else []
without_pair_from c held (x ∷ t) =
    pair_step c x held (without_pair_from c (not held && nat_beq x c) t)

-- `t.replace(cc, "")` of a doubled character.
unfoldable pub without_pair : ℕ → Text → Text
unfolding without_pair_from
without_pair c t = without_pair_from c false t

-- `t.replace(c, with)` of one character.
unfoldable pub replace_char : ℕ → Text → Text → Text
replace_char c new [] = []
replace_char c new (x ∷ t) =
    let rest = replace_char c new t in if nat_beq x c then new ++ rest else x ∷ rest

-- Whether a match of `\([^)]*\)` goes on behind the character `c` with the text `t` after it.
abbrev pub in_parens : (inside : Bool) → ℕ → Text → Bool
in_parens true c t = not (nat_beq c b')')
in_parens false c t = nat_beq c b'(' && mem b')' t

-- `re.sub(r"\([^)]*\)", " ", t)`; `inside` says that a match has begun.
unfoldable pub without_parens : (inside : Bool) → Text → Text
unfolding mem
without_parens inside [] = []
without_parens inside (c ∷ t) =
    let goes_on = in_parens inside c t in
    let rest = without_parens goes_on t in
    if goes_on then rest else if inside then b' ' ∷ rest else c ∷ rest

abbrev pub is_mark : ℕ → Bool
is_mark c = mem c (codes ":;,.[]{}")

unfoldable pub candidates : List Text → List Text
unfolding strip_by strip is_path_like normalize_path mem
candidates [] = []
candidates (part ∷ parts) =
    let rest = candidates parts in
    let cand = strip_by is_mark (strip part) in
    if is_path_like cand then normalize_path cand ∷ rest else rest

-- The only value of a list, however often it stands there: `list(dict.fromkeys(…))` of length one.
unfoldable pub only_value : List Text → Option Text
only_value [] = none
only_value (x ∷ []) = some x
only_value (x ∷ y ∷ xs) = let rest = only_value (y ∷ xs) in if x == y then rest else none

abbrev pub plain_words : Text → List Text
plain_words token = words (
    replace_char b',' (codes " ")
      (without_parens false (replace_char b'`' [] (without_pair b'_' (without_pair b'*' token)))))

unfoldable pub single_path_candidate : Text → Option Text
unfolding strip strip_inline_comment without_pair replace_char without_parens words candidates
    only_value
single_path_candidate raw =
    let token = strip (strip_inline_comment raw) in
    if is_empty token || token == codes "-"
    then none
    else only_value (candidates (plain_words token))

-- `raw[: len(raw) - len(raw.lstrip())]`
unfoldable pub indent : Text → Text
unfolding is_space
indent [] = []
indent (c ∷ t) = let rest = indent t in if is_space c then c ∷ rest else []

pub record Change : Type 0 where
  pub line : ℕ
  pub before : Text
  pub after : Text

-- The path that takes the place of a line's content, where the line is rewritten.
abbrev pub bullet_candidate : Text → Option Text
bullet_candidate [] = none
bullet_candidate (c ∷ t) =
    if nat_beq c b'-' && is_none (clean_scope_bullet_path (c ∷ t))
    then single_path_candidate t
    else none

abbrev pub with_dash : Text → Option Text → Option Text
with_dash raw none = none
with_dash raw (some []) = none
with_dash raw (some (c ∷ t)) =
    let replacement = indent raw ++ (codes "- " ++ c ∷ t) in
    if replacement == raw then none else some replacement

-- What takes the place of a line of the section.
unfoldable pub replacement : Text → Option Text
unfolding strip clean_scope_bullet_path single_path_candidate indent
replacement raw = with_dash raw (bullet_candidate (strip raw))

abbrev pub Repaired : Type 0
Repaired = List Text × List Change

abbrev pub repair_line : ℕ → Text → Option Text → Repaired → Repaired
repair_line number raw none (out, changes) = (raw ∷ out, changes)
repair_line number raw (some new) (out, changes) =
    (new ∷ out, record { line = number; before = rstrip is_space raw; after = new } ∷ changes)

-- Whether the section goes on at the line.
abbrev pub in_section : (in_scope : Bool) → (stripped : Text) → Bool
in_section in_scope stripped = in_scope && not (is_next_header stripped)

-- What the loop writes in place of the line.
abbrev pub rewritten : (in_scope : Bool) → Text → Option Text
rewritten in_scope raw =
    if is_scope_header (strip raw)
    then none
    else if in_section in_scope (strip raw)
    then replacement raw
    else none

-- The loop over the lines, from the line with this number on.
unfoldable pub repair_from : (in_scope : Bool) → ℕ → List Text → Repaired
unfolding strip is_scope_header is_next_header replacement rstrip is_space
repair_from in_scope number [] = ([], [])
repair_from in_scope number (raw ∷ lines) =
    let stripped = strip raw in
    repair_line number raw (rewritten in_scope raw)
      (repair_from (is_scope_header stripped || in_section in_scope stripped) (suc number) lines)

-- `"\n".join(lines)`
unfoldable pub join_lines : List Text → Text
join_lines [] = []
join_lines (l ∷ []) = l
join_lines (l ∷ m ∷ lines) = l ++ 10 ∷ join_lines (m ∷ lines)

unfoldable pub normalize_scope_text : Text → Text × List Change
unfolding splitlines repair_from join_lines ends_with_char
normalize_scope_text text =
    let (out, changes) = repair_from false 1 (splitlines text) in
    (join_lines out ++ (if ends_with_char 10 text then 10 ∷ [] else []), changes)
