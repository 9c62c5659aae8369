-- ===== src/Lock/Frontmatter.antt =====
-- harness/merge_lock.py, what the order of merges reads of a task file: its frontmatter, the story
-- and the position in the story.
use dc_ness.Base.{
  ℕ, ◌+◌, ◌*◌, Text, text_eq, Bool, true, false, Option, none, some, List, [], ◌∷◌, if◌then◌else◌,
  ◌==◌,
}
use dc_ness.Base.Dict.{Dict, lookup, put}
use dc_ness.Base.Python.{fence, is_quote, strip, strip_by, splitlines, split_once}

-- One line's entry: `key: value`, with quotes taken off the value.
unfoldable pub with_entry : Text → Dict Text Text → Dict Text Text
unfolding split_once strip strip_by put
with_entry line out = elim (split_once b':' line) [
  | none ↦ out
  | some (key, value) ↦ put (strip key) (strip_by is_quote (strip value)) out
]

-- The loop over the lines behind the first fence.
unfoldable pub entries_from : Dict Text Text → List Text → Dict Text Text
unfolding with_entry strip
entries_from out [] = out
entries_from out (line ∷ lines) =
    let rest = entries_from (with_entry line out) lines in if strip line == fence then out else rest

abbrev pub entries_of : List Text → Dict Text Text
entries_of [] = []
entries_of (first ∷ lines) = if strip first == fence then entries_from [] lines else []

unfoldable pub extract_frontmatter : Text → Dict Text Text
unfolding entries_from splitlines
extract_frontmatter text = entries_of (splitlines text)

-- `fm.get(key, "")`
unfoldable pub get_text : Text → Dict Text Text → Text
unfolding lookup
get_text key fm = elim (lookup key fm) [ none ↦ [] | some value ↦ value ]

-- The decimal value of a character in Unicode, which `\d` and `int` go by.
abbrev pub Digits : Type 0
Digits = ℕ → Option ℕ

-- `int` of a text of digits, on the digits read so far; `none` where a character is no digit.
unfoldable pub int_from : Digits → ℕ → Text → Option ℕ
int_from digit n [] = some n
int_from digit n (c ∷ t) = elim (digit c) [ none ↦ none | some d ↦ int_from digit (10 * n + d) t ]

-- A text that `\d+` matches, with its value.
unfoldable pub number : Digits → Text → Option ℕ
unfolding int_from
number digit [] = none
number digit (c ∷ t) = int_from digit 0 (c ∷ t)

abbrev pub both : Option ℕ → Option ℕ → Option ℕ
both (some i) (some n) = some i
both _ _ = none

-- `i` of `i/n`
unfoldable pub task_index_i : Digits → Text → Option ℕ
unfolding number split_once strip
task_index_i digit value = elim (split_once b'/' (strip value)) [
  | none ↦ none
  | some (i, n) ↦ both (number digit i) (number digit n)
]

unfoldable pub story_is_numeric : Digits → Text → Bool
unfolding number strip
story_is_numeric digit value = elim (number digit (strip value)) [ none ↦ false | some n ↦ true ]
