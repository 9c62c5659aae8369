-- ===== src/Waves/Header.antt =====
-- harness/parallel_wave.py, what the judgement reads of a task's frontmatter: its predecessors and
-- the mark that keeps it serial.
pub mod Items
pub mod Declared
use dc_ness.Base.{
  is_empty, ℕ, Text, codes, text_eq, nat_eq, Bool, false, ◌&&◌, ◌||◌, Option, none, some, List, [],
  ◌∷◌, if◌then◌else◌, ◌==◌, nat_beq, starts_with, get_last?, mem, leb, ◌+◌, map,
}
use dc_ness.Base.Python.{
  fence, is_quote, is_space, strip, strip_by, lstrip, splitlines, split, ends_with_char,
  drop_prefix, drop_last,
}

unfoldable pub strip_inline_comment : Text → Text
strip_inline_comment [] = []
strip_inline_comment (c ∷ t) =
    let rest = strip_inline_comment t in if nat_beq c b'#' then [] else c ∷ rest

-- The lines up to the closing fence; empty where it is missing.
unfoldable pub lines_to_fence : List Text → Option (List Text)
unfolding strip
lines_to_fence [] = none
lines_to_fence (line ∷ lines) =
    let rest = lines_to_fence lines in
    if strip line == fence
    then some []
    else elim rest [ none ↦ none | some out ↦ some (line ∷ out) ]

abbrev pub fenced_lines : List Text → List Text
fenced_lines [] = []
fenced_lines (first ∷ lines) =
    if strip first == fence then elim (lines_to_fence lines) [ none ↦ [] | some out ↦ out ] else []

unfoldable pub extract_frontmatter_lines : Text → List Text
unfolding strip lines_to_fence splitlines
extract_frontmatter_lines text = fenced_lines (splitlines text)

abbrev pub is_backtick : ℕ → Bool
is_backtick c = nat_beq c b'`'

unfoldable pub clean_item : Text → Text
unfolding strip_inline_comment strip strip_by
clean_item raw = strip (strip_by is_backtick (strip_by is_quote (strip (strip_inline_comment raw))))

unfoldable pub is_placeholder : Text → Bool
unfolding mem
is_placeholder it = mem b'<' it || (mem b'>' it || it == codes "...")

-- One turn of the loop: the cleaned item, and what the rest of the loop makes of the others.
abbrev pub with_item : Text → Option (List Text) → Option (List Text)
with_item it rest =
    if is_empty it
    then rest
    else if is_placeholder it
    then none
    else elim rest [ none ↦ none | some cleaned ↦ some (it ∷ cleaned) ]

-- The loop over the items; `none` where a placeholder is left.
unfoldable pub clean_items : List Text → Option (List Text)
unfolding clean_item is_placeholder
clean_items [] = some []
clean_items (raw ∷ items) = with_item (clean_item raw) (clean_items items)

abbrev pub non_empty : Option (List Text) → Option (List Text)
non_empty none = none
non_empty (some []) = none
non_empty (some (x ∷ xs)) = some (x ∷ xs)

unfoldable pub finalize_dep_items : List Text → Option (List Text)
unfolding clean_items
finalize_dep_items items = non_empty (clean_items items)

abbrev pub behind_colon : Text → Option Text
behind_colon [] = none
behind_colon (c ∷ t) = if nat_beq c b':' then some t else none

-- What follows the colon of a line that `^key\s*:` matches.
unfoldable pub field : Text → Text → Option Text
unfolding drop_prefix lstrip is_space
field key line = elim (drop_prefix key line) [
  | none ↦ none
  | some t ↦ behind_colon (lstrip is_space t)
]

-- The group of `(.+)$` behind the spaces of `t`: of spaces only, the last one is left to it.
abbrev pub group_of : (t stripped : Text) → Option Text
group_of t [] = elim (get_last? t) [ none ↦ none | some c ↦ some (c ∷ []) ]
group_of t (c ∷ u) = some (c ∷ u)

-- The group of `\s*(.+)$`.
unfoldable pub rest_group : Text → Option Text
unfolding lstrip is_space
rest_group t = group_of t (lstrip is_space t)

abbrev pub behind_dash : Text → Option Text
behind_dash [] = none
behind_dash (d ∷ []) = none
behind_dash (d ∷ c ∷ t) = if nat_beq d b'-' && is_space c then rest_group t else none

-- The group of `^\s+-\s+(.+)$`.
unfoldable pub block_item : Text → Option Text
unfolding rest_group lstrip is_space
block_item [] = none
block_item (c ∷ t) = if is_space c then behind_dash (lstrip is_space t) else none

abbrev pub is_skipped : Text → Bool
is_skipped stripped = is_empty stripped || starts_with stripped (codes "#")

abbrev pub item_then : Option Text → (skipped : Bool) → List Text → List Text
item_then none skipped rest = if skipped then rest else []
item_then (some item) skipped rest = item ∷ rest

-- The items of the block below the key, up to the next key.
unfoldable pub block_items : List Text → List Text
unfolding block_item strip starts_with
block_items [] = []
block_items (line ∷ lines) =
    item_then (block_item line) (is_skipped (strip line)) (block_items lines)

abbrev pub of_block : List Text → Option (List Text)
of_block [] = none
of_block (item ∷ items) = finalize_dep_items (item ∷ items)

abbrev pub of_inner : Text → Option (List Text)
of_inner inner = if is_empty inner then some [] else finalize_dep_items (split b',' inner)

-- The value on the key's own line, and the lines below it.
unfoldable pub of_value : Text → List Text → Option (List Text)
unfolding strip strip_inline_comment block_items finalize_dep_items split starts_with ends_with_char
    drop_last
of_value value lines =
    if is_empty value
    then of_block (block_items lines)
    else if starts_with value (codes "[") && ends_with_char b']' value
    then of_inner (strip (drop_last (elim value [ [] ↦ [] | c ∷ t ↦ t ])))
    else none

-- What the first line with the key says; `rest` is what the lines below say.
abbrev pub of_field :
    Option Text → (lines : List Text) → (rest : Option (List Text)) → Option (List Text)
of_field none lines rest = rest
of_field (some value) lines rest = of_value (strip (strip_inline_comment value)) lines

unfoldable pub parse_depends_on : List Text → Option (List Text)
unfolding field of_value strip strip_inline_comment
parse_depends_on [] = none
parse_depends_on (line ∷ lines) =
    of_field (field (codes "depends_on") line) lines (parse_depends_on lines)

-- `lower` on the letters of ASCII; no other character is lowered to a letter of the words below.
abbrev pub to_lower : ℕ → ℕ
to_lower c = if leb b'A' c && leb c b'Z' then c + 32 else c

abbrev pub serial_words : List Text
serial_words = codes "serial" ∷ codes "false" ∷ codes "no" ∷ codes "off" ∷ []

abbrev pub is_serial_mark : Text → Bool
is_serial_mark value =
    mem (map to_lower (strip_by is_quote (strip (strip_inline_comment value)))) serial_words

abbrev pub marker_value : Option Text → Option Text
marker_value none = none
marker_value (some t) = rest_group t

unfoldable pub parse_parallel_marker : List Text → Bool
unfolding field rest_group strip strip_by strip_inline_comment mem
parse_parallel_marker [] = false
parse_parallel_marker (line ∷ lines) =
    let rest = parse_parallel_marker lines in
    elim (marker_value (field (codes "parallel") line)) [
      | none ↦ rest
      | some value ↦ is_serial_mark value
    ]
