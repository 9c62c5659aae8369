-- ===== src/Waves/Section.antt =====
-- harness/parallel_wave.py, the section of a task file that lists what may be changed: its paths,
-- and the repair of its bullets.
pub mod Bullets
use dc_ness.Base.{
  is_empty, ℕ, suc, Text, codes, text_eq, nat_eq, Bool, true, false, not, ◌&&◌, ◌||◌, Option, none,
  some, List, [], ◌∷◌, ◌++◌, if◌then◌else◌, ◌==◌, nat_beq, starts_with, mem, any, all, leb,
}
use dc_ness.Base.Python.{
  is_space, strip, strip_by, lstrip, rstrip, splitlines, words, ends_with_char, drop_prefix,
  drop_last,
}
use dc_ness.Waves.Tasks.{ImplTask}
use dc_ness.Waves.Header.{
  strip_inline_comment, extract_frontmatter_lines, parse_depends_on, parse_parallel_marker,
}

abbrev pub is_alnum : ℕ → Bool
is_alnum c =
    (leb b'A' c && leb c b'Z') || ((leb b'a' c && leb c b'z') || (leb b'0' c && leb c b'9'))

abbrev pub first_char : ℕ → Bool
first_char c = is_alnum c || (nat_beq c b'_' || nat_beq c b'.')

abbrev pub path_char : ℕ → Bool
path_char c = first_char c || (nat_beq c b'/' || (nat_beq c b'*' || nat_beq c b'-'))

-- `\.[A-Za-z0-9]+$`
unfoldable pub has_extension : Text → Bool
has_extension [] = false
has_extension (c ∷ t) =
    let rest = has_extension t in (nat_beq c b'.' && (not (is_empty t) && all is_alnum t)) || rest

unfoldable pub is_path_like : Text → Bool
unfolding has_extension mem
is_path_like [] = false
is_path_like (c ∷ t) =
    (first_char c && all path_char t) && (mem b'/' (c ∷ t) || has_extension (c ∷ t))

unfoldable pub drop_dots : Text → Text
drop_dots [] = []
drop_dots (c ∷ []) = c ∷ []
drop_dots (c ∷ d ∷ t) =
    let rest = drop_dots t in if nat_beq c b'.' && nat_beq d b'/' then rest else c ∷ d ∷ t

unfoldable pub normalize_path : Text → Text
unfolding drop_dots strip
normalize_path token = drop_dots (strip token)

-- The end of a pattern of `_INHERENT_HIGH_RISK_RE`: one of the characters, or the end of the path.
abbrev pub ends_at : (ℕ → Bool) → Text → Bool
ends_at p [] = true
ends_at p (c ∷ t) = p c || (nat_beq c 10 && is_empty t)

-- The same, behind an optional `s`.
abbrev pub ends_plural : (ℕ → Bool) → Text → Bool
ends_plural p [] = true
ends_plural p (c ∷ t) = ends_at p (c ∷ t) || (nat_beq c b's' && ends_at p t)

abbrev pub is_slash : ℕ → Bool
is_slash c = nat_beq c b'/'

abbrev pub is_break : ℕ → Bool
is_break c = nat_beq c b'.' || (nat_beq c b'/' || (nat_beq c b'*' || nat_beq c b'-'))

abbrev pub follows : Text → (Text → Bool) → Text → Bool
follows word ends t = elim (drop_prefix word t) [ none ↦ false | some rest ↦ ends rest ]

-- A match of the patterns behind their `(^|/)`.
unfoldable pub risky_at : Text → Bool
unfolding drop_prefix
risky_at t =
    follows (codes "migration") (ends_plural is_slash) t
    || (follows (codes "alembic") (ends_at is_slash) t
        || (follows (codes ".env") (ends_at is_break) t
            || (follows (codes "secret") (ends_plural is_break) t
                || follows (codes "credential") (ends_plural is_break) t)))

unfoldable pub risky_behind_slash : Text → Bool
unfolding risky_at
risky_behind_slash [] = false
risky_behind_slash (c ∷ t) = let rest = risky_behind_slash t in (is_slash c && risky_at t) || rest

unfoldable pub scope_inherent_high_risk : List Text → Bool
unfolding risky_at risky_behind_slash
scope_inherent_high_risk paths = any (λ p. risky_at p || risky_behind_slash p) paths

-- `^###\s+수정\s*허용\s*$`, behind `###\s+` and behind the first word.
abbrev pub is_second_word : Text → Bool
is_second_word t = elim (drop_prefix (codes "허용") (lstrip is_space t)) [
  | none ↦ false
  | some rest ↦ all is_space rest
]

abbrev pub is_title : Text → Bool
is_title [] = false
is_title (c ∷ t) = is_space c && elim (drop_prefix (codes "수정") (lstrip is_space t)) [
  | none ↦ false
  | some rest ↦ is_second_word rest
]

unfoldable pub is_scope_header : Text → Bool
unfolding drop_prefix lstrip is_space
is_scope_header s = elim (drop_prefix (codes "###") s) [ none ↦ false | some t ↦ is_title t ]

abbrev pub starts_space : Text → Bool
starts_space [] = false
starts_space (c ∷ t) = is_space c

-- `^#{2,4}\s`
unfoldable pub is_next_header : Text → Bool
unfolding drop_prefix is_space
is_next_header s =
    follows (codes "##") starts_space s
    || (follows (codes "###") starts_space s || follows (codes "####") starts_space s)

-- A token without the backticks around it.
unfoldable pub unquoted : Text → Text
unfolding strip ends_with_char drop_last
unquoted [] = []
unquoted (c ∷ t) =
    if nat_beq c b'`' && (ends_with_char b'`' (c ∷ t) && not (is_empty t))
    then strip (drop_last t)
    else c ∷ t

abbrev pub only_path : List Text → Option Text
only_path [] = none
only_path (part ∷ []) = if is_path_like part then some (normalize_path part) else none
only_path (part ∷ q ∷ parts) = none

-- The path of a bullet, of what stands behind its dash.
unfoldable pub bullet_path : Text → Option Text
unfolding strip strip_inline_comment unquoted words is_path_like normalize_path
bullet_path t = only_path (words (unquoted (strip (strip_inline_comment t))))

unfoldable pub clean_scope_bullet_path : Text → Option Text
unfolding bullet_path
clean_scope_bullet_path [] = none
clean_scope_bullet_path (c ∷ t) = if nat_beq c b'-' then bullet_path t else none

abbrev pub is_note : Text → Bool
is_note s = is_empty s || starts_with s (codes ">")

-- What a line adds to the paths read behind it; without a path it makes the scope ambiguous.
abbrev pub with_path : Option Text → List Text × Bool → List Text × Bool
with_path none (paths, has_nonpath) = (paths, true)
with_path (some p) (paths, has_nonpath) = (p ∷ paths, has_nonpath)

-- The loop over the lines below the header.
unfoldable pub scan_scope : List Text → List Text × Bool
unfolding strip is_next_header clean_scope_bullet_path starts_with
scan_scope [] = ([], false)
scan_scope (line ∷ lines) =
    let rest = scan_scope lines in
    let s = strip line in
    if is_next_header s
    then ([], false)
    else if is_note s
    then rest
    else with_path (clean_scope_bullet_path s) rest

-- The lines below the header.
unfoldable pub below_header : List Text → Option (List Text)
unfolding strip is_scope_header
below_header [] = none
below_header (line ∷ lines) =
    let rest = below_header lines in if is_scope_header (strip line) then some lines else rest

abbrev pub of_paths : List Text × Bool → List Text × Bool
of_paths ([], has_nonpath) = ([], true)
of_paths (p ∷ paths, has_nonpath) = (p ∷ paths, has_nonpath)

abbrev pub of_section : Option (List Text) → List Text × Bool
of_section none = ([], true)
of_section (some lines) = of_paths (scan_scope lines)

unfoldable pub parse_scope : Text → List Text × Bool
unfolding splitlines below_header scan_scope
parse_scope text = of_section (below_header (splitlines text))

-- The task of a file of that name, path and text.
unfoldable pub parse_impl_task : (stem path text : Text) → ImplTask
unfolding extract_frontmatter_lines parse_depends_on parse_parallel_marker parse_scope
    scope_inherent_high_risk
parse_impl_task stem path text =
    let fm_lines = extract_frontmatter_lines text in
    let (scope_paths, scope_ambiguous) = parse_scope text in
    record {
      slug = stem;
      path = path;
      depends_on = parse_depends_on fm_lines;
      scope_paths = scope_paths;
      scope_ambiguous = scope_ambiguous;
      force_serial = parse_parallel_marker fm_lines || scope_inherent_high_risk scope_paths;
    }
