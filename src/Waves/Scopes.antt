-- ===== src/Waves/Scopes.antt =====
-- harness/parallel_wave.py, scope conflicts: when two file paths, or two sets of them, collide.
pub mod Conflicts
pub mod Globs
use dc_ness.Base.{
  ℕ, zero, suc, Text, codes, starts_with, text_eq, Bool, true, false, not, ◌&&◌, ◌||◌, Option, none,
  some, List, [], ◌∷◌, ◌++◌, if◌then◌else◌, nat_beq, ◌==◌, any, all, length,
}

-- Python's `re`: `escape`, and `fullmatch` of a text by a pattern, where `none` is `re.error`.
pub record Regex : Type 0 where
  pub escape : Text → Text
  pub fullmatch : Text → Text → Option Bool

abbrev pub slash : ℕ
slash = b'/'

abbrev pub is_glob_char : ℕ → Bool
is_glob_char c = nat_beq c b'*' || (nat_beq c b'?' || nat_beq c b'[')

unfoldable pub has_glob : Text → Bool
has_glob p = any is_glob_char p

abbrev pub put_front : Text → Option (Text × Text) → Option (Text × Text)
put_front p none = none
put_front p (some (before, after)) = some (p ++ before, after)

-- Up to the first closing bracket: what stands before it, and what stands behind it.
unfoldable pub until_close : Text → Option (Text × Text)
until_close [] = none
until_close (c ∷ t) =
    let rest = put_front (c ∷ []) (until_close t) in if nat_beq c b']' then some ([], t) else rest

-- A first `]` in a class is literal.
unfoldable pub class_body : Text → Option (Text × Text)
unfolding until_close
class_body [] = none
class_body (c ∷ t) =
    if nat_beq c b']' then put_front (c ∷ []) (until_close t) else until_close (c ∷ t)

-- The text of a character class behind its `[`: the inner text and the rest of the pattern.
unfoldable pub char_class : Text → Option (Text × Text)
unfolding class_body
char_class [] = none
char_class (c ∷ t) =
    if nat_beq c b'!' || nat_beq c b'^'
    then put_front (c ∷ []) (class_body t)
    else class_body (c ∷ t)

-- `"^" + inner[1:]` for a class that begins with `!`.
abbrev pub negate : Text → Text
negate [] = []
negate (c ∷ t) = if nat_beq c b'!' then b'^' ∷ t else c ∷ t

-- What one `*` or `**` translates to, and the pattern behind it.
unfoldable pub star_piece : Text → Text × Text
star_piece [] = (codes "[^/]*", [])
star_piece (d ∷ []) = if nat_beq d b'*' then (codes ".*", []) else (codes "[^/]*", d ∷ [])
star_piece (d ∷ e ∷ t) =
    if nat_beq d b'*'
    then (if nat_beq e slash then (codes "(?:.*/)?", t) else (codes ".*", e ∷ t))
    else (codes "[^/]*", d ∷ e ∷ t)

module _ (re : Regex) where
  abbrev pub bracket_piece : Text → Option (Text × Text) → Text × Text
  bracket_piece t none = (re.escape (codes "["), t)
  bracket_piece t (some (inner, after)) = (b'[' ∷ (negate inner ++ codes "]"), after)

  -- One turn of the loop at the character `c`: what it appends, and the pattern that is left.
  unfoldable pub next_piece : ℕ → Text → Text × Text
  unfolding char_class star_piece
  next_piece c t =
      if nat_beq c b'*'
      then star_piece t
      else if nat_beq c b'?'
      then (codes "[^/]", t)
      else if nat_beq c b'['
      then bracket_piece t (char_class t)
      else (re.escape (c ∷ []), t)

  -- The loop over the pattern: `fuel` bounds the turns.
  unfoldable pub glob_regex : ℕ → Text → Text
  unfolding next_piece
  glob_regex zero p = []
  glob_regex (suc fuel) [] = []
  glob_regex (suc fuel) (c ∷ t) = let (out, left) = next_piece c t in out ++ glob_regex fuel left

  unfoldable pub glob_to_regex : Text → Text
  unfolding glob_regex
  glob_to_regex p = glob_regex (length p) p

  unfoldable pub scope_path_matches : Text → Text → Bool
  scope_path_matches path pattern =
      if not (has_glob pattern)
      then path == pattern
      else elim (re.fullmatch (glob_to_regex pattern) path) [
        | none ↦ path == pattern
        | some matched ↦ matched
      ]

-- Up to the first wildcard.
unfoldable pub static_part : Text → Text
static_part [] = []
static_part (c ∷ t) = let rest = static_part t in if is_glob_char c then [] else c ∷ rest

-- Up to the last `/`, that one included; empty where there is none.
unfoldable pub dir_part : Text → Text
dir_part [] = []
dir_part (c ∷ t) = elim (dir_part t) [
  | [] ↦ if nat_beq c slash then c ∷ [] else []
  | d ∷ ds ↦ c ∷ d ∷ ds
]

unfoldable pub glob_dir_prefix : Text → Text
unfolding static_part dir_part
glob_dir_prefix p = dir_part (static_part p)

-- `p.rstrip("/")`
unfoldable pub rstrip_slash : Text → Text
rstrip_slash [] = []
rstrip_slash (c ∷ t) = elim (rstrip_slash t) [
  | [] ↦ if nat_beq c slash then [] else c ∷ []
  | d ∷ ds ↦ c ∷ d ∷ ds
]

module _ (re : Regex) where
  unfoldable pub paths_overlap : Text → Text → Bool
  paths_overlap a b =
      if a == b
      then true
      else if starts_with b (rstrip_slash a ++ slash ∷ [])
          || starts_with a (rstrip_slash b ++ slash ∷ [])
      then true
      else if has_glob a && not (has_glob b)
      then scope_path_matches re b a
      else if has_glob b && not (has_glob a)
      then scope_path_matches re a b
      else if has_glob a && has_glob b
      then (let pa = glob_dir_prefix a in
          let pb = glob_dir_prefix b in pa == pb || (starts_with pa pb || starts_with pb pa))
      else false

  unfoldable pub scopes_disjoint : List Text → List Text → Bool
  scopes_disjoint a b = all (λ pa. all (λ pb. not (paths_overlap pa pb)) b) a
