-- ===== src/Waves/Section/Bullets.antt =====
-- The scope section of harness/parallel_wave.py against its contract: one path in each bullet.
use dc_ness.Base.{
  is_empty, Text, Bool, false, not, Option, none, some, List, [], ◌∷◌, map, keep, if◌then◌else◌,
  ◌≡◌, ◌↔◌, refl, sym, subst, arith,
}
use dc_ness.Base.Python.{strip, splitlines}
use dc_ness.Waves.Section.{
  is_next_header, is_note, clean_scope_bullet_path, with_path, scan_scope, below_header, of_paths,
  of_section, parse_scope,
}

-- The lines up to the next header, without the spaces around them.
abbrev pub section : List Text → List Text
section [] = []
section (line ∷ lines) =
    let rest = section lines in if is_next_header (strip line) then [] else strip line ∷ rest

-- The lines of a section that are neither empty nor quoted.
abbrev pub entries : List Text → List Text
entries lines = keep (λ s. not (is_note s)) (section lines)

-- Every entry is a bullet with one path, and these are the paths.
abbrev pub AreBullets : List Text → List Text → Type 0
AreBullets lines paths = map clean_scope_bullet_path (entries lines) ≡ map some paths

-- The scope section that stands below the first header has these paths, and at least one.
unfoldable pub IsScope : Text → List Text → Type 0
IsScope text paths =
    (lines : List Text) × (below_header (splitlines text) ≡ some lines)
    × AreBullets lines paths
    × (is_empty paths ≡ false)

-- The scan of what the entries hold.
abbrev scanned : List (Option Text) → List Text × Bool
scanned [] = ([], false)
scanned (o ∷ os) = with_path o (scanned os)

scan_scope-scanned :
    (lines : List Text) → scan_scope lines ≡ scanned (map clean_scope_bullet_path (entries lines))
unfolding scan_scope
scan_scope-scanned [] = refl
scan_scope-scanned (line ∷ lines) = ground (arith, scan_scope-scanned lines)

scanned-clean :
    (os : List (Option Text)) (ps : List Text) → (scanned os ≡ (ps, false)) ↔ (os ≡ map some ps)
scanned-clean [] [] = ground arith
scanned-clean [] (p ∷ ps) = ground arith
scanned-clean (none ∷ os) [] = ground arith
scanned-clean (none ∷ os) (p ∷ ps) = ground arith
scanned-clean (some o ∷ os) [] = ground arith
scanned-clean (some o ∷ os) (p ∷ ps) = ground (arith, scanned-clean os ps)

of_paths-clean :
    (r : List Text × Bool) (ps : List Text)
    → (of_paths r ≡ (ps, false)) ↔ (r ≡ (ps, false)) × (is_empty ps ≡ false)
of_paths-clean ([], b) [] = ground arith
of_paths-clean ([], b) (p ∷ ps) = ground arith
of_paths-clean (x ∷ xs, b) [] = ground arith
of_paths-clean (x ∷ xs, b) (p ∷ ps) = ground arith

of_section-clean :
    (lines paths : List Text)
    → (of_section (some lines) ≡ (paths, false)) ↔ AreBullets lines paths × (is_empty paths ≡ false)
of_section-clean lines paths = ground (
  arith,
  of_paths-clean (scan_scope lines) paths,
  scan_scope-scanned lines,
  scanned-clean (map clean_scope_bullet_path (entries lines)) paths,
)

abbrev HasScope : Option (List Text) → List Text → Type 0
HasScope o paths =
    (lines : List Text) × (o ≡ some lines) × AreBullets lines paths × (is_empty paths ≡ false)

of_section-HasScope :
    (o : Option (List Text)) (paths : List Text) → of_section o ≡ (paths, false) → HasScope o paths
of_section-HasScope none paths = ground arith
of_section-HasScope (some lines) paths =
    λ h. let c = (of_section-clean lines paths).0 h in (lines, refl, c.0, c.1)

HasScope-of_section :
    (o : Option (List Text)) (paths : List Text) → HasScope o paths → of_section o ≡ (paths, false)
HasScope-of_section o paths (lines, e, h, k) =
    subst (λ p. of_section p ≡ (paths, false)) (sym e) ((of_section-clean lines paths).1 (h, k))

-- The parser returns these paths and does not call the scope ambiguous exactly when a header of the
-- scope stands in the text, every line of the section below the first one that is neither empty nor
-- quoted is a bullet with a single path, these are the normalized paths in their order, and there
-- is at least one.
pub parse_scope-IsScope :
    (text : Text) (paths : List Text) → (parse_scope text ≡ (paths, false)) ↔ IsScope text paths
unfolding parse_scope IsScope
parse_scope-IsScope text paths = (
  of_section-HasScope (below_header (splitlines text)) paths,
  HasScope-of_section (below_header (splitlines text)) paths,
)
