-- ===== src/Waves/FileSamples.antt =====
-- Task files on small inputs: their predecessors, their scope and its repair.
use dc_ness.Base.{
  Text, codes, text_beq, true, false, none, some, [], ◌∷◌, ◌++◌, ◌≡◌, refl, map, ◌↔◌, All,
}
use dc_ness.Base.Python.{splitlines, strip}
use dc_ness.Waves.Header.{parse_depends_on, parse_parallel_marker}
use dc_ness.Waves.Header.Items.{Item, item_line}
use dc_ness.Waves.Header.Declared.{parse_depends_on-declared}
use dc_ness.Waves.Section.{
  parse_scope, parse_impl_task, clean_scope_bullet_path, scope_inherent_high_risk,
}
use dc_ness.Waves.Section.Bullets.{IsScope, parse_scope-IsScope}
use dc_ness.Waves.Repair.{normalize_scope_text, join_lines}
use dc_ness.Waves.Repair.Accepted.{replacement-clean}
use dc_ness.Waves.Repair.Changes.{replay, suffix, normalize_scope_text-replay}
use dc_ness.Waves.Repair.Places.{IsPlaced}

program : Unit {0}
unfolding parse_impl_task normalize_scope_text scope_inherent_high_risk parse_depends_on
    parse_parallel_marker text_beq
program = tt

abbrev header : Text
header = codes "### 수정 허용"

abbrev text : Text
text = join_lines (
    codes "---"
    ∷ codes "story: 1"
    ∷ codes "depends_on:"
    ∷ codes "  - 01-core  # produces api"
    ∷ codes "  - 02-web"
    ∷ codes "parallel: Serial"
    ∷ codes "---"
    ∷ header
    ∷ []
    ∷ codes "> note"
    ∷ codes "- `./src/a.py`"
    ∷ codes "- src/b.py  # main"
    ∷ codes "## Next"
    ∷ [])

read : parse_impl_task (codes "03") (codes "03.md") text ≡ record {
  slug = codes "03";
  path = codes "03.md";
  depends_on = some (codes "01-core" ∷ codes "02-web" ∷ []);
  scope_paths = codes "src/a.py" ∷ codes "src/b.py" ∷ [];
  scope_ambiguous = false;
  force_serial = true;
}
unfolding program
read = refl

inline :
    parse_depends_on (codes "depends_on: ['01', \"02\"]" ∷ []) ≡ some (codes "01" ∷ codes "02" ∷ [])
unfolding program
inline = refl

independent : parse_depends_on (codes "depends_on : []" ∷ []) ≡ some []
unfolding program
independent = refl

unfilled : parse_depends_on (codes "depends_on: [<NN-slug>]" ∷ []) ≡ none
unfolding program
unfilled = refl

risky : scope_inherent_high_risk (codes "db/migrations/1.sql" ∷ []) ≡ true
unfolding program
risky = refl

not_risky : scope_inherent_high_risk (codes "src/.environment" ∷ []) ≡ false
unfolding program
not_risky = refl

abbrev first_item : Item
first_item = record { slug = codes "01-core"; comment = some (codes " produces api") }

abbrev second_item : Item
second_item = record { slug = codes "02-web"; comment = none }

parse_depends_on-declared_example :
    parse_depends_on (
      (codes "story: 1" ∷ [])
      ++ codes "depends_on:" ∷ map item_line (first_item ∷ second_item ∷ [])
      ++ codes "parallel: no" ∷ [])
    ≡ some (codes "01-core" ∷ codes "02-web" ∷ [])
unfolding program
parse_depends_on-declared_example =
    parse_depends_on-declared (codes "story: 1" ∷ []) first_item (second_item ∷ [])
      (codes "parallel: no" ∷ []) refl ((refl, refl, refl), ((refl, refl, refl), tt)) refl

abbrev scope_text : Text
scope_text = join_lines (header ∷ codes "- src/a.py" ∷ codes "> note" ∷ codes "- `lib/b.py`" ∷ [])

parse_scope-IsScope_example :
    (parse_scope scope_text ≡ (codes "src/a.py" ∷ codes "lib/b.py" ∷ [], false))
    ↔ IsScope scope_text (codes "src/a.py" ∷ codes "lib/b.py" ∷ [])
parse_scope-IsScope_example =
    parse_scope-IsScope scope_text (codes "src/a.py" ∷ codes "lib/b.py" ∷ [])

abbrev loose_text : Text
loose_text =
    join_lines (header ∷ codes "  - **core**: `src/a.py` (main)" ∷ codes "- two words" ∷ [])

repaired : normalize_scope_text loose_text ≡ (
  join_lines (header ∷ codes "  - src/a.py" ∷ codes "- two words" ∷ []),
  record {
    line = 2;
    before = codes "  - **core**: `src/a.py` (main)";
    after = codes "  - src/a.py";
  }
      ∷ [],
)
unfolding program
repaired = refl

normalize_scope_text-replay_example :
    ((normalize_scope_text loose_text).0
      ≡ join_lines (replay 1 (splitlines loose_text) (normalize_scope_text loose_text).1)
        ++ suffix loose_text)
    × All (IsPlaced (splitlines loose_text)) (normalize_scope_text loose_text).1
normalize_scope_text-replay_example = normalize_scope_text-replay loose_text

abbrev loose_line : Text
loose_line = codes "  - **core**: `src/a.py` (main)"

replacement-clean_example :
    clean_scope_bullet_path (strip (codes "  - src/a.py")) ≡ some (codes "src/a.py")
unfolding program
replacement-clean_example =
    replacement-clean loose_line (codes "  - src/a.py") (codes "src/a.py") refl refl refl

-- The whole repository as a scope is normalized to the empty path.
whole : parse_scope (join_lines (header ∷ codes "- ./" ∷ [])) ≡ ([] ∷ [], false)
unfolding program
whole = refl

-- The repair takes the dot off a path that starts with one: the bullet names another file, and the
-- backstop for secrets no longer sees it.
dot_lost :
    (normalize_scope_text (join_lines (header ∷ codes "- **env**: .env.local" ∷ []))).0
    ≡ join_lines (header ∷ codes "- env.local" ∷ [])
unfolding program
dot_lost = refl

seen : scope_inherent_high_risk (codes ".env.local" ∷ []) ≡ true
unfolding program
seen = refl

unseen : scope_inherent_high_risk (codes "env.local" ∷ []) ≡ false
unfolding program
unseen = refl
