-- ===== src/Session/Prose.antt =====
-- harness/session_state.py, the prose files of a run's directory and the PASS of an agent.
use dc_ness.Base.{
  ℕ, Text, codes, text_eq, Bool, true, false, not, ◌&&◌, ◌||◌, Option, none, some, [], ◌∷◌, ◌++◌,
  if◌then◌else◌, ◌==◌, nat_beq, leb, length, all, any, starts_with,
}
use dc_ness.Base.Dict.{Dict}
use dc_ness.Base.Python.{drop_prefix}
use dc_ness.Session.Names.{is_lower, is_digit, without_newline}

abbrev is_upper : ℕ → Bool
is_upper c = leb b'A' c && leb c b'Z'

-- `[1-9][0-9]*`
unfoldable is_count : Text → Bool
is_count [] = false
is_count (c ∷ t) = (leb b'1' c && leb c b'9') && all is_digit t

-- `[A-Z][A-Z0-9_]{0,63}|[a-z][a-z0-9-]{0,63}`
unfoldable is_mode_word : Text → Bool
is_mode_word [] = false
is_mode_word (c ∷ t) =
    leb (length t) 63
    && ((is_upper c && all (λ d. is_upper d || (is_digit d || nat_beq d b'_')) t)
        || (is_lower c && all (λ d. is_lower d || (is_digit d || nat_beq d b'-')) t))

-- The word, which has begun with `body`, and the number behind it.
unfoldable is_mode_from : (body t : Text) → Bool
unfolding is_mode_word is_count
is_mode_from body [] = is_mode_word body
is_mode_from body (c ∷ t) =
    let rest = is_mode_from (body ++ c ∷ []) t in
    (nat_beq c b'-' && (is_mode_word body && is_count t)) || rest

-- The two patterns of a suffix, which end in `$`.
unfoldable is_prose_suffix : Text → Bool
unfolding is_count is_mode_from without_newline
is_prose_suffix suffix =
    is_count (without_newline suffix) || is_mode_from [] (without_newline suffix)

abbrev onto_stem : ℕ → Option Text → Option Text
onto_stem c none = none
onto_stem c (some t) = some (c ∷ t)

-- A name that ends in `.md`, without it.
unfoldable stem_of : Text → Option Text
stem_of [] = none
stem_of (c ∷ t) =
    let rest = onto_stem c (stem_of t) in if (c ∷ t) == codes ".md" then some [] else rest

abbrev has_prose_suffix : Option Text → Bool
has_prose_suffix none = false
has_prose_suffix (some suffix) = is_prose_suffix suffix

-- A file that `_run_prose_paths_for_agent` lists.
unfoldable is_prose_stem : (agent stem : Text) → Bool
unfolding is_prose_suffix drop_prefix
is_prose_stem agent stem = stem == agent || has_prose_suffix (drop_prefix (agent ++ codes "-") stem)

unfoldable pub contains : Text → Text → Bool
unfolding starts_with
contains pattern [] = starts_with [] pattern
contains pattern (c ∷ t) = starts_with (c ∷ t) pattern || contains pattern t

abbrev stem_passes : (skipped : Text → Bool) → (agent : Text) → Option Text → Text → Bool
stem_passes skipped agent none prose = false
stem_passes skipped agent (some stem) prose =
    is_prose_stem agent stem && (not (skipped stem) && contains (codes "PASS") prose)

-- `files` has the names in the directory, and a text for each, empty where it cannot be read.
unfoldable run_prose_has_pass : Dict Text Text → (agent : Text) → Bool
unfolding stem_of is_prose_stem contains
run_prose_has_pass files agent =
    any (λ f. stem_passes (λ stem. false) agent (stem_of f.0) f.1) files

abbrev is_refresh_rest : Option Text → Bool
is_refresh_rest none = false
is_refresh_rest (some []) = true
is_refresh_rest (some (c ∷ t)) = nat_beq c b'-' && is_count t

-- The prose of a mode that was given up.
unfoldable is_refresh : Text → Bool
unfolding drop_prefix is_count
is_refresh stem = is_refresh_rest (drop_prefix (codes "module-architect-CARTOGRAPHY_REFRESH") stem)

unfoldable pub run_has_module_architect_pass : Dict Text Text → Bool
unfolding stem_of is_prose_stem contains is_refresh
run_has_module_architect_pass files =
    any (λ f. stem_passes is_refresh (codes "module-architect") (stem_of f.0) f.1) files
