-- ===== src/Waves/Samples.antt =====
-- The planner on small inputs.
use mathlib.Core.List.{Perm}
use dc_ness.Base.{
  ℕ, Text, codes, text_beq, text_eq, starts_with, mem, true, false, Option, none, some, List, [],
  ◌∷◌, ◌++◌, ◌≡◌, refl, map, arith, inr,
}
use dc_ness.Waves.Tasks.{
  ImplTask, Mode, Cause, WaveStep, WavePlan, serial_only, serial_cause, serial_reason, task_beq,
  serial_demotions, parallel_steps, format_unnormalized_slugs, has_parallel,
}
use dc_ness.Waves.Scopes.{
  Regex, paths_overlap, scopes_disjoint, glob_to_regex, has_glob, rstrip_slash, glob_dir_prefix,
  scope_path_matches,
}
use dc_ness.Waves.Scopes.Conflicts.{paths_overlap_comm, KeepApart, scopes_disjoint-KeepApart}
use dc_ness.Waves.Planner.{
  Batch, batch, slugs, compute_waves, deps_satisfied, is_serial, serial_reason_of, serial_cause_of,
}
use dc_ness.Waves.Planner.Plans.{scheduled, Follows, compute_waves-perm, compute_waves-Follows}
use dc_ness.Waves.Planner.Order.{IsOrdered, scheduled-compute_waves}
use dc_ness.Waves.Planner.Cycles.{IsRanked, NoneUnresolved, compute_waves-NoneUnresolved}
use dc_ness.Waves.Planner.Reports.{AreExplained, serial_demotions-perm, compute_waves-IsExplained}

-- A matcher that knows literal texts only.
abbrev literal : Regex
literal = record { escape = λ t. t; fullmatch = λ pattern t. some (text_beq pattern t) }

abbrev task : Text → Option (List Text) → List Text → ImplTask
task slug deps scope = record {
  slug = slug;
  path = slug;
  depends_on = deps;
  scope_paths = scope;
  scope_ambiguous = false;
  force_serial = false;
}

abbrev core : ImplTask
core = task (codes "01") (some []) (codes "src/core.py" ∷ [])

abbrev web : ImplTask
web = task (codes "02") (some []) (codes "src/web.py" ∷ [])

abbrev glue : ImplTask
glue = task (codes "03") (some (codes "01" ∷ [])) (codes "src/glue.py" ∷ [])

abbrev vague : ImplTask
vague = task (codes "04") (some (codes "02" ∷ [])) []

abbrev unknown : ImplTask
unknown = task (codes "05") none (codes "docs" ∷ [])

abbrev four : List ImplTask
four = core ∷ web ∷ glue ∷ vague ∷ unknown ∷ []

program : Unit {0}
unfolding compute_waves deps_satisfied is_serial serial_reason_of serial_cause_of serial_only
    serial_cause serial_reason task_beq scopes_disjoint paths_overlap rstrip_slash glob_dir_prefix
    has_glob scope_path_matches glob_to_regex mem starts_with text_beq dc_ness.Waves.Planner.collect
    dc_ness.Waves.Planner.behind dc_ness.Waves.Tasks.deps_beq dc_ness.Waves.Tasks.set_beq
program = tt

modes :
    map (λ s. s.mode) (compute_waves literal four 2 []).steps
    ≡ Mode.parallel ∷ Mode.serial ∷ Mode.serial ∷ Mode.serial ∷ []
unfolding program
modes = refl

causes :
    map (λ s. s.cause) (compute_waves literal four 2 (codes "03" ∷ [])).steps
    ≡ Cause.parallel ∷ Cause.high_risk ∷ Cause.scope_unnormalized ∷ Cause.unknown_deps ∷ []
unfolding program
causes = refl

compute_waves-perm_example :
    Perm (slugs (scheduled (compute_waves literal four 2 []).steps)) (slugs four)
compute_waves-perm_example = compute_waves-perm literal four 2 []

compute_waves-Follows_example :
    Follows literal (batch four 2 []) [] (compute_waves literal four 2 []).steps
compute_waves-Follows_example = compute_waves-Follows literal four 2 []

four-IsOrdered : IsOrdered (slugs four) [] four
unfolding program
four-IsOrdered = (tt, (tt, (((inr refl), tt), (((inr refl), tt), (tt, tt)))))

scheduled-compute_waves_example : scheduled (compute_waves literal four 2 []).steps ≡ four
scheduled-compute_waves_example = scheduled-compute_waves literal four 2 [] four-IsOrdered

-- The last character of a slug such as `03`.
abbrev last_digit : Text → ℕ
last_digit (a ∷ b ∷ []) = b
last_digit _ = 0

four-IsRanked : IsRanked last_digit (slugs four) four
four-IsRanked = (tt, (tt, (((inr (omega arith)), tt), (((inr (omega arith)), tt), (tt, tt)))))

compute_waves-NoneUnresolved_example : NoneUnresolved (compute_waves literal four 2 []).steps
compute_waves-NoneUnresolved_example =
    compute_waves-NoneUnresolved last_digit literal four 2 [] four-IsRanked

serial_demotions-perm_example :
    Perm
      (map (λ d. d.slug) (serial_demotions (compute_waves literal four 2 []))
        ++ slugs (scheduled (parallel_steps (compute_waves literal four 2 []))))
      (slugs four)
serial_demotions-perm_example = serial_demotions-perm literal four 2 []

compute_waves-IsExplained_example :
    AreExplained literal (batch four 2 []) [] (compute_waves literal four 2 []).steps
compute_waves-IsExplained_example = compute_waves-IsExplained literal four 2 []

paths_overlap_comm_example :
    paths_overlap literal (codes "src/*.py") (codes "src/a.py")
    ≡ paths_overlap literal (codes "src/a.py") (codes "src/*.py")
paths_overlap_comm_example = paths_overlap_comm literal (codes "src/*.py") (codes "src/a.py")

core-web_disjoint : scopes_disjoint literal core.scope_paths web.scope_paths ≡ true
unfolding program
core-web_disjoint = refl

-- The empty path, to which `./` is normalized, is kept apart from every file.
root_disjoint : scopes_disjoint literal ([] ∷ []) core.scope_paths ≡ true
unfolding program
root_disjoint = refl

core_member : mem (codes "src/core.py") core.scope_paths ≡ true
unfolding program
core_member = refl

web_member : mem (codes "src/web.py") web.scope_paths ≡ true
unfolding program
web_member = refl

scopes_disjoint-KeepApart_example : KeepApart (codes "src/core.py") (codes "src/web.py")
scopes_disjoint-KeepApart_example =
    scopes_disjoint-KeepApart literal core.scope_paths web.scope_paths (codes "src/core.py")
      (codes "src/web.py") core-web_disjoint core_member web_member

glob_test : glob_to_regex literal (codes "s/**/[!a]?*") ≡ codes "s/(?:.*/)?[^a][^/][^/]*"
unfolding glob_to_regex
glob_test = refl

literal_pattern : has_glob (codes "a.py") ≡ false
unfolding has_glob
literal_pattern = refl
