-- ===== src/Waves/Tasks.antt =====
-- harness/parallel_wave.py, the data model: a task's input to the judgement, a step of the plan,
-- the plan and what it reports of itself.
pub mod Reasons
use dc_ness.Base.{
  is_none, is_empty, ℕ, String, Text, Bool, true, false, not, ◌&&◌, ◌||◌, Option, none, some, List,
  [], ◌∷◌, ◌++◌, map, if◌then◌else◌, ◌==◌, text_eq, mem, all, any, keep,
}

-- `depends_on` has three states: `none` is unknown, `some []` is declared to be without
-- predecessors. `scope_paths` holds the elements of a frozenset.
pub record ImplTask : Type 0 where
  pub slug : Text
  pub path : Text
  pub depends_on : Option (List Text)
  pub scope_paths : List Text
  pub scope_ambiguous : Bool
  pub force_serial : Bool

pub data Mode : Type 0 where
  parallel serial : Mode

-- The machine-readable reasons; `serial` is the code's fallback.
pub data Cause : Type 0 where
  parallel scope_unnormalized unknown_deps forced high_risk dep_unresolved : Cause
  no_disjoint_pair serial : Cause

unfoldable pub serial_only : ImplTask → Bool
serial_only t =
    is_none t.depends_on || (t.scope_ambiguous || (is_empty t.scope_paths || t.force_serial))

unfoldable pub serial_reason : ImplTask → Option String
serial_reason t =
    if t.force_serial
    then some "강제 직렬 (parallel: serial / 경로 safety backstop)"
    else if is_none t.depends_on
    then some "depends_on 미상(미작성)"
    else if t.scope_ambiguous || is_empty t.scope_paths
    then some "Scope 파일 경로 미정규화(자유서술/빈값)"
    else none

unfoldable pub serial_cause : ImplTask → Option Cause
serial_cause t =
    if t.force_serial
    then some Cause.forced
    else if is_none t.depends_on
    then some Cause.unknown_deps
    else if t.scope_ambiguous || is_empty t.scope_paths
    then some Cause.scope_unnormalized
    else none

-- Equality of frozensets, over their elements.
unfoldable pub set_beq : List Text → List Text → Bool
set_beq xs ys = all (λ x. mem x ys) xs && all (λ y. mem y xs) ys

abbrev pub bool_beq : Bool → Bool → Bool
bool_beq true b = b
bool_beq false b = not b

unfoldable pub deps_beq : List Text → List Text → Bool
deps_beq [] [] = true
deps_beq (x ∷ xs) (y ∷ ys) = x == y && deps_beq xs ys
deps_beq _ _ = false

abbrev pub depends_beq : Option (List Text) → Option (List Text) → Bool
depends_beq none none = true
depends_beq (some xs) (some ys) = deps_beq xs ys
depends_beq _ _ = false

-- `==` of the frozen dataclass, which `list.index` and `list.remove` compare by.
unfoldable pub task_beq : ImplTask → ImplTask → Bool
task_beq a b =
    (a.slug == b.slug && a.path == b.path)
    && (depends_beq a.depends_on b.depends_on
        && (set_beq a.scope_paths b.scope_paths
            && (bool_beq a.scope_ambiguous b.scope_ambiguous
                && bool_beq a.force_serial b.force_serial)))

pub record WaveStep : Type 0 where
  pub index : ℕ
  pub mode : Mode
  pub tasks : List ImplTask
  pub reason : String
  pub cause : Cause

pub record WavePlan : Type 0 where
  pub steps : List WaveStep
  pub max_parallel_workers : ℕ

abbrev pub is_parallel : Mode → Bool
is_parallel Mode.parallel = true
is_parallel Mode.serial = false

unfoldable pub has_parallel : WavePlan → Bool
has_parallel p = any (λ s. is_parallel s.mode) p.steps

unfoldable pub parallel_steps : WavePlan → List WaveStep
parallel_steps p = keep (λ s. is_parallel s.mode) p.steps

pub record Demotion : Type 0 where
  pub slug : Text
  pub cause : Cause
  pub reason : String

abbrev pub demotion : WaveStep → ImplTask → Demotion
demotion s t = record { slug = t.slug; cause = s.cause; reason = s.reason }

unfoldable pub demotions : List WaveStep → List Demotion
demotions [] = []
demotions (s ∷ rest) =
    let out = demotions rest in if is_parallel s.mode then out else map (demotion s) s.tasks ++ out

unfoldable pub serial_demotions : WavePlan → List Demotion
unfolding demotions
serial_demotions p = demotions p.steps

abbrev pub is_unnormalized : Cause → Bool
is_unnormalized Cause.scope_unnormalized = true
is_unnormalized _ = false

unfoldable pub format_unnormalized_slugs : WavePlan → List Text
unfolding serial_demotions
format_unnormalized_slugs p =
    map (λ d. d.slug) (keep (λ d. is_unnormalized d.cause) (serial_demotions p))
