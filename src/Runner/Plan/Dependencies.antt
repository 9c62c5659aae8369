-- ===== src/Runner/Plan/Dependencies.antt =====
-- When the order of the tasks respects their dependencies.
use dc_ness.Base.{
  ℕ, ◌+◌, ◌≤◌, String, string_eq, Bool, true, false, ◌&&◌, Option, none, some, List, [], ◌∷◌, ◌++◌,
  if◌then◌else◌, ◌==◌, mem, All, ◌≡◌, ◌↔◌, refl, arith, Bool-cases, inl, inr,
}
use dc_ness.Base.Dict.{Dict, lookup, put, lookup-put}
use dc_ness.Runner.Plan.{
  ImplTask, positions, is_before, deps_of, late_deps, order_violations, order_of,
  validate_dependency_order, ok,
}

abbrev pub slugs : List ImplTask → List String
slugs [] = []
slugs (t ∷ ts) = t.slug ∷ slugs ts

-- No task has a dependency that is its own slug or that of a later task.
abbrev pub IsOrdered : List ImplTask → Type 0
IsOrdered [] = Unit
IsOrdered (t ∷ ts) = All (λ dep. mem dep (slugs (t ∷ ts)) ≡ false) (deps_of t) × IsOrdered ts

is_nil {ℓ} : {A : Type ℓ} → List A → Bool
is_nil [] = true
is_nil (x ∷ xs) = false

is_nil-append {ℓ} : {A : Type ℓ} (xs ys : List A) → is_nil (xs ++ ys) ≡ (is_nil xs && is_nil ys)
unfolding is_nil
is_nil-append [] ys = refl
is_nil-append (x ∷ xs) ys = refl

-- The index of the last task with the slug, or else an earlier one.
last_at : String → ℕ → List ImplTask → Option ℕ → Option ℕ
last_at s i [] o = o
last_at s i (t ∷ ts) o = last_at s (i + 1) ts (if t.slug == s then some i else o)

lookup-positions :
    (s : String) (i : ℕ) (ts : List ImplTask) (d : Dict String ℕ)
    → lookup s (positions i ts d) ≡ last_at s i ts (lookup s d)
unfolding positions last_at
lookup-positions s i [] d = refl
lookup-positions s i (t ∷ ts) d =
    rw (← lookup-put t.slug s i d) (lookup-positions s (i + 1) ts (put t.slug i d))

last_at-absent :
    (s : String) (i : ℕ) (ts : List ImplTask) (o : Option ℕ)
    → mem s (slugs ts) ≡ false
    → last_at s i ts o ≡ o
unfolding last_at mem
last_at-absent s i [] o h = refl
last_at-absent s i (t ∷ ts) o h = elim (Bool-cases (t.slug == s)) [
  | inl e ↦ ground (arith, h, e)
  | inr e ↦ rw e (last_at-absent s (i + 1) ts o (ground (arith, h, e)))
]

last_at-present :
    (s : String) (k i : ℕ) (ts : List ImplTask) (o : Option ℕ)
    → k ≤ i
    → mem s (slugs ts) ≡ true
    → is_before k (last_at s i ts o) ≡ false
unfolding last_at mem
last_at-present s k i [] o le h = ground (arith, h)
last_at-present s k i (t ∷ ts) o le h = elim (Bool-cases (mem s (slugs ts))) [
  | inl later ↦ last_at-present s k (i + 1) ts _ (omega arith) later
  | inr none_ ↦
      rw (last_at-absent s (i + 1) ts (if t.slug == s then some i else o) none_)
        (ground (arith, h, none_, le))
]

-- `d` has the positions of all tasks, and `o` those of the tasks before the index.
module _ (d : Dict String ℕ) where
  late_deps-nil :
      (k : ℕ) (t : ImplTask) (suf : List ImplTask) (o : String → Option ℕ) (deps : List String)
      → ((s : String) → is_before k (o s) ≡ true)
      → ((s : String) → lookup s d ≡ last_at s k suf (o s))
      → (is_nil (late_deps d k t deps) ≡ true) ↔ All (λ dep. mem dep (slugs suf) ≡ false) deps
  unfolding is_nil late_deps
  late_deps-nil k t suf o [] early known = ((λ h. tt), (λ h. refl))
  late_deps-nil k t suf o (dep ∷ deps) early known =
      let rest = late_deps-nil k t suf o deps early known in
      elim (Bool-cases (mem dep (slugs suf))) [
        | inl later ↦
            let late = last_at-present dep k k suf (o dep) (omega arith) later in
            ((λ h. ground (arith, h, known dep, late)), (λ h. ground (arith, h.0, later)))
        | inr none_ ↦
            let at_o = last_at-absent dep k suf (o dep) none_ in
            (
              (λ h. (none_, rest.0 (ground (arith, h, known dep, at_o, early dep)))),
              (λ h. ground (arith, rest.1 h.1, known dep, at_o, early dep)),
            )
      ]

  order_violations-nil :
      (k : ℕ) (suf : List ImplTask) (o : String → Option ℕ)
      → ((s : String) → is_before k (o s) ≡ true)
      → ((s : String) → lookup s d ≡ last_at s k suf (o s))
      → (is_nil (order_violations d k suf) ≡ true) ↔ IsOrdered suf
  unfolding is_nil order_violations last_at
  order_violations-nil k [] o early known = ((λ h. tt), (λ h. refl))
  order_violations-nil k (t ∷ ts) o early known =
      let here = late_deps-nil k t (t ∷ ts) o (deps_of t) early known in
      let rest =
        order_violations-nil (k + 1) ts (λ s. if t.slug == s then some k else o s)
          (λ s. ground (arith, early s)) known in
      let joined = is_nil-append (late_deps d k t (deps_of t)) (order_violations d (k + 1) ts) in
      (
        (λ h. (here.0 (ground (arith, h, joined)), rest.0 (ground (arith, h, joined)))),
        (λ h. ground (arith, joined, here.1 h.0, rest.1 h.1)),
      )

order_of-ok : (vs : List (String × String)) → (order_of vs ≡ ok tt) ↔ (is_nil vs ≡ true)
unfolding is_nil
order_of-ok [] = ((λ h. refl), (λ h. refl))
order_of-ok (v ∷ vs) = ((λ h. cc), (λ h. cc))

-- The check of the order of dependencies passes exactly when no task depends on its own slug or on
-- that of a later task; a slug that no task has does not count.
pub validate_dependency_order-IsOrdered :
    (tasks : List ImplTask) → (validate_dependency_order tasks ≡ ok tt) ↔ IsOrdered tasks
unfolding validate_dependency_order lookup
validate_dependency_order-IsOrdered tasks =
    let violations =
      order_violations-nil (positions 0 tasks []) 0 tasks (λ s. none) (λ s. refl)
        (λ s. lookup-positions s 0 tasks []) in
    let passed = order_of-ok (order_violations (positions 0 tasks []) 0 tasks) in
    ((λ h. violations.0 (passed.0 h)), (λ h. passed.1 (violations.1 h)))
