-- ===== src/Runner/Plan/Contiguity.antt =====
-- When the stories of the tasks are contiguous blocks.
use dc_ness.Base.{
  ℕ, ◌+◌, ◌≤◌, String, string_eq, true, false, List, [], ◌∷◌, ◌++◌, if◌then◌else◌, ◌==◌, mem, ◌≡◌,
  ◌↔◌, ◌⊎◌, refl, ◌∙◌, sym, ap, arith, Bool-cases, inl, inr, eq_iff, append-nil, append_assoc,
}
use dc_ness.Base.Dict.{Dict, lookup, put, lookup-put, IsUnique, put-IsUnique}
use dc_ness.Runner.Plan.{
  ImplTask, or_empty, story_indexes, is_consecutive, crossing_stories, contiguity_of,
  validate_story_contiguity, ok,
}

abbrev pub stories : List ImplTask → List String
stories [] = []
stories (t ∷ ts) = t.story ∷ stories ts

-- A story that is left does not come back.
abbrev pub IsContiguous : List ImplTask → Type 0
IsContiguous [] = Unit
IsContiguous (t ∷ []) = Unit
IsContiguous (t ∷ u ∷ ts) =
    ((t.story ≡ u.story) ⊎ (mem t.story (stories (u ∷ ts)) ≡ false)) × IsContiguous (u ∷ ts)

-- The indexes of a story's tasks, from an index on.
indexes_of : String → ℕ → List ImplTask → List ℕ
indexes_of s i [] = []
indexes_of s i (t ∷ ts) =
    let rest = indexes_of s (i + 1) ts in if t.story == s then i ∷ rest else rest

abbrev AreConsecutive : ℕ → List ImplTask → Type 0
AreConsecutive i ts = (s : String) → is_consecutive (indexes_of s i ts) ≡ true

story_indexes-lookup :
    (s : String) (i : ℕ) (ts : List ImplTask) (d : Dict String (List ℕ))
    → or_empty (lookup s (story_indexes i ts d)) ≡ or_empty (lookup s d) ++ indexes_of s i ts
unfolding story_indexes indexes_of
story_indexes-lookup s i [] d = sym (append-nil _)
story_indexes-lookup s i (t ∷ ts) d =
    story_indexes-lookup s (i + 1) ts (put t.story (or_empty (lookup t.story d) ++ i ∷ []) d)
    ∙ elim (Bool-cases (t.story == s)) [
      | inl e ↦
          rw
            (
              lookup-put t.story s (or_empty (lookup t.story d) ++ i ∷ []) d,
              e,
              (eq_iff t.story s).0 e,
            )
            (append_assoc (or_empty (lookup s d)) (i ∷ []) (indexes_of s (i + 1) ts))
      | inr e ↦ rw (lookup-put t.story s (or_empty (lookup t.story d) ++ i ∷ []) d, e) refl
    ]

story_indexes-IsUnique :
    (i : ℕ) (ts : List ImplTask) (d : Dict String (List ℕ))
    → IsUnique d
    → IsUnique (story_indexes i ts d)
unfolding story_indexes
story_indexes-IsUnique i [] d u = u
story_indexes-IsUnique i (t ∷ ts) d u =
    story_indexes-IsUnique (i + 1) ts (put t.story (or_empty (lookup t.story d) ++ i ∷ []) d)
      (put-IsUnique t.story (or_empty (lookup t.story d) ++ i ∷ []) d u)

contiguity_of-ok :
    (d : Dict String (List ℕ))
    → IsUnique d
    → (contiguity_of (crossing_stories d) ≡ ok tt)
      ↔ ((s : String) → is_consecutive (or_empty (lookup s d)) ≡ true)
unfolding crossing_stories lookup
contiguity_of-ok [] u = ((λ h s. refl), (λ h. refl))
contiguity_of-ok ((story, indexes) ∷ d) u =
    let rest = contiguity_of-ok d u.1 in
    elim (Bool-cases (is_consecutive indexes)) [
      | inl good ↦ (
        (λ h s. elim (Bool-cases (story == s)) [
          | inl e ↦ rw e good
          | inr e ↦ rw e (rest.0 (rw good at h) s)
        ]),
        (λ h. rw good (
            rest.1 (λ s. elim (Bool-cases (story == s)) [
              | inl e ↦ rw (← (eq_iff story s).0 e, u.0) refl
              | inr e ↦ rw e at (h s)
            ]))),
      )
      | inr bad ↦
          ((λ h. ground (arith, h, bad)), (λ h. ground (arith, h story, bad, eq_iff story story)))
    ]

is_consecutive-tail :
    (i : ℕ) (xs : List ℕ) → is_consecutive (i ∷ xs) ≡ true → is_consecutive xs ≡ true
unfolding is_consecutive
is_consecutive-tail i [] h = refl
is_consecutive-tail i (j ∷ xs) h = ground (arith, h)

indexes_of-absent :
    (s : String) (i : ℕ) (ts : List ImplTask) → mem s (stories ts) ≡ false → indexes_of s i ts ≡ []
unfolding indexes_of mem
indexes_of-absent s i [] h = refl
indexes_of-absent s i (t ∷ ts) h = ground (arith, h, indexes_of-absent s (i + 1) ts)

-- An index that is found is not below the first, and none is found only for an absent story.
indexes_of-bound :
    (s : String) (k i : ℕ) (ts : List ImplTask)
    → k ≤ i
    → (mem s (stories ts) ≡ false)
      ⊎ ((j : ℕ) × (js : List ℕ) × (indexes_of s i ts ≡ j ∷ js) × (k ≤ j))
unfolding indexes_of mem
indexes_of-bound s k i [] le = inl refl
indexes_of-bound s k i (t ∷ ts) le = elim (Bool-cases (t.story == s)) [
  | inl e ↦ rw e (inr (i, indexes_of s (i + 1) ts, refl, le))
  | inr e ↦ rw e (indexes_of-bound s k (i + 1) ts (omega arith))
]

AreConsecutive-tail :
    (i : ℕ) (t : ImplTask) (ts : List ImplTask)
    → AreConsecutive i (t ∷ ts)
    → AreConsecutive (i + 1) ts
unfolding indexes_of
AreConsecutive-tail i t ts h s = elim (Bool-cases (t.story == s)) [
  | inl e ↦ is_consecutive-tail i (indexes_of s (i + 1) ts) (rw e at (h s))
  | inr e ↦ rw e at (h s)
]

left-absent :
    (i : ℕ) (t u : ImplTask) (ts : List ImplTask)
    → AreConsecutive i (t ∷ u ∷ ts)
    → (u.story == t.story) ≡ false
    → mem t.story (stories (u ∷ ts)) ≡ false
unfolding indexes_of is_consecutive mem
left-absent i t u ts h other =
    elim (indexes_of-bound t.story (i + 1 + 1) (i + 1 + 1) ts (omega arith)) [
      | inl absent ↦ rw other absent
      | inr (j, js, found, le) ↦ ground (arith, h t.story, eq_iff t.story t.story, other, found, le)
    ]

AreConsecutive-IsContiguous : (i : ℕ) (ts : List ImplTask) → AreConsecutive i ts → IsContiguous ts
AreConsecutive-IsContiguous i [] h = tt
AreConsecutive-IsContiguous i (t ∷ []) h = tt
AreConsecutive-IsContiguous i (t ∷ u ∷ ts) h = (
  elim (Bool-cases (u.story == t.story)) [
    | inl e ↦ inl (sym ((eq_iff u.story t.story).0 e))
    | inr e ↦ inr (left-absent i t u ts h e)
  ],
  AreConsecutive-IsContiguous (i + 1) (u ∷ ts) (AreConsecutive-tail i t (u ∷ ts) h),
)

IsContiguous-AreConsecutive : (i : ℕ) (ts : List ImplTask) → IsContiguous ts → AreConsecutive i ts
unfolding indexes_of is_consecutive
IsContiguous-AreConsecutive i [] c s = refl
IsContiguous-AreConsecutive i (t ∷ []) c s = ground arith
IsContiguous-AreConsecutive i (t ∷ u ∷ ts) (inl same, c) s =
    ground (arith, IsContiguous-AreConsecutive (i + 1) (u ∷ ts) c s, ap (λ x. x == s) same)
IsContiguous-AreConsecutive i (t ∷ u ∷ ts) (inr absent, c) s = ground (
  arith,
  IsContiguous-AreConsecutive (i + 1) (u ∷ ts) c s,
  eq_iff t.story s,
  indexes_of-absent t.story (i + 1) (u ∷ ts) absent,
)

-- The check of the stories passes exactly when no story comes back once another one has begun.
pub validate_story_contiguity-IsContiguous :
    (tasks : List ImplTask) → (validate_story_contiguity tasks ≡ ok tt) ↔ IsContiguous tasks
unfolding validate_story_contiguity lookup
validate_story_contiguity-IsContiguous tasks =
    let passed =
      contiguity_of-ok (story_indexes 0 tasks []) (story_indexes-IsUnique 0 tasks [] tt) in
    (
      (λ h.
          AreConsecutive-IsContiguous 0 tasks
            (λ s. sym (ap is_consecutive (story_indexes-lookup s 0 tasks [])) ∙ passed.0 h s)),
      (λ h. passed.1 (λ s.
          ap is_consecutive (story_indexes-lookup s 0 tasks [])
          ∙ IsContiguous-AreConsecutive 0 tasks h s)),
    )
