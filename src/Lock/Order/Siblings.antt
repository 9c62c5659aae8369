-- ===== src/Lock/Order/Siblings.antt =====
-- Which tasks a merge waits for, and when it may go ahead.
use dc_ness.Base.{
  ℕ, String, string_eq, Text, text_eq, text_beq_iff, codes, Bool, true, ◌&&◌, ◌||◌, Option, none,
  some, List, [], ◌∷◌, if◌then◌else◌, ◌==◌, mem, ◌≡◌, ◌≢◌, ◌<◌, ◌↔◌, refl, subst, arith, eq_iff,
  Bool-cases, Option-cases, inl, inr,
}
use dc_ness.Base.Python.{strip}
use dc_ness.Board.Records.{Platform, canonical_path}
use dc_ness.Lock.Frontmatter.{Digits, extract_frontmatter, get_text, task_index_i}
use dc_ness.Lock.Order.{Tree, is_below, stands_before, joined, prior_among}

-- The story and the index in it that a task file's text gives.
abbrev pub story_in : Text → Text
story_in text = get_text (codes "story") (extract_frontmatter text)

abbrev pub index_in : Digits → Text → Option ℕ
index_in digit text = task_index_i digit (get_text (codes "task_index") (extract_frontmatter text))

module _ (p : Platform) (tree : Tree) (digit : Digits) where
  -- A file of the same story, other than the current one, with a smaller index.
  pub record IsPrior (current : String) (story : Text) (current_i : ℕ) (path : String)
      : Type 0 where
    pub other : canonical_path p path ≢ canonical_path p current
    pub text : Text
    pub index : ℕ
    pub readable : tree.read path ≡ some text
    pub same_story : strip (story_in text) ≡ strip story
    pub indexed : index_in digit text ≡ some index
    pub smaller : index < current_i

  stands_before_iff :
      (story : Text) (current_i : ℕ) (text : Text)
      → (stands_before digit story current_i text ≡ true) ↔ (
          (strip (story_in text) ≡ strip story)
          × ((i : ℕ) × (index_in digit text ≡ some i) × (i < current_i)))
  unfolding stands_before
  stands_before_iff story current_i text = go (index_in digit text) refl
    where
      go :
          (found : Option ℕ)
          → index_in digit text ≡ found
          → ((strip (story_in text) == strip story && is_below current_i (index_in digit text))
              ≡ true)
            ↔ ((strip (story_in text) ≡ strip story)
                × ((i : ℕ) × (index_in digit text ≡ some i) × (i < current_i)))
      go none e = ((λ h. ground (arith, h, e)), (λ h. ground (arith, h.1.1, e)))
      go (some i) e = (
        (λ h. (
          (text_beq_iff (strip (story_in text)) (strip story)).0 (ground (arith, h, e)),
          (i, e, ground (arith, h, e)),
        )),
        (λ h.
            ground
              (arith, h.1.1, h.1.2, e, (text_beq_iff (strip (story_in text)) (strip story)).1 h.0)),
      )

  joined-some :
      (b : Bool) (path : String) (o : Option (List String)) (ps : List String)
      → joined b path o ≡ some ps
      → (rs : List String) × (o ≡ some rs) × (ps ≡ (if b then path ∷ rs else rs))
  joined-some b path none ps e = cc
  joined-some b path (some rs) ps e = (rs, refl, ground (arith, e))

  -- What one turn of the loop adds is exactly its file, where that stands before the current one.
  turn-mem :
      (current : String) (story : Text) (current_i : ℕ) (x : String) (text : Text)
      (rs : List String) (path : String) (listed : Bool)
      → canonical_path p x ≢ canonical_path p current
      → tree.read x ≡ some text
      → (mem path rs ≡ true) ↔ ((listed ≡ true) × IsPrior current story current_i path)
      → (mem path (if stands_before digit story current_i text then x ∷ rs else rs) ≡ true)
        ↔ (((x == path || listed) ≡ true) × IsPrior current story current_i path)
  unfolding mem
  turn-mem current story current_i x text rs path listed other read ih = (there, back)
    where
      prior_x : stands_before digit story current_i text ≡ true → IsPrior current story current_i x
      prior_x s =
          let (same, (i, at_i, lt)) = (stands_before_iff story current_i text).0 s in
          record {
            other = other;
            text = text;
            index = i;
            readable = read;
            same_story = same;
            indexed = at_i;
            smaller = lt;
          }

      there :
          mem path (if stands_before digit story current_i text then x ∷ rs else rs) ≡ true
          → ((x == path || listed) ≡ true) × IsPrior current story current_i path
      there h = elim (Bool-cases (stands_before digit story current_i text)) [
        | inl s ↦ elim (Bool-cases (x == path)) [
          | inl e ↦ (
            ground (arith, e),
            subst (IsPrior current story current_i) ((eq_iff x path).0 e) (prior_x s),
          )
          | inr e ↦ let (l, pr) = ih.0 (ground (arith, h, s, e)) in (ground (arith, l), pr)
        ]
        | inr s ↦ let (l, pr) = ih.0 (ground (arith, h, s)) in (ground (arith, l), pr)
      ]

      stands :
          x ≡ path
          → IsPrior current story current_i path
          → stands_before digit story current_i text ≡ true
      stands e pr =
          let t : pr.text ≡ text = ground (arith, pr.readable, read, e) in
          (stands_before_iff story current_i text).1 (
            subst (λ u. strip (story_in u) ≡ strip story) t pr.same_story,
            (pr.index, subst (λ u. index_in digit u ≡ some pr.index) t pr.indexed, pr.smaller),
          )

      back :
          ((x == path || listed) ≡ true) × IsPrior current story current_i path
          → mem path (if stands_before digit story current_i text then x ∷ rs else rs) ≡ true
      back (h, pr) = elim (Bool-cases (x == path)) [
        | inl e ↦ rw (stands ((eq_iff x path).0 e) pr) (ground (arith, e))
        | inr e ↦ let m : mem path rs ≡ true = ih.1 (ground (arith, h, e), pr) in ground (arith, m)
      ]

  pub prior_among-mem :
      (current : String) (story : Text) (current_i : ℕ) (paths ps : List String)
      → prior_among p tree digit current story current_i paths ≡ some ps
      → (path : String)
      → (mem path ps ≡ true) ↔ ((mem path paths ≡ true) × IsPrior current story current_i path)
  unfolding prior_among mem
  prior_among-mem current story current_i [] ps e path =
      ((λ h. ground (arith, h, e)), (λ h. ground (arith, h.0)))
  prior_among-mem current story current_i (x ∷ paths) ps e path =
      elim (Bool-cases (canonical_path p x == canonical_path p current)) [
        | inl same ↦
            let ih = prior_among-mem current story current_i paths ps (rw same at e) path in
            (
              (λ h. let (l, pr) = ih.0 h in (ground (arith, l), pr)),
              (λ (h, pr). elim (Bool-cases (x == path)) [
                | inl at_path ↦ absurd (
                    pr.other (
                      subst (λ y. canonical_path p y ≡ canonical_path p current)
                        ((eq_iff x path).0 at_path)
                        ((eq_iff (canonical_path p x) (canonical_path p current)).0 same)))
                | inr e' ↦ ih.1 (ground (arith, h, e'), pr)
              ]),
            )
        | inr other ↦ elim (Option-cases (tree.read x)) [
          | inl unread ↦ ground (arith, e, other, unread)
          | inr (text, read) ↦
              let (rs, rest, made) =
                joined-some (stands_before digit story current_i text) x _ ps
                  (rw (other, read) at e) in
              rw made (
                turn-mem current story current_i x text rs path (mem path paths)
                  (λ q.
                    ground
                      (arith, other, (eq_iff (canonical_path p x) (canonical_path p current)).1 q))
                  read (prior_among-mem current story current_i paths rs rest path))
        ]
      ]
