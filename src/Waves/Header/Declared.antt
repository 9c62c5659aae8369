-- ===== src/Waves/Header/Declared.antt =====
-- The predecessors of harness/parallel_wave.py read back: a block of slugs as a task file lists it.
use dc_ness.Base.{
  is_none, ℕ, Text, codes, text_eq, Bool, true, false, not, ◌||◌, Option, none, some, List, [], ◌∷◌,
  ◌++◌, map, ◌≡◌, refl, ap, ◌∙◌, arith, All, all, starts_with, nat_eq, nat_beq, if◌then◌else◌,
}
use dc_ness.Base.Python.{is_space, strip, strip_by, lstrip, rstrip, put_before}
use dc_ness.Waves.Header.{
  clean_item, clean_items, finalize_dep_items, rest_group, group_of, block_item, item_then,
  behind_dash, with_item, of_field, of_block, non_empty, field, block_items, is_skipped,
  parse_depends_on,
}
use dc_ness.Waves.Header.Items.{
  plain, IsSlug, Item, tail, item_line, clean_item-item, is_placeholder-slug,
}

lstrip-head : (p : ℕ → Bool) (c : ℕ) (t : Text) → p c ≡ false → lstrip p (c ∷ t) ≡ c ∷ t
unfolding lstrip
lstrip-head p c t h = ap (λ b. if b then lstrip p t else c ∷ t) h

rest_group-head : (c : ℕ) (t : Text) → is_space c ≡ false → rest_group (c ∷ t) ≡ some (c ∷ t)
unfolding rest_group
rest_group-head c t h = ap (group_of (c ∷ t)) (lstrip-head is_space c t h)

block_item-dash : (t : Text) → block_item (codes "  - " ++ t) ≡ rest_group t
unfolding block_item lstrip is_space
block_item-dash t = refl

first_not_space : (c : ℕ) (t : Text) → all plain (c ∷ t) ≡ true → is_space c ≡ false
first_not_space c t h = ground arith

block_item-item :
    (t : Text) (o : Option Text)
    → IsSlug t
    → block_item (codes "  - " ++ t ++ tail o) ≡ some (t ++ tail o)
block_item-item [] o h = ground arith
block_item-item (c ∷ t) o (h, k, l) =
    block_item-dash (c ∷ t ++ tail o) ∙ rest_group-head c (t ++ tail o) (first_not_space c t h)

-- The block ends here: no line, or a line that starts another key.
abbrev pub ends_block : List Text → Bool
ends_block [] = true
ends_block ([] ∷ lines) = false
ends_block ((c ∷ t) ∷ lines) = not (is_space c || nat_beq c b'#')

is_skipped-head :
    (p : ℕ → Bool) (c : ℕ) (t : Text)
    → p c ≡ false
    → nat_beq c b'#' ≡ false
    → is_skipped (lstrip p (put_before p c t)) ≡ false
unfolding lstrip starts_with
is_skipped-head p c [] h k = ground arith
is_skipped-head p c (d ∷ t) h k = ground arith

is_skipped-key :
    (c : ℕ) (t : Text)
    → is_space c ≡ false
    → nat_beq c b'#' ≡ false
    → is_skipped (strip (c ∷ t)) ≡ false
unfolding strip strip_by rstrip
is_skipped-key c t h k = is_skipped-head is_space c (rstrip is_space t) h k

block_item-key : (c : ℕ) (t : Text) → is_space c ≡ false → block_item (c ∷ t) ≡ none
unfolding block_item
block_item-key c t h = ap (λ b. if b then behind_dash (lstrip is_space t) else none) h

ends_block-space :
    (c : ℕ) (t : Text) (lines : List Text)
    → ends_block ((c ∷ t) ∷ lines) ≡ true
    → (is_space c ≡ false) × (nat_beq c b'#' ≡ false)
ends_block-space c t lines h = ground arith

block_items-end : (after : List Text) → ends_block after ≡ true → block_items after ≡ []
unfolding block_items
block_items-end [] h = refl
block_items-end ([] ∷ lines) h = ground arith
block_items-end ((c ∷ t) ∷ lines) h =
    let (k, l) = ends_block-space c t lines h in
    ap (λ o. item_then o (is_skipped (strip (c ∷ t))) (block_items lines)) (block_item-key c t k)
    ∙ ap (λ b. if b then block_items lines else []) (is_skipped-key c t k l)

abbrev pub AreSlugs : List Item → Type 0
AreSlugs items = All (λ i. IsSlug i.slug) items

block_items-items :
    (items : List Item) (after : List Text)
    → AreSlugs items
    → ends_block after ≡ true
    → block_items (map item_line items ++ after) ≡ map (λ i. i.slug ++ tail i.comment) items
unfolding block_items
block_items-items [] after h e = block_items-end after e
block_items-items (i ∷ items) after h e =
    ap
      (λ o.
        item_then o (is_skipped (strip (item_line i))) (block_items (map item_line items ++ after)))
      (block_item-item i.slug i.comment h.0)
    ∙ ap (λ rest. (i.slug ++ tail i.comment) ∷ rest) (block_items-items items after h.1 e)

with_item-slug : (t : Text) (ts : List Text) → IsSlug t → with_item t (some ts) ≡ some (t ∷ ts)
with_item-slug t ts h = ground (arith, is_placeholder-slug t h, h.1)

clean_items-items :
    (items : List Item)
    → AreSlugs items
    → clean_items (map (λ i. i.slug ++ tail i.comment) items) ≡ some (map (λ i. i.slug) items)
unfolding clean_items
clean_items-items [] h = refl
clean_items-items (i ∷ items) h =
    ap (with_item (clean_item (i.slug ++ tail i.comment))) (clean_items-items items h.1)
    ∙ ap (λ it. with_item it (some (map (λ j. j.slug) items)))
        (clean_item-item i.slug i.comment h.0.0)
    ∙ with_item-slug i.slug (map (λ j. j.slug) items) h.0

-- No line before the block has the key.
abbrev pub lack_key : List Text → Bool
lack_key lines = all (λ l. is_none (field (codes "depends_on") l)) lines

lack_key-step :
    (l : Text) (before : List Text)
    → lack_key (l ∷ before) ≡ true
    → (is_none (field (codes "depends_on") l) ≡ true) × (lack_key before ≡ true)
lack_key-step l before h = ground arith

of_block-items :
    (i : Item) (items : List Item)
    → AreSlugs (i ∷ items)
    → of_block (map (λ j. j.slug ++ tail j.comment) (i ∷ items))
      ≡ some (map (λ j. j.slug) (i ∷ items))
unfolding finalize_dep_items
of_block-items i items h = ap non_empty (clean_items-items (i ∷ items) h)

of_field-none :
    (o : Option Text) (lines : List Text) (rest : Option (List Text))
    → is_none o ≡ true
    → of_field o lines rest ≡ rest
of_field-none none lines rest h = refl
of_field-none (some t) lines rest h = ground arith

-- A block of slugs below the first line `depends_on:`, each with or without a comment behind it, is
-- read back as these slugs in their order. No line before has the key, there is at least one slug,
-- the slugs have no spaces, quotes, backticks, `#`, `<` or `>` in them and are not `...`, and the
-- frontmatter ends behind the block or goes on with a line that starts another key.
pub parse_depends_on-declared :
    (before : List Text) (i : Item) (items : List Item) (after : List Text)
    → lack_key before ≡ true
    → AreSlugs (i ∷ items)
    → ends_block after ≡ true
    → parse_depends_on (before ++ codes "depends_on:" ∷ map item_line (i ∷ items) ++ after)
      ≡ some (map (λ j. j.slug) (i ∷ items))
unfolding parse_depends_on
parse_depends_on-declared [] i items after k h e =
    ap of_block (block_items-items (i ∷ items) after h e) ∙ of_block-items i items h
parse_depends_on-declared (l ∷ before) i items after k h e =
    let (m, n) = lack_key-step l before k in
    let below = before ++ codes "depends_on:" ∷ map item_line (i ∷ items) ++ after in
    of_field-none (field (codes "depends_on") l) below (parse_depends_on below) m
    ∙ parse_depends_on-declared before i items after n h e
