-- ===== src/Waves/Repair/Places.antt =====
-- The repair of harness/parallel_wave.py: the line that each change of its receipt is about.
use dc_ness.Base.{
  suc, Text, Bool, true, false, Option, none, some, List, [], ◌∷◌, ◌++◌, ◌≡◌, refl, ap, ◌∙◌, subst,
  ◌||◌, arith, All, All-append, append_assoc, length, Bool-cases, inl, inr,
}
use dc_ness.Base.Python.{strip, rstrip, is_space}
use dc_ness.Waves.Repair.{
  Change, Repaired, replacement, in_section, repair_line, repair_from, rewritten,
}
use dc_ness.Waves.Section.{is_scope_header, is_next_header}

-- A header of a scope section that no other header has ended since.
pub record IsOpen (lines : List Text) : Type 0 where
  pub before : List Text
  pub header : Text
  pub between : List Text
  pub split : lines ≡ before ++ (header ∷ between)
  pub opens : is_scope_header (strip header) ≡ true
  pub goes_on : All (λ l. is_next_header (strip l) ≡ false) between

-- The change is the rewrite of the line that it numbers, which is one of a scope section.
pub record IsPlaced (lines : List Text) (c : Change) : Type 0 where
  pub above : List Text
  pub raw : Text
  pub below : List Text
  pub cut : lines ≡ above ++ (raw ∷ below)
  pub numbered : c.line ≡ suc (length above)
  pub section : IsOpen above
  pub no_header : is_scope_header (strip raw) ≡ false
  pub no_end : is_next_header (strip raw) ≡ false
  pub was : c.before ≡ rstrip is_space raw
  pub becomes : replacement raw ≡ some c.after

length-longer : (above : List Text) (raw : Text) → length (above ++ (raw ∷ [])) ≡ suc (length above)
length-longer [] raw = refl
length-longer (l ∷ above) raw = ground (arith, length-longer above raw)

-- The section that is open behind a line.
open_next :
    (b : Bool) (above : List Text) (raw : Text)
    → (b ≡ true → IsOpen above)
    → (is_scope_header (strip raw) || in_section b (strip raw)) ≡ true
    → IsOpen (above ++ (raw ∷ []))
open_next b above raw is_open e = elim (Bool-cases (is_scope_header (strip raw))) [
  | inl here ↦ record {
    before = above;
    header = raw;
    between = [];
    split = refl;
    opens = here;
    goes_on = tt;
  }
  | inr other ↦
      let o = is_open (ground (arith, e, other)) in
      let ends : is_next_header (strip raw) ≡ false = ground (arith, e, other) in
      record {
        before = o.before;
        header = o.header;
        between = o.between ++ (raw ∷ []);
        split =
            ap (λ ls. ls ++ (raw ∷ [])) o.split ∙ append_assoc o.before (o.header ∷ o.between) _;
        opens = o.opens;
        goes_on = All-append _ o.between (raw ∷ []) o.goes_on (ends, tt);
      }
]

repair_line-IsPlaced :
    (b : Bool) (above : List Text) (raw : Text) (below : List Text) (d : Option Text) (r : Repaired)
    → (b ≡ true → IsOpen above)
    → rewritten b raw ≡ d
    → All (IsPlaced (above ++ (raw ∷ below))) r.1
    → All (IsPlaced (above ++ (raw ∷ below))) (repair_line (suc (length above)) raw d r).1
repair_line-IsPlaced b above raw below none (out, cs) is_open e h = h
repair_line-IsPlaced b above raw below (some new) (out, cs) is_open e h = (
  record {
    above = above;
    raw = raw;
    below = below;
    cut = refl;
    numbered = refl;
    section = is_open (ground (arith, e));
    no_header = ground (arith, e);
    no_end = ground (arith, e);
    was = refl;
    becomes = ground (arith, e);
  },
  h,
)

pub repair_from-IsPlaced :
    (b : Bool) (above lines : List Text)
    → (b ≡ true → IsOpen above)
    → All (IsPlaced (above ++ lines)) (repair_from b (suc (length above)) lines).1
unfolding repair_from
repair_from-IsPlaced b above [] is_open = tt
repair_from-IsPlaced b above (raw ∷ lines) is_open =
    let next = is_scope_header (strip raw) || in_section b (strip raw) in
    repair_line-IsPlaced b above raw lines (rewritten b raw)
      (repair_from next (suc (suc (length above))) lines) is_open refl
      (subst (λ n. All (IsPlaced (above ++ (raw ∷ lines))) (repair_from next (suc n) lines).1)
        (length-longer above raw)
        (subst
          (λ ls. All (IsPlaced ls) (repair_from next (suc (length (above ++ (raw ∷ [])))) lines).1)
          (append_assoc above (raw ∷ []) lines)
          (repair_from-IsPlaced next (above ++ (raw ∷ [])) lines (open_next b above raw is_open))))
