-- ===== src/Waves/Repair/Changes.antt =====
-- The repair of harness/parallel_wave.py: what its receipt says of the rewritten text.
use mathlib.Core.Bool.{false≢true}
use dc_ness.Base.{
  ℕ, suc, ◌≤◌, Text, Bool, false, Option, none, some, List, [], ◌∷◌, if◌then◌else◌, ◌≡◌, refl, ap,
  sym, ◌∙◌, ◌||◌, arith, All, All-map, nat_beq, ◌++◌,
}
use dc_ness.Base.Python.{strip, rstrip, is_space, splitlines, ends_with_char}
use dc_ness.Waves.Repair.{
  Change, Repaired, in_section, repair_line, repair_from, rewritten, join_lines,
  normalize_scope_text,
}
use dc_ness.Waves.Repair.Places.{IsPlaced, repair_from-IsPlaced}
use dc_ness.Waves.Section.{is_scope_header}

-- The lines from the number `n` on, each one that a change names replaced by what it says.
unfoldable pub replay : ℕ → List Text → List Change → List Text
replay n [] changes = []
replay n (l ∷ ls) [] = l ∷ replay (suc n) ls []
replay n (l ∷ ls) (c ∷ cs) =
    let hit = nat_beq c.line n in
    let rest = replay (suc n) ls (if hit then cs else c ∷ cs) in (if hit then c.after else l) ∷ rest

abbrev AreFrom : ℕ → List Change → Type 0
AreFrom n changes = All (λ c. n ≤ c.line) changes

repair_line-AreFrom :
    (n : ℕ) (raw : Text) (d : Option Text) (r : Repaired)
    → AreFrom (suc n) r.1
    → AreFrom n (repair_line n raw d r).1
repair_line-AreFrom n raw none (out, cs) h =
    All-map (λ c. suc n ≤ c.line) (λ c. n ≤ c.line) cs (λ c k. omega arith) h
repair_line-AreFrom n raw (some new) (out, cs) h =
    (omega arith, All-map (λ c. suc n ≤ c.line) (λ c. n ≤ c.line) cs (λ c k. omega arith) h)

replay-later :
    (n : ℕ) (l : Text) (ls : List Text) (cs : List Change)
    → AreFrom (suc n) cs
    → replay n (l ∷ ls) cs ≡ l ∷ replay (suc n) ls cs
unfolding replay
replay-later n l ls [] h = refl
replay-later n l ls (c ∷ cs) h = ground (arith, h.0)

replay-here :
    (n : ℕ) (l : Text) (ls : List Text) (c : Change) (cs : List Change)
    → c.line ≡ n
    → replay n (l ∷ ls) (c ∷ cs) ≡ c.after ∷ replay (suc n) ls cs
unfolding replay
replay-here n l ls c cs h = ground arith

repair_line-replay :
    (n : ℕ) (l : Text) (ls : List Text) (d : Option Text) (r : Repaired)
    → AreFrom (suc n) r.1
    → replay (suc n) ls r.1 ≡ r.0
    → replay n (l ∷ ls) (repair_line n l d r).1 ≡ (repair_line n l d r).0
repair_line-replay n l ls none (out, cs) h e = replay-later n l ls cs h ∙ ap (λ rest. l ∷ rest) e
repair_line-replay n l ls (some new) (out, cs) h e =
    replay-here n l ls (record { line = n; before = rstrip is_space l; after = new }) cs refl
    ∙ ap (λ rest. new ∷ rest) e

repair_from-AreFrom : (b : Bool) (n : ℕ) (ls : List Text) → AreFrom n (repair_from b n ls).1
unfolding repair_from
repair_from-AreFrom b n [] = tt
repair_from-AreFrom b n (l ∷ ls) =
    let next = is_scope_header (strip l) || in_section b (strip l) in
    repair_line-AreFrom n l (rewritten b l) (repair_from next (suc n) ls)
      (repair_from-AreFrom next (suc n) ls)

repair_from-replay :
    (b : Bool) (n : ℕ) (ls : List Text)
    → replay n ls (repair_from b n ls).1 ≡ (repair_from b n ls).0
unfolding repair_from replay
repair_from-replay b n [] = refl
repair_from-replay b n (l ∷ ls) =
    let next = is_scope_header (strip l) || in_section b (strip l) in
    repair_line-replay n l ls (rewritten b l) (repair_from next (suc n) ls)
      (repair_from-AreFrom next (suc n) ls) (repair_from-replay next (suc n) ls)

-- The last newline of a text.
abbrev pub suffix : Text → Text
suffix text = if ends_with_char 10 text then 10 ∷ [] else []

-- The receipt accounts for the repair: the repaired text is the text with exactly the lines that
-- the changes number replaced by what they say, a last newline kept. The line that a change numbers
-- stands in a scope section, below its header and above the next one, and is no header itself; the
-- change tells that line, without the spaces behind it, and what the rules of the repair make of it.
pub normalize_scope_text-replay :
    (text : Text)
    → ((normalize_scope_text text).0
        ≡ join_lines (replay 1 (splitlines text) (normalize_scope_text text).1) ++ suffix text)
      × All (IsPlaced (splitlines text)) (normalize_scope_text text).1
unfolding normalize_scope_text
normalize_scope_text-replay text = (
  ap (λ out. join_lines out ++ suffix text) (sym (repair_from-replay false 1 (splitlines text))),
  repair_from-IsPlaced false [] (splitlines text) (λ e. absurd (false≢true e)),
)
