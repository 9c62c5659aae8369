-- ===== src/Session/Names.antt =====
-- harness/session_state.py, the names of sessions and runs, and harness/agent_names.py.
use dc_ness.Base.{
  ℕ, ◌≤◌, Text, codes, text_eq, nat_eq, Bool, true, false, ◌&&◌, ◌||◌, Option, none, some, List, [],
  ◌∷◌, length, all, if◌then◌else◌, nat_beq, leb, ◌≡◌, refl, ap, sym, ◌∙◌, arith, starts_with,
  is_empty, ◌≢◌, ◌⊎◌, inl, ◌++◌, mem,
}
use dc_ness.Base.Python.{split, drop_prefix, drop_last, ends_with_char}

abbrev pub is_lower : ℕ → Bool
is_lower c = leb b'a' c && leb c b'z'

abbrev pub is_digit : ℕ → Bool
is_digit c = leb b'0' c && leb c b'9'

abbrev pub is_alnum : ℕ → Bool
is_alnum c = is_lower c || ((leb b'A' c && leb c b'Z') || is_digit c)

abbrev pub id_char : ℕ → Bool
id_char c = is_alnum c || (nat_beq c b'_' || nat_beq c b'-')

-- What a pattern with `$` at its end reads: `$` also stands before a newline at the end.
unfoldable pub without_newline : Text → Text
unfolding ends_with_char drop_last
without_newline t = if ends_with_char 10 t then drop_last t else t

abbrev is_session_id : Text → Bool
is_session_id [] = false
is_session_id (c ∷ t) = is_alnum c && (all id_char t && leb (length t) 255)

-- `SESSION_ID_RE.match`
unfoldable pub valid_session_id : Text → Bool
unfolding without_newline
valid_session_id sid = is_session_id (without_newline sid)

abbrev run_char : ℕ → Bool
run_char c = is_lower c || is_digit c

abbrev is_run_tail : Option Text → Bool
is_run_tail none = false
is_run_tail (some t) = all run_char t && nat_beq (length t) 8

-- `RUN_ID_RE.fullmatch`, by which transition goes.
unfoldable pub is_run_id : Text → Bool
unfolding drop_prefix
is_run_id rid = is_run_tail (drop_prefix (codes "run-") rid)

-- `RUN_ID_RE.match`, by which run_dir and the scan go.
unfoldable pub matches_run_id : Text → Bool
unfolding is_run_id without_newline
matches_run_id rid = is_run_id (without_newline rid)

-- The part behind the first colon, up to the next one.
abbrev second_part : Text → List Text → Text
second_part agent_type (x ∷ y ∷ parts) = y
second_part agent_type _ = agent_type

-- An empty name, for which the code returns None, stays empty.
unfoldable pub normalize_agent_type : Text → Text
unfolding starts_with split
normalize_agent_type agent_type =
    if starts_with agent_type (codes "dcness:")
    then second_part agent_type (split b':' agent_type)
    else agent_type

-- `normalize_agent_type(agent) or agent`
unfoldable pub canonical_agent : Text → Text
unfolding normalize_agent_type
canonical_agent agent =
    let normalized = normalize_agent_type agent in if is_empty normalized then agent else normalized

-- A character that a name which is accepted may have.
abbrev safe_char : ℕ → Bool
safe_char c = id_char c || nat_beq c 10

without_newline-cons :
    (c d : ℕ) (t : Text) → without_newline (c ∷ d ∷ t) ≡ c ∷ without_newline (d ∷ t)
unfolding without_newline ends_with_char drop_last
without_newline-cons c d t = ground arith

without_newline-safe : (t : Text) → all id_char (without_newline t) ≡ true → all safe_char t ≡ true
unfolding without_newline ends_with_char drop_last
without_newline-safe [] h = refl
without_newline-safe (c ∷ []) h = ground arith
without_newline-safe (c ∷ d ∷ t) h =
    let e : all id_char (c ∷ without_newline (d ∷ t)) ≡ true =
      ap (all id_char) (sym (without_newline-cons c d t)) ∙ h in
    ground (arith, e, without_newline-safe (d ∷ t))

session_id_parts :
    (t : Text) → is_session_id t ≡ true → (t ≢ []) × (all id_char t ≡ true) × (length t ≤ 256)
session_id_parts [] h = ground arith
session_id_parts (c ∷ t) h = ((λ e. absurd (∷≢[] e)), ground arith, ground arith)
  where
    ∷≢[] : {c : ℕ} {t : Text} → c ∷ t ≡ [] → ⊥
    ∷≢[] h = cc

without_newline-cases : (t : Text) → (t ≡ without_newline t) ⊎ (t ≡ without_newline t ++ (10 ∷ []))
unfolding without_newline ends_with_char drop_last
without_newline-cases [] = inl refl
without_newline-cases (c ∷ []) = ground arith
without_newline-cases (c ∷ d ∷ t) =
    ground (arith, without_newline-cons c d t, without_newline-cases (d ∷ t))

all-mem-none : (p : ℕ → Bool) (c : ℕ) (t : Text) → p c ≡ false → all p t ≡ true → mem c t ≡ false
unfolding mem
all-mem-none p c [] other h = refl
all-mem-none p c (d ∷ t) other h =
    ground (arith, other, h, all-mem-none p c t other, nat_eq.same_iff c d)

-- A name that is accepted for a session is a text of letters, digits, `_` and `-`, not empty and of
-- at most 256 characters, or such a text with one newline behind it; so it holds no slash, no
-- backslash and no dot.
pub valid_session_id-safe :
    (sid : Text)
    → valid_session_id sid ≡ true
    → ((t : Text) × ((sid ≡ t) ⊎ (sid ≡ t ++ (10 ∷ [])))
        × (t ≢ [])
        × (all id_char t ≡ true)
        × (mem 10 t ≡ false)
        × (length t ≤ 256))
      × (mem b'/' sid ≡ false)
      × (mem b'\\' sid ≡ false)
      × (mem b'.' sid ≡ false)
unfolding valid_session_id
valid_session_id-safe sid h =
    let (filled, chars, short) = session_id_parts (without_newline sid) h in
    let safe : all safe_char sid ≡ true = without_newline-safe sid chars in
    (
      (
        without_newline sid,
        without_newline-cases sid,
        filled,
        chars,
        all-mem-none id_char 10 _ refl chars,
        short,
      ),
      all-mem-none safe_char b'/' sid refl safe,
      all-mem-none safe_char b'\\' sid refl safe,
      all-mem-none safe_char b'.' sid refl safe,
    )
