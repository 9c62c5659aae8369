-- ===== src/Board/Claims.antt =====
-- What holds of a claim over any calls of the board, by any sessions, in any order.
use dc_ness.Base.{
  String, string_eq, Option, none, some, List, [], ◌∷◌, ◌++◌, ◌≡◌, refl, ◌⊎◌, inl, arith, eq_iff,
}
use dc_ness.Base.Dict.{lookup, lookup-put, lookup-delete}
use dc_ness.Board.Records.{Platform, Claim, Board, ok}
use dc_ness.Board.Operations.{read_claim, write_claim, archive_record, unlink_claim}
use dc_ness.Board.Machine.{
  IsHexDigest, Caller, Change, registered, claimed, updated, freed, Step, Step-Change, Reach, here,
  next,
}

-- The claim file of the key holds a completed claim.
abbrev pub state_of : Option (Option Claim) → Option String
state_of none = none
state_of (some none) = none
state_of (some (some r)) = some r.state

abbrev pub IsDone : String → Board → Type 0
IsDone key b = state_of (lookup key b.claims) ≡ some "completed"

pub read-lookup :
    (b : Board) (key : String) (r : Claim)
    → read_claim b key ≡ ok r
    → lookup key b.claims ≡ some (some r)
unfolding read_claim
read-lookup b key r e = ground arith

module _ (key : String) (b : Board) where
  Change-IsDone : {caller : Caller} {b' : Board} → Change caller b b' → IsDone key b → IsDone key b'
  unfolding write_claim unlink_claim archive_record
  Change-IsDone (registered claims archive) h = rw claims h
  Change-IsDone (claimed k r reg free fresh by) h =
      ground (arith, lookup-put k key (some r) b.claims, eq_iff k key)
  Change-IsDone (updated k r r' found same by keeps) h =
      ground (arith, lookup-put k key (some r') b.claims, eq_iff k key, read-lookup b k r found)
  Change-IsDone (freed k r r' found same open_) h =
      ground (arith, lookup-delete k key b.claims, eq_iff k key, read-lookup b k r found)

-- A completed claim stays completed, whatever calls of the board but `reset` follow, by whatever
-- sessions and in whatever order, for a digest of 24 hexadecimal digits.
pub Reach-IsDone :
    (p : Platform) (key : String) (b b' : Board)
    → IsHexDigest p
    → Reach p b b'
    → IsDone key b
    → IsDone key b'
Reach-IsDone p key b _ hex here h = h
Reach-IsDone p key b b' hex (next {c = c} caller r s) h =
    Change-IsDone key c (Step-Change p c b' caller hex s) (Reach-IsDone p key b c hex r h)

-- Session and run of the claim at the key.
abbrev pub holder_of : Option (Option Claim) → Option (String × String)
holder_of none = none
holder_of (some none) = none
holder_of (some (some r)) = some (r.session_id, r.run_id)

abbrev pub holder : String → Board → Option (String × String)
holder key b = holder_of (lookup key b.claims)

-- The archive ends in a record of this key and holder.
abbrev pub last_archived : List (String × Claim) → Option (String × String × String)
last_archived [] = none
last_archived ((key, r) ∷ []) = some (key, r.session_id, r.run_id)
last_archived (x ∷ y ∷ rest) = last_archived (y ∷ rest)

last_archived-snoc :
    (l : List (String × Claim)) (key : String) (r : Claim)
    → last_archived (l ++ (key, r) ∷ []) ≡ some (key, r.session_id, r.run_id)
last_archived-snoc [] key r = refl
last_archived-snoc (x ∷ []) key r = refl
last_archived-snoc (x ∷ y ∷ l) key r = last_archived-snoc (y ∷ l) key r

module _ (key s u : String) (b : Board) where
  -- The holder keeps the claim, or the claim is gone and its record is the newest in the archive.
  abbrev pub IsKept : Board → Type 0
  IsKept b' =
      (holder key b' ≡ some (s, u))
      ⊎ ((lookup key b'.claims ≡ none) × (last_archived b'.archive ≡ some (key, s, u)))

  Change-IsKept :
      {caller : Caller} {b' : Board} → Change caller b b' → holder key b ≡ some (s, u) → IsKept b'
  unfolding write_claim unlink_claim archive_record
  Change-IsKept (registered claims archive) h = inl (rw claims h)
  Change-IsKept (claimed k r reg free fresh by) h =
      ground (arith, lookup-put k key (some r) b.claims, eq_iff k key)
  Change-IsKept (updated k r r' found same by keeps) h =
      ground (arith, lookup-put k key (some r') b.claims, eq_iff k key, read-lookup b k r found)
  Change-IsKept (freed k r r' found same open_) h = ground (
    arith,
    lookup-delete k key b.claims,
    eq_iff k key,
    read-lookup b k r found,
    last_archived-snoc b.archive k r',
  )

-- No call but `reset` takes a claim from its holder without a trace: after one call of any other
-- method, by any session, the session and the run that held a claim still hold it, or the claim file
-- is gone and the newest archive record is theirs, for a digest of 24 hexadecimal digits.
pub Step-IsKept :
    (p : Platform) (key s u : String) (b b' : Board) (caller : Caller)
    → IsHexDigest p
    → Step p b caller b'
    → holder key b ≡ some (s, u)
    → IsKept key s u b b'
Step-IsKept p key s u b b' caller hex step h =
    Change-IsKept key s u b (Step-Change p b b' caller hex step) h
