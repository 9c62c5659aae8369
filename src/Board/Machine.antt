-- ===== src/Board/Machine.antt =====
-- The board as an abstract machine: what may happen to a claim, and that every operation is one of
-- these changes.
use dc_ness.Base.{
  ℕ, String, string_eq, true, false, not, ◌&&◌, ◌||◌, Option, none, some, List, [], ◌∷◌, ◌==◌, ◌≡◌,
  ◌≢◌, refl, ◌⊎◌, inl, inr, arith, eq_iff, Bool-cases, length, codes, all, nat_beq, ap,
}
use dc_ness.Base.Dict.{lookup, put}
use dc_ness.Board.Records.{
  Platform, Claim, Board, Result, ok, err, is_hex, canonical_path, key_for_path,
  key_from_key_or_path,
}
use dc_ness.Board.Operations.{
  Claimant, read_claim, with_claim, write_claim, archive_record, unlink_claim, register,
  is_registered, registration, new_claim, create_claim, claim_if_registered, get_record, heartbeat,
  complete, release, reclaim,
}

-- The digest is 24 lower-case hexadecimal digits.
abbrev pub IsHexDigest : Platform → Type 0
IsHexDigest p =
    (s : String)
    → (nat_beq (length (codes (p.digest s))) 24 && all is_hex (codes (p.digest s))) ≡ true

-- The session and the run that hold the claim are the same.
abbrev pub SameHolder : Claim → Claim → Type 0
SameHolder r r' = (r.session_id ≡ r'.session_id) × (r.run_id ≡ r'.run_id)

-- The identity that a call gives, the session and the run, where the method takes one.
abbrev pub Caller : Type 0
Caller = Option (String × String)

-- The claim is the caller's, where the call gives an identity.
abbrev pub IsBy : Caller → Claim → Type 0
IsBy none r = Unit
IsBy (some (s, u)) r = (r.session_id ≡ s) × (r.run_id ≡ u)

-- The board with no change but in its registrations.
record SameClaims (b b' : Board) : Type 0 where
  pub claims : b'.claims ≡ b.claims
  pub archive : b'.archive ≡ b.archive

-- What may happen to the claims. A new claim needs a registration and a free key, and is the
-- caller's; a held claim is updated by its holder, or by a call that gives no identity, keeps its
-- holder, and stays completed where it is; a claim that is not completed is freed, and goes to the
-- archive with its holder.
pub data Change (caller : Caller) (b : Board) : Board → Type 0 where
  registered : {b' : Board} → b'.claims ≡ b.claims → b'.archive ≡ b.archive → Change caller b b'
  claimed :
      (key : String) (r : Claim)
      → lookup key b.registrations ≢ none
      → lookup key b.claims ≡ none
      → r.state ≡ "claimed"
      → caller ≡ some (r.session_id, r.run_id)
      → Change caller b (write_claim key r b)
  updated :
      (key : String) (r r' : Claim)
      → read_claim b key ≡ ok r
      → SameHolder r r'
      → IsBy caller r
      → (r'.state ≡ "completed") ⊎ (r.state ≢ "completed")
      → Change caller b (write_claim key r' b)
  freed :
      (key : String) (r r' : Claim)
      → read_claim b key ≡ ok r
      → SameHolder r r'
      → r.state ≢ "completed"
      → Change caller b (unlink_claim key (archive_record key r' b))

unchanged : (caller : Caller) (b : Board) → Change caller b b
unchanged caller b = registered refl refl

ne-completed : (s : String) → (s == "completed") ≡ false → s ≢ "completed"
ne-completed s h e = cc ((eq_iff s "completed").1 e)

key_from-key_from :
    (p : Platform)
    → IsHexDigest p
    → (v : String) → key_from_key_or_path p (key_from_key_or_path p v) ≡ key_from_key_or_path p v
unfolding key_from_key_or_path key_for_path
key_from-key_from p hex v = ground (arith, hex (canonical_path p v))

with_claim-Change :
    {A : Type 0} (caller : Caller) (b : Board) (m : Result Claim) (f : Claim → Board × Result A)
    → ((r : Claim) → m ≡ ok r → Change caller b (f r).0)
    → Change caller b (with_claim b m f).0
with_claim-Change caller b (ok r) f h = h r refl
with_claim-Change caller b (err e) f h = unchanged caller b

module _ (p : Platform) where
  register-Change :
      (paths : List String) (plan_id : Option String) (now : ℕ) (b : Board)
      → ((register p paths plan_id now b).0.claims ≡ b.claims)
        × ((register p paths plan_id now b).0.archive ≡ b.archive)
  unfolding register
  register-Change [] plan_id now b = (refl, refl)
  register-Change (raw ∷ paths) plan_id now b =
      let r = registration p raw plan_id now in
      register-Change paths plan_id now
        (record b { registrations = put r.key (some r) b.registrations })

  is_registered-lookup :
      (path : String) (b : Board)
      → is_registered p path b ≡ true
      → lookup (key_for_path p path) b.registrations ≢ none
  unfolding is_registered
  is_registered-lookup path b h = ground arith

  create_claim-Change :
      (key canonical : String) (who : Claimant) (now stale : ℕ) (found : Option (Option Claim))
      (b : Board)
      → lookup key b.registrations ≢ none
      → lookup key b.claims ≡ found
      → Change
          (some (who.session_id, who.run_id))
          b
          (create_claim p key canonical who now stale found b).0
  create_claim-Change key canonical who now stale none b reg e =
      claimed key (new_claim p canonical who now) reg e refl refl
  create_claim-Change key canonical who now stale (some none) b reg e = unchanged _ b
  create_claim-Change key canonical who now stale (some (some r)) b reg e = unchanged _ b

  claim_if_registered-Change :
      (path : String) (who : Claimant) (now stale : ℕ) (b : Board)
      → Change (some (who.session_id, who.run_id)) b (claim_if_registered p path who now stale b).0
  unfolding claim_if_registered
  claim_if_registered-Change path who now stale b =
      let canonical = canonical_path p path in
      elim (Bool-cases (is_registered p canonical b)) [
        | inl reg ↦ rw reg (
            create_claim-Change (key_for_path p canonical) canonical who now stale _ b
              (is_registered-lookup canonical b reg) refl)
        | inr free ↦ rw free (unchanged _ b)
      ]

  module _ (hex : IsHexDigest p) (v : String) (b : Board) where
    pub get_record-read :
        get_record p (key_from_key_or_path p v) b ≡ read_claim b (key_from_key_or_path p v)
    unfolding get_record
    get_record-read = ap (read_claim b) (key_from-key_from p hex v)

    heartbeat-Change :
        (session_id run_id : String) (now : ℕ)
        → Change (some (session_id, run_id)) b (heartbeat p v session_id run_id now b).0
    unfolding heartbeat
    heartbeat-Change session_id run_id now = rw get_record-read (
        with_claim-Change _ b (read_claim b (key_from_key_or_path p v)) _ λ r found.
          elim (Bool-cases (not (r.session_id == session_id) || not (r.run_id == run_id))) [
            | inl other ↦ rw other (unchanged _ b)
            | inr same ↦ rw same (
                updated (key_from_key_or_path p v) r _ found (refl, refl) (its_holder r same)
                  (done_or_not r))
          ])
      where
        its_holder :
            (r : Claim)
            → (not (r.session_id == session_id) || not (r.run_id == run_id)) ≡ false
            → IsBy (some (session_id, run_id)) r
        its_holder r same = ground (arith, eq_iff r.session_id session_id, eq_iff r.run_id run_id)

        done_or_not : (r : Claim) → (r.state ≡ "completed") ⊎ (r.state ≢ "completed")
        done_or_not r = elim (Bool-cases (r.state == "completed")) [
          | inl done ↦ inl ((eq_iff r.state "completed").0 done)
          | inr open_ ↦ inr (ne-completed r.state open_)
        ]

    complete-Change :
        (pr_number : Option ℕ) (url : Option String) (now : ℕ)
        → Change none b (complete p v pr_number url now b).0
    unfolding complete
    complete-Change pr_number url now = rw get_record-read (
        with_claim-Change _ b (read_claim b (key_from_key_or_path p v)) _
          λ r found. updated (key_from_key_or_path p v) r _ found (refl, refl) tt (inl refl))

    release-Change :
        (state reason : String) (now : ℕ) → Change none b (release p v state reason now b).0
    unfolding release
    release-Change state reason now = rw get_record-read (
        with_claim-Change _ b (read_claim b (key_from_key_or_path p v)) _ λ r found.
          elim (Bool-cases (r.state == "completed")) [
            | inl done ↦ rw done (unchanged _ b)
            | inr open_ ↦ elim (Bool-cases (state == "released")) [
              | inl freeing ↦
                  rw (open_, freeing)
                    (freed (key_from_key_or_path p v) r _ found (refl, refl)
                      (ne-completed r.state open_))
              | inr keeping ↦
                  rw (open_, keeping)
                    (updated (key_from_key_or_path p v) r _ found (refl, refl) tt
                      (inr (ne-completed r.state open_)))
            ]
          ])

    reclaim-Change : (reason : String) (now : ℕ) → Change none b (reclaim p v reason now b).0
    unfolding reclaim
    reclaim-Change reason now =
        with_claim-Change _ b (read_claim b (key_from_key_or_path p v)) _ λ r found.
          elim (Bool-cases (r.state == "completed")) [
            | inl done ↦ rw done (unchanged _ b)
            | inr open_ ↦ rw open_ (
                freed (key_from_key_or_path p v) r _ found (refl, refl)
                  (ne-completed r.state open_))
          ]

-- One call of a method that changes the board, with any arguments, and the identity that it gives;
-- `reset`, which removes the board, is no step.
pub data Step (p : Platform) (b : Board) : Caller → Board → Type 0 where
  register_step :
      (paths : List String) (plan_id : Option String) (now : ℕ)
      → Step p b none (register p paths plan_id now b).0
  claim_step :
      (path : String) (who : Claimant) (now stale : ℕ)
      → Step p b (some (who.session_id, who.run_id)) (claim_if_registered p path who now stale b).0
  heartbeat_step :
      (v session_id run_id : String) (now : ℕ)
      → Step p b (some (session_id, run_id)) (heartbeat p v session_id run_id now b).0
  complete_step :
      (v : String) (pr_number : Option ℕ) (url : Option String) (now : ℕ)
      → Step p b none (complete p v pr_number url now b).0
  release_step :
      (v state reason : String) (now : ℕ) → Step p b none (release p v state reason now b).0
  reclaim_step : (v reason : String) (now : ℕ) → Step p b none (reclaim p v reason now b).0

-- Every call of a method but `reset`, with any arguments and whatever it raises, is a change of the
-- abstract machine, for a digest of 24 hexadecimal digits: it makes a claim only of a registered key
-- that is free, in the caller's name; where the call gives a session and a run, as a heartbeat does,
-- it updates only a claim that these hold; it never changes a claim's holder or takes back a
-- completion, and frees only a claim that is not completed, into the archive.
pub Step-Change :
    (p : Platform) (b b' : Board) (caller : Caller)
    → IsHexDigest p
    → Step p b caller b'
    → Change caller b b'
Step-Change p b _ _ hex (register_step paths plan_id now) =
    let (claims, archive) = register-Change p paths plan_id now b in registered claims archive
Step-Change p b _ _ hex (claim_step path who now stale) =
    claim_if_registered-Change p path who now stale b
Step-Change p b _ _ hex (heartbeat_step v session_id run_id now) =
    heartbeat-Change p hex v b session_id run_id now
Step-Change p b _ _ hex (complete_step v pr_number url now) =
    complete-Change p hex v b pr_number url now
Step-Change p b _ _ hex (release_step v state reason now) =
    release-Change p hex v b state reason now
Step-Change p b _ _ hex (reclaim_step v reason now) = reclaim-Change p hex v b reason now

pub data Reach (p : Platform) (b : Board) : Board → Type 0 where
  here : Reach p b b
  next : {c d : Board} (caller : Caller) → Reach p b c → Step p c caller d → Reach p b d
