-- ===== src/Board/Status.antt =====
-- harness/wave_board.py, what the board shows: status_records and find_claim_by_branch.
use dc_ness.Base.{
  String, string_eq, codes, Bool, false, not, ◌&&◌, Option, none, some, List, [], ◌∷◌, ◌++◌, map,
  if◌then◌else◌, ◌==◌, ◌≡◌, ◌≢◌, refl, subst, All, arith, eq_iff, Bool-cases, inl, inr,
}
use dc_ness.Base.Dict.{Dict, put, lookup}
use dc_ness.Base.Sorts.{sorted, sorted-All}
use dc_ness.Board.Records.{Registration, Claim, Board, Result, ok, err, file_not_found, json_error}
use dc_ness.Board.Operations.{read_claim}

-- What a status lists: a registration that nobody claimed, or a claim.
pub data StatusRecord : Type 0 where
  registered : Registration → StatusRecord
  claimed : Claim → StatusRecord

abbrev pub record_key : StatusRecord → String
record_key (registered r) = r.key
record_key (claimed r) = r.key

abbrev pub record_path : StatusRecord → String
record_path (registered r) = r.canonical_impl_path
record_path (claimed r) = r.canonical_impl_path

-- The names of a directory's files, in the order of `sorted(dir.glob("*.json"))`.
unfoldable pub file_names : {V : Type 0} → Dict String V → List String
unfolding sorted
file_names d = sorted (λ name. codes name ++ codes ".json") (map (λ (e : String × _). e.0) d)

unfoldable pub read_registration : Board → String → Result Registration
unfolding lookup
read_registration b key = elim (lookup key b.registrations) [
  | none ↦ err file_not_found
  | some none ↦ err json_error
  | some (some r) ↦ ok r
]

-- The loops over the files: one that cannot be read is passed over.
unfoldable pub with_registrations :
    Board → List String → Dict String StatusRecord → Dict String StatusRecord
unfolding read_registration put
with_registrations b [] records = records
with_registrations b (name ∷ names) records =
    with_registrations b names (elim (read_registration b name) [
      | err e ↦ records
      | ok r ↦ put r.key (registered r) records
    ])

abbrev pub put_claim : Result Claim → Dict String StatusRecord → Dict String StatusRecord
put_claim (err e) records = records
put_claim (ok r) records = put r.key (claimed r) records

unfoldable pub with_claims :
    Board → List String → Dict String StatusRecord → Dict String StatusRecord
unfolding read_claim put
with_claims b [] records = records
with_claims b (name ∷ names) records = with_claims b names (put_claim (read_claim b name) records)

unfoldable pub status_records : Board → (include_registered : Bool) → List StatusRecord
unfolding file_names with_registrations with_claims
status_records b include_registered =
    let names : List String = if include_registered then file_names b.registrations else [] in
    sorted (λ r. codes (record_path r))
      (map (λ (e : String × StatusRecord). e.1)
        (with_claims b (file_names b.claims) (with_registrations b names [])))

abbrev pub is_on_branch : String → StatusRecord → Bool
is_on_branch branch (registered r) = false
is_on_branch branch (claimed r) = r.branch == branch && not (r.state == "stale_reclaimed")

abbrev pub claim_in : StatusRecord → Option Claim → Option Claim
claim_in (registered r) rest = rest
claim_in (claimed r) rest = some r

unfoldable pub first_on_branch : String → List StatusRecord → Option Claim
first_on_branch branch [] = none
first_on_branch branch (r ∷ rs) =
    let rest = first_on_branch branch rs in if is_on_branch branch r then claim_in r rest else rest

unfoldable pub find_claim_by_branch : Board → String → Option Claim
unfolding status_records first_on_branch
find_claim_by_branch b branch = first_on_branch branch (status_records b false)

put-All :
    {V : Type 0} (P : V → Type 0) (k : String) (v : V) (d : Dict String V)
    → P v
    → All (λ (e : String × V). P e.1) d
    → All (λ (e : String × V). P e.1) (put k v d)
unfolding put
put-All P k v [] p h = (p, tt)
put-All P k v ((j, w) ∷ d) p h = elim (Bool-cases (j == k)) [
  | inl e ↦ rw e (p, h.1)
  | inr e ↦ rw e (h.0, put-All P k v d p h.1)
]

map-All :
    {V : Type 0} (P : V → Type 0) (d : Dict String V)
    → All (λ (e : String × V). P e.1) d
    → All P (map (λ (e : String × V). e.1) d)
map-All P [] h = tt
map-All P (e ∷ d) h = (h.0, map-All P d h.1)

module _ (b : Board) where
  -- A listed claim is that of a file.
  abbrev IsOnFile : StatusRecord → Type 0
  IsOnFile (registered r) = Unit
  IsOnFile (claimed r) = (name : String) × (read_claim b name ≡ ok r)

  put_claim-All :
      (name : String) (found : Result Claim)
      → read_claim b name ≡ found
      → (records : Dict String StatusRecord)
      → All (λ (e : String × StatusRecord). IsOnFile e.1) records
      → All (λ (e : String × StatusRecord). IsOnFile e.1) (put_claim found records)
  put_claim-All name (err e) f records h = h
  put_claim-All name (ok r) f records h = put-All IsOnFile r.key (claimed r) records (name, f) h

  with_claims-All :
      (names : List String) (records : Dict String StatusRecord)
      → All (λ (e : String × StatusRecord). IsOnFile e.1) records
      → All (λ (e : String × StatusRecord). IsOnFile e.1) (with_claims b names records)
  unfolding with_claims
  with_claims-All [] records h = h
  with_claims-All (name ∷ names) records h =
      with_claims-All names (put_claim (read_claim b name) records)
        (put_claim-All name (read_claim b name) refl records h)

  listed-All : All IsOnFile (status_records b false)
  unfolding status_records
  listed-All =
      sorted-All (λ r. codes (record_path r)) IsOnFile _
        (map-All IsOnFile _ (with_claims-All (file_names b.claims) (with_registrations b [] []) tt))

  -- The claim that is found for a branch.
  pub record IsFound (branch : String) (r : Claim) : Type 0 where
    pub name : String
    pub on_file : read_claim b name ≡ ok r
    pub on_branch : r.branch ≡ branch
    pub not_reclaimed : r.state ≢ "stale_reclaimed"

  first_on_branch-IsFound :
      (branch : String) (rs : List StatusRecord) (r : Claim)
      → All IsOnFile rs
      → first_on_branch branch rs ≡ some r
      → IsFound branch r
  unfolding first_on_branch
  first_on_branch-IsFound branch [] r h e = ground (arith, e)
  first_on_branch-IsFound branch (registered x ∷ rs) r h e =
      first_on_branch-IsFound branch rs r h.1 e
  first_on_branch-IsFound branch (claimed x ∷ rs) r h e =
      elim (Bool-cases (is_on_branch branch (claimed x))) [
        | inl on ↦
            let same : x ≡ r = ground (arith, e, on) in
            subst (IsFound branch) same (record {
              name = h.0.0;
              on_file = h.0.1;
              on_branch = (eq_iff x.branch branch).0 (ground (arith, on));
              not_reclaimed = λ q. ground (arith, on, (eq_iff x.state "stale_reclaimed").1 q);
            })
        | inr off ↦ first_on_branch-IsFound branch rs r h.1 (rw off at e)
      ]

  pub find_claim_by_branch-IsFound :
      (branch : String) (r : Claim) → find_claim_by_branch b branch ≡ some r → IsFound branch r
  unfolding find_claim_by_branch
  find_claim_by_branch-IsFound branch r e =
      first_on_branch-IsFound branch (status_records b false) r listed-All e
