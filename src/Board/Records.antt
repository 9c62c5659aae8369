-- ===== src/Board/Records.antt =====
-- harness/wave_board.py, the data: the JSON files of the board, and what the code asks of the
-- platform.
use dc_ness.Base.{
  ℕ, String, Bool, false, ◌&&◌, ◌||◌, Option, none, some, List, [], length, all, codes, leb,
  nat_beq, ltb, ◌-◌, if◌then◌else◌,
}
use dc_ness.Base.Dict.{Dict}

-- Path.resolve against the repository's root, the digest of the canonical path (24 hex digits of a
-- SHA-256), the last part of a path and its stem, and the process's number.
pub record Platform : Type 0 where
  pub resolve : String → String
  pub digest : String → String
  pub name : String → String
  pub stem : String → String
  pub pid : ℕ

pub record Registration : Type 0 where
  pub key : String
  pub canonical_impl_path : String
  pub impl_name : String
  pub impl_slug : String
  pub plan_id : Option String
  pub state : String
  pub registered_at : ℕ

-- A moment is a number of clock ticks; `none` in `heartbeat_at` is a text that does not parse.
pub record Claim : Type 0 where
  pub key : String
  pub canonical_impl_path : String
  pub impl_name : String
  pub impl_slug : String
  pub session_id : String
  pub run_id : String
  pub worktree : String
  pub branch : String
  pub state : String
  pub claimed_at : ℕ
  pub heartbeat_at : Option ℕ
  pub heartbeat_pid : ℕ
  pub completed_at : Option ℕ
  pub released_at : Option ℕ
  pub reclaimed_at : Option ℕ
  pub pr_number : Option ℕ
  pub url : Option String
  pub reason : Option String

-- The three directories. A file that does not hold valid JSON is `none`. The archive is only ever
-- added to, under names that carry the moment of writing.
pub record Board : Type 0 where
  pub registrations : Dict String (Option Registration)
  pub claims : Dict String (Option Claim)
  pub archive : List (String × Claim)

abbrev pub empty_board : Board
empty_board = record { registrations = []; claims = []; archive = [] }

pub data Conflict : Type 0 where
  already_completed failed_requires_reclaim stale_requires_reclaim already_claimed : Conflict
  identity_mismatch completed_not_reclaimable : Conflict

-- What an operation raises: a ClaimConflict with its flag and record, FileNotFoundError, or
-- JSONDecodeError.
pub data Error : Type 0 where
  conflict : Conflict → (stale : Bool) → Claim → Error
  file_not_found json_error : Error

pub data Result {ℓ} (A : Type ℓ) : Type ℓ where
  ok : A → Result A
  err : Error → Result A

pub data ClaimMode : Type 0 where
  serial peer : ClaimMode

pub record ClaimResult : Type 0 where
  pub mode : ClaimMode
  pub claimed : Bool
  pub key : String
  pub canonical_impl_path : String
  pub claim_record : Option Claim

unfoldable pub canonical_path : Platform → String → String
canonical_path p path = p.resolve path

unfoldable pub key_for_path : Platform → String → String
unfolding canonical_path
key_for_path p path = p.digest (canonical_path p path)

abbrev pub is_hex : ℕ → Bool
is_hex c = (leb b'0' c && leb c b'9') || (leb b'a' c && leb c b'f')

unfoldable pub key_from_key_or_path : Platform → String → String
unfolding key_for_path
key_from_key_or_path p value =
    if nat_beq (length (codes value)) 24 && all is_hex (codes value)
    then value
    else key_for_path p value

unfoldable pub is_stale : Claim → (now stale_after_seconds : ℕ) → Bool
is_stale r now stale_after_seconds = elim r.heartbeat_at [
  | none ↦ false
  | some heartbeat ↦ ltb stale_after_seconds (now - heartbeat)
]
