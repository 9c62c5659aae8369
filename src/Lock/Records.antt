-- ===== src/Lock/Records.antt =====
-- harness/merge_lock.py, the lock file and what the calls answer.
use dc_ness.Base.{ℕ, String, Option, none, []}
use dc_ness.Base.Dict.{Dict}

-- A moment is a number of clock ticks, as is a limit; `none` in `acquired_at` is a text that does not parse.
pub record LockRecord : Type 0 where
  pub token : String
  pub owner : String
  pub branch : String
  pub pr_number : Option ℕ
  pub pid : ℕ
  pub state : String
  pub acquired_at : Option ℕ
  pub released_at : Option ℕ
  pub broken_by : Option String
  pub stale_after_seconds : Option ℕ
  pub reason : Option String

-- The lock file, where there is one (`some none` is a file that is not valid JSON), and the
-- archive by token.
pub record Lock : Type 0 where
  pub lock_file : Option (Option LockRecord)
  pub archive : Dict String LockRecord

abbrev pub no_lock : Lock
no_lock = record { lock_file = none; archive = [] }

-- LockBusy by what its message says, and JSONDecodeError.
pub data Error : Type 0 where
  held_by not_stale : (holder : String) → Error
  token_mismatch json_error : Error

pub data Result {ℓ} (A : Type ℓ) : Type ℓ where
  ok : A → Result A
  err : Error → Result A

pub record Token : Type 0 where
  pub token : String
  pub lock_record : LockRecord

-- `{"state": "missing"}`, or the record of the lock that is gone.
pub data Outcome : Type 0 where
  missing : Outcome
  gone : LockRecord → Outcome
