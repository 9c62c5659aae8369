-- ===== src/Cache/Records.antt =====
-- harness/provider_failure_cache.py, the JSON files: the story-run state that gives a cache its
-- scope, a failure's receipt, and the cache.
use dc_ness.Base.{
  ℕ, String, string_eq, Bool, true, false, ◌&&◌, List, ◌==◌, nat_beq, ◌≡◌, ◌↔◌, Eq, arith,
  if◌then◌else◌, eq_iff,
}
use dc_ness.Base.Dict.{Dict}

-- A field of a JSON object, as far as the code looks at it. `number` is any number that equals a
-- natural one; `other` is a fraction, a negative number, a list or an object.
pub data Value : Type 0 where
  absent null other : Value
  number : ℕ → Value
  flag : Bool → Value
  text : String → Value

-- Python's `v == n`: True is 1, and False is 0.
unfoldable pub is_number : ℕ → Value → Bool
is_number n (number m) = nat_beq m n
is_number n (flag true) = nat_beq 1 n
is_number n (flag false) = nat_beq 0 n
is_number n _ = false

unfoldable pub is_text : String → Value → Bool
is_text s (text t) = t == s
is_text s _ = false

-- What `_read_json` finds at a path.
pub data File (D : Type 0) : Type 0 where
  no_file not_json not_object : File D
  doc : D → File D

-- An element of `tasks`, and the field.
pub data TaskItem : Type 0 where
  no_object : TaskItem
  status : Value → TaskItem

pub data TasksField : Type 0 where
  no_list : TasksField
  items : List TaskItem → TasksField

pub record StateDoc : Type 0 where
  pub schema_version : Value
  pub kind : Value
  pub project_root : Value
  pub chain_id : Value
  pub tasks : TasksField

pub record FailureDoc : Type 0 where
  pub schema_version : Value
  pub kind : Value
  pub provider : Value
  pub category : Value
  pub cacheable : Value
  pub raw_log : Value
  pub recorded_at : Value
  pub permission_required : Value
  pub permission_receipt : Value

pub record Entry : Type 0 where
  pub provider : String
  pub category : String
  pub first_failed_at : Value
  pub raw_log : Value
  pub scope : String

-- A value of `entries`.
pub data EntryValue : Type 0 where
  no_entry : EntryValue
  entry : Entry → EntryValue

pub data EntriesField : Type 0 where
  no_dict : EntriesField
  entries_of : Dict String EntryValue → EntriesField

-- `created_at` and `updated_at` are left out.
pub record CacheDoc : Type 0 where
  pub schema_version : Value
  pub kind : Value
  pub chain_id : Value
  pub project_root : Value
  pub entries : EntriesField

-- Where a cache file lies: the directory of the state, and the chain.
pub record Location : Type 0 where
  pub directory : String
  pub chain_id : String

abbrev pub location_beq : Location → Location → Bool
location_beq a b = a.directory == b.directory && a.chain_id == b.chain_id

pub location_beq_iff : (a b : Location) → (location_beq a b ≡ true) ↔ (a ≡ b)
location_beq_iff a b = ground (arith, eq_iff a.directory b.directory, eq_iff a.chain_id b.chain_id)

instance abbrev pub location_eq : Eq Location
location_eq = record { same = location_beq; same_iff = location_beq_iff }

pub record CacheScope : Type 0 where
  pub location : Location
  pub chain_id : String
  pub project_root : String
  pub active : Bool

-- The cache files. `doc` only: a file is there where the location is.
abbrev pub Caches : Type 0
Caches = Dict Location (File CacheDoc)

-- What is raised.
pub data Error : Type 0 where
  os_error json_error object_required key_error root_mismatch unsupported_category : Error
  invalid_contract identity_mismatch invalid_category cacheable_mismatch : Error
  permission_not_boolean receipt_missing receipt_unexpected : Error

pub data Result {ℓ} (A : Type ℓ) : Type ℓ where
  ok : A → Result A
  err : Error → Result A

-- `if not test: raise error`
abbrev pub require : Bool → Error → Result (Unit {0})
require test error = if test then ok tt else err error

-- What comes after a call, unless that raises.
infixl 5 ◌>>=◌
abbrev pub ◌>>=◌ {ℓ κ} : {D : Type ℓ} {E : Type κ} → Result D → (D → Result E) → Result E
err error >>= next = err error
ok d >>= next = next d

infixl 5 ◌>>◌
abbrev pub ◌>>◌ {ℓ} : {E : Type ℓ} → Result (Unit {0}) → Result E → Result E
err error >> later = err error
ok u >> later = later

unfoldable pub read_json : {D : Type 0} → File D → Result D
read_json no_file = err os_error
read_json not_json = err json_error
read_json not_object = err object_required
read_json (doc d) = ok d
