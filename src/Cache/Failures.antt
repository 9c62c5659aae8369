-- ===== src/Cache/Failures.antt =====
-- harness/provider_failure_cache.py, a failure's receipt: its category, writing it and reading it.
use dc_ness.Base.{
  ℕ, String, string_eq, Text, codes, starts_with, Bool, true, false, not, ◌&&◌, ◌||◌, Option, none,
  some, List, [], ◌∷◌, ◌++◌, if◌then◌else◌, ◌==◌, nat_beq, nat_eq, mem, any,
}
use dc_ness.Cache.Records.{
  Value, absent, null, number, flag, text, is_number, is_text, File, FailureDoc,
  unsupported_category, invalid_contract, identity_mismatch, invalid_category, cacheable_mismatch,
  permission_not_boolean, receipt_missing, receipt_unexpected, Result, ok, err, ◌>>=◌, ◌>>◌,
  require, read_json,
}

abbrev pub cacheable_categories : List String
cacheable_categories = "cli_missing" ∷ "auth_unavailable" ∷ "config_unavailable" ∷ []

abbrev pub non_cacheable_categories : List String
non_cacheable_categories =
    "timeout" ∷ "idle_timeout" ∷ "empty_output" ∷ "boundary_violation" ∷ "tdd_guard"
    ∷ "phase_evidence" ∷ "interrupt" ∷ "network_transient" ∷ "provider_error" ∷ []

abbrev pub failure_categories : List String
failure_categories = cacheable_categories ++ non_cacheable_categories

abbrev pub auth_patterns : List String
auth_patterns =
    "authentication required" ∷ "not logged in" ∷ "unauthorized" ∷ "invalid api key"
    ∷ "api key is missing" ∷ "api key not set" ∷ []

abbrev pub config_patterns : List String
config_patterns =
    "failed to load configuration" ∷ "invalid configuration" ∷ "malformed config"
    ∷ "failed to parse config" ∷ "configuration parse error" ∷ []

abbrev pub network_patterns : List String
network_patterns =
    "connection reset" ∷ "connection refused" ∷ "temporary failure in name resolution"
    ∷ "service unavailable" ∷ "network is unreachable" ∷ "rate limit" ∷ []

-- `pattern in text`
unfoldable pub contains : Text → Text → Bool
contains pattern [] = starts_with [] pattern
contains pattern (c ∷ t) = starts_with (c ∷ t) pattern || contains pattern t

unfoldable pub shows : List String → Text → Bool
unfolding contains starts_with
shows patterns t = any (λ pattern. contains (codes pattern) t) patterns

-- The log's text in lower case (`str.lower` is Python's); a log that cannot be read is empty.
abbrev pub lowered : (Text → Text) → Option Text → Text
lowered lower none = []
lowered lower (some t) = lower t

-- `provider` is not looked at. `exit_code` is not negative.
unfoldable pub classify_failure :
    (lower : Text → Text) (exit_code : ℕ) (raw_log : Option Text) (cause : String) → String
unfolding shows
classify_failure lower exit_code raw_log cause =
    let t = lowered lower raw_log in
    if mem cause failure_categories
    then cause
    else if nat_beq exit_code 124
    then "timeout"
    else if mem exit_code (130 ∷ 143 ∷ 241 ∷ 254 ∷ [])
    then "interrupt"
    else if shows auth_patterns t
    then "auth_unavailable"
    else if shows config_patterns t
    then "config_unavailable"
    else if shows network_patterns t
    then "network_transient"
    else "provider_error"

abbrev pub is_given : {A : Type 0} → Option A → Value
is_given none = absent
is_given (some a) = flag true

abbrev pub given : (String → String) → Option String → Value
given resolve none = absent
given resolve (some path) = text (resolve path)

abbrev pub new_receipt :
    (resolve : String → String) (now provider category raw_log : String)
    (permission_receipt : Option String)
    → FailureDoc
new_receipt resolve now provider category raw_log permission_receipt = record {
  schema_version = number 1;
  kind = text "dcness-provider-failure";
  provider = text provider;
  category = text category;
  cacheable = flag (mem category cacheable_categories);
  raw_log = text (resolve raw_log);
  recorded_at = text now;
  permission_required = is_given permission_receipt;
  permission_receipt = given resolve permission_receipt;
}

-- The receipt that is written.
unfoldable pub emit_failure :
    (resolve : String → String) (now provider category raw_log : String)
    (permission_receipt : Option String)
    → Result FailureDoc
emit_failure resolve now provider category raw_log permission_receipt =
    if not (mem category failure_categories)
    then err unsupported_category
    else ok (new_receipt resolve now provider category raw_log permission_receipt)

-- The category, where it is one of the known ones.
abbrev pub known_category : Value → Result String
known_category (text c) = if mem c failure_categories then ok c else err invalid_category
known_category _ = err invalid_category

abbrev pub is_flag : Bool → Value → Bool
is_flag true (flag b) = b
is_flag false (flag b) = not b
is_flag b _ = false

-- `failure.get("permission_required", False)`, which must be a boolean.
abbrev pub permission : Value → Result Bool
permission absent = ok false
permission (flag b) = ok b
permission _ = err permission_not_boolean

abbrev pub is_filled : Value → Bool
is_filled (text s) = not (s == "")
is_filled _ = false

abbrev pub is_none : Value → Bool
is_none absent = true
is_none null = true
is_none _ = false

-- The receipt that `_load_failure` accepts.
unfoldable pub valid_failure : FailureDoc → (expected_provider : String) → Result FailureDoc
unfolding is_number is_text
valid_failure f expected_provider = do
  require (is_number 1 f.schema_version && is_text "dcness-provider-failure" f.kind)
      invalid_contract
  require (is_text expected_provider f.provider) identity_mismatch
  category ← known_category f.category
  require (is_flag (mem category cacheable_categories) f.cacheable) cacheable_mismatch
  required ← permission f.permission_required
  require (not required || is_filled f.permission_receipt) receipt_missing
  require (required || is_none f.permission_receipt) receipt_unexpected
  ok f

unfoldable pub load_failure : File FailureDoc → (expected_provider : String) → Result FailureDoc
unfolding read_json valid_failure
load_failure file expected_provider = read_json file >>= λ f. valid_failure f expected_provider
