-- ===== src/ContractV2/Fields.antt =====
-- internal/contract/v2/parse.go: patterns, identifiers, timestamps and the fields that every record
-- has. A loop over a map literal is taken in the order of the literal: the source's order is
-- random, and changes only which of several messages is reported.
use linka_plays_metric.Prelude.{
  String, ℕ, ◌+◌, ◌-◌, ◌*◌, ◌%◌, ◌^◌, Option, none, some, List, [], ◌∷◌, Bool, true, false, not,
  ◌&&◌, ◌||◌, ◌==◌, ltb, leb, eqb, if◌then◌else◌, Time, Result, ok, err, message, guard, wrap,
  ◌>>=◌, ◌>>◌, one_of, codes, all, length, is_digit, is_lower, is_upper, Platform, millisecond,
  second, minute, day, year_2020, year_2100, truncate_ms,
}
use linka_plays_metric.ContractV2.Types.{
  AppMetadata, Float64, nan, infinity, finite, max_batch_records,
}

abbrev pub is_alnum : ℕ → Bool
is_alnum c = is_upper c || is_lower c || is_digit c

-- `[A-Za-z0-9._:+-]`
abbrev pub is_safe_code : ℕ → Bool
is_safe_code c = is_alnum c || eqb c b'.' || eqb c b'_' || eqb c b':' || eqb c b'+' || eqb c b'-'

safe_codes : List ℕ → Bool
safe_codes [] = false
safe_codes (c ∷ cs) = is_alnum c && all is_safe_code cs && leb (length cs) 95

-- `^[A-Za-z0-9][A-Za-z0-9._:+-]{0,95}$`
unfoldable pub safe_value_pattern : String → Bool
unfolding safe_codes
safe_value_pattern value = safe_codes (codes value)

-- `[a-f0-9]`
abbrev pub is_hex : ℕ → Bool
is_hex c = (leb b'a' c && leb c b'f') || is_digit c

-- `^[a-f0-9]{64}$`
unfoldable pub opaque_key_pattern : String → Bool
opaque_key_pattern value = all is_hex (codes value) && eqb (length (codes value)) 64

-- The rest of the text behind a prefix.
abbrev pub strip_codes : List ℕ → List ℕ → Option (List ℕ)
strip_codes [] cs = some cs
strip_codes (p ∷ ps) [] = none
strip_codes (p ∷ ps) (c ∷ cs) = let rest = strip_codes ps cs in if eqb p c then rest else none

abbrev pub hex_of_length : ℕ → ℕ → List ℕ → Bool
hex_of_length low high cs = all is_hex cs && leb low (length cs) && leb (length cs) high

abbrev pub is_sha256_code : Option (List ℕ) → Bool
is_sha256_code none = false
is_sha256_code (some cs) = hex_of_length 64 64 cs

-- `^(?:[a-f0-9]{16,96}|sha256:[a-f0-9]{64})$`
unfoldable pub fingerprint_pattern : String → Bool
fingerprint_pattern value =
    hex_of_length 16 96 (codes value)
    || is_sha256_code (strip_codes (codes "sha256:") (codes value))

-- `value != nil && oneOf(*value, allowed...)`
abbrev pub some_of : Option String → List String → Bool
some_of none allowed = false
some_of (some value) allowed = one_of value allowed

unfoldable pub validate_record_count : ℕ → Result (Unit {0})
validate_record_count count =
    guard (not (ltb count 1 || ltb max_batch_records count))
      (message "batch must contain between 1 and 500 records")

-- The condition that refuses `valid_gaze_ratio`: NaN, infinite, below zero or above one.
unfoldable pub bad_ratio : Float64 → Bool
bad_ratio nan = true
bad_ratio (infinity _) = true
bad_ratio (finite true n) = ltb 0 n
bad_ratio (finite false n) = ltb (2 ^ 1074) n

abbrev pub some_bad_ratio : Option Float64 → Bool
some_bad_ratio none = false
some_bad_ratio (some x) = bad_ratio x

unfoldable pub validate_timestamp_range : Time → Result Time
validate_timestamp_range parsed =
    if ltb parsed year_2020 || not (ltb parsed year_2100)
    then err (message "timestamp is outside the storage range")
    else ok parsed

unfoldable pub validate_app : AppMetadata → Result (Unit {0})
validate_app app = do
  guard (safe_value_pattern app.version) (message "app.version contains an unsafe or empty value")
  guard (safe_value_pattern app.build) (message "app.build contains an unsafe or empty value")
  guard (safe_value_pattern app.os_version)
      (message "app.os_version contains an unsafe or empty value")
  guard (one_of app.platform ("windows" ∷ "macos" ∷ "linux" ∷ "web" ∷ "android" ∷ "ios" ∷ []))
      (message "unknown app.platform")
  guard (one_of app.locale ("ru" ∷ "ru-RU" ∷ "en" ∷ "en-US" ∷ "other" ∷ []))
      (message "unknown app.locale")

module _ (p : Platform) where
  abbrev pub canonical_uuid : String → Option ℕ → Bool
  canonical_uuid value none = false
  canonical_uuid value (some u) = not (eqb u 0) && p.print_uuid u == value

  unfoldable pub validate_uuid : String → Result (Unit {0})
  validate_uuid value = guard (canonical_uuid value (p.parse_uuid value)) (message "invalid UUID")

  abbrev pub checked_time : Option Time → Result Time
  checked_time none = err (message "must be RFC3339")
  checked_time (some parsed) =
      if eqb (parsed % second % millisecond) 0
      then validate_timestamp_range parsed
      else err (message "precision must not exceed milliseconds")

  unfoldable pub parse_timestamp : String → Result Time
  parse_timestamp value = checked_time (p.parse_time value)

  abbrev pub truncated_time : Option Time → Result Time
  truncated_time none = err (message "must be RFC3339")
  truncated_time (some parsed) = validate_timestamp_range (truncate_ms parsed)

  unfoldable pub parse_privacy_timestamp : String → Result Time
  parse_privacy_timestamp value = truncated_time (p.parse_time value)

  unfoldable pub validate_base_record : String → String → String → AppMetadata → Time → Result Time
  validate_base_record record_id occurred_at app_session_id app sent_at = do
    wrap "record_id" (validate_uuid record_id)
    wrap "app_session_id" (validate_uuid app_session_id)
    validate_app app
    parsed ← wrap "occurred_at" (parse_timestamp occurred_at)
    guard (not (ltb parsed (sent_at - 30 * day) || ltb (sent_at + 5 * minute) parsed))
        (message "occurred_at is outside the allowed batch range")
    ok parsed
