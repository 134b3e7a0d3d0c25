-- ===== src/ContractV1/Fields.antt =====
-- internal/contract/v1/validate.go: patterns, identifiers, times and the fields that several
-- records share. A loop over a map literal is taken in the order of the literal: the source's order
-- is random, and changes only which of several messages is reported.
use Prim.Native.String.{◌++◌}
use linka_plays_metric.Prelude.{
  String, ℕ, ◌%◌, ◌*◌, ◌^◌, Option, none, some, List, [], ◌∷◌, Bool, true, false, ◌&&◌, ◌||◌, ◌==◌,
  ltb, leb, eqb, if◌then◌else◌, is_some, Time, Result, ok, err, message, guard, ◌>>◌, one_of, codes,
  all, length, is_digit, Platform, millisecond, second,
}
use linka_plays_metric.ContractV2.{Float64, nan, infinity, finite, is_alnum, is_safe_code}
use linka_plays_metric.ContractV1.Types.{AppMetadata}

abbrev safe_codes : List ℕ → Bool
safe_codes [] = false
safe_codes (c ∷ cs) = is_alnum c && all is_safe_code cs && leb (length cs) 95

-- `^[A-Za-z0-9][A-Za-z0-9._:+-]{0,95}$`
unfoldable pub safe_value_pattern : String → Bool
safe_value_pattern value = safe_codes (codes value)

-- `[A-Fa-f0-9]`
abbrev pub is_hex : ℕ → Bool
is_hex c = (leb b'A' c && leb c b'F') || (leb b'a' c && leb c b'f') || is_digit c

abbrev pub is_hex_of : ℕ → ℕ → List ℕ → Bool
is_hex_of low high cs = all is_hex cs && leb low (length cs) && leb (length cs) high

-- The codes behind a prefix are 64 hexadecimal digits.
abbrev pub is_hash_behind : List ℕ → List ℕ → Bool
is_hash_behind [] cs = is_hex_of 64 64 cs
is_hash_behind (p ∷ ps) [] = false
is_hash_behind (p ∷ ps) (c ∷ cs) = eqb p c && is_hash_behind ps cs

-- `^(?:[A-Fa-f0-9]{16,96}|sha256:[A-Fa-f0-9]{64})$`
unfoldable pub fingerprint_pattern : String → Bool
fingerprint_pattern value =
    is_hex_of 16 96 (codes value) || is_hash_behind (codes "sha256:") (codes value)

unfoldable pub validate_safe : String → String → Result (Unit {0})
validate_safe name value =
    guard (safe_value_pattern value) (message (name ++ " contains an unsafe or empty value"))

unfoldable pub validate_optional_safe : String → String → Result (Unit {0})
validate_optional_safe name value = if value == "" then ok tt else validate_safe name value

unfoldable pub validate_safe_values : List (String × String) → Result (Unit {0})
validate_safe_values [] = ok tt
validate_safe_values ((name, value) ∷ values) = do
  validate_safe name value
  validate_safe_values values

unfoldable pub optional_string : String → Option String
optional_string value = if value == "" then none else some value

-- `f < 0 || f > limit` on a float64; a comparison with NaN is false.
unfoldable pub outside : ℕ → Float64 → Bool
outside limit nan = false
outside limit (infinity negative) = true
outside limit (finite true n) = ltb 0 n
outside limit (finite false n) = ltb (limit * 2 ^ 1074) n

-- `f != nil && (*f < 0 || *f > limit)`
abbrev pub some_outside : ℕ → Option Float64 → Bool
some_outside limit none = false
some_outside limit (some f) = outside limit f

-- `n != nil && *n > limit`
abbrev pub some_above : ℕ → Option ℕ → Bool
some_above limit none = false
some_above limit (some n) = ltb limit n

unfoldable pub validate_app : AppMetadata → Result (Unit {0})
validate_app app = do
  validate_safe_values (
      ("app.version", app.version)
      ∷ ("app.build", app.build)
      ∷ ("app.os_version", app.os_version)
      ∷ ("app.locale", app.locale)
      ∷ [])
  guard (one_of app.platform ("windows" ∷ "macos" ∷ "linux" ∷ []))
      (message "app.platform must be windows, macos, or linux")

abbrev pub target_inputs : List String
target_inputs = "mouse" ∷ "touch" ∷ "gaze" ∷ "keyboard" ∷ []

unfoldable pub validate_target : String → String → String → Bool → Result (Unit {0})
validate_target game_id target_kind input_method target_required = do
  validate_safe "game_id" game_id
  (if target_required
      then validate_safe "target_kind" target_kind
      else validate_optional_safe "target_kind" target_kind)
  guard (one_of input_method target_inputs) (message "unknown input_method")

module _ (p : Platform) where
  unfoldable pub validate_uuids : List String → Result (Unit {0})
  validate_uuids [] = ok tt
  validate_uuids (value ∷ values) = do
    guard (is_some (p.parse_uuid value)) (message "invalid UUID")
    validate_uuids values

  abbrev pub checked_time : Option Time → Result Time
  checked_time none = err (message "must be RFC3339")
  checked_time (some parsed) =
      if eqb (parsed % second % millisecond) 0
      then ok parsed
      else err (message "precision must not exceed milliseconds")

  unfoldable pub parse_millisecond_time : String → Result Time
  parse_millisecond_time value = checked_time (p.parse_time value)
