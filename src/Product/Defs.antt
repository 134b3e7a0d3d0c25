-- ===== src/Product/Defs.antt =====
-- internal/product/registry.go: the types, the shared enumerations and the methods of `Spec` and
-- `OutcomeRule`. The types `ID`, `Stream` and `OutcomeField` are strings in the source. A set
-- `map[string]struct{}` is the list of its members, and a map the list of its entries.
use linka_plays_metric.Prelude.{String, List, [], ◌∷◌, Bool, Option, one_of, lookup as find_rule}

abbrev pub linka_plays : String
linka_plays = "linka-plays"

abbrev pub linka_looks : String
linka_looks = "linka-looks"

abbrev pub linka_pictures : String
linka_pictures = "linka-pictures"

abbrev pub linka_type : String
linka_type = "linka-type"

abbrev pub linka_paperboard : String
linka_paperboard = "linka-paperboard"

abbrev pub linka_site : String
linka_site = "linka-site"

abbrev pub linka_tts : String
linka_tts = "linka-tts"

abbrev pub stream_common : String
stream_common = "common"

abbrev pub stream_technical : String
stream_technical = "technical"

abbrev pub stream_plays : String
stream_plays = "plays"

abbrev pub stream_product : String
stream_product = "product"

abbrev pub stream_outcome : String
stream_outcome = "outcome"

pub record OutcomeRule : Type 0 where
  pub required : List String
  pub results : List String
  pub sources : List String
  pub modes : List String
  pub count_buckets : List String
  pub duration_buckets : List String
  pub failure_codes : List String

abbrev pub outcome_result : String
outcome_result = "result"

abbrev pub outcome_source : String
outcome_source = "source"

abbrev pub outcome_mode : String
outcome_mode = "mode"

abbrev pub outcome_count_bucket : String
outcome_count_bucket = "count_bucket"

abbrev pub outcome_duration_bucket : String
outcome_duration_bucket = "duration_bucket"

abbrev pub outcome_failure_code : String
outcome_failure_code = "failure_code"

pub record Spec : Type 0 where
  pub id : String
  pub opaque_key : String
  pub streams : List String
  pub game_ids : List String
  pub product_kinds : List String
  pub outcome_rules : List (String × OutcomeRule)

abbrev pub count_buckets : List String
count_buckets = "one" ∷ "two_to_five" ∷ "six_to_twenty" ∷ "more_than_twenty" ∷ []

abbrev pub duration_buckets : List String
duration_buckets = "under_5s" ∷ "5s_to_30s" ∷ "31s_to_2m" ∷ "over_2m" ∷ []

abbrev pub playback_failure_codes : List String
playback_failure_codes = "engine_unavailable" ∷ "request_failed" ∷ "timeout" ∷ "cancelled" ∷ []

abbrev pub exercise_failure_codes : List String
exercise_failure_codes = "state_invalid" ∷ "media_unavailable" ∷ "interrupted" ∷ []

abbrev pub set_failure_codes : List String
set_failure_codes = "validation_failed" ∷ "storage_failed" ∷ "permission_denied" ∷ []

abbrev pub transfer_failure_codes : List String
transfer_failure_codes =
    "format_invalid" ∷ "media_missing" ∷ "storage_failed" ∷ "permission_denied" ∷ []

abbrev pub gaze_failure_codes : List String
gaze_failure_codes = "device_unavailable" ∷ "calibration_failed" ∷ "permission_denied" ∷ []

abbrev pub sync_failure_codes : List String
sync_failure_codes = "network_unavailable" ∷ "conflict" ∷ "server_error" ∷ []

abbrev pub tts_failure_codes : List String
tts_failure_codes =
    "provider_unavailable" ∷ "quota_exceeded" ∷ "request_failed" ∷ "timeout" ∷ "cancelled" ∷ []

unfoldable pub allows_stream : Spec → String → Bool
allows_stream s stream = one_of stream s.streams

unfoldable pub allows_game : Spec → String → Bool
allows_game s game_id = one_of game_id s.game_ids

unfoldable pub allows_product_kind : Spec → String → Bool
allows_product_kind s kind = one_of kind s.product_kinds

unfoldable pub outcome_rule : Spec → String → Option OutcomeRule
outcome_rule s kind = find_rule kind s.outcome_rules

unfoldable pub requires : OutcomeRule → String → Bool
requires r field = one_of field r.required
