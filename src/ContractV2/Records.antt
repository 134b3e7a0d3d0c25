-- ===== src/ContractV2/Records.antt =====
-- internal/contract/v2/parse.go: validation of one record of each stream.
use Prim.Native.String.{◌++◌}
use linka_plays_metric.Prelude.{
  String, ℕ, ◌*◌, Option, none, some, List, [], ◌∷◌, Bool, false, not, ◌&&◌, ◌||◌, ◌==◌, ltb, eqb,
  if◌then◌else◌, is_none, is_some, Time, Result, ok, err, message, guard, wrap, ◌>>=◌, ◌>>◌, one_of,
  Platform,
}
use linka_plays_metric.Product.{
  Spec, OutcomeRule, allows_game, allows_product_kind, outcome_rule, requires, outcome_result,
  outcome_source, outcome_mode, outcome_count_bucket, outcome_duration_bucket, outcome_failure_code,
}
use linka_plays_metric.ContractV2.Types.{
  CommonRecord, TechnicalRecord, PlaysRecord, ProductRecord, OutcomeRecord, Validated,
}
use linka_plays_metric.ContractV2.Fields.{
  validate_uuid, validate_base_record, some_of, some_bad_ratio, fingerprint_pattern,
}

abbrev pub pages : List String
pages = "home" ∷ "games" ∷ "game" ∷ "settings" ∷ "statistics" ∷ "onboarding" ∷ []

abbrev pub lifecycle_kinds : List String
lifecycle_kinds = "app_started" ∷ "app_backgrounded" ∷ "app_foregrounded" ∷ "app_closed" ∷ []

-- The `switch` of `validateCommonRecord`.
unfoldable pub check_common_kind : CommonRecord → Result (Unit {0})
check_common_kind r =
    if one_of r.kind lifecycle_kinds
    then guard (not (is_some r.page || is_some r.mode))
        (message "page and mode are forbidden for app lifecycle records")
    else if r.kind == "page_viewed"
    then guard (some_of r.page pages && is_none r.mode)
        (message "page_viewed requires an allowed page only")
    else if r.kind == "mode_changed"
    then guard (some_of r.mode ("self" ∷ "assisted" ∷ []) && is_none r.page)
        (message "mode_changed requires an allowed mode only")
    else err (message "unknown common kind")

abbrev pub technical_states : List String
technical_states =
    "starting" ∷ "ready" ∷ "idle" ∷ "connecting" ∷ "connected" ∷ "tracking" ∷ "checking"
    ∷ "downloading" ∷ "installing" ∷ "unavailable" ∷ "error" ∷ []

-- `value != nil && fingerprintPattern.MatchString(*value)`
abbrev pub some_fingerprint : Option String → Bool
some_fingerprint none = false
some_fingerprint (some value) = fingerprint_pattern value

-- `value != nil && *value != 0 && *value <= 1_000_000`
abbrev pub some_drop_count : Option ℕ → Bool
some_drop_count none = false
some_drop_count (some n) = not (eqb n 0) && not (ltb 1_000_000 n)

-- The `switch` of `validateTechnicalRecord`.
unfoldable pub check_technical_kind : TechnicalRecord → Result (Unit {0})
check_technical_kind r =
    if r.kind == "state_changed"
    then guard
        (some_of r.state technical_states
          && is_none r.error_fingerprint
          && is_none r.dropped_count
          && is_none r.drop_reason)
        (message "state_changed requires an allowed state only")
    else if r.kind == "error"
    then guard
        (some_fingerprint r.error_fingerprint
          && is_none r.state
          && is_none r.dropped_count
          && is_none r.drop_reason)
        (message "error requires a lowercase stable fingerprint only")
    else if r.kind == "queue_dropped"
    then guard
        (r.component == "telemetry"
          && some_drop_count r.dropped_count
          && is_none r.state
          && is_none r.error_fingerprint
          && some_of r.drop_reason ("capacity" ∷ "expired" ∷ "invalid" ∷ "shutdown" ∷ []))
        (message "queue_dropped requires bounded count and allowed reason")
    else err (message "unknown technical kind")

unfoldable pub has_plays_outcome : PlaysRecord → Bool
has_plays_outcome r =
    is_some r.level_index
    || is_some r.outcome
    || is_some r.duration_ms
    || is_some r.success_count
    || is_some r.mistake_count
    || is_some r.hint_count
    || is_some r.valid_gaze_ratio

abbrev pub finished_outcomes : List String
finished_outcomes =
    "completed" ∷ "interrupted" ∷ "cancelled" ∷ "error" ∷ "incomplete" ∷ "lost" ∷ "draw" ∷ []

abbrev pub interaction_outcomes : List String
interaction_outcomes = "success" ∷ "mistake" ∷ "hint" ∷ "cancelled" ∷ []

-- `(7*24*time.Hour).Milliseconds()`
abbrev pub week_ms : ℕ
week_ms = 7 * 24 * 3_600_000

-- `value != nil && *value <= limit`
abbrev pub some_at_most : Option ℕ → ℕ → Bool
some_at_most none limit = false
some_at_most (some n) limit = not (ltb limit n)

-- The `switch` of `validatePlaysRecord`.
unfoldable pub check_plays_kind : PlaysRecord → Result (Unit {0})
unfolding has_plays_outcome
check_plays_kind r =
    if r.kind == "session_started"
    then guard (not (has_plays_outcome r))
        (message "session_started cannot contain outcome metrics")
    else if r.kind == "session_finished"
    then (guard (some_of r.outcome finished_outcomes && some_at_most r.duration_ms week_ms)
          (message "session_finished requires allowed outcome and bounded duration_ms")
        >> guard (is_none r.level_index) (message "level_index is forbidden for session_finished"))
    else if r.kind == "interaction"
    then guard
        (is_some r.level_index
          && some_of r.outcome interaction_outcomes
          && is_none r.duration_ms
          && is_none r.success_count
          && is_none r.mistake_count
          && is_none r.hint_count
          && is_none r.valid_gaze_ratio)
        (message "interaction requires level_index and allowed outcome only")
    else err (message "unknown plays kind")

abbrev pub game_categories : List String
game_categories =
    "gaze-basics" ∷ "visual-search" ∷ "sequencing" ∷ "language-aac" ∷ "numeracy" ∷ "strategy"
    ∷ "continuous-control" ∷ "unknown" ∷ []

abbrev pub input_methods : List String
input_methods = "mouse" ∷ "touch" ∷ "gaze" ∷ "keyboard" ∷ "unknown" ∷ "mixed" ∷ []

unfoldable pub validate_outcome_enum :
    String → Option String → List String → Bool → Result (Unit {0})
validate_outcome_enum name none allowed required =
    guard (not required) (message (name ++ " is required"))
validate_outcome_enum name (some value) [] required =
    err (message (name ++ " is forbidden for outcome kind"))
validate_outcome_enum name (some value) (a ∷ allowed) required =
    guard (one_of value (a ∷ allowed)) (message (name ++ " contains an unregistered value"))

unfoldable pub check_outcome_fields : OutcomeRecord → OutcomeRule → Result (Unit {0})
check_outcome_fields r rule = do
  validate_outcome_enum "result" r.result rule.results (requires rule outcome_result)
  validate_outcome_enum "source" r.source rule.sources (requires rule outcome_source)
  validate_outcome_enum "mode" r.mode rule.modes (requires rule outcome_mode)
  validate_outcome_enum "count_bucket" r.count_bucket rule.count_buckets
      (requires rule outcome_count_bucket)
  validate_outcome_enum "duration_bucket" r.duration_bucket rule.duration_buckets
      (requires rule outcome_duration_bucket)
  validate_outcome_enum "failure_code" r.failure_code rule.failure_codes
      (requires rule outcome_failure_code)

-- `spec.OutcomeRule(kind)` with its error.
abbrev pub found_rule : Option OutcomeRule → Result OutcomeRule
found_rule none = err (message "outcome kind is not registered for product")
found_rule (some rule) = ok rule

abbrev pub timed : {R : Type 0} → R → Time → Validated R
timed r t = record { content = r; occurred_at_time = t }

module _ (p : Platform) where
  unfoldable pub validate_common_record : CommonRecord → Time → Result (Validated CommonRecord)
  validate_common_record r sent_at = do
    occurred_at ← validate_base_record p r.record_id r.occurred_at r.app_session_id r.app sent_at
    check_common_kind r
    ok (timed r occurred_at)

  unfoldable pub validate_technical_record :
      TechnicalRecord → Time → Result (Validated TechnicalRecord)
  validate_technical_record r sent_at = do
    occurred_at ← validate_base_record p r.record_id r.occurred_at r.app_session_id r.app sent_at
    guard (one_of r.component ("main" ∷ "renderer" ∷ "tobii" ∷ "updater" ∷ "telemetry" ∷ []))
        (message "unknown technical component")
    check_technical_kind r
    ok (timed r occurred_at)

  unfoldable pub validate_plays_record : PlaysRecord → Time → Spec → Result (Validated PlaysRecord)
  validate_plays_record r sent_at spec = do
    occurred_at ← validate_base_record p r.record_id r.occurred_at r.app_session_id r.app sent_at
    wrap "game_session_id" (validate_uuid p r.game_session_id)
    guard (allows_game spec r.game_id) (message "game_id is not registered for product")
    guard (one_of r.game_category game_categories) (message "unknown game_category")
    guard (one_of r.input_method input_methods) (message "unknown input_method")
    guard (not (some_bad_ratio r.valid_gaze_ratio))
        (message "valid_gaze_ratio must be finite and between zero and one")
    check_plays_kind r
    ok (timed r occurred_at)

  unfoldable pub validate_product_record :
      ProductRecord → Time → Spec → Result (Validated ProductRecord)
  validate_product_record r sent_at spec = do
    occurred_at ← validate_base_record p r.record_id r.occurred_at r.app_session_id r.app sent_at
    guard (allows_product_kind spec r.kind) (message "product kind is not registered for product")
    ok (timed r occurred_at)

  unfoldable pub validate_outcome_record :
      OutcomeRecord → Time → Spec → Result (Validated OutcomeRecord)
  validate_outcome_record r sent_at spec = do
    occurred_at ← validate_base_record p r.record_id r.occurred_at r.app_session_id r.app sent_at
    rule ← found_rule (outcome_rule spec r.kind)
    check_outcome_fields r rule
    ok (timed r occurred_at)
