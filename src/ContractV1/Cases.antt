-- ===== src/ContractV1/Cases.antt =====
-- internal/contract/v1/validate.go: `validateProperties`. Each case of its `switch` decodes its
-- record and hands it to a function here, which yields the dimensions.
use linka_plays_metric.Prelude.{
  String, ℕ, ◌*◌, Option, none, some, List, [], ◌∷◌, Bool, true, false, not, ◌||◌, ◌==◌, ltb, eqb,
  if◌then◌else◌, is_none, is_some, Bytes, Result, ok, err, message, guard, ◌>>=◌, ◌>>◌, one_of,
}
use linka_plays_metric.ContractV2.{Float64}
use linka_plays_metric.ContractV1.Types.{Dimensions}
use linka_plays_metric.ContractV1.Properties.{
  PageProperties, ModeProperties, SettingsProperties, GameProperties, GameFinishedProperties,
  GameInterruptedProperties, LevelProperties, TargetProperties, OutcomeProperties, HintProperties,
  DifficultyProperties, TobiiProperties, UpdaterProperties, ErrorProperties, QueueDroppedProperties,
  Json, decode_strict,
}
use linka_plays_metric.ContractV1.Fields.{
  validate_safe, validate_optional_safe, validate_safe_values, validate_target, optional_string,
  fingerprint_pattern, some_outside, some_above,
}

abbrev pub no_dimensions : Dimensions
no_dimensions = record {
  page = none;
  mode = none;
  game_category = none;
  setting_key = none;
  setting_enabled = none;
  setting_number = none;
  game_id = none;
  level_index = none;
  target_kind = none;
  input_method = none;
  elapsed_ms = none;
  response_ms = none;
  result = none;
  reason = none;
  hint_kind = none;
  difficulty = none;
  tobii_state = none;
  updater_state = none;
  updater_version = none;
  error_fingerprint = none;
  error_component = none;
  dropped_count = none;
}

unfoldable pub page_dimensions : PageProperties → Result Dimensions
page_dimensions q = do validate_safe "page" q.page; ok (record no_dimensions { page = some q.page })

unfoldable pub mode_dimensions : ModeProperties → Result Dimensions
mode_dimensions q = do validate_safe "mode" q.mode; ok (record no_dimensions { mode = some q.mode })

-- `(a == nil) == (b == nil)`
abbrev pub same_presence : Option Bool → Option Float64 → Bool
same_presence none b = is_none b
same_presence (some _) b = is_some b

unfoldable pub settings_dimensions : SettingsProperties → Result Dimensions
settings_dimensions q = do
  validate_safe "setting_key" q.setting_key
  guard (not (same_presence q.enabled q.number))
      (message "exactly one of enabled or number is required")
  guard (not (some_outside 100_000 q.number)) (message "number is outside the safe range")
  ok (record no_dimensions {
    setting_key = some q.setting_key;
    setting_enabled = q.enabled;
    setting_number = q.number;
  })

unfoldable pub game_dimensions : GameProperties → Result Dimensions
game_dimensions q = do
  validate_safe "game_id" q.game_id
  validate_optional_safe "mode" q.mode
  validate_optional_safe "game_category" q.game_category
  ok (record no_dimensions {
    game_id = some q.game_id;
    mode = optional_string q.mode;
    game_category = optional_string q.game_category;
  })

unfoldable pub game_finished_dimensions : GameFinishedProperties → Result Dimensions
game_finished_dimensions q = do
  validate_safe "game_id" q.game_id
  validate_optional_safe "result" q.result
  validate_safe "reason" q.reason
  ok (record no_dimensions {
    game_id = some q.game_id;
    result = optional_string q.result;
    reason = some q.reason;
  })

unfoldable pub game_interrupted_dimensions : GameInterruptedProperties → Result Dimensions
game_interrupted_dimensions q = do
  validate_safe "game_id" q.game_id
  validate_safe "reason" q.reason
  ok (record no_dimensions { game_id = some q.game_id; reason = some q.reason })

unfoldable pub level_dimensions : LevelProperties → Result Dimensions
level_dimensions q = do
  validate_safe "game_id" q.game_id
  guard (is_some q.level_index) (message "level_index is required")
  ok (record no_dimensions { game_id = some q.game_id; level_index = q.level_index })

unfoldable pub target_dimensions : TargetProperties → Result Dimensions
target_dimensions q = do
  validate_target q.game_id q.target_kind q.input_method true
  guard (is_some q.level_index) (message "level_index is required")
  guard (not (some_above 60_000 q.elapsed_ms)) (message "elapsed_ms exceeds one minute")
  validate_optional_safe "reason" q.reason
  ok (record no_dimensions {
    game_id = some q.game_id;
    level_index = q.level_index;
    target_kind = some q.target_kind;
    input_method = some q.input_method;
    elapsed_ms = q.elapsed_ms;
    reason = optional_string q.reason;
  })

-- `24*60*60*1000`
abbrev pub day_ms : ℕ
day_ms = 24 * 60 * 60 * 1000

unfoldable pub outcome_dimensions : OutcomeProperties → Result Dimensions
outcome_dimensions q = do
  validate_target q.game_id q.target_kind q.input_method false
  guard (is_some q.level_index) (message "level_index is required")
  guard (not (some_above day_ms q.response_ms)) (message "response_ms exceeds one day")
  ok (record no_dimensions {
    game_id = some q.game_id;
    level_index = q.level_index;
    target_kind = optional_string q.target_kind;
    input_method = some q.input_method;
    response_ms = q.response_ms;
  })

unfoldable pub hint_dimensions : HintProperties → Result Dimensions
hint_dimensions q = do
  validate_safe_values (("game_id", q.game_id) ∷ ("hint_kind", q.hint_kind) ∷ [])
  guard (is_some q.level_index) (message "level_index is required")
  ok (record no_dimensions {
    game_id = some q.game_id;
    level_index = q.level_index;
    hint_kind = some q.hint_kind;
  })

unfoldable pub difficulty_dimensions : DifficultyProperties → Result Dimensions
difficulty_dimensions q = do
  validate_safe "game_id" q.game_id
  guard (not (ltb q.difficulty 1 || ltb 10 q.difficulty))
      (message "difficulty must be between 1 and 10")
  ok (record no_dimensions { game_id = some q.game_id; difficulty = some q.difficulty })

abbrev pub tobii_states : List String
tobii_states =
    "unsupported" ∷ "service_starting" ∷ "service_unavailable" ∷ "connecting" ∷ "waiting_device"
    ∷ "connected" ∷ "tracking" ∷ "reconnecting" ∷ "error" ∷ []

unfoldable pub tobii_dimensions : TobiiProperties → Result Dimensions
tobii_dimensions q = do
  guard (one_of q.state tobii_states) (message "unknown Tobii state")
  ok (record no_dimensions { tobii_state = some q.state })

abbrev pub updater_states : List String
updater_states =
    "idle" ∷ "checking" ∷ "available" ∷ "downloading" ∷ "downloaded" ∷ "installing" ∷ "error" ∷ []

unfoldable pub updater_dimensions : UpdaterProperties → Result Dimensions
updater_dimensions q = do
  guard (one_of q.state updater_states) (message "unknown updater state")
  validate_optional_safe "version" q.version
  ok (record no_dimensions {
    updater_state = some q.state;
    updater_version = optional_string q.version;
  })

unfoldable pub error_dimensions : ErrorProperties → Result Dimensions
error_dimensions q = do
  guard (fingerprint_pattern q.fingerprint)
      (message "fingerprint must be a stable hexadecimal hash")
  validate_safe "component" q.component
  ok (record no_dimensions {
    error_fingerprint = some q.fingerprint;
    error_component = some q.component;
  })

abbrev pub queue_drop_reasons : List String
queue_drop_reasons = "capacity" ∷ "expired" ∷ "invalid" ∷ "shutdown" ∷ []

unfoldable pub queue_dropped_dimensions : QueueDroppedProperties → Result Dimensions
queue_dropped_dimensions q = do
  guard (not (eqb q.dropped_count 0)) (message "dropped_count must be positive")
  guard (one_of q.reason queue_drop_reasons) (message "unknown queue drop reason")
  ok (record no_dimensions { dropped_count = some q.dropped_count; reason = some q.reason })

-- One case of the `switch`: decode, then check; `game` is what the case sets `gameEvent` to.
abbrev pub case_of :
    {X : Type 0} → Bool → Result X → (X → Result Dimensions) → Result (Dimensions × Bool)
case_of game decoded check = do
  properties ← decoded
  dimensions ← check properties
  ok (dimensions, game)

unfoldable pub validate_properties : Json → String → Bytes → Result (Dimensions × Bool)
validate_properties json name raw =
    if one_of name (
      "installation_created" ∷ "app_started" ∷ "app_backgrounded" ∷ "app_foregrounded"
      ∷ "app_closed" ∷ [])
    then case_of false (decode_strict json json.empty raw) (λ _. ok no_dimensions)
    else if name == "page_viewed"
    then case_of false (decode_strict json json.page raw) page_dimensions
    else if name == "mode_changed"
    then case_of false (decode_strict json json.mode raw) mode_dimensions
    else if name == "settings_changed"
    then case_of false (decode_strict json json.settings raw) settings_dimensions
    else if one_of name
        ("game_session_started" ∷ "game_session_paused" ∷ "game_session_resumed" ∷ [])
    then case_of true (decode_strict json json.game raw) game_dimensions
    else if name == "game_session_finished"
    then case_of true (decode_strict json json.game_finished raw) game_finished_dimensions
    else if name == "game_session_interrupted"
    then case_of true (decode_strict json json.game_interrupted raw) game_interrupted_dimensions
    else if one_of name ("level_entered" ∷ "level_cancelled" ∷ "level_clicked" ∷ [])
    then case_of true (decode_strict json json.level raw) level_dimensions
    else if one_of name ("target_entered" ∷ "target_cancelled" ∷ "target_clicked" ∷ [])
    then case_of true (decode_strict json json.target raw) target_dimensions
    else if one_of name ("success" ∷ "mistake" ∷ [])
    then case_of true (decode_strict json json.outcome raw) outcome_dimensions
    else if name == "hint_used"
    then case_of true (decode_strict json json.hint raw) hint_dimensions
    else if name == "difficulty_changed"
    then case_of true (decode_strict json json.difficulty raw) difficulty_dimensions
    else if name == "tobii_state_changed"
    then case_of false (decode_strict json json.tobii raw) tobii_dimensions
    else if name == "updater_state_changed"
    then case_of false (decode_strict json json.updater raw) updater_dimensions
    else if name == "error"
    then case_of false (decode_strict json json.failure raw) error_dimensions
    else if name == "queue_dropped"
    then case_of false (decode_strict json json.queue_dropped raw) queue_dropped_dimensions
    else err (message "unknown event_name")
