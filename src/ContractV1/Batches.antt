-- ===== src/ContractV1/Batches.antt =====
-- internal/contract/v1/validate.go: the events, the session summaries and the batch.
use linka_plays_metric.Prelude.{
  String, ℕ, suc, ◌+◌, ◌*◌, Option, none, some, List, [], ◌∷◌, not, ◌&&◌, ◌||◌, ◌==◌, ltb, eqb,
  if◌then◌else◌, is_none, Bytes, Result, ok, err, message, at_index, guard, wrap, ◌>>=◌, ◌>>◌,
  one_of, length, Platform,
}
use linka_plays_metric.ContractV1.Types.{
  schema_version, max_batch_records, Event, SessionSummary, ValidatedEvent, ValidatedSummary,
  ValidatedBatch,
}
use linka_plays_metric.ContractV1.Properties.{Json, decode_strict}
use linka_plays_metric.ContractV1.Fields.{
  validate_safe, validate_optional_safe, validate_app, validate_uuids, parse_millisecond_time,
  some_outside,
}
use linka_plays_metric.ContractV1.Cases.{validate_properties}

abbrev pub known_event_names : List String
known_event_names =
    "installation_created" ∷ "app_started" ∷ "app_backgrounded" ∷ "app_foregrounded" ∷ "app_closed"
    ∷ "page_viewed" ∷ "mode_changed" ∷ "settings_changed" ∷ "game_session_started"
    ∷ "game_session_paused" ∷ "game_session_resumed" ∷ "game_session_finished"
    ∷ "game_session_interrupted" ∷ "level_entered" ∷ "level_cancelled" ∷ "level_clicked"
    ∷ "target_entered" ∷ "target_cancelled" ∷ "target_clicked" ∷ "success" ∷ "mistake" ∷ "hint_used"
    ∷ "difficulty_changed" ∷ "tobii_state_changed" ∷ "updater_state_changed" ∷ "error"
    ∷ "queue_dropped" ∷ []

-- `(7 * 24 * time.Hour).Milliseconds()`
abbrev pub week_ms : ℕ
week_ms = 7 * 24 * 3_600_000

-- A loop of `ParseBatch`: each element is validated, and an error names the index of its element.
unfoldable pub validate_each :
    {A B : Type 0} → String → (A → Result B) → ℕ → List A → Result (List B)
validate_each what validate index [] = ok []
validate_each what validate index (a ∷ items) = elim (validate a) [
  | err e ↦ err (at_index what index e)
  | ok b ↦ elim (validate_each what validate (suc index) items) [
    | err e ↦ err e
    | ok rest ↦ ok (b ∷ rest)
  ]
]

module _ (p : Platform) where
  -- `if event.GameSessionID != nil { … }`
  abbrev pub validate_game_session : Option String → Result (Unit {0})
  validate_game_session none = ok tt
  validate_game_session (some id) = wrap "game_session_id" (validate_uuids p (id ∷ []))

  unfoldable pub validate_event : Json → Event → Result ValidatedEvent
  validate_event json event = do
    validate_uuids p (event.event_id ∷ event.installation_id ∷ event.app_session_id ∷ [])
    validate_game_session event.game_session_id
    guard (one_of event.event_name known_event_names) (message "unknown event_name")
    validate_app event.app
    occurred_at ← wrap "occurred_at" (parse_millisecond_time p event.occurred_at)
    (dimensions, game_event) ←
        wrap "properties" (validate_properties json event.event_name event.properties)
    guard (not (game_event && is_none event.game_session_id))
        (message "game_session_id is required for game events")
    ok (record { event = event; occurred_at_time = occurred_at; dimensions = dimensions })

  -- The case "game" of the `switch` on the type of a session.
  abbrev pub check_game_session : String → Option String → Option String → Result (Unit {0})
  check_game_session session_id none game_id = err (message "invalid game session identifiers")
  check_game_session session_id (some game_session_id) none =
      err (message "invalid game session identifiers")
  check_game_session session_id (some game_session_id) (some game_id) = do
    guard (session_id == game_session_id) (message "invalid game session identifiers")
    wrap "game_session_id" (validate_uuids p (game_session_id ∷ []))
    validate_safe "game_id" game_id

  -- The `switch` of `validateSummary`.
  unfoldable pub check_session_type : SessionSummary → Result (Unit {0})
  check_session_type s =
      if s.session_type == "app"
      then guard
          (not (
            not (s.session_id == s.app_session_id)
            || not (is_none s.game_session_id)
            || not (is_none s.game_id)))
          (message "invalid app session identifiers")
      else if s.session_type == "game"
      then check_game_session s.session_id s.game_session_id s.game_id
      else err (message "session_type must be app or game")

  unfoldable pub validate_summary : SessionSummary → Result ValidatedSummary
  validate_summary s = do
    validate_uuids p (s.session_id ∷ s.installation_id ∷ s.app_session_id ∷ [])
    validate_app s.app
    started_at ← wrap "started_at" (parse_millisecond_time p s.started_at)
    ended_at ← wrap "ended_at" (parse_millisecond_time p s.ended_at)
    guard (not (ltb ended_at started_at)) (message "ended_at precedes started_at")
    guard (not (ltb week_ms s.duration_ms)) (message "duration_ms exceeds seven days")
    validate_optional_safe "result" s.result
    validate_optional_safe "interruption_reason" s.interruption_reason
    validate_optional_safe "menu_mode" s.menu_mode
    validate_optional_safe "game_category" s.game_category
    validate_optional_safe "input_method" s.input_method
    validate_optional_safe "finish_reason" s.finish_reason
    guard (not (some_outside 1 s.valid_gaze_ratio))
        (message "valid_gaze_ratio must be between zero and one")
    guard (not (some_outside 60_000 s.mean_dwell_ms))
        (message "mean_dwell_ms is outside the safe range")
    guard (not (ltb 60_000 s.configured_dwell_ms))
        (message "configured_dwell_ms exceeds one minute")
    check_session_type s
    ok (record { summary = s; started_at_time = started_at; ended_at_time = ended_at })

  unfoldable pub parse_batch : Json → Bytes → Result ValidatedBatch
  parse_batch json bytes = do
    batch ← wrap "decode batch" (decode_strict json json.batch bytes)
    guard (eqb batch.schema_version schema_version) (message "unsupported schema_version")
    guard
        (not (
          eqb (length batch.events + length batch.session_summaries) 0
          || ltb max_batch_records (length batch.events + length batch.session_summaries)))
        (message "batch must contain between 1 and 500 records")
    events ← validate_each "events" (validate_event json) 0 batch.events
    summaries ← validate_each "session_summaries" validate_summary 0 batch.session_summaries
    ok (record { events = events; session_summaries = summaries })
