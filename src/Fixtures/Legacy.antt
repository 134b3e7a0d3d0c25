-- ===== src/Fixtures/Legacy.antt =====
-- Events, summaries and privacy requests of V1, and a library that reads them from any text.
use linka_plays_metric.Prelude.{
  ◌+◌, ◌*◌, none, some, [], ◌∷◌, true, Bytes, ok, err, message, year_2020, hour,
}
use linka_plays_metric.ContractV1.{
  AppMetadata, Event, SessionSummary, Batch, ValidatedEvent, ValidatedSummary, ValidatedBatch,
  InternalPrivacyRequest, ValidatedPrivacyRequest, Json, Reader, no_dimensions,
}
use linka_plays_metric.Fixtures.{batch_uuid, record_uuid, session_uuid, noon}

abbrev pub legacy_app : AppMetadata
legacy_app = record {
  version = "1.4.0";
  build = "140";
  platform = "windows";
  os_version = "10.0.19045";
  locale = "ru-RU";
}

abbrev pub event : Event
event = record {
  event_id = record_uuid;
  event_name = "level_entered";
  occurred_at = "2020-01-01T12:00:00Z";
  installation_id = batch_uuid;
  app_session_id = session_uuid;
  game_session_id = some session_uuid;
  app = legacy_app;
  properties = b'{' ∷ [];
}

abbrev pub validated_event : ValidatedEvent
validated_event = record {
  event = event;
  occurred_at_time = noon;
  dimensions = record no_dimensions { game_id = some "aquarium"; level_index = some 4 };
}

abbrev pub summary : SessionSummary
summary = record {
  session_id = session_uuid;
  session_type = "app";
  installation_id = batch_uuid;
  app_session_id = session_uuid;
  game_session_id = none;
  game_id = none;
  started_at = "2020-01-01T11:00:00Z";
  ended_at = "2020-01-01T12:00:00Z";
  duration_ms = 3_600_000;
  paused_ms = 0;
  menu_mode = "self";
  game_category = "";
  input_method = "";
  finish_reason = "";
  steps_completed = 0;
  max_steps = 0;
  success_count = 0;
  mistake_count = 0;
  hint_count = 0;
  target_cancel_count = 0;
  gaze_lost_count = 0;
  difficulty_changes = 0;
  gaze_sample_count = 0;
  mouse_sample_count = 0;
  valid_gaze_ratio = none;
  mean_dwell_ms = none;
  configured_dwell_ms = 0;
  result = "";
  interruption_reason = "";
  app = legacy_app;
}

abbrev pub validated_summary : ValidatedSummary
validated_summary = record {
  summary = summary;
  started_at_time = year_2020 + 11 * hour;
  ended_at_time = noon;
}

abbrev pub legacy_batch : Batch
legacy_batch = record { schema_version = 1; events = event ∷ []; session_summaries = summary ∷ [] }

-- A batch whose second event repeats the first under an unknown name.
abbrev pub unknown_event : Event
unknown_event = record event { event_name = "level_left" }

abbrev pub wrong_batch : Batch
wrong_batch = record legacy_batch { events = event ∷ unknown_event ∷ [] }

abbrev pub validated_legacy_batch : ValidatedBatch
validated_legacy_batch = record {
  events = validated_event ∷ [];
  session_summaries = validated_summary ∷ [];
}

abbrev pub legacy_request : InternalPrivacyRequest
legacy_request = record {
  privacy_request = record {
    schema_version = 1;
    request_id = record_uuid;
    action = "delete";
    requested_at = "2020-01-01T12:00:00Z";
  };
  installation_id = batch_uuid;
}

abbrev pub validated_legacy_request : ValidatedPrivacyRequest
validated_legacy_request = record { request = legacy_request; requested_at_time = noon }

abbrev nothing : {X : Type 0} → Reader X
nothing bytes = err (message "another type")

-- Every object is the given batch, and the properties of a level.
abbrev pub json_of : Batch → Json
json_of batch = record {
  trim_space = λ bytes. bytes;
  batch = λ bytes. ok (batch, true);
  empty = λ bytes. ok (tt, true);
  page = nothing;
  mode = nothing;
  settings = nothing;
  game = nothing;
  game_finished = nothing;
  game_interrupted = nothing;
  level = λ bytes. ok (record { game_id = "aquarium"; level_index = some 4 }, true);
  target = nothing;
  outcome = nothing;
  hint = nothing;
  difficulty = nothing;
  tobii = nothing;
  updater = nothing;
  failure = nothing;
  queue_dropped = nothing;
  privacy = λ bytes. ok legacy_request.privacy_request;
  internal_privacy = λ bytes. ok legacy_request;
}

abbrev pub json : Json
json = json_of legacy_batch

abbrev pub object : Bytes
object = b'{' ∷ b'}' ∷ []
