-- ===== src/ContractV1/Types.antt =====
-- internal/contract/v1/contract.go and privacy.go: the batch, its events and session summaries, and
-- the privacy request. A pointer is an `Option`, an unsigned integer a natural number, and a
-- `json.RawMessage` its bytes.
use linka_plays_metric.Prelude.{String, ℕ, Option, List, Time, Bool, Bytes}
use linka_plays_metric.ContractV2.{Float64}

abbrev pub schema_version : ℕ
schema_version = 1

abbrev pub max_batch_records : ℕ
max_batch_records = 500

abbrev pub max_batch_bytes : ℕ
max_batch_bytes = 524_288

pub record AppMetadata : Type 0 where
  pub version : String
  pub build : String
  pub platform : String
  pub os_version : String
  pub locale : String

pub record Event : Type 0 where
  pub event_id : String
  pub event_name : String
  pub occurred_at : String
  pub installation_id : String
  pub app_session_id : String
  pub game_session_id : Option String
  pub app : AppMetadata
  pub properties : Bytes

pub record SessionSummary : Type 0 where
  pub session_id : String
  pub session_type : String
  pub installation_id : String
  pub app_session_id : String
  pub game_session_id : Option String
  pub game_id : Option String
  pub started_at : String
  pub ended_at : String
  pub duration_ms : ℕ
  pub paused_ms : ℕ
  pub menu_mode : String
  pub game_category : String
  pub input_method : String
  pub finish_reason : String
  pub steps_completed : ℕ
  pub max_steps : ℕ
  pub success_count : ℕ
  pub mistake_count : ℕ
  pub hint_count : ℕ
  pub target_cancel_count : ℕ
  pub gaze_lost_count : ℕ
  pub difficulty_changes : ℕ
  pub gaze_sample_count : ℕ
  pub mouse_sample_count : ℕ
  pub valid_gaze_ratio : Option Float64
  pub mean_dwell_ms : Option Float64
  pub configured_dwell_ms : ℕ
  pub result : String
  pub interruption_reason : String
  pub app : AppMetadata

pub record Batch : Type 0 where
  pub schema_version : ℕ
  pub events : List Event
  pub session_summaries : List SessionSummary

pub record Dimensions : Type 0 where
  pub page : Option String
  pub mode : Option String
  pub game_category : Option String
  pub setting_key : Option String
  pub setting_enabled : Option Bool
  pub setting_number : Option Float64
  pub game_id : Option String
  pub level_index : Option ℕ
  pub target_kind : Option String
  pub input_method : Option String
  pub elapsed_ms : Option ℕ
  pub response_ms : Option ℕ
  pub result : Option String
  pub reason : Option String
  pub hint_kind : Option String
  pub difficulty : Option ℕ
  pub tobii_state : Option String
  pub updater_state : Option String
  pub updater_version : Option String
  pub error_fingerprint : Option String
  pub error_component : Option String
  pub dropped_count : Option ℕ

pub record ValidatedEvent : Type 0 where
  pub event : Event
  pub occurred_at_time : Time
  pub dimensions : Dimensions

pub record ValidatedSummary : Type 0 where
  pub summary : SessionSummary
  pub started_at_time : Time
  pub ended_at_time : Time

pub record ValidatedBatch : Type 0 where
  pub events : List ValidatedEvent
  pub session_summaries : List ValidatedSummary

pub record PrivacyRequest : Type 0 where
  pub schema_version : ℕ
  pub request_id : String
  pub action : String
  pub requested_at : String

pub record InternalPrivacyRequest : Type 0 where
  pub privacy_request : PrivacyRequest
  pub installation_id : String

pub record ValidatedPrivacyRequest : Type 0 where
  pub request : InternalPrivacyRequest
  pub requested_at_time : Time
