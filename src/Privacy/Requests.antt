-- ===== src/Privacy/Requests.antt =====
-- internal/privacy/worker.go: `Request`; migrations/007, 009 and 010: the rows of the queue and of the
-- progress of a deletion.
use linka_plays_metric.Prelude.{String, ℕ, Option, none, some, Time, truncate_ms}
use linka_plays_metric.ContractV2.{Scope}

pub record Request : Type 0 where
  pub request_id : String
  pub scope : Scope
  pub product_key : String
  pub action : String
  pub body_sha : String
  pub requested_at : Time
  pub ingested_at : Time
  pub expires_at : Option Time
  pub attempts : ℕ
  pub legacy_installation_id : Option String

-- A row of `privacy_suppressions_v2`, a ReplacingMergeTree with the version `updated_at`. The rows
-- of one request differ in its columns behind the request only.
pub record QueueRow : Type 0 where
  pub request : Request
  pub status : String
  pub attempts : ℕ
  pub updated_at : Time
  pub available_at : Time
  pub lease_until : Option Time
  pub failure_code : Option String

-- A row of `privacy_deletion_progress_v2`, with the same version.
pub record ProgressRow : Type 0 where
  pub product : String
  pub request_id : String
  pub table_name : String
  pub status : String
  pub attempts : ℕ
  pub available_at : Time
  pub lease_until : Option Time
  pub last_error : Option String
  pub updated_at : Time
  pub completed_at : Option Time

abbrev pub some_to_millis : Option Time → Option Time
some_to_millis none = none
some_to_millis (some t) = some (truncate_ms t)

-- The columns of time keep milliseconds (DateTime64(3)).
abbrev pub request_to_millis : Request → Request
request_to_millis request = record request {
  requested_at = truncate_ms request.requested_at;
  ingested_at = truncate_ms request.ingested_at;
  expires_at = some_to_millis request.expires_at;
}

abbrev pub to_millis : QueueRow → QueueRow
to_millis row = record row {
  request = request_to_millis row.request;
  updated_at = truncate_ms row.updated_at;
  available_at = truncate_ms row.available_at;
  lease_until = some_to_millis row.lease_until;
}

abbrev pub progress_to_millis : ProgressRow → ProgressRow
progress_to_millis row = record row {
  updated_at = truncate_ms row.updated_at;
  available_at = truncate_ms row.available_at;
  lease_until = some_to_millis row.lease_until;
  completed_at = some_to_millis row.completed_at;
}

-- What a DELETE statement selects: an installation of V1, or a scope of V2, whose missing keys select
-- nothing.
pub data Condition : Type 0 where
  by_installation : String → Condition
  by_scope : Scope → (product_key : String) → Condition
