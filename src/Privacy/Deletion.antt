-- ===== src/Privacy/Deletion.antt =====
-- internal/clickhouse/store_privacy.go: `DeleteTelemetryRequest`, table by table. `clock` gives the
-- reading that the call makes at each table.
use linka_plays_metric.Prelude.{
  String, ℕ, ◌+◌, ◌*◌, Option, none, some, List, [], ◌∷◌, ◌==◌, if◌then◌else◌, Time, minute,
}
use linka_plays_metric.Store.{Reply, done, refused, Op, ◌>>=◌, ◌>>◌, pure, ask}
use linka_plays_metric.Privacy.Requests.{Request, ProgressRow, Condition, by_installation, by_scope}
use linka_plays_metric.Privacy.Versions.{status_version, retry_delay, next_attempt}
use linka_plays_metric.Privacy.Statements.{Server}

abbrev pub v2_tables : List String
v2_tables =
    "common_events_v2" ∷ "technical_events_v2" ∷ "plays_events_v2" ∷ "product_events_v2"
    ∷ "product_outcomes_v2" ∷ "record_registry_v2" ∷ "ingest_batches_v2" ∷ []

abbrev pub v1_tables : List String
v1_tables = "events" ∷ "session_summaries" ∷ []

abbrev tables_for : Option String → List String
tables_for none = v2_tables
tables_for (some _) = v1_tables

unfoldable pub tables_of : Request → List String
tables_of request = tables_for request.legacy_installation_id

abbrev condition_for : Request → Option String → Condition
condition_for request none = by_scope request.scope request.product_key
condition_for request (some installation) = by_installation installation

unfoldable pub condition_of : Request → Condition
condition_of request = condition_for request request.legacy_installation_id

-- The row that `insertDeletionProgress` inserts.
unfoldable pub progress_entry :
    Request → String → String → ℕ → Time → Option Time → Option String → Option Time → ProgressRow
progress_entry request table status attempts available_at lease_until last_error completed_at =
    record {
      product = request.scope.product;
      request_id = request.request_id;
      table_name = table;
      status = status;
      attempts = attempts;
      available_at = available_at;
      lease_until = lease_until;
      last_error = last_error;
      updated_at = status_version request status attempts;
      completed_at = completed_at;
    }

-- The status and the attempts of a table: `deletionProgress` on the row that it found.
abbrev pub found_progress : Option ProgressRow → String × ℕ
found_progress none = ("pending", 0)
found_progress (some row) = (row.status, row.attempts)

-- Goes on behind a statement, or runs a handler whose own failure is ignored and fails.
abbrev pub attempt :
    {S : Type 0} → Reply (Unit {0}) × S → Op S (Unit {0}) → Op S (Unit {0}) → Reply (Unit {0}) × S
attempt (done _, s) on_error rest = rest s
attempt (refused e, s) on_error rest = (refused e, (on_error s).1)

module _ (server : Server) (request : Request) where
  open server use {State, query_progress, insert_progress, delete_rows}

  -- What follows the progress that was found, at the attempt `n`.
  unfoldable pub delete_pending : String → Time → ℕ → Op State (Unit {0})
  delete_pending table now n = do
    insert_progress
        (progress_entry request table "processing" n now (some (now + 5 * minute)) none none)
    λ s.
        attempt (delete_rows table (condition_of request) s)
          (insert_progress (
            progress_entry request table "retry" n (now + retry_delay n) none
              (some "mutation_failed") none))
          (insert_progress (progress_entry request table "completed" n now none none (some now)))

  unfoldable pub delete_found : String → Time → String × ℕ → Op State (Unit {0})
  delete_found table now (status, attempts) =
      if status == "completed" then pure tt else delete_pending table now (next_attempt attempts)

  unfoldable pub delete_telemetry_table : String → Time → Op State (Unit {0})
  delete_telemetry_table table now = do
    found ← ask (query_progress request.scope.product request.request_id table)
    delete_found table now (found_progress found)

  unfoldable pub delete_tables : (clock : String → Time) → List String → Op State (Unit {0})
  delete_tables clock [] = pure tt
  delete_tables clock (table ∷ tables) = do
    delete_telemetry_table table (clock table)
    delete_tables clock tables

  unfoldable pub delete_telemetry_request : (clock : String → Time) → Op State (Unit {0})
  delete_telemetry_request clock = delete_tables clock (tables_of request)
