-- ===== src/Store/Tables.antt =====
-- internal/clickhouse and migrations/005, 007, 009: the tables that V2 ingestion reads and writes,
-- and the ClickHouse server behind them as a parameter.
use linka_plays_metric.Prelude.{String, Memᴰ, ℕ, ◌<◌, ◌≡◌, ◌⊎◌, Option, none, some, List, Time}
use linka_plays_metric.ContractV2.{
  Scope, Validated, CommonRecord, TechnicalRecord, PlaysRecord, ProductRecord, OutcomeRecord,
}
use linka_plays_metric.Store.Replies.{Reply, done, refused, Op}

-- A row of `ingest_batches_v2`.
pub record LedgerRow : Type 0 where
  pub batch_id : String
  pub scope : Scope
  pub product_key : String
  pub stream : String
  pub body_sha : String
  pub record_count : ℕ
  pub sent_at : Time
  pub ingested_at : Time
  pub expires_at : Option Time
  pub status : String

-- A row of `record_registry_v2`.
pub record RegistryRow : Type 0 where
  pub record_id : String
  pub batch_id : String
  pub stream : String
  pub body_sha : String
  pub registered_at : Time
  pub product_key : String
  pub scope : Scope

-- A row of an events table: the columns that all of them have, and the record.
pub record EventRow (R : Type 0) : Type 0 where
  pub scope : Scope
  pub product_key : String
  pub batch_id : String
  pub event : Validated R
  pub ingested_at : Time
  pub expires_at : Option Time

-- What one prepared batch sends, by table.
pub data EventRows : Type 0 where
  common_events : List (EventRow CommonRecord) → EventRows
  technical_events : List (EventRow TechnicalRecord) → EventRows
  plays_events : List (EventRow PlaysRecord) → EventRows
  product_events : List (EventRow ProductRecord) → EventRows
  product_outcomes : List (EventRow OutcomeRecord) → EventRows

-- The row that a version of a key replaces, if any, is older.
abbrev pub IsNewer : LedgerRow → Option LedgerRow → Type 0
IsNewer row none = Unit
IsNewer row (some old) = old.ingested_at < row.ingested_at

-- The database server. `ledger_row` is the row of a product and a batch that a `FINAL` read of
-- `ingest_batches_v2` (a ReplacingMergeTree ordered by product and batch, with version
-- `ingested_at`) yields. Every statement may fail. The laws are those of the engine: a read that
-- does not fail yields that row; a row that was inserted with a newer version is the one that is read
-- from then on, an insert that fails has been applied or not, and a write to another table leaves
-- the ledger alone. A read of `record_registry_v2` that does not fail yields every version of the
-- rows of the product with one of the identifiers, out of `registry_rows`, all that the table holds.
pub record Database : Type 1 where
  pub State : Type 0
  pub ledger_row : State → String → String → Option LedgerRow
  pub query_ledger : String → String → State → Reply (Option LedgerRow)
  pub insert_ledger : LedgerRow → Op State (Unit {0})
  pub query_suppressions : Scope → String → State → Reply ℕ
  pub query_registry : String → List String → State → Reply (List RegistryRow)
  pub insert_registry : List RegistryRow → Op State (Unit {0})
  pub insert_events : EventRows → Op State (Unit {0})
  pub query_ledger_law :
      (p i : String) (s : State) (o : Option LedgerRow)
      → query_ledger p i s ≡ done o
      → o ≡ ledger_row s p i
  pub insert_ledger_done :
      (row : LedgerRow) (s s' : State)
      → insert_ledger row s ≡ (done tt, s')
      → IsNewer row (ledger_row s row.scope.product row.batch_id)
      → ledger_row s' row.scope.product row.batch_id ≡ some row
  pub insert_ledger_refused :
      (row : LedgerRow) (s s' : State) (e : _)
      → insert_ledger row s ≡ (refused e, s')
      → IsNewer row (ledger_row s row.scope.product row.batch_id)
      → (ledger_row s' row.scope.product row.batch_id ≡ ledger_row s row.scope.product row.batch_id)
        ⊎ (ledger_row s' row.scope.product row.batch_id ≡ some row)
  pub registry_rows : State → List RegistryRow
  pub query_registry_law :
      (p : String) (ids : List String) (s : State) (rows : List RegistryRow) (row : RegistryRow)
      → query_registry p ids s ≡ done rows
      → Memᴰ row (registry_rows s)
      → row.scope.product ≡ p
      → Memᴰ row.record_id ids
      → Memᴰ row rows
  pub insert_registry_law :
      (rows : List RegistryRow) (s : State) (p i : String)
      → ledger_row (insert_registry rows s).1 p i ≡ ledger_row s p i
  pub insert_events_law :
      (rows : EventRows) (s : State) (p i : String)
      → ledger_row (insert_events rows s).1 p i ≡ ledger_row s p i
