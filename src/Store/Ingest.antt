-- ===== src/Store/Ingest.antt =====
-- internal/clickhouse/store_v2.go: `InsertV2` and what it calls. The store's mutex serialises calls,
-- so one call is one operation on the database; the two readings of the clock are arguments.
use linka_plays_metric.Prelude.{
  String, ℕ, ◌+◌, ◌%◌, ◌^◌, Option, none, some, List, ◌++◌, map, Bool, true, false, not, ◌&&◌, ◌==◌,
  ltb, eqb, if◌then◌else◌, Time, message, all, truncate_ms, millisecond,
}
use linka_plays_metric.ContractV2.{
  Validated, ValidatedBatch, record_count, common_id, technical_id, plays_id, product_id,
  outcome_id,
}
use linka_plays_metric.Store.Replies.{
  idempotency_conflict, duplicate_record, suppressed_scope, failed, Op, ◌>>=◌, ◌>>◌, pure, refuse,
  ask, require,
}
use linka_plays_metric.Store.Tables.{
  LedgerRow, RegistryRow, EventRow, common_events, technical_events, plays_events, product_events,
  product_outcomes, Database,
}

-- `Retention`; 0 leaves a table without expiry.
pub record Retention : Type 0 where
  pub ingest_batches : ℕ
  pub common : ℕ
  pub technical : ℕ
  pub plays : ℕ
  pub product : ℕ
  pub outcome : ℕ
  pub privacy : ℕ

pub record IngestResult : Type 0 where
  pub replayed : Bool
  pub count : ℕ

unfoldable pub expires_at : Time → ℕ → Option Time
expires_at from retention = if eqb retention 0 then none else some (from + retention)

unfoldable pub ledger_entry : Retention → ValidatedBatch → String → Time → String → LedgerRow
ledger_entry keep b sha at status = record {
  batch_id = b.header.batch_id;
  scope = b.header.scope;
  product_key = b.product_key;
  stream = b.header.stream;
  body_sha = sha;
  record_count = record_count b % 2 ^ 16;
  sent_at = b.sent_at_time;
  ingested_at = at;
  expires_at = expires_at at keep.ingest_batches;
  status = status;
}

-- The identifiers that `registerRecordsV2` collects, stream after stream.
unfoldable pub registry_ids : ValidatedBatch → List String
registry_ids b =
    map (λ r. common_id r.content) b.common_records
    ++ (map (λ r. technical_id r.content) b.technical_records
        ++ (map (λ r. plays_id r.content) b.plays_records
            ++ (map (λ r. product_id r.content) b.product_records
                ++ map (λ r. outcome_id r.content) b.outcome_records)))

unfoldable pub registry_entry : ValidatedBatch → String → Time → String → RegistryRow
registry_entry b sha at id = record {
  record_id = id;
  batch_id = b.header.batch_id;
  stream = b.header.stream;
  body_sha = sha;
  registered_at = at;
  product_key = b.product_key;
  scope = b.header.scope;
}

unfoldable pub event_rows :
    {R : Type 0} → ValidatedBatch → List (Validated R) → Time → ℕ → List (EventRow R)
event_rows b records at retention =
    map
      (λ r. record {
        scope = b.header.scope;
        product_key = b.product_key;
        batch_id = b.header.batch_id;
        event = r;
        ingested_at = at;
        expires_at = expires_at at retention;
      })
      records

-- `completedAt`: the clock, or a millisecond behind the reservation if the clock is not behind it.
unfoldable pub completed_at : Time → Time → Time
completed_at ingested now =
    if ltb ingested (truncate_ms now) then truncate_ms now else ingested + millisecond

module _ (db : Database) (keep : Retention) where
  open db use {
    State, query_ledger, insert_ledger, query_suppressions, query_registry, insert_registry,
    insert_events,
  }

  unfoldable pub register_records : ValidatedBatch → String → Time → Op State (Unit {0})
  register_records b sha at = do
    rows ← ask (query_registry b.header.scope.product (registry_ids b))
    require
        (all (λ (row : RegistryRow). row.batch_id == b.header.batch_id && row.body_sha == sha) rows)
        duplicate_record
    insert_registry (map (registry_entry b sha at) (registry_ids b))

  -- The `switch` on the stream, with the five insert functions.
  unfoldable pub insert_stream : ValidatedBatch → Time → Op State (Unit {0})
  insert_stream b at =
      if b.header.stream == "common"
      then insert_events (common_events (event_rows b b.common_records at keep.common))
      else if b.header.stream == "technical"
      then insert_events (technical_events (event_rows b b.technical_records at keep.technical))
      else if b.header.stream == "plays"
      then insert_events (plays_events (event_rows b b.plays_records at keep.plays))
      else if b.header.stream == "product"
      then insert_events (product_events (event_rows b b.product_records at keep.product))
      else if b.header.stream == "outcome"
      then insert_events (product_outcomes (event_rows b b.outcome_records at keep.outcome))
      else refuse (failed (message "unsupported validated stream"))

  -- `isSuppressed` and the refusal.
  unfoldable pub check_suppression : ValidatedBatch → Op State (Unit {0})
  check_suppression b = do
    count ← ask (query_suppressions b.header.scope b.product_key)
    require (eqb count 0) suppressed_scope

  -- What follows the reservation.
  unfoldable pub write_batch : ValidatedBatch → String → Time → Time → Op State IngestResult
  write_batch b sha ingested now = do
    register_records b sha ingested
    insert_stream b ingested
    insert_ledger (ledger_entry keep b sha (completed_at ingested now) "completed")
    pure (record { replayed = false; count = record_count b })

  -- The branches on the row that `batchLedgerV2` found.
  unfoldable pub resume :
      ValidatedBatch → String → Time → Time → Option LedgerRow → Op State IngestResult
  resume b sha start end none = do
    check_suppression b
    insert_ledger (ledger_entry keep b sha (truncate_ms start) "reserved")
    write_batch b sha (truncate_ms start) end
  resume b sha start end (some row) =
      if not (row.body_sha == sha)
      then refuse idempotency_conflict
      else if row.status == "completed"
      then pure (record { replayed = true; count = record_count b })
      else if not (row.status == "reserved")
      then refuse (failed (message "invalid v2 batch ledger status"))
      else (do check_suppression b; write_batch b sha row.ingested_at end)

  unfoldable pub insert_v2 : ValidatedBatch → String → Time → Time → Op State IngestResult
  insert_v2 b sha start end = do
    existing ← ask (query_ledger b.header.scope.product b.header.batch_id)
    resume b sha start end existing
