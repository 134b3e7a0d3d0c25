-- ===== src/Tests/Privacy.antt =====
-- internal/clickhouse/store_privacy.go and internal/privacy/worker.go on the server of
-- Fixtures.Queue.
use linka_plays_metric.Prelude.{
  String, List, [], ◌∷◌, ℕ, ◌+◌, ◌*◌, ◌%◌, ◌≡◌, ◌<◌, ◌≤◌, ◌↔◌, ◌⊎◌, refl, some, [], true, false,
  arith, second, minute, millisecond,
}
use linka_plays_metric.Store.{done}
use linka_plays_metric.Privacy.{
  Condition, by_scope, LegacyRequest, create_legacy_privacy_request, Request, QueueRow,
  status_version, retry_delay, is_claimable, claim_found, claim_privacy_request,
  complete_privacy_request, create_privacy_request, tables_of, progress_entry, delete_pending,
  delete_found, delete_telemetry_table, delete_tables, delete_telemetry_request, run_once,
}
use linka_plays_metric.Privacy.Laws.Versions.{IsEarlier, status_version_order, retry_delay_doubles}
use linka_plays_metric.Privacy.Laws.Claims.{
  own_row, claim_privacy_request_exclusive, complete_privacy_request_own,
}
use linka_plays_metric.Privacy.Laws.Creation.{
  request_row, later_answer, create_privacy_request_twice,
}
use linka_plays_metric.Privacy.Laws.Deletion.{
  telemetry, MarksAreTrue, AreEmptied, delete_telemetry_request-AreEmptied,
}
use linka_plays_metric.Privacy.Laws.Runs.{Turns, run_once_iff}
use linka_plays_metric.Privacy.Laws.Legacy.{create_legacy_privacy_request-own_row}
use linka_plays_metric.Product.{linka_plays}
use linka_plays_metric.Fixtures.{batch_uuid, session_uuid, noon, forever}
use linka_plays_metric.Fixtures.Queue.{
  Memory, memory, repository, privacy_request, queued, waiting, nothing_queued,
}

abbrev request : Request
request = queued.request

abbrev first_attempt : ℕ
first_attempt = 1

abbrev second_attempt : ℕ
second_attempt = 2

status_version_order_example :
    (status_version request "completed" first_attempt
      < status_version request "processing" second_attempt)
    ↔ ((first_attempt < second_attempt)
        ⊎ ((first_attempt ≡ second_attempt) × IsEarlier "completed" "processing"))
status_version_order_example =
    status_version_order request "completed" "processing" first_attempt second_attempt

retry_delay_doubles_example :
    (retry_delay 1 ≡ second)
    × (1 ≤ 3 → 3 < 8 → retry_delay 4 ≡ 2 * retry_delay 3)
    × (8 ≤ 3 → retry_delay 3 ≡ 128 * second)
retry_delay_doubles_example = retry_delay_doubles 3

abbrev after_claim : Memory
after_claim = (claim_privacy_request memory request noon waiting).1

claim_given : claim_privacy_request memory request noon waiting ≡ (done true, after_claim)
unfolding claim_privacy_request claim_found is_claimable
claim_given = refl

aligned : request.ingested_at % millisecond ≡ 0
aligned = omega arith

versioned : queued.updated_at ≤ status_version request queued.status queued.attempts
unfolding status_version
versioned = omega arith

claim_privacy_request_exclusive_example :
    claim_privacy_request memory request (noon + minute) after_claim ≡ (done false, after_claim)
claim_privacy_request_exclusive_example =
    claim_privacy_request_exclusive memory request request noon (noon + minute) waiting after_claim
      queued (memory.queue_row after_claim request.scope.product request.request_id) claim_given
      aligned refl versioned (omega arith) refl refl refl (omega arith)

abbrev holder : Request
holder = record request { attempts = 1 }

abbrev after_completion : Memory
after_completion = (complete_privacy_request memory holder (noon + minute) after_claim).1

completion_done :
    complete_privacy_request memory holder (noon + minute) after_claim ≡ (done tt, after_completion)
unfolding complete_privacy_request
completion_done = refl

complete_privacy_request_own_example :
    (last : QueueRow) × (own_row memory request after_completion ≡ some last)
    × (last.status ≡ "completed")
    × (last.attempts ≡ 1)
complete_privacy_request_own_example =
    complete_privacy_request_own memory request holder noon (noon + minute) waiting after_claim
      after_completion queued claim_given aligned refl versioned (omega arith) refl refl refl refl
      completion_done

abbrev after_creation : Memory
after_creation =
    (create_privacy_request memory forever privacy_request "body" noon nothing_queued).1

creation_done :
    create_privacy_request memory forever privacy_request "body" noon nothing_queued
    ≡ (done (record { replayed = false; status = "pending" }), after_creation)
unfolding create_privacy_request
creation_done = refl

create_privacy_request_twice_example :
    (row : QueueRow) × (request_row memory forever privacy_request after_creation ≡ some row)
    × (create_privacy_request memory forever privacy_request "other" noon after_creation
        ≡ (later_answer memory forever "body" "other" row, after_creation))
create_privacy_request_twice_example =
    create_privacy_request_twice memory forever privacy_request privacy_request "body" "other" noon
      noon nothing_queued after_creation (record { replayed = false; status = "pending" })
      (memory.queue_row after_creation "linka-plays" privacy_request.request.request_id)
      creation_done refl refl refl

abbrev legacy : LegacyRequest
legacy = record {
  request_id = batch_uuid;
  installation_id = session_uuid;
  requested_at_time = noon;
}

abbrev after_legacy : Memory
after_legacy =
    (create_legacy_privacy_request memory (λ text. text) forever legacy "body" noon
      nothing_queued).1

legacy_done :
    create_legacy_privacy_request memory (λ text. text) forever legacy "body" noon nothing_queued
    ≡ (done (record { replayed = false; status = "pending" }), after_legacy)
unfolding create_legacy_privacy_request
legacy_done = refl

create_legacy_privacy_request-own_row_example :
    (row : QueueRow) × (memory.queue_row after_legacy linka_plays legacy.request_id ≡ some row)
    × (row.request.body_sha ≡ "body")
    × ("pending" ≡ row.status)
    × (false ≡ false
        → (row.request.legacy_installation_id ≡ some legacy.installation_id)
          × (row.request.action ≡ "delete")
          × (row.status ≡ "pending"))
create_legacy_privacy_request-own_row_example =
    create_legacy_privacy_request-own_row memory forever (λ text. text) legacy "body" noon
      nothing_queued after_legacy (record { replayed = false; status = "pending" }) legacy_done

abbrev after_deletion : Memory
after_deletion = (delete_telemetry_request memory request (λ _. noon) waiting).1

deletion_done :
    delete_telemetry_request memory request (λ _. noon) waiting ≡ (done tt, after_deletion)
unfolding delete_telemetry_request delete_tables tables_of delete_telemetry_table delete_found
    delete_pending progress_entry
deletion_done = refl

abbrev own_rows : Condition
own_rows = by_scope request.scope request.product_key

no_marks : MarksAreTrue memory request own_rows waiting
no_marks = λ table row found completed. cc

abbrev own_tables : List String
own_tables =
    "common_events_v2" ∷ "technical_events_v2" ∷ "plays_events_v2" ∷ "product_events_v2"
    ∷ "product_outcomes_v2" ∷ "record_registry_v2" ∷ "ingest_batches_v2" ∷ []

delete_telemetry_request-AreEmptied_example :
    AreEmptied memory request own_rows own_tables waiting after_deletion
delete_telemetry_request-AreEmptied_example =
    delete_telemetry_request-AreEmptied memory request (λ _. noon) own_rows own_tables waiting
      after_deletion (telemetry refl) no_marks deletion_done

abbrev after_run : Memory
after_run = (run_once repository 10 50 waiting).1

run_once_iff_example : (run_once repository 10 50 waiting ≡ ([], after_run)) ↔ (
    (requests : _) × (u : Memory) × (repository.pending 50 waiting ≡ (done requests, u))
    × Turns repository 10 requests u after_run)
run_once_iff_example = run_once_iff repository 10 50 waiting after_run
