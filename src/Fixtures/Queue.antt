-- ===== src/Fixtures/Queue.antt =====
-- A server in memory for internal/clickhouse/store_privacy.go: each table as a function from its keys.
use linka_plays_metric.Prelude.{
  unequal, String, ℕ, ◌<◌, ◌≡◌, ◌≢◌, inl, inr, refl, sym, ap, ◌∙◌, Option, none, some, List, [],
  ◌∷◌, ◌&&◌, ◌==◌, eq_refl, ltb, arith, if◌then◌else◌, Bool-cases,
}
use linka_plays_metric.Store.{done}
use linka_plays_metric.ContractV2.{ValidatedPrivacyRequest}
use linka_plays_metric.Privacy.{
  Request, QueueRow, ProgressRow, Condition, to_millis, progress_to_millis, Server, IsNewerThan,
  queue_version, progress_version, Repository, pending_privacy_requests, claim_privacy_request,
  complete_privacy_request, retry_privacy_request, delete_telemetry_request,
}
use linka_plays_metric.Fixtures.{done-eq, noon, scope, batch, batch_uuid}

abbrev pub Queue : Type 0
Queue = String → String → Option QueueRow

abbrev pub Progress : Type 0
Progress = String → String → String → Option ProgressRow

abbrev pub Memory : Type 0
Memory = Queue × Progress × (String → Condition → ℕ) × List (Request × Option String)

-- The row of a key that is read once `row` has been inserted over `old`.
abbrev pub newer_row : Option QueueRow → QueueRow → Option QueueRow
newer_row none row = some row
newer_row (some old) row = if ltb old.updated_at row.updated_at then some row else some old

abbrev pub newer_progress : Option ProgressRow → ProgressRow → Option ProgressRow
newer_progress none row = some row
newer_progress (some old) row = if ltb old.updated_at row.updated_at then some row else some old

abbrev pub put_queue : QueueRow → Queue → Queue
put_queue row q p i =
    if p == row.request.scope.product && i == row.request.request_id
    then newer_row (q p i) (to_millis row)
    else q p i

abbrev pub put_progress : ProgressRow → Progress → Progress
put_progress row q p i t =
    if p == row.product && i == row.request_id && t == row.table_name
    then newer_progress (q p i t) (progress_to_millis row)
    else q p i t

abbrev pub clear : String → (String → Condition → ℕ) → String → Condition → ℕ
clear t n u c = if u == t then 0 else n u c

pub newer_row_newer :
    (old : Option QueueRow) (row : QueueRow)
    → IsNewerThan row.updated_at (queue_version old)
    → newer_row old row ≡ some row
newer_row_newer none row h = refl
newer_row_newer (some old) row h = ground arith

pub newer_progress_newer :
    (old : Option ProgressRow) (row : ProgressRow)
    → IsNewerThan row.updated_at (progress_version old)
    → newer_progress old row ≡ some row
newer_progress_newer none row h = refl
newer_progress_newer (some old) row h = ground arith

pub put_queue-own :
    (row : QueueRow) (q : Queue)
    → put_queue row q row.request.scope.product row.request.request_id
      ≡ newer_row (q row.request.scope.product row.request.request_id) (to_millis row)
put_queue-own row q = rw (eq_refl row.request.scope.product, eq_refl row.request.request_id) refl

pub put_progress-own :
    (row : ProgressRow) (q : Progress)
    → put_progress row q row.product row.request_id row.table_name
      ≡ newer_progress (q row.product row.request_id row.table_name) (progress_to_millis row)
put_progress-own row q =
    rw (eq_refl row.product, eq_refl row.request_id, eq_refl row.table_name) refl

pub put_progress-elsewhere :
    (row : ProgressRow) (q : Progress) (t : String)
    → t ≢ row.table_name
    → put_progress row q row.product row.request_id t ≡ q row.product row.request_id t
put_progress-elsewhere row q t h =
    rw (eq_refl row.product, eq_refl row.request_id, unequal t row.table_name h) refl

pub put_queue-older :
    (row old : QueueRow) (q : Queue)
    → q row.request.scope.product row.request.request_id ≡ some old
    → (to_millis row).updated_at < old.updated_at
    → put_queue row q row.request.scope.product row.request.request_id ≡ some old
put_queue-older row old q here h = put_queue-own row q ∙ rw here (not_newer (to_millis row) old h)
  where
    not_newer :
        (row old : QueueRow) → row.updated_at < old.updated_at → newer_row (some old) row ≡ some old
    not_newer row old h = ground arith

pub clear-own : (t : String) (n : String → Condition → ℕ) (c : Condition) → clear t n t c ≡ 0
clear-own t n c = rw (eq_refl t) refl

pub clear-empty :
    (t u : String) (n : String → Condition → ℕ) (c : Condition) → n u c ≡ 0 → clear t n u c ≡ 0
clear-empty t u n c h = elim (Bool-cases (u == t)) [
  | inl same ↦ rw same refl
  | inr differ ↦ rw differ h
]

abbrev pub memory : Server
memory = record {
  State = Memory;
  queue_row = λ s. s.0;
  progress_row = λ s. s.1;
  selected = λ s. s.2;
  query_queue = λ p i s. done (s.0 p i);
  query_pending = λ _ s. done s.3;
  query_progress = λ p i t s. done (s.1 p i t);
  insert_queue = λ row s. (done tt, (put_queue row s.0, s.1, s.2, s.3));
  insert_progress = λ row s. (done tt, (s.0, put_progress row s.1, s.2, s.3));
  delete_rows = λ t c s. (done tt, (s.0, s.1, clear t s.2, s.3));
  query_queue_law = λ p i s o. done-eq (s.0 p i) o;
  query_progress_law = λ p i t s o. done-eq (s.1 p i t) o;
  insert_queue_newer = λ row s s' h newer.
      ap (λ x. x.1.0 row.request.scope.product row.request.request_id) (sym h)
      ∙ put_queue-own row s.0
      ∙ newer_row_newer (s.0 row.request.scope.product row.request.request_id) (to_millis row)
          newer;
  insert_queue_older = λ row old s. put_queue-older row old s.0;
  insert_progress_newer = λ row s s' h newer.
      ap (λ x. x.1.1 row.product row.request_id row.table_name) (sym h)
      ∙ put_progress-own row s.1
      ∙ newer_progress_newer (s.1 row.product row.request_id row.table_name)
          (progress_to_millis row) newer;
  insert_progress_elsewhere = λ row s t. put_progress-elsewhere row s.1 t;
  insert_progress_selected = λ row s t c. refl;
  delete_rows_progress = λ t c s p i u. refl;
  delete_rows_done = λ t c s s' h. ap (λ x. x.1.2 t c) (sym h) ∙ clear-own t s.2 c;
  delete_rows_elsewhere = λ t u c s. clear-empty t u s.2 c;
}

-- The worker's repository on this server, with a clock that stands at noon.
abbrev pub repository : Repository
repository = record {
  State = Memory;
  pending = pending_privacy_requests memory;
  claim = λ r. claim_privacy_request memory r noon;
  complete = λ r. complete_privacy_request memory r noon;
  retry = λ r code n. retry_privacy_request memory r code n noon;
  delete_telemetry = λ r. delete_telemetry_request memory r (λ _. noon);
}

abbrev pub privacy_request : ValidatedPrivacyRequest
privacy_request = record {
  request = record {
    schema_version = 2;
    request_id = batch_uuid;
    scope = scope;
    action = "delete";
    requested_at = "2020-01-01T11:00:00Z";
  };
  product_key = batch.product_key;
  requested_at_time = noon;
}

abbrev pub queued : QueueRow
queued = record {
  request = record {
    request_id = batch_uuid;
    scope = scope;
    product_key = batch.product_key;
    action = "delete";
    body_sha = "body";
    requested_at = noon;
    ingested_at = noon;
    expires_at = none;
    attempts = 0;
    legacy_installation_id = none;
  };
  status = "pending";
  attempts = 0;
  updated_at = noon;
  available_at = noon;
  lease_until = none;
  failure_code = none;
}

-- A server that holds the request, pending, and one row of every table for every condition.
abbrev pub waiting : Memory
waiting =
    (λ p i. some queued, λ p i t. none, λ t c. 1, (queued.request, some batch.product_key) ∷ [])

abbrev pub nothing_queued : Memory
nothing_queued = (λ p i. none, λ p i t. none, λ t c. 1, [])
