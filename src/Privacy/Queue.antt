-- ===== src/Privacy/Queue.antt =====
-- internal/clickhouse/store_privacy.go: the queue of privacy requests. A call takes the readings of
-- the clock that it makes; the mutexes make each call one operation on the server.
use linka_plays_metric.Prelude.{
  String, ℕ, ◌+◌, ◌*◌, Option, none, some, List, [], ◌∷◌, Bool, true, false, not, ◌&&◌, ◌||◌, ◌==◌,
  ltb, leb, if◌then◌else◌, Time, minute, message,
}
use linka_plays_metric.Product.{Spec, linka_plays, lookup}
use linka_plays_metric.ContractV2.{ValidatedPrivacyRequest}
use linka_plays_metric.Store.{
  Reply, done, refused, idempotency_conflict, failed, Op, ◌>>=◌, ◌>>◌, pure, refuse, ask, Retention,
  expires_at,
}
use linka_plays_metric.Privacy.Requests.{Request, QueueRow}
use linka_plays_metric.Privacy.Versions.{status_version, retry_delay, next_attempt}
use linka_plays_metric.Privacy.Statements.{Server}

pub record PrivacyResult : Type 0 where
  pub replayed : Bool
  pub status : String

-- The row that `insertPrivacyStatus` inserts.
unfoldable pub status_row : Request → String → Option String → ℕ → Time → Option Time → QueueRow
status_row request status failure_code attempts available_at lease_until = record {
  request = request;
  status = status;
  attempts = attempts;
  updated_at = status_version request status attempts;
  available_at = available_at;
  lease_until = lease_until;
  failure_code = failure_code;
}

-- The first row of a request, which is its own version and available at once.
unfoldable pub pending_row : Retention → ValidatedPrivacyRequest → String → Time → QueueRow
pending_row keep r sha now = record {
  request = record {
    request_id = r.request.request_id;
    scope = r.request.scope;
    product_key = r.product_key;
    action = r.request.action;
    body_sha = sha;
    requested_at = r.requested_at_time;
    ingested_at = now;
    expires_at = expires_at now keep.privacy;
    attempts = 0;
    legacy_installation_id = none;
  };
  status = "pending";
  attempts = 0;
  updated_at = now;
  available_at = now;
  lease_until = none;
  failure_code = none;
}

-- The fields of a `ValidatedPrivacyRequest` of V1 that the store reads.
pub record LegacyRequest : Type 0 where
  pub request_id : String
  pub installation_id : String
  pub requested_at_time : Time

-- The opaque key of linka-plays; the zero Spec has an empty one.
abbrev pub opaque_key_of : Option Spec → String
opaque_key_of none = ""
opaque_key_of (some spec) = spec.opaque_key

-- The first row of a V1 request; `digest` is the SHA-256 in hexadecimal.
unfoldable pub legacy_row :
    (digest : String → String) → Retention → LegacyRequest → String → Time → QueueRow
legacy_row digest keep r sha now = record {
  request = record {
    request_id = r.request_id;
    scope = record {
      product = linka_plays;
      subject_key = digest r.installation_id;
      person_key = none;
      org_key = none;
    };
    product_key = opaque_key_of (lookup linka_plays);
    action = "delete";
    body_sha = sha;
    requested_at = r.requested_at_time;
    ingested_at = now;
    expires_at = expires_at now keep.privacy;
    attempts = 0;
    legacy_installation_id = some r.installation_id;
  };
  status = "pending";
  attempts = 0;
  updated_at = now;
  available_at = now;
  lease_until = none;
  failure_code = none;
}

-- `leaseUntil != nil && leaseUntil.Before(now)`
abbrev pub lease_expired : Option Time → Time → Bool
lease_expired none now = false
lease_expired (some lease) now = ltb lease now

unfoldable pub is_claimable : QueueRow → Time → Bool
is_claimable row now =
    ((row.status == "pending" || row.status == "retry") && leb row.available_at now)
    || (row.status == "processing" && lease_expired row.lease_until now)

-- The rows of `PendingPrivacyRequests`, each with its product key.
abbrev pub scan_pending : List (Request × Option String) → Reply (List Request)
scan_pending [] = done []
scan_pending ((request, none) ∷ rows) =
    refused (failed (message "pending privacy request has no product key"))
scan_pending ((request, some key) ∷ rows) = elim (scan_pending rows) [
  | refused e ↦ refused e
  | done requests ↦ done (record request { product_key = key } ∷ requests)
]

module _ (server : Server) where
  open server use {State, query_queue, query_pending, insert_queue}

  unfoldable pub create_privacy_request :
      Retention → ValidatedPrivacyRequest → String → Time → Op State PrivacyResult
  create_privacy_request keep r sha now = do
    existing ← ask (query_queue r.request.scope.product r.request.request_id)
    answer existing
    where
      answer : Option QueueRow → Op State PrivacyResult
      answer (some row) =
          if not (row.request.body_sha == sha)
          then refuse idempotency_conflict
          else pure (record { replayed = true; status = row.status })
      answer none = do
        insert_queue (pending_row keep r sha now)
        pure (record { replayed = false; status = "pending" })

  unfoldable pub create_legacy_privacy_request :
      (digest : String → String)
      → Retention
      → LegacyRequest
      → String
      → Time
      → Op State PrivacyResult
  create_legacy_privacy_request digest keep r sha now = do
    existing ← ask (query_queue linka_plays r.request_id)
    answer existing
    where
      answer : Option QueueRow → Op State PrivacyResult
      answer (some row) =
          if not (row.request.body_sha == sha)
          then refuse idempotency_conflict
          else pure (record { replayed = true; status = row.status })
      answer none = do
        insert_queue (legacy_row digest keep r sha now)
        pure (record { replayed = false; status = "pending" })

  unfoldable pub pending_privacy_requests : ℕ → Op State (List Request)
  pending_privacy_requests limit = do rows ← ask (query_pending limit); ask (λ _. scan_pending rows)

  -- `ClaimPrivacyRequest`: the row that it found, if any, and the decision.
  unfoldable pub claim_found : Request → Time → Option QueueRow → Op State Bool
  claim_found request now none =
      refuse (failed (message "query privacy request before claim: no rows in result set"))
  claim_found request now (some row) = if not (is_claimable row now) then pure false else (do
    insert_queue (
        status_row request "processing" none (next_attempt row.attempts) now
          (some (now + 5 * minute)))
    pure true)

  unfoldable pub claim_privacy_request : Request → Time → Op State Bool
  claim_privacy_request request now = do
    found ← ask (query_queue request.scope.product request.request_id)
    claim_found request now found

  unfoldable pub complete_privacy_request : Request → Time → Op State (Unit {0})
  complete_privacy_request request now =
      insert_queue (status_row request "completed" none request.attempts now none)

  unfoldable pub retry_privacy_request : Request → String → ℕ → Time → Op State (Unit {0})
  retry_privacy_request request failure_code max_attempts now = insert_queue (
      status_row request (if leb max_attempts request.attempts then "failed" else "retry")
        (some failure_code) request.attempts (now + retry_delay request.attempts) none)
