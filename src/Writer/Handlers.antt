-- ===== src/Writer/Handlers.antt =====
-- internal/writer/server.go: the handlers. Each makes its checks, and then one call of the store; the
-- checks that the handlers share in the same order are one function.
use linka_plays_metric.Prelude.{String, ℕ, Bool, ◌&&◌, ◌==◌, Bytes, is_ok, length}
use linka_plays_metric.ContractV1 as V1
use linka_plays_metric.ContractV2 as V2
use linka_plays_metric.Store.{
  Reply, done, refused, StoreError, idempotency_conflict, duplicate_record, suppressed_scope,
  failed,
}
use linka_plays_metric.Auth.{Codec, verify, verify_writer_request}
use linka_plays_metric.Http.{
  Request, Response, Content, healthy, accepted_batch, accepted_events, accepted_privacy, Check,
  pass, ◌>>=◌, ◌>>◌, check, check_ok, check_body, finish, is_json, read_body, write_error,
  service_headers_from_request,
}
use linka_plays_metric.Writer.Interfaces.{Stores, Library, Server, Readings}

-- `BodySHA256`
unfoldable pub body_sha256 : Codec → Bytes → String
body_sha256 c body = c.hex (c.sha256 body)

abbrev pub accepted : Content → Response
accepted content = record { status = 202; content = content }

-- The errors that the handlers of batches and of privacy requests tell apart.
unfoldable pub batch_error : StoreError → Response
batch_error idempotency_conflict = write_error 409 "idempotency_conflict"
batch_error duplicate_record = write_error 409 "duplicate_record_id"
batch_error suppressed_scope = write_error 403 "telemetry_suppressed"
batch_error (failed e) = write_error 503 "store_unavailable"

unfoldable pub privacy_error : StoreError → Response
privacy_error idempotency_conflict = write_error 409 "idempotency_conflict"
privacy_error _ = write_error 503 "store_unavailable"

unfoldable pub event_error : StoreError → Response
event_error suppressed_scope = write_error 403 "telemetry_suppressed"
event_error _ = write_error 503 "store_unavailable"

abbrev pub respond_to :
    {S A : Type 0} → (A → Content) → (StoreError → Response) → Reply A × S → Response × S
respond_to content error (done a, s) = (accepted (content a), s)
respond_to content error (refused e, s) = (error e, s)

module _ (l : Library) (server : Server) (now : Readings) where
  -- The content type, the body and the signature of a request of version 2.
  unfoldable pub signed_body : ℕ → Request → Check Bytes
  signed_body limit r = do
    check (is_json l.media r) 415 "content_type_must_be_application_json"
    body ← check_body (read_body limit r.body)
    check
        (is_ok (
          verify l.codec server.service_verifier now.verified r.method r.path body
            (service_headers_from_request r)))
        401 "invalid_service_signature"
    pass body

  -- The header names the request, and so does the signed request identifier.
  abbrev pub is_keyed : Request → String → Bool
  is_keyed r id =
      is_ok (V2.validate_idempotency_key l.platform (r.header "Idempotency-Key") id)
      && (service_headers_from_request r).request_id == r.header "Idempotency-Key"

  unfoldable pub check_batch_v2 : Request → Check (V2.ValidatedBatch × Bytes)
  check_batch_v2 r = do
    body ← signed_body V2.max_batch_bytes r
    batch ← check_ok (V2.parse_batch l.platform l.decoder body now.parsed) 400 "invalid_batch"
    check (is_keyed r batch.header.batch_id) 400 "invalid_idempotency_key"
    pass (batch, body)

  unfoldable pub check_privacy_v2 : Request → Check (V2.ValidatedPrivacyRequest × Bytes)
  check_privacy_v2 r = do
    body ← signed_body 16_384 r
    request ←
        check_ok (V2.parse_privacy_request l.platform l.decoder body now.parsed) 400
          "invalid_privacy_request"
    check (is_keyed r request.request.request_id) 400 "invalid_idempotency_key"
    pass (request, body)

  unfoldable pub check_privacy_v1 : Request → Check (V1.ValidatedPrivacyRequest × Bytes)
  check_privacy_v1 r = do
    body ← signed_body 16_384 r
    request ←
        check_ok (V1.parse_internal_privacy_request l.platform l.json body now.parsed) 400
          "invalid_privacy_request"
    check (is_keyed r request.request.privacy_request.request_id) 400 "invalid_idempotency_key"
    pass (request, body)

  unfoldable pub check_events : Request → Check V1.ValidatedBatch
  check_events r = do
    check (is_json l.media r) 415 "content_type_must_be_application_json"
    body ← check_body (read_body V1.max_batch_bytes r.body)
    check
        (is_ok (
          verify_writer_request l.codec server.secret body now.verified server.max_skew (record {
            timestamp = r.header "X-Linka-Timestamp";
            body_sha = r.header "X-Linka-Body-SHA256";
            signature = r.header "X-Linka-Signature";
          })))
        401 "invalid_writer_signature"
    check_ok (V1.parse_batch l.platform l.json body) 400 "invalid_event_batch"

  module _ {S : Type 0} (store : Stores S) where
    unfoldable pub batches_v2 : Request → S → Response × S
    batches_v2 r = finish (check_batch_v2 r) λ (batch, body) s.
        respond_to (λ result. accepted_batch batch.header.batch_id result.count result.replayed)
          batch_error (store.insert_v2 batch (body_sha256 l.codec body) s)

    unfoldable pub privacy_request_v2 : Request → S → Response × S
    privacy_request_v2 r = finish (check_privacy_v2 r) λ (request, body) s.
        respond_to
          (λ result. accepted_privacy request.request.request_id result.status result.replayed)
          privacy_error (store.create_privacy_request request (body_sha256 l.codec body) s)

    unfoldable pub privacy_request_v1 : Request → S → Response × S
    privacy_request_v1 r = finish (check_privacy_v1 r) λ (request, body) s.
        respond_to
          (λ result.
            accepted_privacy request.request.privacy_request.request_id result.status
              result.replayed)
          privacy_error (store.create_legacy_privacy_request request (body_sha256 l.codec body) s)

    unfoldable pub events : Request → S → Response × S
    events r = finish (check_events r) λ batch s.
        respond_to (λ _. accepted_events (length batch.events) (length batch.session_summaries))
          event_error (store.insert batch s)

    abbrev healthy_response : Reply (Unit {0}) × S → Response × S
    healthy_response (done _, s) = (record { status = 200; content = healthy }, s)
    healthy_response (refused e, s) = (write_error 503 "store_unavailable", s)

    unfoldable pub health : Request → S → Response × S
    health r s = healthy_response (store.ping s)
