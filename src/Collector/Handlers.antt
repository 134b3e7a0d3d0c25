-- ===== src/Collector/Handlers.antt =====
-- internal/collector/server.go: the handlers. Each makes its checks, and then one call of the writer
-- or of a token issuer.
use linka_plays_metric.Prelude.{
  String, Option, none, some, Bool, ◌&&◌, ◌==◌, is_none, is_ok, Bytes, length, all,
}
use linka_plays_metric.Product.{linka_tts, stream_outcome}
use linka_plays_metric.ContractV1 as V1
use linka_plays_metric.ContractV2 as V2
use linka_plays_metric.Auth.{
  ProductTokens, InstallationClaims, verify, issue_new_installation, renew_installation,
  issue_anonymous,
}
use linka_plays_metric.Http.{
  Request, Response, Content, accepted_batch, accepted_events, accepted_privacy,
  created_installation, created_token, Check, pass, respond, ◌>>=◌, ◌>>◌, check, check_ok,
  check_body, finish, is_json, read_body, write_error, service_headers_from_request,
}
use linka_plays_metric.Collector.Interfaces.{
  WriterError, writer_conflict, writer_suppressed, unavailable, Written, written, rejected, Writers,
  Library, Server, Readings,
}
use linka_plays_metric.Collector.Access.{
  bearer, authenticate, authenticate_product, scope_matches_claims,
}

unfoldable pub batch_error : WriterError → Response
batch_error writer_conflict = write_error 409 "idempotency_conflict"
batch_error writer_suppressed = write_error 403 "telemetry_suppressed"
batch_error (unavailable e) = write_error 502 "writer_unavailable"

unfoldable pub privacy_error : WriterError → Response
privacy_error writer_conflict = write_error 409 "idempotency_conflict"
privacy_error _ = write_error 502 "writer_unavailable"

unfoldable pub event_error : WriterError → Response
event_error writer_suppressed = write_error 403 "telemetry_suppressed"
event_error _ = write_error 502 "writer_unavailable"

abbrev pub accepted : Content → Response
accepted content = record { status = 202; content = content }

abbrev pub respond_to :
    {S A : Type 0} → (A → Content) → (WriterError → Response) → Written A × S → Response × S
respond_to content error (written a, s) = (accepted (content a), s)
respond_to content error (rejected e, s) = (error e, s)

abbrev created : Content → Response
created content = record { status = 201; content = content }

module _ (l : Library) (server : Server) (now : Readings) where
  abbrev pub json_only : Request → Check (Unit {0})
  json_only r = check (is_json l.media r) 415 "content_type_must_be_application_json"

  abbrev pub is_key_of : Request → String → Bool
  is_key_of r id = is_ok (V2.validate_idempotency_key l.platform (r.header "Idempotency-Key") id)

  unfoldable pub check_batch_v2 : Request → Check (V2.ValidatedBatch × Bytes)
  check_batch_v2 r = do
    json_only r
    claims ←
        check_ok (authenticate_product l server now r "telemetry:write") 401 "invalid_product_token"
    body ← check_body (read_body V2.max_batch_bytes r.body)
    batch ← check_ok (V2.parse_batch l.platform l.decoder body now.parsed) 400 "invalid_batch"
    check (is_key_of r batch.header.batch_id) 400 "invalid_idempotency_key"
    check (scope_matches_claims batch.header.scope claims) 403 "token_scope_mismatch"
    pass (batch, body)

  unfoldable pub check_privacy_v2 : Request → Check (V2.ValidatedPrivacyRequest × Bytes)
  check_privacy_v2 r = do
    json_only r
    claims ←
        check_ok (authenticate_product l server now r "privacy:write") 401 "invalid_product_token"
    body ← check_body (read_body 16_384 r.body)
    request ←
        check_ok (V2.parse_privacy_request l.platform l.decoder body now.parsed) 400
          "invalid_privacy_request"
    check (is_key_of r request.request.request_id) 400 "invalid_idempotency_key"
    check (scope_matches_claims request.request.scope claims) 403 "token_scope_mismatch"
    pass (request, body)

  unfoldable pub check_events : Request → Check (V1.ValidatedBatch × Bytes)
  check_events r = do
    json_only r
    claims ←
        check_ok (authenticate l server now (r.header "Authorization")) 401
          "invalid_installation_token"
    body ← check_body (read_body V1.max_batch_bytes r.body)
    batch ← check_ok (V1.parse_batch l.platform l.json body) 400 "invalid_event_batch"
    check (all (λ e. e.event.installation_id == claims.installation_id) batch.events) 403
        "installation_id_mismatch"
    check (all (λ s. s.summary.installation_id == claims.installation_id) batch.session_summaries)
        403 "installation_id_mismatch"
    pass (batch, body)

  unfoldable pub check_privacy_v1 : Request → Check (V1.ValidatedPrivacyRequest × Bytes)
  check_privacy_v1 r = do
    json_only r
    claims ←
        check_ok (authenticate l server now (r.header "Authorization")) 401
          "invalid_installation_token"
    body ← check_body (read_body 16_384 r.body)
    request ←
        check_ok
          (V1.parse_public_privacy_request l.platform l.json body claims.installation_id now.parsed)
          400 "invalid_privacy_request"
    check (is_key_of r request.request.privacy_request.request_id) 400 "invalid_idempotency_key"
    internal_body ← check_ok (l.marshal_privacy request.request) 500 "internal_error"
    pass (request, internal_body)

  -- The scope that `ttsOutcomes` is fixed to.
  abbrev pub is_tts_outcome : V2.BatchHeader → Bool
  is_tts_outcome header =
      header.scope.product == linka_tts
      && header.scope.subject_key == server.tts_outcome_subject_key
      && is_none header.scope.person_key
      && is_none header.scope.org_key
      && header.stream == stream_outcome

  unfoldable pub check_tts_outcomes : Request → Check (V2.ValidatedBatch × Bytes)
  check_tts_outcomes r = do
    json_only r
    body ← check_body (read_body V2.max_batch_bytes r.body)
    check
        (is_ok (
          verify l.codec server.tts_outcome_verifier now.checked r.method r.path body
            (service_headers_from_request r)))
        401 "invalid_tts_outcome_signature"
    batch ← check_ok (V2.parse_batch l.platform l.decoder body now.parsed) 400 "invalid_batch"
    check
        (is_key_of r batch.header.batch_id
          && (service_headers_from_request r).request_id == batch.header.batch_id)
        400 "invalid_idempotency_key"
    check (is_tts_outcome batch.header) 403 "tts_outcome_scope_mismatch"
    pass (batch, body)

  -- The body of a request for a token of an installation: an empty object.
  abbrev empty_body : Request → Check (Unit {0})
  empty_body r = do
    json_only r
    body ← check_body (read_body 4096 r.body)
    check_ok (V1.decode_strict l.json l.json.empty body) 400 "invalid_json"

  abbrev pub answer : Check Response → Response
  answer (pass r) = r
  answer (respond r) = r

  unfoldable pub installation : Request → Response
  installation r = answer (do
    empty_body r
    (claims, token) ←
        check_ok (issue_new_installation l.platform l.codec server.tokens now.issued now.random) 500
          "internal_error"
    pass (created (created_installation claims token)))

  abbrev pub renewed_of : Option String → Check (InstallationClaims × String)
  renewed_of none = respond (write_error 401 "invalid_installation_token")
  renewed_of (some token) =
      check_ok (renew_installation l.platform l.codec server.tokens now.checked now.issued token)
        401 "invalid_installation_token"

  unfoldable pub renew_handler : Request → Response
  renew_handler r = answer (do
    empty_body r
    (claims, token) ← renewed_of (bearer (r.header "Authorization"))
    pass (created (created_installation claims token)))

  -- The route exists only if product tokens are configured.
  unfoldable pub product_token : ProductTokens → Request → Response
  product_token tokens r = answer (do
    json_only r
    claims ←
        check_ok (authenticate l server now (r.header "Authorization")) 401
          "invalid_installation_token"
    body ← check_body (read_body 4096 r.body)
    product ← check_ok (l.decode_product body) 400 "invalid_token_request"
    (issued, token) ←
        check_ok (issue_anonymous l.codec tokens now.issued product claims.installation_id) 400
          "unknown_product"
    pass (created (created_token issued token)))

  module _ {S : Type 0} (w : Writers S) where
    unfoldable pub batches_v2 : Request → S → Response × S
    batches_v2 r = finish (check_batch_v2 r) λ (batch, body) s.
        respond_to (λ result. accepted_batch batch.header.batch_id result.count result.replayed)
          batch_error (w.write_v2 batch.header.batch_id body s)

    unfoldable pub tts_outcomes : Request → S → Response × S
    tts_outcomes r = finish (check_tts_outcomes r) λ (batch, body) s.
        respond_to (λ result. accepted_batch batch.header.batch_id result.count result.replayed)
          batch_error (w.write_v2 batch.header.batch_id body s)

    unfoldable pub privacy_request_v2 : Request → S → Response × S
    privacy_request_v2 r = finish (check_privacy_v2 r) λ (request, body) s.
        respond_to
          (λ result. accepted_privacy request.request.request_id result.status result.replayed)
          privacy_error (w.write_privacy request.request.request_id body s)

    unfoldable pub privacy_request_v1 : Request → S → Response × S
    privacy_request_v1 r = finish (check_privacy_v1 r) λ (request, body) s.
        respond_to
          (λ result.
            accepted_privacy request.request.privacy_request.request_id result.status
              result.replayed)
          privacy_error (w.write_legacy_privacy request.request.privacy_request.request_id body s)

    unfoldable pub events : Request → S → Response × S
    events r = finish (check_events r) λ (batch, body) s.
        respond_to (λ _. accepted_events (length batch.events) (length batch.session_summaries))
          event_error (w.write body s)
