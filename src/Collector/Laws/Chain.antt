-- ===== src/Collector/Laws/Chain.antt =====
-- internal/collector/client.go and internal/writer/server.go together: a batch that the collector's
-- client sends to the writer reaches the store as if the collector had called it.
use linka_plays_metric.Prelude.{
  String, ◌+◌, ◌≤◌, ◌≡◌, refl, some, true, not, ◌||◌, ◌==◌, eq_refl, arith, Time, Bytes, ok,
  message, length, guard-eq-ok,
}
use linka_plays_metric.ContractV2 as V2
use linka_plays_metric.Store.{
  Reply, done, refused, StoreError, idempotency_conflict, duplicate_record, suppressed_scope,
  failed, IngestResult,
}
use linka_plays_metric.Auth.{
  IsCodec, Codec, ServiceHeaders, ServiceSigner, IsInstant, truncate_second, find_key, sign, verify,
  is_bad_request_id,
}
use linka_plays_metric.Auth.Laws.Services.{verify-sign}
use linka_plays_metric.Http.{
  Request, pass, check_body, is_json, read_body, write_error, service_headers_from_request,
  apply_service_headers, accepted_batch,
}
use linka_plays_metric.Writer.{
  Stores, Library, Server, Readings, body_sha256, is_keyed, signed_body, check_batch_v2,
}
use linka_plays_metric.Writer as Writer
use linka_plays_metric.Collector.Interfaces.{
  WriterError, writer_conflict, writer_suppressed, unavailable, Written, written, rejected,
  V2WriteResult,
}
use linka_plays_metric.Collector.Client.{
  HttpWriter, Transport, signed_request, read_response, batch_result, call_v2, http_writer,
}

-- What the collector is to learn of a store's reply.
abbrev pub translated : StoreError → WriterError
translated idempotency_conflict = writer_conflict
translated duplicate_record = writer_conflict
translated suppressed_scope = writer_suppressed
translated (failed e) = unavailable (message "writer returned another HTTP status")

abbrev pub relayed : {S : Type 0} → Reply IngestResult × S → Written V2WriteResult × S
relayed (done result, t) =
    (written (record { count = result.count; replayed = result.replayed }), t)
relayed (refused e, t) = (rejected (translated e), t)

sign-request_id :
    (c : Codec) (s : ServiceSigner) (now : Time) (method path id : String) (body : Bytes)
    (headers : ServiceHeaders)
    → sign c s now method path id body ≡ ok headers
    → headers.request_id ≡ id
unfolding sign
sign-request_id c s now method path id body headers h =
    let (_, h1) = guard-eq-ok (not (method == "" || path == "" || is_bad_request_id id)) _ _ h in
    ground arith

module _ {S : Type 0} (l : Library) (server : Server) (now : Readings) (store : Stores S) where
  -- A transport that hands each request to the writer's handler for batches, and its answer back.
  abbrev pub direct : Transport S
  direct r s = let x = Writer.batches_v2 l server now store r s in (ok x.0, x.1)

  module _ (w : HttpWriter) (sent : Time) where
    abbrev request_of : String → Bytes → ServiceHeaders → Request
    request_of id body headers =
        signed_request l.codec w sent direct w.v2_batch_path id body headers

    relay :
        (batch : V2.ValidatedBatch) (x : Reply IngestResult × S)
        → read_response batch_result (
          ok
              (Writer.respond_to
                (λ result. accepted_batch batch.header.batch_id result.count result.replayed)
                Writer.batch_error
                x).0,
          (Writer.respond_to
              (λ result. accepted_batch batch.header.batch_id result.count result.replayed)
              Writer.batch_error
              x).1,
        )
          ≡ relayed x
    unfolding Writer.batch_error write_error
    relay batch (done result, t) = refl
    relay batch (refused idempotency_conflict, t) = refl
    relay batch (refused duplicate_record, t) = refl
    relay batch (refused suppressed_scope, t) = refl
    relay batch (refused (failed e), t) = refl

    headers_back :
        (id : String) (body : Bytes) (headers : ServiceHeaders)
        → service_headers_from_request (request_of id body headers) ≡ headers
    unfolding service_headers_from_request apply_service_headers
    headers_back id body headers = refl

    key_back :
        (id : String) (body : Bytes) (headers : ServiceHeaders)
        → (request_of id body headers).header "Idempotency-Key" ≡ id
    unfolding apply_service_headers
    key_back id body headers = refl

    json_back :
        (id : String) (body : Bytes) (headers : ServiceHeaders)
        → l.media.media_type "application/json" ≡ some "application/json"
        → is_json l.media (request_of id body headers) ≡ true
    unfolding is_json apply_service_headers
    json_back id body headers media = rw media

    body_back :
        (id : String) (body : Bytes) (headers : ServiceHeaders)
        → length body ≤ 524_288
        → check_body (read_body V2.max_batch_bytes (request_of id body headers).body) ≡ pass body
    unfolding check_body read_body
    body_back id body headers size = ground arith

    -- Given the laws of the library's functions, a batch of at most 512 KiB that the client can
    -- sign, and that the writer, with the signer's key and caller and a clock within its skew, parses
    -- as a batch of the given identifier, goes to the store: what the client returns and the state it
    -- leaves are those of the store's own reply to the batch.
    pub write_v2-insert :
        (batch : V2.ValidatedBatch) (body : Bytes) (headers : ServiceHeaders)
        → IsCodec l.codec
        → l.media.media_type "application/json" ≡ some "application/json"
        → find_key server.service_verifier.active server.service_verifier.previous
            w.service_signer.key.id
          ≡ some w.service_signer.key
        → w.service_signer.caller ≡ server.service_verifier.allowed_caller
        → IsInstant sent
        → truncate_second sent ≤ now.verified + server.service_verifier.max_skew
        → now.verified ≤ truncate_second sent + server.service_verifier.max_skew
        → length body ≤ 524_288
        → sign l.codec w.service_signer sent "POST" w.v2_batch_path batch.header.batch_id body
          ≡ ok headers
        → V2.parse_batch l.platform l.decoder body now.parsed ≡ ok batch
        → V2.validate_idempotency_key l.platform batch.header.batch_id batch.header.batch_id ≡ ok tt
        → (s : S)
        → (http_writer l.codec w sent direct).write_v2 batch.header.batch_id body s
          ≡ relayed (store.insert_v2 batch (body_sha256 l.codec body) s)
    unfolding http_writer call_v2 check_batch_v2 signed_body Writer.batches_v2
    write_v2-insert batch body headers laws media key caller instant early late size signed parsed
          keyed s =
        let id = batch.header.batch_id in
        let r = request_of id body headers in
        let verified : verify l.codec server.service_verifier now.verified "POST" w.v2_batch_path
              body headers
            ≡ ok tt =
          verify-sign l.codec laws w.service_signer server.service_verifier sent now.verified "POST"
            w.v2_batch_path id body headers key caller instant early late signed in
        let good : check_batch_v2 l server now r ≡ pass (batch, body) = rw (
          json_back id body headers media,
          body_back id body headers size,
          headers_back id body headers,
          verified,
          parsed,
          key_back id body headers,
          keyed,
          sign-request_id l.codec w.service_signer sent "POST" w.v2_batch_path id body headers
              signed,
          eq_refl id,
        ) in
        rw (signed, good, Writer.batches_v2)
          (relay batch (store.insert_v2 batch (body_sha256 l.codec body) s))
