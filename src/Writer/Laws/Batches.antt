-- ===== src/Writer/Laws/Batches.antt =====
-- internal/writer/server.go: which requests reach the store, and what is answered.
use linka_plays_metric.Prelude.{
  String, ℕ, ◌≤◌, ◌≡◌, refl, subst, inl, inr, true, ◌==◌, eq_iff, is_ok, arith, Bytes, Result, ok,
  err, length, &&_split,
}
use linka_plays_metric.ContractV2 as V2
use linka_plays_metric.Store.{
  done, refused, StoreError, idempotency_conflict, duplicate_record, suppressed_scope, failed,
  Reply-cases, IngestResult,
}
use linka_plays_metric.Auth.{verify}
use linka_plays_metric.Http.{
  Request, whole, Response, accepted_batch, pass, check_ok, check_body, is_json, read_body,
  service_headers_from_request, Check-cases, >>=-eq-pass, check-eq-pass, check_ok-eq-pass,
  check_body-eq-pass, Refuses, >>=-Refuses, check-Refuses, check_ok-Refuses, check_body-Refuses,
  pass-Refuses, write_error,
}
use linka_plays_metric.Writer.Interfaces.{Stores, Library, Server, Readings}
use linka_plays_metric.Writer.Handlers.{
  body_sha256, batch_error, is_keyed, signed_body, check_batch_v2, batches_v2,
}

abbrev checked : V2.ValidatedBatch → Bytes → V2.ValidatedBatch × Bytes
checked batch body = (batch, body)

module _ (l : Library) (server : Server) (now : Readings) where
  -- A request of JSON with a whole body under the limit, signed by the allowed caller over this body,
  -- which is a valid batch under the key of the request.
  pub record IsBatchRequest (r : Request) (batch : V2.ValidatedBatch) (body : Bytes) : Type 0 where
    pub json : is_json l.media r ≡ true
    pub content : r.body ≡ whole body
    pub size : length body ≤ 524_288
    pub signed :
        verify l.codec server.service_verifier now.verified r.method r.path body
          (service_headers_from_request r)
        ≡ ok tt
    pub parsed : V2.parse_batch l.platform l.decoder body now.parsed ≡ ok batch
    pub key :
        V2.validate_idempotency_key l.platform (r.header "Idempotency-Key") batch.header.batch_id
        ≡ ok tt
    pub request_id : (service_headers_from_request r).request_id ≡ r.header "Idempotency-Key"

  is_ok_sound : (x : Result (Unit {0})) → is_ok x ≡ true → x ≡ ok tt
  is_ok_sound (ok tt) h = refl
  is_ok_sound (err e) h = cc

  signed_body_sound :
      (limit : ℕ) (r : Request) (body : Bytes)
      → signed_body l server now limit r ≡ pass body
      → (is_json l.media r ≡ true)
        × (r.body ≡ whole body)
        × (length body ≤ limit)
        × (verify l.codec server.service_verifier now.verified r.method r.path body
              (service_headers_from_request r)
            ≡ ok tt)
  unfolding signed_body
  signed_body_sound limit r body h =
      let (json, h1) = check-eq-pass (is_json l.media r) _ _ _ h in
      let (bytes, content, h2) = >>=-eq-pass (check_body (read_body limit r.body)) _ h1 in
      let (signed, h3) =
        check-eq-pass
          (is_ok (
            verify l.codec server.service_verifier now.verified r.method r.path bytes
              (service_headers_from_request r)))
          _ _ _ h2 in
      let (arrived, size) = check_body-eq-pass limit r.body content in
      let same : bytes ≡ body = cc h3 in rw (← same) (json, arrived, size, is_ok_sound _ signed)

  check_batch_v2-IsBatchRequest :
      (r : Request) (batch : V2.ValidatedBatch) (body : Bytes)
      → check_batch_v2 l server now r ≡ pass (batch, body)
      → IsBatchRequest r batch body
  unfolding check_batch_v2
  check_batch_v2-IsBatchRequest r batch body h =
      let (bytes, signed, h1) = >>=-eq-pass (signed_body l server now V2.max_batch_bytes r) _ h in
      let parsing = V2.parse_batch l.platform l.decoder bytes now.parsed in
      let (b, parsed, h2) = >>=-eq-pass (check_ok parsing 400 "invalid_batch") _ h1 in
      let (keyed, h3) = check-eq-pass (is_keyed l server now r b.header.batch_id) _ _ _ h2 in
      let (json, arrived, size, verified) = signed_body_sound V2.max_batch_bytes r bytes signed in
      let (key, named) =
        &&_split
          (is_ok
            (V2.validate_idempotency_key l.platform (r.header "Idempotency-Key") b.header.batch_id))
          ((service_headers_from_request r).request_id == r.header "Idempotency-Key") keyed in
      let same : checked b bytes ≡ checked batch body = cc h3 in
      let good : IsBatchRequest r b bytes = record {
        json = json;
        content = arrived;
        size = size;
        signed = verified;
        parsed = check_ok-eq-pass parsing 400 "invalid_batch" parsed;
        key = is_ok_sound _ key;
        request_id = (eq_iff _ _).0 named;
      } in
      subst (λ x. IsBatchRequest r x.0 x.1) same good

  check_batch_v2-Refuses : (r : Request) → Refuses (check_batch_v2 l server now r)
  unfolding check_batch_v2 signed_body
  check_batch_v2-Refuses r =
      >>=-Refuses _ _
        (>>=-Refuses _ _ (check-Refuses _ 415 _ (omega arith)) λ _.
          >>=-Refuses _ _ (check_body-Refuses _)
            λ body. >>=-Refuses _ _ (check-Refuses _ 401 _ (omega arith)) λ _. pass-Refuses body)
        λ body.
          >>=-Refuses _ _
            (check_ok-Refuses (V2.parse_batch l.platform l.decoder body now.parsed) 400
              "invalid_batch" (omega arith))
            λ batch.
              >>=-Refuses _ _
                (check-Refuses (is_keyed l server now r batch.header.batch_id) 400
                  "invalid_idempotency_key" (omega arith))
                λ _. pass-Refuses (batch, body)

  module _ {S : Type 0} (store : Stores S) where
    -- The status and the error that the store's error is answered with.
    abbrev pub status_of : StoreError → ℕ × String
    status_of idempotency_conflict = (409, "idempotency_conflict")
    status_of duplicate_record = (409, "duplicate_record_id")
    status_of suppressed_scope = (403, "telemetry_suppressed")
    status_of (failed e) = (503, "store_unavailable")

    batch_error-status_of :
        (e : StoreError) → batch_error e ≡ write_error (status_of e).0 (status_of e).1
    unfolding batch_error
    batch_error-status_of idempotency_conflict = refl
    batch_error-status_of duplicate_record = refl
    batch_error-status_of suppressed_scope = refl
    batch_error-status_of (failed e) = refl

    -- How a call ends: it is turned away with an error and the store as it was; or its batch went to
    -- the store once, and the answer is what the store replied.
    pub data IsServed (r : Request) (s : S) : Response × S → Type 0 where
      turned_away : {a : Response} → 400 ≤ a.status → IsServed r s (a, s)
      stored :
          {batch : V2.ValidatedBatch} {body : Bytes} {result : IngestResult} {t : S}
          → IsBatchRequest r batch body
          → store.insert_v2 batch (l.codec.hex (l.codec.sha256 body)) s ≡ (done result, t)
          → IsServed r s (
            record {
              status = 202;
              content = accepted_batch batch.header.batch_id result.count result.replayed;
            },
            t,
          )
      not_stored :
          {batch : V2.ValidatedBatch} {body : Bytes} {e : StoreError} {t : S}
          → IsBatchRequest r batch body
          → store.insert_v2 batch (l.codec.hex (l.codec.sha256 body)) s ≡ (refused e, t)
          → IsServed r s (write_error (status_of e).0 (status_of e).1, t)

    -- Every call of the handler for batches ends in one of three ways: it is turned away with an
    -- error status and the store is left as it was; or the request is a signed and valid batch under
    -- its own key, which the store has taken with the SHA-256 of its body, and the answer is 202 with
    -- what the store replied; or
    -- the store has refused it, and the answer has the status and the error that `status_of`
    -- lists for the store's error.
    pub batches_v2-IsServed :
        (r : Request) (s : S) → IsServed r s (batches_v2 l server now store r s)
    unfolding batches_v2 Refuses body_sha256
    batches_v2-IsServed r s = elim (Check-cases (check_batch_v2 l server now r)) [
      | inr (a, ended) ↦ rw (ended, batches_v2) (turned_away (check_batch_v2-Refuses r a ended))
      | inl ((batch, body), good) ↦
          let request = check_batch_v2-IsBatchRequest r batch body good in
          elim (Reply-cases (store.insert_v2 batch (l.codec.hex (l.codec.sha256 body)) s)) [
            | inl (result, t, reply) ↦ rw (good, reply, batches_v2) (stored request reply)
            | inr (e, t, reply) ↦
                rw (good, reply, batches_v2, batch_error-status_of e) (not_stored request reply)
          ]
    ]
