-- ===== src/Collector/Client.antt =====
-- internal/collector/client.go: the writer over HTTP. The transport is a parameter: what
-- `http.Client.Do` returns of a request, and the state behind it. An endpoint is its path.
use linka_plays_metric.Prelude.{
  String, ℕ, Bool, false, ◌||◌, not, ltb, eqb, if◌then◌else◌, Bytes, Time, Result, ok, err, message,
  wrapped,
}
use linka_plays_metric.Auth.{
  Codec, ServiceSigner, ServiceHeaders, WriterSignature, sign, sign_writer_request,
}
use linka_plays_metric.Http.{
  Request, whole, Response, Content, accepted_batch, accepted_privacy, healthy, set_header,
  apply_service_headers,
}
use linka_plays_metric.Collector.Interfaces.{
  writer_conflict, writer_suppressed, unavailable, Written, written, rejected, V2WriteResult,
  PrivacyWriteResult, Writers,
}

pub record HttpWriter : Type 0 where
  pub v1_path : String
  pub v2_batch_path : String
  pub v2_privacy_path : String
  pub v1_privacy_path : String
  pub secret : Bytes
  pub service_signer : ServiceSigner

abbrev pub Transport : Type 0 → Type 0
Transport S = Request → S → Result Response × S

abbrev pub no_header : String → String
no_header name = ""

-- What `decoder.Decode(destination)` makes of a response, which is JSON: the fields that the type
-- names, and the zero value of a field that is missing.
abbrev pub batch_result : Content → V2WriteResult
batch_result (accepted_batch id count replayed) = record { count = count; replayed = replayed }
batch_result (accepted_privacy id status replayed) = record { count = 0; replayed = replayed }
batch_result _ = record { count = 0; replayed = false }

abbrev pub privacy_result : Content → PrivacyWriteResult
privacy_result (accepted_privacy id status replayed) = record {
  status = status;
  replayed = replayed;
}
privacy_result (accepted_batch id count replayed) = record { status = ""; replayed = replayed }
privacy_result healthy = record { status = "ok"; replayed = false }
privacy_result _ = record { status = ""; replayed = false }

-- `response.StatusCode < 200 || response.StatusCode >= 300`
abbrev is_failure : ℕ → Bool
is_failure status = ltb status 200 || not (ltb status 300)

abbrev pub read_response : {S A : Type 0} → (Content → A) → Result Response × S → Written A × S
read_response result (err e, s) = (rejected (unavailable (wrapped "call writer" e)), s)
read_response result (ok r, s) = (
  if eqb r.status 409
      then rejected writer_conflict
      else if eqb r.status 403
      then rejected writer_suppressed
      else if is_failure r.status
      then rejected (unavailable (message "writer returned another HTTP status"))
      else written (result r.content),
  s,
)

abbrev read_event_response : {S : Type 0} → Result Response × S → Written (Unit {0}) × S
read_event_response (err e, s) = (rejected (unavailable (wrapped "call writer" e)), s)
read_event_response (ok r, s) = (
  if eqb r.status 403
      then rejected writer_suppressed
      else if is_failure r.status
      then rejected (unavailable (message "writer returned another HTTP status"))
      else written tt,
  s,
)

module _ {S : Type 0} (c : Codec) (w : HttpWriter) (now : Time) (transport : Transport S) where
  -- The request of `callV2`, once it is signed.
  abbrev pub signed_request : String → String → Bytes → ServiceHeaders → Request
  signed_request path request_id body headers = record {
    method = "POST";
    path = path;
    header = apply_service_headers headers (
        set_header "Idempotency-Key" request_id
          (set_header "Content-Type" "application/json" no_header));
    body = whole body;
  }

  abbrev pub send_signed :
      {A : Type 0}
      → (Content → A)
      → String
      → String
      → Bytes
      → Result ServiceHeaders
      → S
      → Written A × S
  send_signed result path request_id body (err e) s =
      (rejected (unavailable (wrapped "sign writer request" e)), s)
  send_signed result path request_id body (ok headers) s =
      read_response result (transport (signed_request path request_id body headers) s)

  unfoldable pub call_v2 :
      {A : Type 0} → (Content → A) → String → String → Bytes → S → Written A × S
  call_v2 result path request_id body s =
      send_signed result path request_id body
        (sign c w.service_signer now "POST" path request_id body) s

  abbrev event_request : Bytes → WriterSignature → Request
  event_request body signed = record {
    method = "POST";
    path = w.v1_path;
    header = set_header "X-Linka-Signature" signed.signature (
        set_header "X-Linka-Body-SHA256" signed.body_sha (
          set_header "X-Linka-Timestamp" signed.timestamp
            (set_header "Content-Type" "application/json" no_header)));
    body = whole body;
  }

  unfoldable pub write_events : Bytes → S → Written (Unit {0}) × S
  write_events body s =
      read_event_response
        (transport (event_request body (sign_writer_request c w.secret body now)) s)

  unfoldable pub http_writer : Writers S
  unfolding call_v2 write_events
  http_writer = record {
    write = write_events;
    write_v2 = λ id body s. call_v2 batch_result w.v2_batch_path id body s;
    write_privacy = λ id body s. call_v2 privacy_result w.v2_privacy_path id body s;
    write_legacy_privacy = λ id body s. call_v2 privacy_result w.v1_privacy_path id body s;
  }
