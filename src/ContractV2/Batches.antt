-- ===== src/ContractV2/Batches.antt =====
-- internal/contract/v2/parse.go: the header, the scope, the batch and the privacy request.
use linka_plays_metric.Prelude.{
  String, ℕ, suc, ◌+◌, ◌-◌, ◌*◌, Option, none, some, List, [], ◌∷◌, Bool, true, false, not, ◌&&◌,
  ◌||◌, ◌==◌, ltb, eqb, if◌then◌else◌, Time, Result, ok, err, message, at_index, guard, wrap, ◌>>=◌,
  ◌>>◌, one_of, length, Bytes, Platform, minute, hour, day,
}
use linka_plays_metric.Product.{
  Spec, lookup, allows_stream, stream_common, stream_technical, stream_plays, stream_product,
  stream_outcome,
}
use linka_plays_metric.ContractV2.Types.{
  schema_version, max_batch_bytes, Scope, BatchHeader, CommonRecord, TechnicalRecord, PlaysRecord,
  ProductRecord, OutcomeRecord, Batch, Validated, ValidatedBatch, ValidatedPrivacyRequest,
  privacy_opt_out, privacy_delete, Decoder,
}
use linka_plays_metric.ContractV2.Fields.{
  opaque_key_pattern, validate_record_count, validate_uuid, parse_timestamp,
  parse_privacy_timestamp,
}
use linka_plays_metric.ContractV2.Records.{
  validate_common_record, validate_technical_record, validate_plays_record, validate_product_record,
  validate_outcome_record,
}

-- `key == nil || opaqueKeyPattern.MatchString(*key)`
abbrev pub opaque_or_none : Option String → Bool
opaque_or_none none = true
opaque_or_none (some key) = opaque_key_pattern key

abbrev pub found_spec : Option Spec → Result Spec
found_spec none = err (message "unknown product")
found_spec (some spec) = ok spec

unfoldable pub validate_scope : Scope → Result Spec
validate_scope scope = do
  spec ← found_spec (lookup scope.product)
  guard (opaque_key_pattern scope.subject_key)
      (message "subject_key must be a lowercase opaque SHA-256 key")
  guard (opaque_or_none scope.person_key)
      (message "person_key must be a lowercase opaque SHA-256 key")
  guard (opaque_or_none scope.org_key) (message "org_key must be a lowercase opaque SHA-256 key")
  ok spec

-- The loop over `batch.Records` of one stream.
unfoldable pub validate_records :
    {R : Type 0} → (R → Result (Validated R)) → ℕ → List R → Result (List (Validated R))
validate_records validate index [] = ok []
validate_records validate index (r ∷ rs) = elim (validate r) [
  | err e ↦ err (at_index "records" index e)
  | ok parsed ↦ elim (validate_records validate (suc index) rs) [
    | err e ↦ err e
    | ok rest ↦ ok (parsed ∷ rest)
  ]
]

-- One case of the `switch` of `ParseBatch`: decode, count, validate.
unfoldable pub parse_records :
    {R : Type 0}
    → String
    → Result (Batch R)
    → (R → Result (Validated R))
    → Result (List (Validated R))
parse_records what decoded validate = do
  batch ← wrap what decoded
  validate_record_count (length batch.records)
  validate_records validate 0 batch.records

-- One loop of `validateUniqueRecordIDs` over the map `seen`.
unfoldable pub add_record_ids :
    {R : Type 0} → (R → String) → List (Validated R) → List String → Result (List String)
add_record_ids id [] seen = ok seen
add_record_ids id (r ∷ rs) seen = elim (one_of (id r.content) seen) [
  | true ↦ err (message "duplicate record_id in batch")
  | false ↦ add_record_ids id rs (id r.content ∷ seen)
]

abbrev pub common_id : CommonRecord → String
common_id r = r.record_id

abbrev pub technical_id : TechnicalRecord → String
technical_id r = r.record_id

abbrev pub plays_id : PlaysRecord → String
plays_id r = r.record_id

abbrev pub product_id : ProductRecord → String
product_id r = r.record_id

abbrev pub outcome_id : OutcomeRecord → String
outcome_id r = r.record_id

unfoldable pub validate_unique_record_ids : ValidatedBatch → Result (Unit {0})
validate_unique_record_ids b = do
  seen1 ← add_record_ids common_id b.common_records []
  seen2 ← add_record_ids technical_id b.technical_records seen1
  seen3 ← add_record_ids plays_id b.plays_records seen2
  seen4 ← add_record_ids product_id b.product_records seen3
  seen5 ← add_record_ids outcome_id b.outcome_records seen4
  ok tt

module _ (p : Platform) where
  unfoldable pub validate_idempotency_key : String → String → Result (Unit {0})
  validate_idempotency_key header_value body_id = do
    guard (not (header_value == "" || not (header_value == body_id)))
        (message "Idempotency-Key must equal the body ID")
    validate_uuid p header_value

  unfoldable pub validate_header : BatchHeader → Time → Result (ValidatedBatch × Spec)
  validate_header header now = do
    guard (eqb header.schema_version schema_version) (message "unsupported schema_version")
    wrap "batch_id" (validate_uuid p header.batch_id)
    spec ← validate_scope header.scope
    guard (allows_stream spec header.stream) (message "stream is not registered for product")
    sent_at ← wrap "sent_at" (parse_timestamp p header.sent_at)
    guard (not (ltb sent_at (now - 7 * day) || ltb (now + 5 * minute) sent_at))
        (message "sent_at is outside the allowed range")
    ok (
      record {
        header = header;
        sent_at_time = sent_at;
        product_key = spec.opaque_key;
        common_records = [];
        technical_records = [];
        plays_records = [];
        product_records = [];
        outcome_records = [];
      },
      spec,
    )

  module _ (decoder : Decoder) where
    -- The `switch` of `ParseBatch` on the stream.
    unfoldable pub parse_stream : Bytes → ValidatedBatch → Spec → Result ValidatedBatch
    parse_stream bytes v spec =
        if v.header.stream == stream_common
        then (do
          rs ←
              parse_records "decode common batch" (decoder.common bytes)
                (λ r. validate_common_record p r v.sent_at_time)
          ok (record v { common_records = rs }))
        else if v.header.stream == stream_technical
        then (do
          rs ←
              parse_records "decode technical batch" (decoder.technical bytes)
                (λ r. validate_technical_record p r v.sent_at_time)
          ok (record v { technical_records = rs }))
        else if v.header.stream == stream_plays
        then (do
          rs ←
              parse_records "decode plays batch" (decoder.plays bytes)
                (λ r. validate_plays_record p r v.sent_at_time spec)
          ok (record v { plays_records = rs }))
        else if v.header.stream == stream_product
        then (do
          rs ←
              parse_records "decode product batch" (decoder.product bytes)
                (λ r. validate_product_record p r v.sent_at_time spec)
          ok (record v { product_records = rs }))
        else if v.header.stream == stream_outcome
        then (do
          rs ←
              parse_records "decode outcome batch" (decoder.outcome bytes)
                (λ r. validate_outcome_record p r v.sent_at_time spec)
          ok (record v { outcome_records = rs }))
        else err (message "unknown stream")

    unfoldable pub parse_batch : Bytes → Time → Result ValidatedBatch
    parse_batch bytes now = do
      guard (not (ltb max_batch_bytes (length bytes))) (message "batch exceeds maximum size")
      header ← wrap "decode batch envelope" (decoder.envelope bytes)
      (v, spec) ← validate_header header now
      parsed ← parse_stream bytes v spec
      validate_unique_record_ids parsed
      ok parsed

    unfoldable pub parse_privacy_request : Bytes → Time → Result ValidatedPrivacyRequest
    parse_privacy_request bytes now = do
      guard (not (ltb 16_384 (length bytes))) (message "privacy request exceeds maximum size")
      request ← wrap "decode privacy request" (decoder.privacy bytes)
      guard (eqb request.schema_version schema_version) (message "unsupported schema_version")
      wrap "request_id" (validate_uuid p request.request_id)
      spec ← validate_scope request.scope
      guard
          (not (not (request.action == privacy_opt_out) && not (request.action == privacy_delete)))
          (message "unknown privacy action")
      requested_at ← wrap "requested_at" (parse_privacy_timestamp p request.requested_at)
      guard (not (ltb requested_at (now - 24 * hour) || ltb (now + 5 * minute) requested_at))
          (message "requested_at is outside the allowed range")
      ok (record {
        request = request;
        product_key = spec.opaque_key;
        requested_at_time = requested_at;
      })
