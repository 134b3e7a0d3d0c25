-- ===== src/ContractV2/Laws/Accepted.antt =====
-- internal/contract/v2/parse.go: what a batch that `ParseBatch` accepts looks like as a whole.
use linka_plays_metric.Prelude.{
  String, ◌+◌, ◌*◌, ◌≤◌, ◌≡◌, refl, sym, ap, ◌∙◌, inl, inr, [], not, ◌==◌, eq_iff, ltb, arith, Time,
  Bytes, ok, guard, wrap, Memᴰ, one_of_iff, Platform, Bool-cases, length, minute, day, >>=-eq-ok,
  wrap-eq-ok,
}
use linka_plays_metric.Product.{
  Spec, allows_stream, stream_common, stream_technical, stream_plays, stream_product,
  stream_outcome,
}
use linka_plays_metric.ContractV2.Types.{BatchHeader, ValidatedBatch, Decoder, max_batch_bytes}
use linka_plays_metric.ContractV2.Batches.{
  parse_records, validate_unique_record_ids, validate_header, parse_stream, parse_batch,
}
use linka_plays_metric.ContractV2.Laws.Fields.{
  IsUuid, IsTimestamp, validate_uuid_sound, parse_timestamp_sound,
}
use linka_plays_metric.ContractV2.Laws.Common.{IsCommon, validate_common_record_sound}
use linka_plays_metric.ContractV2.Laws.Technical.{IsTechnical, validate_technical_record_sound}
use linka_plays_metric.ContractV2.Laws.Plays.{IsPlays, validate_plays_record_sound}
use linka_plays_metric.ContractV2.Laws.Outcome.{
  IsProduct, IsOutcome, validate_product_record_sound, validate_outcome_record_sound,
}
use linka_plays_metric.ContractV2.Laws.Unique.{Distinct, record_ids, validate_unique_record_ids_iff}
use linka_plays_metric.ContractV2.Laws.Batches.{
  IsScope, validate_scope_sound, IsStream, parse_records_sound,
}

module _ (p : Platform) (decoder : Decoder) (bytes : Bytes) where
  -- The five ways to fill a batch: the records of its stream, and nothing in the other lists.
  pub data IsContent (b : ValidatedBatch) (spec : Spec) : Type 0 where
    common :
        b.header.stream ≡ "common"
        → IsStream (decoder.common bytes) (λ r t. IsCommon p r b.sent_at_time t) b.common_records
        → b.technical_records ≡ []
        → b.plays_records ≡ []
        → b.product_records ≡ []
        → b.outcome_records ≡ []
        → IsContent b spec
    technical :
        b.header.stream ≡ "technical"
        → b.common_records ≡ []
        → IsStream
            (decoder.technical bytes)
            (λ r t. IsTechnical p r b.sent_at_time t)
            b.technical_records
        → b.plays_records ≡ []
        → b.product_records ≡ []
        → b.outcome_records ≡ []
        → IsContent b spec
    plays :
        b.header.stream ≡ "plays"
        → b.common_records ≡ []
        → b.technical_records ≡ []
        → IsStream (decoder.plays bytes) (λ r t. IsPlays p r b.sent_at_time spec t) b.plays_records
        → b.product_records ≡ []
        → b.outcome_records ≡ []
        → IsContent b spec
    product :
        b.header.stream ≡ "product"
        → b.common_records ≡ []
        → b.technical_records ≡ []
        → b.plays_records ≡ []
        → IsStream
            (decoder.product bytes)
            (λ r t. IsProduct p r b.sent_at_time spec t)
            b.product_records
        → b.outcome_records ≡ []
        → IsContent b spec
    outcome :
        b.header.stream ≡ "outcome"
        → b.common_records ≡ []
        → b.technical_records ≡ []
        → b.plays_records ≡ []
        → b.product_records ≡ []
        → IsStream
            (decoder.outcome bytes)
            (λ r t. IsOutcome p r b.sent_at_time spec t)
            b.outcome_records
        → IsContent b spec

  abbrev IsBlank : ValidatedBatch → Type 0
  IsBlank v =
      (v.common_records ≡ [])
      × (v.technical_records ≡ [])
      × (v.plays_records ≡ [])
      × (v.product_records ≡ [])
      × (v.outcome_records ≡ [])

  -- What `ParseBatch` sets before and after the switch on the stream.
  pub parse_stream_sound :
      (v b : ValidatedBatch) (spec : Spec)
      → IsBlank v
      → parse_stream p decoder bytes v spec ≡ ok b
      → (b.header ≡ v.header)
        × (b.sent_at_time ≡ v.sent_at_time)
        × (b.product_key ≡ v.product_key)
        × IsContent b spec
  unfolding parse_stream
  parse_stream_sound v b spec (c0, t0, p0, q0, o0) h =
      elim (Bool-cases (v.header.stream == stream_common)) [
        | inl here ↦
            let (rs, parsed, same) =
              >>=-eq-ok (parse_records _ _ _) _ (rw (here, parse_stream) at h) in
            let good =
              parse_records_sound "decode common batch" (decoder.common bytes) _
                (λ r t. IsCommon p r v.sent_at_time t)
                (λ r w. validate_common_record_sound p r v.sent_at_time w) rs parsed in
            let e : record v { common_records = rs } ≡ b = cc same in
            rw (← e) (refl, refl, refl, common ((eq_iff _ _).0 here) good t0 p0 q0 o0)
        | inr n1 ↦ elim (Bool-cases (v.header.stream == stream_technical)) [
          | inl here ↦
              let (rs, parsed, same) =
                >>=-eq-ok (parse_records _ _ _) _ (rw (n1, here, parse_stream) at h) in
              let good =
                parse_records_sound "decode technical batch" (decoder.technical bytes) _
                  (λ r t. IsTechnical p r v.sent_at_time t)
                  (λ r w. validate_technical_record_sound p r v.sent_at_time w) rs parsed in
              let e : record v { technical_records = rs } ≡ b = cc same in
              rw (← e) (refl, refl, refl, technical ((eq_iff _ _).0 here) c0 good p0 q0 o0)
          | inr n2 ↦ elim (Bool-cases (v.header.stream == stream_plays)) [
            | inl here ↦
                let (rs, parsed, same) =
                  >>=-eq-ok (parse_records _ _ _) _ (rw (n1, n2, here, parse_stream) at h) in
                let good =
                  parse_records_sound "decode plays batch" (decoder.plays bytes) _
                    (λ r t. IsPlays p r v.sent_at_time spec t)
                    (λ r w. validate_plays_record_sound p r v.sent_at_time spec w) rs parsed in
                let e : record v { plays_records = rs } ≡ b = cc same in
                rw (← e) (refl, refl, refl, plays ((eq_iff _ _).0 here) c0 t0 good q0 o0)
            | inr n3 ↦ elim (Bool-cases (v.header.stream == stream_product)) [
              | inl here ↦
                  let (rs, parsed, same) =
                    >>=-eq-ok (parse_records _ _ _) _ (rw (n1, n2, n3, here, parse_stream) at h) in
                  let good =
                    parse_records_sound "decode product batch" (decoder.product bytes) _
                      (λ r t. IsProduct p r v.sent_at_time spec t)
                      (λ r w. validate_product_record_sound p r v.sent_at_time spec w) rs parsed in
                  let e : record v { product_records = rs } ≡ b = cc same in
                  rw (← e) (refl, refl, refl, product ((eq_iff _ _).0 here) c0 t0 p0 good o0)
              | inr n4 ↦ elim (Bool-cases (v.header.stream == stream_outcome)) [
                | inl here ↦
                    let (rs, parsed, same) =
                      >>=-eq-ok (parse_records _ _ _) _
                        (rw (n1, n2, n3, n4, here, parse_stream) at h) in
                    let good =
                      parse_records_sound "decode outcome batch" (decoder.outcome bytes) _
                        (λ r t. IsOutcome p r v.sent_at_time spec t)
                        (λ r w. validate_outcome_record_sound p r v.sent_at_time spec w) rs
                        parsed in
                    let e : record v { outcome_records = rs } ≡ b = cc same in
                    rw (← e) (refl, refl, refl, outcome ((eq_iff _ _).0 here) c0 t0 p0 q0 good)
                | inr n5 ↦ cc (rw (n1, n2, n3, n4, n5, parse_stream) at h)
              ]
            ]
          ]
        ]
      ]

  -- The header of an accepted batch, read at the time `now`.
  pub record IsHeader (now : Time) (h : BatchHeader) (sent_at : Time) (key : String) (spec : Spec)
      : Type 0 where
    pub version : h.schema_version ≡ 2
    pub batch_uuid : IsUuid p h.batch_id
    pub scope : IsScope h.scope spec
    pub product_key : key ≡ spec.opaque_key
    pub stream : Memᴰ h.stream spec.streams
    pub sent : IsTimestamp p h.sent_at sent_at
    pub not_early : now ≤ sent_at + 7 * day
    pub not_late : sent_at ≤ now + 5 * minute

  validate_header_sound :
      (header : BatchHeader) (now : Time) (v : ValidatedBatch) (spec : Spec)
      → validate_header p header now ≡ ok (v, spec)
      → (v.header ≡ header) × IsBlank v × IsHeader now v.header v.sent_at_time v.product_key spec
  unfolding validate_header allows_stream
  validate_header_sound header now v spec h = (
    ground arith,
    (ground arith, ground arith, ground arith, ground arith, ground arith),
    record {
      version = ground arith;
      batch_uuid = validate_uuid_sound p v.header.batch_id (ground arith);
      scope = validate_scope_sound v.header.scope spec (ground arith);
      product_key = ground arith;
      stream = (one_of_iff _ _).0 (ground arith);
      sent = parse_timestamp_sound p v.header.sent_at v.sent_at_time (ground arith);
      not_early = ground arith;
      not_late = ground arith;
    },
  )

  -- An accepted batch.
  pub record IsAccepted (now : Time) (b : ValidatedBatch) : Type 0 where
    pub size : length bytes ≤ 524_288
    pub envelope : decoder.envelope bytes ≡ ok b.header
    pub spec : Spec
    pub header : IsHeader now b.header b.sent_at_time b.product_key spec
    pub content : IsContent b spec
    pub distinct : Distinct (record_ids b)

  -- Whatever `ParseBatch` accepts is a batch of at most 512 KiB whose header has version 2, a
  -- canonical UUID, a registered product with opaque keys, a stream of that product and a sending time from
  -- seven days before to five minutes after `now`; it holds the 1 to 500 decoded records of that one stream, in
  -- order, each valid for the stream and at its own time, with no record identifier twice.
  pub parse_batch-IsAccepted :
      (now : Time) (b : ValidatedBatch) → parse_batch p decoder bytes now ≡ ok b → IsAccepted now b
  unfolding parse_batch
  parse_batch-IsAccepted now b h =
      let (_, small, h1) = >>=-eq-ok (guard (not (ltb max_batch_bytes (length bytes))) _) _ h in
      let (header, found, h2) =
        >>=-eq-ok (wrap "decode batch envelope" (decoder.envelope bytes)) _ h1 in
      let ((v, spec), checked, h3) = >>=-eq-ok (validate_header p header now) _ h2 in
      let (parsed, content, h4) = >>=-eq-ok (parse_stream p decoder bytes v spec) _ h3 in
      let (_, unique, h5) = >>=-eq-ok (validate_unique_record_ids parsed) _ h4 in
      let same : parsed ≡ b = cc h5 in
      let (own, blank, good) = validate_header_sound header now v spec checked in
      let (e1, e2, e3, filled) = parse_stream_sound v parsed spec blank content in
      rw (← same) record {
        size = ground arith;
        envelope = wrap-eq-ok "decode batch envelope" _ (found ∙ ap ok (sym (e1 ∙ own)));
        spec = spec;
        header = rw (e1, e2, e3) good;
        content = filled;
        distinct = (validate_unique_record_ids_iff parsed).0 unique;
      }
