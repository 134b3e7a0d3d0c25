-- ===== src/ContractV2/Laws/Complete.antt =====
-- internal/contract/v2/parse.go: `ParseBatch` accepts every batch that its rules allow.
use linka_plays_metric.Prelude.{
  String, ℕ, suc, ◌≡◌, ◌↔◌, refl, subst, sym, ap, ◌∙◌, Option, none, some, List, [], ◌∷◌, map, true,
  not, ◌||◌, ltb, ◌+◌, ◌-◌, ◌*◌, ◌≤◌, day, minute, arith, Time, Bytes, Result, ok, Platform,
  one_of_iff, length, length-map, All,
}
use linka_plays_metric.Product.{Spec, allows_stream}
use linka_plays_metric.ContractV2.Types.{
  Scope, Batch, Validated, ValidatedBatch, Decoder, max_batch_bytes,
}
use linka_plays_metric.ContractV2.Fields.{validate_record_count}
use linka_plays_metric.ContractV2.Records.{timed}
use linka_plays_metric.ContractV2.Batches.{
  opaque_or_none, validate_scope, validate_records, parse_records, validate_header, parse_stream,
  parse_batch,
}
use linka_plays_metric.ContractV2.Laws.Fields.{
  validate_uuid_complete, parse_timestamp_complete, opaque_key_pattern_complete,
}
use linka_plays_metric.ContractV2.Laws.Common.{IsCommon, validate_common_record_complete}
use linka_plays_metric.ContractV2.Laws.Technical.{IsTechnical, validate_technical_record_complete}
use linka_plays_metric.ContractV2.Laws.Plays.{IsPlays, validate_plays_record_complete}
use linka_plays_metric.ContractV2.Laws.Outcome.{
  IsProduct, IsOutcome, validate_product_record_complete, validate_outcome_record_complete,
}
use linka_plays_metric.ContractV2.Laws.Unique.{validate_unique_record_ids_iff}
use linka_plays_metric.ContractV2.Laws.Batches.{IsScope, IsOpaqueOrNone, IsStream}
use linka_plays_metric.ContractV2.Laws.Accepted.{
  IsContent, common, technical, plays, product, outcome, IsHeader, IsAccepted,
  parse_batch-IsAccepted,
}

opaque_or_none_complete : (o : Option String) → IsOpaqueOrNone o → opaque_or_none o ≡ true
opaque_or_none_complete none h = refl
opaque_or_none_complete (some key) h = opaque_key_pattern_complete key h

validate_scope_complete :
    (scope : Scope) (spec : Spec) → IsScope scope spec → validate_scope scope ≡ ok spec
unfolding validate_scope
validate_scope_complete scope spec h = rw (
  h.registered,
  opaque_key_pattern_complete scope.subject_key h.subject,
  opaque_or_none_complete scope.person_key h.person,
  opaque_or_none_complete scope.org_key h.org,
)

validate_records_complete :
    {R : Type 0} (validate : R → Result (Validated R)) (IsGood : R → Time → Type 0)
    → ((r : R) (t : Time) → IsGood r t → validate r ≡ ok (timed r t))
    → (index : ℕ) (vs : List (Validated R)) → All (λ v. IsGood v.content v.occurred_at_time) vs
    → validate_records validate index (map (λ v. v.content) vs) ≡ ok vs
unfolding validate_records
validate_records_complete validate IsGood good index [] h = refl
validate_records_complete validate IsGood good index (v ∷ vs) (here, there) = rw (
  good v.content v.occurred_at_time here,
  validate_records_complete validate IsGood good (suc index) vs there,
)

in_range : (n : ℕ) → 1 ≤ n → n ≤ 500 → validate_record_count n ≡ ok tt
unfolding validate_record_count
in_range n low high = ground arith

parse_records_complete :
    {R : Type 0} (what : String) (decoded : Result (Batch R)) (validate : R → Result (Validated R))
    (IsGood : R → Time → Type 0)
    → ((r : R) (t : Time) → IsGood r t → validate r ≡ ok (timed r t))
    → (vs : List (Validated R)) → IsStream decoded IsGood vs
    → parse_records what decoded validate ≡ ok vs
unfolding parse_records
parse_records_complete what decoded validate IsGood good vs h =
    let records_eq = validate_records_complete validate IsGood good 0 vs h.valid in
    let same : length vs ≡ length h.batch.records =
      sym (length-map (λ (v : Validated _). v.content) vs) ∙ ap length h.contents in
    let e : validate_records validate 0 h.batch.records ≡ ok vs = rw (← h.contents) records_eq in
    rw (
      h.decoding,
      in_range _ (subst (λ n. 1 ≤ n) same h.not_empty) (subst (λ n. n ≤ 500) same h.not_long),
      e,
    )

module _ (p : Platform) (decoder : Decoder) (bytes : Bytes) where
  abbrev blank : ValidatedBatch → ValidatedBatch
  blank b = record b {
    common_records = [];
    technical_records = [];
    plays_records = [];
    product_records = [];
    outcome_records = [];
  }

  in_window :
      (now sent_at : Time)
      → now ≤ sent_at + 7 * day
      → sent_at ≤ now + 5 * minute
      → not (ltb sent_at (now - 7 * day) || ltb (now + 5 * minute) sent_at) ≡ true
  in_window now sent_at early late = ground arith

  small : (n : ℕ) → n ≤ 524_288 → not (ltb max_batch_bytes n) ≡ true
  small n h = ground arith

  validate_header_complete :
      (now : Time) (b : ValidatedBatch) (spec : Spec)
      → IsHeader p decoder bytes now b.header b.sent_at_time b.product_key spec
      → validate_header p b.header now ≡ ok (blank b, spec)
  unfolding validate_header allows_stream
  validate_header_complete now b spec h = rw (
    h.version,
    validate_uuid_complete p b.header.batch_id h.batch_uuid,
    validate_scope_complete b.header.scope spec h.scope,
    (one_of_iff _ _).1 h.stream,
    parse_timestamp_complete p b.header.sent_at b.sent_at_time h.sent,
    in_window now b.sent_at_time h.not_early h.not_late,
    ← h.product_key,
  )

  parse_stream_complete :
      (b : ValidatedBatch) (spec : Spec)
      → IsContent p decoder bytes b spec
      → parse_stream p decoder bytes (blank b) spec ≡ ok b
  unfolding parse_stream
  parse_stream_complete b spec (common stream rs e1 e2 e3 e4) = rw (
    stream,
    parse_records_complete "decode common batch" (decoder.common bytes) _
        (λ r t. IsCommon p r b.sent_at_time t)
        (λ r t g. validate_common_record_complete p r b.sent_at_time t g) b.common_records rs,
    e1,
    e2,
    e3,
    e4,
  )
  parse_stream_complete b spec (technical stream e1 rs e2 e3 e4) = rw (
    stream,
    parse_records_complete "decode technical batch" (decoder.technical bytes) _
        (λ r t. IsTechnical p r b.sent_at_time t)
        (λ r t g. validate_technical_record_complete p r b.sent_at_time t g) b.technical_records rs,
    e1,
    e2,
    e3,
    e4,
  )
  parse_stream_complete b spec (plays stream e1 e2 rs e3 e4) = rw (
    stream,
    parse_records_complete "decode plays batch" (decoder.plays bytes) _
        (λ r t. IsPlays p r b.sent_at_time spec t)
        (λ r t g. validate_plays_record_complete p r b.sent_at_time spec t g) b.plays_records rs,
    e1,
    e2,
    e3,
    e4,
  )
  parse_stream_complete b spec (product stream e1 e2 e3 rs e4) = rw (
    stream,
    parse_records_complete "decode product batch" (decoder.product bytes) _
        (λ r t. IsProduct p r b.sent_at_time spec t)
        (λ r t g. validate_product_record_complete p r b.sent_at_time spec t g) b.product_records
        rs,
    e1,
    e2,
    e3,
    e4,
  )
  parse_stream_complete b spec (outcome stream e1 e2 e3 e4 rs) = rw (
    stream,
    parse_records_complete "decode outcome batch" (decoder.outcome bytes) _
        (λ r t. IsOutcome p r b.sent_at_time spec t)
        (λ r t g. validate_outcome_record_complete p r b.sent_at_time spec t g) b.outcome_records
        rs,
    e1,
    e2,
    e3,
    e4,
  )

  parse_batch_complete :
      (now : Time) (b : ValidatedBatch)
      → IsAccepted p decoder bytes now b
      → parse_batch p decoder bytes now ≡ ok b
  unfolding parse_batch
  parse_batch_complete now b h = rw (
    small (length bytes) h.size,
    h.envelope,
    validate_header_complete now b h.spec h.header,
    parse_stream_complete b h.spec h.content,
    (validate_unique_record_ids_iff b).1 h.distinct,
  )

  -- `ParseBatch` accepts a text as the batch `b` at the time `now` exactly if the text has at most
  -- 512 KiB and decodes to the header of `b`, which has version 2, a canonical UUID, a registered
  -- product with opaque keys, a stream of that product, and a sending time from seven days before
  -- to five minutes after `now`; and `b` holds the 1 to 500 decoded records of that one stream, in
  -- order, each valid for the stream, with no record identifier twice.
  pub parse_batch_iff :
      (now : Time) (b : ValidatedBatch)
      → (parse_batch p decoder bytes now ≡ ok b) ↔ IsAccepted p decoder bytes now b
  parse_batch_iff now b = (parse_batch-IsAccepted p decoder bytes now b, parse_batch_complete now b)
