-- ===== src/Tests/Services.antt =====
-- internal/writer and internal/collector on the fixtures.
use linka_plays_metric.Prelude.{◌≡◌, refl, arith, [], ◌∷◌, some, ok, split, one_of, lookup as find}
use linka_plays_metric.Product.{lookup, registry, allows_stream, allows_game}
use linka_plays_metric.ContractV2.{
  parse_batch, validate_header, validate_scope, validate_uuid, parse_timestamp,
  validate_timestamp_range, parse_stream, parse_records, validate_record_count, validate_records,
  validate_plays_record, validate_base_record, validate_app, safe_value_pattern, opaque_key_pattern,
  check_plays_kind, validate_unique_record_ids, add_record_ids, validate_idempotency_key,
}
use linka_plays_metric.ContractV1 as V1
use linka_plays_metric.Auth.{
  sign, unix, service_mac, find_key, verify_product, equal, sign_product_token, opaque_key,
  decode_optional_opaque, from_unix, verify_installation, sign_installation,
}
use linka_plays_metric.Http.{is_json, check_body, read_body}
use linka_plays_metric.Writer as Writer
use linka_plays_metric.Writer.Laws.Batches.{IsServed, batches_v2-IsServed}
use linka_plays_metric.Collector as Collector
use linka_plays_metric.Collector.Laws.Scopes.{IsForwarded, batches_v2-IsForwarded}
use linka_plays_metric.Collector.Laws.Chain.{relayed, direct, write_v2-insert}
use linka_plays_metric.Fixtures.{platform, decoder, noon, batch, batch_uuid, fresh}
use linka_plays_metric.Fixtures.Codes.{codec, codec-IsCodec, epoch}
use linka_plays_metric.Fixtures.Keys.{signed_headers, signer, verifier, product_text}
use linka_plays_metric.Fixtures.Services.{
  writer_library, writer_server, writer_readings, stores, http_client, collector_library,
  collector_server, collector_readings, counting, post, installation_text,
}

parsed : parse_batch platform decoder (b'{' ∷ []) noon ≡ ok batch
unfolding parse_batch validate_header validate_scope validate_uuid parse_timestamp
    validate_timestamp_range parse_stream parse_records validate_record_count validate_records
    validate_plays_record validate_base_record validate_app safe_value_pattern opaque_key_pattern
    check_plays_kind validate_unique_record_ids add_record_ids lookup allows_stream allows_game find
    registry one_of
parsed = refl

keyed : validate_idempotency_key platform batch_uuid batch_uuid ≡ ok tt
unfolding validate_idempotency_key validate_uuid find
keyed = refl

headers_signed :
    sign codec signer epoch "POST" "/internal/v2/batches" batch_uuid (b'{' ∷ []) ≡ ok signed_headers
unfolding sign unix service_mac
headers_signed = refl

key_found : find_key verifier.active verifier.previous "k" ≡ some signer.key
unfolding find_key
key_found = refl

write_v2-insert_example :
    (Collector.http_writer codec http_client epoch
        (direct writer_library writer_server writer_readings stores)).write_v2
      batch_uuid
      (b'{' ∷ [])
      (fresh 5)
    ≡ relayed (stores.insert_v2 batch (Writer.body_sha256 codec (b'{' ∷ [])) (fresh 5))
write_v2-insert_example =
    write_v2-insert writer_library writer_server writer_readings stores http_client epoch batch
      (b'{' ∷ []) signed_headers codec-IsCodec refl key_found refl (omega arith) (omega arith)
      (omega arith) (omega arith) headers_signed parsed keyed (fresh 5)

batches_v2-IsServed_example :
    IsServed writer_library writer_server writer_readings stores
      (post "")
      (fresh 5)
      (Writer.batches_v2 writer_library writer_server writer_readings stores (post "") (fresh 5))
batches_v2-IsServed_example =
    batches_v2-IsServed writer_library writer_server writer_readings stores (post "") (fresh 5)

forwarded_once :
    (Collector.batches_v2 collector_library collector_server collector_readings counting
      (post product_text)
      0).1
    ≡ 1
unfolding Collector.batches_v2 Collector.check_batch_v2 is_json Collector.authenticate_product
    Collector.strip_prefix verify_product split find_key equal sign_product_token opaque_key
    decode_optional_opaque from_unix check_body read_body validate_idempotency_key
    Collector.scope_matches_claims Collector.optional_string_equal parse_batch validate_header
    validate_scope validate_uuid parse_timestamp validate_timestamp_range parse_stream parse_records
    validate_record_count validate_records validate_plays_record validate_base_record validate_app
    safe_value_pattern opaque_key_pattern check_plays_kind validate_unique_record_ids add_record_ids
    lookup allows_stream allows_game find registry one_of
forwarded_once = refl

batches_v2-IsForwarded_example :
    IsForwarded collector_library collector_server collector_readings counting
      (post product_text)
      0
      (Collector.batches_v2 collector_library collector_server collector_readings counting
        (post product_text)
        0)
batches_v2-IsForwarded_example =
    batches_v2-IsForwarded collector_library collector_server collector_readings counting
      (post product_text) 0

event_forwarded_once :
    (Collector.events collector_library collector_server collector_readings counting
      (post installation_text)
      0).1
    ≡ 1
unfolding Collector.events Collector.check_events is_json Collector.authenticate
    Collector.strip_prefix verify_installation split find equal sign_installation from_unix
    check_body read_body V1.parse_batch V1.decode_strict V1.validate_each V1.validate_event
    V1.validate_uuids one_of V1.validate_app V1.validate_safe_values V1.validate_safe
    V1.safe_value_pattern V1.parse_millisecond_time V1.validate_properties V1.level_dimensions
    V1.validate_summary V1.validate_optional_safe V1.check_session_type
event_forwarded_once = refl
