-- ===== src/Tests.antt =====
-- The models run on small inputs, and the theorems on the inputs of Fixtures.
mod Store
mod Migrations
mod Privacy
mod Legacy
mod Json
mod Auth
mod Services
use linka_plays_metric.Prelude.{
  year_2020, hour, ◌+◌, ◌*◌, one_of, lookup as find, ◌≡◌, ◌↔◌, ◌≢◌, refl, inl, inr, true, false,
  some, none, [], ◌∷◌, Memᴰ, Result, ok, err, message,
}
use linka_plays_metric.Product.{
  OutcomeRule, outcome_result, linka_plays_spec, linka_tts_spec, linka_tts, registry, outcome_rule,
  lookup, Spec, allows_stream, allows_game,
}
use linka_plays_metric.Product.Laws.{
  lookup-IsConsistent, outcome_rule-IsSatisfiable, opaque_key_injective, IsConsistent,
  IsSatisfiable,
}
use linka_plays_metric.ContractV2.{
  validate_common_record, validate_technical_record, validate_product_record,
  validate_outcome_record, ValidatedBatch, record_count, parse_batch, validate_header,
  validate_scope, validate_uuid, parse_timestamp, validate_timestamp_range, parse_stream,
  parse_records, validate_record_count, validate_records, validate_plays_record,
  validate_base_record, validate_app, safe_value_pattern, opaque_key_pattern, check_plays_kind,
  validate_unique_record_ids, add_record_ids,
}
use linka_plays_metric.ContractV2.Laws.Accepted.{IsAccepted}
use linka_plays_metric.ContractV2.Laws.Complete.{parse_batch_iff}
use linka_plays_metric.ContractV2.Laws.Exact.{
  validate_common_record_iff, validate_technical_record_iff, validate_product_record_iff,
  validate_outcome_record_iff, validate_plays_record_iff,
}
use linka_plays_metric.ContractV2.Laws.Unique.{validate_unique_record_ids_iff, Distinct, record_ids}
use linka_plays_metric.ContractV2.Laws.Common.{IsCommon}
use linka_plays_metric.ContractV2.Laws.Technical.{IsTechnical}
use linka_plays_metric.ContractV2.Laws.Outcome.{IsProduct, IsOutcome}
use linka_plays_metric.ContractV2.Laws.Plays.{IsPlays}
use linka_plays_metric.Fixtures.{
  common_record, technical_record, product_record, outcome_record, an_hour_before, Content,
  plays_record, plays_timed, platform, decoder, batch, noon, server, fresh, forever, header, scope,
}

-- The fixture is accepted as it stands.
accepted : parse_batch platform decoder [] noon ≡ ok batch
unfolding parse_batch validate_header validate_scope validate_uuid parse_timestamp
    validate_timestamp_range parse_stream parse_records validate_record_count validate_records
    validate_plays_record validate_base_record validate_app safe_value_pattern opaque_key_pattern
    check_plays_kind validate_unique_record_ids add_record_ids lookup allows_stream allows_game find
    registry one_of
accepted = refl

parse_batch_iff_example :
    (parse_batch platform decoder [] noon ≡ ok batch) ↔ IsAccepted platform decoder [] noon batch
parse_batch_iff_example = parse_batch_iff platform decoder [] noon batch

validate_plays_record_iff_example :
    (validate_plays_record platform plays_record noon linka_plays_spec ≡ ok plays_timed) ↔ (
      (plays_timed.content ≡ plays_record)
      × IsPlays platform plays_record noon linka_plays_spec plays_timed.occurred_at_time)
validate_plays_record_iff_example =
    validate_plays_record_iff platform noon plays_record linka_plays_spec plays_timed

validate_technical_record_iff_example :
    (validate_technical_record platform technical_record noon
      ≡ ok (an_hour_before technical_record))
    ↔ ((technical_record ≡ technical_record)
        × IsTechnical platform technical_record noon (year_2020 + 11 * hour))
validate_technical_record_iff_example =
    validate_technical_record_iff platform noon technical_record (an_hour_before technical_record)

validate_outcome_record_iff_example :
    (validate_outcome_record platform outcome_record noon linka_tts_spec
      ≡ ok (an_hour_before outcome_record))
    ↔ ((outcome_record ≡ outcome_record)
        × IsOutcome platform outcome_record noon linka_tts_spec (year_2020 + 11 * hour))
validate_outcome_record_iff_example =
    validate_outcome_record_iff platform noon outcome_record linka_tts_spec
      (an_hour_before outcome_record)

found_plays : lookup "linka-plays" ≡ some linka_plays_spec
unfolding lookup find registry
found_plays = refl

found_tts : lookup "linka-tts" ≡ some linka_tts_spec
unfolding lookup find registry
found_tts = refl

lookup-IsConsistent_example : IsConsistent "linka-plays" linka_plays_spec
lookup-IsConsistent_example = lookup-IsConsistent "linka-plays" linka_plays_spec found_plays

abbrev cache_rule : OutcomeRule
cache_rule = record {
  required = outcome_result ∷ [];
  results = "hit" ∷ "miss" ∷ "evicted" ∷ [];
  sources = [];
  modes = [];
  count_buckets = [];
  duration_buckets = [];
  failure_codes = [];
}

found_cache : outcome_rule linka_tts_spec "cache_operation" ≡ some cache_rule
unfolding outcome_rule linka_tts_spec find
found_cache = refl
