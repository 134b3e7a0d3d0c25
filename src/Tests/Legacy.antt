-- ===== src/Tests/Legacy.antt =====
-- internal/contract/v1 on the fixtures.
use linka_plays_metric.Prelude.{
  ◌≡◌, ◌↔◌, refl, arith, [], ◌∷◌, true, ok, err, message, at_index, one_of, lookup as find, is_ok,
}
use linka_plays_metric.ContractV1.{
  parse_batch, decode_strict, validate_each, validate_event, validate_summary, validate_uuids,
  validate_app, validate_safe_values, validate_safe, validate_optional_safe, safe_value_pattern,
  parse_millisecond_time, validate_properties, level_dimensions, check_session_type,
  parse_public_privacy_request, parse_internal_privacy_request,
}
use linka_plays_metric.ContractV1.Laws.Events.{IsEvent, validate_event-IsEvent}
use linka_plays_metric.ContractV1.Laws.Summaries.{IsSummary, validate_summary_iff}
use linka_plays_metric.ContractV1.Laws.Batches.{
  IsAccepted, parse_batch-IsAccepted, parse_batch_first_error,
}
use linka_plays_metric.ContractV1.Laws.Privacy.{IsPrivacyRequest, parse_privacy_request_iff}
use linka_plays_metric.Fixtures.{platform, noon, batch_uuid}
use linka_plays_metric.Fixtures.Legacy.{
  event, unknown_event, validated_event, summary, validated_summary, validated_legacy_batch,
  validated_legacy_request, wrong_batch, json, json_of, object,
}

event_accepted : validate_event platform json event ≡ ok validated_event
unfolding validate_event validate_uuids find one_of validate_app validate_safe_values validate_safe
    safe_value_pattern parse_millisecond_time validate_properties decode_strict level_dimensions
event_accepted = refl

batch_accepted : parse_batch platform json object ≡ ok validated_legacy_batch
unfolding parse_batch validate_each validate_summary validate_optional_safe check_session_type
    validate_event validate_uuids find one_of validate_app validate_safe_values validate_safe
    safe_value_pattern parse_millisecond_time validate_properties decode_strict level_dimensions
batch_accepted = refl

validate_event-IsEvent_example : IsEvent platform json event validated_event
validate_event-IsEvent_example =
    validate_event-IsEvent platform json event validated_event event_accepted

validate_summary_iff_example : (validate_summary platform summary ≡ ok validated_summary) ↔ (
    (validated_summary.summary ≡ summary)
    × IsSummary platform summary validated_summary.started_at_time validated_summary.ended_at_time)
validate_summary_iff_example = validate_summary_iff platform summary validated_summary

parse_batch-IsAccepted_example : IsAccepted platform json object validated_legacy_batch
parse_batch-IsAccepted_example =
    parse_batch-IsAccepted platform json object validated_legacy_batch batch_accepted

unknown_refused :
    validate_event platform (json_of wrong_batch) unknown_event ≡ err (message "unknown event_name")
unfolding validate_event validate_uuids find one_of
unknown_refused = refl

wrong_decoded :
    decode_strict (json_of wrong_batch) (json_of wrong_batch).batch object ≡ ok wrong_batch
unfolding decode_strict
wrong_decoded = refl

known_accepted : is_ok (validate_event platform (json_of wrong_batch) event) ≡ true
unfolding validate_event validate_uuids find one_of validate_app validate_safe_values validate_safe
    safe_value_pattern parse_millisecond_time validate_properties decode_strict level_dimensions
known_accepted = refl

parse_batch_first_error_example :
    parse_batch platform (json_of wrong_batch) object
    ≡ err (at_index "events" 1 (message "unknown event_name"))
parse_batch_first_error_example =
    parse_batch_first_error platform (json_of wrong_batch) object wrong_batch (event ∷ [])
      unknown_event [] (message "unknown event_name") wrong_decoded refl (omega arith) refl
      (known_accepted, tt) unknown_refused

parse_privacy_request_iff_example :
    ((parse_public_privacy_request platform json object batch_uuid noon
        ≡ ok validated_legacy_request)
      ↔ ((json.privacy object ≡ ok validated_legacy_request.request.privacy_request)
          × (validated_legacy_request.request.installation_id ≡ batch_uuid)
          × IsPrivacyRequest platform noon validated_legacy_request))
    × ((parse_internal_privacy_request platform json object noon ≡ ok validated_legacy_request) ↔ (
        (json.internal_privacy object ≡ ok validated_legacy_request.request)
        × IsPrivacyRequest platform noon validated_legacy_request))
parse_privacy_request_iff_example =
    parse_privacy_request_iff platform noon json object batch_uuid validated_legacy_request
