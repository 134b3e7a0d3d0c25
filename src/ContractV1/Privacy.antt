-- ===== src/ContractV1/Privacy.antt =====
-- internal/contract/v1/privacy.go: the privacy request of an installation, from the installation
-- itself and from inside.
use linka_plays_metric.Prelude.{
  String, ◌+◌, ◌-◌, ◌*◌, [], ◌∷◌, not, ◌&&◌, ◌||◌, ◌==◌, ltb, eqb, Time, Bytes, Result, ok, err,
  message, guard, ◌>>=◌, ◌>>◌, Platform, minute, hour,
}
use linka_plays_metric.ContractV1.Types.{
  schema_version, InternalPrivacyRequest, ValidatedPrivacyRequest,
}
use linka_plays_metric.ContractV1.Properties.{Json}
use linka_plays_metric.ContractV1.Fields.{validate_uuids, parse_millisecond_time}

module _ (p : Platform) where
  -- `err != nil || requestedAt.Before(…) || requestedAt.After(…)`, with one message for the three
  abbrev pub recent : Result Time → Time → Result Time
  recent (err e) now = err (message "requested_at is outside the allowed range")
  recent (ok requested_at) now = do
    guard (not (ltb requested_at (now - 24 * hour) || ltb (now + 5 * minute) requested_at))
        (message "requested_at is outside the allowed range")
    ok requested_at

  unfoldable pub validate_privacy_request :
      InternalPrivacyRequest → Time → Result ValidatedPrivacyRequest
  validate_privacy_request request now = do
    guard
        (eqb request.privacy_request.schema_version schema_version
          && request.privacy_request.action == "delete")
        (message "invalid V1 privacy request")
    validate_uuids p (request.privacy_request.request_id ∷ request.installation_id ∷ [])
    requested_at ← recent (parse_millisecond_time p request.privacy_request.requested_at) now
    ok (record { request = request; requested_at_time = requested_at })

  unfoldable pub parse_public_privacy_request :
      Json → Bytes → String → Time → Result ValidatedPrivacyRequest
  parse_public_privacy_request json bytes installation_id now = do
    request ← json.privacy bytes
    validate_privacy_request
        (record { privacy_request = request; installation_id = installation_id }) now

  unfoldable pub parse_internal_privacy_request :
      Json → Bytes → Time → Result ValidatedPrivacyRequest
  parse_internal_privacy_request json bytes now = do
    request ← json.internal_privacy bytes
    validate_privacy_request request now
