-- ===== src/ContractV1/Laws/Privacy.antt =====
-- internal/contract/v1/privacy.go: exactly the privacy requests that are accepted.
use linka_plays_metric.Prelude.{
  String, ◌+◌, ◌*◌, ◌≤◌, ◌≡◌, ◌↔◌, refl, [], ◌∷◌, ◌&&◌, ◌==◌, eq_iff, eqb, arith, Time, Bytes,
  Result, ok, err, Platform, minute, hour, >>=-eq-ok, >>-eq-ok, guard-eq-ok,
}
use linka_plays_metric.ContractV1.Types.{InternalPrivacyRequest, ValidatedPrivacyRequest}
use linka_plays_metric.ContractV1.Properties.{Json}
use linka_plays_metric.ContractV1.Fields.{validate_uuids, parse_millisecond_time}
use linka_plays_metric.ContractV1.Privacy.{
  recent, validate_privacy_request, parse_public_privacy_request, parse_internal_privacy_request,
}
use linka_plays_metric.ContractV1.Laws.Fields.{
  IsUuid, validate_uuids_sound, validate_uuids_complete, IsMillisecond,
  parse_millisecond_time_sound, parse_millisecond_time_complete,
}

module _ (p : Platform) (now : Time) where
  -- A deletion of version 1, of UUIDs, requested in the last day or at most five minutes ahead.
  pub record IsPrivacyRequest (v : ValidatedPrivacyRequest) : Type 0 where
    pub version : v.request.privacy_request.schema_version ≡ 1
    pub action : v.request.privacy_request.action ≡ "delete"
    pub request_uuid : IsUuid p v.request.privacy_request.request_id
    pub installation_uuid : IsUuid p v.request.installation_id
    pub time : IsMillisecond p v.request.privacy_request.requested_at v.requested_at_time
    pub not_early : now ≤ v.requested_at_time + 24 * hour
    pub not_late : v.requested_at_time ≤ now + 5 * minute

  recent_sound :
      (r : Result Time) (t : Time)
      → recent p r now ≡ ok t
      → (r ≡ ok t) × (now ≤ t + 24 * hour) × (t ≤ now + 5 * minute)
  recent_sound (err e) t h = cc
  recent_sound (ok s) t h = ground arith

  recent_complete :
      (t : Time) → now ≤ t + 24 * hour → t ≤ now + 5 * minute → recent p (ok t) now ≡ ok t
  recent_complete t early late = ground arith

  validate_privacy_request_sound :
      (request : InternalPrivacyRequest) (v : ValidatedPrivacyRequest)
      → validate_privacy_request p request now ≡ ok v
      → (v.request ≡ request) × IsPrivacyRequest v
  unfolding validate_privacy_request
  validate_privacy_request_sound request v h =
      let q = request.privacy_request in
      let (kind, h1) = guard-eq-ok (eqb q.schema_version 1 && q.action == "delete") _ _ h in
      let (uuids, h2) = >>-eq-ok (validate_uuids p _) _ h1 in
      let (t, found, h3) =
        >>=-eq-ok (recent p (parse_millisecond_time p q.requested_at) now) _ h2 in
      let (parsed, early, late) = recent_sound (parse_millisecond_time p q.requested_at) t found in
      let e : record { request = request; requested_at_time = t } ≡ v = cc h3 in
      let ids = validate_uuids_sound p _ uuids in
      rw (← e) (
        refl,
        record {
          version = ground arith;
          action = (eq_iff _ _).0 (ground arith);
          request_uuid = ids.0;
          installation_uuid = ids.1.0;
          time = parse_millisecond_time_sound p q.requested_at t parsed;
          not_early = early;
          not_late = late;
        },
      )

  validate_privacy_request_complete :
      (v : ValidatedPrivacyRequest)
      → IsPrivacyRequest v
      → validate_privacy_request p v.request now ≡ ok v
  unfolding validate_privacy_request
  validate_privacy_request_complete v k = rw (
    k.version,
    k.action,
    validate_uuids_complete p
        (v.request.privacy_request.request_id ∷ v.request.installation_id ∷ [])
        (k.request_uuid, (k.installation_uuid, tt)),
    parse_millisecond_time_complete p _ _ k.time,
    recent_complete v.requested_at_time k.not_early k.not_late,
  )

  -- The request of an installation about itself is accepted, with the time it is accepted at, exactly
  -- if it decodes, and with the installation's identifier is a valid deletion of version 1; the same
  -- holds of a request from inside, which carries the identifier.
  pub parse_privacy_request_iff :
      (json : Json) (bytes : Bytes) (id : String) (v : ValidatedPrivacyRequest)
      → ((parse_public_privacy_request p json bytes id now ≡ ok v) ↔ (
          (json.privacy bytes ≡ ok v.request.privacy_request)
          × (v.request.installation_id ≡ id)
          × IsPrivacyRequest v))
        × ((parse_internal_privacy_request p json bytes now ≡ ok v)
            ↔ ((json.internal_privacy bytes ≡ ok v.request) × IsPrivacyRequest v))
  unfolding parse_public_privacy_request parse_internal_privacy_request
  parse_privacy_request_iff json bytes id v = (
    (
      λ h.
          let (request, found, rest) = >>=-eq-ok (json.privacy bytes) _ h in
          let (same, good) = validate_privacy_request_sound _ v rest in
          (rw (found, same), rw same, good),
      λ (found, named, good). rw (found, ← named) (validate_privacy_request_complete v good),
    ),
    (
      λ h.
          let (request, found, rest) = >>=-eq-ok (json.internal_privacy bytes) _ h in
          let (same, good) = validate_privacy_request_sound request v rest in
          (rw (found, same), good),
      λ (found, good). rw found (validate_privacy_request_complete v good),
    ),
  )
