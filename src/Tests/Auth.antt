-- ===== src/Tests/Auth.antt =====
-- internal/auth on the fixtures.
use linka_plays_metric.Prelude.{
  ◌+◌, ◌*◌, ◌<◌, ◌≡◌, refl, ◌⊎◌, inr, arith, [], ◌∷◌, false, some, String, Result, ok, minute,
  second, day, hour, split, lookup as find, join,
}
use linka_plays_metric.Product.{lookup, registry}
use linka_plays_metric.Auth.{
  InstallationClaims, equal, unix, from_unix, is_skewed, find_key, sign, verify, service_mac,
  issue_installation, verify_installation, renew_installation, sign_installation, issue_product,
  verify_product, opaque_key, encode_optional_opaque, sign_product_token, service_name_pattern,
  verify_identity, check_identity_claims, are_claims_current, contains_scope,
  valid_identity_subject_type, canonical_uuid, KeySet, get_keys, read_exchange,
}
use linka_plays_metric.Auth.Laws.Services.{verify-sign, IsAuthentic, verify-IsAuthentic}
use linka_plays_metric.Auth.Laws.Installations.{
  verify_installation-issue, renew_installation-accepted,
}
use linka_plays_metric.Auth.Laws.Products.{verify_product-issue}
use linka_plays_metric.Auth.Laws.Identities.{IsTrusted, verify_identity-IsTrusted}
use linka_plays_metric.Auth.Laws.KeySets.{get_keys-fresh}
use linka_plays_metric.Fixtures.{platform, batch_uuid}
use linka_plays_metric.Fixtures.Codes.{codec, codec-IsCodec, epoch}
use linka_plays_metric.Fixtures.Keys.{
  signer, verifier, signed_headers, installation_tokens, rotated_tokens, product_tokens,
  issued_claims, product_text, identity_claims, identity_verifier, identity_library, key_set,
  cached_keys, lost,
}

headers_signed :
    sign codec signer epoch "POST" "/batches" batch_uuid (b'{' ∷ []) ≡ ok signed_headers
unfolding sign unix service_mac
headers_signed = refl

key_rotated : find_key verifier.active verifier.previous "k" ≡ some signer.key
unfolding find_key
key_rotated = refl

-- The verifier has rotated its key, and its clock is half a minute ahead.
verify-sign_example :
    verify codec verifier (epoch + 30 * second) "POST" "/batches" (b'{' ∷ []) signed_headers ≡ ok tt
verify-sign_example =
    verify-sign codec codec-IsCodec signer verifier epoch (epoch + 30 * second) "POST" "/batches"
      batch_uuid (b'{' ∷ []) signed_headers key_rotated refl (omega arith) (omega arith)
      (omega arith) headers_signed

authentic :
    verify codec verifier (epoch + 30 * second) "POST" "/batches" (b'{' ∷ []) signed_headers ≡ ok tt
unfolding verify find_key is_skewed from_unix equal service_mac
authentic = refl

verify-IsAuthentic_example :
    IsAuthentic codec verifier (epoch + 30 * second) "POST" "/batches" (b'{' ∷ []) signed_headers
verify-IsAuthentic_example =
    verify-IsAuthentic codec verifier (epoch + 30 * second) "POST" "/batches" (b'{' ∷ [])
      signed_headers (omega arith) authentic

verify_installation-issue_example :
    verify_installation platform codec rotated_tokens
      (epoch + 29 * day)
      (issue_installation platform codec installation_tokens epoch batch_uuid).1
    ≡ ok (issue_installation platform codec installation_tokens epoch batch_uuid).0
unfolding find
verify_installation-issue_example =
    verify_installation-issue platform codec codec-IsCodec installation_tokens rotated_tokens epoch
      (epoch + 29 * day) batch_uuid (inr refl) refl refl (omega arith) (omega arith) (omega arith)

abbrev first_token : String
first_token = (issue_installation platform codec installation_tokens epoch batch_uuid).1

abbrev first_claims : InstallationClaims
first_claims = (issue_installation platform codec installation_tokens epoch batch_uuid).0

first_accepted :
    verify_installation platform codec installation_tokens epoch first_token ≡ ok first_claims
unfolding verify_installation split issue_installation join unix sign_installation find equal
    from_unix
first_accepted = refl

renew_installation-accepted_example :
    (renewed : InstallationClaims × String) × (renew_installation platform codec installation_tokens
        epoch
        (epoch + 29 * day)
        first_token
      ≡ ok renewed)
    × (renewed.0.installation_id ≡ first_claims.installation_id)
    × (verify_installation platform codec installation_tokens (epoch + 58 * day) renewed.1
        ≡ ok renewed.0)
renew_installation-accepted_example =
    renew_installation-accepted platform codec codec-IsCodec installation_tokens epoch
      (epoch + 29 * day) (epoch + 58 * day) first_token first_claims first_accepted (omega arith)
      (omega arith) (omega arith)

product_issued :
    issue_product codec product_tokens epoch issued_claims ≡ ok (issued_claims, product_text)
unfolding issue_product lookup find registry opaque_key join encode_optional_opaque unix
    sign_product_token
product_issued = refl

verify_product-issue_example :
    verify_product codec product_tokens (epoch + second) product_text ≡ ok issued_claims
unfolding service_name_pattern find_key
verify_product-issue_example =
    verify_product-issue codec codec-IsCodec product_tokens product_tokens epoch (epoch + second)
      issued_claims issued_claims product_text refl refl (omega arith) (omega arith) (omega arith)
      (omega arith) (omega arith) product_issued

abbrev key_sets : Result KeySet
key_sets = ok key_set

identity_accepted :
    verify_identity platform codec identity_library identity_verifier epoch key_sets key_sets
      "b.b.b" "telemetry:write"
    ≡ ok identity_claims
unfolding verify_identity split find check_identity_claims are_claims_current opaque_key
    canonical_uuid from_unix contains_scope valid_identity_subject_type lookup registry
identity_accepted = refl

verify_identity-IsTrusted_example :
    IsTrusted platform codec identity_library identity_verifier epoch "telemetry:write" key_sets
      key_sets "b.b.b" identity_claims
verify_identity-IsTrusted_example =
    verify_identity-IsTrusted platform codec identity_library identity_verifier epoch
      "telemetry:write" key_sets key_sets "b.b.b" identity_claims (omega arith) identity_accepted

-- Ten minutes after the last fetch the source cannot be reached.
stale_keys :
    get_keys codec cached_keys false
      (epoch + 10 * minute)
      (epoch + 11 * minute)
      (epoch + 11 * minute)
      lost
    ≡ (key_sets, cached_keys)
unfolding get_keys
stale_keys = refl

get_keys-fresh_example :
    ((read_exchange codec lost ≡ key_sets)
      × (cached_keys.keys ≡ key_set)
      × (cached_keys.fetched_at ≡ epoch + 11 * minute))
    ⊎ ((false ≡ false)
        × (cached_keys ≡ cached_keys)
        × (key_set ≡ cached_keys.keys)
        × (epoch + 10 * minute < cached_keys.fetched_at + hour))
get_keys-fresh_example =
    get_keys-fresh codec cached_keys cached_keys false (epoch + 10 * minute) (epoch + 11 * minute)
      (epoch + 11 * minute) lost key_set (omega arith) stale_keys
