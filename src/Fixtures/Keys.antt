-- ===== src/Fixtures/Keys.antt =====
-- Keys, tokens and claims for internal/auth.
use linka_plays_metric.Prelude.{
  String, ◌+◌, ◌*◌, none, some, [], ◌∷◌, true, ok, message, second, minute, day,
}
use linka_plays_metric.Auth.{
  ServiceKey, ServiceSigner, ServiceVerifier, ServiceHeaders, InstallationTokens, ProductTokens,
  ProductClaims, IdentityJwtClaims, IdentityJwtVerifier, IdentityLibrary, KeySet, HttpJwks,
  Exchange, no_response,
}
use linka_plays_metric.Fixtures.{batch_uuid}
use linka_plays_metric.Fixtures.Codes.{epoch}

abbrev pub service_key : ServiceKey
service_key = record { id = "k"; secret = [] }

abbrev pub signer : ServiceSigner
signer = record { key = service_key; caller = "collector" }

abbrev pub verifier : ServiceVerifier
verifier = record {
  active = record { id = "new"; secret = [] };
  previous = some service_key;
  allowed_caller = "collector";
  max_skew = minute;
}

abbrev pub signed_headers : ServiceHeaders
signed_headers = record {
  version = "v2";
  key_id = "k";
  caller = "collector";
  request_id = batch_uuid;
  timestamp = "b";
  body_sha = "ab";
  signature = "aaab";
}

abbrev pub installation_tokens : InstallationTokens
installation_tokens = record { active_secret = 5 ∷ []; previous_secret = none; max_age = 30 * day }

-- The keyring after a rotation.
abbrev pub rotated_tokens : InstallationTokens
rotated_tokens = record {
  active_secret = 6 ∷ [];
  previous_secret = some (5 ∷ []);
  max_age = 30 * day;
}

-- 64 characters that encode bytes.
abbrev pub opaque_text : String
opaque_text = "bbbbbbbbbbbbbbbbbbbbbbbbbbbbbbbbbbbbbbbbbbbbbbbbbbbbbbbbbbbbbbbb"

abbrev pub product_tokens : ProductTokens
product_tokens = record {
  active = service_key;
  previous = none;
  subject_secret = [];
  ttl = 2 * second;
}

abbrev pub issued_claims : ProductClaims
issued_claims = record {
  product = "linka-plays";
  subject_key = opaque_text;
  person_key = none;
  org_key = some opaque_text;
  issued_at = epoch;
  expires_at = epoch + 2 * second;
}

abbrev pub product_text : String
product_text =
    "v2.k.linka-plays.bbbbbbbbbbbbbbbbbbbbbbbbbbbbbbbbbbbbbbbbbbbbbbbbbbbbbbbbbbbbbbbb.-.bbbbbbbbbbbbbbbbbbbbbbbbbbbbbbbbbbbbbbbbbbbbbbbbbbbbbbbbbbbbbbbb.b.aab.aaab"

abbrev pub identity_claims : IdentityJwtClaims
identity_claims = record {
  issuer = "https://identity.linka.su";
  subject = opaque_text;
  audience = "metrics";
  product = "linka-plays";
  subject_type = "installation";
  scopes = "telemetry:write" ∷ [];
  person_key = none;
  org_key = none;
  issued_at = 0;
  expires_at = 60;
  token_id = batch_uuid;
}

abbrev pub identity_verifier : IdentityJwtVerifier
identity_verifier = record {
  issuer = "https://identity.linka.su";
  audiences = ("linka-plays", "metrics") ∷ [];
  max_lifetime = minute;
  max_skew = 30 * second;
}

abbrev pub identity_library : IdentityLibrary
identity_library = record {
  decode_header = λ bytes. ok (record { algorithm = "EdDSA"; type_name = "JWT"; key_id = "one" });
  decode_claims = λ bytes. ok identity_claims;
  verify_signature = λ key text signature. true;
  trim_space = λ text. text;
}

abbrev pub key_set : KeySet
key_set = ("one", 1 ∷ []) ∷ []

abbrev pub cached_keys : HttpJwks
cached_keys = record { keys = key_set; fetched_at = epoch }

abbrev pub lost : Exchange
lost = no_response (message "timeout")
