-- ===== src/Auth/Identities.antt =====
-- internal/auth/identity_jwt.go: the claims of a token of the identity service. The JSON decoder,
-- the signature check of crypto/ed25519 and the HTTP request for the key set are parameters; the
-- clock is an argument of the call.
use Prim.Native.String.{◌++◌, len}
use linka_plays_metric.Prelude.{
  String, ℕ, ◌+◌, ◌-◌, ◌*◌, ◌^◌, Option, none, some, List, [], ◌∷◌, Bool, true, false, not, ◌&&◌,
  ◌||◌, ◌==◌, ltb, leb, eqb, if◌then◌else◌, is_some, Time, Bytes, Result, ok, err, message, guard,
  wrap, ◌>>=◌, ◌>>◌, lookup as find, length, split, Platform, second, hour,
}
use linka_plays_metric.Product.{lookup}
use linka_plays_metric.Auth.Codecs.{Codec}
use linka_plays_metric.Auth.Clock.{from_unix, min}
use linka_plays_metric.Auth.Products.{opaque_key, opaque_or_missing, or_message}

-- The times are int64, held as their words.
pub record IdentityJwtClaims : Type 0 where
  pub issuer : String
  pub subject : String
  pub audience : String
  pub product : String
  pub subject_type : String
  pub scopes : List String
  pub person_key : Option String
  pub org_key : Option String
  pub issued_at : ℕ
  pub expires_at : ℕ
  pub token_id : String

pub record JwtHeader : Type 0 where
  pub algorithm : String
  pub type_name : String
  pub key_id : String

abbrev pub KeySet : Type 0
KeySet = List (String × Bytes)

pub record IdentityJwtVerifier : Type 0 where
  pub issuer : String
  pub audiences : List (String × String)
  pub max_lifetime : ℕ
  pub max_skew : ℕ

-- What the verifier calls: encoding/json, crypto/ed25519 and strings.TrimSpace.
pub record IdentityLibrary : Type 0 where
  pub decode_header : Bytes → Result JwtHeader
  pub decode_claims : Bytes → Result IdentityJwtClaims
  pub verify_signature : Bytes → String → Bytes → Bool
  pub trim_space : String → String

unfoldable pub valid_identity_subject_type : String → Bool
valid_identity_subject_type subject_type =
    subject_type == "account" || subject_type == "installation" || subject_type == "service"

unfoldable pub contains_scope : List String → String → Bool
contains_scope [] required = false
contains_scope (scope ∷ scopes) required =
    if scope == required then true else contains_scope scopes required

abbrev are_audiences : IdentityLibrary → List (String × String) → Bool
are_audiences l [] = true
are_audiences l ((product, audience) ∷ audiences) =
    is_some (lookup product) && not (l.trim_space audience == "") && are_audiences l audiences

-- `NewIdentityJWTVerifierWithSource` for a source that is not nil.
unfoldable pub new_identity_jwt_verifier :
    IdentityLibrary → String → List (String × String) → ℕ → Result IdentityJwtVerifier
new_identity_jwt_verifier l issuer audiences max_lifetime = do
  guard
      (not
        (issuer == "" || eqb (length audiences) 0 || eqb max_lifetime 0 || ltb hour max_lifetime))
      (message "invalid Identity JWT verifier configuration")
  guard (are_audiences l audiences) (message "invalid Identity JWT product audience")
  ok (record {
    issuer = issuer;
    audiences = audiences;
    max_lifetime = max_lifetime;
    max_skew = 30 * second;
  })

module _ (p : Platform) where
  abbrev prints_back : String → Option ℕ → Bool
  prints_back value none = false
  prints_back value (some u) = p.print_uuid u == value

  unfoldable pub canonical_uuid : String → Bool
  canonical_uuid value = prints_back value (p.parse_uuid value)

  module _ (c : Codec) (l : IdentityLibrary) (v : IdentityJwtVerifier) where
    -- The long condition on the claims, negated: what lets them pass.
    unfoldable pub are_claims_current : Time → String → IdentityJwtClaims → Bool
    are_claims_current now required_scope claims =
        claims.issuer == v.issuer
        && not (claims.subject == "")
        && opaque_key c claims.subject
        && not (claims.token_id == "")
        && canonical_uuid claims.token_id
        && not (ltb (now + v.max_skew) (from_unix claims.issued_at))
        && ltb now (from_unix claims.expires_at)
        && ltb (from_unix claims.issued_at) (from_unix claims.expires_at)
        && leb (min (from_unix claims.expires_at - from_unix claims.issued_at) (2 ^ 63 - 1))
            v.max_lifetime
        && contains_scope claims.scopes required_scope
        && valid_identity_subject_type claims.subject_type

    abbrev pub has_audience : IdentityJwtClaims → Option String → Bool
    has_audience claims none = false
    has_audience claims (some audience) = claims.audience == audience

    abbrev pub decoded_or : {A : Type 0} → String → Option A → Result A
    decoded_or what none = err (message what)
    decoded_or what (some a) = ok a

    unfoldable pub check_identity_claims : Time → String → Bytes → Result IdentityJwtClaims
    check_identity_claims now required_scope payload = do
      claims ← or_message "invalid Identity JWT claims" (l.decode_claims payload)
      guard (are_claims_current now required_scope claims) (message "invalid Identity JWT claims")
      guard (is_some (lookup claims.product)) (message "unknown Identity JWT product")
      guard (has_audience claims (find claims.product v.audiences))
          (message "invalid Identity JWT audience for product")
      guard (opaque_or_missing c claims.person_key && opaque_or_missing c claims.org_key)
          (message "invalid Identity JWT opaque scope")
      ok claims

    -- The public key: from the cached set, else from a set that is loaded anew.
    abbrev pub refreshed : Option Bytes → Result KeySet → String → Result (Option Bytes)
    refreshed (some key) again key_id = ok (some key)
    refreshed none again key_id =
        wrap "refresh Identity JWKS" again >>= λ fresh_keys. ok (find key_id fresh_keys)

    abbrev pub is_signed_by : Option Bytes → String → Option Bytes → Bool
    is_signed_by none text signature = false
    is_signed_by (some key) text none = false
    is_signed_by (some key) text (some signature) = l.verify_signature key text signature

    abbrev pub check_jwt_parts :
        Time → String → Result KeySet → Result KeySet → ℕ → List String → Result IdentityJwtClaims
    check_jwt_parts now required_scope keys again size (head ∷ body ∷ tail ∷ []) = do
      guard (not (ltb 8192 size)) (message "invalid Identity JWT")
      header_bytes ← decoded_or "invalid Identity JWT header" (c.unbase64 head)
      header ← or_message "invalid Identity JWT header" (l.decode_header header_bytes)
      guard (header.algorithm == "EdDSA" && header.type_name == "JWT" && not (header.key_id == ""))
          (message "invalid Identity JWT header")
      known_keys ← wrap "load Identity JWKS" keys
      key ← refreshed (find header.key_id known_keys) again header.key_id
      guard (is_signed_by key (head ++ "." ++ body) (c.unbase64 tail))
          (message "invalid Identity JWT signature")
      payload ← decoded_or "invalid Identity JWT payload" (c.unbase64 body)
      check_identity_claims now required_scope payload
    check_jwt_parts now required_scope keys again size _ = err (message "invalid Identity JWT")

    -- `keys` and `again` are what `source.Keys` returns without and with force.
    unfoldable pub verify_identity :
        Time → Result KeySet → Result KeySet → String → String → Result IdentityJwtClaims
    verify_identity now keys again encoded required_scope =
        check_jwt_parts now required_scope keys again (len encoded) (split b'.' encoded)
