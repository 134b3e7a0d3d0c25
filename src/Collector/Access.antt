-- ===== src/Collector/Access.antt =====
-- internal/collector/server.go: who may send what.
use Prim.Native.Char.{code}
use linka_plays_metric.Prelude.{
  String, ℕ, Option, none, some, List, [], ◌∷◌, Bool, true, false, not, ◌&&◌, ◌==◌, eqb,
  if◌then◌else◌, is_none, Result, ok, err, message, all, codes, ◌>>=◌,
}
use linka_plays_metric.ContractV2.{Scope}
use linka_plays_metric.Auth.{
  InstallationClaims, ProductClaims, ProductTokens, IdentityJwtClaims, IdentityJwtVerifier,
  from_unix, verify_installation, verify_product, verify_identity,
}
use linka_plays_metric.Http.{Request}
use linka_plays_metric.Collector.Interfaces.{Library, Server, Readings}

-- `strings.HasPrefix` and `strings.TrimPrefix`: what stands behind the prefix.
unfoldable pub strip_prefix : List ℕ → String → Option String
strip_prefix [] text = some text
strip_prefix (p ∷ ps) String.[] = none
strip_prefix (p ∷ ps) (String.◌∷◌ c text) =
    let rest = strip_prefix ps text in if eqb (code c) p then rest else none

abbrev pub bearer : String → Option String
bearer header = strip_prefix (codes "Bearer ") header

-- The token behind `Bearer `, which has no space.
abbrev pub one_token : Option String → Result String
one_token none = err (message "missing bearer token")
one_token (some token) =
    if all (λ c. not (eqb c b' ')) (codes token)
    then ok token
    else err (message "missing bearer token")

unfoldable pub optional_string_equal : Option String → Option String → Bool
optional_string_equal none right = is_none right
optional_string_equal (some left) none = false
optional_string_equal (some left) (some right) = left == right

unfoldable pub scope_matches_claims : Scope → ProductClaims → Bool
scope_matches_claims scope claims =
    scope.product == claims.product
    && scope.subject_key == claims.subject_key
    && optional_string_equal scope.person_key claims.person_key
    && optional_string_equal scope.org_key claims.org_key

-- The claims of an identity token as those of a product token.
abbrev pub product_claims : IdentityJwtClaims → ProductClaims
product_claims claims = record {
  product = claims.product;
  subject_key = claims.subject;
  person_key = claims.person_key;
  org_key = claims.org_key;
  issued_at = from_unix claims.issued_at;
  expires_at = from_unix claims.expires_at;
}

module _ (l : Library) (server : Server) (now : Readings) where
  unfoldable pub authenticate : String → Result InstallationClaims
  authenticate header = do
    token ← one_token (bearer header)
    verify_installation l.platform l.codec server.tokens now.checked token

  abbrev pub verify_legacy : Bool → Option ProductTokens → String → Result ProductClaims
  verify_legacy false tokens encoded = err (message "no product token verifier configured")
  verify_legacy true none encoded = err (message "no product token verifier configured")
  verify_legacy true (some tokens) encoded = verify_product l.codec tokens now.checked encoded

  -- An identity token first; a legacy token where that fails and legacy tokens are enabled.
  abbrev pub or_legacy :
      Bool → Result IdentityJwtClaims → Result ProductClaims → Result ProductClaims
  or_legacy legacy (ok claims) other = ok (product_claims claims)
  or_legacy false (err e) other = err e
  or_legacy true (err e) other = other

  abbrev pub verify_either : Option IdentityJwtVerifier → String → String → Result ProductClaims
  verify_either none required_scope encoded =
      verify_legacy server.legacy_product_tokens server.product_tokens encoded
  verify_either (some v) required_scope encoded =
      or_legacy server.legacy_product_tokens
        (verify_identity l.platform l.codec l.identity v now.checked now.keys now.again encoded
          required_scope)
        (verify_legacy server.legacy_product_tokens server.product_tokens encoded)

  unfoldable pub authenticate_product : Request → String → Result ProductClaims
  authenticate_product r required_scope = do
    encoded ← one_token (bearer (r.header "Authorization"))
    verify_either server.identity_tokens required_scope encoded
