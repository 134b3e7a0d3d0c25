-- ===== src/Collector/Laws/Grants.antt =====
-- internal/collector/server.go: which bearer tokens let a request write telemetry.
use Prim.Native.Char.{code}
use linka_plays_metric.Prelude.{
  String, ℕ, List, [], ◌∷◌, ◌++◌, Bool, false, Bool-cases, Memᴰ, codes, eqb, ap, ap₂, Result, err,
  >>=-eq-ok, ◌≡◌, refl, subst, inl, inr, Option, none, some, true, arith, ok,
}
use linka_plays_metric.Auth.{
  ProductClaims, ProductTokens, IdentityJwtVerifier, IdentityJwtClaims, verify_identity,
  verify_product,
}
use linka_plays_metric.Auth.Laws.Identities.{verify_identity-Mem}
use linka_plays_metric.Http.{Request}
use linka_plays_metric.Collector.Interfaces.{Library, Server, Readings}
use linka_plays_metric.Collector.Access.{
  authenticate_product, strip_prefix, bearer, one_token, product_claims, verify_legacy, or_legacy,
  verify_either,
}

strip_prefix_sound :
    (prefix : List ℕ) (value rest : String)
    → strip_prefix prefix value ≡ some rest
    → codes value ≡ prefix ++ codes rest
unfolding strip_prefix
strip_prefix_sound [] value rest h = ap codes (cc h)
strip_prefix_sound (p ∷ ps) String.[] rest h = cc
strip_prefix_sound (p ∷ ps) (String.◌∷◌ c value) rest h = elim (Bool-cases (eqb (code c) p)) [
  | inl same ↦
      let first : code c ≡ p = ground arith in
      ap₂ (λ x xs. x ∷ xs) first (strip_prefix_sound ps value rest (rw (same, strip_prefix) at h))
  | inr other ↦ cc (rw (other, strip_prefix) at h)
]

module _ (l : Library) (server : Server) (now : Readings) where
  -- What a token must be to write telemetry: an identity token that the configured verifier accepts
  -- and whose scopes have `telemetry:write`, or, where legacy tokens are enabled, a product token,
  -- which has no scopes, that the configured keyring accepts.
  pub data IsGranted (token : String) : ProductClaims → Type 0 where
    identity :
        (v : IdentityJwtVerifier) (claims : IdentityJwtClaims)
        → server.identity_tokens ≡ some v
        → verify_identity l.platform l.codec l.identity v now.checked now.keys now.again token
            "telemetry:write"
          ≡ ok claims
        → Memᴰ "telemetry:write" claims.scopes
        → IsGranted token (product_claims claims)
    legacy :
        (tokens : ProductTokens) (claims : ProductClaims)
        → server.legacy_product_tokens ≡ true
        → server.product_tokens ≡ some tokens
        → verify_product l.codec tokens now.checked token ≡ ok claims
        → IsGranted token claims

  verify_legacy-IsGranted :
      (enabled : Bool) (tokens : Option ProductTokens) (token : String) (claims : ProductClaims)
      → server.legacy_product_tokens ≡ enabled
      → server.product_tokens ≡ tokens
      → verify_legacy l server now enabled tokens token ≡ ok claims
      → IsGranted token claims
  verify_legacy-IsGranted false tokens token claims on has h = cc
  verify_legacy-IsGranted true none token claims on has h = cc
  verify_legacy-IsGranted true (some tokens) token claims on has h = legacy tokens claims on has h

  or_legacy-IsGranted :
      (enabled : Bool) (v : IdentityJwtVerifier) (r : Result IdentityJwtClaims) (token : String)
      (claims : ProductClaims)
      → server.legacy_product_tokens ≡ enabled
      → server.identity_tokens ≡ some v
      → verify_identity l.platform l.codec l.identity v now.checked now.keys now.again token
          "telemetry:write"
        ≡ r
      → or_legacy l server now enabled r
          (verify_legacy l server now server.legacy_product_tokens server.product_tokens token)
        ≡ ok claims
      → IsGranted token claims
  or_legacy-IsGranted enabled v (ok found) token claims on has verified h =
      let same : product_claims found ≡ claims = ground arith in
      subst (IsGranted token) same
        (identity v found has verified (verify_identity-Mem _ _ _ v _ _ _ _ token found verified))
  or_legacy-IsGranted false v (err e) token claims on has verified h = cc
  or_legacy-IsGranted true v (err e) token claims on has verified h =
      verify_legacy-IsGranted server.legacy_product_tokens server.product_tokens token claims refl
        refl h

  verify_either-IsGranted :
      (o : Option IdentityJwtVerifier) (token : String) (claims : ProductClaims)
      → server.identity_tokens ≡ o
      → verify_either l server now o "telemetry:write" token ≡ ok claims
      → IsGranted token claims
  verify_either-IsGranted none token claims has h =
      verify_legacy-IsGranted server.legacy_product_tokens server.product_tokens token claims refl
        refl h
  verify_either-IsGranted (some v) token claims has h =
      or_legacy-IsGranted server.legacy_product_tokens v _ token claims refl has refl h

  bearer_sound : (o : Option String) (token : String) → one_token o ≡ ok token → o ≡ some token
  bearer_sound none token h = cc
  bearer_sound (some t) token h = ground arith

  pub authenticate_product-IsGranted :
      (r : Request) (claims : ProductClaims)
      → authenticate_product l server now r "telemetry:write" ≡ ok claims
      → (token : String) × (codes (r.header "Authorization") ≡ codes "Bearer " ++ codes token)
        × IsGranted token claims
  unfolding authenticate_product
  authenticate_product-IsGranted r claims h =
      let (token, held, h1) = >>=-eq-ok (one_token (bearer (r.header "Authorization"))) _ h in
      (
        token,
        strip_prefix_sound (codes "Bearer ") (r.header "Authorization") token
            (bearer_sound _ token held),
        verify_either-IsGranted server.identity_tokens token claims refl h1,
      )
