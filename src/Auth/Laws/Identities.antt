-- ===== src/Auth/Laws/Identities.antt =====
-- internal/auth/identity_jwt.go: what the claims of an accepted token guarantee.
use Prim.Native.String.{◌++◌}
use linka_plays_metric.Prelude.{
  String, ℕ, ◌+◌, ◌≤◌, ◌<◌, ◌≡◌, ◌∙◌, refl, sym, ap, one_of, one_of_iff, inl, inr, ◌⊎◌, Option,
  none, some, List, [], ◌∷◌, true, not, ◌&&◌, ◌==◌, eq_iff, ltb, arith, Time, Bytes, Result, ok,
  err, wrap, Memᴰ, is_some, lookup as find, Bool-cases, >>=-eq-ok, guard-eq-ok, wrap-eq-ok, split,
  Platform, hour,
}
use linka_plays_metric.Product.{lookup}
use linka_plays_metric.Auth.Codecs.{Codec}
use linka_plays_metric.Auth.Clock.{from_unix}
use linka_plays_metric.Auth.Products.{opaque_key, opaque_or_missing, or_message}
use linka_plays_metric.Auth.Identities.{
  JwtHeader, IdentityJwtClaims, IdentityJwtVerifier, IdentityLibrary, KeySet, contains_scope,
  valid_identity_subject_type, canonical_uuid, are_claims_current, has_audience,
  check_identity_claims, check_jwt_parts, verify_identity, refreshed, is_signed_by, decoded_or,
}

contains_scope-Mem :
    (scopes : List String) (required : String)
    → contains_scope scopes required ≡ true
    → Memᴰ required scopes
unfolding contains_scope
contains_scope-Mem [] required h = cc
contains_scope-Mem (scope ∷ scopes) required h = elim (Bool-cases (scope == required)) [
  | inl same ↦ Memᴰ.head (sym ((eq_iff _ _).0 same))
  | inr other ↦ Memᴰ.tail (contains_scope-Mem scopes required (rw other at h))
]

module _ (p : Platform) (c : Codec) (l : IdentityLibrary) (v : IdentityJwtVerifier) (now : Time)
    (required : String) where
  -- The token is of the configured issuer, for a registered product and its audience; it is current,
  -- lives no longer than allowed, and grants the scope; its keys are opaque.
  pub record IsIdentity (claims : IdentityJwtClaims) : Type 0 where
    pub issuer : claims.issuer ≡ v.issuer
    pub subject : opaque_key c claims.subject ≡ true
    pub token : canonical_uuid p claims.token_id ≡ true
    pub not_early : from_unix claims.issued_at ≤ now + v.max_skew
    pub not_expired : now < from_unix claims.expires_at
    pub lifetime : from_unix claims.expires_at ≤ from_unix claims.issued_at + v.max_lifetime
    pub scope : Memᴰ required claims.scopes
    pub subject_type : Memᴰ claims.subject_type ("account" ∷ "installation" ∷ "service" ∷ [])
    pub registered : is_some (lookup claims.product) ≡ true
    pub audience : find claims.product v.audiences ≡ some claims.audience
    pub person : opaque_or_missing c claims.person_key ≡ true
    pub org : opaque_or_missing c claims.org_key ≡ true

  subject_type_listed :
      (s : String)
      → valid_identity_subject_type s ≡ true
      → Memᴰ s ("account" ∷ "installation" ∷ "service" ∷ [])
  unfolding valid_identity_subject_type one_of
  subject_type_listed s h = (one_of_iff s _).0 (ground arith)

  audience_sound :
      (claims : IdentityJwtClaims) (o : Option String)
      → has_audience p c l v claims o ≡ true
      → o ≡ some claims.audience
  audience_sound claims none h = cc
  audience_sound claims (some a) h = ap some (sym ((eq_iff _ _).0 h))

  check_identity_claims-IsIdentity :
      (payload : Bytes) (claims : IdentityJwtClaims)
      → v.max_lifetime ≤ hour
      → check_identity_claims p c l v now required payload ≡ ok claims
      → IsIdentity claims
  unfolding check_identity_claims are_claims_current
  check_identity_claims-IsIdentity payload claims short h =
      let (found, decoded, h1) =
        >>=-eq-ok (or_message "invalid Identity JWT claims" (l.decode_claims payload)) _ h in
      let (current, h2) = guard-eq-ok (are_claims_current p c l v now required found) _ _ h1 in
      let (known, h3) = guard-eq-ok (is_some (lookup found.product)) _ _ h2 in
      let (audience, h4) =
        guard-eq-ok (has_audience p c l v found (find found.product v.audiences)) _ _ h3 in
      let (keys, h5) =
        guard-eq-ok (opaque_or_missing c found.person_key && opaque_or_missing c found.org_key) _ _
          h4 in
      let same : found ≡ claims = ground arith in
      rw (← same) (record {
        issuer = ground (arith, eq_iff found.issuer v.issuer);
        subject = ground arith;
        token = ground arith;
        not_early = ground arith;
        not_expired = ground arith;
        lifetime = ground arith;
        scope = contains_scope-Mem found.scopes required (ground arith);
        subject_type = subject_type_listed found.subject_type (ground arith);
        registered = known;
        audience = audience_sound found _ audience;
        person = ground arith;
        org = ground arith;
      })

  -- What a token must be for its claims to be trusted: three parts, the first of which decodes to a
  -- header and the second to the claims, a signature over these two by a key that the source has
  -- under the name in the header, and good claims.
  pub record IsTrusted (keys again : Result KeySet) (encoded : String) (claims : IdentityJwtClaims)
      : Type 0 where
    pub head : String
    pub body : String
    pub tail : String
    pub header_bytes : Bytes
    pub header : JwtHeader
    pub payload : Bytes
    pub key : Bytes
    pub known : KeySet
    pub signature : Bytes
    pub parts : split b'.' encoded ≡ head ∷ body ∷ tail ∷ []
    pub header_decoded : c.unbase64 head ≡ some header_bytes
    pub header_read : l.decode_header header_bytes ≡ ok header
    pub algorithm : header.algorithm ≡ "EdDSA"
    pub type_name : header.type_name ≡ "JWT"
    pub payload_decoded : c.unbase64 body ≡ some payload
    pub claims_read : l.decode_claims payload ≡ ok claims
    pub source : (keys ≡ ok known) ⊎ (again ≡ ok known)
    pub key_found : find header.key_id known ≡ some key
    pub decoded : c.unbase64 tail ≡ some signature
    pub signed : l.verify_signature key (head ++ "." ++ body) signature ≡ true
    pub identity : IsIdentity claims

  refreshed_sound :
      (keys again : Result KeySet) (known : KeySet) (id : String) (o : Option Bytes) (key : Bytes)
      → keys ≡ ok known
      → find id known ≡ o
      → refreshed p c l v o again id ≡ ok (some key)
      → (known2 : KeySet) × ((keys ≡ ok known2) ⊎ (again ≡ ok known2)) × (find id known2 ≡ some key)
  refreshed_sound keys again known id (some k) key have found h = (known, inl have, found ∙ cc h)
  refreshed_sound keys (ok fresh_keys) known id none key have found h = (fresh_keys, inr refl, cc h)
  refreshed_sound keys (err e) known id none key have found h = cc

  is_signed_by_sound :
      (o : Option Bytes) (text : String) (s : Option Bytes)
      → is_signed_by p c l v o text s ≡ true
      → (key : Bytes) × (signature : Bytes) × (o ≡ some key)
        × (s ≡ some signature)
        × (l.verify_signature key text signature ≡ true)
  is_signed_by_sound none text s h = cc
  is_signed_by_sound (some key) text none h = cc
  is_signed_by_sound (some key) text (some s) h = (key, s, refl, refl, h)

  decoded_sound :
      (what : String) (o : Option Bytes) (bytes : Bytes)
      → decoded_or p c l v what o ≡ ok bytes
      → o ≡ some bytes
  decoded_sound what none bytes h = cc
  decoded_sound what (some b) bytes h = ground arith

  or_message-eq-ok :
      {A : Type 0} (what : String) (r : Result A) (a : A) → or_message what r ≡ ok a → r ≡ ok a
  or_message-eq-ok what (ok b) a h = h
  or_message-eq-ok what (err e) a h = cc

  -- The claims that pass are those that the payload decodes to.
  claims_of_payload :
      (payload : Bytes) (claims : IdentityJwtClaims)
      → check_identity_claims p c l v now required payload ≡ ok claims
      → l.decode_claims payload ≡ ok claims
  unfolding check_identity_claims
  claims_of_payload payload claims h =
      let (found, decoded, h1) =
        >>=-eq-ok (or_message "invalid Identity JWT claims" (l.decode_claims payload)) _ h in
      let (_, h2) = guard-eq-ok (are_claims_current p c l v now required found) _ _ h1 in
      let (_, h3) = guard-eq-ok (is_some (lookup found.product)) _ _ h2 in
      let (_, h4) =
        guard-eq-ok (has_audience p c l v found (find found.product v.audiences)) _ _ h3 in
      let (_, h5) =
        guard-eq-ok (opaque_or_missing c found.person_key && opaque_or_missing c found.org_key) _ _
          h4 in
      or_message-eq-ok _ _ found decoded ∙ h5

  parts-IsTrusted :
      (keys again : Result KeySet) (encoded : String) (size : ℕ) (parts : List String)
      (claims : IdentityJwtClaims)
      → v.max_lifetime ≤ hour
      → split b'.' encoded ≡ parts
      → check_jwt_parts p c l v now required keys again size parts ≡ ok claims
      → IsTrusted keys again encoded claims
  parts-IsTrusted keys again encoded size (head ∷ body ∷ tail ∷ []) claims short same h =
      let (_, h1) = guard-eq-ok (not (ltb 8192 size)) _ _ h in
      let (header_bytes, unpacked, h2) =
        >>=-eq-ok (decoded_or p c l v "invalid Identity JWT header" (c.unbase64 head)) _ h1 in
      let (header, read, h3) =
        >>=-eq-ok (or_message "invalid Identity JWT header" (l.decode_header header_bytes)) _ h2 in
      let (fine, h4) =
        guard-eq-ok
          (header.algorithm == "EdDSA" && header.type_name == "JWT" && not (header.key_id == "")) _
          _ h3 in
      let (known, have, h5) = >>=-eq-ok (wrap "load Identity JWKS" keys) _ h4 in
      let (key, chosen, h6) =
        >>=-eq-ok (refreshed p c l v (find header.key_id known) again header.key_id) _ h5 in
      let (signed, h7) =
        guard-eq-ok (is_signed_by p c l v key (head ++ "." ++ body) (c.unbase64 tail)) _ _ h6 in
      let (payload, unpacked_body, h8) =
        >>=-eq-ok (decoded_or p c l v "invalid Identity JWT payload" (c.unbase64 body)) _ h7 in
      let (k, s, is_key, is_signature, verified) = is_signed_by_sound key _ _ signed in
      let (set, source, found) =
        refreshed_sound keys again known header.key_id (find header.key_id known) k
          (wrap-eq-ok "load Identity JWKS" keys have) refl (rw is_key at chosen) in
      record {
        head = head;
        body = body;
        tail = tail;
        header_bytes = header_bytes;
        header = header;
        payload = payload;
        header_decoded = decoded_sound _ _ header_bytes unpacked;
        header_read = or_message-eq-ok _ _ header read;
        algorithm = ground (arith, eq_iff header.algorithm "EdDSA");
        type_name = ground (arith, eq_iff header.type_name "JWT");
        payload_decoded = decoded_sound _ _ payload unpacked_body;
        claims_read = claims_of_payload payload claims h8;
        key = k;
        known = set;
        signature = s;
        parts = same;
        source = source;
        key_found = found;
        decoded = is_signature;
        signed = verified;
        identity = check_identity_claims-IsIdentity payload claims short h8;
      }
  parts-IsTrusted keys again encoded size _ claims short same h = cc

  -- The claims of a token that a verifier, whose limit on the lifetime is an hour at most, accepts
  -- are what its second part decodes to, and signed, over both of their parts, by a key of the source under the name in the header; they
  -- are the issuer's, current, for a registered product and its audience, and grant the scope.
  pub verify_identity-IsTrusted :
      (keys again : Result KeySet) (encoded : String) (claims : IdentityJwtClaims)
      → v.max_lifetime ≤ hour
      → verify_identity p c l v now keys again encoded required ≡ ok claims
      → IsTrusted keys again encoded claims
  unfolding verify_identity
  verify_identity-IsTrusted keys again encoded claims short h =
      parts-IsTrusted keys again encoded _ (split b'.' encoded) claims short refl h

  -- The claims that pass grant the scope.
  payload-Mem :
      (payload : Bytes) (claims : IdentityJwtClaims)
      → check_identity_claims p c l v now required payload ≡ ok claims
      → Memᴰ required claims.scopes
  unfolding check_identity_claims are_claims_current
  payload-Mem payload claims h =
      let (found, decoded, h1) =
        >>=-eq-ok (or_message "invalid Identity JWT claims" (l.decode_claims payload)) _ h in
      let (current, _) = guard-eq-ok (are_claims_current p c l v now required found) _ _ h1 in
      let same : found ≡ claims =
        cc (or_message-eq-ok _ _ found decoded, claims_of_payload payload claims h) in
      rw (← same) (contains_scope-Mem found.scopes required (ground arith))

  parts-Mem :
      (keys again : Result KeySet) (size : ℕ) (parts : List String) (claims : IdentityJwtClaims)
      → check_jwt_parts p c l v now required keys again size parts ≡ ok claims
      → Memᴰ required claims.scopes
  parts-Mem keys again size (head ∷ body ∷ tail ∷ []) claims h =
      let (_, h1) = guard-eq-ok (not (ltb 8192 size)) _ _ h in
      let (header_bytes, _, h2) =
        >>=-eq-ok (decoded_or p c l v "invalid Identity JWT header" (c.unbase64 head)) _ h1 in
      let (header, _, h3) =
        >>=-eq-ok (or_message "invalid Identity JWT header" (l.decode_header header_bytes)) _ h2 in
      let (_, h4) =
        guard-eq-ok
          (header.algorithm == "EdDSA" && header.type_name == "JWT" && not (header.key_id == "")) _
          _ h3 in
      let (known, _, h5) = >>=-eq-ok (wrap "load Identity JWKS" keys) _ h4 in
      let (key, _, h6) =
        >>=-eq-ok (refreshed p c l v (find header.key_id known) again header.key_id) _ h5 in
      let (_, h7) =
        guard-eq-ok (is_signed_by p c l v key (head ++ "." ++ body) (c.unbase64 tail)) _ _ h6 in
      let (payload, _, h8) =
        >>=-eq-ok (decoded_or p c l v "invalid Identity JWT payload" (c.unbase64 body)) _ h7 in
      payload-Mem payload claims h8
  parts-Mem keys again size _ claims h = cc

  -- An accepted token has the scope that was asked for.
  pub verify_identity-Mem :
      (keys again : Result KeySet) (encoded : String) (claims : IdentityJwtClaims)
      → verify_identity p c l v now keys again encoded required ≡ ok claims
      → Memᴰ required claims.scopes
  unfolding verify_identity
  verify_identity-Mem keys again encoded claims h =
      parts-Mem keys again _ (split b'.' encoded) claims h
