-- ===== src/Auth/Laws/Products.antt =====
-- internal/auth/product.go: a product token is accepted until it expires, with the claims it was
-- issued with.
use Prim.Native.String.{◌++◌, len}
use linka_plays_metric.Prelude.{
  String, ℕ, ◌+◌, ◌*◌, ◌%◌, ◌≤◌, ◌<◌, ◌≡◌, refl, ap, ◌∙◌, inl, inr, Option, none, some, List, [],
  ◌∷◌, ◌++◌ as append_list, true, false, not, ◌&&◌, ◌||◌, ◌==◌, eq_iff, eqb, ltb, arith, Time,
  Bytes, ok, second, minute, is_some, Bool-cases, Option-cases, &&_split, guard-eq-ok, join,
  join-snoc, split, split-join, Lacks, lookup-mem, all-mem, codes, all,
}
use linka_plays_metric.Product.{Spec, registry, lookup}
use linka_plays_metric.Auth.Codecs.{Codec, IsCodec, equal_refl}
use linka_plays_metric.Auth.Clock.{
  truncate_idem, IsInstant, unix, from_unix, truncate_second, unix_word, from_unix-unix,
}
use linka_plays_metric.Auth.Services.{find_key, service_name_pattern, is_name_code, name_codes}
use linka_plays_metric.Auth.Products.{
  ProductTokens, ProductClaims, opaque_key, opaque_or_missing, encode_optional_opaque, encodes_back,
  decode_optional_opaque, sign_product_token, stamped, token_parts, issue_product, verify_product,
  product_token_version,
}

name_code-undotted :
    (cs : List ℕ) → all is_name_code cs ≡ true → all (λ c. not (eqb c b'.')) cs ≡ true
name_code-undotted [] h = refl
name_code-undotted (c ∷ cs) h = ground (arith, name_code-undotted cs)

name_codes-undotted : (cs : List ℕ) → name_codes cs ≡ true → all (λ c. not (eqb c b'.')) cs ≡ true
name_codes-undotted [] h = cc
name_codes-undotted (c ∷ cs) h = ground (arith, name_code-undotted cs)

service_name-Lacks : (name : String) → service_name_pattern name ≡ true → Lacks b'.' name
unfolding service_name_pattern
service_name-Lacks name h = name_codes-undotted (codes name) h

product-Lacks : (id : String) → is_some (lookup id) ≡ true → Lacks b'.' id
unfolding lookup registry
product-Lacks id h = elim (Option-cases (lookup id)) [
  | inl missing ↦ cc (rw missing at h)
  | inr (spec, found) ↦
      all-mem (λ (entry : String × Spec). all (λ c. not (eqb c b'.')) (codes entry.0)) registry
        (id, spec) refl (lookup-mem id registry spec found)
]

module _ (c : Codec) (laws : IsCodec c) where
  -- An opaque key is the encoding of some bytes, and has 64 characters.
  opaque_key_sound :
      (value : String)
      → opaque_key c value ≡ true
      → (len value ≡ 64) × (bytes : Bytes) × (c.hex bytes ≡ value)
  unfolding opaque_key
  opaque_key_sound value h =
      let (size, back) = &&_split (eqb (len value) 64) (encodes_back c value (c.unhex value)) h in
      elim (Option-cases (c.unhex value)) [
        | inl missing ↦ cc (rw missing at back)
        | inr (bytes, found) ↦ (ground arith, bytes, (eq_iff _ _).0 (rw found at back))
      ]

  opaque-Lacks : (value : String) → opaque_key c value ≡ true → Lacks b'.' value
  opaque-Lacks value h =
      let (_, bytes, same) = opaque_key_sound value h in rw (← same) (laws.hex_undotted bytes)

  optional-Lacks :
      (o : Option String) → opaque_or_missing c o ≡ true → Lacks b'.' (encode_optional_opaque o)
  unfolding encode_optional_opaque
  optional-Lacks none h = refl
  optional-Lacks (some value) h = opaque-Lacks value h

  opaque-dash : (value : String) → opaque_key c value ≡ true → (value == "-") ≡ false
  opaque-dash value h = elim (Bool-cases (value == "-")) [
    | inr other ↦ other
    | inl dash ↦
        let size : len "-" ≡ 64 = rw ((eq_iff value "-").0 dash) at (opaque_key_sound value h).0 in
        absurd (omega (arith, size))
  ]

  decode-opaque :
      (value : String)
      → opaque_key c value ≡ true
      → decode_optional_opaque c value ≡ ok (some value)
  unfolding decode_optional_opaque
  decode-opaque value h = rw (opaque-dash value h, h, decode_optional_opaque)

  decode-encode :
      (o : Option String)
      → opaque_or_missing c o ≡ true
      → decode_optional_opaque c (encode_optional_opaque o) ≡ ok o
  unfolding decode_optional_opaque encode_optional_opaque
  decode-encode none h = refl
  decode-encode (some value) h = decode-opaque value h

  -- The parts of a token between its version and its signature.
  abbrev tail_parts : ProductTokens → ProductClaims → List String
  tail_parts t v =
      t.active.id
      ∷ v.product
      ∷ v.subject_key
      ∷ encode_optional_opaque v.person_key
      ∷ encode_optional_opaque v.org_key
      ∷ c.format_int (unix v.issued_at)
      ∷ c.format_int (unix v.expires_at)
      ∷ []

  in_life :
      (now later ttl : Time)
      → 1 ≤ ttl
      → now ≤ later + 5 * minute
      → later < now + ttl
      → not
          (ltb (later + 5 * minute) now || not (ltb later (now + ttl)) || not (ltb now (now + ttl)))
        ≡ true
  in_life now later ttl some_time early late = ground arith

  expiry_whole :
      (now ttl : Time)
      → ttl % second ≡ 0
      → truncate_second (truncate_second now + ttl) ≡ truncate_second now + ttl
  expiry_whole now ttl whole = omega arith

  -- Given the laws of the library's functions, a product token is accepted, with the claims it was
  -- issued with, by every keyring that has the key it was issued under, from five minutes before the
  -- second of its issue until it expires, if the key has the name of a service and the lifetime is a
  -- positive number of whole seconds.
  pub verify_product-issue :
      (t u : ProductTokens) (now later : Time) (claims issued : ProductClaims) (token : String)
      → service_name_pattern t.active.id ≡ true
      → find_key u.active u.previous t.active.id ≡ some t.active
      → 1 ≤ t.ttl
      → t.ttl % second ≡ 0
      → IsInstant (now + t.ttl)
      → truncate_second now ≤ later + 5 * minute
      → later < truncate_second now + t.ttl
      → issue_product c t now claims ≡ ok (issued, token)
      → verify_product c u later token ≡ ok issued
  unfolding verify_product issue_product sign_product_token
  verify_product-issue t u now later claims issued token name key some_time whole instant early late
        h =
      let (scope, h1) =
        guard-eq-ok (is_some (lookup claims.product) && opaque_key c claims.subject_key) _ _ h in
      let (keys, h2) =
        guard-eq-ok (opaque_or_missing c claims.person_key && opaque_or_missing c claims.org_key) _
          _ h1 in
      let (known, subject) = &&_split (is_some (lookup claims.product)) _ scope in
      let (person, org) = &&_split (opaque_or_missing c claims.person_key) _ keys in
      let v = stamped c t now claims in
      let unsigned = join "." (token_parts c t v) in
      let mac = sign_product_token c t.active.secret unsigned in
      let signature = c.base64 mac in
      let same : v ≡ issued = ground arith in
      let text : token ≡ unsigned ++ "." ++ signature = ground arith in
      let parts : split b'.' token ≡ append_list (token_parts c t v) (signature ∷ []) =
        ap (λ s. split b'.' s)
          (text ∙ join-snoc "." product_token_version (tail_parts t v) signature)
        ∙ split-join product_token_version (append_list (tail_parts t v) (signature ∷ [])) (
          refl,
          (
            service_name-Lacks t.active.id name,
            (
              product-Lacks claims.product known,
              (
                opaque-Lacks claims.subject_key subject,
                (
                  optional-Lacks claims.person_key person,
                  (
                    optional-Lacks claims.org_key org,
                    (
                      laws.format_int_undotted _,
                      (laws.format_int_undotted _, (laws.base64_undotted mac, tt)),
                    ),
                  ),
                ),
              ),
            ),
          ),
        ) in
      let issue_time : from_unix (unix v.issued_at) ≡ v.issued_at =
        from_unix-unix v.issued_at (omega arith) ∙ truncate_idem now in
      let expiry : from_unix (unix v.expires_at) ≡ v.expires_at =
        from_unix-unix v.expires_at (omega arith) ∙ expiry_whole now t.ttl whole in
      rw
        (
          parts,
          key,
          laws.unbase64-base64 mac (laws.hmac_bytes _ _),
          equal_refl mac,
          known,
          subject,
          decode-encode claims.person_key person,
          decode-encode claims.org_key org,
          laws.parse_int-format_int (unix v.issued_at) (unix_word v.issued_at),
          laws.parse_int-format_int (unix v.expires_at) (unix_word v.expires_at),
          issue_time,
          expiry,
          in_life v.issued_at later t.ttl some_time early late,
        )
        (ap ok same)
