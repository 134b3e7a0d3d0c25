-- ===== src/Auth/Laws/Installations.antt =====
-- internal/auth/installation.go: a token is accepted until it expires, also after a rotation of the
-- keys, and is renewed for the same installation.
use linka_plays_metric.Prelude.{
  String, ℕ, ◌+◌, ◌-◌, ◌*◌, ◌^◌, ◌≤◌, ◌<◌, ◌≡◌, refl, ◌∙◌, ◌⊎◌, inl, inr, Option, none, some, List,
  [], ◌∷◌, true, not, ◌||◌, ltb, arith, Time, Bytes, ok, second, minute, is_some, Platform, join,
  split, split-join, split-Lacks, Lacks, All, guard-eq-ok, ◌==◌,
}
use linka_plays_metric.Auth.Codecs.{Codec, IsCodec, equal_refl}
use linka_plays_metric.Auth.Clock.{
  truncate_idem, IsInstant, unix, from_unix, truncate_second, unix_word, from_unix-unix,
}
use linka_plays_metric.Auth.Installations.{
  InstallationTokens, InstallationClaims, sign_installation, issue_installation,
  verify_installation, renew_installation, check_installation_parts, check_signature, is_signed,
  installation_token_version,
}

-- The keyring has the secret, as the active or as the previous one.
abbrev pub HasSecret : InstallationTokens → Bytes → Type 0
HasSecret t secret = (t.active_secret ≡ secret) ⊎ (t.previous_secret ≡ some secret)

truncate_twice : (now : Time) → IsInstant now → truncate_second now < 2 ^ 64 * second
truncate_twice now h = omega arith

module _ (p : Platform) (c : Codec) (laws : IsCodec c) where
  is_signed_own :
      (t : InstallationTokens) (secret : Bytes) (id stamp : String)
      → HasSecret t secret
      → is_signed p c t id stamp (sign_installation p c secret id stamp) ≡ true
  is_signed_own t secret id stamp (inl active) =
      rw active (ground (arith, equal_refl (sign_installation p c secret id stamp)))
  is_signed_own t secret id stamp (inr previous) =
      rw previous (ground (arith, equal_refl (sign_installation p c secret id stamp)))

  in_age :
      (now later max_age : Time)
      → now ≤ later + 5 * minute
      → later ≤ now + max_age
      → not (ltb (later + 5 * minute) now || ltb now (later - max_age)) ≡ true
  in_age now later max_age early late = ground arith

  -- Given the laws of the library's functions, a token is accepted, with the claims it was issued
  -- with, by every keyring that has the secret it was issued under, from five minutes before the
  -- second of its issue until it reaches the keyring's age, if its installation is named by a UUID
  -- without a dot.
  pub verify_installation-issue :
      (t u : InstallationTokens) (now later : Time) (id : String)
      → HasSecret u t.active_secret
      → is_some (p.parse_uuid id) ≡ true
      → Lacks b'.' id
      → IsInstant now
      → truncate_second now ≤ later + 5 * minute
      → later ≤ truncate_second now + u.max_age
      → verify_installation p c u later (issue_installation p c t now id).1
        ≡ ok (issue_installation p c t now id).0
  unfolding verify_installation issue_installation join sign_installation
  verify_installation-issue t u now later id has uuid dots instant early late =
      let issued = truncate_second now in
      let stamp = c.format_int (unix issued) in
      let mac = sign_installation p c t.active_secret id stamp in
      let parts : split b'.' (issue_installation p c t now id).1
          ≡ installation_token_version ∷ id ∷ stamp ∷ c.base64 mac ∷ [] =
        split-join installation_token_version (id ∷ stamp ∷ c.base64 mac ∷ []) (
          refl,
          (dots, (laws.format_int_undotted (unix issued), (laws.base64_undotted mac, tt))),
        ) in
      let time : from_unix (unix issued) ≡ issued =
        from_unix-unix issued (truncate_twice now instant) ∙ truncate_idem now in
      rw (
        parts,
        uuid,
        laws.parse_int-format_int (unix issued) (unix_word issued),
        laws.unbase64-base64 mac (laws.hmac_bytes _ _),
        is_signed_own u t.active_secret id stamp has,
        time,
        in_age issued later u.max_age early late,
      )

  check_signature-id :
      (t : InstallationTokens) (now : Time) (id stamp : String) (w : Option ℕ) (o : Option Bytes)
      (claims : InstallationClaims)
      → check_signature p c t now id stamp w o ≡ ok claims
      → claims.installation_id ≡ id
  check_signature-id t now id stamp none o claims h = cc
  check_signature-id t now id stamp (some w) none claims h = cc
  check_signature-id t now id stamp (some w) (some provided) claims h =
      let (_, h1) = guard-eq-ok (is_signed p c t id stamp provided) _ _ h in
      let (_, h2) =
        guard-eq-ok
          (not (ltb (now + 5 * minute) (from_unix w) || ltb (from_unix w) (now - t.max_age))) _ _
          h1 in
      ground arith

  parts-id :
      (t : InstallationTokens) (now : Time) (parts : List String) (claims : InstallationClaims)
      → All (Lacks b'.') parts
      → check_installation_parts p c t now parts ≡ ok claims
      → (is_some (p.parse_uuid claims.installation_id) ≡ true) × Lacks b'.' claims.installation_id
  parts-id t now (version ∷ id ∷ stamp ∷ signature ∷ []) claims lacks h =
      let (_, h1) = guard-eq-ok (version == installation_token_version) _ _ h in
      let (uuid, h2) = guard-eq-ok (is_some (p.parse_uuid id)) _ _ h1 in
      let same : claims.installation_id ≡ id =
        check_signature-id t now id stamp (c.parse_int stamp) (c.unbase64 signature) claims h2 in
      rw same (uuid, lacks.1.0)
  parts-id t now _ claims lacks h = cc

  -- Given the laws of the library's functions, a token that is accepted can be renewed: the new
  -- token names the same installation, and is accepted in turn, from five minutes before the second
  -- of the renewal until it reaches the age of the keyring.
  pub renew_installation-accepted :
      (t : InstallationTokens) (now later last : Time) (token : String)
      (claims : InstallationClaims)
      → verify_installation p c t now token ≡ ok claims
      → IsInstant later
      → truncate_second later ≤ last + 5 * minute
      → last ≤ truncate_second later + t.max_age
      → (renewed : InstallationClaims × String) × (renew_installation p c t now later token
          ≡ ok renewed)
        × (renewed.0.installation_id ≡ claims.installation_id)
        × (verify_installation p c t last renewed.1 ≡ ok renewed.0)
  unfolding renew_installation verify_installation issue_installation
  renew_installation-accepted t now later last token claims h instant early late =
      let (uuid, dots) = parts-id t now (split b'.' token) claims (split-Lacks token) h in
      (
        issue_installation p c t later claims.installation_id,
        rw h,
        refl,
        verify_installation-issue t t later last claims.installation_id (inl refl) uuid dots instant
            early late,
      )
