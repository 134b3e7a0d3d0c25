-- ===== src/Auth/Installations.antt =====
-- internal/auth/installation.go: the tokens of installations. The clock and the source of randomness
-- are arguments of the call; an empty previous secret is none.
use Prim.Native.String.{◌++◌}
use linka_plays_metric.Prelude.{
  String, ℕ, ◌+◌, ◌-◌, ◌*◌, Option, none, some, List, [], ◌∷◌, Bool, false, not, ◌||◌, ◌==◌, ltb,
  is_some, Time, Bytes, Result, ok, err, message, guard, wrap, ◌>>=◌, ◌>>◌, length, join, split,
  Platform, minute, hour, day,
}
use linka_plays_metric.Auth.Codecs.{Codec, equal}
use linka_plays_metric.Auth.Clock.{unix, from_unix, truncate_second}

abbrev pub installation_token_version : String
installation_token_version = "v1"

pub record InstallationClaims : Type 0 where
  pub installation_id : String
  pub issued_at : Time

pub record InstallationTokens : Type 0 where
  pub active_secret : Bytes
  pub previous_secret : Option Bytes
  pub max_age : ℕ

abbrev is_short : Option Bytes → Bool
is_short none = false
is_short (some secret) = ltb (length secret) 32

unfoldable pub new_installation_tokens_with_keyring :
    Bytes → Option Bytes → ℕ → Result InstallationTokens
new_installation_tokens_with_keyring active previous max_age = do
  guard (not (ltb (length active) 32 || is_short previous))
      (message "installation HMAC secret must contain at least 32 bytes")
  guard (not (ltb max_age hour || ltb (365 * day) max_age))
      (message "installation token max age must be between one hour and one year")
  ok (record { active_secret = active; previous_secret = previous; max_age = max_age })

unfoldable pub new_installation_tokens : Bytes → Result InstallationTokens
unfolding new_installation_tokens_with_keyring
new_installation_tokens secret = new_installation_tokens_with_keyring secret none (30 * day)

module _ (p : Platform) (c : Codec) where
  unfoldable pub sign_installation : Bytes → String → String → Bytes
  sign_installation secret installation_id issued_at =
      c.hmac secret (installation_token_version ++ "\n" ++ installation_id ++ "\n" ++ issued_at)

  unfoldable pub issue_installation :
      InstallationTokens → Time → String → InstallationClaims × String
  issue_installation t now installation_id =
      let issued_at = truncate_second now in
      let stamp = c.format_int (unix issued_at) in
      (
        record { installation_id = installation_id; issued_at = issued_at },
        join "." (
            installation_token_version
            ∷ installation_id
            ∷ stamp
            ∷ c.base64 (sign_installation t.active_secret installation_id stamp)
            ∷ []),
      )

  -- `Issue`; the argument is what `uuid.NewRandomFromReader` returns.
  unfoldable pub issue_new_installation :
      InstallationTokens → Time → Result ℕ → Result (InstallationClaims × String)
  issue_new_installation t now random = do
    id ← wrap "generate installation ID" random
    ok (issue_installation t now (p.print_uuid id))

  -- The signature is that of the active secret, or of the previous one.
  abbrev pub is_signed : InstallationTokens → String → String → Bytes → Bool
  is_signed t id stamp provided =
      equal provided (sign_installation t.active_secret id stamp) || elim t.previous_secret [
        | none ↦ false
        | some secret ↦ equal provided (sign_installation secret id stamp)
      ]

  abbrev invalid : {A : Type 0} → Result A
  invalid = err (message "invalid installation token")

  abbrev pub check_age : InstallationTokens → Time → String → ℕ → Result InstallationClaims
  check_age t now id w =
      guard (not (ltb (now + 5 * minute) (from_unix w) || ltb (from_unix w) (now - t.max_age)))
        (message "invalid installation token")
      >> ok (record { installation_id = id; issued_at = from_unix w })

  -- The checks of the four parts of a token.
  abbrev pub check_signature :
      InstallationTokens
      → Time
      → String
      → String
      → Option ℕ
      → Option Bytes
      → Result InstallationClaims
  check_signature t now id stamp none decoded = invalid
  check_signature t now id stamp (some w) none = invalid
  check_signature t now id stamp (some w) (some provided) =
      guard (is_signed t id stamp provided) (message "invalid installation token")
      >> check_age t now id w

  abbrev pub check_installation_parts :
      InstallationTokens → Time → List String → Result InstallationClaims
  check_installation_parts t now (version ∷ id ∷ stamp ∷ signature ∷ []) = do
    guard (version == installation_token_version) (message "invalid installation token")
    guard (is_some (p.parse_uuid id)) (message "invalid installation token")
    check_signature t now id stamp (c.parse_int stamp) (c.unbase64 signature)
  check_installation_parts t now _ = invalid

  unfoldable pub verify_installation :
      InstallationTokens → Time → String → Result InstallationClaims
  verify_installation t now token = check_installation_parts t now (split b'.' token)

  -- `Renew`, which reads the clock twice.
  unfoldable pub renew_installation :
      InstallationTokens → Time → Time → String → Result (InstallationClaims × String)
  renew_installation t now later token = do
    claims ← verify_installation t now token
    ok (issue_installation t later claims.installation_id)
