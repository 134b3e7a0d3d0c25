-- ===== src/Auth/Codecs.antt =====
-- The functions of crypto/hmac, crypto/sha256, encoding/hex, encoding/base64, strconv and strings
-- that internal/auth calls, as a parameter, and what it relies on of them. An int64 is its word, a
-- number below 2 ^ 64.
use linka_plays_metric.Prelude.{
  String, ℕ, ◌^◌, ◌<◌, ◌≡◌, refl, Option, some, [], ◌∷◌, Bool, true, false, ◌&&◌, eqb, Bytes, All,
  Lacks, arith,
}

pub record Codec : Type 0 where
  -- `hmac.New(sha256.New, secret)` over a text
  pub hmac : Bytes → String → Bytes
  pub sha256 : Bytes → Bytes
  pub hex : Bytes → String
  pub unhex : String → Option Bytes
  -- base64.RawURLEncoding
  pub base64 : Bytes → String
  pub unbase64 : String → Option Bytes
  -- strconv.FormatInt and strconv.ParseInt, in base 10
  pub format_int : ℕ → String
  pub parse_int : String → Option ℕ
  pub to_upper : String → String

abbrev pub AreBytes : Bytes → Type 0
AreBytes bytes = All (λ b. b < 256) bytes

-- What is documented of them: a decoder inverts its encoder on bytes, a digest is bytes, and an
-- encoding has no dot in it.
pub record IsCodec (c : Codec) : Type 0 where
  pub hmac_bytes : (secret : Bytes) (text : String) → AreBytes (c.hmac secret text)
  pub sha256_bytes : (bytes : Bytes) → AreBytes (c.sha256 bytes)
  pub unhex-hex : (bytes : Bytes) → AreBytes bytes → c.unhex (c.hex bytes) ≡ some bytes
  pub hex_undotted : (bytes : Bytes) → Lacks b'.' (c.hex bytes)
  pub unbase64-base64 : (bytes : Bytes) → AreBytes bytes → c.unbase64 (c.base64 bytes) ≡ some bytes
  pub base64_undotted : (bytes : Bytes) → Lacks b'.' (c.base64 bytes)
  pub parse_int-format_int : (w : ℕ) → w < 2 ^ 64 → c.parse_int (c.format_int w) ≡ some w
  pub format_int_undotted : (w : ℕ) → Lacks b'.' (c.format_int w)

-- `hmac.Equal`
unfoldable pub equal : Bytes → Bytes → Bool
equal [] [] = true
equal [] (b ∷ bs) = false
equal (a ∷ bytes) [] = false
equal (a ∷ bytes) (b ∷ bs) = eqb a b && equal bytes bs

pub equal_refl : (bytes : Bytes) → equal bytes bytes ≡ true
unfolding equal
equal_refl [] = refl
equal_refl (a ∷ bytes) = ground (arith, equal_refl bytes)

pub equal_sound : (a b : Bytes) → equal a b ≡ true → a ≡ b
unfolding equal
equal_sound [] [] h = refl
equal_sound [] (b ∷ bs) h = cc
equal_sound (a ∷ bytes) [] h = cc
equal_sound (a ∷ bytes) (b ∷ bs) h = ground (arith, equal_sound bytes bs)
