-- ===== src/Auth/Products.antt =====
-- internal/auth/product.go: the tokens of products. The clock is an argument of the call, and a copy
-- of a key is the key.
use Prim.Native.String.{◌++◌, len}
use linka_plays_metric.Prelude.{
  String, ℕ, ◌+◌, ◌*◌, Option, none, some, List, [], ◌∷◌, Bool, true, false, not, ◌&&◌, ◌||◌, ◌==◌,
  ltb, eqb, is_some, Time, Bytes, Result, ok, err, message, guard, ◌>>=◌, ◌>>◌, length, join, split,
  minute, day,
}
use linka_plays_metric.Product.{lookup}
use linka_plays_metric.Auth.Codecs.{Codec}
use linka_plays_metric.Auth.Clock.{unix, from_unix, truncate_second}
use linka_plays_metric.Auth.Services.{ServiceKey, validate_keyring, find_key, decodes_to}

abbrev pub product_token_version : String
product_token_version = "v2"

pub record ProductClaims : Type 0 where
  pub product : String
  pub subject_key : String
  pub person_key : Option String
  pub org_key : Option String
  pub issued_at : Time
  pub expires_at : Time

pub record ProductTokens : Type 0 where
  pub active : ServiceKey
  pub previous : Option ServiceKey
  pub subject_secret : Bytes
  pub ttl : ℕ

unfoldable pub new_product_tokens_with_subject_secret :
    ServiceKey → Option ServiceKey → Bytes → ℕ → Result ProductTokens
new_product_tokens_with_subject_secret active previous subject_secret ttl = do
  validate_keyring "active product token key" "previous product token key"
      "active and previous product token key IDs must differ" active previous
  guard (not (eqb ttl 0 || ltb (365 * day) ttl))
      (message "product token TTL must be between zero and one year")
  guard (not (ltb (length subject_secret) 32))
      (message "subject HMAC secret must contain at least 32 bytes")
  ok (record { active = active; previous = previous; subject_secret = subject_secret; ttl = ttl })

unfoldable pub new_product_tokens : ServiceKey → Option ServiceKey → ℕ → Result ProductTokens
unfolding new_product_tokens_with_subject_secret
new_product_tokens active previous ttl =
    new_product_tokens_with_subject_secret active previous active.secret ttl

-- `if err != nil { return errors.New(what) }`
abbrev pub or_message : {A : Type 0} → String → Result A → Result A
or_message what (err e) = err (message what)
or_message what (ok a) = ok a

unfoldable pub encode_optional_opaque : Option String → String
encode_optional_opaque none = "-"
encode_optional_opaque (some value) = value

module _ (c : Codec) where
  -- `err == nil && hex.EncodeToString(decoded) == value`
  abbrev pub encodes_back : String → Option Bytes → Bool
  encodes_back value none = false
  encodes_back value (some decoded) = c.hex decoded == value

  unfoldable pub opaque_key : String → Bool
  opaque_key value = eqb (len value) 64 && encodes_back value (c.unhex value)

  abbrev pub opaque_or_missing : Option String → Bool
  opaque_or_missing none = true
  opaque_or_missing (some value) = opaque_key value

  unfoldable pub decode_optional_opaque : String → Result (Option String)
  decode_optional_opaque value = elim (value == "-") [
    | true ↦ ok none
    | false ↦ guard (opaque_key value) (message "invalid opaque key") >> ok (some value)
  ]

  unfoldable pub sign_product_token : Bytes → String → Bytes
  sign_product_token secret unsigned = c.hmac secret ("linka-product-token-v2\n" ++ unsigned)

  -- The claims with the times that `issue` sets, and the first eight parts of their token.
  abbrev pub stamped : ProductTokens → Time → ProductClaims → ProductClaims
  stamped t now claims = record claims {
    issued_at = truncate_second now;
    expires_at = truncate_second now + t.ttl;
  }

  abbrev pub token_parts : ProductTokens → ProductClaims → List String
  token_parts t claims =
      product_token_version
      ∷ t.active.id
      ∷ claims.product
      ∷ claims.subject_key
      ∷ encode_optional_opaque claims.person_key
      ∷ encode_optional_opaque claims.org_key
      ∷ c.format_int (unix claims.issued_at)
      ∷ c.format_int (unix claims.expires_at)
      ∷ []

  unfoldable pub issue_product :
      ProductTokens → Time → ProductClaims → Result (ProductClaims × String)
  issue_product t now claims = do
    guard (is_some (lookup claims.product) && opaque_key claims.subject_key)
        (message "invalid product token scope")
    guard (opaque_or_missing claims.person_key && opaque_or_missing claims.org_key)
        (message "identity scope keys must be opaque lowercase SHA-256 values")
    (let unsigned = join "." (token_parts t (stamped t now claims)) in
        ok (
          stamped t now claims,
          unsigned ++ "." ++ c.base64 (sign_product_token t.active.secret unsigned),
        ))

  unfoldable pub issue_anonymous :
      ProductTokens → Time → String → String → Result (ProductClaims × String)
  issue_anonymous t now product installation_id = do
    guard (is_some (lookup product)) (message "unknown product")
    issue_product t now (record {
      product = product;
      subject_key = c.hex (
          c.hmac t.subject_secret
            ("linka-product-subject-v2\n" ++ product ++ "\n" ++ installation_id));
      person_key = none;
      org_key = none;
      issued_at = 0;
      expires_at = 0;
    })

  abbrev pub invalid_product : {A : Type 0} → Option A → Result A
  invalid_product none = err (message "invalid product token")
  invalid_product (some a) = ok a

  abbrev pub check_product_parts : ProductTokens → Time → List String → Result ProductClaims
  check_product_parts t now
        (version ∷ key_id ∷ product ∷ subject ∷ person ∷ org ∷ issued ∷ expires ∷ signature ∷ []) =
      do
        guard (version == product_token_version) (message "invalid product token")
        key ← invalid_product (find_key t.active t.previous key_id)
        guard
            (decodes_to c (c.unbase64 signature) (
              sign_product_token key.secret (
                join "."
                  (version ∷ key_id ∷ product ∷ subject ∷ person ∷ org ∷ issued ∷ expires ∷ []))))
            (message "invalid product token")
        guard (is_some (lookup product) && opaque_key subject) (message "invalid product token")
        person_key ← or_message "invalid product token" (decode_optional_opaque person)
        org_key ← or_message "invalid product token" (decode_optional_opaque org)
        issued_at ← invalid_product (c.parse_int issued)
        expires_at ← invalid_product (c.parse_int expires)
        guard
            (not (
              ltb (now + 5 * minute) (from_unix issued_at)
              || not (ltb now (from_unix expires_at))
              || not (ltb (from_unix issued_at) (from_unix expires_at))))
            (message "invalid product token")
        ok (record {
          product = product;
          subject_key = subject;
          person_key = person_key;
          org_key = org_key;
          issued_at = from_unix issued_at;
          expires_at = from_unix expires_at;
        })
  check_product_parts t now _ = err (message "invalid product token")

  unfoldable pub verify_product : ProductTokens → Time → String → Result ProductClaims
  verify_product t now token = check_product_parts t now (split b'.' token)
