-- ===== src/Auth/Services.antt =====
-- internal/auth/service.go: requests that one service signs for another. The clock that a signer or
-- a verifier holds is an argument of the call, and a copy of a key is the key. A duration of a
-- configuration is a natural number.
use Prim.Native.String.{len}
use linka_plays_metric.Prelude.{
  String, ℕ, Option, none, some, List, [], ◌∷◌, Bool, false, not, ◌&&◌, ◌||◌, ◌==◌, ltb, leb, eqb,
  if◌then◌else◌, Time, Bytes, Result, ok, err, message, guard, wrap, ◌>>=◌, ◌>>◌, codes, all,
  length, is_lower, is_digit, join,
}
use linka_plays_metric.Auth.Codecs.{Codec, equal}
use linka_plays_metric.Auth.Clock.{unix, from_unix, is_skewed}

abbrev pub service_signature_version : String
service_signature_version = "v2"

-- `[a-z0-9-]`
abbrev pub is_name_code : ℕ → Bool
is_name_code c = is_lower c || is_digit c || eqb c b'-'

abbrev pub name_codes : List ℕ → Bool
name_codes [] = false
name_codes (c ∷ cs) = is_lower c && all is_name_code cs && leb (length cs) 31

-- `^[a-z][a-z0-9-]{0,31}$`
unfoldable pub service_name_pattern : String → Bool
service_name_pattern name = name_codes (codes name)

pub record ServiceKey : Type 0 where
  pub id : String
  pub secret : Bytes

pub record ServiceSigner : Type 0 where
  pub key : ServiceKey
  pub caller : String

pub record ServiceVerifier : Type 0 where
  pub active : ServiceKey
  pub previous : Option ServiceKey
  pub allowed_caller : String
  pub max_skew : ℕ

pub record ServiceHeaders : Type 0 where
  pub version : String
  pub key_id : String
  pub caller : String
  pub request_id : String
  pub timestamp : String
  pub body_sha : String
  pub signature : String

unfoldable pub validate_service_key : ServiceKey → Result (Unit {0})
validate_service_key key = do
  guard (service_name_pattern key.id) (message "invalid service key ID")
  guard (not (ltb (length key.secret) 32)) (message "service secret must contain at least 32 bytes")

-- The checks of a keyring: the active key, and a previous key under another name.
unfoldable pub validate_keyring :
    String → String → String → ServiceKey → Option ServiceKey → Result (Unit {0})
validate_keyring active_name previous_name differ active none =
    wrap active_name (validate_service_key active)
validate_keyring active_name previous_name differ active (some previous) = do
  wrap active_name (validate_service_key active)
  wrap previous_name (validate_service_key previous)
  guard (not (previous.id == active.id)) (message differ)

unfoldable pub new_service_signer : ServiceKey → String → Result ServiceSigner
new_service_signer key caller = do
  validate_service_key key
  guard (service_name_pattern caller) (message "invalid service caller")
  ok (record { key = key; caller = caller })

unfoldable pub new_service_verifier :
    ServiceKey → Option ServiceKey → String → ℕ → Result ServiceVerifier
new_service_verifier active previous allowed_caller max_skew = do
  validate_keyring "active service key" "previous service key"
      "active and previous service key IDs must differ" active previous
  guard (not (not (service_name_pattern allowed_caller) || eqb max_skew 0))
      (message "invalid service verifier configuration")
  ok (record {
    active = active;
    previous = previous;
    allowed_caller = allowed_caller;
    max_skew = max_skew;
  })

-- The method `key` of a verifier, and of the product tokens.
unfoldable pub find_key : ServiceKey → Option ServiceKey → String → Option ServiceKey
find_key active none id = if id == active.id then some active else none
find_key active (some previous) id =
    if id == active.id then some active else if id == previous.id then some previous else none

-- `strings.ContainsAny(text, "\r\n")`
abbrev pub has_line_break : String → Bool
has_line_break text = not (all (λ c. not (eqb c 13 || eqb c 10)) (codes text))

-- `requestID == "" || len(requestID) > 128 || strings.ContainsAny(requestID, "\r\n")`
abbrev pub is_bad_request_id : String → Bool
is_bad_request_id id = id == "" || ltb 128 (len id) || has_line_break id

module _ (c : Codec) where
  unfoldable pub service_mac : Bytes → String → String → ServiceHeaders → Bytes
  service_mac secret method path headers = c.hmac secret (
      join "\n" (
        "LINKA-HMAC-V2"
        ∷ headers.version
        ∷ c.to_upper method
        ∷ path
        ∷ headers.caller
        ∷ headers.key_id
        ∷ headers.request_id
        ∷ headers.timestamp
        ∷ headers.body_sha
        ∷ []))

  -- The headers before the signature is set.
  abbrev pub unsigned_headers : ServiceSigner → Time → String → Bytes → ServiceHeaders
  unsigned_headers s now request_id body = record {
    version = service_signature_version;
    key_id = s.key.id;
    caller = s.caller;
    request_id = request_id;
    timestamp = c.format_int (unix now);
    body_sha = c.hex (c.sha256 body);
    signature = "";
  }

  unfoldable pub sign :
      ServiceSigner → Time → String → String → String → Bytes → Result ServiceHeaders
  sign s now method path request_id body = do
    guard (not (method == "" || path == "" || is_bad_request_id request_id))
        (message "invalid service request metadata")
    (let headers = unsigned_headers s now request_id body in
        ok (record headers { signature = c.base64 (service_mac s.key.secret method path headers) }))

  abbrev pub found_key : Option ServiceKey → Result ServiceKey
  found_key none = err (message "unknown service key ID")
  found_key (some key) = ok key

  abbrev pub parsed_timestamp : Option ℕ → Result ℕ
  parsed_timestamp none = err (message "invalid service timestamp")
  parsed_timestamp (some w) = ok w

  -- `err == nil && hmac.Equal(provided, expected)`
  abbrev pub decodes_to : Option Bytes → Bytes → Bool
  decodes_to none expected = false
  decodes_to (some provided) expected = equal provided expected

  unfoldable pub verify :
      ServiceVerifier → Time → String → String → Bytes → ServiceHeaders → Result (Unit {0})
  verify v now method path body headers = do
    guard
        (headers.version == service_signature_version
          && headers.caller == v.allowed_caller
          && not (is_bad_request_id headers.request_id))
        (message "invalid service signature metadata")
    key ← found_key (find_key v.active v.previous headers.key_id)
    timestamp ← parsed_timestamp (c.parse_int headers.timestamp)
    guard (not (is_skewed now (from_unix timestamp) v.max_skew))
        (message "service timestamp outside allowed skew")
    guard
        (headers.body_sha == c.hex (c.sha256 body)
          && decodes_to (c.unhex headers.body_sha) (c.sha256 body))
        (message "invalid service body digest")
    guard (decodes_to (c.unbase64 headers.signature) (service_mac key.secret method path headers))
        (message "invalid service signature")
