-- ===== src/Auth/KeySets.antt =====
-- internal/auth/identity_jwt.go: the cache of the identity service's public keys. The HTTP exchange
-- is the argument `Exchange` of a call, the three readings of the clock are arguments too; the mutex
-- makes one call one step on the cache.
use linka_plays_metric.Prelude.{
  String, ℕ, ◌-◌, ◌*◌, Option, none, some, List, [], ◌∷◌, Bool, true, false, not, ◌&&◌, ◌||◌, ◌==◌,
  ltb, eqb, if◌then◌else◌, is_some, Time, Bytes, Result, Error, ok, err, message, lookup, length,
  minute, hour,
}
use linka_plays_metric.Auth.Codecs.{Codec}
use linka_plays_metric.Auth.Identities.{KeySet}

pub record HttpJwks : Type 0 where
  pub keys : KeySet
  pub fetched_at : Time

abbrev pub cache_ttl : ℕ
cache_ttl = 5 * minute

abbrev pub max_stale : ℕ
max_stale = hour

pub record JwksKey : Type 0 where
  pub key_type : String
  pub curve : String
  pub usage : String
  pub algorithm : String
  pub key_id : String
  pub x : String
  pub state : String

-- How the request for the document ends: an error before there is a response, or a response with
-- its status and its document, if that could be decoded.
pub data Exchange : Type 0 where
  no_response : Error → Exchange
  response : (status : ℕ) → Option (List JwksKey) → Exchange

module _ (c : Codec) where
  abbrev has_key_size : Option Bytes → Bool
  has_key_size none = false
  has_key_size (some decoded) = eqb (length decoded) 32

  unfoldable pub is_jwks_key : JwksKey → Bool
  is_jwks_key key =
      has_key_size (c.unbase64 key.x)
      && key.key_type == "OKP"
      && key.curve == "Ed25519"
      && key.usage == "sig"
      && key.algorithm == "EdDSA"
      && not (key.key_id == "")
      && (key.state == "active" || key.state == "retiring")

  abbrev key_bytes : Option Bytes → Bytes
  key_bytes none = []
  key_bytes (some decoded) = decoded

  -- The loop over `document.Keys`, with the map of the keys so far.
  unfoldable pub collect_keys : List JwksKey → KeySet → Result KeySet
  collect_keys [] keys = ok keys
  collect_keys (key ∷ rest) keys = elim (is_jwks_key key) [
    | false ↦ err (message "invalid Identity JWKS key")
    | true ↦ elim (is_some (lookup key.key_id keys)) [
      | true ↦ err (message "duplicate Identity JWKS key ID")
      | false ↦ collect_keys rest ((key.key_id, key_bytes (c.unbase64 key.x)) ∷ keys)
    ]
  ]

  -- From the response to the new keys.
  abbrev pub read_exchange : Exchange → Result KeySet
  read_exchange (no_response e) = err e
  read_exchange (response status none) =
      if eqb status 200
      then err (message "invalid Identity JWKS")
      else err (message "JWKS returned another HTTP status")
  read_exchange (response status (some [])) =
      if eqb status 200
      then err (message "invalid Identity JWKS")
      else err (message "JWKS returned another HTTP status")
  read_exchange (response status (some (key ∷ keys))) =
      let collected = collect_keys (key ∷ keys) [] in
      if eqb status 200 then collected else err (message "JWKS returned another HTTP status")

  -- `len(s.keys) > 0 && time.Since(s.fetchedAt) < limit`
  abbrev pub is_younger : HttpJwks → Time → ℕ → Bool
  is_younger s now limit = ltb 0 (length s.keys) && ltb (now - s.fetched_at) limit

  -- The closure `fallback`, or the end of a call that has the new keys.
  abbrev pub settle : HttpJwks → Bool → Time → Time → Result KeySet → Result KeySet × HttpJwks
  settle s force later last (err e) =
      (if not force && is_younger s later max_stale then ok s.keys else err e, s)
  settle s force later last (ok keys) = (ok keys, record { keys = keys; fetched_at = last })

  unfoldable pub get_keys :
      HttpJwks → Bool → Time → Time → Time → Exchange → Result KeySet × HttpJwks
  get_keys s force now later last exchange =
      let fetched = settle s force later last (read_exchange exchange) in
      if not force && is_younger s now cache_ttl then (ok s.keys, s) else fetched
