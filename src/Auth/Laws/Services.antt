-- ===== src/Auth/Laws/Services.antt =====
-- internal/auth/service.go and writer.go: what a verifier accepts, and that it accepts what its
-- signer signs.
use linka_plays_metric.Prelude.{
  String, join, [], ◌∷◌, ℕ, ◌+◌, ◌-◌, ◌^◌, ◌≤◌, ◌<◌, ◌≡◌, ap, Option, none, some, Bool, true, false,
  not, ◌&&◌, ◌||◌, ◌==◌, eq_iff, eq_refl, arith, Time, Bytes, Error, ok, message, guard, &&_split,
  >>=-eq-ok, guard-eq-ok,
}
use linka_plays_metric.Auth.Codecs.{Codec, IsCodec, equal_refl, equal_sound}
use linka_plays_metric.Auth.Clock.{
  IsInstant, unix, from_unix, truncate_second, unix_word, from_unix-unix, unix-from_unix, is_skewed,
  is_skewed_close, is_skewed_sound,
}
use linka_plays_metric.Auth.Services.{
  ServiceSigner, ServiceVerifier, ServiceKey, ServiceHeaders, find_key, is_bad_request_id,
  service_mac, unsigned_headers, decodes_to, sign, verify, service_signature_version, found_key,
  parsed_timestamp,
}
use linka_plays_metric.Auth.Writers.{sign_writer_request, verify_writer_request}

third : (a b d : Bool) → not (a || b || d) ≡ true → d ≡ false
third a b d h = ground arith

texts_equal :
    (a b d e : String) (rest : Bool) → (a == b && d == e && rest) ≡ true → (a ≡ b) × (d ≡ e)
texts_equal a b d e rest h = ground (arith, eq_iff a b, eq_iff d e)

module _ (c : Codec) (laws : IsCodec c) where
  stamp_parsed : (t : Time) → c.parse_int (c.format_int (unix t)) ≡ some (unix t)
  stamp_parsed t = laws.parse_int-format_int (unix t) (unix_word t)

  mac_decoded :
      (secret : Bytes) (text : String)
      → c.unbase64 (c.base64 (c.hmac secret text)) ≡ some (c.hmac secret text)
  mac_decoded secret text = laws.unbase64-base64 _ (laws.hmac_bytes secret text)

  digest_decoded : (body : Bytes) → c.unhex (c.hex (c.sha256 body)) ≡ some (c.sha256 body)
  digest_decoded body = laws.unhex-hex _ (laws.sha256_bytes body)

  -- Given the laws of the library's functions, whatever a signer signs is accepted by a verifier
  -- that has the signer's key under its name, active or previous, and allows the caller, as long as
  -- the second of the signature is no further from the verifier's clock than the skew.
  pub verify-sign :
      (s : ServiceSigner) (v : ServiceVerifier) (now later : Time) (method path id : String)
      (body : Bytes) (headers : ServiceHeaders)
      → find_key v.active v.previous s.key.id ≡ some s.key
      → s.caller ≡ v.allowed_caller
      → IsInstant now
      → truncate_second now ≤ later + v.max_skew
      → later ≤ truncate_second now + v.max_skew
      → sign c s now method path id body ≡ ok headers
      → verify c v later method path body headers ≡ ok tt
  unfolding sign verify service_mac
  verify-sign s v now later method path id body headers key caller instant early late h =
      let (metadata, h1) =
        guard-eq-ok (not (method == "" || path == "" || is_bad_request_id id)) _ _ h in
      let unsigned = unsigned_headers c s now id body in
      let same : record unsigned {
        signature = c.base64 (service_mac c s.key.secret method path unsigned);
      }
          ≡ headers =
        cc h1 in
      let fine : is_bad_request_id id ≡ false = third (method == "") (path == "") _ metadata in
      let near : is_skewed later (from_unix (unix now)) v.max_skew ≡ false =
        rw (from_unix-unix now instant)
          (is_skewed_close later (truncate_second now) v.max_skew early late) in
      rw (← same) (
        rw
          (
            caller,
            eq_refl v.allowed_caller,
            fine,
            key,
            stamp_parsed now,
            near,
            digest_decoded body,
            eq_refl (c.hex (c.sha256 body)),
            equal_refl (c.sha256 body),
            mac_decoded,
          )
          (ap (λ b. guard b (message "invalid service signature")) (equal_refl _)))

  -- Whatever a service signs for the writer with the shared secret, the writer accepts, as long as
  -- the second of the signature is no further from its clock than the skew.
  pub verify_writer_request-sign :
      (secret body : Bytes) (now later : Time) (max_skew : ℕ)
      → IsInstant now
      → truncate_second now ≤ later + max_skew
      → later ≤ truncate_second now + max_skew
      → verify_writer_request c secret body later max_skew (sign_writer_request c secret body now)
        ≡ ok tt
  unfolding verify_writer_request sign_writer_request
  verify_writer_request-sign secret body now later max_skew instant early late =
      let near : is_skewed later (from_unix (unix now)) max_skew ≡ false =
        rw (from_unix-unix now instant)
          (is_skewed_close later (truncate_second now) max_skew early late) in
      rw
        (
          stamp_parsed now,
          near,
          digest_decoded body,
          equal_refl (c.sha256 body),
          unix-from_unix (unix now) (unix_word now),
          mac_decoded,
        )
        (ap (λ b. guard b (message "invalid writer signature")) (equal_refl _))

-- The key of an authentic request is known, the second of its signature is no further from the
-- verifier's clock than the skew, and the signature is the keyed hash of the lines that name the
-- method, the path, the caller, the key, the request, the second and the hash of the body.
pub record IsAuthentic (c : Codec) (v : ServiceVerifier) (now : Time) (method path : String)
    (body : Bytes) (headers : ServiceHeaders) : Type 0 where
  pub key : ServiceKey
  pub word : ℕ
  pub version : headers.version ≡ "v2"
  pub caller : headers.caller ≡ v.allowed_caller
  pub known_key : find_key v.active v.previous headers.key_id ≡ some key
  pub parsed : c.parse_int headers.timestamp ≡ some word
  pub not_late : from_unix word ≤ now + v.max_skew
  pub not_early : now ≤ from_unix word + v.max_skew
  pub digest : headers.body_sha ≡ c.hex (c.sha256 body)
  pub signature :
      c.unbase64 headers.signature
      ≡ some (
          c.hmac key.secret (
            join "\n" (
              "LINKA-HMAC-V2"
              ∷ "v2"
              ∷ c.to_upper method
              ∷ path
              ∷ v.allowed_caller
              ∷ headers.key_id
              ∷ headers.request_id
              ∷ headers.timestamp
              ∷ c.hex (c.sha256 body)
              ∷ [])))

module _ (c : Codec) where
  decodes_to_sound :
      (o : Option Bytes) (expected : Bytes) → decodes_to c o expected ≡ true → o ≡ some expected
  decodes_to_sound none expected h = cc
  decodes_to_sound (some provided) expected h = ap some (equal_sound provided expected h)

  found_key_sound :
      (o : Option ServiceKey) (key : ServiceKey) → found_key c o ≡ ok key → o ≡ some key
  found_key_sound none key h = cc
  found_key_sound (some k) key h = ground arith

  parsed_sound : (o : Option ℕ) (w : ℕ) → parsed_timestamp c o ≡ ok w → o ≡ some w
  parsed_sound none w h = cc
  parsed_sound (some u) w h = ground arith

  guarded : (test : Bool) (e : Error) → guard test e ≡ ok tt → test ≡ true
  guarded test e h = ground arith

  signed_lines :
      (v : ServiceVerifier) (headers : ServiceHeaders) (method path : String) (body : Bytes)
      (key : ServiceKey)
      → headers.version ≡ "v2"
      → headers.caller ≡ v.allowed_caller
      → headers.body_sha ≡ c.hex (c.sha256 body)
      → c.unbase64 headers.signature ≡ some (service_mac c key.secret method path headers)
      → c.unbase64 headers.signature
        ≡ some (
            c.hmac key.secret (
              join "\n" (
                "LINKA-HMAC-V2"
                ∷ "v2"
                ∷ c.to_upper method
                ∷ path
                ∷ v.allowed_caller
                ∷ headers.key_id
                ∷ headers.request_id
                ∷ headers.timestamp
                ∷ c.hex (c.sha256 body)
                ∷ [])))
  unfolding service_mac
  signed_lines v headers method path body key version caller digest h =
      rw (← version, ← caller, ← digest) h

  -- A request that is accepted, by a verifier whose skew is a Duration below the greatest, names the
  -- allowed caller and a key of the verifier, carries the hash of its body and, under that key, the
  -- keyed hash of the lines that name its method, path, caller, key, identifier, second and body, and
  -- has a time within the skew.
  pub verify-IsAuthentic :
      (v : ServiceVerifier) (now : Time) (method path : String) (body : Bytes)
      (headers : ServiceHeaders)
      → v.max_skew < 2 ^ 63 - 1
      → verify c v now method path body headers ≡ ok tt
      → IsAuthentic c v now method path body headers
  unfolding verify service_mac
  verify-IsAuthentic v now method path body headers small h =
      let (metadata, h1) =
        guard-eq-ok
          (headers.version == service_signature_version
            && headers.caller == v.allowed_caller
            && not (is_bad_request_id headers.request_id))
          _ _ h in
      let (key, found, h2) =
        >>=-eq-ok (found_key c (find_key v.active v.previous headers.key_id)) _ h1 in
      let (w, stamp, h3) = >>=-eq-ok (parsed_timestamp c (c.parse_int headers.timestamp)) _ h2 in
      let (near, h4) = guard-eq-ok (not (is_skewed now (from_unix w) v.max_skew)) _ _ h3 in
      let (digest, h5) =
        guard-eq-ok
          (headers.body_sha == c.hex (c.sha256 body)
            && decodes_to c (c.unhex headers.body_sha) (c.sha256 body))
          _ _ h4 in
      let (late, early) = is_skewed_sound now (from_unix w) v.max_skew small (ground arith) in
      let (version, caller) =
        texts_equal headers.version service_signature_version headers.caller v.allowed_caller
          (not (is_bad_request_id headers.request_id)) metadata in
      let body_sha =
        (eq_iff _ _).0
          (&&_split (headers.body_sha == c.hex (c.sha256 body))
            (decodes_to c (c.unhex headers.body_sha) (c.sha256 body)) digest).0 in
      record {
        key = key;
        word = w;
        version = version;
        caller = caller;
        known_key = found_key_sound _ key found;
        parsed = parsed_sound _ w stamp;
        not_late = late;
        not_early = early;
        digest = body_sha;
        signature =
            signed_lines v headers method path body key version caller body_sha
              (decodes_to_sound _ _ (guarded _ _ h5));
      }
