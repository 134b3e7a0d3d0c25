-- ===== src/Fixtures/Codes.antt =====
-- A small codec: bytes in unary, and digests that do not depend on their input.
use Prim.Native.String.{String}
use Prim.Native.Char.{code}
use linka_plays_metric.Prelude.{
  ℕ, zero, suc, ◌+◌, ◌*◌, ◌≡◌, refl, ap, ◌∙◌, Option, none, some, [], ◌∷◌, true, false, eqb, arith,
  Bytes, Lacks, unix_epoch, Time, second,
}
use linka_plays_metric.Auth.{Codec, IsCodec}

abbrev pub unary : ℕ → String → String
unary zero rest = String.◌∷◌ "b" rest
unary (suc n) rest = String.◌∷◌ "a" (unary n rest)

abbrev pub encode : Bytes → String
encode [] = ""
encode (n ∷ bytes) = unary n (encode bytes)

abbrev and_then : ℕ → Option Bytes → Option Bytes
and_then n none = none
and_then n (some bytes) = some (n ∷ bytes)

abbrev ended : ℕ → Option Bytes
ended zero = some []
ended (suc n) = none

abbrev pub decode_from : ℕ → String → Option Bytes
decode_from n String.[] = ended n
decode_from n (String.◌∷◌ c s) = elim (eqb (code c) b'b') [
  | true ↦ and_then n (decode_from 0 s)
  | false ↦ decode_from (suc n) s
]

decode_from-unary :
    (k n : ℕ) (s : String) → decode_from k (unary n s) ≡ and_then (k + n) (decode_from 0 s)
decode_from-unary k zero s = ap (λ n. and_then n (decode_from 0 s)) (omega arith)
decode_from-unary k (suc n) s =
    decode_from-unary (suc k) n s ∙ ap (λ m. and_then m (decode_from 0 s)) (omega arith)

decode-encode : (bytes : Bytes) → decode_from 0 (encode bytes) ≡ some bytes
decode-encode [] = refl
decode-encode (n ∷ bytes) =
    decode_from-unary 0 n (encode bytes)
    ∙ ap (λ o. and_then (0 + n) o) (decode-encode bytes)
    ∙ ap (λ m. some (m ∷ bytes)) (omega arith)

unary-Lacks : (n : ℕ) (rest : String) → Lacks b'.' rest → Lacks b'.' (unary n rest)
unary-Lacks zero rest h = ground arith
unary-Lacks (suc n) rest h = ground (arith, unary-Lacks n rest h)

encode-Lacks : (bytes : Bytes) → Lacks b'.' (encode bytes)
encode-Lacks [] = refl
encode-Lacks (n ∷ bytes) = unary-Lacks n (encode bytes) (encode-Lacks bytes)

abbrev first_of : Option Bytes → Option ℕ
first_of (some (n ∷ [])) = some n
first_of _ = none

abbrev pub codec : Codec
codec = record {
  hmac = λ secret text. 3 ∷ [];
  sha256 = λ bytes. 1 ∷ [];
  hex = encode;
  unhex = λ text. decode_from 0 text;
  base64 = encode;
  unbase64 = λ text. decode_from 0 text;
  format_int = λ w. encode (w ∷ []);
  parse_int = λ text. first_of (decode_from 0 text);
  to_upper = λ text. text;
}

pub codec-IsCodec : IsCodec codec
codec-IsCodec = record {
  hmac_bytes = λ secret text. (omega arith, tt);
  sha256_bytes = λ bytes. (omega arith, tt);
  unhex-hex = λ bytes h. decode-encode bytes;
  hex_undotted = encode-Lacks;
  unbase64-base64 = λ bytes h. decode-encode bytes;
  base64_undotted = encode-Lacks;
  parse_int-format_int = λ w h. ap first_of (decode-encode (w ∷ []));
  format_int_undotted = λ w. encode-Lacks (w ∷ []);
}

-- The first second of 1970.
abbrev pub epoch : Time
epoch = unix_epoch * second
