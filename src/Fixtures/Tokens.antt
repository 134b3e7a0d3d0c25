-- ===== src/Fixtures/Tokens.antt =====
-- A decoder with one byte for each token: a bracket, a brace, a lower-case letter as a string of
-- its own, anything else as a number.
use linka_plays_metric.Prelude.{
  ℕ, ◌≡◌, ◌<◌, ◌≤◌, [], ◌∷◌, Bool, true, false, eqb, ◌||◌, not, Bytes, length, ok, arith,
}
use linka_plays_metric.ContractV1.{Reader}
use linka_plays_metric.JsonStrict.{
  Token, delimiter, text, scalar, Reading, next, end_of_input, IsTokenReader, Source,
}

abbrev is_closing : ℕ → Bool
is_closing c = eqb c b'}' || eqb c b']'

abbrev token_of : ℕ → Token
token_of c = elim (is_closing c || eqb c b'{' || eqb c b'[') [
  | true ↦ delimiter c
  | false ↦ elim (eqb c b'a') [
    | true ↦ text "a"
    | false ↦ elim (eqb c b'b') [ true ↦ text "b" | false ↦ scalar ]
  ]
]

abbrev byte_token : Bytes → Reading × Bytes
byte_token [] = (end_of_input, [])
byte_token (c ∷ cs) = (next (token_of c), cs)

abbrev has_more : Bytes → Bool
has_more [] = false
has_more (c ∷ cs) = not (is_closing c)

abbrev pub byte_source : Source Bytes
byte_source = record {
  trim_space = λ bytes. bytes;
  decoder = record { token = byte_token; more = has_more; remaining = length };
  open_text = λ bytes. bytes;
}

shrinks : (s s1 : Bytes) (t : Token) → byte_token s ≡ (next t, s1) → length s1 < length s
unfolding length
shrinks [] s1 t h = cc
shrinks (c ∷ cs) s1 t h = ground arith

never_grows : (s : Bytes) → length (byte_token s).1 ≤ length s
unfolding length
never_grows [] = omega arith
never_grows (c ∷ cs) = omega arith

pub byte_source-IsTokenReader : IsTokenReader byte_source.decoder
byte_source-IsTokenReader = record { shrinks = shrinks; never_grows = never_grows }

-- The typed decoding into the number of bytes.
abbrev pub byte_reader : Reader ℕ
byte_reader bytes = ok (length bytes, true)
