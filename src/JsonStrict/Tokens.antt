-- ===== src/JsonStrict/Tokens.antt =====
-- The parts of encoding/json that internal/jsonstrict uses, as a parameter: a decoder is a state
-- from which tokens are taken.
use linka_plays_metric.Prelude.{String, ℕ, ◌≤◌, ◌<◌, ◌≡◌, Bool, Bytes, Error}

-- A `json.Delim`, a string, or a `json.Number`, a Boolean or null.
pub data Token : Type 0 where
  delimiter : ℕ → Token
  text : String → Token
  scalar : Token

-- What `Token()` returns: a token, io.EOF, or another error.
pub data Reading : Type 0 where
  next : Token → Reading
  end_of_input : Reading
  failed : Error → Reading

-- `Token`, `More`, and the bytes that are not read yet.
pub record TokenReader (S : Type 0) : Type 0 where
  pub token : S → Reading × S
  pub more : S → Bool
  pub remaining : S → ℕ

-- A token has at least one byte, and no call gives bytes back.
pub record IsTokenReader {S : Type 0} (d : TokenReader S) : Type 0 where
  pub shrinks : (s s1 : S) (t : Token) → d.token s ≡ (next t, s1) → d.remaining s1 < d.remaining s
  pub never_grows : (s : S) → d.remaining (d.token s).1 ≤ d.remaining s

-- `bytes.TrimSpace`, and a decoder with `UseNumber` on a text.
pub record Source (S : Type 0) : Type 0 where
  pub trim_space : Bytes → Bytes
  pub decoder : TokenReader S
  pub open_text : Bytes → S
