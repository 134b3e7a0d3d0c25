-- ===== src/JsonStrict/Validation.antt =====
-- internal/jsonstrict/decode.go. The recursion of `validateValue` and its loops run on fuel, which
-- `decode_object` takes from the length of the text. The numbers and characters that the source
-- prints into a message are left out.
use linka_plays_metric.Prelude.{
  String, ℕ, suc, zero, ◌*◌, Option, none, some, List, [], ◌∷◌, true, false, ltb, eqb, one_of,
  Bytes, Result, ok, err, message, wrapped,
}
use linka_plays_metric.ContractV1.{Reader, is_object, read_all}
use linka_plays_metric.JsonStrict.Tokens.{
  Token, delimiter, text, Reading, next, end_of_input, failed, TokenReader, Source,
}

-- What a run on fuel comes to.
pub data Scan (S A : Type 0) : Type 0 where
  out_of_fuel : Scan S A
  done : Result A → S → Scan S A

infixl 5 ◌>>=◌
abbrev pub ◌>>=◌ : {S A B : Type 0} → Scan S A → (A → S → Scan S B) → Scan S B
out_of_fuel >>= rest = out_of_fuel
done (err e) s >>= rest = done (err e) s
done (ok a) s >>= rest = rest a s

-- `if err != nil { return fmt.Errorf("m: %w", err) }` behind `Token()`.
abbrev pub read_as : {S : Type 0} → String → Reading × S → Scan S Token
read_as m (next t, s) = done (ok t) s
read_as m (end_of_input, s) = done (err (wrapped m (message "EOF"))) s
read_as m (failed e, s) = done (err (wrapped m e)) s

abbrev pub expect_token : {S : Type 0} → ℕ → Token → S → Scan S (Unit {0})
expect_token expected (delimiter c) s = elim (eqb c expected) [
  | true ↦ done (ok tt) s
  | false ↦ done (err (message "expected JSON delimiter")) s
]
expect_token expected _ s = done (err (message "expected JSON delimiter")) s

-- `keyToken.(string)` and the look into `keys`.
abbrev pub new_key : {S : Type 0} → List String → Token → S → Scan S String
new_key keys (text key) s = elim (one_of key keys) [
  | true ↦ done (err (message "duplicate JSON key")) s
  | false ↦ done (ok key) s
]
new_key keys _ s = done (err (message "object key is not a string")) s

-- `_, err := decoder.Token()` at the end of the text.
abbrev pub expect_end : {S : Type 0} → Reading × S → Scan S (Unit {0})
expect_end (end_of_input, s) = done (ok tt) s
expect_end (next t, s) = done (err (message "unexpected data after JSON value")) s
expect_end (failed e, s) = done (err (wrapped "invalid trailing JSON" e)) s

module _ {S : Type 0} (d : TokenReader S) (max_depth : ℕ) where
  open d use {token, more, remaining}

  unfoldable pub expect_delimiter : ℕ → S → Scan S (Unit {0})
  expect_delimiter expected s = read_as "invalid JSON container" (token s) >>= expect_token expected

  unfoldable mutual
    pub validate_value : ℕ → ℕ → S → Scan S (Unit {0})
    validate_value zero depth s = out_of_fuel
    validate_value (suc fuel) depth s = elim (ltb max_depth depth) [
      | true ↦ done (err (message "JSON nesting exceeds maximum depth")) s
      | false ↦ read_as "invalid JSON" (token s) >>= validate_token fuel depth
    ]

    pub validate_token : ℕ → ℕ → Token → S → Scan S (Unit {0})
    validate_token zero depth t s = out_of_fuel
    validate_token (suc fuel) depth (delimiter c) s = elim (eqb c b'{') [
      | true ↦ validate_members fuel depth [] s >>= λ _. expect_delimiter b'}'
      | false ↦ elim (eqb c b'[') [
        | true ↦ validate_elements fuel depth s >>= λ _. expect_delimiter b']'
        | false ↦ done (err (message "unexpected JSON delimiter")) s
      ]
    ]
    validate_token (suc fuel) depth _ s = done (ok tt) s

    -- The loop over an object, with the keys so far.
    pub validate_members : ℕ → ℕ → List String → S → Scan S (Unit {0})
    validate_members zero depth keys s = out_of_fuel
    validate_members (suc fuel) depth keys s = elim (more s) [
      | false ↦ done (ok tt) s
      | true ↦ read_as "invalid object key" (token s) >>= new_key keys >>= λ key s1.
          validate_value fuel (suc depth) s1 >>= λ _. validate_members fuel depth (key ∷ keys)
    ]

    -- The loop over an array.
    pub validate_elements : ℕ → ℕ → S → Scan S (Unit {0})
    validate_elements zero depth s = out_of_fuel
    validate_elements (suc fuel) depth s = elim (more s) [
      | false ↦ done (ok tt) s
      | true ↦ validate_value fuel (suc depth) s >>= λ _. validate_elements fuel depth
    ]

  unfoldable pub validate : S → Scan S (Unit {0})
  validate s = validate_value (suc (3 * remaining s)) 1 s >>= λ _ s1. expect_end (token s1)

-- The end of `DecodeObject`: the typed decoding, behind the scan.
abbrev pub decode_scanned : {S A : Type 0} → Scan S (Unit {0}) → Result A → Option (Result A)
decode_scanned out_of_fuel decoded = none
decode_scanned (done (err e) s) decoded = some (err e)
decode_scanned (done (ok _) s) decoded = some decoded

unfoldable pub decode_object : {S A : Type 0} → Source S → Reader A → ℕ → Bytes → Option (Result A)
decode_object source read max_depth bytes = elim (is_object (source.trim_space bytes)) [
  | false ↦ some (err (message "expected JSON object"))
  | true ↦ elim (ltb max_depth 1) [
    | true ↦ some (err (message "max depth must be positive"))
    | false ↦
        decode_scanned
          (validate source.decoder max_depth (source.open_text (source.trim_space bytes)))
          (read_all (read (source.trim_space bytes)))
  ]
]
