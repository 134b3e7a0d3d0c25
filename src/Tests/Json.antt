-- ===== src/Tests/Json.antt =====
-- internal/jsonstrict on texts with one byte for each token.
use linka_plays_metric.Prelude.{
  ℕ, ◌≡◌, refl, Option, some, [], ◌∷◌, true, Bytes, Result, ok, err, message, ltb,
}
use linka_plays_metric.ContractV1.{is_object, read_all}
use linka_plays_metric.JsonStrict.{
  end_of_input, decode_object, validate, validate_value, expect_delimiter,
}
use linka_plays_metric.JsonStrict.Laws.Ends.{decode_object-IsTotal}
use linka_plays_metric.JsonStrict.Laws.Values.{IsValue}
use linka_plays_metric.JsonStrict.Laws.Strict.{decode_object-IsStrict}
use linka_plays_metric.Fixtures.Tokens.{byte_source, byte_source-IsTokenReader, byte_reader}

-- A list of an empty object under one name, and a number under another.
abbrev nested : Bytes
nested = b'{' ∷ b'a' ∷ b'[' ∷ b'{' ∷ b'}' ∷ b']' ∷ b'b' ∷ b'1' ∷ b'}' ∷ []

nested_taken : decode_object byte_source byte_reader 3 nested ≡ some (ok 9)
unfolding decode_object validate validate_value linka_plays_metric.Prelude.one_of expect_delimiter
nested_taken = refl

too_deep :
    decode_object byte_source byte_reader 2 nested
    ≡ some (err (message "JSON nesting exceeds maximum depth"))
unfolding decode_object validate validate_value linka_plays_metric.Prelude.one_of
too_deep = refl

repeated_key :
    decode_object byte_source byte_reader 3 (b'{' ∷ b'a' ∷ b'1' ∷ b'a' ∷ b'1' ∷ b'}' ∷ [])
    ≡ some (err (message "duplicate JSON key"))
unfolding decode_object validate validate_value linka_plays_metric.Prelude.one_of
repeated_key = refl

decode_object-IsTotal_example :
    (r : Result ℕ) × (decode_object byte_source byte_reader 3 nested ≡ some r)
decode_object-IsTotal_example =
    decode_object-IsTotal byte_source byte_reader 3 nested byte_source-IsTokenReader

decode_object-IsStrict_example :
    (is_object nested ≡ true)
    × ((last closed : Bytes) × IsValue byte_source.decoder 3 nested last
        × (byte_source.decoder.token last ≡ (end_of_input, closed)))
    × (read_all (byte_reader nested) ≡ ok 9)
decode_object-IsStrict_example =
    decode_object-IsStrict byte_source byte_reader 3 nested 9 nested_taken
