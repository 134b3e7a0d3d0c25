-- ===== src/JsonStrict/Laws/Values.antt =====
-- internal/jsonstrict/decode.go: the texts that it is meant to let through, as a relation on the
-- states of the token reader.
use linka_plays_metric.Prelude.{String, ℕ, suc, ◌≡◌, List, [], ◌∷◌, Memᴰ}
use linka_plays_metric.JsonStrict.Tokens.{Token, delimiter, text, scalar, next, TokenReader}

module _ {S : Type 0} (d : TokenReader S) where
  open d use {token}

  abbrev pub IsPlain : Token → Type 0
  IsPlain (delimiter c) = ⊥
  IsPlain (text x) = Unit
  IsPlain scalar = Unit

  mutual
    -- From one state to another the decoder reads a value that is nested at most so deep, and whose
    -- objects have distinct keys.
    pub data IsValue : ℕ → S → S → Type 0 where
      plain :
          {n : ℕ} {s s1 : S} (t : Token) → token s ≡ (next t, s1) → IsPlain t → IsValue (suc n) s s1
      object :
          {n : ℕ} {s s1 s2 s3 : S} {names : List String}
          → token s ≡ (next (delimiter b'{'), s1)
          → AreMembers n names s1 s2
          → token s2 ≡ (next (delimiter b'}'), s3)
          → IsValue (suc n) s s3
      array :
          {n : ℕ} {s s1 s2 s3 : S}
          → token s ≡ (next (delimiter b'['), s1)
          → AreElements n s1 s2
          → token s2 ≡ (next (delimiter b']'), s3)
          → IsValue (suc n) s s3

    -- Members with just these names.
    pub data AreMembers : ℕ → List String → S → S → Type 0 where
      no_member : {n : ℕ} {s : S} → AreMembers n [] s s
      member :
          {n : ℕ} {s s1 s2 s3 : S} {name : String} {names : List String}
          → token s ≡ (next (text name), s1)
          → ¬ Memᴰ name names
          → IsValue n s1 s2
          → AreMembers n names s2 s3
          → AreMembers n (name ∷ names) s s3

    pub data AreElements : ℕ → S → S → Type 0 where
      no_element : {n : ℕ} {s : S} → AreElements n s s
      element : {n : ℕ} {s s1 s2 : S} → IsValue n s s1 → AreElements n s1 s2 → AreElements n s s2
