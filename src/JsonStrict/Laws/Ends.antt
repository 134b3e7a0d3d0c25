-- ===== src/JsonStrict/Laws/Ends.antt =====
-- internal/jsonstrict/decode.go: the scan of a text ends, whatever the text is.
use linka_plays_metric.Prelude.{
  String, ℕ, suc, zero, ◌+◌, ◌*◌, ◌≤◌, ◌<◌, ◌≡◌, refl, inl, inr, arith, some, List, [], ◌∷◌, ltb,
  eqb, one_of, Bytes, Result, Error, ok, err, Bool-cases,
}
use linka_plays_metric.ContractV1.{Reader, is_object, read_all}
use linka_plays_metric.JsonStrict.Tokens.{
  Token, delimiter, text, scalar, Reading, next, end_of_input, failed, TokenReader, IsTokenReader,
  Source,
}
use linka_plays_metric.JsonStrict.Validation.{
  Scan, out_of_fuel, done, ◌>>=◌, read_as, expect_token, new_key, expect_end, expect_delimiter,
  validate_value, validate_token, validate_members, validate_elements, validate, decode_scanned,
  decode_object,
}

module _ {S : Type 0} (d : TokenReader S) (laws : IsTokenReader d) (max_depth : ℕ) where
  open d use {token, more, remaining}

  -- The scan ends, and where it goes on, fewer than the given number of bytes are left.
  unfoldable EndsBelow : {A : Type 0} → ℕ → Scan S A → Type 0
  EndsBelow n out_of_fuel = ⊥
  EndsBelow n (done (ok a) s) = remaining s < n
  EndsBelow n (done (err e) s) = Unit

  passes : {A : Type 0} (n : ℕ) (a : A) (s : S) → remaining s < n → EndsBelow n (done (ok a) s)
  unfolding EndsBelow
  passes n a s h = h

  stops : (A : Type 0) (n : ℕ) (e : Error) (s : S) → EndsBelow {A = A} n (done (err e) s)
  unfolding EndsBelow
  stops A n e s = tt

  >>=-EndsBelow :
      {A B : Type 0} (n k : ℕ) (m : Scan S A) (rest : A → S → Scan S B)
      → EndsBelow n m
      → ((a : A) (s : S) → remaining s < n → EndsBelow k (rest a s))
      → EndsBelow k (m >>= rest)
  unfolding EndsBelow
  >>=-EndsBelow n k out_of_fuel rest h after = h
  >>=-EndsBelow n k (done (ok a) s) rest h after = after a s h
  >>=-EndsBelow n k (done (err e) s) rest h after = tt

  weaken : {A : Type 0} (m n : ℕ) (scan : Scan S A) → m ≤ n → EndsBelow m scan → EndsBelow n scan
  unfolding EndsBelow
  weaken m n out_of_fuel h e = e
  weaken m n (done (ok a) s) h e = omega arith
  weaken m n (done (err x) s) h e = tt

  reading-EndsBelow :
      (m : String) (r : Reading × S) (n : ℕ)
      → ((t : Token) (s : S) → r ≡ (next t, s) → remaining s < n)
      → EndsBelow n (read_as m r)
  reading-EndsBelow m (next t, s) n h = passes n t s (h t s refl)
  reading-EndsBelow m (end_of_input, s) n h = stops _ n _ s
  reading-EndsBelow m (failed e, s) n h = stops _ n _ s

  read_as-EndsBelow : (m : String) (s : S) → EndsBelow (remaining s) (read_as m (token s))
  read_as-EndsBelow m s = reading-EndsBelow m (token s) (remaining s) (λ t s1. laws.shrinks s s1 t)

  expect_token-EndsBelow :
      (c : ℕ) (t : Token) (s : S) (n : ℕ) → remaining s < n → EndsBelow n (expect_token c t s)
  expect_token-EndsBelow c (delimiter x) s n h = elim (Bool-cases (eqb x c)) [
    | inl same ↦ rw (same, expect_token) (passes n tt s h)
    | inr other ↦ rw (other, expect_token) (stops _ n _ s)
  ]
  expect_token-EndsBelow c (text x) s n h = stops _ n _ s
  expect_token-EndsBelow c scalar s n h = stops _ n _ s

  new_key-EndsBelow :
      (keys : List String) (t : Token) (s : S) (n : ℕ)
      → remaining s < n
      → EndsBelow n (new_key keys t s)
  new_key-EndsBelow keys (text x) s n h = elim (Bool-cases (one_of x keys)) [
    | inl same ↦ rw (same, new_key) (stops _ n _ s)
    | inr other ↦ rw (other, new_key) (passes n x s h)
  ]
  new_key-EndsBelow keys (delimiter x) s n h = stops _ n _ s
  new_key-EndsBelow keys scalar s n h = stops _ n _ s

  container-EndsBelow :
      (m : Scan S (Unit {0})) (c n : ℕ)
      → EndsBelow n m
      → EndsBelow n (m >>= λ _. expect_delimiter d max_depth c)
  unfolding expect_delimiter
  container-EndsBelow m c n h =
      >>=-EndsBelow n n m (λ _. expect_delimiter d max_depth c) h
        (λ _ s less.
          >>=-EndsBelow (remaining s) n (read_as "invalid JSON container" (token s))
            (expect_token c) (read_as-EndsBelow _ s)
            (λ t s1 more_less. expect_token-EndsBelow c t s1 n (omega arith)))

  mutual
    unfolding validate_value validate_token validate_members validate_elements

    value-EndsBelow :
        (fuel depth : ℕ) (s : S)
        → 3 * remaining s < fuel
        → EndsBelow (remaining s) (validate_value d max_depth fuel depth s)
    value-EndsBelow zero depth s h = absurd (omega arith)
    value-EndsBelow (suc fuel) depth s h = elim (Bool-cases (ltb max_depth depth)) [
      | inl deep ↦ rw (deep, validate_value) (stops _ _ _ s)
      | inr fine ↦
          rw (fine, validate_value)
            (>>=-EndsBelow (remaining s) (remaining s) (read_as "invalid JSON" (token s))
              (validate_token d max_depth fuel depth) (read_as-EndsBelow _ s)
              (λ t s1 less.
                weaken (suc (remaining s1)) (remaining s)
                  (validate_token d max_depth fuel depth t s1) (omega arith)
                  (validate_token-EndsBelow fuel depth t s1 (omega arith))))
    ]

    validate_token-EndsBelow :
        (fuel depth : ℕ) (t : Token) (s : S)
        → 3 * remaining s + 2 < fuel
        → EndsBelow (suc (remaining s)) (validate_token d max_depth fuel depth t s)
    validate_token-EndsBelow zero depth t s h = absurd (omega arith)
    validate_token-EndsBelow (suc fuel) depth (text x) s h = passes _ tt s (omega arith)
    validate_token-EndsBelow (suc fuel) depth scalar s h = passes _ tt s (omega arith)
    validate_token-EndsBelow (suc fuel) depth (delimiter c) s h = elim (Bool-cases (eqb c b'{')) [
      | inl object ↦
          rw (object, validate_token)
            (container-EndsBelow (validate_members d max_depth fuel depth [] s) b'}'
              (suc (remaining s)) (members-EndsBelow fuel depth [] s (omega arith)))
      | inr other ↦
          rw (other, validate_token)
            (elim (Bool-cases (eqb c b'[')) [
              | inl array ↦
                  rw (array, validate_token)
                    (container-EndsBelow (validate_elements d max_depth fuel depth s) b']'
                      (suc (remaining s)) (elements-EndsBelow fuel depth s (omega arith)))
              | inr strange ↦ rw (strange, validate_token) (stops _ _ _ s)
            ])
    ]

    members-EndsBelow :
        (fuel depth : ℕ) (keys : List String) (s : S)
        → 3 * remaining s + 1 < fuel
        → EndsBelow (suc (remaining s)) (validate_members d max_depth fuel depth keys s)
    members-EndsBelow zero depth keys s h = absurd (omega arith)
    members-EndsBelow (suc fuel) depth keys s h = elim (Bool-cases (more s)) [
      | inr end ↦ rw (end, validate_members) (passes _ tt s (omega arith))
      | inl again ↦
          rw (again, validate_members)
            (>>=-EndsBelow (remaining s) (suc (remaining s))
              (read_as "invalid object key" (token s) >>= new_key keys)
              (λ key s1. validate_value d max_depth fuel (suc depth) s1 >>= λ _.
                validate_members d max_depth fuel depth (key ∷ keys))
              (>>=-EndsBelow (remaining s) (remaining s) (read_as "invalid object key" (token s))
                (new_key keys) (read_as-EndsBelow _ s)
                (λ t s1. new_key-EndsBelow keys t s1 (remaining s)))
              (λ key s1 less.
                >>=-EndsBelow (remaining s1) (suc (remaining s))
                  (validate_value d max_depth fuel (suc depth) s1)
                  (λ _. validate_members d max_depth fuel depth (key ∷ keys))
                  (value-EndsBelow fuel (suc depth) s1 (omega arith))
                  (λ _ s2 less2.
                    weaken (suc (remaining s2)) (suc (remaining s))
                      (validate_members d max_depth fuel depth (key ∷ keys) s2) (omega arith)
                      (members-EndsBelow fuel depth (key ∷ keys) s2 (omega arith)))))
    ]

    elements-EndsBelow :
        (fuel depth : ℕ) (s : S)
        → 3 * remaining s + 1 < fuel
        → EndsBelow (suc (remaining s)) (validate_elements d max_depth fuel depth s)
    elements-EndsBelow zero depth s h = absurd (omega arith)
    elements-EndsBelow (suc fuel) depth s h = elim (Bool-cases (more s)) [
      | inr end ↦ rw (end, validate_elements) (passes _ tt s (omega arith))
      | inl again ↦
          rw (again, validate_elements)
            (>>=-EndsBelow (remaining s) (suc (remaining s))
              (validate_value d max_depth fuel (suc depth) s)
              (λ _. validate_elements d max_depth fuel depth)
              (value-EndsBelow fuel (suc depth) s (omega arith))
              (λ _ s1 less.
                weaken (suc (remaining s1)) (suc (remaining s))
                  (validate_elements d max_depth fuel depth s1) (omega arith)
                  (elements-EndsBelow fuel depth s1 (omega arith))))
    ]

  at_end : (r : Reading × S) → (x : Result (Unit {0})) × (s1 : S) × (expect_end r ≡ done x s1)
  at_end (next t, s1) = (_, s1, refl)
  at_end (end_of_input, s1) = (_, s1, refl)
  at_end (failed e, s1) = (_, s1, refl)

  validate-IsDone :
      (s : S) → (r : Result (Unit {0})) × (s1 : S) × (validate d max_depth s ≡ done r s1)
  unfolding validate EndsBelow
  validate-IsDone s =
      finish (validate_value d max_depth (suc (3 * remaining s)) 1 s)
        (value-EndsBelow _ 1 s (omega arith))
    where
      finish :
          (m : Scan S (Unit {0}))
          → EndsBelow (remaining s) m
          → (r : Result (Unit {0})) × (s1 : S) × ((m >>= λ _ s1. expect_end (token s1)) ≡ done r s1)
      finish out_of_fuel h = absurd h
      finish (done (err e) s1) h = (err e, s1, refl)
      finish (done (ok a) s1) h = at_end (token s1)

module _ {S A : Type 0} (source : Source S) (read : Reader A) where
  -- `DecodeObject` returns on every text and depth: the fuel that it takes from the number of bytes
  -- is enough, if each token has at least one byte and no call gives bytes back.
  pub decode_object-IsTotal :
      (max_depth : ℕ) (bytes : Bytes)
      → IsTokenReader source.decoder
      → (r : Result A) × (decode_object source read max_depth bytes ≡ some r)
  unfolding decode_object
  decode_object-IsTotal max_depth bytes laws =
      elim (Bool-cases (is_object (source.trim_space bytes))) [
        | inr other ↦ rw (other, decode_object) (_, refl)
        | inl object ↦
            rw (object, decode_object)
              (elim (Bool-cases (ltb max_depth 1)) [
                | inl small ↦ rw (small, decode_object) (_, refl)
                | inr fine ↦
                    rw (fine, decode_object)
                      (decoded
                        (validate source.decoder max_depth
                          (source.open_text (source.trim_space bytes)))
                        (validate-IsDone source.decoder laws max_depth
                          (source.open_text (source.trim_space bytes))))
              ])
      ]
    where
      decoded :
          (m : Scan S (Unit {0}))
          → (r : Result (Unit {0})) × (s : S) × (m ≡ done r s)
          → (r : Result A) × (decode_scanned m (read_all (read (source.trim_space bytes))) ≡ some r)
      decoded m (err e, s, same) = rw same (err e, refl)
      decoded m (ok a, s, same) = rw same (_, refl)
