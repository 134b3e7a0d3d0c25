-- ===== src/JsonStrict/Laws/Strict.antt =====
-- internal/jsonstrict/decode.go: what the scan lets through has bounded depth and distinct keys.
use linka_plays_metric.Prelude.{
  String, ℕ, suc, zero, ◌+◌, ◌*◌, ◌≡◌, ◌≢◌, eq_iff, refl, sym, subst, inl, inr, arith, some, List,
  [], ◌∷◌, true, false, ltb, eqb, one_of, Bytes, Result, ok, err, Bool-cases, Memᴰ, All,
}
use linka_plays_metric.ContractV1.{Reader, is_object, read_all}
use linka_plays_metric.JsonStrict.Tokens.{
  Token, delimiter, text, scalar, Reading, next, end_of_input, failed, TokenReader, Source,
}
use linka_plays_metric.JsonStrict.Laws.Values.{
  IsValue, plain, object, array, AreMembers, no_member, member, AreElements, no_element, element,
}
use linka_plays_metric.JsonStrict.Validation.{
  Scan, out_of_fuel, done, ◌>>=◌, read_as, expect_token, new_key, expect_end, expect_delimiter,
  validate_value, validate_token, validate_members, validate_elements, validate, decode_scanned,
  decode_object,
}

not_head :
    (x key : String) (keys : List String)
    → one_of x (key ∷ keys) ≡ false
    → (x ≢ key) × (one_of x keys ≡ false)
unfolding one_of
not_head x key keys h = ground (arith, eq_iff x key)

-- Names that are in neither of a key and some keys.
fresh_split :
    (key : String) (keys names : List String)
    → All (λ x. one_of x (key ∷ keys) ≡ false) names
    → (¬ Memᴰ key names) × All (λ x. one_of x keys ≡ false) names
fresh_split key keys [] all = (λ m. elim m [ ], tt)
fresh_split key keys (x ∷ names) (here, there) =
    let (other, fresh) = not_head x key keys here in
    let (absent, rest) = fresh_split key keys names there in
    (not_in x other names absent, (fresh, rest))
  where
    not_in :
        (x : String) → (x ≢ key) → (names : List String) → ¬ Memᴰ key names → ¬ Memᴰ key (x ∷ names)
    not_in x other names absent (Memᴰ.head e) = other (sym e)
    not_in x other names absent (Memᴰ.tail m) = absent m

above :
    (max_depth depth n : ℕ)
    → depth + n ≡ suc max_depth
    → ltb max_depth depth ≡ false
    → (m : ℕ) × (n ≡ suc m)
above max_depth depth zero sum h = ground arith
above max_depth depth (suc m) sum h = (m, refl)

module _ {S : Type 0} (d : TokenReader S) where
  open d use {token, more}

  >>=-eq-done :
      {A B : Type 0} (m : Scan S A) (rest : A → S → Scan S B) {b : B} {s : S}
      → (m >>= rest) ≡ done (ok b) s
      → (a : A) × (s1 : S) × (m ≡ done (ok a) s1) × (rest a s1 ≡ done (ok b) s)
  >>=-eq-done out_of_fuel rest h = cc
  >>=-eq-done (done (err e) s1) rest h = cc
  >>=-eq-done (done (ok a) s1) rest h = (a, s1, refl, h)

  read_as-eq-done :
      (m : String) (r : Reading × S) {t : Token} {s : S}
      → read_as m r ≡ done (ok t) s
      → r ≡ (next t, s)
  read_as-eq-done m (next t2, s2) h = cc
  read_as-eq-done m (end_of_input, s2) h = cc
  read_as-eq-done m (failed e, s2) h = cc

  expect_token-eq-done :
      (c : ℕ) (t : Token) (s : S) {u : Unit {0}} {s1 : S}
      → expect_token c t s ≡ done (ok u) s1
      → (t ≡ delimiter c) × (s ≡ s1)
  expect_token-eq-done c (delimiter x) s h = ground arith
  expect_token-eq-done c (text x) s h = cc
  expect_token-eq-done c scalar s h = cc

  new_key-eq-done :
      (keys : List String) (t : Token) (s : S) {key : String} {s1 : S}
      → new_key keys t s ≡ done (ok key) s1
      → (t ≡ text key) × (one_of key keys ≡ false) × (s ≡ s1)
  new_key-eq-done keys (text x) s h = ground arith
  new_key-eq-done keys (delimiter x) s h = cc
  new_key-eq-done keys scalar s h = cc

  expect_delimiter-eq-done :
      (max_depth c : ℕ) (s : S) {u : Unit {0}} {s1 : S}
      → expect_delimiter d max_depth c s ≡ done (ok u) s1
      → token s ≡ (next (delimiter c), s1)
  unfolding expect_delimiter
  expect_delimiter-eq-done max_depth c s h =
      let (t, s2, have, found) =
        >>=-eq-done (read_as "invalid JSON container" (token s)) (expect_token c) h in
      let (is_delimiter, same) = expect_token-eq-done c t s2 found in
      let taken = read_as-eq-done "invalid JSON container" (token s) have in cc

  opened :
      {c e : ℕ} {s s1 : S}
      → token s ≡ (next (delimiter c), s1)
      → eqb c e ≡ true
      → token s ≡ (next (delimiter e), s1)
  opened {c} {e} taken same = let equal : c ≡ e = ground arith in cc

  key_taken :
      {t : Token} {key : String} {s s1 s2 : S}
      → token s ≡ (next t, s1)
      → t ≡ text key
      → s1 ≡ s2
      → token s ≡ (next (text key), s2)
  key_taken taken is_text same = cc

  plain_taken :
      {t : Token} {u v : Unit {0}} {s s1 s2 : S}
      → token s ≡ (next t, s1)
      → done (ok u) s1 ≡ done (ok v) s2
      → token s ≡ (next t, s2)
  plain_taken taken h = cc

  done_state : {u v : Unit {0}} {s s1 : S} → done (ok u) s ≡ done (ok v) s1 → s ≡ s1
  done_state h = cc

  module _ (max_depth : ℕ) where
    abbrev AreFreshMembers : ℕ → List String → S → S → Type 0
    AreFreshMembers n keys s s1 =
        (names : List String) × AreMembers d n names s s1 × All (λ x. one_of x keys ≡ false) names

    mutual
      unfolding validate_value validate_token validate_members validate_elements

      value-IsValue :
          (fuel depth n : ℕ) (s s1 : S)
          → depth + n ≡ suc max_depth
          → validate_value d max_depth fuel depth s ≡ done (ok tt) s1
          → IsValue d n s s1
      value-IsValue zero depth n s s1 sum h = cc
      value-IsValue (suc fuel) depth n s s1 sum h = elim (Bool-cases (ltb max_depth depth)) [
        | inl deep ↦ let deep_h = rw (deep, validate_value) at h in cc
        | inr fine ↦
            let (t, s2, have, found) =
              >>=-eq-done (read_as "invalid JSON" (token s)) (validate_token d max_depth fuel depth)
                (rw (fine, validate_value) at h) in
            let (m, is_suc) = above max_depth depth n sum fine in
            subst (λ k. IsValue d k s s1) (sym is_suc)
              (validate_token-IsValue fuel depth m t s s2 s1 (omega arith)
                (read_as-eq-done "invalid JSON" (token s) have) found)
      ]

      validate_token-IsValue :
          (fuel depth n : ℕ) (t : Token) (s s1 s2 : S)
          → suc depth + n ≡ suc max_depth
          → token s ≡ (next t, s1)
          → validate_token d max_depth fuel depth t s1 ≡ done (ok tt) s2
          → IsValue d (suc n) s s2
      validate_token-IsValue zero depth n t s s1 s2 sum taken h = cc
      validate_token-IsValue (suc fuel) depth n (text x) s s1 s2 sum taken h =
          plain (text x) (plain_taken taken h) tt
      validate_token-IsValue (suc fuel) depth n scalar s s1 s2 sum taken h =
          plain scalar (plain_taken taken h) tt
      validate_token-IsValue (suc fuel) depth n (delimiter c) s s1 s2 sum taken h =
          elim (Bool-cases (eqb c b'{')) [
            | inl same ↦
                let (_, s3, have, found) =
                  >>=-eq-done (validate_members d max_depth fuel depth [] s1)
                    (λ _. expect_delimiter d max_depth b'}') (rw (same, validate_token) at h) in
                let (names, members, _) =
                  validate_members-AreFreshMembers fuel depth n [] s1 s3 sum have in
                object (opened taken same) members
                  (expect_delimiter-eq-done max_depth b'}' s3 found)
            | inr other ↦ elim (Bool-cases (eqb c b'[')) [
              | inl same ↦
                  let (_, s3, have, found) =
                    >>=-eq-done (validate_elements d max_depth fuel depth s1)
                      (λ _. expect_delimiter d max_depth b']')
                      (rw (other, same, validate_token) at h) in
                  array (opened taken same)
                    (validate_elements-AreElements fuel depth n s1 s3 sum have)
                    (expect_delimiter-eq-done max_depth b']' s3 found)
              | inr strange ↦ let refused = rw (other, strange, validate_token) at h in cc
            ]
          ]

      validate_members-AreFreshMembers :
          (fuel depth n : ℕ) (keys : List String) (s s1 : S)
          → suc depth + n ≡ suc max_depth
          → validate_members d max_depth fuel depth keys s ≡ done (ok tt) s1
          → AreFreshMembers n keys s s1
      validate_members-AreFreshMembers zero depth n keys s s1 sum h = cc
      validate_members-AreFreshMembers (suc fuel) depth n keys s s1 sum h =
          elim (Bool-cases (more s)) [
            | inr end ↦
                let same = rw (end, validate_members) at h in
                ([], subst (λ x. AreMembers d n [] s x) (done_state same) no_member, tt)
            | inl again ↦
                let (key, s2, read, found) =
                  >>=-eq-done (read_as "invalid object key" (token s) >>= new_key keys)
                    (λ key s1. validate_value d max_depth fuel (suc depth) s1 >>= λ _.
                      validate_members d max_depth fuel depth (key ∷ keys))
                    (rw (again, validate_members) at h) in
                let (t, s3, have, is_new) =
                  >>=-eq-done (read_as "invalid object key" (token s)) (new_key keys) read in
                let (is_text, fresh, same) = new_key-eq-done keys t s3 is_new in
                let taken = read_as-eq-done "invalid object key" (token s) have in
                let (_, s4, value, rest) =
                  >>=-eq-done (validate_value d max_depth fuel (suc depth) s2)
                    (λ _. validate_members d max_depth fuel depth (key ∷ keys)) found in
                let (names, members, unseen) =
                  validate_members-AreFreshMembers fuel depth n (key ∷ keys) s4 s1 sum rest in
                let (absent, others) = fresh_split key keys names unseen in
                (
                  key ∷ names,
                  member (key_taken taken is_text same) absent
                      (value-IsValue fuel (suc depth) n s2 s4 sum value) members,
                  (fresh, others),
                )
          ]

      validate_elements-AreElements :
          (fuel depth n : ℕ) (s s1 : S)
          → suc depth + n ≡ suc max_depth
          → validate_elements d max_depth fuel depth s ≡ done (ok tt) s1
          → AreElements d n s s1
      validate_elements-AreElements zero depth n s s1 sum h = cc
      validate_elements-AreElements (suc fuel) depth n s s1 sum h = elim (Bool-cases (more s)) [
        | inr end ↦
            let same = rw (end, validate_elements) at h in
            subst (λ x. AreElements d n s x) (done_state same) no_element
        | inl again ↦
            let (_, s2, value, rest) =
              >>=-eq-done (validate_value d max_depth fuel (suc depth) s)
                (λ _. validate_elements d max_depth fuel depth)
                (rw (again, validate_elements) at h) in
            element (value-IsValue fuel (suc depth) n s s2 sum value)
              (validate_elements-AreElements fuel depth n s2 s1 sum rest)
      ]

  expect_end-eq-done :
      (r : Reading × S) {u : Unit {0}} {s : S}
      → expect_end r ≡ done (ok u) s
      → r ≡ (end_of_input, s)
  expect_end-eq-done (end_of_input, s1) h = cc
  expect_end-eq-done (next t, s1) h = cc
  expect_end-eq-done (failed e, s1) h = cc

  validate-IsStrict :
      (max_depth : ℕ) (s s1 : S)
      → validate d max_depth s ≡ done (ok tt) s1
      → (last : S) × IsValue d max_depth s last × (token last ≡ (end_of_input, s1))
  unfolding validate
  validate-IsStrict max_depth s s1 h =
      let (_, last, have, found) =
        >>=-eq-done (validate_value d max_depth (suc (3 * d.remaining s)) 1 s)
          (λ _ s1. expect_end (token s1)) h in
      (
        last,
        value-IsValue max_depth _ 1 max_depth s last (omega arith) have,
        expect_end-eq-done (token last) found,
      )

module _ {S A : Type 0} (source : Source S) (read : Reader A) where
  -- A text that `DecodeObject` takes begins, behind its spaces, with a brace, is one value that is
  -- nested no deeper than the given depth and whose objects have distinct keys, with nothing behind
  -- it, and yields what the typed decoding makes of it.
  pub decode_object-IsStrict :
      (max_depth : ℕ) (bytes : Bytes) (x : A)
      → decode_object source read max_depth bytes ≡ some (ok x)
      → (is_object (source.trim_space bytes) ≡ true)
        × ((last closed : S) × IsValue source.decoder max_depth
              (source.open_text (source.trim_space bytes))
              last
            × (source.decoder.token last ≡ (end_of_input, closed)))
        × (read_all (read (source.trim_space bytes)) ≡ ok x)
  unfolding decode_object
  decode_object-IsStrict max_depth bytes x h =
      elim (Bool-cases (is_object (source.trim_space bytes))) [
        | inr other ↦ let refused = rw (other, decode_object) at h in cc
        | inl brace ↦ elim (Bool-cases (ltb max_depth 1)) [
          | inl small ↦ let refused = rw (brace, small, decode_object) at h in cc
          | inr fine ↦
              let (closed, scanned, decoded) =
                scanned_ok _ (read_all (read (source.trim_space bytes)))
                  (rw (brace, fine, decode_object) at h) in
              let (last, value, end) =
                validate-IsStrict source.decoder max_depth _ closed scanned in
              (brace, (last, closed, value, end), decoded)
        ]
      ]
    where
      scanned_ok :
          (m : Scan S (Unit {0})) (r : Result A)
          → decode_scanned m r ≡ some (ok x)
          → (s : S) × (m ≡ done (ok tt) s) × (r ≡ ok x)
      scanned_ok out_of_fuel r h = cc
      scanned_ok (done (err e) s) r h = cc
      scanned_ok (done (ok tt) s) r h = (s, refl, cc)
