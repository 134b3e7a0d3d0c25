-- ===== src/ContractV2/Laws/Patterns.antt =====
-- internal/contract/v2/parse.go: the regular expressions for safe values and fingerprints, as
-- statements on the characters of a text.
use linka_plays_metric.Prelude.{
  String, ℕ, ◌≤◌, ◌≡◌, ◌⊎◌, refl, sym, subst, ap, inl, inr, Option, none, some, List, [], ◌∷◌, ◌++◌,
  Bool, true, ◌&&◌, ◌||◌, leb, eqb, arith, codes, All, all, length, Bool-cases, &&_split,
}
use linka_plays_metric.ContractV2.Fields.{
  is_alnum, is_safe_code, is_hex, safe_value_pattern, fingerprint_pattern, strip_codes,
  hex_of_length, is_sha256_code,
}

-- A letter or a digit.
abbrev pub IsAlnum : ℕ → Type 0
IsAlnum c = ((b'A' ≤ c) × (c ≤ b'Z')) ⊎ ((b'a' ≤ c) × (c ≤ b'z')) ⊎ ((b'0' ≤ c) × (c ≤ b'9'))

-- A letter, a digit, or one of `._:+-`.
abbrev pub IsSafeCode : ℕ → Type 0
IsSafeCode c = IsAlnum c ⊎ (c ≡ b'.') ⊎ (c ≡ b'_') ⊎ (c ≡ b':') ⊎ (c ≡ b'+') ⊎ (c ≡ b'-')

abbrev pub AreSafeCodes : List ℕ → Type 0
AreSafeCodes [] = ⊥
AreSafeCodes (c ∷ cs) = IsAlnum c × All IsSafeCode cs × (length cs ≤ 95)

-- A letter or a digit, and up to 95 safe characters behind it.
abbrev pub IsSafe : String → Type 0
IsSafe value = AreSafeCodes (codes value)

abbrev pub IsHexCode : ℕ → Type 0
IsHexCode c = ((b'a' ≤ c) × (c ≤ b'f')) ⊎ ((b'0' ≤ c) × (c ≤ b'9'))

-- From 16 to 96 lowercase hexadecimal digits, or `sha256:` and 64 of them.
abbrev pub IsFingerprint : String → Type 0
IsFingerprint value =
    (All IsHexCode (codes value) × (16 ≤ length (codes value)) × (length (codes value) ≤ 96))
    ⊎ ((digits : List ℕ) × (codes value ≡ codes "sha256:" ++ digits)
        × All IsHexCode digits
        × (length digits ≡ 64))

-- A test that decides a predicate decides it on all of a list.
all-All :
    (test : ℕ → Bool) (P : ℕ → Type 0)
    → ((c : ℕ) → test c ≡ true → P c)
    → (cs : List ℕ) → all test cs ≡ true
    → All P cs
all-All test P sound [] h = tt
all-All test P sound (c ∷ cs) h =
    let (here, there) = &&_split _ _ h in (sound c here, all-All test P sound cs there)

All-all :
    (test : ℕ → Bool) (P : ℕ → Type 0)
    → ((c : ℕ) → P c → test c ≡ true)
    → (cs : List ℕ) → All P cs
    → all test cs ≡ true
All-all test P complete [] h = refl
All-all test P complete (c ∷ cs) (here, there) =
    rw (complete c here) (All-all test P complete cs there)

is_alnum-IsAlnum : (c : ℕ) → is_alnum c ≡ true → IsAlnum c
is_alnum-IsAlnum c h = ground arith

IsAlnum-is_alnum : (c : ℕ) → IsAlnum c → is_alnum c ≡ true
IsAlnum-is_alnum c h = ground arith

is_safe_code-IsSafeCode : (c : ℕ) → is_safe_code c ≡ true → IsSafeCode c
is_safe_code-IsSafeCode c h = ground arith

IsSafeCode-is_safe_code : (c : ℕ) → IsSafeCode c → is_safe_code c ≡ true
IsSafeCode-is_safe_code c h = ground arith

is_hex-IsHexCode : (c : ℕ) → is_hex c ≡ true → IsHexCode c
is_hex-IsHexCode c h = ground arith

IsHexCode-is_hex : (c : ℕ) → IsHexCode c → is_hex c ≡ true
IsHexCode-is_hex c h = ground arith

pub safe_value_pattern-IsSafe : (value : String) → safe_value_pattern value ≡ true → IsSafe value
unfolding safe_value_pattern
safe_value_pattern-IsSafe String.[] h = cc
safe_value_pattern-IsSafe (String.◌∷◌ c s) h =
    let (front, short) = &&_split _ _ h in
    let (first, rest) = &&_split _ _ front in
    (
      is_alnum-IsAlnum _ first,
      all-All is_safe_code IsSafeCode is_safe_code-IsSafeCode _ rest,
      ground arith,
    )

pub IsSafe-safe_value_pattern : (value : String) → IsSafe value → safe_value_pattern value ≡ true
unfolding safe_value_pattern
IsSafe-safe_value_pattern String.[] h = absurd h
IsSafe-safe_value_pattern (String.◌∷◌ c s) (first, rest, short) =
    rw (IsAlnum-is_alnum _ first, All-all is_safe_code IsSafeCode IsSafeCode-is_safe_code _ rest)
      (ground arith)

hex_of_length_sound :
    (low high : ℕ) (cs : List ℕ)
    → hex_of_length low high cs ≡ true
    → All IsHexCode cs × (low ≤ length cs) × (length cs ≤ high)
hex_of_length_sound low high cs h =
    let (front, short) = &&_split (all is_hex cs && leb low (length cs)) _ h in
    let (hex, long) = &&_split (all is_hex cs) _ front in
    (all-All is_hex IsHexCode is_hex-IsHexCode cs hex, ground arith, ground arith)

hex_of_length_complete :
    (low high : ℕ) (cs : List ℕ)
    → All IsHexCode cs
    → low ≤ length cs
    → length cs ≤ high
    → hex_of_length low high cs ≡ true
hex_of_length_complete low high cs hex long short =
    rw (All-all is_hex IsHexCode IsHexCode-is_hex cs hex) (ground arith)

strip_codes_sound : (ps cs rest : List ℕ) → strip_codes ps cs ≡ some rest → cs ≡ ps ++ rest
strip_codes_sound [] cs rest h = cc
strip_codes_sound (p ∷ ps) [] rest h = cc
strip_codes_sound (p ∷ ps) (c ∷ cs) rest h = elim (Bool-cases (eqb p c)) [
  | inl same ↦
      let first : p ≡ c = ground arith in
      rw first (ap (λ l. c ∷ l) (strip_codes_sound ps cs rest (rw (same, strip_codes) at h)))
  | inr other ↦ cc (rw (other, strip_codes) at h)
]

strip_codes_own : (ps rest : List ℕ) → strip_codes ps (ps ++ rest) ≡ some rest
strip_codes_own [] rest = refl
strip_codes_own (p ∷ ps) rest =
    let same : eqb p p ≡ true = ground arith in rw (same, strip_codes) (strip_codes_own ps rest)

sha256_sound :
    (cs : List ℕ) (o : Option (List ℕ))
    → strip_codes (codes "sha256:") cs ≡ o
    → is_sha256_code o ≡ true
    → (digits : List ℕ) × (cs ≡ codes "sha256:" ++ digits)
      × All IsHexCode digits
      × (length digits ≡ 64)
sha256_sound cs none found h = cc
sha256_sound cs (some digits) found h =
    let (hex, low, high) = hex_of_length_sound 64 64 digits h in
    (digits, strip_codes_sound (codes "sha256:") cs digits found, hex, omega arith)

pub fingerprint_pattern-IsFingerprint :
    (value : String) → fingerprint_pattern value ≡ true → IsFingerprint value
unfolding fingerprint_pattern
fingerprint_pattern-IsFingerprint value h = elim (Bool-cases (hex_of_length 16 96 (codes value))) [
  | inl plain ↦ inl (hex_of_length_sound 16 96 (codes value) plain)
  | inr other ↦ inr (sha256_sound (codes value) _ refl (rw (other, fingerprint_pattern) at h))
]

pub IsFingerprint-fingerprint_pattern :
    (value : String) → IsFingerprint value → fingerprint_pattern value ≡ true
unfolding fingerprint_pattern
IsFingerprint-fingerprint_pattern value (inl (hex, long, short)) =
    rw (fingerprint_pattern, hex_of_length_complete 16 96 (codes value) hex long short) refl
IsFingerprint-fingerprint_pattern value (inr (digits, same, hex, size)) =
    let found : is_sha256_code (strip_codes (codes "sha256:") (codes value)) ≡ true =
      subst (λ x. is_sha256_code (strip_codes (codes "sha256:") x) ≡ true) (sym same)
        (subst (λ o. is_sha256_code o ≡ true) (sym (strip_codes_own (codes "sha256:") digits))
          (hex_of_length_complete 64 64 digits hex (omega arith) (omega arith))) in
    or_true _ _ found
  where
    or_true : (a b : Bool) → b ≡ true → (a || b) ≡ true
    or_true a b h = ground arith
