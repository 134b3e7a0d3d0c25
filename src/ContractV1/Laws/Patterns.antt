-- ===== src/ContractV1/Laws/Patterns.antt =====
-- internal/contract/v1/validate.go: the regular expressions for safe values and fingerprints, as
-- statements on the characters of a text. The safe values are those of V2.
use linka_plays_metric.Prelude.{
  String, ℕ, ◌≤◌, ◌≡◌, ◌⊎◌, refl, ap, inl, inr, List, [], ◌∷◌, ◌++◌, true, ◌&&◌, leb, eqb, arith,
  codes, All, all, length, Bool-cases, &&_split,
}
use linka_plays_metric.ContractV2 as V2
use linka_plays_metric.ContractV2.Laws.Patterns as V2Laws
use linka_plays_metric.ContractV2.Laws.Patterns.{IsSafe}
use linka_plays_metric.ContractV1.Fields.{
  safe_value_pattern, fingerprint_pattern, is_hex, is_hex_of, is_hash_behind,
}

pub safe_value_pattern-IsSafe : (value : String) → safe_value_pattern value ≡ true → IsSafe value
unfolding safe_value_pattern V2.safe_value_pattern
safe_value_pattern-IsSafe String.[] h = cc
safe_value_pattern-IsSafe (String.◌∷◌ c s) h = V2Laws.safe_value_pattern-IsSafe (String.◌∷◌ c s) h

pub IsSafe-safe_value_pattern : (value : String) → IsSafe value → safe_value_pattern value ≡ true
unfolding safe_value_pattern V2.safe_value_pattern
IsSafe-safe_value_pattern String.[] h = absurd h
IsSafe-safe_value_pattern (String.◌∷◌ c s) h = V2Laws.IsSafe-safe_value_pattern (String.◌∷◌ c s) h

abbrev pub IsHexCode : ℕ → Type 0
IsHexCode c = ((b'A' ≤ c) × (c ≤ b'F')) ⊎ ((b'a' ≤ c) × (c ≤ b'f')) ⊎ ((b'0' ≤ c) × (c ≤ b'9'))

-- From 16 to 96 hexadecimal digits, or `sha256:` and 64 of them.
abbrev pub IsFingerprint : String → Type 0
IsFingerprint value =
    (All IsHexCode (codes value) × (16 ≤ length (codes value)) × (length (codes value) ≤ 96))
    ⊎ ((digits : List ℕ) × (codes value ≡ codes "sha256:" ++ digits)
        × All IsHexCode digits
        × (length digits ≡ 64))

is_hex-IsHexCode : (c : ℕ) → is_hex c ≡ true → IsHexCode c
is_hex-IsHexCode c h = ground arith

all-IsHexCode : (cs : List ℕ) → all is_hex cs ≡ true → All IsHexCode cs
all-IsHexCode [] h = tt
all-IsHexCode (c ∷ cs) h =
    let (here, there) = &&_split _ _ h in (is_hex-IsHexCode c here, all-IsHexCode cs there)

is_hex_of_sound :
    (low high : ℕ) (cs : List ℕ)
    → is_hex_of low high cs ≡ true
    → All IsHexCode cs × (low ≤ length cs) × (length cs ≤ high)
is_hex_of_sound low high cs h =
    let (front, short) = &&_split (all is_hex cs && leb low (length cs)) _ h in
    let (hex, long) = &&_split (all is_hex cs) _ front in
    (all-IsHexCode cs hex, ground arith, ground arith)

is_hash_behind_sound :
    (ps cs : List ℕ)
    → is_hash_behind ps cs ≡ true
    → (digits : List ℕ) × (cs ≡ ps ++ digits) × All IsHexCode digits × (length digits ≡ 64)
is_hash_behind_sound [] cs h =
    let (hex, low, high) = is_hex_of_sound 64 64 cs h in (cs, refl, hex, omega arith)
is_hash_behind_sound (p ∷ ps) [] h = cc
is_hash_behind_sound (p ∷ ps) (c ∷ cs) h =
    let (here, there) = &&_split (eqb p c) _ h in
    let (digits, same, hex, size) = is_hash_behind_sound ps cs there in
    let first : p ≡ c = ground arith in (digits, rw first (ap (λ l. c ∷ l) same), hex, size)

pub fingerprint_pattern-IsFingerprint :
    (value : String) → fingerprint_pattern value ≡ true → IsFingerprint value
unfolding fingerprint_pattern
fingerprint_pattern-IsFingerprint value h = elim (Bool-cases (is_hex_of 16 96 (codes value))) [
  | inl plain ↦ inl (is_hex_of_sound 16 96 (codes value) plain)
  | inr other ↦
      inr (
        is_hash_behind_sound (codes "sha256:") (codes value) (rw (other, fingerprint_pattern) at h))
]
