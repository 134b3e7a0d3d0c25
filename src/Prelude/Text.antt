-- ===== src/Prelude/Text.antt =====
-- Text: whole texts are compared as native strings, and patterns walk the code points.
use Prim.Native.Nat.{ℕ}
use Prim.Native.Char.{code}
use Prim.Native.String.{String}
use text.Mathlib.Text.{◌==◌}
use text.Mathlib.TextEquality.{eq_iff}
use mathlib.Core.Path.{◌≡◌}
use mathlib.Core.Logic.{◌≢◌, ◌↔◌, inl, inr}
use mathlib.Core.Bool.{Bool, true, false, ◌&&◌}
use mathlib.Core.Option.{Option, none, some}
use mathlib.Core.List.{List, [], ◌∷◌, Memᴰ}
use native.Mathlib.Omega.{arith}
use linka_plays_metric.Prelude.Tests.{leb, if◌then◌else◌, Bool-cases}

abbrev pub Bytes : Type 0
Bytes = List ℕ

-- The code points of a text.
abbrev pub codes : String → List ℕ
codes String.[] = []
codes (String.◌∷◌ c s) = code c ∷ codes s

abbrev pub is_lower : ℕ → Bool
is_lower c = leb b'a' c && leb c b'z'

abbrev pub is_upper : ℕ → Bool
is_upper c = leb b'A' c && leb c b'Z'

abbrev pub is_digit : ℕ → Bool
is_digit c = leb b'0' c && leb c b'9'

-- Membership in a list of texts, as a loop over the candidates.
unfoldable pub one_of : String → List String → Bool
one_of value [] = false
one_of value (candidate ∷ allowed) = if value == candidate then true else one_of value allowed

one_of_sound :
    (value : String) (allowed : List String) → one_of value allowed ≡ true → Memᴰ value allowed
unfolding one_of
one_of_sound value [] h = cc
one_of_sound value (candidate ∷ allowed) h = elim (Bool-cases (value == candidate)) [
  | inl same ↦ Memᴰ.head ((eq_iff _ _).0 same)
  | inr other ↦ Memᴰ.tail (one_of_sound value allowed (rw other at h))
]

one_of_complete :
    (value : String) (allowed : List String) → Memᴰ value allowed → one_of value allowed ≡ true
unfolding one_of
one_of_complete value [] m = elim m [ ]
one_of_complete value (candidate ∷ allowed) (Memᴰ.head e) = ground (arith, eq_iff value candidate)
one_of_complete value (candidate ∷ allowed) (Memᴰ.tail m) =
    ground (arith, one_of_complete value allowed m)

-- The loop answers true exactly at the members.
pub one_of_iff :
    (value : String) (allowed : List String) → (one_of value allowed ≡ true) ↔ Memᴰ value allowed
one_of_iff value allowed = (one_of_sound value allowed, one_of_complete value allowed)

-- A map with text keys, as the list of its entries.
module _ {ℓ} {V : Type ℓ} where
  unfoldable pub lookup : String → List (String × V) → Option V
  lookup key [] = none
  lookup key ((k, v) ∷ entries) = if k == key then some v else lookup key entries

  -- What a lookup finds is an entry under that key.
  pub lookup-mem :
      (key : String) (entries : List (String × V)) (v : V)
      → lookup key entries ≡ some v
      → Memᴰ (key, v) entries
  unfolding lookup
  lookup-mem key [] v h = cc
  lookup-mem key ((k, w) ∷ entries) v h = elim (Bool-cases (k == key)) [
    | inl same ↦ Memᴰ.head (cc ((eq_iff _ _).0 same, rw same at h))
    | inr other ↦ Memᴰ.tail (lookup-mem key entries v (rw other at h))
  ]

pub unequal : (a b : String) → a ≢ b → (a == b) ≡ false
unequal a b h = elim (Bool-cases (a == b)) [
  | inl same ↦ elim (h ((eq_iff a b).0 same)) [ ]
  | inr differ ↦ differ
]
