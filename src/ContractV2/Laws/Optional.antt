-- ===== src/ContractV2/Laws/Optional.antt =====
-- internal/contract/v2/parse.go: the tests on optional values, as statements.
use linka_plays_metric.Prelude.{
  String, ℕ, ◌≤◌, ◌≡◌, refl, Option, none, some, List, true, arith, Memᴰ, one_of_iff, is_none,
  is_some,
}
use linka_plays_metric.ContractV2.Fields.{some_of}
use linka_plays_metric.ContractV2.Records.{some_at_most}

pub some_of_sound :
    (o : Option String) (allowed : List String)
    → some_of o allowed ≡ true
    → (v : String) × (o ≡ some v) × Memᴰ v allowed
some_of_sound none allowed h = cc
some_of_sound (some v) allowed h = (v, refl, (one_of_iff v allowed).0 h)

pub some_of_complete :
    (o : Option String) (allowed : List String) (v : String)
    → o ≡ some v
    → Memᴰ v allowed
    → some_of o allowed ≡ true
some_of_complete o allowed v e m = rw e ((one_of_iff v allowed).1 m)

pub some_at_most_sound :
    (o : Option ℕ) (limit : ℕ) → some_at_most o limit ≡ true → (n : ℕ) × (o ≡ some n) × (n ≤ limit)
some_at_most_sound none limit h = cc
some_at_most_sound (some n) limit h = (n, refl, ground arith)

pub is_none-eq {ℓ} : {A : Type ℓ} (o : Option A) → is_none o ≡ true → o ≡ none
is_none-eq none h = refl
is_none-eq (some a) h = cc

pub is_some-eq {ℓ} : {A : Type ℓ} (o : Option A) → is_some o ≡ true → (a : A) × (o ≡ some a)
is_some-eq none h = cc
is_some-eq (some a) h = (a, refl)
