-- ===== src/Prelude/Results.antt =====
-- Results of fallible code, with the message of the source's error.
use Prim.Native.Nat.{ℕ}
use Prim.Native.String.{String}
use mathlib.Core.Path.{◌≡◌, refl}
use mathlib.Core.Logic.{◌⊎◌, inl, inr}
use mathlib.Core.Bool.{Bool, true, false}

-- `errors.New(m)`, `fmt.Errorf("m: %w", e)` and `fmt.Errorf("records[%d]: %w", i, e)`.
pub data Error : Type 0 where
  message : String → Error
  wrapped : String → Error → Error
  at_index : String → ℕ → Error → Error

pub data Result {ℓ} (A : Type ℓ) : Type ℓ where
  ok : A → Result A
  err : Error → Result A

-- `if !test { return errors.New(m) }`
abbrev pub guard : (test : Bool) → Error → Result (Unit {0})
guard false e = err e
guard true e = ok tt

module _ {ℓ κ} {A : Type ℓ} {B : Type κ} where
  infixl 5 ◌>>=◌
  -- The rest of a function behind a call that may fail.
  abbrev pub ◌>>=◌ : Result A → (A → Result B) → Result B
  err e >>= rest = err e
  ok value >>= rest = rest value

  pub >>=-eq-ok :
      (m : Result A) (rest : A → Result B) {b : B}
      → (m >>= rest) ≡ ok b
      → (a : A) × (m ≡ ok a) × (rest a ≡ ok b)
  >>=-eq-ok (err e) rest h = cc
  >>=-eq-ok (ok value) rest h = (value, refl, h)

-- The same behind a check, which yields no value.
infixl 5 ◌>>◌
abbrev pub ◌>>◌ {ℓ} : {B : Type ℓ} → Result (Unit {0}) → Result B → Result B
check >> rest = check >>= λ _. rest

-- `if err != nil { return fmt.Errorf("m: %w", err) }`
abbrev pub wrap {ℓ} : {A : Type ℓ} → String → Result A → Result A
wrap m (ok a) = ok a
wrap m (err e) = err (wrapped m e)

abbrev pub is_ok {ℓ} : {A : Type ℓ} → Result A → Bool
is_ok (ok _) = true
is_ok (err _) = false

pub >>-eq-ok {ℓ} :
    {B : Type ℓ} (m : Result (Unit {0})) (k : Result B) {b : B}
    → (m >> k) ≡ ok b
    → (m ≡ ok tt) × (k ≡ ok b)
>>-eq-ok (ok tt) k h = (refl, h)
>>-eq-ok (err e) k h = cc

pub guard-eq-ok {ℓ} :
    {B : Type ℓ} (test : Bool) (e : Error) (k : Result B) {b : B}
    → (guard test e >> k) ≡ ok b
    → (test ≡ true) × (k ≡ ok b)
guard-eq-ok true e k h = (refl, h)
guard-eq-ok false e k h = cc

pub wrap-eq-ok {ℓ} : {A : Type ℓ} (m : String) (r : Result A) {a : A} → wrap m r ≡ ok a → r ≡ ok a
wrap-eq-ok m (ok a) h = h
wrap-eq-ok m (err e) h = cc

pub >>=_assoc {ℓ κ μ} :
    {A : Type ℓ} {B : Type κ} {C : Type μ} (m : Result A) (f : A → Result B) (g : B → Result C)
    → ((m >>= f) >>= g) ≡ (m >>= λ a. f a >>= g)
>>=_assoc (ok a) f g = refl
>>=_assoc (err e) f g = refl

pub Result-cases {ℓ} :
    {A : Type ℓ} (r : Result A) → ((a : A) × (r ≡ ok a)) ⊎ ((e : Error) × (r ≡ err e))
Result-cases (ok a) = inl (a, refl)
Result-cases (err e) = inr (e, refl)
