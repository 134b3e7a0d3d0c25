-- ===== src/Store/Replies.antt =====
-- internal/clickhouse: operations that read and change the database and may fail. The named errors
-- are those of internal/contract/v2/contract.go; any other is `failed` with its message.
use linka_plays_metric.Prelude.{Error, ◌≡◌, refl, ◌⊎◌, inl, inr, Bool, true, false}

pub data StoreError : Type 0 where
  idempotency_conflict duplicate_record suppressed_scope : StoreError
  failed : Error → StoreError

pub data Reply (A : Type 0) : Type 0 where
  done : A → Reply A
  refused : StoreError → Reply A

-- An operation on a database with the states `S`: the state it leaves stands beside its reply,
-- also when it fails.
abbrev pub Op : Type 0 → Type 0 → Type 0
Op S A = S → Reply A × S

abbrev pub continue : {S A B : Type 0} → Reply A × S → (A → Op S B) → Reply B × S
continue (done a, s) f = f a s
continue (refused e, s) f = (refused e, s)

infixl 5 ◌>>=◌ ◌>>◌
abbrev pub ◌>>=◌ : {S A B : Type 0} → Op S A → (A → Op S B) → Op S B
◌>>=◌ m f s = continue (m s) f

abbrev pub ◌>>◌ : {S B : Type 0} → Op S (Unit {0}) → Op S B → Op S B
◌>>◌ m k s = continue (m s) (λ _. k)

abbrev pub pure : {S A : Type 0} → A → Op S A
pure a s = (done a, s)

abbrev pub refuse : {S A : Type 0} → StoreError → Op S A
refuse e s = (refused e, s)

-- A query, which changes nothing.
abbrev pub ask : {S A : Type 0} → (S → Reply A) → Op S A
ask q s = (q s, s)

abbrev pub require : {S : Type 0} → Bool → StoreError → Op S (Unit {0})
require true e s = (done tt, s)
require false e s = (refused e, s)

-- To split on how an operation ended.
pub Reply-cases :
    {S A : Type 0} (x : Reply A × S)
    → ((a : A) × (s : S) × (x ≡ (done a, s))) ⊎ ((e : StoreError) × (s : S) × (x ≡ (refused e, s)))
Reply-cases (done a, s) = inl (a, s, refl)
Reply-cases (refused e, s) = inr (e, s, refl)

pub continue-eq-done :
    {S A B : Type 0} (x : Reply A × S) (f : A → Op S B) {b : B} {t : S}
    → continue x f ≡ (done b, t)
    → (a : A) × (s : S) × (x ≡ (done a, s)) × (f a s ≡ (done b, t))
continue-eq-done (done a, s) f h = (a, s, refl, h)
continue-eq-done (refused e, s) f h = cc

-- To split on what a query answered.
pub Answer-cases :
    {A : Type 0} (x : Reply A) → ((a : A) × (x ≡ done a)) ⊎ ((e : StoreError) × (x ≡ refused e))
Answer-cases (done a) = inl (a, refl)
Answer-cases (refused e) = inr (e, refl)
