-- ===== src/Prelude/Lists.antt =====
-- Lists measured by native numbers, and predicates on their members.
use Prim.Native.Nat.{ℕ, suc, ◌+◌}
use mathlib.Core.Path.{◌≡◌, refl, sym, subst}
use mathlib.Core.Bool.{Bool, true, ◌&&◌}
use mathlib.Core.List.{List, [], ◌∷◌, ◌++◌, map, Memᴰ}
use native.Mathlib.Omega.{arith}
use linka_plays_metric.Prelude.Tests.{&&_split}

module _ {ℓ} {A : Type ℓ} where
  abbrev pub length : List A → ℕ
  length [] = 0
  length (x ∷ xs) = suc (length xs)

  pub length-append : (xs ys : List A) → length (xs ++ ys) ≡ length xs + length ys
  length-append [] ys = omega arith
  length-append (x ∷ xs) ys = omega (arith, length-append xs ys)

  abbrev pub all : (A → Bool) → List A → Bool
  all p [] = true
  all p (x ∷ xs) = p x && all p xs

  -- A Boolean test that passes on a whole list passes on each member.
  pub all-mem : (p : A → Bool) (xs : List A) (x : A) → all p xs ≡ true → Memᴰ x xs → p x ≡ true
  all-mem p [] x h m = elim m [ ]
  all-mem p (y ∷ ys) x h (Memᴰ.head e) = subst (λ z. p z ≡ true) (sym e) (&&_split _ _ h).0
  all-mem p (y ∷ ys) x h (Memᴰ.tail m) = all-mem p ys x (&&_split _ _ h).1 m

module _ {ℓ κ} {A : Type ℓ} (P : A → Type κ) where
  -- Every member has the property.
  abbrev pub All : List A → Type κ
  All [] = Unit
  All (x ∷ xs) = P x × All xs

  pub All-append : (xs ys : List A) → All xs → All ys → All (xs ++ ys)
  All-append [] ys _ k = k
  All-append (x ∷ xs) ys (p, h) k = (p, All-append xs ys h k)

  pub All-mem : (xs : List A) (x : A) → All xs → Memᴰ x xs → P x
  All-mem [] x h m = elim m [ ]
  All-mem (y ∷ ys) x (p, h) (Memᴰ.head e) = subst P (sym e) p
  All-mem (y ∷ ys) x (p, h) (Memᴰ.tail m) = All-mem ys x h m

module _ {ℓ κ} {A : Type ℓ} {B : Type κ} where
  pub length-map : (f : A → B) (xs : List A) → length (map f xs) ≡ length xs
  length-map f [] = refl
  length-map f (x ∷ xs) = omega (arith, length-map f xs)

module _ {ℓ κ μ} {A : Type ℓ} {P : A → Type κ} {Q : A → Type μ} where
  pub All-imp : ((x : A) → P x → Q x) → (xs : List A) → All P xs → All Q xs
  All-imp f [] h = tt
  All-imp f (x ∷ xs) (p, h) = (f x p, All-imp f xs h)
