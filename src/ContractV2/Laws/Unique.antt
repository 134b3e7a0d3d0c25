-- ===== src/ContractV2/Laws/Unique.antt =====
-- internal/contract/v2/parse.go: `validateUniqueRecordIDs` accepts exactly the batches whose record
-- identifiers are distinct.
use linka_plays_metric.Prelude.{
  String, ◌≡◌, ◌↔◌, inl, inr, All-imp, All-mem, refl, sym, ◌∙◌, List, [], ◌∷◌, ◌++◌, map, Memᴰ,
  true, false, Result, ok, err, message, ◌>>=◌, one_of, one_of_iff, All, Bool-cases, >>=-eq-ok,
  >>=_assoc,
}
use linka_plays_metric.ContractV2.Types.{Validated, ValidatedBatch}
use linka_plays_metric.ContractV2.Batches.{
  add_record_ids, common_id, technical_id, plays_id, product_id, outcome_id,
  validate_unique_record_ids,
}

-- No text stands in the list twice.
abbrev pub Distinct : List String → Type 0
Distinct [] = Unit
Distinct (x ∷ xs) = ¬ Memᴰ x xs × Distinct xs

abbrev pub ids_of : {R : Type 0} → (R → String) → List (Validated R) → List String
ids_of id rs = map (λ r. id r.content) rs

-- The identifiers of a batch, stream after stream.
abbrev pub record_ids : ValidatedBatch → List String
record_ids b =
    ids_of common_id b.common_records
    ++ (ids_of technical_id b.technical_records
        ++ (ids_of plays_id b.plays_records
            ++ (ids_of product_id b.product_records ++ ids_of outcome_id b.outcome_records)))

-- The five loops as one loop over identifiers.
add_ids : List String → List String → Result (List String)
add_ids [] seen = ok seen
add_ids (x ∷ xs) seen = elim (one_of x seen) [
  | true ↦ err (message "duplicate record_id in batch")
  | false ↦ add_ids xs (x ∷ seen)
]

add_record_ids-add_ids :
    {R : Type 0} (id : R → String) (rs : List (Validated R)) (seen : List String)
    → add_record_ids id rs seen ≡ add_ids (ids_of id rs) seen
unfolding add_record_ids add_ids
add_record_ids-add_ids id [] seen = refl
add_record_ids-add_ids id (r ∷ rs) seen = elim (Bool-cases (one_of (id r.content) seen)) [
  | inl again ↦ rw (again, add_record_ids, add_ids)
  | inr fresh ↦
      rw (fresh, add_record_ids, add_ids) (add_record_ids-add_ids id rs (id r.content ∷ seen))
]

add_ids-append :
    (xs ys seen : List String)
    → add_ids (xs ++ ys) seen ≡ (add_ids xs seen >>= λ more. add_ids ys more)
unfolding add_ids
add_ids-append [] ys seen = refl
add_ids-append (x ∷ xs) ys seen = elim (Bool-cases (one_of x seen)) [
  | inl again ↦ rw (again, add_ids)
  | inr fresh ↦ rw (fresh, add_ids) (add_ids-append xs ys (x ∷ seen))
]

not-mem_of_fresh : (x : String) (seen : List String) → one_of x seen ≡ false → ¬ Memᴰ x seen
not-mem_of_fresh x seen h m = cc ((one_of_iff x seen).1 m)

fresh_of_not-mem : (x : String) (seen : List String) → ¬ Memᴰ x seen → one_of x seen ≡ false
fresh_of_not-mem x seen h = elim (Bool-cases (one_of x seen)) [
  | inl there ↦ absurd (h ((one_of_iff x seen).0 there))
  | inr fresh ↦ fresh
]

-- None of the identifiers has been seen.
abbrev AreNew : List String → List String → Type 0
AreNew xs seen = All (λ x. ¬ Memᴰ x seen) xs

add_ids_sound :
    (xs seen : List String) {s : List String}
    → add_ids xs seen ≡ ok s
    → Distinct xs × AreNew xs seen
unfolding add_ids
add_ids_sound [] seen h = (tt, tt)
add_ids_sound (x ∷ xs) seen h = elim (Bool-cases (one_of x seen)) [
  | inl again ↦ cc (rw (again, add_ids) at h)
  | inr fresh ↦
      let (distinct, new) = add_ids_sound xs (x ∷ seen) (rw (fresh, add_ids) at h) in
      (
        (λ m. All-mem (λ y. ¬ Memᴰ y (x ∷ seen)) xs x new m (Memᴰ.head refl), distinct),
        (not-mem_of_fresh x seen fresh, All-imp (λ y k m. k (Memᴰ.tail m)) xs new),
      )
]

AreNew-cons :
    (x : String) (xs seen : List String) → ¬ Memᴰ x xs → AreNew xs seen → AreNew xs (x ∷ seen)
AreNew-cons x [] seen h new = tt
AreNew-cons x (y ∷ ys) seen h (p, new) = (still, AreNew-cons x ys seen (λ m. h (Memᴰ.tail m)) new)
  where
    still : ¬ Memᴰ y (x ∷ seen)
    still (Memᴰ.head e) = h (Memᴰ.head (sym e))
    still (Memᴰ.tail m) = p m

add_ids_complete :
    (xs seen : List String)
    → Distinct xs
    → AreNew xs seen
    → (s : List String) × (add_ids xs seen ≡ ok s)
unfolding add_ids
add_ids_complete [] seen d new = (seen, refl)
add_ids_complete (x ∷ xs) seen (here, d) (p, new) =
    let (s, done) = add_ids_complete xs (x ∷ seen) d (AreNew-cons x xs seen here new) in
    (s, rw (fresh_of_not-mem x seen p, add_ids) done)

validate-add_ids :
    (b : ValidatedBatch) → validate_unique_record_ids b ≡ (add_ids (record_ids b) [] >>= λ _. ok tt)
unfolding validate_unique_record_ids
validate-add_ids b = simp (add_record_ids-add_ids, add_ids-append, >>=_assoc)

AreNew-nil : (xs : List String) → AreNew xs []
AreNew-nil [] = tt
AreNew-nil (x ∷ xs) = ((λ m. elim m [ ]), AreNew-nil xs)

-- The check passes exactly when no record identifier occurs twice in the batch, in one stream or
-- across streams.
pub validate_unique_record_ids_iff :
    (b : ValidatedBatch) → (validate_unique_record_ids b ≡ ok tt) ↔ Distinct (record_ids b)
validate_unique_record_ids_iff b = (
  λ h.
      let (s, done, _) = >>=-eq-ok (add_ids (record_ids b) []) _ (sym (validate-add_ids b) ∙ h) in
      (add_ids_sound (record_ids b) [] done).0,
  λ d.
      let (s, done) = add_ids_complete (record_ids b) [] d (AreNew-nil (record_ids b)) in
      rw (validate-add_ids b, done) refl,
)
