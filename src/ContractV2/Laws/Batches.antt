-- ===== src/ContractV2/Laws/Batches.antt =====
-- internal/contract/v2/parse.go: what a batch that `ParseBatch` accepts looks like.
use linka_plays_metric.Prelude.{
  String, ℕ, suc, ◌≤◌, ◌≡◌, refl, sym, ap, ◌∙◌, inl, inr, Option, none, some, List, [], ◌∷◌, map,
  true, arith, Time, Result, ok, wrap, Option-cases, length, length-map, All, >>=-eq-ok, wrap-eq-ok,
  Result-cases, subst, ap₂,
}
use linka_plays_metric.Product.{Spec, lookup}
use linka_plays_metric.ContractV2.Types.{Scope, Batch, Validated}
use linka_plays_metric.ContractV2.Fields.{validate_record_count}
use linka_plays_metric.ContractV2.Batches.{
  opaque_or_none, validate_scope, validate_records, parse_records,
}
use linka_plays_metric.ContractV2.Laws.Fields.{IsOpaque, opaque_key_pattern-IsOpaque}

abbrev pub IsOpaqueOrNone : Option String → Type 0
IsOpaqueOrNone none = Unit
IsOpaqueOrNone (some key) = IsOpaque key

opaque_or_none_sound : (o : Option String) → opaque_or_none o ≡ true → IsOpaqueOrNone o
opaque_or_none_sound none h = tt
opaque_or_none_sound (some key) h = opaque_key_pattern-IsOpaque key h

-- A scope of a registered product whose keys are opaque.
pub record IsScope (scope : Scope) (spec : Spec) : Type 0 where
  pub registered : lookup scope.product ≡ some spec
  pub subject : IsOpaque scope.subject_key
  pub person : IsOpaqueOrNone scope.person_key
  pub org : IsOpaqueOrNone scope.org_key

pub validate_scope_sound :
    (scope : Scope) (spec : Spec) → validate_scope scope ≡ ok spec → IsScope scope spec
unfolding validate_scope
validate_scope_sound scope spec h = elim (Option-cases (lookup scope.product)) [
  | inl missing ↦ ground arith
  | inr (found, there) ↦ record {
    registered = ground arith;
    subject = opaque_key_pattern-IsOpaque scope.subject_key (ground arith);
    person = opaque_or_none_sound scope.person_key (ground arith);
    org = opaque_or_none_sound scope.org_key (ground arith);
  }
]

validate_records-cons :
    {R : Type 0} (validate : R → Result (Validated R)) (index : ℕ) (r : R) (rs : List R)
    (vs : List (Validated R))
    → validate_records validate index (r ∷ rs) ≡ ok vs
    → (v : Validated R) × (ws : List (Validated R)) × (validate r ≡ ok v)
      × (validate_records validate (suc index) rs ≡ ok ws)
      × (v ∷ ws ≡ vs)
unfolding validate_records
validate_records-cons validate index r rs vs h = elim (Result-cases (validate r)) [
  | inr (e, failed) ↦ cc (rw (failed, validate_records) at h)
  | inl (v, parsed) ↦ elim (Result-cases (validate_records validate (suc index) rs)) [
    | inr (e, failed) ↦ cc (rw (parsed, failed, validate_records) at h)
    | inl (ws, rest) ↦ (v, ws, parsed, rest, cc (rw (parsed, rest, validate_records) at h))
  ]
]

-- The loop keeps the records, their number and their order, and each is valid at its parsed time.
validate_records_sound :
    {R : Type 0} (validate : R → Result (Validated R)) (IsGood : R → Time → Type 0)
    → ((r : R) (v : Validated R)
        → validate r ≡ ok v
        → (v.content ≡ r) × IsGood r v.occurred_at_time)
    → (index : ℕ) (rs : List R) (vs : List (Validated R))
    → validate_records validate index rs ≡ ok vs
    → (map (λ v. v.content) vs ≡ rs) × All (λ v. IsGood v.content v.occurred_at_time) vs
unfolding validate_records
validate_records_sound validate IsGood good index [] [] h = (refl, tt)
validate_records_sound validate IsGood good index [] (v ∷ vs) h = cc
validate_records_sound validate IsGood good index (r ∷ rs) vs h =
    let (v, ws, parsed, rest, same) = validate_records-cons validate index r rs vs h in
    let (e, fine) = good r v parsed in
    let (es, all_fine) = validate_records_sound validate IsGood good (suc index) rs ws rest in
    rw (← same) (
      ap₂ (λ a as'. a ∷ as') e es,
      (subst (λ x. IsGood x v.occurred_at_time) (sym e) fine, all_fine),
    )

-- What one stream of an accepted batch holds: the decoded records, in order, between 1 and 500 of
-- them, each valid.
pub record IsStream {R : Type 0} (decoded : Result (Batch R)) (IsGood : R → Time → Type 0)
    (vs : List (Validated R)) : Type 0 where
  pub batch : Batch R
  pub decoding : decoded ≡ ok batch
  pub contents : map (λ v. v.content) vs ≡ batch.records
  pub not_empty : 1 ≤ length vs
  pub not_long : length vs ≤ 500
  pub valid : All (λ v. IsGood v.content v.occurred_at_time) vs

pub parse_records_sound :
    {R : Type 0} (what : String) (decoded : Result (Batch R)) (validate : R → Result (Validated R))
    (IsGood : R → Time → Type 0)
    → ((r : R) (v : Validated R)
        → validate r ≡ ok v
        → (v.content ≡ r) × IsGood r v.occurred_at_time)
    → (vs : List (Validated R)) → parse_records what decoded validate ≡ ok vs
    → IsStream decoded IsGood vs
unfolding parse_records validate_record_count
parse_records_sound what decoded validate IsGood good vs h =
    let (batch, found, rest) = >>=-eq-ok (wrap what decoded) _ h in
    let (kept, fine) =
      validate_records_sound validate IsGood good 0 batch.records vs (ground arith) in
    let same : length vs ≡ length batch.records =
      sym (length-map (λ (v : Validated _). v.content) vs) ∙ ap length kept in
    record {
      batch = batch;
      decoding = wrap-eq-ok what decoded found;
      contents = kept;
      not_empty = ground arith;
      not_long = ground arith;
      valid = fine;
    }
