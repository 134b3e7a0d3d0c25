-- ===== src/ContractV2/Laws/Outcome.antt =====
-- internal/contract/v2/parse.go: what the validators of the product and outcome streams accept.
use linka_plays_metric.Prelude.{
  String, one_of, Bool-cases, refl, ◌≡◌, inl, inr, Option, none, some, List, [], ◌∷◌, arith, Time,
  ok, Memᴰ, one_of_iff, Platform, Option-cases,
}
use linka_plays_metric.Product.{Spec, OutcomeRule, allows_product_kind, outcome_rule, requires}
use linka_plays_metric.ContractV2.Types.{ProductRecord, OutcomeRecord, Validated}
use linka_plays_metric.ContractV2.Records.{
  validate_outcome_enum, check_outcome_fields, timed, validate_product_record,
  validate_outcome_record,
}
use linka_plays_metric.ContractV2.Laws.Fields.{
  IsBase, validate_base_record_sound, validate_base_record_complete,
}

pub record IsProduct (p : Platform) (r : ProductRecord) (sent_at : Time) (spec : Spec) (t : Time)
    : Type 0 where
  pub base : IsBase p r.record_id r.occurred_at r.app_session_id r.app sent_at t
  pub kind : Memᴰ r.kind spec.product_kinds

module _ (p : Platform) (r : ProductRecord) (sent_at : Time) (spec : Spec) where
  pub validate_product_record_sound :
      (v : Validated ProductRecord)
      → validate_product_record p r sent_at spec ≡ ok v
      → (v.content ≡ r) × IsProduct p r sent_at spec v.occurred_at_time
  unfolding validate_product_record allows_product_kind
  validate_product_record_sound v h = (
    ground arith,
    record {
      base = validate_base_record_sound p _ _ _ _ sent_at v.occurred_at_time (ground arith);
      kind = (one_of_iff _ _).0 (ground arith);
    },
  )

  pub validate_product_record_complete :
      (t : Time)
      → IsProduct p r sent_at spec t
      → validate_product_record p r sent_at spec ≡ ok (timed r t)
  unfolding validate_product_record allows_product_kind
  validate_product_record_complete t v =
      rw (validate_base_record_complete p _ _ _ _ sent_at t v.base, (one_of_iff _ _).1 v.kind)

-- An optional value of an outcome record: given if the rule requires it, and registered if given.
abbrev pub IsRegistered : Option String → List String → String → List String → Type 0
IsRegistered none allowed field required = ¬ Memᴰ field required
IsRegistered (some value) allowed field required = Memᴰ value allowed

pub validate_outcome_enum_sound :
    (name : String) (value : Option String) (allowed : List String) (field : String)
    (required : List String)
    → validate_outcome_enum name value allowed (one_of field required) ≡ ok tt
    → IsRegistered value allowed field required
unfolding validate_outcome_enum
validate_outcome_enum_sound name none allowed field required h =
    λ m. let found = (one_of_iff field required).1 m in ground arith
validate_outcome_enum_sound name (some value) [] field required h = cc
validate_outcome_enum_sound name (some value) (a ∷ allowed) field required h =
    (one_of_iff _ _).0 (ground arith)

pub validate_outcome_enum_complete :
    (name : String) (value : Option String) (allowed : List String) (field : String)
    (required : List String)
    → IsRegistered value allowed field required
    → validate_outcome_enum name value allowed (one_of field required) ≡ ok tt
unfolding validate_outcome_enum
validate_outcome_enum_complete name none allowed field required h =
    elim (Bool-cases (one_of field required)) [
      | inl found ↦ absurd (h ((one_of_iff field required).0 found))
      | inr missing ↦ rw missing refl
    ]
validate_outcome_enum_complete name (some value) [] field required h = elim h [ ]
validate_outcome_enum_complete name (some value) (a ∷ allowed) field required h =
    rw ((one_of_iff _ _).1 h)

pub record IsOutcome (p : Platform) (r : OutcomeRecord) (sent_at : Time) (spec : Spec) (t : Time)
    : Type 0 where
  pub base : IsBase p r.record_id r.occurred_at r.app_session_id r.app sent_at t
  pub rule : OutcomeRule
  pub registered : outcome_rule spec r.kind ≡ some rule
  pub result : IsRegistered r.result rule.results "result" rule.required
  pub source : IsRegistered r.source rule.sources "source" rule.required
  pub mode : IsRegistered r.mode rule.modes "mode" rule.required
  pub count_bucket : IsRegistered r.count_bucket rule.count_buckets "count_bucket" rule.required
  pub duration_bucket :
      IsRegistered r.duration_bucket rule.duration_buckets "duration_bucket" rule.required
  pub failure_code : IsRegistered r.failure_code rule.failure_codes "failure_code" rule.required

module _ (p : Platform) (r : OutcomeRecord) (sent_at : Time) (spec : Spec) where
  pub validate_outcome_record_sound :
      (v : Validated OutcomeRecord)
      → validate_outcome_record p r sent_at spec ≡ ok v
      → (v.content ≡ r) × IsOutcome p r sent_at spec v.occurred_at_time
  unfolding validate_outcome_record check_outcome_fields requires
  validate_outcome_record_sound v h = elim (Option-cases (outcome_rule spec r.kind)) [
    | inl missing ↦ ground arith
    | inr (rule, found) ↦ (
      ground arith,
      record {
        base = validate_base_record_sound p _ _ _ _ sent_at v.occurred_at_time (ground arith);
        rule = rule;
        registered = found;
        result = validate_outcome_enum_sound "result" r.result _ "result" _ (ground arith);
        source = validate_outcome_enum_sound "source" r.source _ "source" _ (ground arith);
        mode = validate_outcome_enum_sound "mode" r.mode _ "mode" _ (ground arith);
        count_bucket =
            validate_outcome_enum_sound "count_bucket" r.count_bucket _ "count_bucket" _
              (ground arith);
        duration_bucket =
            validate_outcome_enum_sound "duration_bucket" r.duration_bucket _ "duration_bucket" _
              (ground arith);
        failure_code =
            validate_outcome_enum_sound "failure_code" r.failure_code _ "failure_code" _
              (ground arith);
      },
    )
  ]

  pub validate_outcome_record_complete :
      (t : Time)
      → IsOutcome p r sent_at spec t
      → validate_outcome_record p r sent_at spec ≡ ok (timed r t)
  unfolding validate_outcome_record check_outcome_fields requires
  validate_outcome_record_complete t v = rw (
    validate_base_record_complete p _ _ _ _ sent_at t v.base,
    v.registered,
    validate_outcome_enum_complete "result" r.result _ "result" _ v.result,
    validate_outcome_enum_complete "source" r.source _ "source" _ v.source,
    validate_outcome_enum_complete "mode" r.mode _ "mode" _ v.mode,
    validate_outcome_enum_complete "count_bucket" r.count_bucket _ "count_bucket" _ v.count_bucket,
    validate_outcome_enum_complete "duration_bucket" r.duration_bucket _ "duration_bucket" _
        v.duration_bucket,
    validate_outcome_enum_complete "failure_code" r.failure_code _ "failure_code" _ v.failure_code,
  )
