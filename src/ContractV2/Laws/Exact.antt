-- ===== src/ContractV2/Laws/Exact.antt =====
-- internal/contract/v2/parse.go: the five record validators, each with an exact account of what it
-- accepts.
use linka_plays_metric.Prelude.{◌≡◌, ◌↔◌, sym, subst, Time, ok, Platform}
use linka_plays_metric.Product.{Spec}
use linka_plays_metric.ContractV2.Types.{
  CommonRecord, TechnicalRecord, PlaysRecord, ProductRecord, OutcomeRecord, Validated,
}
use linka_plays_metric.ContractV2.Records.{
  timed, validate_common_record, validate_technical_record, validate_plays_record,
  validate_product_record, validate_outcome_record,
}
use linka_plays_metric.ContractV2.Laws.Common.{
  IsCommon, validate_common_record_sound, validate_common_record_complete,
}
use linka_plays_metric.ContractV2.Laws.Technical.{
  IsTechnical, validate_technical_record_sound, validate_technical_record_complete,
}
use linka_plays_metric.ContractV2.Laws.Plays.{
  IsPlays, validate_plays_record_sound, validate_plays_record_complete,
}
use linka_plays_metric.ContractV2.Laws.Outcome.{
  IsProduct, IsOutcome, validate_product_record_sound, validate_product_record_complete,
  validate_outcome_record_sound, validate_outcome_record_complete,
}

-- A validated record is the record with its time.
timed_eta :
    {R : Type 0} (r : R) (v : Validated R) {x : _}
    → x ≡ ok (timed r v.occurred_at_time)
    → v.content ≡ r
    → x ≡ ok v
timed_eta r v {x} h same = subst (λ c. x ≡ ok (timed c v.occurred_at_time)) (sym same) h

module _ (p : Platform) (sent_at : Time) where
  -- A plays record is accepted, with the time it is accepted at, exactly if its identifiers, its
  -- application and its time are valid, its game is one of the product's, its category and its
  -- input method are known, its gaze ratio, if any, is a number from 0 to 1, and it suits its kind:
  -- a start has neither level, outcome nor metrics; a finish has an allowed outcome, a duration of
  -- at most a week and no level; an interaction has a level and an allowed outcome, and no metrics.
  pub validate_plays_record_iff :
      (r : PlaysRecord) (spec : Spec) (v : Validated PlaysRecord)
      → (validate_plays_record p r sent_at spec ≡ ok v)
        ↔ ((v.content ≡ r) × IsPlays p r sent_at spec v.occurred_at_time)
  validate_plays_record_iff r spec v = (
    validate_plays_record_sound p r sent_at spec v,
    λ (same, good).
        timed_eta r v (validate_plays_record_complete p r sent_at spec v.occurred_at_time good)
          same,
  )

  -- A common record is accepted, with the time it is accepted at, exactly if its identifiers, its
  -- application and its time are valid and its page and mode are those of its kind.
  pub validate_common_record_iff :
      (r : CommonRecord) (v : Validated CommonRecord)
      → (validate_common_record p r sent_at ≡ ok v)
        ↔ ((v.content ≡ r) × IsCommon p r sent_at v.occurred_at_time)
  validate_common_record_iff r v = (
    validate_common_record_sound p r sent_at v,
    λ (same, good).
        timed_eta r v (validate_common_record_complete p r sent_at v.occurred_at_time good) same,
  )

  -- A technical record is accepted, with the time it is accepted at, exactly if its identifiers, its
  -- application and its time are valid, its component is known, and it carries exactly the fields of
  -- its kind: a state, an error's fingerprint, or a count from 1 to 1,000,000 with a reason.
  pub validate_technical_record_iff :
      (r : TechnicalRecord) (v : Validated TechnicalRecord)
      → (validate_technical_record p r sent_at ≡ ok v)
        ↔ ((v.content ≡ r) × IsTechnical p r sent_at v.occurred_at_time)
  validate_technical_record_iff r v = (
    validate_technical_record_sound p r sent_at v,
    λ (same, good).
        timed_eta r v (validate_technical_record_complete p r sent_at v.occurred_at_time good) same,
  )

  -- A product record is accepted, with the time it is accepted at, exactly if its identifiers, its
  -- application and its time are valid and its kind is one that the product registers.
  pub validate_product_record_iff :
      (r : ProductRecord) (spec : Spec) (v : Validated ProductRecord)
      → (validate_product_record p r sent_at spec ≡ ok v)
        ↔ ((v.content ≡ r) × IsProduct p r sent_at spec v.occurred_at_time)
  validate_product_record_iff r spec v = (
    validate_product_record_sound p r sent_at spec v,
    λ (same, good).
        timed_eta r v (validate_product_record_complete p r sent_at spec v.occurred_at_time good)
          same,
  )

  -- An outcome record is accepted, with the time it is accepted at, exactly if its identifiers, its
  -- application and its time are valid, the product registers a rule for its kind, and each of its
  -- six values is one that the rule registers, or missing where the rule does not require it.
  pub validate_outcome_record_iff :
      (r : OutcomeRecord) (spec : Spec) (v : Validated OutcomeRecord)
      → (validate_outcome_record p r sent_at spec ≡ ok v)
        ↔ ((v.content ≡ r) × IsOutcome p r sent_at spec v.occurred_at_time)
  validate_outcome_record_iff r spec v = (
    validate_outcome_record_sound p r sent_at spec v,
    λ (same, good).
        timed_eta r v (validate_outcome_record_complete p r sent_at spec v.occurred_at_time good)
          same,
  )
