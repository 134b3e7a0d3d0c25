-- ===== src/ContractV1/Laws/Fields.antt =====
-- internal/contract/v1/validate.go: what the checks of single fields mean.
use linka_plays_metric.Prelude.{
  String, ℕ, ◌%◌, ◌≤◌, ◌≡◌, refl, ap, ◌*◌, ◌^◌, not, ◌⊎◌, inl, inr, Option, none, some, List, [],
  ◌∷◌, Bool, true, false, ◌==◌, eq_iff, arith, Time, ok, Memᴰ, one_of_iff, Platform, Bool-cases,
  Option-cases, All, millisecond, second,
}
use linka_plays_metric.ContractV2.{Float64, nan, infinity, finite}
use linka_plays_metric.ContractV1.Types.{AppMetadata}
use linka_plays_metric.ContractV1.Fields.{
  safe_value_pattern, validate_safe, validate_optional_safe, validate_safe_values, optional_string,
  validate_app, validate_uuids, parse_millisecond_time, outside,
}
use linka_plays_metric.ContractV2.Laws.Patterns.{IsSafe}
use linka_plays_metric.ContractV1.Laws.Patterns.{
  safe_value_pattern-IsSafe, IsSafe-safe_value_pattern,
}

-- Missing, or with the property.
abbrev pub OrNone {ℓ} : {A : Type ℓ} → (A → Type 0) → Option A → Type 0
OrNone P none = Unit
OrNone P (some a) = P a

abbrev pub or_none {ℓ} : {A : Type ℓ} → (A → Bool) → Option A → Bool
or_none test none = true
or_none test (some a) = test a

pub or_none-OrNone {ℓ} :
    {A : Type ℓ} (test : A → Bool) (P : A → Type 0)
    → ((a : A) → test a ≡ true → P a)
    → (o : Option A) → or_none test o ≡ true
    → OrNone P o
or_none-OrNone test P sound none h = tt
or_none-OrNone test P sound (some a) h = sound a h

-- A text that is missing where it is empty.
abbrev pub IsSafeOrEmpty : String → Type 0
IsSafeOrEmpty value = (value ≡ "") ⊎ IsSafe value

pub validate_safe_sound : (name value : String) → validate_safe name value ≡ ok tt → IsSafe value
unfolding validate_safe
validate_safe_sound name value h = safe_value_pattern-IsSafe value (ground arith)

pub validate_optional_safe_sound :
    (name value : String) → validate_optional_safe name value ≡ ok tt → IsSafeOrEmpty value
unfolding validate_optional_safe
validate_optional_safe_sound name value h = elim (Bool-cases (value == "")) [
  | inl blank ↦ inl ((eq_iff value "").0 blank)
  | inr there ↦ inr (validate_safe_sound name value (rw there at h))
]

pub validate_optional_safe_complete :
    (name value : String) → IsSafeOrEmpty value → validate_optional_safe name value ≡ ok tt
unfolding validate_optional_safe validate_safe
validate_optional_safe_complete name value (inl blank) = rw blank
validate_optional_safe_complete name value (inr safe) =
    let good = IsSafe-safe_value_pattern value safe in ground arith

-- What `optionalString` yields of a text that passed is safe.
pub optional_string-safe :
    (name value : String)
    → validate_optional_safe name value ≡ ok tt
    → or_none safe_value_pattern (optional_string value) ≡ true
unfolding optional_string validate_optional_safe validate_safe
optional_string-safe name value h = ground arith

-- The app block of an event or a summary.
pub record IsApp (app : AppMetadata) : Type 0 where
  pub version : IsSafe app.version
  pub build : IsSafe app.build
  pub os_version : IsSafe app.os_version
  pub locale : IsSafe app.locale
  pub platform : Memᴰ app.platform ("windows" ∷ "macos" ∷ "linux" ∷ [])

pub validate_app_sound : (app : AppMetadata) → validate_app app ≡ ok tt → IsApp app
unfolding validate_app validate_safe_values validate_safe
validate_app_sound app h = record {
  version = safe_value_pattern-IsSafe app.version (ground arith);
  build = safe_value_pattern-IsSafe app.build (ground arith);
  os_version = safe_value_pattern-IsSafe app.os_version (ground arith);
  locale = safe_value_pattern-IsSafe app.locale (ground arith);
  platform = (one_of_iff _ _).0 (ground arith);
}

pub validate_app_complete : (app : AppMetadata) → IsApp app → validate_app app ≡ ok tt
unfolding validate_app validate_safe_values validate_safe
validate_app_complete app v = rw (
  IsSafe-safe_value_pattern app.version v.version,
  IsSafe-safe_value_pattern app.build v.build,
  IsSafe-safe_value_pattern app.os_version v.os_version,
  IsSafe-safe_value_pattern app.locale v.locale,
  (one_of_iff _ _).1 v.platform,
)

module _ (p : Platform) where
  -- The text is a UUID for `uuid.Parse`, in any of its forms.
  abbrev pub IsUuid : String → Type 0
  IsUuid value = (u : ℕ) × (p.parse_uuid value ≡ some u)

  pub validate_uuids_sound :
      (values : List String) → validate_uuids p values ≡ ok tt → All IsUuid values
  unfolding validate_uuids
  validate_uuids_sound [] h = tt
  validate_uuids_sound (value ∷ values) h = elim (Option-cases (p.parse_uuid value)) [
    | inl missing ↦ cc (rw (missing, validate_uuids) at h)
    | inr (u, found) ↦ ((u, found), validate_uuids_sound values (rw (found, validate_uuids) at h))
  ]

  pub validate_uuids_complete :
      (values : List String) → All IsUuid values → validate_uuids p values ≡ ok tt
  unfolding validate_uuids
  validate_uuids_complete [] h = refl
  validate_uuids_complete (value ∷ values) ((u, found), rest) =
      rw (found, validate_uuids_complete values rest)

  -- The text is an instant for `time.Parse`, on a whole millisecond.
  abbrev pub IsMillisecond : String → Time → Type 0
  IsMillisecond value t = (p.parse_time value ≡ some t) × (t % second % millisecond ≡ 0)

  pub parse_millisecond_time_sound :
      (value : String) (t : Time) → parse_millisecond_time p value ≡ ok t → IsMillisecond value t
  unfolding parse_millisecond_time
  parse_millisecond_time_sound value t h = elim (Option-cases (p.parse_time value)) [
    | inl missing ↦ cc (rw (missing, parse_millisecond_time) at h)
    | inr (s, found) ↦ ground arith
  ]

  pub parse_millisecond_time_complete :
      (value : String) (t : Time) → IsMillisecond value t → parse_millisecond_time p value ≡ ok t
  unfolding parse_millisecond_time
  parse_millisecond_time_complete value t (found, whole) = rw (found, whole)

-- A float64 that both comparisons of the source let pass: a number from 0 to the limit, or NaN.
pub data IsWithin (limit : ℕ) (x : Float64) : Type 0 where
  not_a_number : x ≡ nan → IsWithin limit x
  zero_below : x ≡ finite true 0 → IsWithin limit x
  number : (n : ℕ) → x ≡ finite false n → n ≤ limit * 2 ^ 1074 → IsWithin limit x

pub outside_sound : (limit : ℕ) (x : Float64) → not (outside limit x) ≡ true → IsWithin limit x
unfolding outside
outside_sound limit nan h = not_a_number refl
outside_sound limit (infinity s) h = cc
outside_sound limit (finite true n) h = zero_below (ap (finite true) (ground arith))
outside_sound limit (finite false n) h = number n refl (ground arith)

pub outside_complete : (limit : ℕ) (x : Float64) → IsWithin limit x → not (outside limit x) ≡ true
unfolding outside
outside_complete limit x (not_a_number e) = rw e
outside_complete limit x (zero_below e) = rw e
outside_complete limit x (number n e small) = rw e (ground arith)
