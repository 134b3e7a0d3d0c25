-- ===== src/ContractV2/Laws/Fields.antt =====
-- internal/contract/v2/parse.go: what the validators of single fields accept, stated without them.
use linka_plays_metric.Prelude.{
  String, ℕ, ◌+◌, ◌*◌, ◌%◌, ◌<◌, ◌≤◌, ◌≡◌, ◌≢◌, ◌⊎◌, refl, inl, inr, some, List, [], ◌∷◌, true,
  eq_iff, arith, Time, ok, Memᴰ, one_of_iff, codes, All, all, length, Platform, millisecond, minute,
  day, year_2020, year_2100, Option-cases, &&_split,
}
use linka_plays_metric.ContractV2.Types.{AppMetadata}
use linka_plays_metric.ContractV2.Fields.{
  is_hex, opaque_key_pattern, validate_app, validate_uuid, validate_timestamp_range,
  parse_timestamp, validate_base_record,
}
use linka_plays_metric.ContractV2.Laws.Patterns.{
  IsSafe, safe_value_pattern-IsSafe, IsSafe-safe_value_pattern,
}

-- A canonical UUID that is not the nil UUID.
abbrev pub IsUuid : Platform → String → Type 0
IsUuid p value = (u : ℕ) × (p.parse_uuid value ≡ some u) × (u ≢ 0) × (p.print_uuid u ≡ value)

pub validate_uuid_sound :
    (p : Platform) (value : String) → validate_uuid p value ≡ ok tt → IsUuid p value
unfolding validate_uuid
validate_uuid_sound p value h = elim (Option-cases (p.parse_uuid value)) [
  | inl missing ↦ ground arith
  | inr (u, parsed) ↦ (
    u,
    parsed,
    ground (arith, eq_iff (p.print_uuid u) value),
    ground (arith, eq_iff (p.print_uuid u) value),
  )
]

pub validate_uuid_complete :
    (p : Platform) (value : String) → IsUuid p value → validate_uuid p value ≡ ok tt
unfolding validate_uuid
validate_uuid_complete p value (u, parsed, fresh, same) =
    ground (arith, eq_iff (p.print_uuid u) value)

-- An instant of the storage range, in whole milliseconds.
abbrev pub IsTimestamp : Platform → String → Time → Type 0
IsTimestamp p value t =
    (p.parse_time value ≡ some t) × (t % millisecond ≡ 0) × (year_2020 ≤ t) × (t < year_2100)

pub parse_timestamp_sound :
    (p : Platform) (value : String) (t : Time)
    → parse_timestamp p value ≡ ok t
    → IsTimestamp p value t
unfolding parse_timestamp validate_timestamp_range
parse_timestamp_sound p value t h = ground arith

pub parse_timestamp_complete :
    (p : Platform) (value : String) (t : Time)
    → IsTimestamp p value t
    → parse_timestamp p value ≡ ok t
unfolding parse_timestamp validate_timestamp_range
parse_timestamp_complete p value t h = ground arith

-- A lowercase SHA-256 value: 64 characters, each a lowercase hexadecimal digit.
abbrev pub IsOpaque : String → Type 0
IsOpaque value =
    (length (codes value) ≡ 64)
    × All (λ c. ((b'a' ≤ c) × (c ≤ b'f')) ⊎ ((b'0' ≤ c) × (c ≤ b'9'))) (codes value)

all-All :
    (cs : List ℕ)
    → all is_hex cs ≡ true
    → All (λ c. ((b'a' ≤ c) × (c ≤ b'f')) ⊎ ((b'0' ≤ c) × (c ≤ b'9'))) cs
all-All [] h = tt
all-All (c ∷ cs) h = (ground arith, all-All cs (&&_split _ _ h).1)

pub opaque_key_pattern-IsOpaque :
    (value : String) → opaque_key_pattern value ≡ true → IsOpaque value
unfolding opaque_key_pattern
opaque_key_pattern-IsOpaque value h =
    let (hex, size) = &&_split _ _ h in (ground arith, all-All (codes value) hex)

All-all :
    (cs : List ℕ)
    → All (λ c. ((b'a' ≤ c) × (c ≤ b'f')) ⊎ ((b'0' ≤ c) × (c ≤ b'9'))) cs
    → all is_hex cs ≡ true
All-all [] h = refl
All-all (c ∷ cs) (here, there) = let rest = All-all cs there in ground arith

pub opaque_key_pattern_complete :
    (value : String) → IsOpaque value → opaque_key_pattern value ≡ true
unfolding opaque_key_pattern
opaque_key_pattern_complete value (size, hex) = rw (All-all (codes value) hex, size)

-- The app block of a record.
pub record IsApp (app : AppMetadata) : Type 0 where
  pub version : IsSafe app.version
  pub build : IsSafe app.build
  pub os_version : IsSafe app.os_version
  pub platform : Memᴰ app.platform ("windows" ∷ "macos" ∷ "linux" ∷ "web" ∷ "android" ∷ "ios" ∷ [])
  pub locale : Memᴰ app.locale ("ru" ∷ "ru-RU" ∷ "en" ∷ "en-US" ∷ "other" ∷ [])

pub validate_app_sound : (app : AppMetadata) → validate_app app ≡ ok tt → IsApp app
unfolding validate_app
validate_app_sound app h = record {
  version = safe_value_pattern-IsSafe app.version (ground arith);
  build = safe_value_pattern-IsSafe app.build (ground arith);
  os_version = safe_value_pattern-IsSafe app.os_version (ground arith);
  platform = (one_of_iff _ _).0 (ground arith);
  locale = (one_of_iff _ _).0 (ground arith);
}

pub validate_app_complete : (app : AppMetadata) → IsApp app → validate_app app ≡ ok tt
unfolding validate_app
validate_app_complete app v = rw (
  IsSafe-safe_value_pattern app.version v.version,
  IsSafe-safe_value_pattern app.build v.build,
  IsSafe-safe_value_pattern app.os_version v.os_version,
  (one_of_iff _ _).1 v.platform,
  (one_of_iff _ _).1 v.locale,
)

-- The fields that the records of every stream share.
pub record IsBase (p : Platform) (record_id occurred_at app_session_id : String) (app : AppMetadata)
    (sent_at t : Time) : Type 0 where
  pub record_uuid : IsUuid p record_id
  pub session_uuid : IsUuid p app_session_id
  pub app_block : IsApp app
  pub time : IsTimestamp p occurred_at t
  pub not_early : sent_at ≤ t + 30 * day
  pub not_late : t ≤ sent_at + 5 * minute

module _ (p : Platform) (record_id occurred_at app_session_id : String) (app : AppMetadata)
    (sent_at t : Time) where
  pub validate_base_record_sound :
      validate_base_record p record_id occurred_at app_session_id app sent_at ≡ ok t
      → IsBase p record_id occurred_at app_session_id app sent_at t
  unfolding validate_base_record
  validate_base_record_sound h =
      let stamp = parse_timestamp_sound p occurred_at t (ground arith) in
      record {
        record_uuid = validate_uuid_sound p record_id (ground arith);
        session_uuid = validate_uuid_sound p app_session_id (ground arith);
        app_block = validate_app_sound app (ground arith);
        time = stamp;
        not_early = ground arith;
        not_late = ground arith;
      }

  pub validate_base_record_complete :
      IsBase p record_id occurred_at app_session_id app sent_at t
      → validate_base_record p record_id occurred_at app_session_id app sent_at ≡ ok t
  unfolding validate_base_record
  validate_base_record_complete v =
      rw
        (
          validate_uuid_complete p record_id v.record_uuid,
          validate_uuid_complete p app_session_id v.session_uuid,
          validate_app_complete app v.app_block,
          parse_timestamp_complete p occurred_at t v.time,
        )
        (ground arith)
