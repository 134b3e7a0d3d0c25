-- ===== src/ContractV2/Types.antt =====
-- internal/contract/v2/contract.go: the records of the V2 contract. A pointer is an `Option`, an
-- unsigned integer a natural number, and the type `product.ID` a string.
use linka_plays_metric.Prelude.{String, ℕ, ◌+◌, Option, List, Time, Bool, Bytes, Result, length}

abbrev pub schema_version : ℕ
schema_version = 2

abbrev pub max_batch_records : ℕ
max_batch_records = 500

abbrev pub max_batch_bytes : ℕ
max_batch_bytes = 524_288

pub record Scope : Type 0 where
  pub product : String
  pub subject_key : String
  pub person_key : Option String
  pub org_key : Option String

pub record BatchHeader : Type 0 where
  pub schema_version : ℕ
  pub batch_id : String
  pub scope : Scope
  pub stream : String
  pub sent_at : String

pub record AppMetadata : Type 0 where
  pub version : String
  pub build : String
  pub platform : String
  pub os_version : String
  pub locale : String

pub record CommonRecord : Type 0 where
  pub record_id : String
  pub occurred_at : String
  pub kind : String
  pub app_session_id : String
  pub app : AppMetadata
  pub page : Option String
  pub mode : Option String

pub record TechnicalRecord : Type 0 where
  pub record_id : String
  pub occurred_at : String
  pub kind : String
  pub app_session_id : String
  pub app : AppMetadata
  pub component : String
  pub state : Option String
  pub error_fingerprint : Option String
  pub dropped_count : Option ℕ
  pub drop_reason : Option String

-- A float64. A finite one is a multiple of 2 ^ -1074: its sign, and the multiple.
pub data Float64 : Type 0 where
  nan : Float64
  infinity : (negative : Bool) → Float64
  finite : (negative : Bool) → ℕ → Float64

pub record PlaysRecord : Type 0 where
  pub record_id : String
  pub occurred_at : String
  pub kind : String
  pub app_session_id : String
  pub game_session_id : String
  pub app : AppMetadata
  pub game_id : String
  pub game_category : String
  pub input_method : String
  pub level_index : Option ℕ
  pub outcome : Option String
  pub duration_ms : Option ℕ
  pub success_count : Option ℕ
  pub mistake_count : Option ℕ
  pub hint_count : Option ℕ
  pub valid_gaze_ratio : Option Float64

pub record ProductRecord : Type 0 where
  pub record_id : String
  pub occurred_at : String
  pub kind : String
  pub app_session_id : String
  pub app : AppMetadata

pub record OutcomeRecord : Type 0 where
  pub record_id : String
  pub occurred_at : String
  pub kind : String
  pub app_session_id : String
  pub app : AppMetadata
  pub result : Option String
  pub source : Option String
  pub mode : Option String
  pub count_bucket : Option String
  pub duration_bucket : Option String
  pub failure_code : Option String

-- `CommonBatch`, `TechnicalBatch`, `PlaysBatch`, `ProductBatch` and `OutcomeBatch`.
pub record Batch (R : Type 0) : Type 0 where
  pub header : BatchHeader
  pub records : List R

-- `ValidatedCommonRecord` and its four siblings: a record with its parsed time.
pub record Validated (R : Type 0) : Type 0 where
  pub content : R
  pub occurred_at_time : Time

pub record ValidatedBatch : Type 0 where
  pub header : BatchHeader
  pub sent_at_time : Time
  pub product_key : String
  pub common_records : List (Validated CommonRecord)
  pub technical_records : List (Validated TechnicalRecord)
  pub plays_records : List (Validated PlaysRecord)
  pub product_records : List (Validated ProductRecord)
  pub outcome_records : List (Validated OutcomeRecord)

unfoldable pub record_count : ValidatedBatch → ℕ
record_count b =
    length b.common_records
    + length b.technical_records
    + length b.plays_records
    + length b.product_records
    + length b.outcome_records

pub record PrivacyRequest : Type 0 where
  pub schema_version : ℕ
  pub request_id : String
  pub scope : Scope
  pub action : String
  pub requested_at : String

abbrev pub privacy_opt_out : String
privacy_opt_out = "opt_out"

abbrev pub privacy_delete : String
privacy_delete = "delete"

pub record ValidatedPrivacyRequest : Type 0 where
  pub request : PrivacyRequest
  pub product_key : String
  pub requested_at_time : Time

-- `jsonstrict.DecodeObject` into each type of the contract, with the typed decoding of
-- encoding/json.
pub record Decoder : Type 0 where
  pub envelope : Bytes → Result BatchHeader
  pub common : Bytes → Result (Batch CommonRecord)
  pub technical : Bytes → Result (Batch TechnicalRecord)
  pub plays : Bytes → Result (Batch PlaysRecord)
  pub product : Bytes → Result (Batch ProductRecord)
  pub outcome : Bytes → Result (Batch OutcomeRecord)
  pub privacy : Bytes → Result PrivacyRequest
