-- ===== src/ContractV1/Properties.antt =====
-- internal/contract/v1/contract.go: the properties of an event, one record for each shape, and
-- `decodeStrict` of validate.go, which reads them.
use linka_plays_metric.Prelude.{
  String, ℕ, Option, [], ◌∷◌, Bool, true, false, eqb, Bytes, Result, ok, err, message, guard, ◌>>◌,
}
use linka_plays_metric.ContractV2.{Float64}
use linka_plays_metric.ContractV1.Types.{Batch, PrivacyRequest, InternalPrivacyRequest}

pub record PageProperties : Type 0 where
  pub page : String

pub record ModeProperties : Type 0 where
  pub mode : String

pub record SettingsProperties : Type 0 where
  pub setting_key : String
  pub enabled : Option Bool
  pub number : Option Float64

pub record GameProperties : Type 0 where
  pub game_id : String
  pub mode : String
  pub game_category : String

pub record GameFinishedProperties : Type 0 where
  pub game_id : String
  pub result : String
  pub reason : String

pub record GameInterruptedProperties : Type 0 where
  pub game_id : String
  pub reason : String

pub record LevelProperties : Type 0 where
  pub game_id : String
  pub level_index : Option ℕ

pub record TargetProperties : Type 0 where
  pub game_id : String
  pub level_index : Option ℕ
  pub target_kind : String
  pub input_method : String
  pub elapsed_ms : Option ℕ
  pub reason : String

pub record OutcomeProperties : Type 0 where
  pub game_id : String
  pub level_index : Option ℕ
  pub target_kind : String
  pub input_method : String
  pub response_ms : Option ℕ

pub record HintProperties : Type 0 where
  pub game_id : String
  pub level_index : Option ℕ
  pub hint_kind : String

pub record DifficultyProperties : Type 0 where
  pub game_id : String
  pub difficulty : ℕ

pub record TobiiProperties : Type 0 where
  pub state : String

pub record UpdaterProperties : Type 0 where
  pub state : String
  pub version : String

pub record ErrorProperties : Type 0 where
  pub fingerprint : String
  pub component : String

pub record QueueDroppedProperties : Type 0 where
  pub dropped_count : ℕ
  pub reason : String

-- `decoder.Decode(destination)` of encoding/json with unknown fields disallowed: the value, and
-- whether the next `Decode` reports `io.EOF`.
abbrev pub Reader : Type 0 → Type 0
Reader X = Bytes → Result (X × Bool)

-- What encoding/json and bytes.TrimSpace do: a reader for each type of the contract, and for the
-- privacy requests `jsonstrict.DecodeObject`.
pub record Json : Type 0 where
  pub trim_space : Bytes → Bytes
  pub batch : Reader Batch
  pub empty : Reader (Unit {0})
  pub page : Reader PageProperties
  pub mode : Reader ModeProperties
  pub settings : Reader SettingsProperties
  pub game : Reader GameProperties
  pub game_finished : Reader GameFinishedProperties
  pub game_interrupted : Reader GameInterruptedProperties
  pub level : Reader LevelProperties
  pub target : Reader TargetProperties
  pub outcome : Reader OutcomeProperties
  pub hint : Reader HintProperties
  pub difficulty : Reader DifficultyProperties
  pub tobii : Reader TobiiProperties
  pub updater : Reader UpdaterProperties
  pub failure : Reader ErrorProperties
  pub queue_dropped : Reader QueueDroppedProperties
  pub privacy : Bytes → Result PrivacyRequest
  pub internal_privacy : Bytes → Result InternalPrivacyRequest

-- `len(trimmed) != 0 && trimmed[0] == '{'`
abbrev pub is_object : Bytes → Bool
is_object [] = false
is_object (c ∷ cs) = eqb c b'{'

abbrev pub read_all : {X : Type 0} → Result (X × Bool) → Result X
read_all (err e) = err e
read_all (ok (x, true)) = ok x
read_all (ok (x, false)) = err (message "unexpected data after JSON object")

unfoldable pub decode_strict : {X : Type 0} → Json → Reader X → Bytes → Result X
decode_strict json read bytes = do
  guard (is_object (json.trim_space bytes)) (message "expected JSON object")
  read_all (read (json.trim_space bytes))
