-- ===== src/Writer/Interfaces.antt =====
-- internal/writer/server.go: the interfaces Store and StoreV2, and the server.
use linka_plays_metric.Prelude.{String, ℕ, Bytes, Time, Platform}
use linka_plays_metric.ContractV1 as V1
use linka_plays_metric.ContractV2 as V2
use linka_plays_metric.Store.{Op, IngestResult}
use linka_plays_metric.Privacy.{PrivacyResult}
use linka_plays_metric.Auth.{Codec, ServiceVerifier}
use linka_plays_metric.Http.{Media}

-- A store with the states `S`.
pub record Stores (S : Type 0) : Type 0 where
  pub ping : Op S (Unit {0})
  pub insert : V1.ValidatedBatch → Op S (Unit {0})
  pub insert_v2 : V2.ValidatedBatch → String → Op S IngestResult
  pub create_privacy_request : V2.ValidatedPrivacyRequest → String → Op S PrivacyResult
  pub create_legacy_privacy_request : V1.ValidatedPrivacyRequest → String → Op S PrivacyResult

-- The libraries that the handlers call.
pub record Library : Type 0 where
  pub platform : Platform
  pub codec : Codec
  pub media : Media
  pub json : V1.Json
  pub decoder : V2.Decoder

pub record Server : Type 0 where
  pub secret : Bytes
  pub service_verifier : ServiceVerifier
  pub max_skew : ℕ

-- The two readings of the clock in a handler: the verifier's and the server's.
pub record Readings : Type 0 where
  pub verified : Time
  pub parsed : Time
