-- ===== src/Collector/Interfaces.antt =====
-- internal/collector/server.go and client.go: the interfaces EventWriter and V2Writer, their errors,
-- and the server. A nil pointer is `none`.
use linka_plays_metric.Prelude.{String, ℕ, Option, Bool, Bytes, Time, Result, Error, Platform}
use linka_plays_metric.ContractV1 as V1
use linka_plays_metric.ContractV2 as V2
use linka_plays_metric.Auth.{
  Codec, InstallationTokens, ProductTokens, IdentityJwtVerifier, IdentityLibrary, KeySet,
  ServiceVerifier,
}
use linka_plays_metric.Http.{Media}

pub data WriterError : Type 0 where
  writer_conflict writer_suppressed : WriterError
  unavailable : Error → WriterError

pub data Written (A : Type 0) : Type 0 where
  written : A → Written A
  rejected : WriterError → Written A

pub record V2WriteResult : Type 0 where
  pub count : ℕ
  pub replayed : Bool

pub record PrivacyWriteResult : Type 0 where
  pub status : String
  pub replayed : Bool

-- A writer behind which there are the states `S`.
pub record Writers (S : Type 0) : Type 0 where
  pub write : Bytes → S → Written (Unit {0}) × S
  pub write_v2 : String → Bytes → S → Written V2WriteResult × S
  pub write_privacy : String → Bytes → S → Written PrivacyWriteResult × S
  pub write_legacy_privacy : String → Bytes → S → Written PrivacyWriteResult × S

-- The libraries that the handlers call.
pub record Library : Type 0 where
  pub platform : Platform
  pub codec : Codec
  pub media : Media
  pub json : V1.Json
  pub decoder : V2.Decoder
  pub identity : IdentityLibrary
  -- `jsonstrict.DecodeObject` into the request for a token: its product
  pub decode_product : Bytes → Result String
  pub marshal_privacy : V1.InternalPrivacyRequest → Result Bytes

pub record Server : Type 0 where
  pub tokens : InstallationTokens
  pub product_tokens : Option ProductTokens
  pub identity_tokens : Option IdentityJwtVerifier
  pub legacy_product_tokens : Bool
  pub tts_outcome_verifier : ServiceVerifier
  pub tts_outcome_subject_key : String

-- What a handler reads besides its request: the clock when it checks a token, when it parses, and
-- when it issues a token; the key sets of the identity service; and a random UUID.
pub record Readings : Type 0 where
  pub checked : Time
  pub parsed : Time
  pub issued : Time
  pub keys : Result KeySet
  pub again : Result KeySet
  pub random : Result ℕ
