-- ===== src/Lib.antt =====
-- Verification of linka.plays-metric: the telemetry service that collects batches of anonymous
-- usage records from the LINKa applications, validates them, and writes them to ClickHouse.
--
-- The program's parts. A client posts a batch to the collector (internal/collector), which
-- authenticates it (internal/auth), parses it (internal/jsonstrict, internal/contract/v2) against
-- the registry of products (internal/product) and hands it to the writer (internal/writer), whose
-- store (internal/clickhouse) inserts it once. A privacy worker (internal/privacy) deletes what a
-- subject asks to delete; migrations creates the tables.
--
-- The files, and the code that each models.
--   Prelude            shared names, tests, lists, text, results; `Platform`, the packages
--                      github.com/google/uuid and time as parameters. A `Time` counts nanoseconds
--                      from the earliest instant of Go's time.Time.
--   Product            internal/product/registry.go: `Defs` the types, constants and methods,
--                      `Plays`, `Cards` and `Speech` the entries, `Registry` the map and `lookup`
--                      for Lookup. A Go map is the list of its entries.
--   ContractV1         internal/contract/v1: `Types` and `Properties` are contract.go; `Fields`,
--                      `Cases` (the cases of validateProperties), `Batches` are validate.go:
--                      `parse_batch` for ParseBatch; `Privacy` is privacy.go. The typed
--                      decoding is the parameter `Json`.
--   JsonStrict         internal/jsonstrict/decode.go: `decode_object` for DecodeObject and
--                      `validate_value` for validateValue, on tokens that the parameter
--                      `TokenReader` reads. Its typed decoding is a `Reader`, as in ContractV1.
--   ContractV2         internal/contract/v2: `Types` is contract.go; `Fields`, `Records` and
--                      `Batches` are parse.go: `parse_batch` for ParseBatch, `validate_x` for
--                      validateX. A pointer is an Option, an error a `Result`, a regular
--                      expression a test on the codes of the text. The cases of a validator's
--                      `switch` on the kind are its `check_x_kind`.
--   Auth               internal/auth: `Services` is service.go, `Writers` writer.go, `Installations`
--                      installation.go, `Products` product.go, `Identities` and `KeySets`
--                      identity_jwt.go: `sign` and `verify` for the methods of the service's signer
--                      and verifier, `issue_x` and `verify_x` for those of the tokens. `Codecs` has
--                      the functions of crypto, encoding and strconv as the parameter `Codec`, with
--                      their laws `IsCodec`; `Clock` the conversions of seconds since 1970.
--   Store              internal/clickhouse/store_v2.go: `Ingest` has `insert_v2` for InsertV2 and
--                      its parts; `Tables` has the rows of ingest_batches_v2, record_registry_v2
--                      and the event tables, and the database server as the parameter `Database`
--                      with the laws of its engine. Every statement may fail and says what state it
--                      leaves. The mutex of the store serialises the calls of one process, so that
--                      one call is one operation; the two readings of the clock are arguments.
--   Privacy            internal/privacy/worker.go and internal/clickhouse/store_privacy.go:
--                      `Versions` has the versions and delays, `Queue` the operations on
--                      privacy_suppressions_v2, `Deletion` DeleteTelemetryRequest, `Worker` has
--                      `run_once` for RunOnce over the interfaces Repository and Deleter, and
--                      `Statements` the database server as the parameter `Server`. A reading of
--                      the clock is an argument of the call that makes it.
--   Migrations         migrations/runner.go: `Runner` has `run` for Run over the interface Backend,
--                      which is a parameter with the laws of its ledger, and `Statements` has
--                      `split_statements` for splitStatements on the runes of a text, with
--                      strings.TrimSpace as a parameter. `Loading` has `load` for Load on
--                      the list of the embedded files; its migrations are an argument of `run`.
--   Http               internal/httpx/http.go: requests and responses, and in `Checks` the early
--                      returns of a handler. mime.ParseMediaType is the parameter `Media`.
--   Writer             internal/writer/server.go: `Interfaces` has the interfaces Store and StoreV2
--                      as the record `Stores` over a state, `Handlers` one function per handler.
--   Collector          internal/collector: `Access` and `Handlers` are server.go, `Client` is
--                      client.go; the interfaces of the writer are the record `Writers`, the
--                      transport under the client is a parameter.
--   Fixtures, Tests    a platform, records and an in-memory server, and runs on them.
--
-- Bounds. The constants are the source's: 512 KiB and 1 to 500 records for a batch, the ranges of
-- times, the lengths of the patterns, the five minutes of a lease. Unsigned integers are natural
-- numbers; the conversion uint16(batch.RecordCount()) and the uint16 of the attempts are written
-- out as remainders. An int64 of seconds since 1970 is its word below 2 ^ 64, and a duration of a
-- configuration a natural number of nanoseconds. A float64 is its exact value in multiples of
-- 2 ^ -1074. All functions are structurally recursive, but for validateValue, which runs on fuel:
-- three steps for each byte of the text, and one.
--
-- Assumed. The laws of `Server` say that ClickHouse is handed, and keeps, the milliseconds of a
-- time; the driver, which formats the arguments of a statement, is not part of the repository.
--
-- Not modelled. The parameters `Decoder` and `Json` stand for DecodeObject of internal/jsonstrict at
-- each type of a contract, which is modelled by itself in JsonStrict; the typed decoding of
-- encoding/json behind it is library code, and so are the cryptography, the parameter `Codec`, and
-- the decoding and the signature check of an identity token, the parameter `IdentityLibrary`. The
-- fundraising contract with its store and handlers, Insert of the V1 store, the ClickHouse backend
-- of the migrations, the reading of the environment, the routing and the commands are not part of
-- this development.
pub mod Prelude
pub mod Product
pub mod ContractV1
pub mod JsonStrict
pub mod ContractV2
pub mod Auth
pub mod Store
pub mod Privacy
pub mod Migrations
pub mod Http
pub mod Writer
pub mod Collector
pub mod Fixtures
pub mod Tests
