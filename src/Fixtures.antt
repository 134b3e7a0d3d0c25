-- ===== src/Fixtures.antt =====
-- A small platform, a batch and a database server, on which the tests run the models of
-- internal/contract/v2 and internal/clickhouse.
pub mod Queue
pub mod Tokens
pub mod Codes
pub mod Legacy
pub mod Keys
pub mod Services
use linka_plays_metric.Prelude.{
  Memᴰ, inr, subst, one_of_iff, eq_iff, Bool-cases, true, String, ℕ, zero, suc, ◌+◌, ◌*◌, ◌≡◌, refl,
  sym, ap, ◌∙◌, inl, Option, none, some, List, [], ◌∷◌, ◌++◌, eqb, ◌&&◌, ◌==◌, eq_refl,
  if◌then◌else◌, one_of, Time, ok, err, message, Platform, year_2020, hour, lookup as find,
}
use linka_plays_metric.ContractV2.{
  Scope, BatchHeader, AppMetadata, PlaysRecord, CommonRecord, TechnicalRecord, ProductRecord,
  OutcomeRecord, Validated, ValidatedBatch, Decoder,
}
use linka_plays_metric.Store.{
  LedgerRow, RegistryRow, EventRows, Database, done, refused, failed, Op, Retention,
}

abbrev pub batch_uuid : String
batch_uuid = "6f1c1f5e-0c55-4b5e-9d59-9b0a3d0f3c01"

abbrev pub record_uuid : String
record_uuid = "6f1c1f5e-0c55-4b5e-9d59-9b0a3d0f3c02"

abbrev pub session_uuid : String
session_uuid = "6f1c1f5e-0c55-4b5e-9d59-9b0a3d0f3c03"

abbrev pub noon : Time
noon = year_2020 + 12 * hour

-- A platform that knows three UUIDs and two texts of an instant.
abbrev pub platform : Platform
platform = record {
  parse_uuid = λ text. find text ((batch_uuid, 1) ∷ (record_uuid, 2) ∷ (session_uuid, 3) ∷ []);
  print_uuid = λ u. if eqb u 1 then batch_uuid else if eqb u 2 then record_uuid else session_uuid;
  parse_time = λ text.
      find text
        (("2020-01-01T12:00:00Z", noon) ∷ ("2020-01-01T11:00:00Z", year_2020 + 11 * hour) ∷ []);
}

abbrev pub scope : Scope
scope = record {
  product = "linka-plays";
  subject_key = "0123456789abcdef0123456789abcdef0123456789abcdef0123456789abcdef";
  person_key = none;
  org_key = none;
}

abbrev pub header : BatchHeader
header = record {
  schema_version = 2;
  batch_id = batch_uuid;
  scope = scope;
  stream = "plays";
  sent_at = "2020-01-01T12:00:00Z";
}

abbrev pub app : AppMetadata
app = record {
  version = "1.4.0";
  build = "140";
  platform = "windows";
  os_version = "10.0.19045";
  locale = "ru-RU";
}

abbrev pub plays_record : PlaysRecord
plays_record = record {
  record_id = record_uuid;
  occurred_at = "2020-01-01T11:00:00Z";
  kind = "session_started";
  app_session_id = session_uuid;
  game_session_id = session_uuid;
  app = app;
  game_id = "aquarium";
  game_category = "gaze-basics";
  input_method = "gaze";
  level_index = none;
  outcome = none;
  duration_ms = none;
  success_count = none;
  mistake_count = none;
  hint_count = none;
  valid_gaze_ratio = none;
}

abbrev pub common_record : CommonRecord
common_record = record {
  record_id = record_uuid;
  occurred_at = "2020-01-01T11:00:00Z";
  kind = "mode_changed";
  app_session_id = session_uuid;
  app = app;
  page = none;
  mode = some "self";
}

abbrev pub technical_record : TechnicalRecord
technical_record = record {
  record_id = record_uuid;
  occurred_at = "2020-01-01T11:00:00Z";
  kind = "queue_dropped";
  app_session_id = session_uuid;
  app = app;
  component = "telemetry";
  state = none;
  error_fingerprint = none;
  dropped_count = some 3;
  drop_reason = some "capacity";
}

abbrev pub product_record : ProductRecord
product_record = record {
  record_id = record_uuid;
  occurred_at = "2020-01-01T11:00:00Z";
  kind = "tts_generated";
  app_session_id = session_uuid;
  app = app;
}

abbrev pub outcome_record : OutcomeRecord
outcome_record = record {
  record_id = record_uuid;
  occurred_at = "2020-01-01T11:00:00Z";
  kind = "cache_operation";
  app_session_id = session_uuid;
  app = app;
  result = some "hit";
  source = none;
  mode = none;
  count_bucket = none;
  duration_bucket = none;
  failure_code = none;
}

-- A record with the time that its text has on the platform.
abbrev pub an_hour_before : {R : Type 0} → R → Validated R
an_hour_before r = record { content = r; occurred_at_time = year_2020 + 11 * hour }

abbrev pub plays_timed : Validated PlaysRecord
plays_timed = an_hour_before plays_record

-- A decoder for which every text is the batch above.
abbrev pub decoder : Decoder
decoder = record {
  envelope = λ _. ok header;
  common = λ _. err (message "not a common batch");
  technical = λ _. err (message "not a technical batch");
  plays = λ _. ok (record { header = header; records = plays_record ∷ [] });
  product = λ _. err (message "not a product batch");
  outcome = λ _. err (message "not an outcome batch");
  privacy = λ _. err (message "not a privacy request");
}

abbrev pub batch : ValidatedBatch
batch = record {
  header = header;
  sent_at_time = noon;
  product_key = "a0f1ccdc0e30ce4f267cb358ab74be5ce227f04c744d81fbaf2e2ac59893e37c";
  common_records = [];
  technical_records = [];
  plays_records = plays_timed ∷ [];
  product_records = [];
  outcome_records = [];
}

abbrev pub forever : Retention
forever = record {
  ingest_batches = 0;
  common = 0;
  technical = 0;
  plays = 0;
  product = 0;
  outcome = 0;
  privacy = 0;
}

-- The server's state: how many writes it will still take, the ledger and the registry,
-- newest row first, and the suppressed subjects.
abbrev pub Content : Type 0
Content = ℕ × List LedgerRow × List RegistryRow × List String

abbrev pub newest : String → String → List LedgerRow → Option LedgerRow
newest p i [] = none
newest p i (row ∷ rows) =
    let rest = newest p i rows in
    if row.scope.product == p && row.batch_id == i then some row else rest

pub newest-own :
    (row : LedgerRow) (rows : List LedgerRow)
    → newest row.scope.product row.batch_id (row ∷ rows) ≡ some row
newest-own row rows = rw (eq_refl row.scope.product, eq_refl row.batch_id)

-- A write takes effect if the server still takes one.
abbrev pub write_ledger : LedgerRow → Op Content (Unit {0})
write_ledger row (zero, rows, registry, suppressed) =
    (refused (failed (message "connection lost")), (zero, rows, registry, suppressed))
write_ledger row (suc n, rows, registry, suppressed) =
    (done tt, (n, row ∷ rows, registry, suppressed))

abbrev pub write_registry : List RegistryRow → Op Content (Unit {0})
write_registry entries (zero, rows, registry, suppressed) =
    (refused (failed (message "connection lost")), (zero, rows, registry, suppressed))
write_registry entries (suc n, rows, registry, suppressed) =
    (done tt, (n, rows, entries ++ registry, suppressed))

abbrev pub write_events : EventRows → Op Content (Unit {0})
write_events events (zero, rows, registry, suppressed) =
    (refused (failed (message "connection lost")), (zero, rows, registry, suppressed))
write_events events (suc n, rows, registry, suppressed) = (done tt, (n, rows, registry, suppressed))

abbrev pub known : String → List String → List RegistryRow → List RegistryRow
known p ids [] = []
known p ids (row ∷ rows) =
    let rest = known p ids rows in
    if row.scope.product == p && one_of row.record_id ids then row ∷ rest else rest

abbrev pub ledger_of : Content → String → String → Option LedgerRow
ledger_of s p i = newest p i s.1

pub write_ledger-done :
    (row : LedgerRow) (s s' : Content)
    → write_ledger row s ≡ (done tt, s')
    → ledger_of s' row.scope.product row.batch_id ≡ some row
write_ledger-done row (zero, rows, registry, suppressed) s' h = cc
write_ledger-done row (suc n, rows, registry, suppressed) s' h =
    ap (λ x. ledger_of x.1 row.scope.product row.batch_id) (sym h) ∙ newest-own row rows

pub write_ledger-refused :
    (row : LedgerRow) (s s' : Content) (e : _)
    → write_ledger row s ≡ (refused e, s')
    → ledger_of s' row.scope.product row.batch_id ≡ ledger_of s row.scope.product row.batch_id
write_ledger-refused row (zero, rows, registry, suppressed) s' e h =
    ap (λ x. ledger_of x.1 row.scope.product row.batch_id) (sym h)
write_ledger-refused row (suc n, rows, registry, suppressed) s' e h = cc

pub write_registry-ledger :
    (entries : List RegistryRow) (s : Content) (p i : String)
    → ledger_of (write_registry entries s).1 p i ≡ ledger_of s p i
write_registry-ledger entries (zero, rows, registry, suppressed) p i = refl
write_registry-ledger entries (suc n, rows, registry, suppressed) p i = refl

pub write_events-ledger :
    (events : EventRows) (s : Content) (p i : String)
    → ledger_of (write_events events s).1 p i ≡ ledger_of s p i
write_events-ledger events (zero, rows, registry, suppressed) p i = refl
write_events-ledger events (suc n, rows, registry, suppressed) p i = refl

-- A row that the registry holds is read by its product and its identifier.
pub known-Mem :
    (p : String) (ids : List String) (rows : List RegistryRow) (row : RegistryRow)
    → Memᴰ row rows
    → row.scope.product ≡ p
    → Memᴰ row.record_id ids
    → Memᴰ row (known p ids rows)
known-Mem p ids [] row m own asked = elim m [ ]
known-Mem p ids (first ∷ rows) row (Memᴰ.head e) own asked =
    let product : (first.scope.product == p) ≡ true =
      (eq_iff _ _).1 (ap (λ x. x.scope.product) (sym e) ∙ own) in
    let id : one_of first.record_id ids ≡ true =
      subst (λ x. one_of x.record_id ids ≡ true) e ((one_of_iff _ _).1 asked) in
    rw (product, id, known) (Memᴰ.head e)
known-Mem p ids (first ∷ rows) row (Memᴰ.tail m) own asked =
    let later = known-Mem p ids rows row m own asked in
    elim (Bool-cases (first.scope.product == p && one_of first.record_id ids)) [
      | inl chosen ↦ rw (chosen, known) (Memᴰ.tail later)
      | inr other ↦ rw (other, known) later
    ]

pub done-eq : {A : Type 0} (a b : A) → done a ≡ done b → b ≡ a
done-eq a b h = cc

abbrev pub server : Database
server = record {
  State = Content;
  ledger_row = ledger_of;
  query_ledger = λ p i s. done (ledger_of s p i);
  insert_ledger = write_ledger;
  query_suppressions = λ sc key s. done (if one_of sc.subject_key s.3 then 1 else 0);
  query_registry = λ p ids s. done (known p ids s.2);
  registry_rows = λ s. s.2;
  query_registry_law = λ p ids s rows row asked held own shared.
      subst (Memᴰ row) (sym (done-eq (known p ids s.2) rows asked))
        (known-Mem p ids s.2 row held own shared);
  insert_registry = write_registry;
  insert_events = write_events;
  query_ledger_law = λ p i s o. done-eq (ledger_of s p i) o;
  insert_ledger_done = λ row s s' h _. write_ledger-done row s s' h;
  insert_ledger_refused = λ row s s' e h _. inl (write_ledger-refused row s s' e h);
  insert_registry_law = write_registry-ledger;
  insert_events_law = write_events-ledger;
}

-- A server that takes `n` writes and holds nothing yet.
abbrev pub fresh : ℕ → Content
fresh n = (n, [], [], [])
