-- ===== src/Tests/Migrations.antt =====
-- migrations/runner.go: a run on a backend in memory, and some texts split into statements.
use linka_plays_metric.Prelude.{
  ◌-◌, some, none, Result, ok, String, ℕ, List, [], ◌∷◌, Memᴰ, codes, eqb, if◌then◌else◌, ◌≡◌, refl,
  sym, ap, ◌∙◌, ok, err, message,
}
use linka_plays_metric.Store.{done}
use linka_plays_metric.Migrations.{
  Migration, AppliedMigration, applied_row, Backend, run, index_rows, apply_migrations,
  apply_migration, execute_all, split_statements, scan, step, step_plain, flush, Library, load,
  load_file,
}
use linka_plays_metric.Migrations.Laws.Recorded.{IsRecorded, run-IsRecorded}
use linka_plays_metric.Migrations.Laws.Settled.{AreDistinct, IsOfEmbedded, run_settled}
use linka_plays_metric.Migrations.Laws.Loaded.{load-AreDistinct}
use linka_plays_metric.Fixtures.{done-eq}

-- The texts that were executed, and the ledger.
abbrev Content : Type 0
Content = List String × List AppliedMigration

abbrev backend : Backend
backend = record {
  State = Content;
  ledger = λ s. s.1;
  prepare = λ s. (done tt, s);
  applied = λ s. done s.1;
  execute = λ statement s. (done tt, (statement ∷ s.0, s.1));
  write_record = λ m s. (done tt, (s.0, applied_row m ∷ s.1));
  prepare_law = λ s. refl;
  applied_law = λ s rows. done-eq s.1 rows;
  execute_law = λ statement s. refl;
  write_record_law = λ m s t h. ap (λ x. x.1.1) (sym h);
}

abbrev events : Migration
events = record {
  version = 1;
  name = "001_events.sql";
  checksum = "c1";
  statements = "CREATE TABLE events" ∷ [];
}

abbrev sessions : Migration
sessions = record {
  version = 2;
  name = "002_sessions.sql";
  checksum = "c2";
  statements = "CREATE TABLE sessions" ∷ "ALTER TABLE events" ∷ [];
}

-- The first migration has been applied before.
abbrev begun : Content
begun = ([], applied_row events ∷ [])

abbrev ended : Content
ended = (
  "ALTER TABLE events" ∷ "CREATE TABLE sessions" ∷ [],
  applied_row sessions ∷ applied_row events ∷ [],
)

run_done : run backend (events ∷ sessions ∷ []) begun ≡ (done tt, ended)
unfolding run index_rows apply_migrations apply_migration execute_all
run_done = refl

run-IsRecorded_example :
    ((m : Migration) → Memᴰ m (events ∷ sessions ∷ []) → IsRecorded backend m ended)
    × ((row : AppliedMigration) → Memᴰ row begun.1 → Memᴰ row ended.1)
run-IsRecorded_example = run-IsRecorded backend (events ∷ sessions ∷ []) begun ended run_done

only_events : (m : Migration) → Memᴰ m (events ∷ []) → m ≡ events
only_events m (Memᴰ.head e) = e
only_events m (Memᴰ.tail k) = elim k [ ]

events_distinct : AreDistinct (events ∷ [])
events_distinct = λ m n k l v. only_events m k ∙ sym (only_events n l)

events_recorded :
    (m : Migration) → Memᴰ m (events ∷ []) → Memᴰ (applied_row m) (backend.ledger begun)
events_recorded m k = rw (only_events m k) (Memᴰ.head refl)

begun_embedded :
    (row : AppliedMigration) → Memᴰ row (backend.ledger begun) → IsOfEmbedded (events ∷ []) row
begun_embedded row (Memᴰ.head e) = (events, Memᴰ.head refl, e)
begun_embedded row (Memᴰ.tail k) = elim k [ ]

run_settled_example : run backend (events ∷ []) begun ≡ (done tt, begun)
run_settled_example =
    run_settled (events ∷ []) backend begun begun begun.1 events_distinct events_recorded
      begun_embedded refl refl

-- A space in front is trimmed here, which is all that the texts need.
abbrev trim : List ℕ → List ℕ
trim [] = []
trim (c ∷ cs) = if eqb c 32 then cs else c ∷ cs

split_quoted : split_statements trim (codes "A ';' B;C--;") ≡ ok (codes "A ';' B" ∷ codes "C " ∷ [])
unfolding split_statements scan step step_plain flush
split_quoted = refl

split_open :
    split_statements trim (codes "A /* ;") ≡ err (message "unterminated SQL quote or block comment")
unfolding split_statements scan step step_plain flush
split_open = refl

-- A library for the two files below.
abbrev library : Library
library = record {
  parse_uint = λ digits. elim digits [ a ∷ b ∷ c ∷ rest ↦ some (c - 48) | _ ↦ none ];
  checksum = λ text. "sum";
  trim_space = trim;
  to_text = λ runes. "statement";
}

abbrev files : List (String × Result String)
files = ("001_events.sql", ok "A;") ∷ ("002_sessions.sql", ok "B; C") ∷ []

abbrev loaded : List Migration
loaded =
    record { version = 1; name = "001_events.sql"; checksum = "sum"; statements = "statement" ∷ [] }
    ∷ record {
      version = 2;
      name = "002_sessions.sql";
      checksum = "sum";
      statements = "statement" ∷ "statement" ∷ [];
    }
    ∷ []

files-load : load library files [] ≡ ok loaded
unfolding load load_file split_statements scan step step_plain flush
files-load = refl

load-AreDistinct_example : AreDistinct loaded
load-AreDistinct_example = load-AreDistinct library files [] loaded files-load
