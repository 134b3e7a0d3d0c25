-- ===== src/Migrations/Runner.antt =====
-- migrations/runner.go: `Run`, over the interface Backend and the migrations that `Load` embeds.
use linka_plays_metric.Prelude.{
  String, ℕ, List, [], ◌∷◌, Bool, false, not, ◌||◌, ◌==◌, eqb, if◌then◌else◌, message, Option, none,
  some, ◌≡◌,
}
use linka_plays_metric.Store.{Reply, done, refused, failed, Op, ◌>>=◌, ◌>>◌, pure, refuse, ask}

pub record Migration : Type 0 where
  pub version : ℕ
  pub name : String
  pub checksum : String
  pub statements : List String

pub record AppliedMigration : Type 0 where
  pub version : ℕ
  pub name : String
  pub checksum : String

-- The row that a migration leaves in the ledger.
abbrev pub applied_row : Migration → AppliedMigration
applied_row m = record { version = m.version; name = m.name; checksum = m.checksum }

-- `Backend`, with the rows of its ledger. The laws: the ledger is what `applied` reads, a record that does not
-- fail adds its row, and no other call changes the ledger's rows.
pub record Backend : Type 1 where
  pub State : Type 0
  pub ledger : State → List AppliedMigration
  pub prepare : Op State (Unit {0})
  pub applied : State → Reply (List AppliedMigration)
  pub execute : String → Op State (Unit {0})
  pub write_record : Migration → Op State (Unit {0})
  pub prepare_law : (s : State) → ledger (prepare s).1 ≡ ledger s
  pub applied_law :
      (s : State) (rows : List AppliedMigration) → applied s ≡ done rows → rows ≡ ledger s
  pub execute_law : (statement : String) (s : State) → ledger (execute statement s).1 ≡ ledger s
  pub write_record_law :
      (m : Migration) (s t : State)
      → write_record m s ≡ (done tt, t)
      → ledger t ≡ applied_row m ∷ ledger s

-- The map `embedded`.
abbrev pub is_embedded : ℕ → List Migration → Bool
is_embedded version [] = false
is_embedded version (m ∷ ms) = eqb m.version version || is_embedded version ms

-- A lookup in the map `applied`, whose newest entry stands first.
abbrev pub find_applied : ℕ → List AppliedMigration → Option AppliedMigration
find_applied version [] = none
find_applied version (row ∷ rows) =
    let rest = find_applied version rows in if eqb row.version version then some row else rest

abbrev pub conflicts : Option AppliedMigration → AppliedMigration → Bool
conflicts none row = false
conflicts (some existing) row = not (existing.checksum == row.checksum)

-- The loop over the rows of the ledger, which fills the map `applied`.
unfoldable pub index_rows :
    List Migration → List AppliedMigration → List AppliedMigration → Reply (List AppliedMigration)
index_rows migrations [] seen = done seen
index_rows migrations (row ∷ rows) seen =
    let rest = index_rows migrations rows (row ∷ seen) in
    if not (is_embedded row.version migrations)
    then refused
        (failed (message "migration ledger contains unknown version; refusing binary rollback"))
    else if conflicts (find_applied row.version seen) row
    then refused (failed (message "migration ledger contains conflicting checksums"))
    else rest

module _ (backend : Backend) where
  open backend use {State, prepare, applied, execute, write_record}

  unfoldable pub execute_all : List String → Op State (Unit {0})
  execute_all [] = pure tt
  execute_all (statement ∷ statements) = do execute statement; execute_all statements

  -- One turn of the last loop, on what the map has for the migration.
  unfoldable pub apply_migration : Migration → Option AppliedMigration → Op State (Unit {0})
  apply_migration m (some row) =
      if not (row.name == m.name) || not (row.checksum == m.checksum)
      then refuse (failed (message "migration checksum mismatch"))
      else pure tt
  apply_migration m none = do execute_all m.statements; write_record m

  unfoldable pub apply_migrations : List Migration → List AppliedMigration → Op State (Unit {0})
  apply_migrations [] index = pure tt
  apply_migrations (m ∷ ms) index = do
    apply_migration m (find_applied m.version index)
    apply_migrations ms index

  unfoldable pub run : List Migration → Op State (Unit {0})
  run migrations = do
    prepare
    rows ← ask applied
    index ← ask (λ _. index_rows migrations rows [])
    apply_migrations migrations index
