-- ===== src/Migrations/Laws/Settled.antt =====
-- migrations/runner.go: `Run` on a ledger that holds the embedded migrations.
use linka_plays_metric.Prelude.{
  List, [], ◌∷◌, Memᴰ, true, false, eqb, arith, ◌≡◌, refl, sym, ap, subst, ◌∙◌, inl, inr, ◌⊎◌, some,
  eq_refl, Bool-cases, Option-cases,
}
use linka_plays_metric.Store.{done}
use linka_plays_metric.Migrations.Runner.{
  Migration, AppliedMigration, applied_row, Backend, is_embedded, find_applied, conflicts,
  index_rows, apply_migration, apply_migrations, run,
}
use linka_plays_metric.Migrations.Laws.Recorded.{find_applied-mem}

is_embedded-mem :
    (m : Migration) (ms : List Migration) → Memᴰ m ms → is_embedded m.version ms ≡ true
is_embedded-mem m [] k = elim k [ ]
is_embedded-mem m (x ∷ ms) (Memᴰ.head e) = rw e (ground arith)
is_embedded-mem m (x ∷ ms) (Memᴰ.tail k) = let rest = is_embedded-mem m ms k in ground arith

find_applied-found :
    (row : AppliedMigration) (rows : List AppliedMigration)
    → Memᴰ row rows
    → (r : AppliedMigration) × (find_applied row.version rows ≡ some r)
find_applied-found row [] k = elim k [ ]
find_applied-found row (x ∷ rows) (Memᴰ.head e) = (x, rw e (ground arith))
find_applied-found row (x ∷ rows) (Memᴰ.tail k) = elim (Bool-cases (eqb x.version row.version)) [
  | inl same ↦ (x, rw same refl)
  | inr other ↦ let (r, found) = find_applied-found row rows k in (r, rw other found)
]

module _ (ms : List Migration) where
  -- The row of an embedded migration.
  abbrev pub IsOfEmbedded : AppliedMigration → Type 0
  IsOfEmbedded row = (m : Migration) × Memᴰ m ms × (row ≡ applied_row m)

  -- No two of the migrations have one version, as `Load` makes sure.
  abbrev pub AreDistinct : Type 0
  AreDistinct = (m n : Migration) → Memᴰ m ms → Memᴰ n ms → m.version ≡ n.version → m ≡ n

  same_row :
      (r row : AppliedMigration)
      → AreDistinct
      → IsOfEmbedded r
      → IsOfEmbedded row
      → r.version ≡ row.version
      → r ≡ row
  same_row r row distinct (m, k, e) (n, l, f) v =
      e
      ∙ ap applied_row (distinct m n k l (ap (λ x. x.version) (sym e) ∙ v ∙ ap (λ x. x.version) f))
      ∙ sym f

  no_conflict :
      (row : AppliedMigration) (seen : List AppliedMigration)
      → AreDistinct
      → ((r : AppliedMigration) → Memᴰ r seen → IsOfEmbedded r)
      → IsOfEmbedded row
      → conflicts (find_applied row.version seen) row ≡ false
  no_conflict row seen distinct old here = elim (Option-cases (find_applied row.version seen)) [
    | inl missing ↦ rw missing refl
    | inr (r, found) ↦
        let (k, v) = find_applied-mem row.version seen r found in
        rw (found, same_row r row distinct (old r k) here v, eq_refl row.checksum) refl
  ]

  index_rows-found :
      (rows seen : List AppliedMigration)
      → AreDistinct
      → ((r : AppliedMigration) → Memᴰ r rows → IsOfEmbedded r)
      → ((r : AppliedMigration) → Memᴰ r seen → IsOfEmbedded r)
      → (index : List AppliedMigration) × (index_rows ms rows seen ≡ done index)
        × ((r : AppliedMigration) → Memᴰ r index → IsOfEmbedded r)
        × ((r : AppliedMigration) → (Memᴰ r rows ⊎ Memᴰ r seen) → Memᴰ r index)
  unfolding index_rows
  index_rows-found [] seen distinct f g =
      (seen, refl, g, λ r k. elim k [ inl j ↦ elim j [ ] | inr j ↦ j ])
  index_rows-found (row ∷ rows) seen distinct f g =
      let (m, k, e) = f row (Memᴰ.head refl) in
      let known : is_embedded row.version ms ≡ true =
        subst (λ r. is_embedded r.version ms ≡ true) (sym e) (is_embedded-mem m ms k) in
      let fine = no_conflict row seen distinct g (m, k, e) in
      let (index, ended, good, all_in) =
        index_rows-found rows (row ∷ seen) distinct (λ r j. f r (Memᴰ.tail j))
          (λ r j. elim j [
            | Memᴰ.head h ↦ subst IsOfEmbedded (sym h) (m, k, e)
            | Memᴰ.tail l ↦ g r l
          ]) in
      (
        index,
        rw (known, fine, index_rows) ended,
        good,
        λ r j. elim j [
          | inl (Memᴰ.head h) ↦ all_in r (inr (Memᴰ.head h))
          | inl (Memᴰ.tail l) ↦ all_in r (inl l)
          | inr l ↦ all_in r (inr (Memᴰ.tail l))
        ],
      )

  module _ (backend : Backend) where
    open backend use {State, ledger, prepare, applied}

    apply_migrations_settled :
        (todo : List Migration) (index : List AppliedMigration) (s : State)
        → AreDistinct
        → ((m : Migration) → Memᴰ m todo → Memᴰ m ms)
        → ((m : Migration) → Memᴰ m todo → Memᴰ (applied_row m) index)
        → ((r : AppliedMigration) → Memᴰ r index → IsOfEmbedded r)
        → apply_migrations backend todo index s ≡ (done tt, s)
    unfolding apply_migrations apply_migration
    apply_migrations_settled [] index s distinct inside recorded good = refl
    apply_migrations_settled (m ∷ todo) index s distinct inside recorded good =
        let (r, found) = find_applied-found (applied_row m) index (recorded m (Memᴰ.head refl)) in
        let (k, v) = find_applied-mem m.version index r found in
        let same : r ≡ applied_row m =
          same_row r (applied_row m) distinct (good r k) (m, inside m (Memᴰ.head refl), refl) v in
        let here : find_applied m.version index ≡ some (applied_row m) =
          found ∙ ap (λ x. some x) same in
        rw (here, eq_refl m.name, eq_refl m.checksum)
          (apply_migrations_settled todo index s distinct (λ x j. inside x (Memᴰ.tail j))
            (λ x j. recorded x (Memᴰ.tail j)) good)

    -- If the ledger holds exactly the embedded migrations, whose versions are distinct, then a run whose
    -- preparation and query are answered succeeds and does nothing but prepare: no statement is
    -- executed and no row is recorded.
    pub run_settled :
        (s u : State) (rows : List AppliedMigration)
        → AreDistinct
        → ((m : Migration) → Memᴰ m ms → Memᴰ (applied_row m) (ledger s))
        → ((row : AppliedMigration) → Memᴰ row (ledger s) → IsOfEmbedded row)
        → prepare s ≡ (done tt, u)
        → applied u ≡ done rows
        → run backend ms s ≡ (done tt, u)
    unfolding run
    run_settled s u rows distinct recorded good prepared read =
        let same : rows ≡ ledger s =
          backend.applied_law u rows read
          ∙ sym (ap (λ x. ledger x.1) prepared)
          ∙ backend.prepare_law s in
        let (index, indexed, fine, all_in) =
          index_rows-found rows [] distinct (λ r k. good r (subst (λ l. Memᴰ r l) same k))
            (λ r k. elim k [ ]) in
        rw (prepared, read, indexed)
          (apply_migrations_settled ms index u distinct (λ m k. k)
            (λ m k.
              all_in (applied_row m)
                (inl (subst (λ l. Memᴰ (applied_row m) l) (sym same) (recorded m k))))
            fine)
