-- ===== src/Migrations/Laws/Recorded.antt =====
-- migrations/runner.go: what `Run` guarantees.
use linka_plays_metric.Prelude.{
  String, ℕ, List, [], ◌∷◌, Memᴰ, false, not, ◌||◌, ◌==◌, eqb, arith, ◌≡◌, refl, sym, ap, subst,
  ◌∙◌, inl, inr, Option, none, some, eq_iff, Bool-cases,
}
use linka_plays_metric.Store.{done, continue-eq-done, Reply-cases}
use linka_plays_metric.Migrations.Runner.{
  Migration, AppliedMigration, applied_row, Backend, is_embedded, find_applied, conflicts,
  index_rows, execute_all, apply_migration, apply_migrations, run,
}

pub find_applied-mem :
    (version : ℕ) (rows : List AppliedMigration) (row : AppliedMigration)
    → find_applied version rows ≡ some row
    → Memᴰ row rows × (row.version ≡ version)
find_applied-mem version [] row h = cc
find_applied-mem version (r ∷ rows) row h = elim (Bool-cases (eqb r.version version)) [
  | inl same ↦
      let e : r ≡ row = cc (rw same at h) in
      (Memᴰ.head (sym e), subst (λ x. x.version ≡ version) e (ground arith))
  | inr other ↦ let (m, e) = find_applied-mem version rows row (rw other at h) in (Memᴰ.tail m, e)
]

-- The index holds the rows that were read and those that it began with.
index_rows-mem :
    (migrations : List Migration) (rows seen index : List AppliedMigration) (row : AppliedMigration)
    → index_rows migrations rows seen ≡ done index
    → Memᴰ row index
    → ((P : AppliedMigration → Type 0)
        → ((r : AppliedMigration) → Memᴰ r rows → P r)
        → ((r : AppliedMigration) → Memᴰ r seen → P r)
        → P row)
unfolding index_rows
index_rows-mem migrations [] seen index row h m P f g =
    let e : seen ≡ index = cc in g row (subst (λ x. Memᴰ row x) (sym e) m)
index_rows-mem migrations (r ∷ rows) seen index row h m P f g =
    elim (Bool-cases (is_embedded r.version migrations)) [
      | inr unknown ↦ cc (rw (unknown, index_rows) at h)
      | inl known ↦ elim (Bool-cases (conflicts (find_applied r.version seen) r)) [
        | inl conflict ↦ cc (rw (known, conflict, index_rows) at h)
        | inr fine ↦
            index_rows-mem migrations rows (r ∷ seen) index row (rw (known, fine, index_rows) at h)
              m P (λ x k. f x (Memᴰ.tail k))
              (λ x k. elim k [
                | Memᴰ.head e ↦ subst P (sym e) (f r (Memᴰ.head refl))
                | Memᴰ.tail later ↦ g x later
              ])
      ]
    ]

equal_fields : (a b c d : String) → (not (a == b) || not (c == d)) ≡ false → (a ≡ b) × (c ≡ d)
equal_fields a b c d h =
    (ground (arith, eq_iff a b, eq_iff c d), ground (arith, eq_iff a b, eq_iff c d))

module _ (backend : Backend) where
  open backend use {State, ledger, prepare, applied, execute, write_record}

  execute_all-ledger :
      (statements : List String) (s : State)
      → ledger (execute_all backend statements s).1 ≡ ledger s
  unfolding execute_all
  execute_all-ledger [] s = refl
  execute_all-ledger (statement ∷ statements) s = elim (Reply-cases (execute statement s)) [
    | inr (e, t, ended) ↦
        rw ended (sym (ap (λ x. ledger x.1) ended) ∙ backend.execute_law statement s)
    | inl (_, t, ended) ↦ rw ended (
        execute_all-ledger statements t
        ∙ sym (ap (λ x. ledger x.1) ended)
        ∙ backend.execute_law statement s)
  ]

  -- The ledger says that the migration was applied as it is embedded.
  abbrev pub IsRecorded : Migration → State → Type 0
  IsRecorded m s = Memᴰ (applied_row m) (ledger s)

  -- A turn that succeeds records its migration and keeps the rows of the ledger.
  apply_migration-ledger :
      (m : Migration) (found : Option AppliedMigration) (s t : State)
      → ((row : AppliedMigration)
          → found ≡ some row
          → Memᴰ row (ledger s) × (row.version ≡ m.version))
      → apply_migration backend m found s ≡ (done tt, t)
      → IsRecorded m t × ((row : AppliedMigration) → Memᴰ row (ledger s) → Memᴰ row (ledger t))
  unfolding apply_migration
  apply_migration-ledger m none s t known h =
      let (_, u, executed, recorded) = continue-eq-done (execute_all backend m.statements s) _ h in
      let kept : ledger u ≡ ledger s =
        sym (ap (λ x. ledger x.1) executed) ∙ execute_all-ledger m.statements s in
      let grown : ledger t ≡ applied_row m ∷ ledger s =
        backend.write_record_law m u t recorded ∙ ap (λ rows. applied_row m ∷ rows) kept in
      rw grown (Memᴰ.head refl, λ row k. Memᴰ.tail k)
  apply_migration-ledger m (some row) s t known h =
      elim (Bool-cases (not (row.name == m.name) || not (row.checksum == m.checksum))) [
        | inl differ ↦ cc (rw (differ, apply_migration) at h)
        | inr same ↦
            let e : s ≡ t = ap (λ x. x.1) (rw (same, apply_migration) at h) in
            let (there, version) = known row refl in
            let (names, sums) = equal_fields row.name m.name row.checksum m.checksum same in
            let here : Memᴰ (applied_row m) (ledger s) = rw (← version, ← names, ← sums) there in
            subst
              (λ u.
                IsRecorded m u × ((r : AppliedMigration) → Memᴰ r (ledger s) → Memᴰ r (ledger u)))
              e (here, λ r k. k)
      ]

  apply_migrations-ledger :
      (ms : List Migration) (index : List AppliedMigration) (s t : State)
      → ((row : AppliedMigration) → Memᴰ row index → Memᴰ row (ledger s))
      → apply_migrations backend ms index s ≡ (done tt, t)
      → ((m : Migration) → Memᴰ m ms → IsRecorded m t)
        × ((row : AppliedMigration) → Memᴰ row (ledger s) → Memᴰ row (ledger t))
  unfolding apply_migrations
  apply_migrations-ledger [] index s t known h =
      ((λ m k. elim k [ ]), λ row k. subst (λ u. Memᴰ row (ledger u)) (ap (λ x. x.1) h) k)
  apply_migrations-ledger (m ∷ ms) index s t known h =
      let (_, u, first, rest) =
        continue-eq-done (apply_migration backend m (find_applied m.version index) s) _ h in
      let (here, kept) =
        apply_migration-ledger m (find_applied m.version index) s u
          (λ row found. let (k, e) = find_applied-mem m.version index row found in (known row k, e))
          first in
      let (others, kept_too) =
        apply_migrations-ledger ms index u t (λ row k. kept row (known row k)) rest in
      (
        λ x k. elim k [
          | Memᴰ.head e ↦ kept_too (applied_row x) (subst (λ y. IsRecorded y u) (sym e) here)
          | Memᴰ.tail later ↦ others x later
        ],
        λ row k. kept_too row (kept row k),
      )

  -- After a run that succeeds, the ledger has a row for every embedded migration, with its version,
  -- its name and its checksum, and it still has every row from before.
  pub run-IsRecorded :
      (migrations : List Migration) (s t : State)
      → run backend migrations s ≡ (done tt, t)
      → ((m : Migration) → Memᴰ m migrations → IsRecorded m t)
        × ((row : AppliedMigration) → Memᴰ row (ledger s) → Memᴰ row (ledger t))
  unfolding run
  run-IsRecorded migrations s t h =
      let (_, u, prepared, h1) = continue-eq-done (prepare s) _ h in
      let (rows, v, read, h2) = continue-eq-done (applied u, u) _ h1 in
      let (index, w, indexed, h3) = continue-eq-done (index_rows migrations rows [], v) _ h2 in
      let u_w : u ≡ w = ap (λ x. x.1) read ∙ ap (λ x. x.1) indexed in
      let rows_w : rows ≡ ledger w =
        backend.applied_law u rows (ap (λ x. x.0) read) ∙ ap (λ x. ledger x) u_w in
      let s_w : ledger w ≡ ledger s =
        ap (λ x. ledger x) (sym u_w)
        ∙ sym (ap (λ x. ledger x.1) prepared)
        ∙ backend.prepare_law s in
      let (all_recorded, kept) =
        apply_migrations-ledger migrations index w t
          (λ row k.
            index_rows-mem migrations rows [] index row (ap (λ x. x.0) indexed) k
              (λ x. Memᴰ x (ledger w)) (λ x m. subst (λ l. Memᴰ x l) rows_w m) (λ x m. elim m [ ]))
          h3 in
      (all_recorded, λ row k. kept row (subst (λ l. Memᴰ row l) (sym s_w) k))
