-- ===== src/Privacy/Laws/Deletion.antt =====
-- internal/clickhouse/store_privacy.go: what a deletion that succeeds has done.
use linka_plays_metric.Prelude.{
  String, ℕ, ◌≡◌, ◌≢◌, refl, sym, subst, ◌∙◌, ap, inl, inr, Option, none, some, List, [], ◌∷◌, Memᴰ,
  Time, Bool-cases, eq_iff, ◌==◌,
}
use linka_plays_metric.Store.{Reply, done, refused, Op, continue-eq-done, Answer-cases}
use linka_plays_metric.Privacy.Requests.{Request, ProgressRow, Condition, by_scope, by_installation}
use linka_plays_metric.Privacy.Statements.{Server}
use linka_plays_metric.Privacy.Deletion.{
  condition_of, tables_of, progress_entry, attempt, delete_pending, delete_found,
  delete_telemetry_table, delete_tables, delete_telemetry_request,
}

module _ (server : Server) (request : Request) where
  open server use {State, progress_row, selected, query_progress, insert_progress, delete_rows}

  -- The progress of a table.
  abbrev pub own_progress : State → String → Option ProgressRow
  own_progress s table = progress_row s request.scope.product request.request_id table

  -- The rows that a request is about, and the tables that they may stand in: those of its scope in
  -- the tables of V2, or, for a request of V1, those of its installation in the tables of V1.
  pub data IsTarget : Condition → List String → Type 0 where
    telemetry :
        request.legacy_installation_id ≡ none
        → IsTarget (by_scope request.scope request.product_key) (
            "common_events_v2" ∷ "technical_events_v2" ∷ "plays_events_v2" ∷ "product_events_v2"
            ∷ "product_outcomes_v2" ∷ "record_registry_v2" ∷ "ingest_batches_v2" ∷ [])
    legacy :
        (installation : String)
        → request.legacy_installation_id ≡ some installation
        → IsTarget (by_installation installation) ("events" ∷ "session_summaries" ∷ [])

  IsTarget-own :
      (condition : Condition) (tables : List String)
      → IsTarget condition tables
      → (condition ≡ condition_of request) × (tables ≡ tables_of request)
  unfolding condition_of tables_of
  IsTarget-own _ _ (telemetry h) = (rw (h, condition_of) refl, rw (h, tables_of) refl)
  IsTarget-own _ _ (legacy installation h) = (rw (h, condition_of) refl, rw (h, tables_of) refl)

  -- How many rows of the request a table still has.
  abbrev left : State → String → ℕ
  left s table = selected s table (condition_of request)

  -- An empty table stays empty.
  abbrev pub StaysEmpty : Condition → State → State → Type 0
  StaysEmpty condition s t =
      (table : String) → selected s table condition ≡ 0 → selected t table condition ≡ 0

  abbrev KeepsEmpty : State → State → Type 0
  KeepsEmpty s t = StaysEmpty (condition_of request) s t

  attempt-eq-done :
      (x : Reply (Unit {0}) × State) (on_error rest : Op State (Unit {0})) (t : State)
      → attempt x on_error rest ≡ (done tt, t)
      → (u : State) × (x ≡ (done tt, u)) × (rest u ≡ (done tt, t))
  attempt-eq-done (done _, u) on_error rest t h = (u, refl, h)
  attempt-eq-done (refused e, u) on_error rest t h = cc

  left_after_insert :
      (row : ProgressRow) (r : Reply (Unit {0})) (s t : State) (table : String)
      → insert_progress row s ≡ (r, t)
      → left t table ≡ left s table
  left_after_insert row r s t table h =
      subst (λ x. left x.1 table ≡ left s table) h
        (server.insert_progress_selected row s table (condition_of request))

  -- A table whose deletion was pending and succeeded has no row of the request left, and no table
  -- that was empty has one again.
  delete_pending-left :
      (table : String) (now : Time) (n : ℕ) (s t : State)
      → delete_pending server request table now n s ≡ (done tt, t)
      → (left t table ≡ 0) × KeepsEmpty s t
  unfolding delete_pending
  delete_pending-left table now n s t h =
      let (_, s1, processing, h1) = continue-eq-done (insert_progress _ s) _ h in
      let (s2, deleted, completed) =
        attempt-eq-done (delete_rows table (condition_of request) s1) _ _ t h1 in
      (
        left_after_insert _ _ s2 t table completed
            ∙ server.delete_rows_done table (condition_of request) s1 s2 deleted,
        λ u empty.
            left_after_insert _ _ s2 t u completed
            ∙ subst (λ x. left x.1 u ≡ 0) deleted
                (server.delete_rows_elsewhere table u (condition_of request) s1
                  (left_after_insert _ _ s s1 u processing ∙ empty)),
      )

  -- A table that is marked completed has no row of the request left.
  abbrev pub MarksAreTrue : Condition → State → Type 0
  MarksAreTrue condition s =
      (table : String) (row : ProgressRow)
      → own_progress s table ≡ some row
      → row.status ≡ "completed"
      → selected s table condition ≡ 0

  abbrev MarksEmpty : State → Type 0
  MarksEmpty s = MarksAreTrue (condition_of request) s

  progress_after_insert :
      (row : ProgressRow) (r : Reply (Unit {0})) (s t : State) (table : String)
      → insert_progress row s ≡ (r, t)
      → row.product ≡ request.scope.product
      → row.request_id ≡ request.request_id
      → table ≢ row.table_name
      → own_progress t table ≡ own_progress s table
  progress_after_insert row r s t table h products ids other =
      subst (λ x. own_progress x.1 table ≡ own_progress s table) h
        (subst
          (λ p.
            progress_row (insert_progress row s).1 p request.request_id table
            ≡ progress_row s p request.request_id table)
          products
          (subst
            (λ i.
              progress_row (insert_progress row s).1 row.product i table
              ≡ progress_row s row.product i table)
            ids (server.insert_progress_elsewhere row s table other)))

  delete_pending-elsewhere :
      (table u : String) (now : Time) (n : ℕ) (s t : State)
      → delete_pending server request table now n s ≡ (done tt, t)
      → u ≢ table
      → own_progress t u ≡ own_progress s u
  unfolding delete_pending progress_entry
  delete_pending-elsewhere table u now n s t h other =
      let (_, s1, processing, h1) = continue-eq-done (insert_progress _ s) _ h in
      let (s2, deleted, completed) =
        attempt-eq-done (delete_rows table (condition_of request) s1) _ _ t h1 in
      progress_after_insert _ _ s2 t u completed refl refl other
      ∙ subst (λ x. own_progress x.1 u ≡ own_progress s1 u) deleted
          (server.delete_rows_progress table (condition_of request) s1 _ _ u)
      ∙ progress_after_insert _ _ s s1 u processing refl refl other

  -- What a part of the deletion that succeeded leaves: the tables that it worked on are empty, no
  -- other was filled, and the marks still tell the truth.
  abbrev pub AreEmptied : Condition → List String → State → State → Type 0
  AreEmptied condition tables s t =
      ((table : String) → Memᴰ table tables → selected t table condition ≡ 0)
      × StaysEmpty condition s t
      × MarksAreTrue condition t

  abbrev IsEmptied : List String → State → State → Type 0
  IsEmptied tables s t = AreEmptied (condition_of request) tables s t

  only :
      (table : String) (s : State)
      → left s table ≡ 0
      → (u : String) → Memᴰ u (table ∷ [])
      → left s u ≡ 0
  only table s empty u (Memᴰ.head e) = subst (λ v. left s v ≡ 0) (sym e) empty
  only table s empty u (Memᴰ.tail m) = elim m [ ]

  delete_pending-IsEmptied :
      (table : String) (now : Time) (n : ℕ) (s t : State)
      → MarksEmpty s
      → delete_pending server request table now n s ≡ (done tt, t)
      → IsEmptied (table ∷ []) s t
  delete_pending-IsEmptied table now n s t marks h = (only table t gone.0, gone.1, marked)
    where
      gone : (left t table ≡ 0) × KeepsEmpty s t
      gone = delete_pending-left table now n s t h

      marked : MarksEmpty t
      marked u row found completed = elim (Bool-cases (u == table)) [
        | inl same ↦ subst (λ v. left t v ≡ 0) (sym ((eq_iff _ _).0 same)) gone.0
        | inr differ ↦ gone.1 u (
            marks u row
              (sym (
                  delete_pending-elsewhere table u now n s t h (λ e. cc ((eq_iff _ _).1 e, differ)))
                ∙ found)
              completed)
      ]

  delete_telemetry_table-IsEmptied :
      (table : String) (now : Time) (s t : State)
      → MarksEmpty s
      → delete_telemetry_table server request table now s ≡ (done tt, t)
      → IsEmptied (table ∷ []) s t
  unfolding delete_telemetry_table delete_found
  delete_telemetry_table-IsEmptied table now s t marks h =
      elim (Answer-cases (query_progress request.scope.product request.request_id table s)) [
        | inr (e, asked) ↦ cc (rw (asked, delete_telemetry_table) at h)
        | inl (none, asked) ↦
            delete_pending-IsEmptied table now _ s t marks
              (rw (asked, delete_telemetry_table, delete_found) at h)
        | inl (some row, asked) ↦ elim (Bool-cases (row.status == "completed")) [
          | inr pending ↦
              delete_pending-IsEmptied table now _ s t marks
                (rw (asked, delete_telemetry_table, delete_found, pending) at h)
          | inl completed ↦
              let same : s ≡ t =
                ap (λ x. x.1) (rw (asked, delete_telemetry_table, delete_found, completed) at h) in
              subst (IsEmptied (table ∷ []) s) same (
                only table s (
                    marks table row (sym (server.query_progress_law _ _ _ s _ asked))
                      ((eq_iff _ _).0 completed)),
                λ u empty. empty,
                marks,
              )
        ]
      ]

  delete_tables-IsEmptied :
      (clock : String → Time) (tables : List String) (s t : State)
      → MarksEmpty s
      → delete_tables server request clock tables s ≡ (done tt, t)
      → IsEmptied tables s t
  unfolding delete_tables
  delete_tables-IsEmptied clock [] s t marks h =
      subst (IsEmptied [] s) (ap (λ x. x.1) h) ((λ u m. elim m [ ]), (λ u empty. empty), marks)
  delete_tables-IsEmptied clock (table ∷ tables) s t marks h =
      let (_, s1, first, rest) =
        continue-eq-done (delete_telemetry_table server request table (clock table) s) _ h in
      let (gone, kept, marks1) =
        delete_telemetry_table-IsEmptied table (clock table) s s1 marks first in
      let (others, kept1, marks2) = delete_tables-IsEmptied clock tables s1 t marks1 rest in
      (
        λ u m. elim m [
          | Memᴰ.head e ↦ kept1 u (gone u (Memᴰ.head e))
          | Memᴰ.tail later ↦ others u later
        ],
        λ u empty. kept1 u (kept u empty),
        marks2,
      )

  -- If every table that is marked completed has no row of the request left, then a deletion that
  -- succeeds leaves no row of the request in any of its tables, which `IsTarget` lists, also in those
  -- that an earlier, interrupted deletion had finished; it fills no table again, and the marks stay
  -- true.
  pub delete_telemetry_request-AreEmptied :
      (clock : String → Time) (condition : Condition) (tables : List String) (s t : State)
      → IsTarget condition tables
      → MarksAreTrue condition s
      → delete_telemetry_request server request clock s ≡ (done tt, t)
      → AreEmptied condition tables s t
  unfolding delete_telemetry_request
  delete_telemetry_request-AreEmptied clock condition tables s t target marks h =
      let (own, all_tables) = IsTarget-own condition tables target in
      let gone : IsEmptied (tables_of request) s t =
        delete_tables-IsEmptied clock (tables_of request) s t
          (subst (λ x. MarksAreTrue x s) own marks) h in
      subst (λ x. AreEmptied x tables s t) (sym own)
        (subst (λ x. IsEmptied x s t) (sym all_tables) gone)
