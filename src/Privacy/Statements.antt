-- ===== src/Privacy/Statements.antt =====
-- The database server behind internal/clickhouse/store_privacy.go, as a parameter.
use linka_plays_metric.Prelude.{String, ℕ, ◌<◌, ◌≡◌, ◌≢◌, Option, none, some, List, Time}
use linka_plays_metric.Store.{Reply, done, Op}
use linka_plays_metric.Privacy.Requests.{
  Request, QueueRow, ProgressRow, Condition, to_millis, progress_to_millis,
}

-- A version is newer than the one that is read now, if any.
abbrev pub IsNewerThan : Time → Option Time → Type 0
IsNewerThan version none = Unit
IsNewerThan version (some old) = old < version

abbrev pub queue_version : Option QueueRow → Option Time
queue_version none = none
queue_version (some row) = some row.updated_at

abbrev pub progress_version : Option ProgressRow → Option Time
progress_version none = none
progress_version (some row) = some row.updated_at

-- `queue_row` and `progress_row` are what a `FINAL` read of a key yields, `selected` how many rows of
-- a table a condition selects. Every statement may fail. The laws are those of the engine and of a
-- driver that hands a time.Time over with its milliseconds, as the columns keep it; a read that
-- does not fail yields that row; an insert that does not fail is read from then on if its version is
-- newer, and an insert with an older version is never read; an insert of one key or table leaves
-- the others alone; and a DELETE with mutations_sync that does not fail has removed what it
-- selects, while a statement never adds rows to an events table.
pub record Server : Type 1 where
  pub State : Type 0
  pub queue_row : State → String → String → Option QueueRow
  pub progress_row : State → String → String → String → Option ProgressRow
  pub selected : State → String → Condition → ℕ
  pub query_queue : String → String → State → Reply (Option QueueRow)
  pub query_pending : ℕ → State → Reply (List (Request × Option String))
  pub query_progress : String → String → String → State → Reply (Option ProgressRow)
  pub insert_queue : QueueRow → Op State (Unit {0})
  pub insert_progress : ProgressRow → Op State (Unit {0})
  pub delete_rows : String → Condition → Op State (Unit {0})
  pub query_queue_law :
      (p i : String) (s : State) (o : Option QueueRow)
      → query_queue p i s ≡ done o
      → o ≡ queue_row s p i
  pub query_progress_law :
      (p i t : String) (s : State) (o : Option ProgressRow)
      → query_progress p i t s ≡ done o
      → o ≡ progress_row s p i t
  pub insert_queue_newer :
      (row : QueueRow) (s s' : State)
      → insert_queue row s ≡ (done tt, s')
      → IsNewerThan
          (to_millis row).updated_at
          (queue_version (queue_row s row.request.scope.product row.request.request_id))
      → queue_row s' row.request.scope.product row.request.request_id ≡ some (to_millis row)
  pub insert_queue_older :
      (row old : QueueRow) (s : State)
      → queue_row s row.request.scope.product row.request.request_id ≡ some old
      → (to_millis row).updated_at < old.updated_at
      → queue_row (insert_queue row s).1 row.request.scope.product row.request.request_id ≡ some old
  pub insert_progress_newer :
      (row : ProgressRow) (s s' : State)
      → insert_progress row s ≡ (done tt, s')
      → IsNewerThan
          (progress_to_millis row).updated_at
          (progress_version (progress_row s row.product row.request_id row.table_name))
      → progress_row s' row.product row.request_id row.table_name ≡ some (progress_to_millis row)
  pub insert_progress_elsewhere :
      (row : ProgressRow) (s : State) (t : String)
      → t ≢ row.table_name
      → progress_row (insert_progress row s).1 row.product row.request_id t
        ≡ progress_row s row.product row.request_id t
  pub insert_progress_selected :
      (row : ProgressRow) (s : State) (t : String) (c : Condition)
      → selected (insert_progress row s).1 t c ≡ selected s t c
  pub delete_rows_progress :
      (t : String) (c : Condition) (s : State) (p i u : String)
      → progress_row (delete_rows t c s).1 p i u ≡ progress_row s p i u
  pub delete_rows_done :
      (t : String) (c : Condition) (s s' : State)
      → delete_rows t c s ≡ (done tt, s')
      → selected s' t c ≡ 0
  pub delete_rows_elsewhere :
      (t u : String) (c : Condition) (s : State)
      → selected s u c ≡ 0
      → selected (delete_rows t c s).1 u c ≡ 0
