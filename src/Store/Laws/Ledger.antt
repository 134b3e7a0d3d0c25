-- ===== src/Store/Laws/Ledger.antt =====
-- internal/clickhouse/store_v2.go: what `InsertV2` leaves in the batch ledger, on every outcome.
use linka_plays_metric.Prelude.{
  String, ◌<◌, ◌≡◌, ◌⊎◌, subst, refl, sym, ap, ◌∙◌, inl, inr, Option, none, some, map, all, Bool,
  ◌&&◌, true, false, ◌==◌, eq_iff, arith, Time, eqb, truncate_ms, Bool-cases, if◌then◌else◌,
}
use linka_plays_metric.ContractV2.{ValidatedBatch, record_count}
use linka_plays_metric.Store.Replies.{
  Op, continue, Reply, pure, done, refused, StoreError, idempotency_conflict, suppressed_scope,
  ◌>>◌, Answer-cases, Reply-cases,
}
use linka_plays_metric.Store.Tables.{
  LedgerRow, RegistryRow, EventRows, common_events, technical_events, plays_events, product_events,
  product_outcomes, IsNewer, Database,
}
use linka_plays_metric.Store.Ingest.{
  Retention, IngestResult, ledger_entry, registry_entry, registry_ids, event_rows, completed_at,
  register_records, insert_stream, check_suppression, write_batch, resume, insert_v2,
}

-- The completion is a newer version than the reservation, whatever the clock says.
pub completed_at_newer : (t now : Time) → t < completed_at t now
unfolding completed_at
completed_at_newer t now = ground arith

module _ (db : Database) (keep : Retention) (b : ValidatedBatch) (sha : String) where
  open db use {
    State, ledger_row, insert_ledger, insert_registry, query_registry, insert_events,
    query_suppressions,
  }

  -- The ledger's row for the batch.
  abbrev pub own_row : State → Option LedgerRow
  own_row s = ledger_row s b.header.scope.product b.header.batch_id

  -- The batch is reserved or completed under this body.
  abbrev pub IsHeld : State → Type 0
  IsHeld s = (row : LedgerRow) × (own_row s ≡ some row) × (row.body_sha ≡ sha)

  abbrev pub IsCompleted : State → Type 0
  IsCompleted s =
      (row : LedgerRow) × (own_row s ≡ some row) × (row.body_sha ≡ sha) × (row.status ≡ "completed")

  choose :
      (test : Bool) (m n : Op State (Unit {0})) (s : State)
      → own_row (m s).1 ≡ own_row s
      → own_row (n s).1 ≡ own_row s
      → own_row ((if test then m else n) s).1 ≡ own_row s
  choose true m n s h k = h
  choose false m n s h k = k

  sent : (rows : EventRows) (s : State) → own_row (db.insert_events rows s).1 ≡ own_row s
  sent rows s = db.insert_events_law rows s b.header.scope.product b.header.batch_id

  register_records-own_row :
      (at : Time) (s : State) → own_row (register_records db keep b sha at s).1 ≡ own_row s
  unfolding register_records
  register_records-own_row at s =
      elim (Answer-cases (query_registry b.header.scope.product (registry_ids b) s)) [
        | inr (e, asked) ↦ rw asked refl
        | inl (rows, asked) ↦
            rw asked
              (elim (Bool-cases (
                all
                  (λ (row : RegistryRow). row.batch_id == b.header.batch_id && row.body_sha == sha)
                  rows)) [
                    | inr test ↦ rw test refl
                    | inl test ↦ rw test (
                        db.insert_registry_law (map (registry_entry b sha at) (registry_ids b)) s
                          b.header.scope.product b.header.batch_id)
                  ])
      ]

  insert_stream-own_row :
      (at : Time) (s : State) → own_row (insert_stream db keep b at s).1 ≡ own_row s
  unfolding insert_stream
  insert_stream-own_row at s = elim (Bool-cases (b.header.stream == "common")) [
    | inl t1 ↦ rw t1 (sent (common_events (event_rows b b.common_records at keep.common)) s)
    | inr t1 ↦ rw t1 (elim (Bool-cases (b.header.stream == "technical")) [
      | inl t2 ↦
          rw t2 (sent (technical_events (event_rows b b.technical_records at keep.technical)) s)
      | inr t2 ↦ rw t2 (elim (Bool-cases (b.header.stream == "plays")) [
        | inl t3 ↦ rw t3 (sent (plays_events (event_rows b b.plays_records at keep.plays)) s)
        | inr t3 ↦ rw t3 (elim (Bool-cases (b.header.stream == "product")) [
          | inl t4 ↦
              rw t4 (sent (product_events (event_rows b b.product_records at keep.product)) s)
          | inr t4 ↦ rw t4 (elim (Bool-cases (b.header.stream == "outcome")) [
            | inl t5 ↦
                rw t5 (sent (product_outcomes (event_rows b b.outcome_records at keep.outcome)) s)
            | inr t5 ↦ rw t5 refl
          ])
        ])
      ])
    ])
  ]

  -- What holds if the suppression check stops the call and what holds if the call goes on.
  check_suppression-elim :
      (P : Reply IngestResult × State → Type 0) (k : Op State IngestResult) (s : State)
      → ((e : StoreError) → P (refused e, s))
      → P (k s)
      → P ((check_suppression db keep b >> k) s)
  unfolding check_suppression
  check_suppression-elim P k s stopped on =
      elim (Answer-cases (query_suppressions b.header.scope b.product_key s)) [
        | inr (e, asked) ↦ rw asked (stopped e)
        | inl (count, asked) ↦ rw asked (elim (Bool-cases (eqb count 0)) [
          | inl test ↦ rw test on
          | inr test ↦ rw test (stopped suppressed_scope)
        ])
      ]

  ended_at :
      {A : Type 0} (x : Reply A × State) (r : Reply A) (s t : State) (o : Option LedgerRow)
      → x ≡ (r, t)
      → own_row x.1 ≡ own_row s
      → own_row s ≡ o
      → own_row t ≡ o
  ended_at x r s t o ended kept here = sym (ap (λ y. own_row y.1) ended) ∙ kept ∙ here

  -- The last write and its answer.
  last_write-own_row :
      (t now : Time) (s : State) (row : LedgerRow)
      → own_row s ≡ some row
      → row.body_sha ≡ sha
      → row.ingested_at ≡ t
      → let out =
          continue
            (insert_ledger (ledger_entry keep b sha (completed_at t now) "completed") s)
            (λ _. pure {A = IngestResult} (record { replayed = false; count = record_count b })) in
        IsHeld out.1 × ((r : IngestResult) → out.0 ≡ done r → IsCompleted out.1)
  unfolding ledger_entry
  last_write-own_row t now s row here same at =
      let entry : LedgerRow = ledger_entry keep b sha (completed_at t now) "completed" in
      let newer : IsNewer entry (own_row s) =
        subst (IsNewer entry) (sym here)
          (subst (λ x. x < completed_at t now) (sym at) (completed_at_newer t now)) in
      elim (Reply-cases (insert_ledger entry s)) [
        | inl (tt, s1, ended) ↦
            let new = db.insert_ledger_done entry s s1 ended newer in
            rw ended ((entry, new, refl), λ r h. (entry, new, refl, refl))
        | inr (e, s1, ended) ↦ rw ended (
          elim (db.insert_ledger_refused entry s s1 e ended newer) [
            | inl old ↦ (row, old ∙ here, same)
            | inr new ↦ (entry, new, refl)
          ],
          λ r h. cc,
        )
      ]

  -- The three writes behind a reservation at `t`: the ledger still holds this body, and says
  -- "completed" if they all succeed.
  write_batch-own_row :
      (t now : Time) (s : State) (row : LedgerRow)
      → own_row s ≡ some row
      → row.body_sha ≡ sha
      → row.ingested_at ≡ t
      → let out = write_batch db keep b sha t now s in
        IsHeld out.1 × ((r : IngestResult) → out.0 ≡ done r → IsCompleted out.1)
  unfolding write_batch
  write_batch-own_row t now s row here same at =
      elim (Reply-cases (register_records db keep b sha t s)) [
        | inr (e, s1, ended) ↦
            rw ended (
              (row, ended_at _ _ s s1 _ ended (register_records-own_row t s) here, same),
              λ r h. cc,
            )
        | inl (_, s1, ended) ↦ rw ended (
            let here1 = ended_at _ _ s s1 _ ended (register_records-own_row t s) here in
            elim (Reply-cases (insert_stream db keep b t s1)) [
              | inr (e, s2, ended2) ↦ rw ended2 (
                (row, ended_at _ _ s1 s2 _ ended2 (insert_stream-own_row t s1) here1, same),
                λ r h. cc,
              )
              | inl (_, s2, ended2) ↦ rw ended2 (
                  last_write-own_row t now s2 row
                    (ended_at _ _ s1 s2 _ ended2 (insert_stream-own_row t s1) here1) same at)
            ])
      ]

  -- Whatever the outcome, the row is as it was or holds this body, and it is complete after success.
  abbrev pub IsSettled : State → Reply IngestResult × State → Type 0
  IsSettled s out =
      ((own_row out.1 ≡ own_row s) ⊎ IsHeld out.1)
      × ((r : IngestResult) → out.0 ≡ done r → IsCompleted out.1)

  IsSettled-refused : (s : State) (e : StoreError) → IsSettled s (refused e, s)
  IsSettled-refused s e = (inl refl, λ r h. cc)

  reserved-IsSettled :
      (start end : Time) (s : State)
      → own_row s ≡ none
      → IsSettled s (
          continue
            (insert_ledger (ledger_entry keep b sha (truncate_ms start) "reserved") s)
            (λ _. write_batch db keep b sha (truncate_ms start) end))
  unfolding ledger_entry
  reserved-IsSettled start end s absent =
      let entry : LedgerRow = ledger_entry keep b sha (truncate_ms start) "reserved" in
      let newer : IsNewer entry (own_row s) = subst (IsNewer entry) (sym absent) tt in
      elim (Reply-cases (insert_ledger entry s)) [
        | inl (tt, s1, ended) ↦
            let wrote =
              write_batch-own_row (truncate_ms start) end s1 entry
                (db.insert_ledger_done entry s s1 ended newer) refl refl in
            rw ended (inr wrote.0, wrote.1)
        | inr (e, s1, ended) ↦ rw ended (
          elim (db.insert_ledger_refused entry s s1 e ended newer) [
            | inl old ↦ inl old
            | inr new ↦ inr (entry, new, refl)
          ],
          λ r h. cc,
        )
      ]

  resume-IsSettled :
      (start end : Time) (s : State) (found : Option LedgerRow)
      → found ≡ own_row s
      → IsSettled s (resume db keep b sha start end found s)
  unfolding resume
  resume-IsSettled start end s none h =
      check_suppression-elim (IsSettled s) _ s (IsSettled-refused s)
        (reserved-IsSettled start end s (sym h))
  resume-IsSettled start end s (some row) h = elim (Bool-cases (row.body_sha == sha)) [
    | inr other ↦ rw other (IsSettled-refused s idempotency_conflict)
    | inl same ↦
        let sha_eq = (eq_iff _ _).0 same in
        rw same (elim (Bool-cases (row.status == "completed")) [
          | inl complete ↦
              rw complete (inl refl, λ r _. (row, sym h, sha_eq, (eq_iff _ _).0 complete))
          | inr incomplete ↦ rw incomplete (elim (Bool-cases (row.status == "reserved")) [
            | inr unknown ↦ rw unknown (IsSettled-refused s _)
            | inl reserved ↦ rw reserved (
                check_suppression-elim (IsSettled s) _ s (IsSettled-refused s) (
                  let wrote = write_batch-own_row row.ingested_at end s row (sym h) sha_eq refl in
                  (inr wrote.0, wrote.1)))
          ])
        ])
  ]

  -- However a call ends, the ledger's row for the batch is the one from before or holds this body;
  -- and if the call succeeds, the row holds this body and says "completed".
  pub insert_v2-IsSettled :
      (start end : Time) (s : State) → IsSettled s (insert_v2 db keep b sha start end s)
  unfolding insert_v2
  insert_v2-IsSettled start end s =
      elim (Answer-cases (db.query_ledger b.header.scope.product b.header.batch_id s)) [
        | inr (e, asked) ↦ rw asked (IsSettled-refused s e)
        | inl (found, asked) ↦
            rw asked (resume-IsSettled start end s found (db.query_ledger_law _ _ s found asked))
      ]
