-- ===== src/Store/Laws/Idempotency.antt =====
-- internal/clickhouse/store_v2.go: what a second call of `InsertV2` for a batch answers, and what a
-- call that is refused has written.
use linka_plays_metric.Prelude.{
  String, ℕ, ◌≡◌, ◌≢◌, ◌⊎◌, subst, ap₂, &&_split, all-mem, refl, sym, ap, ◌∙◌, inl, inr, Option,
  none, some, List, all, Memᴰ, ◌&&◌, true, ◌==◌, eq_iff, eq_refl, arith, Time, eqb, Bool-cases,
  if◌then◌else◌,
}
use linka_plays_metric.ContractV2.{ValidatedBatch, record_count}
use linka_plays_metric.ContractV2.Laws.Unique.{record_ids}
use linka_plays_metric.Store.Replies.{
  Op, suppressed_scope, Reply, done, refused, StoreError, idempotency_conflict, duplicate_record,
  ◌>>◌, Answer-cases,
}
use linka_plays_metric.Store.Tables.{LedgerRow, RegistryRow, Database}
use linka_plays_metric.Store.Ingest.{
  Retention, IngestResult, registry_ids, register_records, check_suppression, resume, insert_v2,
}
use linka_plays_metric.Store.Laws.Ledger.{own_row, IsHeld, IsCompleted, insert_v2-IsSettled}

module _ (db : Database) (keep : Retention) where
  open db use {State, query_ledger, query_suppressions, query_registry, registry_rows}

  -- A batch that the ledger holds under another body is refused, and nothing is written.
  pub insert_v2_conflict :
      (b : ValidatedBatch) (sha : String) (start end : Time) (s : State) (row found : _)
      → query_ledger b.header.scope.product b.header.batch_id s ≡ done found
      → own_row db keep b sha s ≡ some row
      → row.body_sha ≢ sha
      → insert_v2 db keep b sha start end s ≡ (refused idempotency_conflict, s)
  unfolding insert_v2 resume
  insert_v2_conflict b sha start end s row found asked here other =
      rw (asked, db.query_ledger_law _ _ s found asked, here)
        (elim (Bool-cases (row.body_sha == sha)) [
          | inl same ↦ elim (other ((eq_iff _ _).0 same)) [ ]
          | inr differ ↦ rw differ refl
        ])

  -- A batch that the ledger holds complete under this body is answered from the ledger.
  pub insert_v2_replay :
      (b : ValidatedBatch) (sha : String) (start end : Time) (s : State) (found : _)
      → query_ledger b.header.scope.product b.header.batch_id s ≡ done found
      → IsCompleted db keep b sha s
      → insert_v2 db keep b sha start end s
        ≡ (done (record { replayed = true; count = record_count b }), s)
  unfolding insert_v2 resume
  insert_v2_replay b sha start end s found asked (row, here, same, complete) =
      rw (asked, db.query_ledger_law _ _ s found asked, here, same, complete, eq_refl sha) refl

  -- What a later call with some body answers once the batch is complete under another.
  abbrev pub answer : String → String → ValidatedBatch → Reply IngestResult
  answer stored sha b =
      if sha == stored
      then done (record { replayed = true; count = record_count b })
      else refused idempotency_conflict

  same_row :
      (b b' : ValidatedBatch) (sha sha' : String) (s : State)
      → b'.header.scope.product ≡ b.header.scope.product
      → b'.header.batch_id ≡ b.header.batch_id
      → own_row db keep b' sha' s ≡ own_row db keep b sha s
  same_row b b' sha sha' s products batches = ap₂ (db.ledger_row s) products batches

  held_conflict :
      (b b' : ValidatedBatch) (sha sha' : String) (start end : Time) (s : State) (found : _)
      → IsHeld db keep b sha s
      → b'.header.scope.product ≡ b.header.scope.product
      → b'.header.batch_id ≡ b.header.batch_id
      → query_ledger b'.header.scope.product b'.header.batch_id s ≡ done found
      → sha' ≢ sha
      → insert_v2 db keep b' sha' start end s ≡ (refused idempotency_conflict, s)
  held_conflict b b' sha sha' start end s found (row, here, held) products batches asked other =
      insert_v2_conflict b' sha' start end s row found asked
        (same_row b b' sha sha' s products batches ∙ here) (λ e. other (sym e ∙ held))

  -- After a call that succeeded, a call for the same product and batch writes nothing, whatever its
  -- other content and the clock, if its query of the ledger is answered: the same body is answered
  -- as a replay, any other one is refused as a conflict.
  pub insert_v2_twice :
      (b b' : ValidatedBatch) (sha sha' : String) (start end start' end' : Time) (s s' : State)
      (r : IngestResult) (found : Option LedgerRow)
      → insert_v2 db keep b sha start end s ≡ (done r, s')
      → b'.header.scope.product ≡ b.header.scope.product
      → b'.header.batch_id ≡ b.header.batch_id
      → query_ledger b'.header.scope.product b'.header.batch_id s' ≡ done found
      → insert_v2 db keep b' sha' start' end' s' ≡ (answer sha sha' b', s')
  insert_v2_twice b b' sha sha' start end start' end' s s' r found first products batches asked =
      elim (Bool-cases (sha' == sha)) [
        | inl same ↦ rw same (
            insert_v2_replay b' sha' start' end' s' found asked (
              complete.0,
              same_row b b' sha sha' s' products batches ∙ complete.1,
              complete.2 ∙ sym ((eq_iff _ _).0 same),
              complete.3,
            ))
        | inr differ ↦ rw differ (
            held_conflict b b' sha sha' start' end' s' found (complete.0, complete.1, complete.2)
              products batches asked (λ e. cc ((eq_iff _ _).1 e, differ)))
      ]
    where
      complete : IsCompleted db keep b sha s'
      complete =
          subst (λ t. IsCompleted db keep b sha t) (ap (λ x. x.1) first)
            ((insert_v2-IsSettled db keep b sha start end s).1 r (ap (λ x. x.0) first))

  -- If a call that was refused has changed the batch's row in the ledger, at whatever statement it
  -- stopped, then a call for the same product and batch with any other body is refused as a
  -- conflict and writes nothing, if its query of the ledger is answered.
  pub insert_v2_after_failure :
      (b b' : ValidatedBatch) (sha sha' : String) (start end start' end' : Time) (s s' : State)
      (e : StoreError) (found : Option LedgerRow)
      → insert_v2 db keep b sha start end s ≡ (refused e, s')
      → own_row db keep b sha s' ≢ own_row db keep b sha s
      → b'.header.scope.product ≡ b.header.scope.product
      → b'.header.batch_id ≡ b.header.batch_id
      → query_ledger b'.header.scope.product b'.header.batch_id s' ≡ done found
      → sha' ≢ sha
      → insert_v2 db keep b' sha' start' end' s' ≡ (refused idempotency_conflict, s')
  insert_v2_after_failure b b' sha sha' start end start' end' s s' e found first changed products
        batches asked other =
      elim ((insert_v2-IsSettled db keep b sha start end s).0) [
        | inl kept ↦ elim (changed (sym (ap (λ x. own_row db keep b sha x.1) first) ∙ kept)) [ ]
        | inr held ↦
            held_conflict b b' sha sha' start' end' s' found
              (subst (λ t. IsHeld db keep b sha t) (ap (λ x. x.1) first) held) products batches
              asked other
      ]

  -- Nothing is written, and a success is a replay.
  abbrev pub IsUntouched : State → Reply IngestResult × State → Type 0
  IsUntouched s out = (out.1 ≡ s) × ((r : IngestResult) → out.0 ≡ done r → r.replayed ≡ true)

  IsUntouched-refused : (s : State) (e : StoreError) → IsUntouched s (refused e, s)
  IsUntouched-refused s e = (refl, λ r h. cc)

  suppressed-IsUntouched :
      (b : ValidatedBatch) (s : State) (count : ℕ) (k : Op State IngestResult)
      → query_suppressions b.header.scope b.product_key s ≡ done count
      → count ≢ 0
      → IsUntouched s ((check_suppression db keep b >> k) s)
  unfolding check_suppression
  suppressed-IsUntouched b s count k asked positive = rw asked (elim (Bool-cases (eqb count 0)) [
    | inl zero_count ↦ elim (positive (ground arith)) [ ]
    | inr more ↦ rw more (IsUntouched-refused s suppressed_scope)
  ])

  -- While a suppression covers the batch, a call writes nothing, and succeeds only for a batch
  -- that the ledger holds complete.
  pub insert_v2_suppressed :
      (b : ValidatedBatch) (sha : String) (start end : Time) (s : State) (count : ℕ)
      → query_suppressions b.header.scope b.product_key s ≡ done count
      → count ≢ 0
      → IsUntouched s (insert_v2 db keep b sha start end s)
  unfolding insert_v2 resume
  insert_v2_suppressed b sha start end s count asked positive =
      elim (Answer-cases (query_ledger b.header.scope.product b.header.batch_id s)) [
        | inr (e, refusal) ↦ rw refusal (IsUntouched-refused s e)
        | inl (found, answered) ↦ rw answered (resumed found)
      ]
    where
      resumed : (found : Option LedgerRow) → IsUntouched s (resume db keep b sha start end found s)
      resumed none = suppressed-IsUntouched b s count _ asked positive
      resumed (some row) = elim (Bool-cases (row.body_sha == sha)) [
        | inr other ↦ rw other (IsUntouched-refused s idempotency_conflict)
        | inl same ↦ rw same (elim (Bool-cases (row.status == "completed")) [
          | inl complete ↦ rw complete (refl, λ r h. cc)
          | inr open_row ↦ rw open_row (elim (Bool-cases (row.status == "reserved")) [
            | inr unknown ↦ rw unknown (IsUntouched-refused s _)
            | inl reserved ↦ rw reserved (suppressed-IsUntouched b s count _ asked positive)
          ])
        ])
      ]

  -- A row of the registry that has the product of the batch and the identifier of one of its records,
  -- in whatever stream, but another batch or another body, stops the batch before any of its rows is
  -- registered, once the query for the batch's records is answered.
  pub register_records_duplicate :
      (b : ValidatedBatch) (sha : String) (at : Time) (s : State) (rows : List RegistryRow)
      (row : RegistryRow)
      → query_registry b.header.scope.product (record_ids b) s ≡ done rows
      → Memᴰ row (registry_rows s)
      → row.scope.product ≡ b.header.scope.product
      → Memᴰ row.record_id (record_ids b)
      → (row.batch_id ≢ b.header.batch_id) ⊎ (row.body_sha ≢ sha)
      → register_records db keep b sha at s ≡ (refused duplicate_record, s)
  unfolding register_records registry_ids
  register_records_duplicate b sha at s rows row asked held own shared other =
      let m =
        db.query_registry_law b.header.scope.product (record_ids b) s rows row asked held own
          shared in
      rw asked
        (elim (Bool-cases (
          all (λ (row : RegistryRow). row.batch_id == b.header.batch_id && row.body_sha == sha)
            rows)) [
              | inl test ↦
                  let split = &&_split _ _ (all-mem _ rows row test m) in
                  elim other [
                    | inl batch ↦ elim (batch ((eq_iff _ _).0 split.0)) [ ]
                    | inr body ↦ elim (body ((eq_iff _ _).0 split.1)) [ ]
                  ]
              | inr test ↦ rw test refl
            ])
