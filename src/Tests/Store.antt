-- ===== src/Tests/Store.antt =====
-- internal/clickhouse/store_v2.go: `InsertV2` on the server of Fixtures.
use linka_plays_metric.Prelude.{
  ap, is_some, ◌==◌, eq_iff, one_of, ◌≡◌, ◌≢◌, refl, inl, true, false, [], ◌∷◌, Memᴰ, message,
  String, arith,
}
use linka_plays_metric.ContractV2.{record_count}
use linka_plays_metric.Store.{
  ledger_entry, insert_v2, resume, check_suppression, write_batch, register_records, insert_stream,
  Reply, done, refused, idempotency_conflict, duplicate_record, failed, IngestResult, RegistryRow,
  registry_ids,
}
use linka_plays_metric.Store.Laws.Ledger.{own_row, IsSettled, insert_v2-IsSettled}
use linka_plays_metric.Store.Laws.Idempotency.{
  answer, IsUntouched, insert_v2_twice, insert_v2_after_failure, insert_v2_suppressed,
  register_records_duplicate,
}
use linka_plays_metric.Fixtures.{
  Content, batch, batch_uuid, record_uuid, session_uuid, scope, noon, server, fresh, forever,
}

different : (a b : String) → (a == b) ≡ false → a ≢ b
different a b h = λ e. cc ((eq_iff a b).1 e, h)

abbrev first_call : Reply IngestResult × Content
first_call = insert_v2 server forever batch "body" noon noon (fresh 5)

first_stored : first_call ≡ (done (record { replayed = false; count = 1 }), first_call.1)
unfolding insert_v2 resume check_suppression write_batch register_records insert_stream one_of
    record_count
first_stored = refl

insert_v2-IsSettled_example : IsSettled server forever batch "body" (fresh 5) first_call
insert_v2-IsSettled_example = insert_v2-IsSettled server forever batch "body" noon noon (fresh 5)

insert_v2_twice_example :
    insert_v2 server forever batch "other" noon noon first_call.1
    ≡ (answer server forever "body" "other" batch, first_call.1)
insert_v2_twice_example =
    insert_v2_twice server forever batch batch "body" "other" noon noon noon noon (fresh 5)
      first_call.1 (record { replayed = false; count = 1 })
      (server.ledger_row first_call.1 "linka-plays" batch_uuid) first_stored refl refl refl

-- The connection is lost behind the second write.
abbrev cut_call : Reply IngestResult × Content
cut_call = insert_v2 server forever batch "body" noon noon (fresh 2)

cut_refused : cut_call ≡ (refused (failed (message "connection lost")), cut_call.1)
unfolding insert_v2 resume check_suppression write_batch register_records insert_stream one_of
cut_refused = refl

cut_changed :
    own_row server forever batch "body" cut_call.1 ≢ own_row server forever batch "body" (fresh 2)
unfolding insert_v2 resume check_suppression write_batch register_records insert_stream one_of
    ledger_entry
cut_changed = λ e. let t : true ≡ false = ap is_some e in cc t

insert_v2_after_failure_example :
    insert_v2 server forever batch "other" noon noon cut_call.1
    ≡ (refused idempotency_conflict, cut_call.1)
insert_v2_after_failure_example =
    insert_v2_after_failure server forever batch batch "body" "other" noon noon noon noon (fresh 2)
      cut_call.1 (failed (message "connection lost"))
      (server.ledger_row cut_call.1 "linka-plays" batch_uuid) cut_refused cut_changed refl refl refl
      (different "other" "body" refl)

abbrev suppressed_state : Content
suppressed_state = (5, [], [], scope.subject_key ∷ [])

suppressed_one : server.query_suppressions scope batch.product_key suppressed_state ≡ done 1
unfolding one_of
suppressed_one = refl

insert_v2_suppressed_example :
    IsUntouched server forever suppressed_state
      (insert_v2 server forever batch "body" noon noon suppressed_state)
insert_v2_suppressed_example =
    insert_v2_suppressed server forever batch "body" noon noon suppressed_state 1 suppressed_one
      (λ e. omega arith)

-- The record is already registered for another batch.
abbrev taken : RegistryRow
taken = record {
  record_id = record_uuid;
  batch_id = session_uuid;
  stream = "plays";
  body_sha = "body";
  registered_at = noon;
  product_key = batch.product_key;
  scope = scope;
}

abbrev taken_state : Content
taken_state = (5, [], taken ∷ [], [])

taken_found : server.query_registry "linka-plays" (record_uuid ∷ []) taken_state ≡ done (taken ∷ [])
unfolding one_of
taken_found = refl

register_records_duplicate_example :
    register_records server forever batch "body" noon taken_state
    ≡ (refused duplicate_record, taken_state)
unfolding registry_ids
register_records_duplicate_example =
    register_records_duplicate server forever batch "body" noon taken_state (taken ∷ []) taken
      taken_found (Memᴰ.head refl) refl (Memᴰ.head refl)
      (inl (different session_uuid batch_uuid refl))
