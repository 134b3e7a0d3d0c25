-- ===== src/Privacy/Laws/Creation.antt =====
-- internal/clickhouse/store_privacy.go: `CreatePrivacyRequest`, called again for a request.
use linka_plays_metric.Prelude.{
  unequal, String, ◌≡◌, refl, sym, subst, ap, ◌∙◌, inl, inr, Option, none, some, true, ◌==◌, eq_iff,
  Time, Bool-cases, if◌then◌else◌,
}
use linka_plays_metric.ContractV2.{ValidatedPrivacyRequest}
use linka_plays_metric.Store.{
  Reply, done, refused, idempotency_conflict, Retention, continue-eq-done, Answer-cases,
}
use linka_plays_metric.Privacy.Requests.{QueueRow}
use linka_plays_metric.Privacy.Statements.{Server}
use linka_plays_metric.Privacy.Queue.{PrivacyResult, pending_row, create_privacy_request}

module _ (server : Server) (keep : Retention) where
  open server use {State, queue_row, query_queue, insert_queue}

  abbrev pub request_row : ValidatedPrivacyRequest → State → Option QueueRow
  request_row r s = queue_row s r.request.scope.product r.request.request_id

  -- The queue holds the request under a body.
  abbrev pub IsQueued : ValidatedPrivacyRequest → String → State → Type 0
  IsQueued r sha s = (row : QueueRow) × (request_row r s ≡ some row) × (row.request.body_sha ≡ sha)

  pub create_privacy_request-IsQueued :
      (r : ValidatedPrivacyRequest) (sha : String) (now : Time) (s s' : State)
      (result : PrivacyResult)
      → create_privacy_request server keep r sha now s ≡ (done result, s')
      → IsQueued r sha s'
  unfolding create_privacy_request pending_row
  create_privacy_request-IsQueued r sha now s s' result h =
      elim (Answer-cases (query_queue r.request.scope.product r.request.request_id s)) [
        | inr (e, asked) ↦ cc (rw (asked, create_privacy_request) at h)
        | inl (none, asked) ↦
            let (_, t, wrote, ended) =
              continue-eq-done (insert_queue (pending_row keep r sha now) s) _
                (rw (asked, create_privacy_request) at h) in
            let here = sym (server.query_queue_law _ _ s _ asked) in
            subst (IsQueued r sha) (ap (λ x. x.1) ended) (
              _,
              server.insert_queue_newer (pending_row keep r sha now) s t wrote (rw here tt),
              refl,
            )
        | inl (some row, asked) ↦ elim (Bool-cases (row.request.body_sha == sha)) [
          | inr other ↦ cc (rw (asked, create_privacy_request, other) at h)
          | inl same ↦
              let kept : s ≡ s' = ap (λ x. x.1) (rw (asked, create_privacy_request, same) at h) in
              subst (IsQueued r sha) kept
                (row, sym (server.query_queue_law _ _ s _ asked), (eq_iff _ _).0 same)
        ]
      ]

  -- What a later call answers about a row that holds the body `stored`.
  abbrev pub later_answer : String → String → QueueRow → Reply PrivacyResult
  later_answer stored sha row =
      if sha == stored
      then done (record { replayed = true; status = row.status })
      else refused idempotency_conflict

  -- After a request was created or replayed, every later call with its product and identifier
  -- whose query is answered changes nothing: the same body is answered with the status that the
  -- queue has, any other is refused as a conflict.
  pub create_privacy_request_twice :
      (r r' : ValidatedPrivacyRequest) (sha sha' : String) (now later : Time) (s s' : State)
      (result : PrivacyResult) (found : Option QueueRow)
      → create_privacy_request server keep r sha now s ≡ (done result, s')
      → r'.request.scope.product ≡ r.request.scope.product
      → r'.request.request_id ≡ r.request.request_id
      → query_queue r'.request.scope.product r'.request.request_id s' ≡ done found
      → (row : QueueRow) × (request_row r s' ≡ some row)
        × (create_privacy_request server keep r' sha' later s' ≡ (later_answer sha sha' row, s'))
  unfolding create_privacy_request
  create_privacy_request_twice r r' sha sha' now later s s' result found first products ids asked =
      let (row, here, held) = create_privacy_request-IsQueued r sha now s s' result first in
      (
        row,
        here,
        elim (Bool-cases (sha' == sha)) [
          | inl same ↦
              let test = (eq_iff _ _).1 (held ∙ sym ((eq_iff _ _).0 same)) in
              rw (asked, there found asked, products, ids, here, test, same) refl
          | inr differ ↦
              let test =
                unequal row.request.body_sha sha'
                  (λ e. cc ((eq_iff sha' sha).1 (sym e ∙ held), differ)) in
              rw (asked, there found asked, products, ids, here, test, differ) refl
        ],
      )
    where
      there :
          (found : Option QueueRow)
          → query_queue r'.request.scope.product r'.request.request_id s' ≡ done found
          → found ≡ request_row r' s'
      there found asked = server.query_queue_law _ _ s' found asked
