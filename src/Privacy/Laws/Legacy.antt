-- ===== src/Privacy/Laws/Legacy.antt =====
-- internal/clickhouse/store_privacy.go: `CreateLegacyPrivacyRequest`, called again for a request.
use linka_plays_metric.Prelude.{
  String, ◌≡◌, refl, sym, subst, ap, inl, inr, none, some, false, ◌==◌, eq_iff, Time, Bool-cases,
}
use linka_plays_metric.Product.{linka_plays}
use linka_plays_metric.Store.{done, Retention, continue-eq-done, Answer-cases}
use linka_plays_metric.Privacy.Requests.{QueueRow, to_millis}
use linka_plays_metric.Privacy.Statements.{Server}
use linka_plays_metric.Privacy.Queue.{
  PrivacyResult, LegacyRequest, legacy_row, create_legacy_privacy_request,
}

module _ (server : Server) (keep : Retention) (digest : String → String) where
  open server use {State, queue_row, query_queue, insert_queue}

  -- After a call that succeeded, the queue has the V1 request under its body, with the status that
  -- was answered; if the call has created it, the row is a pending deletion that names the
  -- installation.
  pub create_legacy_privacy_request-own_row :
      (r : LegacyRequest) (sha : String) (now : Time) (s s' : State) (result : PrivacyResult)
      → create_legacy_privacy_request server digest keep r sha now s ≡ (done result, s')
      → (row : QueueRow) × (queue_row s' linka_plays r.request_id ≡ some row)
        × (row.request.body_sha ≡ sha)
        × (result.status ≡ row.status)
        × (result.replayed ≡ false
            → (row.request.legacy_installation_id ≡ some r.installation_id)
              × (row.request.action ≡ "delete")
              × (row.status ≡ "pending"))
  unfolding create_legacy_privacy_request legacy_row
  create_legacy_privacy_request-own_row r sha now s s' result h =
      elim (Answer-cases (query_queue linka_plays r.request_id s)) [
        | inr (e, asked) ↦ cc (rw (asked, create_legacy_privacy_request) at h)
        | inl (none, asked) ↦
            let (_, t, wrote, ended) =
              continue-eq-done (insert_queue (legacy_row digest keep r sha now) s) _
                (rw (asked, create_legacy_privacy_request) at h) in
            let here = sym (server.query_queue_law _ _ s _ asked) in
            let last : QueueRow = to_millis (legacy_row digest keep r sha now) in
            let stored =
              server.insert_queue_newer (legacy_row digest keep r sha now) s t wrote (rw here tt) in
            (
              last,
              subst (λ u. queue_row u linka_plays r.request_id ≡ some last) (ap (λ x. x.1) ended)
                  stored,
              refl,
              cc ended,
              λ fresh. (refl, refl, refl),
            )
        | inl (some row, asked) ↦ elim (Bool-cases (row.request.body_sha == sha)) [
          | inr other ↦ cc (rw (asked, create_legacy_privacy_request, other) at h)
          | inl same ↦
              let k = rw (asked, create_legacy_privacy_request, same) at h in
              let kept : s ≡ s' = ap (λ x. x.1) k in
              (
                row,
                subst (λ u. queue_row u linka_plays r.request_id ≡ some row) kept
                    (sym (server.query_queue_law _ _ s _ asked)),
                (eq_iff _ _).0 same,
                cc k,
                λ fresh. cc (k, fresh),
              )
        ]
      ]
