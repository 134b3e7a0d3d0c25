-- ===== src/Privacy/Laws/Claims.antt =====
-- internal/clickhouse/store_privacy.go: `ClaimPrivacyRequest` and what the lease protects.
use linka_plays_metric.Prelude.{
  String, ℕ, ◌+◌, ◌*◌, ◌%◌, ◌<◌, ◌≤◌, ◌≡◌, refl, sym, subst, ap₂, ◌∙◌, ap, inl, inr, Option, none,
  some, true, false, arith, Time, minute, millisecond, truncate_ms, Bool-cases,
}
use linka_plays_metric.Store.{done, continue-eq-done, Answer-cases}
use linka_plays_metric.Privacy.Requests.{Request, QueueRow, to_millis}
use linka_plays_metric.Privacy.Versions.{status_version, next_attempt, phase}
use linka_plays_metric.Privacy.Statements.{Server}
use linka_plays_metric.Privacy.Queue.{
  status_row, is_claimable, claim_found, claim_privacy_request, complete_privacy_request,
}
use linka_plays_metric.Privacy.Laws.Versions.{
  before_sound, status_version_order, truncate_ms-status_version,
}

-- The row of a request that is claimed at `now` as its attempt `n`.
abbrev pub claimed_row : Request → ℕ → Time → QueueRow
claimed_row request n now =
    to_millis (status_row request "processing" none n now (some (now + 5 * minute)))

next_attempt_fits : (n : ℕ) → n < 65_535 → next_attempt n ≡ n + 1
next_attempt_fits n h = omega arith

-- The next attempt's row is newer than any row of this attempt.
claimed_row_newer :
    (request : Request) (row : QueueRow) (now : Time)
    → request.ingested_at % millisecond ≡ 0
    → row.updated_at ≤ status_version request row.status row.attempts
    → row.updated_at < (claimed_row request (row.attempts + 1) now).updated_at
unfolding status_row
claimed_row_newer request row now aligned versioned =
    let next =
      (status_version_order request row.status "processing" row.attempts (row.attempts + 1)).1
        (inl (omega arith)) in
    rw (truncate_ms-status_version request "processing" (row.attempts + 1) aligned) (omega arith)

-- A version depends on when the request entered, not on the copy of the request.
status_version-entered :
    (stale request : Request) (status : String) (n : ℕ)
    → stale.ingested_at ≡ request.ingested_at
    → status_version stale status n ≡ status_version request status n
unfolding status_version
status_version-entered stale request status n e = rw e

own_newer :
    (request holder : Request) (now later : Time) (n : ℕ)
    → request.ingested_at % millisecond ≡ 0
    → holder.ingested_at ≡ request.ingested_at
    → (claimed_row request n now).updated_at
      < (to_millis (status_row holder "completed" none n later none)).updated_at
unfolding status_row phase
own_newer request holder now later n aligned entered =
    rw
      (
        status_version-entered holder request "completed" n entered,
        truncate_ms-status_version request "completed" n aligned,
        truncate_ms-status_version request "processing" n aligned,
      )
      ((status_version_order request "processing" "completed" n n).1
        (inr (refl, before_sound "processing" "completed" (omega arith))))

leased :
    (request : Request) (n : ℕ) (now later : Time)
    → later ≤ truncate_ms (now + 5 * minute)
    → is_claimable (claimed_row request n now) later ≡ false
unfolding is_claimable status_row
leased request n now later early = ground arith

module _ (server : Server) where
  open server use {State, queue_row, query_queue, insert_queue}

  -- The row of a request.
  abbrev pub own_row : Request → State → Option QueueRow
  own_row request s = queue_row s request.scope.product request.request_id

  claim_wrote :
      (request : Request) (now : Time) (s t : State) (row : QueueRow)
      → insert_queue
          (status_row request "processing" none
            (next_attempt row.attempts)
            now
            (some (now + 5 * minute)))
          s
        ≡ (done tt, t)
      → own_row request s ≡ some row
      → row.updated_at ≤ status_version request row.status row.attempts
      → row.attempts < 65_535
      → request.ingested_at % millisecond ≡ 0
      → own_row request t ≡ some (claimed_row request (row.attempts + 1) now)
  unfolding status_row
  claim_wrote request now s t row wrote here versioned fits aligned =
      server.insert_queue_newer
        (status_row request "processing" none (row.attempts + 1) now (some (now + 5 * minute))) s t
        (subst
          (λ n.
            insert_queue (status_row request "processing" none n now (some (now + 5 * minute))) s
            ≡ (done tt, t))
          (next_attempt_fits row.attempts fits) wrote)
        (rw here (claimed_row_newer request row now aligned versioned))

  -- A claim that succeeds has found a claimable row, and leaves the row of the next attempt if the
  -- row's version was that of its status and attempt or older and its attempts fit.
  pub claim_privacy_request-own_row :
      (request : Request) (now : Time) (s s' : State)
      → claim_privacy_request server request now s ≡ (done true, s')
      → request.ingested_at % millisecond ≡ 0
      → (row : QueueRow) × (own_row request s ≡ some row)
        × (is_claimable row now ≡ true)
        × (row.updated_at ≤ status_version request row.status row.attempts
            → row.attempts < 65_535
            → own_row request s' ≡ some (claimed_row request (row.attempts + 1) now))
  unfolding claim_privacy_request claim_found status_row
  claim_privacy_request-own_row request now s s' h aligned =
      elim (Answer-cases (query_queue request.scope.product request.request_id s)) [
        | inr (e, asked) ↦ cc (rw (asked, claim_privacy_request) at h)
        | inl (none, asked) ↦ cc (rw (asked, claim_privacy_request, claim_found) at h)
        | inl (some row, asked) ↦ elim (Bool-cases (is_claimable row now)) [
          | inr other ↦ cc (rw (asked, claim_privacy_request, claim_found, other) at h)
          | inl good ↦
              let k = rw (asked, claim_privacy_request, claim_found, good) at h in
              let (_, t, wrote, ended) = continue-eq-done (insert_queue _ s) _ k in
              let here = sym (server.query_queue_law _ _ s _ asked) in
              (
                row,
                here,
                good,
                λ versioned fits.
                    subst
                      (λ u. own_row request u ≡ some (claimed_row request (row.attempts + 1) now))
                      (ap (λ x. x.1) ended)
                      (claim_wrote request now s t row wrote here versioned fits aligned),
              )
        ]
      ]

  claim_holds :
      (request : Request) (now : Time) (s s' : State) (row : QueueRow)
      → claim_privacy_request server request now s ≡ (done true, s')
      → request.ingested_at % millisecond ≡ 0
      → own_row request s ≡ some row
      → row.updated_at ≤ status_version request row.status row.attempts
      → row.attempts < 65_535
      → own_row request s' ≡ some (claimed_row request (row.attempts + 1) now)
  claim_holds request now s s' row claimed aligned here =
      let (found, there, _, out) = claim_privacy_request-own_row request now s s' claimed aligned in
      let same : found ≡ row = cc (here, there) in
      subst
        (λ r.
          r.updated_at ≤ status_version request r.status r.attempts
          → r.attempts < 65_535
          → own_row request s' ≡ some (claimed_row request (r.attempts + 1) now))
        same out

  -- The request entered on a whole millisecond, and the row that the claim found was no newer than
  -- the version of its status and attempt, with fewer than 65,535 attempts:
  -- while the lease of a claim runs, every other claim of the request is answered "not claimed" and
  -- changes nothing, if its query of the queue is answered.
  pub claim_privacy_request_exclusive :
      (request other : Request) (now later : Time) (s s' : State) (row : QueueRow)
      (found : Option QueueRow)
      → claim_privacy_request server request now s ≡ (done true, s')
      → request.ingested_at % millisecond ≡ 0
      → own_row request s ≡ some row
      → row.updated_at ≤ status_version request row.status row.attempts
      → row.attempts < 65_535
      → other.scope.product ≡ request.scope.product
      → other.request_id ≡ request.request_id
      → query_queue other.scope.product other.request_id s' ≡ done found
      → later ≤ truncate_ms (now + 5 * minute)
      → claim_privacy_request server other later s' ≡ (done false, s')
  unfolding claim_privacy_request claim_found
  claim_privacy_request_exclusive request other now later s s' row found claimed aligned here
        versioned fits products ids asked early =
      rw
        (
          asked,
          server.query_queue_law _ _ s' _ asked,
          products,
          ids,
          claim_holds request now s s' row claimed aligned here versioned fits,
          leased request (row.attempts + 1) now later early,
        )
        refl

  -- The request entered on a whole millisecond, and the row that the claim found was no newer than
  -- the version of its status and attempt, with fewer than 65,535 attempts:
  -- the worker that holds the newest claim completes it: its insert, if it is answered, leaves the row
  -- at "completed" with the attempt of the claim.
  pub complete_privacy_request_own :
      (request holder : Request) (now later : Time) (s s' t : State) (row : QueueRow)
      → claim_privacy_request server request now s ≡ (done true, s')
      → request.ingested_at % millisecond ≡ 0
      → own_row request s ≡ some row
      → row.updated_at ≤ status_version request row.status row.attempts
      → row.attempts < 65_535
      → holder.scope.product ≡ request.scope.product
      → holder.request_id ≡ request.request_id
      → holder.ingested_at ≡ request.ingested_at
      → holder.attempts ≡ row.attempts + 1
      → complete_privacy_request server holder later s' ≡ (done tt, t)
      → (last : QueueRow) × (own_row request t ≡ some last)
        × (last.status ≡ "completed")
        × (last.attempts ≡ row.attempts + 1)
  unfolding complete_privacy_request status_row
  complete_privacy_request_own request holder now later s s' t row claimed aligned here versioned
        fits products ids entered attempt completed =
      let held = claim_holds request now s s' row claimed aligned here versioned fits in
      let last = status_row holder "completed" none holder.attempts later none in
      let stored = server.insert_queue_newer last s' t completed (
        rw (ap₂ (queue_row s') products ids ∙ held) (
          subst (λ n. (claimed_row request n now).updated_at < (to_millis last).updated_at) attempt
            (own_newer request holder now later holder.attempts aligned entered))) in
      (to_millis last, sym (ap₂ (queue_row t) products ids) ∙ stored, refl, attempt)
