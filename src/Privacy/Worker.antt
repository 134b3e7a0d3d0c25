-- ===== src/Privacy/Worker.antt =====
-- internal/privacy/worker.go: `Worker.RunOnce`, over the repository and the deleter that it is given.
use linka_plays_metric.Prelude.{
  String, ℕ, List, [], ◌∷◌, Bool, true, false, not, ◌||◌, ◌==◌, ltb, ◌++◌, if◌then◌else◌, message,
}
use linka_plays_metric.ContractV2.{privacy_opt_out, privacy_delete}
use linka_plays_metric.Store.{Reply, done, refused, StoreError, failed, Op, pure, refuse}
use linka_plays_metric.Privacy.Requests.{Request}
use linka_plays_metric.Privacy.Versions.{next_attempt}

-- `Repository` and `Deleter`.
pub record Repository : Type 1 where
  pub State : Type 0
  pub pending : ℕ → Op State (List Request)
  pub claim : Request → Op State Bool
  pub complete : Request → Op State (Unit {0})
  pub retry : Request → String → ℕ → Op State (Unit {0})
  pub delete_telemetry : Request → Op State (Unit {0})

-- The errors that `RunOnce` collects, by the call that failed.
pub data Failure : Type 0 where
  list_failed : StoreError → Failure
  claim_failed complete_failed processing_failed : (request_id : String) → StoreError → Failure
  persist_failed : (request_id : String) → (cause persisting : StoreError) → Failure

-- The configuration that `NewWorkerWithMaxAttempts` takes.
unfoldable pub is_configuration : (limit max_attempts : ℕ) → Bool
is_configuration limit max_attempts =
    not (ltb limit 1 || ltb 1000 limit || ltb max_attempts 1 || ltb 100 max_attempts)

module _ (repository : Repository) (max_attempts : ℕ) where
  open repository use {State, pending, claim, complete, retry, delete_telemetry}

  -- The `switch` on the action.
  unfoldable pub perform : Request → Op State (Unit {0})
  perform request =
      if request.action == privacy_opt_out
      then pure tt
      else if request.action == privacy_delete
      then delete_telemetry request
      else refuse (failed (message "unsupported privacy action"))

  abbrev pub after_complete : Request → Reply (Unit {0}) × State → List Failure × State
  after_complete request (done _, s) = ([], s)
  after_complete request (refused e, s) = (complete_failed request.request_id e ∷ [], s)

  abbrev pub after_retry : Request → StoreError → Reply (Unit {0}) × State → List Failure × State
  after_retry request cause (done _, s) = (processing_failed request.request_id cause ∷ [], s)
  after_retry request cause (refused e, s) = (persist_failed request.request_id cause e ∷ [], s)

  abbrev pub after_perform : Request → Reply (Unit {0}) × State → List Failure × State
  after_perform request (done _, s) = after_complete request (complete request s)
  after_perform request (refused e, s) =
      after_retry request e (retry request "processing_failed" max_attempts s)

  abbrev pub after_claim : Request → Reply Bool × State → List Failure × State
  after_claim request (refused e, s) = (claim_failed request.request_id e ∷ [], s)
  after_claim request (done false, s) = ([], s)
  after_claim request (done true, s) =
      let claimed = record request { attempts = next_attempt request.attempts } in
      after_perform claimed (perform claimed s)

  -- One turn of the loop: the failures that it appends.
  unfoldable pub process_request : Request → State → List Failure × State
  process_request request s = after_claim request (claim request s)

  unfoldable pub process_requests : List Request → State → List Failure × State
  process_requests [] s = ([], s)
  process_requests (request ∷ requests) s =
      let (failures, t) = process_request request s in
      let (others, u) = process_requests requests t in (failures ++ others, u)

  abbrev pub after_pending : Reply (List Request) × State → List Failure × State
  after_pending (refused e, s) = (list_failed e ∷ [], s)
  after_pending (done requests, s) = process_requests requests s

  -- The failures that `RunOnce` joins; none of them is its nil.
  unfoldable pub run_once : (limit : ℕ) → State → List Failure × State
  run_once limit s = after_pending (pending limit s)
