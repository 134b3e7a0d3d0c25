-- ===== src/Privacy/Laws/Runs.antt =====
-- internal/privacy/worker.go: what a run of the worker without an error has done.
use linka_plays_metric.Prelude.{
  ℕ, ◌==◌, eq_iff, Bool-cases, inl, inr, ap₂, ◌≢◌, ◌≡◌, ◌↔◌, refl, ap, ◌∙◌, subst, List, [], ◌∷◌,
  ◌++◌, true, false,
}
use linka_plays_metric.Store.{Reply, done, refused, StoreError, Reply-cases}
use linka_plays_metric.Privacy.Requests.{Request}
use linka_plays_metric.Privacy.Versions.{next_attempt}
use linka_plays_metric.Privacy.Worker.{
  Repository, Failure, perform, after_complete, after_retry, after_perform, process_request,
  process_requests, run_once,
}

module _ (repository : Repository) (max_attempts : ℕ) where
  open repository use {State, pending, claim, complete, delete_telemetry}

  -- The request as the worker carries it out once it has been claimed.
  abbrev pub claimed : Request → Request
  claimed request = record request { attempts = next_attempt request.attempts }

  -- A claimed request is carried out: an opt-out asks for nothing more, and for a deletion the
  -- deleter has deleted its telemetry without an error.
  pub data IsCarriedOut (request : Request) (u : State) : State → Type 0 where
    opted_out : request.action ≡ "opt_out" → IsCarriedOut request u u
    deleted :
        {v : State}
        → request.action ≡ "delete"
        → delete_telemetry request u ≡ (done tt, v)
        → IsCarriedOut request u v

  -- A turn of the loop that went well: the claim was not given, or it was, and the request has been
  -- carried out and completed.
  pub data Turn (request : Request) (s t : State) : Type 0 where
    not_claimed : claim request s ≡ (done false, t) → Turn request s t
    completed :
        (u v : State)
        → claim request s ≡ (done true, u)
        → IsCarriedOut (claimed request) u v
        → complete (claimed request) v ≡ (done tt, t)
        → Turn request s t

  -- The turns of all requests, each from the state that the one before has left.
  pub data Turns : List Request → State → State → Type 0 where
    no_turns : {s : State} → Turns [] s s
    turns :
        {request : Request} {requests : List Request} {s t u : State}
        → Turn request s t
        → Turns requests t u
        → Turns (request ∷ requests) s u

  after_complete-eq-nil :
      (request : Request) (x : Reply (Unit {0}) × State) (t : State)
      → after_complete repository max_attempts request x ≡ ([], t)
      → x ≡ (done tt, t)
  after_complete-eq-nil request (done _, s) t h = ap (λ y. (done tt, y.1)) h
  after_complete-eq-nil request (refused e, s) t h = cc

  after_retry-ne-nil :
      (request : Request) (cause : StoreError) (x : Reply (Unit {0}) × State) (t : State)
      → after_retry repository max_attempts request cause x ≢ ([], t)
  after_retry-ne-nil request cause (done _, s) t = λ h. cc
  after_retry-ne-nil request cause (refused e, s) t = λ h. cc

  after_perform-eq-nil :
      (request : Request) (x : Reply (Unit {0}) × State) (t : State)
      → after_perform repository max_attempts request x ≡ ([], t)
      → (v : State) × (x ≡ (done tt, v)) × (complete request v ≡ (done tt, t))
  after_perform-eq-nil request (done _, s) t h = (s, refl, after_complete-eq-nil request _ t h)
  after_perform-eq-nil request (refused e, s) t h = elim (after_retry-ne-nil request e _ t h) [ ]

  perform-IsCarriedOut :
      (request : Request) (u v : State)
      → perform repository max_attempts request u ≡ (done tt, v)
      → IsCarriedOut request u v
  unfolding perform
  perform-IsCarriedOut request u v h = elim (Bool-cases (request.action == "opt_out")) [
    | inl opt ↦
        subst (IsCarriedOut request u) (ap (λ x. x.1) (rw (opt, perform) at h))
          (opted_out ((eq_iff _ _).0 opt))
    | inr other ↦ elim (Bool-cases (request.action == "delete")) [
      | inl delete ↦ deleted ((eq_iff _ _).0 delete) (rw (other, delete, perform) at h)
      | inr unknown ↦ cc (rw (other, unknown, perform) at h)
    ]
  ]

  IsCarriedOut-perform :
      (request : Request) (u v : State)
      → IsCarriedOut request u v
      → perform repository max_attempts request u ≡ (done tt, v)
  unfolding perform
  IsCarriedOut-perform request u _ (opted_out action) = rw (action, perform) refl
  IsCarriedOut-perform request u v (deleted action gone) =
      let other : (request.action == "opt_out") ≡ false = rw action refl in
      rw (other, (eq_iff _ _).1 action, perform) gone

  process_request-Turn :
      (request : Request) (s t : State)
      → process_request repository max_attempts request s ≡ ([], t)
      → Turn request s t
  unfolding process_request
  process_request-Turn request s t h = elim (Reply-cases (claim request s)) [
    | inr (e, u, ended) ↦ cc (rw (ended, process_request) at h)
    | inl (true, u, ended) ↦
        let (v, performed, finished) =
          after_perform-eq-nil (claimed request) _ t (rw (ended, process_request) at h) in
        completed u v ended (perform-IsCarriedOut (claimed request) u v performed) finished
    | inl (false, u, ended) ↦
        not_claimed (ended ∙ ap (λ y. (done false, y.1)) (rw (ended, process_request) at h))
  ]

  Turn-process_request :
      (request : Request) (s t : State)
      → Turn request s t
      → process_request repository max_attempts request s ≡ ([], t)
  unfolding process_request
  Turn-process_request request s t (not_claimed e) = rw e refl
  Turn-process_request request s t (completed u v e f g) =
      rw (e, IsCarriedOut-perform (claimed request) u v f, g) refl

  append-eq-nil : (xs ys : List Failure) → (xs ++ ys) ≡ [] → (xs ≡ []) × (ys ≡ [])
  append-eq-nil [] ys h = (refl, h)
  append-eq-nil (x ∷ xs) ys h = cc

  process_requests-Turns :
      (requests : List Request) (s t : State)
      → process_requests repository max_attempts requests s ≡ ([], t)
      → Turns requests s t
  unfolding process_requests
  process_requests-Turns [] s t h = subst (Turns [] s) (ap (λ y. y.1) h) no_turns
  process_requests-Turns (request ∷ requests) s t h =
      let here = process_request repository max_attempts request s in
      let later = process_requests repository max_attempts requests here.1 in
      let (first, others) = append-eq-nil here.0 later.0 (ap (λ y. y.0) h) in
      turns (process_request-Turn request s here.1 (ap (λ f. (f, here.1)) first))
        (process_requests-Turns requests here.1 t (ap₂ (λ f u. (f, u)) others (ap (λ y. y.1) h)))

  Turns-process_requests :
      (requests : List Request) (s t : State)
      → Turns requests s t
      → process_requests repository max_attempts requests s ≡ ([], t)
  unfolding process_requests
  Turns-process_requests _ s t no_turns = refl
  Turns-process_requests (request ∷ requests) s t (turns {t = u} first others) =
      rw (Turn-process_request request s u first, Turns-process_requests requests u t others) refl

  -- A run reports no error exactly if the requests could be listed, and each of them, one after the
  -- other, was either not given to this worker or was claimed, carried out and completed.
  pub run_once_iff :
      (limit : ℕ) (s t : State)
      → (run_once repository max_attempts limit s ≡ ([], t)) ↔ (
          (requests : List Request) × (u : State) × (pending limit s ≡ (done requests, u))
          × Turns requests u t)
  unfolding run_once
  run_once_iff limit s t = (
    sound,
    λ (requests, u, listed, all_turns). rw listed (Turns-process_requests requests u t all_turns),
  )
    where
      sound :
          run_once repository max_attempts limit s ≡ ([], t)
          → (requests : List Request) × (u : State) × (pending limit s ≡ (done requests, u))
            × Turns requests u t
      sound h = elim (Reply-cases (pending limit s)) [
        | inr (e, u, listed) ↦ cc (rw (listed, run_once) at h)
        | inl (requests, u, listed) ↦
            (requests, u, listed, process_requests-Turns requests u t (rw (listed, run_once) at h))
      ]
