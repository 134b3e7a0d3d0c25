-- ===== src/ContractV1/Laws/Batches.antt =====
-- internal/contract/v1/validate.go: what a batch that `ParseBatch` accepts looks like, and which
-- error it reports of a batch with an event that is not accepted.
use linka_plays_metric.Prelude.{
  String, ℕ, suc, ◌+◌, ◌≤◌, ◌≡◌, ap, inl, inr, List, [], ◌∷◌, ◌++◌, true, not, ◌||◌, ltb, eqb,
  arith, Bytes, Result, Error, ok, err, at_index, wrap, Platform, Result-cases, length,
  length-append, >>=-eq-ok, guard-eq-ok, wrap-eq-ok, All, is_ok,
}
use linka_plays_metric.ContractV1.Types.{max_batch_records, Event, Batch, ValidatedBatch}
use linka_plays_metric.ContractV1.Properties.{Json, decode_strict}
use linka_plays_metric.ContractV1.Batches.{
  validate_each, validate_event, validate_summary, parse_batch,
}
use linka_plays_metric.ContractV1.Laws.Events.{IsEvent, validate_event-IsEvent}
use linka_plays_metric.ContractV1.Laws.Summaries.{IsSummary, validate_summary_sound}

module _ {A B : Type 0} where
  -- Two lists of one length, related element by element.
  pub data Pairwise (R : A → B → Type 0) : List A → List B → Type 0 where
    nil : Pairwise R [] []
    cons :
        {a : A} {b : B} {as' : List A} {bs : List B}
        → R a b
        → Pairwise R as' bs
        → Pairwise R (a ∷ as') (b ∷ bs)

  module _ (what : String) (validate : A → Result B) where
    validate_each-Pairwise :
        (R : A → B → Type 0)
        → ((a : A) (b : B) → validate a ≡ ok b → R a b)
        → (index : ℕ) (items : List A) (bs : List B)
        → validate_each what validate index items ≡ ok bs
        → Pairwise R items bs
    unfolding validate_each
    validate_each-Pairwise R sound index [] [] h = nil
    validate_each-Pairwise R sound index [] (b ∷ bs) h = cc
    validate_each-Pairwise R sound index (a ∷ items) bs h = elim (Result-cases (validate a)) [
      | inr (e, failed) ↦ cc (rw (failed, validate_each) at h)
      | inl (b, good) ↦ elim (Result-cases (validate_each what validate (suc index) items)) [
        | inr (e, failed) ↦ cc (rw (good, failed, validate_each) at h)
        | inl (rest, done) ↦
            let same : b ∷ rest ≡ bs = cc (rw (good, done, validate_each) at h) in
            rw (← same)
              (cons (sound a b good) (validate_each-Pairwise R sound (suc index) items rest done))
      ]
    ]

    validate_each_refuses :
        (index : ℕ) (before : List A) (a : A) (after : List A) (e : Error)
        → All (λ x. is_ok (validate x) ≡ true) before
        → validate a ≡ err e
        → validate_each what validate index (before ++ a ∷ after)
          ≡ err (at_index what (index + length before) e)
    unfolding validate_each
    validate_each_refuses index [] a after e fine h =
        rw h (ap (λ n. err (at_index what n e)) (omega arith))
    validate_each_refuses index (x ∷ before) a after e (here, fine) h =
        elim (Result-cases (validate x)) [
          | inr (f, failed) ↦ cc (rw failed at here)
          | inl (b, good) ↦
              rw (good, validate_each_refuses (suc index) before a after e fine h)
                (ap (λ n. err (at_index what n e)) (omega arith))
        ]

in_range :
    (n m : ℕ) → 1 ≤ n → n + m ≤ 500 → not (eqb (n + m) 0 || ltb max_batch_records (n + m)) ≡ true
in_range n m low high = ground arith

module _ (p : Platform) (json : Json) (bytes : Bytes) where
  pub record IsAccepted (v : ValidatedBatch) : Type 0 where
    pub batch : Batch
    pub decoding : decode_strict json json.batch bytes ≡ ok batch
    pub version : batch.schema_version ≡ 1
    pub not_empty : 1 ≤ length batch.events + length batch.session_summaries
    pub not_long : length batch.events + length batch.session_summaries ≤ 500
    pub events : Pairwise (IsEvent p json) batch.events v.events
    pub summaries :
        Pairwise
          (λ s w. (w.summary ≡ s) × IsSummary p s w.started_at_time w.ended_at_time)
          batch.session_summaries
          v.session_summaries

  -- A batch that is accepted decodes to a batch of version 1 with 1 to 500 records; its events and
  -- its summaries are those of the text, in order, and each of them is valid.
  pub parse_batch-IsAccepted : (v : ValidatedBatch) → parse_batch p json bytes ≡ ok v → IsAccepted v
  unfolding parse_batch
  parse_batch-IsAccepted v h =
      let decoded = decode_strict json json.batch bytes in
      let (batch, found, h1) = >>=-eq-ok (wrap "decode batch" decoded) _ h in
      let events = validate_each "events" (validate_event p json) 0 batch.events in
      let summaries =
        validate_each "session_summaries" (validate_summary p) 0 batch.session_summaries in
      let (version, h2) = guard-eq-ok (eqb batch.schema_version 1) _ _ h1 in
      let (size, h3) =
        guard-eq-ok
          (not (
            eqb (length batch.events + length batch.session_summaries) 0
            || ltb max_batch_records (length batch.events + length batch.session_summaries)))
          _ _ h2 in
      let (es, good_events, h4) = >>=-eq-ok events _ h3 in
      let (ss, good_summaries, h5) = >>=-eq-ok summaries _ h4 in
      let e : record { events = es; session_summaries = ss } ≡ v = cc h5 in
      rw (← e) (record {
        batch = batch;
        decoding = wrap-eq-ok "decode batch" decoded found;
        version = ground arith;
        not_empty = ground arith;
        not_long = ground arith;
        events = validate_each-Pairwise _ _ _ (validate_event-IsEvent p json) 0 _ es good_events;
        summaries = validate_each-Pairwise _ _ _ (validate_summary_sound p) 0 _ ss good_summaries;
      })

  -- Of a batch of version 1 with at most 500 records, whose first event that is not accepted fails
  -- with an error, `ParseBatch` reports that error with the index of the event.
  pub parse_batch_first_error :
      (batch : Batch) (before : List Event) (event : Event) (after : List Event) (e : Error)
      → decode_strict json json.batch bytes ≡ ok batch
      → batch.schema_version ≡ 1
      → length batch.events + length batch.session_summaries ≤ 500
      → batch.events ≡ before ++ event ∷ after
      → All (λ x. is_ok (validate_event p json x) ≡ true) before
      → validate_event p json event ≡ err e
      → parse_batch p json bytes ≡ err (at_index "events" (length before) e)
  unfolding parse_batch
  parse_batch_first_error batch before event after e decoded version size same fine failed =
      let refusal =
        validate_each_refuses "events" (validate_event p json) 0 before event after e fine failed in
      let long : 1 ≤ length batch.events = rw (same, length-append) (omega arith) in
      let index : 0 + length before ≡ length before = omega arith in
      let events_eq : validate_each "events" (validate_event p json) 0 batch.events
          ≡ err (at_index "events" (length before) e) =
        rw same (rw index at refusal) in
      rw (decoded, version, in_range _ _ long size, events_eq)
