-- ===== src/ContractV2/Laws/Technical.antt =====
-- internal/contract/v2/parse.go: what the validator of the technical stream accepts.
use linka_plays_metric.Prelude.{
  String, ℕ, ◌≤◌, ◌≡◌, refl, inl, inr, Option, none, some, [], ◌∷◌, true, ◌==◌, eq_iff, arith, Time,
  ok, Memᴰ, one_of_iff, Platform, Bool-cases,
}
use linka_plays_metric.ContractV2.Types.{TechnicalRecord, Validated}
use linka_plays_metric.ContractV2.Fields.{fingerprint_pattern}
use linka_plays_metric.ContractV2.Records.{
  technical_states, some_fingerprint, some_drop_count, check_technical_kind, timed,
  validate_technical_record,
}
use linka_plays_metric.ContractV2.Laws.Fields.{
  IsBase, validate_base_record_sound, validate_base_record_complete,
}
use linka_plays_metric.ContractV2.Laws.Patterns.{
  IsFingerprint, fingerprint_pattern-IsFingerprint, IsFingerprint-fingerprint_pattern,
}
use linka_plays_metric.ContractV2.Laws.Optional.{some_of_sound}

-- The three shapes of a technical record: a state change, an error with a fingerprint, and a report
-- of dropped records, each with its own fields and no other.
pub data IsTechnicalKind (r : TechnicalRecord) : Type 0 where
  state_changed :
      (state : String)
      → r.kind ≡ "state_changed"
      → r.state ≡ some state
      → Memᴰ state (
          "starting" ∷ "ready" ∷ "idle" ∷ "connecting" ∷ "connected" ∷ "tracking" ∷ "checking"
          ∷ "downloading" ∷ "installing" ∷ "unavailable" ∷ "error" ∷ [])
      → r.error_fingerprint ≡ none
      → r.dropped_count ≡ none
      → r.drop_reason ≡ none
      → IsTechnicalKind r
  an_error :
      (fingerprint : String)
      → r.kind ≡ "error"
      → r.error_fingerprint ≡ some fingerprint
      → IsFingerprint fingerprint
      → r.state ≡ none
      → r.dropped_count ≡ none
      → r.drop_reason ≡ none
      → IsTechnicalKind r
  queue_dropped :
      (count : ℕ) (reason : String)
      → r.kind ≡ "queue_dropped"
      → r.component ≡ "telemetry"
      → r.dropped_count ≡ some count
      → 1 ≤ count
      → count ≤ 1_000_000
      → r.drop_reason ≡ some reason
      → Memᴰ reason ("capacity" ∷ "expired" ∷ "invalid" ∷ "shutdown" ∷ [])
      → r.state ≡ none
      → r.error_fingerprint ≡ none
      → IsTechnicalKind r

some_fingerprint_sound :
    (o : Option String)
    → some_fingerprint o ≡ true
    → (f : String) × (o ≡ some f) × (fingerprint_pattern f ≡ true)
some_fingerprint_sound none h = cc
some_fingerprint_sound (some f) h = (f, refl, h)

some_drop_count_sound :
    (o : Option ℕ) → some_drop_count o ≡ true → (n : ℕ) × (o ≡ some n) × (1 ≤ n) × (n ≤ 1_000_000)
some_drop_count_sound none h = cc
some_drop_count_sound (some n) h = (n, refl, ground arith, ground arith)

pub check_technical_kind_sound :
    (r : TechnicalRecord) → check_technical_kind r ≡ ok tt → IsTechnicalKind r
unfolding check_technical_kind
check_technical_kind_sound r h = elim (Bool-cases (r.kind == "state_changed")) [
  | inl changed ↦
      let (state, e, m) = some_of_sound r.state technical_states (ground arith) in
      state_changed state ((eq_iff _ _).0 changed) e m (ground arith) (ground arith) (ground arith)
  | inr other ↦ elim (Bool-cases (r.kind == "error")) [
    | inl failed ↦
        let (f, e, m) = some_fingerprint_sound r.error_fingerprint (ground arith) in
        an_error f ((eq_iff _ _).0 failed) e (fingerprint_pattern-IsFingerprint f m) (ground arith)
          (ground arith) (ground arith)
    | inr different ↦
        let (n, e, low, high) = some_drop_count_sound r.dropped_count (ground arith) in
        let (reason, f, m) =
          some_of_sound r.drop_reason ("capacity" ∷ "expired" ∷ "invalid" ∷ "shutdown" ∷ [])
            (ground arith) in
        queue_dropped n reason (ground (arith, eq_iff r.kind "queue_dropped"))
          (ground (arith, eq_iff r.component "telemetry")) e low high f m (ground arith)
          (ground arith)
  ]
]

some_drop_count_complete :
    (o : Option ℕ) (n : ℕ) → o ≡ some n → 1 ≤ n → n ≤ 1_000_000 → some_drop_count o ≡ true
some_drop_count_complete o n e low high = ground arith

pub check_technical_kind_complete :
    (r : TechnicalRecord) → IsTechnicalKind r → check_technical_kind r ≡ ok tt
unfolding check_technical_kind
check_technical_kind_complete r (state_changed state k e m f g h) =
    rw (k, e, f, g, h, (one_of_iff state _).1 m)
check_technical_kind_complete r (an_error f k e m g h i) =
    rw (k, e, g, h, i, IsFingerprint-fingerprint_pattern f m)
check_technical_kind_complete r (queue_dropped n reason k c e low high f m g h) =
    rw (k, c, some_drop_count_complete _ n e low high, f, g, h, (one_of_iff reason _).1 m)

pub record IsTechnical (p : Platform) (r : TechnicalRecord) (sent_at t : Time) : Type 0 where
  pub base : IsBase p r.record_id r.occurred_at r.app_session_id r.app sent_at t
  pub component : Memᴰ r.component ("main" ∷ "renderer" ∷ "tobii" ∷ "updater" ∷ "telemetry" ∷ [])
  pub shape : IsTechnicalKind r

module _ (p : Platform) (r : TechnicalRecord) (sent_at : Time) where
  pub validate_technical_record_sound :
      (v : Validated TechnicalRecord)
      → validate_technical_record p r sent_at ≡ ok v
      → (v.content ≡ r) × IsTechnical p r sent_at v.occurred_at_time
  unfolding validate_technical_record
  validate_technical_record_sound v h = (
    ground arith,
    record {
      base = validate_base_record_sound p _ _ _ _ sent_at v.occurred_at_time (ground arith);
      component = (one_of_iff _ _).0 (ground arith);
      shape = check_technical_kind_sound r (ground arith);
    },
  )

  pub validate_technical_record_complete :
      (t : Time)
      → IsTechnical p r sent_at t
      → validate_technical_record p r sent_at ≡ ok (timed r t)
  unfolding validate_technical_record
  validate_technical_record_complete t v = rw (
    validate_base_record_complete p _ _ _ _ sent_at t v.base,
    (one_of_iff _ _).1 v.component,
    check_technical_kind_complete r v.shape,
  )
