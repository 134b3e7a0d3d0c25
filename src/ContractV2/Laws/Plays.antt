-- ===== src/ContractV2/Laws/Plays.antt =====
-- internal/contract/v2/parse.go: what the validator of the plays stream accepts.
use linka_plays_metric.Prelude.{
  String, ℕ, ◌^◌, ◌≤◌, ◌≡◌, refl, inl, inr, Option, none, some, [], ◌∷◌, true, false, ◌==◌, eq_iff,
  arith, Time, ok, Memᴰ, one_of_iff, Platform, Bool-cases,
}
use linka_plays_metric.Product.{Spec, allows_game}
use linka_plays_metric.ContractV2.Types.{PlaysRecord, Validated, Float64, nan, infinity, finite}
use linka_plays_metric.ContractV2.Fields.{bad_ratio, some_bad_ratio}
use linka_plays_metric.ContractV2.Records.{
  finished_outcomes, interaction_outcomes, week_ms, check_plays_kind, timed, validate_plays_record,
}
use linka_plays_metric.ContractV2.Laws.Fields.{
  IsUuid, IsBase, validate_uuid_sound, validate_uuid_complete, validate_base_record_sound,
  validate_base_record_complete,
}
use linka_plays_metric.ContractV2.Laws.Optional.{some_of_sound, some_at_most_sound, is_some-eq}

-- The three shapes of a plays record: a start has no metrics, a finish has an outcome and a duration
-- of at most a week and no level, an interaction has a level and an outcome and no metric.
pub data IsPlaysKind (r : PlaysRecord) : Type 0 where
  started :
      r.kind ≡ "session_started"
      → r.level_index ≡ none
      → r.outcome ≡ none
      → r.duration_ms ≡ none
      → r.success_count ≡ none
      → r.mistake_count ≡ none
      → r.hint_count ≡ none
      → r.valid_gaze_ratio ≡ none
      → IsPlaysKind r
  finished :
      (outcome : String) (duration : ℕ)
      → r.kind ≡ "session_finished"
      → r.outcome ≡ some outcome
      → Memᴰ outcome (
          "completed" ∷ "interrupted" ∷ "cancelled" ∷ "error" ∷ "incomplete" ∷ "lost" ∷ "draw" ∷ [])
      → r.duration_ms ≡ some duration
      → duration ≤ 604_800_000
      → r.level_index ≡ none
      → IsPlaysKind r
  interaction :
      (outcome : String) (level : ℕ)
      → r.kind ≡ "interaction"
      → r.level_index ≡ some level
      → r.outcome ≡ some outcome
      → Memᴰ outcome ("success" ∷ "mistake" ∷ "hint" ∷ "cancelled" ∷ [])
      → r.duration_ms ≡ none
      → r.success_count ≡ none
      → r.mistake_count ≡ none
      → r.hint_count ≡ none
      → r.valid_gaze_ratio ≡ none
      → IsPlaysKind r

pub check_plays_kind_sound : (r : PlaysRecord) → check_plays_kind r ≡ ok tt → IsPlaysKind r
unfolding check_plays_kind
check_plays_kind_sound r h = elim (Bool-cases (r.kind == "session_started")) [
  | inl start ↦
      started ((eq_iff _ _).0 start) (ground arith) (ground arith) (ground arith) (ground arith)
        (ground arith) (ground arith) (ground arith)
  | inr other ↦ elim (Bool-cases (r.kind == "session_finished")) [
    | inl finish ↦
        let (outcome, e, m) = some_of_sound r.outcome finished_outcomes (ground arith) in
        let (duration, f, small) = some_at_most_sound r.duration_ms week_ms (ground arith) in
        finished outcome duration ((eq_iff _ _).0 finish) e m f (omega arith) (ground arith)
    | inr different ↦
        let (outcome, e, m) = some_of_sound r.outcome interaction_outcomes (ground arith) in
        let (level, f) = is_some-eq r.level_index (ground arith) in
        interaction outcome level (ground (arith, eq_iff r.kind "interaction")) f e m (ground arith)
          (ground arith) (ground arith) (ground arith) (ground arith)
  ]
]

pub check_plays_kind_complete : (r : PlaysRecord) → IsPlaysKind r → check_plays_kind r ≡ ok tt
unfolding check_plays_kind
check_plays_kind_complete r (started k e1 e2 e3 e4 e5 e6 e7) = rw (k, e1, e2, e3, e4, e5, e6, e7)
check_plays_kind_complete r (finished outcome duration k e m f small g) =
    rw (k, e, f, g, (one_of_iff outcome _).1 m) (ground arith)
check_plays_kind_complete r (interaction outcome level k f e m e1 e2 e3 e4 e5) =
    rw (k, e, f, e1, e2, e3, e4, e5, (one_of_iff outcome _).1 m)

-- A gaze ratio is a number between 0 and 1: neither NaN nor infinite.
abbrev pub IsRatio : Option Float64 → Type 0
IsRatio none = Unit
IsRatio (some nan) = ⊥
IsRatio (some (infinity _)) = ⊥
IsRatio (some (finite true n)) = n ≡ 0
IsRatio (some (finite false n)) = n ≤ 2 ^ 1074

some_bad_ratio_sound : (o : Option Float64) → some_bad_ratio o ≡ false → IsRatio o
unfolding bad_ratio
some_bad_ratio_sound none h = tt
some_bad_ratio_sound (some nan) h = cc
some_bad_ratio_sound (some (infinity _)) h = cc
some_bad_ratio_sound (some (finite true n)) h = ground arith
some_bad_ratio_sound (some (finite false n)) h = ground arith

some_bad_ratio_complete : (o : Option Float64) → IsRatio o → some_bad_ratio o ≡ false
unfolding bad_ratio
some_bad_ratio_complete none h = refl
some_bad_ratio_complete (some nan) h = absurd h
some_bad_ratio_complete (some (infinity _)) h = absurd h
some_bad_ratio_complete (some (finite true n)) h = ground arith
some_bad_ratio_complete (some (finite false n)) h = ground arith

pub record IsPlays (p : Platform) (r : PlaysRecord) (sent_at : Time) (spec : Spec) (t : Time)
    : Type 0 where
  pub base : IsBase p r.record_id r.occurred_at r.app_session_id r.app sent_at t
  pub game_session : IsUuid p r.game_session_id
  pub game : Memᴰ r.game_id spec.game_ids
  pub category : Memᴰ r.game_category (
      "gaze-basics" ∷ "visual-search" ∷ "sequencing" ∷ "language-aac" ∷ "numeracy" ∷ "strategy"
      ∷ "continuous-control" ∷ "unknown" ∷ [])
  pub method :
      Memᴰ r.input_method ("mouse" ∷ "touch" ∷ "gaze" ∷ "keyboard" ∷ "unknown" ∷ "mixed" ∷ [])
  pub ratio : IsRatio r.valid_gaze_ratio
  pub shape : IsPlaysKind r

module _ (p : Platform) (r : PlaysRecord) (sent_at : Time) (spec : Spec) where
  pub validate_plays_record_sound :
      (v : Validated PlaysRecord)
      → validate_plays_record p r sent_at spec ≡ ok v
      → (v.content ≡ r) × IsPlays p r sent_at spec v.occurred_at_time
  unfolding validate_plays_record allows_game
  validate_plays_record_sound v h = (
    ground arith,
    record {
      base = validate_base_record_sound p _ _ _ _ sent_at v.occurred_at_time (ground arith);
      game_session = validate_uuid_sound p r.game_session_id (ground arith);
      game = (one_of_iff _ _).0 (ground arith);
      category = (one_of_iff _ _).0 (ground arith);
      method = (one_of_iff _ _).0 (ground arith);
      ratio = some_bad_ratio_sound r.valid_gaze_ratio (ground arith);
      shape = check_plays_kind_sound r (ground arith);
    },
  )

  pub validate_plays_record_complete :
      (t : Time)
      → IsPlays p r sent_at spec t
      → validate_plays_record p r sent_at spec ≡ ok (timed r t)
  unfolding validate_plays_record allows_game
  validate_plays_record_complete t v = rw (
    validate_base_record_complete p _ _ _ _ sent_at t v.base,
    validate_uuid_complete p r.game_session_id v.game_session,
    (one_of_iff _ _).1 v.game,
    (one_of_iff _ _).1 v.category,
    (one_of_iff _ _).1 v.method,
    some_bad_ratio_complete r.valid_gaze_ratio v.ratio,
    check_plays_kind_complete r v.shape,
  )
