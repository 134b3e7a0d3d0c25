-- ===== src/ContractV1/Laws/Dimensions.antt =====
-- internal/contract/v1/validate.go: the dimensions of an event are bounded values only, and those
-- that name a game are those of a game event.
use linka_plays_metric.Prelude.{
  String, ◌≡◌, refl, inl, inr, Option, [], ◌∷◌, Bool, true, false, not, ◌&&◌, ◌==◌, leb,
  if◌then◌else◌, arith, Result, Error, ok, err, one_of, one_of_iff, is_some, Bytes, Result-cases,
  all-mem,
}
use linka_plays_metric.ContractV1.Types.{Dimensions}
use linka_plays_metric.ContractV1.Properties.{
  PageProperties, ModeProperties, SettingsProperties, GameProperties, GameFinishedProperties,
  GameInterruptedProperties, LevelProperties, TargetProperties, OutcomeProperties, HintProperties,
  DifficultyProperties, TobiiProperties, UpdaterProperties, ErrorProperties, QueueDroppedProperties,
  Json, decode_strict,
}
use linka_plays_metric.ContractV1.Fields.{
  safe_value_pattern, fingerprint_pattern, outside, target_inputs, validate_safe, validate_target,
  validate_safe_values,
}
use linka_plays_metric.ContractV1.Cases.{
  tobii_states, updater_states, queue_drop_reasons, page_dimensions, mode_dimensions,
  settings_dimensions, game_dimensions, game_finished_dimensions, game_interrupted_dimensions,
  level_dimensions, target_dimensions, outcome_dimensions, hint_dimensions, difficulty_dimensions,
  tobii_dimensions, updater_dimensions, error_dimensions, queue_dropped_dimensions, case_of,
  validate_properties, no_dimensions,
}
use linka_plays_metric.ContractV1.Laws.Fields.{or_none, optional_string-safe}

abbrev safe : Option String → Bool
safe o = or_none safe_value_pattern o

-- Every dimension is missing or within its bounds.
abbrev pub is_bounded : Dimensions → Bool
is_bounded d =
    safe d.page
    && safe d.mode
    && safe d.game_category
    && safe d.setting_key
    && or_none (λ x. not (outside 100_000 x)) d.setting_number
    && safe d.game_id
    && safe d.target_kind
    && or_none (λ x. one_of x target_inputs) d.input_method
    && or_none (λ n. leb n 60_000) d.elapsed_ms
    && or_none (λ n. leb n 86_400_000) d.response_ms
    && safe d.result
    && safe d.reason
    && safe d.hint_kind
    && or_none (λ n. leb 1 n && leb n 10) d.difficulty
    && or_none (λ x. one_of x tobii_states) d.tobii_state
    && or_none (λ x. one_of x updater_states) d.updater_state
    && safe d.updater_version
    && or_none fingerprint_pattern d.error_fingerprint
    && safe d.error_component
    && or_none (λ n. leb 1 n) d.dropped_count

-- What every case of the `switch` yields: bounded dimensions, and a game exactly if the case is one
-- of a game.
abbrev pub IsFine : Bool → Dimensions → Type 0
IsFine game d = (is_bounded d ≡ true) × (is_some d.game_id ≡ game)

drop_reason-safe :
    (reason : String) → one_of reason queue_drop_reasons ≡ true → safe_value_pattern reason ≡ true
unfolding safe_value_pattern
drop_reason-safe reason h =
    all-mem safe_value_pattern queue_drop_reasons reason refl ((one_of_iff _ _).0 h)

module _ (d : Dimensions) where
  page-IsFine : (q : PageProperties) → page_dimensions q ≡ ok d → IsFine false d
  unfolding page_dimensions validate_safe
  page-IsFine q h = ground arith

  mode-IsFine : (q : ModeProperties) → mode_dimensions q ≡ ok d → IsFine false d
  unfolding mode_dimensions validate_safe
  mode-IsFine q h = ground arith

  settings-IsFine : (q : SettingsProperties) → settings_dimensions q ≡ ok d → IsFine false d
  unfolding settings_dimensions validate_safe
  settings-IsFine q h = ground arith

  game-IsFine : (q : GameProperties) → game_dimensions q ≡ ok d → IsFine true d
  unfolding game_dimensions validate_safe
  game-IsFine q h = ground (
    arith,
    optional_string-safe "mode" q.mode,
    optional_string-safe "game_category" q.game_category,
  )

  game_finished-IsFine :
      (q : GameFinishedProperties) → game_finished_dimensions q ≡ ok d → IsFine true d
  unfolding game_finished_dimensions validate_safe
  game_finished-IsFine q h = ground (arith, optional_string-safe "result" q.result)

  game_interrupted-IsFine :
      (q : GameInterruptedProperties) → game_interrupted_dimensions q ≡ ok d → IsFine true d
  unfolding game_interrupted_dimensions validate_safe
  game_interrupted-IsFine q h = ground arith

  level-IsFine : (q : LevelProperties) → level_dimensions q ≡ ok d → IsFine true d
  unfolding level_dimensions validate_safe
  level-IsFine q h = ground arith

  target-IsFine : (q : TargetProperties) → target_dimensions q ≡ ok d → IsFine true d
  unfolding target_dimensions validate_target validate_safe
  target-IsFine q h = ground (arith, optional_string-safe "reason" q.reason)

  outcome-IsFine : (q : OutcomeProperties) → outcome_dimensions q ≡ ok d → IsFine true d
  unfolding outcome_dimensions validate_target validate_safe
  outcome-IsFine q h = ground (arith, optional_string-safe "target_kind" q.target_kind)

  hint-IsFine : (q : HintProperties) → hint_dimensions q ≡ ok d → IsFine true d
  unfolding hint_dimensions validate_safe_values validate_safe
  hint-IsFine q h = ground arith

  difficulty-IsFine : (q : DifficultyProperties) → difficulty_dimensions q ≡ ok d → IsFine true d
  unfolding difficulty_dimensions validate_safe
  difficulty-IsFine q h = ground arith

  tobii-IsFine : (q : TobiiProperties) → tobii_dimensions q ≡ ok d → IsFine false d
  unfolding tobii_dimensions
  tobii-IsFine q h = ground arith

  updater-IsFine : (q : UpdaterProperties) → updater_dimensions q ≡ ok d → IsFine false d
  unfolding updater_dimensions
  updater-IsFine q h = ground (arith, optional_string-safe "version" q.version)

  error-IsFine : (q : ErrorProperties) → error_dimensions q ≡ ok d → IsFine false d
  unfolding error_dimensions validate_safe
  error-IsFine q h = ground arith

  queue_dropped-IsFine :
      (q : QueueDroppedProperties) → queue_dropped_dimensions q ≡ ok d → IsFine false d
  unfolding queue_dropped_dimensions
  queue_dropped-IsFine q h = ground (arith, drop_reason-safe q.reason)

-- The outcome of a case is fine where it is a success.
unfoldable pub AllFine : Result (Dimensions × Bool) → Type 0
AllFine r = (d : Dimensions) (game : Bool) → r ≡ ok (d, game) → IsFine game d

case_of-fine :
    {X : Type 0} (game : Bool) (decoded : Result X) (check : X → Result Dimensions)
    → ((d : Dimensions) (q : X) → check q ≡ ok d → IsFine game d)
    → AllFine (case_of game decoded check)
unfolding AllFine
case_of-fine game (err e) check fine d g h = cc
case_of-fine game (ok q) check fine d g h = elim (Result-cases (check q)) [
  | inl (c, e) ↦
      let done : Result (Dimensions × Bool) = ok (c, game) in
      let same : done ≡ ok (d, g) = rw e at h in ground (arith, fine c q)
  | inr (e, failed) ↦ cc (rw failed at h)
]

either_fine :
    (test : Bool) (yes no : Result (Dimensions × Bool))
    → AllFine yes
    → AllFine no
    → AllFine (if test then yes else no)
unfolding AllFine
either_fine true a b h k = h
either_fine false a b h k = k

refused_fine : (e : Error) → AllFine (err e)
unfolding AllFine
refused_fine e d game h = cc

empty-IsFine : (d : Dimensions) (q : Unit {0}) → ok no_dimensions ≡ ok d → IsFine false d
empty-IsFine d q h = ground arith

-- Whatever the name and the properties of an event are, if they are accepted, every dimension is
-- bounded, and the event counts as a game event exactly if a dimension names the game.
pub validate_properties-fine :
    (json : Json) (name : String) (raw : Bytes) → AllFine (validate_properties json name raw)
unfolding validate_properties
validate_properties-fine json name raw =
    (either_fine
      (one_of name (
        "installation_created" ∷ "app_started" ∷ "app_backgrounded" ∷ "app_foregrounded"
        ∷ "app_closed" ∷ []))
      _ _ (case_of-fine false (decode_strict json json.empty raw) _ empty-IsFine)
      (either_fine (name == "page_viewed") _ _
        (case_of-fine false (decode_strict json json.page raw) _ page-IsFine)
        (either_fine (name == "mode_changed") _ _
          (case_of-fine false (decode_strict json json.mode raw) _ mode-IsFine)
          (either_fine (name == "settings_changed") _ _
            (case_of-fine false (decode_strict json json.settings raw) _ settings-IsFine)
            (either_fine
              (one_of name
                ("game_session_started" ∷ "game_session_paused" ∷ "game_session_resumed" ∷ []))
              _ _ (case_of-fine true (decode_strict json json.game raw) _ game-IsFine)
              (either_fine (name == "game_session_finished") _ _
                (case_of-fine true (decode_strict json json.game_finished raw) _
                  game_finished-IsFine)
                (either_fine (name == "game_session_interrupted") _ _
                  (case_of-fine true (decode_strict json json.game_interrupted raw) _
                    game_interrupted-IsFine)
                  (either_fine
                    (one_of name ("level_entered" ∷ "level_cancelled" ∷ "level_clicked" ∷ [])) _ _
                    (case_of-fine true (decode_strict json json.level raw) _ level-IsFine)
                    (either_fine
                      (one_of name ("target_entered" ∷ "target_cancelled" ∷ "target_clicked" ∷ []))
                      _ _ (case_of-fine true (decode_strict json json.target raw) _ target-IsFine)
                      (either_fine (one_of name ("success" ∷ "mistake" ∷ [])) _ _
                        (case_of-fine true (decode_strict json json.outcome raw) _ outcome-IsFine)
                        (either_fine (name == "hint_used") _ _
                          (case_of-fine true (decode_strict json json.hint raw) _ hint-IsFine)
                          (either_fine (name == "difficulty_changed") _ _
                            (case_of-fine true (decode_strict json json.difficulty raw) _
                              difficulty-IsFine)
                            (either_fine (name == "tobii_state_changed") _ _
                              (case_of-fine false (decode_strict json json.tobii raw) _
                                tobii-IsFine)
                              (either_fine (name == "updater_state_changed") _ _
                                (case_of-fine false (decode_strict json json.updater raw) _
                                  updater-IsFine)
                                (either_fine (name == "error") _ _
                                  (case_of-fine false (decode_strict json json.failure raw) _
                                    error-IsFine)
                                  (either_fine (name == "queue_dropped") _ _
                                    (case_of-fine false (decode_strict json json.queue_dropped raw)
                                      _ queue_dropped-IsFine)
                                    (refused_fine _)))))))))))))))))
