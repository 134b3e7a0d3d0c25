-- ===== src/Product/Cards.antt =====
-- internal/product/registry.go: the entries of linka-looks and linka-pictures in `registry`.
use linka_plays_metric.Prelude.{String, List, [], ◌∷◌}
use linka_plays_metric.Product.Defs.{
  Spec, OutcomeRule, linka_looks, linka_pictures, stream_product, stream_outcome, outcome_result,
  outcome_source, outcome_mode, outcome_count_bucket, count_buckets, duration_buckets,
  playback_failure_codes, exercise_failure_codes, set_failure_codes, transfer_failure_codes,
  gaze_failure_codes,
}

unfoldable pub linka_looks_kinds : List String
linka_looks_kinds =
    "start" ∷ "platformDetected" ∷ "openSettings" ∷ "openSet" ∷ "openFolder" ∷ "openEditor"
    ∷ "openTobiiCalibration" ∷ "cardClick" ∷ "toggleOutputLine" ∷ "toggleGazeLock" ∷ "share"
    ∷ "move" ∷ "trash" ∷ "editorAddImage" ∷ "editorAddAudio" ∷ "settingsToggleEyeExit"
    ∷ "settingsToggleEyeChoose" ∷ "settingsToggleEyeActivation" ∷ "settingsToggleEyePagination"
    ∷ "settingsToggleKeyboardActivation" ∷ "settingsToggleJoystickActivation"
    ∷ "settingsToggleTypeSound" ∷ "settingsToggleMouseActivation" ∷ "settingsTogglePageTurnMode"
    ∷ "settingsToggleEyeScale" ∷ "settingsSetTimeout" ∷ "settingsToggleAnimation"
    ∷ "tobiiCalibrationStart" ∷ "tobiiCalibrationPoint" ∷ "tobiiCalibrationFinish"
    ∷ "tobiiCalibrationCancel" ∷ "tobiiCalibrationError" ∷ "tobiiCalibrationApplySaved"
    ∷ "tobiiCalibrationApplySavedResult" ∷ "tobiiCalibrationUnavailable" ∷ "updateAvailable"
    ∷ "updateDownloaded" ∷ "updateError" ∷ "updateInstallConfirmed" ∷ "deploySmoke" ∷ []

unfoldable pub linka_looks_rules : List (String × OutcomeRule)
linka_looks_rules =
    (
      "utterance_completed",
      record {
        required = outcome_result ∷ outcome_mode ∷ [];
        results = "completed" ∷ "failed" ∷ "cancelled" ∷ [];
        sources = [];
        modes = "standard" ∷ "direct" ∷ "without-space" ∷ [];
        count_buckets = count_buckets;
        duration_buckets = duration_buckets;
        failure_codes = playback_failure_codes;
      },
    )
    ∷ (
      "exercise_completed",
      record {
        required = outcome_result ∷ outcome_source ∷ outcome_count_bucket ∷ [];
        results = "completed" ∷ "incomplete" ∷ "failed" ∷ [];
        sources = "quiz" ∷ "match" ∷ [];
        modes = [];
        count_buckets = count_buckets;
        duration_buckets = duration_buckets;
        failure_codes = exercise_failure_codes;
      },
    )
    ∷ (
      "set_saved",
      record {
        required = outcome_result ∷ outcome_source ∷ outcome_count_bucket ∷ [];
        results = "completed" ∷ "failed" ∷ [];
        sources = "created" ∷ "edited" ∷ [];
        modes = [];
        count_buckets = count_buckets;
        duration_buckets = [];
        failure_codes = set_failure_codes;
      },
    )
    ∷ (
      "transfer_completed",
      record {
        required = outcome_result ∷ outcome_source ∷ [];
        results = "completed" ∷ "failed" ∷ [];
        sources = "import" ∷ "export" ∷ [];
        modes = [];
        count_buckets = [];
        duration_buckets = [];
        failure_codes = transfer_failure_codes;
      },
    )
    ∷ (
      "gaze_calibration_completed",
      record {
        required = outcome_result ∷ [];
        results = "completed" ∷ "failed" ∷ "cancelled" ∷ [];
        sources = [];
        modes = [];
        count_buckets = [];
        duration_buckets = [];
        failure_codes = gaze_failure_codes;
      },
    )
    ∷ []

unfoldable pub linka_looks_spec : Spec
unfolding linka_looks_kinds linka_looks_rules
linka_looks_spec = record {
  id = linka_looks;
  opaque_key = "a2aea6a7de105d4001e90f53cb24388163609c7721eb947d24327432c21901df";
  streams = stream_product ∷ stream_outcome ∷ [];
  game_ids = [];
  product_kinds = linka_looks_kinds;
  outcome_rules = linka_looks_rules;
}

unfoldable pub linka_pictures_kinds : List String
linka_pictures_kinds =
    "app_open" ∷ "open_set" ∷ "edit_set" ∷ "create_set" ∷ "open_settings" ∷ "open_grid_settings"
    ∷ "resize_grid" ∷ "set_without_space" ∷ "add_card" ∷ "add_set" ∷ "card_select" ∷ "set_list_open"
    ∷ "set_open" ∷ "set_import" ∷ "set_export" ∷ "output_speak" ∷ "direct_play" ∷ "playback_failed"
    ∷ "quiz_answer" ∷ "match_pair" ∷ "editor_open" ∷ "set_save" ∷ "parent_code_check"
    ∷ "non_fatal_error" ∷ []

unfoldable pub linka_pictures_rules : List (String × OutcomeRule)
linka_pictures_rules =
    (
      "utterance_completed",
      record {
        required = outcome_result ∷ outcome_mode ∷ [];
        results = "completed" ∷ "failed" ∷ "cancelled" ∷ [];
        sources = [];
        modes = "standard" ∷ "direct" ∷ "without-space" ∷ [];
        count_buckets = count_buckets;
        duration_buckets = duration_buckets;
        failure_codes = playback_failure_codes;
      },
    )
    ∷ (
      "exercise_completed",
      record {
        required = outcome_result ∷ outcome_source ∷ outcome_count_bucket ∷ [];
        results = "completed" ∷ "incomplete" ∷ "failed" ∷ [];
        sources = "quiz" ∷ "match" ∷ [];
        modes = [];
        count_buckets = count_buckets;
        duration_buckets = duration_buckets;
        failure_codes = exercise_failure_codes;
      },
    )
    ∷ (
      "set_saved",
      record {
        required = outcome_result ∷ outcome_source ∷ outcome_count_bucket ∷ [];
        results = "completed" ∷ "failed" ∷ [];
        sources = "created" ∷ "edited" ∷ [];
        modes = [];
        count_buckets = count_buckets;
        duration_buckets = [];
        failure_codes = set_failure_codes;
      },
    )
    ∷ (
      "transfer_completed",
      record {
        required = outcome_result ∷ outcome_source ∷ [];
        results = "completed" ∷ "failed" ∷ [];
        sources = "import" ∷ "export" ∷ [];
        modes = [];
        count_buckets = [];
        duration_buckets = [];
        failure_codes = transfer_failure_codes;
      },
    )
    ∷ []

unfoldable pub linka_pictures_spec : Spec
unfolding linka_pictures_kinds linka_pictures_rules
linka_pictures_spec = record {
  id = linka_pictures;
  opaque_key = "070210b29cd1c08ceb82a8c631463765db84aceed4a73181bf9d2e0e99968a58";
  streams = stream_product ∷ stream_outcome ∷ [];
  game_ids = [];
  product_kinds = linka_pictures_kinds;
  outcome_rules = linka_pictures_rules;
}
