-- ===== src/Product/Speech.antt =====
-- internal/product/registry.go: the entries of linka-type, linka-paperboard, linka-site and
-- linka-tts in `registry`.
use linka_plays_metric.Prelude.{String, List, [], ◌∷◌}
use linka_plays_metric.Product.Defs.{
  Spec, OutcomeRule, linka_type, linka_paperboard, linka_site, linka_tts, stream_product,
  stream_outcome, outcome_result, outcome_source, outcome_mode, outcome_count_bucket,
  outcome_duration_bucket, count_buckets, duration_buckets, playback_failure_codes,
  set_failure_codes, sync_failure_codes, tts_failure_codes,
}

unfoldable pub linka_type_kinds : List String
linka_type_kinds =
    "app_open" ∷ "predicator_use" ∷ "spotlight" ∷ "say" ∷ "quickes_say" ∷ "bank_cselect"
    ∷ "bank_sselect" ∷ "login" ∷ "logout" ∷ "register" ∷ "update_prompt_shown" ∷ "update_accepted"
    ∷ "mobile_app_prompt_shown" ∷ "mobile_app_link_clicked" ∷ "bank_cache_started"
    ∷ "bank_cache_completed" ∷ "download_category_cache" ∷ "realtime_sync" ∷ "realtime_sync_error"
    ∷ "dialog_mode_opened" ∷ "dialog_mode_closed" ∷ "dialog_chat_create" ∷ "dialog_chat_select"
    ∷ "dialog_chat_delete" ∷ "dialog_message_send" ∷ "dialog_record_start" ∷ "dialog_record_stop"
    ∷ []

unfoldable pub linka_type_rules : List (String × OutcomeRule)
linka_type_rules =
    (
      "phrase_composed",
      record {
        required = outcome_source ∷ outcome_count_bucket ∷ [];
        results = [];
        sources = "input" ∷ "quick" ∷ "bank" ∷ "dialog" ∷ [];
        modes = [];
        count_buckets = count_buckets;
        duration_buckets = [];
        failure_codes = [];
      },
    )
    ∷ (
      "speech_completed",
      record {
        required =
            outcome_result ∷ outcome_source ∷ outcome_mode ∷ outcome_count_bucket
            ∷ outcome_duration_bucket ∷ [];
        results = "completed" ∷ "failed" ∷ "cancelled" ∷ [];
        sources = "input" ∷ "quick" ∷ "bank" ∷ "dialog" ∷ [];
        modes = "local" ∷ "cloud" ∷ [];
        count_buckets = count_buckets;
        duration_buckets = duration_buckets;
        failure_codes = playback_failure_codes;
      },
    )
    ∷ (
      "bank_action_completed",
      record {
        required = outcome_result ∷ outcome_source ∷ [];
        results = "completed" ∷ "failed" ∷ [];
        sources = "phrase_inserted" ∷ "phrase_spoken" ∷ "reader_opened" ∷ [];
        modes = [];
        count_buckets = [];
        duration_buckets = [];
        failure_codes = set_failure_codes;
      },
    )
    ∷ (
      "dialog_action_completed",
      record {
        required = outcome_result ∷ outcome_source ∷ [];
        results = "completed" ∷ "failed" ∷ [];
        sources = "message_sent" ∷ "suggestion_accepted" ∷ "suggestion_dismissed" ∷ [];
        modes = [];
        count_buckets = [];
        duration_buckets = [];
        failure_codes = set_failure_codes;
      },
    )
    ∷ (
      "sync_completed",
      record {
        required = outcome_result ∷ outcome_count_bucket ∷ [];
        results = "completed" ∷ "failed" ∷ [];
        sources = [];
        modes = [];
        count_buckets = count_buckets;
        duration_buckets = [];
        failure_codes = sync_failure_codes;
      },
    )
    ∷ []

unfoldable pub linka_type_spec : Spec
unfolding linka_type_kinds linka_type_rules
linka_type_spec = record {
  id = linka_type;
  opaque_key = "074a5e8a5a5b103c9d7057f284eb3418d91870ced0941f9374edefdd78c6a6c8";
  streams = stream_product ∷ stream_outcome ∷ [];
  game_ids = [];
  product_kinds = linka_type_kinds;
  outcome_rules = linka_type_rules;
}

unfoldable pub linka_paperboard_kinds : List String
linka_paperboard_kinds =
    "app_open" ∷ "board_open" ∷ "settings_open" ∷ "symbol_selected" ∷ "phrase_spoken" ∷ []

unfoldable pub linka_paperboard_spec : Spec
unfolding linka_paperboard_kinds
linka_paperboard_spec = record {
  id = linka_paperboard;
  opaque_key = "faaa4e383af4af3c458ce9178d4a87c2e2f314407e70807555507b71467031e1";
  streams = stream_product ∷ [];
  game_ids = [];
  product_kinds = linka_paperboard_kinds;
  outcome_rules = [];
}

unfoldable pub linka_site_kinds : List String
linka_site_kinds = "page_view" ∷ []

unfoldable pub linka_site_spec : Spec
unfolding linka_site_kinds
linka_site_spec = record {
  id = linka_site;
  opaque_key = "a1fd852a6ad52468c6ad95b47df33966052a4fc3ff44334e5bcfc4f03e24c372";
  streams = stream_product ∷ [];
  game_ids = [];
  product_kinds = linka_site_kinds;
  outcome_rules = [];
}

unfoldable pub linka_tts_kinds : List String
linka_tts_kinds = "tts_generated" ∷ []

unfoldable pub linka_tts_rules : List (String × OutcomeRule)
linka_tts_rules =
    (
      "request_completed",
      record {
        required =
            outcome_result ∷ outcome_source ∷ outcome_count_bucket ∷ outcome_duration_bucket ∷ [];
        results = "completed" ∷ "failed" ∷ "cancelled" ∷ [];
        sources = "yandex" ∷ "sber" ∷ "local" ∷ [];
        modes = [];
        count_buckets = count_buckets;
        duration_buckets = duration_buckets;
        failure_codes = tts_failure_codes;
      },
    )
    ∷ (
      "cache_operation",
      record {
        required = outcome_result ∷ [];
        results = "hit" ∷ "miss" ∷ "evicted" ∷ [];
        sources = [];
        modes = [];
        count_buckets = [];
        duration_buckets = [];
        failure_codes = [];
      },
    )
    ∷ []

unfoldable pub linka_tts_spec : Spec
unfolding linka_tts_kinds linka_tts_rules
linka_tts_spec = record {
  id = linka_tts;
  opaque_key = "821617fc2acf9c0e033286139584ae3ae920a85c18e04927df929784883f9b8e";
  streams = stream_product ∷ stream_outcome ∷ [];
  game_ids = [];
  product_kinds = linka_tts_kinds;
  outcome_rules = linka_tts_rules;
}
