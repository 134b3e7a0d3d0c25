-- ===== src/ContractV1/Laws/Summaries.antt =====
-- internal/contract/v1/validate.go: exactly the session summaries that `validateSummary` accepts.
use linka_plays_metric.Prelude.{
  String, ℕ, ◌≤◌, ◌≡◌, ◌↔◌, refl, sym, ap, subst, inl, inr, Option, none, some, [], ◌∷◌, true, not,
  ◌==◌, eq_iff, arith, Time, ok, wrap, Platform, Bool-cases, >>=-eq-ok, >>-eq-ok, guard-eq-ok,
  wrap-eq-ok, eq_refl,
}
use linka_plays_metric.ContractV2.{Float64}
use linka_plays_metric.ContractV1.Types.{SessionSummary, ValidatedSummary}
use linka_plays_metric.ContractV1.Fields.{
  validate_safe, validate_app, validate_uuids, parse_millisecond_time, some_outside,
}
use linka_plays_metric.ContractV1.Batches.{check_session_type, check_game_session, validate_summary}
use linka_plays_metric.ContractV2.Laws.Patterns.{IsSafe}
use linka_plays_metric.ContractV1.Laws.Patterns.{IsSafe-safe_value_pattern}
use linka_plays_metric.ContractV1.Laws.Fields.{
  OrNone, IsSafeOrEmpty, validate_safe_sound, validate_optional_safe_sound,
  validate_optional_safe_complete, IsApp, validate_app_sound, validate_app_complete, IsUuid,
  validate_uuids_sound, validate_uuids_complete, IsMillisecond, parse_millisecond_time_sound,
  parse_millisecond_time_complete, IsWithin, outside_sound, outside_complete,
}

module _ (p : Platform) where
  -- The session of an app is named by its app session and has no game; the session of a game is
  -- named by its game session, and its game is a safe text.
  pub data IsSession (s : SessionSummary) : Type 0 where
    app_session :
        s.session_type ≡ "app"
        → s.session_id ≡ s.app_session_id
        → s.game_session_id ≡ none
        → s.game_id ≡ none
        → IsSession s
    game_session :
        (game : String)
        → s.session_type ≡ "game"
        → s.game_session_id ≡ some s.session_id
        → s.game_id ≡ some game
        → IsSafe game
        → IsSession s

  pub record IsSummary (s : SessionSummary) (started ended : Time) : Type 0 where
    pub session_uuid : IsUuid p s.session_id
    pub installation_uuid : IsUuid p s.installation_id
    pub app_session_uuid : IsUuid p s.app_session_id
    pub app_block : IsApp s.app
    pub start : IsMillisecond p s.started_at started
    pub end_time : IsMillisecond p s.ended_at ended
    pub order : started ≤ ended
    pub duration : s.duration_ms ≤ 604_800_000
    pub result : IsSafeOrEmpty s.result
    pub interruption_reason : IsSafeOrEmpty s.interruption_reason
    pub menu_mode : IsSafeOrEmpty s.menu_mode
    pub game_category : IsSafeOrEmpty s.game_category
    pub input_method : IsSafeOrEmpty s.input_method
    pub finish_reason : IsSafeOrEmpty s.finish_reason
    pub valid_gaze_ratio : OrNone (IsWithin 1) s.valid_gaze_ratio
    pub mean_dwell_ms : OrNone (IsWithin 60_000) s.mean_dwell_ms
    pub configured_dwell_ms : s.configured_dwell_ms ≤ 60_000
    pub session : IsSession s

  some_outside_sound :
      (limit : ℕ) (o : Option Float64)
      → not (some_outside limit o) ≡ true
      → OrNone (IsWithin limit) o
  some_outside_sound limit none h = tt
  some_outside_sound limit (some x) h = outside_sound limit x h

  some_outside_complete :
      (limit : ℕ) (o : Option Float64)
      → OrNone (IsWithin limit) o
      → not (some_outside limit o) ≡ true
  some_outside_complete limit none h = refl
  some_outside_complete limit (some x) h = outside_complete limit x h

  check_game_session_sound :
      (id : String) (session game : Option String)
      → check_game_session p id session game ≡ ok tt
      → (session ≡ some id) × (g : String) × (game ≡ some g) × IsSafe g
  unfolding validate_safe
  check_game_session_sound id none game h = cc
  check_game_session_sound id (some session) none h = cc
  check_game_session_sound id (some session) (some g) h =
      let (same, rest) = guard-eq-ok (id == session) _ _ h in
      let (_, safe) = >>-eq-ok (wrap "game_session_id" (validate_uuids p (session ∷ []))) _ rest in
      (ap some (sym ((eq_iff _ _).0 same)), g, refl, validate_safe_sound "game_id" g safe)

  check_session_type_sound : (s : SessionSummary) → check_session_type p s ≡ ok tt → IsSession s
  unfolding check_session_type validate_safe
  check_session_type_sound s h = elim (Bool-cases (s.session_type == "app")) [
    | inl app ↦
        app_session ((eq_iff _ _).0 app) ((eq_iff _ _).0 (ground arith)) (ground arith)
          (ground arith)
    | inr other ↦ elim (Bool-cases (s.session_type == "game")) [
      | inr unknown ↦ cc (rw (other, unknown, check_session_type) at h)
      | inl game ↦
          let (session, g, named, safe) =
            check_game_session_sound s.session_id s.game_session_id s.game_id
              (rw (other, game, check_session_type) at h) in
          game_session g ((eq_iff _ _).0 game) session named safe
    ]
  ]

  check_session_type_complete :
      (s : SessionSummary) → IsUuid p s.session_id → IsSession s → check_session_type p s ≡ ok tt
  unfolding check_session_type validate_safe
  check_session_type_complete s u (app_session kind same no_session no_game) =
      rw (kind, same, no_session, no_game, eq_refl)
  check_session_type_complete s u (game_session g kind session game safe) = rw (
    kind,
    session,
    game,
    IsSafe-safe_value_pattern g safe,
    eq_refl,
    validate_uuids_complete p (s.session_id ∷ []) (u, tt),
  )

  pub validate_summary_sound :
      (s : SessionSummary) (v : ValidatedSummary)
      → validate_summary p s ≡ ok v
      → (v.summary ≡ s) × IsSummary s v.started_at_time v.ended_at_time
  unfolding validate_summary
  validate_summary_sound s v h =
      let (uuids, h1) = >>-eq-ok (validate_uuids p _) _ h in
      let (app, h2) = >>-eq-ok (validate_app s.app) _ h1 in
      let (t, start, h3) =
        >>=-eq-ok (wrap "started_at" (parse_millisecond_time p s.started_at)) _ h2 in
      let (u, stop, h4) = >>=-eq-ok (wrap "ended_at" (parse_millisecond_time p s.ended_at)) _ h3 in
      let e : record { summary = s; started_at_time = t; ended_at_time = u } ≡ v = ground arith in
      let ids = validate_uuids_sound p _ uuids in
      rw (← e) (
        refl,
        record {
          session_uuid = ids.0;
          installation_uuid = ids.1.0;
          app_session_uuid = ids.1.1.0;
          app_block = validate_app_sound s.app app;
          start = parse_millisecond_time_sound p s.started_at t (wrap-eq-ok "started_at" _ start);
          end_time = parse_millisecond_time_sound p s.ended_at u (wrap-eq-ok "ended_at" _ stop);
          order = ground arith;
          duration = ground arith;
          result = validate_optional_safe_sound "result" _ (ground arith);
          interruption_reason = validate_optional_safe_sound "interruption_reason" _ (ground arith);
          menu_mode = validate_optional_safe_sound "menu_mode" _ (ground arith);
          game_category = validate_optional_safe_sound "game_category" _ (ground arith);
          input_method = validate_optional_safe_sound "input_method" _ (ground arith);
          finish_reason = validate_optional_safe_sound "finish_reason" _ (ground arith);
          valid_gaze_ratio = some_outside_sound 1 _ (ground arith);
          mean_dwell_ms = some_outside_sound 60_000 _ (ground arith);
          configured_dwell_ms = ground arith;
          session = check_session_type_sound s (ground arith);
        },
      )

  validate_summary_complete :
      (s : SessionSummary) (t u : Time)
      → IsSummary s t u
      → validate_summary p s ≡ ok (record { summary = s; started_at_time = t; ended_at_time = u })
  unfolding validate_summary
  validate_summary_complete s t u k =
      rw
        (
          validate_uuids_complete p (s.session_id ∷ s.installation_id ∷ s.app_session_id ∷ [])
              (k.session_uuid, (k.installation_uuid, (k.app_session_uuid, tt))),
          validate_app_complete s.app k.app_block,
          parse_millisecond_time_complete p s.started_at t k.start,
          parse_millisecond_time_complete p s.ended_at u k.end_time,
          validate_optional_safe_complete "result" _ k.result,
          validate_optional_safe_complete "interruption_reason" _ k.interruption_reason,
          validate_optional_safe_complete "menu_mode" _ k.menu_mode,
          validate_optional_safe_complete "game_category" _ k.game_category,
          validate_optional_safe_complete "input_method" _ k.input_method,
          validate_optional_safe_complete "finish_reason" _ k.finish_reason,
          some_outside_complete 1 _ k.valid_gaze_ratio,
          some_outside_complete 60_000 _ k.mean_dwell_ms,
          check_session_type_complete s k.session_uuid k.session,
        )
        (ground (arith, k.order, k.duration, k.configured_dwell_ms))

  -- A session summary is accepted, with the two times it is accepted at, exactly if its identifiers
  -- are UUIDs, its application is known, its times are on whole milliseconds and in order, it lasts
  -- a week at most, its texts are empty or safe, its ratio, its dwell times are in their ranges, and
  -- its identifiers are those of its type of session.
  pub validate_summary_iff :
      (s : SessionSummary) (v : ValidatedSummary)
      → (validate_summary p s ≡ ok v)
        ↔ ((v.summary ≡ s) × IsSummary s v.started_at_time v.ended_at_time)
  validate_summary_iff s v = (
    validate_summary_sound s v,
    λ (same, good).
        subst
          (λ c.
            validate_summary p s
            ≡ ok (record {
              summary = c;
              started_at_time = v.started_at_time;
              ended_at_time = v.ended_at_time;
            }))
          (sym same) (validate_summary_complete s v.started_at_time v.ended_at_time good),
  )
