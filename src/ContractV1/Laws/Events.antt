-- ===== src/ContractV1/Laws/Events.antt =====
-- internal/contract/v1/validate.go: what an event that `validateEvent` accepts looks like.
use linka_plays_metric.Prelude.{
  String, ℕ, Bool, Bytes, ◌≤◌, ◌≡◌, refl, Option, none, some, List, [], ◌∷◌, true, ◌&&◌, not, leb,
  arith, ok, wrap, Memᴰ, one_of, one_of_iff, Platform, is_none, is_some, >>=-eq-ok, >>-eq-ok,
  guard-eq-ok, wrap-eq-ok,
}
use linka_plays_metric.ContractV1.Types.{Event, ValidatedEvent, Dimensions}
use linka_plays_metric.ContractV1.Properties.{Json}
use linka_plays_metric.ContractV1.Fields.{
  validate_app, validate_uuids, parse_millisecond_time, safe_value_pattern, fingerprint_pattern,
}
use linka_plays_metric.ContractV1.Cases.{validate_properties}
use linka_plays_metric.ContractV1.Batches.{known_event_names, validate_game_session, validate_event}
use linka_plays_metric.ContractV2.Laws.Patterns.{IsSafe}
use linka_plays_metric.ContractV1.Laws.Patterns.{
  safe_value_pattern-IsSafe, IsFingerprint, fingerprint_pattern-IsFingerprint,
}
use linka_plays_metric.ContractV1.Laws.Fields.{
  OrNone, or_none, or_none-OrNone, IsApp, validate_app_sound, IsUuid, validate_uuids_sound,
  IsMillisecond, parse_millisecond_time_sound, IsWithin, outside_sound,
}
use linka_plays_metric.ContractV1.Laws.Dimensions.{
  is_bounded, IsFine, AllFine, validate_properties-fine,
}

-- What may reach the columns of the dimensions: short texts over a small alphabet, members of an
-- enumeration, and numbers in a range.
pub record IsBounded (d : Dimensions) : Type 0 where
  pub page : OrNone IsSafe d.page
  pub mode : OrNone IsSafe d.mode
  pub game_category : OrNone IsSafe d.game_category
  pub setting_key : OrNone IsSafe d.setting_key
  pub setting_number : OrNone (IsWithin 100_000) d.setting_number
  pub game_id : OrNone IsSafe d.game_id
  pub target_kind : OrNone IsSafe d.target_kind
  pub input_method :
      OrNone (λ x. Memᴰ x ("mouse" ∷ "touch" ∷ "gaze" ∷ "keyboard" ∷ [])) d.input_method
  pub elapsed_ms : OrNone (λ n. n ≤ 60_000) d.elapsed_ms
  pub response_ms : OrNone (λ n. n ≤ 86_400_000) d.response_ms
  pub result : OrNone IsSafe d.result
  pub reason : OrNone IsSafe d.reason
  pub hint_kind : OrNone IsSafe d.hint_kind
  pub difficulty : OrNone (λ n. (1 ≤ n) × (n ≤ 10)) d.difficulty
  pub tobii_state :
      OrNone
        (λ x. Memᴰ x (
          "unsupported" ∷ "service_starting" ∷ "service_unavailable" ∷ "connecting"
          ∷ "waiting_device" ∷ "connected" ∷ "tracking" ∷ "reconnecting" ∷ "error" ∷ []))
        d.tobii_state
  pub updater_state :
      OrNone
        (λ x. Memᴰ x (
          "idle" ∷ "checking" ∷ "available" ∷ "downloading" ∷ "downloaded" ∷ "installing" ∷ "error"
          ∷ []))
        d.updater_state
  pub updater_version : OrNone IsSafe d.updater_version
  pub error_fingerprint : OrNone IsFingerprint d.error_fingerprint
  pub error_component : OrNone IsSafe d.error_component
  pub dropped_count : OrNone (λ n. 1 ≤ n) d.dropped_count

IsSafe-text : (o : Option String) → or_none safe_value_pattern o ≡ true → OrNone IsSafe o
IsSafe-text o h = or_none-OrNone _ IsSafe safe_value_pattern-IsSafe o h

listed :
    (allowed : List String) (o : Option String)
    → or_none (λ x. one_of x allowed) o ≡ true
    → OrNone (λ x. Memᴰ x allowed) o
listed allowed o h = or_none-OrNone _ (λ x. Memᴰ x allowed) (λ x. (one_of_iff x allowed).0) o h

at_most :
    (limit : ℕ) (o : Option ℕ) → or_none (λ n. leb n limit) o ≡ true → OrNone (λ n. n ≤ limit) o
at_most limit o h = or_none-OrNone _ (λ n. n ≤ limit) (λ n k. ground arith) o h

is_bounded-IsBounded : (d : Dimensions) → is_bounded d ≡ true → IsBounded d
is_bounded-IsBounded d h = record {
  page = IsSafe-text _ (ground arith);
  mode = IsSafe-text _ (ground arith);
  game_category = IsSafe-text _ (ground arith);
  setting_key = IsSafe-text _ (ground arith);
  setting_number = or_none-OrNone _ (IsWithin 100_000) (outside_sound 100_000) _ (ground arith);
  game_id = IsSafe-text _ (ground arith);
  target_kind = IsSafe-text _ (ground arith);
  input_method = listed _ _ (ground arith);
  elapsed_ms = at_most _ _ (ground arith);
  response_ms = at_most _ _ (ground arith);
  result = IsSafe-text _ (ground arith);
  reason = IsSafe-text _ (ground arith);
  hint_kind = IsSafe-text _ (ground arith);
  difficulty =
      or_none-OrNone (λ n. leb 1 n && leb n 10) (λ n. (1 ≤ n) × (n ≤ 10)) (λ n k. ground arith)
        d.difficulty (ground arith);
  tobii_state = listed _ _ (ground arith);
  updater_state = listed _ _ (ground arith);
  updater_version = IsSafe-text _ (ground arith);
  error_fingerprint =
      or_none-OrNone fingerprint_pattern IsFingerprint fingerprint_pattern-IsFingerprint _
        (ground arith);
  error_component = IsSafe-text _ (ground arith);
  dropped_count =
      or_none-OrNone (λ n. leb 1 n) (λ n. 1 ≤ n) (λ n k. ground arith) d.dropped_count
        (ground arith);
}

module _ (p : Platform) (json : Json) where
  pub record IsEvent (event : Event) (v : ValidatedEvent) : Type 0 where
    pub same : v.event ≡ event
    pub event_uuid : IsUuid p event.event_id
    pub installation_uuid : IsUuid p event.installation_id
    pub app_session_uuid : IsUuid p event.app_session_id
    pub game_session_uuid : OrNone (IsUuid p) event.game_session_id
    pub name : Memᴰ event.event_name known_event_names
    pub app_block : IsApp event.app
    pub time : IsMillisecond p event.occurred_at v.occurred_at_time
    pub dimensions : IsBounded v.dimensions
    -- an event that names a game belongs to a session of the game
    pub session : is_some v.dimensions.game_id ≡ true → is_some event.game_session_id ≡ true

  game_session_sound : (o : Option String) → validate_game_session p o ≡ ok tt → OrNone (IsUuid p) o
  game_session_sound none h = tt
  game_session_sound (some id) h =
      (validate_uuids_sound p (id ∷ []) (wrap-eq-ok "game_session_id" _ h)).0

  accepted-IsFine :
      (name : String) (raw : Bytes) (d : Dimensions) (game : Bool)
      → validate_properties json name raw ≡ ok (d, game)
      → IsFine game d
  unfolding AllFine
  accepted-IsFine name raw d game h = validate_properties-fine json name raw d game h

  -- An event that is accepted is kept as it is; its identifiers are UUIDs, its name is known, its
  -- time is on a whole millisecond, each of its dimensions is bounded, and where they name a game
  -- the event has a game session.
  pub validate_event-IsEvent :
      (event : Event) (v : ValidatedEvent) → validate_event p json event ≡ ok v → IsEvent event v
  unfolding validate_event
  validate_event-IsEvent event v h =
      let (uuids, h1) = >>-eq-ok (validate_uuids p _) _ h in
      let (session, h2) = >>-eq-ok (validate_game_session p event.game_session_id) _ h1 in
      let (known, h3) = guard-eq-ok (one_of event.event_name known_event_names) _ _ h2 in
      let (app, h4) = >>-eq-ok (validate_app event.app) _ h3 in
      let (t, time, h5) =
        >>=-eq-ok (wrap "occurred_at" (parse_millisecond_time p event.occurred_at)) _ h4 in
      let properties = validate_properties json event.event_name event.properties in
      let ((d, game), accepted, h6) = >>=-eq-ok (wrap "properties" properties) _ h5 in
      let (together, h7) = guard-eq-ok (not (game && is_none event.game_session_id)) _ _ h6 in
      let (bounded, named) =
        accepted-IsFine _ _ d game (wrap-eq-ok "properties" properties accepted) in
      let e : record { event = event; occurred_at_time = t; dimensions = d } ≡ v = cc h7 in
      let ids = validate_uuids_sound p _ uuids in
      rw (← e) (record {
        same = refl;
        event_uuid = ids.0;
        installation_uuid = ids.1.0;
        app_session_uuid = ids.1.1.0;
        game_session_uuid = game_session_sound event.game_session_id session;
        name = (one_of_iff _ _).0 known;
        app_block = validate_app_sound event.app app;
        time = parse_millisecond_time_sound p event.occurred_at t (wrap-eq-ok "occurred_at" _ time);
        dimensions = is_bounded-IsBounded d bounded;
        session = λ k. ground arith;
      })
