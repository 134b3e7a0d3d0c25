-- ===== src/ContractV2/Laws/Common.antt =====
-- internal/contract/v2/parse.go: what the validator of the common stream accepts.
use linka_plays_metric.Prelude.{
  String, ◌≡◌, refl, inl, inr, none, some, [], ◌∷◌, false, ◌==◌, eq_iff, arith, Time, ok, Memᴰ,
  one_of, one_of_iff, Platform, Bool-cases,
}
use linka_plays_metric.ContractV2.Types.{CommonRecord, Validated}
use linka_plays_metric.ContractV2.Records.{
  pages, lifecycle_kinds, check_common_kind, timed, validate_common_record,
}
use linka_plays_metric.ContractV2.Laws.Fields.{
  IsBase, validate_base_record_sound, validate_base_record_complete,
}
use linka_plays_metric.ContractV2.Laws.Optional.{some_of_sound}

-- A common record carries a page only if it is a page view, and a mode only if it is a mode change,
-- each from a closed list; an app lifecycle record carries neither.
pub data IsCommonKind (r : CommonRecord) : Type 0 where
  lifecycle :
      Memᴰ r.kind ("app_started" ∷ "app_backgrounded" ∷ "app_foregrounded" ∷ "app_closed" ∷ [])
      → r.page ≡ none
      → r.mode ≡ none
      → IsCommonKind r
  page_viewed :
      (page : String)
      → r.kind ≡ "page_viewed"
      → r.page ≡ some page
      → Memᴰ page ("home" ∷ "games" ∷ "game" ∷ "settings" ∷ "statistics" ∷ "onboarding" ∷ [])
      → r.mode ≡ none
      → IsCommonKind r
  mode_changed :
      (mode : String)
      → r.kind ≡ "mode_changed"
      → r.mode ≡ some mode
      → Memᴰ mode ("self" ∷ "assisted" ∷ [])
      → r.page ≡ none
      → IsCommonKind r

pub check_common_kind_sound : (r : CommonRecord) → check_common_kind r ≡ ok tt → IsCommonKind r
unfolding check_common_kind
check_common_kind_sound r h = elim (Bool-cases (one_of r.kind lifecycle_kinds)) [
  | inl life ↦ lifecycle ((one_of_iff _ _).0 life) (ground arith) (ground arith)
  | inr other ↦ elim (Bool-cases (r.kind == "page_viewed")) [
    | inl viewed ↦
        let (page, e, m) = some_of_sound r.page pages (ground arith) in
        page_viewed page ((eq_iff _ _).0 viewed) e m (ground arith)
    | inr different ↦
        let (mode, e, m) = some_of_sound r.mode ("self" ∷ "assisted" ∷ []) (ground arith) in
        mode_changed mode (ground (arith, eq_iff r.kind "mode_changed")) e m (ground arith)
  ]
]

not_lifecycle :
    (one_of "page_viewed" lifecycle_kinds ≡ false) × (one_of "mode_changed" lifecycle_kinds ≡ false)
unfolding one_of
not_lifecycle = (refl, refl)

pub check_common_kind_complete : (r : CommonRecord) → IsCommonKind r → check_common_kind r ≡ ok tt
unfolding check_common_kind
check_common_kind_complete r (lifecycle m e f) = rw ((one_of_iff _ _).1 m, e, f)
check_common_kind_complete r (page_viewed page k e m f) =
    rw (k, e, f, not_lifecycle.0, (one_of_iff page pages).1 m)
check_common_kind_complete r (mode_changed mode k e m f) =
    rw (k, e, f, not_lifecycle.1, (one_of_iff mode _).1 m)

pub record IsCommon (p : Platform) (r : CommonRecord) (sent_at t : Time) : Type 0 where
  pub base : IsBase p r.record_id r.occurred_at r.app_session_id r.app sent_at t
  pub shape : IsCommonKind r

module _ (p : Platform) (r : CommonRecord) (sent_at : Time) where
  pub validate_common_record_sound :
      (v : Validated CommonRecord)
      → validate_common_record p r sent_at ≡ ok v
      → (v.content ≡ r) × IsCommon p r sent_at v.occurred_at_time
  unfolding validate_common_record
  validate_common_record_sound v h = (
    ground arith,
    record {
      base = validate_base_record_sound p _ _ _ _ sent_at v.occurred_at_time (ground arith);
      shape = check_common_kind_sound r (ground arith);
    },
  )

  pub validate_common_record_complete :
      (t : Time) → IsCommon p r sent_at t → validate_common_record p r sent_at ≡ ok (timed r t)
  unfolding validate_common_record
  validate_common_record_complete t v = rw (
    validate_base_record_complete p _ _ _ _ sent_at t v.base,
    check_common_kind_complete r v.shape,
  )
