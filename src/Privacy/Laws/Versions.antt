-- ===== src/Privacy/Laws/Versions.antt =====
-- internal/clickhouse/store_privacy.go: the order of the versions, and the delays.
use linka_plays_metric.Prelude.{
  String, Memᴰ, List, [], ◌∷◌, ◌==◌, eq_iff, Bool-cases, inl, inr, false, sym, ◌∙◌, ◌+◌, ℕ, suc,
  ◌*◌, ◌-◌, ◌%◌, ◌^◌, ◌<◌, ◌≤◌, ◌≡◌, ◌↔◌, ◌⊎◌, arith, refl, zero, second, millisecond, truncate_ms,
}
use native.Mathlib.Nat.{pow-suc}
use linka_plays_metric.Privacy.Requests.{Request}
use linka_plays_metric.Privacy.Versions.{phase, status_version, retry_delay, clamp_attempt}

pub phase-bounds : (status : String) → (1 ≤ phase status) × (phase status ≤ 3)
unfolding phase
phase-bounds status = (ground arith, ground arith)

attempt_or_phase :
    (request : Request) (m n k k' : ℕ)
    → 1 ≤ k
    → k ≤ 3
    → 1 ≤ k'
    → k' ≤ 3
    → request.ingested_at + (m * 4 + k) * millisecond
      < request.ingested_at + (n * 4 + k') * millisecond
    → (m < n) ⊎ ((m ≡ n) × (k < k'))
attempt_or_phase request m n k k' low high low' high' h = ground arith

-- The statuses at the end of an attempt.
abbrev pub ended : List String
ended = "retry" ∷ "failed" ∷ "completed" ∷ []

-- The status comes later in the life of an attempt: processing and what is not named is first, then
-- retry and failed, then completed.
pub data IsEarlier (status status' : String) : Type 0 where
  first_ended : ¬ Memᴰ status ended → Memᴰ status' ended → IsEarlier status status'
  unfinished_completed :
      Memᴰ status ("retry" ∷ "failed" ∷ []) → status' ≡ "completed" → IsEarlier status status'

unfinished-ended : {status : String} → Memᴰ status ("retry" ∷ "failed" ∷ []) → Memᴰ status ended
unfinished-ended (Memᴰ.head e) = Memᴰ.head e
unfinished-ended (Memᴰ.tail (Memᴰ.head e)) = Memᴰ.tail (Memᴰ.head e)
unfinished-ended (Memᴰ.tail (Memᴰ.tail m)) = elim m [ ]

completed-ended : {status : String} → status ≡ "completed" → Memᴰ status ended
completed-ended e = Memᴰ.tail (Memᴰ.tail (Memᴰ.head e))

not_ended :
    (status : String)
    → (status == "retry") ≡ false
    → (status == "failed") ≡ false
    → (status == "completed") ≡ false
    → ¬ Memᴰ status ended
not_ended status a b d (Memᴰ.head e) = cc ((eq_iff _ _).1 e, a)
not_ended status a b d (Memᴰ.tail (Memᴰ.head e)) = cc ((eq_iff _ _).1 e, b)
not_ended status a b d (Memᴰ.tail (Memᴰ.tail (Memᴰ.head e))) = cc ((eq_iff _ _).1 e, d)
not_ended status a b d (Memᴰ.tail (Memᴰ.tail (Memᴰ.tail m))) = elim m [ ]

completed_finished :
    (status : String) → status ≡ "completed" → ¬ Memᴰ status ("retry" ∷ "failed" ∷ [])
completed_finished status same (Memᴰ.head e) = cc ((eq_iff "completed" "retry").1 (sym same ∙ e))
completed_finished status same (Memᴰ.tail (Memᴰ.head e)) =
    cc ((eq_iff "completed" "failed").1 (sym same ∙ e))
completed_finished status same (Memᴰ.tail (Memᴰ.tail m)) = elim m [ ]

phase-cases :
    (status : String)
    → (¬ Memᴰ status ended × (phase status ≡ 1))
      ⊎ (Memᴰ status ("retry" ∷ "failed" ∷ []) × (phase status ≡ 2))
      ⊎ ((status ≡ "completed") × (phase status ≡ 3))
unfolding phase
phase-cases status = elim (Bool-cases (status == "retry")) [
  | inl same ↦ inr (inl (Memᴰ.head ((eq_iff _ _).0 same), rw (same, phase) refl))
  | inr not_retry ↦ elim (Bool-cases (status == "failed")) [
    | inl same ↦
        inr (inl (Memᴰ.tail (Memᴰ.head ((eq_iff _ _).0 same)), rw (not_retry, same, phase) refl))
    | inr not_failed ↦ elim (Bool-cases (status == "completed")) [
      | inl same ↦ inr (inr ((eq_iff _ _).0 same, rw (not_retry, not_failed, same, phase) refl))
      | inr other ↦ inl (
        not_ended status not_retry not_failed other,
        rw (not_retry, not_failed, other, phase) refl,
      )
    ]
  ]
]

pub before_sound :
    (status status' : String) → phase status < phase status' → IsEarlier status status'
before_sound status status' h = elim (phase-cases status) [
  | inl (other, p) ↦ elim (phase-cases status') [
    | inl (_, p') ↦ absurd (omega arith)
    | inr (inl (m, _)) ↦ first_ended other (unfinished-ended m)
    | inr (inr (e, _)) ↦ first_ended other (completed-ended e)
  ]
  | inr (inl (m, p)) ↦ elim (phase-cases status') [
    | inl (_, p') ↦ absurd (omega arith)
    | inr (inl (_, p')) ↦ absurd (omega arith)
    | inr (inr (e, _)) ↦ unfinished_completed m e
  ]
  | inr (inr (_, p)) ↦ let (_, high) = phase-bounds status' in absurd (omega arith)
]

before_complete :
    (status status' : String) → IsEarlier status status' → phase status < phase status'
unfolding phase
before_complete status status' (first_ended other m) = elim (phase-cases status) [
  | inl (_, p) ↦ elim (phase-cases status') [
    | inl (none_of, _) ↦ absurd (none_of m)
    | inr (inl (_, p')) ↦ omega arith
    | inr (inr (_, p')) ↦ omega arith
  ]
  | inr (inl (k, _)) ↦ absurd (other (unfinished-ended k))
  | inr (inr (e, _)) ↦ absurd (other (completed-ended e))
]
before_complete status status' (unfinished_completed m e) = elim (phase-cases status) [
  | inl (other, _) ↦ absurd (other (unfinished-ended m))
  | inr (inl (_, p)) ↦ let last : phase status' ≡ 3 = rw e refl in omega arith
  | inr (inr (same, _)) ↦ elim (completed_finished status same m) [ ]
]

-- The versions of a request's rows are ordered by the attempt first and, within an attempt, by the
-- phase: pending and processing alike, then retry and failed alike, then completed.
pub status_version_order :
    (request : Request) (status status' : String) (m n : ℕ)
    → (status_version request status m < status_version request status' n)
      ↔ ((m < n) ⊎ ((m ≡ n) × IsEarlier status status'))
unfolding status_version
status_version_order request status status' m n =
    let (low, high) = phase-bounds status in
    let (low', high') = phase-bounds status' in
    (
      λ h.
          elim (attempt_or_phase request m n (phase status) (phase status') low high low' high' h) [
            | inl less ↦ inl less
            | inr (same, before) ↦ inr (same, before_sound status status' before)
          ],
      elim [
        | inl less ↦ omega arith
        | inr (same, earlier) ↦ let before = before_complete status status' earlier in omega arith
      ],
    )

-- A version of a request that entered on a whole millisecond is one.
pub truncate_ms-status_version :
    (request : Request) (status : String) (n : ℕ)
    → request.ingested_at % millisecond ≡ 0
    → truncate_ms (status_version request status n) ≡ status_version request status n
unfolding status_version
truncate_ms-status_version request status n h = omega arith

-- The delay is a second at first, doubles from the first attempt to the eighth, and stays at 128
-- seconds from there on.
pub retry_delay_doubles :
    (n : ℕ)
    → (retry_delay 1 ≡ second)
      × (1 ≤ n → n < 8 → retry_delay (suc n) ≡ 2 * retry_delay n)
      × (8 ≤ n → retry_delay n ≡ 128 * second)
unfolding retry_delay
retry_delay_doubles n = (refl, doubles n, λ h. rw (late n h) refl)
  where
    late : (n : ℕ) → 8 ≤ n → clamp_attempt n ≡ 8
    late n h = ground arith

    early : (n : ℕ) → 1 ≤ n → n ≤ 8 → clamp_attempt n ≡ n
    early n h k = ground arith

    less : (n : ℕ) → suc n - 1 ≡ n
    less n = omega arith

    power : (n : ℕ) → 2 ^ (suc (suc n) - 1) * second ≡ 2 * (2 ^ (suc n - 1) * second)
    power n = rw (less (suc n), less n) (omega (arith, pow-suc 2 n))

    doubles : (n : ℕ) → 1 ≤ n → n < 8 → retry_delay (suc n) ≡ 2 * retry_delay n
    doubles zero h k = omega arith
    doubles (suc n) h k =
        rw (early (suc n) h (omega arith), early (suc (suc n)) (omega arith) (omega arith))
          (power n)
