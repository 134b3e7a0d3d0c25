-- ===== src/Privacy/Versions.antt =====
-- internal/clickhouse/store_privacy.go: `privacyStatusVersion` and `privacyRetryDelay`. An attempt
-- is a uint16.
use linka_plays_metric.Prelude.{
  String, ℕ, ◌+◌, ◌-◌, ◌*◌, ◌%◌, ◌^◌, ◌||◌, ◌==◌, ltb, if◌then◌else◌, Time, millisecond, second,
}
use linka_plays_metric.Privacy.Requests.{Request}

unfoldable pub phase : String → ℕ
phase status =
    if status == "retry" || status == "failed" then 2 else if status == "completed" then 3 else 1

unfoldable pub status_version : Request → String → ℕ → Time
status_version request status attempts =
    request.ingested_at + (attempts * 4 + phase status) * millisecond

-- `attempt` between 1 and 8
abbrev pub clamp_attempt : ℕ → ℕ
clamp_attempt attempt = if ltb attempt 1 then 1 else if ltb 8 attempt then 8 else attempt

unfoldable pub retry_delay : ℕ → ℕ
retry_delay attempt = 2 ^ (clamp_attempt attempt - 1) * second

-- `attempts + 1` on a uint16.
abbrev pub next_attempt : ℕ → ℕ
next_attempt attempts = (attempts + 1) % 2 ^ 16
