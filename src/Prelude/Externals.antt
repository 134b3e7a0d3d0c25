-- ===== src/Prelude/Externals.antt =====
-- The packages that the source imports and this repository does not hold, as parameters:
-- `github.com/google/uuid` and the RFC 3339 parser of `time`. A UUID is its 128-bit number, and
-- `uuid.Nil` is 0.
use Prim.Native.Nat.{ℕ}
use Prim.Native.String.{String}
use mathlib.Core.Option.{Option}
use linka_plays_metric.Prelude.Instants.{Time}

pub record Platform : Type 0 where
  pub parse_uuid : String → Option ℕ
  pub print_uuid : ℕ → String
  -- `time.Parse(time.RFC3339Nano, value)`
  pub parse_time : String → Option Time
