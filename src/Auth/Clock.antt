-- ===== src/Auth/Clock.antt =====
-- `time.Unix`, `Time.Unix`, `Time.Sub` and `Time.Truncate(time.Second)`. A number of seconds since
-- 1970 is an int64, held as its word, and both conversions wrap around as the source's do.
use linka_plays_metric.Prelude.{
  ℕ, ◌+◌, ◌-◌, ◌*◌, ◌/◌, ◌%◌, ◌^◌, ◌≤◌, ◌<◌, ◌≡◌, Bool, false, ◌||◌, ltb, leb, if◌then◌else◌, arith,
  Time, second, unix_epoch,
}

-- Every `time.Time` is one: its seconds are an int64.
abbrev pub IsInstant : Time → Type 0
IsInstant t = t < 2 ^ 64 * second

unfoldable pub unix : Time → ℕ
unix t = (t / second + 2 ^ 64 - unix_epoch) % 2 ^ 64

unfoldable pub from_unix : ℕ → Time
from_unix w = (w + unix_epoch) % 2 ^ 64 * second

abbrev pub truncate_second : Time → Time
truncate_second t = t - t % second

abbrev pub min : ℕ → ℕ → ℕ
min a b = if leb a b then a else b

-- `delta := now.Sub(t); delta < -skew || delta > skew`, with the bounds at which `Sub` saturates
unfoldable pub is_skewed : Time → Time → ℕ → Bool
is_skewed now t skew = ltb skew (min (t - now) (2 ^ 63)) || ltb skew (min (now - t) (2 ^ 63 - 1))

pub unix_word : (t : Time) → unix t < 2 ^ 64
unfolding unix
unix_word t = omega arith

pub truncate_idem : (now : Time) → truncate_second (truncate_second now) ≡ truncate_second now
truncate_idem now = omega arith

pub from_unix-unix : (t : Time) → IsInstant t → from_unix (unix t) ≡ truncate_second t
unfolding from_unix unix
from_unix-unix t h = omega arith

pub is_skewed_close :
    (now t : Time) (skew : ℕ) → t ≤ now + skew → now ≤ t + skew → is_skewed now t skew ≡ false
unfolding is_skewed
is_skewed_close now t skew late early = ground arith

pub is_skewed_sound :
    (now t : Time) (skew : ℕ)
    → skew < 2 ^ 63 - 1
    → is_skewed now t skew ≡ false
    → (t ≤ now + skew) × (now ≤ t + skew)
unfolding is_skewed
is_skewed_sound now t skew small h = ground arith

pub unix-from_unix : (w : ℕ) → w < 2 ^ 64 → unix (from_unix w) ≡ w
unfolding from_unix unix
unix-from_unix w h = omega arith
