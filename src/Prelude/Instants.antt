-- ===== src/Prelude/Instants.antt =====
-- `time.Time` and `time.Duration`. An instant is the number of nanoseconds since the earliest
-- second that a `time.Time` holds (int64 seconds, counted from the year 1), so every instant is a
-- natural number. `a.Before(b)` is `ltb a b`, and `a.After(b)` is `ltb b a`. `t.Add(-d)` is `t - d`:
-- the subtraction stops at 0 where the source's would wrap, 292 billion years ago.
use Prim.Native.Nat.{ℕ, ◌+◌, ◌-◌, ◌*◌, ◌%◌, ◌^◌}

abbrev pub Time : Type 0
Time = ℕ

abbrev pub millisecond : ℕ
millisecond = 1_000_000

abbrev pub second : ℕ
second = 1_000_000_000

abbrev pub minute : ℕ
minute = 60 * second

abbrev pub hour : ℕ
hour = 60 * minute

abbrev pub day : ℕ
day = 24 * hour

-- The first second of 1970, counted from the earliest one.
abbrev pub unix_epoch : ℕ
unix_epoch = 2 ^ 63 + 62_135_596_800

-- `time.Date(2020, 1, 1, …)` and `time.Date(2100, 1, 1, …)`
abbrev pub year_2020 : Time
year_2020 = (unix_epoch + 1_577_836_800) * second

abbrev pub year_2100 : Time
year_2100 = (unix_epoch + 4_102_444_800) * second

-- `t.Truncate(time.Millisecond)`
abbrev pub truncate_ms : Time → Time
truncate_ms t = t - t % millisecond
