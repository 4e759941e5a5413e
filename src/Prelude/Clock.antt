-- ===== src/Prelude/Clock.antt =====
-- Go's clock and the atomic counters of the packages. A `time.Time` is its number of nanoseconds since
-- year 1.
use Prim.Native.Nat.{ℕ, ◌+◌, ◌-◌, ◌%◌, ◌^◌}

-- `Add(1)` on a uint64.
abbrev pub next_uint64 : ℕ → ℕ
next_uint64 n = (n + 1) % 2 ^ 64

-- `time.Time.UnixNano`, for a time after 1970.
abbrev pub unix_nano : ℕ → ℕ
unix_nano t = t - 62135596800000000000
