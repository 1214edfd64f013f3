-- ===== src/GoTime.antt =====
-- Go's time package, as far as the source uses it: a Duration is an int64 of nanoseconds, a Time a
-- point on one line of nanoseconds (the monotonic clock of `time.Now()`).
use Prim.Native.Nat.{◌^◌}
use contextmatrix_backendkit.Prelude.{ℕ, ◌-◌, if◌then◌else◌, arith}
use contextmatrix_backendkit.Prelude.Int.{ℤ, pos, negsuc, ◌+ℤ◌, ◌-ℤ◌, ltb_ℤ, ◌≤ℤ◌, ◌<ℤ◌}

abbrev pub Duration : Type 0
Duration = ℤ

abbrev pub Time : Type 0
Time = ℤ

abbrev pub max_duration : Duration
max_duration = pos (2 ^ 63 - 1)

abbrev pub min_duration : Duration
min_duration = negsuc (2 ^ 63 - 1)

-- `d + e` of durations, which wraps around at the ends of int64.
unfoldable pub add_duration : Duration → Duration → Duration
add_duration d e =
    let sum = d +ℤ e in
    if ltb_ℤ max_duration sum
    then sum -ℤ pos (2 ^ 64)
    else if ltb_ℤ sum min_duration
    then sum +ℤ pos (2 ^ 64)
    else sum

abbrev pub second : ℕ
second = 1_000_000_000

-- `t.Sub(u)`, which saturates at the ends of int64.
unfoldable pub since : Time → Time → Duration
since t u =
    let d = t -ℤ u in
    if ltb_ℤ max_duration d then max_duration else if ltb_ℤ d min_duration then min_duration else d

-- Saturation does not move a difference across a duration that is not extreme.
pub since-le : (t u : Time) (d : Duration) → min_duration ≤ℤ d → t -ℤ u ≤ℤ d → since t u ≤ℤ d
unfolding since
since-le t u d h e = ground arith

pub lt-since : (t u : Time) (d : Duration) → d <ℤ max_duration → d <ℤ t -ℤ u → d <ℤ since t u
unfolding since
lt-since t u d h e = ground arith
