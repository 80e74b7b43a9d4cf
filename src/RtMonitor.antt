-- ===== src/RtMonitor.antt =====
-- easynav_system safety/RtMonitor: detection of real-time cycles that start late.
-- Times are steady-clock nanoseconds. The `int` streak counter is unbounded here (it would need
-- 2^31 late cycles in a row to overflow); the `uint64_t` total wraps.
pub mod Streak
use easy_navigation.Common.{
  ℕ, suc, ◌+◌, ◌%◌, ◌^◌, ℤ, pos, ◌-ℤ◌, leb_ℤ, ltb, Bool, true, false, Option, none, some, List, [],
  ◌∷◌, if◌then◌else◌,
}
use easy_navigation.Double.{Double, zero_d, lt, Arith}

pub data Status : Type 0 where
  ok late error : Status

pub record RtMonitor : Type 0 where
  pub max_period : Double
  pub max_late_cycles : ℤ
  pub last_start : Option ℤ
  pub status : Status
  pub late_cycles : ℕ
  pub consecutive_late : ℕ
  pub last_period : Double

unfoldable pub reset : RtMonitor → RtMonitor
reset m = record m {
  last_start = none;
  status = ok;
  late_cycles = 0;
  consecutive_late = 0;
  last_period = zero_d;
}

unfoldable pub configure : Arith → Double → Double → ℤ → RtMonitor → RtMonitor
unfolding reset
configure a period max_period_factor max_late_cycles m =
    reset
      (record m { max_period = a.mul period max_period_factor; max_late_cycles = max_late_cycles })

-- The body of `if (last_start_)`.
unfoldable pub measure : Arith → Option ℤ → ℤ → RtMonitor → RtMonitor
measure a none now m = m
measure a (some last) now m =
    let period = a.seconds (now -ℤ last) in
    if lt m.max_period period
    then record m {
      last_period = period;
      late_cycles = (m.late_cycles + 1) % 2 ^ 64;
      consecutive_late = m.consecutive_late + 1;
    }
    else record m { last_period = period; consecutive_late = 0 }

unfoldable pub classify : RtMonitor → Status
classify m =
    if leb_ℤ m.max_late_cycles (pos m.consecutive_late)
    then error
    else if ltb 0 m.consecutive_late
    then late
    else ok

-- The new monitor; its `status` field is what the function returns.
unfoldable pub cycle_started : Arith → ℤ → RtMonitor → RtMonitor
unfolding measure classify
cycle_started a now m =
    let m' = record (measure a m.last_start now m) { last_start = some now } in
    record m' { status = classify m' }
