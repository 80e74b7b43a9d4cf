-- ===== src/RateMonitor.antt =====
-- easynav_core RateMonitor: whether a component runs at its configured frequency. Times are seconds
-- of the node's clock. The `int` counters are unbounded here (they would need 2^31 runs in a
-- window, or 2^31 slow windows in a row, to overflow).
pub mod Calls
pub mod Windows
use easy_navigation.Common.{
  ℕ, suc, ◌+◌, ◌*◌, ◌^◌, ◌≤◌, pos, Bool, true, false, not, ◌||◌, ltb, leb, if◌then◌else◌,
}
use easy_navigation.Double.{Double, fin, zero_d, lt, max_d, of_int, truncate, Arith}

pub data Status : Type 0 where
  ok warn error : Status

-- `kMinRatio` is the double nearest to 0.9.
abbrev pub min_ratio : Double
min_ratio = fin (pos (8106479329266893 * 2 ^ 1021))

abbrev pub max_slow_windows : ℕ
max_slow_windows = 3

unfoldable pub min_window : Double
unfolding of_int
min_window = of_int 1

unfoldable pub window_periods : Double
unfolding of_int
window_periods = of_int 10

pub record RateMonitor : Type 0 where
  pub frequency : Double
  pub window : Double
  pub started : Bool
  pub window_start : Double
  pub last_update : Double
  pub runs : ℕ
  pub rate : Double
  pub slow_windows : ℕ
  pub status : Status

-- A monitor before configure().
unfoldable pub new : RateMonitor
unfolding of_int min_window
new = record {
  frequency = of_int 1;
  window = min_window;
  started = false;
  window_start = zero_d;
  last_update = zero_d;
  runs = 0;
  rate = zero_d;
  slow_windows = 0;
  status = ok;
}

unfoldable pub reset : RateMonitor → RateMonitor
reset m = record m { started = false; runs = 0; rate = zero_d; slow_windows = 0; status = ok }

unfoldable pub configure : Arith → Double → RateMonitor → RateMonitor
unfolding reset max_d min_window window_periods
configure a frequency m =
    reset (record m {
      frequency = frequency;
      window = max_d min_window (a.div window_periods frequency);
    })

unfoldable pub start_window : Double → RateMonitor → RateMonitor
start_window now m = record m { started = true; window_start = now; last_update = now; runs = 0 }

abbrev count : RateMonitor → RateMonitor
count m = record m { runs = m.runs + 1 }

unfoldable pub run : Double → RateMonitor → RateMonitor
unfolding lt start_window
run now m = count (if not m.started || lt now m.window_start then start_window now m else m)

module _ (a : Arith) where
  unfoldable pub elapsed : Double → RateMonitor → Double
  elapsed now m = a.sub now m.window_start

  -- The test of a slow window that closes at `now`.
  unfoldable pub too_few : Double → RateMonitor → Bool
  unfolding elapsed lt of_int
  too_few now m = lt (of_int (m.runs + 1)) (a.mul (a.mul min_ratio m.frequency) (elapsed now m))

  -- How many windows a slow one counts for.
  unfoldable pub spanned : Double → RateMonitor → ℕ
  unfolding elapsed truncate
  spanned now m = truncate (a.div (elapsed now m) m.window)

abbrev pub classify : ℕ → Status
classify slow = if leb max_slow_windows slow then error else if ltb 0 slow then warn else ok

module _ (a : Arith) where
  -- The end of update(): the window closes at `now`.
  unfoldable pub close_window : Double → RateMonitor → RateMonitor
  unfolding elapsed too_few spanned of_int
  close_window now m =
      let slow = if too_few a now m then m.slow_windows + spanned a now m else 0 in
      record m {
        rate = a.div (of_int m.runs) (elapsed a now m);
        slow_windows = slow;
        status = classify slow;
        window_start = now;
        runs = 0;
      }

  -- The new monitor; its `status` field is what the function returns.
  unfoldable pub update : Double → RateMonitor → RateMonitor
  unfolding lt start_window elapsed close_window
  update now m =
      if not m.started || lt now m.last_update
      then start_window now m
      else let m' = record m { last_update = now } in
        if lt (elapsed a now m') m.window then m' else close_window now m'
