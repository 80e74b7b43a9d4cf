-- ===== src/Tests/Plugins.antt =====
-- Runs of the rate monitors, the schedules and the updates of plugins.
use native.Mathlib.Nat.{le-div_iff_mul-le, mul-le-mul_right}
use easy_navigation.Common.{
  ℕ, zero, suc, ◌*◌, ◌/◌, ◌≤◌, ℤ, pos, negsuc, ◌-ℤ◌, ◌+ℤ◌, ◌<ℤ◌, ◌≤ℤ◌, ◌≡◌, ◌↔◌, ◌⊎◌, refl, arith,
  true, false, none, List, [], ◌∷◌, ◌==◌,
}
use easy_navigation.Double.{
  Double, nan, neg_inf, fin, inf, lt, le, max_d, zero_d, is_finite, of_int, truncate,
}
use easy_navigation.RateMonitor.{
  ok, warn, error, min_window, window_periods, configure, new, reset, start_window, run, update,
  elapsed, too_few, spanned, close_window,
}
use easy_navigation.RateMonitor.Calls.{Call, runs, checks, after, AllSlow, IsTimed}
use easy_navigation.RateMonitor.Windows.{full_length, RatioLaw, status-after_iff}
use easy_navigation.NavState.{NavState, Exec, lookup, throws, runtime_error, empty}
use easy_navigation.NavState.Rules.{Returns}
use easy_navigation.NavState.Schema.{empty-IsTyped}
use easy_navigation.MethodBase.{MethodBase, Cycle, Format, period}
use easy_navigation.MethodBase.Poll.{polls, count_runs, last_check, after_periods}
use easy_navigation.MethodBase.Schedule.{count_runs_bound, polls_exact}
use easy_navigation.MethodUpdate.{Names, Reads}
use easy_navigation.MethodUpdate.Controller.{internal_update_rt}
use easy_navigation.MethodUpdate.Controller.Zero.{IsTame, IsUpdated, internal_update_rt-IsUpdated}
use easy_navigation.MethodUpdate.Localizer.{LocalizerMethodBase}
use easy_navigation.MethodUpdate.Localizer.Pose.{
  Update, real_time, other, IsKnown, after_all, after_all-IsKnown,
}
use easy_navigation.Tests.Data.{one, div, truncating, whole}

-- The ratio of a finite time to a window of a second or more.
quotient_le : (m n u : ℕ) → 1 ≤ u → 1 ≤ n → n ≤ m → 1 ≤ ((m * u) / n) / u
quotient_le m n u h k l =
    let scaled = mul-le-mul_right u l in
    let inner : u ≤ (m * u) / n = (le-div_iff_mul-le {k = n} k).1 (omega (arith, scaled)) in
    (le-div_iff_mul-le {k = u} h).1 (omega (arith, inner))

window_pos : (n : ℕ) → le min_window (fin (pos n)) ≡ true → one ≤ n
unfolding min_window of_int le
window_pos n h = ground arith

-- A window is above 0.
window_neg : (n : ℕ) → le min_window (fin (negsuc n)) ≡ false
unfolding min_window of_int le
window_neg n = ground arith

nonzero : (n : ℕ) → suc n == 0 ≡ false
nonzero n = ground arith

quotient_if : (m n : ℕ) → one ≤ n → n ≤ m → 1 ≤ truncate (div (fin (pos m)) (fin (pos n)))
unfolding truncate
quotient_if m (suc n) h l = rw (nonzero n) (quotient_le m (suc n) one (omega arith) (omega arith) l)
quotient_if m zero h l = absurd (omega arith)

ratio_lem :
    (e w : Double)
    → is_finite e ≡ true
    → le min_window w ≡ true
    → lt e w ≡ false
    → 1 ≤ truncate (div e w)
unfolding is_finite lt
ratio_lem (fin (pos m)) (fin (pos n)) f h l = quotient_if m n (window_pos n h) (ground arith)
ratio_lem (fin (negsuc m)) (fin (pos n)) f h l = absurd (grind (arith, window_pos n h))
ratio_lem (fin e) (fin (negsuc n)) f h l = absurd (ground (arith, window_neg n))
ratio_lem (fin e) inf f h l = absurd (ground arith)
ratio_lem (fin e) nan f h l = absurd (unfold min_window of_int le in ground arith)
ratio_lem (fin e) neg_inf f h l = absurd (unfold min_window of_int le in ground arith)
ratio_lem _ _ f h l = absurd (ground arith)

truncating-RatioLaw : RatioLaw truncating
truncating-RatioLaw = record { ratio = ratio_lem }

-- A monitor for 1 Hz: the window is 10 s, and the second check closes it with one run.
abbrev slow_calls : List Call
slow_calls = checks (whole 12) ∷ runs (whole 5) ∷ checks zero_d ∷ []

slow_IsTimed : IsTimed truncating (whole 1) (full_length truncating (whole 1)) slow_calls
unfolding is_finite lt max_d of_int ◌-ℤ◌
slow_IsTimed = (refl, (refl, tt))

status-after_iff_example :
    (((after truncating slow_calls (configure truncating (whole 1) new)).status ≡ ok)
      ↔ (¬ AllSlow truncating (whole 1) (full_length truncating (whole 1)) 1 slow_calls))
    × (((after truncating slow_calls (configure truncating (whole 1) new)).status ≡ error)
        ⊎ (¬ AllSlow truncating (whole 1) (full_length truncating (whole 1)) 3 slow_calls))
status-after_iff_example =
    status-after_iff truncating (whole 1) new slow_calls truncating-RatioLaw slow_IsTimed

slow_warns : (after truncating slow_calls (configure truncating (whole 1) new)).status ≡ warn
unfolding after configure reset update run start_window close_window elapsed too_few spanned
    truncate lt max_d of_int min_window window_periods new ◌-ℤ◌
slow_warns = refl

-- A plugin that runs once a second, next at 1 s.
abbrev each_second : Cycle
each_second = record {
  parameter = "rt_freq";
  frequency = whole 1;
  last_ts = pos 0;
  next_ts = pos 1000000000;
  scheduled = false;
  monitor = configure truncating (whole 1) new;
  key = "diagnostics.follower.rt_rate";
  name = "follower.rt_rate";
  reported = none;
}

-- Checks at 0.5 s, 1.2 s and 2.1 s.
abbrev later_reads : List (ℤ × ℤ)
later_reads = (pos 1200000000, pos 1200000001) ∷ (pos 2100000000, pos 2100000000) ∷ []

abbrev reads : List (ℤ × ℤ)
reads = (pos 500000000, pos 500000000) ∷ later_reads

each_second-period : period truncating each_second ≡ pos 1000000000
unfolding period of_int
each_second-period = refl

count_runs_bound_example :
    (after_periods
        (pos 500000000)
        (count_runs truncating later_reads
          (polls truncating ((pos 500000000, pos 500000000) ∷ []) each_second))
        1000000000
      <ℤ last_check (pos 500000000) later_reads +ℤ pos 1000000000)
    × (after_periods (pos 1000000000) (count_runs truncating reads each_second) 1000000000
        ≤ℤ last_check (pos 0) reads +ℤ pos 1000000000)
unfolding ◌+ℤ◌
count_runs_bound_example =
    count_runs_bound truncating 1000000000 (omega arith) (pos 0) (pos 500000000) (pos 500000000) []
      later_reads each_second each_second-period (omega arith) (omega arith)
      (omega arith, omega arith, (omega arith, omega arith, (omega arith, omega arith, tt)))

polls_exact_example :
    ((polls truncating reads each_second).next_ts
      ≡ after_periods (pos 1000000000) (count_runs truncating reads each_second) 1000000000)
    × (last_check (pos 0) reads <ℤ (polls truncating reads each_second).next_ts)
unfolding ◌+ℤ◌
polls_exact_example =
    polls_exact truncating 1000000000 (omega arith) (pos 0) reads each_second each_second-period
      (omega arith) (omega arith)
      (omega arith, omega arith, (omega arith, omega arith, (omega arith, omega arith, tt)))
      (omega arith, (omega arith, (omega arith, tt)))

abbrev fresh_cycle : Cycle
fresh_cycle = record each_second { parameter = ""; key = ""; name = "" }

abbrev pub follower : MethodBase
follower = record { plugin_name = ""; rt_cycle = each_second; cycle = fresh_cycle }

abbrev pub verbatim : Format
verbatim text arguments = text

abbrev pub faulty : Exec NavState (Unit {0})
faulty st = (throws runtime_error, st)

faulty-IsTame : IsTame faulty
faulty-IsTame = record { keeps = λ st t. t; defined = λ st e. ground arith }

abbrev pub names : Names
names = record { node_name = "controller_node"; map_frame = "map"; robot_frame = "base_link" }

abbrev pub at : Reads
at = record { reported = pos 7; checked = pos 8; ran = pos 9; stopped = pos 10 }

internal_update_rt-IsUpdated_example :
    Returns
      (λ ran s. IsUpdated names (pos 10) true true ran s.1)
      (internal_update_rt truncating verbatim names at faulty true (follower, empty))
unfolding lookup
internal_update_rt-IsUpdated_example =
    internal_update_rt-IsUpdated truncating verbatim names at faulty faulty-IsTame true (λ st. refl)
      true follower empty refl tt empty-IsTyped

abbrev localizer : LocalizerMethodBase
localizer = record { method = follower; last_known_pose_once = false; known_poses = [] }

abbrev updates : List (Update truncating verbatim names)
updates = real_time at faulty false ∷ other at faulty ∷ []

after_all-IsKnown_example :
    IsKnown "map" (after_all truncating verbatim names updates (localizer, empty)).0
after_all-IsKnown_example = after_all-IsKnown truncating verbatim names updates localizer empty refl
