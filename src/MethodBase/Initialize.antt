-- ===== src/MethodBase/Initialize.antt =====
-- What initialize() leaves: two schedules that start now, or an exception.
use easy_navigation.Common.{
  ℤ, ◌+ℤ◌, ◌≡◌, ◌↔◌, refl, true, false, not, ◌||◌, none, String, Bool-cases, inl, inr, arith,
}
use Prim.Native.String.{◌++◌}
use easy_navigation.Double.{Double, zero_d, lt, le, is_finite, Arith}
use easy_navigation.NavState.{Outcome, ok, throws, runtime_error}
use easy_navigation.MethodBase.{MethodBase, Cycle, period, initialize_cycle, initialize}
use easy_navigation.RateMonitor

-- A frequency that a plugin may run at.
abbrev pub IsRate : Double → Type 0
IsRate f = (is_finite f ≡ true) × (lt zero_d f ≡ true)

-- A schedule that starts at `now` with a fresh monitor.
abbrev pub StartsAt : Arith → Double → ℤ → Cycle → Type 0
StartsAt a f now c =
    IsRate f
    × (c.frequency ≡ f)
    × (c.last_ts ≡ now)
    × (c.next_ts ≡ now +ℤ period a c)
    × (c.scheduled ≡ false)
    × (c.reported ≡ none)
    × (c.monitor.frequency ≡ f)
    × (c.monitor.started ≡ false)
    × (c.monitor.status ≡ RateMonitor.ok)

usable_iff : (f : Double) → (not (is_finite f) || le f zero_d ≡ false) ↔ IsRate f
unfolding is_finite le lt
usable_iff f = ground arith

initialize_cycle_lem :
    (a : Arith) (plugin suffix : String) (f : Double) (now : ℤ) (c : Cycle)
    → not (is_finite f) || le f zero_d ≡ false
    → ((initialize_cycle a plugin suffix f now c).0 ≡ ok tt)
      × StartsAt a f now (initialize_cycle a plugin suffix f now c).1
unfolding initialize_cycle period RateMonitor.configure RateMonitor.reset
initialize_cycle_lem a plugin suffix f now c h =
    rw h (refl, ((usable_iff f).0 h, refl, refl, refl, refl, refl, refl, refl, refl))

initialize_cycle_throws :
    (a : Arith) (plugin suffix : String) (f : Double) (now : ℤ) (c : Cycle)
    → not (is_finite f) || le f zero_d ≡ true
    → initialize_cycle a plugin suffix f now c ≡ (throws runtime_error, c)
unfolding initialize_cycle
initialize_cycle_throws a plugin suffix f now c h = rw h refl

module _ (a : Arith) (read : String → Double) (now_rt now : ℤ) (name : String) where
  -- Where both frequencies read are finite and above 0, the two cycles start with their clock
  -- readings, their monitors fresh, and the outcome is that of the plugin's own initialization.
  initialize-StartsAt :
      (own : Outcome (Unit {0})) (m : MethodBase)
      → IsRate (read (name ++ ".rt_freq"))
      → IsRate (read (name ++ ".freq"))
      → ((initialize a read now_rt now name own m).0 ≡ own)
        × StartsAt a
            (read (name ++ ".rt_freq"))
            now_rt
            (initialize a read now_rt now name own m).1.rt_cycle
        × StartsAt a (read (name ++ ".freq")) now (initialize a read now_rt now name own m).1.cycle
  unfolding initialize
  initialize-StartsAt own m h k =
      let rt =
        initialize_cycle_lem a name ".rt_rate" (read (name ++ ".rt_freq")) now_rt
          (record m.rt_cycle { parameter = "rt_freq" }) ((usable_iff _).1 h) in
      let c =
        initialize_cycle_lem a name ".rate" (read (name ++ ".freq")) now
          (record m.cycle { parameter = "freq" }) ((usable_iff _).1 k) in
      rw (rt.0, c.0) (refl, rt.1, c.1)

  -- Where one of the frequencies read is not finite or not above 0, std::runtime_error is thrown.
  pub initialize_throws :
      (own : Outcome (Unit {0})) (m : MethodBase)
      → ¬ (IsRate (read (name ++ ".rt_freq")) × IsRate (read (name ++ ".freq")))
      → (initialize a read now_rt now name own m).0 ≡ throws runtime_error
  unfolding initialize
  initialize_throws own m h =
      elim (Bool-cases
        (not (is_finite (read (name ++ ".rt_freq"))) || le (read (name ++ ".rt_freq")) zero_d)) [
          | inl e ↦ rw (initialize_cycle_throws a name ".rt_rate" _ now_rt _ e) refl
          | inr e ↦
              elim (Bool-cases
                (not (is_finite (read (name ++ ".freq"))) || le (read (name ++ ".freq")) zero_d)) [
                  | inl k ↦
                      rw
                        (
                          (initialize_cycle_lem a name ".rt_rate" (read (name ++ ".rt_freq")) now_rt
                              (record m.rt_cycle { parameter = "rt_freq" }) e).0,
                          initialize_cycle_throws a name ".rate" _ now
                              (record m.cycle { parameter = "freq" }) k,
                        )
                        refl
                  | inr k ↦ absurd (h ((usable_iff _).0 e, (usable_iff _).0 k))
                ]
        ]
