-- ===== src/RtMonitor/Streak.antt =====
-- What the monitor has concluded after any sequence of cycle starts: its status says whether the
-- latest periods were all late. Starts are listed newest first.
use easy_navigation.Common.{
  ℕ, zero, suc, ◌+◌, ◌≤◌, ℤ, pos, ◌-ℤ◌, ◌≡◌, refl, ◌↔◌, true, Option, none, some, List, [], ◌∷◌,
  arith, if◌then◌else◌,
}
use easy_navigation.Double.{Double, lt, Arith}
use easy_navigation.RtMonitor.{RtMonitor, ok, error, reset, measure, classify, cycle_started}

module _ (a : Arith) (max_period : Double) where
  -- The cycle at `now` starts late after the one at `last`.
  abbrev pub IsLate : ℤ → ℤ → Type 0
  IsLate now last = lt max_period (a.seconds (now -ℤ last)) ≡ true

  -- The latest `n` periods were all late.
  abbrev pub AllLate : ℕ → List ℤ → Type 0
  AllLate zero ts = Unit {0}
  AllLate (suc n) [] = ⊥
  AllLate (suc n) (t ∷ []) = ⊥
  AllLate (suc n) (t ∷ s ∷ r) = IsLate t s × AllLate n (s ∷ r)

-- The monitor after the cycle starts `ts`, from just after a reset.
unfoldable pub run : Arith → List ℤ → RtMonitor → RtMonitor
run a [] m = reset m
run a (t ∷ ts) m = cycle_started a t (run a ts m)

abbrev newest : List ℤ → Option ℤ
newest [] = none
newest (t ∷ ts) = some t

run_fields :
    (a : Arith) (ts : List ℤ) (m : RtMonitor)
    → ((run a ts m).last_start ≡ newest ts)
      × ((run a ts m).max_period ≡ m.max_period)
      × ((run a ts m).max_late_cycles ≡ m.max_late_cycles)
unfolding run reset cycle_started
run_fields a [] m = (refl, refl, refl)
run_fields a (t ∷ []) m = (refl, refl, refl)
run_fields a (t ∷ s ∷ r) m = ground (arith, run_fields a (s ∷ r) m)

step_streak :
    (a : Arith) (t s : ℤ) (m : RtMonitor)
    → m.last_start ≡ some s
    → (cycle_started a t m).consecutive_late
      ≡ (if lt m.max_period (a.seconds (t -ℤ s)) then m.consecutive_late + 1 else 0)
unfolding cycle_started
step_streak a t s m e = rw (e, measure) (ground arith)

-- The counter has reached `n` exactly when the latest `n` periods were all late.
streak_iff :
    (a : Arith) (ts : List ℤ) (m : RtMonitor) (n : ℕ)
    → (n ≤ (run a ts m).consecutive_late) ↔ AllLate a m.max_period n ts
unfolding run
streak_iff a [] m zero = ((λ _. tt), (λ _. omega arith))
streak_iff a [] m (suc n) = unfold reset in ((λ h. omega arith), (λ h. absurd h))
streak_iff a (t ∷ []) m zero = ((λ _. tt), (λ _. omega arith))
streak_iff a (t ∷ []) m (suc n) =
    unfold reset cycle_started in ((λ h. omega arith), (λ h. absurd h))
streak_iff a (t ∷ s ∷ r) m zero = ((λ _. tt), (λ _. omega arith))
streak_iff a (t ∷ s ∷ r) m (suc n) =
    let f = run_fields a (s ∷ r) m in
    let before = run a (s ∷ r) m in
    ground (arith, f.0, f.1, step_streak a t s before f.0, streak_iff a (s ∷ r) m n)

status-run :
    (a : Arith) (t : ℤ) (ts : List ℤ) (m : RtMonitor)
    → (run a (t ∷ ts) m).status ≡ classify (run a (t ∷ ts) m)
unfolding run cycle_started
status-run a t ts m = refl

-- From a reset, after any sequence of cycle starts, with a threshold `max_late_cycles` of at least
-- 1: the status is `error` exactly when the latest `max_late_cycles` periods were all late, and
-- `ok` exactly when the latest period (if there is one) was not late.
pub status-run_iff :
    (a : Arith) (t : ℤ) (ts : List ℤ) (m : RtMonitor) (k : ℕ)
    → m.max_late_cycles ≡ pos (suc k)
    → (((run a (t ∷ ts) m).status ≡ error) ↔ AllLate a m.max_period (suc k) (t ∷ ts))
      × (((run a (t ∷ ts) m).status ≡ ok) ↔ (¬ AllLate a m.max_period 1 (t ∷ ts)))
unfolding classify
status-run_iff a t ts m k e =
    let n = (run_fields a (t ∷ ts) m).2 in
    let e' = streak_iff a (t ∷ ts) m (suc k) in
    let l' = streak_iff a (t ∷ ts) m 1 in ground (arith, n, e', l', status-run a t ts m)
