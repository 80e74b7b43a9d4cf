-- ===== src/RateMonitor/Calls.antt =====
-- The windows of a rate monitor, by its calls alone: when they began and closed, and which runs were
-- made in them. Calls are listed newest first.
use easy_navigation.Common.{
  ℕ, zero, suc, ◌≡◌, Bool, true, false, not, ◌&&◌, ◌||◌, List, [], ◌∷◌, Option, none, some,
  if◌then◌else◌,
}
use easy_navigation.Double.{Double, lt, is_finite, zero_d, of_int, Arith}
use easy_navigation.RateMonitor.{RateMonitor, min_ratio, reset, run, update}

pub data Call : Type 0 where
  runs checks : Double → Call

-- The monitor after the calls, from just after a reset.
unfoldable pub after : Arith → List Call → RateMonitor → RateMonitor
after a [] m = reset m
after a (runs now ∷ cs) m = run now (after a cs m)
after a (checks now ∷ cs) m = update a now (after a cs m)

-- A window, by the calls alone: when it began, when it was checked last, and the runs made in it.
pub record Window : Type 0 where
  pub since : Double
  pub checked : Double
  pub made : ℕ

abbrev pub opened : Double → ℕ → Window
opened now made = record { since = now; checked = now; made = made }

-- A run belongs to the window that is open, and opens one if there is none, or only a later one.
abbrev pub with_run : Double → Option Window → Window
with_run now none = opened now 1
with_run now (some w) = if lt now w.since then opened now 1 else record w { made = suc w.made }

module _ (a : Arith) (len : Double) where
  -- A check closes the window that has its full length; the check is not before the latest one.
  abbrev pub closes : Double → Option Window → Bool
  closes now none = false
  closes now (some w) = not (lt now w.checked) && not (lt (a.sub now w.since) len)

  abbrev pub with_check : Double → Option Window → Window
  with_check now none = opened now 0
  with_check now (some w) =
      if lt now w.checked || not (lt (a.sub now w.since) len)
      then opened now 0
      else record w { checked = now }

  abbrev pub window_of : List Call → Option Window
  window_of [] = none
  window_of (runs now ∷ cs) = some (with_run now (window_of cs))
  window_of (checks now ∷ cs) = some (with_check now (window_of cs))

-- The time since the window began.
abbrev pub length_at : Arith → Double → Option Window → Double
length_at a now none = zero_d
length_at a now (some w) = a.sub now w.since

-- A window that closes at `now` is slow: its runs, and one more, are fewer than the nine tenths of
-- the frequency's.
abbrev pub is_slow : Arith → Double → Double → Option Window → Bool
is_slow a frequency now none = false
is_slow a frequency now (some w) =
    lt (of_int (suc w.made)) (a.mul (a.mul min_ratio frequency) (a.sub now w.since))

module _ (a : Arith) (frequency len : Double) where
  -- The latest `n` windows that were closed were all slow.
  abbrev pub AllSlow : ℕ → List Call → Type 0
  AllSlow zero cs = Unit {0}
  AllSlow (suc n) [] = ⊥
  AllSlow (suc n) (runs now ∷ cs) = AllSlow (suc n) cs
  AllSlow (suc n) (checks now ∷ cs) =
      if closes a len now (window_of a len cs)
      then (is_slow a frequency now (window_of a len cs) ≡ true) × AllSlow n cs
      else AllSlow (suc n) cs

  -- Every check is a finite time away from the start of its window.
  abbrev pub IsTimed : List Call → Type 0
  IsTimed [] = Unit {0}
  IsTimed (runs now ∷ cs) = IsTimed cs
  IsTimed (checks now ∷ cs) = (is_finite (length_at a now (window_of a len cs)) ≡ true) × IsTimed cs
