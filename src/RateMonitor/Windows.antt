-- ===== src/RateMonitor/Windows.antt =====
-- What the monitor has concluded after any runs and checks: its status tells whether the latest
-- closed windows were slow. Calls are listed newest first.
use easy_navigation.Common.{
  ℕ, zero, suc, ◌+◌, ◌≤◌, ◌≡◌, ◌↔◌, ◌⊎◌, refl, sym, Bool, true, false, not, ◌||◌, List, [], ◌∷◌,
  Option, none, some, arith, if◌then◌else◌, Bool-cases, inl, inr,
}
use easy_navigation.Double.{Double, lt, le, max_d, is_finite, truncate, of_int, Arith}
use easy_navigation.RateMonitor.{
  RateMonitor, ok, error, min_window, window_periods, max_slow_windows, reset, configure,
  start_window, run, elapsed, too_few, spanned, classify, close_window, update,
}
use easy_navigation.RateMonitor.Calls.{
  AllSlow, Call, IsTimed, Window, after, closes, is_slow, length_at, window_of, with_check,
  with_run, runs, checks,
}

-- Division takes a finite time that is not below a window of a second or more to 1 or more.
pub record RatioLaw (a : Arith) : Type 0 where
  pub ratio :
      (e w : Double)
      → is_finite e ≡ true
      → le min_window w ≡ true
      → lt e w ≡ false
      → 1 ≤ truncate (a.div e w)

-- The sides of a conditional between types.
taken : (P Q : Type 0) (b : Bool) → b ≡ true → (if b then P else Q) → P
taken P Q true e p = p
taken P Q false e p = cc

refused : (P Q : Type 0) (b : Bool) → b ≡ false → (if b then P else Q) → Q
refused P Q true e p = cc
refused P Q false e p = p

-- The monitor is in this window, with this frequency and length.
abbrev IsIn : Option Window → Double → Double → RateMonitor → Type 0
IsIn none f l m = (m.started ≡ false) × (m.frequency ≡ f) × (m.window ≡ l)
IsIn (some w) f l m =
    (m.started ≡ true)
    × (m.window_start ≡ w.since)
    × (m.last_update ≡ w.checked)
    × (m.runs ≡ w.made)
    × (m.frequency ≡ f)
    × (m.window ≡ l)

run-IsIn :
    (o : Option Window) (f l now : Double) (m : RateMonitor)
    → IsIn o f l m
    → IsIn (some (with_run now o)) f l (run now m)
unfolding run start_window
run-IsIn none f l now m h = ground (arith, h)
run-IsIn (some w) f l now m h = ground (arith, h)

update-IsIn :
    (a : Arith) (o : Option Window) (f l now : Double) (m : RateMonitor)
    → IsIn o f l m
    → IsIn (some (with_check a l now o)) f l (update a now m)
unfolding update start_window close_window elapsed
update-IsIn a none f l now m h = ground (arith, h)
update-IsIn a (some w) f l now m h = ground (arith, h)

-- A check either closes the window, and the streak grows if it is slow and ends if not, or leaves
-- the streak and the status as they are.
update-closes :
    (a : Arith) (o : Option Window) (f l now : Double) (m : RateMonitor)
    → IsIn o f l m
    → closes a l now o ≡ true
    → ((update a now m).slow_windows ≡ (
        if is_slow a f now o then m.slow_windows + truncate (a.div (length_at a now o) l) else 0))
      × ((update a now m).status ≡ classify (update a now m).slow_windows)
unfolding update close_window elapsed too_few spanned
update-closes a none f l now m i h = absurd (ground (arith, h))
update-closes a (some w) f l now m i h = ground (arith, i, h)

update_open :
    (a : Arith) (o : Option Window) (f l now : Double) (m : RateMonitor)
    → IsIn o f l m
    → closes a l now o ≡ false
    → ((update a now m).slow_windows ≡ m.slow_windows) × ((update a now m).status ≡ m.status)
unfolding update start_window elapsed
update_open a none f l now m i h = ground (arith, i)
update_open a (some w) f l now m i h = ground (arith, i, h)

run_keeps :
    (now : Double) (m : RateMonitor)
    → ((run now m).slow_windows ≡ m.slow_windows) × ((run now m).status ≡ m.status)
unfolding run start_window
run_keeps now m = elim (Bool-cases (not m.started || lt now m.window_start)) [
  | inl e ↦ rw e (refl, refl)
  | inr e ↦ rw e (refl, refl)
]

module _ (a : Arith) (m : RateMonitor) where
  after-IsIn : (cs : List Call) → IsIn (window_of a m.window cs) m.frequency m.window (after a cs m)
  unfolding after reset
  after-IsIn [] = (refl, refl, refl)
  after-IsIn (runs now ∷ cs) = run-IsIn _ m.frequency m.window now (after a cs m) (after-IsIn cs)
  after-IsIn (checks now ∷ cs) =
      update-IsIn a _ m.frequency m.window now (after a cs m) (after-IsIn cs)

  after_closes :
      (now : Double) (cs : List Call)
      → closes a m.window now (window_of a m.window cs) ≡ true
      → ((update a now (after a cs m)).slow_windows ≡ (
          if is_slow a m.frequency now (window_of a m.window cs)
          then (after a cs m).slow_windows
            + truncate (a.div (length_at a now (window_of a m.window cs)) m.window)
          else 0))
        × ((update a now (after a cs m)).status
            ≡ classify (update a now (after a cs m)).slow_windows)
  after_closes now cs = update-closes a _ m.frequency m.window now (after a cs m) (after-IsIn cs)

  after_open :
      (now : Double) (cs : List Call)
      → closes a m.window now (window_of a m.window cs) ≡ false
      → ((update a now (after a cs m)).slow_windows ≡ (after a cs m).slow_windows)
        × ((update a now (after a cs m)).status ≡ (after a cs m).status)
  after_open now cs = update_open a _ m.frequency m.window now (after a cs m) (after-IsIn cs)

  status-after : (cs : List Call) → (after a cs m).status ≡ classify (after a cs m).slow_windows
  unfolding after reset
  status-after [] = refl
  status-after (runs now ∷ cs) = ground (arith, run_keeps now (after a cs m), status-after cs)
  status-after (checks now ∷ cs) =
      elim (Bool-cases (closes a m.window now (window_of a m.window cs))) [
        | inl e ↦ (after_closes now cs e).1
        | inr e ↦ ground (arith, after_open now cs e, status-after cs)
      ]

module _ (a : Arith) (law : RatioLaw a) (m : RateMonitor) (h : le min_window m.window ≡ true) where
  abbrev window_at : List Call → Option Window
  window_at cs = window_of a m.window cs

  -- A slow window counts for at least one.
  spans :
      (now : Double) (o : Option Window)
      → is_finite (length_at a now o) ≡ true
      → closes a m.window now o ≡ true
      → 1 ≤ truncate (a.div (length_at a now o) m.window)
  spans now none f c = absurd (ground (arith, c))
  spans now (some w) f c = law.ratio (a.sub now w.since) m.window f h (ground (arith, c))

  -- The counter counts at least the latest windows that were slow.
  counts :
      (n : ℕ) (cs : List Call)
      → IsTimed a m.frequency m.window cs
      → AllSlow a m.frequency m.window n cs
      → n ≤ (after a cs m).slow_windows
  unfolding after
  counts zero cs t all = omega arith
  counts (suc n) [] t all = absurd all
  counts (suc n) (runs now ∷ cs) t all =
      ground (arith, run_keeps now (after a cs m), counts (suc n) cs t all)
  counts (suc n) (checks now ∷ cs) (f, t) all =
      elim (Bool-cases (closes a m.window now (window_at cs))) [
        | inl c ↦
            let (slow, rest) = taken _ _ (closes a m.window now (window_at cs)) c all in
            let e = (after_closes a m now cs c).0 in
            ground (arith, slow, e, spans now (window_at cs) f c, counts n cs t rest)
        | inr c ↦ ground (
          arith,
          after_open a m now cs c,
          counts (suc n) cs t (refused _ _ (closes a m.window now (window_at cs)) c all),
        )
      ]

  -- The counter is not 0 only after a slow window.
  counted : (cs : List Call) → 1 ≤ (after a cs m).slow_windows → AllSlow a m.frequency m.window 1 cs
  unfolding after reset
  counted [] k = omega arith
  counted (runs now ∷ cs) k = counted cs (rw (sym (run_keeps now (after a cs m)).0) k)
  counted (checks now ∷ cs) k = elim (Bool-cases (closes a m.window now (window_at cs))) [
    | inl c ↦ rw c (ground (arith, after_closes a m now cs c))
    | inr c ↦ rw c (counted cs (ground (arith, after_open a m now cs c)))
  ]

  status_lem :
      (cs : List Call)
      → IsTimed a m.frequency m.window cs
      → (((after a cs m).status ≡ ok) ↔ (¬ AllSlow a m.frequency m.window 1 cs))
        × (((after a cs m).status ≡ error) ⊎ (¬ AllSlow a m.frequency m.window max_slow_windows cs))
  status_lem cs t =
      let one = counts 1 cs t in
      let back = counted cs in
      let three = counts max_slow_windows cs t in
      ground (arith, one, back, three, status-after a m cs)

window-configure :
    (a : Arith) (frequency : Double) (m : RateMonitor)
    → le min_window (configure a frequency m).window ≡ true
unfolding configure reset max_d le
window-configure a frequency m = ground arith

-- The length of a window: ten periods, and a second at least.
abbrev pub full_length : Arith → Double → Double
full_length a frequency = max_d (of_int 1) (a.div (of_int 10) frequency)

-- Of a monitor that is configured for any frequency, with checks a finite time after the start of
-- their window: after any runs and checks, of whose windows the calls alone tell when they began and
-- closed and which runs were made in them, the status is `ok` exactly when the latest closed window
-- (if any) was not slow, and unless it is `error` the latest three were not all slow.
pub status-after_iff :
    (a : Arith) (frequency : Double) (m : RateMonitor) (cs : List Call)
    → RatioLaw a
    → IsTimed a frequency (full_length a frequency) cs
    → (((after a cs (configure a frequency m)).status ≡ ok)
        ↔ (¬ AllSlow a frequency (full_length a frequency) 1 cs))
      × (((after a cs (configure a frequency m)).status ≡ error)
          ⊎ (¬ AllSlow a frequency (full_length a frequency) 3 cs))
unfolding configure reset window_periods min_window
status-after_iff a frequency m cs law t =
    status_lem a law (configure a frequency m) (window-configure a frequency m) cs t
