-- ===== src/MethodBase/Poll.antt =====
-- A check of a plugin's schedule, with the clock's reading at it and at the run that follows it if one
-- is due, and what any checks do to the schedule.
use easy_navigation.Common.{
  ℕ, ◌+◌, ◌*◌, ◌≤◌, ℤ, pos, ◌+ℤ◌, ◌≤ℤ◌, ◌<ℤ◌, ltb_ℤ, leb_ℤ, ◌≡◌, refl, ap, Bool, true, false, some,
  List, [], ◌∷◌, Bool-cases, inl, inr, +ℤ_parts, eq_of_parts, pos_part, neg_part, ◌⊎◌, ◌∙◌, arith,
  if◌then◌else◌,
}
use easy_navigation.Double.{Arith}
use easy_navigation.MethodBase.{Cycle, period, advance, rewind, is_time_to_run, set_run}

abbrev pub run_if_due : Arith → ℤ → Bool × Cycle → Cycle
run_if_due a now (true, c) = set_run a (some now) c
run_if_due a now (false, c) = c

module _ (a : Arith) where
  -- The cycle after a check and its run, and how many runs the checks made.
  unfoldable pub poll : ℤ × ℤ → Cycle → Cycle
  poll (check, run) c = run_if_due a run (is_time_to_run a (some check) c)

  abbrev pub polls : List (ℤ × ℤ) → Cycle → Cycle
  polls [] c = c
  polls (t ∷ ts) c = polls ts (poll t c)

  abbrev pub as_count : Bool → ℕ
  as_count true = 1
  as_count false = 0

  abbrev pub count_runs : List (ℤ × ℤ) → Cycle → ℕ
  count_runs [] c = 0
  count_runs (t ∷ ts) c = as_count (is_time_to_run a (some (t.0)) c).0 + count_runs ts (poll t c)

-- The latest check, or `start`.
abbrev pub last_check : ℤ → List (ℤ × ℤ) → ℤ
last_check start [] = start
last_check start ((check, run) ∷ ts) = last_check check ts

-- The clock does not go back.
abbrev pub IsOrdered : ℤ → List (ℤ × ℤ) → Type 0
IsOrdered from [] = Unit {0}
IsOrdered from ((check, run) ∷ ts) = (from ≤ℤ check) × (check ≤ℤ run) × IsOrdered run ts

-- No check comes more than `p` after the one before it.
abbrev pub IsDense : ℕ → ℤ → List (ℤ × ℤ) → Type 0
IsDense p from [] = Unit {0}
IsDense p from ((check, run) ∷ ts) = (check ≤ℤ from +ℤ pos p) × IsDense p check ts

-- A check before the time of the next run, and one after it.
pub poll_early :
    (a : Arith) (check run : ℤ) (c : Cycle)
    → c.last_ts ≤ℤ check
    → check <ℤ c.next_ts
    → ((is_time_to_run a (some check) c).0 ≡ false) × (poll a (check, run) c ≡ c)
unfolding poll is_time_to_run rewind
poll_early a check run c h k = ground arith

pub poll_due :
    (a : Arith) (check run : ℤ) (c : Cycle)
    → c.last_ts ≤ℤ check
    → c.next_ts ≤ℤ check
    → ((is_time_to_run a (some check) c).0 ≡ true)
      × (poll a (check, run) c ≡ set_run a (some run) (advance a check c))
unfolding poll is_time_to_run rewind
poll_due a check run c h k = ground arith

pub due_fields :
    (a : Arith) (check run : ℤ) (c : Cycle)
    → ((set_run a (some run) (advance a check c)).last_ts ≡ run)
      × ((set_run a (some run) (advance a check c)).next_ts ≡ (
          if leb_ℤ (c.next_ts +ℤ period a c) check
          then check +ℤ period a c
          else c.next_ts +ℤ period a c))
      × (period a (set_run a (some run) (advance a check c)) ≡ period a c)
unfolding set_run advance period
due_fields a check run c = (refl, refl, refl)

-- `k` periods of `p` after `t`.
abbrev pub after_periods : ℤ → ℕ → ℕ → ℤ
after_periods t k p = t +ℤ pos (k * p)

-- Whether a check comes before the time of the next run.
pub early_or_due : (check next : ℤ) → (check <ℤ next) ⊎ (next ≤ℤ check)
early_or_due check next = elim (Bool-cases (ltb_ℤ check next)) [
  | inl e ↦ inl (ground arith)
  | inr e ↦ inr (ground arith)
]

-- What a check and its run do to a schedule that stood at `next`: `n` runs were made.
pub record Step (p : ℕ) (check next next' : ℤ) (n : ℕ) : Type 0 where
  pub moves : after_periods next n p ≤ℤ next'
  pub ahead : check <ℤ next'
  pub near : next ≤ℤ check +ℤ pos p → next' ≤ℤ check +ℤ pos p
  pub exact : check <ℤ next +ℤ pos p → next' ≡ after_periods next n p

pub early-Step : (p : ℕ) (check next : ℤ) → check <ℤ next → Step p check next next 0
early-Step p check next h = record {
  moves = omega (arith, +ℤ_parts next (pos (0 * p)));
  ahead = h;
  near = λ k. k;
  exact =
      λ k. eq_of_parts next (after_periods next 0 p) (omega (arith, +ℤ_parts next (pos (0 * p))));
}

pub due-Step :
    (p : ℕ) (check next next' : ℤ)
    → 1 ≤ p
    → next ≤ℤ check
    → next' ≡ (if leb_ℤ (next +ℤ pos p) check then check +ℤ pos p else next +ℤ pos p)
    → Step p check next next' 1
due-Step p check next next' q h e = record {
  moves =
      ground (arith, +ℤ_parts next (pos p), +ℤ_parts check (pos p), +ℤ_parts next (pos (1 * p)));
  ahead = ground (arith, +ℤ_parts next (pos p), +ℤ_parts check (pos p));
  near = λ k. ground (arith, +ℤ_parts next (pos p), +ℤ_parts check (pos p));
  exact = λ k.
      eq_of_parts next' (after_periods next 1 p) (
        ground (arith, +ℤ_parts next (pos p), +ℤ_parts check (pos p), +ℤ_parts next (pos (1 * p))));
}

module _ (a : Arith) (p : ℕ) (q : 1 ≤ p) (check run : ℤ) where
  pub poll-Step :
      (c : Cycle)
      → period a c ≡ pos p
      → c.last_ts ≤ℤ check
      → check ≤ℤ run
      → (period a (poll a (check, run) c) ≡ pos p)
        × ((poll a (check, run) c).last_ts ≤ℤ run)
        × Step p check c.next_ts
            (poll a (check, run) c).next_ts
            (as_count a (is_time_to_run a (some check) c).0)
  poll-Step c e l r = elim (early_or_due check c.next_ts) [
    | inl h ↦
        let (not_due, same) = poll_early a check run c l h in
        rw (not_due, same) (e, omega arith, early-Step p check c.next_ts h)
    | inr h ↦
        let (due, after) = poll_due a check run c l h in
        let (last, next, kept) = due_fields a check run c in
        rw (due, after)
          (kept ∙ e, rw last (omega arith), due-Step p check c.next_ts _ q h (rw (next, e) refl))
  ]

-- One period more of runs.
pub sum_lem :
    (p n k : ℕ) (next next' : ℤ)
    → after_periods next n p ≤ℤ next'
    → after_periods next (n + k) p ≤ℤ after_periods next' k p
sum_lem p n k next next' h = omega (
  arith,
  +ℤ_parts next (pos (n * p)),
  +ℤ_parts next (pos ((n + k) * p)),
  +ℤ_parts next' (pos (k * p)),
)

pub sum_exact :
    (p n k : ℕ) (next next' : ℤ)
    → next' ≡ after_periods next n p
    → after_periods next (n + k) p ≡ after_periods next' k p
sum_exact p n k next next' h = eq_of_parts _ _ (
    omega (
      arith,
      ap pos_part h,
      ap neg_part h,
      +ℤ_parts next (pos (n * p)),
      +ℤ_parts next (pos ((n + k) * p)),
      +ℤ_parts next' (pos (k * p)),
    ))
