-- ===== src/MethodBase/Schedule.antt =====
-- The schedule of a plugin's updates over any checks, with the clock's reading at each: `reads`
-- holds the time of a check and of the run that follows it if one is due, oldest first.
use easy_navigation.Common.{
  ℕ, ◌*◌, ◌≤◌, ℤ, pos, ◌+ℤ◌, ◌≤ℤ◌, ◌<ℤ◌, ◌≡◌, sym, some, List, [], ◌∷◌, ◌++◌, +ℤ_parts, eq_of_parts,
  ◌∙◌, arith,
}
use easy_navigation.Double.{Arith}
use easy_navigation.MethodBase.{Cycle, period, is_time_to_run}
use easy_navigation.MethodBase.Poll.{
  IsDense, IsOrdered, after_periods, as_count, count_runs, last_check, poll, poll-Step, polls,
  sum_exact, sum_lem,
}

module _ (a : Arith) (p : ℕ) (q : 1 ≤ p) where
  -- The cycle `c` after a check at `last`, before the checks `later`; `ran` is its latest reading.
  record IsDue (c : Cycle) (last : ℤ) (later : List (ℤ × ℤ)) : Type 0 where
    keeps : period a c ≡ pos p
    ran : ℤ
    before : c.last_ts ≤ℤ ran
    ordered : IsOrdered ran later
    latest : last ≤ℤ ran
    after : last <ℤ c.next_ts
    near : c.next_ts ≤ℤ last +ℤ pos p

  bound_lem :
      (last from : ℤ) (reads : List (ℤ × ℤ)) (c : Cycle)
      → period a c ≡ pos p
      → c.last_ts ≤ℤ from
      → last ≤ℤ from
      → c.next_ts ≤ℤ last +ℤ pos p
      → IsOrdered from reads
      → after_periods c.next_ts (count_runs a reads c) p ≤ℤ last_check last reads +ℤ pos p
  bound_lem last from [] c e l f n o =
      omega (arith, n, +ℤ_parts last (pos p), +ℤ_parts c.next_ts (pos (0 * p)))
  bound_lem last from ((check, run) ∷ ts) c e l f n (o₁, o₂, o) =
      let (e', l', s) = poll-Step a p q check run c e (omega arith) o₂ in
      let near = s.near (omega (arith, n, +ℤ_parts last (pos p), +ℤ_parts check (pos p))) in
      let rest = bound_lem check run ts (poll a (check, run) c) e' l' o₂ near o in
      let sum =
        sum_lem p (as_count a (is_time_to_run a (some check) c).0)
          (count_runs a ts (poll a (check, run) c)) c.next_ts (poll a (check, run) c).next_ts
          s.moves in
      omega (arith, sum, rest)

  -- After checks, the next run is due after the latest of them, and at most a period after it.
  due_lem :
      (last from : ℤ) (check run : ℤ) (reads later : List (ℤ × ℤ)) (c : Cycle)
      → period a c ≡ pos p
      → c.last_ts ≤ℤ from
      → c.next_ts ≤ℤ last +ℤ pos p
      → last ≤ℤ from
      → IsOrdered from ((check, run) ∷ reads ++ later)
      → IsDue (polls a ((check, run) ∷ reads) c) (last_check check reads) later
  due_lem last from check run [] later c e l n f (o₁, o₂, o) =
      let (e', l', s) = poll-Step a p q check run c e (omega (arith, l, o₁)) o₂ in
      record {
        keeps = e';
        ran = run;
        before = l';
        ordered = o;
        latest = o₂;
        after = s.ahead;
        near = s.near (omega (arith, n, f, o₁, +ℤ_parts last (pos p), +ℤ_parts check (pos p)));
      }
  due_lem last from check run ((check', run') ∷ reads) later c e l n f (o₁, o₂, o) =
      let (e', l', s) = poll-Step a p q check run c e (omega (arith, l, o₁)) o₂ in
      due_lem check run check' run' reads later (poll a (check, run) c) e' l'
        (s.near (omega (arith, n, f, o₁, +ℤ_parts last (pos p), +ℤ_parts check (pos p)))) o₂ o

  -- With a period of at least a nanosecond, a clock that does not go back, and a next run due at
  -- most a period after the start: however often it is checked, and from any check on, the runs
  -- made in the later checks are at most one for each period, the one begun included, of the time
  -- from that check to the latest one; the runs of all checks need no more time than passed from
  -- the first one due to the latest check, and a period.
  pub count_runs_bound :
      (start check run : ℤ) (reads later : List (ℤ × ℤ)) (c : Cycle)
      → period a c ≡ pos p
      → c.last_ts ≤ℤ start
      → c.next_ts ≤ℤ start +ℤ pos p
      → IsOrdered start ((check, run) ∷ reads ++ later)
      → (after_periods
            (last_check check reads)
            (count_runs a later (polls a ((check, run) ∷ reads) c))
            p
          <ℤ last_check (last_check check reads) later +ℤ pos p)
        × (after_periods c.next_ts (count_runs a ((check, run) ∷ reads ++ later) c) p
            ≤ℤ last_check start ((check, run) ∷ reads ++ later) +ℤ pos p)
  count_runs_bound start check run reads later c e l n o =
      let d = due_lem start start check run reads later c e l n (omega arith) o in
      let c' = polls a ((check, run) ∷ reads) c in
      let t = last_check check reads in
      let k = count_runs a later c' in
      let rest = bound_lem t d.ran later c' d.keeps d.before d.latest d.near d.ordered in
      (
        omega (arith, rest, d.after, +ℤ_parts c'.next_ts (pos (k * p)), +ℤ_parts t (pos (k * p))),
        bound_lem start start ((check, run) ∷ reads ++ later) c e l (omega arith) n o,
      )

  exact_lem :
      (last from : ℤ) (reads : List (ℤ × ℤ)) (c : Cycle)
      → period a c ≡ pos p
      → c.last_ts ≤ℤ from
      → last ≤ℤ from
      → last <ℤ c.next_ts
      → IsOrdered from reads
      → IsDense p last reads
      → ((polls a reads c).next_ts ≡ after_periods c.next_ts (count_runs a reads c) p)
        × (last_check last reads <ℤ (polls a reads c).next_ts)
  exact_lem last from [] c e l f n o d = (
    eq_of_parts c.next_ts (after_periods c.next_ts 0 p)
        (omega (arith, +ℤ_parts c.next_ts (pos (0 * p)))),
    n,
  )
  exact_lem last from ((check, run) ∷ ts) c e l f n (o₁, o₂, o) (d₁, d) =
      let (e', l', s) = poll-Step a p q check run c e (omega arith) o₂ in
      let (rest, end) = exact_lem check run ts (poll a (check, run) c) e' l' o₂ s.ahead o d in
      (
        rest
            ∙ sym (
                sum_exact p (as_count a (is_time_to_run a (some check) c).0)
                  (count_runs a ts (poll a (check, run) c)) c.next_ts
                  (poll a (check, run) c).next_ts
                  (s.exact
                    (omega (arith, n, d₁, +ℤ_parts last (pos p), +ℤ_parts c.next_ts (pos p))))),
        end,
      )

  -- With a period of at least a nanosecond, a clock that does not go back, a next run due after the
  -- start, and checks that follow one another by at most a period: no run is lost and the schedule
  -- does not drift, so that the next run is due exactly as many periods later as runs were made,
  -- and after the latest check.
  pub polls_exact :
      (start : ℤ) (reads : List (ℤ × ℤ)) (c : Cycle)
      → period a c ≡ pos p
      → c.last_ts ≤ℤ start
      → start <ℤ c.next_ts
      → IsOrdered start reads
      → IsDense p start reads
      → ((polls a reads c).next_ts ≡ after_periods c.next_ts (count_runs a reads c) p)
        × (last_check start reads <ℤ (polls a reads c).next_ts)
  polls_exact start reads c e l n o d = exact_lem start start reads c e l (omega arith) n o d
