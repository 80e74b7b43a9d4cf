-- ===== src/MethodBase/Report.antt =====
-- What the diagnostic of a plugin's rate leaves on a blackboard whose keys have their types.
use easy_navigation.Common.{
  ℤ, ◌≡◌, ◌≢◌, refl, ◌∙◌, true, Option, none, some, String, Bool-cases, inl, inr, if◌then◌else◌,
  arith,
}
use easy_navigation.Double.{Arith}
use easy_navigation.Messages.{Level}
use easy_navigation.NavState.{
  NavState, Outcome, bind_outcome, diagnostic, type_code, lookup, set, add_to_group,
}
use easy_navigation.NavState.Laws.{Typed}
use easy_navigation.NavState.Free.{IsFree, set_free, add_to_group_free}
use easy_navigation.NavState.Rules.{Returns, returns, bind_rule, weaken_rule}
use easy_navigation.NavState.Schema.{IsTyped}
use easy_navigation.RateMonitor.{Status}
use easy_navigation.RateMonitor
use easy_navigation.MethodBase.{
  MethodBase, Cycle, Format, report_rt_rate, report_rate, is_reported, level_of, status_of,
  report_status, report,
}

same : (status : Status) (o : Option Status) → is_reported status o ≡ true → o ≡ some status
unfolding is_reported
same status none e = ground arith
same RateMonitor.ok (some RateMonitor.ok) e = refl
same RateMonitor.warn (some RateMonitor.warn) e = refl
same RateMonitor.error (some RateMonitor.error) e = refl
same _ (some _) e = ground arith

level_lem : (status : Status) → level_of status ≢ Level.error
unfolding level_of
level_lem RateMonitor.ok e = ground arith
level_lem RateMonitor.warn e = ground arith
level_lem RateMonitor.error e = ground arith

module _ (a : Arith) (format : Format) (node : String) where
  -- What reporting `status` leaves: the cycle remembers it, and its key has the diagnostic if the
  -- status is a new one.
  abbrev pub IsReported : Status → Cycle → NavState → Cycle → NavState → Type 0
  IsReported status c st c' st' =
      (c'.reported ≡ some status)
      × IsTyped st'
      × (lookup c.key st'.values ≡ (
          if is_reported status c.reported
          then lookup c.key st.values
          else some (diagnostic (status_of a format node status c))))
      × ((status_of a format node status c).level ≢ Level.error)

  written :
      (status : Status) (c : Cycle) (st : NavState)
      → IsFree c.key
      → Typed 9 (lookup c.key st.values)
      → IsTyped st
      → Returns
          (λ _ st'.
            IsTyped st'
            × (lookup c.key st'.values ≡ some (diagnostic (status_of a format node status c))))
          (bind_outcome
            (set c.key (diagnostic (status_of a format node status c)) st)
            (λ _. add_to_group "diagnostics" c.key))
  unfolding type_code lookup
  written status c st f h t =
      let (done, t', e) = set_free c.key (diagnostic (status_of a format node status c)) st f h t in
      bind_rule
        (λ _ s.
          IsTyped s
          × (lookup c.key s.values ≡ some (diagnostic (status_of a format node status c))))
        (returns tt done (t', e))
        (λ _ s (k, e').
          let (added, t'', same_value) = add_to_group_free "diagnostics" c.key c.key s f refl k in
          returns tt added (t'', same_value ∙ e'))

  report_status_lem :
      (status : Status) (c : Cycle) (st : NavState)
      → IsFree c.key
      → Typed 9 (lookup c.key st.values)
      → IsTyped st
      → Returns
          (λ _ st'. IsReported status c st (report_status a format node status c st).0 st')
          (report_status a format node status c st).1
  unfolding report_status status_of
  report_status_lem status c st f h t = elim (Bool-cases (is_reported status c.reported)) [
    | inl e ↦ rw e (returns tt refl (same status c.reported e, t, refl, level_lem status))
    | inr e ↦
        rw e
          (weaken_rule _ (written status c st f h t) (λ _ s (k, v). (refl, k, v, level_lem status)))
  ]

  -- Where the node is there, and the cycle's key is outside the schema and has no value of another
  -- type: a report throws nothing and keeps the types of the blackboard's keys; the cycle remembers
  -- the monitor's status, whose diagnostic is under the cycle's key if it is a new status, while
  -- else the key has what it had; and that diagnostic's level is never `error`.
  report-IsReported :
      (now : ℤ) (c : Cycle) (st : NavState)
      → IsFree c.key
      → Typed 9 (lookup c.key st.values)
      → IsTyped st
      → Returns
          (λ _ st'.
            IsReported
              (RateMonitor.update a (a.seconds now) c.monitor).status
              (record c { monitor = RateMonitor.update a (a.seconds now) c.monitor })
              st
              (report a format node (some now) c st).0
              st')
          (report a format node (some now) c st).1
  unfolding report
  report-IsReported now c st f h t =
      report_status_lem (RateMonitor.update a (a.seconds now) c.monitor).status
        (record c { monitor = RateMonitor.update a (a.seconds now) c.monitor }) st f h t

  -- Each of the two reports throws nothing and keeps the types.
  state_rule :
      {M : Type 0} {Q : NavState → Type 0} (m : M) (r : Outcome (Unit {0}) × NavState)
      → Returns (λ _ s. Q s) r
      → Returns {S = M × NavState} (λ _ s. Q s.1) (r.0, (m, r.1))
  state_rule m r (returns u e q) = returns u e q

  pub report_rt_rate-IsTyped :
      (now : ℤ) (m : MethodBase) (st : NavState)
      → IsFree m.rt_cycle.key
      → Typed 9 (lookup m.rt_cycle.key st.values)
      → IsTyped st
      → Returns (λ _ s. IsTyped s.1) (report_rt_rate a format node (some now) (m, st))
  unfolding report_rt_rate
  report_rt_rate-IsTyped now m st f h t =
      state_rule _ (report a format node (some now) m.rt_cycle st).1
        (weaken_rule _ (report-IsReported now m.rt_cycle st f h t) (λ _ s k. k.1))

  pub report_rate-IsTyped :
      (now : ℤ) (m : MethodBase) (st : NavState)
      → IsFree m.cycle.key
      → Typed 9 (lookup m.cycle.key st.values)
      → IsTyped st
      → Returns (λ _ s. IsTyped s.1) (report_rate a format node (some now) (m, st))
  unfolding report_rate
  report_rate-IsTyped now m st f h t =
      state_rule _ (report a format node (some now) m.cycle st).1
        (weaken_rule _ (report-IsReported now m.cycle st f h t) (λ _ s k. k.1))
