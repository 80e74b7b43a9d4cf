-- ===== src/SensorsNode/Report.antt =====
-- A whole cycle of the sensors.
use easy_navigation.Common.{
  ℕ, suc, ◌≡◌, refl, sym, ap, subst, ◌∙◌, arith, Bool, true, false, not, ◌||◌, String, List, [],
  ◌∷◌, length, ◌==◌, Bool-cases, inl, inr,
}
use easy_navigation.Double.{Double, Arith}
use easy_navigation.NavState.{
  NavState, Outcome, Exec, return, ◌>>◌, set, add_to_group, diagnostic, lookup, type_code,
}
use easy_navigation.NavState.Rules.{Returns, returns, bind_rule, weaken_rule}
use easy_navigation.NavState.Schema.{IsTyped, set-IsTyped}
use easy_navigation.PointPerception.{Time}
use easy_navigation.SafetySupervisor.Cycle.Safe.{group-Keeps}
use easy_navigation.SensorsNode.{
  Handler, SensorsNode, check_all, age_status, report_data_age, check_data_age, run_handlers,
  cycle_rt,
}
use easy_navigation.SensorsNode.Age.{AllInTime, check_all-AllInTime}

same_size : (m n : ℕ) → m ≡ n → not (m == n) ≡ false
same_size m n e = ground (arith, e)

-- After a cycle at `now`.
abbrev pub IsChecked : Arith → Double → Time → SensorsNode × NavState → Type 0
IsChecked a forget_time now (n, st) =
    IsTyped st
    × AllInTime a forget_time now n.handler_list n.data_states
    × (n.forget_time ≡ forget_time)

module _ (a : Arith) (print : Double → String) (now : Time) where
  -- The rest of the node's state stays as it is.
  beside :
      (n : SensorsNode) (r : Outcome (Unit {0}) × NavState)
      → AllInTime a n.forget_time now n.handler_list n.data_states
      → Returns (λ _ s. IsTyped s) r
      → Returns
          (λ _ s. IsChecked a n.forget_time now s)
          (r.0, (record n { data_age_reported = true }, r.1))
  beside n r k (returns u e t) = returns u e (t, k, refl)

  report-IsChecked :
      (n : SensorsNode) (st : NavState)
      → IsTyped st
      → AllInTime a n.forget_time now n.handler_list n.data_states
      → Returns (λ _ s. IsChecked a n.forget_time now s) (report_data_age print (n, st))
  unfolding report_data_age lookup type_code
  report-IsChecked n st t k =
      let d = diagnostic (age_status print (record n { data_age_reported = true })) in
      let (done, t') = set-IsTyped "diagnostics.sensors" d st refl t in
      let write = set "diagnostics.sensors" d >> add_to_group "diagnostics" "diagnostics.sensors" in
      let written : Returns (λ _ s. IsTyped s) (write st) =
        bind_rule (λ _ s. IsTyped s) {f = λ _. add_to_group "diagnostics" "diagnostics.sensors"}
          (returns tt done t')
          (λ _ s u.
            weaken_rule _
              (group-Keeps "diagnostics" "diagnostics.sensors" "robot_pose" s refl refl u)
              (λ _ s' (w, same). w)) in
      beside n (write st) k written

  check-IsChecked :
      (n : SensorsNode) (st : NavState)
      → IsTyped st
      → length n.data_states ≡ length n.handler_list
      → Returns (λ _ s. IsChecked a n.forget_time now s) (check_data_age a print now (n, st))
  unfolding check_data_age
  check-IsChecked n st t e =
      let found = check_all a n.forget_time now n.handler_list n.data_states in
      let n' = record n { handler_list = found.0; data_states = found.1.0 } in
      let k = check_all-AllInTime a n.forget_time now n.handler_list n.data_states e in
      rw (same_size _ _ e) (elim (Bool-cases (not n.data_age_reported || found.1.1)) [
        | inl c ↦ rw c (report-IsChecked n' st t k)
        | inr c ↦ rw c (returns tt refl (t, k, refl))
      ])

  -- Handlers whose code returns, writes the blackboard's keys at their types, and nothing else.
  abbrev pub IsTame : (Handler → Exec (Handler × NavState) Bool) → Type 0
  IsTame handler_cycle_rt =
      (h : Handler) (st : NavState)
      → IsTyped st
      → Returns (λ _ s. IsTyped s.1) (handler_cycle_rt h (h, st))

  head_rule :
      (handlers : List Handler) (r : Outcome Bool × (Handler × NavState))
      → Returns (λ _ s. IsTyped s.1) r
      → Returns {S = List Handler × NavState} (λ _ s. IsTyped s.1) (r.0, (r.1.0 ∷ handlers, r.1.1))
  head_rule handlers r (returns b e t) = returns b e t

  tail_rule :
      (h : Handler) (n : ℕ) (r : Outcome Bool × (List Handler × NavState))
      → Returns (λ _ s. IsTyped s.1 × (length s.0 ≡ n)) r
      → Returns {S = List Handler × NavState}
          (λ _ s. IsTyped s.1 × (length s.0 ≡ suc n))
          (r.0, (h ∷ r.1.0, r.1.1))
  tail_rule h n r (returns b e (t, l)) = returns b e (t, ap suc l)

  node_rule :
      (n : SensorsNode) (r : Outcome Bool × (List Handler × NavState))
      → Returns (λ _ s. IsTyped s.1 × (length s.0 ≡ length n.handler_list)) r
      → Returns {S = SensorsNode × NavState}
          (λ _ s.
            IsTyped s.1
            × (s.0.data_states ≡ n.data_states)
            × (s.0.forget_time ≡ n.forget_time)
            × (length s.0.handler_list ≡ length n.handler_list))
          (r.0, (record n { handler_list = r.1.0 }, r.1.1))
  node_rule n r (returns b e (t, l)) = returns b e (t, refl, refl, l)

  run_handlers_lem :
      (handler_cycle_rt : Handler → Exec (Handler × NavState) Bool)
      → IsTame handler_cycle_rt
      → (handlers : List Handler) (st : NavState) → IsTyped st
      → Returns
          (λ _ s. IsTyped s.1 × (length s.0 ≡ length handlers))
          (run_handlers handler_cycle_rt handlers st)
  unfolding run_handlers
  run_handlers_lem f tame [] st t = returns false refl (t, refl)
  run_handlers_lem f tame (h ∷ handlers) st t =
      let size = length (h ∷ handlers) in
      bind_rule (λ _ s. IsTyped s.1) (head_rule handlers (f h (h, st)) (tame h st t))
        (λ trigger (_, st₂) u.
          bind_rule (λ _ s. IsTyped s.1 × (length s.0 ≡ size))
            {f = λ rest s. return (trigger || rest) s}
            (tail_rule (f h (h, st)).1.0 (length handlers) (run_handlers f handlers st₂)
              (run_handlers_lem f tame handlers st₂ u))
            (λ rest s q. returns (trigger || rest) refl q))

  -- After a real-time cycle whose handlers' own code returns and writes the blackboard's keys at
  -- their types, with one state per handler, on a blackboard whose keys have their types: nothing
  -- was thrown, the keys keep their types, no perception that is older than the forget time by the
  -- same clock is valid, and the state kept for each handler is fresh exactly if its perception is
  -- valid.
  pub cycle_rt-IsChecked :
      (handler_cycle_rt : Handler → Exec (Handler × NavState) Bool) (n : SensorsNode)
      (st : NavState)
      → IsTame handler_cycle_rt
      → length n.data_states ≡ length n.handler_list
      → IsTyped st
      → Returns
          (λ _ s. IsChecked a n.forget_time now s)
          (cycle_rt a print now handler_cycle_rt (n, st))
  unfolding cycle_rt
  cycle_rt-IsChecked f n st tame e t =
      let r = run_handlers f n.handler_list st in
      bind_rule
        (λ _ s.
          IsTyped s.1
          × (s.0.data_states ≡ n.data_states)
          × (s.0.forget_time ≡ n.forget_time)
          × (length s.0.handler_list ≡ length n.handler_list))
        {f = λ trigger. check_data_age a print now >> return trigger}
        (node_rule n r (run_handlers_lem f tame n.handler_list st t))
        (λ trigger (n', st') (t', same, time, size).
          bind_rule (λ _ s. IsChecked a n.forget_time now s) {f = λ _. return trigger}
            (subst
              (λ d. Returns (λ _ s. IsChecked a d now s) (check_data_age a print now (n', st')))
              time (check-IsChecked n' st' t' (ap length same ∙ e ∙ sym size)))
            (λ _ s q. returns trigger refl q))
