-- ===== src/SystemNode/Shutdown.antt =====
-- What a real-time cycle does to the request of shutdown.
use easy_navigation.Common.{
  ◌≡◌, ◌∙◌, refl, sym, ap, Bool, true, false, not, ◌||◌, Bool-cases, inl, inr, is_some, Option,
  none, some, String, List, if◌then◌else◌, arith,
}
use easy_navigation.Double.{Double, Arith}
use easy_navigation.NavState.{NavState, Outcome, ok, throws, Exec, bind_outcome, ◌>>=◌}
use easy_navigation.NavState.Rules.{Returns, returns}
use easy_navigation.NavState.Schema.{IsTyped}
use easy_navigation.MethodBase.{MethodBase, Format}
use easy_navigation.MethodUpdate.{Names}
use easy_navigation.ControllerNode.{ControllerNode, Output}
use easy_navigation.SafetySupervisor.{SafetySupervisor, Print}
use easy_navigation.SafetySupervisor.Cycle.{cycle_rt}
use easy_navigation.SafetySupervisor.Cycle.Failure.{fails_at, Judged, cycle_rt-Judged}
use easy_navigation.SystemNode.{
  SystemNode, Plugins, Times, request_shutdown, or_empty, heed, safety_cycle_rt,
  controller_cycle_rt, on_board, publish_rt, controller_step, components_rt, keep_node, propose_rt,
  heeded, system_cycle_rt,
}

-- The request of shutdown, and the supervisor it follows.
abbrev pub request : SystemNode → Bool × String × SafetySupervisor
request n = (n.shutdown_requested, n.shutdown_reason, n.safety)

-- Code that leaves the request as it is, also when it throws.
abbrev Keeps : {A : Type 0} → Exec (SystemNode × NavState) A → Type 0
Keeps f = (s : SystemNode × NavState) → request (f s).1.0 ≡ request s.0

outcome-Keeps :
    {A B : Type 0} (r : Outcome A × (SystemNode × NavState))
    (f : A → Exec (SystemNode × NavState) B)
    → ((a : A) → Keeps (f a))
    → request (bind_outcome r f).1.0 ≡ request r.1.0
outcome-Keeps (ok a, s) f h = h a s
outcome-Keeps (throws e, s) f h = refl

bind-Keeps :
    {A B : Type 0} (m : Exec (SystemNode × NavState) A) (f : A → Exec (SystemNode × NavState) B)
    → Keeps m
    → ((a : A) → Keeps (f a))
    → Keeps (m >>= f)
bind-Keeps m f h k s = outcome-Keeps (m s) f k ∙ h s

keep_node_lem :
    {A : Type 0} (r : Outcome (ControllerNode × A) × NavState) (n : SystemNode)
    → request (keep_node r n).1.0 ≡ request n
keep_node_lem (ok (c, x), st) n = refl
keep_node_lem (throws e, st) n = refl

-- The first reason is kept.
abbrev pub first_reason : Bool → String → Option String → String
first_reason true kept failure = kept
first_reason false kept none = kept
first_reason false kept (some failure) = failure

-- The request after a request that is due if the supervisor has a failure.
abbrev Requested : SystemNode → SafetySupervisor → SystemNode → Type 0
Requested n s n' = request n' ≡ (
  n.shutdown_requested || is_some s.failure,
  first_reason n.shutdown_requested n.shutdown_reason s.failure,
  s,
)

request_lem :
    (reason : String) (n : SystemNode)
    → request (request_shutdown reason n) ≡ (
      n.shutdown_requested || true,
      first_reason n.shutdown_requested n.shutdown_reason (some reason),
      n.safety,
    )
unfolding request_shutdown
request_lem reason n = elim (Bool-cases n.shutdown_requested) [
  | inl e ↦ rw e refl
  | inr e ↦ rw e refl
]

-- What a cycle that returned does to the request.
abbrev heard :
    Bool → Option String → Bool × String × SafetySupervisor → Bool × String × SafetySupervisor
heard true f (asked, kept, s) = (asked, kept, s)
heard false f (asked, kept, s) = (asked || true, first_reason asked kept (some (or_empty f)), s)

heed_lem :
    (go : Bool) (s : SafetySupervisor) (n : SystemNode)
    → request (heed go s n) ≡ heard go s.failure (n.shutdown_requested, n.shutdown_reason, s)
unfolding heed
heed_lem true s n = refl
heed_lem false s n = request_lem (or_empty s.failure) (record n { safety = s })

heard_lem :
    (f : Option String) (asked : Bool) (kept : String) (s : SafetySupervisor)
    → heard (not (is_some f)) f (asked, kept, s)
      ≡ (asked || is_some f, first_reason asked kept f, s)
heard_lem none true kept s = refl
heard_lem none false kept s = refl
heard_lem (some reason) asked kept s = refl

if_true : {A : Type 0} (b : Bool) (x y : A) → b ≡ true → (if b then x else y) ≡ x
if_true true x y e = refl
if_true false x y e = absurd (ground (arith, e))

module _ (a : Arith) (print : Print) (reason : String × Double → String) (format : Format)
    (names : Names) (plugins : Plugins) (times : Times) where
  controller-Keeps :
      (trigger : Bool) (m : Option MethodBase)
      → Keeps (controller_cycle_rt a print reason format names plugins times trigger m)
  unfolding controller_cycle_rt
  controller-Keeps trigger none = λ s. refl
  controller-Keeps trigger (some m) =
      bind-Keeps _ (propose_rt a print reason format names plugins times) (λ s. refl)
        (λ ran (n, st). keep_node_lem _ n)

  publish-Keeps : Keeps (publish_rt a print reason format names plugins times)
  unfolding publish_rt
  publish-Keeps (n, st) = keep_node_lem _ n

  components-Keeps : Keeps (components_rt a print reason format names plugins times)
  components-Keeps =
      bind-Keeps (on_board a print reason format names plugins times plugins.sensors_cycle_rt) _
        (λ s. refl)
        (λ perceptions.
          bind-Keeps
            (on_board a print reason format names plugins times
              (plugins.localizer_cycle_rt perceptions))
            _ (λ s. refl)
            (λ localization.
              bind-Keeps (controller_step a print reason format names plugins times _) _
                (λ (n, st). controller-Keeps _ n.controller_method (n, st))
                (λ ran.
                  bind-Keeps (on_board a print reason format names plugins times _) _ (λ s. refl)
                    (λ taken. publish-Keeps))))

  heeded-Requested :
      (n : SystemNode) (r : Outcome Bool × (SafetySupervisor × NavState))
      → Returns (Judged a print times.steady n.safety) r
      → Requested n r.1.0 (heeded r n).1.0
  heeded-Requested n r (returns go e (t, g, q, m, k)) =
      ap (λ o. request (heeded (o, r.1) n).1.0) e
      ∙ heed_lem go r.1.0 n
      ∙ ap (λ b. heard b r.1.0.failure (n.shutdown_requested, n.shutdown_reason, r.1.0)) g
      ∙ heard_lem r.1.0.failure n.shutdown_requested n.shutdown_reason r.1.0

  failure_lem :
      (s : SafetySupervisor) (r : Outcome Bool × (SafetySupervisor × NavState))
      → Returns (Judged a print times.steady s) r
      → is_some r.1.0.failure ≡ (is_some s.failure || fails_at a times.steady s)
  failure_lem s r (returns go e (t, g, q, m, k)) = q

  requested_lem :
      (n n' : SystemNode) (s : SafetySupervisor)
      → Requested n s n'
      → is_some s.failure ≡ (is_some n.safety.failure || fails_at a times.steady n.safety)
      → (n'.shutdown_requested ≡ (
          n.shutdown_requested || (is_some n.safety.failure || fails_at a times.steady n.safety)))
        × (n'.shutdown_reason
            ≡ first_reason n.shutdown_requested n.shutdown_reason n'.safety.failure)
  requested_lem n n' s p q = (
    ap (λ x. x.0) p ∙ ap (λ b. n.shutdown_requested || b) q,
    ap (λ x. x.1) p
        ∙ ap (λ c. first_reason n.shutdown_requested n.shutdown_reason c.failure)
            (sym (ap (λ x. x.2) p)),
  )

  -- On a blackboard whose keys have their types, after a real-time cycle of an active node, also one
  -- that a component's exception ends: shutdown is requested exactly if it was, or if the
  -- supervisor had a failure or finds one in this cycle; the first reason is kept, and a new one is
  -- the supervisor's failure.
  pub system_cycle_rt-request :
      (n : SystemNode) (st : NavState)
      → n.active ≡ true
      → IsTyped st
      → let n' = (system_cycle_rt a print reason format names plugins times (n, st)).1.0 in
        (n'.shutdown_requested ≡ (
          n.shutdown_requested || (is_some n.safety.failure || fails_at a times.steady n.safety)))
        × (n'.shutdown_reason
            ≡ first_reason n.shutdown_requested n.shutdown_reason n'.safety.failure)
  unfolding system_cycle_rt safety_cycle_rt
  system_cycle_rt-request n st e t =
      let r = cycle_rt a print reason times.steady times.stamp times.wall (n.safety, st) in
      let h = cycle_rt-Judged a print reason times.steady times.stamp times.wall n.safety st t in
      let p =
        ap {A = Outcome (List Output) × (SystemNode × NavState)} (λ x. request x.1.0)
          (if_true n.active _ _ e)
        ∙ outcome-Keeps (heeded r n) (λ _. components_rt a print reason format names plugins times)
            (λ _. components-Keeps)
        ∙ heeded-Requested n r h in
      requested_lem n (system_cycle_rt a print reason format names plugins times (n, st)).1.0 r.1.0
        p (failure_lem n.safety r h)
