-- ===== src/ControllerNode/Cycle.antt =====
-- A whole cycle of the node on the blackboard: publish_cmd_vel_rt().
use easy_navigation.Common.{
  ℤ, ◌≡◌, refl, Bool, true, false, Option, none, some, is_some, arith, String, Bool-cases, inl, inr,
  if◌then◌else◌,
}
use easy_navigation.Double.{Arith}
use easy_navigation.Messages.{TwistStamped, Level, ok, error}
use easy_navigation.NavState.{
  NavState, Outcome, Exec, return, Value, safety, type_code, lookup, has, get_safe, set,
  add_to_group, contains, members_or_none,
}
use easy_navigation.NavState.Laws.{Typed, safety_of}
use easy_navigation.NavState.Rules.{Returns, returns, bind_rule, branch_rule}
use easy_navigation.NavState.Schema.{IsTyped, schema, set-IsTyped}
use easy_navigation.VelocityCommand.{
  VelocitySource, controller, takeover, override, key, take, consume,
}
use easy_navigation.VelocityMux.{
  VelocityMux, Selection, select, read_inputs, read_flag, read_protective_stop,
}
use easy_navigation.VelocityMux.Slots.{pending, peek-Typed}
use easy_navigation.VelocityMux.Select.{read_flag-Typed, read_stop-Typed}
use easy_navigation.CommandGuard.{
  CommandGuard, is_bad, discard_one, discard_non_finite, supervise, report, write_report,
  is_reported,
}
use easy_navigation.ControllerNode.{ControllerNode, read_channel, finish, publish_cmd_vel_rt}
use easy_navigation.ControllerNode.Synced.{Synced, Enforces, follow-Enforces, send-Enforces}
use easy_navigation.RobotLimits.{RobotLimits}
use easy_navigation.SafetyChannel.{SafetyChannelState}

-- Nothing is thrown, and the keys keep their types.
abbrev Safe : {A : Type 0} → Outcome A × NavState → Type 0
Safe r = Returns (λ _ st. IsTyped st) r

slot_code : (source : VelocitySource) → lookup (key source) schema ≡ some 7
unfolding key lookup
slot_code controller = refl
slot_code takeover = refl
slot_code override = refl

-- A write at the key's own type.
set-Safe :
    (k : String) (v : Value) (st : NavState)
    → lookup k schema ≡ some (type_code v)
    → IsTyped st
    → Safe (set k v st)
set-Safe k v st e t = let (o, t') = set-IsTyped k v st e t in returns tt o t'

consume-Safe :
    (source : VelocitySource) (c : Option TwistStamped) (st : NavState)
    → IsTyped st
    → Safe (consume source c st)
unfolding type_code
consume-Safe source none st t = returns none refl t
consume-Safe source (some c) st t =
    bind_rule (λ _ s. IsTyped s) (set-Safe (key source) _ st (slot_code source) t)
      (λ _ s h. returns (some c) refl h)

take-Safe : (source : VelocitySource) (st : NavState) → IsTyped st → Safe (take source st)
unfolding take
take-Safe source st t =
    rw (peek-Typed source st (t (key source) 7 (slot_code source)))
      (consume-Safe source (pending source st) st t)

flag-Safe :
    (k : String) (st : NavState) → lookup k schema ≡ some 0 → IsTyped st → Safe (read_flag k st)
flag-Safe k st e t = rw (read_flag-Typed k st (t k 0 e)) (returns _ refl t)

stop-Safe : (st : NavState) → IsTyped st → Safe (read_protective_stop st)
unfolding lookup
stop-Safe st t = rw (read_stop-Typed st (t "safety_status" 8 refl)) (returns _ refl t)

inputs-Safe : (st : NavState) → IsTyped st → Safe (read_inputs st)
unfolding read_inputs lookup
inputs-Safe st t =
    bind_rule (λ _ s. IsTyped s) (take-Safe override st t)
      (λ o s₁ t₁.
        bind_rule (λ _ s. IsTyped s) (take-Safe takeover s₁ t₁)
          (λ k s₂ t₂.
            bind_rule (λ _ s. IsTyped s) (take-Safe controller s₂ t₂)
              (λ c s₃ t₃.
                bind_rule (λ _ s. IsTyped s) (flag-Safe "navigation_paused" s₃ refl t₃)
                  (λ p s₄ t₄.
                    bind_rule (λ _ s. IsTyped s) (stop-Safe s₄ t₄)
                      (λ q s₅ t₅.
                        bind_rule (λ _ s. IsTyped s) (flag-Safe "inhibit_motion" s₅ refl t₅)
                          (λ i s₆ t₆. returns _ refl t₆))))))

select-Safe : (m : VelocityMux) (st : NavState) → IsTyped st → Safe (select m st)
unfolding select
select-Safe m st t = bind_rule (λ _ s. IsTyped s) (inputs-Safe st t) (λ i s h. returns _ refl h)

discard_one-Safe :
    (source : VelocitySource) (st : NavState) → IsTyped st → Safe (discard_one source st)
unfolding discard_one
discard_one-Safe source st t = rw (peek-Typed source st (t (key source) 7 (slot_code source))) (
    branch_rule (is_bad (pending source st)) _ _
      (λ _. bind_rule (λ _ s. IsTyped s) (take-Safe source st t) (λ c s h. returns true refl h))
      (λ _. returns false refl t))

discard-Safe : (st : NavState) → IsTyped st → Safe (discard_non_finite st)
unfolding discard_non_finite
discard-Safe st t =
    bind_rule (λ _ s. IsTyped s) (discard_one-Safe override st t)
      (λ o s₁ t₁.
        bind_rule (λ _ s. IsTyped s) (discard_one-Safe takeover s₁ t₁)
          (λ k s₂ t₂.
            bind_rule (λ _ s. IsTyped s) (discard_one-Safe controller s₂ t₂)
              (λ c s₃ t₃. returns _ refl t₃)))

group-Safe :
    (g k : String) (st : NavState)
    → lookup g schema ≡ some 2
    → IsTyped st
    → Safe (add_to_group g k st)
unfolding add_to_group type_code
group-Safe g k st e t = elim (Bool-cases (contains k (members_or_none (lookup g st.groups)))) [
  | inl c ↦ rw c (returns tt refl t)
  | inr c ↦ rw c (set-Safe g _ _ e t)
]

-- A step that depends on a test.
if_Safe :
    {A : Type 0} (b : Bool) (m n : Exec NavState A) (st : NavState)
    → Safe (m st)
    → Safe (n st)
    → Safe ((if b then m else n) st)
if_Safe true m n st h k = h
if_Safe false m n st h k = k

write_report-Safe :
    (level : Level) (message : String) (g : CommandGuard) (st : NavState)
    → IsTyped st
    → Safe (write_report level message g st)
unfolding write_report lookup type_code
write_report-Safe level message g st t =
    elim (Bool-cases (is_reported level message g.last_report)) [
      | inl c ↦ rw c (returns g refl t)
      | inr c ↦ rw c (
          bind_rule (λ _ s. IsTyped s) (set-Safe "diagnostics.cmd_vel" _ st refl t)
            (λ _ s h.
              bind_rule (λ _ s. IsTyped s) (group-Safe "diagnostics" "diagnostics.cmd_vel" s refl h)
                (λ _ s' h'. returns _ refl h')))
    ]

report-Safe :
    (discarded fresh : Bool) (g : CommandGuard) (st : NavState)
    → IsTyped st
    → Safe (report discarded fresh g st)
unfolding report
report-Safe discarded fresh g st t =
    if_Safe g.timed_out (write_report error g.timeout_message g)
      (if discarded
        then write_report error "Non-finite velocity command discarded" g
        else if fresh
        then write_report ok "Receiving velocity commands" g
        else return g)
      st (write_report-Safe error g.timeout_message g st t)
      (if_Safe discarded (write_report error "Non-finite velocity command discarded" g)
        (if fresh then write_report ok "Receiving velocity commands" g else return g) st
        (write_report-Safe error "Non-finite velocity command discarded" g st t)
        (if_Safe fresh (write_report ok "Receiving velocity commands" g) (return g) st
          (write_report-Safe ok "Receiving velocity commands" g st t) (returns g refl t)))

-- The state of the safety channel on a blackboard, or else the one known before.
abbrev state_or : SafetyChannelState → Option Value → SafetyChannelState
state_or known (some (safety s)) = s
state_or known _ = known

abbrev pub channel_state : SafetyChannelState → NavState → SafetyChannelState
channel_state known st = state_or known (lookup "safety_status" st.values)

-- What a cycle keeps, with the limits and the state of the channel.
abbrev Kept : RobotLimits → SafetyChannelState → ControllerNode → NavState → Type 0
Kept l r n st = Enforces l r n × IsTyped st

status-Typed : (st : NavState) → IsTyped st → Typed 8 (lookup "safety_status" st.values)
unfolding lookup
status-Typed st t = t "safety_status" 8 refl

none_of : (o : Option Value) → is_some o ≡ false → o ≡ none
none_of none h = refl
none_of (some v) h = absurd (ground (arith, h))

channel-Kept :
    (n : ControllerNode) (st : NavState)
    → IsTyped st
    → Synced n
    → Returns (Kept n.robot_limits (channel_state n.safety_channel st)) (read_channel n st)
unfolding read_channel has get_safe
channel-Kept n st t v = elim (Bool-cases (is_some (lookup "safety_status" st.values))) [
  | inl c ↦
      let (g, e) = safety_of (lookup "safety_status" st.values) c (status-Typed st t) in
      rw (e, get_safe)
        (returns _ refl (follow-Enforces g n n.robot_limits n.safety_channel (refl, refl, v), t))
  | inr c ↦ rw (none_of (lookup "safety_status" st.values) c) (returns n refl ((refl, refl, v), t))
]

finish-Kept :
    (a : Arith) (discarded : Bool) (now : ℤ) (n : ControllerNode) (s : Selection) (m : VelocityMux)
    (st : NavState) (l : RobotLimits) (r : SafetyChannelState)
    → IsTyped st
    → Enforces l r n
    → Returns (λ o st'. Kept l r o.0 st') (finish a discarded now n (s, m) st)
unfolding finish
finish-Kept a discarded now n s m st l r t v =
    let (s', g) = supervise a s now n.command_guard in
    bind_rule (λ _ st'. IsTyped st') (report-Safe discarded s'.fresh g st t)
      (λ g' st' t'.
        returns _ refl
          (send-Enforces l r a s' now (record n { mux = m; command_guard = g' }) v, t'))

-- On a blackboard whose keys have their types, a cycle throws nothing, whatever was proposed: it
-- keeps the keys' types and the node's configured limits, and the smoother of a node that enforced
-- its limits then enforces the configured ones cut down by the safety channel's state on the
-- blackboard (or, where there is none, by the state that the node had).
pub publish_cmd_vel_rt-Synced :
    (a : Arith) (now : ℤ) (n : ControllerNode) (st : NavState)
    → IsTyped st
    → Synced n
    → Returns
        (λ r st'. Enforces n.robot_limits (channel_state n.safety_channel st) r.0 × IsTyped st')
        (publish_cmd_vel_rt a now n st)
unfolding publish_cmd_vel_rt
publish_cmd_vel_rt-Synced a now n st t v =
    let l = n.robot_limits in
    let r = channel_state n.safety_channel st in
    bind_rule (Kept l r) (channel-Kept n st t v) (λ n' s₁ (v₁, t₁).
      bind_rule (λ _ s. IsTyped s) (discard-Safe s₁ t₁)
        (λ d s₂ t₂.
          bind_rule (λ _ s. IsTyped s) (select-Safe n'.mux s₂ t₂)
            (λ (s, m) s₃ t₃. finish-Kept a d now n' s m s₃ l r t₃ v₁)))
