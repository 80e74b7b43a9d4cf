-- ===== src/ControllerNode/Synced.antt =====
-- The limits that the smoother enforces follow the configured ones and the safety channel.
use easy_navigation.Common.{
  ℕ, zero, suc, ℤ, ◌≡◌, refl, sym, ap, ◌∙◌, eq_of_parts, ◌&&◌, not, ◌||◌, Bool, true, false, Option,
  none, some, List, [], ◌∷◌, String, arith, if◌then◌else◌, Bool-cases, inl, inr,
}
use easy_navigation.Messages.{TwistStamped, zero_twist}
use easy_navigation.Double.{Double, nan, neg_inf, fin, inf, eq, Arith}
use easy_navigation.RobotLimits.{RobotLimits, invalid_robot_limits}
use easy_navigation.SafetyChannel.{SafetyChannelState, limited_by}
use easy_navigation.VelocityMux.{Selection}
use easy_navigation.VelocitySmoother
use easy_navigation.VelocitySmoother.{reached, step, set_limits}
use easy_navigation.CommandGuard.{keepalive_due}
use easy_navigation.ControllerNode.{
  ControllerNode, publish, brake, braked, rest_robot, stop_robot, get_robot_limits, follow_channel,
  apply_safety_channel, same_flag, same_state, set_robot_limits, refresh_limits, send, send_smooth,
  send_raw, is_zero, is_stop, smoother_time, zero_command,
}

abbrev pub Synced : ControllerNode → Type 0
Synced n = n.smoother.limits ≡ get_robot_limits n

-- The node has these limits and this state of the channel, and the smoother enforces them.
abbrev pub Enforces : RobotLimits → SafetyChannelState → ControllerNode → Type 0
Enforces l s n =
    (n.robot_limits ≡ l) × (n.safety_channel ≡ s) × (n.smoother.limits ≡ limited_by l s)

eq-same : (x y : Double) → eq x y ≡ true → x ≡ y
unfolding eq
eq-same neg_inf neg_inf h = refl
eq-same inf inf h = refl
eq-same (fin x) (fin y) h = ap fin (eq_of_parts x y (ground (arith, h)))
eq-same nan y h = absurd (ground (arith, h))
eq-same neg_inf nan h = absurd (ground (arith, h))
eq-same neg_inf (fin y) h = absurd (ground (arith, h))
eq-same neg_inf inf h = absurd (ground (arith, h))
eq-same (fin x) nan h = absurd (ground (arith, h))
eq-same (fin x) neg_inf h = absurd (ground (arith, h))
eq-same (fin x) inf h = absurd (ground (arith, h))
eq-same inf nan h = absurd (ground (arith, h))
eq-same inf neg_inf h = absurd (ground (arith, h))
eq-same inf (fin y) h = absurd (ground (arith, h))

same_flag-same : (b c : Bool) → same_flag b c ≡ true → b ≡ c
same_flag-same true true h = refl
same_flag-same false false h = refl
same_flag-same true false h = absurd (ground (arith, h))
same_flag-same false true h = absurd (ground (arith, h))

-- States that compare as the same are equal.
same_state-same : (s t : SafetyChannelState) → same_state s t ≡ true → s ≡ t
unfolding same_state
same_state-same s t h =
    let p = same_flag-same s.protective_stop t.protective_stop (ground (arith, h)) in
    let q = same_flag-same s.status_lost t.status_lost (ground (arith, h)) in
    let x = eq-same s.max_linear_vel t.max_linear_vel (ground (arith, h)) in
    let y = eq-same s.max_angular_vel t.max_angular_vel (ground (arith, h)) in
    (λ i. record {
      protective_stop = p i;
      status_lost = q i;
      max_linear_vel = x i;
      max_angular_vel = y i;
    })

pub follow-Enforces :
    (s' : SafetyChannelState) (n : ControllerNode) (l : RobotLimits) (s : SafetyChannelState)
    → Enforces l s n
    → Enforces l s' (follow_channel s' n)
unfolding follow_channel apply_safety_channel refresh_limits set_limits get_robot_limits
follow-Enforces s' n l s (p, q, v) = elim (Bool-cases (same_state s' n.safety_channel)) [
  | inl e ↦
      let t = same_state-same s' n.safety_channel e in
      rw e (p, sym t, v ∙ ap (limited_by l) (sym q ∙ sym t))
  | inr e ↦ rw e (p, refl, ap (λ k. limited_by k s') p)
]

limits-Enforces :
    (l' : RobotLimits) (n : ControllerNode) (l : RobotLimits) (s : SafetyChannelState)
    → Enforces l s n
    → Enforces l' s (set_robot_limits l' n)
unfolding set_robot_limits refresh_limits set_limits get_robot_limits
limits-Enforces l' n l s (p, q, v) = (refl, q, ap (limited_by l') q)

set-Enforces :
    (l : RobotLimits) (n : ControllerNode) → Enforces l n.safety_channel (set_robot_limits l n)
unfolding set_robot_limits refresh_limits set_limits get_robot_limits
set-Enforces l n = (refl, refl, refl)

-- Limits and a state of the channel that are in force stay so.
module _ (l : RobotLimits) (r : SafetyChannelState) where
  smooth-Enforces :
      (a : Arith) (s : Selection) (dt : Double) (now : ℤ) (n : ControllerNode)
      → Enforces l r n
      → Enforces l r (send_smooth a s dt now n).0
  unfolding send_smooth publish step get_robot_limits
  smooth-Enforces a s dt now n v = elim (Bool-cases waits) [ inl e ↦ rw e v | inr e ↦ rw e v ]
    where
      waits : Bool
      waits =
          (not s.fresh || (n.last_published_zero && is_zero s.cmd.twist))
          && not (not (reached a s.cmd.twist n.smoother))
          && not (keepalive_due a now n.command_guard)

  raw-Enforces :
      (a : Arith) (s : Selection) (now : ℤ) (n : ControllerNode)
      → Enforces l r n
      → Enforces l r (send_raw a s now n).0
  unfolding send_raw publish VelocitySmoother.reset get_robot_limits
  raw-Enforces a s now n v = v

  -- What send() does first.
  abbrev started : Bool → ℤ → ControllerNode → ControllerNode
  started b now n =
      if b
      then record n {
        last_smoother_step = some now;
        smoother = VelocitySmoother.reset zero_twist n.smoother;
      }
      else record n { last_smoother_step = some now }

  start-Enforces :
      (b : Bool) (now : ℤ) (n : ControllerNode) → Enforces l r n → Enforces l r (started b now n)
  unfolding VelocitySmoother.reset
  start-Enforces true now n v = v
  start-Enforces false now n v = v

  pub send-Enforces :
      (a : Arith) (s : Selection) (now : ℤ) (n : ControllerNode)
      → Enforces l r n
      → Enforces l r (send a s now n).0
  unfolding send
  send-Enforces a s now n v =
      let n' = started (is_stop s.choice) now n in
      let v' = start-Enforces (is_stop s.choice) now n v in
      elim (Bool-cases s.smooth) [
        | inl e ↦ rw e (smooth-Enforces a s (smoother_time a n.last_smoother_step now) now n' v')
        | inr e ↦ rw e (raw-Enforces a s now n' v')
      ]

  brake-Enforces :
      (a : Arith) (rounds : ℕ) (frame : String) (clock : ℕ → ℤ) (n : ControllerNode)
      → Enforces l r n
      → Enforces l r (brake a rounds frame clock n).0
  unfolding brake publish step get_robot_limits
  brake-Enforces a zero frame clock n v = v
  brake-Enforces a (suc rounds) frame clock n v =
      elim (Bool-cases (reached a zero_twist n.smoother)) [
        | inl e ↦ rw e v
        | inr e ↦ rw e (brake-Enforces a rounds frame (λ i. clock (suc i)) _ v)
      ]

  rest-Enforces :
      (a : Arith) (cmd : TwistStamped) (n : ControllerNode)
      → Enforces l r n
      → Enforces l r (rest_robot a cmd n).0
  unfolding rest_robot publish VelocitySmoother.reset get_robot_limits
  rest-Enforces a cmd n v = v

  braked-Enforces :
      (a : Arith) (bad : Option (String × Double)) (rounds : ℕ) (frame : String) (clock : ℕ → ℤ)
      (n : ControllerNode)
      → Enforces l r n
      → Enforces l r (braked a bad rounds frame clock n).0
  braked-Enforces a none rounds frame clock n v = brake-Enforces a rounds frame clock n v
  braked-Enforces a (some bad) rounds frame clock n v = v

  stop-Enforces :
      (a : Arith) (rounds : ℕ) (frame : String) (clock : ℕ → ℤ) (last : ℤ) (n : ControllerNode)
      → Enforces l r n
      → Enforces l r (stop_robot a rounds frame clock last n).0
  unfolding stop_robot
  stop-Enforces a rounds frame clock last n v =
      elim (Bool-cases (not n.vel_pub && not n.vel_pub_stamped)) [
        | inl e ↦ rw e v
        | inr e ↦
            let bad = invalid_robot_limits (get_robot_limits n) in
            rw e (
              rest-Enforces a (zero_command frame last) (braked a bad rounds frame clock n).0
                (braked-Enforces a bad rounds frame clock n v))
      ]

-- What changes a node: limits, a state of the safety channel read in a cycle, a selection sent,
-- and a stop.
pub data Event : Type 0 where
  limited : RobotLimits → Event
  channel : SafetyChannelState → Event
  sending : Selection → ℤ → Event
  stopping : ℕ → String → (ℕ → ℤ) → ℤ → Event

unfoldable pub after : Arith → Event → ControllerNode → ControllerNode
unfolding set_robot_limits follow_channel send stop_robot
after a (limited l) n = set_robot_limits l n
after a (channel s) n = follow_channel s n
after a (sending s now) n = (send a s now n).0
after a (stopping rounds frame clock last) n = (stop_robot a rounds frame clock last n).0

unfoldable pub run : Arith → List Event → ControllerNode → ControllerNode
run a [] n = n
run a (e ∷ es) n = run a es (after a e n)

-- The limits that were set last, and the state of the safety channel that was read last.
abbrev pub last_limits : List Event → RobotLimits → RobotLimits
last_limits [] l = l
last_limits (limited l ∷ es) _ = last_limits es l
last_limits (channel s ∷ es) l = last_limits es l
last_limits (sending s now ∷ es) l = last_limits es l
last_limits (stopping rounds frame clock last ∷ es) l = last_limits es l

abbrev pub last_state : List Event → SafetyChannelState → SafetyChannelState
last_state [] s = s
last_state (limited l ∷ es) s = last_state es s
last_state (channel s ∷ es) _ = last_state es s
last_state (sending selection now ∷ es) s = last_state es s
last_state (stopping rounds frame clock last ∷ es) s = last_state es s

run-Enforces :
    (a : Arith) (es : List Event) (n : ControllerNode) (l : RobotLimits) (s : SafetyChannelState)
    → Enforces l s n
    → Enforces (last_limits es l) (last_state es s) (run a es n)
unfolding run after
run-Enforces a [] n l s v = v
run-Enforces a (limited l' ∷ es) n l s v = run-Enforces a es _ l' s (limits-Enforces l' n l s v)
run-Enforces a (channel s' ∷ es) n l s v = run-Enforces a es _ l s' (follow-Enforces s' n l s v)
run-Enforces a (sending selection now ∷ es) n l s v =
    run-Enforces a es _ l s (send-Enforces l s a selection now n v)
run-Enforces a (stopping rounds frame clock last ∷ es) n l s v =
    run-Enforces a es _ l s (stop-Enforces l s a rounds frame clock last n v)

-- From when the limits are set, and whatever is then set, read, sent or stopped: the smoother
-- enforces the limits that were set last, cut down by the safety channel's state that was read last
-- (the node's own at the start, if none was read).
pub run-Synced :
    (a : Arith) (l : RobotLimits) (es : List Event) (n : ControllerNode)
    → (run a es (set_robot_limits l n)).smoother.limits
      ≡ limited_by (last_limits es l) (last_state es n.safety_channel)
run-Synced a l es n =
    (run-Enforces a es (set_robot_limits l n) l n.safety_channel (set-Enforces l n)).2
