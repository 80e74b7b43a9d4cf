-- ===== src/SafetyChannel/Decision.antt =====
-- When the monitor lets the robot move, and what limits it can impose.
use easy_navigation.Common.{
  ℤ, ◌-ℤ◌, ◌≤ℤ◌, ◌≡◌, ◌↔◌, Bool, true, false, Option, none, some, List, [], ◌∷◌, arith,
}
use easy_navigation.Double.{Double, zero_d, le, Arith}
use easy_navigation.SafetyChannel.{SafetyChannelState}
use easy_navigation.SafetyChannel.Monitor.{
  SafetyStatus, SafetyChannelMonitor, invalid_reason, configure, received, evaluate,
}

-- After a message, the robot is not stopped exactly when the message is valid, does not stop it,
-- and was received at most the timeout ago.
pub moves-received :
    (msg : SafetyStatus) (t now : ℤ) (m : SafetyChannelMonitor)
    → ((evaluate now (received msg t m)).state.protective_stop ≡ false)
      ↔ ((invalid_reason msg ≡ none) × (msg.protective_stop ≡ false) × (now -ℤ t ≤ℤ m.timeout))
unfolding evaluate received
moves-received msg t now m = ground arith

-- What the monitor is told, in order.
pub data Call : Type 0 where
  configures : Double → Call
  receives : SafetyStatus → ℤ → Call

pub run : Arith → List Call → SafetyChannelMonitor → SafetyChannelMonitor
run a [] m = m
run a (configures timeout ∷ cs) m = run a cs (configure a timeout m)
run a (receives msg t ∷ cs) m = run a cs (received msg t m)

-- `last_valid` speaks of the last message.
abbrev ValidMessage : Option SafetyStatus → Bool → Type 0
ValidMessage last false = Unit {0}
ValidMessage none true = ⊥
ValidMessage (some msg) true = invalid_reason msg ≡ none

abbrev pub IsConsistent : SafetyChannelMonitor → Type 0
IsConsistent m = ValidMessage m.last m.last_valid

received-IsConsistent :
    (msg : SafetyStatus) (t : ℤ) (m : SafetyChannelMonitor) → IsConsistent (received msg t m)
unfolding received
received-IsConsistent msg t m = ground arith

pub run-IsConsistent :
    (a : Arith) (cs : List Call) (m : SafetyChannelMonitor)
    → IsConsistent m
    → IsConsistent (run a cs m)
unfolding run configure
run-IsConsistent a [] m v = v
run-IsConsistent a (configures timeout ∷ cs) m v = run-IsConsistent a cs (configure a timeout m) tt
run-IsConsistent a (receives msg t ∷ cs) m v =
    run-IsConsistent a cs (received msg t m) (received-IsConsistent msg t m)

-- A speed limit is a number, and not negative; it may be infinite.
pub record HasLimits (s : SafetyChannelState) : Type 0 where
  pub linear : le zero_d s.max_linear_vel ≡ true
  pub angular : le zero_d s.max_angular_vel ≡ true

pub evaluate-HasLimits :
    (now : ℤ) (m : SafetyChannelMonitor) → IsConsistent m → HasLimits (evaluate now m).state
unfolding evaluate invalid_reason le
evaluate-HasLimits now m v = ground arith
