-- ===== src/CommandGuard/Timeout.antt =====
-- The timeout of the velocity commands.
use easy_navigation.Common.{ℤ, ◌-ℤ◌, ◌≤ℤ◌, ◌≡◌, refl, true, false, some, List, [], ◌∷◌, arith}
use easy_navigation.Double.{Double, zero_d, lt, eq, Arith}
use easy_navigation.Messages.{zero_twist}
use easy_navigation.VelocityMux.{Selection}
use easy_navigation.CommandGuard.{CommandGuard, supervise, same_twist, same_vector, stopped}

-- A cycle: what the mux selected, and the time.
abbrev pub Cycle : Type 0
Cycle = Selection × ℤ

module _ (a : Arith) where
  unfoldable pub run : List Cycle → CommandGuard → CommandGuard
  run [] g = g
  run ((s, now) ∷ cycles) g = run cycles (supervise a s now g).1

-- Cycles without a new command, none before `t`.
abbrev pub AllHeld : ℤ → List Cycle → Type 0
AllHeld t [] = Unit {0}
AllHeld t ((s, now) ∷ cycles) = (s.fresh ≡ false) × (t ≤ℤ now) × AllHeld t cycles

same_zero : same_twist zero_twist zero_twist ≡ true
unfolding same_twist same_vector eq
same_zero = refl

-- The last proposal was at `t`, and the timeout is `timeout`.
abbrev Holds : ℤ → Double → CommandGuard → Type 0
Holds t timeout g = (g.last_proposal ≡ some t) × (g.cmd_timeout ≡ timeout)

supervise-Holds :
    (a : Arith) (s : Selection) (now t : ℤ) (timeout : Double) (g : CommandGuard)
    → s.fresh ≡ false
    → t ≤ℤ now
    → Holds t timeout g
    → Holds t timeout (supervise a s now g).1
unfolding supervise
supervise-Holds a s now t timeout g f h v = ground arith

run-Holds :
    (a : Arith) (cycles : List Cycle) (t : ℤ) (timeout : Double) (g : CommandGuard)
    → AllHeld t cycles
    → Holds t timeout g
    → Holds t timeout (run a cycles g)
unfolding run
run-Holds a [] t timeout g h v = v
run-Holds a ((s, now) ∷ cycles) t timeout g (f, le, h) v =
    run-Holds a cycles t timeout (supervise a s now g).1 h
      (supervise-Holds a s now t timeout g f le v)

fresh-Holds :
    (a : Arith) (s : Selection) (t : ℤ) (g : CommandGuard)
    → s.fresh ≡ true
    → Holds t g.cmd_timeout (supervise a s t g).1
unfolding supervise
fresh-Holds a s t g f = ground arith

supervise_late :
    (a : Arith) (s : Selection) (now t : ℤ) (timeout : Double) (g : CommandGuard)
    → s.fresh ≡ false
    → t ≤ℤ now
    → Holds t timeout g
    → lt zero_d timeout ≡ true
    → lt timeout (a.seconds (now -ℤ t)) ≡ true
    → same_twist (supervise a s now g).0.cmd.twist zero_twist ≡ true
unfolding supervise
supervise_late a s now t timeout g f h v p l = ground (arith, same_zero)

-- After a new command at `t`, and any cycles without a new one while the clock does not go back
-- before `t`, a cycle without a new command more than the timeout later commands a zero velocity.
-- The timeout is positive (zero disables it).
pub supervise-run :
    (a : Arith) (first : Selection) (t : ℤ) (cycles : List Cycle) (s : Selection) (now : ℤ)
    (g : CommandGuard)
    → first.fresh ≡ true
    → AllHeld t cycles
    → s.fresh ≡ false
    → t ≤ℤ now
    → lt zero_d g.cmd_timeout ≡ true
    → lt g.cmd_timeout (a.seconds (now -ℤ t)) ≡ true
    → same_twist (supervise a s now (run a ((first, t) ∷ cycles) g)).0.cmd.twist zero_twist ≡ true
unfolding run
supervise-run a first t cycles s now g f h e le p l =
    let g' = (supervise a first t g).1 in
    supervise_late a s now t g.cmd_timeout (run a cycles g') e le
      (run-Holds a cycles t g.cmd_timeout g' h (fresh-Holds a first t g f)) p l

timed_out_step :
    (a : Arith) (s : Selection) (now : ℤ) (g : CommandGuard)
    → s.fresh ≡ false
    → g.timed_out ≡ true
    → ((supervise a s now g).0 ≡ stopped s) × ((supervise a s now g).1.timed_out ≡ true)
unfolding supervise
timed_out_step a s now g f h = ground arith

-- No selection is new.
abbrev pub NoneFresh : List Cycle → Type 0
NoneFresh [] = Unit {0}
NoneFresh ((s, now) ∷ cycles) = (s.fresh ≡ false) × NoneFresh cycles

-- Once timed out, the command stays zero at any times, until a new command arrives.
supervise_timed_out :
    (a : Arith) (cycles : List Cycle) (s : Selection) (now : ℤ) (g : CommandGuard)
    → g.timed_out ≡ true
    → NoneFresh cycles
    → s.fresh ≡ false
    → (supervise a s now (run a cycles g)).0 ≡ stopped s
unfolding run
supervise_timed_out a [] s now g h n f = (timed_out_step a s now g f h).0
supervise_timed_out a ((s', t) ∷ cycles) s now g h (e, n) f =
    supervise_timed_out a cycles s now (supervise a s' t g).1 (timed_out_step a s' t g e h).1 n f
