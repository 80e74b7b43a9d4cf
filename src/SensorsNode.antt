-- ===== src/SensorsNode.antt =====
-- easynav_sensors SensorsNode: the real-time cycle of the sensors and the age of their data. A
-- handler's own code is an argument: it may throw. The perception that a
-- handler exposes is the node's here, with its handler; the publisher, the lifecycle and the
-- plugins' loading are left out.
pub mod Age
pub mod Report
use Prim.Native.String.{◌++◌}
use easy_navigation.Common.{
  ℤ, pos, ◌-ℤ◌, eqb_ℤ, Bool, true, false, not, ◌&&◌, ◌||◌, Option, none, some, String, str_eq, List,
  [], ◌∷◌, length, ◌==◌, if◌then◌else◌,
}
use easy_navigation.Double.{Double, lt, Arith, is_finite, zero_d, le}
use easy_navigation.Messages.{DiagnosticStatus, Level}
use easy_navigation.NavState.{
  NavState, Outcome, Exec, return, bind_outcome, ◌>>=◌, ◌>>◌, set, add_to_group, diagnostic,
}
use easy_navigation.PointPerception.{Time, same_clock}

-- PerceptionBase.
pub record PerceptionBase : Type 0 where
  pub stamp : Time
  pub valid : Bool

pub record Handler : Type 0 where
  pub sensor_name : String
  pub perception : Option PerceptionBase

pub data DataState : Type 0 where
  fresh no_data stale : DataState

abbrev pub same_state : DataState → DataState → Bool
same_state fresh fresh = true
same_state no_data no_data = true
same_state stale stale = true
same_state _ _ = false

pub record SensorsNode : Type 0 where
  pub name : String
  pub handler_list : List Handler
  pub data_states : List DataState
  pub data_age_reported : Bool
  pub forget_time : Double

-- Older than the forget time, by a clock of the same type.
unfoldable pub is_expired : Arith → Double → Time → Time → Bool
unfolding lt
is_expired a forget_time now stamp =
    same_clock stamp.clock_type now.clock_type
    && lt forget_time (a.seconds (now.nanoseconds -ℤ stamp.nanoseconds))

abbrev pub has_no_data : PerceptionBase → Bool
has_no_data p = eqb_ℤ p.stamp.nanoseconds (pos 0) && not p.valid

-- The state of a perception, and the perception after the check.
unfoldable pub judge : Bool → PerceptionBase → DataState × PerceptionBase
judge expired p =
    if has_no_data p
    then (no_data, p)
    else if expired
    then (stale, record p { valid = false })
    else if not p.valid
    then (stale, p)
    else (fresh, p)

-- The check of a handler with the state last known: the handler, the state, and whether it changed.
unfoldable pub check_one :
    Arith → Double → Time → Handler → DataState → Handler × (DataState × Bool)
unfolding judge is_expired
check_one a forget_time now h known = elim h.perception [
  | none ↦ (h, (known, false))
  | some p ↦
      let (known', p') = judge (is_expired a forget_time now p.stamp) p in
      (record h { perception = some p' }, (known', not (same_state known' known)))
]

-- The loop over the handlers, which are as many as the states.
unfoldable pub check_all :
    Arith → Double → Time → List Handler → List DataState → List Handler × (List DataState × Bool)
unfolding check_one
check_all a forget_time now [] states = ([], ([], false))
check_all a forget_time now (h ∷ handlers) [] = (h ∷ handlers, ([], false))
check_all a forget_time now (h ∷ handlers) (known ∷ states) =
    let (h', (known', changed)) = check_one a forget_time now h known in
    let (handlers', (states', rest)) = check_all a forget_time now handlers states in
    (h' ∷ handlers', (known' ∷ states', changed || rest))

abbrev comma : String → String
comma text = if str_eq text "" then "" else ", "

-- The names of the handlers in a state.
unfoldable pub names_in : DataState → String → List Handler → List DataState → String
names_in known text (h ∷ handlers) (s ∷ states) =
    let text' = if same_state s known then text ++ comma text ++ h.sensor_name else text in
    names_in known text' handlers states
names_in known text _ _ = text

-- The message on stale and on missing data; `print` is std::to_string.
unfoldable pub age_message : (Double → String) → Double → String → String → String
age_message print forget_time old missing =
    let message =
      if str_eq old ""
      then ""
      else "No data for more than " ++ print forget_time ++ " s from: " ++ old in
    if str_eq missing ""
    then message
    else message ++ (if str_eq message "" then "" else "; ") ++ "No data yet from: " ++ missing

unfoldable pub age_status : (Double → String) → SensorsNode → DiagnosticStatus
unfolding names_in age_message
age_status print n =
    let missing = names_in no_data "" n.handler_list n.data_states in
    let old = names_in stale "" n.handler_list n.data_states in
    let up_to_date = str_eq missing "" && str_eq old "" in
    record {
      level = if up_to_date then Level.ok else Level.warn;
      name = "sensors";
      hardware_id = n.name;
      message =
          if up_to_date
          then "Sensor data up to date"
          else age_message print n.forget_time old missing;
      values = ("stale", old) ∷ ("no_data", missing) ∷ [];
    }

unfoldable pub report_data_age : (Double → String) → Exec (SensorsNode × NavState) (Unit {0})
unfolding age_status
report_data_age print (n, st) =
    let n' = record n { data_age_reported = true } in
    let (r, st') =
      (set "diagnostics.sensors" (diagnostic (age_status print n'))
          >> add_to_group "diagnostics" "diagnostics.sensors")
        st in
    (r, (n', st'))

unfoldable pub check_data_age :
    Arith → (Double → String) → Time → Exec (SensorsNode × NavState) (Unit {0})
unfolding check_all report_data_age
check_data_age a print now (n, st) =
    if not (length n.data_states == length n.handler_list)
    then return tt (n, st)
    else let (handlers, (states, changed)) =
        check_all a n.forget_time now n.handler_list n.data_states in
      let n' = record n { handler_list = handlers; data_states = states } in
      if not n.data_age_reported || changed
      then report_data_age print (n', st)
      else return tt (n', st)

-- The handlers' cycles, one after the other. A handler's code may replace its perception.
unfoldable pub run_handlers :
    (Handler → Exec (Handler × NavState) Bool)
    → List Handler
    → NavState
    → Outcome Bool × (List Handler × NavState)
run_handlers cycle_rt [] st = return false ([], st)
run_handlers cycle_rt (h ∷ handlers) st =
    let (r, (h', st₁)) = cycle_rt h (h, st) in
    bind_outcome (r, (h' ∷ handlers, st₁))
      (λ trigger (_, st₂).
        let (r', (handlers', st₃)) = run_handlers cycle_rt handlers st₂ in
        bind_outcome (r', (h' ∷ handlers', st₃)) (λ rest s. return (trigger || rest) s))

unfoldable pub cycle_rt :
    Arith
    → (Double → String)
    → Time
    → (Handler → Exec (Handler × NavState) Bool)
    → Exec (SensorsNode × NavState) Bool
unfolding run_handlers check_data_age
cycle_rt a print now handler_cycle_rt (n, st) =
    let (r, (handlers, st')) = run_handlers handler_cycle_rt n.handler_list st in
    bind_outcome (r, (record n { handler_list = handlers }, st'))
      (λ trigger. check_data_age a print now >> return trigger)
