-- ===== src/MethodBase.antt =====
-- easynav_core MethodBase: when a plugin's updates are due, and the diagnostics of its rates. The
-- node's clock is an argument for each time the code reads it: `none` where the node is gone.
-- snprintf is a parameter: it formats what the code gives it, cut to the code's buffer.
pub mod Poll
pub mod Schedule
pub mod Report
pub mod Initialize
use easy_navigation.Common.{
  ℕ, ℤ, pos, ◌+ℤ◌, ltb_ℤ, leb_ℤ, Bool, true, false, not, ◌||◌, Option, none, some, String, List, [],
  ◌∷◌, if◌then◌else◌,
}
use Prim.Native.String.{◌++◌}
use easy_navigation.Double.{Double, zero_d, eq, le, is_finite, of_int, Arith}
use easy_navigation.Messages.{DiagnosticStatus, Level}
use easy_navigation.RateMonitor.{RateMonitor, Status}
use easy_navigation.RateMonitor
use easy_navigation.NavState.{
  NavState, Outcome, ok, throws, runtime_error, Exec, return, branch, bind_outcome, ◌>>◌, set,
  add_to_group, diagnostic,
}

pub record Cycle : Type 0 where
  pub parameter : String
  pub frequency : Double
  pub last_ts : ℤ
  pub next_ts : ℤ
  pub scheduled : Bool
  pub monitor : RateMonitor
  pub key : String
  pub name : String
  pub reported : Option Status

pub record MethodBase : Type 0 where
  pub plugin_name : String
  pub rt_cycle : Cycle
  pub cycle : Cycle

-- An argument of snprintf.
pub data Argument : Type 0 where
  text : String → Argument
  number : Double → Argument

abbrev pub Format : Type 0
Format = String → List Argument → String

abbrev same_status : Status → Status → Bool
same_status Status.ok Status.ok = true
same_status Status.warn Status.warn = true
same_status Status.error Status.error = true
same_status _ _ = false

-- `cycle.reported && *cycle.reported == status`.
unfoldable pub is_reported : Status → Option Status → Bool
is_reported status none = false
is_reported status (some s) = same_status s status

unfoldable pub level_of : Status → Level
level_of Status.ok = Level.ok
level_of Status.warn = Level.warn
level_of Status.error = Level.warn

module _ (a : Arith) where
  -- `rclcpp::Duration::from_seconds(1.0 / frequency)`.
  unfoldable pub period : Cycle → ℤ
  unfolding of_int
  period c = a.nanoseconds (a.div (of_int 1) c.frequency)

  -- Due: the next run is a period after the one that is due now, or after now.
  unfoldable pub advance : ℤ → Cycle → Cycle
  unfolding period
  advance now c =
      let next = c.next_ts +ℤ period c in
      record c { next_ts = if leb_ℤ next now then now +ℤ period c else next; scheduled = true }

  unfoldable pub rewind : ℤ → Cycle → Cycle
  rewind now c = if ltb_ℤ now c.last_ts then record c { next_ts = now } else c

  unfoldable pub is_time_to_run : Option ℤ → Cycle → Bool × Cycle
  unfolding advance rewind
  is_time_to_run none c = (false, c)
  is_time_to_run (some now) c =
      let c' = rewind now c in if ltb_ℤ now c'.next_ts then (false, c') else (true, advance now c')

  unfoldable pub set_run : Option ℤ → Cycle → Cycle
  unfolding period RateMonitor.run
  set_run none c = c
  set_run (some now) c = record c {
    last_ts = now;
    next_ts = if c.scheduled then c.next_ts else now +ℤ period c;
    scheduled = false;
    monitor = RateMonitor.run (a.seconds now) c.monitor;
  }

  module _ (format : Format) where
    -- The text of the diagnostic, with what the monitor has measured.
    unfoldable pub message : Status → Cycle → String
    unfolding eq of_int
    message Status.ok c =
        if eq c.monitor.rate zero_d
        then format "%s %.1f Hz: measuring" (text c.parameter ∷ number c.frequency ∷ [])
        else format "%s %.1f Hz kept" (text c.parameter ∷ number c.frequency ∷ [])
    message Status.warn c =
        format "%s %.1f Hz not kept: %.1f Hz"
          (text c.parameter ∷ number c.frequency ∷ number c.monitor.rate ∷ [])
    message Status.error c = format "%s %.1f Hz not kept for %.0f s: %.1f Hz" (
        text c.parameter
        ∷ number c.frequency
        ∷ number (a.mul (of_int c.monitor.slow_windows) c.monitor.window)
        ∷ number c.monitor.rate
        ∷ [])

    unfoldable pub status_of : String → Status → Cycle → DiagnosticStatus
    unfolding level_of message
    status_of node_name status c = record {
      level = level_of status;
      name = c.name;
      hardware_id = node_name;
      message = message status c;
      values = [];
    }

    -- `node_name` is the node's; the cycle that is left stands first.
    unfoldable pub report_status :
        String → Status → Cycle → NavState → Cycle × (Outcome (Unit {0}) × NavState)
    unfolding is_reported status_of set add_to_group
    report_status node_name status c st =
        if is_reported status c.reported then (c, (ok tt, st)) else (
          record c { reported = some status },
          bind_outcome (set c.key (diagnostic (status_of node_name status c)) st)
              (λ _. add_to_group "diagnostics" c.key),
        )

    unfoldable pub report :
        String → Option ℤ → Cycle → NavState → Cycle × (Outcome (Unit {0}) × NavState)
    unfolding RateMonitor.update report_status
    report node_name none c st = (c, (ok tt, st))
    report node_name (some now) c st =
        let monitor = RateMonitor.update a (a.seconds now) c.monitor in
        report_status node_name monitor.status (record c { monitor = monitor }) st

  unfoldable pub is_time2_run_rt : Option ℤ → MethodBase → Bool × MethodBase
  unfolding is_time_to_run
  is_time2_run_rt now m =
      let (due, c) = is_time_to_run now m.rt_cycle in (due, record m { rt_cycle = c })

  unfoldable pub is_time2_run : Option ℤ → MethodBase → Bool × MethodBase
  unfolding is_time_to_run
  is_time2_run now m = let (due, c) = is_time_to_run now m.cycle in (due, record m { cycle = c })

  unfoldable pub set_run_rt : Option ℤ → MethodBase → MethodBase
  unfolding set_run
  set_run_rt now m = record m { rt_cycle = set_run now m.rt_cycle }

  unfoldable pub set_run_cycle : Option ℤ → MethodBase → MethodBase
  unfolding set_run
  set_run_cycle now m = record m { cycle = set_run now m.cycle }

  -- One round of the loop in initialize(), for the cycle whose diagnostic is `suffix`, with the
  -- value that its parameter reads.
  unfoldable pub initialize_cycle : String → String → Double → ℤ → Exec Cycle (Unit {0})
  unfolding period le is_finite RateMonitor.configure
  initialize_cycle plugin_name suffix frequency now c =
      let name = plugin_name ++ suffix in
      if not (is_finite frequency) || le frequency zero_d then (throws runtime_error, c) else (
        ok tt,
        record c {
          frequency = frequency;
          last_ts = now;
          next_ts = now +ℤ period (record c { frequency = frequency });
          scheduled = false;
          monitor = RateMonitor.configure a frequency c.monitor;
          name = name;
          key = "diagnostics." ++ name;
          reported = none;
        },
      )

  -- `read` is what a parameter's name reads once declared (10.0 where nothing sets it), the clock
  -- reads `now_rt` and `now`, and `on_initialize` is the plugin's own.
  unfoldable pub initialize :
      (String → Double) → ℤ → ℤ → String → Outcome (Unit {0}) → Exec MethodBase (Unit {0})
  unfolding initialize_cycle
  initialize read now_rt now plugin_name on_initialize m =
      let (r₁, rt) =
        initialize_cycle plugin_name ".rt_rate" (read (plugin_name ++ ".rt_freq")) now_rt
          (record m.rt_cycle { parameter = "rt_freq" }) in
      let m₁ = record m {
        plugin_name = plugin_name;
        rt_cycle = rt;
        cycle = record m.cycle { parameter = "freq" };
      } in
      bind_outcome (r₁, m₁)
        (λ _ m₂.
          let (r, c) =
            initialize_cycle plugin_name ".rate" (read (plugin_name ++ ".freq")) now m₂.cycle in
          bind_outcome (r, record m₂ { cycle = c }) (λ _ m₃. (on_initialize, m₃)))

  module _ (format : Format) (node_name : String) where
    unfoldable pub report_rt_rate : Option ℤ → Exec (MethodBase × NavState) (Unit {0})
    unfolding report
    report_rt_rate now (m, st) =
        let (c, (r, st')) = report format node_name now m.rt_cycle st in
        (r, (record m { rt_cycle = c }, st'))

    unfoldable pub report_rate : Option ℤ → Exec (MethodBase × NavState) (Unit {0})
    unfolding report
    report_rate now (m, st) =
        let (c, (r, st')) = report format node_name now m.cycle st in
        (r, (record m { cycle = c }, st'))

unfoldable pub reset_rate_monitors : MethodBase → MethodBase
unfolding RateMonitor.reset
reset_rate_monitors m = record m {
  rt_cycle = record rt { monitor = RateMonitor.reset rt.monitor };
  cycle = record c { monitor = RateMonitor.reset c.monitor };
}
  where
    rt : Cycle
    rt = m.rt_cycle

    c : Cycle
    c = m.cycle
