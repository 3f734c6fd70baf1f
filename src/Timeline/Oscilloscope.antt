-- ===== src/Timeline/Oscilloscope.antt =====
-- The trace of a machine's status: `normalizeStatus`, `buildOscilloscopeData` and the trace modes of
-- frontend/src/components/machine-detail/StatusTimeline.tsx.
pub mod Trace
use shatter_nc.Prelude.{
  ℕ, ◌-◌, ◌*◌, Bool, true, false, not, ◌&&◌, ◌||◌, Option, none, some, List, [], ◌∷◌, ◌++◌,
  if◌then◌else◌, leb,
}
use shatter_nc.Prelude.Sort.{sort_by}
use shatter_nc.Prelude.Text.{Text, codes, text_beq, to_lower, trim, includes}
use shatter_nc.Timeline.{MachineStatus, has_live_data}

pub data TraceMode : Type 0 where
  mono osc color color_osc : TraceMode

abbrev pub named_mode : Text → Option TraceMode
named_mode s =
    if text_beq s (codes "mono")
    then some TraceMode.mono
    else if text_beq s (codes "osc")
    then some TraceMode.osc
    else if text_beq s (codes "color")
    then some TraceMode.color
    else if text_beq s (codes "color_osc")
    then some TraceMode.color_osc
    else none

-- `localStorage.getItem(key) === 'true'`
abbrev pub is_set : Option Text → Bool
is_set none = false
is_set (some s) = text_beq s (codes "true")

-- the two older settings
abbrev pub migrated_mode : Bool → Bool → TraceMode
migrated_mode true true = TraceMode.color_osc
migrated_mode true false = TraceMode.color
migrated_mode false true = TraceMode.osc
migrated_mode false false = TraceMode.mono

abbrev pub osc_of : Option Text → Bool
osc_of none = true
osc_of (some s) = text_beq s (codes "true")

abbrev pub mode_or : Option TraceMode → TraceMode → TraceMode
mode_or none other = other
mode_or (some mode) other = mode

abbrev pub stored_name : Option Text → Option TraceMode
stored_name none = none
stored_name (some s) = named_mode s

-- the mode at first, from what the browser has stored
unfoldable pub stored_trace_mode : Option Text → Option Text → Option Text → TraceMode
stored_trace_mode stored color_raw osc_raw =
    mode_or (stored_name stored) (migrated_mode (is_set color_raw) (osc_of osc_raw))

unfoldable pub cycle_trace_mode : TraceMode → TraceMode
cycle_trace_mode TraceMode.mono = TraceMode.osc
cycle_trace_mode TraceMode.osc = TraceMode.color
cycle_trace_mode TraceMode.color = TraceMode.color_osc
cycle_trace_mode TraceMode.color_osc = TraceMode.mono

-- the levels of this chart
abbrev pub trace_levels : MachineStatus → ℕ
trace_levels MachineStatus.operating = 4
trace_levels MachineStatus.standby = 3
trace_levels MachineStatus.stopped = 2
trace_levels MachineStatus.error = 1
trace_levels MachineStatus.off = 0

-- the tests of this chart's own `normalizeStatus`, in their order
abbrev pub status_by : Text → MachineStatus
status_by lower =
    if text_beq lower (codes "operating")
    then MachineStatus.operating
    else if text_beq lower (codes "standby")
    then MachineStatus.standby
    else if text_beq lower (codes "stopped")
    then MachineStatus.stopped
    else if text_beq lower (codes "error")
    then MachineStatus.error
    else if text_beq lower (codes "off")
    then MachineStatus.off
    else if includes lower (codes "error")
        || text_beq lower (codes "occurred")
        || includes lower (codes "occurred")
    then MachineStatus.error
    else if includes lower (codes "alarm")
    then MachineStatus.error
    else if includes lower (codes "running") || includes lower (codes "operating")
    then MachineStatus.operating
    else if includes lower (codes "idle") || includes lower (codes "standby")
    then MachineStatus.standby
    else if includes lower (codes "stopped") || includes lower (codes "off")
    then MachineStatus.stopped
    else MachineStatus.standby

unfoldable pub normalize_status : Option Text → Option Bool → MachineStatus
normalize_status status (some false) = MachineStatus.off
normalize_status none online = MachineStatus.standby
normalize_status (some []) online = MachineStatus.standby
normalize_status (some (c ∷ s)) online = status_by (trim (to_lower (c ∷ s)))

-- `time` is what `new Date(time).getTime()` gives, and `none` where that is NaN.
pub record StatusEvent : Type 0 where
  pub time : Option ℕ
  pub status : Text
  pub error : Option Text
  pub is_heartbeat : Option Bool

-- `time`, from 0 to 100, is a numerator and a denominator.
pub record DataPoint : Type 0 where
  pub time : ℕ × ℕ
  pub level : ℕ
  pub status : MachineStatus
  pub error : Option Text
  pub is_heartbeat : Option Bool

-- the comparison is not positive, as it is with NaN
abbrev pub before_time : Option ℕ → Option ℕ → Bool
before_time (some a) (some b) = leb a b
before_time _ _ = true

abbrev pub status_event_before : StatusEvent → StatusEvent → Bool
status_event_before a b = before_time a.time b.time

abbrev pub point_at : ℕ × ℕ → MachineStatus → Option Text → Option Bool → DataPoint
point_at time status error is_heartbeat = record {
  time = time;
  level = trace_levels status;
  status = status;
  error = error;
  is_heartbeat = is_heartbeat;
}

-- the points of an event: one, if it is in the window
abbrev pub points_at : ℕ → ℕ → StatusEvent → Option ℕ → List DataPoint
points_at start_time end_time event none = []
points_at start_time end_time event (some t) =
    if leb start_time t && leb t end_time
    then point_at (100 * (t - start_time), end_time - start_time)
        (normalize_status (some event.status) none) event.error event.is_heartbeat
      ∷ []
    else []

-- the loop over the sorted events
unfoldable pub event_points : ℕ → ℕ → List StatusEvent → List DataPoint
event_points start_time end_time [] = []
event_points start_time end_time (event ∷ events) =
    points_at start_time end_time event event.time ++ event_points start_time end_time events

-- `!isOnline && currentError ? currentError : undefined`
abbrev pub error_now : Option Bool → Option Text → Option Text
error_now (some true) error = none
error_now online none = none
error_now online (some []) = none
error_now online (some (c ∷ s)) = some (c ∷ s)

-- the point at "now", if the status is known
abbrev pub now_points : Option Text → Option Bool → Option Text → List DataPoint
now_points none online error = []
now_points (some s) online error =
    point_at (100, 1) (normalize_status (some s) online) (error_now online error) none ∷ []

-- `currentStatus || 'standby'`
abbrev pub status_or_standby : Option Text → Text
status_or_standby none = codes "standby"
status_or_standby (some []) = codes "standby"
status_or_standby (some (c ∷ s)) = c ∷ s

-- the level line where there are no events
abbrev pub flat_points : Option Text → Option Bool → List DataPoint
flat_points current online =
    let status = normalize_status (some (status_or_standby current)) online in
    if has_live_data current online
    then point_at (0, 1) status none none ∷ point_at (100, 1) status none none ∷ []
    else []

-- The window is what the time range gives by the clock.
unfoldable pub build_oscilloscope_data :
    List StatusEvent → ℕ → ℕ → Option Text → Option Bool → Option Text → List DataPoint
unfolding event_points
build_oscilloscope_data [] start_time end_time current online error = flat_points current online
build_oscilloscope_data (e ∷ es) start_time end_time current online error =
    event_points start_time end_time (sort_by status_event_before (e ∷ es))
    ++ now_points current online error
