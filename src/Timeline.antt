-- ===== src/Timeline.antt =====
-- The status timeline: frontend/src/utils/statusTimelineUtils.ts.
pub mod Totals
pub mod Display
pub mod Oscilloscope
use shatter_nc.Prelude.{
  ℕ, ◌+◌, ◌-◌, ◌*◌, ◌/◌, ◌%◌, Bool, true, false, ◌&&◌, ◌||◌, Option, none, some, List, [], ◌∷◌,
  ◌++◌, map, if◌then◌else◌, ltb, leb, nat_beq, filter, max,
}
use shatter_nc.Prelude.Sort.{sort_by}
use shatter_nc.Prelude.Text.{Text, codes, text_beq, to_lower, trim, includes, show_nat, pad_start}

pub data MachineStatus : Type 0 where
  operating standby stopped error off : MachineStatus

pub data TimelineDisplayMode : Type 0 where
  oscilloscope pie : TimelineDisplayMode

pub data TimeRange : Type 0 where
  one_hour eight_hours one_day seven_days : TimeRange

abbrev pub status_levels : MachineStatus → ℕ
status_levels MachineStatus.operating = 4
status_levels MachineStatus.standby = 3
status_levels MachineStatus.stopped = 2
status_levels MachineStatus.error = 1
status_levels MachineStatus.off = 0

abbrev pub status_order : List MachineStatus
status_order =
    MachineStatus.operating ∷ MachineStatus.standby ∷ MachineStatus.stopped ∷ MachineStatus.error
    ∷ MachineStatus.off ∷ []

-- the string of a status
abbrev pub status_text : MachineStatus → Text
status_text MachineStatus.operating = codes "operating"
status_text MachineStatus.standby = codes "standby"
status_text MachineStatus.stopped = codes "stopped"
status_text MachineStatus.error = codes "error"
status_text MachineStatus.off = codes "off"

-- the label of a status on the chart
abbrev pub status_labels : MachineStatus → Text
status_labels MachineStatus.operating = codes "OPERATING"
status_labels MachineStatus.standby = codes "STANDBY"
status_labels MachineStatus.stopped = codes "STOPPED"
status_labels MachineStatus.error = codes "ERROR"
status_labels MachineStatus.off = codes "OFF"

-- `time` is what `new Date(time).getTime()` gives, and `none` where that is NaN.
pub record StatusHistoryEvent : Type 0 where
  pub time : Option ℕ
  pub status : Text

pub record TimeRangeBounds : Type 0 where
  pub start_time : ℕ
  pub end_time : ℕ
  pub total_ms : ℕ

-- `percent` is a numerator and a denominator.
pub record StatusDurationSlice : Type 0 where
  pub status : MachineStatus
  pub ms : ℕ
  pub percent : ℕ × ℕ

-- the words by which a status that is none of the five is told
keyword_status : Text → MachineStatus
keyword_status lower =
    if includes lower (codes "error")
      || text_beq lower (codes "occurred")
      || includes lower (codes "occurred")
    then MachineStatus.error
    else if includes lower (codes "alarm")
    then MachineStatus.error
    else if includes lower (codes "running") || includes lower (codes "operating")
    then MachineStatus.operating
    else if includes lower (codes "idle") || includes lower (codes "standby")
    then MachineStatus.standby
    else if includes lower (codes "stopped") || includes lower (codes "off")
    then MachineStatus.stopped
    else MachineStatus.standby

exact_status : Text → MachineStatus
exact_status lower =
    if text_beq lower (codes "operating")
    then MachineStatus.operating
    else if text_beq lower (codes "standby")
    then MachineStatus.standby
    else if text_beq lower (codes "stopped")
    then MachineStatus.stopped
    else if text_beq lower (codes "error")
    then MachineStatus.error
    else if text_beq lower (codes "off")
    then MachineStatus.off
    else keyword_status lower

unfoldable pub normalize_status : Option Text → Option Bool → MachineStatus
unfolding keyword_status exact_status
normalize_status status (some false) = MachineStatus.off
normalize_status none online = MachineStatus.standby
normalize_status (some []) online = MachineStatus.standby
normalize_status (some (c ∷ s)) online = exact_status (trim (to_lower (c ∷ s)))

-- `durations`, a number for each status
pub record Durations : Type 0 where
  pub operating : ℕ
  pub standby : ℕ
  pub stopped : ℕ
  pub error : ℕ
  pub off : ℕ

abbrev pub no_durations : Durations
no_durations = record { operating = 0; standby = 0; stopped = 0; error = 0; off = 0 }

unfoldable pub duration_of : Durations → MachineStatus → ℕ
duration_of d MachineStatus.operating = d.operating
duration_of d MachineStatus.standby = d.standby
duration_of d MachineStatus.stopped = d.stopped
duration_of d MachineStatus.error = d.error
duration_of d MachineStatus.off = d.off

unfoldable pub add_ms : MachineStatus → ℕ → Durations → Durations
add_ms MachineStatus.operating ms d =
    if ltb 0 ms then record d { operating = d.operating + ms } else d
add_ms MachineStatus.standby ms d = if ltb 0 ms then record d { standby = d.standby + ms } else d
add_ms MachineStatus.stopped ms d = if ltb 0 ms then record d { stopped = d.stopped + ms } else d
add_ms MachineStatus.error ms d = if ltb 0 ms then record d { error = d.error + ms } else d
add_ms MachineStatus.off ms d = if ltb 0 ms then record d { off = d.off + ms } else d

-- an event in the window, with its time
pub record Event : Type 0 where
  pub time : ℕ
  pub status : Text

-- `filter`: an event with an invalid time is in no window
unfoldable pub in_window : ℕ → ℕ → List StatusHistoryEvent → List Event
in_window start_ms end_ms [] = []
in_window start_ms end_ms (e ∷ es) =
    let rest = in_window start_ms end_ms es in
    elim e.time [
      | none ↦ rest
      | some t ↦
          if leb start_ms t && leb t end_ms
          then record { time = t; status = e.status } ∷ rest
          else rest
    ]

abbrev pub event_before : Event → Event → Bool
event_before a b = leb a.time b.time

unfoldable pub sorted_events : ℕ → ℕ → List StatusHistoryEvent → List Event
unfolding in_window
sorted_events start_ms end_ms events = sort_by event_before (in_window start_ms end_ms events)

-- the status at the start of the window
unfoldable pub initial_status : List Event → Option Text → Option Bool → MachineStatus
initial_status (e ∷ es) none online = normalize_status (some e.status) none
initial_status (e ∷ es) (some []) online = normalize_status (some e.status) none
initial_status sorted current online = normalize_status current online

-- the loop over the events: the durations so far, and where the running segment began
unfoldable pub segments : Durations → ℕ → MachineStatus → List Event → Durations × ℕ
segments d segment_start active [] = (d, segment_start)
segments d segment_start active (e ∷ es) =
    segments (if ltb segment_start e.time then add_ms active (e.time - segment_start) d else d)
      e.time (normalize_status (some e.status) none) es

-- the segment from the last event to the end
unfoldable pub last_segment : Option Text → Option Bool → ℕ → Durations × ℕ → Durations
last_segment none online end_ms (d, segment_start) = d
last_segment (some s) online end_ms (d, segment_start) =
    if ltb segment_start end_ms
    then add_ms (normalize_status (some s) online) (end_ms - segment_start) d
    else d

-- `hasLiveData`: whether the status or the connection is known
abbrev pub has_live_data : Option Text → Option Bool → Bool
has_live_data none none = false
has_live_data _ _ = true

unfoldable pub measure : List Event → TimeRangeBounds → Option Text → Option Bool → Durations
measure [] bounds current online =
    if has_live_data current online
    then add_ms (initial_status [] current online) bounds.total_ms no_durations
    else no_durations
measure (e ∷ es) bounds current online =
    last_segment current online bounds.end_time
      (segments no_durations bounds.start_time (initial_status (e ∷ es) current online) (e ∷ es))

abbrev pub slice_of : Durations → ℕ → MachineStatus → StatusDurationSlice
slice_of d total status = record {
  status = status;
  ms = duration_of d status;
  percent = (100 * duration_of d status, total);
}

unfoldable pub compute_status_durations :
    List StatusHistoryEvent → TimeRangeBounds → Option Text → Option Bool → List StatusDurationSlice
unfolding sorted_events measure
compute_status_durations events bounds current online =
    if nat_beq bounds.total_ms 0
    then map (λ (s : MachineStatus). record { status = s; ms = 0; percent = (0, 1) }) status_order
    else map
        (slice_of
          (measure (sorted_events bounds.start_time bounds.end_time events) bounds current online)
          bounds.total_ms)
        status_order

unfoldable pub toggle_timeline_display_mode : TimelineDisplayMode → TimelineDisplayMode
toggle_timeline_display_mode TimelineDisplayMode.pie = TimelineDisplayMode.oscilloscope
toggle_timeline_display_mode TimelineDisplayMode.oscilloscope = TimelineDisplayMode.pie

unfoldable pub format_duration : ℕ → Text
format_duration ms =
    let total_minutes = ms / 60_000 in
    let hours = total_minutes / 60 in
    let minutes = total_minutes % 60 in
    if ltb ms 60_000
    then codes "<1m"
    else if ltb 0 hours
    then show_nat hours ++ codes "h " ++ pad_start 2 (show_nat minutes) ++ codes "m"
    else show_nat minutes ++ codes "m"
