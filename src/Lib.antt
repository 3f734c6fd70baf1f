-- ===== src/Lib.antt =====
-- The client of Shatter-NC, a monitor of CNC machines and compressors: a model of the logic of
-- frontend/src that decides what is shown and what is sent, and its theorems.
--
-- The parts, and how they interact
-- The client keeps the status of every machine and compressor in a store that WebSocket messages
-- change (frontend/src/hooks/useWebSocket.ts). A machine's page arranges panes by a saved layout
-- that is merged with a default grid (frontend/src/utils/layoutUtils.ts,
-- frontend/src/types/layout.ts). The tool pane shows the tool table: a view by tool is built from
-- the tool table and the ATC listing (frontend/src/utils/unifiedToolView.ts), edits are staged as
-- pending changes and merged into what the server sent, a batch of them is sent, and its answer
-- is reconciled with the cached view (frontend/src/components/machine-detail/ToolsPane.tsx). Its
-- columns take their widths from frontend/src/hooks/useToolsTableColumnWidths.ts. The status
-- timeline adds up how long a machine was in which status
-- (frontend/src/utils/statusTimelineUtils.ts), lights tell how fresh a pane's data is
-- (frontend/src/components/ui/pollingFreshness.ts), and overrides are drawn as sliders of
-- segments (frontend/src/utils/panelOverrideAsciiSlider.ts). A compressor's card and charts read
-- the same untyped telemetry (frontend/src/utils/compressorTelemetry.ts,
-- frontend/src/utils/compressorCardSummary.ts); a chart asks for samples again and again
-- (frontend/src/utils/compressorChartSamples.ts), thins them out and draws them
-- (frontend/src/components/machine-detail/CompressorTelemetrySeriesPane.tsx) on a time axis
-- (frontend/src/utils/chartTimeAxis.ts). The program pane shows the deployment of the program
-- that a machine runs, from a cache or from the server, and links to the file browser
-- (frontend/src/components/machine-detail/CurrentProgramPane.tsx,
-- frontend/src/pages/FileBrowser.tsx). A machine's card edits its settings in a session, and its
-- panes show the trace of its status and its alarms.
--
-- Which file models which part
-- Tools.antt: the data of frontend/src/utils/unifiedToolView.ts and
--   frontend/src/components/machine-detail/ToolsPane.tsx.
-- Tools/UnifiedView.antt: `buildUnifiedToolViewFromLegacy`, its loops as folds over a record of
--   the variables that they share.
-- Tools/Pots.antt, Tools/Fields.antt: the helpers on pots (`parsePotNumber`, `potsEqual`, ...)
--   and on the fields of a tool (`applyFieldToTool`, `applyAssignmentEdge`, ...) of
--   frontend/src/components/machine-detail/ToolsPane.tsx.
-- Tools/Pending.antt: staged changes; `pendingChanges` is an association list by key.
--   `mergeServerToolWithPending`, `mergePendingOntoUnifiedCache`, `serverConfirmsPendingChange`.
-- Tools/Occupancy.antt: `buildPotOccupancyMap`, `getPotOccupantTool` and their helpers.
-- Tools/Batch.antt: `pendingToBatchItem`, `getConfirmedValueFromResult`,
--   `applyConfirmedToolChange`.
-- Tools/Reconcile.antt: `reconcileUnifiedCacheAfterBatch`, one function for each branch of its
--   loop.
-- Tools/Staging.antt: `stagePendingChange` and `handleDiscardChanges` on the pending changes and
--   the cached view. Tools/Handlers.antt: the edit handlers, from `handleColorChange` to
--   `handleNameChange`, on these and the field warnings. Tools/Push.antt: `handlePushChanges`,
--   cut into the parts between its requests, so that edits may come in between.
-- Tools/Incoming.antt: the effect on a view that arrives from the server. Tools/Order.antt,
--   Tools/Display.antt: the keys that rows are sorted by, and `filteredAndSortedTools`,
--   `filteredAndSortedEmptyPockets`, `handleSort`.
-- Layout.antt, Layout/Defaults.antt: frontend/src/utils/layoutUtils.ts and the grids of
--   frontend/src/types/layout.ts.
-- Live.antt: `onmessage` and the four functions that `useWebSocket` returns.
--   Live/Connection.antt: the socket: the three refs, the sockets that have not closed, the
--   timers that have not fired. The browser's next event is a step of the relation of
--   Live/Connection/Alive.antt, so every interleaving of events is a sequence of steps.
-- Telemetry.antt: frontend/src/utils/compressorTelemetry.ts and
--   frontend/src/utils/compressorCardSummary.ts, on the JSON values of Prelude/Json.antt.
-- Charts.antt, Charts/Bins.antt, Charts/Segments.antt: the points of a series, how they are
--   thinned out, the time windows and the pieces of a line. Charts/Fetch.antt:
--   `fetchCompressorStatusSamples`; what the network and the abort signal do in each attempt is a
--   parameter. Charts/Fetch/Polling.antt: the pane's effect, on a sequence of events.
-- Charts/Axis.antt: frontend/src/utils/chartTimeAxis.ts; `LocalTime` stands for the local time of
--   `Date`: the parts of an instant and what `setHours` gives, on any day; a condition on a day
--   is one of the theorem.
-- Programs.antt, Programs/Fetch.antt: the cache, the effect and the refresh of the program pane;
--   the refs and the state are one record, and the answers of the server are a parameter.
-- Paths.antt: the paths and links of the program pane, and the navigation of the file browser.
-- Files.antt: the listing of a machine's files; the comparison of names in the browser's language
--   is a parameter.
-- Machines.antt, Machines/Editing.antt: the status lines, the alarms by level, and the session in
--   which a machine's settings are edited (frontend/src/components/MachineCard.tsx); the server's
--   answers and the timer are operations.
-- Compressors.antt: the session in which a compressor's settings are edited
--   (frontend/src/components/CompressorCard.tsx).
-- BetaMode.antt: the clicks that switch the beta mode (frontend/src/hooks/useBetaMode.ts).
-- Dashboard.antt: which asset is edited and expanded (frontend/src/pages/Dashboard.tsx), as steps
--   of the relation of Dashboard/Exclusive.antt; the end of a session takes the state that its
--   function has seen, as a timer calls it late.
-- Timeline/Oscilloscope.antt: the trace of a status
--   (frontend/src/components/machine-detail/StatusTimeline.tsx).
-- Tools/Shown.antt: the warning, the age and the row states that the tool pane shows.
-- Timeline.antt: frontend/src/utils/statusTimelineUtils.ts. Widths.antt, Sliders.antt,
--   Freshness.antt: the files named in their first lines. Prelude.antt and its children: lists,
--   association lists, numbers, text and a stable sort. The theorems stand in the children of
--   each part, and Examples.antt applies them at concrete inputs.
--
-- How the program's values are modelled
-- A number is NaN or an integer of millionths (`Num` of Prelude/Numbers.antt): the tool data are
-- decimals of at most six places, which is also the tolerance of `valuesEqual`. Infinity and the
-- rounding of floating-point arithmetic are not modelled. Times, widths and override values are
-- natural numbers. `undefined` and a JSON `null` are one `none`, except where the code tells them
-- apart: in Freshness.antt, in the results of a batch (`nulls` of Tools/Batch.antt says how the
-- fields without a value were sent) and in the search of the tool table (`Nulls` of
-- Tools/Display.antt, an argument, says which fields of a tool are null). A string is a list of
-- character codes; upper and lower case, and what `trim` takes off, are those of ASCII. A date
-- string is given with the time that `Date` reads from it, or none. A fraction that is only
-- compared is compared multiplied out. `Map` keeps the order in which keys were first written,
-- and `sort` is a stable insertion sort. Most loops are structural recursion. Three take fuel:
-- the decimal printer one more round than its number, which is more than its digits; the loop
-- over time windows a round for each sample, of which it takes one at least; and the loops over
-- the grid of a time axis as many rounds as the span has steps, and one. Retries are counted down
-- from the number of attempts. An instant of a chart is a number of milliseconds from 1970 on,
-- the position of a tick a quotient, and the mean of a time window a sum and a count. The answers
-- to the requests of the program pane arrive before its effect runs again; an answer that throws
-- when it is read as JSON counts as a request that fails.
--
-- What is not modelled
-- The React components themselves: rendering, the requests to the server, of which
-- Tools/Push.antt takes the answers, and what a browser measures, which is a parameter of
-- Widths.antt. `getTimeRangeBounds`, which reads the clock, and the storage of the display mode.
-- The fields of a machine's status are opaque to the store, as they are in the code. Of the
-- charts, the smoothing of the line and the paths that are drawn, which compute with fractions,
-- and the window from which the clock counts back. The colors of a status trace, the connection
-- test of a machine, the demo mode, and the backend in Python.
pub mod Prelude
pub mod Tools
pub mod Layout
pub mod Live
pub mod Timeline
pub mod Widths
pub mod Telemetry
pub mod Charts
pub mod Programs
pub mod Paths
pub mod Files
pub mod Machines
pub mod Dashboard
pub mod Compressors
pub mod BetaMode
pub mod Sliders
pub mod Freshness
pub mod Examples
