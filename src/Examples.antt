-- ===== src/Examples.antt =====
-- The theorems at concrete inputs, and runs of the definitions.
mod ToolTable
mod StagedEdits
mod Editing
mod SavedLayout
mod LiveStore
mod Displays
mod Arriving
mod Programs
mod Charts
mod Machines
