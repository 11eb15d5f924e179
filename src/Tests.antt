-- ===== src/Tests.antt =====
-- Concrete inputs at which the theorems apply.
mod Selections
mod Smoke
mod Comparisons
mod Investigations
mod Drifts
mod Fixtures
mod Campaigns
mod Sessions
mod Runs
mod Services
mod HttpRuns
mod Summaries
mod Traces
mod Matrices
mod Documents
mod RunTables
