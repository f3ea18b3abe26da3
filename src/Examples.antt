-- ===== src/Examples.antt =====
-- Concrete runs of the program's parts, at which the theorems apply.
mod Data
mod Approvals
mod Finances
mod TaskRuns
mod JobRuns
mod WatchdogRuns
mod ProjectRuns
mod ToolRuns
mod WorkspaceRuns
mod SettlementRuns
mod RouterRuns
