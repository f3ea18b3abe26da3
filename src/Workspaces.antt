-- ===== src/Workspaces.antt =====
-- agent/work/workspace.py: `Record` has the dataclass Workspace, `Tables` its two SQLite tables;
-- `Manager`, `Cleanup` and `Queries` are the class WorkspaceManager.
pub mod Record
pub mod Tables
pub mod Manager
pub mod Cleanup
pub mod Queries
pub mod Runs
pub mod Induction
pub mod Mirror
pub mod Restart
pub mod Recovery
pub mod Chain
pub mod Limits
