-- ===== src/Tasks.antt =====
-- agent/tasks/manager.py: `Task` is its dataclass, `Manager` the class with its methods.
pub mod Task
pub mod Manager
