-- ===== src/Approval.antt =====
-- agent/core/approval.py and agent/core/approval_storage.py: the approval queue. `Request` is its
-- dataclass, `Storage` the table behind it, `Queue` the class with the methods that change it,
-- `Query` the methods that report on it. The proofs stand in the children of `Queue`.
pub mod Request
pub mod Storage
pub mod Queue
pub mod Query
