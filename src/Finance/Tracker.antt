-- ===== src/Finance/Tracker.antt =====
-- agent/finance/tracker.py: the class FinanceTracker. A method returns the new tracker, and its
-- result or the exception that it raises. `uuid.uuid4().hex[:12]` and the clock are arguments. The
-- coroutines are taken one after the other: a method runs to its end before the next starts. The
-- budget policy is always there, since its module is part of the repository. The proofs stand in
-- the modules from `Ops` on.
mod State
mod Stale
mod Propose
pub mod Ops
pub mod Consent
pub mod Lifecycle
pub mod Decisions
pub mod Spending
pub mod Staleness
pub mod Durability
unfoldable pub use State.*
unfoldable pub use Stale.*
unfoldable pub use Propose.*
