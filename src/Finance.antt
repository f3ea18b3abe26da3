-- ===== src/Finance.antt =====
-- agent/finance: the budget policy, the risk templates and the tracker of transactions.
pub mod Clock
pub mod Budget
pub mod Templates
pub mod Transaction
pub mod Check
pub mod Tracker
