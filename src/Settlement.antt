-- ===== src/Settlement.antt =====
-- agent/control/settlement.py and the settlement table of agent/control/storage.py: `Record` has the
-- two dataclasses, `Storage` the table, `Denial` reads a denial and a wallet answer, and `Service` is
-- the class PaymentSettlementService.
pub mod Record
pub mod Storage
pub mod Denial
pub mod Service
