-- ===== src/Reconciliation.antt =====
-- The reconciliation engine: services/reconciliation/engine.py and services/reconciliation/matchers.
pub mod Model
pub mod Session
pub mod PaymentSettlement
pub mod SettlementBank
pub mod Engine
pub mod Plan
pub mod Ledger
pub mod Run
pub mod Guarantees
pub mod Rerun
pub mod Coverage
pub mod Rules
