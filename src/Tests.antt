-- ===== src/Tests.antt =====
-- Concrete runs: the theorems at inputs that meet their hypotheses, and the operations evaluated.
mod Reconciliation
mod Workflow
mod Access
mod Exceptions
mod Period
mod Ingestion
