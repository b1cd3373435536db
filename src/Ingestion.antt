-- ===== src/Ingestion.antt =====
-- services/ingestion: source rows are validated, materialized and accounted for in runs.
pub mod Model
pub mod Fields
pub mod Validation
pub mod Store
pub mod References
pub mod Materialize
pub mod Outcomes
pub mod Batch
pub mod Keeping
pub mod Inserting
pub mod Sound
pub mod Invariant
pub mod Accounts
pub mod Counters
pub mod Recorded
pub mod Resubmission
pub mod Rows
pub mod Normal
pub mod Guarantees
pub mod Wellformed
