-- ===== src/Period.antt =====
-- services/period.py: the readiness controls of an accounting period and its closing.
pub mod Model
pub mod Metrics
pub mod Readiness
pub mod Store
pub mod Closing
pub mod Controls
pub mod Closed
pub mod Verdict
