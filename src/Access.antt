-- ===== src/Access.antt =====
-- Who may call what: packages/rbac, apps/api/auth.py, services/auth and services/admin.
pub mod Model
pub mod Matrix
pub mod Accounts
pub mod Metadata
pub mod Authentication
pub mod Password
pub mod Admin
pub mod Sessions
