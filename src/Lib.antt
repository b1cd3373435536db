-- ===== src/Lib.antt =====
-- A model of the backend of the financial AI operator: the reconciliation of payments,
-- settlements and bank transactions, the workflow from a policy decision over an approved request
-- to its execution, and the access control in front of both.
--
-- Prelude holds the shared names and tests, the lists, the integers (Prelude/Int) and calls that
-- may raise over a state (Prelude/Outcome). Table models database tables as the services query
-- them: lists of rows in the order of insertion, `scalar_one_or_none`, unique keys.
--
-- Reconciliation: services/reconciliation/engine.py (Engine), matchers/payment_settlement.py
-- (PaymentSettlement) and matchers/settlement_bank.py (SettlementBank), over a session (Session)
-- in which an insertion waits for a flush, since database/connection.py sets `autoflush=False`.
-- The insertions that a run asks for are the steps of Plan.antt, Ledger is the abstract table of
-- relationships and discrepancies in which each is noted once. Run, Guarantees, Rerun, Coverage and Rules relate them.
-- Amounts are integers in units of 10⁻⁴ and instants are microseconds, so that the arithmetic is
-- exact as it is on `Decimal` and `datetime`. Loops run over the lists of rows and use no fuel.
--
-- Access: packages/rbac (Model, Matrix), apps/api/auth.py and apps/api/authorization.py with
-- services/auth/token_revocation.py (Authentication, Sessions, Sessions/Admission),
-- services/auth/password_management.py (Password), services/admin/user_management.py (Admin,
-- Admin/LastAdmin) and sanitize_metadata of services/auth/security_events.py (Metadata, Metadata/Paths). The decoding of
-- tokens, the hashing of passwords, the password policy, the random generator and what the
-- interpreter does with a text or a value of the metadata are parameters. `allow_must_change_password`
-- is a parameter of the request's query wherever FastAPI resolves get_current_user, so it is an
-- argument of require_permission. The user that change_own_password is given was loaded before the
-- lock and may be older than the row.
--
-- Workflow: services/policy/engine.py (Policy), services/action_request (ActionRequest, Audit),
-- services/action_execution (Execution) and services/notifications/service.py (Notification), over
-- tables of which a session sees what is saved and what it has written itself (Store). Rows that
-- other sessions commit in between arrive at the places where the code waits or inserts; the
-- adapter is a record of operations, of which Simulator is one; three reads behind a refused
-- insertion are three as in the code. A rollback expires the instances that a session has loaded, so
-- the handler of the adapter's exceptions raises at its first read of one, and what stands behind
-- that read is not modelled (Execution, `handle_result`).
--
-- Period: services/period.py. Metrics and Readiness are the queries, Closing what is written, on a
-- session of its own (Store); a period that the caller loaded may be older than the row. Controls,
-- Closed and Verdict prove what a closing asks for and leaves.
--
-- Ingestion: services/ingestion/validation.py (Fields, Validation, Rows), base.py and materialize.py
-- (References, Materialize) and batch.py (Outcomes, Batch), over the tables of Store. The
-- interpreter's functions on texts, decimals and dates and the hash are the record Runtime. Sessions
-- run one after another, so a unique constraint refuses what the tables hold already. Normal,
-- Guarantees and Wellformed are about valid rows, Keeping, Inserting, Sound and Invariant about the
-- domain rules, Accounts and Counters about the counters of a run, Recorded and Resubmission about
-- a batch that is submitted again.
--
-- Exceptions: the overall state that services/exceptions.py derives in Python and in SQL.
--
-- Tests evaluates the theorems at concrete sessions.
--
-- Not modelled: multi-factor authentication, the investigation agent, reports, HTTP routes, the web frontend, migrations and configuration.
pub mod Prelude
pub mod Table
pub mod Reconciliation
pub mod Access
pub mod Workflow
pub mod Exceptions
pub mod Period
pub mod Ingestion
pub mod Tests
