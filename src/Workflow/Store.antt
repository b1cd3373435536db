-- ===== src/Workflow/Store.antt =====
-- The database as one session sees it: `saved` is what is committed, `current` what the session
-- has written on top of it. `commit` saves, `rollback` gives up. The queries of these services
-- read no table to which an insertion waits, so that `current` may show insertions at once though
-- the session does not flush by itself (database/connection.py).
use financial_ai_operator.Prelude.{ℕ, ◌+◌, String, List, ◌++◌, ◌∷◌, []}
use financial_ai_operator.Prelude.Outcome.{Action, modify, ok}
use financial_ai_operator.Access.Model.{User}
use financial_ai_operator.Workflow.Model.{
  ActionRequestStatus, ActionExecutionStatus, PolicyDecision, Investigation, PolicyEvaluation,
  ActionRequest, ActionRequestAudit, ActionExecution, ActionExecutionAttempt, SecurityEvent,
  Notification,
}

pub record Tables : Type 0 where
  pub users : List User
  pub investigations : List Investigation
  pub evaluations : List PolicyEvaluation
  pub requests : List ActionRequest
  pub audits : List ActionRequestAudit
  pub executions : List ActionExecution
  pub attempts : List ActionExecutionAttempt
  pub events : List SecurityEvent
  pub notifications : List Notification

-- `drawn` counts the calls of `uuid.uuid4`; `calls` are the requests and the keys with which the
-- adapter was called.
pub record Session : Type 0 where
  pub saved : Tables
  pub current : Tables
  pub drawn : ℕ
  pub calls : List (String × String)

-- `ValueError`, `ExecutionError` and `MultipleResultsFound`, by what their messages say, and
-- `MissingGreenlet`, which SQLAlchemy raises when an attribute of an expired instance of an
-- `AsyncSession` is read.
pub data Error : Type 0 where
  multiple_results_found : Error
  not_found : String → Error
  approval_not_required : PolicyDecision → Error
  concurrent_modification : String → Error
  invalid_transition : ActionRequestStatus → ActionRequestStatus → Error
  not_executable : ActionRequestStatus → Error
  already_executed : ActionExecutionStatus → Error
  missing_greenlet : Error

-- `db.commit()` and `db.rollback()`
abbrev pub commit : Action Session Error (Unit {0})
commit = modify (λ s. record s { saved = s.current })

abbrev pub rollback : Action Session Error (Unit {0})
rollback = modify (λ s. record s { current = s.saved })

abbrev pub write : (Tables → Tables) → Action Session Error (Unit {0})
write f = modify (λ s. record s { current = f s.current })

abbrev pub draw : (ℕ → String) → Action Session Error String
draw uuid s = (ok (uuid s.drawn), record s { drawn = s.drawn + 1 })

-- `_log_event`
abbrev pub log_event : SecurityEvent → Action Session Error (Unit {0})
log_event e = write (λ t. record t { events = t.events ++ e ∷ [] })
