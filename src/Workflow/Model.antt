-- ===== src/Workflow/Model.antt =====
-- database/models/policy.py, database/models/action_request.py,
-- database/models/action_execution.py and the columns of investigations, security events and
-- notifications that the services of this part write or read.
use financial_ai_operator.Prelude.{ℕ, String, Bool, Option, Eq, discrete_eq}

pub data PolicyAction : Type 0 where
  request_manual_review retry_investigation resolve_discrepancy reject_recommendation escalate :
      PolicyAction

pub data PolicyDecision : Type 0 where
  allowed denied approval_required : PolicyDecision

pub data ActionRequestStatus : Type 0 where
  pending_approval approved rejected cancelled : ActionRequestStatus

pub data ActionExecutionStatus : Type 0 where
  pending running succeeded failed unknown : ActionExecutionStatus

unfoldable pub PolicyAction-discrete : Discrete PolicyAction
PolicyAction-discrete = hlevel

instance abbrev pub policy_action_eq : Eq PolicyAction
unfolding PolicyAction-discrete
policy_action_eq = discrete_eq PolicyAction-discrete

unfoldable pub PolicyDecision-discrete : Discrete PolicyDecision
PolicyDecision-discrete = hlevel

instance abbrev pub policy_decision_eq : Eq PolicyDecision
unfolding PolicyDecision-discrete
policy_decision_eq = discrete_eq PolicyDecision-discrete

unfoldable pub ActionRequestStatus-discrete : Discrete ActionRequestStatus
ActionRequestStatus-discrete = hlevel

instance abbrev pub action_request_status_eq : Eq ActionRequestStatus
unfolding ActionRequestStatus-discrete
action_request_status_eq = discrete_eq ActionRequestStatus-discrete

-- `PolicyAction.value`
unfoldable pub action_value : PolicyAction → String
action_value request_manual_review = "REQUEST_MANUAL_REVIEW"
action_value retry_investigation = "RETRY_INVESTIGATION"
action_value resolve_discrepancy = "RESOLVE_DISCREPANCY"
action_value reject_recommendation = "REJECT_RECOMMENDATION"
action_value escalate = "ESCALATE"

pub record Investigation : Type 0 where
  pub id : String
  pub discrepancy_id : Option String

pub record PolicyEvaluation : Type 0 where
  pub id : String
  pub investigation_id : String
  pub discrepancy_id : Option String
  pub action : PolicyAction
  pub decision : PolicyDecision
  pub rule_code : String
  pub reason : String
  pub approval_required : Bool
  pub created_at : ℕ

pub record ActionRequest : Type 0 where
  pub id : String
  pub investigation_id : String
  pub discrepancy_id : Option String
  pub policy_evaluation_id : String
  pub action : String
  pub status : ActionRequestStatus
  pub requested_source : Option String
  pub approved_by : Option String
  pub approved_at : Option ℕ
  pub rejection_reason : Option String

pub record ActionRequestAudit : Type 0 where
  pub action_request_id : String
  pub previous_status : ActionRequestStatus
  pub new_status : ActionRequestStatus
  pub actor : Option String
  pub reason : Option String

pub record ActionExecution : Type 0 where
  pub id : String
  pub action_request_id : String
  pub idempotency_key : String
  pub status : ActionExecutionStatus
  pub execution_type : String
  pub adapter : String
  pub started_at : Option ℕ
  pub completed_at : Option ℕ
  pub result : Option String
  pub error_code : Option String
  pub error_message : Option String

pub record ActionExecutionAttempt : Type 0 where
  pub id : String
  pub action_execution_id : String
  pub attempt_number : ℕ
  pub status : ActionExecutionStatus
  pub completed_at : Option ℕ
  pub result : Option String
  pub error_code : Option String
  pub error_message : Option String

-- A security event, with the identifier that its metadata names.
pub record SecurityEvent : Type 0 where
  pub event_type : String
  pub actor_id : Option String
  pub target_id : String
  pub is_success : Bool

-- A notification without its title and message, which are for display, and unread.
pub record Notification : Type 0 where
  pub user_id : String
  pub ntype : String
  pub target_type : String
  pub target_id : String
