-- ===== src/Workflow/ActionRequest.antt =====
-- services/action_request/state_machine.py and services/action_request/service.py
pub mod Creation
use financial_ai_operator.Prelude.{
  ℕ, zero, suc, String, Bool, true, Option, none, some, List, [], ◌∷◌, ◌++◌, any, ◌==◌, string_eq,
  if◌then◌else◌,
}
use financial_ai_operator.Prelude.Outcome.{Action, ok, pure, raise, gets, lift, ◌>>=◌, ◌>>◌}
use financial_ai_operator.Table.{scalar_one_or_none, rows}
use financial_ai_operator.Workflow.Model.{
  approval_required, policy_decision_eq, PolicyEvaluation, ActionRequestStatus, pending_approval,
  approved, rejected, cancelled, ActionRequest, ActionRequestAudit, SecurityEvent, action_value,
  action_request_status_eq,
}
use financial_ai_operator.Workflow.Store.{
  Session, Error, multiple_results_found, not_found, approval_not_required, concurrent_modification,
  invalid_transition, commit, rollback, write, draw, log_event,
}
use financial_ai_operator.Workflow.Notification.{notify_approvers}

-- `_valid_transitions`
unfoldable pub valid_transitions : ActionRequestStatus → List ActionRequestStatus
valid_transitions pending_approval = approved ∷ rejected ∷ cancelled ∷ []
valid_transitions approved = []
valid_transitions rejected = []
valid_transitions cancelled = []

unfoldable pub can_transition : ActionRequestStatus → ActionRequestStatus → Bool
unfolding valid_transitions
can_transition current_state next_state =
    any (λ x. x == next_state) (valid_transitions current_state)

unfoldable pub validate_transition :
    ActionRequestStatus → ActionRequestStatus → Action Session Error (Unit {0})
unfolding can_transition
validate_transition current_state next_state =
    if can_transition current_state next_state
    then pure tt
    else raise (invalid_transition current_state next_state)

abbrev pub request_id_of : ActionRequest → String
request_id_of r = r.id

unfoldable pub found_or_raise : String → Option ActionRequest → Action Session Error ActionRequest
found_or_raise request_id none = raise (not_found request_id)
found_or_raise request_id (some request) = pure request

-- `get_request`
unfoldable pub get_request : String → Action Session Error ActionRequest
unfolding found_or_raise
get_request request_id = do
  found ← gets (λ s. rows request_id_of request_id s.current.requests)
  request ← lift (scalar_one_or_none multiple_results_found found)
  found_or_raise request_id request

-- An assignment to the attributes of the object with the given identifier.
unfoldable pub assign :
    String → (ActionRequest → ActionRequest) → List ActionRequest → List ActionRequest
assign id f [] = []
assign id f (r ∷ rs) = let rest = assign id f rs in if r.id == id then f r ∷ rest else r ∷ rest

abbrev pub set_status : ActionRequestStatus → ActionRequest → ActionRequest
set_status status r = record r { status = status }

-- `_transition_state`, from the request that it found
unfoldable pub move_request :
    ActionRequestStatus
    → Option String
    → Option String
    → ActionRequest
    → Action Session Error ActionRequest
unfolding validate_transition assign
move_request new_status actor reason request = do
  validate_transition request.status new_status
  let audit : ActionRequestAudit = record {
    action_request_id = request.id;
    previous_status = request.status;
    new_status = new_status;
    actor = actor;
    reason = reason;
  }
  write (λ t. record t {
    requests = assign request.id (set_status new_status) t.requests;
    audits = t.audits ++ audit ∷ [];
  })
  commit
  pure (set_status new_status request)

unfoldable pub transition_state :
    String
    → ActionRequestStatus
    → Option String
    → Option String
    → Action Session Error ActionRequest
unfolding get_request move_request
transition_state request_id new_status actor reason = do
  request ← get_request request_id
  move_request new_status actor reason request

abbrev pub request_event : String → Option String → String → SecurityEvent
request_event event_type actor request_id = record {
  event_type = event_type;
  actor_id = actor;
  target_id = request_id;
  is_success = true;
}

-- What the three decisions do after the transition: the attributes they set, the event, the
-- notifications and the commits between them.
unfoldable pub announce :
    (ActionRequest → ActionRequest)
    → String
    → String
    → Option String
    → ActionRequest
    → Action Session Error ActionRequest
unfolding assign notify_approvers
announce set event_type ntype actor request = do
  write (λ t. record t { requests = assign request.id set t.requests })
  commit
  log_event (request_event event_type actor request.id)
  notify_approvers ntype "action_request" request.id
  commit
  pure (set request)

unfoldable pub approve_action_request :
    ℕ → String → Option String → Action Session Error ActionRequest
unfolding transition_state announce
approve_action_request now request_id actor = do
  request ← transition_state request_id approved actor none
  announce (λ r. record r { approved_by = actor; approved_at = some now }) "ACTION_REQUEST_APPROVED"
      "ACTION_REQUEST_APPROVED" actor request

unfoldable pub reject_action_request :
    String → Option String → Option String → Action Session Error ActionRequest
unfolding transition_state announce
reject_action_request request_id reason actor = do
  request ← transition_state request_id rejected actor reason
  announce (λ r. record r { rejection_reason = reason }) "ACTION_REQUEST_REJECTED"
      "ACTION_REQUEST_REJECTED" actor request

unfoldable pub cancel_action_request :
    String → Option String → Option String → Action Session Error ActionRequest
unfolding transition_state announce
cancel_action_request request_id reason actor = do
  request ← transition_state request_id cancelled actor reason
  announce (λ r. r) "ACTION_REQUEST_CANCELLED" "ACTION_REQUEST_CANCELLED" actor request

-- The request that a policy evaluation asks for.
unfoldable pub new_request : String → Option String → PolicyEvaluation → ActionRequest
new_request id requested_source evaluation = record {
  id = id;
  investigation_id = evaluation.investigation_id;
  discrepancy_id = evaluation.discrepancy_id;
  policy_evaluation_id = evaluation.id;
  action = action_value evaluation.action;
  status = pending_approval;
  requested_source = requested_source;
  approved_by = none;
  approved_at = none;
  rejection_reason = none;
}

-- `arrived n` are the requests that other sessions commit before this one's insertion (n = 0) and
-- during its n-th wait.
module _ (uuid : ℕ → String) (arrived : ℕ → List ActionRequest) where
  abbrev pub evaluation_of : ActionRequest → String
  evaluation_of r = r.policy_evaluation_id

  unfoldable pub arrive : ℕ → Action Session Error (Unit {0})
  arrive n s = (
    ok tt,
    record s {
      saved = record s.saved { requests = s.saved.requests ++ arrived n };
      current = record s.current { requests = s.current.requests ++ arrived n };
    },
  )

  -- The loop behind the rollback, with `tries` reads left.
  unfoldable pub retry_read : ℕ → ℕ → String → Action Session Error ActionRequest
  unfolding arrive
  retry_read zero n evaluation_id = raise (concurrent_modification evaluation_id)
  retry_read (suc tries) n evaluation_id = do
    found ← gets (λ s. rows evaluation_of evaluation_id s.current.requests)
    existing ← lift (scalar_one_or_none multiple_results_found found)
    elim existing [
      | some request ↦ pure request
      | none ↦ (do arrive n; retry_read tries (suc n) evaluation_id)
    ]

  -- The insertion: the unique index on `policy_evaluation_id` refuses a row where another one is taken.
  unfoldable pub insert_or_read :
      Option String → PolicyEvaluation → List ActionRequest → Action Session Error ActionRequest
  unfolding retry_read notify_approvers
  insert_or_read requested_source evaluation (taken ∷ more) = do
    rollback
    retry_read 3 1 evaluation.id
  insert_or_read requested_source evaluation [] = do
    id ← draw uuid
    let request = new_request id requested_source evaluation
    write (λ t. record t { requests = t.requests ++ request ∷ [] })
    commit
    log_event (request_event "ACTION_REQUEST_CREATED" none request.id)
    notify_approvers "ACTION_REQUEST_PENDING" "action_request" request.id
    commit
    pure request

  unfoldable pub insert_request :
      Option String → PolicyEvaluation → Action Session Error ActionRequest
  unfolding arrive insert_or_read
  insert_request requested_source evaluation = do
    arrive 0
    taken ← gets (λ s. rows evaluation_of evaluation.id s.current.requests)
    insert_or_read requested_source evaluation taken

  unfoldable pub reuse_or_insert :
      Option String → PolicyEvaluation → Option ActionRequest → Action Session Error ActionRequest
  unfolding insert_request
  reuse_or_insert requested_source evaluation (some existing) = pure existing
  reuse_or_insert requested_source evaluation none = insert_request requested_source evaluation

  unfoldable pub create_found :
      String → Option String → Option PolicyEvaluation → Action Session Error ActionRequest
  unfolding reuse_or_insert
  create_found evaluation_id requested_source none = raise (not_found evaluation_id)
  create_found evaluation_id requested_source (some evaluation) =
      if evaluation.decision == approval_required
      then (do
        found ← gets (λ s. rows evaluation_of evaluation_id s.current.requests)
        existing ← lift (scalar_one_or_none multiple_results_found found)
        reuse_or_insert requested_source evaluation existing)
      else raise (approval_not_required evaluation.decision)

  -- `create_from_evaluation`
  unfoldable pub create_from_evaluation :
      String → Option String → Action Session Error ActionRequest
  unfolding create_found
  create_from_evaluation evaluation_id requested_source = do
    found ← gets (λ s. rows (λ (e : PolicyEvaluation). e.id) evaluation_id s.current.evaluations)
    evaluation ← lift (scalar_one_or_none multiple_results_found found)
    create_found evaluation_id requested_source evaluation
