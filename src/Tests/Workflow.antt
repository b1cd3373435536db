-- ===== src/Tests/Workflow.antt =====
-- A request from its policy decision to its execution, and the theorems at these sessions.
use financial_ai_operator.Prelude.{
  ℕ, zero, suc, String, ◌≡◌, ◌≢◌, refl, ◌⊎◌, Bool, true, false, ◌&&◌, none, some, List, [], ◌∷◌,
  any, All, arith, string_eq,
}
use financial_ai_operator.Prelude.Outcome.{ok, err}
use financial_ai_operator.Table.Laws.{IsUnique}
use financial_ai_operator.Access.Model.{User, finance_manager}
use financial_ai_operator.Workflow.Model.{
  resolve_discrepancy, Investigation, PolicyEvaluation, ActionRequest, ActionRequestStatus,
  pending_approval, approved, ActionExecution, succeeded,
}
use financial_ai_operator.Workflow.Store.{Tables, Session, invalid_transition}
use financial_ai_operator.Workflow.Policy.{evaluate}
use financial_ai_operator.Workflow.Policy.Laws.{IsRuled, evaluate_twice}
use financial_ai_operator.Workflow.Notification.{notify_approvers}
use financial_ai_operator.Workflow.Notification.Recipients.{
  deliver, is_approver, notify_approvers_reaches,
}
use financial_ai_operator.Workflow.ActionRequest.{request_id_of}
use financial_ai_operator.Workflow.Audit.{approve, cancel, decide, target}
use financial_ai_operator.Workflow.Audit.Trail.{IsSound, decide-IsSound, decide_twice}
use financial_ai_operator.Workflow.Execution.{Adapter, execute_action_request}
use financial_ai_operator.Workflow.ActionRequest.{create_from_evaluation}
use financial_ai_operator.Workflow.ActionRequest.Creation.{alone, create_twice}
use financial_ai_operator.Prelude.{◌==◌}
use financial_ai_operator.Workflow.Simulator.{
  Texts, simulated_adapter, simulated_execution_finishes,
}
use financial_ai_operator.Workflow.Model.{unknown}
use financial_ai_operator.Workflow.Model.{approval_required}
use financial_ai_operator.Workflow.Execution.{guard, key_or_default}
use financial_ai_operator.Workflow.Execution.Outcome.{Finished, execute_finishes}
use financial_ai_operator.Workflow.Execution.Guard.{Called, execute_calls}

abbrev manager : User
manager = record {
  id = "m1";
  email = "m@example.org";
  is_active = true;
  credential_version = 1;
  must_change_password = false;
  roles = finance_manager ∷ [];
}

abbrev request : ActionRequest
request = record {
  id = "a1";
  investigation_id = "v1";
  discrepancy_id = none;
  policy_evaluation_id = "e1";
  action = "RESOLVE_DISCREPANCY";
  status = pending_approval;
  requested_source = none;
  approved_by = none;
  approved_at = none;
  rejection_reason = none;
}

abbrev investigation : Investigation
investigation = record { id = "v1"; discrepancy_id = none }

abbrev tables : ActionRequest → Tables
tables r = record {
  users = manager ∷ [];
  investigations = investigation ∷ [];
  evaluations = [];
  requests = r ∷ [];
  audits = [];
  executions = [];
  attempts = [];
  events = [];
  notifications = [];
}

abbrev session : ActionRequest → Session
session r = record { saved = tables r; current = tables r; drawn = 0; calls = [] }

abbrev approved_request : ActionRequest
approved_request = record request { status = approved }

abbrev adapter : Adapter
adapter = record {
  name = "simulator";
  execute = λ r key.
      ok (record {
        status = succeeded;
        result_data = none;
        error_code = none;
        error_message = none;
      });
}

abbrev uuid : ℕ → String
uuid zero = "x0"
uuid (suc n) = "x1"

abbrev nobody : ℕ → List ActionExecution
nobody n = []

requests-IsUnique : (r : ActionRequest) → IsUnique request_id_of (r ∷ [])
requests-IsUnique r k = ground arith

session-IsSound : IsSound (session request)
session-IsSound = record {
  committed = refl;
  unique = requests-IsUnique request;
  audited = λ k. ground arith;
}

execute_calls_example :
    let s' =
      (execute_action_request uuid 5 6 nobody adapter none "a1" none
        (session approved_request)).1 in
    (s'.calls ≡ []) ⊎ Called uuid 5 6 nobody adapter none (session approved_request) "a1" none s'
execute_calls_example =
    execute_calls uuid 5 6 nobody adapter none "a1" none (session approved_request)
      (requests-IsUnique approved_request)

execute_finishes_example :
    Finished "x0" succeeded
      (execute_action_request uuid 5 6 nobody adapter none "a1" none (session approved_request))
unfolding guard
execute_finishes_example =
    execute_finishes uuid 5 6 nobody adapter none "a1" none approved_request
      (session approved_request) refl refl refl refl refl

decide-IsSound_example : IsSound (decide "a1" (approve 5 (some "m1")) (session request)).1
decide-IsSound_example =
    decide-IsSound "a1" (approve 5 (some "m1")) (session request) session-IsSound

decide_twice_example :
    (status : ActionRequestStatus) × (status ≢ pending_approval)
    × (decide "a1" (cancel none none) (decide "a1" (approve 5 (some "m1")) (session request)).1 ≡ (
      err (invalid_transition status (target (cancel none none))),
      (decide "a1" (approve 5 (some "m1")) (session request)).1,
    ))
decide_twice_example =
    decide_twice "a1" (approve 5 (some "m1")) (session request) (cancel none none) request refl

evaluate_twice_example :
    (e : PolicyEvaluation) × (s' : Session) × (evaluate uuid 5 "v1" resolve_discrepancy
        (session request)
      ≡ (ok e, s'))
    × IsRuled e
    × All IsRuled s'.current.evaluations
    × (evaluate uuid 9 "v1" resolve_discrepancy s' ≡ (ok e, s'))
evaluate_twice_example =
    evaluate_twice uuid uuid 5 9 "v1" resolve_discrepancy investigation (session request) refl tt

notify_approvers_reaches_example :
    (told : List User) × (notify_approvers "ACTION_REQUEST_PENDING" "action_request" "a1"
        (session request)
      ≡ (ok tt, deliver "ACTION_REQUEST_PENDING" "action_request" "a1" told (session request)))
    × ((q : User → Bool) → any q told ≡ any (λ u. q u && is_approver u) (manager ∷ []))
notify_approvers_reaches_example =
    notify_approvers_reaches "ACTION_REQUEST_PENDING" "action_request" "a1" (session request)

abbrev evaluation : PolicyEvaluation
evaluation = record {
  id = "e9";
  investigation_id = "v1";
  discrepancy_id = none;
  action = resolve_discrepancy;
  decision = approval_required;
  rule_code = "POLICY_RESOLUTION_REQUIRES_APPROVAL";
  reason = "Financial resolutions require human approval.";
  approval_required = true;
  created_at = 1;
}

abbrev evaluated : Session
evaluated =
    let t : Tables = record (tables request) { evaluations = evaluation ∷ [] } in
    record (session request) { saved = t; current = t }

create_twice_example :
    (r : ActionRequest) × (s' : Session) × (create_from_evaluation uuid alone "e9" none evaluated
      ≡ (ok r, s'))
    × (r.policy_evaluation_id ≡ "e9")
    × (create_from_evaluation uuid alone "e9" none s' ≡ (ok r, s'))
create_twice_example = create_twice uuid none evaluation evaluated refl refl (λ k. ground arith)

abbrev texts : Texts
texts = record { contains = λ part text. part == text; cut = λ n t. t; result_json = λ t. t }

simulated_execution_finishes_example : Finished "x0" unknown (
    execute_action_request uuid 5 6 nobody
      (simulated_adapter texts)
      none
      "a1"
      (some "simulate_unknown")
      (session approved_request))
unfolding guard key_or_default
simulated_execution_finishes_example =
    simulated_execution_finishes texts uuid 5 6 nobody none "a1" (some "simulate_unknown")
      approved_request (session approved_request) refl refl refl refl refl
