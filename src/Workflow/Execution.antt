-- ===== src/Workflow/Execution.antt =====
-- services/action_execution/service.py and services/action_execution/simulator.py.
pub mod Guard
pub mod Outcome
use Prim.Native.String.{◌++◌ as ◌+++◌}
use financial_ai_operator.Prelude.{
  ℕ, zero, suc, String, Bool, true, false, Option, none, some, List, [], ◌∷◌, ◌++◌, ◌==◌, string_eq,
  if◌then◌else◌,
}
use financial_ai_operator.Prelude.Outcome.{
  Result, ok, err, Action, pure, raise, gets, lift, modify, ◌>>=◌, ◌>>◌,
}
use financial_ai_operator.Table.{scalar_one_or_none, rows}
use financial_ai_operator.Workflow.Model.{
  ActionRequestStatus, approved, action_request_status_eq, ActionRequest, ActionExecutionStatus,
  pending, running, succeeded, failed, unknown, ActionExecution, ActionExecutionAttempt,
  SecurityEvent,
}
use financial_ai_operator.Workflow.Store.{
  Tables, Session, Error, multiple_results_found, not_found, concurrent_modification,
  not_executable, already_executed, missing_greenlet, commit, rollback, write, draw, log_event,
}
use financial_ai_operator.Workflow.ActionRequest.{request_id_of}

-- `ExecutionResult`
pub record ExecutionResult : Type 0 where
  pub status : ActionExecutionStatus
  pub result_data : Option String
  pub error_code : Option String
  pub error_message : Option String

-- `ActionExecutionAdapter`: a call gives a result or raises an exception with its text.
pub record Adapter : Type 0 where
  pub name : String
  pub execute : ActionRequest → String → Result String ExecutionResult

-- `ex.status in (SUCCEEDED, RUNNING, UNKNOWN)`
unfoldable pub blocks : ActionExecutionStatus → Bool
blocks pending = false
blocks running = true
blocks succeeded = true
blocks failed = false
blocks unknown = true

-- What the guard's loop over the executions of the request comes to.
pub data Verdict : Type 0 where
  repeated : ActionExecution → Verdict
  blocked : ActionExecutionStatus → Verdict
  free : Verdict

unfoldable pub guard : String → List ActionExecution → Verdict
guard key [] = free
guard key (ex ∷ exs) =
    let rest = guard key exs in
    if ex.idempotency_key == key
    then repeated ex
    else (if blocks ex.status then blocked ex.status else rest)

-- `if not idempotency_key: idempotency_key = f"exec_{request_id}"`; an empty key is false.
unfoldable pub key_or_default : Option String → String → String
key_or_default none request_id = "exec_" +++ request_id
key_or_default (some key) request_id = if key == "" then "exec_" +++ request_id else key

abbrev pub execution_id_of : ActionExecution → String
execution_id_of ex = ex.id

abbrev pub key_of : ActionExecution → String
key_of ex = ex.idempotency_key

abbrev pub executed_request : ActionExecution → String
executed_request ex = ex.action_request_id

-- Assignments to the attributes of the execution and of the attempt with an identifier.
unfoldable pub assign_execution :
    String → (ActionExecution → ActionExecution) → List ActionExecution → List ActionExecution
assign_execution id f [] = []
assign_execution id f (ex ∷ exs) =
    let rest = assign_execution id f exs in if ex.id == id then f ex ∷ rest else ex ∷ rest

unfoldable pub assign_attempt :
    String
    → (ActionExecutionAttempt → ActionExecutionAttempt)
    → List ActionExecutionAttempt
    → List ActionExecutionAttempt
assign_attempt id f [] = []
assign_attempt id f (a ∷ rest_of) =
    let rest = assign_attempt id f rest_of in if a.id == id then f a ∷ rest else a ∷ rest

-- The execution that a request is claimed with, and the attempt that it starts.
unfoldable pub new_execution : String → String → String → String → ActionExecution
new_execution id request_id key adapter_name = record {
  id = id;
  action_request_id = request_id;
  idempotency_key = key;
  status = pending;
  execution_type = "simulation";
  adapter = adapter_name;
  started_at = none;
  completed_at = none;
  result = none;
  error_code = none;
  error_message = none;
}

unfoldable pub first_attempt : String → String → ActionExecutionAttempt
first_attempt id execution_id = record {
  id = id;
  action_execution_id = execution_id;
  attempt_number = 1;
  status = running;
  completed_at = none;
  result = none;
  error_code = none;
  error_message = none;
}

abbrev pub execution_event : String → Bool → Option String → String → SecurityEvent
execution_event event_type is_success actor execution_id = record {
  event_type = event_type;
  actor_id = actor;
  target_id = execution_id;
  is_success = is_success;
}

-- `started` and `completed` are the clock at the two assignments of its value; `arrived n` are the
-- executions that other sessions commit before the insertion (n = 0) and during the n-th wait.
module _ (uuid : ℕ → String) (started completed : ℕ) (arrived : ℕ → List ActionExecution)
    (adapter : Adapter) (actor_id : Option String) where
  unfoldable pub arrive : ℕ → Action Session Error (Unit {0})
  arrive n s = (
    ok tt,
    record s {
      saved = record s.saved { executions = s.saved.executions ++ arrived n };
      current = record s.current { executions = s.current.executions ++ arrived n };
    },
  )

  -- `_get_execution`
  unfoldable pub get_execution : String → Action Session Error (Option ActionExecution)
  get_execution id = do
    found ← gets (λ s. rows execution_id_of id s.current.executions)
    lift (scalar_one_or_none multiple_results_found found)

  -- The values that a result leaves in the execution and in the attempt.
  abbrev pub fill_execution : ExecutionResult → ActionExecution → ActionExecution
  fill_execution r ex = record ex {
    status = r.status;
    result = r.result_data;
    error_code = r.error_code;
    error_message = r.error_message;
    completed_at = some completed;
  }

  abbrev pub fill_attempt : ExecutionResult → ActionExecutionAttempt → ActionExecutionAttempt
  fill_attempt r a = record a {
    status = r.status;
    result = r.result_data;
    error_code = r.error_code;
    error_message = r.error_message;
    completed_at = some completed;
  }

  unfoldable pub log_result : ActionExecutionStatus → String → Action Session Error (Unit {0})
  log_result succeeded id =
      log_event (execution_event "ACTION_EXECUTION_SUCCEEDED" true actor_id id)
  log_result failed id = log_event (execution_event "ACTION_EXECUTION_FAILED" false actor_id id)
  log_result pending id = pure tt
  log_result running id = pure tt
  log_result unknown id = pure tt

  -- The result of the adapter, and the handler of its exceptions. `db.rollback` expires the instances
  -- of the session, so that `execution.id`, the argument of the handler's next call, raises itself.
  unfoldable pub handle_result :
      String
      → String
      → Result String ExecutionResult
      → Action Session Error (Option ActionExecution)
  unfolding assign_execution assign_attempt log_result get_execution
  handle_result execution_id attempt_id (ok r) = do
    write (λ t. record t {
      executions = assign_execution execution_id (fill_execution r) t.executions;
      attempts = assign_attempt attempt_id (fill_attempt r) t.attempts;
    })
    commit
    log_result r.status execution_id
    get_execution execution_id
  handle_result execution_id attempt_id (err text) = do rollback; raise missing_greenlet

  -- From the inserted row on: the session is the execution's sole owner.
  unfoldable pub run_claimed :
      ActionRequest → String → String → Action Session Error (Option ActionExecution)
  unfolding assign_execution handle_result first_attempt
  run_claimed request key execution_id = do
    write (λ t. record t {
      executions =
          assign_execution execution_id
            (λ ex. record ex { status = running; started_at = some started }) t.executions;
    })
    attempt_id ← draw uuid
    write (λ t. record t { attempts = t.attempts ++ first_attempt attempt_id execution_id ∷ [] })
    commit
    log_event (execution_event "ACTION_EXECUTION_STARTED" true actor_id execution_id)
    modify (λ s. record s { calls = s.calls ++ (request.id, key) ∷ [] })
    handle_result execution_id attempt_id (adapter.execute request key)

  -- The loop behind the rollback, with `tries` reads left.
  unfoldable pub retry_read : ℕ → ℕ → String → Action Session Error (Option ActionExecution)
  unfolding arrive
  retry_read zero n key = raise (concurrent_modification key)
  retry_read (suc tries) n key = do
    found ← gets (λ s. rows key_of key s.current.executions)
    existing ← lift (scalar_one_or_none multiple_results_found found)
    elim existing [ some ex ↦ pure (some ex) | none ↦ (do arrive n; retry_read tries (suc n) key) ]

  -- The insertion: the unique index on `idempotency_key` refuses a second row.
  unfoldable pub claim_or_read :
      ActionRequest
      → String
      → String
      → List ActionExecution
      → Action Session Error (Option ActionExecution)
  unfolding retry_read run_claimed new_execution
  claim_or_read request key execution_id (taken ∷ more) = do rollback; retry_read 3 1 key
  claim_or_read request key execution_id [] = do
    write (λ t. record t {
      executions = t.executions ++ new_execution execution_id request.id key adapter.name ∷ [];
    })
    commit
    run_claimed request key execution_id

  unfoldable pub claim : ActionRequest → String → Action Session Error (Option ActionExecution)
  unfolding arrive claim_or_read
  claim request key = do
    execution_id ← draw uuid
    arrive 0
    taken ← gets (λ s. rows key_of key s.current.executions)
    claim_or_read request key execution_id taken

  unfoldable pub obey :
      ActionRequest → String → Verdict → Action Session Error (Option ActionExecution)
  unfolding claim
  obey request key (repeated ex) = pure (some ex)
  obey request key (blocked status) = raise (already_executed status)
  obey request key free = claim request key

  unfoldable pub execute_found :
      String → Option String → Option ActionRequest → Action Session Error (Option ActionExecution)
  unfolding obey guard blocks key_or_default
  execute_found request_id idempotency_key none = raise (not_found request_id)
  execute_found request_id idempotency_key (some request) =
      let key = key_or_default idempotency_key request_id in
      if request.status == approved
      then (do
        existing ← gets (λ s. rows executed_request request_id s.current.executions)
        obey request key (guard key existing))
      else raise (not_executable request.status)

  -- `execute_action_request`
  unfoldable pub execute_action_request :
      String → Option String → Action Session Error (Option ActionExecution)
  unfolding execute_found
  execute_action_request request_id idempotency_key = do
    found ← gets (λ s. rows request_id_of request_id s.current.requests)
    request ← lift (scalar_one_or_none multiple_results_found found)
    execute_found request_id idempotency_key request
