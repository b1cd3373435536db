-- ===== src/Workflow/Simulator.antt =====
-- services/action_execution/simulator.py: the adapter that simulates, and what an execution with it
-- ends with.
use financial_ai_operator.Prelude.{
  ℕ, String, ◌≡◌, ◌++◌, [], ◌∷◌, refl, Bool-cases, inl, inr, Bool, Option, none, some, List,
  string_eq, if◌then◌else◌,
}
use Prim.Native.String.{◌++◌ as ◌+++◌}
use mathlib.Core.Path.{subst}
use financial_ai_operator.Prelude.Outcome.{ok}
use financial_ai_operator.Table.{rows}
use financial_ai_operator.Workflow.Model.{
  ActionRequest, ActionExecution, ActionExecutionStatus, approved, succeeded, failed, unknown,
}
use financial_ai_operator.Workflow.Store.{Session}
use financial_ai_operator.Workflow.ActionRequest.{request_id_of}
use financial_ai_operator.Workflow.Execution.{
  ExecutionResult, Adapter, guard, free, key_of, execution_id_of, executed_request, key_or_default,
  execute_action_request,
}
use financial_ai_operator.Workflow.Execution.Outcome.{Finished, execute_finishes}

-- `part in text`, `text[:n]`, and the JSON text of the result by its execution identifier.
pub record Texts : Type 0 where
  pub contains : String → String → Bool
  pub cut : ℕ → String → String
  pub result_json : String → String

unfoldable pub failure : ExecutionResult
failure = record {
  status = failed;
  result_data = none;
  error_code = some "SIMULATED_FAILURE";
  error_message = some "This failure was intentionally simulated via idempotency_key.";
}

unfoldable pub timeout : ExecutionResult
timeout = record {
  status = unknown;
  result_data = none;
  error_code = some "SIMULATED_TIMEOUT";
  error_message = some "This unknown state was intentionally simulated via idempotency_key.";
}

module _ (py : Texts) where
  unfoldable pub success : String → ExecutionResult
  success key = record {
    status = succeeded;
    result_data = some (py.result_json ("sim_" +++ py.cut 8 key));
    error_code = none;
    error_message = none;
  }

  unfoldable pub simulate : String → ExecutionResult
  unfolding failure timeout success
  simulate key =
      if py.contains "simulate_fail" key
      then failure
      else (if py.contains "simulate_unknown" key then timeout else success key)

  unfoldable pub simulated_adapter : Adapter
  unfolding simulate
  simulated_adapter = record { name = "simulator"; execute = λ request key. ok (simulate key) }

  -- The status that the key asks for.
  abbrev pub asked : String → ActionExecutionStatus
  asked key =
      if py.contains "simulate_fail" key
      then failed
      else (if py.contains "simulate_unknown" key then unknown else succeeded)

  simulated_status : (key : String) → (simulate key).status ≡ asked key
  unfolding simulate failure timeout success
  simulated_status key = elim (Bool-cases (py.contains "simulate_fail" key)) [
    | inl t ↦ rw t refl
    | inr f ↦ elim (Bool-cases (py.contains "simulate_unknown" key)) [
      | inl t ↦ rw (f, t) refl
      | inr g ↦ rw (f, g) refl
    ]
  ]

  -- When the one request is approved, the guard leaves room, and neither the key nor the drawn identifier
  -- is taken at the insertion, execute_action_request with the simulated adapter returns and saves an
  -- execution that failed if the key contains simulate_fail, else is unknown if it contains
  -- simulate_unknown, and else succeeded.
  pub simulated_execution_finishes :
      (uuid : ℕ → String) (started completed : ℕ) (arrived : ℕ → List ActionExecution)
      (actor_id : Option String) (request_id : String) (idempotency_key : Option String)
      (request : ActionRequest) (s : Session)
      → rows request_id_of request_id s.current.requests ≡ request ∷ []
      → request.status ≡ approved
      → guard
          (key_or_default idempotency_key request_id)
          (rows executed_request request_id s.current.executions)
        ≡ free
      → rows key_of (key_or_default idempotency_key request_id) (s.current.executions ++ arrived 0)
        ≡ []
      → rows execution_id_of (uuid s.drawn) (s.current.executions ++ arrived 0) ≡ []
      → Finished (uuid s.drawn) (asked (key_or_default idempotency_key request_id)) (
          execute_action_request uuid started completed arrived simulated_adapter actor_id
            request_id idempotency_key s)
  unfolding simulated_adapter
  simulated_execution_finishes uuid started completed arrived actor_id request_id idempotency_key
        request s e is_approved is_free unclaimed fresh =
      subst
        (λ status. Finished (uuid s.drawn) status (
          execute_action_request uuid started completed arrived simulated_adapter actor_id
            request_id idempotency_key s))
        (simulated_status (key_or_default idempotency_key request_id))
        (execute_finishes uuid started completed arrived simulated_adapter actor_id request_id
          idempotency_key request s e is_approved is_free unclaimed fresh)
