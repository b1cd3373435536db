-- ===== src/Workflow/Execution/Outcome.antt =====
-- What an execution of services/action_execution/service.py returns and saves when the adapter
-- answers, and when it raises.
use mathlib.Core.Path.{subst}
use financial_ai_operator.Prelude.{
  ℕ, ◌+◌, String, ◌≡◌, refl, sym, ap, ◌∙◌, true, Option, some, List, [], ◌∷◌, ◌++◌, map, ◌==◌,
  string_eq, arith, ==_refl,
}
use financial_ai_operator.Prelude.Outcome.{Action, Result, ok, err, lift, ◌>>=◌, ◌>>◌}
use financial_ai_operator.Table.{rows, scalar_one_or_none}
use financial_ai_operator.Table.Laws.{row-added}
use financial_ai_operator.Workflow.Model.{
  approved, action_request_status_eq, ActionRequest, ActionExecutionStatus, pending, running,
  succeeded, failed, unknown, ActionExecution,
}
use financial_ai_operator.Workflow.Store.{
  Tables, Session, Error, multiple_results_found, missing_greenlet,
}
use financial_ai_operator.Workflow.ActionRequest.{request_id_of}
use financial_ai_operator.Workflow.Execution.{
  Adapter, ExecutionResult, execution_id_of, executed_request, key_of, assign_execution,
  get_execution, log_result, handle_result, run_claimed, free, guard, claim, claim_or_read, arrive,
  obey, key_or_default, execute_found, execute_action_request, new_execution, fill_execution,
}

-- A call that returned the saved row of an execution.
pub record Finished (id : String) (status : ActionExecutionStatus)
    (o : Result Error (Option ActionExecution) × Session) : Type 0 where
  pub execution : ActionExecution
  pub returned : o.0 ≡ ok (some execution)
  pub has_status : execution.status ≡ status
  pub is_saved : rows execution_id_of id o.1.saved.executions ≡ execution ∷ []

-- A call that raised, and left the saved row of its execution running.
pub record Abandoned (id : String) (o : Result Error (Option ActionExecution) × Session)
    : Type 0 where
  pub execution : ActionExecution
  pub raised : o.0 ≡ err missing_greenlet
  pub is_running : execution.status ≡ running
  pub is_saved : rows execution_id_of id o.1.saved.executions ≡ execution ∷ []

-- How a call ends by the answer of the adapter.
abbrev pub Ends :
    String
    → Result String ExecutionResult
    → Result Error (Option ActionExecution) × Session
    → Type 0
Ends id (ok r) o = Finished id r.status o
Ends id (err text) o = Abandoned id o

rows-assign_execution :
    (f : ActionExecution → ActionExecution) (keeps : (ex : ActionExecution) → (f ex).id ≡ ex.id)
    (id : String) (exs : List ActionExecution)
    → rows execution_id_of id (assign_execution id f exs) ≡ map f (rows execution_id_of id exs)
unfolding assign_execution
rows-assign_execution f keeps id [] = refl
rows-assign_execution f keeps id (ex ∷ exs) =
    ground (arith, keeps ex, rows-assign_execution f keeps id exs)

module _ (uuid : ℕ → String) (started completed : ℕ) (arrived : ℕ → List ActionExecution)
    (adapter : Adapter) (actor_id : Option String) where
  -- Reading back a row that the session has saved.
  get_execution-Finished :
      (id : String) (ex : ActionExecution) (s : Session)
      → rows execution_id_of id s.current.executions ≡ ex ∷ []
      → rows execution_id_of id s.saved.executions ≡ ex ∷ []
      → Finished id ex.status (get_execution uuid started completed arrived adapter actor_id id s)
  unfolding get_execution
  get_execution-Finished id ex s e saved = record {
    execution = ex;
    returned = ap (λ l. scalar_one_or_none multiple_results_found l) e;
    has_status = refl;
    is_saved = saved;
  }

  log_result-Finished :
      (status : ActionExecutionStatus) (id : String) (ex : ActionExecution) (s : Session)
      → rows execution_id_of id s.current.executions ≡ ex ∷ []
      → rows execution_id_of id s.saved.executions ≡ ex ∷ []
      → Finished id ex.status (
          (log_result uuid started completed arrived adapter actor_id status id
              >> get_execution uuid started completed arrived adapter actor_id id)
            s)
  unfolding log_result
  log_result-Finished pending id ex s e saved = get_execution-Finished id ex s e saved
  log_result-Finished running id ex s e saved = get_execution-Finished id ex s e saved
  log_result-Finished unknown id ex s e saved = get_execution-Finished id ex s e saved
  log_result-Finished succeeded id ex s e saved = get_execution-Finished id ex _ e saved
  log_result-Finished failed id ex s e saved = get_execution-Finished id ex _ e saved

  handle_result-Ends :
      (id attempt_id : String) (o : Result String ExecutionResult) (ex : ActionExecution)
      (s : Session)
      → rows execution_id_of id s.current.executions ≡ ex ∷ []
      → rows execution_id_of id s.saved.executions ≡ ex ∷ []
      → ex.status ≡ running
      → Ends id o (handle_result uuid started completed arrived adapter actor_id id attempt_id o s)
  unfolding handle_result
  handle_result-Ends id attempt_id (ok r) ex s e saved is_running =
      let own =
        rows-assign_execution (fill_execution uuid started completed arrived adapter actor_id r)
          (λ x. refl) id s.current.executions
        ∙ ap (map (fill_execution uuid started completed arrived adapter actor_id r)) e in
      log_result-Finished r.status id
        (fill_execution uuid started completed arrived adapter actor_id r ex) _ own own
  handle_result-Ends id attempt_id (err text) ex s e saved is_running = record {
    execution = ex;
    raised = refl;
    is_running = is_running;
    is_saved = saved;
  }

  run_claimed-Ends :
      (request : ActionRequest) (key id : String) (ex : ActionExecution) (s : Session)
      → rows execution_id_of id s.current.executions ≡ ex ∷ []
      → Ends id
          (adapter.execute request key)
          (run_claimed uuid started completed arrived adapter actor_id request key id s)
  unfolding run_claimed
  run_claimed-Ends request key id ex s e =
      let begin : ActionExecution → ActionExecution =
        λ x. record x { status = running; started_at = some started } in
      let own =
        rows-assign_execution begin (λ x. refl) id s.current.executions ∙ ap (map begin) e in
      handle_result-Ends id (uuid s.drawn) (adapter.execute request key) (begin ex) _ own own refl

  claim-Ends :
      (request : ActionRequest) (key : String) (s : Session)
      → rows key_of key (s.current.executions ++ arrived 0) ≡ []
      → rows execution_id_of (uuid s.drawn) (s.current.executions ++ arrived 0) ≡ []
      → Ends
          (uuid s.drawn)
          (adapter.execute request key)
          (claim uuid started completed arrived adapter actor_id request key s)
  unfolding claim arrive claim_or_read new_execution
  claim-Ends request key s unclaimed fresh =
      let id = uuid s.drawn in
      let ex = new_execution id request.id key adapter.name in
      let s' : Session = record s {
        saved = record s.saved { executions = s.saved.executions ++ arrived 0 };
        current = record s.current { executions = s.current.executions ++ arrived 0 };
        drawn = s.drawn + 1;
      } in
      let claimed : Tables = record s'.current { executions = s'.current.executions ++ ex ∷ [] } in
      let added = row-added execution_id_of id (s.current.executions ++ arrived 0) ex refl fresh in
      subst
        (λ l.
          Ends id (adapter.execute request key)
            (claim_or_read uuid started completed arrived adapter actor_id request key id l s'))
        (sym unclaimed)
        (run_claimed-Ends request key id ex (record s' { saved = claimed; current = claimed })
          added)

  -- When one request has the identifier and is approved, the guard finds its executions to leave
  -- room, and neither the key nor the identifier that the session draws is taken at the insertion, then
  -- `execute_action_request` saves just one row under the identifier that it drew. If the adapter
  -- gives a result, it returns this row, with the result's status; if the adapter raises, it raises
  -- `MissingGreenlet`, and the row stays running.
  pub execute_finishes :
      (request_id : String) (idempotency_key : Option String) (request : ActionRequest)
      (s : Session)
      → rows request_id_of request_id s.current.requests ≡ request ∷ []
      → request.status ≡ approved
      → guard
          (key_or_default idempotency_key request_id)
          (rows executed_request request_id s.current.executions)
        ≡ free
      → rows key_of (key_or_default idempotency_key request_id) (s.current.executions ++ arrived 0)
        ≡ []
      → rows execution_id_of (uuid s.drawn) (s.current.executions ++ arrived 0) ≡ []
      → Ends (uuid s.drawn) (adapter.execute request (key_or_default idempotency_key request_id)) (
          execute_action_request uuid started completed arrived adapter actor_id request_id
            idempotency_key s)
  unfolding execute_action_request execute_found obey
  execute_finishes request_id idempotency_key request s e is_approved is_free unclaimed fresh =
      let key = key_or_default idempotency_key request_id in
      let passes_test : (request.status == approved) ≡ true =
        ap (λ status. status == approved) is_approved ∙ ==_refl approved in
      let found : Ends (uuid s.drawn) (adapter.execute request key) (
          execute_found uuid started completed arrived adapter actor_id request_id idempotency_key
            (some request) s) =
        rw (passes_test, is_free) (claim-Ends request key s unclaimed fresh) in
      let go : Option ActionRequest → Action Session Error (Option ActionExecution) =
        execute_found uuid started completed arrived adapter actor_id request_id idempotency_key in
      let query : List ActionRequest → Result Error (Option ActionExecution) × Session =
        λ l. (lift (scalar_one_or_none multiple_results_found l) >>= go) s in
      subst (Ends (uuid s.drawn) (adapter.execute request key)) (sym (ap query e)) found
