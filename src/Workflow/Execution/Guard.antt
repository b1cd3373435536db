-- ===== src/Workflow/Execution/Guard.antt =====
-- When services/action_execution/service.py calls the adapter.
use financial_ai_operator.Prelude.{
  ℕ, zero, suc, ◌+◌, String, ◌≡◌, ◌≢◌, refl, sym, ap, inl, inr, ◌⊎◌, true, false, Option, some,
  List, [], ◌∷◌, ◌++◌, ◌==◌, string_eq, arith, All, Bool-cases, ==_cases, ==_refl, ==_false,
}
use financial_ai_operator.Prelude.Outcome.{Action, Result, ok, err, lift, ◌>>=◌}
use financial_ai_operator.Table.{rows, scalar_one_or_none}
use mathlib.Core.Path.{subst}
use financial_ai_operator.Table.Laws.{IsUnique, one_row}
use financial_ai_operator.Workflow.Model.{
  approved, action_request_status_eq, ActionRequest, ActionExecution,
}
use financial_ai_operator.Workflow.Store.{Tables, Session, Error, multiple_results_found}
use financial_ai_operator.Workflow.ActionRequest.{request_id_of}
use financial_ai_operator.Workflow.Execution.{
  new_execution, Adapter, ExecutionResult, Verdict, repeated, blocked, free, blocks, guard,
  key_or_default, key_of, executed_request, get_execution, log_result, handle_result, run_claimed,
  retry_read, claim_or_read, claim, obey, execute_found, execute_action_request, arrive,
}

-- Executions that leave room for another one with the given key.
abbrev pub LeavesRoom : String → ActionExecution → Type 0
LeavesRoom key ex = (ex.idempotency_key ≢ key) × (blocks ex.status ≡ false)

guard-free_head :
    (key : String) (ex : ActionExecution) (exs : List ActionExecution)
    → guard key (ex ∷ exs) ≡ free
    → (ex.idempotency_key ≢ key) × (blocks ex.status ≡ false) × (guard key exs ≡ free)
unfolding guard
guard-free_head key ex exs e = elim (==_cases ex.idempotency_key key) [
  | inl same ↦
      let t : (ex.idempotency_key == key) ≡ true = rw same (==_refl key) in
      let e' : repeated ex ≡ free = rw t at e in absurd (cc)
  | inr other ↦
      let t : (ex.idempotency_key == key) ≡ false = ==_false ex.idempotency_key key other in
      elim (Bool-cases (blocks ex.status)) [
        | inl b ↦ let e' : blocked ex.status ≡ free = rw (t, b) at e in absurd (cc)
        | inr b ↦ let e' : guard key exs ≡ free = rw (t, b) at e in (other, b, e')
      ]
]

guard-free :
    (key : String) (exs : List ActionExecution) → guard key exs ≡ free → All (LeavesRoom key) exs
guard-free key [] e = tt
guard-free key (ex ∷ exs) e =
    let (other, b, e') = guard-free_head key ex exs e in ((other, b), guard-free key exs e')

module _ (uuid : ℕ → String) (started completed : ℕ) (arrived : ℕ → List ActionExecution)
    (adapter : Adapter) (actor_id : Option String) where
  get_execution-calls :
      (id : String) (s : Session)
      → (get_execution uuid started completed arrived adapter actor_id id s).1 ≡ s
  unfolding get_execution
  get_execution-calls id s = refl

  handle_result-calls :
      (execution_id attempt_id : String) (o : Result String ExecutionResult) (s : Session)
      → (handle_result uuid started completed arrived adapter actor_id execution_id attempt_id o
          s).1.calls
        ≡ s.calls
  unfolding handle_result log_result get_execution
  handle_result-calls execution_id attempt_id (ok r) s = ground arith
  handle_result-calls execution_id attempt_id (err text) s = ground arith

  run_claimed-calls :
      (request : ActionRequest) (key execution_id : String) (s : Session)
      → (run_claimed uuid started completed arrived adapter actor_id request key execution_id
          s).1.calls
        ≡ s.calls ++ (request.id, key) ∷ []
  unfolding run_claimed
  run_claimed-calls request key execution_id s =
      handle_result-calls execution_id (uuid s.drawn) (adapter.execute request key) _

  retry_read-calls :
      (tries n : ℕ) (key : String) (s : Session)
      → (retry_read uuid started completed arrived adapter actor_id tries n key s).1.calls ≡ s.calls
  unfolding retry_read arrive
  retry_read-calls zero n key s = refl
  retry_read-calls (suc tries) n key s = ground (
    arith,
    retry_read-calls tries (suc n) key
        (arrive uuid started completed arrived adapter actor_id n s).1,
  )

  -- Where a call of the adapter comes from.
  pub record Called (s : Session) (request_id : String) (idempotency_key : Option String)
      (s' : Session) : Type 0 where
    pub request : ActionRequest
    pub its_row : rows request_id_of request_id s.current.requests ≡ request ∷ []
    pub is_approved : request.status ≡ approved
    pub has_room :
        All
          (LeavesRoom (key_or_default idempotency_key request_id))
          (rows executed_request request_id s.current.executions)
    pub is_first :
        rows key_of (key_or_default idempotency_key request_id) (s.current.executions ++ arrived 0)
        ≡ []
    pub one_call :
        s'.calls ≡ s.calls ++ (request.id, key_or_default idempotency_key request_id) ∷ []

  claim_or_read-calls :
      (request : ActionRequest) (key execution_id : String) (taken : List ActionExecution)
      (s : Session)
      → ((claim_or_read uuid started completed arrived adapter actor_id request key execution_id
            taken s).1.calls
          ≡ s.calls)
        ⊎ ((taken ≡ [])
            × ((claim_or_read uuid started completed arrived adapter actor_id request key
                  execution_id taken s).1.calls
                ≡ s.calls ++ (request.id, key) ∷ []))
  unfolding claim_or_read
  claim_or_read-calls request key execution_id [] s =
      let t : Tables = record s.current {
        executions =
            s.current.executions ++ new_execution execution_id request.id key adapter.name ∷ [];
      } in
      inr (refl, run_claimed-calls request key execution_id (record s { saved = t; current = t }))
  claim_or_read-calls request key execution_id (x ∷ xs) s =
      inl (retry_read-calls 3 1 key (record s { current = s.saved }))

  claim-calls :
      (request : ActionRequest) (key : String) (s : Session)
      → ((claim uuid started completed arrived adapter actor_id request key s).1.calls ≡ s.calls)
        ⊎ ((rows key_of key (s.current.executions ++ arrived 0) ≡ [])
            × ((claim uuid started completed arrived adapter actor_id request key s).1.calls
                ≡ s.calls ++ (request.id, key) ∷ []))
  unfolding claim arrive
  claim-calls request key s =
      let s' : Session = record s {
        saved = record s.saved { executions = s.saved.executions ++ arrived 0 };
        current = record s.current { executions = s.current.executions ++ arrived 0 };
        drawn = s.drawn + 1;
      } in
      claim_or_read-calls request key (uuid s.drawn) (rows key_of key s'.current.executions) s'

  obey-calls :
      (request : ActionRequest) (key : String) (v : Verdict) (s : Session)
      → ((obey uuid started completed arrived adapter actor_id request key v s).1.calls ≡ s.calls)
        ⊎ ((v ≡ free)
            × (rows key_of key (s.current.executions ++ arrived 0) ≡ [])
            × ((obey uuid started completed arrived adapter actor_id request key v s).1.calls
                ≡ s.calls ++ (request.id, key) ∷ []))
  unfolding obey
  obey-calls request key (repeated ex) s = inl refl
  obey-calls request key (blocked status) s = inl refl
  obey-calls request key free s = elim (claim-calls request key s) [
    | inl same ↦ inl same
    | inr (first, one) ↦ inr (refl, first, one)
  ]

  execute_found-calls :
      (request_id : String) (idempotency_key : Option String) (request : ActionRequest)
      (s : Session)
      → rows request_id_of request_id s.current.requests ≡ request ∷ []
      → let s' =
          (execute_found uuid started completed arrived adapter actor_id request_id idempotency_key
            (some request)
            s).1 in
        (s'.calls ≡ s.calls) ⊎ Called s request_id idempotency_key s'
  unfolding execute_found
  execute_found-calls request_id idempotency_key request s e =
      elim (==_cases request.status approved) [
        | inr other ↦ inl (rw (==_false request.status approved other) refl)
        | inl same ↦
            let key = key_or_default idempotency_key request_id in
            let existing = rows executed_request request_id s.current.executions in
            let t : (request.status == approved) ≡ true = rw same (==_refl approved) in
            rw t (elim (obey-calls request key (guard key existing) s) [
              | inl none_made ↦ inl none_made
              | inr (is_free, first, one) ↦ inr (record {
                request = request;
                its_row = e;
                is_approved = same;
                has_room = guard-free key existing is_free;
                is_first = first;
                one_call = one;
              })
            ])
      ]

  -- Where the identifiers of requests are distinct, a call of `execute_action_request`
  -- either does not call the adapter, or calls it once, with the request and the key. In
  -- that case the request is approved, no execution of it that the guard read is running, succeeded or
  -- of unknown outcome, and no execution at all had the key when the row was inserted.
  pub execute_calls :
      (request_id : String) (idempotency_key : Option String) (s : Session)
      → IsUnique request_id_of s.current.requests
      → let s' =
          (execute_action_request uuid started completed arrived adapter actor_id request_id
            idempotency_key s).1 in
        (s'.calls ≡ s.calls) ⊎ Called s request_id idempotency_key s'
  unfolding execute_action_request execute_found
  execute_calls request_id idempotency_key s unique =
      let go : Option ActionRequest → Action Session Error (Option ActionExecution) =
        execute_found uuid started completed arrived adapter actor_id request_id idempotency_key in
      let query : List ActionRequest → Result Error (Option ActionExecution) × Session =
        λ l. (lift (scalar_one_or_none multiple_results_found l) >>= go) s in
      elim (one_row request_id_of multiple_results_found request_id s.current.requests unique) [
        | inl (absent, _) ↦ inl (ap (λ l. (query l).1.calls) absent)
        | inr (r, e, _) ↦
            subst
              (λ (o : Result Error (Option ActionExecution) × Session).
                (o.1.calls ≡ s.calls) ⊎ Called s request_id idempotency_key o.1)
              (sym (ap query e)) (execute_found-calls request_id idempotency_key r s e)
      ]
