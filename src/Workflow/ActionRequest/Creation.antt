-- ===== src/Workflow/ActionRequest/Creation.antt =====
-- The creation of action requests in services/action_request/service.py: from which evaluations,
-- and what a repeated call does.
use mathlib.Core.List.{append-nil}
use financial_ai_operator.Prelude.{
  ℕ, ◌+◌, String, ◌≡◌, ◌≢◌, refl, ap, ◌∙◌, inl, inr, true, Option, none, some, List, [], ◌∷◌, ◌++◌,
  ◌==◌, string_eq, ==_refl, ==_false,
}
use financial_ai_operator.Prelude.Outcome.{Result, ok, err, pure, lift, ◌>>=◌, ◌>>◌, bind_ok}
use financial_ai_operator.Table.{rows, scalar_one_or_none}
use financial_ai_operator.Table.Laws.{IsUnique, one_row, row-added, row-key}
use financial_ai_operator.Workflow.Model.{
  approval_required, policy_decision_eq, PolicyEvaluation, ActionRequest,
}
use financial_ai_operator.Workflow.Store.{
  Tables, Session, Error, approval_not_required, multiple_results_found, commit,
}
use financial_ai_operator.Workflow.Notification.{notify_approvers}
use financial_ai_operator.Workflow.Notification.Recipients.{
  deliver, recipients, notify_approvers_lem,
}
use financial_ai_operator.Workflow.ActionRequest.{
  evaluation_of, new_request, request_event, insert_or_read, insert_request, reuse_or_insert,
  create_found, create_from_evaluation, arrive,
}

abbrev pub evaluation_id_of : PolicyEvaluation → String
evaluation_id_of e = e.id

-- No other session commits a request in the course of the call.
abbrev pub alone : ℕ → List ActionRequest
alone n = []

module _ (uuid : ℕ → String) (source : Option String) (e : PolicyEvaluation) where
  insert_request-alone :
      (s : Session)
      → rows (evaluation_of uuid alone) e.id s.current.requests ≡ []
      → (s' : Session) × (insert_request uuid alone source e s
          ≡ (ok (new_request (uuid s.drawn) source e), s'))
        × (s'.current.requests ≡ s.current.requests ++ new_request (uuid s.drawn) source e ∷ [])
        × (s'.current.evaluations ≡ s.current.evaluations)
  unfolding insert_request insert_or_read arrive
  insert_request-alone s absent =
      let r = new_request (uuid s.drawn) source e in
      let began : Session = record s {
        saved = record s.saved { requests = s.saved.requests ++ [] };
        current = record s.current { requests = s.current.requests ++ [] };
      } in
      let t : Tables = record s.current { requests = (s.current.requests ++ []) ++ r ∷ [] } in
      let logged : Session = record s {
        saved = t;
        current = record t {
          events = t.events ++ request_event "ACTION_REQUEST_CREATED" none r.id ∷ [];
        };
        drawn = s.drawn + 1;
      } in
      let told =
        deliver "ACTION_REQUEST_PENDING" "action_request" r.id (recipients logged.current.users)
          logged in
      (
        record told { saved = told.current },
        ap (λ l. insert_or_read uuid alone source e l began)
              (ap (rows (evaluation_of uuid alone) e.id) (append-nil s.current.requests) ∙ absent)
            ∙ bind_ok (notify_approvers "ACTION_REQUEST_PENDING" "action_request" r.id)
                (λ x. commit >> pure r) logged
                (notify_approvers_lem "ACTION_REQUEST_PENDING" "action_request" r.id logged),
        ap (λ l. l ++ r ∷ []) (append-nil s.current.requests),
        refl,
      )

  abbrev create : Session → Result Error ActionRequest × Session
  create s = create_from_evaluation uuid alone e.id source s

  create-found :
      (s : Session)
      → rows evaluation_id_of e.id s.current.evaluations ≡ e ∷ []
      → create s ≡ create_found uuid alone e.id source (some e) s
  unfolding create_from_evaluation
  create-found s its_row =
      ap
        (λ l.
          (lift (scalar_one_or_none multiple_results_found l)
              >>= create_found uuid alone e.id source)
            s)
        its_row

  -- With an evaluation that requires an approval, what the query for its request comes to.
  create-query :
      (s : Session) (l : List ActionRequest)
      → rows evaluation_id_of e.id s.current.evaluations ≡ e ∷ []
      → e.decision ≡ approval_required
      → rows (evaluation_of uuid alone) e.id s.current.requests ≡ l
      → create s
        ≡ (lift (scalar_one_or_none multiple_results_found l)
              >>= reuse_or_insert uuid alone source e)
            s
  unfolding create_found
  create-query s l its_row required same =
      let t : (e.decision == approval_required) ≡ true =
        ap (λ d. d == approval_required) required ∙ ==_refl approval_required in
      create-found s its_row
      ∙ rw t (
          ap
            (λ k.
              (lift (scalar_one_or_none multiple_results_found k)
                  >>= reuse_or_insert uuid alone source e)
                s)
            same)

  create-existing :
      (s : Session) (r : ActionRequest)
      → rows evaluation_id_of e.id s.current.evaluations ≡ e ∷ []
      → e.decision ≡ approval_required
      → rows (evaluation_of uuid alone) e.id s.current.requests ≡ r ∷ []
      → create s ≡ (ok r, s)
  unfolding reuse_or_insert
  create-existing s r its_row required same = create-query s (r ∷ []) its_row required same

  -- An evaluation with another decision is refused, and the session unchanged.
  create_refused :
      (s : Session)
      → rows evaluation_id_of e.id s.current.evaluations ≡ e ∷ []
      → e.decision ≢ approval_required
      → create s ≡ (err (approval_not_required e.decision), s)
  unfolding create_found
  create_refused s its_row other =
      create-found s its_row ∙ rw (==_false e.decision approval_required other)

  -- When the evaluation is the one with its identifier, it requires an approval, at most one request
  -- refers to it and no other session interferes, a creation from it returns a request, and the same call
  -- again returns the same request and changes nothing.
  pub create_twice :
      (s : Session)
      → rows evaluation_id_of e.id s.current.evaluations ≡ e ∷ []
      → e.decision ≡ approval_required
      → IsUnique (evaluation_of uuid alone) s.current.requests
      → (r : ActionRequest) × (s' : Session) × (create s ≡ (ok r, s'))
        × (r.policy_evaluation_id ≡ e.id)
        × (create s' ≡ (ok r, s'))
  unfolding reuse_or_insert new_request
  create_twice s its_row required unique =
      elim (one_row (evaluation_of uuid alone) multiple_results_found e.id s.current.requests
        unique) [
          | inl (absent, _) ↦
              let (s', inserted, requests', evaluations') = insert_request-alone s absent in
              let r = new_request (uuid s.drawn) source e in
              let now_there : rows (evaluation_of uuid alone) e.id s'.current.requests ≡ r ∷ [] =
                ap (rows (evaluation_of uuid alone) e.id) requests'
                ∙ row-added (evaluation_of uuid alone) e.id s.current.requests r refl absent in
              let still : rows evaluation_id_of e.id s'.current.evaluations ≡ e ∷ [] =
                ap (rows evaluation_id_of e.id) evaluations' ∙ its_row in
              (
                r,
                s',
                create-query s [] its_row required absent ∙ inserted,
                refl,
                create-existing s' r still required now_there,
              )
          | inr (r, there, _) ↦ (
            r,
            s,
            create-existing s r its_row required there,
            row-key (evaluation_of uuid alone) e.id s.current.requests r [] there,
            create-existing s r its_row required there,
          )
        ]
