-- ===== src/Workflow/Audit.antt =====
-- The three decisions on an action request (services/action_request/service.py) as one operation,
-- what each does to the tables, and the audit trail that they keep.
pub mod Trail
use financial_ai_operator.Prelude.{
  ℕ, String, ◌≡◌, ◌≢◌, refl, sym, ap, ◌∙◌, inl, inr, Bool, true, false, Option, none, some, List,
  [], ◌∷◌, ◌++◌, map, ◌==◌, string_eq, arith,
}
use financial_ai_operator.Prelude.Outcome.{
  Action, Result, ok, err, pure, ◌>>=◌, ◌>>◌, bind_ok, bind_err,
}
use financial_ai_operator.Table.{rows, scalar_one_or_none}
use financial_ai_operator.Workflow.Model.{
  ActionRequestStatus, pending_approval, approved, rejected, cancelled, ActionRequest,
  ActionRequestAudit, ActionRequestStatus-discrete,
}
use financial_ai_operator.Workflow.Store.{
  Tables, Session, Error, invalid_transition, not_found, commit,
}
use financial_ai_operator.Workflow.Notification.{notify_approvers}
use financial_ai_operator.Workflow.Notification.Recipients.{
  recipients, notice, deliver, notify_approvers_lem,
}
use financial_ai_operator.Workflow.ActionRequest.{
  assign, set_status, request_id_of, request_event, move_request, transition_state, announce,
  get_request, found_or_raise, validate_transition, can_transition, valid_transitions,
  approve_action_request, reject_action_request, cancel_action_request,
}

pub data Decision : Type 0 where
  approve : ℕ → Option String → Decision
  reject cancel : Option String → Option String → Decision

unfoldable pub decide : String → Decision → Action Session Error ActionRequest
decide id (approve now actor) = approve_action_request now id actor
decide id (reject reason actor) = reject_action_request id reason actor
decide id (cancel reason actor) = cancel_action_request id reason actor

abbrev pub target : Decision → ActionRequestStatus
target (approve now actor) = approved
target (reject reason actor) = rejected
target (cancel reason actor) = cancelled

abbrev pub decision_actor : Decision → Option String
decision_actor (approve now actor) = actor
decision_actor (reject reason actor) = actor
decision_actor (cancel reason actor) = actor

abbrev pub decision_reason : Decision → Option String
decision_reason (approve now actor) = none
decision_reason (reject reason actor) = reason
decision_reason (cancel reason actor) = reason

abbrev pub set_fields : Decision → ActionRequest → ActionRequest
set_fields (approve now actor) r = record r { approved_by = actor; approved_at = some now }
set_fields (reject reason actor) r = record r { rejection_reason = reason }
set_fields (cancel reason actor) r = r

abbrev pub decision_name : Decision → String
decision_name (approve now actor) = "ACTION_REQUEST_APPROVED"
decision_name (reject reason actor) = "ACTION_REQUEST_REJECTED"
decision_name (cancel reason actor) = "ACTION_REQUEST_CANCELLED"

-- Tables that a session has saved.
abbrev pub settle : Tables → Session → Session
settle t s = record s { saved = t; current = t }

abbrev pub moved :
    ActionRequestStatus → Option String → Option String → ActionRequest → Tables → Tables
moved new_status actor reason r t =
    let audit : ActionRequestAudit = record {
      action_request_id = r.id;
      previous_status = r.status;
      new_status = new_status;
      actor = actor;
      reason = reason;
    } in
    record t {
      requests = assign r.id (set_status new_status) t.requests;
      audits = t.audits ++ audit ∷ [];
    }

abbrev pub announced :
    (ActionRequest → ActionRequest) → String → Option String → ActionRequest → Tables → Tables
announced set name actor r t = record t {
  requests = assign r.id set t.requests;
  events = t.events ++ request_event name actor r.id ∷ [];
  notifications = t.notifications ++ map (notice name "action_request" r.id) (recipients t.users);
}

announce_lem :
    (set : ActionRequest → ActionRequest) (name : String) (actor : Option String)
    (r : ActionRequest) (s : Session)
    → announce set name name actor r s
      ≡ (ok (set r), settle (announced set name actor r s.current) s)
unfolding announce
announce_lem set name actor r s =
    let t : Tables = record s.current { requests = assign r.id set s.current.requests } in
    let s' : Session = record s {
      saved = t;
      current = record t { events = t.events ++ request_event name actor r.id ∷ [] };
    } in
    bind_ok (notify_approvers name "action_request" r.id) (λ x. commit >> pure (set r)) s'
      (notify_approvers_lem name "action_request" r.id s')

-- The three ways in which a transition goes.
get_request_lem :
    (id : String) (r : ActionRequest) (s : Session)
    → rows request_id_of id s.current.requests ≡ r ∷ []
    → get_request id s ≡ (ok r, s)
unfolding get_request found_or_raise
get_request_lem id r s e = rw e

move_pending :
    (new : ActionRequestStatus) (actor reason : Option String) (r : ActionRequest) (s : Session)
    → can_transition r.status new ≡ true
    → move_request new actor reason r s
      ≡ (ok (set_status new r), settle (moved new actor reason r s.current) s)
unfolding move_request validate_transition
move_pending new actor reason r s h = ground (arith, h)

move_refused :
    (new : ActionRequestStatus) (actor reason : Option String) (r : ActionRequest) (s : Session)
    → can_transition r.status new ≡ false
    → move_request new actor reason r s ≡ (err (invalid_transition r.status new), s)
unfolding move_request validate_transition
move_refused new actor reason r s h = ground (arith, h)

transition_pending :
    (id : String) (new : ActionRequestStatus) (actor reason : Option String) (r : ActionRequest)
    (s : Session)
    → rows request_id_of id s.current.requests ≡ r ∷ []
    → can_transition r.status new ≡ true
    → transition_state id new actor reason s
      ≡ (ok (set_status new r), settle (moved new actor reason r s.current) s)
unfolding transition_state
transition_pending id new actor reason r s e h =
    bind_ok (get_request id) (move_request new actor reason) s (get_request_lem id r s e)
    ∙ move_pending new actor reason r s h

transition_refused :
    (id : String) (new : ActionRequestStatus) (actor reason : Option String) (r : ActionRequest)
    (s : Session)
    → rows request_id_of id s.current.requests ≡ r ∷ []
    → can_transition r.status new ≡ false
    → transition_state id new actor reason s ≡ (err (invalid_transition r.status new), s)
unfolding transition_state
transition_refused id new actor reason r s e h =
    bind_ok (get_request id) (move_request new actor reason) s (get_request_lem id r s e)
    ∙ move_refused new actor reason r s h

transition_missing :
    (id : String) (new : ActionRequestStatus) (actor reason : Option String) (s : Session)
    → rows request_id_of id s.current.requests ≡ []
    → transition_state id new actor reason s ≡ (err (not_found id), s)
unfolding transition_state get_request found_or_raise
transition_missing id new actor reason s e = ground (arith, e)

-- What a decision does to the tables when it is taken, and the request that it returns.
abbrev pub decided : Decision → ActionRequest → Tables → Tables
decided d r t =
    announced (set_fields d) (decision_name d) (decision_actor d) (set_status (target d) r)
      (moved (target d) (decision_actor d) (decision_reason d) r t)

abbrev pub outcome : Decision → ActionRequest → ActionRequest
outcome d r = set_fields d (set_status (target d) r)

abbrev decide_by_steps : String → Decision → Action Session Error ActionRequest
decide_by_steps id d = do
  request ← transition_state id (target d) (decision_actor d) (decision_reason d)
  announce (set_fields d) (decision_name d) (decision_name d) (decision_actor d) request

decide-steps : (id : String) (d : Decision) → decide id d ≡ decide_by_steps id d
unfolding decide approve_action_request reject_action_request cancel_action_request
decide-steps id (approve now actor) = refl
decide-steps id (reject reason actor) = refl
decide-steps id (cancel reason actor) = refl

can_transition-target : (d : Decision) → can_transition pending_approval (target d) ≡ true
unfolding can_transition valid_transitions ActionRequestStatus-discrete
can_transition-target (approve now actor) = refl
can_transition-target (reject reason actor) = refl
can_transition-target (cancel reason actor) = refl

can_transition_settled :
    (status next : ActionRequestStatus)
    → status ≢ pending_approval
    → can_transition status next ≡ false
unfolding can_transition valid_transitions
can_transition_settled pending_approval next h = absurd (h refl)
can_transition_settled approved next h = refl
can_transition_settled rejected next h = refl
can_transition_settled cancelled next h = refl

pub decide_pending :
    (id : String) (d : Decision) (r : ActionRequest) (s : Session)
    → rows request_id_of id s.current.requests ≡ r ∷ []
    → r.status ≡ pending_approval
    → decide id d s ≡ (ok (outcome d r), settle (decided d r s.current) s)
decide_pending id d r s e h =
    let r' = set_status (target d) r in
    let t = moved (target d) (decision_actor d) (decision_reason d) r s.current in
    ap (λ f. f s) (decide-steps id d)
    ∙ bind_ok (transition_state id (target d) (decision_actor d) (decision_reason d))
        (announce (set_fields d) (decision_name d) (decision_name d) (decision_actor d)) s
        (transition_pending id (target d) (decision_actor d) (decision_reason d) r s e
          (ap (λ st. can_transition st (target d)) h ∙ can_transition-target d))
    ∙ announce_lem (set_fields d) (decision_name d) (decision_actor d) r' (settle t s)

pub decide_refused :
    (id : String) (d : Decision) (r : ActionRequest) (s : Session)
    → rows request_id_of id s.current.requests ≡ r ∷ []
    → r.status ≢ pending_approval
    → decide id d s ≡ (err (invalid_transition r.status (target d)), s)
decide_refused id d r s e h =
    let refused =
      transition_refused id (target d) (decision_actor d) (decision_reason d) r s e
        (can_transition_settled r.status (target d) h) in
    ap (λ f. f s) (decide-steps id d)
    ∙ bind_err (transition_state id (target d) (decision_actor d) (decision_reason d))
        (announce (set_fields d) (decision_name d) (decision_name d) (decision_actor d)) s refused

pub decide_missing :
    (id : String) (d : Decision) (s : Session)
    → rows request_id_of id s.current.requests ≡ []
    → decide id d s ≡ (err (not_found id), s)
decide_missing id d s e =
    ap (λ f. f s) (decide-steps id d)
    ∙ bind_err (transition_state id (target d) (decision_actor d) (decision_reason d))
        (announce (set_fields d) (decision_name d) (decision_name d) (decision_actor d)) s
        (transition_missing id (target d) (decision_actor d) (decision_reason d) s e)
