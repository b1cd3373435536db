-- ===== src/Workflow/Audit/Trail.antt =====
-- The audit trail of the action requests: the invariant, and decisions in a row.
use mathlib.Core.List.{append-nil, map-append}
use mathlib.Core.Path.{subst}
use financial_ai_operator.Prelude.{
  String, ◌≡◌, ◌≢◌, refl, sym, ap, ◌∙◌, inl, inr, ◌⊎◌, List, [], ◌∷◌, ◌++◌, map, string_eq, arith,
  ==_cases, ==_refl, ==_false, ◌≤◌, length,
}
use financial_ai_operator.Prelude.Outcome.{err}
use financial_ai_operator.Table.{rows}
use financial_ai_operator.Table.Laws.{
  IsUnique, one_row, row-key, rows-append, rows_self, rows-other,
}
use financial_ai_operator.Workflow.Model.{
  ActionRequestStatus, pending_approval, approved, rejected, cancelled, ActionRequest,
  ActionRequestAudit,
}
use financial_ai_operator.Workflow.Store.{
  Tables, Session, invalid_transition, multiple_results_found,
}
use financial_ai_operator.Workflow.ActionRequest.{assign, set_status, request_id_of}
use financial_ai_operator.Workflow.Audit.{
  Decision, approve, reject, cancel, decide, target, outcome, decided, set_fields, settle,
  decide_pending, decide_refused, decide_missing, decision_actor, decision_reason,
}

-- The transitions that a request in a given status has behind it.
abbrev pub path_to : ActionRequestStatus → List (ActionRequestStatus × ActionRequestStatus)
path_to pending_approval = []
path_to approved = (pending_approval, approved) ∷ []
path_to rejected = (pending_approval, rejected) ∷ []
path_to cancelled = (pending_approval, cancelled) ∷ []

abbrev pub paths : List ActionRequest → List (ActionRequestStatus × ActionRequestStatus)
paths [] = []
paths (r ∷ rs) = path_to r.status ++ paths rs

abbrev pub audited_id : ActionRequestAudit → String
audited_id a = a.action_request_id

-- The transitions that the audit records of a request name, in order.
abbrev pub trail :
    String → List ActionRequestAudit → List (ActionRequestStatus × ActionRequestStatus)
trail id audits =
    map (λ (a : ActionRequestAudit). (a.previous_status, a.new_status)) (rows audited_id id audits)

abbrev pub IsAudited : Tables → Type 0
IsAudited t = (id : String) → trail id t.audits ≡ paths (rows request_id_of id t.requests)

-- What holds of a session between two calls.
pub record IsSound (s : Session) : Type 0 where
  pub committed : s.saved ≡ s.current
  pub unique : IsUnique request_id_of s.current.requests
  pub audited : IsAudited s.current

module _ (f : ActionRequest → ActionRequest) (keeps : (r : ActionRequest) → (f r).id ≡ r.id) where
  rows-assign_self :
      (id : String) (rs : List ActionRequest)
      → rows request_id_of id (assign id f rs) ≡ map f (rows request_id_of id rs)
  unfolding assign
  rows-assign_self id [] = refl
  rows-assign_self id (r ∷ rs) = ground (arith, keeps r, rows-assign_self id rs)

  rows-assign_other :
      (id k : String) (rs : List ActionRequest)
      → id ≢ k
      → rows request_id_of k (assign id f rs) ≡ rows request_id_of k rs
  unfolding assign
  rows-assign_other id k [] h = refl
  rows-assign_other id k (r ∷ rs) h = elim (==_cases r.id id) [
    | inl same ↦
        ground (arith, keeps r, same, ==_refl id, ==_false id k h, rows-assign_other id k rs h)
    | inr other ↦ ground (arith, ==_false r.id id other, rows-assign_other id k rs h)
  ]

outcome-status : (d : Decision) (r : ActionRequest) → (outcome d r).status ≡ target d
outcome-status (approve now actor) r = refl
outcome-status (reject reason actor) r = refl
outcome-status (cancel reason actor) r = refl

set_fields-id : (d : Decision) (r : ActionRequest) → (set_fields d r).id ≡ r.id
set_fields-id (approve now actor) r = refl
set_fields-id (reject reason actor) r = refl
set_fields-id (cancel reason actor) r = refl

path_to-target : (d : Decision) → path_to (target d) ≡ (pending_approval, target d) ∷ []
path_to-target (approve now actor) = refl
path_to-target (reject reason actor) = refl
path_to-target (cancel reason actor) = refl

target_settled : (d : Decision) → target d ≢ pending_approval
target_settled (approve now actor) e = cc
target_settled (reject reason actor) e = cc
target_settled (cancel reason actor) e = cc

module _ (d : Decision) (r : ActionRequest) (t : Tables) where
  rows-decided_self :
      rows request_id_of r.id t.requests ≡ r ∷ []
      → rows request_id_of r.id (decided d r t).requests ≡ outcome d r ∷ []
  rows-decided_self e =
      rows-assign_self (set_fields d) (set_fields-id d) r.id
        (assign r.id (set_status (target d)) t.requests)
      ∙ ap (map (set_fields d))
          (rows-assign_self (set_status (target d)) (λ x. refl) r.id t.requests)
      ∙ ap (λ l. map (set_fields d) (map (set_status (target d)) l)) e

  rows-decided_other :
      (k : String)
      → r.id ≢ k
      → rows request_id_of k (decided d r t).requests ≡ rows request_id_of k t.requests
  rows-decided_other k h =
      rows-assign_other (set_fields d) (set_fields-id d) r.id k
        (assign r.id (set_status (target d)) t.requests) h
      ∙ rows-assign_other (set_status (target d)) (λ x. refl) r.id k t.requests h

  decided-IsUnique :
      rows request_id_of r.id t.requests ≡ r ∷ []
      → IsUnique request_id_of t.requests
      → IsUnique request_id_of (decided d r t).requests
  decided-IsUnique e u k = elim (==_cases r.id k) [
    | inl same ↦
        subst (λ id. length (rows request_id_of id (decided d r t).requests) ≤ 1) same
          (rw (rows-decided_self e) (omega arith))
    | inr other ↦ rw (rows-decided_other k other) (u k)
  ]

  unfoldable new_audit : ActionRequestAudit
  new_audit = record {
    action_request_id = r.id;
    previous_status = r.status;
    new_status = target d;
    actor = decision_actor d;
    reason = decision_reason d;
  }

  trail-decided :
      (k : String) → trail k (decided d r t).audits ≡ trail k t.audits ++ trail k (new_audit ∷ [])
  unfolding new_audit
  trail-decided k = rw (rows-append audited_id k t.audits (new_audit ∷ []), map-append)

  trail-new_self : trail r.id (new_audit ∷ []) ≡ (r.status, target d) ∷ []
  unfolding new_audit
  trail-new_self =
      ap (map (λ (a : ActionRequestAudit). (a.previous_status, a.new_status)))
        (rows_self audited_id new_audit)

  trail-new_other : (k : String) → r.id ≢ k → trail k (new_audit ∷ []) ≡ []
  unfolding new_audit
  trail-new_other k h =
      ap (map (λ (a : ActionRequestAudit). (a.previous_status, a.new_status)))
        (rows-other audited_id k new_audit h)

  decided-IsAudited :
      rows request_id_of r.id t.requests ≡ r ∷ []
      → r.status ≡ pending_approval
      → IsAudited t
      → IsAudited (decided d r t)
  decided-IsAudited e h audited k = elim (==_cases r.id k) [
    | inl same ↦
        subst
          (λ id.
            trail id (decided d r t).audits
            ≡ paths (rows request_id_of id (decided d r t).requests))
          same
          (trail-decided r.id
            ∙ rw (
              audited r.id,
              e,
              trail-new_self,
              h,
              rows-decided_self e,
              outcome-status d r,
              path_to-target d,
            ))
    | inr other ↦
        trail-decided k
        ∙ rw (trail-new_other k other, append-nil, audited k, rows-decided_other k other)
  ]

module _ (id : String) (d : Decision) (s : Session) where
  pending_cases : (st : ActionRequestStatus) → (st ≡ pending_approval) ⊎ (st ≢ pending_approval)
  pending_cases pending_approval = inl refl
  pending_cases approved = inr (λ e. cc)
  pending_cases rejected = inr (λ e. cc)
  pending_cases cancelled = inr (λ e. cc)

  rows_at_own-id :
      (r : ActionRequest)
      → rows request_id_of id s.current.requests ≡ r ∷ []
      → rows request_id_of r.id s.current.requests ≡ r ∷ []
  rows_at_own-id r e =
      subst (λ k. rows request_id_of k s.current.requests ≡ r ∷ [])
        (sym (row-key request_id_of id s.current.requests r [] e)) e

  decided-IsSound :
      (r : ActionRequest)
      → rows request_id_of id s.current.requests ≡ r ∷ []
      → r.status ≡ pending_approval
      → IsSound s
      → IsSound (settle (decided d r s.current) s)
  decided-IsSound r e h sound = record {
    committed = refl;
    unique = decided-IsUnique d r s.current (rows_at_own-id r e) sound.unique;
    audited = decided-IsAudited d r s.current (rows_at_own-id r e) h sound.audited;
  }

  -- In a session whose tables are committed, whose requests have distinct identifiers and
  -- whose audit records name, for each request, just the transitions that lead to its status, every
  -- approval, rejection or cancellation, refused or not, leaves a session of which this holds again.
  pub decide-IsSound : IsSound s → IsSound (decide id d s).1
  decide-IsSound sound =
      elim (one_row request_id_of multiple_results_found id s.current.requests sound.unique) [
        | inl (absent, _) ↦ subst (λ o. IsSound o.1) (sym (decide_missing id d s absent)) sound
        | inr (r, e, _) ↦ elim (pending_cases r.status) [
          | inl h ↦
              subst (λ o. IsSound o.1) (sym (decide_pending id d r s e h))
                (decided-IsSound r e h sound)
          | inr h ↦ subst (λ o. IsSound o.1) (sym (decide_refused id d r s e h)) sound
        ]
      ]

  -- When one request has the identifier, a first decision on it, taken or refused, is
  -- final: a second decision is refused and leaves the session as the first left it.
  pub decide_twice :
      (d' : Decision) (r : ActionRequest)
      → rows request_id_of id s.current.requests ≡ r ∷ []
      → (status : ActionRequestStatus) × (status ≢ pending_approval)
        × (decide id d' (decide id d s).1
            ≡ (err (invalid_transition status (target d')), (decide id d s).1))
  decide_twice d' r e = elim (pending_cases r.status) [
    | inl h ↦
        let own = row-key request_id_of id s.current.requests r [] e in
        let after = settle (decided d r s.current) s in
        let e' =
          subst (λ k. rows request_id_of k after.current.requests ≡ outcome d r ∷ []) own
            (rows-decided_self d r s.current (rows_at_own-id r e)) in
        let settled : (outcome d r).status ≢ pending_approval =
          λ p. target_settled d (sym (outcome-status d r) ∙ p) in
        (
          (outcome d r).status,
          settled,
          subst
              (λ o.
                decide id d' o.1 ≡ (err (invalid_transition (outcome d r).status (target d')), o.1))
              (sym (decide_pending id d r s e h))
              (decide_refused id d' (outcome d r) after e' settled),
        )
    | inr h ↦ (
      r.status,
      h,
      subst (λ o. decide id d' o.1 ≡ (err (invalid_transition r.status (target d')), o.1))
          (sym (decide_refused id d r s e h)) (decide_refused id d' r s e h),
    )
  ]
