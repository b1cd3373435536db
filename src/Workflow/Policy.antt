-- ===== src/Workflow/Policy.antt =====
-- services/policy/engine.py
pub mod Laws
use financial_ai_operator.Prelude.{
  ℕ, String, Bool, true, false, ◌&&◌, Option, none, some, List, [], ◌∷◌, ◌++◌, ◌==◌, string_eq,
  pair_eq, leb, if◌then◌else◌,
}
use financial_ai_operator.Prelude.Outcome.{Action, pure, raise, gets, lift, ◌>>=◌, ◌>>◌}
use financial_ai_operator.Table.{scalar_one_or_none, rows}
use financial_ai_operator.Workflow.Model.{
  PolicyAction, request_manual_review, retry_investigation, resolve_discrepancy,
  reject_recommendation, escalate, PolicyDecision, allowed, approval_required, Investigation,
  PolicyEvaluation, policy_action_eq, policy_decision_eq,
}
use financial_ai_operator.Workflow.Store.{
  Tables, Session, Error, multiple_results_found, not_found, commit, write, draw,
}

pub record Ruling : Type 0 where
  pub decision : PolicyDecision
  pub rule_code : String
  pub reason : String
  pub approval_required : Bool

-- The rules. Each member of the enumeration has its own, so that the last `else` is never reached.
unfoldable pub ruling : PolicyAction → Ruling
ruling request_manual_review = record {
  decision = allowed;
  rule_code = "POLICY_MANUAL_REVIEW_ALLOWED";
  reason = "Manual review is always allowed.";
  approval_required = false;
}
ruling retry_investigation = record {
  decision = allowed;
  rule_code = "POLICY_RETRY_ALLOWED";
  reason = "Retrying investigations is allowed.";
  approval_required = false;
}
ruling resolve_discrepancy = record {
  decision = approval_required;
  rule_code = "POLICY_RESOLUTION_REQUIRES_APPROVAL";
  reason = "Financial resolutions require human approval.";
  approval_required = true;
}
ruling reject_recommendation = record {
  decision = approval_required;
  rule_code = "POLICY_REJECTION_REQUIRES_APPROVAL";
  reason = "Rejecting a recommendation requires approval tracking.";
  approval_required = true;
}
ruling escalate = record {
  decision = approval_required;
  rule_code = "POLICY_ESCALATION_REQUIRES_APPROVAL";
  reason = "Escalations require explicit approval.";
  approval_required = true;
}

abbrev pub evaluation_key : PolicyEvaluation → String × PolicyAction
evaluation_key e = (e.investigation_id, e.action)

-- `order_by(created_at.desc()).limit(1)`
unfoldable pub later : PolicyEvaluation → Option PolicyEvaluation → PolicyEvaluation
later e none = e
later e (some e') = if leb e'.created_at e.created_at then e else e'

unfoldable pub newest : List PolicyEvaluation → Option PolicyEvaluation
newest [] = none
newest (e ∷ es) = some (later e (newest es))

-- `existing and existing.decision == decision and existing.rule_code == rule_code`
unfoldable pub agrees : Ruling → PolicyEvaluation → Bool
agrees r e = (e.decision == r.decision) && (e.rule_code == r.rule_code)

unfoldable pub new_evaluation : String → ℕ → Investigation → PolicyAction → PolicyEvaluation
new_evaluation id now investigation action =
    let r = ruling action in
    record {
      id = id;
      investigation_id = investigation.id;
      discrepancy_id = investigation.discrepancy_id;
      action = action;
      decision = r.decision;
      rule_code = r.rule_code;
      reason = r.reason;
      approval_required = r.approval_required;
      created_at = now;
    }

module _ (uuid : ℕ → String) (now : ℕ) where
  unfoldable pub record_evaluation :
      Investigation → PolicyAction → Action Session Error PolicyEvaluation
  record_evaluation investigation action = do
    id ← draw uuid
    let e = new_evaluation id now investigation action
    write (λ t. record t { evaluations = t.evaluations ++ e ∷ [] })
    commit
    pure e

  unfoldable pub reuse_or_record :
      Investigation → PolicyAction → Option PolicyEvaluation → Action Session Error PolicyEvaluation
  unfolding record_evaluation
  reuse_or_record investigation action none = record_evaluation investigation action
  reuse_or_record investigation action (some existing) =
      if agrees (ruling action) existing
      then pure existing
      else record_evaluation investigation action

  unfoldable pub evaluate_found :
      String → PolicyAction → Option Investigation → Action Session Error PolicyEvaluation
  unfolding reuse_or_record
  evaluate_found investigation_id action none = raise (not_found investigation_id)
  evaluate_found investigation_id action (some investigation) = do
    found ← gets (λ s. rows evaluation_key (investigation_id, action) s.current.evaluations)
    reuse_or_record investigation action (newest found)

  -- `PolicyEngine.evaluate`
  unfoldable pub evaluate : String → PolicyAction → Action Session Error PolicyEvaluation
  unfolding evaluate_found
  evaluate investigation_id action = do
    found ← gets (λ s. rows (λ (i : Investigation). i.id) investigation_id s.current.investigations)
    investigation ← lift (scalar_one_or_none multiple_results_found found)
    evaluate_found investigation_id action investigation
