-- ===== src/Exceptions/State.antt =====
-- The two derivations of services/exceptions.py agree.
use financial_ai_operator.Prelude.{
  String, ◌≡◌, refl, inl, inr, ◌||◌, Option, none, some, ◌==◌, string_eq, if◌then◌else◌, arith,
  Bool-cases, ==_true,
}
use financial_ai_operator.Exceptions.{
  OverallState, resolved, failed, unknown, executing, approved, awaiting_approval, investigating,
  open_state, by_execution, by_request, by_policy, by_investigation, when_truthy, or_else,
  determine_overall_state, is_text, overall_state_case,
}

-- The branches of the `case` that read one column, with what the other branches come to.
module _ (rest : OverallState) where
  execution_branches :
      (status : Option String)
      → or_else (when_truthy by_execution status) rest ≡ (
          if is_text status "SUCCEEDED"
          then resolved
          else (if is_text status "FAILED"
              then failed
              else (if is_text status "UNKNOWN"
                  then unknown
                  else (if is_text status "PENDING" || is_text status "RUNNING"
                      then executing
                      else rest))))
  unfolding when_truthy by_execution
  execution_branches none = refl
  execution_branches (some status) = elim (Bool-cases (status == "")) [
    | inl empty ↦ rw (==_true status "" empty)
    | inr full ↦ ground (arith, full)
  ]

  request_branches :
      (status : Option String)
      → or_else (when_truthy by_request status) rest ≡ (
          if is_text status "APPROVED"
          then approved
          else (if is_text status "PENDING_APPROVAL"
              then awaiting_approval
              else (if is_text status "REJECTED" || is_text status "CANCELLED"
                  then open_state
                  else rest)))
  unfolding when_truthy by_request
  request_branches none = refl
  request_branches (some status) = elim (Bool-cases (status == "")) [
    | inl empty ↦ rw (==_true status "" empty)
    | inr full ↦ ground (arith, full)
  ]

  policy_branches :
      (decision : Option String)
      → or_else (when_truthy by_policy decision) rest ≡ (
          if is_text decision "DENIED"
          then resolved
          else (if is_text decision "APPROVAL_REQUIRED" then awaiting_approval else rest))
  unfolding when_truthy by_policy
  policy_branches none = refl
  policy_branches (some decision) = elim (Bool-cases (decision == "")) [
    | inl empty ↦ rw (==_true decision "" empty)
    | inr full ↦ ground (arith, full)
  ]

  investigation_branches :
      (status : Option String)
      → or_else (when_truthy by_investigation status) rest ≡ (
          if is_text status "PENDING"
          then investigating
          else (if is_text status "FAILED" || is_text status "UNAVAILABLE" then failed else rest))
  unfolding when_truthy by_investigation
  investigation_branches none = refl
  investigation_branches (some status) = elim (Bool-cases (status == "")) [
    | inl empty ↦ rw (==_true status "" empty)
    | inr full ↦ ground (arith, full)
  ]

-- Whatever the four statuses are, absent, empty or any text, the state that the listing shows for
-- a row is the state by which the query filters it.
pub listed_state_agrees :
    (inv_status pol_decision req_status exec_status : Option String)
    → determine_overall_state inv_status pol_decision req_status exec_status
      ≡ overall_state_case inv_status pol_decision req_status exec_status
unfolding determine_overall_state overall_state_case
listed_state_agrees inv_status pol_decision req_status exec_status =
    rw (investigation_branches open_state inv_status) (
      rw (policy_branches _ pol_decision)
        (rw (request_branches _ req_status) (rw (execution_branches _ exec_status) refl)))
