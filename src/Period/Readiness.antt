-- ===== src/Period/Readiness.antt =====
-- `evaluate_close_readiness` of services/period.py: the seven controls and their verdict.
use financial_ai_operator.Prelude.{
  ℕ, String, Bool, not, ◌&&◌, ◌||◌, some, List, [], ◌∷◌, ◌==◌, string_eq, option_eq, if◌then◌else◌,
  ltb, keep, any, all, length,
}
use financial_ai_operator.Period.Model.{
  pass, blocked, info, critical, CloseControlCode, close_unreconciled_transactions,
  close_unresolved_exceptions, close_pending_investigations, close_failed_investigations,
  close_pending_action_requests, close_running_executions, close_unknown_executions,
  control_status_eq, FinancialPeriod, Floats, CloseControlResult, CloseReadiness, Discrepancy,
  ActionRequest, ActionExecution, Tables, within,
}
use financial_ai_operator.Period.Metrics.{calculate_period_metrics}

unfoldable pub control : CloseControlCode → ℕ → CloseControlResult
control code count = record {
  control_code = code;
  status = if ltb 0 count then blocked else pass;
  severity = if ltb 0 count then critical else info;
  count = count;
}

unfoldable pub unreconciled : FinancialPeriod → Tables → ℕ
unfolding within
unreconciled period t =
    length (keep (λ p. within period p.created_at && not (p.status == "RECONCILED")) t.payments)

-- A request of the discrepancy has an execution that succeeded. The loops stop at the first.
unfoldable pub is_resolved : List ActionRequest → List ActionExecution → Discrepancy → Bool
is_resolved requests executions disc =
    any
      (λ ar.
        any (λ ex. ex.status == "SUCCEEDED")
          (keep (λ ex. ex.action_request_id == ar.id) executions))
      (keep (λ ar. ar.discrepancy_id == some disc.id) requests)

unfoldable pub unresolved : FinancialPeriod → Tables → ℕ
unfolding within is_resolved
unresolved period t = length (
    keep (λ d. not (is_resolved t.requests t.executions d))
      (keep (λ d. within period d.created_at) t.discrepancies))

unfoldable pub investigations_in : String → FinancialPeriod → Tables → ℕ
unfolding within
investigations_in status period t =
    length (keep (λ i. within period i.created_at && (i.status == status)) t.investigations)

unfoldable pub pending_actions : FinancialPeriod → Tables → ℕ
unfolding within
pending_actions period t =
    length (keep (λ r. within period r.created_at && (r.status == "PENDING_APPROVAL")) t.requests)

unfoldable pub running_execs : FinancialPeriod → Tables → ℕ
unfolding within
running_execs period t = length (
    keep (λ x. within period x.created_at && ((x.status == "PENDING") || (x.status == "RUNNING")))
      t.executions)

unfoldable pub unknown_execs : FinancialPeriod → Tables → ℕ
unfolding within
unknown_execs period t =
    length (keep (λ x. within period x.created_at && (x.status == "UNKNOWN")) t.executions)

unfoldable pub controls_of : FinancialPeriod → Tables → List CloseControlResult
unfolding control unreconciled unresolved investigations_in pending_actions running_execs
    unknown_execs
controls_of period t =
    control close_unreconciled_transactions (unreconciled period t)
    ∷ control close_unresolved_exceptions (unresolved period t)
    ∷ control close_pending_investigations (investigations_in "PENDING" period t)
    ∷ control close_failed_investigations (investigations_in "FAILED" period t)
    ∷ control close_pending_action_requests (pending_actions period t)
    ∷ control close_running_executions (running_execs period t)
    ∷ control close_unknown_executions (unknown_execs period t)
    ∷ []

-- `all(c.status != ControlStatus.BLOCKED for c in controls)`
unfoldable pub unblocked : List CloseControlResult → Bool
unblocked controls = all (λ c. not (c.status == blocked)) controls

unfoldable pub evaluate_close_readiness : Floats → ℕ → FinancialPeriod → Tables → CloseReadiness
unfolding controls_of unblocked calculate_period_metrics
evaluate_close_readiness f now period t = record {
  period_id = period.id;
  is_ready = unblocked (controls_of period t);
  overall_status = if unblocked (controls_of period t) then pass else blocked;
  controls = controls_of period t;
  metrics = calculate_period_metrics f period t;
  evaluated_at = now;
}
