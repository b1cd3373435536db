-- ===== src/Period/Controls.antt =====
-- What the seven controls of services/period.py ask of the tables.
use mathlib.Core.List.{Memᴰ}
use financial_ai_operator.Prelude.{
  ℕ, String, ◌≡◌, ◌≢◌, ◌↔◌, refl, ap, sym, ◌∙◌, Bool, true, false, not, ◌&&◌, ◌||◌, some, List,
  arith, ◌==◌, string_eq, option_eq, eqb, keep, any, All, ==_refl, ==_false, ==_true, ==_apart,
}
use financial_ai_operator.Prelude.Members.{
  keep_twice, none_of_iff, Mem_of-any, any_of-Mem, Mem-keep, Mem_of-keep,
}
use financial_ai_operator.Period.Model.{
  CloseControlCode, close_unreconciled_transactions, close_unresolved_exceptions,
  close_pending_investigations, close_failed_investigations, close_pending_action_requests,
  close_running_executions, close_unknown_executions, blocked, control_status_eq,
  ControlStatus-discrete, FinancialPeriod, Floats, Discrepancy, ActionRequest, ActionExecution,
  Tables, within,
}
use financial_ai_operator.Period.Readiness.{
  control, unreconciled, is_resolved, unresolved, investigations_in, pending_actions, running_execs,
  unknown_execs, controls_of, unblocked, evaluate_close_readiness,
}

-- A discrepancy has a request with an execution that succeeded.
abbrev pub IsResolved : List ActionRequest → List ActionExecution → Discrepancy → Type 0
IsResolved requests executions d =
    (ar : ActionRequest) × Memᴰ ar requests
    × (ar.discrepancy_id ≡ some d.id)
    × ((ex : ActionExecution) × Memᴰ ex executions
        × (ex.action_request_id ≡ ar.id)
        × (ex.status ≡ "SUCCEEDED"))

-- What the controls ask of the rows that were created in the period. No control reads settlements,
-- and of investigations those of other statuses do not count.
pub record IsClear (period : FinancialPeriod) (t : Tables) : Type 0 where
  pub reconciled : All (λ p. within period p.created_at ≡ true → p.status ≡ "RECONCILED") t.payments
  pub resolved :
      All
        (λ d. within period d.created_at ≡ true → IsResolved t.requests t.executions d)
        t.discrepancies
  pub none_pending :
      All (λ i. within period i.created_at ≡ true → i.status ≢ "PENDING") t.investigations
  pub none_failed :
      All (λ i. within period i.created_at ≡ true → i.status ≢ "FAILED") t.investigations
  pub decided :
      All (λ r. within period r.created_at ≡ true → r.status ≢ "PENDING_APPROVAL") t.requests
  pub none_running :
      All
        (λ x. within period x.created_at ≡ true → (x.status ≢ "PENDING") × (x.status ≢ "RUNNING"))
        t.executions
  pub none_unknown :
      All (λ x. within period x.created_at ≡ true → x.status ≢ "UNKNOWN") t.executions

is_resolved_iff :
    (requests : List ActionRequest) (executions : List ActionExecution) (d : Discrepancy)
    → (is_resolved requests executions d ≡ true) ↔ IsResolved requests executions d
unfolding is_resolved
is_resolved_iff requests executions d = (
  λ h.
      let (ar, m, k) = Mem_of-any succeeded (keep mine requests) h in
      let (n, e) = Mem-keep mine ar requests m in
      let (ex, m', k') = Mem_of-any won (keep (of ar) executions) k in
      let (n', e') = Mem-keep (of ar) ex executions m' in
      (
        ar,
        n,
        ==_true ar.discrepancy_id (some d.id) e,
        (ex, n', ==_true ex.action_request_id ar.id e', ==_true ex.status "SUCCEEDED" k'),
      ),
  λ (ar, n, e, (ex, n', e', k')).
      any_of-Mem succeeded ar (keep mine requests)
        (Mem_of-keep mine ar requests n (ap (λ x. x == some d.id) e ∙ ==_refl (some d.id)))
        (any_of-Mem won ex (keep (of ar) executions)
          (Mem_of-keep (of ar) ex executions n' (ap (λ x. x == ar.id) e' ∙ ==_refl ar.id))
          (ap (λ x. x == "SUCCEEDED") k')),
)
  where
    mine : ActionRequest → Bool
    mine ar = ar.discrepancy_id == some d.id

    of : ActionRequest → ActionExecution → Bool
    of ar ex = ex.action_request_id == ar.id

    won : ActionExecution → Bool
    won ex = ex.status == "SUCCEEDED"

    succeeded : ActionRequest → Bool
    succeeded ar = any won (keep (of ar) executions)

apart_iff : (a b : String) → ((a == b) ≡ false) ↔ (a ≢ b)
apart_iff a b = (==_apart a b, ==_false a b)

not_apart_iff : (a b : String) → (not (a == b) ≡ false) ↔ (a ≡ b)
not_apart_iff a b = ground (arith, ==_true a b, ==_refl a, ==_false a b)

either_iff : (a b c : String) → (((a == b) || (a == c)) ≡ false) ↔ ((a ≢ b) × (a ≢ c))
either_iff a b c = ground (arith, apart_iff a b, apart_iff a c)

not_iff : (b : Bool) {P : Type 0} → (b ≡ true) ↔ P → (not b ≡ false) ↔ P
not_iff true h = (λ k. h.0 refl, λ p. refl)
not_iff false h = (λ k. cc, λ p. absurd (true≢false (sym (h.1 p))))
  where
    true≢false : true ≢ false
    true≢false e = cc

control_unblocked :
    (code : CloseControlCode) (n : ℕ) → not ((control code n).status == blocked) ≡ eqb n 0
unfolding control ControlStatus-discrete
control_unblocked code n = ground arith

module _ (period : FinancialPeriod) (t : Tables) where
  unreconciled_iff :
      (unreconciled period t ≡ 0)
      ↔ All (λ p. within period p.created_at ≡ true → p.status ≡ "RECONCILED") t.payments
  unfolding unreconciled
  unreconciled_iff =
      none_of_iff (λ p. within period p.created_at) (λ p. not (p.status == "RECONCILED"))
        (λ p. not_apart_iff p.status "RECONCILED") t.payments

  unresolved_iff :
      (unresolved period t ≡ 0)
      ↔ All
          (λ d. within period d.created_at ≡ true → IsResolved t.requests t.executions d)
          t.discrepancies
  unfolding unresolved
  unresolved_iff =
      rw
        (keep_twice (λ d. within period d.created_at)
          (λ d. not (is_resolved t.requests t.executions d)) t.discrepancies)
        (none_of_iff (λ d. within period d.created_at)
          (λ d. not (is_resolved t.requests t.executions d))
          (λ d.
            not_iff (is_resolved t.requests t.executions d)
              (is_resolved_iff t.requests t.executions d))
          t.discrepancies)

  investigations_iff :
      (status : String)
      → (investigations_in status period t ≡ 0)
        ↔ All (λ i. within period i.created_at ≡ true → i.status ≢ status) t.investigations
  unfolding investigations_in
  investigations_iff status =
      none_of_iff (λ i. within period i.created_at) (λ i. i.status == status)
        (λ i. apart_iff i.status status) t.investigations

  pending_actions_iff :
      (pending_actions period t ≡ 0)
      ↔ All (λ r. within period r.created_at ≡ true → r.status ≢ "PENDING_APPROVAL") t.requests
  unfolding pending_actions
  pending_actions_iff =
      none_of_iff (λ r. within period r.created_at) (λ r. r.status == "PENDING_APPROVAL")
        (λ r. apart_iff r.status "PENDING_APPROVAL") t.requests

  running_execs_iff :
      (running_execs period t ≡ 0)
      ↔ All
          (λ x. within period x.created_at ≡ true → (x.status ≢ "PENDING") × (x.status ≢ "RUNNING"))
          t.executions
  unfolding running_execs
  running_execs_iff =
      none_of_iff (λ x. within period x.created_at)
        (λ x. (x.status == "PENDING") || (x.status == "RUNNING"))
        (λ x. either_iff x.status "PENDING" "RUNNING") t.executions

  unknown_execs_iff :
      (unknown_execs period t ≡ 0)
      ↔ All (λ x. within period x.created_at ≡ true → x.status ≢ "UNKNOWN") t.executions
  unfolding unknown_execs
  unknown_execs_iff =
      none_of_iff (λ x. within period x.created_at) (λ x. x.status == "UNKNOWN")
        (λ x. apart_iff x.status "UNKNOWN") t.executions

  -- All seven counts are zero.
  abbrev AllZero : Type 0
  AllZero =
      (unreconciled period t ≡ 0)
      × (unresolved period t ≡ 0)
      × (investigations_in "PENDING" period t ≡ 0)
      × (investigations_in "FAILED" period t ≡ 0)
      × (pending_actions period t ≡ 0)
      × (running_execs period t ≡ 0)
      × (unknown_execs period t ≡ 0)

  unblocked_iff : (unblocked (controls_of period t) ≡ true) ↔ AllZero
  unfolding unblocked controls_of
  unblocked_iff =
      rw
        (
          control_unblocked close_unreconciled_transactions (unreconciled period t),
          control_unblocked close_unresolved_exceptions (unresolved period t),
          control_unblocked close_pending_investigations (investigations_in "PENDING" period t),
          control_unblocked close_failed_investigations (investigations_in "FAILED" period t),
          control_unblocked close_pending_action_requests (pending_actions period t),
          control_unblocked close_running_executions (running_execs period t),
          control_unblocked close_unknown_executions (unknown_execs period t),
        )
        (zeros (unreconciled period t) (unresolved period t) (investigations_in "PENDING" period t)
          (investigations_in "FAILED" period t) (pending_actions period t) (running_execs period t)
          (unknown_execs period t))
    where
      zeros :
          (a b c d e f g : ℕ)
          → ((eqb a 0
                && (eqb b 0
                    && (eqb c 0 && (eqb d 0 && (eqb e 0 && (eqb f 0 && (eqb g 0 && true)))))))
              ≡ true)
            ↔ ((a ≡ 0) × (b ≡ 0) × (c ≡ 0) × (d ≡ 0) × (e ≡ 0) × (f ≡ 0) × (g ≡ 0))
      zeros a b c d e f g = (λ h. ground arith, λ h. ground arith)

  -- A period is found ready exactly when, of the rows that were created in it, each payment is
  -- RECONCILED, each discrepancy has a request with an execution that SUCCEEDED, no investigation is
  -- PENDING or FAILED, no request is PENDING_APPROVAL, and no execution is PENDING, RUNNING or
  -- UNKNOWN. Nothing else counts: no settlement and no investigation of another status.
  pub readiness_iff_IsClear :
      (f : Floats) (now : ℕ)
      → ((evaluate_close_readiness f now period t).is_ready ≡ true) ↔ IsClear period t
  unfolding evaluate_close_readiness
  readiness_iff_IsClear f now = (
    λ h.
        let (a, b, c, d, e, x, u) = unblocked_iff.0 h in
        record {
          reconciled = unreconciled_iff.0 a;
          resolved = unresolved_iff.0 b;
          none_pending = (investigations_iff "PENDING").0 c;
          none_failed = (investigations_iff "FAILED").0 d;
          decided = pending_actions_iff.0 e;
          none_running = running_execs_iff.0 x;
          none_unknown = unknown_execs_iff.0 u;
        },
    λ c. unblocked_iff.1 (
      unreconciled_iff.1 c.reconciled,
      unresolved_iff.1 c.resolved,
      (investigations_iff "PENDING").1 c.none_pending,
      (investigations_iff "FAILED").1 c.none_failed,
      pending_actions_iff.1 c.decided,
      running_execs_iff.1 c.none_running,
      unknown_execs_iff.1 c.none_unknown,
    ),
  )
