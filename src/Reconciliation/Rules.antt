-- ===== src/Reconciliation/Rules.antt =====
-- The financial evaluations of the matchers, against the conditions that they are meant to test.
use financial_ai_operator.Prelude.{◌+◌, ◌≤◌, ◌<◌, ◌≡◌, ◌↔◌, true, none, arith, string_eq, ℕ}
use financial_ai_operator.Prelude.Int.{pos, int_eq, ltb_ℤ, eqb_ℤ_iff}
use text.Mathlib.TextEquality.{eq_iff}
use financial_ai_operator.Reconciliation.Model.{
  days, reconciled, Payment, SettlementItem, Settlement, BankTransaction,
}
use financial_ai_operator.Reconciliation.PaymentSettlement.{evaluate_item}
use financial_ai_operator.Reconciliation.SettlementBank.{
  amount_to_match, days_between, bank_discrepancy,
}

-- An item is evaluated as reconciled exactly when its amount and its currency are the payment's,
-- and exactly then it has no discrepancy.
pub evaluate_item_reconciled :
    (p : Payment) (i : SettlementItem)
    → (((evaluate_item p i).0 ≡ reconciled) ↔ ((p.amount ≡ i.amount) × (p.currency ≡ i.currency)))
      × (((evaluate_item p i).1 ≡ none) ↔ ((p.amount ≡ i.amount) × (p.currency ≡ i.currency)))
unfolding evaluate_item
evaluate_item_reconciled p i = (
  (
    λ h. ground (arith, eqb_ℤ_iff p.amount i.amount, eq_iff p.currency i.currency),
    λ h. ground (arith, eqb_ℤ_iff p.amount i.amount, eq_iff p.currency i.currency),
  ),
  (
    λ h. ground (arith, eqb_ℤ_iff p.amount i.amount, eq_iff p.currency i.currency),
    λ h. ground (arith, eqb_ℤ_iff p.amount i.amount, eq_iff p.currency i.currency),
  ),
)

-- "More than three days" in whole days is four days or more.
late_iff : (a b : ℕ) → (ltb_ℤ (pos 3) (days_between a b) ≡ true) ↔ (b + days 4 ≤ a)
unfolding days_between
late_iff a b = (λ h. ground arith, λ h. ground arith)

-- A bank transaction has no discrepancy exactly when its amount is the amount to match, it came
-- less than four times 24 hours after the settlement date, and its currency is the settlement's. The
-- code counts whole days, so that one that is late by more than three days but less than four has none.
pub bank_discrepancy-none :
    (b : Settlement) (t : BankTransaction)
    → (bank_discrepancy b t ≡ none) ↔ (
        (t.amount ≡ amount_to_match b)
        × (t.transaction_date < b.settlement_date + days 4)
        × (b.currency ≡ t.currency))
unfolding bank_discrepancy
bank_discrepancy-none b t = (
  λ h. ground (
    arith,
    eqb_ℤ_iff t.amount (amount_to_match b),
    late_iff t.transaction_date b.settlement_date,
    eq_iff b.currency t.currency,
  ),
  λ h. ground (
    arith,
    eqb_ℤ_iff t.amount (amount_to_match b),
    late_iff t.transaction_date b.settlement_date,
    eq_iff b.currency t.currency,
  ),
)
