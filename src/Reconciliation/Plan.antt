-- ===== src/Reconciliation/Plan.antt =====
-- What a run asks of the database, as a list of steps that is fixed before the run starts: no
-- decision of the matchers depends on the rows already recorded. The children relate it to the code.
pub mod Refinement
pub mod Apart
use financial_ai_operator.Prelude.{
  ℕ, String, Bool, Option, none, some, List, [], ◌∷◌, ◌++◌, if◌then◌else◌, keep, ◌==◌,
}
use financial_ai_operator.Prelude.Outcome.{Action, pure, ◌>>=◌}
use financial_ai_operator.Reconciliation.Model.{
  SettlementItem, Payment, BankTransaction, Settlement, RelationshipColumns, DiscrepancyColumns,
  Stats,
}
use financial_ai_operator.Reconciliation.Session.{
  Error, Session, upsert_relationship, ensure_discrepancy, ensure_discrepancy_later,
  count_relationship, count_discrepancy,
}
use financial_ai_operator.Reconciliation.PaymentSettlement
use financial_ai_operator.Reconciliation.PaymentSettlement.{
  evaluate_item, item_relationship, item_discrepancy, missing_settlement_discrepancy,
}
use financial_ai_operator.Reconciliation.SettlementBank
use financial_ai_operator.Reconciliation.SettlementBank.{
  fee_discrepancy, bank_discrepancy, bank_relationship, status_of, missing_bank_discrepancy,
}
use financial_ai_operator.Reconciliation.Engine.{Clock}

-- `report_later` is a report that is not flushed.
pub data Step : Type 0 where
  relate : RelationshipColumns → Step
  report report_later : DiscrepancyColumns → Step

module _ (uuid : ℕ → String) (run_id : String) where
  unfoldable pub perform : Step → Stats → Action Session Error Stats
  perform (relate c) st = do
    created ← upsert_relationship uuid run_id c
    pure (count_relationship created st)
  perform (report c) st = do
    created ← ensure_discrepancy uuid run_id c
    pure (count_discrepancy created st)
  perform (report_later c) st = do
    created ← ensure_discrepancy_later uuid run_id c
    pure (count_discrepancy created st)

  unfoldable pub perform_all : List Step → Stats → Action Session Error Stats
  perform_all [] st = pure st
  perform_all (step ∷ steps) st = do st' ← perform step st; perform_all steps st'

abbrev pub maybe_report : Option DiscrepancyColumns → List Step
maybe_report none = []
maybe_report (some c) = report c ∷ []

module _ (payment : Payment) where
  abbrev pub report_data : Option PaymentSettlement.DiscrepancyData → List Step
  report_data none = []
  report_data (some info) = report (item_discrepancy payment info) ∷ []

  unfoldable pub item_plan : SettlementItem → List Step
  item_plan item =
      let evaluated = evaluate_item payment item in
      relate (item_relationship payment item evaluated.0) ∷ report_data evaluated.1

  unfoldable pub items_plan : List SettlementItem → List Step
  unfolding item_plan
  items_plan [] = []
  items_plan (item ∷ items) = item_plan item ++ items_plan items

unfoldable pub missing_plan : (Payment → ℕ) → Payment → List Step
missing_plan clock payment =
    if PaymentSettlement.is_overdue (clock payment) payment
    then report_later (missing_settlement_discrepancy payment) ∷ []
    else []

unfoldable pub payment_plan : (Payment → ℕ) → Payment → List Step
unfolding items_plan missing_plan
payment_plan clock payment = elim payment.settlement_items [
  | [] ↦ missing_plan clock payment
  | item ∷ items ↦ items_plan payment (item ∷ items)
]

unfoldable pub payments_plan : (Payment → ℕ) → List Payment → List Step
payments_plan clock [] = []
payments_plan clock (payment ∷ payments) =
    payment_plan clock payment ++ payments_plan clock payments

unfoldable pub transaction_plan : Settlement → BankTransaction → List Step
transaction_plan settlement btx =
    let found = bank_discrepancy settlement btx in
    maybe_report found ++ relate (bank_relationship settlement btx (status_of found)) ∷ []

unfoldable pub transactions_plan : Settlement → List BankTransaction → List Step
transactions_plan settlement [] = []
transactions_plan settlement (btx ∷ bank_txs) =
    transaction_plan settlement btx ++ transactions_plan settlement bank_txs

unfoldable pub bank_plan : (Settlement → ℕ) → Settlement → List Step
bank_plan clock settlement = elim settlement.bank_transactions [
  | [] ↦
      if SettlementBank.is_overdue (clock settlement) settlement
      then report (missing_bank_discrepancy settlement) ∷ []
      else []
  | btx ∷ bank_txs ↦ transactions_plan settlement (btx ∷ bank_txs)
]

unfoldable pub settlement_plan : (Settlement → ℕ) → Settlement → List Step
settlement_plan clock settlement =
    maybe_report (fee_discrepancy settlement) ++ bank_plan clock settlement

unfoldable pub settlements_plan : (Settlement → ℕ) → List Settlement → List Step
settlements_plan clock [] = []
settlements_plan clock (settlement ∷ settlements) =
    settlement_plan clock settlement ++ settlements_plan clock settlements

-- The steps of a whole run.
unfoldable pub run_plan : Clock → List Payment → List Settlement → List Step
run_plan clock payments settlements =
    payments_plan clock.at_payment
      (keep (PaymentSettlement.in_window clock.payments_start) payments)
    ++ settlements_plan clock.at_settlement
        (keep (SettlementBank.in_window clock.settlements_start) settlements)
