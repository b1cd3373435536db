-- ===== src/Tests/Reconciliation.antt =====
-- A day of payments and settlements for services/reconciliation.
use mathlib.Core.List.{Memᴰ}
use financial_ai_operator.Prelude.{
  ℕ, zero, suc, ◌+◌, String, ◌≡◌, ◌≢◌, ◌↔◌, refl, none, some, List, [], ◌∷◌, ◌<◌, arith, length,
  keep, ==_apart, string_eq,
}
use financial_ai_operator.Prelude.Outcome.{ok}
use financial_ai_operator.Prelude.Int.{int_eq, ◌+ℤ◌, ◌-ℤ◌, pos}
use financial_ai_operator.Reconciliation.Model.{
  days, Payment, SettlementItem, Settlement, BankTransaction, ReconciliationRun, completed,
  reconciled,
}
use financial_ai_operator.Reconciliation.Session.{Session}
use financial_ai_operator.Reconciliation.PaymentSettlement
use financial_ai_operator.Reconciliation.PaymentSettlement.{evaluate_item}
use financial_ai_operator.Reconciliation.SettlementBank
use financial_ai_operator.Reconciliation.SettlementBank.{
  bank_discrepancy, amount_to_match, expected_net, truthy,
}
use financial_ai_operator.Reconciliation.Engine.{Clock, run_reconciliation}
use financial_ai_operator.Reconciliation.Plan.Apart.{HasDistinctIds}
use financial_ai_operator.Reconciliation.Ledger.{Ledger, view}
use financial_ai_operator.Reconciliation.Ledger.Laws.{HasRelationship, HasDiscrepancy, Extends}
use financial_ai_operator.Reconciliation.Run.{IsReady, Recorded, candidates, run_refines_ledger}
use financial_ai_operator.Reconciliation.Guarantees.{commit, run_counts_rows, run_keeps_rows}
use financial_ai_operator.Reconciliation.Coverage.{
  amount_mismatch_recorded, missing_settlement_recorded, bank_mismatch_recorded,
}
use financial_ai_operator.Reconciliation.Rerun.{NothingFallsDue, idle_record, rerun_adds_nothing}
use financial_ai_operator.Reconciliation.Rules.{evaluate_item_reconciled, bank_discrepancy-none}

abbrev uuid : ℕ → String
uuid zero = "u0"
uuid (suc n) = "u1"

abbrev short_item : SettlementItem
short_item = record { id = "i1"; settlement_id = "s1"; amount = pos 4; currency = "USD" }

abbrev paid : Payment
paid = record {
  id = "p1";
  amount = pos 5;
  currency = "USD";
  processed_at = some 0;
  settlement_items = short_item ∷ [];
}

abbrev unsettled : Payment
unsettled = record {
  id = "p2";
  amount = pos 7;
  currency = "USD";
  processed_at = some 0;
  settlement_items = [];
}

abbrev transfer : BankTransaction
transfer = record { id = "b1"; amount = pos 3; currency = "USD"; transaction_date = 0 }

abbrev settlement : Settlement
settlement = record {
  id = "s1";
  gross_amount = pos 5;
  fee_amount = pos 1;
  adjustment_amount = pos 0;
  actual_settled_amount = some (pos 0);
  currency = "USD";
  settlement_date = 0;
  bank_transactions = transfer ∷ [];
}

abbrev clock : Clock
clock = record {
  payments_start = days 5;
  at_payment = λ p. days 5;
  settlements_start = days 5;
  at_settlement = λ b. days 5;
}

abbrev payments : List Payment
payments = paid ∷ unsettled ∷ []

abbrev settlements : List Settlement
settlements = settlement ∷ []

abbrev empty : Session
empty = record { relationships = []; discrepancies = []; pending = []; drawn = 0 }

payments-HasDistinctIds : HasDistinctIds payments
payments-HasDistinctIds = ((==_apart "p1" "p2" refl, tt), (tt, tt))

empty-IsReady : IsReady empty
empty-IsReady = record {
  committed = refl;
  consistent = record {
    relationships_unique = λ k. omega arith;
    discrepancies_unique = λ k. omega arith;
  };
}

run_refines_ledger_example : Recorded uuid "r1" clock payments settlements empty
run_refines_ledger_example =
    run_refines_ledger uuid "r1" clock payments settlements empty payments-HasDistinctIds
      empty-IsReady

run_counts_rows_example :
    (r : ReconciliationRun) × (s' : Session) × (run_reconciliation uuid "r1" clock payments
        settlements empty
      ≡ (ok r, s'))
    × (r.status ≡ completed)
    × (r.matches_created + length (view empty).relationships ≡ length (view s').relationships)
    × (r.discrepancies_found + length (view empty).discrepancies ≡ length (view s').discrepancies)
    × (r.total_records_processed
        ≡ length (keep (PaymentSettlement.in_window clock.payments_start) payments)
          + length (keep (SettlementBank.in_window clock.settlements_start) settlements))
run_counts_rows_example =
    run_counts_rows uuid "r1" clock payments settlements empty payments-HasDistinctIds empty-IsReady

run_keeps_rows_example :
    Extends (view empty) (view (run_reconciliation uuid "r1" clock payments settlements empty).1)
run_keeps_rows_example =
    run_keeps_rows uuid "r1" clock payments settlements empty payments-HasDistinctIds empty-IsReady

-- The day after.
abbrev next_clock : Clock
next_clock = record {
  payments_start = days 6;
  at_payment = λ p. days 6;
  settlements_start = days 6;
  at_settlement = λ b. days 6;
}

nothing_due : NothingFallsDue clock next_clock payments settlements
unfolding PaymentSettlement.is_overdue SettlementBank.is_overdue
nothing_due = record {
  payments_later = omega arith;
  settlements_later = omega arith;
  payments_due = (refl, (refl, tt));
  settlements_due = (refl, tt);
}

rerun_adds_nothing_example :
    let s' = commit (run_reconciliation uuid "r1" clock payments settlements empty).1 in
    let again = run_reconciliation uuid "r2" next_clock payments settlements s' in
    (again.0 ≡ ok (idle_record "r2" (candidates next_clock payments settlements).processed))
    × (view again.1 ≡ view s')
rerun_adds_nothing_example =
    rerun_adds_nothing uuid uuid "r1" "r2" clock next_clock payments settlements empty
      payments-HasDistinctIds empty-IsReady nothing_due

abbrev left : Ledger
left = view (run_reconciliation uuid "r1" clock payments settlements empty).1

amount_mismatch_recorded_example :
    HasRelationship ("p1", ("s1", "PAYMENT_TO_SETTLEMENT")) left
    × HasDiscrepancy ("p1", "PAYMENT_SETTLEMENT_AMOUNT_001") left
unfolding PaymentSettlement.in_window
amount_mismatch_recorded_example =
    amount_mismatch_recorded uuid "r1" clock payments settlements empty paid short_item
      payments-HasDistinctIds empty-IsReady (Memᴰ.head refl) refl (Memᴰ.head refl) (λ e. cc)

missing_settlement_recorded_example : HasDiscrepancy ("p2", "PAYMENT_MISSING_SETTLEMENT_001") left
unfolding PaymentSettlement.in_window
missing_settlement_recorded_example =
    missing_settlement_recorded uuid "r1" clock payments settlements empty unsettled 0
      payments-HasDistinctIds empty-IsReady (Memᴰ.tail (Memᴰ.head refl)) refl refl refl
      (omega arith)

transfer_short : transfer.amount ≢ amount_to_match settlement
unfolding amount_to_match truthy expected_net ◌+ℤ◌ ◌-ℤ◌
transfer_short = ==_apart (pos 3) (amount_to_match settlement) refl

bank_mismatch_recorded_example :
    HasRelationship ("s1", ("b1", "SETTLEMENT_TO_BANK")) left
    × HasDiscrepancy ("s1", "SETTLEMENT_BANK_AMOUNT_001") left
unfolding SettlementBank.in_window
bank_mismatch_recorded_example =
    bank_mismatch_recorded uuid "r1" clock payments settlements empty settlement transfer
      payments-HasDistinctIds empty-IsReady (Memᴰ.head refl) refl (Memᴰ.head refl) transfer_short

evaluate_item_reconciled_example :
    (((evaluate_item paid short_item).0 ≡ reconciled)
      ↔ ((paid.amount ≡ short_item.amount) × (paid.currency ≡ short_item.currency)))
    × (((evaluate_item paid short_item).1 ≡ none)
        ↔ ((paid.amount ≡ short_item.amount) × (paid.currency ≡ short_item.currency)))
evaluate_item_reconciled_example = evaluate_item_reconciled paid short_item

bank_discrepancy-none_example : (bank_discrepancy settlement transfer ≡ none) ↔ (
    (transfer.amount ≡ amount_to_match settlement)
    × (transfer.transaction_date < settlement.settlement_date + days 4)
    × (settlement.currency ≡ transfer.currency))
bank_discrepancy-none_example = bank_discrepancy-none settlement transfer
