-- ===== src/Reconciliation/PaymentSettlement.antt =====
-- services/reconciliation/matchers/payment_settlement.py
use financial_ai_operator.Prelude.{
  ℕ, ◌+◌, String, Bool, false, not, Option, none, some, List, [], ◌∷◌, ◌==◌, string_eq, ltb, leb,
  if◌then◌else◌, keep,
}
use financial_ai_operator.Prelude.Outcome.{Action, pure, ◌>>=◌}
use financial_ai_operator.Prelude.Int.{ℤ, int_eq}
use financial_ai_operator.Reconciliation.Model.{
  days, RelationshipStatus, FinancialStatus, reconciled, discrepancy, DiscrepancyType,
  amount_mismatch, currency_mismatch, missing_settlement, high, SettlementItem, Payment,
  payment_evidence, RelationshipColumns, DiscrepancyColumns, Stats,
}
use financial_ai_operator.Reconciliation.Session.{
  Error, Session, difference, upsert_relationship, ensure_discrepancy, ensure_discrepancy_later,
  count_relationship, count_discrepancy,
}

-- `discrepancy_data`: the rule that fires, with the amounts that it compares.
pub record DiscrepancyData : Type 0 where
  pub rule_code : String
  pub disc_type : DiscrepancyType
  pub target_id : String
  pub target_type : String
  pub expected : Option ℤ
  pub actual : Option ℤ

-- The financial evaluation of one settlement item: its status, and the discrepancy if any.
unfoldable pub evaluate_item : Payment → SettlementItem → FinancialStatus × Option DiscrepancyData
evaluate_item payment item =
    if not (payment.amount == item.amount)
    then (
      discrepancy,
      some (record {
        rule_code = "PAYMENT_SETTLEMENT_AMOUNT_001";
        disc_type = amount_mismatch;
        target_id = item.id;
        target_type = "SETTLEMENT_ITEM";
        expected = some payment.amount;
        actual = some item.amount;
      }),
    )
    else (if not (payment.currency == item.currency)
        then (
          discrepancy,
          some (record {
            rule_code = "PAYMENT_SETTLEMENT_CURRENCY_001";
            disc_type = currency_mismatch;
            target_id = item.id;
            target_type = "SETTLEMENT_ITEM";
            expected = none;
            actual = none;
          }),
        )
        else (reconciled, none))

unfoldable pub item_relationship : Payment → SettlementItem → FinancialStatus → RelationshipColumns
item_relationship payment item fin_status = record {
  source_entity_type = "PAYMENT";
  source_entity_id = payment.id;
  target_entity_type = "SETTLEMENT";
  target_entity_id = item.settlement_id;
  relationship_type = "PAYMENT_TO_SETTLEMENT";
  relationship_status = RelationshipStatus.confirmed;
  financial_status = fin_status;
  evidence = payment_evidence payment.amount item.amount (payment.currency == item.currency);
}

-- The row that `_upsert_discrepancy` builds.
unfoldable pub item_discrepancy : Payment → DiscrepancyData → DiscrepancyColumns
item_discrepancy payment info = record {
  rule_code = info.rule_code;
  discrepancy_type = info.disc_type;
  severity = high;
  source_entity_type = "PAYMENT";
  source_entity_id = payment.id;
  related_entity_type = some info.target_type;
  related_entity_id = some info.target_id;
  expected_amount = info.expected;
  actual_amount = info.actual;
  difference_amount = difference info.expected info.actual;
  currency = some payment.currency;
}

-- The row of `_create_missing_settlement_discrepancy`.
unfoldable pub missing_settlement_discrepancy : Payment → DiscrepancyColumns
missing_settlement_discrepancy payment = record {
  rule_code = "PAYMENT_MISSING_SETTLEMENT_001";
  discrepancy_type = missing_settlement;
  severity = high;
  source_entity_type = "PAYMENT";
  source_entity_id = payment.id;
  related_entity_type = none;
  related_entity_id = none;
  expected_amount = some payment.amount;
  actual_amount = none;
  difference_amount = none;
  currency = some payment.currency;
}

-- `Payment.processed_at >= window_start`, which a null does not meet.
unfoldable pub in_window : ℕ → Payment → Bool
in_window now payment = elim payment.processed_at [
  | none ↦ false
  | some at ↦ leb now (at + days 14)
]

-- `now - payment.processed_at > timedelta(days=3)`
unfoldable pub is_overdue : ℕ → Payment → Bool
is_overdue now payment = elim payment.processed_at [
  | none ↦ false
  | some at ↦ ltb (at + days 3) now
]

-- `clock` is what `datetime.now` gives when the loop comes to a payment.
module _ (uuid : ℕ → String) (run_id : String) (clock : Payment → ℕ) where
  unfoldable pub report_item : Payment → Option DiscrepancyData → Stats → Action Session Error Stats
  report_item payment none st = pure st
  report_item payment (some info) st = do
    created_disc ← ensure_discrepancy uuid run_id (item_discrepancy payment info)
    pure (count_discrepancy created_disc st)

  unfoldable pub match_item : Payment → SettlementItem → Stats → Action Session Error Stats
  unfolding report_item
  match_item payment item st = do
    let evaluated = evaluate_item payment item
    created ← upsert_relationship uuid run_id (item_relationship payment item evaluated.0)
    report_item payment evaluated.1 (count_relationship created st)

  unfoldable pub match_items : Payment → List SettlementItem → Stats → Action Session Error Stats
  unfolding match_item
  match_items payment [] st = pure st
  match_items payment (item ∷ items) st = do
    st' ← match_item payment item st
    match_items payment items st'

  unfoldable pub report_missing : Payment → Stats → Action Session Error Stats
  report_missing payment st =
      if is_overdue (clock payment) payment
      then (do
        created_disc ← ensure_discrepancy_later uuid run_id (missing_settlement_discrepancy payment)
        pure (count_discrepancy created_disc st))
      else pure st

  unfoldable pub match_payment : Payment → Stats → Action Session Error Stats
  unfolding match_items report_missing
  match_payment payment st =
      let counted : Stats = record st { processed = st.processed + 1 } in
      elim payment.settlement_items [
        | [] ↦ report_missing payment counted
        | item ∷ items ↦ match_items payment (item ∷ items) counted
      ]

  unfoldable pub match_payments : List Payment → Stats → Action Session Error Stats
  unfolding match_payment
  match_payments [] st = pure st
  match_payments (payment ∷ payments) st = do
    st' ← match_payment payment st
    match_payments payments st'

  -- `PaymentToSettlementMatcher.run`, over the table of payments.
  unfoldable pub run : ℕ → List Payment → Action Session Error Stats
  unfolding match_payments
  run now payments =
      match_payments (keep (in_window now) payments)
        (record { processed = 0; relationships_created = 0; discrepancies = 0 })
