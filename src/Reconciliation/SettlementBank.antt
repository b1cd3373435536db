-- ===== src/Reconciliation/SettlementBank.antt =====
-- services/reconciliation/matchers/settlement_bank.py
use Prim.Native.Nat.{◌-◌, ◌/◌}
use financial_ai_operator.Prelude.{
  ℕ, ◌+◌, String, Bool, not, Option, none, some, List, [], ◌∷◌, ◌==◌, string_eq, ltb, leb,
  if◌then◌else◌, keep,
}
use financial_ai_operator.Prelude.Outcome.{Action, pure, ◌>>=◌}
use financial_ai_operator.Prelude.Int.{ℤ, pos, negsuc, int_eq, ◌+ℤ◌, ◌-ℤ◌, ltb_ℤ}
use financial_ai_operator.Reconciliation.Model.{
  days, RelationshipStatus, FinancialStatus, reconciled, discrepancy, DiscrepancyType, Severity,
  fee_mismatch, amount_mismatch, missing_bank_tx, late_arrival, currency_mismatch, low, medium,
  high, Settlement, BankTransaction, bank_evidence, RelationshipColumns, DiscrepancyColumns, Stats,
}
use financial_ai_operator.Reconciliation.Session.{
  Error, Session, difference, upsert_relationship, ensure_discrepancy, count_relationship,
  count_discrepancy,
}

-- An optional amount read as a Python condition: `None` and zero are both false.
unfoldable pub truthy : Option ℤ → Option ℤ
truthy none = none
truthy (some amount) = if amount == pos 0 then none else some amount

abbrev pub or_else : Option ℤ → ℤ → ℤ
or_else none fallback = fallback
or_else (some amount) fallback = amount

-- gross - fee + adj; the three columns are not nullable, so `or Decimal(0)` changes nothing.
unfoldable pub expected_net : Settlement → ℤ
expected_net settlement =
    settlement.gross_amount -ℤ settlement.fee_amount +ℤ settlement.adjustment_amount

-- `settlement.actual_settled_amount or expected_net`
unfoldable pub amount_to_match : Settlement → ℤ
unfolding truthy expected_net
amount_to_match settlement =
    or_else (truthy settlement.actual_settled_amount) (expected_net settlement)

-- `(a - b).days`, which Python rounds down, in whole days.
unfoldable pub days_between : ℕ → ℕ → ℤ
days_between a b = if leb b a then pos ((a - b) / days 1) else negsuc ((b - a - 1) / days 1)

-- The row that `_upsert_discrepancy` builds.
unfoldable pub settlement_discrepancy :
    Settlement
    → String
    → DiscrepancyType
    → Severity
    → Option String
    → Option ℤ
    → Option ℤ
    → DiscrepancyColumns
settlement_discrepancy settlement rule_code disc_type sev target_id expected actual = record {
  rule_code = rule_code;
  discrepancy_type = disc_type;
  severity = sev;
  source_entity_type = "SETTLEMENT";
  source_entity_id = settlement.id;
  related_entity_type = elim target_id [ none ↦ none | some t ↦ some "BANK_TRANSACTION" ];
  related_entity_id = target_id;
  expected_amount = expected;
  actual_amount = actual;
  difference_amount = difference expected actual;
  currency = some settlement.currency;
}

-- The fee rule: a recorded amount other than the expected net.
unfoldable pub fee_discrepancy : Settlement → Option DiscrepancyColumns
fee_discrepancy settlement = elim (truthy settlement.actual_settled_amount) [
  | none ↦ none
  | some actual ↦
      if not (expected_net settlement == actual)
      then some (
          settlement_discrepancy settlement "SETTLEMENT_FEE_MISMATCH_001" fee_mismatch medium none
            (some (expected_net settlement)) (some actual))
      else none
]

-- The three financial evaluations of one bank transaction, in the order of the code.
unfoldable pub bank_discrepancy : Settlement → BankTransaction → Option DiscrepancyColumns
bank_discrepancy settlement btx =
    if not (btx.amount == amount_to_match settlement)
    then some (
        settlement_discrepancy settlement "SETTLEMENT_BANK_AMOUNT_001" amount_mismatch high
          (some btx.id) (some (amount_to_match settlement)) (some btx.amount))
    else (if ltb_ℤ (pos 3) (days_between btx.transaction_date settlement.settlement_date)
        then some (
            settlement_discrepancy settlement "SETTLEMENT_TIMING_001" late_arrival low (some btx.id)
              none none)
        else (if not (settlement.currency == btx.currency)
            then some (
                settlement_discrepancy settlement "SETTLEMENT_BANK_CURRENCY_001" currency_mismatch
                  high (some btx.id) none none)
            else none))

abbrev pub status_of : Option DiscrepancyColumns → FinancialStatus
status_of none = reconciled
status_of (some c) = discrepancy

unfoldable pub bank_relationship :
    Settlement → BankTransaction → FinancialStatus → RelationshipColumns
bank_relationship settlement btx fin_status = record {
  source_entity_type = "SETTLEMENT";
  source_entity_id = settlement.id;
  target_entity_type = "BANK_TRANSACTION";
  target_entity_id = btx.id;
  relationship_type = "SETTLEMENT_TO_BANK";
  relationship_status = RelationshipStatus.confirmed;
  financial_status = fin_status;
  evidence =
      bank_evidence (expected_net settlement) (truthy settlement.actual_settled_amount) btx.amount
        (settlement.currency == btx.currency)
        (some (days_between btx.transaction_date settlement.settlement_date));
}

-- The row for a settlement with no bank transaction.
unfoldable pub missing_bank_discrepancy : Settlement → DiscrepancyColumns
missing_bank_discrepancy settlement =
    settlement_discrepancy settlement "SETTLEMENT_MISSING_BANK_TX_001" missing_bank_tx high none
      (some (amount_to_match settlement)) none

-- `Settlement.settlement_date >= window_start`
unfoldable pub in_window : ℕ → Settlement → Bool
in_window now settlement = leb now (settlement.settlement_date + days 14)

-- `now - settlement.settlement_date > timedelta(days=3)`
unfoldable pub is_overdue : ℕ → Settlement → Bool
is_overdue now settlement = ltb (settlement.settlement_date + days 3) now

module _ (uuid : ℕ → String) (run_id : String) (clock : Settlement → ℕ) where
  unfoldable pub report : Option DiscrepancyColumns → Stats → Action Session Error Stats
  report none st = pure st
  report (some c) st = do
    created ← ensure_discrepancy uuid run_id c
    pure (count_discrepancy created st)

  unfoldable pub match_transaction :
      Settlement → BankTransaction → Stats → Action Session Error Stats
  unfolding report
  match_transaction settlement btx st = do
    let found = bank_discrepancy settlement btx
    st' ← report found st
    created ← upsert_relationship uuid run_id (bank_relationship settlement btx (status_of found))
    pure (count_relationship created st')

  unfoldable pub match_transactions :
      Settlement → List BankTransaction → Stats → Action Session Error Stats
  unfolding match_transaction
  match_transactions settlement [] st = pure st
  match_transactions settlement (btx ∷ bank_txs) st = do
    st' ← match_transaction settlement btx st
    match_transactions settlement bank_txs st'

  unfoldable pub report_missing : Settlement → Stats → Action Session Error Stats
  unfolding report
  report_missing settlement st =
      if is_overdue (clock settlement) settlement
      then report (some (missing_bank_discrepancy settlement)) st
      else pure st

  unfoldable pub match_bank_side : Settlement → Stats → Action Session Error Stats
  unfolding match_transactions report_missing
  match_bank_side settlement st = elim settlement.bank_transactions [
    | [] ↦ report_missing settlement st
    | btx ∷ bank_txs ↦ match_transactions settlement (btx ∷ bank_txs) st
  ]

  unfoldable pub match_settlement : Settlement → Stats → Action Session Error Stats
  unfolding match_bank_side
  match_settlement settlement st = do
    st' ← report (fee_discrepancy settlement) (record st { processed = st.processed + 1 })
    match_bank_side settlement st'

  unfoldable pub match_settlements : List Settlement → Stats → Action Session Error Stats
  unfolding match_settlement
  match_settlements [] st = pure st
  match_settlements (settlement ∷ settlements) st = do
    st' ← match_settlement settlement st
    match_settlements settlements st'

  -- `SettlementToBankTransactionMatcher.run`, over the table of settlements.
  unfoldable pub run : ℕ → List Settlement → Action Session Error Stats
  unfolding match_settlements
  run now settlements =
      match_settlements (keep (in_window now) settlements)
        (record { processed = 0; relationships_created = 0; discrepancies = 0 })
