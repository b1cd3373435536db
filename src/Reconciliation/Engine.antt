-- ===== src/Reconciliation/Engine.antt =====
-- services/reconciliation/engine.py: one run, the two matchers in order.
use financial_ai_operator.Prelude.{ℕ, ◌+◌, String, List}
use financial_ai_operator.Prelude.Outcome.{Action, pure, ◌>>=◌}
use financial_ai_operator.Reconciliation.Model.{
  Payment, Settlement, ReconciliationRun, completed, Stats,
}
use financial_ai_operator.Reconciliation.Session.{Error, Session}
use financial_ai_operator.Reconciliation.PaymentSettlement
use financial_ai_operator.Reconciliation.SettlementBank

-- What `datetime.now` gives in the course of a run: at the start of each matcher, and when a
-- matcher comes to a record.
pub record Clock : Type 0 where
  pub payments_start : ℕ
  pub at_payment : Payment → ℕ
  pub settlements_start : ℕ
  pub at_settlement : Settlement → ℕ

-- `run_record` as the aggregation leaves it.
abbrev pub run_record : String → Stats → Stats → ReconciliationRun
run_record run_id ps_stats sb_stats = record {
  id = run_id;
  status = completed;
  total_records_processed = ps_stats.processed + sb_stats.processed;
  matches_created = ps_stats.relationships_created + sb_stats.relationships_created;
  discrepancies_found = ps_stats.discrepancies + sb_stats.discrepancies;
}

unfoldable pub run_reconciliation :
    (uuid : ℕ → String) (run_id : String)
    → Clock
    → List Payment
    → List Settlement
    → Action Session Error ReconciliationRun
run_reconciliation uuid run_id clock payments settlements = do
  ps_stats ← PaymentSettlement.run uuid run_id clock.at_payment clock.payments_start payments
  sb_stats ← SettlementBank.run uuid run_id clock.at_settlement clock.settlements_start settlements
  pure (run_record run_id ps_stats sb_stats)
