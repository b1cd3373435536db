-- ===== src/Reconciliation/Model.antt =====
-- The columns that the matchers read and write: database/models/transaction.py,
-- database/models/reconciliation.py and packages/schemas/reconciliation.py. Identifiers are texts,
-- amounts integers in units of 10⁻⁴, instants naturals in microseconds.
use Prim.Native.Nat.{◌*◌}
use financial_ai_operator.Prelude.{ℕ, String, Option, List, Bool}
use financial_ai_operator.Prelude.Int.{ℤ}

abbrev pub days : ℕ → ℕ
days n = n * 86400000000

pub data RunStatus : Type 0 where
  running completed failed : RunStatus

pub data RelationshipStatus : Type 0 where
  confirmed unresolved : RelationshipStatus

pub data FinancialStatus : Type 0 where
  reconciled discrepancy unresolved : FinancialStatus

pub data DiscrepancyType : Type 0 where
  fee_mismatch amount_mismatch missing_bank_tx missing_settlement late_arrival currency_mismatch
        orphan_record :
      DiscrepancyType

pub data Severity : Type 0 where
  low medium high critical : Severity

pub record SettlementItem : Type 0 where
  pub id : String
  pub settlement_id : String
  pub amount : ℤ
  pub currency : String

pub record Payment : Type 0 where
  pub id : String
  pub amount : ℤ
  pub currency : String
  pub processed_at : Option ℕ
  pub settlement_items : List SettlementItem

pub record BankTransaction : Type 0 where
  pub id : String
  pub amount : ℤ
  pub currency : String
  pub transaction_date : ℕ

pub record Settlement : Type 0 where
  pub id : String
  pub gross_amount : ℤ
  pub fee_amount : ℤ
  pub adjustment_amount : ℤ
  pub actual_settled_amount : Option ℤ
  pub currency : String
  pub settlement_date : ℕ
  pub bank_transactions : List BankTransaction

-- The JSON evidence of a relationship, by the matcher that wrote it.
pub data Evidence : Type 0 where
  payment_evidence : (payment_amount item_amount : ℤ) (currency_match : Bool) → Evidence
  bank_evidence :
      (settlement_expected : ℤ) (settlement_actual : Option ℤ) (bank_amount : ℤ)
      (currency_match : Bool) (date_diff_days : Option ℤ)
      → Evidence

-- A row of `reconciliation_relationships`: its columns, behind the two that the run supplies.
pub record RelationshipColumns : Type 0 where
  pub source_entity_type : String
  pub source_entity_id : String
  pub target_entity_type : String
  pub target_entity_id : String
  pub relationship_type : String
  pub relationship_status : RelationshipStatus
  pub financial_status : FinancialStatus
  pub evidence : Evidence

pub record Relationship : Type 0 where
  pub id : String
  pub run_id : String
  pub columns : RelationshipColumns

-- A row of `discrepancies`, in the same two parts.
pub record DiscrepancyColumns : Type 0 where
  pub rule_code : String
  pub discrepancy_type : DiscrepancyType
  pub severity : Severity
  pub source_entity_type : String
  pub source_entity_id : String
  pub related_entity_type : Option String
  pub related_entity_id : Option String
  pub expected_amount : Option ℤ
  pub actual_amount : Option ℤ
  pub difference_amount : Option ℤ
  pub currency : Option String

pub record Discrepancy : Type 0 where
  pub id : String
  pub run_id : String
  pub columns : DiscrepancyColumns

-- A row of `reconciliation_runs`.
pub record ReconciliationRun : Type 0 where
  pub id : String
  pub status : RunStatus
  pub total_records_processed : ℕ
  pub matches_created : ℕ
  pub discrepancies_found : ℕ

-- The dictionary that a matcher returns.
pub record Stats : Type 0 where
  pub processed : ℕ
  pub relationships_created : ℕ
  pub discrepancies : ℕ
