-- ===== src/Ingestion/Store.antt =====
-- database/models/ingestion.py, merchant.py and transaction.py as services/ingestion reads and writes
-- them, and the session. Amounts of the domain tables are in units of 10⁻⁴, without a bound.
-- The identifiers that packages/utils/id_generator.py draws collide with none.
use financial_ai_operator.Prelude.{ℕ, suc, String, Option, List, Eq, discrete_eq}
use financial_ai_operator.Prelude.Int.{ℤ}
use financial_ai_operator.Prelude.Outcome.{Action, Result, modify, ok, err}
use financial_ai_operator.Ingestion.Model.{Row, Datetime, ErrorCode}

pub data RunStatus : Type 0 where
  pending running completed completed_with_errors failed : RunStatus

pub data RecordStatus : Type 0 where
  accepted duplicate rejected row_failed : RecordStatus

unfoldable pub RecordStatus-discrete : Discrete RecordStatus
RecordStatus-discrete = hlevel

instance abbrev pub record_status_eq : Eq RecordStatus
unfolding RecordStatus-discrete
record_status_eq = discrete_eq RecordStatus-discrete

-- A merchant or an order, by what a reference looks up.
pub record Parent : Type 0 where
  pub id : String
  pub external_id : Option String

pub record Payment : Type 0 where
  pub id : String
  pub external_id : String
  pub merchant_id : String
  pub order_id : String
  pub provider : String
  pub amount : ℤ
  pub currency : String
  pub status : String
  pub payment_method_type : Option String
  pub processed_at : Option Datetime

pub record Refund : Type 0 where
  pub id : String
  pub external_id : String
  pub provider : String
  pub merchant_id : String
  pub payment_id : String
  pub amount : ℤ
  pub currency : String
  pub status : String
  pub reason : Option String
  pub processed_at : Option Datetime

pub record Fee : Type 0 where
  pub id : String
  pub external_id : String
  pub merchant_id : String
  pub payment_id : Option String
  pub settlement_id : Option String
  pub fee_type : String
  pub amount : ℤ
  pub currency : String
  pub provider : String

pub record Settlement : Type 0 where
  pub id : String
  pub external_id : String
  pub merchant_id : String
  pub provider : String
  pub gross_amount : ℤ
  pub fee_amount : ℤ
  pub adjustment_amount : ℤ
  pub expected_net_amount : ℤ
  pub actual_settled_amount : Option ℤ
  pub currency : String
  pub settlement_date : Datetime
  pub status : String

pub record BankTransaction : Type 0 where
  pub id : String
  pub external_id : String
  pub merchant_id : String
  pub bank_provider : String
  pub settlement_id : Option String
  pub amount : ℤ
  pub currency : String
  pub transaction_type : String
  pub transaction_date : Datetime
  pub description : Option String
  pub status : String

pub record IngestionRecord : Type 0 where
  pub id : String
  pub provider : String
  pub external_id : String
  pub entity_type : String
  pub raw_payload : Row
  pub fingerprint : String
  pub status : String
  pub run_id : String

pub record IngestionRun : Type 0 where
  pub id : String
  pub source_type : String
  pub source_name : String
  pub status : RunStatus
  pub batch_fingerprint : String
  pub total_records : ℕ
  pub successful_records : ℕ
  pub duplicate_records : ℕ
  pub rejected_records : ℕ
  pub failed_records : ℕ
  pub created_by : String
  pub started_at : ℕ
  pub completed_at : Option ℕ

pub record IngestionRunRecord : Type 0 where
  pub id : String
  pub run_id : String
  pub row_index : ℕ
  pub entity_type : String
  pub provider : String
  pub external_id : String
  pub row_fingerprint : String
  pub status : RecordStatus
  pub error_code : Option ErrorCode
  pub raw_payload : Row

-- A security event or a notification about a run, by its type and the user.
pub record Notice : Type 0 where
  pub kind : String
  pub user_id : String
  pub run_id : String

-- The domain tables and the ledger of source facts.
pub record Facts : Type 0 where
  pub merchants : List Parent
  pub orders : List Parent
  pub payments : List Payment
  pub refunds : List Refund
  pub fees : List Fee
  pub settlements : List Settlement
  pub bank_transactions : List BankTransaction
  pub records : List IngestionRecord

pub record Tables : Type 0 where
  pub facts : Facts
  pub runs : List IngestionRun
  pub run_records : List IngestionRunRecord
  pub events : List Notice
  pub notifications : List Notice

pub record Session : Type 0 where
  pub saved : Tables
  pub current : Tables
  pub drawn : ℕ

-- `MaterializationError`, `IntegrityError`, `MultipleResultsFound`, `RunNotFoundError` and
-- `NothingToRetryError`.
pub data Error : Type 0 where
  materialization : ErrorCode → Error
  integrity_error multiple_results_found run_not_found nothing_to_retry : Error

abbrev pub commit : Action Session Error (Unit {0})
commit = modify (λ s. record s { saved = s.current })

abbrev pub rollback : Action Session Error (Unit {0})
rollback = modify (λ s. record s { current = s.saved })

abbrev pub write : (Tables → Tables) → Action Session Error (Unit {0})
write f = modify (λ s. record s { current = f s.current })

abbrev pub draw : (ℕ → String) → Action Session Error String
draw uuid s = (ok (uuid s.drawn), record s { drawn = suc s.drawn })

-- A call that raised is undone.
unfoldable pub undone : {A : Type 0} → Session → Result Error A × Session → Result Error A × Session
undone before (ok a, s) = (ok a, s)
undone before (err e, s) = (err e, record s { current = before.current })

-- `async with db.begin_nested()`
unfoldable pub savepoint : {A : Type 0} → Action Session Error A → Action Session Error A
unfolding undone
savepoint m s = undone s (m s)
