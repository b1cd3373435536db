-- ===== src/Period/Model.antt =====
-- database/models/period.py, packages/schemas/period.py and the columns that services/period.py
-- reads of payments, other entries, discrepancies, investigations, requests and executions.
-- Instants are microseconds. Texts for display are left out.
use financial_ai_operator.Prelude.{ℕ, String, Bool, Option, List, Eq, discrete_eq, ◌&&◌, leb, ltb}
use financial_ai_operator.Prelude.Int.{ℤ}

pub data ControlStatus : Type 0 where
  pass warning blocked : ControlStatus

pub data ControlSeverity : Type 0 where
  info warning_severity critical : ControlSeverity

pub data CloseControlCode : Type 0 where
  close_unreconciled_transactions close_unresolved_exceptions close_pending_investigations
        close_failed_investigations close_unavailable_investigations close_pending_action_requests
        close_running_executions close_unknown_executions close_data_quality_errors
        close_duplicate_ingestion close_orphan_records :
      CloseControlCode

unfoldable pub ControlStatus-discrete : Discrete ControlStatus
ControlStatus-discrete = hlevel

instance abbrev pub control_status_eq : Eq ControlStatus
unfolding ControlStatus-discrete
control_status_eq = discrete_eq ControlStatus-discrete

pub record FinancialPeriod : Type 0 where
  pub id : String
  pub period_name : String
  pub start_date : ℕ
  pub end_date : ℕ
  pub status : String
  pub closed_at : Option ℕ
  pub closed_by : Option String

-- A Python `float` by the bits that it is stored in.
pub record Float : Type 0 where
  pub bits : ℕ

-- The arithmetic of `float`, which the interpreter brings. A `Decimal` is in units of 10⁻⁴.
pub record Floats : Type 0 where
  pub zero : Float
  pub of_decimal : ℤ → Float
  pub add : Float → Float → Float
  pub sub : Float → Float → Float

pub record CurrencyMetrics : Type 0 where
  pub transaction_count : ℕ
  pub total_amount : Float
  pub payments_count : ℕ
  pub payments_amount : Float
  pub refunds_count : ℕ
  pub refunds_amount : Float
  pub fees_count : ℕ
  pub fees_amount : Float
  pub settlements_count : ℕ
  pub settlements_amount : Float
  pub bank_transactions_count : ℕ
  pub bank_transactions_amount : Float

-- The dictionary by currency is the function that looks a currency up.
pub record PeriodMetrics : Type 0 where
  pub metrics_by_currency : String → Option CurrencyMetrics
  pub reconciled_count : ℕ
  pub unreconciled_count : ℕ
  pub discrepancy_count : ℕ
  pub investigation_count : ℕ
  pub action_request_count : ℕ
  pub execution_failures : ℕ
  pub execution_unknowns : ℕ

pub record CloseControlResult : Type 0 where
  pub control_code : CloseControlCode
  pub status : ControlStatus
  pub severity : ControlSeverity
  pub count : ℕ

pub record CloseReadiness : Type 0 where
  pub period_id : String
  pub is_ready : Bool
  pub overall_status : ControlStatus
  pub controls : List CloseControlResult
  pub metrics : PeriodMetrics
  pub evaluated_at : ℕ

pub record PeriodCloseEvaluation : Type 0 where
  pub id : String
  pub period_id : String
  pub evaluated_at : ℕ
  pub evaluated_by : String
  pub is_ready : Bool
  pub blocking_count : ℕ
  pub warning_count : ℕ
  pub control_results : List CloseControlResult
  pub metrics_snapshot : PeriodMetrics

pub record Payment : Type 0 where
  pub created_at : ℕ
  pub currency : String
  pub amount : ℤ
  pub status : String

-- A refund, fee, settlement or bank transaction; the amount of a settlement is its gross amount.
pub record Entry : Type 0 where
  pub created_at : ℕ
  pub currency : String
  pub amount : ℤ

pub record Discrepancy : Type 0 where
  pub id : String
  pub created_at : ℕ

pub record Investigation : Type 0 where
  pub created_at : ℕ
  pub status : String

pub record ActionRequest : Type 0 where
  pub id : String
  pub discrepancy_id : Option String
  pub created_at : ℕ
  pub status : String

pub record ActionExecution : Type 0 where
  pub action_request_id : String
  pub created_at : ℕ
  pub status : String

-- The event `PERIOD_CLOSED`, with what its metadata names.
pub record SecurityEvent : Type 0 where
  pub id : String
  pub event_type : String
  pub actor_id : String
  pub period_id : String
  pub evaluation_id : String

pub record Tables : Type 0 where
  pub periods : List FinancialPeriod
  pub evaluations : List PeriodCloseEvaluation
  pub payments : List Payment
  pub refunds : List Entry
  pub fees : List Entry
  pub settlements : List Entry
  pub bank_transactions : List Entry
  pub discrepancies : List Discrepancy
  pub investigations : List Investigation
  pub requests : List ActionRequest
  pub executions : List ActionExecution
  pub events : List SecurityEvent

-- `created_at >= period.start_date and created_at < period.end_date`
unfoldable pub within : FinancialPeriod → ℕ → Bool
within period created_at = leb period.start_date created_at && ltb created_at period.end_date
