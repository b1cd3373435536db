-- ===== src/Ingestion/Model.antt =====
-- The source rows of services/ingestion/validation.py and what they are normalized to.
use financial_ai_operator.Prelude.{ℕ, String, Bool, Option, List}
use financial_ai_operator.Prelude.Int.{ℤ}

-- A value of a row as `json` reads it. A list of texts stands apart from the other lists and
-- dictionaries, which no code of this part looks into: they are given by their text.
pub data Value : Type 0 where
  null : Value
  flag : Bool → Value
  whole : ℤ → Value
  floating : ℕ → Value
  text : String → Value
  texts : List String → Value
  nested : String → Value

-- A dictionary, by its items.
abbrev pub Row : Type 0
Row = List (String × Value)

-- A source record, a dictionary or not.
pub data Source : Type 0 where
  object : Row → Source
  no_object : Source

-- A finite `Decimal`: coefficient · 10 ^ exponent.
pub record Decimal : Type 0 where
  pub coefficient : ℤ
  pub exponent : ℤ

-- What `Decimal(text)` gives.
pub data Number : Type 0 where
  finite : Decimal → Number
  not_finite : Number

-- Microseconds of the local time, and the offset of the zone if there is one.
pub record Datetime : Type 0 where
  pub microseconds : ℕ
  pub tzinfo : Option ℤ

-- The functions of the interpreter and its standard library that the code calls: `str.strip`,
-- `str.upper`, `str.isalpha`, `len`, `str`, `s[:n]`, `s[:-1]`, `str.endswith`, `str(int)`, `Decimal(text)`,
-- `str(decimal)`, `datetime.fromisoformat`, `date.fromisoformat` (in days), `datetime.isoformat`,
-- `sorted`, and SHA-256 of the JSON text with sorted keys.
pub record Runtime : Type 0 where
  pub strip : String → String
  pub upper : String → String
  pub isalpha : String → Bool
  pub len : String → ℕ
  pub str : Value → String
  pub cut : ℕ → String → String
  pub without_last : String → String
  pub endswith : String → String → Bool
  pub str_int : ℤ → String
  pub decimal : String → Option Number
  pub str_decimal : Decimal → String
  pub fromisoformat : String → Option Datetime
  pub date_fromisoformat : String → Option ℕ
  pub isoformat : Datetime → String
  pub sorted : List String → List String
  pub sha256 : Row → String

pub data ErrorCode : Type 0 where
  unsupported_record_type missing_required_field invalid_amount invalid_currency malformed_date
        invalid_status invalid_reference invalid_field referenced_entity_not_found
        domain_rule_violation integrity_conflict :
      ErrorCode

-- `{'id': ...}` or `{'external_id': ...}`
pub data Reference : Type 0 where
  by_id : String → Reference
  by_external_id : String → Reference

pub data EntityType : Type 0 where
  payment refund fee settlement bank_transaction : EntityType

-- What the normalizers return.
pub record PaymentFields : Type 0 where
  pub merchant_ref : Reference
  pub order_ref : Reference
  pub amount : Decimal
  pub currency : String
  pub status : String
  pub payment_method_type : Option String
  pub processed_at : Option Datetime

pub record RefundFields : Type 0 where
  pub payment_ref : Reference
  pub amount : Decimal
  pub currency : String
  pub status : String
  pub reason : Option String
  pub processed_at : Option Datetime

pub record FeeFields : Type 0 where
  pub merchant_ref : Reference
  pub payment_ref : Option Reference
  pub settlement_ref : Option Reference
  pub fee_type : String
  pub amount : Decimal
  pub currency : String

pub record SettlementFields : Type 0 where
  pub merchant_ref : Reference
  pub gross_amount : Decimal
  pub fee_amount : Decimal
  pub adjustment_amount : Decimal
  pub expected_net_amount : Option Decimal
  pub actual_settled_amount : Option Decimal
  pub currency : String
  pub settlement_date : Datetime
  pub status : String

pub record BankTransactionFields : Type 0 where
  pub merchant_ref : Reference
  pub settlement_ref : Option Reference
  pub amount : Decimal
  pub currency : String
  pub transaction_type : String
  pub transaction_date : Datetime
  pub status : String
  pub description : Option String

pub data Fields : Type 0 where
  payment_fields : PaymentFields → Fields
  refund_fields : RefundFields → Fields
  fee_fields : FeeFields → Fields
  settlement_fields : SettlementFields → Fields
  bank_transaction_fields : BankTransactionFields → Fields

-- The payload of a valid row: its identity and its fields. The empty payload of an invalid one
-- is `none`. Messages are for display and left out.
pub record NormalizedRow : Type 0 where
  pub entity_type : String
  pub provider : String
  pub external_id : String
  pub payload : Option Fields
  pub row_fingerprint : String
  pub raw_payload : Row
  pub error_code : Option ErrorCode
