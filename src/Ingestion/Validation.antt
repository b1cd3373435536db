-- ===== src/Ingestion/Validation.antt =====
-- The normalizers of services/ingestion/validation.py, one for each type of record.
use financial_ai_operator.Prelude.{
  String, true, false, Option, none, some, List, [], ◌∷◌, ◌==◌, string_eq, if◌then◌else◌, ltb,
}
use financial_ai_operator.Prelude.Int.{pos}
use financial_ai_operator.Prelude.Outcome.{Result, ok, err}
use financial_ai_operator.Prelude.Checked.{◌>>=◌, raise_if}
use financial_ai_operator.Ingestion.Model.{
  Value, null, Row, Decimal, Runtime, ErrorCode, unsupported_record_type, missing_required_field,
  invalid_field, Reference, EntityType, payment, refund, fee, settlement, bank_transaction,
  PaymentFields, RefundFields, FeeFields, SettlementFields, BankTransactionFields, Fields,
  payment_fields, refund_fields, fee_fields, settlement_fields, bank_transaction_fields,
}
use financial_ai_operator.Ingestion.Fields.{
  get, parse_amount, parse_datetime, parse_currency, parse_enum, opt_str, req_str,
  reference_from_row,
}

abbrev pub payment_statuses : List String
payment_statuses =
    "PENDING" ∷ "AUTHORIZED" ∷ "CAPTURED" ∷ "FAILED" ∷ "CANCELLED" ∷ "REFUNDED"
    ∷ "PARTIALLY_REFUNDED" ∷ []

abbrev pub refund_statuses : List String
refund_statuses = "PENDING" ∷ "SUCCEEDED" ∷ "FAILED" ∷ []

abbrev pub fee_types : List String
fee_types = "PROCESSING" ∷ "PLATFORM" ∷ "TAX" ∷ "ADJUSTMENT" ∷ []

abbrev pub settlement_statuses : List String
settlement_statuses = "PENDING" ∷ "PROCESSING" ∷ "SETTLED" ∷ "DISCREPANT" ∷ "FAILED" ∷ []

abbrev pub bank_transaction_types : List String
bank_transaction_types = "CREDIT" ∷ "DEBIT" ∷ []

abbrev pub bank_transaction_statuses : List String
bank_transaction_statuses = "POSTED" ∷ "PENDING" ∷ []

unfoldable pub entity_name : EntityType → String
entity_name payment = "PAYMENT"
entity_name refund = "REFUND"
entity_name fee = "FEE"
entity_name settlement = "SETTLEMENT"
entity_name bank_transaction = "BANK_TRANSACTION"

-- The test against `SUPPORTED_ENTITY_TYPES`.
unfoldable pub supported : String → Result ErrorCode EntityType
supported name =
    if name == "PAYMENT"
    then ok payment
    else (if name == "REFUND"
        then ok refund
        else (if name == "FEE"
            then ok fee
            else (if name == "SETTLEMENT"
                then ok settlement
                else (if name == "BANK_TRANSACTION"
                    then ok bank_transaction
                    else err unsupported_record_type))))

unfoldable pub there : Option Reference → Result ErrorCode Reference
there none = err missing_required_field
there (some r) = ok r

-- `f(value) if value is not None else default`
unfoldable pub given_or :
    {A : Type 0} → A → (Value → Result ErrorCode A) → Value → Result ErrorCode A
given_or default f null = ok default
given_or default f v = f v

unfoldable pub optional :
    {A : Type 0} → (Value → Result ErrorCode A) → Value → Result ErrorCode (Option A)
optional f null = ok none
optional f v = f v >>= λ a. ok (some a)

unfoldable pub zero_amount : Decimal
zero_amount = record { coefficient = pos 0; exponent = pos 0 }

module _ (py : Runtime) where
  unfoldable pub normalize_common : Row → Result ErrorCode (EntityType × String × String)
  unfolding supported
  normalize_common row = do
    name ← req_str py (get "entity_type" row)
    entity_type ← supported (py.upper name)
    provider ← req_str py (get "provider" row)
    _ ← raise_if (ltb 64 (py.len provider)) invalid_field
    external_id ← req_str py (get "external_id" row)
    _ ← raise_if (ltb 255 (py.len external_id)) invalid_field
    ok (entity_type, provider, external_id)

  -- `reference_from_row(row, entity)`, and without `required`
  unfoldable pub required_reference : String → String → Row → Result ErrorCode Reference
  unfolding there
  required_reference id_key ext_key row = reference_from_row py id_key ext_key true row >>= there

  unfoldable pub merchant_reference : Row → Result ErrorCode Reference
  unfolding required_reference
  merchant_reference = required_reference "merchant_id" "merchant_external_id"

  unfoldable pub normalize_payment : Row → Result ErrorCode PaymentFields
  unfolding required_reference optional
  normalize_payment row = do
    merchant_ref ← merchant_reference row
    order_ref ← required_reference "order_id" "order_external_id" row
    amount ← parse_amount py (get "amount" row)
    currency ← parse_currency py (get "currency" row)
    status ← parse_enum py payment_statuses (get "status" row)
    payment_method_type ← opt_str py (get "payment_method_type" row)
    processed_at ← optional (parse_datetime py) (get "processed_at" row)
    ok (record {
      merchant_ref = merchant_ref;
      order_ref = order_ref;
      amount = amount;
      currency = currency;
      status = status;
      payment_method_type = payment_method_type;
      processed_at = processed_at;
    })

  unfoldable pub normalize_refund : Row → Result ErrorCode RefundFields
  unfolding required_reference optional
  normalize_refund row = do
    payment_ref ← required_reference "payment_id" "payment_external_id" row
    amount ← parse_amount py (get "amount" row)
    currency ← parse_currency py (get "currency" row)
    status ← parse_enum py refund_statuses (get "status" row)
    reason ← opt_str py (get "reason" row)
    processed_at ← optional (parse_datetime py) (get "processed_at" row)
    ok (record {
      payment_ref = payment_ref;
      amount = amount;
      currency = currency;
      status = status;
      reason = reason;
      processed_at = processed_at;
    })

  unfoldable pub normalize_fee : Row → Result ErrorCode FeeFields
  normalize_fee row = do
    merchant_ref ← merchant_reference row
    payment_ref ← reference_from_row py "payment_id" "payment_external_id" false row
    settlement_ref ← reference_from_row py "settlement_id" "settlement_external_id" false row
    fee_type ← parse_enum py fee_types (get "fee_type" row)
    amount ← parse_amount py (get "amount" row)
    currency ← parse_currency py (get "currency" row)
    ok (record {
      merchant_ref = merchant_ref;
      payment_ref = payment_ref;
      settlement_ref = settlement_ref;
      fee_type = fee_type;
      amount = amount;
      currency = currency;
    })

  unfoldable pub normalize_settlement : Row → Result ErrorCode SettlementFields
  unfolding given_or optional zero_amount
  normalize_settlement row = do
    merchant_ref ← merchant_reference row
    gross_amount ← parse_amount py (get "gross_amount" row)
    fee_amount ← given_or zero_amount (parse_amount py) (get "fee_amount" row)
    adjustment_amount ← given_or zero_amount (parse_amount py) (get "adjustment_amount" row)
    expected_net_amount ← optional (parse_amount py) (get "expected_net_amount" row)
    actual_settled_amount ← optional (parse_amount py) (get "actual_settled_amount" row)
    currency ← parse_currency py (get "currency" row)
    settlement_date ← parse_datetime py (get "settlement_date" row)
    status ← parse_enum py settlement_statuses (get "status" row)
    ok (record {
      merchant_ref = merchant_ref;
      gross_amount = gross_amount;
      fee_amount = fee_amount;
      adjustment_amount = adjustment_amount;
      expected_net_amount = expected_net_amount;
      actual_settled_amount = actual_settled_amount;
      currency = currency;
      settlement_date = settlement_date;
      status = status;
    })

  unfoldable pub normalize_bank_transaction : Row → Result ErrorCode BankTransactionFields
  normalize_bank_transaction row = do
    merchant_ref ← merchant_reference row
    settlement_ref ← reference_from_row py "settlement_id" "settlement_external_id" false row
    amount ← parse_amount py (get "amount" row)
    currency ← parse_currency py (get "currency" row)
    transaction_type ← parse_enum py bank_transaction_types (get "transaction_type" row)
    transaction_date ← parse_datetime py (get "transaction_date" row)
    status ← parse_enum py bank_transaction_statuses (get "status" row)
    description ← opt_str py (get "description" row)
    ok (record {
      merchant_ref = merchant_ref;
      settlement_ref = settlement_ref;
      amount = amount;
      currency = currency;
      transaction_type = transaction_type;
      transaction_date = transaction_date;
      status = status;
      description = description;
    })

  -- `_NORMALIZERS[entity_type](raw)`
  unfoldable pub normalize_fields : EntityType → Row → Result ErrorCode Fields
  unfolding normalize_payment normalize_refund normalize_fee normalize_settlement
      normalize_bank_transaction
  normalize_fields payment row = normalize_payment row >>= λ f. ok (payment_fields f)
  normalize_fields refund row = normalize_refund row >>= λ f. ok (refund_fields f)
  normalize_fields fee row = normalize_fee row >>= λ f. ok (fee_fields f)
  normalize_fields settlement row = normalize_settlement row >>= λ f. ok (settlement_fields f)
  normalize_fields bank_transaction row =
      normalize_bank_transaction row >>= λ f. ok (bank_transaction_fields f)
