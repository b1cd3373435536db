-- ===== src/Ingestion/Rows.antt =====
-- `normalize_row` of services/ingestion/validation.py, the fingerprints, and the identity that
-- services/ingestion/batch.py keeps of a row.
use financial_ai_operator.Prelude.{
  String, Bool, true, false, Option, none, some, [], ◌∷◌, ◌==◌, string_eq, if◌then◌else◌,
}
use financial_ai_operator.Prelude.Outcome.{Result, ok, err}
use financial_ai_operator.Prelude.Checked.{◌>>=◌}
use financial_ai_operator.Ingestion.Model.{
  Value, null, text, Row, Source, object, no_object, Decimal, Datetime, Runtime, ErrorCode,
  invalid_field, Reference, by_id, by_external_id, EntityType, Fields, payment_fields,
  refund_fields, fee_fields, settlement_fields, bank_transaction_fields, NormalizedRow,
}
use financial_ai_operator.Ingestion.Fields.{lookup}
use financial_ai_operator.Ingestion.Validation.{entity_name, normalize_common, normalize_fields}

unfoldable pub or_null : {A : Type 0} → (A → Value) → Option A → Value
or_null f none = null
or_null f (some a) = f a

unfoldable pub is_valid : NormalizedRow → Bool
is_valid r = elim r.error_code [ none ↦ true | some code ↦ false ]

unfoldable pub rejected_row : Row → ErrorCode → NormalizedRow
rejected_row raw code = record {
  entity_type = "UNKNOWN";
  provider = "";
  external_id = "";
  payload = none;
  row_fingerprint = "";
  raw_payload = raw;
  error_code = some code;
}

module _ (py : Runtime) where
  unfoldable pub decimal_value : Decimal → Value
  decimal_value d = text (py.str_decimal d)

  unfoldable pub datetime_value : Datetime → Value
  datetime_value d = text (py.isoformat d)

  -- A reference is a dictionary, which is canonical by its own fingerprint.
  unfoldable pub reference_value : Reference → Value
  reference_value (by_id i) = text (py.sha256 (("entity_type", text "") ∷ ("id", text i) ∷ []))
  reference_value (by_external_id e) =
      text (py.sha256 (("entity_type", text "") ∷ ("external_id", text e) ∷ []))

  -- The items of a normalized payload, after those of its identity.
  unfoldable pub canonical_items : Fields → Row
  unfolding or_null decimal_value datetime_value reference_value
  canonical_items (payment_fields f) =
      ("merchant_ref", reference_value f.merchant_ref)
      ∷ ("order_ref", reference_value f.order_ref)
      ∷ ("amount", decimal_value f.amount)
      ∷ ("currency", text f.currency)
      ∷ ("status", text f.status)
      ∷ ("payment_method_type", or_null text f.payment_method_type)
      ∷ ("processed_at", or_null datetime_value f.processed_at)
      ∷ []
  canonical_items (refund_fields f) =
      ("payment_ref", reference_value f.payment_ref)
      ∷ ("amount", decimal_value f.amount)
      ∷ ("currency", text f.currency)
      ∷ ("status", text f.status)
      ∷ ("reason", or_null text f.reason)
      ∷ ("processed_at", or_null datetime_value f.processed_at)
      ∷ []
  canonical_items (fee_fields f) =
      ("merchant_ref", reference_value f.merchant_ref)
      ∷ ("payment_ref", or_null reference_value f.payment_ref)
      ∷ ("settlement_ref", or_null reference_value f.settlement_ref)
      ∷ ("fee_type", text f.fee_type)
      ∷ ("amount", decimal_value f.amount)
      ∷ ("currency", text f.currency)
      ∷ []
  canonical_items (settlement_fields f) =
      ("merchant_ref", reference_value f.merchant_ref)
      ∷ ("gross_amount", decimal_value f.gross_amount)
      ∷ ("fee_amount", decimal_value f.fee_amount)
      ∷ ("adjustment_amount", decimal_value f.adjustment_amount)
      ∷ ("expected_net_amount", or_null decimal_value f.expected_net_amount)
      ∷ ("actual_settled_amount", or_null decimal_value f.actual_settled_amount)
      ∷ ("currency", text f.currency)
      ∷ ("settlement_date", datetime_value f.settlement_date)
      ∷ ("status", text f.status)
      ∷ []
  canonical_items (bank_transaction_fields f) =
      ("merchant_ref", reference_value f.merchant_ref)
      ∷ ("settlement_ref", or_null reference_value f.settlement_ref)
      ∷ ("amount", decimal_value f.amount)
      ∷ ("currency", text f.currency)
      ∷ ("transaction_type", text f.transaction_type)
      ∷ ("transaction_date", datetime_value f.transaction_date)
      ∷ ("status", text f.status)
      ∷ ("description", or_null text f.description)
      ∷ []

  -- `_canonical_fingerprint(entity_type, payload)`
  unfoldable pub canonical_fingerprint : EntityType → String → String → Fields → String
  unfolding canonical_items entity_name
  canonical_fingerprint e provider external_id fields = py.sha256 (
      ("entity_type", text (entity_name e))
      ∷ ("provider", text provider)
      ∷ ("external_id", text external_id)
      ∷ canonical_items fields)

  unfoldable pub validated : Row → Result ErrorCode (EntityType × String × String × Fields)
  unfolding normalize_common normalize_fields
  validated raw = do
    (entity_type, provider, external_id) ← normalize_common py raw
    fields ← normalize_fields py entity_type raw
    ok (entity_type, provider, external_id, fields)

  unfoldable pub normalized :
      Row → Result ErrorCode (EntityType × String × String × Fields) → NormalizedRow
  unfolding rejected_row canonical_fingerprint entity_name
  normalized raw (err code) = rejected_row raw code
  normalized raw (ok (e, provider, external_id, fields)) = record {
    entity_type = entity_name e;
    provider = provider;
    external_id = external_id;
    payload = some fields;
    row_fingerprint = canonical_fingerprint e provider external_id fields;
    raw_payload = raw;
    error_code = none;
  }

  unfoldable pub normalize_row : Source → NormalizedRow
  unfolding rejected_row validated normalized
  normalize_row no_object = rejected_row [] invalid_field
  normalize_row (object raw) = normalized raw (validated raw)

  -- `str(raw.get(key, default))`
  unfoldable pub str_or : String → String → Row → String
  unfolding lookup
  str_or key default raw = elim (lookup key raw) [ none ↦ default | some v ↦ py.str v ]

  unfoldable pub known : String → String
  known name = if name == "" then "UNKNOWN" else name

  -- `_identity_from_raw`
  unfoldable pub identity_from_raw : Row → String × String × String
  unfolding str_or known
  identity_from_raw raw =
      let name = known (py.cut 32 (str_or "entity_type" "UNKNOWN" raw)) in
      (
        if name == "UNKNOWN" then name else py.upper name,
        py.cut 64 (str_or "provider" "" raw),
        py.cut 255 (str_or "external_id" "" raw),
      )
