-- ===== src/Ingestion/Guarantees.antt =====
-- What the normalizers of services/ingestion/validation.py guarantee of the fields they return.
use mathlib.Core.List.{Memᴰ}
use mathlib.Core.Path.{subst}
use financial_ai_operator.Prelude.{ℕ, ◌≤◌, String, ◌≡◌, refl, false, Option, none, some, arith, ltb}
use financial_ai_operator.Prelude.Outcome.{Result, ok, ok_inj}
use financial_ai_operator.Prelude.Checked.{◌>>=◌, checked_ok, raise_if_ok, returned}
use financial_ai_operator.Ingestion.Model.{
  Value, null, flag, whole, floating, text, texts, nested, Row, Decimal, Runtime, ErrorCode,
  invalid_field, EntityType, Fields, payment_fields, refund_fields, fee_fields, settlement_fields,
  bank_transaction_fields, payment, refund, fee, settlement, bank_transaction, PaymentFields,
  RefundFields, FeeFields, SettlementFields, BankTransactionFields,
}
use financial_ai_operator.Ingestion.Fields.{
  supported_currencies, parse_amount, parse_datetime, parse_currency, parse_enum, opt_str, req_str,
  reference_from_row, get,
}
use financial_ai_operator.Ingestion.Validation.{
  payment_statuses, refund_statuses, fee_types, settlement_statuses, bank_transaction_types,
  bank_transaction_statuses, supported, given_or, optional, zero_amount, normalize_common,
  required_reference, merchant_reference, normalize_payment, normalize_refund, normalize_fee,
  normalize_settlement, normalize_bank_transaction, normalize_fields,
}
use financial_ai_operator.Ingestion.Normal.{
  IsAmount, IsZoned, parse_amount_ok, parse_currency_ok, parse_enum_ok, parse_datetime_ok,
}

abbrev pub IsOptional : {A : Type 0} → (A → Type 0) → Option A → Type 0
IsOptional P none = Unit
IsOptional P (some a) = P a

-- What is guaranteed of the fields of each type of record.
abbrev pub IsNormal : Fields → Type 0
IsNormal (payment_fields f) =
    IsAmount f.amount
    × Memᴰ f.currency supported_currencies
    × Memᴰ f.status payment_statuses
    × IsOptional IsZoned f.processed_at
IsNormal (refund_fields f) =
    IsAmount f.amount
    × Memᴰ f.currency supported_currencies
    × Memᴰ f.status refund_statuses
    × IsOptional IsZoned f.processed_at
IsNormal (fee_fields f) =
    Memᴰ f.fee_type fee_types × IsAmount f.amount × Memᴰ f.currency supported_currencies
IsNormal (settlement_fields f) =
    IsAmount f.gross_amount
    × IsAmount f.fee_amount
    × IsAmount f.adjustment_amount
    × IsOptional IsAmount f.expected_net_amount
    × IsOptional IsAmount f.actual_settled_amount
    × Memᴰ f.currency supported_currencies
    × IsZoned f.settlement_date
    × Memᴰ f.status settlement_statuses
IsNormal (bank_transaction_fields f) =
    IsAmount f.amount
    × Memᴰ f.currency supported_currencies
    × Memᴰ f.transaction_type bank_transaction_types
    × IsZoned f.transaction_date
    × Memᴰ f.status bank_transaction_statuses

module _ {A : Type 0} (P : A → Type 0) (f : Value → Result ErrorCode A)
    (f_ok : (v : Value) (a : A) → f v ≡ ok a → P a) where
  IsOptional-some : (v : Value) (o : Option A) → (f v >>= λ a. ok (some a)) ≡ ok o → IsOptional P o
  IsOptional-some v o h =
      let (a, e, k) = checked_ok (f v) _ h in
      subst (IsOptional P) (ok_inj (ok (some a)) refl k) (f_ok v a e)

  optional_ok : (v : Value) (o : Option A) → optional f v ≡ ok o → IsOptional P o
  unfolding optional
  optional_ok null o h = subst (IsOptional P) (ok_inj (ok none) refl h) tt
  optional_ok (flag b) o h = IsOptional-some (flag b) o h
  optional_ok (whole n) o h = IsOptional-some (whole n) o h
  optional_ok (floating n) o h = IsOptional-some (floating n) o h
  optional_ok (text t) o h = IsOptional-some (text t) o h
  optional_ok (texts t) o h = IsOptional-some (texts t) o h
  optional_ok (nested t) o h = IsOptional-some (nested t) o h

  given_or_ok : (d : A) → P d → (v : Value) (a : A) → given_or d f v ≡ ok a → P a
  unfolding given_or
  given_or_ok d p null a h = subst P (ok_inj (ok d) refl h) p
  given_or_ok d p (flag b) a h = f_ok (flag b) a h
  given_or_ok d p (whole n) a h = f_ok (whole n) a h
  given_or_ok d p (floating n) a h = f_ok (floating n) a h
  given_or_ok d p (text t) a h = f_ok (text t) a h
  given_or_ok d p (texts t) a h = f_ok (texts t) a h
  given_or_ok d p (nested t) a h = f_ok (nested t) a h

module _ (py : Runtime) (row : Row) where
  abbrev amount_ok : (v : Value) (d : Decimal) → parse_amount py v ≡ ok d → IsAmount d
  amount_ok = parse_amount_ok py

  payment-IsNormal :
      (f : PaymentFields) → normalize_payment py row ≡ ok f → IsNormal (payment_fields f)
  unfolding normalize_payment
  payment-IsNormal f h =
      let (_, _, h1) = checked_ok (merchant_reference py row) _ h in
      let (_, _, h2) = checked_ok (required_reference py _ _ row) _ h1 in
      let (a, e3, h3) = checked_ok (parse_amount py _) _ h2 in
      let (c, e4, h4) = checked_ok (parse_currency py _) _ h3 in
      let (s, e5, h5) = checked_ok (parse_enum py _ _) _ h4 in
      let (_, _, h6) = checked_ok (opt_str py _) _ h5 in
      let (p, e7, h7) = checked_ok (optional (parse_datetime py) (get "processed_at" row)) _ h6 in
      returned (λ x. IsNormal (payment_fields x)) h7
        (
          amount_ok _ a e3,
          parse_currency_ok py _ c e4,
          parse_enum_ok py _ _ s e5,
          optional_ok IsZoned (parse_datetime py) (parse_datetime_ok py) (get "processed_at" row) p
              e7,
        )

  refund-IsNormal : (f : RefundFields) → normalize_refund py row ≡ ok f → IsNormal (refund_fields f)
  unfolding normalize_refund
  refund-IsNormal f h =
      let (_, _, h1) = checked_ok (required_reference py _ _ row) _ h in
      let (a, e2, h2) = checked_ok (parse_amount py _) _ h1 in
      let (c, e3, h3) = checked_ok (parse_currency py _) _ h2 in
      let (s, e4, h4) = checked_ok (parse_enum py _ _) _ h3 in
      let (_, _, h5) = checked_ok (opt_str py _) _ h4 in
      let (p, e6, h6) = checked_ok (optional (parse_datetime py) (get "processed_at" row)) _ h5 in
      returned (λ x. IsNormal (refund_fields x)) h6
        (
          amount_ok _ a e2,
          parse_currency_ok py _ c e3,
          parse_enum_ok py _ _ s e4,
          optional_ok IsZoned (parse_datetime py) (parse_datetime_ok py) (get "processed_at" row) p
              e6,
        )

  fee-IsNormal : (f : FeeFields) → normalize_fee py row ≡ ok f → IsNormal (fee_fields f)
  unfolding normalize_fee
  fee-IsNormal f h =
      let (_, _, h1) = checked_ok (merchant_reference py row) _ h in
      let (_, _, h2) = checked_ok (reference_from_row py _ _ _ row) _ h1 in
      let (_, _, h3) = checked_ok (reference_from_row py _ _ _ row) _ h2 in
      let (t, e4, h4) = checked_ok (parse_enum py _ _) _ h3 in
      let (a, e5, h5) = checked_ok (parse_amount py _) _ h4 in
      let (c, e6, h6) = checked_ok (parse_currency py _) _ h5 in
      returned (λ x. IsNormal (fee_fields x)) h6
        (parse_enum_ok py _ _ t e4, amount_ok _ a e5, parse_currency_ok py _ c e6)

  zero_amount_ok : IsAmount zero_amount
  unfolding zero_amount
  zero_amount_ok = omega arith

  settlement-IsNormal :
      (f : SettlementFields) → normalize_settlement py row ≡ ok f → IsNormal (settlement_fields f)
  unfolding normalize_settlement
  settlement-IsNormal f h =
      let or_zero = given_or_ok IsAmount (parse_amount py) amount_ok zero_amount zero_amount_ok in
      let if_given = optional_ok IsAmount (parse_amount py) amount_ok in
      let (_, _, h1) = checked_ok (merchant_reference py row) _ h in
      let (g, e2, h2) = checked_ok (parse_amount py _) _ h1 in
      let (charge, e3, h3) =
        checked_ok (given_or zero_amount (parse_amount py) (get "fee_amount" row)) _ h2 in
      let (adj, e4, h4) =
        checked_ok (given_or zero_amount (parse_amount py) (get "adjustment_amount" row)) _ h3 in
      let (net, e5, h5) =
        checked_ok (optional (parse_amount py) (get "expected_net_amount" row)) _ h4 in
      let (settled, e6, h6) =
        checked_ok (optional (parse_amount py) (get "actual_settled_amount" row)) _ h5 in
      let (c, e7, h7) = checked_ok (parse_currency py _) _ h6 in
      let (d, e8, h8) = checked_ok (parse_datetime py _) _ h7 in
      let (s, e9, h9) = checked_ok (parse_enum py _ _) _ h8 in
      returned (λ x. IsNormal (settlement_fields x)) h9
        (
          amount_ok _ g e2,
          or_zero (get "fee_amount" row) charge e3,
          or_zero (get "adjustment_amount" row) adj e4,
          if_given (get "expected_net_amount" row) net e5,
          if_given (get "actual_settled_amount" row) settled e6,
          parse_currency_ok py _ c e7,
          parse_datetime_ok py _ d e8,
          parse_enum_ok py _ _ s e9,
        )

  bank_transaction-IsNormal :
      (f : BankTransactionFields)
      → normalize_bank_transaction py row ≡ ok f
      → IsNormal (bank_transaction_fields f)
  unfolding normalize_bank_transaction
  bank_transaction-IsNormal f h =
      let (_, _, h1) = checked_ok (merchant_reference py row) _ h in
      let (_, _, h2) = checked_ok (reference_from_row py _ _ _ row) _ h1 in
      let (a, e3, h3) = checked_ok (parse_amount py _) _ h2 in
      let (c, e4, h4) = checked_ok (parse_currency py _) _ h3 in
      let (t, e5, h5) = checked_ok (parse_enum py _ _) _ h4 in
      let (d, e6, h6) = checked_ok (parse_datetime py _) _ h5 in
      let (s, e7, h7) = checked_ok (parse_enum py _ _) _ h6 in
      let (_, _, h8) = checked_ok (opt_str py _) _ h7 in
      returned (λ x. IsNormal (bank_transaction_fields x)) h8
        (
          amount_ok _ a e3,
          parse_currency_ok py _ c e4,
          parse_enum_ok py _ _ t e5,
          parse_datetime_ok py _ d e6,
          parse_enum_ok py _ _ s e7,
        )

  module _ {A : Type 0} (c : A → Fields) (m : Result ErrorCode A)
      (m_ok : (a : A) → m ≡ ok a → IsNormal (c a)) where
    wrapped-IsNormal : (f : Fields) → (m >>= λ a. ok (c a)) ≡ ok f → IsNormal f
    wrapped-IsNormal f h = let (a, e, k) = checked_ok m _ h in returned IsNormal k (m_ok a e)

  pub fields-IsNormal :
      (e : EntityType) (f : Fields) → normalize_fields py e row ≡ ok f → IsNormal f
  unfolding normalize_fields
  fields-IsNormal payment f h =
      wrapped-IsNormal payment_fields (normalize_payment py row) payment-IsNormal f h
  fields-IsNormal refund f h =
      wrapped-IsNormal refund_fields (normalize_refund py row) refund-IsNormal f h
  fields-IsNormal fee f h = wrapped-IsNormal fee_fields (normalize_fee py row) fee-IsNormal f h
  fields-IsNormal settlement f h =
      wrapped-IsNormal settlement_fields (normalize_settlement py row) settlement-IsNormal f h
  fields-IsNormal bank_transaction f h =
      wrapped-IsNormal bank_transaction_fields (normalize_bank_transaction py row)
        bank_transaction-IsNormal f h

  not_longer : (bound n : ℕ) → ltb bound n ≡ false → n ≤ bound
  not_longer bound n h = ground arith

  pub common_bounds :
      (c : EntityType × String × String)
      → normalize_common py row ≡ ok c
      → (py.len c.1 ≤ 64) × (py.len c.2 ≤ 255)
  unfolding normalize_common
  common_bounds c h =
      let (n, _, h1) = checked_ok (req_str py (get "entity_type" row)) _ h in
      let (_, _, h2) = checked_ok (supported (py.upper n)) _ h1 in
      let (p, _, h3) = checked_ok (req_str py (get "provider" row)) _ h2 in
      let (short, h4) = raise_if_ok (ltb 64 (py.len p)) invalid_field _ h3 in
      let (x, _, h5) = checked_ok (req_str py (get "external_id" row)) _ h4 in
      let (short', h6) = raise_if_ok (ltb 255 (py.len x)) invalid_field _ h5 in
      returned (λ k. (py.len k.1 ≤ 64) × (py.len k.2 ≤ 255)) h6
        (not_longer 64 (py.len p) short, not_longer 255 (py.len x) short')
