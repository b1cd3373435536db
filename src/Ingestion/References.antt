-- ===== src/Ingestion/References.antt =====
-- What services/ingestion/materialize.py looks up for a row, and the domain rules of
-- services/ingestion/base.py that it checks before anything is inserted.
use financial_ai_operator.Prelude.{
  ℕ, zero, suc, ◌*◌, String, Bool, true, false, not, ◌&&◌, ◌||◌, Option, none, some, List, ◌==◌,
  string_eq, option_eq, if◌then◌else◌, keep,
}
use financial_ai_operator.Prelude.Int.{ℤ, pos, negsuc, ◌+ℤ◌, ◌-ℤ◌, ltb_ℤ, eqb_ℤ, pos_part}
use financial_ai_operator.Prelude.Outcome.{Result, ok, err}
use financial_ai_operator.Prelude.Checked.{◌>>=◌, raise_if}
use financial_ai_operator.Table.{scalar_one_or_none}
use financial_ai_operator.Ingestion.Model.{
  Decimal, referenced_entity_not_found, domain_rule_violation, Reference, by_id, by_external_id,
  PaymentFields, RefundFields, FeeFields, SettlementFields, BankTransactionFields,
}
use financial_ai_operator.Ingestion.Store.{
  Parent, Payment, Settlement, Facts, Error, materialization, multiple_results_found,
}

unfoldable pub power_of_10 : ℕ → ℕ
power_of_10 zero = 1
power_of_10 (suc n) = 10 * power_of_10 n

unfoldable pub times : ℕ → ℤ → ℤ
times k (pos n) = pos (k * n)
times k (negsuc n) = pos 0 -ℤ pos (k * suc n)

-- The value of an amount, in units of 10⁻⁴.
unfoldable pub units : Decimal → ℤ
unfolding power_of_10 times
units d = times (power_of_10 (pos_part (d.exponent +ℤ pos 4))) d.coefficient

-- `_resolve_by_ref`, where `scope` is the condition on the provider.
unfoldable pub resolve_by_ref :
    {A : Type 0}
    → (A → String)
    → (A → Option String)
    → (A → Bool)
    → Reference
    → List A
    → Result Error (Option A)
resolve_by_ref id external_id scope (by_id i) table =
    scalar_one_or_none multiple_results_found (keep (λ r. id r == i) table)
resolve_by_ref id external_id scope (by_external_id e) table =
    scalar_one_or_none multiple_results_found
      (keep (λ r. (external_id r == some e) && scope r) table)

-- `_require`
unfoldable pub required : {A : Type 0} → Option A → Result Error A
required none = err (materialization referenced_entity_not_found)
required (some a) = ok a

unfoldable pub find_parent : Reference → List Parent → Result Error Parent
unfolding resolve_by_ref required
find_parent ref table =
    resolve_by_ref (λ p. p.id) (λ p. p.external_id) (λ _. true) ref table >>= required

-- An empty provider does not scope.
unfoldable pub find_payment : String → Reference → List Payment → Result Error Payment
unfolding resolve_by_ref required
find_payment provider ref table =
    resolve_by_ref (λ p. p.id) (λ p. some p.external_id)
      (λ p. (provider == "") || (p.provider == provider)) ref table
    >>= required

unfoldable pub find_settlement :
    (Settlement → Bool) → Reference → List Settlement → Result Error Settlement
unfolding resolve_by_ref required
find_settlement scope ref table =
    resolve_by_ref (λ p. p.id) (λ p. some p.external_id) scope ref table >>= required

-- `... if payload.get(key) is not None else None`
unfoldable pub if_given :
    {A : Type 0} → (Reference → Result Error A) → Option Reference → Result Error (Option A)
if_given find none = ok none
if_given find (some ref) = find ref >>= λ a. ok (some a)

-- `validate_refund_domain_rules` of services/ingestion/base.py
unfoldable pub validate_refund_domain_rules : ℤ → ℤ → String → String → Result Error (Unit {0})
validate_refund_domain_rules refund_amount payment_amount refund_currency payment_currency =
    if ltb_ℤ payment_amount refund_amount
    then err (materialization domain_rule_violation)
    else (if not (refund_currency == payment_currency)
        then err (materialization domain_rule_violation)
        else ok tt)

-- `validate_settlement_totals` of services/ingestion/base.py
unfoldable pub validate_settlement_totals : ℤ → ℤ → ℤ → ℤ → Result Error (Unit {0})
validate_settlement_totals gross fee adjustment expected_net =
    if not (eqb_ℤ expected_net (gross -ℤ fee +ℤ adjustment))
    then err (materialization domain_rule_violation)
    else ok tt

unfoldable pub payment_parents : Facts → PaymentFields → Result Error (Parent × Parent)
unfolding find_parent
payment_parents t f = do
  merchant ← find_parent f.merchant_ref t.merchants
  order ← find_parent f.order_ref t.orders
  ok (merchant, order)

unfoldable pub refund_payment : Facts → String → RefundFields → Result Error Payment
unfolding find_payment validate_refund_domain_rules units
refund_payment t provider f = do
  payment ← find_payment provider f.payment_ref t.payments
  _ ← validate_refund_domain_rules (units f.amount) payment.amount f.currency payment.currency
  ok payment

unfoldable pub not_both : Option Payment → Option Settlement → Bool
not_both (some p) (some s) = false
not_both _ _ = true

unfoldable pub fee_parents :
    Facts → String → FeeFields → Result Error (Parent × Option Payment × Option Settlement)
unfolding find_parent find_payment find_settlement if_given not_both
fee_parents t provider f = do
  merchant ← find_parent f.merchant_ref t.merchants
  payment ← if_given (λ ref. find_payment provider ref t.payments) f.payment_ref
  settlement ←
      if_given
        (λ ref.
          find_settlement (λ s. (provider == "") || (s.provider == provider)) ref t.settlements)
        f.settlement_ref
  _ ← raise_if (not (not_both payment settlement)) (materialization domain_rule_violation)
  ok (merchant, payment, settlement)

-- The expected net is computed where it is not given, and checked where it is.
unfoldable pub expected_net : SettlementFields → Option Decimal → Result Error ℤ
unfolding validate_settlement_totals units
expected_net f none = ok (units f.gross_amount -ℤ units f.fee_amount +ℤ units f.adjustment_amount)
expected_net f (some net) =
    validate_settlement_totals (units f.gross_amount) (units f.fee_amount)
      (units f.adjustment_amount) (units net)
    >>= λ _. ok (units net)

unfoldable pub settlement_parents : Facts → SettlementFields → Result Error (Parent × ℤ)
unfolding find_parent expected_net
settlement_parents t f = do
  merchant ← find_parent f.merchant_ref t.merchants
  net ← expected_net f f.expected_net_amount
  ok (merchant, net)

-- A bank feed names a settlement without its provider.
unfoldable pub bank_parents :
    Facts → BankTransactionFields → Result Error (Parent × Option Settlement)
unfolding find_parent find_settlement if_given
bank_parents t f = do
  merchant ← find_parent f.merchant_ref t.merchants
  settlement ← if_given (λ ref. find_settlement (λ _. true) ref t.settlements) f.settlement_ref
  ok (merchant, settlement)
