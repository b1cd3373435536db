-- ===== src/Ingestion/Materialize.antt =====
-- services/ingestion/materialize.py: an accepted row becomes a row of its domain table and a
-- record of the source fact, under the unique constraints of both.
use financial_ai_operator.Prelude.{
  ℕ, String, Bool, ◌&&◌, ◌||◌, Option, none, some, List, [], ◌∷◌, ◌++◌, ◌==◌, string_eq, option_eq,
  if◌then◌else◌, any,
}
use financial_ai_operator.Prelude.Int.{ℤ}
use financial_ai_operator.Prelude.Outcome.{Action, Result, ok, err, raise, ◌>>=◌}
use financial_ai_operator.Ingestion.Model.{
  Row, domain_rule_violation, EntityType, payment, refund, fee, settlement, bank_transaction,
  PaymentFields, RefundFields, FeeFields, SettlementFields, BankTransactionFields, Fields,
  payment_fields, refund_fields, fee_fields, settlement_fields, bank_transaction_fields,
}
use financial_ai_operator.Ingestion.Validation.{entity_name}
use financial_ai_operator.Ingestion.Store.{
  Parent, Payment, Refund, Fee, Settlement, BankTransaction, IngestionRecord, Facts, Session, Error,
  materialization, integrity_error, draw,
}
use financial_ai_operator.Ingestion.References.{
  units, payment_parents, refund_payment, fee_parents, settlement_parents, bank_parents,
}

unfoldable pub map_option : {A B : Type 0} → (A → B) → Option A → Option B
map_option f none = none
map_option f (some a) = some (f a)

-- The identity and the provenance of the row that is materialized.
pub record Origin : Type 0 where
  pub run_id : String
  pub provider : String
  pub external_id : String
  pub raw : Row
  pub row_fingerprint : String

-- `uq_ingest_prov_ext_type` and the unique fingerprint.
unfoldable pub record_conflict : IngestionRecord → List IngestionRecord → Bool
record_conflict r rs =
    any
      (λ x.
        ((x.provider == r.provider)
          && ((x.external_id == r.external_id) && (x.entity_type == r.entity_type)))
        || (x.fingerprint == r.fingerprint))
      rs

-- The unique constraint on provider and external id that each domain table has.
unfoldable pub identity_conflict : {A : Type 0} → (A → String) → (A → String) → A → List A → Bool
identity_conflict provider external_id a as_ =
    any (λ x. (provider x == provider a) && (external_id x == external_id a)) as_

unfoldable pub payment_conflict : Payment → Facts → Bool
unfolding identity_conflict
payment_conflict p t = identity_conflict (λ x. x.provider) (λ x. x.external_id) p t.payments

unfoldable pub refund_conflict : Refund → Facts → Bool
unfolding identity_conflict
refund_conflict p t = identity_conflict (λ x. x.provider) (λ x. x.external_id) p t.refunds

unfoldable pub fee_conflict : Fee → Facts → Bool
unfolding identity_conflict
fee_conflict p t = identity_conflict (λ x. x.provider) (λ x. x.external_id) p t.fees

unfoldable pub settlement_conflict : Settlement → Facts → Bool
unfolding identity_conflict
settlement_conflict p t = identity_conflict (λ x. x.provider) (λ x. x.external_id) p t.settlements

unfoldable pub bank_conflict : BankTransaction → Facts → Bool
unfolding identity_conflict
bank_conflict p t =
    identity_conflict (λ x. x.bank_provider) (λ x. x.external_id) p t.bank_transactions

unfoldable pub add_payment : Payment → Facts → Facts
add_payment p t = record t { payments = t.payments ++ p ∷ [] }

unfoldable pub add_refund : Refund → Facts → Facts
add_refund p t = record t { refunds = t.refunds ++ p ∷ [] }

unfoldable pub add_fee : Fee → Facts → Facts
add_fee p t = record t { fees = t.fees ++ p ∷ [] }

unfoldable pub add_settlement : Settlement → Facts → Facts
add_settlement p t = record t { settlements = t.settlements ++ p ∷ [] }

unfoldable pub add_bank : BankTransaction → Facts → Facts
add_bank p t = record t { bank_transactions = t.bank_transactions ++ p ∷ [] }

unfoldable pub add_record : IngestionRecord → Facts → Facts
add_record r t = record t { records = t.records ++ r ∷ [] }

unfoldable pub ingestion_record : String → EntityType → Origin → IngestionRecord
unfolding entity_name
ingestion_record id e o = record {
  id = id;
  provider = o.provider;
  external_id = o.external_id;
  entity_type = entity_name e;
  raw_payload = o.raw;
  fingerprint = o.row_fingerprint;
  status = "PROCESSED";
  run_id = o.run_id;
}

-- `db.add_all([fact, record])`, flushed.
unfoldable pub insert_fact :
    (Facts → Bool) → (Facts → Facts) → IngestionRecord → Action Session Error (Unit {0})
unfolding record_conflict add_record
insert_fact conflict add r s =
    if conflict s.current.facts || record_conflict r s.current.facts.records
    then (err integrity_error, s)
    else (
      ok tt,
      record s { current = record s.current { facts = add_record r (add s.current.facts) } },
    )

unfoldable pub from_facts : {A : Type 0} → (Facts → Result Error A) → Action Session Error A
from_facts f s = (f s.current.facts, s)

unfoldable pub payment_row : String → Origin → PaymentFields → Parent × Parent → Payment
unfolding units
payment_row id o f (merchant, order) = record {
  id = id;
  external_id = o.external_id;
  merchant_id = merchant.id;
  order_id = order.id;
  provider = o.provider;
  amount = units f.amount;
  currency = f.currency;
  status = f.status;
  payment_method_type = f.payment_method_type;
  processed_at = f.processed_at;
}

unfoldable pub refund_row : String → Origin → RefundFields → Payment → Refund
unfolding units
refund_row id o f p = record {
  id = id;
  external_id = o.external_id;
  provider = o.provider;
  merchant_id = p.merchant_id;
  payment_id = p.id;
  amount = units f.amount;
  currency = f.currency;
  status = f.status;
  reason = f.reason;
  processed_at = f.processed_at;
}

unfoldable pub fee_row :
    String → Origin → FeeFields → Parent × Option Payment × Option Settlement → Fee
unfolding units map_option
fee_row id o f (merchant, p, s) = record {
  id = id;
  external_id = o.external_id;
  merchant_id = merchant.id;
  payment_id = map_option (λ x. x.id) p;
  settlement_id = map_option (λ x. x.id) s;
  fee_type = f.fee_type;
  amount = units f.amount;
  currency = f.currency;
  provider = o.provider;
}

unfoldable pub settlement_row : String → Origin → SettlementFields → Parent × ℤ → Settlement
unfolding units map_option
settlement_row id o f (merchant, net) = record {
  id = id;
  external_id = o.external_id;
  merchant_id = merchant.id;
  provider = o.provider;
  gross_amount = units f.gross_amount;
  fee_amount = units f.fee_amount;
  adjustment_amount = units f.adjustment_amount;
  expected_net_amount = net;
  actual_settled_amount = map_option units f.actual_settled_amount;
  currency = f.currency;
  settlement_date = f.settlement_date;
  status = f.status;
}

unfoldable pub bank_row :
    String → Origin → BankTransactionFields → Parent × Option Settlement → BankTransaction
unfolding units map_option
bank_row id o f (merchant, s) = record {
  id = id;
  external_id = o.external_id;
  merchant_id = merchant.id;
  bank_provider = o.provider;
  settlement_id = map_option (λ x. x.id) s;
  amount = units f.amount;
  currency = f.currency;
  transaction_type = f.transaction_type;
  transaction_date = f.transaction_date;
  description = f.description;
  status = f.status;
}

module _ (uuid : ℕ → String) (o : Origin) where
  -- Two identifiers are drawn, the row and its record inserted.
  unfoldable pub insert_found :
      {A P : Type 0}
      → EntityType
      → (String → P → A)
      → (A → Facts → Bool)
      → (A → Facts → Facts)
      → P
      → Action Session Error (Unit {0})
  unfolding insert_fact ingestion_record
  insert_found e make conflict add p = do
    id ← draw uuid
    record_id ← draw uuid
    insert_fact (conflict (make id p)) (add (make id p)) (ingestion_record record_id e o)

  -- From the parents that are looked up.
  unfoldable pub materialize :
      {A P : Type 0}
      → EntityType
      → (Facts → Result Error P)
      → (String → P → A)
      → (A → Facts → Bool)
      → (A → Facts → Facts)
      → Action Session Error (Unit {0})
  unfolding from_facts insert_found
  materialize e parents make conflict add = from_facts parents >>= insert_found e make conflict add

  unfoldable pub materialize_payment : PaymentFields → Action Session Error (Unit {0})
  unfolding materialize payment_parents payment_row payment_conflict add_payment
  materialize_payment f =
      materialize payment (λ t. payment_parents t f) (λ id p. payment_row id o f p) payment_conflict
        add_payment

  unfoldable pub materialize_refund : RefundFields → Action Session Error (Unit {0})
  unfolding materialize refund_payment refund_row refund_conflict add_refund
  materialize_refund f =
      materialize refund (λ t. refund_payment t o.provider f) (λ id p. refund_row id o f p)
        refund_conflict add_refund

  unfoldable pub materialize_fee : FeeFields → Action Session Error (Unit {0})
  unfolding materialize fee_parents fee_row fee_conflict add_fee
  materialize_fee f =
      materialize fee (λ t. fee_parents t o.provider f) (λ id p. fee_row id o f p) fee_conflict
        add_fee

  unfoldable pub materialize_settlement : SettlementFields → Action Session Error (Unit {0})
  unfolding materialize settlement_parents settlement_row settlement_conflict add_settlement
  materialize_settlement f =
      materialize settlement (λ t. settlement_parents t f) (λ id p. settlement_row id o f p)
        settlement_conflict add_settlement

  unfoldable pub materialize_bank_transaction :
      BankTransactionFields → Action Session Error (Unit {0})
  unfolding materialize bank_parents bank_row bank_conflict add_bank
  materialize_bank_transaction f =
      materialize bank_transaction (λ t. bank_parents t f) (λ id p. bank_row id o f p) bank_conflict
        add_bank

  -- `materialize_domain_fact`
  unfoldable pub materialize_domain_fact : Option Fields → Action Session Error (Unit {0})
  unfolding materialize_payment materialize_refund materialize_fee materialize_settlement
      materialize_bank_transaction
  materialize_domain_fact none = raise (materialization domain_rule_violation)
  materialize_domain_fact (some (payment_fields f)) = materialize_payment f
  materialize_domain_fact (some (refund_fields f)) = materialize_refund f
  materialize_domain_fact (some (fee_fields f)) = materialize_fee f
  materialize_domain_fact (some (settlement_fields f)) = materialize_settlement f
  materialize_domain_fact (some (bank_transaction_fields f)) = materialize_bank_transaction f
