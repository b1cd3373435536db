-- ===== src/Ingestion/Invariant.antt =====
-- The domain rules hold of what the runs of services/ingestion/batch.py leave.
use financial_ai_operator.Prelude.{
  ℕ, String, ◌≡◌, refl, Option, none, some, List, [], ◌∷◌, string_eq, pair_eq, option_eq,
  All-append,
}
use financial_ai_operator.Prelude.Outcome.{ok}
use financial_ai_operator.Ingestion.Model.{
  Source, Runtime, payment, refund, fee, settlement, bank_transaction, Fields, payment_fields,
  refund_fields, fee_fields, settlement_fields, bank_transaction_fields, RefundFields,
}
use financial_ai_operator.Ingestion.Store.{
  Payment, Fee, Settlement, BankTransaction, IngestionRecord, Facts, Session,
}
use financial_ai_operator.Ingestion.References.{
  refund_payment, fee_parents, settlement_parents, payment_parents, bank_parents,
}
use financial_ai_operator.Ingestion.Materialize.{
  Origin, payment_conflict, refund_conflict, fee_conflict, settlement_conflict, bank_conflict,
  add_record, add_payment, add_refund, add_fee, add_settlement, add_bank, payment_row, refund_row,
  fee_row, settlement_row, bank_row, materialize_payment, materialize_refund, materialize_fee,
  materialize_settlement, materialize_bank_transaction, materialize_domain_fact,
}
use financial_ai_operator.Ingestion.Keeping.{Keeps}
use financial_ai_operator.Ingestion.Inserting.{materialize-Keeps}
use financial_ai_operator.Ingestion.Keeping.Runs.{Holds, create_run-Keeps, retry_run-Keeps}
use financial_ai_operator.Ingestion.Batch.{create_run, retry_run}
use financial_ai_operator.Ingestion.Sound.{
  IsCovered, IsBalanced, HasOneParent, IsSound, refund_payment_ok, IsCovered-append, fee_parents_ok,
  settlement_parents_ok,
}

add_payment-IsSound :
    (t : Facts) (p : Payment) (r : IngestionRecord)
    → IsSound t
    → IsSound (add_record r (add_payment p t))
unfolding add_record add_payment
add_payment-IsSound t p r h = record {
  covered = IsCovered-append t.payments p t.refunds h.covered;
  balanced = h.balanced;
  one_parent = h.one_parent;
}

add_refund-IsSound :
    (t : Facts) (o : Origin) (f : RefundFields) (p : Payment) (id : String) (r : IngestionRecord)
    → refund_payment t o.provider f ≡ ok p
    → IsSound t
    → IsSound (add_record r (add_refund (refund_row id o f p) t))
unfolding add_record add_refund refund_row
add_refund-IsSound t o f p id r found h =
    let (m, bound, same) = refund_payment_ok t o.provider f p found in
    record {
      covered =
          All-append (IsCovered t.payments) t.refunds (_ ∷ []) h.covered
            ((p, m, refl, bound, same), tt);
      balanced = h.balanced;
      one_parent = h.one_parent;
    }

add_fee-IsSound :
    (t : Facts) (f : Fee) (r : IngestionRecord)
    → HasOneParent f
    → IsSound t
    → IsSound (add_record r (add_fee f t))
unfolding add_record add_fee
add_fee-IsSound t f r one h = record {
  covered = h.covered;
  balanced = h.balanced;
  one_parent = All-append HasOneParent t.fees (f ∷ []) h.one_parent (one, tt);
}

add_settlement-IsSound :
    (t : Facts) (s : Settlement) (r : IngestionRecord)
    → IsBalanced s
    → IsSound t
    → IsSound (add_record r (add_settlement s t))
unfolding add_record add_settlement
add_settlement-IsSound t s r even h = record {
  covered = h.covered;
  balanced = All-append IsBalanced t.settlements (s ∷ []) h.balanced (even, tt);
  one_parent = h.one_parent;
}

add_bank-IsSound :
    (t : Facts) (b : BankTransaction) (r : IngestionRecord)
    → IsSound t
    → IsSound (add_record r (add_bank b t))
unfolding add_record add_bank
add_bank-IsSound t b r h = record {
  covered = h.covered;
  balanced = h.balanced;
  one_parent = h.one_parent;
}

materialize-IsSound :
    (uuid : ℕ → String) (o : Origin) (f : Option Fields)
    → Keeps (Holds IsSound) (materialize_domain_fact uuid o f)
unfolding materialize_domain_fact materialize_payment materialize_refund materialize_fee
    materialize_settlement materialize_bank_transaction
materialize-IsSound uuid o none s h = h
materialize-IsSound uuid o (some (payment_fields f)) s h =
    materialize-Keeps (Holds IsSound) (λ s rs n p. p) uuid o payment (λ t. payment_parents t f)
      (λ id p. payment_row id o f p) payment_conflict add_payment
      (λ s q id r _ _ p. (add_payment-IsSound s.current.facts (payment_row id o f q) r p.0, p.1)) s
      h
materialize-IsSound uuid o (some (refund_fields f)) s h =
    materialize-Keeps (Holds IsSound) (λ s rs n p. p) uuid o refund
      (λ t. refund_payment t o.provider f) (λ id p. refund_row id o f p) refund_conflict add_refund
      (λ s q id r found _ p. (add_refund-IsSound s.current.facts o f q id r found p.0, p.1)) s h
materialize-IsSound uuid o (some (fee_fields f)) s h =
    materialize-Keeps (Holds IsSound) (λ s rs n p. p) uuid o fee (λ t. fee_parents t o.provider f)
      (λ id p. fee_row id o f p) fee_conflict add_fee
      (λ s q id r found _ p. (
        add_fee-IsSound s.current.facts (fee_row id o f q) r
            (fee_parents_ok s.current.facts o.provider id o f q found) p.0,
        p.1,
      ))
      s h
materialize-IsSound uuid o (some (settlement_fields f)) s h =
    materialize-Keeps (Holds IsSound) (λ s rs n p. p) uuid o settlement
      (λ t. settlement_parents t f) (λ id p. settlement_row id o f p) settlement_conflict
      add_settlement
      (λ s q id r found _ p. (
        add_settlement-IsSound s.current.facts (settlement_row id o f q) r
            (settlement_parents_ok s.current.facts id o f q found) p.0,
        p.1,
      ))
      s h
materialize-IsSound uuid o (some (bank_transaction_fields f)) s h =
    materialize-Keeps (Holds IsSound) (λ s rs n p. p) uuid o bank_transaction
      (λ t. bank_parents t f) (λ id p. bank_row id o f p) bank_conflict add_bank
      (λ s q id r _ _ p. (add_bank-IsSound s.current.facts (bank_row id o f q) r p.0, p.1)) s h

-- A batch that is submitted, or the failed rows of a run that are tried again.
pub data Submission : Type 0 where
  submit : String → String → List Source → Submission
  retry : String → Submission

module _ (uuid : ℕ → String) (py : Runtime) (now later : ℕ) (actor : String) where
  abbrev pub run : Submission → Session → Session
  run (submit source_type source_name records) s =
      (create_run uuid py now later actor source_type source_name records s).1
  run (retry run_id) s = (retry_run uuid py now later actor run_id s).1

  -- When each refund has a payment of at least its amount and in its currency, each settlement's
  -- expected net is gross less fee plus adjustment, and no fee refers to a payment and a settlement both,
  -- saved and in progress, this still holds after a batch or a retry, whatever its rows and whether it
  -- returns or raises.
  pub run-IsSound :
      (submission : Submission) (s : Session) → Holds IsSound s → Holds IsSound (run submission s)
  run-IsSound (submit source_type source_name records) s h =
      create_run-Keeps IsSound uuid py (materialize-IsSound uuid) now later actor source_type
        source_name records s h
  run-IsSound (retry run_id) s h =
      retry_run-Keeps IsSound uuid py (materialize-IsSound uuid) now later actor run_id s h
