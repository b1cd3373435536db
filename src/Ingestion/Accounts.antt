-- ===== src/Ingestion/Accounts.antt =====
-- The counters that a run of services/ingestion/batch.py ends with.
use financial_ai_operator.Prelude.{
  ℕ, suc, ◌+◌, String, ◌≡◌, refl, ap, ◌∙◌, inl, inr, Bool, ◌||◌, Bool-cases, Option, none, some, [],
  ◌∷◌, ◌++◌, arith, string_eq, pair_eq, length, length-append,
}
use financial_ai_operator.Prelude.Outcome.{Action, Result, ok, err, lift, ◌>>=◌}
use financial_ai_operator.Table.{scalar_one_or_none, rows}
use financial_ai_operator.Ingestion.Model.{
  Runtime, ErrorCode, EntityType, payment, refund, fee, settlement, bank_transaction, Fields,
  payment_fields, refund_fields, fee_fields, settlement_fields, bank_transaction_fields,
  NormalizedRow,
}
use financial_ai_operator.Ingestion.Store.{
  RecordStatus, record_status_eq, accepted, duplicate, rejected, row_failed, IngestionRecord, Facts,
  Session, Error, materialization, integrity_error, multiple_results_found, run_not_found,
  nothing_to_retry, undone, savepoint,
}
use financial_ai_operator.Ingestion.References.{
  payment_parents, refund_payment, fee_parents, settlement_parents, bank_parents,
}
use financial_ai_operator.Ingestion.Materialize.{
  Origin, payment_conflict, refund_conflict, fee_conflict, settlement_conflict, bank_conflict,
  record_conflict, insert_fact, from_facts, insert_found, ingestion_record, add_record, add_payment,
  add_refund, add_fee, add_settlement, add_bank, payment_row, refund_row, fee_row, settlement_row,
  bank_row, materialize, materialize_payment, materialize_refund, materialize_fee,
  materialize_settlement, materialize_bank_transaction, materialize_domain_fact,
}
use financial_ai_operator.Ingestion.Outcomes.{
  record_key, find_existing_record, settle, reclassified, attempted, origin, attempt,
  unless_existing, decide_row, process_row, new_run_record,
}

-- The number of source facts in the ledger.
abbrev pub ledger : Session → ℕ
ledger s = length s.current.facts.records

abbrev pub one_if_accepted : RecordStatus → ℕ
one_if_accepted accepted = 1
one_if_accepted duplicate = 0
one_if_accepted rejected = 0
one_if_accepted row_failed = 0

-- An insertion that returned has added one, one that raised none.
abbrev IsOneMore : ℕ → Result Error (Unit {0}) × Session → Type 0
IsOneMore n (ok u, s) = ledger s ≡ n + 1
IsOneMore n (err e, s) = ledger s ≡ n

-- A row that was accounted for has added one if accepted and none otherwise.
abbrev pub IsAccounted : ℕ → Result Error RecordStatus × Session → Type 0
IsAccounted n (ok status, s) = ledger s ≡ n + one_if_accepted status
IsAccounted n (err e, s) = Unit

module _ (uuid : ℕ → String) (o : Origin) where
  module _ {A Q : Type 0} (e : EntityType) (parents : Facts → Result Error Q)
      (make : String → Q → A) (conflict : A → Facts → Bool) (add : A → Facts → Facts)
      (same : (a : A) (t : Facts) → (add a t).records ≡ t.records) where
    insert-IsOneMore :
        (s : Session) (a : A) (r : IngestionRecord)
        → IsOneMore (ledger s) (insert_fact (conflict a) (add a) r s)
    unfolding insert_fact add_record
    insert-IsOneMore s a r =
        elim (Bool-cases
          (conflict a s.current.facts || record_conflict r s.current.facts.records)) [
            | inl t ↦ rw t refl
            | inr f ↦ rw f (
                ap (λ l. length (l ++ r ∷ [])) (same a s.current.facts)
                ∙ length-append s.current.facts.records (r ∷ []))
          ]

    materialize-IsOneMore :
        (s : Session) → IsOneMore (ledger s) (materialize uuid o e parents make conflict add s)
    unfolding materialize from_facts insert_found
    materialize-IsOneMore s = from_parents (parents s.current.facts)
      where
        from_parents :
            (r : Result Error Q)
            → IsOneMore (ledger s) ((lift r >>= insert_found uuid o e make conflict add) s)
        from_parents (ok q) =
            insert-IsOneMore (record s { drawn = suc (suc s.drawn) }) (make (uuid s.drawn) q)
              (ingestion_record (uuid (suc s.drawn)) e o)
        from_parents (err x) = refl

  fact-IsOneMore :
      (f : Option Fields) (s : Session) → IsOneMore (ledger s) (materialize_domain_fact uuid o f s)
  unfolding materialize_domain_fact materialize_payment materialize_refund materialize_fee
      materialize_settlement materialize_bank_transaction add_payment add_refund add_fee
      add_settlement add_bank
  fact-IsOneMore none s = refl
  fact-IsOneMore (some (payment_fields f)) s =
      materialize-IsOneMore payment (λ t. payment_parents t f) (λ id p. payment_row id o f p)
        payment_conflict add_payment (λ a t. refl) s
  fact-IsOneMore (some (refund_fields f)) s =
      materialize-IsOneMore refund (λ t. refund_payment t o.provider f)
        (λ id p. refund_row id o f p) refund_conflict add_refund (λ a t. refl) s
  fact-IsOneMore (some (fee_fields f)) s =
      materialize-IsOneMore fee (λ t. fee_parents t o.provider f) (λ id p. fee_row id o f p)
        fee_conflict add_fee (λ a t. refl) s
  fact-IsOneMore (some (settlement_fields f)) s =
      materialize-IsOneMore settlement (λ t. settlement_parents t f)
        (λ id p. settlement_row id o f p) settlement_conflict add_settlement (λ a t. refl) s
  fact-IsOneMore (some (bank_transaction_fields f)) s =
      materialize-IsOneMore bank_transaction (λ t. bank_parents t f) (λ id p. bank_row id o f p)
        bank_conflict add_bank (λ a t. refl) s

undone-IsOneMore :
    (s : Session) (r : Result Error (Unit {0}) × Session)
    → IsOneMore (ledger s) r
    → IsOneMore (ledger s) (undone s r)
unfolding undone
undone-IsOneMore s (ok u, s') h = h
undone-IsOneMore s (err e, s') h = refl

module _ (uuid : ℕ → String) (py : Runtime) where
  continue-IsAccounted :
      {A : Type 0} (n : ℕ) (f : A → Action Session Error RecordStatus) (r : Result Error A)
      (s : Session)
      → ((a : A) → IsAccounted n (f a s))
      → IsAccounted n ((lift r >>= f) s)
  continue-IsAccounted n f (ok a) s h = h a
  continue-IsAccounted n f (err e) s h = tt

  -- An outcome other than accepted, over a ledger that is unchanged.
  unchanged : (n m : ℕ) → n ≡ m → n ≡ m + 0
  unchanged n m h = omega arith

  reclassified-IsAccounted :
      (n : ℕ) (id : String) (r : Option IngestionRecord) (s : Session)
      → ledger s ≡ n
      → IsAccounted n (reclassified uuid py id r s)
  unfolding reclassified settle
  reclassified-IsAccounted n id (some r) s h = unchanged (ledger s) n h
  reclassified-IsAccounted n id none s h = unchanged (ledger s) n h

  attempted-IsAccounted :
      (n : ℕ) (id : String) (norm : NormalizedRow) (r : Result Error (Unit {0}) × Session)
      → IsOneMore n r
      → IsAccounted n (attempted uuid py id norm r.0 r.1)
  unfolding attempted settle find_existing_record
  attempted-IsAccounted n id norm (ok u, s) h = h
  attempted-IsAccounted n id norm (err (materialization code), s) h = unchanged (ledger s) n h
  attempted-IsAccounted n id norm (err integrity_error, s) h =
      continue-IsAccounted n (reclassified uuid py id)
        (scalar_one_or_none multiple_results_found (
          rows record_key (norm.entity_type, (norm.provider, norm.external_id))
            s.current.facts.records))
        s (λ o. reclassified-IsAccounted n id o s h)
  attempted-IsAccounted n id norm (err multiple_results_found, s) h = tt
  attempted-IsAccounted n id norm (err run_not_found, s) h = tt
  attempted-IsAccounted n id norm (err nothing_to_retry, s) h = tt

  unless-IsAccounted :
      (run_id id : String) (norm : NormalizedRow) (o : Option IngestionRecord) (s : Session)
      → IsAccounted (ledger s) (unless_existing uuid py run_id id norm o s)
  unfolding unless_existing settle attempt savepoint
  unless-IsAccounted run_id id norm (some r) s = unchanged (ledger s) (ledger s) refl
  unless-IsAccounted run_id id norm none s =
      let from = origin uuid py run_id norm in
      attempted-IsAccounted (ledger s) id norm
        (undone s (materialize_domain_fact uuid from norm.payload s))
        (undone-IsOneMore s (materialize_domain_fact uuid from norm.payload s)
          (fact-IsOneMore uuid from norm.payload s))

  decide-IsAccounted :
      (run_id id : String) (norm : NormalizedRow) (code : Option ErrorCode) (s : Session)
      → IsAccounted (ledger s) (decide_row uuid py run_id id norm code s)
  unfolding decide_row settle find_existing_record
  decide-IsAccounted run_id id norm (some code) s = unchanged (ledger s) (ledger s) refl
  decide-IsAccounted run_id id norm none s =
      continue-IsAccounted (ledger s) (unless_existing uuid py run_id id norm)
        (scalar_one_or_none multiple_results_found (
          rows record_key (norm.entity_type, (norm.provider, norm.external_id))
            s.current.facts.records))
        s (λ o. unless-IsAccounted run_id id norm o s)

  pub process_row-IsAccounted :
      (run_id : String) (i : ℕ) (norm : NormalizedRow) (s : Session)
      → IsAccounted (ledger s) (process_row uuid py run_id i norm s)
  unfolding process_row
  process_row-IsAccounted run_id i norm s =
      decide-IsAccounted run_id (uuid s.drawn) norm norm.error_code (record s {
        drawn = suc s.drawn;
        current = record s.current {
          run_records =
              s.current.run_records ++ new_run_record uuid py (uuid s.drawn) run_id i norm ∷ [];
        };
      })
