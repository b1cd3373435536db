-- ===== src/Ingestion/Recorded.antt =====
-- A run of services/ingestion/batch.py that returns is saved under its batch fingerprint.
use financial_ai_operator.Prelude.{
  ℕ, suc, String, ◌≡◌, refl, ap, ◌∙◌, inl, inr, Bool, true, false, Bool-cases, Option, none, some,
  List, [], ◌∷◌, ◌++◌, map, ◌==◌, string_eq, pair_eq, option_eq, ==_refl, any, keep,
}
use financial_ai_operator.Prelude.Outcome.{Result, ok, err, lift, ◌>>=◌}
use financial_ai_operator.Table.{scalar_one_or_none, rows}
use financial_ai_operator.Table.Laws.{row-added}
use financial_ai_operator.Ingestion.Model.{
  Source, Runtime, payment, refund, fee, settlement, bank_transaction, Fields, payment_fields,
  refund_fields, fee_fields, settlement_fields, bank_transaction_fields, NormalizedRow,
}
use financial_ai_operator.Ingestion.Rows.{normalize_row}
use financial_ai_operator.Ingestion.Store.{
  RunStatus, pending, running, completed, completed_with_errors, failed, RecordStatus, IngestionRun,
  Tables, Session, Error, multiple_results_found,
}
use financial_ai_operator.Ingestion.References.{
  payment_parents, refund_payment, fee_parents, settlement_parents, bank_parents,
}
use financial_ai_operator.Ingestion.Materialize.{
  Origin, payment_conflict, refund_conflict, fee_conflict, settlement_conflict, bank_conflict,
  add_payment, add_refund, add_fee, add_settlement, add_bank, payment_row, refund_row, fee_row,
  settlement_row, bank_row, materialize_payment, materialize_refund, materialize_fee,
  materialize_settlement, materialize_bank_transaction, materialize_domain_fact,
}
use financial_ai_operator.Ingestion.Outcomes.{process_rows}
use financial_ai_operator.Ingestion.Batch.{
  fingerprint_key, final_status, finished, assign_run, started, begun, new_run, announced,
  finish_tables, finish, abandon, processed, execute, existing_or_raise, resolve_existing,
  create_run,
}
use financial_ai_operator.Ingestion.Keeping.{Keeps, process_rows-Keeps}
use financial_ai_operator.Ingestion.Inserting.{materialize-Keeps}

-- The runs are as given, and so is what is saved.
abbrev Runs : List IngestionRun → Tables → Session → Type 0
Runs runs saved s = (s.current.runs ≡ runs) × (s.saved ≡ saved)

module _ (runs : List IngestionRun) (saved : Tables) where
  materialize-Runs :
      (uuid : ℕ → String) (o : Origin) (f : Option Fields)
      → Keeps (Runs runs saved) (materialize_domain_fact uuid o f)
  unfolding materialize_domain_fact materialize_payment materialize_refund materialize_fee
      materialize_settlement materialize_bank_transaction
  materialize-Runs uuid o none s h = h
  materialize-Runs uuid o (some (payment_fields f)) s h =
      materialize-Keeps (Runs runs saved) (λ s rs n p. p) uuid o payment (λ t. payment_parents t f)
        (λ id p. payment_row id o f p) payment_conflict add_payment (λ s q id r _ _ p. p) s h
  materialize-Runs uuid o (some (refund_fields f)) s h =
      materialize-Keeps (Runs runs saved) (λ s rs n p. p) uuid o refund
        (λ t. refund_payment t o.provider f) (λ id p. refund_row id o f p) refund_conflict
        add_refund (λ s q id r _ _ p. p) s h
  materialize-Runs uuid o (some (fee_fields f)) s h =
      materialize-Keeps (Runs runs saved) (λ s rs n p. p) uuid o fee
        (λ t. fee_parents t o.provider f) (λ id p. fee_row id o f p) fee_conflict add_fee
        (λ s q id r _ _ p. p) s h
  materialize-Runs uuid o (some (settlement_fields f)) s h =
      materialize-Keeps (Runs runs saved) (λ s rs n p. p) uuid o settlement
        (λ t. settlement_parents t f) (λ id p. settlement_row id o f p) settlement_conflict
        add_settlement (λ s q id r _ _ p. p) s h
  materialize-Runs uuid o (some (bank_transaction_fields f)) s h =
      materialize-Keeps (Runs runs saved) (λ s rs n p. p) uuid o bank_transaction
        (λ t. bank_parents t f) (λ id p. bank_row id o f p) bank_conflict add_bank
        (λ s q id r _ _ p. p) s h

module _ (p : IngestionRun → Bool) where
  keep_of-any-false : (rs : List IngestionRun) → any p rs ≡ false → keep p rs ≡ []
  keep_of-any-false [] h = refl
  keep_of-any-false (r ∷ rs) h = elim (Bool-cases (p r)) [
    | inl t ↦ let h' : true ≡ false = rw t at h in cc
    | inr f ↦ let h' : any p rs ≡ false = rw f at h in rw f (keep_of-any-false rs h')
  ]

  pub any_of-keep :
      (rs l : List IngestionRun) (r : IngestionRun) → keep p rs ≡ r ∷ l → any p rs ≡ true
  any_of-keep [] l r h = cc
  any_of-keep (x ∷ rs) l r h = elim (Bool-cases (p x)) [
    | inl t ↦ rw t refl
    | inr f ↦ let h' : keep p rs ≡ r ∷ l = rw f at h in rw f (any_of-keep rs l r h')
  ]

-- An assignment to a run that leaves its fingerprint.
rows-assign :
    (f : IngestionRun → IngestionRun) (id fp : String) (rs : List IngestionRun)
    → ((r : IngestionRun) → fingerprint_key (f r) ≡ fingerprint_key r)
    → rows fingerprint_key fp (assign_run f id rs) ≡ assign_run f id (rows fingerprint_key fp rs)
unfolding assign_run
rows-assign f id fp [] same = refl
rows-assign f id fp (r ∷ rs) same = elim (Bool-cases (r.batch_fingerprint == fp)) [
  | inl t ↦ elim (Bool-cases (r.id == id)) [
    | inl t' ↦
        let k : ((f r).batch_fingerprint == fp) ≡ true = ap (λ x. x == fp) (same r) ∙ t in
        rw (t, t', k) (ap (λ l. f r ∷ l) (rows-assign f id fp rs same))
    | inr f' ↦ rw (f', t, f') (ap (λ l. r ∷ l) (rows-assign f id fp rs same))
  ]
  | inr u ↦ elim (Bool-cases (r.id == id)) [
    | inl t' ↦
        let k : ((f r).batch_fingerprint == fp) ≡ false = ap (λ x. x == fp) (same r) ∙ u in
        rw (u, t', k) (rows-assign f id fp rs same)
    | inr f' ↦ rw (f', u) (rows-assign f id fp rs same)
  ]
]

announced_runs :
    (actor id : String) (status : RunStatus) (t : Tables)
    → (announced actor id status t).runs ≡ t.runs
unfolding announced
announced_runs actor id completed t = refl
announced_runs actor id completed_with_errors t = refl
announced_runs actor id pending t = refl
announced_runs actor id running t = refl
announced_runs actor id failed t = refl

-- Nothing waits, and the run is the one that is saved under the batch fingerprint.
abbrev pub IsRecorded : String → Result Error (IngestionRun × Bool) × Session → Type 0
IsRecorded fp (ok (run, false), s) =
    (s.current ≡ s.saved) × (rows fingerprint_key fp s.saved.runs ≡ run ∷ [])
IsRecorded fp (ok (run, true), s) = Unit
IsRecorded fp (err e, s) = Unit

module _ (uuid : ℕ → String) (py : Runtime) (now later : ℕ) (actor : String) where
  finish-IsRecorded :
      (run : IngestionRun) (outcomes : List RecordStatus) (s : Session)
      → rows fingerprint_key run.batch_fingerprint s.current.runs ≡ run ∷ []
      → IsRecorded run.batch_fingerprint (finish uuid py now later actor run outcomes s)
  unfolding finish finish_tables
  finish-IsRecorded run outcomes s its_row =
      let f = finished later outcomes in
      let runs = assign_run f run.id s.current.runs in
      let same : (r : IngestionRun) → fingerprint_key (f r) ≡ fingerprint_key r =
        finished-fingerprint outcomes in
      (
        refl,
        ap (rows fingerprint_key run.batch_fingerprint) (
              announced_runs actor run.id (final_status outcomes)
                (record s.current { runs = runs }))
            ∙ rows-assign f run.id run.batch_fingerprint s.current.runs same
            ∙ ap (assign_run f run.id) its_row
            ∙ assign_one f run,
      )
    where
      finished-fingerprint :
          (l : List RecordStatus) (r : IngestionRun)
          → fingerprint_key (finished later l r) ≡ fingerprint_key r
      finished-fingerprint l r = refl

      assign_one :
          (f : IngestionRun → IngestionRun) (r : IngestionRun)
          → assign_run f r.id (r ∷ []) ≡ f r ∷ []
      assign_one f r = rw (==_refl r.id) refl

  processed-IsRecorded :
      (run : IngestionRun) (r : Result Error (List RecordStatus) × Session)
      → rows fingerprint_key run.batch_fingerprint r.1.current.runs ≡ run ∷ []
      → IsRecorded run.batch_fingerprint (processed uuid py now later actor run r.0 r.1)
  unfolding processed abandon
  processed-IsRecorded run (ok outcomes, s) h = finish-IsRecorded run outcomes s h
  processed-IsRecorded run (err e, s) h = tt

  execute-IsRecorded :
      (run : IngestionRun) (norms : List NormalizedRow) (s : Session)
      → rows fingerprint_key run.batch_fingerprint s.current.runs ≡ []
      → IsRecorded run.batch_fingerprint (execute uuid py now later actor run norms s)
  unfolding execute begun started
  execute-IsRecorded run norms s absent =
      let began = begun uuid py now later actor run s in
      let runs = s.current.runs ++ started run ∷ [] in
      let (kept, _) =
        process_rows-Keeps (Runs runs s.saved) (λ s rs n p. p) (λ before s p q. (p.0, q.1)) uuid py
          (materialize-Runs runs s.saved uuid) run.id 0 norms began (refl, refl) in
      processed-IsRecorded (started run) (process_rows uuid py run.id 0 norms began) (
        ap (rows fingerprint_key run.batch_fingerprint) kept
        ∙ row-added fingerprint_key run.batch_fingerprint s.current.runs (started run) refl absent)

  resolve-IsRecorded :
      (fp fp' : String) (s : Session)
      → IsRecorded fp (resolve_existing uuid py now later actor fp' s)
  unfolding resolve_existing
  resolve-IsRecorded fp fp' s =
      from_existing
        (scalar_one_or_none multiple_results_found (rows fingerprint_key fp' s.saved.runs))
    where
      from_existing :
          (r : Result Error (Option IngestionRun))
          → IsRecorded fp (
              (lift r >>= existing_or_raise uuid py now later actor)
                (record s { current = s.saved }))
      from_existing (ok (some run)) = tt
      from_existing (ok none) = tt
      from_existing (err e) = tt

  pub create_run-IsRecorded :
      (source_type source_name : String) (records : List Source) (s : Session)
      → IsRecorded
          (new_run uuid py now later actor
            (uuid s.drawn)
            source_type
            source_name
            records).batch_fingerprint
          (create_run uuid py now later actor source_type source_name records s)
  unfolding create_run
  create_run-IsRecorded source_type source_name records s =
      let run = new_run uuid py now later actor (uuid s.drawn) source_type source_name records in
      let test : IngestionRun → Bool = λ r. r.batch_fingerprint == run.batch_fingerprint in
      let drawn : Session = record s { drawn = suc s.drawn } in
      elim (Bool-cases (any test s.current.runs)) [
        | inl t ↦ rw t (resolve-IsRecorded run.batch_fingerprint run.batch_fingerprint drawn)
        | inr f ↦ rw f (
            execute-IsRecorded run (map (normalize_row py) records) drawn
              (keep_of-any-false test s.current.runs f))
      ]
