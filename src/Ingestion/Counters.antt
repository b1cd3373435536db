-- ===== src/Ingestion/Counters.antt =====
-- The counters of a run of services/ingestion/batch.py add up, and count the facts it added.
use mathlib.Core.Path.{subst}
use financial_ai_operator.Prelude.{
  ℕ, suc, ◌+◌, String, ◌≡◌, refl, sym, ap, ◌∙◌, inl, inr, Bool, true, false, Bool-cases, Option,
  none, some, List, [], ◌∷◌, map, arith, ◌==◌, string_eq, any, length,
}
use financial_ai_operator.Prelude.Outcome.{Result, ok, err, pure, lift, ◌>>=◌}
use financial_ai_operator.Table.{scalar_one_or_none, rows}
use financial_ai_operator.Ingestion.Model.{Source, Runtime, NormalizedRow}
use financial_ai_operator.Ingestion.Rows.{normalize_row}
use financial_ai_operator.Ingestion.Store.{
  RecordStatus, RecordStatus-discrete, record_status_eq, accepted, duplicate, rejected, row_failed,
  IngestionRun, Session, Error, multiple_results_found,
}
use financial_ai_operator.Ingestion.Outcomes.{process_row, process_rows}
use financial_ai_operator.Ingestion.Batch.{
  fingerprint_key, count_of, final_status, finished, assign_run, started, begun, new_run,
  finish_tables, finish, abandon, processed, execute, existing_or_raise, resolve_existing,
  create_run,
}
use financial_ai_operator.Ingestion.Keeping.Runs.{announced_facts}
use financial_ai_operator.Ingestion.Accounts.{
  ledger, IsAccounted, one_if_accepted, process_row-IsAccounted,
}

-- All outcomes are counted once.
count_total :
    (outcomes : List RecordStatus)
    → count_of accepted outcomes
        + count_of duplicate outcomes
        + count_of rejected outcomes
        + count_of row_failed outcomes
      ≡ length outcomes
unfolding count_of RecordStatus-discrete
count_total [] = refl
count_total (accepted ∷ l) = omega (arith, count_total l)
count_total (duplicate ∷ l) = omega (arith, count_total l)
count_total (rejected ∷ l) = omega (arith, count_total l)
count_total (row_failed ∷ l) = omega (arith, count_total l)

count_accepted :
    (status : RecordStatus) (l : List RecordStatus)
    → count_of accepted (status ∷ l) ≡ one_if_accepted status + count_of accepted l
unfolding count_of RecordStatus-discrete
count_accepted accepted l = omega arith
count_accepted duplicate l = omega arith
count_accepted rejected l = omega arith
count_accepted row_failed l = omega arith

-- Rows that were accounted for: an outcome for each, and a fact for each that is accepted.
abbrev IsCounted : ℕ → ℕ → Result Error (List RecordStatus) × Session → Type 0
IsCounted n k (ok outcomes, s) = (ledger s ≡ n + count_of accepted outcomes) × (length outcomes ≡ k)
IsCounted n k (err e, s) = Unit

-- The counters of a run that is new.
abbrev IsFinal : ℕ → ℕ → Result Error (IngestionRun × Bool) × Session → Type 0
IsFinal n k (ok (run, false), s) =
    (run.total_records ≡ k)
    × (run.successful_records + run.duplicate_records + run.rejected_records + run.failed_records
        ≡ run.total_records)
    × (ledger s ≡ n + run.successful_records)
IsFinal n k (ok (run, true), s) = Unit
IsFinal n k (err e, s) = Unit

IsCounted-cons :
    (n k : ℕ) (status : RecordStatus) (m : ℕ) (r : Result Error (List RecordStatus) × Session)
    → m ≡ n + one_if_accepted status
    → IsCounted m k r
    → IsCounted n (suc k) ((lift r.0 >>= λ statuses. pure (status ∷ statuses)) r.1)
IsCounted-cons n k status m (ok l, s) e h =
    (omega (arith, e, h.0, count_accepted status l), omega (arith, h.1))
IsCounted-cons n k status m (err x, s) e h = tt

module _ (uuid : ℕ → String) (py : Runtime) where
  process_rows-IsCounted :
      (run_id : String) (i : ℕ) (norms : List NormalizedRow) (s : Session)
      → IsCounted (ledger s) (length norms) (process_rows uuid py run_id i norms s)
  unfolding process_rows count_of
  process_rows-IsCounted run_id i [] s = (omega arith, refl)
  process_rows-IsCounted run_id i (norm ∷ norms) s =
      from_row (process_row uuid py run_id i norm s)
        (process_row-IsAccounted uuid py run_id i norm s)
        (λ s'. process_rows-IsCounted run_id (suc i) norms s')
    where
      from_row :
          (r : Result Error RecordStatus × Session)
          → IsAccounted (ledger s) r
          → ((s' : Session)
              → IsCounted (ledger s') (length norms) (process_rows uuid py run_id (suc i) norms s'))
          → IsCounted (ledger s) (suc (length norms)) (
              (lift r.0 >>= λ status.
              process_rows uuid py run_id (suc i) norms >>= λ statuses. pure (status ∷ statuses))
                r.1)
      from_row (ok status, s') h k =
          IsCounted-cons (ledger s) (length norms) status (ledger s')
            (process_rows uuid py run_id (suc i) norms s') h (k s')
      from_row (err e, s') h k = tt

  module _ (now later : ℕ) (actor : String) where
    finish-IsFinal :
        (n k : ℕ) (run : IngestionRun) (outcomes : List RecordStatus) (s : Session)
        → run.total_records ≡ k
        → IsCounted n k (ok outcomes, s)
        → IsFinal n k (finish uuid py now later actor run outcomes s)
    unfolding finish finish_tables finished
    finish-IsFinal n k run outcomes s total h =
        let t = record s.current {
          runs = assign_run (finished later outcomes) run.id s.current.runs;
        } in
        (
          total,
          count_total outcomes ∙ h.1 ∙ sym total,
          ap (λ facts. length facts.records)
                (announced_facts actor run.id (final_status outcomes) t)
              ∙ h.0,
        )

    processed-IsFinal :
        (n k : ℕ) (run : IngestionRun) (r : Result Error (List RecordStatus) × Session)
        → run.total_records ≡ k
        → IsCounted n k r
        → IsFinal n k (processed uuid py now later actor run r.0 r.1)
    unfolding processed abandon
    processed-IsFinal n k run (ok outcomes, s) total h = finish-IsFinal n k run outcomes s total h
    processed-IsFinal n k run (err e, s) total h = tt

    execute-IsFinal :
        (run : IngestionRun) (norms : List NormalizedRow) (s : Session)
        → run.total_records ≡ length norms
        → IsFinal (ledger s) (length norms) (execute uuid py now later actor run norms s)
    unfolding execute begun started
    execute-IsFinal run norms s total =
        processed-IsFinal (ledger s) (length norms) (started run)
          (process_rows uuid py run.id 0 norms (begun uuid py now later actor run s)) total
          (process_rows-IsCounted run.id 0 norms (begun uuid py now later actor run s))

    resolve-IsFinal :
        (n k : ℕ) (fp : String) (s : Session)
        → IsFinal n k (resolve_existing uuid py now later actor fp s)
    unfolding resolve_existing
    resolve-IsFinal n k fp s =
        from_existing
          (scalar_one_or_none multiple_results_found (rows fingerprint_key fp s.saved.runs))
      where
        from_existing :
            (r : Result Error (Option IngestionRun))
            → IsFinal n k (
                (lift r >>= existing_or_raise uuid py now later actor)
                  (record s { current = s.saved }))
        from_existing (ok (some run)) = tt
        from_existing (ok none) = tt
        from_existing (err e) = tt

    length-map : {A B : Type 0} (f : A → B) (l : List A) → length (map f l) ≡ length l
    length-map f [] = refl
    length-map f (x ∷ l) = ap suc (length-map f l)

    create_run-IsFinal :
        (source_type source_name : String) (records : List Source) (s : Session)
        → IsFinal
            (ledger s)
            (length records)
            (create_run uuid py now later actor source_type source_name records s)
    unfolding create_run new_run
    create_run-IsFinal source_type source_name records s =
        let run = new_run uuid py now later actor (uuid s.drawn) source_type source_name records in
        let drawn : Session = record s { drawn = suc s.drawn } in
        let norms = map (normalize_row py) records in
        let same : length norms ≡ length records = length-map (normalize_row py) records in
        elim (Bool-cases (any (λ r. r.batch_fingerprint == run.batch_fingerprint) s.current.runs)) [
          | inl t ↦ rw t (resolve-IsFinal (ledger s) (length records) run.batch_fingerprint drawn)
          | inr f ↦ rw f (
              subst (λ k. IsFinal (ledger s) k (execute uuid py now later actor run norms drawn))
                same (execute-IsFinal run norms drawn (sym same)))
        ]

    -- When create_run returns a run that is new, it has as many records as the batch, each is counted as
    -- accepted, duplicate, rejected or failed, and the ledger of source facts has grown by the accepted ones.
    pub create_run_counts :
        (source_type source_name : String) (records : List Source) (run : IngestionRun)
        (s s' : Session)
        → create_run uuid py now later actor source_type source_name records s
          ≡ (ok (run, false), s')
        → (run.total_records ≡ length records)
          × (run.successful_records + run.duplicate_records + run.rejected_records
                + run.failed_records
              ≡ length records)
          × (ledger s' ≡ ledger s + run.successful_records)
    create_run_counts source_type source_name records run s s' h =
        let (total, sum, added) =
          subst (IsFinal (ledger s) (length records)) h
            (create_run-IsFinal source_type source_name records s) in
        (total, sum ∙ total, added)
