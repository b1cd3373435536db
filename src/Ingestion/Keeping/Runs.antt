-- ===== src/Ingestion/Keeping/Runs.antt =====
-- What the materialization of a row keeps of the facts, a run of services/ingestion/batch.py keeps.
use mathlib.Core.Path.{subst}
use financial_ai_operator.Prelude.{
  ℕ, suc, String, ◌≡◌, refl, sym, Bool, inl, inr, Bool-cases, Option, none, some, List, [], ◌∷◌,
  map, any, length, ◌==◌, string_eq,
}
use financial_ai_operator.Prelude.Outcome.{Action, Result, ok, err, pure}
use financial_ai_operator.Table.{scalar_one_or_none, rows}
use financial_ai_operator.Ingestion.Model.{object}
use financial_ai_operator.Ingestion.Model.{Source, Runtime, Fields, NormalizedRow}
use financial_ai_operator.Ingestion.Rows.{normalize_row}
use financial_ai_operator.Ingestion.Store.{
  RecordStatus, RunStatus, completed, completed_with_errors, pending, running, failed, IngestionRun,
  Facts, Tables, Session, Error, multiple_results_found, IngestionRunRecord,
}
use financial_ai_operator.Ingestion.Materialize.{Origin, materialize_domain_fact}
use financial_ai_operator.Ingestion.Outcomes.{process_rows}
use financial_ai_operator.Ingestion.Batch.{
  announced, begun, started, assign_run, finished, final_status, finish_tables, finish, abandon,
  processed, execute, existing_or_raise, resolve_existing, run_key, retry_name, failed_rows,
  fingerprint_key, new_run, create_run, retry_rows, retry_found, retry_run,
}
use financial_ai_operator.Ingestion.Keeping.{Keeps, continue-Keeps, bind-Keeps, process_rows-Keeps}

-- A predicate of the facts that are saved and of those in progress.
abbrev pub Holds : (Facts → Type 0) → Session → Type 0
Holds P s = P s.current.facts × P s.saved.facts

pub announced_facts :
    (actor id : String) (status : RunStatus) (t : Tables)
    → (announced actor id status t).facts ≡ t.facts
unfolding announced
announced_facts actor id completed t = refl
announced_facts actor id completed_with_errors t = refl
announced_facts actor id pending t = refl
announced_facts actor id running t = refl
announced_facts actor id failed t = refl

module _ (P : Facts → Type 0) (uuid : ℕ → String) (py : Runtime)
    (materialize-Keeps : (o : Origin) (f : Option Fields)
      → Keeps (Holds P) (materialize_domain_fact uuid o f)) where
  module _ (now later : ℕ) (actor : String) where
    finish-Keeps :
        (run : IngestionRun) (outcomes : List RecordStatus)
        → Keeps (Holds P) (finish uuid py now later actor run outcomes)
    unfolding finish finish_tables
    finish-Keeps run outcomes s p =
        let t = record s.current {
          runs = assign_run (finished later outcomes) run.id s.current.runs;
        } in
        let q = subst P (sym (announced_facts actor run.id (final_status outcomes) t)) p.0 in (q, q)

    processed-Keeps :
        (run : IngestionRun) (r : Result Error (List RecordStatus))
        → Keeps (Holds P) (processed uuid py now later actor run r)
    unfolding processed abandon
    processed-Keeps run (ok outcomes) s p = finish-Keeps run outcomes s p
    processed-Keeps run (err e) s p = (p.0, p.0)

    execute-Keeps :
        (run : IngestionRun) (norms : List NormalizedRow)
        → Keeps (Holds P) (execute uuid py now later actor run norms)
    unfolding execute begun
    execute-Keeps run norms s p =
        let began = begun uuid py now later actor run s in
        let done = process_rows uuid py run.id 0 norms began in
        processed-Keeps (started run) done.0 done.1 (
          process_rows-Keeps (Holds P) (λ s rs n p. p) (λ before s p q. (p.0, q.1)) uuid py
            materialize-Keeps run.id 0 norms began p)

    existing-Keeps :
        (o : Option IngestionRun) → Keeps (Holds P) (existing_or_raise uuid py now later actor o)
    unfolding existing_or_raise
    existing-Keeps (some run) s p = p
    existing-Keeps none s p = p

    resolve-Keeps : (fp : String) → Keeps (Holds P) (resolve_existing uuid py now later actor fp)
    unfolding resolve_existing
    resolve-Keeps fp s p =
        continue-Keeps (Holds P) (existing_or_raise uuid py now later actor) existing-Keeps
          (scalar_one_or_none multiple_results_found (rows fingerprint_key fp s.saved.runs))
          (record s { current = s.saved }) (p.1, p.1)

    pub create_run-Keeps :
        (source_type source_name : String) (records : List Source)
        → Keeps (Holds P) (create_run uuid py now later actor source_type source_name records)
    unfolding create_run
    create_run-Keeps source_type source_name records s p =
        let run = new_run uuid py now later actor (uuid s.drawn) source_type source_name records in
        let drawn : Session = record s { drawn = suc s.drawn } in
        elim (Bool-cases (any (λ r. r.batch_fingerprint == run.batch_fingerprint) s.current.runs)) [
          | inl t ↦ rw t (resolve-Keeps run.batch_fingerprint drawn p)
          | inr f ↦ rw f (execute-Keeps run (map (normalize_row py) records) drawn p)
        ]

    retry_rows-Keeps :
        (run : IngestionRun) (rs : List IngestionRunRecord)
        → Keeps (Holds P) (retry_rows uuid py now later actor run rs)
    unfolding retry_rows
    retry_rows-Keeps run [] s p = p
    retry_rows-Keeps run (r ∷ rs) s p =
        let counted : IngestionRun × Bool → Action Session Error (IngestionRun × ℕ) =
          λ result. pure (result.0, length (r ∷ rs)) in
        let sources = map (λ x. object x.raw_payload) (r ∷ rs) in
        bind-Keeps (Holds P)
          (create_run uuid py now later actor run.source_type
            (retry_name uuid py now later actor run) sources)
          counted
          (create_run-Keeps run.source_type (retry_name uuid py now later actor run) sources)
          (λ result s p. p) s p

    retry_found-Keeps :
        (o : Option IngestionRun) → Keeps (Holds P) (retry_found uuid py now later actor o)
    unfolding retry_found
    retry_found-Keeps none s p = p
    retry_found-Keeps (some run) s p =
        retry_rows-Keeps run (failed_rows uuid py now later actor run.id s.current.run_records) s p

    pub retry_run-Keeps :
        (run_id : String) → Keeps (Holds P) (retry_run uuid py now later actor run_id)
    unfolding retry_run
    retry_run-Keeps run_id s p =
        continue-Keeps (Holds P) (retry_found uuid py now later actor) retry_found-Keeps
          (scalar_one_or_none multiple_results_found (rows run_key run_id s.current.runs)) s p
