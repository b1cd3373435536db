-- ===== src/Ingestion/Batch.antt =====
-- services/ingestion/batch.py: a run processes the rows of one batch and accounts for each.
-- Sessions run one after another, so that a unique constraint is refused at the flush alone.
use Prim.Native.String.{◌++◌ as ◌+++◌}
use financial_ai_operator.Prelude.{
  ℕ, ◌+◌, String, Bool, true, false, ◌&&◌, Option, none, some, List, [], ◌∷◌, ◌++◌, map, ◌==◌,
  string_eq, nat_eq, pair_eq, if◌then◌else◌, keep, any, length,
}
use financial_ai_operator.Prelude.Outcome.{
  Action, Result, ok, err, pure, raise, gets, lift, ◌>>=◌, ◌>>◌,
}
use financial_ai_operator.Table.{scalar_one_or_none, rows}
use financial_ai_operator.Ingestion.Model.{text, texts, Source, object, Runtime, NormalizedRow}
use financial_ai_operator.Ingestion.Rows.{is_valid, normalize_row}
use financial_ai_operator.Ingestion.Store.{
  RunStatus, pending, running, completed, completed_with_errors, failed, RecordStatus, accepted,
  duplicate, rejected, row_failed, record_status_eq, IngestionRun, IngestionRunRecord, Tables,
  Session, Error, integrity_error, multiple_results_found, run_not_found, nothing_to_retry, commit,
  rollback, write, draw,
}
use financial_ai_operator.Ingestion.Outcomes.{process_rows}

abbrev pub fingerprint_key : IngestionRun → String
fingerprint_key r = r.batch_fingerprint

abbrev pub run_key : IngestionRun → String
run_key r = r.id

-- `_batch_fingerprint`
unfoldable pub batch_fingerprint : Runtime → String → List String → String
batch_fingerprint py source_type fingerprints =
    py.sha256 (("source_type", text source_type) ∷ ("rows", texts (py.sorted fingerprints)) ∷ [])

unfoldable pub valid_fingerprints : Runtime → List Source → List String
unfolding normalize_row is_valid
valid_fingerprints py records =
    map (λ r. r.row_fingerprint) (keep is_valid (map (normalize_row py) records))

unfoldable pub count_of : RecordStatus → List RecordStatus → ℕ
count_of status outcomes = length (keep (λ x. x == status) outcomes)

unfoldable pub assign_run :
    (IngestionRun → IngestionRun) → String → List IngestionRun → List IngestionRun
assign_run f id rs = map (λ r. if r.id == id then f r else r) rs

unfoldable pub final_status : List RecordStatus → RunStatus
unfolding count_of
final_status outcomes =
    if count_of rejected outcomes + count_of row_failed outcomes == 0
    then completed
    else completed_with_errors

-- What is assigned to the run after its rows.
unfoldable pub finished : ℕ → List RecordStatus → IngestionRun → IngestionRun
unfolding count_of final_status
finished later outcomes run = record run {
  successful_records = count_of accepted outcomes;
  duplicate_records = count_of duplicate outcomes;
  rejected_records = count_of rejected outcomes;
  failed_records = count_of row_failed outcomes;
  completed_at = some later;
  status = final_status outcomes;
}

unfoldable pub started : IngestionRun → IngestionRun
started run = record run { status = running }

unfoldable pub failed_run : ℕ → ℕ → IngestionRun → IngestionRun
failed_run later count run = record run {
  status = failed;
  failed_records = count;
  completed_at = some later;
}

abbrev pub log_event : String → String → String → Tables → Tables
log_event kind actor run_id t = record t {
  events = t.events ++ record { kind = kind; user_id = actor; run_id = run_id } ∷ [];
}

abbrev pub notify_user : String → String → String → Tables → Tables
notify_user kind actor run_id t = record t {
  notifications = t.notifications ++ record { kind = kind; user_id = actor; run_id = run_id } ∷ [];
}

-- A completed run is logged, any other is logged and the user notified.
unfoldable pub announced : String → String → RunStatus → Tables → Tables
announced actor id completed t = log_event "INGESTION_COMPLETED" actor id t
announced actor id _ t =
    notify_user "INGESTION_COMPLETED_WITH_ERRORS" actor id (log_event "INGESTION_FAILED" actor id t)

module _ (uuid : ℕ → String) (py : Runtime) where
  module _ (now later : ℕ) (actor : String) where
    unfoldable pub new_run : String → String → String → List Source → IngestionRun
    unfolding batch_fingerprint valid_fingerprints
    new_run id source_type source_name records = record {
      id = id;
      source_type = source_type;
      source_name = py.cut 255 source_name;
      status = pending;
      batch_fingerprint = batch_fingerprint py source_type (valid_fingerprints py records);
      total_records = length records;
      successful_records = 0;
      duplicate_records = 0;
      rejected_records = 0;
      failed_records = 0;
      created_by = actor;
      started_at = now;
      completed_at = none;
    }

    unfoldable pub finish_tables : IngestionRun → List RecordStatus → Tables → Tables
    unfolding finished final_status assign_run announced
    finish_tables run outcomes t =
        announced actor run.id (final_status outcomes)
          (record t { runs = assign_run (finished later outcomes) run.id t.runs })

    -- The run and whether it was there before; `_run_summary` shows the run less its fingerprint.
    unfoldable pub finish :
        IngestionRun → List RecordStatus → Action Session Error (IngestionRun × Bool)
    unfolding finish_tables finished
    finish run outcomes = do
      write (finish_tables run outcomes)
      commit
      pure (finished later outcomes run, false)

    -- Rows of the run whose status still is failed.
    unfoldable pub failed_rows : String → List IngestionRunRecord → List IngestionRunRecord
    failed_rows run_id rs = keep (λ r. (r.run_id == run_id) && (r.status == row_failed)) rs

    unfoldable pub abandon : IngestionRun → Error → Action Session Error (IngestionRun × Bool)
    unfolding failed_run assign_run failed_rows
    abandon run e = do
      count ← gets (λ s. length (failed_rows run.id s.current.run_records))
      write (λ t. record t { runs = assign_run (failed_run later count) run.id t.runs })
      write (log_event "INGESTION_FAILED" actor run.id)
      write (notify_user "INGESTION_FAILED" actor run.id)
      commit
      raise e

    unfoldable pub processed :
        IngestionRun → Result Error (List RecordStatus) → Action Session Error (IngestionRun × Bool)
    unfolding finish abandon
    processed run (ok outcomes) = finish run outcomes
    processed run (err e) = abandon run e

    -- The run is inserted, set to running, and its start logged.
    unfoldable pub begun : IngestionRun → Session → Session
    unfolding started
    begun run s = record s {
      current =
          log_event "INGESTION_STARTED" actor run.id
            (record s.current { runs = s.current.runs ++ started run ∷ [] });
    }

    -- From the flush of the run.
    unfoldable pub execute :
        IngestionRun → List NormalizedRow → Action Session Error (IngestionRun × Bool)
    unfolding begun started process_rows processed
    execute run norms s =
        let (r, s') = process_rows uuid py run.id 0 norms (begun run s) in
        processed (started run) r s'

    unfoldable pub existing_or_raise :
        Option IngestionRun → Action Session Error (IngestionRun × Bool)
    existing_or_raise (some run) = pure (run, true)
    existing_or_raise none = raise integrity_error

    unfoldable pub resolve_existing : String → Action Session Error (IngestionRun × Bool)
    unfolding existing_or_raise
    resolve_existing fingerprint = do
      rollback
      found ← gets (λ s. rows fingerprint_key fingerprint s.current.runs)
      existing ← lift (scalar_one_or_none multiple_results_found found)
      existing_or_raise existing

    unfoldable pub create_run :
        String → String → List Source → Action Session Error (IngestionRun × Bool)
    unfolding new_run resolve_existing execute normalize_row
    create_run source_type source_name records = do
      id ← draw uuid
      let run = new_run id source_type source_name records
      taken ← gets (λ s. any (λ r. r.batch_fingerprint == run.batch_fingerprint) s.current.runs)
      if taken
          then resolve_existing run.batch_fingerprint
          else execute run (map (normalize_row py) records)

    unfoldable pub retry_name : IngestionRun → String
    retry_name run = py.cut 255 ("retry:" +++ py.cut 12 run.id +++ ":" +++ run.source_name)

    -- The rows of a run are in the order of their index, as they were inserted.
    unfoldable pub retry_rows :
        IngestionRun → List IngestionRunRecord → Action Session Error (IngestionRun × ℕ)
    unfolding create_run retry_name
    retry_rows run [] = raise nothing_to_retry
    retry_rows run (r ∷ rs) =
        create_run run.source_type (retry_name run) (map (λ x. object x.raw_payload) (r ∷ rs))
        >>= λ result. pure (result.0, length (r ∷ rs))

    unfoldable pub retry_found : Option IngestionRun → Action Session Error (IngestionRun × ℕ)
    unfolding failed_rows retry_rows
    retry_found none = raise run_not_found
    retry_found (some run) = do
      found ← gets (λ s. failed_rows run.id s.current.run_records)
      retry_rows run found

    unfoldable pub retry_run : String → Action Session Error (IngestionRun × ℕ)
    unfolding retry_found
    retry_run run_id = do
      found ← gets (λ s. rows run_key run_id s.current.runs)
      run ← lift (scalar_one_or_none multiple_results_found found)
      retry_found run
