-- ===== src/Ingestion/Outcomes.antt =====
-- `_process_rows` of services/ingestion/batch.py: each row gets a record and an outcome.
-- Sessions run one after another.
use financial_ai_operator.Prelude.{
  ℕ, suc, String, Option, none, some, List, [], ◌∷◌, ◌++◌, map, ◌==◌, string_eq, nat_eq, pair_eq,
  if◌then◌else◌,
}
use financial_ai_operator.Prelude.Outcome.{
  Action, Result, ok, err, pure, raise, gets, lift, ◌>>=◌, ◌>>◌,
}
use financial_ai_operator.Table.{scalar_one_or_none, rows}
use financial_ai_operator.Ingestion.Model.{Runtime, ErrorCode, integrity_conflict, NormalizedRow}
use financial_ai_operator.Ingestion.Rows.{is_valid, identity_from_raw}
use financial_ai_operator.Ingestion.Store.{
  RecordStatus, accepted, duplicate, rejected, row_failed, record_status_eq, IngestionRecord,
  IngestionRunRecord, Session, Error, materialization, integrity_error, multiple_results_found,
  run_not_found, nothing_to_retry, write, draw, savepoint,
}
use financial_ai_operator.Ingestion.Materialize.{Origin, materialize_domain_fact}

-- The identity of a source fact, as `_find_existing_record` compares it.
abbrev pub record_key : IngestionRecord → String × (String × String)
record_key r = (r.entity_type, (r.provider, r.external_id))

unfoldable pub find_existing_record :
    String → String → String → Action Session Error (Option IngestionRecord)
find_existing_record entity_type provider external_id = do
  found ← gets (λ s. rows record_key (entity_type, (provider, external_id)) s.current.facts.records)
  lift (scalar_one_or_none multiple_results_found found)

unfoldable pub assign_outcome :
    String → RecordStatus → Option ErrorCode → List IngestionRunRecord → List IngestionRunRecord
assign_outcome id status code rs =
    map (λ r. if r.id == id then record r { status = status; error_code = code } else r) rs

-- The outcome is assigned to the row's record and noted.
unfoldable pub settle : String → RecordStatus → Option ErrorCode → Action Session Error RecordStatus
unfolding assign_outcome
settle id status code = do
  write (λ t. record t { run_records = assign_outcome id status code t.run_records })
  pure status

module _ (uuid : ℕ → String) (py : Runtime) where
  unfoldable pub new_run_record : String → String → ℕ → NormalizedRow → IngestionRunRecord
  unfolding identity_from_raw is_valid
  new_run_record id run_id i norm =
      let (entity_type, provider, external_id) = identity_from_raw py norm.raw_payload in
      record {
        id = id;
        run_id = run_id;
        row_index = i;
        entity_type = entity_type;
        provider = provider;
        external_id = external_id;
        row_fingerprint =
            if is_valid norm then norm.row_fingerprint else py.sha256 norm.raw_payload;
        status = row_failed;
        error_code = none;
        raw_payload = norm.raw_payload;
      }

  -- After an `IntegrityError`: a duplicate only if the fact is there now.
  unfoldable pub reclassified : String → Option IngestionRecord → Action Session Error RecordStatus
  unfolding settle
  reclassified id (some r) = settle id duplicate none
  reclassified id none = settle id row_failed (some integrity_conflict)

  unfoldable pub attempted :
      String → NormalizedRow → Result Error (Unit {0}) → Action Session Error RecordStatus
  unfolding settle find_existing_record reclassified
  attempted id norm (ok _) = settle id accepted none
  attempted id norm (err (materialization code)) = settle id rejected (some code)
  attempted id norm (err integrity_error) =
      find_existing_record norm.entity_type norm.provider norm.external_id >>= reclassified id
  attempted id norm (err multiple_results_found) = raise multiple_results_found
  attempted id norm (err run_not_found) = raise run_not_found
  attempted id norm (err nothing_to_retry) = raise nothing_to_retry

  unfoldable pub origin : String → NormalizedRow → Origin
  origin run_id norm = record {
    run_id = run_id;
    provider = norm.provider;
    external_id = norm.external_id;
    raw = norm.raw_payload;
    row_fingerprint = norm.row_fingerprint;
  }

  unfoldable pub attempt : String → String → NormalizedRow → Action Session Error RecordStatus
  unfolding savepoint materialize_domain_fact origin attempted
  attempt run_id id norm s =
      let (r, s') = savepoint (materialize_domain_fact uuid (origin run_id norm) norm.payload) s in
      attempted id norm r s'

  unfoldable pub unless_existing :
      String → String → NormalizedRow → Option IngestionRecord → Action Session Error RecordStatus
  unfolding settle attempt
  unless_existing run_id id norm (some r) = settle id duplicate none
  unless_existing run_id id norm none = attempt run_id id norm

  unfoldable pub decide_row :
      String → String → NormalizedRow → Option ErrorCode → Action Session Error RecordStatus
  unfolding settle find_existing_record unless_existing
  decide_row run_id id norm (some code) = settle id rejected (some code)
  decide_row run_id id norm none =
      find_existing_record norm.entity_type norm.provider norm.external_id
      >>= unless_existing run_id id norm

  unfoldable pub process_row : String → ℕ → NormalizedRow → Action Session Error RecordStatus
  unfolding new_run_record decide_row
  process_row run_id i norm = do
    id ← draw uuid
    write (λ t. record t { run_records = t.run_records ++ new_run_record id run_id i norm ∷ [] })
    decide_row run_id id norm norm.error_code

  -- `_process_rows`, from the row with index `i`
  unfoldable pub process_rows :
      String → ℕ → List NormalizedRow → Action Session Error (List RecordStatus)
  unfolding process_row
  process_rows run_id i [] = pure []
  process_rows run_id i (norm ∷ norms) = process_row run_id i norm >>= λ status.
      process_rows run_id (suc i) norms >>= λ statuses. pure (status ∷ statuses)
