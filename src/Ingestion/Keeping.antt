-- ===== src/Ingestion/Keeping.antt =====
-- What the materialization of a row keeps, `_process_rows` of services/ingestion/batch.py keeps.
pub mod Runs
use mathlib.Core.Path.{subst}
use financial_ai_operator.Prelude.{
  ℕ, suc, String, ◌≡◌, refl, sym, Bool, inl, inr, Bool-cases, Option, none, some, List, [], ◌∷◌,
  ◌++◌, map, any, length, ◌==◌, string_eq,
}
use financial_ai_operator.Prelude.Outcome.{Action, Result, ok, err, pure, lift, ◌>>=◌}
use financial_ai_operator.Table.{scalar_one_or_none, rows}
use financial_ai_operator.Ingestion.Model.{object}
use financial_ai_operator.Ingestion.Model.{
  Source, Runtime, ErrorCode, integrity_conflict, Fields, NormalizedRow,
}
use financial_ai_operator.Ingestion.Rows.{normalize_row}
use financial_ai_operator.Ingestion.Store.{
  RecordStatus, RunStatus, accepted, duplicate, rejected, row_failed, completed,
  completed_with_errors, pending, running, failed, IngestionRecord, IngestionRun, Facts, Tables,
  Session, Error, materialization, integrity_error, multiple_results_found, run_not_found,
  nothing_to_retry, undone, savepoint, IngestionRunRecord,
}
use financial_ai_operator.Ingestion.Materialize.{Origin, materialize_domain_fact}
use financial_ai_operator.Ingestion.Outcomes.{
  assign_outcome, new_run_record, find_existing_record, settle, attempted, reclassified, origin,
  attempt, unless_existing, decide_row, process_row, process_rows,
}

-- A call that keeps a predicate of the session.
abbrev pub Keeps : (Session → Type 0) → {A : Type 0} → Action Session Error A → Type 0
Keeps Q m = (s : Session) → Q s → Q (m s).1

-- The predicate does not look at the records of rows and at what was drawn.
abbrev pub IsStable : (Session → Type 0) → Type 0
IsStable Q =
    (s : Session) (rs : List IngestionRunRecord) (n : ℕ)
    → Q s
    → Q (record s { current = record s.current { run_records = rs }; drawn = n })

-- It still holds when a call that kept it is undone.
abbrev pub IsUndoable : (Session → Type 0) → Type 0
IsUndoable Q = (before s : Session) → Q before → Q s → Q (record s { current = before.current })

module _ (Q : Session → Type 0) where
  pub continue-Keeps :
      {A B : Type 0} (f : A → Action Session Error B)
      → ((a : A) → Keeps Q (f a))
      → (r : Result Error A) (s : Session) → Q s
      → Q ((lift r >>= f) s).1
  continue-Keeps f h (ok a) s p = h a s p
  continue-Keeps f h (err e) s p = p

  pub bind-Keeps :
      {A B : Type 0} (m : Action Session Error A) (f : A → Action Session Error B)
      → Keeps Q m
      → ((a : A) → Keeps Q (f a))
      → Keeps Q (m >>= f)
  bind-Keeps m f k h s p = continue-Keeps f h (m s).0 (m s).1 (k s p)

module _ (Q : Session → Type 0) (stable : IsStable Q) (undoable : IsUndoable Q) where
  undone-Keeps :
      {A : Type 0} (before : Session) (r : Result Error A × Session)
      → Q before
      → Q r.1
      → Q (undone before r).1
  unfolding undone
  undone-Keeps before (ok a, s) p q = q
  undone-Keeps before (err e, s) p q = undoable before s p q

  savepoint-Keeps : {A : Type 0} (m : Action Session Error A) → Keeps Q m → Keeps Q (savepoint m)
  unfolding savepoint
  savepoint-Keeps m k s p = undone-Keeps s (m s) p (k s p)

  settle-Keeps :
      (id : String) (status : RecordStatus) (code : Option ErrorCode)
      → Keeps Q (settle id status code)
  unfolding settle
  settle-Keeps id status code s p =
      stable s (assign_outcome id status code s.current.run_records) s.drawn p

  find-Keeps : (e p x : String) → Keeps Q (find_existing_record e p x)
  unfolding find_existing_record
  find-Keeps e p x s h = h

  module _ (uuid : ℕ → String) (py : Runtime)
      (materialize-Keeps : (o : Origin) (f : Option Fields)
        → Keeps Q (materialize_domain_fact uuid o f)) where
    reclassified-Keeps :
        (id : String) (r : Option IngestionRecord) → Keeps Q (reclassified uuid py id r)
    unfolding reclassified
    reclassified-Keeps id (some r) = settle-Keeps id duplicate none
    reclassified-Keeps id none = settle-Keeps id row_failed (some integrity_conflict)

    attempted-Keeps :
        (id : String) (norm : NormalizedRow) (r : Result Error (Unit {0}))
        → Keeps Q (attempted uuid py id norm r)
    unfolding attempted
    attempted-Keeps id norm (ok u) s p = settle-Keeps id accepted none s p
    attempted-Keeps id norm (err (materialization code)) s p =
        settle-Keeps id rejected (some code) s p
    attempted-Keeps id norm (err integrity_error) s p =
        bind-Keeps Q (find_existing_record norm.entity_type norm.provider norm.external_id)
          (reclassified uuid py id) (find-Keeps norm.entity_type norm.provider norm.external_id)
          (reclassified-Keeps id) s p
    attempted-Keeps id norm (err multiple_results_found) s p = p
    attempted-Keeps id norm (err run_not_found) s p = p
    attempted-Keeps id norm (err nothing_to_retry) s p = p

    attempt-Keeps :
        (run_id id : String) (norm : NormalizedRow) → Keeps Q (attempt uuid py run_id id norm)
    unfolding attempt
    attempt-Keeps run_id id norm s p =
        let m = materialize_domain_fact uuid (origin uuid py run_id norm) norm.payload in
        attempted-Keeps id norm (savepoint m s).0 (savepoint m s).1
          (savepoint-Keeps m (materialize-Keeps (origin uuid py run_id norm) norm.payload) s p)

    unless-Keeps :
        (run_id id : String) (norm : NormalizedRow) (r : Option IngestionRecord)
        → Keeps Q (unless_existing uuid py run_id id norm r)
    unfolding unless_existing
    unless-Keeps run_id id norm (some r) = settle-Keeps id duplicate none
    unless-Keeps run_id id norm none = attempt-Keeps run_id id norm

    decide-Keeps :
        (run_id id : String) (norm : NormalizedRow) (code : Option ErrorCode)
        → Keeps Q (decide_row uuid py run_id id norm code)
    unfolding decide_row
    decide-Keeps run_id id norm (some code) = settle-Keeps id rejected (some code)
    decide-Keeps run_id id norm none =
        bind-Keeps Q (find_existing_record norm.entity_type norm.provider norm.external_id)
          (unless_existing uuid py run_id id norm)
          (find-Keeps norm.entity_type norm.provider norm.external_id) (unless-Keeps run_id id norm)

    process_row-Keeps :
        (run_id : String) (i : ℕ) (norm : NormalizedRow)
        → Keeps Q (process_row uuid py run_id i norm)
    unfolding process_row
    process_row-Keeps run_id i norm s p =
        decide-Keeps run_id (uuid s.drawn) norm norm.error_code
          (record s {
            drawn = suc s.drawn;
            current = record s.current {
              run_records =
                  s.current.run_records ++ new_run_record uuid py (uuid s.drawn) run_id i norm ∷ [];
            };
          })
          (stable s
            (s.current.run_records ++ new_run_record uuid py (uuid s.drawn) run_id i norm ∷ [])
            (suc s.drawn) p)

    pub process_rows-Keeps :
        (run_id : String) (i : ℕ) (norms : List NormalizedRow)
        → Keeps Q (process_rows uuid py run_id i norms)
    unfolding process_rows
    process_rows-Keeps run_id i [] s p = p
    process_rows-Keeps run_id i (norm ∷ norms) s p =
        let rest : RecordStatus → List RecordStatus → Action Session Error (List RecordStatus) =
          λ status statuses. pure (status ∷ statuses) in
        bind-Keeps Q (process_row uuid py run_id i norm)
          (λ status. process_rows uuid py run_id (suc i) norms >>= rest status)
          (process_row-Keeps run_id i norm)
          (λ status.
            bind-Keeps Q (process_rows uuid py run_id (suc i) norms) (rest status)
              (process_rows-Keeps run_id (suc i) norms) (λ statuses s p. p))
          s p
