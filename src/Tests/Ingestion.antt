-- ===== src/Tests/Ingestion.antt =====
-- A batch of one payment, and the theorems at it.
use mathlib.Core.List.{Permᴰ}
use financial_ai_operator.Ingestion.Resubmission.{resubmit_returns, retry_ineffective}
use financial_ai_operator.Prelude.Outcome.{ok}
use financial_ai_operator.Prelude.{
  List, map, ap, ◌∙◌, ℕ, zero, suc, ◌+◌, String, ◌≡◌, refl, true, false, none, some, [], ◌∷◌,
}
use financial_ai_operator.Prelude.Int.{pos}
use financial_ai_operator.Ingestion.Model.{
  integrity_conflict, Row, object, whole, text, Runtime, finite,
}
use financial_ai_operator.Ingestion.Fields.{
  get, req_str, reference_from_row, parse_amount, parse_currency, parse_enum,
}
use financial_ai_operator.Ingestion.Validation.{merchant_reference}
use financial_ai_operator.Ingestion.Store.{
  completed_with_errors, row_failed, IngestionRunRecord, IngestionRun, completed, Facts, Tables,
  Session, RecordStatus-discrete,
}
use financial_ai_operator.Ingestion.Rows.{is_valid, normalize_row}
use financial_ai_operator.Ingestion.Wellformed.{IsWellformed, valid_row-IsWellformed}
use financial_ai_operator.Ingestion.Batch.{
  retry_run, failed_rows, batch_fingerprint, create_run, new_run,
}
use financial_ai_operator.Ingestion.Keeping.Runs.{Holds}
use financial_ai_operator.Ingestion.Sound.{IsSound}
use financial_ai_operator.Ingestion.Invariant.{submit, run, run-IsSound}
use financial_ai_operator.Ingestion.Accounts.{ledger}
use financial_ai_operator.Ingestion.Counters.{create_run_counts}

abbrev py : Runtime
py = record {
  strip = λ t. t;
  upper = λ t. t;
  isalpha = λ t. true;
  len = λ t. 3;
  str = λ v. "s";
  cut = λ n t. t;
  without_last = λ t. t;
  endswith = λ t u. false;
  str_int = λ n. "5";
  decimal = λ t. some (finite (record { coefficient = pos 5; exponent = pos 0 }));
  str_decimal = λ d. "5";
  fromisoformat = λ t. none;
  date_fromisoformat = λ t. none;
  isoformat = λ d. "i";
  sorted = map (λ t. "h");
  sha256 = λ row. "h";
}

abbrev row : Row
row =
    ("entity_type", text "PAYMENT")
    ∷ ("provider", text "g")
    ∷ ("external_id", text "e1")
    ∷ ("merchant_id", text "m1")
    ∷ ("order_id", text "o1")
    ∷ ("amount", whole (pos 5))
    ∷ ("currency", text "EUR")
    ∷ ("status", text "CAPTURED")
    ∷ []

abbrev facts : Facts
facts = record {
  merchants = record { id = "m1"; external_id = none } ∷ [];
  orders = record { id = "o1"; external_id = none } ∷ [];
  payments = [];
  refunds = [];
  fees = [];
  settlements = [];
  bank_transactions = [];
  records = [];
}

abbrev tables : Tables
tables = record { facts = facts; runs = []; run_records = []; events = []; notifications = [] }

abbrev session : Session
session = record { saved = tables; current = tables; drawn = 0 }

abbrev uuid : ℕ → String
uuid zero = "x0"
uuid (suc n) = "x1"

valid_row-IsWellformed_example : IsWellformed py (normalize_row py (object row))
unfolding normalize_row is_valid req_str get merchant_reference reference_from_row parse_amount
    parse_currency parse_enum
valid_row-IsWellformed_example = valid_row-IsWellformed py (object row) refl

facts-IsSound : IsSound facts
facts-IsSound = record { covered = tt; balanced = tt; one_parent = tt }

run-IsSound_example :
    Holds IsSound (run uuid py 1 2 "u1" (submit "API" "batch" (object row ∷ [])) session)
run-IsSound_example =
    run-IsSound uuid py 1 2 "u1" (submit "API" "batch" (object row ∷ [])) session
      (facts-IsSound, facts-IsSound)

abbrev done : Session
done = (create_run uuid py 1 2 "u1" "API" "batch" (object row ∷ []) session).1

abbrev first_run : IngestionRun
first_run = record (new_run uuid py 1 2 "u1" "x0" "API" "batch" (object row ∷ [])) {
  status = completed;
  successful_records = 1;
  completed_at = some 2;
}

create_run_counts_example :
    (first_run.total_records ≡ 1)
    × (first_run.successful_records + first_run.duplicate_records + first_run.rejected_records
          + first_run.failed_records
        ≡ 1)
    × (ledger done ≡ ledger session + first_run.successful_records)
unfolding create_run RecordStatus-discrete req_str get merchant_reference reference_from_row
    parse_amount parse_currency parse_enum
create_run_counts_example =
    create_run_counts uuid py 1 2 "u1" "API" "batch" (object row ∷ []) first_run session done refl

-- The fingerprints of this runtime are all alike.
sorted_alike : (xs ys : List String) → Permᴰ xs ys → py.sorted xs ≡ py.sorted ys
sorted_alike _ _ Permᴰ.nil = refl
sorted_alike _ _ (Permᴰ.cons {l₁} {l₂} e p) = ap (λ l. "h" ∷ l) (sorted_alike l₁ l₂ p)
sorted_alike _ _ (Permᴰ.swap e e') = refl
sorted_alike _ _ (Permᴰ.trans {l₁} {l₂} {l₃} p q) = sorted_alike l₁ l₂ p ∙ sorted_alike l₂ l₃ q

resubmit_returns_example :
    create_run uuid py 3 4 "u2" "API" "again" (object row ∷ []) done
    ≡ (ok (first_run, true), record done { drawn = suc done.drawn })
unfolding create_run RecordStatus-discrete req_str get merchant_reference reference_from_row
    parse_amount parse_currency parse_enum
resubmit_returns_example =
    resubmit_returns uuid py 1 2 "u1" sorted_alike "API" "batch" "again" (object row ∷ [])
      (object row ∷ []) first_run session done 3 4 "u2" (Permᴰ.cons refl Permᴰ.nil) refl

abbrev failed_run : IngestionRun
failed_run = record {
  id = "r1";
  source_type = "API";
  source_name = "batch";
  status = completed_with_errors;
  batch_fingerprint = "h";
  total_records = 1;
  successful_records = 0;
  duplicate_records = 0;
  rejected_records = 0;
  failed_records = 1;
  created_by = "u1";
  started_at = 1;
  completed_at = some 2;
}

abbrev failed_row : IngestionRunRecord
failed_row = record {
  id = "y1";
  run_id = "r1";
  row_index = 0;
  entity_type = "PAYMENT";
  provider = "g";
  external_id = "e1";
  row_fingerprint = "h";
  status = row_failed;
  error_code = some integrity_conflict;
  raw_payload = row;
}

abbrev failed_tables : Tables
failed_tables = record tables { runs = failed_run ∷ []; run_records = failed_row ∷ [] }

abbrev failed_session : Session
failed_session = record { saved = failed_tables; current = failed_tables; drawn = 0 }

retry_ineffective_example :
    retry_run uuid py 3 4 "u1" "r1" failed_session
    ≡ (ok (failed_run, 1), record failed_session { drawn = 1 })
unfolding failed_rows batch_fingerprint RecordStatus-discrete
retry_ineffective_example =
    retry_ineffective uuid py 3 4 "u1" "r1" failed_run failed_row [] failed_session refl refl refl
      refl
