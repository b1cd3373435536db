-- ===== src/Tests/Period.antt =====
-- A period with a reconciled payment and an open discrepancy, and the theorems at it.
use mathlib.Core.Logic.{◌↔◌}
use financial_ai_operator.Prelude.{
  ℕ, zero, suc, String, ◌≡◌, refl, ◌⊎◌, true, none, some, [], ◌∷◌, ==_apart, string_eq,
}
use financial_ai_operator.Prelude.Int.{pos}
use financial_ai_operator.Prelude.Outcome.{err}
use financial_ai_operator.Period.Model.{
  ControlStatus-discrete, FinancialPeriod, Floats, Payment, Discrepancy, ActionRequest,
  ActionExecution, Tables,
}
use financial_ai_operator.Period.Readiness.{evaluate_close_readiness}
use financial_ai_operator.Period.Store.{Session, already_closed, state_mismatch}
use financial_ai_operator.Period.Closing.{closed_row, close_period}
use financial_ai_operator.Period.Controls.{IsClear, readiness_iff_IsClear}
use financial_ai_operator.Period.Closed.{IsEvaluated, close, run, run-IsEvaluated}
use financial_ai_operator.Period.Verdict.{Closes, Blocks, close_period_verdict, close_twice}

abbrev period : FinancialPeriod
period = record {
  id = "p1";
  period_name = "May";
  start_date = 10;
  end_date = 20;
  status = "OPEN";
  closed_at = none;
  closed_by = none;
}

abbrev payment : Payment
payment = record { created_at = 10; currency = "EUR"; amount = pos 5; status = "RECONCILED" }

abbrev discrepancy : Discrepancy
discrepancy = record { id = "d1"; created_at = 12 }

abbrev request : ActionRequest
request = record { id = "a1"; discrepancy_id = some "d1"; created_at = 13; status = "APPROVED" }

abbrev execution : ActionExecution
execution = record { action_request_id = "a1"; created_at = 14; status = "SUCCEEDED" }

abbrev tables : Tables
tables = record {
  periods = period ∷ [];
  evaluations = [];
  payments = payment ∷ [];
  refunds = [];
  fees = [];
  settlements = [];
  bank_transactions = [];
  discrepancies = discrepancy ∷ [];
  investigations = [];
  requests = request ∷ [];
  executions = execution ∷ [];
  events = [];
}

abbrev session : Session
session = record { saved = tables; current = tables; drawn = 0 }

abbrev floats : Floats
floats = record {
  zero = record { bits = 0 };
  of_decimal = λ x. record { bits = 1 };
  add = λ x y. x;
  sub = λ x y. x;
}

abbrev uuid : ℕ → String
uuid zero = "x0"
uuid (suc n) = "x1"

readiness_iff_IsClear_example :
    ((evaluate_close_readiness floats 30 period tables).is_ready ≡ true) ↔ IsClear period tables
readiness_iff_IsClear_example = readiness_iff_IsClear period tables floats 30

close_period_verdict_example :
    (s' : Session) × (Closes uuid floats 30 31 "u1" period period session s'
      ⊎ Blocks uuid floats 30 31 "u1" period period session s')
close_period_verdict_example =
    close_period_verdict uuid floats 30 31 "u1" period period session refl
      (==_apart "OPEN" "CLOSED" refl) (==_apart "OPEN" "CLOSED" refl)

abbrev closed : Session
closed = (close_period uuid floats 30 31 "u1" period session).1

close_twice_example :
    (close_period uuid floats 32 33 "u2" period closed ≡ (err already_closed, closed))
    ⊎ (close_period uuid floats 32 33 "u2" period closed ≡ (err state_mismatch, closed))
unfolding close_period closed_row ControlStatus-discrete
close_twice_example =
    close_twice uuid floats 30 31 "u1" period period (closed_row 31 "u1" period) session closed 32
      33 "u2" refl refl

run-IsEvaluated_example : IsEvaluated (run uuid (close floats 30 31 "u1" period) session)
run-IsEvaluated_example =
    run-IsEvaluated uuid (close floats 30 31 "u1" period) session
      (record { committed = refl; evaluated = (λ h. absurd (==_apart "OPEN" "CLOSED" refl h), tt) })
