-- ===== src/Period/Closing.antt =====
-- The operations of services/period.py that write: a period is created, evaluated, closed.
use financial_ai_operator.Prelude.{
  ℕ, String, not, ◌&&◌, Option, none, some, List, [], ◌∷◌, ◌++◌, map, ◌==◌, string_eq,
  if◌then◌else◌, leb, keep, length,
}
use financial_ai_operator.Prelude.Outcome.{Action, pure, raise, gets, lift, ◌>>=◌, ◌>>◌}
use financial_ai_operator.Table.{scalar_one_or_none, rows}
use financial_ai_operator.Period.Model.{
  warning, blocked, control_status_eq, FinancialPeriod, Floats, CloseControlResult, CloseReadiness,
  PeriodCloseEvaluation, SecurityEvent, Tables,
}
use financial_ai_operator.Period.Readiness.{evaluate_close_readiness}
use financial_ai_operator.Period.Store.{
  Session, Error, start_not_before_end, already_closed, state_mismatch, multiple_results_found,
  blocked_from_closing, commit, write, draw,
}

abbrev pub period_key : FinancialPeriod → String
period_key p = p.id

unfoldable pub new_period : String → String → ℕ → ℕ → FinancialPeriod
new_period id period_name start_date end_date = record {
  id = id;
  period_name = period_name;
  start_date = start_date;
  end_date = end_date;
  status = "OPEN";
  closed_at = none;
  closed_by = none;
}

unfoldable pub blocking_count : List CloseControlResult → ℕ
blocking_count controls = length (keep (λ c. c.status == blocked) controls)

unfoldable pub warning_count : List CloseControlResult → ℕ
warning_count controls = length (keep (λ c. c.status == warning) controls)

unfoldable pub new_evaluation : String → String → CloseReadiness → String → PeriodCloseEvaluation
unfolding blocking_count warning_count
new_evaluation id period_id readiness actor = record {
  id = id;
  period_id = period_id;
  evaluated_at = readiness.evaluated_at;
  evaluated_by = actor;
  is_ready = readiness.is_ready;
  blocking_count = blocking_count readiness.controls;
  warning_count = warning_count readiness.controls;
  control_results = readiness.controls;
  metrics_snapshot = readiness.metrics;
}

-- `db.add(evaluation)`
unfoldable pub add_evaluation : PeriodCloseEvaluation → Tables → Tables
add_evaluation e t = record t { evaluations = t.evaluations ++ e ∷ [] }

-- What the closing assigns to the locked row.
unfoldable pub closed_row : ℕ → String → FinancialPeriod → FinancialPeriod
closed_row later actor p = record p {
  status = "CLOSED";
  closed_at = some later;
  closed_by = some actor;
}

unfoldable pub assign_closed : ℕ → String → String → List FinancialPeriod → List FinancialPeriod
unfolding closed_row
assign_closed later actor id ps = map (λ p. if p.id == id then closed_row later actor p else p) ps

unfoldable pub close_event : String → String → String → String → SecurityEvent
close_event id actor period_id evaluation_id = record {
  id = id;
  event_type = "PERIOD_CLOSED";
  actor_id = actor;
  period_id = period_id;
  evaluation_id = evaluation_id;
}

-- `select(FinancialPeriod).where(id == period.id).where(status != "CLOSED")`
unfoldable pub open_rows : String → List FinancialPeriod → List FinancialPeriod
open_rows id ps = keep (λ p. (p.id == id) && not (p.status == "CLOSED")) ps

module _ (uuid : ℕ → String) where
  unfoldable pub create_period : String → ℕ → ℕ → Action Session Error FinancialPeriod
  unfolding new_period
  create_period period_name start_date end_date =
      if leb end_date start_date then raise start_not_before_end else (do
        id ← draw uuid
        write (λ t. record t {
          periods = t.periods ++ new_period id period_name start_date end_date ∷ [];
        })
        commit
        pure (new_period id period_name start_date end_date))

  unfoldable pub record_period_evaluation :
      FinancialPeriod → CloseReadiness → String → Action Session Error PeriodCloseEvaluation
  unfolding new_evaluation add_evaluation
  record_period_evaluation period readiness actor = do
    id ← draw uuid
    write (add_evaluation (new_evaluation id period.id readiness actor))
    commit
    pure (new_evaluation id period.id readiness actor)

  module _ (f : Floats) (now later : ℕ) (actor : String) where
    -- From the evaluation that was added.
    unfoldable pub close_evaluated :
        FinancialPeriod → PeriodCloseEvaluation → Action Session Error FinancialPeriod
    unfolding closed_row assign_closed close_event
    close_evaluated locked evaluation =
        if not evaluation.is_ready
        then (commit >> raise (blocked_from_closing evaluation.blocking_count))
        else (do
          write (λ t. record t { periods = assign_closed later actor locked.id t.periods })
          event_id ← draw uuid
          write (λ t. record t {
            events = t.events ++ close_event event_id actor locked.id evaluation.id ∷ [];
          })
          commit
          pure (closed_row later actor locked))

    unfoldable pub close_locked : Option FinancialPeriod → Action Session Error FinancialPeriod
    unfolding new_evaluation add_evaluation close_evaluated evaluate_close_readiness
    close_locked none = raise state_mismatch
    close_locked (some locked) = do
      readiness ← gets (λ s. evaluate_close_readiness f now locked s.current)
      id ← draw uuid
      write (add_evaluation (new_evaluation id locked.id readiness actor))
      close_evaluated locked (new_evaluation id locked.id readiness actor)

    -- `period` is what the caller loaded before: another session may have closed the row since.
    -- The instants and the identifier of a row are never assigned after its insertion.
    unfoldable pub close_period : FinancialPeriod → Action Session Error FinancialPeriod
    unfolding open_rows close_locked
    close_period period = if period.status == "CLOSED" then raise already_closed else (do
      found ← gets (λ s. open_rows period.id s.current.periods)
      locked ← lift (scalar_one_or_none multiple_results_found found)
      close_locked locked)

-- `get_period`
unfoldable pub get_period : String → Action Session Error (Option FinancialPeriod)
get_period period_id = do
  found ← gets (λ s. rows period_key period_id s.current.periods)
  lift (scalar_one_or_none multiple_results_found found)
