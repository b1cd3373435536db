-- ===== src/Period/Store.antt =====
-- The session of services/period.py: what is saved, and what the session has written on top.
use financial_ai_operator.Prelude.{ℕ, ◌+◌, String}
use financial_ai_operator.Prelude.Outcome.{Action, modify, ok}
use financial_ai_operator.Period.Model.{Tables}

-- `drawn` counts the calls of `uuid.uuid4`.
pub record Session : Type 0 where
  pub saved : Tables
  pub current : Tables
  pub drawn : ℕ

-- `ValueError` by its message, and `MultipleResultsFound`. A blocked closing names the blockers.
pub data Error : Type 0 where
  start_not_before_end already_closed state_mismatch multiple_results_found : Error
  blocked_from_closing : ℕ → Error

abbrev pub commit : Action Session Error (Unit {0})
commit = modify (λ s. record s { saved = s.current })

abbrev pub write : (Tables → Tables) → Action Session Error (Unit {0})
write f = modify (λ s. record s { current = f s.current })

abbrev pub draw : (ℕ → String) → Action Session Error String
draw uuid s = (ok (uuid s.drawn), record s { drawn = s.drawn + 1 })
