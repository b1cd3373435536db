-- ===== src/Tests/Exceptions.antt =====
-- The state of an exception whose execution failed.
use financial_ai_operator.Prelude.{◌≡◌, refl, none, some}
use financial_ai_operator.Exceptions.{
  failed, determine_overall_state, when_truthy, by_execution, overall_state_case,
}
use financial_ai_operator.Exceptions.State.{listed_state_agrees}

failed_execution :
    determine_overall_state (some "PENDING") none (some "APPROVED") (some "FAILED") ≡ failed
unfolding determine_overall_state when_truthy by_execution
failed_execution = refl

listed_state_agrees_example :
    determine_overall_state (some "PENDING") none (some "APPROVED") (some "FAILED")
    ≡ overall_state_case (some "PENDING") none (some "APPROVED") (some "FAILED")
listed_state_agrees_example =
    listed_state_agrees (some "PENDING") none (some "APPROVED") (some "FAILED")
