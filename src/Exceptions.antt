-- ===== src/Exceptions.antt =====
-- The overall state of an exception, which services/exceptions.py derives twice: in Python for each
-- row that it shows (`_determine_overall_state`), and as a SQL `case` by which the listing filters.
-- Statuses are texts, absent where an outer join found no row.
pub mod State
use financial_ai_operator.Prelude.{
  String, Bool, true, false, ◌||◌, Option, none, some, ◌==◌, string_eq, if◌then◌else◌,
}

pub data OverallState : Type 0 where
  open_state investigating awaiting_approval approved executing resolved failed unknown :
      OverallState

-- The blocks of `_determine_overall_state`: a state that one returns, or none where it falls through.
unfoldable pub by_execution : String → Option OverallState
by_execution status =
    if status == "SUCCEEDED"
    then some resolved
    else (if status == "FAILED"
        then some failed
        else (if status == "UNKNOWN"
            then some unknown
            else (if (status == "PENDING") || (status == "RUNNING") then some executing else none)))

unfoldable pub by_request : String → Option OverallState
by_request status =
    if status == "APPROVED"
    then some approved
    else (if status == "PENDING_APPROVAL"
        then some awaiting_approval
        else (if (status == "REJECTED") || (status == "CANCELLED") then some open_state else none))

unfoldable pub by_policy : String → Option OverallState
by_policy decision =
    if decision == "DENIED"
    then some resolved
    else (if decision == "APPROVAL_REQUIRED" then some awaiting_approval else none)

unfoldable pub by_investigation : String → Option OverallState
by_investigation status =
    if status == "PENDING"
    then some investigating
    else (if (status == "FAILED") || (status == "UNAVAILABLE") then some failed else none)

-- `if status:` in front of a block: an absent and an empty status skip it.
unfoldable pub when_truthy : (String → Option OverallState) → Option String → Option OverallState
when_truthy block none = none
when_truthy block (some status) = if status == "" then none else block status

-- A block returns, or the next one is tried.
abbrev pub or_else : Option OverallState → OverallState → OverallState
or_else (some state) next = state
or_else none next = next

-- `_determine_overall_state`
unfoldable pub determine_overall_state :
    Option String → Option String → Option String → Option String → OverallState
unfolding when_truthy by_execution by_request by_policy by_investigation
determine_overall_state inv_status pol_decision req_status exec_status =
    or_else (when_truthy by_execution exec_status) (
      or_else (when_truthy by_request req_status) (
        or_else (when_truthy by_policy pol_decision)
          (or_else (when_truthy by_investigation inv_status) open_state)))

-- A comparison of a column with a text in SQL, as a branch of a `case` takes it: a null meets none.
abbrev pub is_text : Option String → String → Bool
is_text none text = false
is_text (some status) text = status == text

-- `overall_state_case`
unfoldable pub overall_state_case :
    Option String → Option String → Option String → Option String → OverallState
overall_state_case inv_status pol_decision req_status exec_status =
    if is_text exec_status "SUCCEEDED"
    then resolved
    else (if is_text exec_status "FAILED"
        then failed
        else (if is_text exec_status "UNKNOWN"
            then unknown
            else (if is_text exec_status "PENDING" || is_text exec_status "RUNNING"
                then executing
                else (if is_text req_status "APPROVED"
                    then approved
                    else (if is_text req_status "PENDING_APPROVAL"
                        then awaiting_approval
                        else (if is_text req_status "REJECTED" || is_text req_status "CANCELLED"
                            then open_state
                            else (if is_text pol_decision "DENIED"
                                then resolved
                                else (if is_text pol_decision "APPROVAL_REQUIRED"
                                    then awaiting_approval
                                    else (if is_text inv_status "PENDING"
                                        then investigating
                                        else (if is_text inv_status "FAILED"
                                              || is_text inv_status "UNAVAILABLE"
                                            then failed
                                            else open_state))))))))))
