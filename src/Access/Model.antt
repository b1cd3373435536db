-- ===== src/Access/Model.antt =====
-- database/models/identity.py (the columns that the services read) and
-- packages/rbac/permissions.py.
use financial_ai_operator.Prelude.{ℕ, String, Bool, List, Eq, discrete_eq}

pub data RoleName : Type 0 where
  operator finance_manager admin : RoleName

unfoldable pub RoleName-discrete : Discrete RoleName
RoleName-discrete = hlevel

instance abbrev pub role_eq : Eq RoleName
unfolding RoleName-discrete
role_eq = discrete_eq RoleName-discrete

pub data Permission : Type 0 where
  view_dashboard view_reconciliation view_discrepancies view_investigations view_action_requests
        view_transactions view_settings view_periods view_reports view_ingestion run_investigation
        approve_action_request reject_action_request cancel_action_request execute_action
        ingest_data create_period evaluate_period_close approve_period_close close_period
        manage_users manage_roles view_audit_logs :
      Permission

unfoldable pub Permission-discrete : Discrete Permission
Permission-discrete = hlevel

instance abbrev pub permission_eq : Eq Permission
unfolding Permission-discrete
permission_eq = discrete_eq Permission-discrete

-- A user with the roles of its `UserRole` rows.
pub record User : Type 0 where
  pub id : String
  pub email : String
  pub is_active : Bool
  pub credential_version : ℕ
  pub must_change_password : Bool
  pub roles : List RoleName
