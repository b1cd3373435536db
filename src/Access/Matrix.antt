-- ===== src/Access/Matrix.antt =====
-- packages/rbac/matrix.py: the permissions of the roles.
use financial_ai_operator.Prelude.{
  ◌≡◌, Bool, List, [], ◌∷◌, ◌++◌, arith, ◌==◌, any, any-append, ◌||◌, Eq,
}
use financial_ai_operator.Access.Model.{
  RoleName, operator, finance_manager, admin, role_eq, Permission, permission_eq, User,
  view_dashboard, view_reconciliation, view_discrepancies, view_investigations,
  view_action_requests, view_transactions, view_settings, view_periods, view_reports,
  view_ingestion, run_investigation, approve_action_request, reject_action_request,
  cancel_action_request, execute_action, ingest_data, create_period, evaluate_period_close,
  approve_period_close, close_period, manage_users, manage_roles, view_audit_logs,
}

abbrev pub operator_permissions : List Permission
operator_permissions =
    view_dashboard ∷ view_reconciliation ∷ view_discrepancies ∷ view_investigations
    ∷ run_investigation ∷ view_action_requests ∷ view_transactions ∷ view_settings ∷ view_periods
    ∷ create_period ∷ evaluate_period_close ∷ view_reports ∷ view_ingestion ∷ ingest_data ∷ []

abbrev pub finance_manager_permissions : List Permission
finance_manager_permissions =
    operator_permissions
    ++ approve_action_request ∷ reject_action_request ∷ cancel_action_request ∷ execute_action
      ∷ approve_period_close ∷ close_period ∷ []

abbrev pub admin_permissions : List Permission
admin_permissions =
    finance_manager_permissions ++ manage_users ∷ manage_roles ∷ view_audit_logs ∷ []

unfoldable pub role_permissions : RoleName → List Permission
role_permissions operator = operator_permissions
role_permissions finance_manager = finance_manager_permissions
role_permissions admin = admin_permissions

-- `p in s`
abbrev pub contains {ℓ} : {A : Type ℓ} ⦃e : Eq A⦄ → A → List A → Bool
contains a s = any (λ x. x == a) s

-- `result |= set(ROLE_PERMISSIONS.get(name))` for each name in turn; a set is the list of its
-- members, perhaps with repetitions.
unfoldable pub union_from : List Permission → List RoleName → List Permission
union_from result [] = result
union_from result (name ∷ names) = union_from (result ++ role_permissions name) names

unfoldable pub permissions_for_roles : List RoleName → List Permission
unfolding union_from
permissions_for_roles names = union_from [] names

unfoldable pub permissions_for_user : User → List Permission
unfolding permissions_for_roles
permissions_for_user user = permissions_for_roles user.roles

unfoldable pub user_has_permission : User → Permission → Bool
unfolding permissions_for_user
user_has_permission user permission = contains permission (permissions_for_user user)

-- Some role of the list grants the permission.
abbrev pub granted : List RoleName → Permission → Bool
granted names p = any (λ r. contains p (role_permissions r)) names

contains-union_from :
    (p : Permission) (result : List Permission) (names : List RoleName)
    → contains p (union_from result names) ≡ (contains p result || granted names p)
unfolding union_from
contains-union_from p result [] = ground arith
contains-union_from p result (r ∷ rs) = ground (
  arith,
  contains-union_from p (result ++ role_permissions r) rs,
  any-append (λ x. x == p) result (role_permissions r),
)

-- A user has a permission exactly when one of the user's roles grants it.
pub user_has_permission-granted :
    (u : User) (p : Permission) → user_has_permission u p ≡ granted u.roles p
unfolding user_has_permission permissions_for_user permissions_for_roles
user_has_permission-granted u p = contains-union_from p [] u.roles
