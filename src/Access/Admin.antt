-- ===== src/Access/Admin.antt =====
-- services/admin/user_management.py. The lock around each mutation makes it one step.
pub mod LastAdmin
use financial_ai_operator.Prelude.{
  ℕ, ◌+◌, String, Bool, true, false, not, ◌&&◌, Option, none, some, List, [], ◌∷◌, ◌++◌, map, ◌==◌,
  string_eq, nat_eq, if◌then◌else◌, keep, length, agree,
}
use financial_ai_operator.Prelude.Outcome.{Action, pure, raise, gets, lift, ◌>>=◌, ◌>>◌}
use financial_ai_operator.Table.{scalar_one_or_none, rows}
use financial_ai_operator.Access.Model.{User, RoleName, operator, finance_manager, admin, role_eq}
use financial_ai_operator.Access.Matrix.{contains}
use financial_ai_operator.Access.Accounts.{
  Session, Error, multiple_results_found, user_not_found, own_account, last_active_admin,
  no_valid_role, commit, write, log_event, user_key, assign_user,
}

unfoldable pub user_or_raise : Option User → Action Session Error User
user_or_raise none = raise user_not_found
user_or_raise (some user) = pure user

-- `_load_user_with_roles`
unfoldable pub load_user_with_roles : String → Action Session Error User
unfolding user_or_raise
load_user_with_roles user_id = do
  found ← gets (λ s. rows user_key user_id s.current.users)
  user ← lift (scalar_one_or_none multiple_results_found found)
  user_or_raise user

-- The rows of the join behind `_active_admin_count_excluding`, one for each ADMIN row of a user.
unfoldable pub active_admins_excluding : String → List User → List String
active_admins_excluding exclude_user_id [] = []
active_admins_excluding exclude_user_id (u ∷ us) =
    let rest = active_admins_excluding exclude_user_id us in
    map (λ _. u.id)
      (keep (λ r. u.is_active && (r == admin) && not (u.id == exclude_user_id)) u.roles)
    ++ rest

unfoldable pub active_admin_count_excluding : String → List User → ℕ
unfolding active_admins_excluding
active_admin_count_excluding exclude_user_id users =
    length (active_admins_excluding exclude_user_id users)

-- `set_user_active`, from the user that it loaded
unfoldable pub activation_event : Bool → String
activation_event true = "ACCOUNT_ACTIVATED"
activation_event false = "ACCOUNT_DEACTIVATED"

unfoldable pub write_active : Bool → User → User → Action Session Error User
unfolding assign_user load_user_with_roles activation_event
write_active is_active actor user = do
  write (λ t. record t {
    users = assign_user user.id (λ u. record u { is_active = is_active }) t.users;
  })
  commit
  log_event (activation_event is_active) true (some actor.id) user.id
  commit
  load_user_with_roles user.id

unfoldable pub set_loaded_active : Bool → User → User → Action Session Error User
unfolding write_active active_admin_count_excluding
set_loaded_active is_active actor user =
    if agree is_active user.is_active
    then pure user
    else (if is_active
        then write_active is_active actor user
        else (if user.id == actor.id then raise own_account else (do
          others ← gets (λ s. active_admin_count_excluding user.id s.current.users)
          if contains admin user.roles && (others == 0)
              then raise last_active_admin
              else write_active is_active actor user)))

unfoldable pub set_user_active : String → Bool → User → Action Session Error User
unfolding load_user_with_roles set_loaded_active
set_user_active user_id is_active actor = do
  user ← load_user_with_roles user_id
  set_loaded_active is_active actor user

unfoldable pub activate_user : String → User → Action Session Error User
unfolding set_user_active
activate_user user_id actor = set_user_active user_id true actor

unfoldable pub deactivate_user : String → User → Action Session Error User
unfolding set_user_active
deactivate_user user_id actor = set_user_active user_id false actor

-- `[r for r in canonical_order if r in set(normalized)]`
unfoldable pub canonical : List RoleName → List RoleName
canonical roles = keep (λ r. contains r roles) (operator ∷ finance_manager ∷ admin ∷ [])

unfoldable pub write_roles : List RoleName → User → User → Action Session Error User
unfolding assign_user load_user_with_roles
write_roles unique_roles actor user = do
  write (λ t. record t {
    users = assign_user user.id (λ u. record u { roles = unique_roles }) t.users;
  })
  commit
  log_event "USER_ROLE_CHANGED" true (some actor.id) user.id
  commit
  load_user_with_roles user.id

-- `replace_user_roles`, from the user that it loaded. Each role of the vocabulary has its row.
unfoldable pub replace_loaded : List RoleName → User → User → Action Session Error User
unfolding write_roles active_admin_count_excluding
replace_loaded [] actor user = raise no_valid_role
replace_loaded (r ∷ rs) actor user = do
  others ← gets (λ s. active_admin_count_excluding user.id s.current.users)
  if contains admin user.roles && not (contains admin (r ∷ rs)) && user.is_active && (others == 0)
      then raise last_active_admin
      else write_roles (r ∷ rs) actor user

unfoldable pub replace_user_roles : String → List RoleName → User → Action Session Error User
unfolding load_user_with_roles replace_loaded canonical
replace_user_roles user_id roles actor = do
  user ← load_user_with_roles user_id
  replace_loaded (canonical roles) actor user
