-- ===== src/Workflow/Notification.antt =====
-- services/notifications/service.py, and who is told of an action request.
pub mod Recipients
use financial_ai_operator.Prelude.{
  String, Bool, true, false, not, ◌&&◌, List, [], ◌∷◌, ◌++◌, map, ◌==◌, string_eq, keep,
  if◌then◌else◌,
}
use financial_ai_operator.Prelude.Outcome.{Action, pure, gets, ◌>>=◌, ◌>>◌}
use financial_ai_operator.Access.Model.{User, RoleName, finance_manager, admin, role_eq}
use financial_ai_operator.Workflow.Model.{Notification}
use financial_ai_operator.Workflow.Store.{Tables, Session, Error, write}

-- The join of users, their roles and the role's name: a row for each row of the user's roles.
unfoldable pub holders : RoleName → List User → List User
holders role [] = []
holders role (u ∷ us) =
    let rest = holders role us in
    map (λ _. u) (keep (λ r. (r == role) && u.is_active) u.roles) ++ rest

-- `notify_user`, less the title and the message that it hands on to the row.
unfoldable pub notify_user : String → String → String → String → Action Session Error (Unit {0})
notify_user user_id ntype target_type target_id =
    let n : Notification = record {
      user_id = user_id;
      ntype = ntype;
      target_type = target_type;
      target_id = target_id;
    } in
    write (λ t. record t { notifications = t.notifications ++ n ∷ [] })

-- The loop of `notify_role`; an empty identifier is false.
unfoldable pub notify_each :
    List User → String → String → String → Action Session Error (List String)
unfolding notify_user
notify_each [] ntype target_type target_id = pure []
notify_each (u ∷ us) ntype target_type target_id =
    if u.id == "" then notify_each us ntype target_type target_id else (do
      notify_user u.id ntype target_type target_id
      rest ← notify_each us ntype target_type target_id
      pure (u.id ∷ rest))

-- `notify_role`
unfoldable pub notify_role :
    RoleName → String → String → String → Action Session Error (List String)
unfolding notify_each
notify_role role ntype target_type target_id = do
  users ← gets (λ s. holders role s.current.users)
  notify_each users ntype target_type target_id

-- `notify_approvers`
unfoldable pub notify_approvers : String → String → String → Action Session Error (Unit {0})
unfolding notify_role
notify_approvers ntype target_type target_id = do
  created ← notify_role finance_manager ntype target_type target_id
  created' ← notify_role admin ntype target_type target_id
  pure tt
