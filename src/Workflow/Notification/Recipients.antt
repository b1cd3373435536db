-- ===== src/Workflow/Notification/Recipients.antt =====
-- Who receives the notifications of services/notifications/service.py.
use mathlib.Core.List.{append_assoc, append-nil}
use financial_ai_operator.Prelude.{
  String, ◌≡◌, refl, sym, ap, ◌∙◌, inl, inr, Bool, not, ◌&&◌, List, [], ◌∷◌, ◌++◌, map, ◌==◌,
  string_eq, keep, arith, Bool-cases, any, any-append, ◌||◌, keep-append,
}
use financial_ai_operator.Prelude.Outcome.{ok, pure, ◌>>=◌, bind_ok}
use financial_ai_operator.Access.Model.{
  User, RoleName, operator, finance_manager, admin, role_eq, approve_action_request, permission_eq,
  RoleName-discrete, Permission-discrete,
}
use financial_ai_operator.Access.Matrix.{
  contains, user_has_permission, user_has_permission-granted, role_permissions,
}
use financial_ai_operator.Workflow.Model.{Notification}
use financial_ai_operator.Workflow.Store.{Session}
use financial_ai_operator.Workflow.Notification.{
  holders, notify_user, notify_each, notify_role, notify_approvers,
}

-- The users with an identifier.
abbrev pub addressed : List User → List User
addressed us = keep (λ u. not (u.id == "")) us

abbrev pub recipients : List User → List User
recipients users = addressed (holders finance_manager users) ++ addressed (holders admin users)

module _ (ntype target_type target_id : String) where
  abbrev pub notice : User → Notification
  notice u = record {
    user_id = u.id;
    ntype = ntype;
    target_type = target_type;
    target_id = target_id;
  }

  abbrev pub deliver : List User → Session → Session
  deliver us s = record s {
    current = record s.current { notifications = s.current.notifications ++ map notice us };
  }

  map-append : (us vs : List User) → map notice (us ++ vs) ≡ map notice us ++ map notice vs
  map-append [] vs = refl
  map-append (u ∷ us) vs = ap (λ l. notice u ∷ l) (map-append us vs)

  deliver-append :
      (us vs : List User) (s : Session) → deliver vs (deliver us s) ≡ deliver (us ++ vs) s
  deliver-append us vs s =
      rw (append_assoc s.current.notifications (map notice us) (map notice vs), map-append us vs)

  deliver_none : (s : Session) → deliver [] s ≡ s
  deliver_none s = rw append-nil

  pub notify_each_lem :
      (us : List User) (s : Session)
      → notify_each us ntype target_type target_id s
        ≡ (ok (map (λ u. u.id) (addressed us)), deliver (addressed us) s)
  unfolding notify_each notify_user
  notify_each_lem [] s = ap (λ s'. (ok [], s')) (sym (deliver_none s))
  notify_each_lem (u ∷ us) s = elim (Bool-cases (u.id == "")) [
    | inl e ↦ rw e (notify_each_lem us s)
    | inr e ↦ rw e (
        bind_ok (notify_each us ntype target_type target_id) (λ rest. pure (u.id ∷ rest))
          (deliver (u ∷ []) s) (notify_each_lem us (deliver (u ∷ []) s))
        ∙ ap (λ s'. (ok (u.id ∷ map (λ v. v.id) (addressed us)), s'))
            (deliver-append (u ∷ []) (addressed us) s))
  ]

  pub notify_approvers_lem :
      (s : Session)
      → notify_approvers ntype target_type target_id s
        ≡ (ok tt, deliver (recipients s.current.users) s)
  unfolding notify_approvers notify_role
  notify_approvers_lem s =
      let managers = holders finance_manager s.current.users in
      let admins = holders admin s.current.users in
      bind_ok (notify_role finance_manager ntype target_type target_id)
        (λ created. notify_role admin ntype target_type target_id >>= λ created'. pure tt) s
        (notify_each_lem managers s)
      ∙ bind_ok (notify_role admin ntype target_type target_id) (λ created'. pure tt)
          (deliver (addressed managers) s) (notify_each_lem admins (deliver (addressed managers) s))
      ∙ ap (λ s'. (ok tt, s')) (deliver-append (addressed managers) (addressed admins) s)

any-or {ℓ} :
    {A : Type ℓ} (p q : A → Bool) (l : List A) → any (λ a. p a || q a) l ≡ (any p l || any q l)
any-or p q [] = refl
any-or p q (a ∷ l) = ground (arith, any-or p q l)

any-congr {ℓ} :
    {A : Type ℓ} (p q : A → Bool) (l : List A) → ((a : A) → p a ≡ q a) → any p l ≡ any q l
any-congr p q [] h = refl
any-congr p q (a ∷ l) h = ground (arith, h a, any-congr p q l h)

-- Whom a role reaches: the active users that hold it and have an identifier.
abbrev reached : RoleName → User → Bool
reached role u = any (λ r. r == role) u.roles && u.is_active && not (u.id == "")

module _ (q : User → Bool) (role : RoleName) where
  any-copies :
      (u : User) (roles : List RoleName)
      → any q (addressed (map (λ _. u) (keep (λ r. (r == role) && u.is_active) roles)))
        ≡ (q u && (any (λ r. r == role) roles && u.is_active && not (u.id == "")))
  any-copies u [] = ground arith
  any-copies u (r ∷ rs) = ground (arith, any-copies u rs)

  any-holders :
      (us : List User) → any q (addressed (holders role us)) ≡ any (λ u. q u && reached role u) us
  unfolding holders
  any-holders [] = refl
  any-holders (u ∷ us) = rw (
    keep-append (λ v. not (v.id == ""))
        (map (λ _. u) (keep (λ r. (r == role) && u.is_active) u.roles)) (holders role us),
    any-append q (addressed (map (λ _. u) (keep (λ r. (r == role) && u.is_active) u.roles)))
        (addressed (holders role us)),
    any-copies u u.roles,
    any-holders us,
  )

approves :
    (r : RoleName)
    → contains approve_action_request (role_permissions r)
      ≡ ((r == finance_manager) || (r == admin))
unfolding role_permissions RoleName-discrete Permission-discrete
approves operator = refl
approves finance_manager = refl
approves admin = refl

may_approve :
    (u : User)
    → user_has_permission u approve_action_request
      ≡ (any (λ r. r == finance_manager) u.roles || any (λ r. r == admin) u.roles)
may_approve u =
    user_has_permission-granted u approve_action_request
    ∙ any-congr (λ r. contains approve_action_request (role_permissions r))
        (λ r. (r == finance_manager) || (r == admin)) u.roles approves
    ∙ any-or (λ r. r == finance_manager) (λ r. r == admin) u.roles

-- The users to whom a notification for approvers goes are those that may approve a request: active,
-- with an identifier.
abbrev pub is_approver : User → Bool
is_approver u = user_has_permission u approve_action_request && u.is_active && not (u.id == "")

recipients-approvers :
    (q : User → Bool) (users : List User)
    → any q (recipients users) ≡ any (λ u. q u && is_approver u) users
recipients-approvers q users =
    rw
      (
        any-append q (addressed (holders finance_manager users)) (addressed (holders admin users)),
        any-holders q finance_manager users,
        any-holders q admin users,
      )
      (sym (any-or (λ u. q u && reached finance_manager u) (λ u. q u && reached admin u) users)
        ∙ any-congr (λ u. (q u && reached finance_manager u) || (q u && reached admin u))
            (λ u. q u && is_approver u) users (λ u. ground (arith, may_approve u)))

-- A notification for approvers adds to the notifications of the session one for each row of a list
-- of users. A test holds of some user of that list exactly when it holds of some user
-- of the table that is active, has an identifier and has the permission to approve requests.
pub notify_approvers_reaches :
    (ntype target_type target_id : String) (s : Session)
    → (told : List User) × (notify_approvers ntype target_type target_id s
        ≡ (ok tt, deliver ntype target_type target_id told s))
      × ((q : User → Bool) → any q told ≡ any (λ u. q u && is_approver u) s.current.users)
notify_approvers_reaches ntype target_type target_id s = (
  recipients s.current.users,
  notify_approvers_lem ntype target_type target_id s,
  λ q. recipients-approvers q s.current.users,
)
