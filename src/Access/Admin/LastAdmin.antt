-- ===== src/Access/Admin/LastAdmin.antt =====
-- The mutations of services/admin/user_management.py keep an active user with the role ADMIN.
use mathlib.Core.Path.{subst}
use financial_ai_operator.Prelude.{
  String, ◌≡◌, refl, sym, ap, ◌∙◌, inl, inr, Bool, true, false, not, ◌&&◌, ◌||◌, List, [], ◌∷◌,
  ◌++◌, map, ◌==◌, string_eq, nat_eq, keep, length, any, arith,
}
use financial_ai_operator.Prelude.Outcome.{Action, lift, ◌>>=◌}
use financial_ai_operator.Table.{scalar_one_or_none, rows}
use financial_ai_operator.Table.Laws.{IsUnique, one_row, row-key}
use financial_ai_operator.Access.Model.{User, RoleName, admin, role_eq}
use financial_ai_operator.Access.Matrix.{contains}
use financial_ai_operator.Access.Accounts.{
  Session, Error, multiple_results_found, user_key, assign_user,
}
use financial_ai_operator.Access.Admin.{
  user_or_raise, load_user_with_roles, active_admins_excluding, active_admin_count_excluding,
  write_active, set_loaded_active, set_user_active, canonical, write_roles, replace_loaded,
  replace_user_roles,
}

abbrev pub is_active_admin : User → Bool
is_active_admin u = contains admin u.roles && u.is_active

-- Someone can administer users.
abbrev pub HasAdmin : List User → Type 0
HasAdmin users = any is_active_admin users ≡ true

abbrev others : String → List User → Bool
others id users = any (λ u. is_active_admin u && not (u.id == id)) users

any-rows :
    (p : User → Bool) (id : String) (us : List User)
    → any p us ≡ (any p (rows user_key id us) || any (λ u. p u && not (u.id == id)) us)
any-rows p id [] = refl
any-rows p id (u ∷ us) = ground (arith, any-rows p id us)

any-assign :
    (p : User → Bool) (id : String) (f : User → User) (us : List User)
    → any p (assign_user id f us)
      ≡ (any p (map f (rows user_key id us)) || any (λ u. p u && not (u.id == id)) us)
unfolding assign_user
any-assign p id f [] = refl
any-assign p id f (u ∷ us) = ground (arith, any-assign p id f us)

module _ (id : String) where
  copies-zero :
      (u : User) (roles : List RoleName)
      → (length
            (map (λ _. u.id) (keep (λ r. u.is_active && (r == admin) && not (u.id == id)) roles))
          == 0)
        ≡ not ((contains admin roles && u.is_active) && not (u.id == id))
  copies-zero u [] = refl
  copies-zero u (r ∷ rs) = ground (arith, copies-zero u rs)

length-append_zero :
    (xs ys : List String) → (length (xs ++ ys) == 0) ≡ ((length xs == 0) && (length ys == 0))
length-append_zero [] ys = refl
length-append_zero (x ∷ xs) ys = ground arith

module _ (id : String) where
  count-zero : (us : List User) → (active_admin_count_excluding id us == 0) ≡ not (others id us)
  unfolding active_admin_count_excluding active_admins_excluding
  count-zero [] = refl
  count-zero (u ∷ us) =
      let copies =
        map (λ _. u.id) (keep (λ r. u.is_active && (r == admin) && not (u.id == id)) u.roles) in
      ground (
        arith,
        length-append_zero copies (active_admins_excluding id us),
        copies-zero id u u.roles,
        count-zero us,
      )

-- After an assignment to the one row of an identifier.
module _ (f : User → User) (u : User) (us : List User) (own : rows user_key u.id us ≡ u ∷ []) where
  assigned-HasAdmin :
      (is_active_admin (f u) || others u.id us) ≡ true → HasAdmin (assign_user u.id f us)
  assigned-HasAdmin h =
      any-assign is_active_admin u.id f us
      ∙ ap (λ l. any is_active_admin (map f l) || others u.id us) own
      ∙ ground (arith, h)

  others-or_self : HasAdmin us → (is_active_admin u || others u.id us) ≡ true
  others-or_self h =
      let split =
        any-rows is_active_admin u.id us ∙ ap (λ l. any is_active_admin l || others u.id us) own in
      ground (arith, h, split)

load_user_with_roles-state : (id : String) (s : Session) → (load_user_with_roles id s).1 ≡ s
unfolding load_user_with_roles user_or_raise
load_user_with_roles-state id s = ground arith

write_active-users :
    (b : Bool) (actor u : User) (s : Session)
    → (write_active b actor u s).1.current.users
      ≡ assign_user u.id (λ v. record v { is_active = b }) s.current.users
unfolding write_active
write_active-users b actor u s =
    ap (λ (s' : Session). s'.current.users) (load_user_with_roles-state u.id _)

write_roles-users :
    (roles : List RoleName) (actor u : User) (s : Session)
    → (write_roles roles actor u s).1.current.users
      ≡ assign_user u.id (λ v. record v { roles = roles }) s.current.users
unfolding write_roles
write_roles-users roles actor u s =
    ap (λ (s' : Session). s'.current.users) (load_user_with_roles-state u.id _)

module _ (actor u : User) (s : Session) (own : rows user_key u.id s.current.users ≡ u ∷ [])
    (h : HasAdmin s.current.users) where
  set_loaded_active-HasAdmin : (b : Bool) → HasAdmin (set_loaded_active b actor u s).1.current.users
  unfolding set_loaded_active
  set_loaded_active-HasAdmin true = ground (
    arith,
    h,
    others-or_self (λ v. v) u s.current.users own h,
    write_active-users true actor u s,
    assigned-HasAdmin (λ v. record v { is_active = true }) u s.current.users own,
  )
  set_loaded_active-HasAdmin false = ground (
    arith,
    h,
    others-or_self (λ v. v) u s.current.users own h,
    write_active-users false actor u s,
    count-zero u.id s.current.users,
    assigned-HasAdmin (λ v. record v { is_active = false }) u s.current.users own,
  )

  replace_loaded-HasAdmin :
      (roles : List RoleName) → HasAdmin (replace_loaded roles actor u s).1.current.users
  unfolding replace_loaded
  replace_loaded-HasAdmin [] = h
  replace_loaded-HasAdmin (r ∷ rs) = ground (
    arith,
    h,
    others-or_self (λ v. v) u s.current.users own h,
    write_roles-users (r ∷ rs) actor u s,
    count-zero u.id s.current.users,
    assigned-HasAdmin (λ v. record v { roles = r ∷ rs }) u s.current.users own,
  )

module _ (id : String) (s : Session) (unique : IsUnique user_key s.current.users) where
  -- What a mutation keeps when it keeps it for each user that can be loaded.
  after_load :
      (k : User → Action Session Error User)
      → HasAdmin s.current.users
      → ((u : User)
          → rows user_key u.id s.current.users ≡ u ∷ []
          → HasAdmin (k u s).1.current.users)
      → HasAdmin ((load_user_with_roles id >>= k) s).1.current.users
  unfolding load_user_with_roles user_or_raise
  after_load k h each =
      let query : List User → Session =
        λ l. ((lift (scalar_one_or_none multiple_results_found l) >>= user_or_raise >>= k) s).1 in
      elim (one_row user_key multiple_results_found id s.current.users unique) [
        | inl (absent, _) ↦
            subst (λ (s' : Session). HasAdmin s'.current.users) (sym (ap query absent)) h
        | inr (u, e, _) ↦
            let own : rows user_key u.id s.current.users ≡ u ∷ [] =
              subst (λ k'. rows user_key k' s.current.users ≡ u ∷ [])
                (sym (row-key user_key id s.current.users u [] e)) e in
            subst (λ (s' : Session). HasAdmin s'.current.users) (sym (ap query e)) (each u own)
      ]

  -- Where the identifiers of users are distinct, no activation or deactivation, by
  -- whichever actor and whether it succeeds or raises, takes the last active user with the role
  -- ADMIN from the session.
  pub set_user_active-HasAdmin :
      (is_active : Bool) (actor : User)
      → HasAdmin s.current.users
      → HasAdmin (set_user_active id is_active actor s).1.current.users
  unfolding set_user_active
  set_user_active-HasAdmin is_active actor h =
      after_load (set_loaded_active is_active actor) h
        (λ u own. set_loaded_active-HasAdmin actor u s own h is_active)

  -- Where the identifiers of users are distinct, no replacement of a user's roles, by whichever
  -- actor and whether it succeeds or raises, takes the last active user with the role ADMIN from
  -- the session.
  pub replace_user_roles-HasAdmin :
      (roles : List RoleName) (actor : User)
      → HasAdmin s.current.users
      → HasAdmin (replace_user_roles id roles actor s).1.current.users
  unfolding replace_user_roles
  replace_user_roles-HasAdmin roles actor h =
      after_load (replace_loaded (canonical roles) actor) h
        (λ u own. replace_loaded-HasAdmin actor u s own h (canonical roles))
