-- ===== src/Access/Password/Renewal.antt =====
-- A password that services/auth/password_management.py changes or resets ends the sessions of its
-- user: apps/api/auth.py accepts none of the tokens issued before.
use mathlib.Core.Path.{subst}
use mathlib.Core.List.{head-eq_of_cons-eq}
use financial_ai_operator.Prelude.{
  ℕ, zero, suc, ◌+◌, ◌⊎◌, ◌≤◌, String, ◌≡◌, ◌≢◌, refl, sym, ap, ◌∙◌, inl, inr, Bool, true, ◌||◌,
  Option, none, some, List, [], ◌∷◌, map, ◌==◌, string_eq, nat_eq, option_eq, arith, Bool-cases,
  ==_cases, ==_refl, ==_false, ==_true, length,
}
use financial_ai_operator.Prelude.Outcome.{
  Action, Result, ok, err, err≢ok, bind_ok_inv, lift, ◌>>=◌,
}
use financial_ai_operator.Table.{scalar_one_or_none, rows}
use financial_ai_operator.Table.Laws.{IsUnique, row-key}
use financial_ai_operator.Access.Model.{User}
use financial_ai_operator.Access.Accounts.{
  UserCredential, Session, Error, wrong_current_password, multiple_results_found, user_key,
  assign_user,
}
use financial_ai_operator.Access.Authentication.{Payload, get_current_user}
use financial_ai_operator.Access.Sessions.{passes, get_current_user_sound}
use financial_ai_operator.Access.Password.{
  next_version, overwrite, renew, load_credential, credential_or_raise, change_verified,
  change_valid, change_own_password, log_forced, reset_found, reset_loaded, admin_reset_password,
}

next_version_differs : (n : ℕ) → n ≢ next_version n
unfolding next_version
next_version_differs n e = ground arith

next_version_cases : (n : ℕ) → (next_version n ≡ n + 1) ⊎ ((n ≡ 0) × (next_version n ≡ 2))
unfolding next_version
next_version_cases zero = inr (refl, refl)
next_version_cases (suc n) = inl (ground arith)

module _ (f : User → User) (keeps : (u : User) → (f u).id ≡ u.id) where
  rows-assign_user_self :
      (id : String) (us : List User)
      → rows user_key id (assign_user id f us) ≡ map f (rows user_key id us)
  unfolding assign_user
  rows-assign_user_self id [] = refl
  rows-assign_user_self id (u ∷ us) = ground (arith, keeps u, rows-assign_user_self id us)

  rows-assign_user_other :
      (id k : String) (us : List User)
      → id ≢ k
      → rows user_key k (assign_user id f us) ≡ rows user_key k us
  unfolding assign_user
  rows-assign_user_other id k [] h = refl
  rows-assign_user_other id k (u ∷ us) h = elim (==_cases u.id id) [
    | inl same ↦
        ground (arith, keeps u, same, ==_refl id, ==_false id k h, rows-assign_user_other id k us h)
    | inr other ↦ ground (arith, ==_false u.id id other, rows-assign_user_other id k us h)
  ]

  assign_user-IsUnique :
      (u : User) (us : List User)
      → rows user_key u.id us ≡ u ∷ []
      → IsUnique user_key us
      → IsUnique user_key (assign_user u.id f us)
  assign_user-IsUnique u us own unique k = elim (==_cases u.id k) [
    | inl same ↦
        subst (λ id. length (rows user_key id (assign_user u.id f us)) ≤ 1) same
          (rw (rows-assign_user_self u.id us, own) (omega arith))
    | inr other ↦ rw (rows-assign_user_other u.id k us other) (unique k)
  ]

load_credential-state : (id : String) (s : Session) → (load_credential id s).1 ≡ s
unfolding load_credential credential_or_raise
load_credential-state id s = ground arith

some-inj : {A : Type 0} {a b : A} → some a ≡ some b → a ≡ b
some-inj e = cc

passes-version :
    (allow : Bool) (payload : Payload) (u : User)
    → passes allow payload u ≡ true
    → (payload.cver == some u.credential_version) ≡ true
passes-version allow payload u h = ground (arith, h)

module _ (decode_access_token : String → Option Payload) (f : User → User)
    (keeps : (u : User) → (f u).id ≡ u.id) (allow : Bool) (token : String) (payload : Payload)
    (row v : User) (s s' s'' : Session) where
  -- A session in which the row of a user was assigned accepts a token with the row's new version
  -- only.
  assigned_version :
      IsUnique user_key s.current.users
      → rows user_key row.id s.current.users ≡ row ∷ []
      → s'.current.users ≡ assign_user row.id f s.current.users
      → decode_access_token token ≡ some payload
      → payload.sub ≡ some row.id
      → get_current_user decode_access_token allow token s' ≡ (ok v, s'')
      → payload.cver ≡ some (f row).credential_version
  assigned_version unique own assigned decoded names accepted =
      let unique' : IsUnique user_key s'.current.users =
        subst (IsUnique user_key) (sym assigned)
          (assign_user-IsUnique f keeps row s.current.users own unique) in
      let (_, payload', decoded', a) =
        get_current_user_sound decode_access_token allow token v s' s'' accepted unique' in
      let same : payload' ≡ payload = some-inj (sym decoded' ∙ decoded) in
      let own_id : v.id ≡ row.id =
        some-inj (sym a.names_user ∙ ap (λ (p : Payload). p.sub) same ∙ names) in
      let its_row : rows user_key row.id s'.current.users ≡ v ∷ [] =
        subst (λ k. rows user_key k s'.current.users ≡ v ∷ []) own_id a.its_row in
      let new_row : rows user_key row.id s'.current.users ≡ f row ∷ [] =
        ap (rows user_key row.id) assigned
        ∙ rows-assign_user_self f keeps row.id s.current.users
        ∙ ap (map f) own in
      let is_new : v ≡ f row = head-eq_of_cons-eq (sym its_row ∙ new_row) in
      let fresh : (payload'.cver == some v.credential_version) ≡ true =
        passes-version allow payload' v a.lets_through in
      ap (λ (p : Payload). p.cver) (sym same)
      ∙ ==_true payload'.cver (some v.credential_version) fresh
      ∙ ap (λ (w : User). some w.credential_version) is_new

module _ (validate_password : String → Option String) (verify_password : String → String → Bool)
    (hash_password : String → String) (generate_temporary_password : String) where
  change_verified-users :
      (u : User) (current_password new_password : String) (cred : UserCredential) (s s' : Session)
      → change_verified validate_password verify_password hash_password generate_temporary_password
          u current_password new_password cred s
        ≡ (ok tt, s')
      → s'.current.users ≡ assign_user u.id (overwrite u) s.current.users
  unfolding change_verified log_forced
  change_verified-users u current_password new_password cred s s' h =
      elim (Bool-cases (verify_password current_password cred.password_hash)) [
        | inr wrong ↦
            let h' : Path (Result Error (Unit {0}) × Session) (err wrong_current_password, _)
                (ok tt, s') =
              rw (wrong, change_verified) at h in
            absurd (err≢ok (ap (λ r. r.0) h'))
        | inl right ↦ elim (Bool-cases (verify_password new_password cred.password_hash)) [
          | inl again ↦ absurd (err≢ok (ap (λ r. r.0) (rw (right, again, change_verified) at h)))
          | inr other ↦ ground (arith, h, right, other)
        ]
      ]

  change_own_password-users :
      (u : User) (current_password new_password : String) (s s' : Session)
      → change_own_password validate_password verify_password hash_password
          generate_temporary_password u current_password new_password s
        ≡ (ok tt, s')
      → s'.current.users ≡ assign_user u.id (overwrite u) s.current.users
  unfolding change_own_password change_valid
  change_own_password-users u current_password new_password s s' h =
      elim (Bool-cases ((current_password == "") || (new_password == ""))) [
        | inl empty ↦ absurd (err≢ok (ap (λ r. r.0) (rw (empty, change_own_password) at h)))
        | inr full ↦ valid (validate_password new_password) (rw (full, change_own_password) at h)
      ]
    where
      valid :
          (o : Option String)
          → change_valid validate_password verify_password hash_password generate_temporary_password
              u current_password new_password o s
            ≡ (ok tt, s')
          → s'.current.users ≡ assign_user u.id (overwrite u) s.current.users
      valid (some text) k = absurd (err≢ok (ap (λ r. r.0) k))
      valid none k =
          let (cred, t, loaded, changed) =
            bind_ok_inv (load_credential u.id)
              (change_verified validate_password verify_password hash_password
                generate_temporary_password u current_password new_password)
              s k in
          let still : t ≡ s = sym (ap (λ r. r.1) loaded) ∙ load_credential-state u.id s in
          change_verified-users u current_password new_password cred t s' changed
          ∙ ap (λ (x : Session). assign_user u.id (overwrite u) x.current.users) still

  -- Where the identifiers of users are distinct and the caller's user has a row, of whatever version,
  -- once `change_own_password` returns, a token whose claims name the user is accepted in the
  -- session that it left, by any dependency, only if its credential version is the version in the
  -- caller's object plus one, or two where that version is zero.
  pub change_own_password_ends_sessions :
      (decode_access_token : String → Option Payload) (allow : Bool) (token : String)
      (payload : Payload) (u row v : User) (current_password new_password : String)
      (s s' s'' : Session)
      → IsUnique user_key s.current.users
      → rows user_key u.id s.current.users ≡ row ∷ []
      → change_own_password validate_password verify_password hash_password
          generate_temporary_password u current_password new_password s
        ≡ (ok tt, s')
      → decode_access_token token ≡ some payload
      → payload.sub ≡ some u.id
      → get_current_user decode_access_token allow token s' ≡ (ok v, s'')
      → (payload.cver ≡ some (u.credential_version + 1))
        ⊎ ((u.credential_version ≡ 0) × (payload.cver ≡ some 2))
  change_own_password_ends_sessions decode_access_token allow token payload u row v current_password
        new_password s s' s'' unique own changed decoded names accepted =
      let same : row.id ≡ u.id = row-key user_key u.id s.current.users row [] own in
      let version : payload.cver ≡ some (next_version u.credential_version) =
        assigned_version decode_access_token (overwrite u) (λ w. refl) allow token payload row v s
          s' s'' unique (ap (λ k. rows user_key k s.current.users) same ∙ own)
          (change_own_password-users u current_password new_password s s' changed
            ∙ ap (λ k. assign_user k (overwrite u) s.current.users) (sym same))
          decoded (names ∙ ap some (sym same)) accepted in
      elim (next_version_cases u.credential_version) [
        | inl e ↦ inl (version ∙ ap some e)
        | inr (z, e) ↦ inr (z, version ∙ ap some e)
      ]

  reset_found-users :
      (actor u : User) (password : String) (s s' : Session)
      → reset_found validate_password verify_password hash_password generate_temporary_password
          actor
          (some u)
          s
        ≡ (ok password, s')
      → s'.current.users ≡ assign_user u.id renew s.current.users
  unfolding reset_found reset_loaded
  reset_found-users actor u password s s' h =
      let (cred, t, loaded, changed) =
        bind_ok_inv (load_credential u.id)
          (reset_loaded validate_password verify_password hash_password generate_temporary_password
            actor u)
          s h in
      let still : t ≡ s = sym (ap (λ r. r.1) loaded) ∙ load_credential-state u.id s in
      sym (ap (λ (r : Result Error String × Session). r.1.current.users) changed)
      ∙ ap (λ (x : Session). assign_user u.id renew x.current.users) still

  admin_reset_password-users :
      (actor u : User) (password : String) (s s' : Session)
      → rows user_key u.id s.current.users ≡ u ∷ []
      → admin_reset_password validate_password verify_password hash_password
          generate_temporary_password actor u.id s
        ≡ (ok password, s')
      → s'.current.users ≡ assign_user u.id renew s.current.users
  unfolding admin_reset_password
  admin_reset_password-users actor u password s s' own h = elim (Bool-cases (actor.id == u.id)) [
    | inl self ↦ absurd (err≢ok (ap (λ r. r.0) (rw (self, admin_reset_password) at h)))
    | inr other ↦
        let go : Option User → Action Session Error String =
          reset_found validate_password verify_password hash_password generate_temporary_password
            actor in
        let query : List User → Result Error String × Session =
          λ l. (lift (scalar_one_or_none multiple_results_found l) >>= go) s in
        let h' : query (rows user_key u.id s.current.users) ≡ (ok password, s') =
          rw (other, admin_reset_password) at h in
        reset_found-users actor u password s s' (sym (ap query own) ∙ h')
  ]

  -- Where the identifiers of users are distinct and a user has a row, once
  -- `admin_reset_password` returns for this user, no token whose claims name the user with the
  -- credential version that the row had before is accepted in the session that it left, by any
  -- dependency.
  pub admin_reset_password_ends_sessions :
      (decode_access_token : String → Option Payload) (allow : Bool) (token : String)
      (payload : Payload) (actor u v : User) (password : String) (s s' s'' : Session)
      → IsUnique user_key s.current.users
      → rows user_key u.id s.current.users ≡ u ∷ []
      → admin_reset_password validate_password verify_password hash_password
          generate_temporary_password actor u.id s
        ≡ (ok password, s')
      → decode_access_token token ≡ some payload
      → payload.sub ≡ some u.id
      → payload.cver ≡ some u.credential_version
      → get_current_user decode_access_token allow token s' ≢ (ok v, s'')
  admin_reset_password_ends_sessions decode_access_token allow token payload actor u v password s s'
        s'' unique own reset decoded names version accepted =
      next_version_differs u.credential_version (
        some-inj (
          sym version
          ∙ assigned_version decode_access_token renew (λ w. refl) allow token payload u v s s' s''
              unique own (admin_reset_password-users actor u password s s' own reset) decoded names
              accepted))
