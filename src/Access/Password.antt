-- ===== src/Access/Password.antt =====
-- services/auth/password_management.py
pub mod Renewal
use financial_ai_operator.Prelude.{
  ℕ, ◌+◌, String, Bool, true, false, ◌||◌, Option, none, some, List, [], ◌∷◌, ◌==◌, string_eq,
  nat_eq, if◌then◌else◌,
}
use financial_ai_operator.Prelude.Outcome.{Action, pure, raise, gets, lift, ◌>>=◌, ◌>>◌}
use financial_ai_operator.Table.{scalar_one_or_none, rows}
use financial_ai_operator.Access.Model.{User}
use financial_ai_operator.Access.Accounts.{
  UserCredential, Session, Error, multiple_results_found, wrong_current_password, same_password,
  self_reset_not_allowed, user_not_found, credential_missing, password_policy, commit, write,
  log_event, user_key, assign_user,
}

abbrev pub credential_key : UserCredential → String
credential_key c = c.user_id

-- `(user.credential_version or 1) + 1`
unfoldable pub next_version : ℕ → ℕ
next_version version = if version == 0 then 2 else version + 1

unfoldable pub credential_or_raise : Option UserCredential → Action Session Error UserCredential
credential_or_raise none = raise credential_missing
credential_or_raise (some cred) = pure cred

-- `_load_credential`
unfoldable pub load_credential : String → Action Session Error UserCredential
unfolding credential_or_raise
load_credential user_id = do
  found ← gets (λ s. rows credential_key user_id s.current.credentials)
  cred ← lift (scalar_one_or_none multiple_results_found found)
  credential_or_raise cred

-- `cred.password_hash = new_hash`
unfoldable pub assign_hash : String → String → List UserCredential → List UserCredential
assign_hash user_id new_hash [] = []
assign_hash user_id new_hash (c ∷ cs) =
    let rest = assign_hash user_id new_hash cs in
    if c.user_id == user_id then record c { password_hash = new_hash } ∷ rest else c ∷ rest

-- What a change writes into the row of the user: the attributes of the caller's object that it
-- assigns, the flag only where the assignment changes it. The object was loaded before the lock, so
-- that the row may be a later one.
abbrev pub overwrite : User → User → User
overwrite user row = record row {
  must_change_password = if user.must_change_password then false else row.must_change_password;
  credential_version = next_version user.credential_version;
}

-- The flag and the version that a reset leaves in the row, which it loads itself.
abbrev pub renew : User → User
renew u = record u {
  must_change_password = true;
  credential_version = next_version u.credential_version;
}

-- `validate_password` gives the text of the `ValueError` that it raises, if any;
-- `verify_password password hash` and `hash_password` are of packages/utils/crypto.py, and
-- `generate_temporary_password` is what the generator of random text returns.
module _ (validate_password : String → Option String) (verify_password : String → String → Bool)
    (hash_password : String → String) (generate_temporary_password : String) where
  unfoldable pub log_forced : Bool → String → Action Session Error (Unit {0})
  log_forced true user_id = log_event "FORCED_PASSWORD_CHANGE" true none user_id
  log_forced false user_id = pure tt

  unfoldable pub change_verified :
      User → String → String → UserCredential → Action Session Error (Unit {0})
  unfolding assign_hash assign_user log_forced
  change_verified user current_password new_password cred =
      if verify_password current_password cred.password_hash
      then (if verify_password new_password cred.password_hash then raise same_password else (do
        write (λ t. record t {
          credentials = assign_hash user.id (hash_password new_password) t.credentials;
          users = assign_user user.id (overwrite user) t.users;
        })
        log_event "PASSWORD_CHANGED" true none user.id
        log_forced user.must_change_password user.id
        commit))
      else (do
        log_event "PASSWORD_CHANGED" false none user.id
        commit
        raise wrong_current_password)

  unfoldable pub change_valid :
      User → String → String → Option String → Action Session Error (Unit {0})
  unfolding load_credential change_verified
  change_valid user current_password new_password (some text) = raise (password_policy text)
  change_valid user current_password new_password none = do
    cred ← load_credential user.id
    change_verified user current_password new_password cred

  -- `change_own_password`
  unfoldable pub change_own_password : User → String → String → Action Session Error (Unit {0})
  unfolding change_valid
  change_own_password user current_password new_password =
      if (current_password == "") || (new_password == "")
      then raise wrong_current_password
      else change_valid user current_password new_password (validate_password new_password)

  unfoldable pub reset_loaded : User → User → UserCredential → Action Session Error String
  unfolding assign_hash assign_user
  reset_loaded actor target cred = do
    write (λ t. record t {
      credentials = assign_hash target.id (hash_password generate_temporary_password) t.credentials;
      users = assign_user target.id renew t.users;
    })
    log_event "ADMIN_PASSWORD_RESET" true (some actor.id) target.id
    commit
    pure generate_temporary_password

  unfoldable pub reset_found : User → Option User → Action Session Error String
  unfolding load_credential reset_loaded
  reset_found actor none = raise user_not_found
  reset_found actor (some target) = do
    cred ← load_credential target.id
    reset_loaded actor target cred

  -- `admin_reset_password`
  unfoldable pub admin_reset_password : User → String → Action Session Error String
  unfolding reset_found
  admin_reset_password actor target_user_id =
      if actor.id == target_user_id then raise self_reset_not_allowed else (do
        found ← gets (λ s. rows user_key target_user_id s.current.users)
        target ← lift (scalar_one_or_none multiple_results_found found)
        reset_found actor target)
