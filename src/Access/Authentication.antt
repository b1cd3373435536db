-- ===== src/Access/Authentication.antt =====
-- apps/api/auth.py, apps/api/authorization.py and services/auth/token_revocation.py
use financial_ai_operator.Prelude.{
  ℕ, String, Bool, true, false, not, ◌&&◌, ◌||◌, Option, none, some, [], ◌∷◌, ◌++◌, ◌==◌, string_eq,
  nat_eq, option_eq, if◌then◌else◌, keep, ltb,
}
use financial_ai_operator.Prelude.Outcome.{Action, ok, pure, raise, gets, lift, ◌>>=◌, ◌>>◌}
use financial_ai_operator.Table.{scalar_one_or_none, rows}
use financial_ai_operator.Access.Model.{User, Permission, RoleName, role_eq}
use financial_ai_operator.Access.Matrix.{user_has_permission, contains}
use financial_ai_operator.Access.Accounts.{
  TokenRevocation, Accounts, Session, Error, multiple_results_found, credentials_invalid,
  password_change_required, forbidden, commit, write, log_event, user_key,
}

-- The claims of a token that the dependency reads.
pub record Payload : Type 0 where
  pub sub : Option String
  pub jti : Option String
  pub scope : Option String
  pub cver : Option ℕ

abbrev pub revocation_key : TokenRevocation → String
revocation_key r = r.jti

-- `is_token_revoked`
unfoldable pub is_token_revoked : String → Action Session Error Bool
is_token_revoked jti = do
  found ← gets (λ s. rows revocation_key jti s.current.revocations)
  row ← lift (scalar_one_or_none multiple_results_found found)
  elim row [ none ↦ pure false | some r ↦ pure true ]

-- `revoke_token`: the unique index on `jti` refuses a second row, and the call then rolls back.
unfoldable pub revoke_token : String → String → ℕ → Action Session Error (Unit {0})
revoke_token jti user_id expires_at s =
    let r : TokenRevocation = record { jti = jti; user_id = user_id; expires_at = expires_at } in
    let t : Accounts = record s.current { revocations = s.current.revocations ++ r ∷ [] } in
    elim (rows revocation_key jti s.saved.revocations) [
      | [] ↦ (ok tt, record s { saved = t; current = t })
      | _ ∷ _ ↦ (ok tt, record s { current = s.saved })
    ]

-- `purge_expired_revocations`
unfoldable pub purge_expired_revocations : ℕ → Action Session Error (Unit {0})
purge_expired_revocations now = do
  write (λ t. record t { revocations = keep (λ r. not (ltb r.expires_at now)) t.revocations })
  commit

-- From the user's row on.
unfoldable pub check_user : Bool → Payload → String → Option User → Action Session Error User
check_user allow_must_change payload user_id none = raise credentials_invalid
check_user allow_must_change payload user_id (some user) =
    if not user.is_active
    then (do log_event "SESSION_REJECTED" false none user_id; raise credentials_invalid)
    else (if not (payload.cver == some user.credential_version)
        then (do log_event "SESSION_REJECTED" false none user_id; raise credentials_invalid)
        else (if user.must_change_password && not allow_must_change
            then (do
              log_event "SESSION_REJECTED" false none user_id
              raise password_change_required)
            else pure user))

unfoldable pub load_user : Bool → Payload → String → Bool → Action Session Error User
unfolding check_user
load_user allow_must_change payload user_id true = do
  log_event "TOKEN_REVOKED" true none user_id
  raise credentials_invalid
load_user allow_must_change payload user_id false = do
  found ← gets (λ s. rows user_key user_id s.current.users)
  user ← lift (scalar_one_or_none multiple_results_found found)
  check_user allow_must_change payload user_id user

unfoldable pub check_scope : Bool → Payload → String → String → Action Session Error User
unfolding is_token_revoked load_user
check_scope allow_must_change payload user_id jti =
    if payload.scope == some "mfa:verify"
    then raise credentials_invalid
    else (do revoked ← is_token_revoked jti; load_user allow_must_change payload user_id revoked)

-- `not user_id or not jti`: absent or empty.
unfoldable pub check_claims :
    Bool → Payload → Option String → Option String → Action Session Error User
unfolding check_scope
check_claims allow_must_change payload none jti = raise credentials_invalid
check_claims allow_must_change payload (some user_id) none = raise credentials_invalid
check_claims allow_must_change payload (some user_id) (some jti) =
    if (user_id == "") || (jti == "")
    then raise credentials_invalid
    else check_scope allow_must_change payload user_id jti

-- `decode_access_token` gives nothing where it raises `JWTError`.
module _ (decode_access_token : String → Option Payload) where
  -- `get_current_user`
  unfoldable pub get_current_user : Bool → String → Action Session Error User
  unfolding check_claims
  get_current_user allow_must_change token = elim (decode_access_token token) [
    | none ↦ raise credentials_invalid
    | some payload ↦ check_claims allow_must_change payload payload.sub payload.jti
  ]

  unfoldable pub get_current_user_allow_pending : String → Action Session Error User
  unfolding get_current_user
  get_current_user_allow_pending token = get_current_user true token

  -- The dependencies that `require_permission` and `require_role` build. `Depends` takes each further
  -- parameter of `get_current_user` from the request: `allow_must_change_password` is a parameter of
  -- its query, false where it is missing.
  unfoldable pub require_permission : Permission → Bool → String → Action Session Error User
  unfolding get_current_user
  require_permission permission allow_must_change_password token = do
    current_user ← get_current_user allow_must_change_password token
    if user_has_permission current_user permission then pure current_user else raise forbidden

  unfoldable pub require_role : RoleName → Bool → String → Action Session Error User
  unfolding get_current_user
  require_role role allow_must_change_password token = do
    current_user ← get_current_user allow_must_change_password token
    if contains role current_user.roles then pure current_user else raise forbidden
