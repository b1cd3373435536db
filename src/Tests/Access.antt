-- ===== src/Tests/Access.antt =====
-- Users of the three roles, a token, and the theorems of the access control at these.
use financial_ai_operator.Prelude.{
  ◌+◌, ◌⊎◌, String, Bool, ◌≡◌, ◌≢◌, refl, ◌==◌, true, false, Option, none, some, [], ◌∷◌, arith,
  string_eq, ==_refl, ==_apart, if◌then◌else◌,
}
use financial_ai_operator.Prelude.Outcome.{ok}
use financial_ai_operator.Table.Laws.{IsUnique, add-IsUnique}
use financial_ai_operator.Access.Model.{
  User, operator, admin, approve_action_request, role_eq, permission_eq, Permission-discrete,
}
use financial_ai_operator.Access.Matrix.{
  role_permissions, user_has_permission, granted, user_has_permission-granted,
}
use financial_ai_operator.Access.Accounts.{Accounts, Session, user_key}
use financial_ai_operator.Access.Authentication.{
  require_permission, Payload, get_current_user, check_claims, check_scope, is_token_revoked,
  load_user, check_user,
}
use mathlib.Core.Logic.{◌↔◌}
use financial_ai_operator.Access.Metadata.{
  Interpreter, Metadata, empty, plain, nested, is_forbidden, serializable, sanitize_items,
  sanitize_metadata,
}
use financial_ai_operator.Access.Metadata.Paths.{Reaches, Written, given, sanitize_metadata_iff}
use financial_ai_operator.Access.Sessions.Admission.{require_permission_admits}
use financial_ai_operator.Access.Sessions.{
  require_permission_sound, Accepted, get_current_user_sound,
}
use financial_ai_operator.Access.Password.{
  change_own_password, change_valid, load_credential, credential_or_raise, change_verified,
  log_forced, next_version, admin_reset_password, reset_found, reset_loaded,
}
use financial_ai_operator.Access.Password.Renewal.{
  change_own_password_ends_sessions, admin_reset_password_ends_sessions,
}
use financial_ai_operator.Access.Admin.{set_user_active, replace_user_roles}
use financial_ai_operator.Access.Admin.LastAdmin.{
  HasAdmin, set_user_active-HasAdmin, replace_user_roles-HasAdmin,
}

abbrev root : User
root = record {
  id = "u1";
  email = "root@example.org";
  is_active = true;
  credential_version = 3;
  must_change_password = false;
  roles = admin ∷ [];
}

abbrev accounts : Accounts
accounts = record { users = root ∷ []; credentials = []; revocations = []; events = [] }

abbrev session : Session
session = record { saved = accounts; current = accounts }

abbrev claims : Payload
claims = record { sub = some "u1"; jti = some "j1"; scope = none; cver = some 3 }

abbrev decode : String → Option Payload
decode token = some claims

root-IsUnique : IsUnique user_key (root ∷ [])
root-IsUnique k = ground arith

accepted : get_current_user decode false "token" session ≡ (ok root, session)
unfolding get_current_user check_claims check_scope is_token_revoked load_user check_user
accepted = refl

get_current_user_sound_example :
    (session ≡ session)
    × (payload : Payload) × (decode "token" ≡ some payload)
    × Accepted false payload session root
get_current_user_sound_example =
    get_current_user_sound decode false "token" root session session accepted root-IsUnique

root-HasAdmin : HasAdmin (root ∷ [])
root-HasAdmin = rw (==_refl admin)

set_user_active-HasAdmin_example :
    HasAdmin (set_user_active "u1" false root session).1.current.users
set_user_active-HasAdmin_example =
    set_user_active-HasAdmin "u1" session root-IsUnique false root root-HasAdmin

replace_user_roles-HasAdmin_example :
    HasAdmin (replace_user_roles "u1" (operator ∷ []) root session).1.current.users
replace_user_roles-HasAdmin_example =
    replace_user_roles-HasAdmin "u1" session root-IsUnique (operator ∷ []) root root-HasAdmin

user_has_permission-granted_example :
    user_has_permission root approve_action_request ≡ granted (admin ∷ []) approve_action_request
user_has_permission-granted_example = user_has_permission-granted root approve_action_request

abbrev clerk : User
clerk = record {
  id = "u2";
  email = "clerk@example.org";
  is_active = true;
  credential_version = 3;
  must_change_password = false;
  roles = operator ∷ [];
}

abbrev office : Accounts
office = record {
  users = root ∷ clerk ∷ [];
  credentials =
      record { user_id = "u1"; password_hash = "old" }
      ∷ record { user_id = "u2"; password_hash = "pass" }
      ∷ [];
  revocations = [];
  events = [];
}

abbrev office_session : Session
office_session = record { saved = office; current = office }

office-IsUnique : IsUnique user_key (root ∷ clerk ∷ [])
office-IsUnique = add-IsUnique user_key (root ∷ []) clerk root-IsUnique refl

abbrev allows : String → Option String
allows password = none

abbrev verifies : String → String → Bool
verifies password hash = password == hash

abbrev hashes : String → String
hashes password = password

abbrev changed : Session
changed = (change_own_password allows verifies hashes "temp" root "old" "new" office_session).1

was_changed :
    change_own_password allows verifies hashes "temp" root "old" "new" office_session
    ≡ (ok tt, changed)
unfolding change_own_password change_valid load_credential credential_or_raise change_verified
    log_forced
was_changed = refl

abbrev next_claims : Payload
next_claims = record { sub = some "u1"; jti = some "j3"; scope = none; cver = some 4 }

abbrev decode_next : String → Option Payload
decode_next token = some next_claims

abbrev changed_root : User
changed_root = record root { credential_version = 4 }

next_accepted : get_current_user decode_next false "token" changed ≡ (ok changed_root, changed)
unfolding get_current_user check_claims check_scope is_token_revoked load_user check_user
    change_own_password change_valid load_credential credential_or_raise change_verified log_forced
    next_version
next_accepted = refl

change_own_password_ends_sessions_example :
    (next_claims.cver ≡ some (root.credential_version + 1))
    ⊎ ((root.credential_version ≡ 0) × (next_claims.cver ≡ some 2))
change_own_password_ends_sessions_example =
    change_own_password_ends_sessions allows verifies hashes "temp" decode_next false "token"
      next_claims root root changed_root "old" "new" office_session changed changed office-IsUnique
      refl was_changed refl refl next_accepted

-- A session in which another change has committed since the caller's object was loaded.
abbrev raced : Session
raced =
    let t : Accounts = record office { users = changed_root ∷ clerk ∷ [] } in
    record { saved = t; current = t }

-- The change through the older object leaves the row's version as it was.
raced_version_kept :
    (change_own_password allows verifies hashes "temp" root "old" "new" raced).1.saved.users
    ≡ changed_root ∷ clerk ∷ []
unfolding change_own_password change_valid load_credential credential_or_raise change_verified
    log_forced next_version
raced_version_kept = refl

abbrev reset : Session
reset = (admin_reset_password allows verifies hashes "temp" root "u2" office_session).1

was_reset :
    admin_reset_password allows verifies hashes "temp" root "u2" office_session ≡ (ok "temp", reset)
unfolding admin_reset_password reset_found reset_loaded load_credential credential_or_raise
was_reset = refl

abbrev clerk_claims : Payload
clerk_claims = record { sub = some "u2"; jti = some "j2"; scope = none; cver = some 3 }

abbrev decode_clerk : String → Option Payload
decode_clerk token = some clerk_claims

admin_reset_password_ends_sessions_example :
    get_current_user decode_clerk true "token" reset ≢ (ok clerk, reset)
admin_reset_password_ends_sessions_example =
    admin_reset_password_ends_sessions allows verifies hashes "temp" decode_clerk true "token"
      clerk_claims root clerk clerk "temp" office_session reset reset office-IsUnique refl was_reset
      refl refl refl

root_grants : granted (admin ∷ []) approve_action_request ≡ true
unfolding role_permissions Permission-discrete
root_grants = refl

permitted :
    require_permission decode approve_action_request true "token" session ≡ (ok root, session)
unfolding require_permission get_current_user check_claims check_scope is_token_revoked load_user
    check_user
permitted = rw (user_has_permission-granted root approve_action_request, root_grants)

require_permission_sound_example :
    (granted (admin ∷ []) approve_action_request ≡ true)
    × (session ≡ session)
    × (payload : Payload) × (decode "token" ≡ some payload)
    × Accepted true payload session root
require_permission_sound_example =
    require_permission_sound decode approve_action_request true "token" root session session
      permitted root-IsUnique

-- A user whose password change is pending, with the parameter in the query.
abbrev pending_root : User
pending_root = record root { must_change_password = true }

abbrev pending_session : Session
pending_session =
    let t : Accounts = record office { users = pending_root ∷ [] } in
    record { saved = t; current = t }

pending-Accepted : Accepted true claims pending_session pending_root
pending-Accepted = record {
  names_user = refl;
  its_row = refl;
  not_revoked = λ j e. refl;
  no_challenge = λ e. cc;
  lets_through = refl;
}

require_permission_admits_example :
    require_permission decode approve_action_request true "token" pending_session
    ≡ (ok pending_root, pending_session)
require_permission_admits_example =
    require_permission_admits decode approve_action_request true "token" claims pending_root "j1"
      pending_session refl refl (==_apart "j1" "" refl) (==_apart "u1" "" refl) pending-Accepted
      root_grants

-- Texts in lower case, of which a part is the text itself, and one object without a JSON form.
abbrev interpreter : Interpreter String
interpreter = record {
  lower = λ k. k;
  is_in = λ a b. a == b;
  dumps = λ v. if v == "object" then false else true;
  str = λ v. "<object>";
}

abbrev metadata : Metadata String
metadata =
    plain "token" "t0" (nested "request" (plain "secret" "s0" (plain "ip" "object" empty)) empty)

metadata_sanitized :
    sanitize_metadata interpreter (some metadata)
    ≡ nested "request" (plain "ip" "<object>" empty) empty
unfolding sanitize_metadata sanitize_items is_forbidden serializable
metadata_sanitized = refl

sanitize_metadata_iff_example :
    Reaches ("request" ∷ "ip" ∷ []) "<object>" (sanitize_metadata interpreter (some metadata))
    ↔ Written interpreter ("request" ∷ "ip" ∷ []) "<object>" (given (some metadata))
sanitize_metadata_iff_example =
    sanitize_metadata_iff interpreter (some metadata) ("request" ∷ "ip" ∷ []) "<object>"
