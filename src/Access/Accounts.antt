-- ===== src/Access/Accounts.antt =====
-- The tables of database/models/identity.py in a session: what is committed (`saved`) and what the
-- session has written on top of it (`current`); `.commit()` of the session.
use financial_ai_operator.Prelude.{
  ℕ, String, Bool, Option, List, [], ◌∷◌, ◌++◌, ◌==◌, string_eq, if◌then◌else◌,
}
use financial_ai_operator.Prelude.Outcome.{Action, modify}
use financial_ai_operator.Access.Model.{User}

pub record UserCredential : Type 0 where
  pub user_id : String
  pub password_hash : String

pub record TokenRevocation : Type 0 where
  pub jti : String
  pub user_id : String
  pub expires_at : ℕ

-- A security event, with the identifier of the user that it is about.
pub record AccountEvent : Type 0 where
  pub event_type : String
  pub actor_id : Option String
  pub user_id : String
  pub is_success : Bool

pub record Accounts : Type 0 where
  pub users : List User
  pub credentials : List UserCredential
  pub revocations : List TokenRevocation
  pub events : List AccountEvent

pub record Session : Type 0 where
  pub saved : Accounts
  pub current : Accounts

-- HTTP errors and the exceptions of the services.
pub data Error : Type 0 where
  multiple_results_found credentials_invalid password_change_required forbidden
        wrong_current_password same_password self_reset_not_allowed user_not_found
        credential_missing own_account last_active_admin no_valid_role :
      Error
  password_policy : String → Error

abbrev pub commit : Action Session Error (Unit {0})
commit = modify (λ s. record s { saved = s.current })

abbrev pub write : (Accounts → Accounts) → Action Session Error (Unit {0})
write f = modify (λ s. record s { current = f s.current })

abbrev pub log_event : String → Bool → Option String → String → Action Session Error (Unit {0})
log_event event_type is_success actor_id user_id =
    let e : AccountEvent = record {
      event_type = event_type;
      actor_id = actor_id;
      user_id = user_id;
      is_success = is_success;
    } in
    write (λ t. record t { events = t.events ++ e ∷ [] })

abbrev pub user_key : User → String
user_key u = u.id

-- An assignment to the attributes of the user with an identifier.
unfoldable pub assign_user : String → (User → User) → List User → List User
assign_user id f [] = []
assign_user id f (u ∷ us) =
    let rest = assign_user id f us in if u.id == id then f u ∷ rest else u ∷ rest
