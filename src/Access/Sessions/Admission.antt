-- ===== src/Access/Sessions/Admission.antt =====
-- That the dependencies of apps/api/auth.py and apps/api/authorization.py let in whom they should,
-- and whom else.
use financial_ai_operator.Prelude.{
  String, ◌≡◌, ◌≢◌, refl, sym, ap, ◌∙◌, inl, inr, Bool, true, false, ◌||◌, Option, some, List, ◌==◌,
  string_eq, option_eq, ==_false, if◌then◌else◌,
}
use financial_ai_operator.Prelude.Outcome.{bind_ok, Result, ok, lift, ◌>>=◌, pure, raise}
use financial_ai_operator.Table.{scalar_one_or_none}
use financial_ai_operator.Access.Model.{User, Permission}
use financial_ai_operator.Access.Matrix.{user_has_permission, granted, user_has_permission-granted}
use financial_ai_operator.Access.Accounts.{Session, Error, multiple_results_found, forbidden}
use financial_ai_operator.Access.Authentication.{
  Payload, is_token_revoked, check_user, load_user, check_scope, check_claims, get_current_user,
  require_permission,
}
use financial_ai_operator.Access.Sessions.{Accepted, check_user_lem}

module _ (allow : Bool) (payload : Payload) (u : User) (jti : String) (s : Session)
    (a : Accepted allow payload s u) where
  check_user-ok : check_user allow payload u.id (some u) s ≡ (ok u, s)
  check_user-ok = elim (check_user_lem allow payload u.id u s) [
    | inl (_, e) ↦ e
    | inr (f, _, _) ↦ let t : true ≡ false = sym a.lets_through ∙ f in cc
  ]

  load_user-ok : load_user allow payload u.id false s ≡ (ok u, s)
  unfolding load_user
  load_user-ok =
      let query : List User → Result Error User × Session = λ l.
        (lift (scalar_one_or_none multiple_results_found l) >>= check_user allow payload u.id) s in
      ap query a.its_row ∙ check_user-ok

  live_token : payload.jti ≡ some jti → is_token_revoked jti s ≡ (ok false, s)
  unfolding is_token_revoked
  live_token e = rw (a.not_revoked jti e) refl

  check_scope-ok : payload.jti ≡ some jti → check_scope allow payload u.id jti s ≡ (ok u, s)
  unfolding check_scope
  check_scope-ok e = rw (==_false payload.scope (some "mfa:verify") a.no_challenge) (
      bind_ok (is_token_revoked jti) (load_user allow payload u.id) s (live_token e) ∙ load_user-ok)

  check_claims-ok :
      payload.jti ≡ some jti
      → u.id ≢ ""
      → jti ≢ ""
      → check_claims allow payload payload.sub payload.jti s ≡ (ok u, s)
  unfolding check_claims
  check_claims-ok e named nonempty =
      let full : ((u.id == "") || (jti == "")) ≡ false =
        rw (==_false u.id "" named, ==_false jti "" nonempty) refl in
      let both : check_claims allow payload (some u.id) (some jti) s ≡ (ok u, s) =
        rw full (check_scope-ok e) in
      ap (λ o. check_claims allow payload o payload.jti s) a.names_user
      ∙ ap (λ o. check_claims allow payload (some u.id) o s) e
      ∙ both

module _ (decode_access_token : String → Option Payload) where
  get_current_user-ok :
      (allow : Bool) (token : String) (payload : Payload) (u : User) (s : Session)
      → decode_access_token token ≡ some payload
      → check_claims allow payload payload.sub payload.jti s ≡ (ok u, s)
      → get_current_user decode_access_token allow token s ≡ (ok u, s)
  unfolding get_current_user
  get_current_user-ok allow token payload u s decoded e = rw (decoded, get_current_user) e

  -- A token that decodes to claims with a nonempty identifier of their own, which name a user whose
  -- row passes the checks and are neither revoked nor an MFA challenge, is let in by a call that requires
  -- a permission of one of the user's roles, and the session stays as it was. With
  -- `allow_must_change_password` in the query a pending password change is no obstacle.
  pub require_permission_admits :
      (permission : Permission) (allow : Bool) (token : String) (payload : Payload) (u : User)
      (jti : String) (s : Session)
      → decode_access_token token ≡ some payload
      → payload.jti ≡ some jti
      → jti ≢ ""
      → u.id ≢ ""
      → Accepted allow payload s u
      → granted u.roles permission ≡ true
      → require_permission decode_access_token permission allow token s ≡ (ok u, s)
  unfolding require_permission
  require_permission_admits permission allow token payload u jti s decoded e nonempty named a has =
      let permitted : user_has_permission u permission ≡ true =
        user_has_permission-granted u permission ∙ has in
      bind_ok (get_current_user decode_access_token allow token)
        (λ v. if user_has_permission v permission then pure v else raise forbidden) s
        (get_current_user-ok allow token payload u s decoded
          (check_claims-ok allow payload u jti s a e named nonempty))
      ∙ rw permitted refl
