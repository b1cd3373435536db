-- ===== src/Access/Sessions.antt =====
-- Which tokens apps/api/auth.py and apps/api/authorization.py accept.
pub mod Admission
use mathlib.Core.Path.{subst}
use financial_ai_operator.Prelude.{
  String, ◌≡◌, ◌≢◌, refl, sym, ap, ◌∙◌, inl, inr, ◌⊎◌, Bool, true, false, not, ◌&&◌, ◌||◌, Option,
  none, some, List, [], ◌∷◌, ◌==◌, string_eq, nat_eq, option_eq, arith, Bool-cases, ==_cases,
  ==_refl, ==_false, if◌then◌else◌,
}
use financial_ai_operator.Prelude.Outcome.{
  pure, raise, Result, ok, err, err≢ok, bind_ok_inv, lift, ◌>>=◌,
}
use financial_ai_operator.Table.{scalar_one_or_none, rows}
use financial_ai_operator.Table.Laws.{IsUnique, one_row, row-key}
use financial_ai_operator.Access.Model.{User, Permission}
use financial_ai_operator.Access.Matrix.{user_has_permission, granted, user_has_permission-granted}
use financial_ai_operator.Access.Accounts.{
  forbidden, TokenRevocation, Session, Error, multiple_results_found, credentials_invalid,
  password_change_required, user_key,
}
use financial_ai_operator.Access.Authentication.{
  require_permission, Payload, revocation_key, is_token_revoked, check_user, load_user, check_scope,
  check_claims, get_current_user,
}

-- A user that the checks of the row let through.
abbrev pub passes : Bool → Payload → User → Bool
passes allow payload u =
    u.is_active
    && (payload.cver == some u.credential_version)
    && (not u.must_change_password || allow)

pub check_user_lem :
    (allow : Bool) (payload : Payload) (id : String) (u : User) (s : Session)
    → ((passes allow payload u ≡ true) × (check_user allow payload id (some u) s ≡ (ok u, s)))
      ⊎ ((passes allow payload u ≡ false)
          × (e : Error) × ((check_user allow payload id (some u) s).0 ≡ err e))
unfolding check_user
check_user_lem allow payload id u s = elim (Bool-cases u.is_active) [
  | inr off ↦ inr (ground (arith, off), credentials_invalid, ground (arith, off))
  | inl on ↦ elim (Bool-cases (payload.cver == some u.credential_version)) [
    | inr stale ↦ inr (ground (arith, stale), credentials_invalid, ground (arith, on, stale))
    | inl fresh ↦ elim (Bool-cases (u.must_change_password && not allow)) [
      | inl must ↦
          inr (ground (arith, must), password_change_required, ground (arith, on, fresh, must))
      | inr free ↦ inl (ground (arith, on, fresh, free), ground (arith, on, fresh, free))
    ]
  ]
]

ok-inj : {E A : Type 0} {a b : A} → Path (Result E A) (ok a) (ok b) → a ≡ b
ok-inj e = cc

check_user_inv :
    (allow : Bool) (payload : Payload) (id : String) (u v : User) (s s' : Session)
    → check_user allow payload id (some u) s ≡ (ok v, s')
    → (v ≡ u) × (s' ≡ s) × (passes allow payload u ≡ true)
check_user_inv allow payload id u v s s' h = elim (check_user_lem allow payload id u s) [
  | inl (passed, e) ↦ (result_of (sym h ∙ e), ap (λ r. r.1) (sym h ∙ e), passed)
  | inr (failed, x, e) ↦ absurd (err≢ok (sym e ∙ ap (λ r. r.0) h))
]
  where
    result_of : Path (Result Error User × Session) (ok v, s') (ok u, s) → v ≡ u
    result_of e = ok-inj (ap (λ r. r.0) e)

-- Where a session for a user comes from.
pub record Accepted (allow : Bool) (payload : Payload) (s : Session) (u : User) : Type 0 where
  pub names_user : payload.sub ≡ some u.id
  pub its_row : rows user_key u.id s.current.users ≡ u ∷ []
  pub not_revoked :
      (jti : String) → payload.jti ≡ some jti → rows revocation_key jti s.current.revocations ≡ []
  pub no_challenge : payload.scope ≢ some "mfa:verify"
  pub lets_through : passes allow payload u ≡ true

no_user_inv :
    (allow : Bool) (payload : Payload) (id : String) (v : User) (s s' : Session)
    → check_user allow payload id none s ≢ (ok v, s')
unfolding check_user
no_user_inv allow payload id v s s' h = absurd (err≢ok (ap (λ r. r.0) h))

load_user_inv :
    (allow : Bool) (payload : Payload) (id : String) (v : User) (s s' : Session)
    → load_user allow payload id false s ≡ (ok v, s')
    → IsUnique user_key s.current.users
    → (s' ≡ s)
      × (v.id ≡ id)
      × (rows user_key id s.current.users ≡ v ∷ [])
      × (passes allow payload v ≡ true)
unfolding load_user
load_user_inv allow payload id v s s' h unique =
    let query : List User → Result Error User × Session =
      λ l. (lift (scalar_one_or_none multiple_results_found l) >>= check_user allow payload id) s in
    elim (one_row user_key multiple_results_found id s.current.users unique) [
      | inl (absent, _) ↦ absurd (no_user_inv allow payload id v s s' (sym (ap query absent) ∙ h))
      | inr (u, e, _) ↦
          let (same, still, passed) =
            check_user_inv allow payload id u v s s' (sym (ap query e) ∙ h) in
          (
            still,
            ap (λ (w : User). w.id) same ∙ row-key user_key id s.current.users u [] e,
            e ∙ ap (λ (w : User). w ∷ []) (sym same),
            subst (λ (w : User). passes allow payload w ≡ true) (sym same) passed,
          )
    ]

revoked_inv :
    (allow : Bool) (payload : Payload) (id : String) (v : User) (s s' : Session)
    → load_user allow payload id true s ≢ (ok v, s')
unfolding load_user
revoked_inv allow payload id v s s' h = absurd (err≢ok (ap (λ r. r.0) h))

is_token_revoked_inv :
    (jti : String) (b : Bool) (s t : Session)
    → is_token_revoked jti s ≡ (ok b, t)
    → (t ≡ s) × ((b ≡ true) ⊎ (rows revocation_key jti s.current.revocations ≡ []))
unfolding is_token_revoked
is_token_revoked_inv jti b s t h = go (rows revocation_key jti s.current.revocations) refl
  where
    go :
        (l : List TokenRevocation)
        → rows revocation_key jti s.current.revocations ≡ l
        → (t ≡ s) × ((b ≡ true) ⊎ (rows revocation_key jti s.current.revocations ≡ []))
    go [] e =
        let h' : Path (Result Error Bool × Session) (ok false, s) (ok b, t) = rw e at h in
        (sym (ap (λ r. r.1) h'), inr e)
    go (r ∷ []) e =
        let h' : Path (Result Error Bool × Session) (ok true, s) (ok b, t) = rw e at h in
        (sym (ap (λ r. r.1) h'), inl (sym (ok-inj (ap (λ r. r.0) h'))))
    go (r ∷ r' ∷ rs) e =
        let h' : Path (Result Error Bool × Session) (err multiple_results_found, s) (ok b, t) =
          rw e at h in
        absurd (err≢ok (ap (λ r. r.0) h'))

check_scope_inv :
    (allow : Bool) (payload : Payload) (id jti : String) (v : User) (s s' : Session)
    → check_scope allow payload id jti s ≡ (ok v, s')
    → payload.sub ≡ some id
    → payload.jti ≡ some jti
    → IsUnique user_key s.current.users
    → (s' ≡ s) × Accepted allow payload s v
unfolding check_scope
check_scope_inv allow payload id jti v s s' h sub_is jti_is unique =
    elim (==_cases payload.scope (some "mfa:verify")) [
      | inl same ↦
          let t : (payload.scope == some "mfa:verify") ≡ true =
            rw same (==_refl {A = String} "mfa:verify") in
          let h' : Path (Result Error User × Session) (err credentials_invalid, s) (ok v, s') =
            rw t at h in
          absurd (err≢ok (ap (λ r. r.0) h'))
      | inr other ↦
          let t : (payload.scope == some "mfa:verify") ≡ false =
            ==_false payload.scope (some "mfa:verify") other in
          let h' : (is_token_revoked jti >>= load_user allow payload id) s ≡ (ok v, s') =
            rw t at h in
          let (revoked, mid, first, second) =
            bind_ok_inv (is_token_revoked jti) (load_user allow payload id) s h' in
          let (still, listed) = is_token_revoked_inv jti revoked s mid first in
          let second' : load_user allow payload id revoked s ≡ (ok v, s') = rw still at second in
          elim (Bool-cases revoked) [
            | inl is_revoked ↦ absurd (
                revoked_inv allow payload id v s s'
                  (ap (λ b. load_user allow payload id b s) (sym is_revoked) ∙ second'))
            | inr is_live ↦
                let (same_state, own_id, its_row, passed) =
                  load_user_inv allow payload id v s s'
                    (ap (λ b. load_user allow payload id b s) (sym is_live) ∙ second') unique in
                let live : rows revocation_key jti s.current.revocations ≡ [] = elim listed [
                  | inl b ↦ absurd (true≢false (sym b ∙ is_live))
                  | inr e ↦ e
                ] in
                (
                  same_state,
                  record {
                    names_user = sub_is ∙ ap some (sym own_id);
                    its_row =
                        subst (λ k. rows user_key k s.current.users ≡ v ∷ []) (sym own_id) its_row;
                    not_revoked = λ j e.
                        subst (λ k. rows revocation_key k s.current.revocations ≡ [])
                          (some-inj (sym jti_is ∙ e)) live;
                    no_challenge = other;
                    lets_through = passed;
                  },
                )
          ]
    ]
  where
    some-inj : {a b : String} → some a ≡ some b → a ≡ b
    some-inj e = cc

    true≢false : true ≡ false → ⊥
    true≢false e = cc

check_claims_inv :
    (allow : Bool) (payload : Payload) (sub jti : Option String) (v : User) (s s' : Session)
    → check_claims allow payload sub jti s ≡ (ok v, s')
    → payload.sub ≡ sub
    → payload.jti ≡ jti
    → IsUnique user_key s.current.users
    → (s' ≡ s) × Accepted allow payload s v
unfolding check_claims
check_claims_inv allow payload none jti v s s' h e e' unique = absurd (err≢ok (ap (λ r. r.0) h))
check_claims_inv allow payload (some id) none v s s' h e e' unique =
    absurd (err≢ok (ap (λ r. r.0) h))
check_claims_inv allow payload (some id) (some j) v s s' h e e' unique =
    elim (Bool-cases ((id == "") || (j == ""))) [
      | inl empty ↦
          let h' : Path (Result Error User × Session) (err credentials_invalid, s) (ok v, s') =
            rw empty at h in
          absurd (err≢ok (ap (λ r. r.0) h'))
      | inr full ↦
          let h' : check_scope allow payload id j s ≡ (ok v, s') = rw full at h in
          check_scope_inv allow payload id j v s s' h' e e' unique
    ]

-- `decode_access_token` of packages/utils/jwt.py, which gives nothing where it raises.
module _ (decode_access_token : String → Option Payload) where
  -- Where the identifiers of users are distinct, a token for which `get_current_user` returns a user
  -- decodes to claims that name this user and are no MFA challenge; the token is not revoked, the user is
  -- active, the token has the user's present credential version, and no password change is pending or the
  -- caller allows it. The session is as it was.
  pub get_current_user_sound :
      (allow : Bool) (token : String) (v : User) (s s' : Session)
      → get_current_user decode_access_token allow token s ≡ (ok v, s')
      → IsUnique user_key s.current.users
      → (s' ≡ s)
        × (payload : Payload) × (decode_access_token token ≡ some payload)
        × Accepted allow payload s v
  unfolding get_current_user
  get_current_user_sound allow token v s s' h unique = go (decode_access_token token) refl
    where
      go :
          (o : Option Payload)
          → decode_access_token token ≡ o
          → (s' ≡ s)
            × (payload : Payload) × (decode_access_token token ≡ some payload)
            × Accepted allow payload s v
      go none e =
          let h' : Path (Result Error User × Session) (err credentials_invalid, s) (ok v, s') =
            rw (e, get_current_user) at h in
          absurd (err≢ok (ap (λ r. r.0) h'))
      go (some payload) e =
          let h' : check_claims allow payload payload.sub payload.jti s ≡ (ok v, s') =
            rw (e, get_current_user) at h in
          let (still, accepted) =
            check_claims_inv allow payload payload.sub payload.jti v s s' h' refl refl unique in
          (still, payload, e, accepted)

  -- Where the identifiers of users are distinct, a call that requires a permission
  -- returns a user only if one of the roles in the user's row grants the permission and the token is
  -- accepted, with no password change pending unless the query of the request has
  -- `allow_must_change_password`; the session is as it was.
  pub require_permission_sound :
      (permission : Permission) (allow : Bool) (token : String) (v : User) (s s' : Session)
      → require_permission decode_access_token permission allow token s ≡ (ok v, s')
      → IsUnique user_key s.current.users
      → (granted v.roles permission ≡ true)
        × (s' ≡ s)
        × (payload : Payload) × (decode_access_token token ≡ some payload)
        × Accepted allow payload s v
  unfolding require_permission
  require_permission_sound permission allow token v s s' h unique =
      let (u, t, authenticated, passed) =
        bind_ok_inv (get_current_user decode_access_token allow token)
          (λ u. if user_has_permission u permission then pure u else raise forbidden) s h in
      let (still, payload, decoded, accepted) =
        get_current_user_sound allow token u s t authenticated unique in
      elim (Bool-cases (user_has_permission u permission)) [
        | inl has ↦
            let k : Path (Result Error User × Session) (ok u, t) (ok v, s') = rw has at passed in
            let same : u ≡ v = ok-inj (ap (λ r. r.0) k) in
            (
              subst (λ (w : User). granted w.roles permission ≡ true) same
                  (sym (user_has_permission-granted u permission) ∙ has),
              sym (ap (λ r. r.1) k) ∙ still,
              payload,
              decoded,
              subst (Accepted allow payload s) same accepted,
            )
        | inr lacks ↦
            let k : Path (Result Error User × Session) (err forbidden, t) (ok v, s') =
              rw lacks at passed in
            absurd (err≢ok (ap (λ r. r.0) k))
      ]
