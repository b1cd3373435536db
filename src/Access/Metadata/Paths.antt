-- ===== src/Access/Metadata/Paths.antt =====
-- Which values sanitize_metadata of services/auth/security_events.py keeps, by their paths.
use mathlib.Core.Logic.{◌↔◌}
use financial_ai_operator.Prelude.{
  String, ◌≡◌, ◌⊎◌, inl, inr, refl, ap, ◌∙◌, true, false, Option, none, some, List, [], ◌∷◌, any,
  if◌then◌else◌, Bool-cases,
}
use financial_ai_operator.Access.Metadata.{
  Interpreter, Metadata, empty, plain, nested, is_forbidden, serializable, sanitize_items,
  sanitize_metadata,
}

module _ {V : Type 0} where
  -- The keys lead through the dictionaries to the value.
  unfoldable pub Reaches : List String → V → Metadata V → Type 0
  Reaches path v empty = ⊥
  Reaches path v (plain k w rest) = ((path ≡ k ∷ []) × (v ≡ w)) ⊎ Reaches path v rest
  Reaches path v (nested k inner rest) =
      ((q : List String) × (path ≡ k ∷ q) × Reaches q v inner) ⊎ Reaches path v rest

  -- The payload that the option holds, or the empty one.
  unfoldable pub given : Option (Metadata V) → Metadata V
  given none = empty
  given (some payload) = payload

module _ {V : Type 0} (py : Interpreter V) where
  -- No key of the path is forbidden.
  abbrev pub IsAllowed : List String → Type 0
  IsAllowed path = any (is_forbidden py) path ≡ false

  -- The payload has a value at the path, no key of which is forbidden, that is written so.
  abbrev pub Written : List String → V → Metadata V → Type 0
  Written path v p = (w : V) × Reaches path w p × IsAllowed path × (v ≡ serializable py w)

  IsAllowed-cons :
      {k : String} {q : List String} {path : List String}
      → path ≡ k ∷ q
      → is_forbidden py k ≡ false
      → IsAllowed q
      → IsAllowed path
  IsAllowed-cons e f a = rw (e, f) a

  IsAllowed-head :
      {k : String} {q : List String} {path : List String}
      → path ≡ k ∷ q
      → IsAllowed path
      → (is_forbidden py k ≡ false) × IsAllowed q
  IsAllowed-head {k} e a = elim (Bool-cases (is_forbidden py k)) [
    | inl t ↦ let a' : true ≡ false = rw (e, t) at a in cc
    | inr f ↦ let a' : any (is_forbidden py) _ ≡ false = rw (e, f) at a in (f, a')
  ]

  reaches-Written :
      (path : List String) (v : V) (p : Metadata V)
      → Reaches path v (sanitize_items py p)
      → Written path v p
  unfolding Reaches sanitize_items
  reaches-Written path v empty h = absurd h
  reaches-Written path v (plain k w rest) h = elim (Bool-cases (is_forbidden py k)) [
    | inl t ↦
        let h' : Reaches path v (sanitize_items py rest) = rw t at h in
        let (u, r, a, d) = reaches-Written path v rest h' in (u, inr r, a, d)
    | inr f ↦
        let h' : Reaches path v (plain k (serializable py w) (sanitize_items py rest)) =
          rw f at h in
        elim h' [
          | inl (e, d) ↦ (w, inl (e, refl), IsAllowed-cons e f refl, d)
          | inr r ↦ let (u, s, a, d) = reaches-Written path v rest r in (u, inr s, a, d)
        ]
  ]
  reaches-Written path v (nested k inner rest) h = elim (Bool-cases (is_forbidden py k)) [
    | inl t ↦
        let h' : Reaches path v (sanitize_items py rest) = rw t at h in
        let (u, r, a, d) = reaches-Written path v rest h' in (u, inr r, a, d)
    | inr f ↦
        let h' : Reaches path v (nested k (sanitize_items py inner) (sanitize_items py rest)) =
          rw f at h in
        elim h' [
          | inl (q, e, r) ↦
              let (u, s, a, d) = reaches-Written q v inner r in
              (u, inl (q, e, s), IsAllowed-cons e f a, d)
          | inr r ↦ let (u, s, a, d) = reaches-Written path v rest r in (u, inr s, a, d)
        ]
  ]

  -- What the rest of the items has stays, whatever becomes of the item in front.
  later :
      (path : List String) (v : V) (k : String) (item : Metadata V → Metadata V) (p : Metadata V)
      → ((r : Metadata V) → Reaches path v r → Reaches path v (item r))
      → Reaches path v p
      → Reaches path v (if is_forbidden py k then p else item p)
  later path v k item p keeps r = elim (Bool-cases (is_forbidden py k)) [
    | inl t ↦ rw t r
    | inr f ↦ rw f (keeps p r)
  ]

  written-Reaches :
      (path : List String) (v : V) (p : Metadata V)
      → Written path v p
      → Reaches path v (sanitize_items py p)
  unfolding Reaches sanitize_items
  written-Reaches path v empty (w, r, a, d) = absurd r
  written-Reaches path v (plain k w rest) (u, inl (e, s), a, d) =
      let (f, _) = IsAllowed-head e a in rw f (inl (e, d ∙ ap (serializable py) s))
  written-Reaches path v (plain k w rest) (u, inr r, a, d) =
      later path v k (plain k (serializable py w)) _ (λ _ h. inr h)
        (written-Reaches path v rest (u, r, a, d))
  written-Reaches path v (nested k inner rest) (u, inl (q, e, r), a, d) =
      let (f, b) = IsAllowed-head e a in rw f (inl (q, e, written-Reaches q v inner (u, r, b, d)))
  written-Reaches path v (nested k inner rest) (u, inr r, a, d) =
      later path v k (nested k (sanitize_items py inner)) _ (λ _ h. inr h)
        (written-Reaches path v rest (u, r, a, d))

  -- The values in the sanitized metadata are just those of the payload whose path has no forbidden
  -- key, under the same path, each itself where `json.dumps` takes it and else its `str`.
  pub sanitize_metadata_iff :
      (payload : Option (Metadata V)) (path : List String) (v : V)
      → Reaches path v (sanitize_metadata py payload) ↔ Written path v (given payload)
  unfolding sanitize_metadata given Reaches
  sanitize_metadata_iff none path v = (λ h. absurd h, λ (w, r, a, d). absurd r)
  sanitize_metadata_iff (some p) path v = (reaches-Written path v p, written-Reaches path v p)
