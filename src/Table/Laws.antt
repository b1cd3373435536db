-- ===== src/Table/Laws.antt =====
-- Keyed tables: at most one row for each key, and what an insertion does to a query.
use mathlib.Core.List.{append-nil, nil≢cons, head-eq_of_cons-eq}
use financial_ai_operator.Prelude.{
  ◌≤◌, ◌≡◌, ◌≢◌, refl, sym, ap, ◌∙◌, true, false, ◌⊎◌, inl, inr, none, some, List, [], ◌∷◌, ◌++◌,
  arith, ◌==◌, Eq, ==_refl, ==_false, ==_cases, length, keep-append, All,
}
use financial_ai_operator.Prelude.Outcome.{ok}
use financial_ai_operator.Table.{scalar_one_or_none, rows}

at_most_one {ℓ} :
    {E : Type 0} {A : Type ℓ} (multiple : E) (l : List A)
    → length l ≤ 1
    → ((l ≡ []) × (scalar_one_or_none multiple l ≡ ok none))
      ⊎ ((r : A) × (l ≡ r ∷ []) × (scalar_one_or_none multiple l ≡ ok (some r)))
at_most_one multiple [] h = inl (refl, refl)
at_most_one multiple (r ∷ []) h = inr (r, refl, refl)
at_most_one multiple (r ∷ r' ∷ l) h = absurd (omega arith)

module _ {ℓ κ} {A : Type ℓ} {K : Type κ} ⦃e : Eq K⦄ (key : A → K) where
  abbrev pub IsUnique : List A → Type κ
  IsUnique t = (k : K) → length (rows key k t) ≤ 1

  pub rows-append : (k : K) (t u : List A) → rows key k (t ++ u) ≡ rows key k t ++ rows key k u
  rows-append k t u = keep-append (λ r. key r == k) t u

  pub rows_self : (r : A) → rows key (key r) (r ∷ []) ≡ r ∷ []
  rows_self r = rw (==_refl (key r))

  pub rows-other : (k : K) (r : A) → key r ≢ k → rows key k (r ∷ []) ≡ []
  rows-other k r h = rw (==_false (key r) k h)

  -- Under a unique key the query for one row never raises.
  pub one_row :
      {E : Type 0} (multiple : E) (k : K) (t : List A)
      → IsUnique t
      → ((rows key k t ≡ []) × (scalar_one_or_none multiple (rows key k t) ≡ ok none))
        ⊎ ((r : A) × (rows key k t ≡ r ∷ [])
            × (scalar_one_or_none multiple (rows key k t) ≡ ok (some r)))
  one_row multiple k t u = at_most_one multiple (rows key k t) (u k)

  pub add-IsUnique :
      (t : List A) (r : A) → IsUnique t → rows key (key r) t ≡ [] → IsUnique (t ++ r ∷ [])
  add-IsUnique t r u absent k = elim (==_cases (key r) k) [
    | inl same ↦ rw (rows-append k t (r ∷ []), ← same, absent, rows_self r) (omega arith)
    | inr other ↦ rw (rows-append k t (r ∷ []), rows-other k r other, append-nil) (u k)
  ]

  -- What a query gives has the key that was asked for.
  pub row-key : (k : K) (t : List A) (r : A) (l : List A) → rows key k t ≡ r ∷ l → key r ≡ k
  row-key k [] r l e = absurd (nil≢cons e)
  row-key k (x ∷ t) r l e = elim (==_cases (key x) k) [
    | inl same ↦
        let is_same : (key x == k) ≡ true = rw same (==_refl k) in
        let e' : x ∷ rows key k t ≡ r ∷ l = rw is_same at e in
        ap key (sym (head-eq_of_cons-eq e')) ∙ same
    | inr other ↦
        let is_other : (key x == k) ≡ false = ==_false (key x) k other in
        let e' : rows key k t ≡ r ∷ l = rw is_other at e in row-key k t r l e'
  ]

  -- The only row of a key that had none is the one that was added for it.
  pub row-added :
      (k : K) (t : List A) (r : A)
      → key r ≡ k
      → rows key k t ≡ []
      → rows key k (t ++ r ∷ []) ≡ r ∷ []
  row-added k t r same absent = rw (rows-append k t (r ∷ []), absent, ← same, rows_self r)

  pub rows-key {μ} :
      (P : A → Type μ) (k : K) (t : List A) → All P t → All (λ r. (key r ≡ k) × P r) (rows key k t)
  rows-key P k [] h = tt
  rows-key P k (r ∷ t) h = elim (==_cases (key r) k) [
    | inl same ↦
        let is_same : (key r == k) ≡ true = rw same (==_refl k) in
        rw is_same ((same, h.0), rows-key P k t h.1)
    | inr other ↦ rw (==_false (key r) k other) (rows-key P k t h.1)
  ]
