-- ===== src/Table.antt =====
-- Database tables as SQLAlchemy shows them to the services: a table is the list of its rows in
-- the order of insertion, a query keeps the rows that a test accepts.
pub mod Laws
use financial_ai_operator.Prelude.{Bool, Option, none, some, List, [], ◌∷◌, ◌==◌, Eq, keep}
use financial_ai_operator.Prelude.Outcome.{Result, ok, err}

-- `Result.scalar_one_or_none()`: raises `MultipleResultsFound` on two rows or more.
abbrev pub scalar_one_or_none {ℓ} : {E : Type 0} {A : Type ℓ} → E → List A → Result E (Option A)
scalar_one_or_none multiple [] = ok none
scalar_one_or_none multiple (r ∷ []) = ok (some r)
scalar_one_or_none multiple (r ∷ r' ∷ rs) = err multiple

-- `Result.scalars().first()`
abbrev pub first {ℓ} : {A : Type ℓ} → List A → Option A
first [] = none
first (r ∷ rs) = some r

-- The rows with a given key.
abbrev pub rows {ℓ κ} : {A : Type ℓ} {K : Type κ} ⦃e : Eq K⦄ → (A → K) → K → List A → List A
rows key k t = keep (λ r. key r == k) t
