-- ===== src/Prelude/Checked.antt =====
-- Calls that may raise, and keep no state.
use mathlib.Core.Path.{◌≡◌, refl, subst}
use mathlib.Core.Bool.{Bool, true, false}
use financial_ai_operator.Prelude.Tests.{if◌then◌else◌}
use financial_ai_operator.Prelude.Outcome.{Result, ok, err, err≢ok, ok_inj}

infixl 5 ◌>>=◌
abbrev pub ◌>>=◌ : {E A B : Type 0} → Result E A → (A → Result E B) → Result E B
ok a >>= f = f a
err e >>= f = err e

abbrev pub raise_if : {E : Type 0} → Bool → E → Result E (Unit {0})
raise_if true e = err e
raise_if false e = ok tt

-- What a sequence of calls that returned went through.
pub checked_ok :
    {E A B : Type 0} (m : Result E A) (f : A → Result E B) {b : B}
    → (m >>= f) ≡ ok b
    → (a : A) × (m ≡ ok a) × (f a ≡ ok b)
checked_ok (ok a) f h = (a, refl, h)
checked_ok (err e) f h = absurd (err≢ok h)

module _ {E A : Type 0} {a : A} where
  -- A guard that let pass.
  pub unless_ok :
      (b : Bool) (e : E) (m : Result E A)
      → (if b then err e else m) ≡ ok a
      → (b ≡ false) × (m ≡ ok a)
  unless_ok true e m h = absurd (err≢ok h)
  unless_ok false e m h = (refl, h)

  pub when_ok :
      (b : Bool) (e : E) (m : Result E A)
      → (if b then m else err e) ≡ ok a
      → (b ≡ true) × (m ≡ ok a)
  when_ok true e m h = (refl, h)
  when_ok false e m h = absurd (err≢ok h)

pub raise_if_ok :
    {E B : Type 0} (b : Bool) (e : E) (f : Unit {0} → Result E B) {x : B}
    → (raise_if b e >>= f) ≡ ok x
    → (b ≡ false) × (f tt ≡ ok x)
raise_if_ok true e f h = absurd (err≢ok h)
raise_if_ok false e f h = (refl, h)

-- What holds of the value that is returned.
pub returned :
    {E A : Type 0} (P : A → Type 0) {a b : A} → ◌≡◌ {A = Result E A} (ok a) (ok b) → P a → P b
returned P {a} h p = subst P (ok_inj (ok a) refl h) p
