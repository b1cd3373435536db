-- ===== src/Prelude/Outcome.antt =====
-- Results of calls that may raise, and calls that also change a state.
use mathlib.Core.Path.{◌≡◌, refl, ap, fun_ext}
use mathlib.Core.Logic.{◌≢◌}
use mathlib.Core.Bool.{Bool, true, false}

pub data Result {ℓ} (E : Type 0) (A : Type ℓ) : Type ℓ where
  ok : A → Result E A
  err : E → Result E A

-- A call that reads and writes a state `S`. After `err` the state is what had been written.
abbrev pub Action : Type 0 → Type 0 → Type 0 → Type 0
Action S E A = S → Result E A × S

module _ {S E A : Type 0} where
  abbrev pub pure : A → Action S E A
  pure a s = (ok a, s)

  abbrev pub raise : E → Action S E A
  raise e s = (err e, s)

  abbrev pub gets : (S → A) → Action S E A
  gets f s = (ok (f s), s)

  abbrev pub lift : Result E A → Action S E A
  lift r s = (r, s)

infixl 5 ◌>>=◌ ◌>>◌
abbrev pub ◌>>=◌ : {S E A B : Type 0} → Action S E A → (A → Action S E B) → Action S E B
◌>>=◌ m f s = let (r, s') = m s in elim r [ ok a ↦ f a s' | err e ↦ (err e, s') ]

abbrev pub ◌>>◌ : {S E A B : Type 0} → Action S E A → Action S E B → Action S E B
m >> k = m >>= λ _. k

abbrev pub raise_if : {S E : Type 0} → Bool → E → Action S E (Unit {0})
raise_if true e s = (err e, s)
raise_if false e s = (ok tt, s)

abbrev pub modify : {S E : Type 0} → (S → S) → Action S E (Unit {0})
modify f s = (ok tt, f s)

-- The laws of calls in sequence.
abbrev continue : {S E A B : Type 0} → (A → Action S E B) → Result E A × S → Result E B × S
continue f (r, s) = elim r [ ok a ↦ f a s | err e ↦ (err e, s) ]

continue_twice :
    {S E A B C : Type 0} (f : A → Action S E B) (g : B → Action S E C) (r : Result E A × S)
    → continue g (continue f r) ≡ continue (λ a. f a >>= g) r
continue_twice f g (ok a, s) = refl
continue_twice f g (err e, s) = refl

continue-pure : {S E A : Type 0} (r : Result E A × S) → continue pure r ≡ r
continue-pure (ok a, s) = refl
continue-pure (err e, s) = refl

pub bind_assoc :
    {S E A B C : Type 0} (m : Action S E A) (f : A → Action S E B) (g : B → Action S E C)
    → (m >>= f >>= g) ≡ (m >>= λ a. f a >>= g)
bind_assoc m f g = fun_ext (λ s. continue_twice f g (m s))

pub bind_pure : {S E A : Type 0} (m : Action S E A) → (m >>= pure) ≡ m
bind_pure m = fun_ext (λ s. continue-pure (m s))

-- Calls that go on alike are alike.
pub bind_congr :
    {S E A B : Type 0} (m : Action S E A) {f g : A → Action S E B}
    → ((a : A) → f a ≡ g a)
    → (m >>= f) ≡ (m >>= g)
bind_congr m h = ap (λ k. m >>= k) (fun_ext h)

-- A call that returned goes on with its value, in the state that it left.
pub bind_ok :
    {S E A B : Type 0} (m : Action S E A) (f : A → Action S E B) (s : S) {a : A} {s' : S}
    → m s ≡ (ok a, s')
    → (m >>= f) s ≡ f a s'
bind_ok m f s e = ap (continue f) e

-- A call that raised goes no further.
pub bind_err :
    {S E A B : Type 0} (m : Action S E A) (f : A → Action S E B) (s : S) {e : E} {s' : S}
    → m s ≡ (err e, s')
    → (m >>= f) s ≡ (err e, s')
bind_err m f s e = ap (continue f) e

pub err≢ok : {E A : Type 0} {e : E} {a : A} → err e ≢ ok a
err≢ok h = cc

pub ok_inj : {E A : Type 0} {a b : A} (r : Result E A) → r ≡ ok a → r ≡ ok b → a ≡ b
ok_inj r h k = cc

-- What a sequence of calls that returned went through.
pub bind_ok_inv :
    {S E A B : Type 0} (m : Action S E A) (f : A → Action S E B) (s : S) {b : B} {s' : S}
    → (m >>= f) s ≡ (ok b, s')
    → (a : A) × (t : S) × (m s ≡ (ok a, t)) × (f a t ≡ (ok b, s'))
bind_ok_inv {S} {E} {A} {B} m f s {b} {s'} h = go (m s) refl h
  where
    go :
        (r : Result E A × S)
        → m s ≡ r
        → continue f r ≡ (ok b, s')
        → (a : A) × (t : S) × (m s ≡ (ok a, t)) × (f a t ≡ (ok b, s'))
    go (ok a, t) e k = (a, t, e, k)
    go (err x, t) e k = absurd (err≢ok (ap (λ p. p.0) k))
