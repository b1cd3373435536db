-- ===== src/Prelude/Equality.antt =====
-- Equality tests as an interface: `==` of every type that has an instance.
use Prim.Native.Nat.{ℕ}
use Prim.Native.String.{String}
use mathlib.Core.Path.{◌≡◌, refl}
use mathlib.Core.Logic.{◌↔◌, ◌⊎◌, ◌≢◌}
use mathlib.Core.Bool.{Bool, true, false, ◌&&◌}
use mathlib.Core.Option.{Option, none, some}
use native.Mathlib.Omega.{arith}
use text.Mathlib.Text.{◌==◌ as str_eq}
use text.Mathlib.TextEquality.{eq_iff}
use financial_ai_operator.Prelude.Tests.{eqb, eqb_iff}

pub record Eq {ℓ} (A : Type ℓ) : Type ℓ where
  pub is_eq : A → A → Bool
  pub is_eq_iff : (a b : A) → (is_eq a b ≡ true) ↔ (a ≡ b)

instance abbrev pub string_eq : Eq String
string_eq = record { is_eq_iff = eq_iff; is_eq = str_eq }

infix 50 ◌==◌
abbrev pub ◌==◌ {κ} : {B : Type κ} ⦃i : Eq B⦄ → B → B → Bool
◌==◌ ⦃i⦄ a b = i.is_eq a b

instance abbrev pub nat_eq : Eq ℕ
nat_eq = record { is_eq_iff = eqb_iff; is_eq = eqb }

abbrev pub dec_test {ℓ} : {P : Type ℓ} → Dec P → Bool
dec_test (yes p) = true
dec_test (no p) = false

pub dec_test_iff {ℓ} : {P : Type ℓ} (d : Dec P) → (dec_test d ≡ true) ↔ P
dec_test_iff (yes p) = (λ h. p, λ h. refl)
dec_test_iff (no p) = (λ h. cc, λ h. absurd (p h))

-- The instance of an enumeration, from its decision procedure.
abbrev pub discrete_eq {ℓ} : {A : Type ℓ} → Discrete A → Eq A
discrete_eq d = record { is_eq = λ a b. dec_test (d a b); is_eq_iff = λ a b. dec_test_iff (d a b) }

module _ {ℓ} {A : Type ℓ} ⦃e : Eq A⦄ where
  pub ==_refl : (a : A) → (a == a) ≡ true
  ==_refl a = (e.is_eq_iff a a).1 refl

  pub ==_false : (a b : A) → a ≢ b → (a == b) ≡ false
  ==_false a b h = ground (arith, e.is_eq_iff a b)

  pub ==_true : (a b : A) → (a == b) ≡ true → a ≡ b
  ==_true a b h = (e.is_eq_iff a b).0 h

  pub ==_apart : (a b : A) → (a == b) ≡ false → a ≢ b
  ==_apart a b h same = ground (arith, h, (e.is_eq_iff a b).1 same)

  pub ==_cases : (a b : A) → (a ≡ b) ⊎ (a ≢ b)
  ==_cases a b = ground (arith, e.is_eq_iff a b)

module _ {ℓ κ} {A : Type ℓ} {B : Type κ} ⦃a : Eq A⦄ ⦃b : Eq B⦄ where
  abbrev pair_beq : A × B → A × B → Bool
  pair_beq p q = (p.0 == q.0) && (p.1 == q.1)

  pub pair_beq_iff : (p q : A × B) → (pair_beq p q ≡ true) ↔ (p ≡ q)
  pair_beq_iff p q = (
    λ h. ground (arith, a.is_eq_iff p.0 q.0, b.is_eq_iff p.1 q.1),
    λ h. ground (arith, a.is_eq_iff p.0 q.0, b.is_eq_iff p.1 q.1),
  )

  instance abbrev pub pair_eq : Eq (A × B)
  pair_eq = record { is_eq = pair_beq; is_eq_iff = pair_beq_iff }

module _ {ℓ} {A : Type ℓ} ⦃e : Eq A⦄ where
  abbrev option_beq : Option A → Option A → Bool
  option_beq none none = true
  option_beq (some a) (some b) = a == b
  option_beq _ _ = false

  pub option_beq_iff : (p q : Option A) → (option_beq p q ≡ true) ↔ (p ≡ q)
  option_beq_iff none none = (λ h. refl, λ h. refl)
  option_beq_iff none (some b) = (λ h. cc, λ h. cc)
  option_beq_iff (some a) none = (λ h. cc, λ h. cc)
  option_beq_iff (some a) (some b) =
      (λ h. ground (arith, e.is_eq_iff a b), λ h. ground (arith, e.is_eq_iff a b))

  instance abbrev pub option_eq : Eq (Option A)
  option_eq = record { is_eq = option_beq; is_eq_iff = option_beq_iff }
