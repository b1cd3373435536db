-- ===== src/Ingestion/Sound.antt =====
-- The domain rules of services/ingestion/base.py as an invariant of the tables that
-- services/ingestion fills.
use mathlib.Core.List.{Memᴰ}
use financial_ai_operator.Prelude.{
  String, ◌≡◌, refl, ap, ◌∙◌, inl, inr, ◌⊎◌, Bool, true, not, ◌&&◌, ◌||◌, Option, none, some, List,
  [], ◌∷◌, ◌++◌, arith, ◌==◌, string_eq, pair_eq, option_eq, ==_true, keep, All, All-imp,
}
use financial_ai_operator.Prelude.Int.{ℤ, ◌+ℤ◌, ◌-ℤ◌, ◌≤ℤ◌, ltb_ℤ, eqb_ℤ, eqb_ℤ_iff}
use financial_ai_operator.Prelude.Outcome.{ok, err≢ok, ok_inj}
use financial_ai_operator.Prelude.Checked.{checked_ok, unless_ok, returned, raise_if_ok}
use financial_ai_operator.Prelude.Members.{Mem-keep}
use financial_ai_operator.Table.{scalar_one_or_none}
use financial_ai_operator.Ingestion.Model.{
  Decimal, domain_rule_violation, Reference, by_id, by_external_id, RefundFields, FeeFields,
  SettlementFields,
}
use financial_ai_operator.Ingestion.Store.{
  Parent, Payment, Refund, Fee, Settlement, Facts, multiple_results_found, materialization,
}
use financial_ai_operator.Ingestion.References.{
  units, resolve_by_ref, required, if_given, find_parent, find_settlement, find_payment,
  validate_refund_domain_rules, validate_settlement_totals, refund_payment, not_both, fee_parents,
  expected_net, settlement_parents,
}
use financial_ai_operator.Ingestion.Materialize.{Origin, fee_row, settlement_row, map_option}

-- A refund has a payment of at least its amount and of its currency.
abbrev pub IsCovered : List Payment → Refund → Type 0
IsCovered payments r =
    (p : Payment) × Memᴰ p payments
    × (r.payment_id ≡ p.id)
    × (r.amount ≤ℤ p.amount)
    × (r.currency ≡ p.currency)

abbrev pub IsBalanced : Settlement → Type 0
IsBalanced s = s.expected_net_amount ≡ s.gross_amount -ℤ s.fee_amount +ℤ s.adjustment_amount

abbrev pub HasOneParent : Fee → Type 0
HasOneParent f = (f.payment_id ≡ none) ⊎ (f.settlement_id ≡ none)

pub record IsSound (t : Facts) : Type 0 where
  pub covered : All (IsCovered t.payments) t.refunds
  pub balanced : All IsBalanced t.settlements
  pub one_parent : All HasOneParent t.fees

module _ {A : Type 0} where
  scalar-Mem :
      (l : List A) (a : A) → scalar_one_or_none multiple_results_found l ≡ ok (some a) → Memᴰ a l
  scalar-Mem [] a h = let e : none ≡ some a = ok_inj (ok none) refl h in cc
  scalar-Mem (x ∷ []) a h =
      let e : some x ≡ some a = ok_inj (ok (some x)) refl h in
      let same : a ≡ x = cc in Memᴰ.head same
  scalar-Mem (x ∷ y ∷ l) a h = absurd (err≢ok h)

  required_ok : (o : Option A) (a : A) → required o ≡ ok a → o ≡ some a
  unfolding required
  required_ok none a h = absurd (err≢ok h)
  required_ok (some b) a h = ap some (ok_inj (ok b) refl h)

refund_rules_ok :
    (a b : ℤ) (c d : String) {u : Unit {0}}
    → validate_refund_domain_rules a b c d ≡ ok u
    → (a ≤ℤ b) × (c ≡ d)
unfolding validate_refund_domain_rules
refund_rules_ok a b c d h =
    let (f, h') = unless_ok (ltb_ℤ b a) (materialization domain_rule_violation) _ h in
    let (g, _) = unless_ok (not (c == d)) (materialization domain_rule_violation) _ h' in
    (ground (arith, f), ==_true c d (ground (arith, g)))

expected_net_ok :
    (f : SettlementFields) (o : Option Decimal) (net : ℤ)
    → expected_net f o ≡ ok net
    → net ≡ units f.gross_amount -ℤ units f.fee_amount +ℤ units f.adjustment_amount
unfolding expected_net validate_settlement_totals
expected_net_ok f none net h = ok_inj _ h refl
expected_net_ok f (some d) net h =
    let sum = units f.gross_amount -ℤ units f.fee_amount +ℤ units f.adjustment_amount in
    let (_, e, h') =
      checked_ok
        (validate_settlement_totals (units f.gross_amount) (units f.fee_amount)
          (units f.adjustment_amount) (units d))
        (λ _. ok (units d)) h in
    let (g, _) =
      unless_ok (not (eqb_ℤ (units d) sum)) (materialization domain_rule_violation) _ e in
    let same : units d ≡ sum = (eqb_ℤ_iff (units d) sum).0 (ground (arith, g)) in
    ok_inj _ h' refl ∙ same

find_payment-Mem :
    (provider : String) (ref : Reference) (table : List Payment) (p : Payment)
    → find_payment provider ref table ≡ ok p
    → Memᴰ p table
unfolding find_payment resolve_by_ref
find_payment-Mem provider (by_id i) table p h =
    let test : Payment → Bool = λ r. r.id == i in
    let (o, e, k) = checked_ok _ required h in
    let l = keep test table in
    (Mem-keep test p table (scalar-Mem l p (e ∙ ap ok (required_ok o p k)))).0
find_payment-Mem provider (by_external_id x) table p h =
    let test : Payment → Bool =
      λ r. (some r.external_id == some x) && ((provider == "") || (r.provider == provider)) in
    let (o, e, k) = checked_ok _ required h in
    let l = keep test table in
    (Mem-keep test p table (scalar-Mem l p (e ∙ ap ok (required_ok o p k)))).0

pub refund_payment_ok :
    (t : Facts) (provider : String) (f : RefundFields) (p : Payment)
    → refund_payment t provider f ≡ ok p
    → Memᴰ p t.payments × (units f.amount ≤ℤ p.amount) × (f.currency ≡ p.currency)
unfolding refund_payment
refund_payment_ok t provider f p h =
    let (q, e, h1) = checked_ok (find_payment provider f.payment_ref t.payments) _ h in
    let (_, e2, h2) =
      checked_ok (validate_refund_domain_rules (units f.amount) q.amount f.currency q.currency) _
        h1 in
    let (bound, same) = refund_rules_ok (units f.amount) q.amount f.currency q.currency e2 in
    returned (λ x. Memᴰ x t.payments × (units f.amount ≤ℤ x.amount) × (f.currency ≡ x.currency)) h2
      (find_payment-Mem provider f.payment_ref t.payments q e, bound, same)

-- More payments cover what was covered.
pub IsCovered-append :
    (ps : List Payment) (p : Payment) (rs : List Refund)
    → All (IsCovered ps) rs
    → All (IsCovered (ps ++ p ∷ [])) rs
IsCovered-append ps p rs =
    All-imp (IsCovered ps) (IsCovered (ps ++ p ∷ []))
      (λ r (q, m, e, b, c). (q, Mem-append q ps (p ∷ []) m, e, b, c)) rs
  where
    Mem-append : (x : Payment) (xs ys : List Payment) → Memᴰ x xs → Memᴰ x (xs ++ ys)
    Mem-append x xs ys (Memᴰ.head e) = Memᴰ.head e
    Mem-append x xs ys (Memᴰ.tail m) = Memᴰ.tail (Mem-append x _ ys m)

not_both_ok :
    (a : Option Payment) (b : Option Settlement)
    → not_both a b ≡ true
    → (map_option (λ x. x.id) a ≡ none) ⊎ (map_option (λ x. x.id) b ≡ none)
unfolding not_both map_option
not_both_ok none b k = inl refl
not_both_ok (some a) none k = inr refl
not_both_ok (some a) (some b) k = cc

pub fee_parents_ok :
    (t : Facts) (provider id : String) (o : Origin) (f : FeeFields)
    (p : Parent × Option Payment × Option Settlement)
    → fee_parents t provider f ≡ ok p
    → HasOneParent (fee_row id o f p)
unfolding fee_parents fee_row
fee_parents_ok t provider id o f p h =
    let (m, _, h1) = checked_ok (find_parent f.merchant_ref t.merchants) _ h in
    let (pay, _, h2) =
      checked_ok (if_given (λ ref. find_payment provider ref t.payments) f.payment_ref) _ h1 in
    let (set, _, h3) =
      checked_ok
        (if_given
          (λ ref.
            find_settlement (λ s. (provider == "") || (s.provider == provider)) ref t.settlements)
          f.settlement_ref)
        _ h2 in
    let (alone, h4) =
      raise_if_ok (not (not_both pay set)) (materialization domain_rule_violation) _ h3 in
    returned (λ x. HasOneParent (fee_row id o f x)) h4 (not_both_ok pay set (ground (arith, alone)))

pub settlement_parents_ok :
    (t : Facts) (id : String) (o : Origin) (f : SettlementFields) (p : Parent × ℤ)
    → settlement_parents t f ≡ ok p
    → IsBalanced (settlement_row id o f p)
unfolding settlement_parents settlement_row
settlement_parents_ok t id o f p h =
    let (m, _, h1) = checked_ok (find_parent f.merchant_ref t.merchants) _ h in
    let (net, e, h2) = checked_ok (expected_net f f.expected_net_amount) _ h1 in
    returned (λ x. IsBalanced (settlement_row id o f x)) h2
      (expected_net_ok f f.expected_net_amount net e)
