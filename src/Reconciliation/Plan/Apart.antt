-- ===== src/Reconciliation/Plan/Apart.antt =====
-- The plan of a run has no step that needs an unflushed row: the rows that are not flushed are
-- those of payments with no settlement, and each payment has an identifier of its own.
use mathlib.Core.List.{append-nil, append_assoc}
use mathlib.Core.Path.{subst}
use mathlib.Core.Bool.{false≢true}
use financial_ai_operator.Prelude.Int.{ℤ, pos, ltb_ℤ, int_eq}
use financial_ai_operator.Prelude.{
  ℕ, String, ◌≡◌, ◌≢◌, refl, sym, ap, ◌∙◌, if_both, ◌⊎◌, inl, inr, Bool, false, Bool-cases, Option,
  none, some, List, [], ◌∷◌, ◌++◌, ◌==◌, string_eq, All, All-append, All-imp, All-keep, keep,
  if◌then◌else◌, not,
}
use financial_ai_operator.Reconciliation.Model.{
  fee_mismatch, medium, Payment, SettlementItem, Settlement, BankTransaction, DiscrepancyColumns,
}
use financial_ai_operator.Reconciliation.PaymentSettlement
use financial_ai_operator.Reconciliation.PaymentSettlement.{
  DiscrepancyData, evaluate_item, item_discrepancy, missing_settlement_discrepancy,
}
use financial_ai_operator.Reconciliation.SettlementBank
use financial_ai_operator.Reconciliation.SettlementBank.{
  fee_discrepancy, bank_discrepancy, missing_bank_discrepancy, settlement_discrepancy,
}
use financial_ai_operator.Reconciliation.Engine.{Clock}
use financial_ai_operator.Reconciliation.Plan.{
  Step, relate, report, report_later, maybe_report, report_data, item_plan, items_plan,
  missing_plan, payment_plan, payments_plan, transaction_plan, transactions_plan, bank_plan,
  settlement_plan, settlements_plan, run_plan,
}
use financial_ai_operator.Reconciliation.Ledger.Simulation.{
  Differs, After, IsApart, apart_nil, apart_cons,
}

-- The identifier is the primary key of the table of payments.
abbrev pub HasDistinctIds : List Payment → Type 0
HasDistinctIds [] = Unit
HasDistinctIds (p ∷ ps) = All (λ q. p.id ≢ q.id) ps × HasDistinctIds ps

keep-HasDistinctIds :
    (test : Payment → Bool) (ps : List Payment) → HasDistinctIds ps → HasDistinctIds (keep test ps)
keep-HasDistinctIds test [] h = tt
keep-HasDistinctIds test (p ∷ ps) h = elim (Bool-cases (test p)) [
  | inl kept ↦ rw kept (All-keep (λ q. p.id ≢ q.id) test ps h.0, keep-HasDistinctIds test ps h.1)
  | inr dropped ↦ rw dropped (keep-HasDistinctIds test ps h.1)
]

abbrev IsPrompt : Step → Type 0
IsPrompt (report_later c) = ⊥
IsPrompt _ = Unit

-- What holds of the discrepancy that a step asks for.
abbrev About : (DiscrepancyColumns → Type 0) → Step → Type 0
About P (relate c) = Unit
About P (report c) = P c
About P (report_later c) = P c

All-unit : (x : Step) → ((y : Step) → After x y) → (ys : List Step) → All (After x) ys
All-unit x h [] = tt
All-unit x h (y ∷ ys) = (h y, All-unit x h ys)

-- Steps that flush need no condition.
prompt-IsApart : (xs ys : List Step) → All IsPrompt xs → IsApart ys → IsApart (xs ++ ys)
prompt-IsApart [] ys h k = k
prompt-IsApart (relate c ∷ xs) ys h k =
    apart_cons (All-unit (relate c) (λ y. tt) (xs ++ ys)) (prompt-IsApart xs ys h.1 k)
prompt-IsApart (report c ∷ xs) ys h k =
    apart_cons (All-unit (report c) (λ y. tt) (xs ++ ys)) (prompt-IsApart xs ys h.1 k)
prompt-IsApart (report_later c ∷ xs) ys h k = absurd h.0

module _ (P : DiscrepancyColumns → Type 0) where
  All-report_data :
      (p : Payment) (found : Option DiscrepancyData)
      → ((info : DiscrepancyData) → P (item_discrepancy p info))
      → All (About P) (report_data p found)
  All-report_data p none h = tt
  All-report_data p (some info) h = (h info, tt)

  All-items_plan :
      (p : Payment) (is : List SettlementItem)
      → ((info : DiscrepancyData) → P (item_discrepancy p info))
      → All (About P) (items_plan p is)
  unfolding items_plan item_plan
  All-items_plan p [] h = tt
  All-items_plan p (i ∷ is) h = (
    tt,
    All-append (About P) (report_data p (evaluate_item p i).1) (items_plan p is)
        (All-report_data p (evaluate_item p i).1 h) (All-items_plan p is h),
  )

report_data-IsPrompt :
    (p : Payment) (found : Option DiscrepancyData) → All IsPrompt (report_data p found)
report_data-IsPrompt p none = tt
report_data-IsPrompt p (some info) = (tt, tt)

items_plan-IsPrompt : (p : Payment) (is : List SettlementItem) → All IsPrompt (items_plan p is)
unfolding items_plan item_plan
items_plan-IsPrompt p [] = tt
items_plan-IsPrompt p (i ∷ is) = (
  tt,
  All-append IsPrompt (report_data p (evaluate_item p i).1) (items_plan p is)
      (report_data-IsPrompt p (evaluate_item p i).1) (items_plan-IsPrompt p is),
)

-- Every row of a payment's plan has the payment for its source.
abbrev HasSource : String → DiscrepancyColumns → Type 0
HasSource id c = c.source_entity_id ≡ id

module _ (clock : Payment → ℕ) (p : Payment) where
  -- A payment's plan is a list of flushed steps, or the one row of a missing settlement.
  payment_plan-cases :
      All IsPrompt (payment_plan clock p)
      ⊎ (payment_plan clock p ≡ report_later (missing_settlement_discrepancy p) ∷ [])
  unfolding payment_plan missing_plan
  payment_plan-cases = by_items p.settlement_items
    where
      missing_cases :
          All IsPrompt (missing_plan clock p)
          ⊎ (missing_plan clock p ≡ report_later (missing_settlement_discrepancy p) ∷ [])
      missing_cases = elim (Bool-cases (PaymentSettlement.is_overdue (clock p) p)) [
        | inl overdue ↦ inr (rw overdue)
        | inr recent ↦ inl (rw recent tt)
      ]

      plan_of : List SettlementItem → List Step
      plan_of is = elim is [
        | [] ↦ missing_plan clock p
        | item ∷ items ↦ items_plan p (item ∷ items)
      ]

      by_items :
          (is : List SettlementItem)
          → All IsPrompt (plan_of is)
            ⊎ (plan_of is ≡ report_later (missing_settlement_discrepancy p) ∷ [])
      by_items [] = missing_cases
      by_items (i ∷ is) = inl (items_plan-IsPrompt p (i ∷ is))

  payment_plan-source : All (About (HasSource p.id)) (payment_plan clock p)
  unfolding payment_plan missing_plan
  payment_plan-source = by_items p.settlement_items
    where
      missing : All (About (HasSource p.id)) (missing_plan clock p)
      missing = elim (Bool-cases (PaymentSettlement.is_overdue (clock p) p)) [
        | inl overdue ↦ rw overdue (unfold missing_settlement_discrepancy in (refl, tt))
        | inr recent ↦ rw recent tt
      ]

      by_items :
          (is : List SettlementItem)
          → All
              (About (HasSource p.id))
              (elim is [ [] ↦ missing_plan clock p | item ∷ items ↦ items_plan p (item ∷ items) ])
      by_items [] = missing
      by_items (i ∷ is) =
          All-items_plan (HasSource p.id) p (i ∷ is) (λ info. unfold item_discrepancy in refl)

abbrev IsOtherRule : DiscrepancyColumns → Type 0
IsOtherRule c = (c.rule_code == "PAYMENT_MISSING_SETTLEMENT_001") ≡ false

maybe_report-IsPrompt : (found : Option DiscrepancyColumns) → All IsPrompt (maybe_report found)
maybe_report-IsPrompt none = tt
maybe_report-IsPrompt (some c) = (tt, tt)

-- A step of a settlement: flushed, and under a rule of its own.
abbrev IsSettled : Step → Type 0
IsSettled x = IsPrompt x × About IsOtherRule x

abbrev FoundSettled : Option DiscrepancyColumns → Type 0
FoundSettled found = All IsSettled (maybe_report found)

module _ (b : Settlement) where
  fee-settled : FoundSettled (fee_discrepancy b)
  unfolding fee_discrepancy settlement_discrepancy
  fee-settled = by_amount (SettlementBank.truthy b.actual_settled_amount)
    where
      fee_row : ℤ → Option DiscrepancyColumns
      fee_row actual = some (
          settlement_discrepancy b "SETTLEMENT_FEE_MISMATCH_001" fee_mismatch medium none
            (some (SettlementBank.expected_net b)) (some actual))

      by_amount :
          (o : Option ℤ)
          → FoundSettled (elim o [
            | none ↦ none
            | some actual ↦
                if not (SettlementBank.expected_net b == actual) then fee_row actual else none
          ])
      by_amount none = tt
      by_amount (some actual) =
          if_both FoundSettled (not (SettlementBank.expected_net b == actual)) (fee_row actual) none
            ((tt, refl), tt) tt

  bank-settled : (t : BankTransaction) → FoundSettled (bank_discrepancy b t)
  unfolding bank_discrepancy settlement_discrepancy
  bank-settled t = elim (Bool-cases (not (t.amount == SettlementBank.amount_to_match b))) [
    | inl e ↦ rw e ((tt, refl), tt)
    | inr e ↦
        rw e
          (elim (Bool-cases
            (ltb_ℤ (pos 3) (SettlementBank.days_between t.transaction_date b.settlement_date))) [
              | inl late ↦ rw late ((tt, refl), tt)
              | inr timely ↦ rw timely (elim (Bool-cases (not (b.currency == t.currency))) [
                | inl other ↦ rw other ((tt, refl), tt)
                | inr same ↦ rw same tt
              ])
            ])
  ]

  transactions_plan-IsSettled : (ts : List BankTransaction) → All IsSettled (transactions_plan b ts)
  unfolding transactions_plan transaction_plan
  transactions_plan-IsSettled [] = tt
  transactions_plan-IsSettled (t ∷ ts) =
      All-append IsSettled (transaction_plan b t) (transactions_plan b ts)
        (All-append IsSettled (maybe_report (bank_discrepancy b t)) _ (bank-settled t)
          ((tt, tt), tt))
        (transactions_plan-IsSettled ts)

  bank_plan-IsSettled : (clock : Settlement → ℕ) → All IsSettled (bank_plan clock b)
  unfolding bank_plan
  bank_plan-IsSettled clock = by_transactions b.bank_transactions
    where
      missing : List Step
      missing =
          if SettlementBank.is_overdue (clock b) b
          then report (missing_bank_discrepancy b) ∷ []
          else []

      by_transactions :
          (ts : List BankTransaction)
          → All IsSettled (elim ts [ [] ↦ missing | t ∷ ts' ↦ transactions_plan b (t ∷ ts') ])
      by_transactions [] =
          if_both (All IsSettled) (SettlementBank.is_overdue (clock b) b)
            (report (missing_bank_discrepancy b) ∷ []) []
            (unfold missing_bank_discrepancy settlement_discrepancy in ((tt, refl), tt)) tt
      by_transactions (t ∷ ts) = transactions_plan-IsSettled (t ∷ ts)

settlements_plan-IsSettled :
    (clock : Settlement → ℕ) (bs : List Settlement) → All IsSettled (settlements_plan clock bs)
unfolding settlements_plan settlement_plan
settlements_plan-IsSettled clock [] = tt
settlements_plan-IsSettled clock (b ∷ bs) =
    All-append IsSettled (settlement_plan clock b) (settlements_plan clock bs)
      (All-append IsSettled (maybe_report (fee_discrepancy b)) (bank_plan clock b) (fee-settled b)
        (bank_plan-IsSettled b clock))
      (settlements_plan-IsSettled clock bs)

module _ (p : Payment) where
  -- The unflushed row of a payment is asked for neither by another payment nor by a settlement.
  other_source :
      (x : Step) (id : String)
      → p.id ≢ id
      → About (HasSource id) x
      → Differs (missing_settlement_discrepancy p) x
  unfolding missing_settlement_discrepancy
  other_source (relate c) id ne h = tt
  other_source (report c) id ne h = λ e. ne (ap (λ (k : String × String). k.0) e ∙ h)
  other_source (report_later c) id ne h = λ e. ne (ap (λ (k : String × String). k.0) e ∙ h)

  other_rule : (x : Step) → IsSettled x → Differs (missing_settlement_discrepancy p) x
  unfolding missing_settlement_discrepancy
  other_rule (relate c) h = tt
  other_rule (report c) h = λ e. rule_clash (ap (λ (k : String × String). k.1) e) h.1
    where
      rule_clash : "PAYMENT_MISSING_SETTLEMENT_001" ≡ c.rule_code → IsOtherRule c → ⊥
      rule_clash e k = false≢true (sym k ∙ rw (← e))
  other_rule (report_later c) h = absurd h.0

  payments_plan-Differs :
      (clock : Payment → ℕ) (qs : List Payment)
      → All (λ q. p.id ≢ q.id) qs
      → All (Differs (missing_settlement_discrepancy p)) (payments_plan clock qs)
  unfolding payments_plan
  payments_plan-Differs clock [] h = tt
  payments_plan-Differs clock (q ∷ qs) h =
      All-append (Differs (missing_settlement_discrepancy p)) (payment_plan clock q)
        (payments_plan clock qs)
        (All-imp (About (HasSource q.id)) (Differs (missing_settlement_discrepancy p))
          (λ x. other_source x q.id h.0) (payment_plan clock q) (payment_plan-source clock q))
        (payments_plan-Differs clock qs h.1)

module _ (clock : Payment → ℕ) (zs : List Step) (settled : All IsSettled zs) where
  payments_plan-IsApart :
      (ps : List Payment) → HasDistinctIds ps → IsApart zs → IsApart (payments_plan clock ps ++ zs)
  unfolding payments_plan
  payments_plan-IsApart [] h k = k
  payments_plan-IsApart (p ∷ ps) h k =
      let rest = payments_plan-IsApart ps h.1 k in
      rw append_assoc (elim (payment_plan-cases clock p) [
        | inl prompt ↦
            prompt-IsApart (payment_plan clock p) (payments_plan clock ps ++ zs) prompt rest
        | inr missing ↦ rw missing (
            apart_cons
              (All-append (Differs (missing_settlement_discrepancy p)) (payments_plan clock ps) zs
                (payments_plan-Differs p clock ps h.0)
                (All-imp IsSettled (Differs (missing_settlement_discrepancy p)) (other_rule p) zs
                  settled))
              rest)
      ])

-- The plan of a run can be performed, whatever the instants at which it is performed.
pub run_plan-IsApart :
    (clock : Clock) (payments : List Payment) (settlements : List Settlement)
    → HasDistinctIds payments
    → IsApart (run_plan clock payments settlements)
unfolding run_plan
run_plan-IsApart clock payments settlements h =
    let bs = keep (SettlementBank.in_window clock.settlements_start) settlements in
    let zs = settlements_plan clock.at_settlement bs in
    let settled = settlements_plan-IsSettled clock.at_settlement bs in
    payments_plan-IsApart clock.at_payment zs settled
      (keep (PaymentSettlement.in_window clock.payments_start) payments)
      (keep-HasDistinctIds (PaymentSettlement.in_window clock.payments_start) payments h)
      (subst IsApart (append-nil zs)
        (prompt-IsApart zs [] (All-imp IsSettled IsPrompt (λ x k. k.0) zs settled) apart_nil))
