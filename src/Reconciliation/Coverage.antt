-- ===== src/Reconciliation/Coverage.antt =====
-- No mismatch in its window goes without a discrepancy, whatever the tables held before.
use mathlib.Core.List.{Memᴰ}
use mathlib.Core.Path.{subst}
use financial_ai_operator.Prelude.{
  ℕ, ◌+◌, ◌<◌, String, ◌≡◌, ◌≢◌, refl, sym, ap, ◌∙◌, inl, inr, Bool, true, false, Bool-cases, ltb,
  none, some, List, [], ◌∷◌, string_eq, pair_eq, ==_false, All, All-append_left, All-append_right,
  keep, keep-cons_true, keep-cons_false, lt→ltb, if◌then◌else◌,
}
use financial_ai_operator.Prelude.Int.{int_eq}
use financial_ai_operator.Reconciliation.Model.{
  days, Payment, SettlementItem, Settlement, BankTransaction,
}
use financial_ai_operator.Reconciliation.Session.{Session}
use financial_ai_operator.Reconciliation.PaymentSettlement
use financial_ai_operator.Reconciliation.PaymentSettlement.{
  evaluate_item, item_relationship, item_discrepancy, missing_settlement_discrepancy,
}
use financial_ai_operator.Reconciliation.SettlementBank
use financial_ai_operator.Reconciliation.SettlementBank.{
  missing_bank_discrepancy, fee_discrepancy, bank_discrepancy, settlement_discrepancy,
  bank_relationship,
}
use financial_ai_operator.Reconciliation.Engine.{Clock, run_reconciliation}
use financial_ai_operator.Reconciliation.Plan.{
  Step, report, report_later, maybe_report, item_plan, items_plan, payment_plan, payments_plan,
  settlements_plan, settlement_plan, bank_plan, transactions_plan, transaction_plan, missing_plan,
  run_plan,
}
use financial_ai_operator.Reconciliation.Plan.Apart.{HasDistinctIds}
use financial_ai_operator.Reconciliation.Ledger.{Ledger, view}
use financial_ai_operator.Reconciliation.Ledger.Laws.{IsNoted, HasRelationship, HasDiscrepancy}
use financial_ai_operator.Reconciliation.Guarantees.{run-IsNoted}
use financial_ai_operator.Reconciliation.Run.{IsReady}

-- Looking a record up in the plan.
module _ (P : Step → Type 0) (clock : Payment → ℕ) (test : Payment → Bool) where
  All-payment_plan :
      (p : Payment) (ps : List Payment)
      → All P (payments_plan clock (keep test ps))
      → Memᴰ p ps
      → test p ≡ true
      → All P (payment_plan clock p)
  unfolding payments_plan
  All-payment_plan p [] h m kept = elim m [ ]
  All-payment_plan p (q ∷ qs) h (Memᴰ.head e) kept =
      subst (λ k. All P (payment_plan clock k)) (sym e)
        (All-append_left P (payment_plan clock q) (payments_plan clock (keep test qs)) (
          subst (λ xs. All P (payments_plan clock xs))
            (keep-cons_true test q qs (sym (ap test e) ∙ kept)) h))
  All-payment_plan p (q ∷ qs) h (Memᴰ.tail m) kept = elim (Bool-cases (test q)) [
    | inl t ↦
        All-payment_plan p qs
          (All-append_right P (payment_plan clock q) (payments_plan clock (keep test qs))
            (subst (λ xs. All P (payments_plan clock xs)) (keep-cons_true test q qs t) h))
          m kept
    | inr t ↦
        All-payment_plan p qs
          (subst (λ xs. All P (payments_plan clock xs)) (keep-cons_false test q qs t) h) m kept
  ]

module _ (P : Step → Type 0) (p : Payment) where
  All-item_plan :
      (i : SettlementItem) (is : List SettlementItem)
      → All P (items_plan p is)
      → Memᴰ i is
      → All P (item_plan p i)
  unfolding items_plan
  All-item_plan i [] h m = elim m [ ]
  All-item_plan i (j ∷ js) h (Memᴰ.head e) =
      subst (λ k. All P (item_plan p k)) (sym e)
        (All-append_left P (item_plan p j) (items_plan p js) h)
  All-item_plan i (j ∷ js) h (Memᴰ.tail m) =
      All-item_plan i js (All-append_right P (item_plan p j) (items_plan p js) h) m

module _ (P : Step → Type 0) (clock : Settlement → ℕ) (test : Settlement → Bool) where
  All-settlement_plan :
      (b : Settlement) (bs : List Settlement)
      → All P (settlements_plan clock (keep test bs))
      → Memᴰ b bs
      → test b ≡ true
      → All P (settlement_plan clock b)
  unfolding settlements_plan
  All-settlement_plan b [] h m kept = elim m [ ]
  All-settlement_plan b (c ∷ cs) h (Memᴰ.head e) kept =
      subst (λ k. All P (settlement_plan clock k)) (sym e)
        (All-append_left P (settlement_plan clock c) (settlements_plan clock (keep test cs)) (
          subst (λ xs. All P (settlements_plan clock xs))
            (keep-cons_true test c cs (sym (ap test e) ∙ kept)) h))
  All-settlement_plan b (c ∷ cs) h (Memᴰ.tail m) kept = elim (Bool-cases (test c)) [
    | inl t ↦
        All-settlement_plan b cs
          (All-append_right P (settlement_plan clock c) (settlements_plan clock (keep test cs))
            (subst (λ xs. All P (settlements_plan clock xs)) (keep-cons_true test c cs t) h))
          m kept
    | inr t ↦
        All-settlement_plan b cs
          (subst (λ xs. All P (settlements_plan clock xs)) (keep-cons_false test c cs t) h) m kept
  ]

module _ (P : Step → Type 0) (b : Settlement) where
  All-transaction_plan :
      (t : BankTransaction) (ts : List BankTransaction)
      → All P (transactions_plan b ts)
      → Memᴰ t ts
      → All P (transaction_plan b t)
  unfolding transactions_plan
  All-transaction_plan t [] h m = elim m [ ]
  All-transaction_plan t (u ∷ us) h (Memᴰ.head e) =
      subst (λ k. All P (transaction_plan b k)) (sym e)
        (All-append_left P (transaction_plan b u) (transactions_plan b us) h)
  All-transaction_plan t (u ∷ us) h (Memᴰ.tail m) =
      All-transaction_plan t us
        (All-append_right P (transaction_plan b u) (transactions_plan b us) h) m

payment_plan-items :
    (clock : Payment → ℕ) (p : Payment) (i : SettlementItem) (is : List SettlementItem)
    → p.settlement_items ≡ is
    → Memᴰ i is
    → payment_plan clock p ≡ items_plan p is
unfolding payment_plan
payment_plan-items clock p i [] e m = elim m [ ]
payment_plan-items clock p i (j ∷ js) e m =
    ap (elim [ [] ↦ missing_plan clock p | item ∷ items ↦ items_plan p (item ∷ items) ]) e

bank_plan-transactions :
    (clock : Settlement → ℕ) (b : Settlement) (t : BankTransaction) (ts : List BankTransaction)
    → b.bank_transactions ≡ ts
    → Memᴰ t ts
    → bank_plan clock b ≡ transactions_plan b ts
unfolding bank_plan
bank_plan-transactions clock b t [] e m = elim m [ ]
bank_plan-transactions clock b t (u ∷ us) e m =
    ap (elim [ [] ↦ missing | btx ∷ bank_txs ↦ transactions_plan b (btx ∷ bank_txs) ]) e
  where
    missing : List Step
    missing =
        if SettlementBank.is_overdue (clock b) b
        then report (missing_bank_discrepancy b) ∷ []
        else []

is_overdue-late :
    (now at : ℕ) (p : Payment)
    → p.processed_at ≡ some at
    → at + days 3 < now
    → PaymentSettlement.is_overdue now p ≡ true
unfolding PaymentSettlement.is_overdue
is_overdue-late now at p processed late =
    ap (elim [ none ↦ false | some t ↦ ltb (t + days 3) now ]) processed
    ∙ lt→ltb (at + days 3) now late

payment_plan-missing :
    (clock : Payment → ℕ) (p : Payment)
    → p.settlement_items ≡ []
    → PaymentSettlement.is_overdue (clock p) p ≡ true
    → payment_plan clock p ≡ report_later (missing_settlement_discrepancy p) ∷ []
unfolding payment_plan missing_plan
payment_plan-missing clock p none_found overdue =
    ap (elim [ [] ↦ missing_plan clock p | item ∷ items ↦ items_plan p (item ∷ items) ]) none_found
    ∙ rw overdue

item_plan-mismatch :
    (p : Payment) (i : SettlementItem) (l : Ledger)
    → p.amount ≢ i.amount
    → All (IsNoted l) (item_plan p i)
    → HasRelationship (p.id, (i.settlement_id, "PAYMENT_TO_SETTLEMENT")) l
      × HasDiscrepancy (p.id, "PAYMENT_SETTLEMENT_AMOUNT_001") l
unfolding item_plan item_relationship evaluate_item item_discrepancy
item_plan-mismatch p i l ne h = let n = rw (==_false p.amount i.amount ne) at h in (n.0, n.1.0)

transaction_plan-mismatch :
    (b : Settlement) (t : BankTransaction) (l : Ledger)
    → t.amount ≢ SettlementBank.amount_to_match b
    → All (IsNoted l) (transaction_plan b t)
    → HasRelationship (b.id, (t.id, "SETTLEMENT_TO_BANK")) l
      × HasDiscrepancy (b.id, "SETTLEMENT_BANK_AMOUNT_001") l
unfolding transaction_plan bank_discrepancy settlement_discrepancy bank_relationship
transaction_plan-mismatch b t l ne h =
    let n = rw (==_false t.amount (SettlementBank.amount_to_match b) ne) at h in (n.1.0, n.0)

module _ (uuid : ℕ → String) (run_id : String) (clock : Clock) (payments : List Payment)
    (settlements : List Settlement) (s : Session) where
  abbrev after : Ledger
  after = view (run_reconciliation uuid run_id clock payments settlements s).1

  payment-IsNoted :
      (p : Payment)
      → HasDistinctIds payments
      → IsReady s
      → Memᴰ p payments
      → PaymentSettlement.in_window clock.payments_start p ≡ true
      → All (IsNoted after) (payment_plan clock.at_payment p)
  unfolding run_plan
  payment-IsNoted p ids ready m kept =
      All-payment_plan (IsNoted after) clock.at_payment
        (PaymentSettlement.in_window clock.payments_start) p payments
        (All-append_left (IsNoted after)
          (payments_plan clock.at_payment
            (keep (PaymentSettlement.in_window clock.payments_start) payments))
          _ (run-IsNoted uuid run_id clock payments settlements s ids ready))
        m kept

  settlement-IsNoted :
      (b : Settlement)
      → HasDistinctIds payments
      → IsReady s
      → Memᴰ b settlements
      → SettlementBank.in_window clock.settlements_start b ≡ true
      → All (IsNoted after) (settlement_plan clock.at_settlement b)
  unfolding run_plan
  settlement-IsNoted b ids ready m kept =
      All-settlement_plan (IsNoted after) clock.at_settlement
        (SettlementBank.in_window clock.settlements_start) b settlements
        (All-append_right (IsNoted after)
          (payments_plan clock.at_payment
            (keep (PaymentSettlement.in_window clock.payments_start) payments))
          _ (run-IsNoted uuid run_id clock payments settlements s ids ready))
        m kept

  -- If no two payments share an identifier, nothing waits for a flush and no key stands twice in
  -- the tables, then after a run an item of a payment in the window, whose amount is not the
  -- payment's, has its relationship from the payment to the item's settlement, and the payment
  -- has a discrepancy under the amount rule.
  pub amount_mismatch_recorded :
      (p : Payment) (i : SettlementItem)
      → HasDistinctIds payments
      → IsReady s
      → Memᴰ p payments
      → PaymentSettlement.in_window clock.payments_start p ≡ true
      → Memᴰ i p.settlement_items
      → p.amount ≢ i.amount
      → HasRelationship (p.id, (i.settlement_id, "PAYMENT_TO_SETTLEMENT")) after
        × HasDiscrepancy (p.id, "PAYMENT_SETTLEMENT_AMOUNT_001") after
  amount_mismatch_recorded p i ids ready m kept mi ne = item_plan-mismatch p i after ne (
      All-item_plan (IsNoted after) p i p.settlement_items
        (subst (All (IsNoted after))
          (payment_plan-items clock.at_payment p i p.settlement_items refl mi)
          (payment-IsNoted p ids ready m kept))
        mi)

  -- If no two payments share an identifier, nothing waits for a flush and no key stands twice in
  -- the tables, then after a run a payment in the window that has no settlement item, and was
  -- processed more than three days before the run came to it, has a discrepancy under the rule
  -- of missing settlements.
  pub missing_settlement_recorded :
      (p : Payment) (at : ℕ)
      → HasDistinctIds payments
      → IsReady s
      → Memᴰ p payments
      → PaymentSettlement.in_window clock.payments_start p ≡ true
      → p.settlement_items ≡ []
      → p.processed_at ≡ some at
      → at + days 3 < clock.at_payment p
      → HasDiscrepancy (p.id, "PAYMENT_MISSING_SETTLEMENT_001") after
  unfolding missing_settlement_discrepancy
  missing_settlement_recorded p at ids ready m kept empty processed late =
      let overdue = is_overdue-late (clock.at_payment p) at p processed late in
      (subst (All (IsNoted after)) (payment_plan-missing clock.at_payment p empty overdue)
        (payment-IsNoted p ids ready m kept)).0

  -- If no two payments share an identifier, nothing waits for a flush and no key stands twice in
  -- the tables, then after a run a bank transaction of a settlement in the window, whose amount is
  -- not the amount to match, has its relationship from the settlement, and the settlement has a
  -- discrepancy under the bank amount rule.
  pub bank_mismatch_recorded :
      (b : Settlement) (t : BankTransaction)
      → HasDistinctIds payments
      → IsReady s
      → Memᴰ b settlements
      → SettlementBank.in_window clock.settlements_start b ≡ true
      → Memᴰ t b.bank_transactions
      → t.amount ≢ SettlementBank.amount_to_match b
      → HasRelationship (b.id, (t.id, "SETTLEMENT_TO_BANK")) after
        × HasDiscrepancy (b.id, "SETTLEMENT_BANK_AMOUNT_001") after
  unfolding settlement_plan
  bank_mismatch_recorded b t ids ready m kept mt ne = transaction_plan-mismatch b t after ne (
      All-transaction_plan (IsNoted after) b t b.bank_transactions
        (subst (All (IsNoted after))
          (bank_plan-transactions clock.at_settlement b t b.bank_transactions refl mt)
          (All-append_right (IsNoted after) (maybe_report (fee_discrepancy b))
            (bank_plan clock.at_settlement b) (settlement-IsNoted b ids ready m kept)))
        mt)
