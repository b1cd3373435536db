-- ===== src/Reconciliation/Rerun.antt =====
-- A run that is repeated over the same records.
use financial_ai_operator.Prelude.{
  ℕ, ◌+◌, ◌≤◌, String, ◌≡◌, refl, sym, ap, ◌∙◌, inl, inr, Bool, true, false, Bool-cases, Option,
  none, some, List, [], ◌∷◌, ◌++◌, arith, string_eq, pair_eq, All, All-imp, All-append,
  All-append_left, All-append_right, keep, leb, if◌then◌else◌,
}
use mathlib.Core.Path.{subst}
use financial_ai_operator.Prelude.Outcome.{ok}
use financial_ai_operator.Prelude.Int.{int_eq}
use financial_ai_operator.Reconciliation.Model.{
  days, Payment, SettlementItem, BankTransaction, Settlement, ReconciliationRun, completed,
}
use financial_ai_operator.Reconciliation.Session.{Session}
use financial_ai_operator.Reconciliation.PaymentSettlement
use financial_ai_operator.Reconciliation.SettlementBank
use financial_ai_operator.Reconciliation.SettlementBank.{fee_discrepancy, missing_bank_discrepancy}
use financial_ai_operator.Reconciliation.Engine.{Clock, run_reconciliation}
use financial_ai_operator.Reconciliation.Plan.{
  Step, report, payment_plan, payments_plan, maybe_report, missing_plan, bank_plan, settlement_plan,
  settlements_plan, run_plan,
}
use financial_ai_operator.Reconciliation.Plan.Apart.{HasDistinctIds}
use financial_ai_operator.Reconciliation.Ledger.{view}
use financial_ai_operator.Reconciliation.Ledger.Laws.{IsNoted, note_all-done}
use financial_ai_operator.Reconciliation.Run.{candidates, record_of, IsReady, run_refines_ledger}
use financial_ai_operator.Reconciliation.Guarantees.{
  commit, view-commit, run-IsNoted, commit-IsReady,
}

-- The record of a run that found nothing new.
abbrev pub idle_record : String → ℕ → ReconciliationRun
idle_record run_id processed = record {
  id = run_id;
  status = completed;
  total_records_processed = processed + 0;
  matches_created = 0;
  discrepancies_found = 0;
}

-- From one run's instants to the other's the windows only move on, and the same records are
-- overdue.
pub record NothingFallsDue (clock clock' : Clock) (payments : List Payment)
    (settlements : List Settlement) : Type 0 where
  pub payments_later : clock.payments_start ≤ clock'.payments_start
  pub settlements_later : clock.settlements_start ≤ clock'.settlements_start
  pub payments_due :
      All
        (λ p.
          PaymentSettlement.is_overdue (clock'.at_payment p) p
          ≡ PaymentSettlement.is_overdue (clock.at_payment p) p)
        payments
  pub settlements_due :
      All
        (λ b.
          SettlementBank.is_overdue (clock'.at_settlement b) b
          ≡ SettlementBank.is_overdue (clock.at_settlement b) b)
        settlements

-- The steps for the records of a list, one record after another.
flat : {A : Type 0} → (A → List Step) → List A → List Step
flat plan [] = []
flat plan (x ∷ xs) = plan x ++ flat plan xs

payments_plan-flat :
    (clock : Payment → ℕ) (ps : List Payment)
    → payments_plan clock ps ≡ flat (payment_plan clock) ps
unfolding payments_plan flat
payments_plan-flat clock [] = refl
payments_plan-flat clock (p ∷ ps) =
    ap (λ l. payment_plan clock p ++ l) (payments_plan-flat clock ps)

settlements_plan-flat :
    (clock : Settlement → ℕ) (bs : List Settlement)
    → settlements_plan clock bs ≡ flat (settlement_plan clock) bs
unfolding settlements_plan flat
settlements_plan-flat clock [] = refl
settlements_plan-flat clock (b ∷ bs) =
    ap (λ l. settlement_plan clock b ++ l) (settlements_plan-flat clock bs)

module _ {A : Type 0} (P : Step → Type 0) (plan plan' : A → List Step) (test test' : A → Bool)
    (narrower : (x : A) → test' x ≡ true → test x ≡ true) where
  -- What holds of the steps for the records that one test keeps holds of those for a narrower test.
  All-flat :
      (xs : List A)
      → All (λ x. plan' x ≡ plan x) xs
      → All P (flat plan (keep test xs))
      → All P (flat plan' (keep test' xs))
  unfolding flat
  All-flat [] same h = tt
  All-flat (x ∷ xs) same h = elim (Bool-cases (test' x)) [
    | inl t' ↦
        let t = narrower x t' in
        let h' : All P (plan x ++ flat plan (keep test xs)) = rw t at h in
        let own : All P (plan' x) =
          subst (All P) (sym same.0) (All-append_left P (plan x) (flat plan (keep test xs)) h') in
        let rest = All-flat xs same.1 (All-append_right P (plan x) (flat plan (keep test xs)) h') in
        rw t' (All-append P (plan' x) (flat plan' (keep test' xs)) own rest)
    | inr f' ↦ elim (Bool-cases (test x)) [
      | inl t ↦
          let h' : All P (plan x ++ flat plan (keep test xs)) = rw t at h in
          let rest =
            All-flat xs same.1 (All-append_right P (plan x) (flat plan (keep test xs)) h') in
          rw f' rest
      | inr f ↦
          let h' : All P (flat plan (keep test xs)) = rw f at h in rw f' (All-flat xs same.1 h')
    ]
  ]

payment_plan-missing :
    (clock : Payment → ℕ) (p : Payment)
    → p.settlement_items ≡ []
    → payment_plan clock p ≡ missing_plan clock p
unfolding payment_plan
payment_plan-missing clock p e = rw e refl

bank_plan-missing :
    (clock : Settlement → ℕ) (b : Settlement)
    → b.bank_transactions ≡ []
    → bank_plan clock b ≡ (
        if SettlementBank.is_overdue (clock b) b
        then report (missing_bank_discrepancy b) ∷ []
        else [])
unfolding bank_plan
bank_plan-missing clock b e = rw e refl

payment_plan-same :
    (clock clock' : Payment → ℕ) (p : Payment)
    → PaymentSettlement.is_overdue (clock' p) p ≡ PaymentSettlement.is_overdue (clock p) p
    → payment_plan clock' p ≡ payment_plan clock p
unfolding payment_plan missing_plan
payment_plan-same clock clock' p e = go p.settlement_items refl
  where
    go :
        (l : List SettlementItem)
        → p.settlement_items ≡ l
        → payment_plan clock' p ≡ payment_plan clock p
    go [] k =
        payment_plan-missing clock' p k
        ∙ rw (missing_plan, e) refl
        ∙ sym (payment_plan-missing clock p k)
    go (i ∷ is) k = rw k refl

settlement_plan-same :
    (clock clock' : Settlement → ℕ) (b : Settlement)
    → SettlementBank.is_overdue (clock' b) b ≡ SettlementBank.is_overdue (clock b) b
    → settlement_plan clock' b ≡ settlement_plan clock b
unfolding settlement_plan bank_plan
settlement_plan-same clock clock' b e =
    ap (λ l. maybe_report (fee_discrepancy b) ++ l) (go b.bank_transactions refl)
  where
    go :
        (l : List BankTransaction)
        → b.bank_transactions ≡ l
        → bank_plan clock' b ≡ bank_plan clock b
    go [] k = bank_plan-missing clock' b k ∙ rw e refl ∙ sym (bank_plan-missing clock b k)
    go (t ∷ ts) k = rw k refl

payments_narrower :
    (n n' : ℕ)
    → n ≤ n'
    → (p : Payment) → PaymentSettlement.in_window n' p ≡ true
    → PaymentSettlement.in_window n p ≡ true
unfolding PaymentSettlement.in_window
payments_narrower n n' le p h = go p.processed_at refl
  where
    go : (o : Option ℕ) → p.processed_at ≡ o → PaymentSettlement.in_window n p ≡ true
    go none k = let h' : false ≡ true = rw k at h in cc
    go (some at) k = let h' : leb n' (at + days 14) ≡ true = rw k at h in rw k (ground arith)

settlements_narrower :
    (n n' : ℕ)
    → n ≤ n'
    → (b : Settlement) → SettlementBank.in_window n' b ≡ true
    → SettlementBank.in_window n b ≡ true
unfolding SettlementBank.in_window
settlements_narrower n n' le b h = ground arith

-- The later run asks for nothing that the earlier one did not ask for.
run_plan-covers :
    (P : Step → Type 0) (clock clock' : Clock) (payments : List Payment)
    (settlements : List Settlement)
    → NothingFallsDue clock clock' payments settlements
    → All P (run_plan clock payments settlements)
    → All P (run_plan clock' payments settlements)
unfolding run_plan
run_plan-covers P clock clock' payments settlements still h =
    let test = PaymentSettlement.in_window clock.payments_start in
    let test' = PaymentSettlement.in_window clock'.payments_start in
    let kept = SettlementBank.in_window clock.settlements_start in
    let kept' = SettlementBank.in_window clock'.settlements_start in
    let ps = payments_plan clock.at_payment (keep test payments) in
    let bs = settlements_plan clock.at_settlement (keep kept settlements) in
    let first =
      All-flat P (payment_plan clock.at_payment) (payment_plan clock'.at_payment) test test'
        (payments_narrower clock.payments_start clock'.payments_start still.payments_later) payments
        (All-imp
          (λ p.
            PaymentSettlement.is_overdue (clock'.at_payment p) p
            ≡ PaymentSettlement.is_overdue (clock.at_payment p) p)
          (λ p. payment_plan clock'.at_payment p ≡ payment_plan clock.at_payment p)
          (payment_plan-same clock.at_payment clock'.at_payment) payments still.payments_due)
        (subst (All P) (payments_plan-flat clock.at_payment (keep test payments))
          (All-append_left P ps bs h)) in
    let second =
      All-flat P (settlement_plan clock.at_settlement) (settlement_plan clock'.at_settlement) kept
        kept'
        (settlements_narrower clock.settlements_start clock'.settlements_start
          still.settlements_later)
        settlements
        (All-imp
          (λ b.
            SettlementBank.is_overdue (clock'.at_settlement b) b
            ≡ SettlementBank.is_overdue (clock.at_settlement b) b)
          (λ b. settlement_plan clock'.at_settlement b ≡ settlement_plan clock.at_settlement b)
          (settlement_plan-same clock.at_settlement clock'.at_settlement) settlements
          still.settlements_due)
        (subst (All P) (settlements_plan-flat clock.at_settlement (keep kept settlements))
          (All-append_right P ps bs h)) in
    All-append P (payments_plan clock'.at_payment (keep test' payments))
      (settlements_plan clock'.at_settlement (keep kept' settlements))
      (subst (All P) (sym (payments_plan-flat clock'.at_payment (keep test' payments))) first)
      (subst (All P) (sym (settlements_plan-flat clock'.at_settlement (keep kept' settlements)))
        second)

-- If no two payments share an identifier, nothing waits for a flush and no key stands twice in
-- the tables, then a second run over the same payments and settlements, after a commit and at
-- instants that are no earlier and at which the same records are overdue, returns a record
-- with no match and no discrepancy, and leaves the rows of the session as they were.
pub rerun_adds_nothing :
    (uuid uuid' : ℕ → String) (run_id run_id' : String) (clock clock' : Clock)
    (payments : List Payment) (settlements : List Settlement) (s : Session)
    → HasDistinctIds payments
    → IsReady s
    → NothingFallsDue clock clock' payments settlements
    → let s' = commit (run_reconciliation uuid run_id clock payments settlements s).1 in
      let again = run_reconciliation uuid' run_id' clock' payments settlements s' in
      (again.0 ≡ ok (idle_record run_id' (candidates clock' payments settlements).processed))
      × (view again.1 ≡ view s')
unfolding candidates
rerun_adds_nothing uuid uuid' run_id run_id' clock clock' payments settlements s ids ready still =
    let plan = run_plan clock payments settlements in
    let later = run_plan clock' payments settlements in
    let start = candidates clock' payments settlements in
    let left = (run_reconciliation uuid run_id clock payments settlements s).1 in
    let ready' = commit-IsReady uuid run_id clock payments settlements s ids ready in
    let m = run_refines_ledger uuid' run_id' clock' payments settlements (commit left) ids ready' in
    let noted =
      subst (λ l. All (IsNoted l) plan) (sym (view-commit left))
        (run-IsNoted uuid run_id clock payments settlements s ids ready) in
    let noted' =
      run_plan-covers (IsNoted (view (commit left))) clock clock' payments settlements still
        noted in
    let idle = note_all-done uuid' run_id' later start (view (commit left)) noted' in
    (
      ap (λ r. r.0) m.returns ∙ ap (λ o. ok (record_of run_id' o.0)) idle,
      ap (λ r. view r.1) m.returns ∙ m.same_view ∙ ap (λ o. o.1) idle,
    )
