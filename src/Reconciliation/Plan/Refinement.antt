-- ===== src/Reconciliation/Plan/Refinement.antt =====
-- The matchers perform their plan, step by step, and nothing else.
use mathlib.Core.Path.{fun_ext}
use financial_ai_operator.Prelude.{
  sym, Bool, if◌then◌else◌, ℕ, ◌+◌, suc, String, ◌≡◌, refl, ◌∙◌, ap, inl, inr, Bool-cases, none,
  some, List, [], ◌∷◌, ◌++◌, arith, length, Option,
}
use financial_ai_operator.Prelude.Outcome.{Action, pure, ◌>>=◌, bind_assoc, bind_pure, bind_congr}
use financial_ai_operator.Reconciliation.Model.{
  Payment, SettlementItem, Settlement, BankTransaction, DiscrepancyColumns, Stats,
}
use financial_ai_operator.Reconciliation.Session.{
  Error, Session, upsert_relationship, ensure_discrepancy, ensure_discrepancy_later,
  count_relationship, count_discrepancy,
}
use financial_ai_operator.Reconciliation.PaymentSettlement
use financial_ai_operator.Reconciliation.PaymentSettlement.{
  DiscrepancyData, evaluate_item, item_relationship, item_discrepancy,
  missing_settlement_discrepancy,
}
use financial_ai_operator.Reconciliation.SettlementBank
use financial_ai_operator.Reconciliation.SettlementBank.{
  fee_discrepancy, bank_discrepancy, bank_relationship, status_of, missing_bank_discrepancy,
}
use financial_ai_operator.Reconciliation.Plan.{
  Step, relate, report, report_later, perform, perform_all, maybe_report, report_data, item_plan,
  items_plan, payment_plan, payments_plan, missing_plan, transaction_plan, transactions_plan,
  bank_plan, settlement_plan, settlements_plan,
}

abbrev pub bump : ℕ → Stats → Stats
bump n st = record st { processed = st.processed + n }

-- An addition to the counters.
pub record Commutes (g : Stats → Stats) : Type 0 where
  pub relationship :
      (b : Bool) (st : Stats) → count_relationship b (g st) ≡ g (count_relationship b st)
  pub discrepancy :
      (b : Bool) (st : Stats) → count_discrepancy b (g st) ≡ g (count_discrepancy b st)

pub bump-Commutes : (n : ℕ) → Commutes (bump n)
bump-Commutes n = record { relationship = λ b st. ground arith; discrepancy = λ b st. ground arith }

module _ (uuid : ℕ → String) (run_id : String) where
  pub perform_all-append :
      (xs ys : List Step) (st : Stats)
      → perform_all uuid run_id (xs ++ ys) st
        ≡ (perform_all uuid run_id xs st >>= perform_all uuid run_id ys)
  unfolding perform_all
  perform_all-append [] ys st = refl
  perform_all-append (x ∷ xs) ys st =
      bind_congr (perform uuid run_id x st) (perform_all-append xs ys)
      ∙ sym (
          bind_assoc (perform uuid run_id x st) (perform_all uuid run_id xs)
            (perform_all uuid run_id ys))

  -- A list of records handled in turn performs the concatenation of their plans.
  perform_two :
      (xs ys : List Step) (m : Action Session Error Stats) (f : Stats → Action Session Error Stats)
      (st : Stats)
      → m ≡ perform_all uuid run_id xs st
      → ((st' : Stats) → f st' ≡ perform_all uuid run_id ys st')
      → (m >>= f) ≡ perform_all uuid run_id (xs ++ ys) st
  perform_two xs ys m f st first rest = rw (first, fun_ext rest) (sym (perform_all-append xs ys st))

  count_then :
      (m : Action Session Error Bool) (count : Bool → Stats → Stats) (g : Stats → Stats)
      (st : Stats)
      → ((b : Bool) → count b (g st) ≡ g (count b st))
      → (m >>= λ b. pure (count b (g st)))
        ≡ ((m >>= λ b. pure (count b st)) >>= λ st'. pure (g st'))
  count_then m count g st h =
      bind_congr m (λ b. ap pure (h b))
      ∙ sym (bind_assoc m (λ b. pure (count b st)) (λ st'. pure (g st')))

  -- The steps only add to the counters, so what was added before can be added after.
  perform-Commutes :
      (x : Step) (g : Stats → Stats) (st : Stats)
      → Commutes g
      → perform uuid run_id x (g st) ≡ (perform uuid run_id x st >>= λ st'. pure (g st'))
  unfolding perform
  perform-Commutes (relate c) g st h =
      count_then (upsert_relationship uuid run_id c) count_relationship g st
        (λ b. h.relationship b st)
  perform-Commutes (report c) g st h =
      count_then (ensure_discrepancy uuid run_id c) count_discrepancy g st (λ b. h.discrepancy b st)
  perform-Commutes (report_later c) g st h =
      count_then (ensure_discrepancy_later uuid run_id c) count_discrepancy g st
        (λ b. h.discrepancy b st)

  pub perform_all-Commutes :
      (xs : List Step) (g : Stats → Stats) (st : Stats)
      → Commutes g
      → perform_all uuid run_id xs (g st) ≡ (perform_all uuid run_id xs st >>= λ st'. pure (g st'))
  unfolding perform_all
  perform_all-Commutes [] g st h = refl
  perform_all-Commutes (x ∷ xs) g st h =
      ap (λ m. m >>= perform_all uuid run_id xs) (perform-Commutes x g st h)
      ∙ bind_assoc (perform uuid run_id x st) (λ a. pure (g a)) (perform_all uuid run_id xs)
      ∙ bind_congr (perform uuid run_id x st) (λ a. perform_all-Commutes xs g a h)
      ∙ sym (bind_assoc (perform uuid run_id x st) (perform_all uuid run_id xs) (λ a. pure (g a)))

  bump-bump : (n : ℕ) (st : Stats) → bump n (bump 1 st) ≡ bump (suc n) st
  bump-bump n st = ground arith

  -- The same for lists of records, each of which is counted.
  counted_two :
      (xs ys : List Step) (n : ℕ) (m : Action Session Error Stats)
      (f : Stats → Action Session Error Stats) (st : Stats)
      → m ≡ perform_all uuid run_id xs (bump 1 st)
      → ((a : Stats) → f a ≡ perform_all uuid run_id ys (bump n a))
      → (m >>= f) ≡ perform_all uuid run_id (xs ++ ys) (bump (suc n) st)
  counted_two xs ys n m f st first rest =
      ap (λ k. k >>= f) first
      ∙ bind_congr (perform_all uuid run_id xs (bump 1 st)) rest
      ∙ sym (
          bind_assoc (perform_all uuid run_id xs (bump 1 st)) (λ a. pure (bump n a))
            (perform_all uuid run_id ys))
      ∙ ap (λ k. k >>= perform_all uuid run_id ys)
          (sym (perform_all-Commutes xs (bump n) (bump 1 st) (bump-Commutes n)))
      ∙ sym (perform_all-append xs ys (bump n (bump 1 st)))
      ∙ ap (perform_all uuid run_id (xs ++ ys)) (bump-bump n st)

  module _ (clock : Payment → ℕ) where
    report_item-plan :
        (p : Payment) (found : Option DiscrepancyData) (st : Stats)
        → PaymentSettlement.report_item uuid run_id clock p found st
          ≡ perform_all uuid run_id (report_data p found) st
    unfolding PaymentSettlement.report_item perform_all perform
    report_item-plan p none st = refl
    report_item-plan p (some info) st =
        sym (bind_pure (perform uuid run_id (report (item_discrepancy p info)) st))

    match_item-plan :
        (p : Payment) (i : SettlementItem) (st : Stats)
        → PaymentSettlement.match_item uuid run_id clock p i st
          ≡ perform_all uuid run_id (item_plan p i) st
    unfolding PaymentSettlement.match_item item_plan perform_all perform
    match_item-plan p i st =
        let related = item_relationship p i (evaluate_item p i).0 in
        bind_congr (upsert_relationship uuid run_id related)
          (λ created. report_item-plan p (evaluate_item p i).1 (count_relationship created st))
        ∙ sym (
            bind_assoc (upsert_relationship uuid run_id related)
              (λ created. pure (count_relationship created st))
              (perform_all uuid run_id (report_data p (evaluate_item p i).1)))

    match_items-plan :
        (p : Payment) (is : List SettlementItem) (st : Stats)
        → PaymentSettlement.match_items uuid run_id clock p is st
          ≡ perform_all uuid run_id (items_plan p is) st
    unfolding PaymentSettlement.match_items items_plan
    match_items-plan p [] st = unfold perform_all in refl
    match_items-plan p (i ∷ is) st =
        perform_two (item_plan p i) (items_plan p is)
          (PaymentSettlement.match_item uuid run_id clock p i st)
          (PaymentSettlement.match_items uuid run_id clock p is) st (match_item-plan p i st)
          (match_items-plan p is)

    report_missing-plan :
        (p : Payment) (st : Stats)
        → PaymentSettlement.report_missing uuid run_id clock p st
          ≡ perform_all uuid run_id (missing_plan clock p) st
    unfolding PaymentSettlement.report_missing missing_plan
    report_missing-plan p st = elim (Bool-cases (PaymentSettlement.is_overdue (clock p) p)) [
      | inl overdue ↦ rw overdue (
          unfold perform_all perform in
          sym
            (bind_pure (perform uuid run_id (report_later (missing_settlement_discrepancy p)) st)))
      | inr recent ↦ rw recent (unfold perform_all in refl)
    ]

    match_payment-plan :
        (p : Payment) (st : Stats)
        → PaymentSettlement.match_payment uuid run_id clock p st
          ≡ perform_all uuid run_id (payment_plan clock p) (bump 1 st)
    unfolding PaymentSettlement.match_payment payment_plan
    match_payment-plan p st = by_items p.settlement_items
      where
        by_items :
            (is : List SettlementItem)
            → ◌≡◌ {A = Action Session Error Stats}
                (elim is [
                  | [] ↦ PaymentSettlement.report_missing uuid run_id clock p (bump 1 st)
                  | item ∷ items ↦
                      PaymentSettlement.match_items uuid run_id clock p (item ∷ items) (bump 1 st)
                ])
                (perform_all uuid run_id
                  (elim is [
                    | [] ↦ missing_plan clock p
                    | item ∷ items ↦ items_plan p (item ∷ items)
                  ])
                  (bump 1 st))
        by_items [] = report_missing-plan p (bump 1 st)
        by_items (i ∷ is) = match_items-plan p (i ∷ is) (bump 1 st)

    pub match_payments-plan :
        (ps : List Payment) (st : Stats)
        → PaymentSettlement.match_payments uuid run_id clock ps st
          ≡ perform_all uuid run_id (payments_plan clock ps) (bump (length ps) st)
    unfolding PaymentSettlement.match_payments payments_plan
    match_payments-plan [] st = unfold perform_all in ap pure (ground arith)
    match_payments-plan (p ∷ ps) st =
        counted_two (payment_plan clock p) (payments_plan clock ps) (length ps)
          (PaymentSettlement.match_payment uuid run_id clock p st)
          (PaymentSettlement.match_payments uuid run_id clock ps) st (match_payment-plan p st)
          (match_payments-plan ps)

  module _ (clock : Settlement → ℕ) where
    settlement_report-plan :
        (found : Option DiscrepancyColumns) (st : Stats)
        → SettlementBank.report uuid run_id clock found st
          ≡ perform_all uuid run_id (maybe_report found) st
    unfolding SettlementBank.report perform_all perform
    settlement_report-plan none st = refl
    settlement_report-plan (some c) st = sym (bind_pure (perform uuid run_id (report c) st))

    match_transaction-plan :
        (b : Settlement) (t : BankTransaction) (st : Stats)
        → SettlementBank.match_transaction uuid run_id clock b t st
          ≡ perform_all uuid run_id (transaction_plan b t) st
    unfolding SettlementBank.match_transaction transaction_plan
    match_transaction-plan b t st =
        let found = bank_discrepancy b t in
        let related = bank_relationship b t (status_of found) in
        perform_two (maybe_report found) (relate related ∷ [])
          (SettlementBank.report uuid run_id clock found st)
          (λ st'. upsert_relationship uuid run_id related >>= λ created.
            pure (count_relationship created st'))
          st (settlement_report-plan found st)
          (λ st'.
            unfold perform_all perform in
            sym (bind_pure (perform uuid run_id (relate related) st')))

    match_transactions-plan :
        (b : Settlement) (ts : List BankTransaction) (st : Stats)
        → SettlementBank.match_transactions uuid run_id clock b ts st
          ≡ perform_all uuid run_id (transactions_plan b ts) st
    unfolding SettlementBank.match_transactions transactions_plan
    match_transactions-plan b [] st = unfold perform_all in refl
    match_transactions-plan b (t ∷ ts) st =
        perform_two (transaction_plan b t) (transactions_plan b ts)
          (SettlementBank.match_transaction uuid run_id clock b t st)
          (SettlementBank.match_transactions uuid run_id clock b ts) st
          (match_transaction-plan b t st) (match_transactions-plan b ts)

    match_bank_side-plan :
        (b : Settlement) (st : Stats)
        → SettlementBank.match_bank_side uuid run_id clock b st
          ≡ perform_all uuid run_id (bank_plan clock b) st
    unfolding SettlementBank.match_bank_side bank_plan
    match_bank_side-plan b st = by_transactions b.bank_transactions
      where
        missing :
            SettlementBank.report_missing uuid run_id clock b st
            ≡ perform_all uuid run_id
                (if SettlementBank.is_overdue (clock b) b
                  then report (missing_bank_discrepancy b) ∷ []
                  else [])
                st
        missing =
            unfold SettlementBank.report_missing in
            elim (Bool-cases (SettlementBank.is_overdue (clock b) b)) [
              | inl overdue ↦
                  rw overdue (settlement_report-plan (some (missing_bank_discrepancy b)) st)
              | inr recent ↦ rw recent (unfold perform_all in refl)
            ]

        by_transactions :
            (ts : List BankTransaction)
            → ◌≡◌ {A = Action Session Error Stats}
                (elim ts [
                  | [] ↦ SettlementBank.report_missing uuid run_id clock b st
                  | t ∷ ts' ↦ SettlementBank.match_transactions uuid run_id clock b (t ∷ ts') st
                ])
                (perform_all uuid run_id
                  (elim ts [
                    | [] ↦
                        (if SettlementBank.is_overdue (clock b) b
                          then report (missing_bank_discrepancy b) ∷ []
                          else [])
                    | t ∷ ts' ↦ transactions_plan b (t ∷ ts')
                  ])
                  st)
        by_transactions [] = missing
        by_transactions (t ∷ ts) = match_transactions-plan b (t ∷ ts) st

    match_settlement-plan :
        (b : Settlement) (st : Stats)
        → SettlementBank.match_settlement uuid run_id clock b st
          ≡ perform_all uuid run_id (settlement_plan clock b) (bump 1 st)
    unfolding SettlementBank.match_settlement settlement_plan
    match_settlement-plan b st =
        perform_two (maybe_report (fee_discrepancy b)) (bank_plan clock b)
          (SettlementBank.report uuid run_id clock (fee_discrepancy b) (bump 1 st))
          (SettlementBank.match_bank_side uuid run_id clock b) (bump 1 st)
          (settlement_report-plan (fee_discrepancy b) (bump 1 st)) (match_bank_side-plan b)

    pub match_settlements-plan :
        (bs : List Settlement) (st : Stats)
        → SettlementBank.match_settlements uuid run_id clock bs st
          ≡ perform_all uuid run_id (settlements_plan clock bs) (bump (length bs) st)
    unfolding SettlementBank.match_settlements settlements_plan
    match_settlements-plan [] st = unfold perform_all in ap pure (ground arith)
    match_settlements-plan (b ∷ bs) st =
        counted_two (settlement_plan clock b) (settlements_plan clock bs) (length bs)
          (SettlementBank.match_settlement uuid run_id clock b st)
          (SettlementBank.match_settlements uuid run_id clock bs) st (match_settlement-plan b st)
          (match_settlements-plan bs)
