-- ===== src/Reconciliation/Run.antt =====
-- What a run of the engine does to what the session holds.
use financial_ai_operator.Prelude.{
  ℕ, ◌+◌, String, ◌≡◌, sym, ap, ◌∙◌, List, [], ◌∷◌, ◌++◌, arith, All, length, keep, string_eq,
  pair_eq,
}
use financial_ai_operator.Prelude.Outcome.{ok, pure, ◌>>=◌, bind_ok, bind_assoc, bind_congr}
use financial_ai_operator.Reconciliation.Model.{Payment, Settlement, ReconciliationRun, Stats}
use financial_ai_operator.Reconciliation.Session.{Session}
use financial_ai_operator.Reconciliation.PaymentSettlement
use financial_ai_operator.Reconciliation.SettlementBank
use financial_ai_operator.Reconciliation.Engine.{Clock, run_record, run_reconciliation}
use financial_ai_operator.Reconciliation.Plan.{
  Step, perform_all, payments_plan, settlements_plan, run_plan,
}
use financial_ai_operator.Reconciliation.Plan.Refinement.{
  bump, bump-Commutes, Commutes, perform_all-append, perform_all-Commutes, match_payments-plan,
  match_settlements-plan,
}
use financial_ai_operator.Reconciliation.Plan.Apart.{HasDistinctIds, run_plan-IsApart}
use financial_ai_operator.Reconciliation.Ledger.{view, note_all}
use financial_ai_operator.Reconciliation.Ledger.Simulation.{
  IsConsistent, IsClear, flushed-IsClear, simulates_all,
}

abbrev pub zero_stats : Stats
zero_stats = record { processed = 0; relationships_created = 0; discrepancies = 0 }

-- The counters with which the matchers start, put together: the records in their windows.
unfoldable pub candidates : Clock → List Payment → List Settlement → Stats
candidates clock payments settlements =
    bump (length (keep (SettlementBank.in_window clock.settlements_start) settlements))
      (bump (length (keep (PaymentSettlement.in_window clock.payments_start) payments)) zero_stats)

abbrev pub record_of : String → Stats → ReconciliationRun
record_of run_id st = run_record run_id st zero_stats

add : Stats → Stats → Stats
add st st' = record {
  processed = st.processed + st'.processed;
  relationships_created = st.relationships_created + st'.relationships_created;
  discrepancies = st.discrepancies + st'.discrepancies;
}

add-Commutes : (st : Stats) → Commutes (add st)
unfolding add
add-Commutes st = record {
  relationship = λ b st'. ground arith;
  discrepancy = λ b st'. ground arith;
}

add-bump : (n : ℕ) (st : Stats) → add st (bump n zero_stats) ≡ bump n st
unfolding add
add-bump n st = ground arith

run_record-add :
    (run_id : String) (st st' : Stats) → run_record run_id st st' ≡ record_of run_id (add st st')
unfolding add
run_record-add run_id st st' = ground arith

no_pending-IsClear : (s : Session) → s.pending ≡ [] → (xs : List Step) → All (IsClear s) xs
no_pending-IsClear s h [] = tt
no_pending-IsClear s h (x ∷ xs) = (flushed-IsClear s h x, no_pending-IsClear s h xs)

-- Between two requests nothing waits for a flush: the session has been committed.
pub record IsReady (s : Session) : Type 0 where
  pub committed : s.pending ≡ []
  pub consistent : IsConsistent (view s)

module _ (uuid : ℕ → String) (run_id : String) where
  second_stretch :
      (ys : List Step) (m : ℕ) (ps : Stats)
      → (perform_all uuid run_id ys (bump m zero_stats) >>= λ sb. pure (run_record run_id ps sb))
        ≡ (perform_all uuid run_id ys (bump m ps) >>= λ st. pure (record_of run_id st))
  second_stretch ys m ps =
      bind_congr (perform_all uuid run_id ys (bump m zero_stats))
        (λ sb. ap pure (run_record-add run_id ps sb))
      ∙ sym (
          bind_assoc (perform_all uuid run_id ys (bump m zero_stats)) (λ sb. pure (add ps sb))
            (λ st. pure (record_of run_id st)))
      ∙ ap (λ k. k >>= λ st. pure (record_of run_id st))
          (sym (perform_all-Commutes uuid run_id ys (add ps) (bump m zero_stats) (add-Commutes ps))
            ∙ ap (perform_all uuid run_id ys) (add-bump m ps))

  joined :
      (xs ys : List Step) (m : ℕ) (st : Stats)
      → (perform_all uuid run_id xs st >>= λ ps. perform_all uuid run_id ys (bump m ps))
        ≡ perform_all uuid run_id (xs ++ ys) (bump m st)
  joined xs ys m st =
      sym (
        bind_assoc (perform_all uuid run_id xs st) (λ ps. pure (bump m ps))
          (perform_all uuid run_id ys))
      ∙ ap (λ k. k >>= perform_all uuid run_id ys)
          (sym (perform_all-Commutes uuid run_id xs (bump m) st (bump-Commutes m)))
      ∙ sym (perform_all-append uuid run_id xs ys (bump m st))

  -- Two stretches of steps with counters of their own are one stretch, its counters added up.
  two_stretches :
      (xs ys : List Step) (m : ℕ) (start : Stats)
      → (perform_all uuid run_id xs start >>= λ ps.
          perform_all uuid run_id ys (bump m zero_stats) >>= λ sb. pure (run_record run_id ps sb))
        ≡ (perform_all uuid run_id (xs ++ ys) (bump m start) >>= λ st. pure (record_of run_id st))
  two_stretches xs ys m start =
      bind_congr (perform_all uuid run_id xs start) (second_stretch ys m)
      ∙ sym (
          bind_assoc (perform_all uuid run_id xs start)
            (λ ps. perform_all uuid run_id ys (bump m ps)) (λ st. pure (record_of run_id st)))
      ∙ ap (λ k. k >>= λ st. pure (record_of run_id st)) (joined xs ys m start)

  module _ (clock : Clock) (payments : List Payment) (settlements : List Settlement) where
    -- A run performs its plan.
    run_reconciliation-plan : run_reconciliation uuid run_id clock payments settlements ≡ (
        perform_all uuid run_id
          (run_plan clock payments settlements)
          (candidates clock payments settlements)
        >>= λ st. pure (record_of run_id st))
    unfolding run_reconciliation PaymentSettlement.run SettlementBank.run run_plan candidates
    run_reconciliation-plan =
        let ps = keep (PaymentSettlement.in_window clock.payments_start) payments in
        let bs = keep (SettlementBank.in_window clock.settlements_start) settlements in
        rw
          (
            match_payments-plan uuid run_id clock.at_payment ps zero_stats,
            match_settlements-plan uuid run_id clock.at_settlement bs zero_stats,
          )
          (two_stretches (payments_plan clock.at_payment ps)
            (settlements_plan clock.at_settlement bs) (length bs) (bump (length ps) zero_stats))

    -- What a run returns and leaves, by the ledger.
    pub record Recorded (s : Session) : Type 0 where
      pub after : Session
      pub returns : run_reconciliation uuid run_id clock payments settlements s ≡ (
        ok (
            record_of run_id
              (note_all uuid run_id
                (run_plan clock payments settlements)
                (candidates clock payments settlements)
                (view s)).0),
        after,
      )
      pub same_view :
          view after
          ≡ (note_all uuid run_id
              (run_plan clock payments settlements)
              (candidates clock payments settlements)
              (view s)).1
      pub consistent : IsConsistent (view after)

    -- If no two payments share an identifier, nothing waits for a flush and no key stands twice in
    -- the tables of the session, then a run does not raise: it returns the counters of the ledger
    -- that notes the steps of the plan in order, leaves the session with the rows of that ledger,
    -- and no key stands twice in them.
    pub run_refines_ledger : (s : Session) → HasDistinctIds payments → IsReady s → Recorded s
    run_refines_ledger s ids ready =
        let steps = run_plan clock payments settlements in
        let start = candidates clock payments settlements in
        let m =
          simulates_all uuid run_id steps start s (run_plan-IsApart clock payments settlements ids)
            (no_pending-IsClear s ready.committed steps) ready.consistent in
        record {
          after = m.after;
          returns =
              ap (λ k. k s) run_reconciliation-plan
              ∙ bind_ok (perform_all uuid run_id steps start) (λ st. pure (record_of run_id st)) s
                  m.returns;
          same_view = m.same_view;
          consistent = m.consistent;
        }
