-- ===== src/Reconciliation/Guarantees.antt =====
-- The counters of a run, and the rows that it keeps and leaves.
use mathlib.Core.List.{append-nil}
use mathlib.Core.Path.{subst}
use financial_ai_operator.Prelude.{
  ℕ, ◌+◌, String, ◌≡◌, refl, sym, ap, ◌∙◌, List, [], ◌++◌, arith, string_eq, pair_eq, All, length,
  keep,
}
use financial_ai_operator.Prelude.Outcome.{ok}
use financial_ai_operator.Prelude.Int.{int_eq}
use financial_ai_operator.Reconciliation.Model.{Payment, Settlement, ReconciliationRun, completed}
use financial_ai_operator.Reconciliation.Session.{Session}
use financial_ai_operator.Reconciliation.PaymentSettlement
use financial_ai_operator.Reconciliation.PaymentSettlement.{
  evaluate_item, item_relationship, item_discrepancy,
}
use financial_ai_operator.Reconciliation.SettlementBank
use financial_ai_operator.Reconciliation.Engine.{Clock, run_reconciliation}
use financial_ai_operator.Reconciliation.Plan.{run_plan}
use financial_ai_operator.Reconciliation.Plan.Apart.{HasDistinctIds}
use financial_ai_operator.Reconciliation.Ledger.{Ledger, view, note_all}
use financial_ai_operator.Reconciliation.Ledger.Laws.{
  IsNoted, Extends, note_all-Extends, note_all-IsNoted, note_all-Counts,
}
use financial_ai_operator.Reconciliation.Ledger.Simulation.{IsConsistent}
use financial_ai_operator.Reconciliation.Run.{candidates, record_of, IsReady, run_refines_ledger}

-- `session.commit()`: what waits is flushed.
abbrev pub commit : Session → Session
commit s = record s { discrepancies = s.discrepancies ++ s.pending; pending = [] }

pub view-commit : (s : Session) → view (commit s) ≡ view s
view-commit s = rw append-nil

module _ (uuid : ℕ → String) (run_id : String) (clock : Clock) (payments : List Payment)
    (settlements : List Settlement) where
  view-run :
      (s : Session) (ids : HasDistinctIds payments) (ready : IsReady s)
      → view (run_reconciliation uuid run_id clock payments settlements s).1
        ≡ (note_all uuid run_id
            (run_plan clock payments settlements)
            (candidates clock payments settlements)
            (view s)).1
  view-run s ids ready =
      let m = run_refines_ledger uuid run_id clock payments settlements s ids ready in
      ap (λ r. view r.1) m.returns ∙ m.same_view

  -- If no two payments share an identifier, nothing waits for a flush and no key stands twice in
  -- the tables, then a run returns a completed record: its matches are the relationships that were
  -- added, its discrepancies the discrepancies that were added, and its records processed the
  -- payments and the settlements in their windows.
  pub run_counts_rows :
      (s : Session)
      → HasDistinctIds payments
      → IsReady s
      → (r : ReconciliationRun) × (s' : Session) × (run_reconciliation uuid run_id clock payments
            settlements s
          ≡ (ok r, s'))
        × (r.status ≡ completed)
        × (r.matches_created + length (view s).relationships ≡ length (view s').relationships)
        × (r.discrepancies_found + length (view s).discrepancies ≡ length (view s').discrepancies)
        × (r.total_records_processed
            ≡ length (keep (PaymentSettlement.in_window clock.payments_start) payments)
              + length (keep (SettlementBank.in_window clock.settlements_start) settlements))
  unfolding candidates
  run_counts_rows s ids ready =
      let m = run_refines_ledger uuid run_id clock payments settlements s ids ready in
      let plan = run_plan clock payments settlements in
      let start = candidates clock payments settlements in
      let c = note_all-Counts uuid run_id plan start (view s) in
      (
        record_of run_id (note_all uuid run_id plan start (view s)).0,
        m.after,
        m.returns,
        refl,
        omega (arith, c.relationships, ap (λ (l : Ledger). length l.relationships) m.same_view),
        omega (arith, c.discrepancies, ap (λ (l : Ledger). length l.discrepancies) m.same_view),
        omega (arith, c.processed),
      )

  -- If no two payments share an identifier, nothing waits for a flush and no key stands twice in
  -- the tables, then a run only adds rows: those that were there stay in their places.
  pub run_keeps_rows :
      (s : Session)
      → HasDistinctIds payments
      → IsReady s
      → Extends (view s) (view (run_reconciliation uuid run_id clock payments settlements s).1)
  run_keeps_rows s ids ready = rw (view-run s ids ready) (
      note_all-Extends uuid run_id (run_plan clock payments settlements)
        (candidates clock payments settlements) (view s))

  pub run-IsNoted :
      (s : Session)
      → HasDistinctIds payments
      → IsReady s
      → All
          (IsNoted (view (run_reconciliation uuid run_id clock payments settlements s).1))
          (run_plan clock payments settlements)
  run-IsNoted s ids ready = rw (view-run s ids ready) (
      note_all-IsNoted uuid run_id (run_plan clock payments settlements)
        (candidates clock payments settlements) (view s))

  pub commit-IsReady :
      (s : Session)
      → HasDistinctIds payments
      → IsReady s
      → IsReady (commit (run_reconciliation uuid run_id clock payments settlements s).1)
  commit-IsReady s ids ready =
      let m = run_refines_ledger uuid run_id clock payments settlements s ids ready in
      record {
        committed = refl;
        consistent =
            subst IsConsistent
              (sym (
                view-commit (run_reconciliation uuid run_id clock payments settlements s).1
                ∙ ap (λ r. view r.1) m.returns))
              m.consistent;
      }
