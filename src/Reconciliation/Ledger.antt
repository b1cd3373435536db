-- ===== src/Reconciliation/Ledger.antt =====
-- The specification of recording: a ledger of relationships and discrepancies, in which a step adds
-- its row unless a row of its key is there. It knows nothing of flushing and never fails.
pub mod Laws
pub mod Simulation
use financial_ai_operator.Prelude.{ℕ, ◌+◌, String, true, List, [], ◌∷◌, ◌++◌}
use financial_ai_operator.Prelude.{string_eq, pair_eq}
use financial_ai_operator.Table.{rows}
use financial_ai_operator.Reconciliation.Model.{
  Relationship, RelationshipColumns, Discrepancy, DiscrepancyColumns, Stats,
}
use financial_ai_operator.Reconciliation.Session.{
  Session, row_key, disc_key, relationship_key, discrepancy_key, count_relationship,
  count_discrepancy,
}
use financial_ai_operator.Reconciliation.Plan.{Step, relate, report, report_later}

pub record Ledger : Type 0 where
  pub relationships : List Relationship
  pub discrepancies : List Discrepancy
  pub drawn : ℕ

-- What a session holds, flushed or not.
abbrev pub view : Session → Ledger
view s = record {
  relationships = s.relationships;
  discrepancies = s.discrepancies ++ s.pending;
  drawn = s.drawn;
}

module _ (uuid : ℕ → String) (run_id : String) where
  abbrev pub add_relationship : RelationshipColumns → Ledger → Ledger
  add_relationship c l =
      let r : Relationship = record { id = uuid l.drawn; run_id = run_id; columns = c } in
      record l { relationships = l.relationships ++ r ∷ []; drawn = l.drawn + 1 }

  abbrev pub add_discrepancy : DiscrepancyColumns → Ledger → Ledger
  add_discrepancy c l =
      let d : Discrepancy = record { id = uuid l.drawn; run_id = run_id; columns = c } in
      record l { discrepancies = l.discrepancies ++ d ∷ []; drawn = l.drawn + 1 }

  abbrev pub note_relationship : RelationshipColumns → Stats → Ledger → Stats × Ledger
  note_relationship c st l = elim (rows row_key (relationship_key c) l.relationships) [
    | [] ↦ (count_relationship true st, add_relationship c l)
    | r ∷ rs ↦ (st, l)
  ]

  abbrev pub note_discrepancy : DiscrepancyColumns → Stats → Ledger → Stats × Ledger
  note_discrepancy c st l = elim (rows disc_key (discrepancy_key c) l.discrepancies) [
    | [] ↦ (count_discrepancy true st, add_discrepancy c l)
    | d ∷ ds ↦ (st, l)
  ]

  unfoldable pub note : Step → Stats → Ledger → Stats × Ledger
  note (relate c) st l = note_relationship c st l
  note (report c) st l = note_discrepancy c st l
  note (report_later c) st l = note_discrepancy c st l

  unfoldable pub note_all : List Step → Stats → Ledger → Stats × Ledger
  note_all [] st l = (st, l)
  note_all (step ∷ steps) st l = let (st', l') = note step st l in note_all steps st' l'
