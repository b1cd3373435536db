-- ===== src/Reconciliation/Session.antt =====
-- The database session of a reconciliation run, and the checked insertions that the two matchers
-- share: `_upsert_relationship` and the query, insertion and flush of `_upsert_discrepancy`.
-- The session does not flush by itself (`autoflush=False` in database/connection.py): what `add`
-- hands it waits in `pending` and is invisible to a query until the next flush.
use financial_ai_operator.Prelude.{
  ℕ, ◌+◌, String, Bool, true, false, Option, none, some, List, [], ◌∷◌, ◌++◌, string_eq, pair_eq,
}
use financial_ai_operator.Prelude.Outcome.{Action, pure, lift, gets, modify, ◌>>=◌, ◌>>◌}
use financial_ai_operator.Prelude.Int.{ℤ, ◌-ℤ◌, abs}
use financial_ai_operator.Table.{scalar_one_or_none, rows}
use financial_ai_operator.Reconciliation.Model.{
  Relationship, RelationshipColumns, Discrepancy, DiscrepancyColumns, Stats,
}

pub data Error : Type 0 where
  multiple_results_found : Error

-- `drawn` counts the calls of `uuid.uuid4`.
pub record Session : Type 0 where
  pub relationships : List Relationship
  pub discrepancies : List Discrepancy
  pub pending : List Discrepancy
  pub drawn : ℕ

-- The columns by which a query looks for an equivalent row.
abbrev pub relationship_key : RelationshipColumns → String × (String × String)
relationship_key c = (c.source_entity_id, (c.target_entity_id, c.relationship_type))

abbrev pub discrepancy_key : DiscrepancyColumns → String × String
discrepancy_key c = (c.source_entity_id, c.rule_code)

abbrev pub row_key : Relationship → String × (String × String)
row_key r = relationship_key r.columns

abbrev pub disc_key : Discrepancy → String × String
disc_key d = discrepancy_key d.columns

-- `session.flush()`
abbrev pub flush : Action Session Error (Unit {0})
flush = modify (λ s. record s { discrepancies = s.discrepancies ++ s.pending; pending = [] })

-- `abs(expected - actual) if expected is not None and actual is not None else None`
unfoldable pub difference : Option ℤ → Option ℤ → Option ℤ
difference (some expected) (some actual) = some (abs (expected -ℤ actual))
difference _ _ = none

-- `uuid` gives the identifier of each draw, `run_id` is the run's.
module _ (uuid : ℕ → String) (run_id : String) where
  abbrev pub new_relationship : RelationshipColumns → Session → Session
  new_relationship c s =
      let r : Relationship = record { id = uuid s.drawn; run_id = run_id; columns = c } in
      record s { relationships = s.relationships ++ r ∷ []; drawn = s.drawn + 1 }

  abbrev pub new_discrepancy : DiscrepancyColumns → Session → Session
  new_discrepancy c s =
      let d : Discrepancy = record { id = uuid s.drawn; run_id = run_id; columns = c } in
      record s { pending = s.pending ++ d ∷ []; drawn = s.drawn + 1 }

  abbrev insert_relationship : RelationshipColumns → Option Relationship → Action Session Error Bool
  insert_relationship c (some existing) = pure false
  insert_relationship c none = do modify (new_relationship c); flush; pure true

  -- `_upsert_relationship`, the same text in both matchers
  unfoldable pub upsert_relationship : RelationshipColumns → Action Session Error Bool
  upsert_relationship c = do
    found ← gets (λ s. rows row_key (relationship_key c) s.relationships)
    existing ← lift (scalar_one_or_none multiple_results_found found)
    insert_relationship c existing

  abbrev insert_discrepancy : DiscrepancyColumns → Option Discrepancy → Action Session Error Bool
  insert_discrepancy c (some existing) = pure false
  insert_discrepancy c none = do modify (new_discrepancy c); flush; pure true

  -- Query by source and rule; insert and flush if there is no row.
  unfoldable pub ensure_discrepancy : DiscrepancyColumns → Action Session Error Bool
  ensure_discrepancy c = do
    found ← gets (λ s. rows disc_key (discrepancy_key c) s.discrepancies)
    existing ← lift (scalar_one_or_none multiple_results_found found)
    insert_discrepancy c existing

  abbrev insert_later : DiscrepancyColumns → Option Discrepancy → Action Session Error Bool
  insert_later c (some existing) = pure false
  insert_later c none = do modify (new_discrepancy c); pure true

  -- The same with no flush behind the insertion.
  unfoldable pub ensure_discrepancy_later : DiscrepancyColumns → Action Session Error Bool
  ensure_discrepancy_later c = do
    found ← gets (λ s. rows disc_key (discrepancy_key c) s.discrepancies)
    existing ← lift (scalar_one_or_none multiple_results_found found)
    insert_later c existing

-- `if created: stats["relationships_created"] += 1`
abbrev pub count_relationship : Bool → Stats → Stats
count_relationship true st = record st { relationships_created = st.relationships_created + 1 }
count_relationship false st = st

-- `if created: stats["discrepancies"] += 1`
abbrev pub count_discrepancy : Bool → Stats → Stats
count_discrepancy true st = record st { discrepancies = st.discrepancies + 1 }
count_discrepancy false st = st
