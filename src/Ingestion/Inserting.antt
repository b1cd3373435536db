-- ===== src/Ingestion/Inserting.antt =====
-- What the materialization of services/ingestion/materialize.py keeps, given what each insertion keeps.
use financial_ai_operator.Prelude.{
  ℕ, suc, String, ◌≡◌, refl, inl, inr, Bool, false, Bool-cases, string_eq, pair_eq, option_eq,
}
use financial_ai_operator.Prelude.Outcome.{Result, ok, err, lift, ◌>>=◌}
use financial_ai_operator.Ingestion.Model.{EntityType}
use financial_ai_operator.Ingestion.Store.{IngestionRecord, Facts, Session, Error}
use financial_ai_operator.Ingestion.Materialize.{
  Origin, record_conflict, insert_fact, from_facts, insert_found, ingestion_record, add_record,
  materialize,
}
use financial_ai_operator.Ingestion.Keeping.{Keeps, IsStable}

-- A row and its record are inserted only when the lookups returned and no constraint refused.
module _ (Q : Session → Type 0) (stable : IsStable Q) (uuid : ℕ → String) (o : Origin) where
  module _ {A R : Type 0} (e : EntityType) (parents : Facts → Result Error R)
      (make : String → R → A) (conflict : A → Facts → Bool) (add : A → Facts → Facts)
      (step : (s : Session) (q : R) (id : String) (r : IngestionRecord)
        → parents s.current.facts ≡ ok q
        → record_conflict r s.current.facts.records ≡ false
        → Q s
        → Q (record s {
          current = record s.current { facts = add_record r (add (make id q) s.current.facts) };
        })) where
    insert_Keeps :
        (s : Session) (q : R) (id : String) (r : IngestionRecord)
        → parents s.current.facts ≡ ok q
        → Q s
        → Q (insert_fact (conflict (make id q)) (add (make id q)) r s).1
    unfolding insert_fact
    insert_Keeps s q id r found p = elim (Bool-cases (conflict (make id q) s.current.facts)) [
      | inl t ↦ rw t p
      | inr f ↦ elim (Bool-cases (record_conflict r s.current.facts.records)) [
        | inl t' ↦ rw (f, t') p
        | inr f' ↦ rw (f, f') (step s q id r found f' p)
      ]
    ]

    pub materialize-Keeps : Keeps Q (materialize uuid o e parents make conflict add)
    unfolding materialize from_facts insert_found
    materialize-Keeps s p = from_parents (parents s.current.facts) refl
      where
        from_parents :
            (r : Result Error R)
            → parents s.current.facts ≡ r
            → Q ((lift r >>= insert_found uuid o e make conflict add) s).1
        from_parents (ok q) found =
            insert_Keeps (record s { drawn = suc (suc s.drawn) }) q (uuid s.drawn)
              (ingestion_record (uuid (suc s.drawn)) e o) found
              (stable s s.current.run_records (suc (suc s.drawn)) p)
        from_parents (err x) found = p
