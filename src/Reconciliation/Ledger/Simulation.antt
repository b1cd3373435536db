-- ===== src/Reconciliation/Ledger/Simulation.antt =====
-- A session that performs steps does to its view what the ledger notes, and never raises, if the
-- rows that wait for a flush are not the ones that a later step asks for.
use mathlib.Core.List.{append-nil, append_assoc}
use financial_ai_operator.Prelude.{
  ℕ, ◌+◌, ◌≡◌, ◌≢◌, refl, ap, ◌∙◌, String, inl, inr, List, [], ◌∷◌, ◌++◌, arith, string_eq, pair_eq,
  All,
}
use financial_ai_operator.Prelude.Outcome.{ok, bind_ok}
use financial_ai_operator.Table.{rows}
use financial_ai_operator.Table.Laws.{IsUnique, rows-append, rows-other, one_row, add-IsUnique}
use financial_ai_operator.Reconciliation.Model.{
  RelationshipColumns, DiscrepancyColumns, Stats, Relationship, Discrepancy,
}
use financial_ai_operator.Reconciliation.Session.{
  Session, row_key, disc_key, relationship_key, discrepancy_key, multiple_results_found,
  upsert_relationship, ensure_discrepancy, ensure_discrepancy_later,
}
use financial_ai_operator.Reconciliation.Plan.{
  Step, relate, report, report_later, perform, perform_all,
}
use financial_ai_operator.Reconciliation.Ledger.{Ledger, view, note, note_all}

-- No key stands twice in either table, whether its row is flushed or not.
pub record IsConsistent (l : Ledger) : Type 0 where
  pub relationships_unique : IsUnique row_key l.relationships
  pub discrepancies_unique : IsUnique disc_key l.discrepancies

-- The row that a step asks for does not wait for a flush.
abbrev pub IsClear : Session → Step → Type 0
IsClear s (relate c) = Unit
IsClear s (report c) = rows disc_key (discrepancy_key c) s.pending ≡ []
IsClear s (report_later c) = rows disc_key (discrepancy_key c) s.pending ≡ []

-- A step does not ask for the row of `c`.
abbrev pub Differs : DiscrepancyColumns → Step → Type 0
Differs c (relate d) = Unit
Differs c (report d) = discrepancy_key c ≢ discrepancy_key d
Differs c (report_later d) = discrepancy_key c ≢ discrepancy_key d

abbrev pub After : Step → Step → Type 0
After (report_later c) y = Differs c y
After _ y = Unit

-- The condition on a list of steps: no step asks for a row that an earlier one left unflushed.
pub data IsApart : List Step → Type 0 where
  apart_nil : IsApart []
  apart_cons : {x : Step} {xs : List Step} → All (After x) xs → IsApart xs → IsApart (x ∷ xs)

-- After a flush nothing waits.
pub flushed-IsClear : (s : Session) → s.pending ≡ [] → (y : Step) → IsClear s y
flushed-IsClear s h (relate c) = tt
flushed-IsClear s h (report c) = rw h
flushed-IsClear s h (report_later c) = rw h

module _ (uuid : ℕ → String) (run_id : String) where
  pub record Simulates (x : Step) (st : Stats) (s : Session) : Type 0 where
    pub after : Session
    pub returns : perform uuid run_id x st s ≡ (ok (note uuid run_id x st (view s)).0, after)
    pub same_view : view after ≡ (note uuid run_id x st (view s)).1
    pub consistent : IsConsistent (view after)
    pub clear : (y : Step) → After x y → IsClear s y → IsClear after y

  relate-Simulates :
      (c : RelationshipColumns) (st : Stats) (s : Session)
      → IsConsistent (view s)
      → Simulates (relate c) st s
  unfolding perform upsert_relationship note
  relate-Simulates c st s h =
      elim (one_row row_key multiple_results_found (relationship_key c) s.relationships
        h.relationships_unique) [
          | inl (absent, query) ↦
              let r : Relationship = record { id = uuid s.drawn; run_id = run_id; columns = c } in
              let later : Session = record {
                relationships = s.relationships ++ r ∷ [];
                discrepancies = s.discrepancies ++ s.pending;
                pending = [];
                drawn = s.drawn + 1;
              } in
              record {
                after = later;
                returns = ground arith;
                same_view = rw append-nil (ground arith);
                consistent = record {
                  relationships_unique =
                      add-IsUnique row_key s.relationships r h.relationships_unique absent;
                  discrepancies_unique = rw append-nil h.discrepancies_unique;
                };
                clear = λ y _ _. flushed-IsClear later refl y;
              }
          | inr (r, present, query) ↦ record {
            after = s;
            returns = ground arith;
            same_view = ground arith;
            consistent = h;
            clear = λ y _ k. k;
          }
        ]

  -- With the key absent from the waiting rows, the query sees all that is recorded.
  visible_rows :
      (k : String × String) (s : Session)
      → rows disc_key k s.pending ≡ []
      → rows disc_key k s.discrepancies ≡ rows disc_key k (view s).discrepancies
  visible_rows k s clear = rw (rows-append disc_key k s.discrepancies s.pending, clear, append-nil)

  report-Simulates :
      (c : DiscrepancyColumns) (st : Stats) (s : Session)
      → IsConsistent (view s)
      → rows disc_key (discrepancy_key c) s.pending ≡ []
      → Simulates (report c) st s
  unfolding perform ensure_discrepancy note
  report-Simulates c st s h free =
      let same = visible_rows (discrepancy_key c) s free in
      elim (one_row disc_key multiple_results_found (discrepancy_key c) (view s).discrepancies
        h.discrepancies_unique) [
          | inl (absent, query) ↦
              let d : Discrepancy = record { id = uuid s.drawn; run_id = run_id; columns = c } in
              let later : Session = record {
                relationships = s.relationships;
                discrepancies = s.discrepancies ++ (s.pending ++ d ∷ []);
                pending = [];
                drawn = s.drawn + 1;
              } in
              record {
                after = later;
                returns = ground (arith, same);
                same_view = rw (append-nil, ← append_assoc) (ground arith);
                consistent = record {
                  relationships_unique = h.relationships_unique;
                  discrepancies_unique =
                      rw (append-nil, ← append_assoc)
                        (add-IsUnique disc_key (view s).discrepancies d h.discrepancies_unique
                          absent);
                };
                clear = λ y _ _. flushed-IsClear later refl y;
              }
          | inr (d, present, query) ↦ record {
            after = s;
            returns = ground (arith, same);
            same_view = ground arith;
            consistent = h;
            clear = λ y _ k. k;
          }
        ]

  -- A row added with no flush is the only one that later steps may not see.
  added-IsClear :
      (d : Discrepancy) (s s' : Session)
      → s'.pending ≡ s.pending ++ d ∷ []
      → (y : Step) → Differs d.columns y
      → IsClear s y
      → IsClear s' y
  added-IsClear d s s' e (relate c) differs k = tt
  added-IsClear d s s' e (report c) differs k =
      rw (e, rows-append disc_key (discrepancy_key c) s.pending (d ∷ []), k)
        (rows-other disc_key (discrepancy_key c) d differs)
  added-IsClear d s s' e (report_later c) differs k =
      rw (e, rows-append disc_key (discrepancy_key c) s.pending (d ∷ []), k)
        (rows-other disc_key (discrepancy_key c) d differs)

  report_later-Simulates :
      (c : DiscrepancyColumns) (st : Stats) (s : Session)
      → IsConsistent (view s)
      → rows disc_key (discrepancy_key c) s.pending ≡ []
      → Simulates (report_later c) st s
  unfolding perform ensure_discrepancy_later note
  report_later-Simulates c st s h free =
      let same = visible_rows (discrepancy_key c) s free in
      elim (one_row disc_key multiple_results_found (discrepancy_key c) (view s).discrepancies
        h.discrepancies_unique) [
          | inl (absent, query) ↦
              let d : Discrepancy = record { id = uuid s.drawn; run_id = run_id; columns = c } in
              let later : Session = record {
                relationships = s.relationships;
                discrepancies = s.discrepancies;
                pending = s.pending ++ d ∷ [];
                drawn = s.drawn + 1;
              } in
              record {
                after = later;
                returns = ground (arith, same);
                same_view = rw (← append_assoc) (ground arith);
                consistent = record {
                  relationships_unique = h.relationships_unique;
                  discrepancies_unique = rw (← append_assoc) (
                      add-IsUnique disc_key (view s).discrepancies d h.discrepancies_unique absent);
                };
                clear = added-IsClear d s later refl;
              }
          | inr (d, present, query) ↦ record {
            after = s;
            returns = ground (arith, same);
            same_view = ground arith;
            consistent = h;
            clear = λ y _ k. k;
          }
        ]

  step-Simulates :
      (x : Step) (st : Stats) (s : Session) → IsConsistent (view s) → IsClear s x → Simulates x st s
  step-Simulates (relate c) st s h k = relate-Simulates c st s h
  step-Simulates (report c) st s h k = report-Simulates c st s h k
  step-Simulates (report_later c) st s h k = report_later-Simulates c st s h k

  All-IsClear :
      {x : Step} {st : Stats} {s : Session} (m : Simulates x st s) (ys : List Step)
      → All (After x) ys
      → All (IsClear s) ys
      → All (IsClear m.after) ys
  All-IsClear m [] a k = tt
  All-IsClear m (y ∷ ys) a k = (m.clear y a.0 k.0, All-IsClear m ys a.1 k.1)

  -- What a session does with a list of steps.
  pub record SimulatesAll (xs : List Step) (st : Stats) (s : Session) : Type 0 where
    pub after : Session
    pub returns :
        perform_all uuid run_id xs st s ≡ (ok (note_all uuid run_id xs st (view s)).0, after)
    pub same_view : view after ≡ (note_all uuid run_id xs st (view s)).1
    pub consistent : IsConsistent (view after)

  pub simulates_all :
      (xs : List Step) (st : Stats) (s : Session)
      → IsApart xs
      → All (IsClear s) xs
      → IsConsistent (view s)
      → SimulatesAll xs st s
  unfolding perform_all note_all
  simulates_all [] st s a k h = record {
    after = s;
    returns = refl;
    same_view = refl;
    consistent = h;
  }
  simulates_all (x ∷ xs) st s (apart_cons later apart) k h =
      let m = step-Simulates x st s h k.0 in
      let rest =
        simulates_all xs (note uuid run_id x st (view s)).0 m.after apart
          (All-IsClear m xs later k.1) m.consistent in
      record {
        after = rest.after;
        returns =
            bind_ok (perform uuid run_id x st) (perform_all uuid run_id xs) s m.returns
            ∙ rest.returns
            ∙ ap
                (λ l.
                  (ok (note_all uuid run_id xs (note uuid run_id x st (view s)).0 l).0, rest.after))
                m.same_view;
        same_view =
            rest.same_view
            ∙ ap (λ l. (note_all uuid run_id xs (note uuid run_id x st (view s)).0 l).1)
                m.same_view;
        consistent = rest.consistent;
      }
