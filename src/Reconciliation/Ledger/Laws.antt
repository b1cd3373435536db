-- ===== src/Reconciliation/Ledger/Laws.antt =====
-- What noting steps does to a ledger: rows stay, each step's row is there afterwards, a step
-- whose row is there adds nothing, and the counters count the rows that were added.
use mathlib.Core.List.{append-nil, append_assoc}
use financial_ai_operator.Prelude.{
  ℕ, ◌+◌, ◌≡◌, ◌≢◌, refl, sym, ap, ◌∙◌, String, inl, inr, ◌⊎◌, List, [], ◌∷◌, ◌++◌, arith,
  string_eq, pair_eq, All, length, length-append, true,
}
use financial_ai_operator.Table.{rows}
use financial_ai_operator.Table.Laws.{rows-append, rows_self}
use financial_ai_operator.Reconciliation.Model.{
  RelationshipColumns, DiscrepancyColumns, Stats, Relationship, Discrepancy,
}
use financial_ai_operator.Reconciliation.Session.{
  row_key, disc_key, relationship_key, discrepancy_key, count_relationship, count_discrepancy,
}
use financial_ai_operator.Reconciliation.Plan.{Step, relate, report, report_later}
use financial_ai_operator.Reconciliation.Ledger.{
  Ledger, note, note_all, add_relationship, add_discrepancy,
}

List-cases {ℓ} : {A : Type ℓ} (l : List A) → (l ≡ []) ⊎ ((x : A) × (r : List A) × (l ≡ x ∷ r))
List-cases [] = inl refl
List-cases (x ∷ r) = inr (x, r, refl)

abbrev pub HasRelationship : String × (String × String) → Ledger → Type 0
HasRelationship k l = rows row_key k l.relationships ≢ []

abbrev pub HasDiscrepancy : String × String → Ledger → Type 0
HasDiscrepancy k l = rows disc_key k l.discrepancies ≢ []

-- The row that a step asks for is there.
abbrev pub IsNoted : Ledger → Step → Type 0
IsNoted l (relate c) = HasRelationship (relationship_key c) l
IsNoted l (report c) = HasDiscrepancy (discrepancy_key c) l
IsNoted l (report_later c) = HasDiscrepancy (discrepancy_key c) l

-- Rows that are kept by a longer table.
append-ne-nil {ℓ} : {A : Type ℓ} (xs ys : List A) → xs ≢ [] → xs ++ ys ≢ []
append-ne-nil [] ys h = absurd (h refl)
append-ne-nil (x ∷ xs) ys h = λ e. cc

append-ne-nil_right {ℓ} : {A : Type ℓ} (xs : List A) (y : A) → xs ++ y ∷ [] ≢ []
append-ne-nil_right [] y = λ e. cc
append-ne-nil_right (x ∷ xs) y = λ e. cc

-- `l'` extends `l` by rows.
pub record Extends (l l' : Ledger) : Type 0 where
  pub new_relationships : List Relationship
  pub new_discrepancies : List Discrepancy
  pub relationships_grow : l'.relationships ≡ l.relationships ++ new_relationships
  pub discrepancies_grow : l'.discrepancies ≡ l.discrepancies ++ new_discrepancies

Extends-refl : (l : Ledger) → Extends l l
Extends-refl l = record {
  new_relationships = [];
  new_discrepancies = [];
  relationships_grow = sym (append-nil l.relationships);
  discrepancies_grow = sym (append-nil l.discrepancies);
}

Extends-trans : {l l' l'' : Ledger} → Extends l l' → Extends l' l'' → Extends l l''
Extends-trans {l} {l'} {l''} a b = record {
  new_relationships = a.new_relationships ++ b.new_relationships;
  new_discrepancies = a.new_discrepancies ++ b.new_discrepancies;
  relationships_grow =
      b.relationships_grow
      ∙ ap (λ t. t ++ b.new_relationships) a.relationships_grow
      ∙ append_assoc l.relationships a.new_relationships b.new_relationships;
  discrepancies_grow =
      b.discrepancies_grow
      ∙ ap (λ t. t ++ b.new_discrepancies) a.discrepancies_grow
      ∙ append_assoc l.discrepancies a.new_discrepancies b.new_discrepancies;
}

pub Extends-HasRelationship :
    {l l' : Ledger} (k : String × (String × String))
    → Extends l l'
    → HasRelationship k l
    → HasRelationship k l'
Extends-HasRelationship {l} k e h =
    rw (e.relationships_grow, rows-append row_key k l.relationships e.new_relationships)
      (append-ne-nil (rows row_key k l.relationships) (rows row_key k e.new_relationships) h)

pub Extends-HasDiscrepancy :
    {l l' : Ledger} (k : String × String) → Extends l l' → HasDiscrepancy k l → HasDiscrepancy k l'
Extends-HasDiscrepancy {l} k e h =
    rw (e.discrepancies_grow, rows-append disc_key k l.discrepancies e.new_discrepancies)
      (append-ne-nil (rows disc_key k l.discrepancies) (rows disc_key k e.new_discrepancies) h)

Extends-IsNoted : {l l' : Ledger} (x : Step) → Extends l l' → IsNoted l x → IsNoted l' x
Extends-IsNoted (relate c) e h = Extends-HasRelationship (relationship_key c) e h
Extends-IsNoted (report c) e h = Extends-HasDiscrepancy (discrepancy_key c) e h
Extends-IsNoted (report_later c) e h = Extends-HasDiscrepancy (discrepancy_key c) e h

-- How the counters moved with the rows.
pub record Counts (st : Stats) (l : Ledger) (st' : Stats) (l' : Ledger) : Type 0 where
  pub relationships :
      st'.relationships_created + length l.relationships
      ≡ st.relationships_created + length l'.relationships
  pub discrepancies :
      st'.discrepancies + length l.discrepancies ≡ st.discrepancies + length l'.discrepancies
  pub processed : st'.processed ≡ st.processed

-- What is required of the outcome of one step.
record NoteLaws (x : Step) (st : Stats) (l : Ledger) (out : Stats × Ledger) : Type 0 where
  extends : Extends l out.1
  noted : IsNoted out.1 x
  counts : Counts st l out.0 out.1
  done : IsNoted l x → out ≡ (st, l)

kept-laws : (x : Step) (st : Stats) (l : Ledger) → IsNoted l x → NoteLaws x st l (st, l)
kept-laws x st l h = record {
  extends = Extends-refl l;
  noted = h;
  counts = record { relationships = refl; discrepancies = refl; processed = refl };
  done = λ _. refl;
}

module _ (uuid : ℕ → String) (run_id : String) where
  added_relationship-laws :
      (c : RelationshipColumns) (st : Stats) (l : Ledger)
      → rows row_key (relationship_key c) l.relationships ≡ []
      → NoteLaws (relate c) st l (count_relationship true st, add_relationship uuid run_id c l)
  added_relationship-laws c st l absent =
      let r : Relationship = record { id = uuid l.drawn; run_id = run_id; columns = c } in
      record {
        extends = record {
          new_relationships = r ∷ [];
          new_discrepancies = [];
          relationships_grow = refl;
          discrepancies_grow = sym (append-nil l.discrepancies);
        };
        noted =
            rw
              (
                rows-append row_key (relationship_key c) l.relationships (r ∷ []),
                rows_self row_key r,
              )
              (append-ne-nil_right (rows row_key (relationship_key c) l.relationships) r);
        counts = record {
          relationships = omega (arith, length-append l.relationships (r ∷ []));
          discrepancies = refl;
          processed = refl;
        };
        done = λ h. absurd (h absent);
      }

  added_discrepancy-laws :
      (x : Step) (c : DiscrepancyColumns) (st : Stats) (l : Ledger)
      → ((l' : Ledger) → IsNoted l' x ≡ HasDiscrepancy (discrepancy_key c) l')
      → rows disc_key (discrepancy_key c) l.discrepancies ≡ []
      → NoteLaws x st l (count_discrepancy true st, add_discrepancy uuid run_id c l)
  added_discrepancy-laws x c st l asks absent =
      let d : Discrepancy = record { id = uuid l.drawn; run_id = run_id; columns = c } in
      record {
        extends = record {
          new_relationships = [];
          new_discrepancies = d ∷ [];
          relationships_grow = sym (append-nil l.relationships);
          discrepancies_grow = refl;
        };
        noted =
            rw
              (
                asks (add_discrepancy uuid run_id c l),
                rows-append disc_key (discrepancy_key c) l.discrepancies (d ∷ []),
                rows_self disc_key d,
              )
              (append-ne-nil_right (rows disc_key (discrepancy_key c) l.discrepancies) d);
        counts = record {
          relationships = refl;
          discrepancies = omega (arith, length-append l.discrepancies (d ∷ []));
          processed = refl;
        };
        done = λ h. absurd ((rw (asks l) at h) absent);
      }

  relationship_cases :
      (c : RelationshipColumns) (st : Stats) (l : Ledger) (found : List Relationship)
      → rows row_key (relationship_key c) l.relationships ≡ found
      → NoteLaws (relate c) st l (elim found [
        | [] ↦ (count_relationship true st, add_relationship uuid run_id c l)
        | r ∷ rs ↦ (st, l)
      ])
  relationship_cases c st l [] e = added_relationship-laws c st l e
  relationship_cases c st l (r ∷ rs) e = kept-laws (relate c) st l (λ h. cc)

  discrepancy_cases :
      (x : Step) (c : DiscrepancyColumns) (st : Stats) (l : Ledger) (found : List Discrepancy)
      → ((l' : Ledger) → IsNoted l' x ≡ HasDiscrepancy (discrepancy_key c) l')
      → rows disc_key (discrepancy_key c) l.discrepancies ≡ found
      → NoteLaws x st l (elim found [
        | [] ↦ (count_discrepancy true st, add_discrepancy uuid run_id c l)
        | d ∷ ds ↦ (st, l)
      ])
  discrepancy_cases x c st l [] asks e = added_discrepancy-laws x c st l asks e
  discrepancy_cases x c st l (d ∷ ds) asks e = kept-laws x st l (rw (asks l) (λ h. cc))

  note-laws : (x : Step) (st : Stats) (l : Ledger) → NoteLaws x st l (note uuid run_id x st l)
  unfolding note
  note-laws (relate c) st l =
      relationship_cases c st l (rows row_key (relationship_key c) l.relationships) refl
  note-laws (report c) st l =
      discrepancy_cases (report c) c st l (rows disc_key (discrepancy_key c) l.discrepancies)
        (λ _. refl) refl
  note-laws (report_later c) st l =
      discrepancy_cases (report_later c) c st l (rows disc_key (discrepancy_key c) l.discrepancies)
        (λ _. refl) refl

  -- The rows of the ledger stay where they are.
  pub note_all-Extends :
      (xs : List Step) (st : Stats) (l : Ledger) → Extends l (note_all uuid run_id xs st l).1
  unfolding note_all
  note_all-Extends [] st l = Extends-refl l
  note_all-Extends (x ∷ xs) st l =
      let out = note uuid run_id x st l in
      Extends-trans (note-laws x st l).extends (note_all-Extends xs out.0 out.1)

  pub note_all-IsNoted :
      (xs : List Step) (st : Stats) (l : Ledger) → All (IsNoted (note_all uuid run_id xs st l).1) xs
  unfolding note_all
  note_all-IsNoted [] st l = tt
  note_all-IsNoted (x ∷ xs) st l =
      let out = note uuid run_id x st l in
      (
        Extends-IsNoted x (note_all-Extends xs out.0 out.1) (note-laws x st l).noted,
        note_all-IsNoted xs out.0 out.1,
      )

  pub note_all-done :
      (xs : List Step) (st : Stats) (l : Ledger)
      → All (IsNoted l) xs
      → note_all uuid run_id xs st l ≡ (st, l)
  unfolding note_all
  note_all-done [] st l h = refl
  note_all-done (x ∷ xs) st l h = rw ((note-laws x st l).done h.0) (note_all-done xs st l h.1)

  pub note_all-Counts :
      (xs : List Step) (st : Stats) (l : Ledger)
      → Counts st l (note_all uuid run_id xs st l).0 (note_all uuid run_id xs st l).1
  unfolding note_all
  note_all-Counts [] st l = record { relationships = refl; discrepancies = refl; processed = refl }
  note_all-Counts (x ∷ xs) st l =
      let out = note uuid run_id x st l in
      let one = (note-laws x st l).counts in
      let rest = note_all-Counts xs out.0 out.1 in
      record {
        relationships = omega (arith, one.relationships, rest.relationships);
        discrepancies = omega (arith, one.discrepancies, rest.discrepancies);
        processed = rest.processed ∙ one.processed;
      }
