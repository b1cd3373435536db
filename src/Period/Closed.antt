-- ===== src/Period/Closed.antt =====
-- What the operations of services/period.py leave behind: when a period closes, and on what record.
use financial_ai_operator.Prelude.{
  ℕ, String, ◌≡◌, refl, ap, ◌∙◌, inl, inr, Bool, true, false, ◌&&◌, some, List, [], ◌∷◌, ◌++◌,
  arith, ◌==◌, string_eq, leb, any, any-append, All, All-append, All-imp, Bool-cases, ==_refl,
  ==_false, ==_apart, ==_cases,
}
use financial_ai_operator.Prelude.Outcome.{lift, ◌>>=◌}
use financial_ai_operator.Table.{scalar_one_or_none}
use financial_ai_operator.Period.Model.{
  FinancialPeriod, Floats, CloseReadiness, PeriodCloseEvaluation, control_status_eq,
}
use financial_ai_operator.Period.Readiness.{evaluate_close_readiness}
use financial_ai_operator.Period.Store.{Session, multiple_results_found}
use financial_ai_operator.Period.Closing.{
  new_period, new_evaluation, add_evaluation, closed_row, assign_closed, open_rows, create_period,
  record_period_evaluation, close_evaluated, close_locked, close_period,
}

-- The period has an evaluation that found it ready.
abbrev pub has_ready : List PeriodCloseEvaluation → String → Bool
has_ready es id = any (λ e. (e.period_id == id) && e.is_ready) es

-- Nothing waits, and each closed period has an evaluation that found it ready.
pub record IsEvaluated (s : Session) : Type 0 where
  pub committed : s.current ≡ s.saved
  pub evaluated :
      All (λ p. p.status ≡ "CLOSED" → has_ready s.saved.evaluations p.id ≡ true) s.saved.periods

pub data Operation : Type 0 where
  create : String → ℕ → ℕ → Operation
  evaluate : FinancialPeriod → CloseReadiness → String → Operation
  close : Floats → ℕ → ℕ → String → FinancialPeriod → Operation

abbrev pub run : (ℕ → String) → Operation → Session → Session
run uuid (create name start end) s = (create_period uuid name start end s).1
run uuid (evaluate period readiness actor) s =
    (record_period_evaluation uuid period readiness actor s).1
run uuid (close f now later actor period) s = (close_period uuid f now later actor period s).1

-- More evaluations keep those that there are.
has_ready-append :
    (es : List PeriodCloseEvaluation) (e : PeriodCloseEvaluation) (id : String)
    → has_ready es id ≡ true
    → has_ready (es ++ e ∷ []) id ≡ true
has_ready-append es e id h =
    rw (any-append (λ x. (x.period_id == id) && x.is_ready) es (e ∷ []), h) refl

abbrev Evaluated : List PeriodCloseEvaluation → FinancialPeriod → Type 0
Evaluated es p = p.status ≡ "CLOSED" → has_ready es p.id ≡ true

Evaluated-append :
    (es : List PeriodCloseEvaluation) (e : PeriodCloseEvaluation) (ps : List FinancialPeriod)
    → All (Evaluated es) ps
    → All (Evaluated (es ++ e ∷ [])) ps
Evaluated-append es e ps =
    All-imp (Evaluated es) (Evaluated (es ++ e ∷ [])) (λ p h c. has_ready-append es e p.id (h c)) ps

has_ready_self :
    (es : List PeriodCloseEvaluation) (e : PeriodCloseEvaluation) (id : String)
    → e.period_id ≡ id
    → e.is_ready ≡ true
    → has_ready (es ++ e ∷ []) id ≡ true
has_ready_self es e id same ready =
    let t : (e.period_id == id) ≡ true = ap (λ x. x == id) same ∙ ==_refl id in
    rw (any-append (λ x. (x.period_id == id) && x.is_ready) es (e ∷ []), t, ready) (ground arith)

-- The closing of the rows with an identifier that has an evaluation which found it ready.
assign-Evaluated :
    (later : ℕ) (actor id : String) (es : List PeriodCloseEvaluation) (ps : List FinancialPeriod)
    → has_ready es id ≡ true
    → All (Evaluated es) ps
    → All (Evaluated es) (assign_closed later actor id ps)
unfolding assign_closed closed_row
assign-Evaluated later actor id es [] h k = tt
assign-Evaluated later actor id es (p ∷ ps) h k = elim (==_cases p.id id) [
  | inl same ↦
      let t : (p.id == id) ≡ true = ap (λ x. x == id) same ∙ ==_refl id in
      rw t (λ _. ap (has_ready es) same ∙ h, assign-Evaluated later actor id es ps h k.1)
  | inr other ↦ rw (==_false p.id id other) (k.0, assign-Evaluated later actor id es ps h k.1)
]

module _ (uuid : ℕ → String) (f : Floats) (now later : ℕ) (actor : String) where
  abbrev new : FinancialPeriod → Session → PeriodCloseEvaluation
  new p s = new_evaluation (uuid s.drawn) p.id (evaluate_close_readiness f now p s.current) actor

  close_locked-IsEvaluated :
      (p : FinancialPeriod) (s : Session)
      → IsEvaluated s
      → IsEvaluated (close_locked uuid f now later actor (some p) s).1
  unfolding close_locked close_evaluated add_evaluation new_evaluation
  close_locked-IsEvaluated p s sound =
      let before : All (Evaluated s.current.evaluations) s.current.periods =
        rw sound.committed sound.evaluated in
      elim (Bool-cases (evaluate_close_readiness f now p s.current).is_ready) [
        | inl ready ↦ rw ready (record {
          committed = refl;
          evaluated =
              assign-Evaluated later actor p.id (s.current.evaluations ++ _ ∷ []) s.current.periods
                (has_ready_self s.current.evaluations _ p.id refl refl)
                (Evaluated-append s.current.evaluations _ s.current.periods before);
        })
        | inr not_ready ↦ rw not_ready (record {
          committed = refl;
          evaluated = Evaluated-append s.current.evaluations _ s.current.periods before;
        })
      ]

  pub close_found :
      (period : FinancialPeriod) (s : Session) (l : List FinancialPeriod)
      → (period.status == "CLOSED") ≡ false
      → open_rows period.id s.current.periods ≡ l
      → close_period uuid f now later actor period s
        ≡ (lift (scalar_one_or_none multiple_results_found l)
              >>= close_locked uuid f now later actor)
            s
  unfolding close_period
  close_found period s l is_open e = rw is_open (
      ap
        (λ k.
          (lift (scalar_one_or_none multiple_results_found k)
              >>= close_locked uuid f now later actor)
            s)
        e)

  query-IsEvaluated :
      (l : List FinancialPeriod) (s : Session)
      → IsEvaluated s
      → IsEvaluated
          ((lift (scalar_one_or_none multiple_results_found l)
              >>= close_locked uuid f now later actor)
            s).1
  unfolding close_locked
  query-IsEvaluated [] s sound = sound
  query-IsEvaluated (p ∷ []) s sound = close_locked-IsEvaluated p s sound
  query-IsEvaluated (p ∷ p' ∷ l) s sound = sound

  close_period-IsEvaluated :
      (period : FinancialPeriod) (s : Session)
      → IsEvaluated s
      → IsEvaluated (close_period uuid f now later actor period s).1
  unfolding close_period
  close_period-IsEvaluated period s sound = elim (Bool-cases (period.status == "CLOSED")) [
    | inl t ↦ rw t sound
    | inr is_open ↦ rw is_open (query-IsEvaluated (open_rows period.id s.current.periods) s sound)
  ]

create_period-IsEvaluated :
    (uuid : ℕ → String) (name : String) (start end : ℕ) (s : Session)
    → IsEvaluated s
    → IsEvaluated (create_period uuid name start end s).1
unfolding create_period new_period
create_period-IsEvaluated uuid name start end s sound =
    let before : All (Evaluated s.current.evaluations) s.current.periods =
      rw sound.committed sound.evaluated in
    elim (Bool-cases (leb end start)) [
      | inl t ↦ rw t sound
      | inr f ↦ rw f (record {
        committed = refl;
        evaluated =
            All-append (Evaluated s.current.evaluations) s.current.periods (_ ∷ []) before
              ((λ is_closed. absurd (==_apart "OPEN" "CLOSED" refl is_closed)), tt);
      })
    ]

record_period_evaluation-IsEvaluated :
    (uuid : ℕ → String) (period : FinancialPeriod) (readiness : CloseReadiness) (actor : String)
    (s : Session)
    → IsEvaluated s
    → IsEvaluated (record_period_evaluation uuid period readiness actor s).1
unfolding record_period_evaluation add_evaluation
record_period_evaluation-IsEvaluated uuid period readiness actor s sound =
    let before : All (Evaluated s.current.evaluations) s.current.periods =
      rw sound.committed sound.evaluated in
    record {
      committed = refl;
      evaluated = Evaluated-append s.current.evaluations _ s.current.periods before;
    }

-- When nothing waits and each closed period has an evaluation that found it ready, this still
-- holds after a creation, an evaluation or a closing, whether it returns or raises.
pub run-IsEvaluated :
    (uuid : ℕ → String) (operation : Operation) (s : Session)
    → IsEvaluated s
    → IsEvaluated (run uuid operation s)
run-IsEvaluated uuid (create name start end) s sound =
    create_period-IsEvaluated uuid name start end s sound
run-IsEvaluated uuid (evaluate period readiness actor) s sound =
    record_period_evaluation-IsEvaluated uuid period readiness actor s sound
run-IsEvaluated uuid (close f now later actor period) s sound =
    close_period-IsEvaluated uuid f now later actor period s sound
