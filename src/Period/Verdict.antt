-- ===== src/Period/Verdict.antt =====
-- The verdict of `close_period` of services/period.py, and a second call.
use mathlib.Core.List.{Memᴰ}
use financial_ai_operator.Prelude.{
  ℕ, ◌≤◌, String, ◌≡◌, ◌≢◌, refl, ap, sym, ◌∙◌, ◌⊎◌, inl, inr, true, false, not, ◌&&◌, some, List,
  [], ◌∷◌, ◌++◌, arith, ◌==◌, string_eq, keep, Bool-cases, ==_refl, ==_false, ==_true, ==_cases,
}
use financial_ai_operator.Prelude.Outcome.{Result, ok, err, lift, ◌>>=◌, err≢ok, ok_inj}
use financial_ai_operator.Prelude.Members.{keep_twice, Mem-keep}
use financial_ai_operator.Table.{scalar_one_or_none, rows}
use financial_ai_operator.Period.Model.{
  FinancialPeriod, Floats, PeriodCloseEvaluation, blocked, control_status_eq, CloseControlResult,
}
use financial_ai_operator.Period.Readiness.{evaluate_close_readiness, unblocked}
use financial_ai_operator.Period.Store.{
  Session, Error, already_closed, state_mismatch, multiple_results_found, blocked_from_closing,
}
use financial_ai_operator.Period.Closing.{
  period_key, new_evaluation, add_evaluation, closed_row, assign_closed, open_rows, blocking_count,
  close_evaluated, close_locked, close_period,
}
use financial_ai_operator.Period.Controls.{IsClear, readiness_iff_IsClear}
use financial_ai_operator.Period.Closed.{close_found}

-- A period that is not ready has a blocker to report.
blocked_counted : (cs : List CloseControlResult) → unblocked cs ≡ false → 1 ≤ blocking_count cs
unfolding unblocked blocking_count
blocked_counted [] h = cc
blocked_counted (c ∷ cs) h = elim (Bool-cases (c.status == blocked)) [
  | inl t ↦ rw t (omega arith)
  | inr f ↦ let h' : unblocked cs ≡ false = rw f at h in rw f (blocked_counted cs h')
]

open_rows-one :
    (id : String) (ps : List FinancialPeriod) (row : FinancialPeriod)
    → rows period_key id ps ≡ row ∷ []
    → row.status ≢ "CLOSED"
    → open_rows id ps ≡ row ∷ []
unfolding open_rows
open_rows-one id ps row e is_open =
    sym (keep_twice (λ p. p.id == id) (λ p. not (p.status == "CLOSED")) ps)
    ∙ ap (keep (λ p. not (p.status == "CLOSED"))) e
    ∙ rw (==_false row.status "CLOSED" is_open) refl

-- After the closing no row with the identifier is open.
open_rows-closed :
    (later : ℕ) (actor id : String) (ps : List FinancialPeriod)
    → open_rows id (assign_closed later actor id ps) ≡ []
unfolding open_rows assign_closed closed_row
open_rows-closed later actor id [] = refl
open_rows-closed later actor id (p ∷ ps) = elim (==_cases p.id id) [
  | inl same ↦
      let t : (p.id == id) ≡ true = ap (λ x. x == id) same ∙ ==_refl id in
      rw (t, t) (open_rows-closed later actor id ps)
  | inr other ↦
      rw (==_false p.id id other, ==_false p.id id other) (open_rows-closed later actor id ps)
]

open_rows-key :
    (id : String) (ps : List FinancialPeriod) (p : FinancialPeriod) (l : List FinancialPeriod)
    → open_rows id ps ≡ p ∷ l
    → p.id ≡ id
unfolding open_rows
open_rows-key id ps p l e =
    let m : Memᴰ p (open_rows id ps) = rw e (Memᴰ.head refl) in
    let (_, k) = Mem-keep (λ q. (q.id == id) && not (q.status == "CLOSED")) p ps m in
    ==_true p.id id (ground (arith, k))

module _ (uuid : ℕ → String) (f : Floats) (now later : ℕ) (actor : String) where
  abbrev pub close : FinancialPeriod → Session → Result Error FinancialPeriod × Session
  close period s = close_period uuid f now later actor period s

  abbrev pub evaluation : FinancialPeriod → Session → PeriodCloseEvaluation
  evaluation row s =
      new_evaluation (uuid s.drawn) row.id (evaluate_close_readiness f now row s.current) actor

  -- The period is clear, and it is closed.
  pub record Closes (period row : FinancialPeriod) (s s' : Session) : Type 0 where
    pub clear : IsClear row s.current
    pub returned : close period s ≡ (ok (closed_row later actor row), s')
    pub periods : s'.saved.periods ≡ assign_closed later actor row.id s.current.periods
    pub evaluations : s'.saved.evaluations ≡ s.current.evaluations ++ evaluation row s ∷ []

  -- A row blocks, the call raises with the number of blockers, and the evaluation is saved.
  pub record Blocks (period row : FinancialPeriod) (s s' : Session) : Type 0 where
    pub blockers : ℕ
    pub unclear : ¬ (IsClear row s.current)
    pub raised : close period s ≡ (err (blocked_from_closing blockers), s')
    pub positive : 1 ≤ blockers
    pub periods : s'.saved.periods ≡ s.current.periods
    pub evaluations : s'.saved.evaluations ≡ s.current.evaluations ++ evaluation row s ∷ []

  close_one :
      (period row : FinancialPeriod) (s : Session)
      → rows period_key period.id s.current.periods ≡ row ∷ []
      → row.status ≢ "CLOSED"
      → period.status ≢ "CLOSED"
      → close period s ≡ close_locked uuid f now later actor (some row) s
  close_one period row s its_row is_open not_closed =
      close_found uuid f now later actor period s (row ∷ [])
        (==_false period.status "CLOSED" not_closed)
        (open_rows-one period.id s.current.periods row its_row is_open)

  -- When the loaded period is not closed, and its identifier has one row, which is not closed
  -- either, close_period closes it if, of the rows that were created in it, each payment is RECONCILED,
  -- each discrepancy has a request with an execution that SUCCEEDED, no investigation is PENDING or
  -- FAILED, no request is PENDING_APPROVAL, and no execution is PENDING, RUNNING or UNKNOWN.
  -- Otherwise it raises with a positive number of blockers and leaves the periods. Both save the
  -- evaluation. Settlements and investigations of other statuses do not count.
  pub close_period_verdict :
      (period row : FinancialPeriod) (s : Session)
      → rows period_key period.id s.current.periods ≡ row ∷ []
      → row.status ≢ "CLOSED"
      → period.status ≢ "CLOSED"
      → (s' : Session) × (Closes period row s s' ⊎ Blocks period row s s')
  unfolding close_locked close_evaluated new_evaluation add_evaluation evaluate_close_readiness
  close_period_verdict period row s its_row is_open not_closed =
      let e = close_one period row s its_row is_open not_closed in
      let s' = (close_locked uuid f now later actor (some row) s).1 in
      elim (Bool-cases (evaluate_close_readiness f now row s.current).is_ready) [
        | inl ready ↦ (
          s',
          inl (record {
            clear = (readiness_iff_IsClear row s.current f now).0 ready;
            returned = e ∙ rw ready refl;
            periods = rw ready refl;
            evaluations = rw ready refl;
          }),
        )
        | inr not_ready ↦ (
          s',
          inr (record {
            blockers = (evaluation row s).blocking_count;
            unclear = λ c.
                let t : (evaluate_close_readiness f now row s.current).is_ready ≡ true =
                  (readiness_iff_IsClear row s.current f now).1 c in
                cc;
            raised = e ∙ rw not_ready refl;
            positive =
                blocked_counted (evaluate_close_readiness f now row s.current).controls not_ready;
            periods = rw not_ready refl;
            evaluations = rw not_ready refl;
          }),
        )
      ]

  -- What a closing that returned has assigned.
  locked_periods :
      (row p : FinancialPeriod) (s s' : Session)
      → close_locked uuid f now later actor (some row) s ≡ (ok p, s')
      → (s'.current.periods ≡ assign_closed later actor row.id s.current.periods)
        × (p ≡ closed_row later actor row)
  unfolding close_locked close_evaluated add_evaluation new_evaluation
  locked_periods row p s s' h =
      elim (Bool-cases (evaluate_close_readiness f now row s.current).is_ready) [
        | inl ready ↦
            let here = close_locked uuid f now later actor (some row) s in
            let assigned : here.1.current.periods
                ≡ assign_closed later actor row.id s.current.periods =
              rw ready refl in
            let value : here.0 ≡ ok (closed_row later actor row) = rw ready refl in
            (
              ap (λ q. q.1.current.periods) (sym h) ∙ assigned,
              ok_inj here.0 (ap (λ q. q.0) h) value,
            )
        | inr not_ready ↦
            let here = close_locked uuid f now later actor (some row) s in
            let value : here.0 ≡ err (blocked_from_closing (evaluation row s).blocking_count) =
              rw not_ready refl in
            absurd (err≢ok (sym value ∙ ap (λ q. q.0) h))
      ]

  locked_row :
      (l : List FinancialPeriod) (p : FinancialPeriod) (s s' : Session)
      → (lift (scalar_one_or_none multiple_results_found l) >>= close_locked uuid f now later actor)
          s
        ≡ (ok p, s')
      → (row : FinancialPeriod) × (l ≡ row ∷ [])
        × (close_locked uuid f now later actor (some row) s ≡ (ok p, s'))
  unfolding close_locked
  locked_row [] p s s' h = absurd (err≢ok (ap (λ q. q.0) h))
  locked_row (row ∷ []) p s s' h = (row, refl, h)
  locked_row (row ∷ row' ∷ l) p s s' h = absurd (err≢ok (ap (λ q. q.0) h))

  closed_periods :
      (period p : FinancialPeriod) (s s' : Session)
      → close period s ≡ (ok p, s')
      → s'.current.periods ≡ assign_closed later actor period.id s.current.periods
  unfolding close_period
  closed_periods period p s s' h = elim (Bool-cases (period.status == "CLOSED")) [
    | inl t ↦
        let value : (close period s).0 ≡ err already_closed = rw t refl in
        absurd (err≢ok (sym value ∙ ap (λ q. q.0) h))
    | inr is_open ↦
        let l = open_rows period.id s.current.periods in
        let (row, e, k) =
          locked_row l p s s'
            (sym (close_found uuid f now later actor period s l is_open refl) ∙ h) in
        (locked_periods row p s s' k).0
        ∙ ap (λ id. assign_closed later actor id s.current.periods)
            (open_rows-key period.id s.current.periods row [] e)
  ]

  -- Once close_period has returned, a call for the same identifier, with whatever copy of the
  -- row, by whomever and whenever, is refused and changes nothing.
  pub close_twice :
      (period other p : FinancialPeriod) (s s' : Session) (now' later' : ℕ) (actor' : String)
      → close period s ≡ (ok p, s')
      → other.id ≡ period.id
      → (close_period uuid f now' later' actor' other s' ≡ (err already_closed, s'))
        ⊎ (close_period uuid f now' later' actor' other s' ≡ (err state_mismatch, s'))
  unfolding close_period close_locked
  close_twice period other p s s' now' later' actor' h same =
      elim (Bool-cases (other.status == "CLOSED")) [
        | inl t ↦ inl (rw t refl)
        | inr is_open ↦ inr (
            close_found uuid f now' later' actor' other s' [] is_open (
              ap (open_rows other.id) (closed_periods period p s s' h)
              ∙ ap (λ id. open_rows other.id (assign_closed later actor id s.current.periods))
                  (sym same)
              ∙ open_rows-closed later actor other.id s.current.periods))
      ]
