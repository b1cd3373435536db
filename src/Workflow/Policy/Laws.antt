-- ===== src/Workflow/Policy/Laws.antt =====
-- What services/policy/engine.py promises: decisions by rule, and no second row for a decision.
use mathlib.Core.Path.{subst}
use financial_ai_operator.Prelude.{
  ℕ, ◌+◌, String, ◌≡◌, refl, sym, ap, ◌∙◌, inl, inr, Bool, true, some, List, [], ◌∷◌, ◌++◌, ◌==◌,
  string_eq, pair_eq, All, All-append, ==_refl, leb, Bool-cases, if◌then◌else◌,
}
use financial_ai_operator.Prelude.Outcome.{ok, pure, lift, ◌>>=◌}
use financial_ai_operator.Table.{rows, scalar_one_or_none}
use financial_ai_operator.Table.Laws.{row-key, rows-key, row-added}
use financial_ai_operator.Workflow.Model.{
  PolicyAction, request_manual_review, retry_investigation, resolve_discrepancy,
  reject_recommendation, escalate, approval_required, Investigation, PolicyEvaluation,
  policy_action_eq, policy_decision_eq, PolicyDecision-discrete,
}
use financial_ai_operator.Workflow.Store.{Tables, Session, multiple_results_found}
use financial_ai_operator.Workflow.Policy.{
  ruling, evaluation_key, later, newest, agrees, new_evaluation, record_evaluation, reuse_or_record,
  evaluate_found, evaluate,
}

-- The evaluation says what the rule of its action says.
pub record IsRuled (e : PolicyEvaluation) : Type 0 where
  pub same_decision : e.decision ≡ (ruling e.action).decision
  pub same_code : e.rule_code ≡ (ruling e.action).rule_code
  pub same_flag : e.approval_required ≡ (ruling e.action).approval_required

new_evaluation-IsRuled :
    (id : String) (now : ℕ) (i : Investigation) (action : PolicyAction)
    → IsRuled (new_evaluation id now i action)
unfolding new_evaluation
new_evaluation-IsRuled id now i action = record {
  same_decision = refl;
  same_code = refl;
  same_flag = refl;
}

-- An evaluation by the rules asks for an approval exactly when it is one of the three actions that change something,
-- and its flag says so.
ruled_flag :
    (e : PolicyEvaluation) → IsRuled e → e.approval_required ≡ (e.decision == approval_required)
unfolding ruling PolicyDecision-discrete
ruled_flag e h =
    h.same_flag ∙ flag e.action ∙ ap (λ d. d == approval_required) (sym h.same_decision)
  where
    flag :
        (a : PolicyAction)
        → (ruling a).approval_required ≡ ((ruling a).decision == approval_required)
    flag request_manual_review = refl
    flag retry_investigation = refl
    flag resolve_discrepancy = refl
    flag reject_recommendation = refl
    flag escalate = refl

ruled-agrees :
    (investigation_id : String) (action : PolicyAction) (e : PolicyEvaluation)
    → IsRuled e
    → e.action ≡ action
    → agrees (ruling action) e ≡ true
unfolding agrees
ruled-agrees investigation_id action e h same = rw (
  ← same,
  h.same_decision,
  h.same_code,
  ==_refl (ruling e.action).decision,
  ==_refl (ruling e.action).rule_code,
)

-- The newest of some rows is one of them.
newest-All :
    (P : PolicyEvaluation → Type 0) (e : PolicyEvaluation) (es : List PolicyEvaluation)
    → All P (e ∷ es)
    → (e' : PolicyEvaluation) × (newest (e ∷ es) ≡ some e') × P e'
unfolding newest later
newest-All P e [] (p, ps) = (e, refl, p)
newest-All P e (x ∷ es) (p, ps) =
    let (y, same, q) = newest-All P x es ps in
    elim (Bool-cases (leb y.created_at e.created_at)) [
      | inl b ↦
          (e, ap (λ o. some (later e o)) same ∙ ap (λ (t : Bool). some (if t then e else y)) b, p)
      | inr b ↦
          (y, ap (λ o. some (later e o)) same ∙ ap (λ (t : Bool). some (if t then e else y)) b, q)
    ]

-- What one call does to a session, for an investigation that is there.
abbrev added : PolicyEvaluation → Session → Session
added e s =
    let t : Tables = record s.current { evaluations = s.current.evaluations ++ e ∷ [] } in
    record s { saved = t; current = t; drawn = s.drawn + 1 }

module _ (uuid : ℕ → String) (now : ℕ) (investigation_id : String) (action : PolicyAction)
    (i : Investigation) where
  found-new :
      (s : Session)
      → rows evaluation_key (investigation_id, action) s.current.evaluations ≡ []
      → evaluate_found uuid now investigation_id action (some i) s ≡ (
        ok (new_evaluation (uuid s.drawn) now i action),
        added (new_evaluation (uuid s.drawn) now i action) s,
      )
  unfolding evaluate_found reuse_or_record record_evaluation newest
  found-new s e = ap (λ l. reuse_or_record uuid now i action (newest l) s) e

  found-old :
      (s : Session) (e : PolicyEvaluation) (es : List PolicyEvaluation)
      → All IsRuled s.current.evaluations
      → rows evaluation_key (investigation_id, action) s.current.evaluations ≡ e ∷ es
      → (e' : PolicyEvaluation) × (newest (e ∷ es) ≡ some e')
        × IsRuled e'
        × (evaluate_found uuid now investigation_id action (some i) s ≡ (ok e', s))
  unfolding evaluate_found reuse_or_record
  found-old s e es ruled same =
      let all : All (λ x. (evaluation_key x ≡ (investigation_id, action)) × IsRuled x) (e ∷ es) =
        subst (All (λ x. (evaluation_key x ≡ (investigation_id, action)) × IsRuled x)) same (
          rows-key evaluation_key IsRuled (investigation_id, action) s.current.evaluations ruled) in
      let (e', is_newest, kr) =
        newest-All (λ x. (evaluation_key x ≡ (investigation_id, action)) × IsRuled x) e es all in
      let agreed = ruled-agrees investigation_id action e' kr.1 (ap (λ k. k.1) kr.0) in
      (
        e',
        is_newest,
        kr.1,
        ap (λ l. reuse_or_record uuid now i action (newest l) s) same
            ∙ ap (λ o. reuse_or_record uuid now i action o s) is_newest
            ∙ ap (λ (b : Bool). (if b then pure e' else record_evaluation uuid now i action) s)
                agreed,
      )

new_evaluation-key :
    (id : String) (now : ℕ) (i : Investigation) (action : PolicyAction)
    → evaluation_key (new_evaluation id now i action) ≡ (i.id, action)
unfolding new_evaluation
new_evaluation-key id now i action = refl

some-inj : {a b : PolicyEvaluation} → some a ≡ some b → a ≡ b
some-inj e = cc

newest_only : (e e' : PolicyEvaluation) → newest (e ∷ []) ≡ some e' → e ≡ e'
unfolding newest later
newest_only e e' h = some-inj h

abbrev pub investigation_id_of : Investigation → String
investigation_id_of i = i.id

query-found :
    (uuid : ℕ → String) (now : ℕ) (investigation_id : String) (action : PolicyAction)
    (i : Investigation) (s : Session)
    → rows investigation_id_of investigation_id s.current.investigations ≡ i ∷ []
    → evaluate uuid now investigation_id action s
      ≡ evaluate_found uuid now investigation_id action (some i) s
unfolding evaluate
query-found uuid now investigation_id action i s e =
    ap
      (λ l.
        (lift (scalar_one_or_none multiple_results_found l)
            >>= evaluate_found uuid now investigation_id action)
          s)
      e

-- When one investigation has the identifier and the evaluations of the session say
-- what the rules say, an evaluation returns a row that says what the rule says, leaves only such rows, and
-- the same call later, at another instant, returns the same row and changes nothing.
pub evaluate_twice :
    (uuid uuid' : ℕ → String) (now now' : ℕ) (investigation_id : String) (action : PolicyAction)
    (i : Investigation) (s : Session)
    → rows investigation_id_of investigation_id s.current.investigations ≡ i ∷ []
    → All IsRuled s.current.evaluations
    → (e : PolicyEvaluation) × (s' : Session) × (evaluate uuid now investigation_id action s
        ≡ (ok e, s'))
      × IsRuled e
      × All IsRuled s'.current.evaluations
      × (evaluate uuid' now' investigation_id action s' ≡ (ok e, s'))
evaluate_twice uuid uuid' now now' investigation_id action i s found ruled =
    go (rows evaluation_key (investigation_id, action) s.current.evaluations) refl
  where
    go :
        (l : List PolicyEvaluation)
        → rows evaluation_key (investigation_id, action) s.current.evaluations ≡ l
        → (e : PolicyEvaluation) × (s' : Session) × (evaluate uuid now investigation_id action s
            ≡ (ok e, s'))
          × IsRuled e
          × All IsRuled s'.current.evaluations
          × (evaluate uuid' now' investigation_id action s' ≡ (ok e, s'))
    go [] none_yet =
        let e = new_evaluation (uuid s.drawn) now i action in
        let s' = added e s in
        let ruled' =
          All-append IsRuled s.current.evaluations (e ∷ []) ruled
            (new_evaluation-IsRuled (uuid s.drawn) now i action, tt) in
        let own : evaluation_key e ≡ (investigation_id, action) =
          new_evaluation-key (uuid s.drawn) now i action
          ∙ ap (λ k. (k, action))
              (row-key investigation_id_of investigation_id s.current.investigations i [] found) in
        let now_one : rows evaluation_key (investigation_id, action) s'.current.evaluations
            ≡ e ∷ [] =
          row-added evaluation_key (investigation_id, action) s.current.evaluations e own
            none_yet in
        let (e', newest_one, r, again) =
          found-old uuid' now' investigation_id action i s' e [] ruled' now_one in
        (
          e,
          s',
          query-found uuid now investigation_id action i s found
              ∙ found-new uuid now investigation_id action i s none_yet,
          new_evaluation-IsRuled (uuid s.drawn) now i action,
          ruled',
          query-found uuid' now' investigation_id action i s' found
              ∙ again
              ∙ ap (λ x. (ok x, s')) (sym (newest_only e e' newest_one)),
        )
    go (e ∷ es) some_there =
        let (e', is_newest, r, first) =
          found-old uuid now investigation_id action i s e es ruled some_there in
        let (e'', is_newest', r', again) =
          found-old uuid' now' investigation_id action i s e es ruled some_there in
        (
          e',
          s,
          query-found uuid now investigation_id action i s found ∙ first,
          r,
          ruled,
          query-found uuid' now' investigation_id action i s found
              ∙ again
              ∙ ap (λ x. (ok x, s)) (some-inj (sym is_newest' ∙ is_newest)),
        )
