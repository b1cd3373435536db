-- ===== src/Period/Metrics.antt =====
-- `calculate_period_metrics` of services/period.py.
use financial_ai_operator.Prelude.{
  ℕ, ◌+◌, String, not, ◌&&◌, Option, none, some, List, [], ◌∷◌, map, ◌==◌, string_eq, if◌then◌else◌,
  keep, length,
}
use financial_ai_operator.Prelude.Int.{ℤ, pos, ◌+ℤ◌, eqb_ℤ}
use financial_ai_operator.Period.Model.{
  FinancialPeriod, Float, Floats, CurrencyMetrics, PeriodMetrics, Payment, Entry, Tables, within,
}

-- The columns of a payment that the sums read.
unfoldable pub entry_of : Payment → Entry
entry_of p = record { created_at = p.created_at; currency = p.currency; amount = p.amount }

-- The rows behind one row of a statement with `group_by`.
unfoldable pub group : FinancialPeriod → String → List Entry → List Entry
unfolding within
group period currency entries =
    keep (λ e. within period e.created_at && (e.currency == currency)) entries

-- `func.sum`
unfoldable pub total : List Entry → ℤ
total [] = pos 0
total (e ∷ es) = e.amount +ℤ total es

module _ (f : Floats) where
  -- `float(row[2]) if row[2] else 0.0`
  unfoldable pub amount_or_zero : ℤ → Float
  amount_or_zero x = if eqb_ℤ x (pos 0) then f.zero else f.of_decimal x

  -- `CurrencyMetrics()`
  unfoldable pub no_metrics : CurrencyMetrics
  no_metrics = record {
    transaction_count = 0;
    total_amount = f.zero;
    payments_count = 0;
    payments_amount = f.zero;
    refunds_count = 0;
    refunds_amount = f.zero;
    fees_count = 0;
    fees_amount = f.zero;
    settlements_count = 0;
    settlements_amount = f.zero;
    bank_transactions_count = 0;
    bank_transactions_amount = f.zero;
  }

  -- `get_curr`
  unfoldable pub get_curr : Option CurrencyMetrics → CurrencyMetrics
  unfolding no_metrics
  get_curr none = no_metrics
  get_curr (some c) = c

  -- The body of a loop over the rows of a statement, at the row of one currency if there is one.
  unfoldable pub with_group :
      (ℕ → Float → CurrencyMetrics → CurrencyMetrics)
      → List Entry
      → Option CurrencyMetrics
      → Option CurrencyMetrics
  unfolding total amount_or_zero get_curr
  with_group update [] m = m
  with_group update (e ∷ es) m =
      some (update (length (e ∷ es)) (amount_or_zero (total (e ∷ es))) (get_curr m))

  unfoldable pub add_payments : ℕ → Float → CurrencyMetrics → CurrencyMetrics
  add_payments n x c = record c {
    payments_count = n;
    payments_amount = x;
    transaction_count = c.transaction_count + n;
    total_amount = f.add c.total_amount x;
  }

  unfoldable pub add_refunds : ℕ → Float → CurrencyMetrics → CurrencyMetrics
  add_refunds n x c = record c {
    refunds_count = n;
    refunds_amount = x;
    transaction_count = c.transaction_count + n;
    total_amount = f.add c.total_amount x;
  }

  unfoldable pub add_fees : ℕ → Float → CurrencyMetrics → CurrencyMetrics
  add_fees n x c = record c {
    fees_count = n;
    fees_amount = x;
    transaction_count = c.transaction_count + n;
    total_amount = f.sub c.total_amount x;
  }

  unfoldable pub add_settlements : ℕ → Float → CurrencyMetrics → CurrencyMetrics
  add_settlements n x c = record c { settlements_count = n; settlements_amount = x }

  unfoldable pub add_bank_transactions : ℕ → Float → CurrencyMetrics → CurrencyMetrics
  add_bank_transactions n x c = record c {
    bank_transactions_count = n;
    bank_transactions_amount = x;
  }

  unfoldable pub currency_metrics : FinancialPeriod → Tables → String → Option CurrencyMetrics
  unfolding group with_group add_payments add_refunds add_fees add_settlements add_bank_transactions
      entry_of
  currency_metrics period t currency =
      with_group add_bank_transactions (group period currency t.bank_transactions) (
        with_group add_settlements (group period currency t.settlements) (
          with_group add_fees (group period currency t.fees) (
            with_group add_refunds (group period currency t.refunds)
              (with_group add_payments (group period currency (map entry_of t.payments)) none))))

  unfoldable pub calculate_period_metrics : FinancialPeriod → Tables → PeriodMetrics
  unfolding within currency_metrics
  calculate_period_metrics period t = record {
    metrics_by_currency = currency_metrics period t;
    reconciled_count =
        length (keep (λ p. within period p.created_at && (p.status == "RECONCILED")) t.payments);
    unreconciled_count =
        length
          (keep (λ p. within period p.created_at && not (p.status == "RECONCILED")) t.payments);
    discrepancy_count = length (keep (λ d. within period d.created_at) t.discrepancies);
    investigation_count = length (keep (λ i. within period i.created_at) t.investigations);
    action_request_count = length (keep (λ r. within period r.created_at) t.requests);
    execution_failures = 0;
    execution_unknowns = 0;
  }
