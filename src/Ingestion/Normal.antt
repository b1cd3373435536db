-- ===== src/Ingestion/Normal.antt =====
-- What services/ingestion/validation.py guarantees of a row that it found valid.
use mathlib.Core.List.{Memᴰ}
use mathlib.Core.Path.{subst}
use financial_ai_operator.Prelude.{
  String, ◌≡◌, ◌≢◌, refl, inl, inr, true, not, ◌||◌, Option, none, some, List, arith, ◌==◌,
  string_eq, ==_true, nat_eq, Option-cases,
}
use financial_ai_operator.Prelude.Int.{negsuc, ◌≤ℤ◌, ltb_ℤ}
use financial_ai_operator.Prelude.Outcome.{ok, err≢ok, ok_inj}
use financial_ai_operator.Prelude.Checked.{checked_ok, unless_ok, when_ok}
use financial_ai_operator.Prelude.Members.{Mem_of-any}
use financial_ai_operator.Ingestion.Model.{
  Value, null, flag, whole, floating, text, texts, nested, Decimal, Number, finite, not_finite,
  Datetime, Runtime, invalid_amount, invalid_currency, invalid_status, malformed_date,
}
use financial_ai_operator.Ingestion.Fields.{
  contains, supported_currencies, parse_number, at_most_4_places, parse_amount, in_zone,
  parse_datetime, parse_currency, parse_enum,
}

contains-Mem : (x : String) (xs : List String) → contains x xs ≡ true → Memᴰ x xs
unfolding contains
contains-Mem x xs h =
    let (y, m, e) = Mem_of-any (λ y. y == x) xs h in subst (λ z. Memᴰ z xs) (==_true y x e) m

-- At most four decimal places.
abbrev pub IsAmount : Decimal → Type 0
IsAmount d = negsuc 3 ≤ℤ d.exponent

abbrev pub IsZoned : Datetime → Type 0
IsZoned d = d.tzinfo ≢ none

module _ (py : Runtime) where
  parse_number_ok : (n : Option Number) (d : Decimal) → parse_number n ≡ ok d → IsAmount d
  unfolding parse_number at_most_4_places
  parse_number_ok none d h = absurd (err≢ok h)
  parse_number_ok (some not_finite) d h = absurd (err≢ok h)
  parse_number_ok (some (finite c)) d h =
      let (f, e) = unless_ok (ltb_ℤ c.exponent (negsuc 3)) invalid_amount (ok c) h in
      subst IsAmount (ok_inj (ok c) refl e) (ground (arith, f))

  pub parse_amount_ok : (v : Value) (d : Decimal) → parse_amount py v ≡ ok d → IsAmount d
  unfolding parse_amount
  parse_amount_ok null d h = absurd (err≢ok h)
  parse_amount_ok (flag b) d h = absurd (err≢ok h)
  parse_amount_ok (whole n) d h = parse_number_ok (py.decimal (py.str_int n)) d h
  parse_amount_ok (floating n) d h = absurd (err≢ok h)
  parse_amount_ok (text t) d h = parse_number_ok (py.decimal t) d h
  parse_amount_ok (texts t) d h = absurd (err≢ok h)
  parse_amount_ok (nested t) d h = absurd (err≢ok h)

  pub parse_currency_ok :
      (v : Value) (c : String) → parse_currency py v ≡ ok c → Memᴰ c supported_currencies
  unfolding parse_currency
  parse_currency_ok (text t) c h =
      let (_, h') = unless_ok (not (py.len t == 3) || not (py.isalpha t)) invalid_currency _ h in
      let (m, e) =
        when_ok (contains (py.upper t) supported_currencies) invalid_currency (ok (py.upper t))
          h' in
      subst (λ x. Memᴰ x supported_currencies) (ok_inj (ok (py.upper t)) refl e)
        (contains-Mem (py.upper t) supported_currencies m)
  parse_currency_ok null c h = absurd (err≢ok h)
  parse_currency_ok (flag b) c h = absurd (err≢ok h)
  parse_currency_ok (whole n) c h = absurd (err≢ok h)
  parse_currency_ok (floating n) c h = absurd (err≢ok h)
  parse_currency_ok (texts t) c h = absurd (err≢ok h)
  parse_currency_ok (nested t) c h = absurd (err≢ok h)

  pub parse_enum_ok :
      (allowed : List String) (v : Value) (c : String)
      → parse_enum py allowed v ≡ ok c
      → Memᴰ c allowed
  unfolding parse_enum
  parse_enum_ok allowed (text t) c h =
      let (m, e) =
        when_ok (contains (py.upper (py.strip t)) allowed) invalid_status
          (ok (py.upper (py.strip t))) h in
      subst (λ x. Memᴰ x allowed) (ok_inj (ok (py.upper (py.strip t))) refl e)
        (contains-Mem (py.upper (py.strip t)) allowed m)
  parse_enum_ok allowed null c h = absurd (err≢ok h)
  parse_enum_ok allowed (flag b) c h = absurd (err≢ok h)
  parse_enum_ok allowed (whole n) c h = absurd (err≢ok h)
  parse_enum_ok allowed (floating n) c h = absurd (err≢ok h)
  parse_enum_ok allowed (texts t) c h = absurd (err≢ok h)
  parse_enum_ok allowed (nested t) c h = absurd (err≢ok h)

  in_zone-IsZoned : (d : Datetime) → IsZoned (in_zone d)
  unfolding in_zone
  in_zone-IsZoned d = elim (Option-cases d.tzinfo) [
    | inl e ↦ rw e (λ h. cc)
    | inr (z, e) ↦ rw e (λ h. cc)
  ]

  pub parse_datetime_ok : (v : Value) (d : Datetime) → parse_datetime py v ≡ ok d → IsZoned d
  unfolding parse_datetime
  parse_datetime_ok (text t) d h =
      let (_, h') = unless_ok (py.strip t == "") malformed_date _ h in
      let (x, _, e) = checked_ok _ (λ y. ok (in_zone y)) h' in
      subst IsZoned (ok_inj (ok (in_zone x)) refl e) (in_zone-IsZoned x)
  parse_datetime_ok null d h = absurd (err≢ok h)
  parse_datetime_ok (flag b) d h = absurd (err≢ok h)
  parse_datetime_ok (whole n) d h = absurd (err≢ok h)
  parse_datetime_ok (floating n) d h = absurd (err≢ok h)
  parse_datetime_ok (texts t) d h = absurd (err≢ok h)
  parse_datetime_ok (nested t) d h = absurd (err≢ok h)
