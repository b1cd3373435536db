-- ===== src/Ingestion/Fields.antt =====
-- The canonical values of services/ingestion/validation.py.
use Prim.Native.String.{◌++◌ as ◌+++◌}
use financial_ai_operator.Prelude.{
  ℕ, ◌*◌, String, Bool, true, false, not, ◌||◌, Option, none, some, List, [], ◌∷◌, ◌==◌, string_eq,
  nat_eq, if◌then◌else◌, any,
}
use financial_ai_operator.Prelude.Int.{pos, negsuc, ltb_ℤ}
use financial_ai_operator.Prelude.Outcome.{Result, ok, err}
use financial_ai_operator.Prelude.Checked.{◌>>=◌}
use financial_ai_operator.Ingestion.Model.{
  Value, null, whole, text, Row, Decimal, Number, finite, not_finite, Datetime, Runtime, ErrorCode,
  missing_required_field, invalid_amount, invalid_currency, malformed_date, invalid_status,
  invalid_reference, invalid_field, Reference, by_id, by_external_id,
}

unfoldable pub lookup : String → Row → Option Value
lookup key [] = none
lookup key (item ∷ row) = let rest = lookup key row in if item.0 == key then some item.1 else rest

-- `row.get(key)`
unfoldable pub get : String → Row → Value
unfolding lookup
get key row = elim (lookup key row) [ none ↦ null | some v ↦ v ]

unfoldable pub contains : String → List String → Bool
contains x xs = any (λ y. y == x) xs

-- `Currency`
unfoldable pub supported_currencies : List String
supported_currencies = "USD" ∷ "EUR" ∷ "GBP" ∷ "INR" ∷ "CAD" ∷ "AUD" ∷ "JPY" ∷ []

unfoldable pub at_most_4_places : Decimal → Result ErrorCode Decimal
at_most_4_places d = if ltb_ℤ d.exponent (negsuc 3) then err invalid_amount else ok d

unfoldable pub parse_number : Option Number → Result ErrorCode Decimal
unfolding at_most_4_places
parse_number none = err invalid_amount
parse_number (some not_finite) = err invalid_amount
parse_number (some (finite d)) = at_most_4_places d

unfoldable pub date_or_raise : Option ℕ → Result ErrorCode Datetime
date_or_raise none = err malformed_date
date_or_raise (some day) = ok (record { microseconds = day * 86400000000; tzinfo = none })

-- A datetime without a zone is in UTC.
unfoldable pub in_zone : Datetime → Datetime
in_zone d = elim d.tzinfo [ none ↦ record d { tzinfo = some (pos 0) } | some z ↦ d ]

unfoldable pub present : Option String → Result ErrorCode String
present none = err missing_required_field
present (some t) = ok t

unfoldable pub one_reference :
    Bool → Option String → Option String → Result ErrorCode (Option Reference)
one_reference required (some i) (some e) = err invalid_reference
one_reference required (some i) none = ok (some (by_id i))
one_reference required none (some e) = ok (some (by_external_id e))
one_reference true none none = err missing_required_field
one_reference false none none = ok none

module _ (py : Runtime) where
  unfoldable pub parse_amount : Value → Result ErrorCode Decimal
  unfolding parse_number
  parse_amount (whole n) = parse_number (py.decimal (py.str_int n))
  parse_amount (text t) = parse_number (py.decimal t)
  parse_amount _ = err invalid_amount

  -- The trailing mark of UTC is spelled out.
  unfoldable pub without_z : String → String
  without_z raw =
      if py.endswith raw "Z" || py.endswith raw "z" then py.without_last raw +++ "+00:00" else raw

  unfoldable pub datetime_or_date : String → Option Datetime → Result ErrorCode Datetime
  unfolding date_or_raise
  datetime_or_date raw (some d) = ok d
  datetime_or_date raw none = date_or_raise (py.date_fromisoformat raw)

  unfoldable pub parse_datetime : Value → Result ErrorCode Datetime
  unfolding without_z datetime_or_date in_zone
  parse_datetime (text t) =
      if py.strip t == ""
      then err malformed_date
      else (datetime_or_date (without_z (py.strip t)) (py.fromisoformat (without_z (py.strip t)))
          >>= λ d. ok (in_zone d))
  parse_datetime _ = err malformed_date

  unfoldable pub parse_currency : Value → Result ErrorCode String
  unfolding contains supported_currencies
  parse_currency (text t) =
      if not (py.len t == 3) || not (py.isalpha t)
      then err invalid_currency
      else (if contains (py.upper t) supported_currencies
          then ok (py.upper t)
          else err invalid_currency)
  parse_currency _ = err invalid_currency

  unfoldable pub parse_enum : List String → Value → Result ErrorCode String
  unfolding contains
  parse_enum allowed (text t) =
      if contains (py.upper (py.strip t)) allowed
      then ok (py.upper (py.strip t))
      else err invalid_status
  parse_enum allowed _ = err invalid_status

  unfoldable pub opt_str : Value → Result ErrorCode (Option String)
  opt_str null = ok none
  opt_str (text t) = if py.strip t == "" then err invalid_field else ok (some (py.strip t))
  opt_str _ = err invalid_field

  unfoldable pub req_str : Value → Result ErrorCode String
  unfolding opt_str present
  req_str v = opt_str v >>= present

  -- From the values under `<entity>_id` and `<entity>_external_id`.
  unfoldable pub reference_from_row :
      String → String → Bool → Row → Result ErrorCode (Option Reference)
  unfolding get opt_str one_reference
  reference_from_row id_key ext_key required row = do
    id ← opt_str (get id_key row)
    ext ← opt_str (get ext_key row)
    one_reference required id ext
