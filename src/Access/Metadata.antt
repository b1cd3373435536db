-- ===== src/Access/Metadata.antt =====
-- The metadata of a security event: sanitize_metadata of services/auth/security_events.py.
use financial_ai_operator.Prelude.{
  String, Bool, Option, none, some, List, [], ◌∷◌, any, if◌then◌else◌,
}
pub mod Paths

-- What the code asks of the interpreter, for values that are no dictionaries: `str.lower`, the
-- test `a in b` of texts, whether `json.dumps` returns, and `str`.
pub record Interpreter (V : Type 0) : Type 0 where
  pub lower : String → String
  pub is_in : String → String → Bool
  pub dumps : V → Bool
  pub str : V → V

-- A dictionary in its order: a key with a value that is no dictionary, or with one that is.
pub data Metadata (V : Type 0) : Type 0 where
  empty : Metadata V
  plain : String → V → Metadata V → Metadata V
  nested : String → Metadata V → Metadata V → Metadata V

abbrev pub forbidden_metadata_keys : List String
forbidden_metadata_keys =
    "password" ∷ "password_hash" ∷ "token" ∷ "jwt" ∷ "authorization" ∷ "secret" ∷ "api_key"
    ∷ "cookie" ∷ "session" ∷ "reasoning" ∷ "chain_of_thought" ∷ "raw_llm_response"
    ∷ "context_snapshot" ∷ []

module _ {V : Type 0} (py : Interpreter V) where
  unfoldable pub is_forbidden : String → Bool
  is_forbidden k =
      let k_lower = py.lower k in
      any (λ forbidden. py.is_in forbidden k_lower) forbidden_metadata_keys

  unfoldable pub serializable : V → V
  serializable v = if py.dumps v then v else py.str v

  -- The loop over the items, a dictionary among the values included.
  unfoldable pub sanitize_items : Metadata V → Metadata V
  sanitize_items empty = empty
  sanitize_items (plain k v rest) =
      let safe_payload = sanitize_items rest in
      if is_forbidden k then safe_payload else plain k (serializable v) safe_payload
  sanitize_items (nested k inner rest) =
      let safe_payload = sanitize_items rest in
      let safe_inner = sanitize_items inner in
      if is_forbidden k then safe_payload else nested k safe_inner safe_payload

  unfoldable pub sanitize_metadata : Option (Metadata V) → Metadata V
  sanitize_metadata none = empty
  sanitize_metadata (some payload) = sanitize_items payload
