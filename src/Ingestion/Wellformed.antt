-- ===== src/Ingestion/Wellformed.antt =====
-- The guarantee of `normalize_row` of services/ingestion/validation.py for the rows it finds valid.
use financial_ai_operator.Prelude.{◌≤◌, String, ◌≡◌, ◌≢◌, refl, true, some, []}
use financial_ai_operator.Prelude.Outcome.{Result, ok, err}
use financial_ai_operator.Prelude.Checked.{checked_ok, returned}
use financial_ai_operator.Ingestion.Model.{
  Row, Source, object, no_object, Runtime, ErrorCode, EntityType, Fields, NormalizedRow,
}
use financial_ai_operator.Ingestion.Validation.{entity_name, normalize_common, normalize_fields}
use financial_ai_operator.Ingestion.Rows.{
  is_valid, rejected_row, validated, normalized, normalize_row, canonical_fingerprint,
}
use financial_ai_operator.Ingestion.Guarantees.{IsNormal, fields-IsNormal, common_bounds}

-- A valid row: an identity within the lengths of its columns, fields that are normal, and the
-- fingerprint of them all.
pub record IsWellformed (py : Runtime) (r : NormalizedRow) : Type 0 where
  pub entity : EntityType
  pub fields : Fields
  pub named : r.entity_type ≡ entity_name entity
  pub payload : r.payload ≡ some fields
  pub provider_bound : py.len r.provider ≤ 64
  pub external_id_bound : py.len r.external_id ≤ 255
  pub normal : IsNormal fields
  pub fingerprint :
      r.row_fingerprint ≡ canonical_fingerprint py entity r.provider r.external_id fields

module _ (py : Runtime) where
  invalid_not_valid : (raw : Row) (code : ErrorCode) → is_valid (rejected_row raw code) ≢ true
  unfolding is_valid rejected_row
  invalid_not_valid raw code h = cc

  normalized-IsWellformed :
      (raw : Row) (v : Result ErrorCode (EntityType × String × String × Fields))
      → validated py raw ≡ v
      → is_valid (normalized py raw v) ≡ true
      → IsWellformed py (normalized py raw v)
  unfolding normalized validated
  normalized-IsWellformed raw (err code) e h = absurd (invalid_not_valid raw code h)
  normalized-IsWellformed raw (ok (k, p, x, f)) e h =
      let (c, e1, h1) = checked_ok (normalize_common py raw) _ e in
      let (g, e2, h2) = checked_ok (normalize_fields py c.0 raw) _ h1 in
      returned (λ q. IsWellformed py (normalized py raw (ok q))) h2
        (record {
          entity = c.0;
          fields = g;
          named = refl;
          payload = refl;
          provider_bound = (common_bounds py raw c e1).0;
          external_id_bound = (common_bounds py raw c e1).1;
          normal = fields-IsNormal py raw c.0 g e2;
          fingerprint = refl;
        })

  -- A row that normalize_row finds valid has a provider of at most 64 and an external id of at most
  -- 255 characters, amounts of at most four decimal places, a supported currency, statuses and types of
  -- their vocabulary, instants with a zone, and the fingerprint of just these.
  pub valid_row-IsWellformed :
      (raw : Source)
      → is_valid (normalize_row py raw) ≡ true
      → IsWellformed py (normalize_row py raw)
  unfolding normalize_row
  valid_row-IsWellformed (object raw) h = normalized-IsWellformed raw (validated py raw) refl h
  valid_row-IsWellformed no_object h = absurd (invalid_not_valid [] _ h)
