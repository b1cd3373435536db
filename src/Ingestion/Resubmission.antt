-- ===== src/Ingestion/Resubmission.antt =====
-- A batch of services/ingestion/batch.py that is submitted again.
use mathlib.Core.List.{Permᴰ}
use mathlib.Core.Path.{subst}
use financial_ai_operator.Prelude.{
  ℕ, suc, String, ◌≡◌, refl, sym, ap, ◌∙◌, inl, inr, true, false, Bool-cases, List, [], ◌∷◌, map,
  ◌==◌, string_eq, any, length,
}
use financial_ai_operator.Prelude.Outcome.{ok, lift, pure, ◌>>=◌, bind_ok}
use financial_ai_operator.Table.{scalar_one_or_none, rows}
use financial_ai_operator.Ingestion.Model.{text, texts, Source, object, Runtime}
use financial_ai_operator.Ingestion.Rows.{is_valid, normalize_row}
use financial_ai_operator.Ingestion.Store.{
  IngestionRun, IngestionRunRecord, Session, multiple_results_found,
}
use financial_ai_operator.Ingestion.Batch.{
  fingerprint_key, run_key, batch_fingerprint, valid_fingerprints, new_run, existing_or_raise,
  resolve_existing, create_run, failed_rows, retry_name, retry_rows, retry_found, retry_run,
}
use financial_ai_operator.Ingestion.Recorded.{any_of-keep, IsRecorded, create_run-IsRecorded}

module _ (py : Runtime) where
  same_list : (l : List String) → Permᴰ l l
  same_list [] = Permᴰ.nil
  same_list (x ∷ l) = Permᴰ.cons refl (same_list l)

  same_head :
      (x : Source) (xs ys : List Source)
      → Permᴰ (valid_fingerprints py xs) (valid_fingerprints py ys)
      → Permᴰ (valid_fingerprints py (x ∷ xs)) (valid_fingerprints py (x ∷ ys))
  unfolding valid_fingerprints
  same_head x xs ys p = elim (Bool-cases (is_valid (normalize_row py x))) [
    | inl t ↦ rw t (Permᴰ.cons refl p)
    | inr f ↦ rw f p
  ]

  swapped_heads :
      (x y : Source) (l : List Source)
      → Permᴰ (valid_fingerprints py (x ∷ y ∷ l)) (valid_fingerprints py (y ∷ x ∷ l))
  unfolding valid_fingerprints
  swapped_heads x y l =
      let rest = same_list (valid_fingerprints py l) in
      elim (Bool-cases (is_valid (normalize_row py x))) [
        | inl t ↦ elim (Bool-cases (is_valid (normalize_row py y))) [
          | inl u ↦ rw (t, u) (Permᴰ.swap refl refl)
          | inr v ↦ rw (t, v) (Permᴰ.cons refl rest)
        ]
        | inr f ↦ elim (Bool-cases (is_valid (normalize_row py y))) [
          | inl u ↦ rw (f, u) (Permᴰ.cons refl rest)
          | inr v ↦ rw (f, v) rest
        ]
      ]

  -- The order of the rows is that of their fingerprints.
  valid_fingerprints-Permᴰ :
      (xs ys : List Source)
      → Permᴰ xs ys
      → Permᴰ (valid_fingerprints py xs) (valid_fingerprints py ys)
  unfolding valid_fingerprints
  valid_fingerprints-Permᴰ _ _ Permᴰ.nil = Permᴰ.nil
  valid_fingerprints-Permᴰ _ _ (Permᴰ.cons {a} {b} {l₁} {l₂} e p) =
      subst (λ x. Permᴰ (valid_fingerprints py (a ∷ l₁)) (valid_fingerprints py (x ∷ l₂))) e
        (same_head a l₁ l₂ (valid_fingerprints-Permᴰ l₁ l₂ p))
  valid_fingerprints-Permᴰ _ _ (Permᴰ.swap {a} {b} {a'} {b'} {l} e e') =
      subst (λ x. Permᴰ (valid_fingerprints py (a ∷ b ∷ l)) (valid_fingerprints py (x ∷ b' ∷ l))) e'
        (subst (λ x. Permᴰ (valid_fingerprints py (a ∷ b ∷ l)) (valid_fingerprints py (b ∷ x ∷ l)))
          e (swapped_heads a b l))
  valid_fingerprints-Permᴰ _ _ (Permᴰ.trans {l₁} {l₂} {l₃} p q) =
      Permᴰ.trans (valid_fingerprints-Permᴰ l₁ l₂ p) (valid_fingerprints-Permᴰ l₂ l₃ q)

module _ (uuid : ℕ → String) (py : Runtime) (now later : ℕ) (actor : String) where
  -- A batch whose fingerprint a run has is not processed.
  create_run-existing :
      (source_type source_name : String) (records : List Source) (run : IngestionRun) (s : Session)
      → s.current ≡ s.saved
      → rows fingerprint_key
          (batch_fingerprint py source_type (valid_fingerprints py records))
          s.saved.runs
        ≡ run ∷ []
      → create_run uuid py now later actor source_type source_name records s
        ≡ (ok (run, true), record s { drawn = suc s.drawn })
  unfolding create_run new_run resolve_existing existing_or_raise
  create_run-existing source_type source_name records run s committed its_row =
      let fp = batch_fingerprint py source_type (valid_fingerprints py records) in
      let drawn : Session = record s { drawn = suc s.drawn; current = s.saved } in
      let taken : any (λ r. r.batch_fingerprint == fp) s.current.runs ≡ true =
        ap (λ t. any (λ r. r.batch_fingerprint == fp) t.runs) committed
        ∙ any_of-keep (λ r. r.batch_fingerprint == fp) s.saved.runs [] run its_row in
      rw taken (
        ap
          (λ l.
            (lift (scalar_one_or_none multiple_results_found l)
                >>= existing_or_raise uuid py now later actor)
              drawn)
          its_row
        ∙ ap (λ t. (ok (run, true), record s { drawn = suc s.drawn; current = t })) (sym committed))

module _ (uuid : ℕ → String) (py : Runtime) (now later : ℕ) (actor : String) where
  -- Where `sorted` gives the same list for lists that differ in order only, once create_run has
  -- returned a new run, a batch of the same source type with the same rows in whatever order, under any
  -- name and by any actor, returns that run as a duplicate, and changes no table.
  pub resubmit_returns :
      ((xs ys : List String) → Permᴰ xs ys → py.sorted xs ≡ py.sorted ys)
      → (source_type source_name source_name' : String) (records records' : List Source)
        (run : IngestionRun) (s s' : Session) (now' later' : ℕ) (actor' : String)
      → Permᴰ records records'
      → create_run uuid py now later actor source_type source_name records s ≡ (ok (run, false), s')
      → create_run uuid py now' later' actor' source_type source_name' records' s'
        ≡ (ok (run, true), record s' { drawn = suc s'.drawn })
  unfolding batch_fingerprint new_run
  resubmit_returns sorted_lem source_type source_name source_name' records records' run s s' now'
        later' actor' p h =
      let (committed, its_row) =
        subst (IsRecorded (batch_fingerprint py source_type (valid_fingerprints py records))) h
          (create_run-IsRecorded uuid py now later actor source_type source_name records s) in
      let same : batch_fingerprint py source_type (valid_fingerprints py records)
          ≡ batch_fingerprint py source_type (valid_fingerprints py records') =
        same_fingerprint source_type (
          sorted_lem (valid_fingerprints py records) (valid_fingerprints py records')
            (valid_fingerprints-Permᴰ py records records' p)) in
      create_run-existing uuid py now' later' actor' source_type source_name' records' run s'
        committed (subst (λ fp. rows fingerprint_key fp s'.saved.runs ≡ run ∷ []) same its_row)
    where
      same_fingerprint :
          (source_type : String) {xs ys : List String}
          → py.sorted xs ≡ py.sorted ys
          → batch_fingerprint py source_type xs ≡ batch_fingerprint py source_type ys
      same_fingerprint source_type e =
          ap (λ l. py.sha256 (("source_type", text source_type) ∷ ("rows", texts l) ∷ [])) e

  -- When nothing waits, the run with the identifier is one, has failed rows, and is the one with the
  -- fingerprint of the batch of its failed rows, retry_run returns the run itself and the number of the
  -- rows, and changes no table: no row is tried again.
  pub retry_ineffective :
      (run_id : String) (run : IngestionRun) (r : IngestionRunRecord) (rs : List IngestionRunRecord)
      (s : Session)
      → s.current ≡ s.saved
      → rows run_key run_id s.current.runs ≡ run ∷ []
      → failed_rows uuid py now later actor run.id s.current.run_records ≡ r ∷ rs
      → rows fingerprint_key
          (batch_fingerprint py run.source_type
            (valid_fingerprints py (map (λ x. object x.raw_payload) (r ∷ rs))))
          s.saved.runs
        ≡ run ∷ []
      → retry_run uuid py now later actor run_id s
        ≡ (ok (run, length (r ∷ rs)), record s { drawn = suc s.drawn })
  unfolding retry_run retry_found retry_rows
  retry_ineffective run_id run r rs s committed its_row failed same =
      ap
        (λ l.
          (lift (scalar_one_or_none multiple_results_found l)
              >>= retry_found uuid py now later actor)
            s)
        its_row
      ∙ ap (λ l. retry_rows uuid py now later actor run l s) failed
      ∙ bind_ok
          (create_run uuid py now later actor run.source_type
            (retry_name uuid py now later actor run) (map (λ x. object x.raw_payload) (r ∷ rs)))
          (λ result. pure (result.0, length (r ∷ rs))) s
          (create_run-existing uuid py now later actor run.source_type
            (retry_name uuid py now later actor run) (map (λ x. object x.raw_payload) (r ∷ rs)) run
            s committed same)
