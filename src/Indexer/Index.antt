-- ===== src/Indexer/Index.antt =====
-- src/vestibule/indexer/indexer.py, the stage. No other worker runs between the calls of one `index`;
-- the row that it finds may be any. Logging is left out.
use vestibule.Prelude.{
  ℕ, ◌==◌, ltb, String, ◌⧺◌, Bool, true, false, not, List, [], ◌∷◌, map, Option, none, some, ℤ, pos,
  negsuc, if◌then◌else◌, length, Outcome, ok, err, and_then, Format,
}
use vestibule.Embedder.Model.{EmbeddedChunk}
use vestibule.Vertical.Model.{ArrivalEnvelope}
use vestibule.Ledger.Model.{Status, indexing, indexed, failed, LedgerError}
use vestibule.Ledger.Store.{InMemoryLedgerStore, get}
use vestibule.Ledger.Triaged.{triaged, move_to}
use vestibule.Indexer.Model.{
  IndexerCode, indexer_empty_records, indexer_dimension_mismatch, indexer_mixed_model_batch,
  indexer_schema_conflict, indexer_record_too_large, indexer_rate_limited, indexer_upstream_error,
  indexer_timeout, indexer_partial_batch_failure, indexer_internal, indexer_code_text,
  indexer_error_text, IndexingThrown, indexer_error, other_exception, IndexRaised, indexing_failed,
  ledger_failed, record_invalid, IndexRecord, IndexResult, IndexerConfig, IndexerAdapter,
  StoreAction, Site,
}
use vestibule.Indexer.Records.{build_each}
use vestibule.Indexer.Upsert.{member, upsert_all}

abbrev pub IndexAction : Type 0 → Type 0 → Type 0
IndexAction B A = Site B → Outcome IndexRaised A × Site B

abbrev pub indexing_error : String → IndexerCode → String → IndexRaised
indexing_error doc_id code reason =
    indexing_failed (record { doc_id = doc_id; reason = reason; error_code = code })

-- What the stage returns after a triaged ledger call, unless that call raised.
unfoldable pub unless_raised :
    {A : Type 0} → Option LedgerError → Outcome IndexRaised A → Outcome IndexRaised A
unless_raised none r = r
unless_raised (some e) r = err (ledger_failed e)

-- A move of the document's row, and what the stage returns after it.
unfoldable pub moving :
    {B A : Type 0}
    → String
    → Status
    → (code reason : Option String) → Outcome IndexRaised A
    → IndexAction B A
unfolding unless_raised
moving doc_id to code reason r d =
    let (o, ledger) = triaged doc_id (move_to to code reason) d.ledger in
    (unless_raised o r, record d { ledger = ledger })

-- `_terminalize`
unfoldable pub terminalize : {B A : Type 0} → String → IndexerCode → String → IndexAction B A
unfolding moving
terminalize doc_id code reason =
    moving doc_id failed (some (indexer_code_text code)) (some reason)
      (err (indexing_error doc_id code reason))

-- `_self_transition_and_raise`
unfoldable pub self_transition_and_raise :
    {B A : Type 0} → String → IndexerCode → String → IndexAction B A
unfolding moving
self_transition_and_raise doc_id code reason =
    moving doc_id indexing (some (indexer_code_text code)) (some reason)
      (err (indexing_error doc_id code reason))

-- `_transition_to_indexed`
unfoldable pub transition_to_indexed : {B A : Type 0} → String → A → IndexAction B A
unfolding moving
transition_to_indexed doc_id result = moving doc_id indexed none none (ok result)

-- `error_code in _PERMANENT_UPSERT_CODES`
unfoldable pub is_permanent : IndexerCode → Bool
is_permanent indexer_schema_conflict = true
is_permanent indexer_record_too_large = true
is_permanent _ = false

-- `error_code in _TRANSIENT_UPSERT_CODES`
unfoldable pub is_transient : IndexerCode → Bool
is_transient indexer_rate_limited = true
is_transient indexer_upstream_error = true
is_transient indexer_timeout = true
is_transient indexer_partial_batch_failure = true
is_transient _ = false

-- What the handlers of `_run_with_recovery` do with what `_upsert_all` did.
unfoldable pub recover : {B A : Type 0} → String → Outcome IndexingThrown A → IndexAction B A
unfolding is_permanent is_transient terminalize self_transition_and_raise
recover doc_id (ok result) d = (ok result, d)
recover doc_id (err (other_exception message)) d =
    self_transition_and_raise doc_id indexer_internal message d
recover doc_id (err (indexer_error e)) d =
    if is_permanent e.error_code
    then terminalize doc_id e.error_code e.reason d
    else if is_transient e.error_code
    then self_transition_and_raise doc_id e.error_code e.reason d
    else self_transition_and_raise doc_id indexer_internal (indexer_error_text e) d

-- The members of a set of texts.
unfoldable pub distinct : List String → List String
distinct [] = []
distinct (x ∷ xs) = let rest = distinct xs in if member x rest then rest else x ∷ rest

-- `self._ledger.get(doc_id)`, and its configuration's version
unfoldable pub config_version_for : String → InMemoryLedgerStore → String
config_version_for doc_id s = elim (get doc_id s) [
  | none ↦ "unknown"
  | some row ↦ row.config_version
]

-- `a == b` for a natural `b`
abbrev pub is_number : ℤ → ℕ → Bool
is_number (pos a) b = a == b
is_number (negsuc a) b = false

module _ {F B : Type 0} (adapter : IndexerAdapter F B) (config : IndexerConfig) (py : Format) where
  -- `Indexer.__init__`
  unfoldable pub init : StoreAction B (Unit {0})
  init = adapter.ensure_schema config.dimensions config.metric

  abbrev pub mismatch : EmbeddedChunk F → String
  mismatch ec =
      "chunk_id="
      ⧺ ec.chunk.chunk_id
      ⧺ " embedding_dimensions="
      ⧺ py.digits (pos ec.embedding_dimensions)
      ⧺ " does not match configured dimensions="
      ⧺ py.digits config.dimensions

  -- The loop of `_validate_batch`
  unfoldable pub validate_dimensions : String → List (EmbeddedChunk F) → IndexAction B (Unit {0})
  unfolding terminalize
  validate_dimensions doc_id [] d = (ok tt, d)
  validate_dimensions doc_id (ec ∷ ecs) d =
      let rest = validate_dimensions doc_id ecs d in
      if not (is_number config.dimensions ec.embedding_dimensions)
      then terminalize doc_id indexer_dimension_mismatch (mismatch ec) d
      else rest

  abbrev pub mixed : List String → String
  mixed models =
      "batch contains "
      ⧺ py.digits (pos (length models))
      ⧺ " distinct embedding_model values: "
      ⧺ py.repr_sorted models

  unfoldable pub validate_batch : String → List (EmbeddedChunk F) → IndexAction B (Unit {0})
  unfolding terminalize validate_dimensions distinct
  validate_batch doc_id ecs d =
      let models = distinct (map (λ ec. ec.embedding_model) ecs) in
      if ltb 1 (length models)
      then terminalize doc_id indexer_mixed_model_batch (mixed models) d
      else validate_dimensions doc_id ecs d

  unfoldable pub build_records :
      ArrivalEnvelope → ℕ → List (EmbeddedChunk F) → IndexAction B (List (IndexRecord F))
  unfolding build_each config_version_for
  build_records envelope indexed_at ecs d =
      elim (build_each py envelope (config_version_for envelope.doc_id d.ledger) indexed_at ecs) [
        | none ↦ (err record_invalid, d)
        | some records ↦ (ok records, d)
      ]

  unfoldable pub run_with_recovery : String → List (IndexRecord F) → IndexAction B IndexResult
  unfolding recover upsert_all
  run_with_recovery doc_id records d =
      let (o, store) = upsert_all adapter config doc_id records d.store in
      recover doc_id o (record d { store = store })

  unfoldable pub index :
      ArrivalEnvelope → (indexed_at : ℕ) → List (EmbeddedChunk F) → IndexAction B IndexResult
  unfolding terminalize validate_batch build_records run_with_recovery transition_to_indexed
  index envelope indexed_at [] =
      terminalize envelope.doc_id indexer_empty_records
        "Embedder returned zero chunks; nothing to index"
  index envelope indexed_at (ec ∷ ecs) = and_then (validate_batch envelope.doc_id (ec ∷ ecs)) (λ _.
      and_then (build_records envelope indexed_at (ec ∷ ecs)) (λ records.
        and_then (run_with_recovery envelope.doc_id records)
          (transition_to_indexed envelope.doc_id)))
