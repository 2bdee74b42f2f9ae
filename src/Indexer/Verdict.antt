-- ===== src/Indexer/Verdict.antt =====
-- `index` as one decision on the chunks and the store, and the one ledger write that it asks for.
use vestibule.Prelude.{
  ℕ, ltb, not, String, ◌≡◌, refl, List, [], ◌∷◌, map, Option, none, some, Outcome, ok, err,
  Bool-cases, resume, and_then, inl, inr, if◌then◌else◌, length, Format, arith,
}
use vestibule.Embedder.Model.{EmbeddedChunk}
use vestibule.Vertical.Model.{ArrivalEnvelope}
use vestibule.Ledger.Model.{Status, indexing, failed}
use vestibule.Indexer.Model.{
  IndexerCode, indexer_empty_records, indexer_dimension_mismatch, indexer_mixed_model_batch,
  indexer_internal, indexer_code_text, indexer_error_text, IndexingThrown, indexer_error,
  other_exception, IndexRaised, record_invalid, IndexRecord, IndexResult, IndexerConfig,
  IndexerAdapter, Site,
}
use vestibule.Indexer.Upsert.{upsert_all}
use vestibule.Indexer.Records.{build_each}
use vestibule.Indexer.Index.{
  IndexAction, indexing_error, unless_raised, moving, terminalize, self_transition_and_raise,
  transition_to_indexed, is_permanent, is_transient, recover, distinct, config_version_for,
  is_number, mismatch, mixed, validate_dimensions, validate_batch, build_records, run_with_recovery,
  index,
}

-- What is to become of the document.
pub data Verdict (A : Type 0) : Type 0 where
  advance : A → Verdict A
  give_up : IndexerCode → String → Verdict A
  retry : IndexerCode → String → Verdict A
  invalid : Verdict A

abbrev pub perform : {B A : Type 0} → String → Verdict A → IndexAction B A
perform doc_id (advance result) d = transition_to_indexed doc_id result d
perform doc_id (give_up code reason) d = terminalize doc_id code reason d
perform doc_id (retry code reason) d = self_transition_and_raise doc_id code reason d
perform doc_id invalid d = (err record_invalid, d)

-- A permanent error of the adapter gives the document up; everything else it throws is retried.
unfoldable pub fate : {A : Type 0} → Outcome IndexingThrown A → Verdict A
unfolding is_permanent is_transient
fate (ok result) = advance result
fate (err (other_exception message)) = retry indexer_internal message
fate (err (indexer_error e)) =
    if is_permanent e.error_code
    then give_up e.error_code e.reason
    else if is_transient e.error_code
    then retry e.error_code e.reason
    else retry indexer_internal (indexer_error_text e)

-- What raises does not go on.
moving-stops :
    {B A C : Type 0} (doc_id : String) (to : Status) (code reason : Option String) (e : IndexRaised)
    (k : A → IndexAction B C) (d : Site B)
    → resume k (moving doc_id to code reason (err e) d) ≡ moving doc_id to code reason (err e) d
unfolding moving unless_raised
moving-stops doc_id to code reason e k d = ground arith

terminalize-stops :
    {B A C : Type 0} (doc_id : String) (code : IndexerCode) (reason : String)
    (k : A → IndexAction B C) (d : Site B)
    → resume k (terminalize doc_id code reason d) ≡ terminalize doc_id code reason d
unfolding terminalize
terminalize-stops doc_id code reason k d =
    moving-stops doc_id failed (some (indexer_code_text code)) (some reason)
      (indexing_error doc_id code reason) k d

retry-stops :
    {B A C : Type 0} (doc_id : String) (code : IndexerCode) (reason : String)
    (k : A → IndexAction B C) (d : Site B)
    → resume k (self_transition_and_raise doc_id code reason d)
      ≡ self_transition_and_raise doc_id code reason d
unfolding self_transition_and_raise
retry-stops doc_id code reason k d =
    moving-stops doc_id indexing (some (indexer_code_text code)) (some reason)
      (indexing_error doc_id code reason) k d

module _ {F B : Type 0} (adapter : IndexerAdapter F B) (config : IndexerConfig) (py : Format) where
  -- What is wrong with the chunks.
  unfoldable pub first_mismatch : List (EmbeddedChunk F) → Option (EmbeddedChunk F)
  first_mismatch [] = none
  first_mismatch (ec ∷ ecs) =
      let rest = first_mismatch ecs in
      if not (is_number config.dimensions ec.embedding_dimensions) then some ec else rest

  unfoldable pub misfit : Option (EmbeddedChunk F) → Option (IndexerCode × String)
  misfit none = none
  misfit (some c) = some (indexer_dimension_mismatch, mismatch adapter config py c)

  unfoldable pub refusal : List (EmbeddedChunk F) → Option (IndexerCode × String)
  unfolding misfit
  refusal [] = some (indexer_empty_records, "Embedder returned zero chunks; nothing to index")
  refusal (ec ∷ ecs) =
      let models = distinct (map (λ c. c.embedding_model) (ec ∷ ecs)) in
      if ltb 1 (length models)
      then some (indexer_mixed_model_batch, mixed adapter config py models)
      else misfit (first_mismatch (ec ∷ ecs))

  -- Chunks that are refused are given up before the store is called. Otherwise what the store's calls
  -- return or throw decides.
  unfoldable pub verdict :
      ArrivalEnvelope
      → Option (IndexerCode × String)
      → Option (List (IndexRecord F))
      → B
      → Verdict IndexResult × B
  unfolding fate
  verdict envelope (some (code, reason)) records store = (give_up code reason, store)
  verdict envelope none none store = (invalid, store)
  verdict envelope none (some records) store =
      let (o, store') = upsert_all adapter config envelope.doc_id records store in (fate o, store')

  refused : String → Option (IndexerCode × String) → IndexAction B (Unit {0})
  refused doc_id none d = (ok tt, d)
  refused doc_id (some (code, reason)) d = terminalize doc_id code reason d

  recover-perform :
      (doc_id : String) (o : Outcome IndexingThrown IndexResult) (d : Site B)
      → resume (transition_to_indexed doc_id) (recover doc_id o d) ≡ perform doc_id (fate o) d
  unfolding recover fate
  recover-perform doc_id (ok result) d = refl
  recover-perform doc_id (err (other_exception message)) d =
      retry-stops doc_id indexer_internal message (transition_to_indexed doc_id) d
  recover-perform doc_id (err (indexer_error e)) d = elim (Bool-cases (is_permanent e.error_code)) [
    | inl p ↦ rw p (terminalize-stops doc_id e.error_code e.reason (transition_to_indexed doc_id) d)
    | inr p ↦ elim (Bool-cases (is_transient e.error_code)) [
      | inl q ↦
          rw (p, q) (retry-stops doc_id e.error_code e.reason (transition_to_indexed doc_id) d)
      | inr q ↦
          rw (p, q)
            (retry-stops doc_id indexer_internal (indexer_error_text e)
              (transition_to_indexed doc_id) d)
    ]
  ]

  validate_dimensions-refused :
      (doc_id : String) (ecs : List (EmbeddedChunk F)) (d : Site B)
      → validate_dimensions adapter config py doc_id ecs d
        ≡ refused doc_id (misfit (first_mismatch ecs)) d
  unfolding validate_dimensions first_mismatch refused misfit
  validate_dimensions-refused doc_id [] d = refl
  validate_dimensions-refused doc_id (ec ∷ ecs) d =
      elim (Bool-cases (not (is_number config.dimensions ec.embedding_dimensions))) [
        | inl bad ↦ rw bad refl
        | inr good ↦ rw (good, validate_dimensions-refused doc_id ecs d) refl
      ]

  validate_batch-refused :
      (doc_id : String) (ec : EmbeddedChunk F) (ecs : List (EmbeddedChunk F)) (d : Site B)
      → validate_batch adapter config py doc_id (ec ∷ ecs) d ≡ refused doc_id (refusal (ec ∷ ecs)) d
  unfolding validate_batch refusal refused
  validate_batch-refused doc_id ec ecs d =
      elim (Bool-cases (ltb 1 (length (distinct (map (λ c. c.embedding_model) (ec ∷ ecs)))))) [
        | inl many ↦ rw many refl
        | inr one ↦ rw (one, validate_dimensions-refused doc_id (ec ∷ ecs) d) refl
      ]

  -- The records that a call builds, from the row that it finds.
  abbrev pub built :
      ArrivalEnvelope
      → (indexed_at : ℕ) → List (EmbeddedChunk F)
      → Site B
      → Option (List (IndexRecord F))
  built envelope indexed_at ecs d =
      build_each py envelope (config_version_for envelope.doc_id d.ledger) indexed_at ecs

  recorded :
      (envelope : ArrivalEnvelope) (o : Option (List (IndexRecord F))) (d : Site B)
      → resume
          (λ records.
            and_then
              (run_with_recovery adapter config py envelope.doc_id records)
              (transition_to_indexed envelope.doc_id))
          (elim o as (λ _. Outcome IndexRaised (List (IndexRecord F)) × Site B) [
            | none ↦ (err record_invalid, d)
            | some records ↦ (ok records, d)
          ])
        ≡ perform envelope.doc_id
            (verdict envelope none o d.store).0
            (record d { store = (verdict envelope none o d.store).1 })
  unfolding verdict run_with_recovery
  recorded envelope none d = refl
  recorded envelope (some records) d =
      recover-perform envelope.doc_id (upsert_all adapter config envelope.doc_id records d.store).0
        (record d { store = (upsert_all adapter config envelope.doc_id records d.store).1 })

  checked :
      (envelope : ArrivalEnvelope) (indexed_at : ℕ) (ecs : List (EmbeddedChunk F))
      (bad : Option (IndexerCode × String)) (d : Site B)
      → resume
          (λ _. and_then (build_records adapter config py envelope indexed_at ecs) (λ records.
            and_then
              (run_with_recovery adapter config py envelope.doc_id records)
              (transition_to_indexed envelope.doc_id)))
          (refused envelope.doc_id bad d)
        ≡ perform envelope.doc_id
            (verdict envelope bad (built envelope indexed_at ecs d) d.store).0
            (record d {
              store = (verdict envelope bad (built envelope indexed_at ecs d) d.store).1;
            })
  unfolding refused
  checked envelope indexed_at ecs none d =
      unfold build_records in recorded envelope (built envelope indexed_at ecs d) d
  checked envelope indexed_at ecs (some (code, reason)) d =
      unfold verdict in
      terminalize-stops envelope.doc_id code reason
        (λ _. and_then (build_records adapter config py envelope indexed_at ecs) (λ records.
          and_then (run_with_recovery adapter config py envelope.doc_id records)
            (transition_to_indexed envelope.doc_id)))
        d

  -- What the chunks, the row and the store lead to, with the store that the calls leave.
  abbrev pub judged :
      ArrivalEnvelope → ℕ → List (EmbeddedChunk F) → Site B → Verdict IndexResult × B
  judged envelope indexed_at ecs d =
      verdict envelope (refusal ecs) (built envelope indexed_at ecs d) d.store

  -- A call makes the one ledger write that the verdict asks for.
  pub index-perform :
      (envelope : ArrivalEnvelope) (indexed_at : ℕ) (ecs : List (EmbeddedChunk F)) (d : Site B)
      → index adapter config py envelope indexed_at ecs d
        ≡ perform envelope.doc_id
            (judged envelope indexed_at ecs d).0
            (record d { store = (judged envelope indexed_at ecs d).1 })
  unfolding index
  index-perform envelope indexed_at [] d = unfold refusal verdict in refl
  index-perform envelope indexed_at (ec ∷ ecs) d =
      rw (validate_batch-refused envelope.doc_id ec ecs d)
        (checked envelope indexed_at (ec ∷ ecs) (refusal (ec ∷ ecs)) d)
