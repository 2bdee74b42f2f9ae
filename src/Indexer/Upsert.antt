-- ===== src/Indexer/Upsert.antt =====
-- src/vestibule/indexer/indexer.py, its calls of the adapter: the removal of a document's old version,
-- and the upsert in batches.
use vestibule.Prelude.{
  ℕ, ◌+◌, String, ◌⧺◌, Bool, true, false, List, [], ◌∷◌, map, Option, none, some, ℤ, capped,
  if◌then◌else◌, ite, length, keep, Outcome, ok, err, and_then, in_batches, string_discrete,
}
use vestibule.Indexer.Model.{
  indexer_partial_batch_failure, indexer_error, other_exception, IndexingThrown, IndexRecord,
  IndexResult, UpsertOutcome, IndexerConfig, StoreAction, IndexerAdapter,
}

-- `k in xs`
abbrev pub member : String → List String → Bool
member k [] = false
member k (x ∷ xs) = ite (string_discrete x k) true (member k xs)

-- `"; ".join(f"{chunk_id}: {reason}" for chunk_id, reason in failed)`
unfoldable pub reasons : List (String × String) → String
reasons [] = ""
reasons (x ∷ []) = x.0 ⧺ ": " ⧺ x.1
reasons (x ∷ y ∷ rest) = x.0 ⧺ ": " ⧺ x.1 ⧺ "; " ⧺ reasons (y ∷ rest)

abbrev pub returns : {B A : Type 0} → A → StoreAction B A
returns a s = (ok a, s)

abbrev pub throws : {B A : Type 0} → IndexingThrown → StoreAction B A
throws e s = (err e, s)

-- An exception of the batching itself.
unfoldable pub batches_of : {B A : Type 0} → Outcome String A → StoreAction B A
batches_of (ok bs) s = (ok bs, s)
batches_of (err text) s = (err (other_exception text), s)

module _ {F B : Type 0} (adapter : IndexerAdapter F B) where
  unfoldable pub effective_batch_size : IndexerConfig → ℤ
  effective_batch_size config = capped config.batch_size adapter.max_batch_size

  -- `_maybe_delete_stale_version` once the stored version has been read
  unfoldable pub delete_stale : String → String → Option String → StoreAction B ℕ
  delete_stale doc_id new_version none = returns 0
  delete_stale doc_id new_version (some existing) =
      ite (string_discrete existing new_version) (returns 0) (adapter.delete_by_doc_id doc_id)

  unfoldable pub maybe_delete_stale_version : IndexerConfig → String → String → StoreAction B ℕ
  unfolding delete_stale
  maybe_delete_stale_version config doc_id new_version =
      if config.delete_before_upsert_on_version_change
      then and_then (adapter.get_doc_version doc_id) (delete_stale doc_id new_version)
      else returns 0

  -- `_upsert_batch_with_retry` after its second upsert
  unfoldable pub after_retry : ℕ → UpsertOutcome → StoreAction B ℕ
  unfolding reasons
  after_retry before retry_outcome = elim retry_outcome.failed [
    | [] ↦ returns (before + length retry_outcome.succeeded)
    | x ∷ xs ↦ throws (
        indexer_error (record {
          doc_id = "";
          reason = "partial batch failure persisted after retry: " ⧺ reasons (x ∷ xs);
          error_code = indexer_partial_batch_failure;
        }))
  ]

  -- `_upsert_batch_with_retry` after its first upsert
  unfoldable pub after_upsert : List (IndexRecord F) → UpsertOutcome → StoreAction B ℕ
  unfolding after_retry
  after_upsert batch outcome = elim outcome.failed [
    | [] ↦ returns (length outcome.succeeded)
    | x ∷ xs ↦
        and_then (adapter.upsert (keep (λ r. member r.chunk_id (map (λ f. f.0) (x ∷ xs))) batch))
          (after_retry (length outcome.succeeded))
  ]

  unfoldable pub upsert_batch_with_retry : List (IndexRecord F) → StoreAction B ℕ
  unfolding after_upsert
  upsert_batch_with_retry batch = and_then (adapter.upsert batch) (after_upsert batch)

  -- The loop over the batches, with the count so far.
  unfoldable pub upsert_batches : ℕ → List (List (IndexRecord F)) → StoreAction B ℕ
  unfolding upsert_batch_with_retry
  upsert_batches count [] = returns count
  upsert_batches count (batch ∷ batches) =
      and_then (upsert_batch_with_retry batch) (λ n. upsert_batches (count + n) batches)

  -- `records[0]` of no records would be an `IndexError`.
  unfoldable pub upsert_all :
      IndexerConfig → String → List (IndexRecord F) → StoreAction B IndexResult
  unfolding maybe_delete_stale_version upsert_batches effective_batch_size batches_of
  upsert_all config doc_id [] = throws (other_exception "list index out of range")
  upsert_all config doc_id (r ∷ rs) =
      and_then (maybe_delete_stale_version config doc_id r.doc_version) (λ chunks_deleted.
        and_then (batches_of (in_batches (effective_batch_size config) (r ∷ rs))) (λ batches.
          and_then (upsert_batches 0 batches) (λ chunks_upserted. returns (record {
            doc_id = doc_id;
            chunks_upserted = chunks_upserted;
            chunks_deleted = chunks_deleted;
            index_name = adapter.index_name;
            embedding_model = r.embedding_model;
            embedding_dimensions = r.embedding_dimensions;
          }))))
