-- ===== src/Indexer/Puts.antt =====
-- The upsert of records over the in-memory indexer, batch by batch.
use vestibule.Prelude.{
  ℕ, suc, ◌+◌, String, ◌≡◌, refl, ap, List, [], ◌∷◌, ◌++◌, map, Option, none, some, ite, ok, length,
  length-append, string_discrete, arith, capped-Fits, IsPositive, joined, Format,
}
use vestibule.Dict.{lookup, lookup-insert}
use vestibule.Indexer.Model.{IndexRecord, IndexResult, IndexerConfig}
use vestibule.Indexer.Upsert.{
  effective_batch_size, maybe_delete_stale_version, upsert_batch_with_retry, after_upsert,
  upsert_batches, upsert_all, batches_of,
}
use vestibule.Indexer.Memory.{InMemoryIndexer, put, put_all, upsert, in_memory, Pick}

-- The last of the records under an id.
unfoldable pub latest : {F : Type 0} → String → List (IndexRecord F) → Option (IndexRecord F)
latest k [] = none
latest k (r ∷ rs) = elim (latest k rs) [
  | some x ↦ some x
  | none ↦ ite (string_discrete r.chunk_id k) (some r) none
]

-- The first, or else the second.
abbrev pub or_else : {A : Type 0} → Option A → Option A → Option A
or_else none o = o
or_else (some a) o = some a

pub length-map : {A B : Type 0} (f : A → B) (xs : List A) → length (map f xs) ≡ length xs
length-map f [] = refl
length-map f (x ∷ xs) = ap suc (length-map f xs)

module _ {F : Type 0} where
  pub lookup-put_all :
      (k : String) (rs : List (IndexRecord F)) (s : InMemoryIndexer F)
      → lookup k (put_all rs s).records ≡ or_else (latest k rs) (lookup k s.records)
  unfolding put_all put latest
  lookup-put_all k [] s = refl
  lookup-put_all k (r ∷ rs) s =
      ground (arith, lookup-put_all k rs (put r s), lookup-insert k r.chunk_id r s.records)

  put_all-append :
      (xs ys : List (IndexRecord F)) (s : InMemoryIndexer F)
      → put_all ys (put_all xs s) ≡ put_all (xs ++ ys) s
  unfolding put_all
  put_all-append [] ys s = refl
  put_all-append (x ∷ xs) ys s = put_all-append xs ys (put x s)

  module _ (py : Format) (pick : Pick) (index_name : String) where
    upsert_batches-puts :
        (count : ℕ) (bs : List (List (IndexRecord F))) (s : InMemoryIndexer F)
        → upsert_batches (in_memory py pick index_name) count bs s
          ≡ (ok (count + length (joined bs)), put_all (joined bs) s)
    unfolding upsert_batches upsert_batch_with_retry after_upsert in_memory upsert
    upsert_batches-puts count [] s = unfold put_all in ap (λ n. (ok n, s)) (omega arith)
    upsert_batches-puts count (b ∷ bs) s =
        rw
          (
            upsert_batches-puts (count + length (map (λ r. r.chunk_id) b)) bs (put_all b s),
            put_all-append b (joined bs) s,
          )
          (ap (λ n. (ok n, put_all (b ++ joined bs) s))
            (omega (arith, length-map (λ r. r.chunk_id) b, length-append b (joined bs))))

    -- The result of a call whose first record is `r`.
    abbrev pub receipt : String → (upserted deleted : ℕ) → IndexRecord F → IndexResult
    receipt doc_id upserted deleted r = record {
      doc_id = doc_id;
      chunks_upserted = upserted;
      chunks_deleted = deleted;
      index_name = index_name;
      embedding_model = r.embedding_model;
      embedding_dimensions = r.embedding_dimensions;
    }

    -- What follows the removal of the old version.
    pub upsert_all-puts :
        (config : IndexerConfig) (doc_id : String) (r : IndexRecord F) (rs : List (IndexRecord F))
        (s s' : InMemoryIndexer F) (deleted : ℕ)
        → IsPositive config.batch_size
        → maybe_delete_stale_version (in_memory py pick index_name) config doc_id r.doc_version s
          ≡ (ok deleted, s')
        → upsert_all (in_memory py pick index_name) config doc_id (r ∷ rs) s
          ≡ (ok (receipt doc_id (length (r ∷ rs)) deleted r), put_all (r ∷ rs) s')
    unfolding upsert_all effective_batch_size batches_of in_memory
    upsert_all-puts config doc_id r rs s s' deleted p e =
        let (bs, split, whole, fit) = capped-Fits config.batch_size 1000 (r ∷ rs) (omega arith) p in
        rw (e, split, upsert_batches-puts 0 bs s', whole)
          (ap (λ n. (ok (receipt doc_id n deleted r), put_all (r ∷ rs) s')) (omega arith))
