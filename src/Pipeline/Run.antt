-- ===== src/Pipeline/Run.antt =====
-- A document goes from `embedding` to `indexed`, through one call of each stage.
use vestibule.Prelude.{
  ℕ, ◌≤◌, ◌<◌, String, ◌≡◌, refl, ap, ◌∙◌, ◌≢◌, true, List, ◌∷◌, map, some, pos, All, length, ok,
  Format, Fits, IsPositive,
}
use vestibule.Dict.{lookup, lookup-insert_self}
use vestibule.Chunker.{Chunk}
use vestibule.Embedder.Model.{EmbeddedChunk, EmbedderConfig, EmbedderAdapter, Floats}
use vestibule.Embedder.Embed.{embed}
use vestibule.Embedder.Stage.{settled, embed-settled}
use vestibule.Vertical.Model.{ArrivalEnvelope}
use vestibule.Ledger.Model.{embedding, indexing, indexed, LedgerRow}
use vestibule.Ledger.Store.{InMemoryLedgerStore, now, write}
use vestibule.Ledger.Legal.{Edge}
use vestibule.Ledger.Invariant.{IsValid}
use vestibule.Ledger.Stage.{advanced, advanced-IsValid}
use vestibule.Indexer.Model.{IndexRecord, IndexResult, IndexerConfig, Site}
use vestibule.Indexer.Index.{index}
use vestibule.Indexer.Stage.{returned, recorded, index-recorded}
use vestibule.Indexer.Memory.{InMemoryIndexer, in_memory, Pick}
use vestibule.Indexer.Coherence.{IsCoherent}
use vestibule.Indexer.Puts.{length-map}
use vestibule.Indexer.Replace.{IsLawful}
use vestibule.Pipeline.Accepted.{IsAccepted}
use vestibule.Pipeline.Advance.{embedded, verdict-advances}
use vestibule.Pipeline.Judge.{Holds, judged-Indexes}

module _ {F : Type 0} (py : Format) (pick : Pick) (index_name : String) (owner : String → String)
    (config : IndexerConfig) (envelope : ArrivalEnvelope) (indexed_at : ℕ) (model : String)
    (dim : ℕ) (lawful : IsLawful pick) (positive : IsPositive config.batch_size)
    (deletes : config.delete_before_upsert_on_version_change ≡ true)
    (dimensioned : config.dimensions ≡ pos dim) where
  module _ (float : Floats F) (adapter : EmbedderAdapter F) (settings : EmbedderConfig)
      (f : String → List F)
      (answers : (n : ℕ) (batch : List String)
        → Fits adapter.max_batch_size batch
        → adapter.embed_batch n batch ≡ ok (map f batch))
      (sized : 0 < adapter.max_batch_size) (sliced : IsPositive settings.batch_size) where
    abbrev pub vector_of : Chunk → EmbeddedChunk F
    vector_of = embedded float adapter settings py f answers sized sliced

    -- A document that waits at `embedding`, in a well-formed ledger that no other worker changes,
    -- ends `indexed`. The conditions on the settings are that the batch sizes of the embedder and
    -- of the indexer are unset or positive, that the adapter's largest batch is positive, and that
    -- the indexer deletes old versions. The service answers each batch that is within its limit
    -- with one vector for each text, and a set gives a member when asked for one. The list of
    -- chunks is not empty, and each chunk is within the adapter's token limit, has an id that
    -- belongs to this document, and a section path that is a text or missing; all vectors are of
    -- one model and of the indexer's dimensions. The in-memory store is coherent (its two
    -- dictionaries agree, and each id is filed under the document that it belongs to) and has no
    -- record of this document in the version to be indexed. Then the call of the embedder returns
    -- the chunks with their vectors, the call of the indexer on these returns a receipt that counts
    -- them all, the row is at `indexed`, and the store has a record of the new version under each
    -- of the chunks' ids.
    pub embed-index :
        (c : Chunk) (cs : List Chunk) (s : InMemoryLedgerStore) (store : InMemoryIndexer F)
        (row : LedgerRow)
        → IsValid s
        → lookup envelope.doc_id s.rows ≡ some row
        → row.status ≡ embedding
        → All (λ x. x.token_count ≤ adapter.max_input_tokens) (c ∷ cs)
        → All (IsAccepted owner envelope.doc_id model dim) (map vector_of (c ∷ cs))
        → IsCoherent owner store
        → ((k : String) (x : IndexRecord F)
            → lookup k store.records ≡ some x
            → x.doc_id ≡ envelope.doc_id
            → x.doc_version ≢ envelope.content_hash)
        → (s' : InMemoryLedgerStore) × (result : IndexResult) × (d : Site (InMemoryIndexer F))
          × (row' : LedgerRow) × (embed float adapter settings py envelope.doc_id (c ∷ cs) s
              ≡ (ok (map vector_of (c ∷ cs)), s'))
          × (index
                (in_memory py pick index_name)
                config
                py
                envelope
                indexed_at
                (map vector_of (c ∷ cs))
                (record { ledger = s'; store = store })
              ≡ (ok result, d))
          × (result.chunks_upserted ≡ length (c ∷ cs))
          × (lookup envelope.doc_id d.ledger.rows ≡ some row')
          × (row'.status ≡ indexed)
          × Holds envelope.content_hash
              (map (λ x. x.chunk.chunk_id) (map vector_of (c ∷ cs)))
              d.store
    embed-index c cs s store row valid found waits short accepted coherent stale =
        let s' = write envelope.doc_id (advanced indexing (now s) row) s in
        let valid' : IsValid s' =
          advanced-IsValid envelope.doc_id s row valid found indexing (rw waits Edge.index)
            (rw waits (λ e. cc)) (λ e. cc) (rw waits tt) in
        let found' : lookup envelope.doc_id s'.rows ≡ some (advanced indexing (now s) row) =
          lookup-insert_self envelope.doc_id (advanced indexing (now s) row) s.rows in
        let (result, store', judgement, counted, holds) =
          judged-Indexes py pick index_name owner config envelope indexed_at model dim lawful
            positive deletes dimensioned (vector_of c) (map vector_of cs)
            (record { ledger = s'; store = store }) accepted coherent stale in
        (
          s',
          result,
          record {
            ledger =
                write envelope.doc_id (advanced indexed (now s') (advanced indexing (now s) row))
                  s';
            store = store';
          },
          advanced indexed (now s') (advanced indexing (now s) row),
          embed-settled float adapter settings py envelope.doc_id (c ∷ cs) s row valid found waits
              ∙ ap (settled float adapter settings py envelope.doc_id (c ∷ cs) s row valid found)
                  (verdict-advances float adapter settings py f answers sized sliced c cs short),
          index-recorded (in_memory py pick index_name) config py envelope indexed_at
                (map vector_of (c ∷ cs)) (record { ledger = s'; store = store })
                (advanced indexing (now s) row) valid' found' refl
              ∙ ap
                  (λ p. (
                    returned envelope p.0,
                    record {
                      ledger = recorded envelope (advanced indexing (now s) row) p.0 s';
                      store = p.1;
                    },
                  ))
                  judgement,
          counted ∙ length-map vector_of (c ∷ cs),
          lookup-insert_self envelope.doc_id
              (advanced indexed (now s') (advanced indexing (now s) row)) s'.rows,
          refl,
          holds,
        )
