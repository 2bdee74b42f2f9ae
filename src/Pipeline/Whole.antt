-- ===== src/Pipeline/Whole.antt =====
-- A document goes from `pending` to `embedding`, and on to `indexed`, through one call of each stage.
use vestibule.Prelude.{
  ℕ, ◌≤◌, ◌<◌, String, ◌≡◌, refl, ap, ◌∙◌, ◌≢◌, true, List, ◌∷◌, map, some, pos, All, length, ok,
  Format, Fits, IsPositive,
}
use vestibule.Dict.{lookup, lookup-insert_self}
use vestibule.Vertical.Model.{ArrivalEnvelope}
use vestibule.Ledger.Model.{pending, analyzing, chunking, embedding, indexed, LedgerRow}
use vestibule.Ledger.Store.{InMemoryLedgerStore, now, write}
use vestibule.Ledger.Legal.{Edge}
use vestibule.Ledger.Invariant.{IsValid}
use vestibule.Ledger.Stage.{advanced, advanced-IsValid}
use vestibule.Analyzer.Model.{ParserRegistry, AnalyzerConfig}
use vestibule.Analyzer.Detect.{Pymupdf}
use vestibule.Analyzer.Analyze.{analyze}
use vestibule.Analyzer.Stage.{parsed, verdict, settled as analyzer_settled, analyze-settled}
use vestibule.Embedder.Model.{EmbeddedChunk, EmbedderConfig, EmbedderAdapter, Floats}
use vestibule.Embedder.Embed.{embed}
use vestibule.Indexer.Model.{IndexRecord, IndexResult, IndexerConfig, Site}
use vestibule.Indexer.Index.{index}
use vestibule.Indexer.Memory.{InMemoryIndexer, in_memory, Pick}
use vestibule.Indexer.Coherence.{IsCoherent}
use vestibule.Indexer.Replace.{IsLawful}
use vestibule.Pipeline.Accepted.{IsAccepted}
use vestibule.Pipeline.Judge.{Holds}
use vestibule.Pipeline.Run.{vector_of, embed-index}
use vestibule.Chunker.{Chunk}
use vestibule.Chunker.Model.{Element}
use vestibule.Chunker.Assemble.{Chunker, assemble_chunks, chunk}
use vestibule.Chunker.Stage.{settled as chunker_settled, chunk-settled}

module _ (sha256_hex : String → String) (pymupdf : Pymupdf) (parsers : ParserRegistry)
    (config : AnalyzerConfig) (chunker : Chunker) (envelope : ArrivalEnvelope) (content : List ℕ)
    (e : Element) (es : List Element) (c : Chunk) (cs : List Chunk) where
  -- A document that waits at `pending`, in a ledger that no other worker changes: when the parser of its
  -- type returns elements and the strategies cut these into chunks, the call of the analyzer returns the
  -- elements, the call of the chunker on these returns the chunks, and the row is at `embedding`, in its
  -- first attempt, in a ledger that is still well-formed.
  analyze-chunk :
      (s : InMemoryLedgerStore) (row : LedgerRow)
      → IsValid s
      → lookup envelope.doc_id s.rows ≡ some row
      → row.status ≡ pending
      → verdict pymupdf parsers config envelope content ≡ parsed (e ∷ es)
      → assemble_chunks sha256_hex chunker envelope.doc_id (e ∷ es) ≡ ok (c ∷ cs)
      → (s' : InMemoryLedgerStore) × (s'' : InMemoryLedgerStore) × (row' : LedgerRow) × (analyze
            pymupdf parsers config
            (λ r. r)
            envelope
            content
            s
          ≡ (ok (e ∷ es), s'))
        × (chunk sha256_hex chunker envelope.doc_id (e ∷ es) s' ≡ (ok (c ∷ cs), s''))
        × IsValid s''
        × (lookup envelope.doc_id s''.rows ≡ some row')
        × (row'.status ≡ embedding)
        × (row'.attempts ≡ 1)
  analyze-chunk s row valid found waits parses cuts =
      let doc_id = envelope.doc_id in
      let r1 = advanced analyzing (now s) row in
      let s1 = write doc_id r1 s in
      let v1 : IsValid s1 =
        advanced-IsValid doc_id s row valid found analyzing (rw waits Edge.analyze)
          (rw waits (λ x. cc)) (λ x. cc) (rw waits tt) in
      let f1 : lookup doc_id s1.rows ≡ some r1 = lookup-insert_self doc_id r1 s.rows in
      let r2 = advanced chunking (now s1) r1 in
      let s2 = write doc_id r2 s1 in
      let v2 : IsValid s2 =
        advanced-IsValid doc_id s1 r1 v1 f1 chunking Edge.chunk (λ x. cc) (λ x. cc) tt in
      let f2 : lookup doc_id s2.rows ≡ some r2 = lookup-insert_self doc_id r2 s1.rows in
      let r3 = advanced embedding (now s2) r2 in
      (
        s2,
        write doc_id r3 s2,
        r3,
        analyze-settled pymupdf parsers config (λ r. r) envelope content s row valid found v1 f1
              waits
            ∙ ap
                (analyzer_settled pymupdf parsers config (λ r. r) envelope content s row valid
                  found)
                parses,
        chunk-settled sha256_hex chunker doc_id (e ∷ es) s2 r2 v2 f2 refl
            ∙ ap (chunker_settled sha256_hex chunker doc_id (e ∷ es) s2 r2 v2 f2 (e ∷ es)) cuts,
        advanced-IsValid doc_id s2 r2 v2 f2 embedding Edge.embed (λ x. cc) (λ x. cc) tt,
        lookup-insert_self doc_id r3 s2.rows,
        refl,
        refl,
      )

module _ {F : Type 0} (py : Format) (pick : Pick) (index_name : String) (owner : String → String)
    (settings : IndexerConfig) (envelope : ArrivalEnvelope) (indexed_at : ℕ) (model : String)
    (dim : ℕ) (lawful : IsLawful pick) (positive : IsPositive settings.batch_size)
    (deletes : settings.delete_before_upsert_on_version_change ≡ true)
    (dimensioned : settings.dimensions ≡ pos dim) where
  module _ (float : Floats F) (adapter : EmbedderAdapter F) (embedding_config : EmbedderConfig)
      (f : String → List F)
      (answers : (n : ℕ) (batch : List String)
        → Fits adapter.max_batch_size batch
        → adapter.embed_batch n batch ≡ ok (map f batch))
      (sized : 0 < adapter.max_batch_size) (sliced : IsPositive embedding_config.batch_size) where
    abbrev pub embedded_as : Chunk → EmbeddedChunk F
    embedded_as =
        vector_of py pick index_name owner settings envelope indexed_at model dim lawful positive
          deletes dimensioned float adapter embedding_config f answers sized sliced

    module _ (sha256_hex : String → String) (pymupdf : Pymupdf) (parsers : ParserRegistry)
        (config : AnalyzerConfig) (chunker : Chunker) (content : List ℕ) where
      -- A document that waits at `pending`, in a well-formed ledger that no other worker changes,
      -- ends `indexed`. The parser of its type returns elements, at least one, and the strategies
      -- cut these into chunks. The conditions on the settings are that the batch sizes of the
      -- embedder and of the indexer are unset or positive, that the adapter's largest batch is
      -- positive, and that the indexer deletes old versions. The service answers each batch that is
      -- within its limit with one vector for each text, and a set gives a member when asked for
      -- one. The list of chunks is not empty, and each chunk is within the adapter's token limit,
      -- has an id that belongs to this document, and a section path that is a text or missing; all
      -- vectors are of one model and of the indexer's dimensions. The in-memory store is coherent
      -- (its two dictionaries agree, and each id is filed under the document that it belongs to)
      -- and has no record of this document in the version to be indexed. Then the calls of the
      -- analyzer, the chunker, the embedder and the indexer, each on what the last returned, all
      -- return; the receipt counts the chunks, the row is at `indexed`, and the store has a record
      -- of the new version under each of the chunks' ids.
      pub pending-indexed :
          (e : Element) (es : List Element) (c : Chunk) (cs : List Chunk) (s : InMemoryLedgerStore)
          (store : InMemoryIndexer F) (row : LedgerRow)
          → IsValid s
          → lookup envelope.doc_id s.rows ≡ some row
          → row.status ≡ pending
          → verdict pymupdf parsers config envelope content ≡ parsed (e ∷ es)
          → assemble_chunks sha256_hex chunker envelope.doc_id (e ∷ es) ≡ ok (c ∷ cs)
          → All (λ x. x.token_count ≤ adapter.max_input_tokens) (c ∷ cs)
          → All (IsAccepted owner envelope.doc_id model dim) (map embedded_as (c ∷ cs))
          → IsCoherent owner store
          → ((k : String) (x : IndexRecord F)
              → lookup k store.records ≡ some x
              → x.doc_id ≡ envelope.doc_id
              → x.doc_version ≢ envelope.content_hash)
          → (s1 s2 s3 : InMemoryLedgerStore) × (result : IndexResult) × (d : Site
              (InMemoryIndexer F))
            × (row' : LedgerRow) × (analyze pymupdf parsers config (λ r. r) envelope content s
                ≡ (ok (e ∷ es), s1))
            × (chunk sha256_hex chunker envelope.doc_id (e ∷ es) s1 ≡ (ok (c ∷ cs), s2))
            × (embed float adapter embedding_config py envelope.doc_id (c ∷ cs) s2
                ≡ (ok (map embedded_as (c ∷ cs)), s3))
            × (index
                  (in_memory py pick index_name)
                  settings
                  py
                  envelope
                  indexed_at
                  (map embedded_as (c ∷ cs))
                  (record { ledger = s3; store = store })
                ≡ (ok result, d))
            × (result.chunks_upserted ≡ length (c ∷ cs))
            × (lookup envelope.doc_id d.ledger.rows ≡ some row')
            × (row'.status ≡ indexed)
            × Holds envelope.content_hash
                (map (λ x. x.chunk.chunk_id) (map embedded_as (c ∷ cs)))
                d.store
      pending-indexed e es c cs s store row valid found waits parses cuts short accepted coherent
            stale =
          let (s1, s2, row2, analyzed, chunked, valid2, found2, waits2, fresh) =
            analyze-chunk sha256_hex pymupdf parsers config chunker envelope content e es c cs s row
              valid found waits parses cuts in
          let (s3, result, d, row', embeds, indexes, counted, stored, done, holds) =
            embed-index py pick index_name owner settings envelope indexed_at model dim lawful
              positive deletes dimensioned float adapter embedding_config f answers sized sliced c
              cs s2 store row2 valid2 found2 waits2 short accepted coherent stale in
          (
            s1, s2, s3, result, d, row', analyzed, chunked, embeds, indexes, counted, stored, done,
            holds,
          )
