-- ===== src/Pipeline/Tests.antt =====
-- A document's way through both stages, at a concrete input.
use vestibule.Prelude.{
  ℕ, ◌+◌, ◌*◌, ◌/◌, ◌==◌, String, ◌⧺◌, ◌≡◌, refl, true, List, [], ◌∷◌, map, none, some, pos, ok,
  Format, arith, string_discrete, read_discrete,
}
use vestibule.Samples.{doc_a, row_at, ledger_at, ledger_at-IsValid, ledger_at-lookup}
use vestibule.Dict.{lookup, insert}
use vestibule.Chunker.{Chunk, paragraph, text}
use vestibule.Ledger.Model.{pending, embedding, indexed, LedgerRow}
use vestibule.Ledger.Store.{InMemoryLedgerStore}
use vestibule.Embedder.Model.{EmbeddedChunk, EmbedderConfig, EmbedderAdapter, Floats}
use vestibule.Embedder.Embed.{apply_prefix, build_embedded_chunk, embed}
use vestibule.Vertical.Model.{ArrivalEnvelope, internal}
use vestibule.Indexer.Model.{IndexResult, IndexerConfig, Site}
use vestibule.Indexer.Records.{section_path_of}
use vestibule.Indexer.Index.{index}
use vestibule.Indexer.Memory.{InMemoryIndexer, in_memory, ids_of, Pick}
use vestibule.Indexer.Coherence.{IsCoherent}
use vestibule.Indexer.Replace.{IsLawful}
use vestibule.Pipeline.Accepted.{IsAccepted}
use vestibule.Pipeline.Judge.{Holds}
use vestibule.Pipeline.Run.{embed-index}
use vestibule.Pipeline.Whole.{pending-indexed}
use vestibule.Identity.{derive_chunk_id, validate_id_format, match_hex, validate_chunk_index, str}
use vestibule.Chunker.Model.{Element, element_type_discrete}
use vestibule.Chunker.Strategies.{ChunkStrategy}
use vestibule.Chunker.Regions.{partition_regions, partition_from}
use vestibule.Chunker.Merge.{merge_undersized_tail, merge_from}
use vestibule.Chunker.Assemble.{
  Chunker, has_heading, dispatch_region, drafts_from, assign_positions, assign_from,
  assemble_chunks, chunk,
}
use vestibule.Analyzer.Model.{image, returned, ParserRegistry, AnalyzerConfig, register, get}
use vestibule.Analyzer.Detect.{detect_type, starts_with}
use vestibule.Analyzer.Analyze.{analyze}
use vestibule.Analyzer.Stage.{verdict, parsed}

abbrev sum : List ℕ → ℕ
sum [] = 0
sum (n ∷ ns) = n + sum ns

abbrev naturals : Floats ℕ
naturals = record {
  sum = sum;
  times = λ a b. a * b;
  divided = λ a b. a / b;
  sqrt = λ a. a;
  is_zero = λ a. a == 0;
}

abbrev plain : Format
plain = record { digits = λ n. "n"; repr = λ s. s; repr_sorted = λ ss. "[]" }

abbrev vector_of_text : String → List ℕ
vector_of_text t = 1 ∷ 2 ∷ []

abbrev service : EmbedderAdapter ℕ
service = record {
  model_name = "tiny";
  document_prefix = none;
  max_batch_size = 2;
  max_input_tokens = 100;
  supports_mrl = true;
  embed_batch = λ n batch. ok (map vector_of_text batch);
}

abbrev settings : EmbedderConfig
settings = record { target_dimensions = none; batch_size = some (pos 1) }

abbrev config : IndexerConfig
config = record {
  dimensions = pos 2;
  metric = "cosine";
  batch_size = none;
  delete_before_upsert_on_version_change = true;
}

abbrev chunk_as : String → Chunk
chunk_as id = record {
  chunk_id = id;
  doc_id = doc_a;
  position = 0;
  element_types = paragraph ∷ [];
  text = "words";
  token_count = 7;
  metadata = ("section_path", text "1. Scope") ∷ [];
}

abbrev arrival : ArrivalEnvelope
arrival = record {
  doc_id = doc_a;
  source = "share";
  blob_path = "a.pdf";
  vertical = none;
  scenario_id = none;
  allowed_groups = [];
  trust_tier = internal;
  content_hash = "new";
  received_at = 1;
}

abbrev first : Pick
first k ks = k

first-IsLawful : IsLawful first
first-IsLawful k ks = ground arith

abbrev owner : String → String
owner k = doc_a

abbrev empty : InMemoryIndexer ℕ
empty = record { records = []; by_doc = []; schema = none }

empty-IsCoherent : IsCoherent owner empty
unfolding lookup ids_of
empty-IsCoherent = record {
  kept = tt;
  filed = tt;
  owned = λ k r e. cc;
  listed = λ k r e. cc;
  stored = λ d k e. cc;
}

abbrev with_vector : Chunk → EmbeddedChunk ℕ
with_vector c =
    build_embedded_chunk naturals service settings c (vector_of_text (apply_prefix c.text none))

with_vector-IsAccepted : (id : String) → IsAccepted owner doc_a "tiny" 2 (with_vector (chunk_as id))
unfolding build_embedded_chunk section_path_of lookup string_discrete
with_vector-IsAccepted id = record {
  of_model = refl;
  of_size = refl;
  own = refl;
  sectioned = (some "1. Scope", refl);
}

embed-index_example :
    (s' : InMemoryLedgerStore) × (result : IndexResult) × (d : Site (InMemoryIndexer ℕ))
    × (row' : LedgerRow) × (embed naturals service settings plain doc_a
          (chunk_as "a" ∷ chunk_as "b" ∷ [])
          (ledger_at embedding)
        ≡ (ok (map with_vector (chunk_as "a" ∷ chunk_as "b" ∷ [])), s'))
    × (index
          (in_memory plain first "dev")
          config
          plain
          arrival
          50
          (map with_vector (chunk_as "a" ∷ chunk_as "b" ∷ []))
          (record { ledger = s'; store = empty })
        ≡ (ok result, d))
    × (result.chunks_upserted ≡ 2)
    × (lookup doc_a d.ledger.rows ≡ some row')
    × (row'.status ≡ indexed)
    × Holds "new"
        (map (λ x. x.chunk.chunk_id) (map with_vector (chunk_as "a" ∷ chunk_as "b" ∷ [])))
        d.store
embed-index_example =
    embed-index plain first "dev" owner config arrival 50 "tiny" 2 first-IsLawful tt refl refl
      naturals service settings vector_of_text (λ n batch fits. refl) (omega arith) (omega arith)
      (chunk_as "a") (chunk_as "b" ∷ []) (ledger_at embedding) empty (row_at embedding)
      (ledger_at-IsValid embedding) (ledger_at-lookup embedding) refl
      (omega arith, (omega arith, tt))
      (with_vector-IsAccepted "a", (with_vector-IsAccepted "b", tt)) empty-IsCoherent
      (λ k x e. unfold lookup in cc)

-- An image whose parser finds one paragraph, which is one chunk.
abbrev found_words : Element
found_words = record {
  type = paragraph;
  text = "words";
  metadata = record { page = none; cells = none };
}

abbrev parsers : ParserRegistry
parsers = register image (λ e b. returned (found_words ∷ [])) []

abbrev analyzer_config : AnalyzerConfig
analyzer_config = record {
  scanned_pdf_probe_pages = pos 3;
  scanned_pdf_min_chars_per_page = pos 50;
  parser_timeout_seconds = "240.0";
}

abbrev picture : List ℕ
picture = 255 ∷ 216 ∷ 255 ∷ 224 ∷ []

picture_parses : verdict none parsers analyzer_config arrival picture ≡ parsed (found_words ∷ [])
unfolding verdict detect_type starts_with register get lookup insert string_discrete
picture_parses = refl

abbrev one_draft : ChunkStrategy
one_draft c count es = ok (
    record {
      element_types = paragraph ∷ [];
      text = "words";
      token_count = 7;
      metadata = ("section_path", text "1. Scope") ∷ [];
    }
    ∷ [])

abbrev shown : String → String
shown s = s

abbrev chunker : Chunker
chunker = record {
  config = record {
    target_chunk_tokens = pos 20;
    overlap_tokens = pos 0;
    min_chunk_tokens = pos 4;
    max_chunk_tokens = pos 10;
    token_counter = "tiktoken_cl100k";
  };
  token_counter = λ s. ok 7;
  recursive = one_draft;
  structure_aware = one_draft;
  table_atomic = λ c count es caption. ok [];
}

abbrev first_id : String
first_id = doc_a ⧺ "0"

words_cut : assemble_chunks shown chunker doc_a (found_words ∷ []) ≡ ok (chunk_as first_id ∷ [])
unfolding assemble_chunks drafts_from partition_regions partition_from dispatch_region has_heading
    merge_undersized_tail merge_from assign_positions assign_from derive_chunk_id validate_id_format
    match_hex validate_chunk_index element_type_discrete read_discrete str
words_cut = refl

pending-indexed_example :
    (s1 s2 s3 : InMemoryLedgerStore) × (result : IndexResult) × (d : Site (InMemoryIndexer ℕ))
    × (row' : LedgerRow) × (analyze none parsers analyzer_config
          (λ r. r)
          arrival
          picture
          (ledger_at pending)
        ≡ (ok (found_words ∷ []), s1))
    × (chunk shown chunker doc_a (found_words ∷ []) s1 ≡ (ok (chunk_as first_id ∷ []), s2))
    × (embed naturals service settings plain doc_a (chunk_as first_id ∷ []) s2
        ≡ (ok (map with_vector (chunk_as first_id ∷ [])), s3))
    × (index
          (in_memory plain first "dev")
          config
          plain
          arrival
          50
          (map with_vector (chunk_as first_id ∷ []))
          (record { ledger = s3; store = empty })
        ≡ (ok result, d))
    × (result.chunks_upserted ≡ 1)
    × (lookup doc_a d.ledger.rows ≡ some row')
    × (row'.status ≡ indexed)
    × Holds "new" (map (λ x. x.chunk.chunk_id) (map with_vector (chunk_as first_id ∷ []))) d.store
pending-indexed_example =
    pending-indexed plain first "dev" owner config arrival 50 "tiny" 2 first-IsLawful tt refl refl
      naturals service settings vector_of_text (λ n batch fits. refl) (omega arith) (omega arith)
      shown none parsers analyzer_config chunker picture found_words [] (chunk_as first_id) []
      (ledger_at pending) empty (row_at pending) (ledger_at-IsValid pending)
      (ledger_at-lookup pending) refl picture_parses words_cut (omega arith, tt)
      (with_vector-IsAccepted first_id, tt) empty-IsCoherent (λ k x e. unfold lookup in cc)
