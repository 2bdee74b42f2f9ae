-- ===== src/Chunker/Tests.antt =====
-- The chunker's theorems at concrete inputs.
use vestibule.Prelude.{
  ℕ, String, ◌≡◌, refl, List, [], ◌∷◌, none, some, ok, err, pos, length, All, Returns,
}
use vestibule.Samples.{doc_a, row_at, ledger_at, ledger_at-IsValid, ledger_at-lookup}
use vestibule.Identity.{codes}
use vestibule.Chunker.{heading, paragraph, table}
use vestibule.Chunker.Model.{Cell, Element, ElementMetadata, ChunkDraft, unexpected, ChunkerConfig}
use vestibule.Chunker.Strategies.{join, Splitter}
use vestibule.Chunker.Tables.{fill, edit_at, copies, grid_of, extent, markdown_table}
use vestibule.Chunker.Regions.{partition_regions}
use vestibule.Chunker.Partition.{Cut, partition_regions-Cut}
use vestibule.Chunker.Merge.{merge_undersized_tail}
use vestibule.Chunker.Tail.{sized, IsMerge, merge_undersized_tail-IsMerge}
use vestibule.Chunker.Assemble.{default_chunker, assemble_chunks, chunk}
use vestibule.Chunker.Stage.{settled, chunk-settled}
use vestibule.Chunker.Overtaken.{Passed, chunk_overtaken}
use vestibule.Ledger.Triage.{Later, Forward}
use vestibule.Chunker.Numbered.{Numbered, assemble_chunks-Numbered}
use vestibule.Chunker.Counts.{IsCounted, assemble_chunks-IsCounted}
use vestibule.Ledger.Model.{chunking, indexed}

abbrev size : String → ℕ
size s = length (codes s)

abbrev whole : Splitter
whole target overlap count content = ok (content ∷ [])

abbrev broken : Splitter
broken target overlap count content = err (unexpected "overlap is larger than the size")

abbrev small : ChunkerConfig
small = record {
  target_chunk_tokens = pos 20;
  overlap_tokens = pos 0;
  min_chunk_tokens = pos 4;
  max_chunk_tokens = pos 10;
  token_counter = "tiktoken_cl100k";
}

abbrev page_one : ElementMetadata
page_one = record { page = some 1; cells = none }

abbrev title : Element
title = record { type = heading; text = "Title"; metadata = page_one }

abbrev words : Element
words = record { type = paragraph; text = "Some words."; metadata = page_one }

abbrev two_cells : List Cell
two_cells =
    record { row_index = 0; column_index = 1; content = some "b" }
    ∷ record { row_index = 1; column_index = 0; content = some "c" }
    ∷ []

abbrev rows : Element
rows = record {
  type = table;
  text = "b c";
  metadata = record { page = some 2; cells = some two_cells };
}

abbrev sample : List Element
sample = title ∷ words ∷ rows ∷ words ∷ []

markdown : markdown_table two_cells ≡ "|  | b |\n| --- | --- |\n| c |  |"
unfolding markdown_table join grid_of fill edit_at copies extent
markdown = refl

abbrev tail : List ChunkDraft
tail =
    record { element_types = paragraph ∷ []; text = "one"; token_count = 3; metadata = [] }
    ∷ record { element_types = paragraph ∷ []; text = "two"; token_count = 3; metadata = [] }
    ∷ []

partition_regions-Cut_example : Cut none sample (partition_regions sample)
partition_regions-Cut_example = partition_regions-Cut sample

merge_undersized_tail-IsMerge_example :
    (merged : List ChunkDraft) × (merge_undersized_tail (sized size) small tail ≡ ok merged)
    × IsMerge size small tail merged
merge_undersized_tail-IsMerge_example = merge_undersized_tail-IsMerge size small tail

abbrev shown : String → String
shown s = s

assemble_chunks-Numbered_example :
    Returns
      (Numbered shown doc_a 0)
      (assemble_chunks shown (default_chunker whole small (sized size)) doc_a sample)
assemble_chunks-Numbered_example =
    assemble_chunks-Numbered shown doc_a (default_chunker whole small (sized size)) sample

assemble_chunks-IsCounted_example :
    Returns
      (All (IsCounted size))
      (assemble_chunks shown (default_chunker whole small (sized size)) doc_a sample)
assemble_chunks-IsCounted_example = assemble_chunks-IsCounted size whole small shown doc_a sample

chunk-settled_example :
    chunk shown (default_chunker whole small (sized size)) doc_a sample (ledger_at chunking)
    ≡ settled shown
        (default_chunker whole small (sized size))
        doc_a
        sample
        (ledger_at chunking)
        (row_at chunking)
        (ledger_at-IsValid chunking)
        (ledger_at-lookup chunking)
        sample
        (assemble_chunks shown (default_chunker whole small (sized size)) doc_a sample)
chunk-settled_example =
    chunk-settled shown (default_chunker whole small (sized size)) doc_a sample (ledger_at chunking)
      (row_at chunking) (ledger_at-IsValid chunking) (ledger_at-lookup chunking) refl

chunk_overtaken_example :
    Passed shown
      (default_chunker broken small (sized size))
      doc_a
      words
      []
      (ledger_at indexed)
      (row_at indexed)
      (ledger_at-IsValid indexed)
      (ledger_at-lookup indexed)
      (assemble_chunks shown (default_chunker broken small (sized size)) doc_a (words ∷ []))
chunk_overtaken_example =
    chunk_overtaken shown (default_chunker broken small (sized size)) doc_a words []
      (ledger_at indexed) (row_at indexed) (ledger_at-IsValid indexed) (ledger_at-lookup indexed)
      (Later.then Later.here Forward.finish)
