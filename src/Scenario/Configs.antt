-- ===== src/Scenario/Configs.antt =====
-- The configurations that `Scenario` of src/vestibule/scenario/model.py makes for the stages.
use vestibule.Prelude.{ℤ, true, none, ◌≤ℤ◌}
use vestibule.Chunker.Model.{ChunkerConfig}
use vestibule.Embedder.Model.{EmbedderConfig}
use vestibule.Indexer.Model.{IndexerConfig}
use vestibule.Scenario.{Scenario}
use vestibule.Scenario.Consistent.{Consistent, IsNative, Truncated}

unfoldable to_chunker_config : Scenario → ChunkerConfig
to_chunker_config sc = record {
  target_chunk_tokens = sc.chunker.target_chunk_tokens;
  overlap_tokens = sc.chunker.overlap_tokens;
  min_chunk_tokens = sc.chunker.min_chunk_tokens;
  max_chunk_tokens = sc.chunker.max_chunk_tokens;
  token_counter = "tiktoken_cl100k";
}

unfoldable to_embedder_config : Scenario → EmbedderConfig
to_embedder_config sc = record {
  target_dimensions = sc.embedder.target_dimensions;
  batch_size = none;
}

unfoldable to_indexer_config : Scenario → IndexerConfig
to_indexer_config sc = record {
  dimensions = sc.indexer.dimensions;
  metric = sc.indexer.metric;
  batch_size = none;
  delete_before_upsert_on_version_change = true;
}

-- The configurations of a scenario that passed the checks agree: the sizes of the chunker are
-- ordered, and the length that the embedder cuts a known model's vectors to is the indexer's.
Consistent→agree :
    (sc : Scenario)
    → Consistent sc
    → ((to_chunker_config sc).min_chunk_tokens ≤ℤ (to_chunker_config sc).target_chunk_tokens)
      × ((to_chunker_config sc).target_chunk_tokens ≤ℤ (to_chunker_config sc).max_chunk_tokens)
      × ((native : ℤ) × IsNative sc.embedder.adapter sc.embedder.model native
          × Truncated
              (to_embedder_config sc).target_dimensions
              native
              (to_indexer_config sc).dimensions)
unfolding to_chunker_config to_embedder_config to_indexer_config
Consistent→agree sc h = let (name, low, high, dims) = h in (low, high, dims)
