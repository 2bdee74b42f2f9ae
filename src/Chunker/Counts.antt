-- ===== src/Chunker/Counts.antt =====
-- The token counts of the chunks, under a tokenizer that has an answer.
use vestibule.Prelude.{
  ℕ, suc, String, ◌≡◌, refl, List, [], ◌∷◌, ◌++◌, map, All, All-append, pos, Bool, Outcome, ok, err,
  Returns, >>=-Returns, at_will, Bool-cases, ◌⊎◌, inl, inr, ◌>>=◌, Option,
}
use vestibule.Dict.{Dict}
use vestibule.Identity.{derive_chunk_id}
use vestibule.Chunker.{Chunk, ElementType, MetadataValue}
use vestibule.Chunker.Model.{Element, ChunkDraft, ChunkingThrown, ChunkerConfig}
use vestibule.Chunker.Strategies.{
  ChunkStrategy, Splitter, Section, drafts_of, recursive_region, retag, chunk_sections,
  split_into_sections, structure_aware_region,
}
use vestibule.Chunker.Tables.{table_atomic_region}
use vestibule.Chunker.Regions.{Region, RegionKind, table_region, non_table, partition_regions}
use vestibule.Chunker.Merge.{merge_undersized_tail}
use vestibule.Chunker.Tail.{sized, Counted, merge_undersized_tail-IsMerge}
use vestibule.Chunker.Assemble.{
  Chunker, default_chunker, has_heading, dispatch_region, drafts_from, chunk_of, or_unexpected,
  assign_from, assign_positions, assemble_chunks,
}

kinds : (k : RegionKind) → (k ≡ table_region) ⊎ (k ≡ non_table)
kinds table_region = inl refl
kinds non_table = inr refl

module _ (size : String → ℕ) where
  abbrev pub IsCounted : Chunk → Type 0
  IsCounted c = c.token_count ≡ size c.text

  drafts_of-IsCounted :
      (types : List ElementType) (metadata : Dict MetadataValue) (pieces : List String)
      → Returns (All (Counted size)) (drafts_of (sized size) types metadata pieces)
  unfolding drafts_of
  drafts_of-IsCounted types metadata [] = tt
  drafts_of-IsCounted types metadata (piece ∷ pieces) =
      >>=-Returns (All (Counted size)) (All (Counted size))
        (drafts_of (sized size) types metadata pieces)
        (λ rest. ok (
          record {
            element_types = types;
            text = piece;
            token_count = size piece;
            metadata = metadata;
          }
          ∷ rest))
        (drafts_of-IsCounted types metadata pieces) (λ rest. λ h. (refl, h))

  retags-IsCounted :
      (path : Option String) (drafts : List ChunkDraft)
      → All (Counted size) drafts
      → All (Counted size) (map (retag path) drafts)
  unfolding retag
  retags-IsCounted path [] h = tt
  retags-IsCounted path (d ∷ ds) h = (h.0, retags-IsCounted path ds h.1)

  splits-IsCounted :
      (split : Outcome ChunkingThrown (List String)) (types : List ElementType)
      (metadata : Dict MetadataValue)
      → Returns (All (Counted size)) (split >>= drafts_of (sized size) types metadata)
  splits-IsCounted (ok pieces) types metadata = drafts_of-IsCounted types metadata pieces
  splits-IsCounted (err e) types metadata = tt

  module _ (split_text : Splitter) (config : ChunkerConfig) where
    abbrev recursive : ChunkStrategy
    recursive = recursive_region split_text

    abbrev chunker : Chunker
    chunker = default_chunker split_text config (sized size)

    recursive_region-IsCounted :
        (elements : List Element)
        → Returns (All (Counted size)) (recursive config (sized size) elements)
    unfolding recursive_region
    recursive_region-IsCounted [] = tt
    recursive_region-IsCounted (e ∷ es) =
        splits-IsCounted
          (split_text config.target_chunk_tokens config.overlap_tokens (sized size) _) _ _

    chunk_sections-IsCounted :
        (sections : List Section)
        → Returns (All (Counted size)) (chunk_sections recursive config (sized size) sections)
    unfolding chunk_sections
    chunk_sections-IsCounted [] = tt
    chunk_sections-IsCounted (section ∷ sections) =
        >>=-Returns (All (Counted size)) (All (Counted size))
          (recursive config (sized size) section.1)
          (λ drafts. chunk_sections recursive config (sized size) sections >>= λ rest.
            ok (map (retag section.0) drafts ++ rest))
          (recursive_region-IsCounted section.1)
          (λ drafts. λ h.
            >>=-Returns (All (Counted size)) (All (Counted size))
              (chunk_sections recursive config (sized size) sections)
              (λ rest. ok (map (retag section.0) drafts ++ rest))
              (chunk_sections-IsCounted sections)
              (λ rest. λ j.
                All-append (Counted size) (map (retag section.0) drafts) rest
                  (retags-IsCounted section.0 drafts h) j))

    table_atomic_region-IsCounted :
        (elements : List Element) (caption : Option String)
        → Returns (All (Counted size)) (table_atomic_region config (sized size) elements caption)
    unfolding table_atomic_region
    table_atomic_region-IsCounted [] caption = tt
    table_atomic_region-IsCounted (e ∷ es) caption = (refl, tt)

    dispatch_region-IsCounted :
        (has_headings : Bool) (region : Region)
        → Returns (All (Counted size)) (dispatch_region chunker has_headings region)
    unfolding dispatch_region structure_aware_region
    dispatch_region-IsCounted has_headings region = elim (kinds region.kind) [
      | inl is_table ↦
          rw is_table (table_atomic_region-IsCounted region.elements region.caption_text)
      | inr other ↦ elim (Bool-cases has_headings) [
        | inl structured ↦
            rw (other, structured) (chunk_sections-IsCounted (split_into_sections region.elements))
        | inr plain ↦ rw (other, plain) (recursive_region-IsCounted region.elements)
      ]
    ]

    drafts_from-IsCounted :
        (has_headings : Bool) (regions : List Region)
        → Returns (All (Counted size)) (drafts_from chunker has_headings regions)
    unfolding drafts_from
    drafts_from-IsCounted has_headings [] = tt
    drafts_from-IsCounted has_headings (region ∷ regions) =
        >>=-Returns (All (Counted size)) (All (Counted size))
          (dispatch_region chunker has_headings region)
          (λ drafts. merge_undersized_tail (sized size) config drafts >>= λ merged.
            drafts_from chunker has_headings regions >>= λ rest. ok (merged ++ rest))
          (dispatch_region-IsCounted has_headings region)
          (λ drafts. λ h.
            let (merged, merges, kept) = merge_undersized_tail-IsMerge size config drafts in
            rw merges (
              >>=-Returns (All (Counted size)) (All (Counted size))
                (drafts_from chunker has_headings regions) (λ rest. ok (merged ++ rest))
                (drafts_from-IsCounted has_headings regions)
                (λ rest. λ j. All-append (Counted size) merged rest (kept.1 h) j)))

    assign_from-IsCounted :
        (sha256_hex : String → String) (doc_id : String) (n : ℕ) (drafts : List ChunkDraft)
        → All (Counted size) drafts
        → Returns (All IsCounted) (assign_from sha256_hex doc_id n drafts)
    unfolding assign_from
    assign_from-IsCounted sha256_hex doc_id n [] h = tt
    assign_from-IsCounted sha256_hex doc_id n (draft ∷ drafts) h =
        >>=-Returns (λ _. Unit) (All IsCounted)
          (or_unexpected (derive_chunk_id sha256_hex doc_id (pos n)))
          (λ chunk_id. assign_from sha256_hex doc_id (suc n) drafts >>= λ rest.
            ok (chunk_of doc_id n draft chunk_id ∷ rest))
          (at_will (or_unexpected (derive_chunk_id sha256_hex doc_id (pos n))))
          (λ chunk_id. λ made.
            >>=-Returns (All IsCounted) (All IsCounted)
              (assign_from sha256_hex doc_id (suc n) drafts)
              (λ rest. ok (chunk_of doc_id n draft chunk_id ∷ rest))
              (assign_from-IsCounted sha256_hex doc_id (suc n) drafts h.1) (λ rest. λ j. (h.0, j)))

    -- With the default strategies, and a tokenizer that answers, the token count of each chunk that
    -- `_assemble_chunks` returns is the number of tokens of its text: of a piece of the splitter's, of a
    -- table, and of what the merge of the last drafts made.
    pub assemble_chunks-IsCounted :
        (sha256_hex : String → String) (doc_id : String) (elements : List Element)
        → Returns (All IsCounted) (assemble_chunks sha256_hex chunker doc_id elements)
    unfolding assemble_chunks assign_positions
    assemble_chunks-IsCounted sha256_hex doc_id elements =
        >>=-Returns (All (Counted size)) (All IsCounted)
          (drafts_from chunker (has_heading elements) (partition_regions elements))
          (assign_positions sha256_hex doc_id)
          (drafts_from-IsCounted (has_heading elements) (partition_regions elements))
          (assign_from-IsCounted sha256_hex doc_id 0)
