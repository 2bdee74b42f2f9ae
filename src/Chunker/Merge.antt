-- ===== src/Chunker/Merge.antt =====
-- The merge of a region's last drafts in src/vestibule/chunker/chunker.py. The list that the loop
-- shortens is held back to front: the last draft, and those before it from the nearest on.
use vestibule.Prelude.{
  ℕ, ◌⧺◌, Bool, true, false, ◌&&◌, not, List, [], ◌∷◌, Option, some, ℤ, pos, negsuc, ltb,
  if◌then◌else◌, Outcome, ok, ◌>>=◌, ite, string_discrete,
}
use mathlib.Core.List.{reverse}
use vestibule.Dict.{lookup}
use vestibule.Chunker.{MetadataValue}
use vestibule.Chunker.Model.{ChunkDraft, ChunkingThrown, TokenCounter, ChunkerConfig}
use vestibule.Chunker.Strategies.{with_types}

-- `n < limit`
abbrev pub falls_short : ℕ → ℤ → Bool
falls_short n (pos limit) = ltb n limit
falls_short n (negsuc limit) = false

abbrev pub names_table : Option MetadataValue → Bool
names_table (some (MetadataValue.text s)) = ite (string_discrete s "table_atomic") true false
names_table _ = false

-- `draft.metadata.get("strategy") == STRATEGY_TABLE_ATOMIC`
unfoldable pub is_table_atomic : ChunkDraft → Bool
is_table_atomic draft = names_table (lookup "strategy" draft.metadata)

module _ (count : TokenCounter) where
  unfoldable pub merge_two_drafts : ChunkDraft → ChunkDraft → Outcome ChunkingThrown ChunkDraft
  merge_two_drafts predecessor last =
      let merged = predecessor.text ⧺ "\n\n" ⧺ last.text in
      count merged >>= λ n. ok (record {
        element_types = with_types predecessor.element_types last.element_types;
        text = merged;
        token_count = n;
        metadata = predecessor.metadata;
      })

  module _ (config : ChunkerConfig) where
    -- The condition of the loop, when there are two drafts.
    unfoldable pub is_merged : ChunkDraft → ChunkDraft → Bool
    is_merged predecessor last =
        falls_short last.token_count config.min_chunk_tokens
        && (not (is_table_atomic last) && not (is_table_atomic predecessor))

    unfoldable pub merge_from :
        ChunkDraft → List ChunkDraft → Outcome ChunkingThrown (List ChunkDraft)
    merge_from last [] = ok (last ∷ [])
    merge_from last (predecessor ∷ before) =
        let shortened = merge_two_drafts predecessor last >>= λ merged. merge_from merged before in
        if is_merged predecessor last then shortened else ok (last ∷ predecessor ∷ before)

    -- Back to front, and back again.
    abbrev pub merge_reversed : List ChunkDraft → Outcome ChunkingThrown (List ChunkDraft)
    merge_reversed [] = ok []
    merge_reversed (last ∷ before) = merge_from last before

    unfoldable pub merge_undersized_tail :
        List ChunkDraft → Outcome ChunkingThrown (List ChunkDraft)
    merge_undersized_tail drafts = merge_reversed (reverse drafts) >>= λ merged. ok (reverse merged)
