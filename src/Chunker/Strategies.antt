-- ===== src/Chunker/Strategies.antt =====
-- src/vestibule/chunker/strategies: the three strategies that cut a region into drafts. The text
-- splitter of `langchain_text_splitters` is a parameter; it counts tokens by the counter that it is
-- given, and may raise. Logging is left out.
use vestibule.Prelude.{
  ℕ, String, ◌⧺◌, Bool, true, false, List, [], ◌∷◌, ◌++◌, map, Option, none, some, ℤ, ltb, ◌==◌,
  if◌then◌else◌, Outcome, ok, ◌>>=◌, ite,
}
use vestibule.Dict.{Dict, insert}
use vestibule.Chunker.{ElementType, heading, MetadataValue, nothing, number, numbers}
use vestibule.Chunker.Model.{
  Element, ChunkDraft, ChunkingThrown, TokenCounter, ChunkerConfig, element_type_discrete,
}

-- `sep.join(texts)`
unfoldable pub join : String → List String → String
join sep [] = ""
join sep (t ∷ []) = t
join sep (t ∷ u ∷ ts) = t ⧺ sep ⧺ join sep (u ∷ ts)

unfoldable pub join_element_text : List Element → String
join_element_text elements = join "\n\n" (map (λ e. e.text) elements)

-- `element_type in types`
unfoldable pub is_type_in : ElementType → List ElementType → Bool
is_type_in t [] = false
is_type_in t (u ∷ us) = ite (element_type_discrete t u) true (is_type_in t us)

-- The loop that appends the types that are not there yet.
unfoldable pub with_types : List ElementType → List ElementType → List ElementType
with_types seen [] = seen
with_types seen (t ∷ ts) =
    let skipped = with_types seen ts in
    let appended = with_types (seen ++ t ∷ []) ts in if is_type_in t seen then skipped else appended

unfoldable pub unique_element_types : List Element → List ElementType
unique_element_types elements = with_types [] (map (λ e. e.type) elements)

-- `pages.add(page)`, on the sorted set
unfoldable pub add_page : ℕ → List ℕ → List ℕ
add_page p [] = p ∷ []
add_page p (q ∷ qs) =
    let later = add_page p qs in
    if ltb p q then p ∷ q ∷ qs else if p == q then q ∷ qs else q ∷ later

unfoldable pub pages_of : List ℕ → List Element → List ℕ
pages_of pages [] = pages
pages_of pages (e ∷ es) = elim e.metadata.page [
  | none ↦ pages_of pages es
  | some p ↦ pages_of (add_page p pages) es
]

abbrev pub page_entry : List ℕ → Dict MetadataValue
page_entry [] = []
page_entry (p ∷ []) = ("page", number p) ∷ []
page_entry (p ∷ q ∷ ps) = ("pages", numbers (p ∷ q ∷ ps)) ∷ []

unfoldable pub page_metadata : List Element → Dict MetadataValue
page_metadata elements = page_entry (pages_of [] elements)

-- What strategies read and throw.
abbrev pub ChunkStrategy : Type 0
ChunkStrategy =
    ChunkerConfig → TokenCounter → List Element → Outcome ChunkingThrown (List ChunkDraft)

-- `RecursiveCharacterTextSplitter(chunk_size, chunk_overlap, length_function).split_text(text)`
abbrev pub Splitter : Type 0
Splitter = ℤ → ℤ → TokenCounter → String → Outcome ChunkingThrown (List String)

-- The comprehension over the pieces.
unfoldable pub drafts_of :
    TokenCounter
    → List ElementType
    → Dict MetadataValue
    → List String
    → Outcome ChunkingThrown (List ChunkDraft)
drafts_of count types metadata [] = ok []
drafts_of count types metadata (piece ∷ pieces) = count piece >>= λ n.
    drafts_of count types metadata pieces >>= λ rest.
    ok (record { element_types = types; text = piece; token_count = n; metadata = metadata } ∷ rest)

module _ (split_text : Splitter) where
  -- `RecursiveChunkStrategy.chunk_region`
  unfoldable pub recursive_region : ChunkStrategy
  recursive_region config count [] = ok []
  recursive_region config count (e ∷ es) =
      split_text config.target_chunk_tokens config.overlap_tokens count (join_element_text (e ∷ es))
      >>= drafts_of count (unique_element_types (e ∷ es)) (
          ("strategy", MetadataValue.text "recursive")
          ∷ ("section_path", nothing)
          ∷ page_metadata (e ∷ es))

-- A path, as a value of the metadata.
abbrev pub path_value : Option String → MetadataValue
path_value none = nothing
path_value (some path) = MetadataValue.text path

abbrev pub Section : Type 0
Section = Option String × List Element

-- `if content: sections.append((path, content))`
abbrev pub closed : Option String → List Element → List Section → List Section
closed path [] sections = sections
closed path (e ∷ es) sections = (path, e ∷ es) ∷ sections

-- The loop of `_split_into_sections`: the sections that are still to come.
unfoldable pub sections_from : Option String → List Element → List Element → List Section
sections_from path content [] = closed path content []
sections_from path content (e ∷ es) =
    ite (element_type_discrete e.type heading)
      (closed path content (sections_from (some e.text) [] es))
      (sections_from path (content ++ e ∷ []) es)

unfoldable pub split_into_sections : List Element → List Section
split_into_sections elements = sections_from none [] elements

unfoldable pub retag : Option String → ChunkDraft → ChunkDraft
retag path draft = record draft {
  metadata =
      insert "section_path" (path_value path)
        (insert "strategy" (MetadataValue.text "structure_aware") draft.metadata);
}

module _ (recursive : ChunkStrategy) where
  -- The loop of `StructureAwareChunkStrategy.chunk_region`.
  unfoldable pub chunk_sections :
      ChunkerConfig → TokenCounter → List Section → Outcome ChunkingThrown (List ChunkDraft)
  chunk_sections config count [] = ok []
  chunk_sections config count (section ∷ sections) = recursive config count section.1 >>= λ drafts.
      chunk_sections config count sections >>= λ rest. ok (map (retag section.0) drafts ++ rest)

  -- `StructureAwareChunkStrategy.chunk_region`
  unfoldable pub structure_aware_region : ChunkStrategy
  structure_aware_region config count elements =
      chunk_sections config count (split_into_sections elements)
