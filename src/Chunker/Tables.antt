-- ===== src/Chunker/Tables.antt =====
-- src/vestibule/chunker/strategies/table_atomic.py. Logging is left out.
use vestibule.Prelude.{
  ℕ, zero, suc, ◌+◌, String, ◌⧺◌, Bool, true, List, [], ◌∷◌, map, Option, none, some, ℤ, pos,
  negsuc, ltb, if◌then◌else◌, Outcome, ok, err, ◌>>=◌,
}
use vestibule.Chunker.{MetadataValue, nothing, flag}
use vestibule.Chunker.Model.{
  Cell, content_text, Element, ChunkDraft, ChunkingThrown, unexpected, TokenCounter, ChunkerConfig,
}
use vestibule.Chunker.Strategies.{join, page_metadata}
use vestibule.Identity.{is_empty}

-- `n > limit`
abbrev pub exceeds : ℕ → ℤ → Bool
exceeds n (pos limit) = ltb limit n
exceeds n (negsuc limit) = true

abbrev pub larger : ℕ → ℕ → ℕ
larger a b = if ltb a b then b else a

-- `max(f(cell) for cell in cells) + 1`, or 0 for no cell
unfoldable pub extent : (Cell → ℕ) → List Cell → ℕ
extent f [] = 0
extent f (c ∷ cs) = larger (f c + 1) (extent f cs)

-- `[v for _ in range(n)]`
unfoldable pub copies : {A : Type 0} → ℕ → A → List A
copies zero v = []
copies (suc n) v = v ∷ copies n v

-- `xs[n] = f(xs[n])`, where `n` is in range
unfoldable pub edit_at : {A : Type 0} → ℕ → (A → A) → List A → List A
edit_at n f [] = []
edit_at zero f (x ∷ xs) = f x ∷ xs
edit_at (suc n) f (x ∷ xs) = x ∷ edit_at n f xs

abbrev pub Grid : Type 0
Grid = List (List String)

-- The loop that writes the cells.
unfoldable pub fill : List Cell → Grid → Grid
fill [] grid = grid
fill (c ∷ cs) grid =
    fill cs (edit_at c.row_index (edit_at c.column_index (λ _. content_text c)) grid)

unfoldable pub grid_of : List Cell → Grid
grid_of cells =
    fill cells
      (copies (extent (λ c. c.row_index) cells) (copies (extent (λ c. c.column_index) cells) ""))

abbrev pub row_line : List String → String
row_line row = "| " ⧺ join " | " row ⧺ " |"

-- The lines of a grid; one that a cell was written to has a first row.
abbrev pub grid_lines : ℕ → Grid → List String
grid_lines column_count [] = []
grid_lines column_count (header ∷ body) =
    row_line header ∷ row_line (copies column_count "---") ∷ map row_line body

unfoldable pub markdown_table : List Cell → String
markdown_table cells = join "\n" (grid_lines (extent (λ c. c.column_index) cells) (grid_of cells))

-- `_markdown_table(cells) if cells else table.text`
abbrev pub table_body : Option (List Cell) → String → String
table_body (some (c ∷ cs)) plain = markdown_table (c ∷ cs)
table_body _ plain = plain

-- `f"{caption_text}\n\n{body}" if caption_text else body`
unfoldable pub with_caption : Option String → String → String
with_caption none body = body
with_caption (some caption) body = if is_empty caption then body else caption ⧺ "\n\n" ⧺ body

unfoldable pub serialize_table : Element → Option String → String
serialize_table table caption = with_caption caption (table_body table.metadata.cells table.text)

-- `TableAtomicChunkStrategy.chunk_region`
unfoldable pub table_atomic_region :
    ChunkerConfig
    → TokenCounter
    → List Element
    → Option String
    → Outcome ChunkingThrown (List ChunkDraft)
table_atomic_region config count [] caption = err (unexpected "list index out of range")
table_atomic_region config count (table ∷ es) caption =
    let content = serialize_table table caption in
    count content >>= λ n. ok (
      record {
        element_types = table.type ∷ [];
        text = content;
        token_count = n;
        metadata =
            ("strategy", MetadataValue.text "table_atomic")
            ∷ ("section_path", nothing)
            ∷ ("oversized", flag (exceeds n config.max_chunk_tokens))
            ∷ page_metadata (table ∷ []);
      }
      ∷ [])
