-- ===== src/Chunker/Model.antt =====
-- The rest of src/vestibule/chunker/model.py, the elements of src/vestibule/analyzer/model.py as far as
-- a chunker reads them, src/vestibule/chunker/token_counter.py, and the chunker's configuration. The
-- tokenizer is a parameter.
use vestibule.Prelude.{
  none, some, ℕ, String, ◌⧺◌, ◌≡◌, List, Option, ℤ, Outcome, ok, err, ◌>>=◌, ite, string_discrete,
  read_discrete, Format, refl,
}
use vestibule.Dict.{Dict}
use vestibule.Chunker.{
  ElementType, heading, paragraph, table, list, image_caption, code, element_value, MetadataValue,
}

-- One of `metadata["cells"]`; a parser gives `None` for the content that it does not know.
pub record Cell : Type 0 where
  pub row_index : ℕ
  pub column_index : ℕ
  pub content : Option String

-- `str(cell.get("content", ""))`
abbrev pub content_text : Cell → String
content_text cell = elim cell.content [ none ↦ "None" | some s ↦ s ]

-- What a chunker reads in `Element.metadata`: `page`, if it is an integer, and `cells`.
pub record ElementMetadata : Type 0 where
  pub page : Option ℕ
  pub cells : Option (List Cell)

pub record Element : Type 0 where
  pub type : ElementType
  pub text : String
  pub metadata : ElementMetadata

pub record ChunkDraft : Type 0 where
  pub element_types : List ElementType
  pub text : String
  pub token_count : ℕ
  pub metadata : Dict MetadataValue

pub data ChunkerCode : Type 0 where
  chunker_empty_elements tokenizer_load_failed chunker_internal : ChunkerCode

abbrev pub chunker_code_text : ChunkerCode → String
chunker_code_text chunker_empty_elements = "CHUNKER_EMPTY_ELEMENTS"
chunker_code_text tokenizer_load_failed = "TOKENIZER_LOAD_FAILED"
chunker_code_text chunker_internal = "CHUNKER_INTERNAL"

pub record ChunkerError : Type 0 where
  pub doc_id : String
  pub reason : String
  pub error_code : ChunkerCode

-- `str(exc)` of a `ChunkerError`
abbrev pub chunker_error_text : ChunkerError → String
chunker_error_text e = e.doc_id ⧺ ": " ⧺ e.reason

-- What the work on one document may throw: a `ChunkerError`, or another exception with its text.
pub data ChunkingThrown : Type 0 where
  chunker_error : ChunkerError → ChunkingThrown
  unexpected : String → ChunkingThrown

-- `TokenCounter.count`
abbrev pub TokenCounter : Type 0
TokenCounter = String → Outcome ChunkingThrown ℕ

pub record ChunkerConfig : Type 0 where
  pub target_chunk_tokens : ℤ
  pub overlap_tokens : ℤ
  pub min_chunk_tokens : ℤ
  pub max_chunk_tokens : ℤ
  pub token_counter : String

-- `tiktoken`: an encoding by its name, or the text of the exception; and the number of tokens of a text
-- in an encoding, or the text of the exception.
pub record Tiktoken (Encoding : Type 0) : Type 0 where
  pub get_encoding : String → Outcome String Encoding
  pub encode : Encoding → String → Outcome String ℕ

module _ {Encoding : Type 0} (tiktoken : Tiktoken Encoding) (py : Format) where
  -- `TiktokenCounter._load_encoding`
  unfoldable pub load_encoding : String → Outcome ChunkingThrown Encoding
  load_encoding name = elim (tiktoken.get_encoding name) [
    | ok encoding ↦ ok encoding
    | err exc ↦ err (
        chunker_error (record {
          doc_id = "";
          reason = "failed to load tiktoken encoding " ⧺ py.repr name ⧺ ": " ⧺ exc;
          error_code = tokenizer_load_failed;
        }))
  ]

  -- `TiktokenCounter.count`: the tokens of a text in the encoding, which is loaded or cached
  unfoldable pub count_tokens : String → TokenCounter
  unfolding load_encoding
  count_tokens name content = load_encoding name >>= λ encoding.
      elim (tiktoken.encode encoding content) [ ok n ↦ ok n | err exc ↦ err (unexpected exc) ]

  unfoldable pub build_token_counter : String → Outcome ChunkingThrown TokenCounter
  unfolding count_tokens
  build_token_counter name =
      ite (string_discrete name "tiktoken_cl100k") (ok (count_tokens "cl100k_base")) (
        err (
          chunker_error (record {
            doc_id = "";
            reason = "unrecognized token_counter name: " ⧺ py.repr name;
            error_code = chunker_internal;
          })))

-- The kind of element that has this value.
element_of : String → ElementType
element_of s = ite (string_discrete s "heading") heading (
    ite (string_discrete s "paragraph") paragraph (
      ite (string_discrete s "table") table (
        ite (string_discrete s "list") list
          (ite (string_discrete s "image_caption") image_caption code))))

element_of-element_value : (t : ElementType) → element_of (element_value t) ≡ t
unfolding element_of string_discrete
element_of-element_value heading = refl
element_of-element_value paragraph = refl
element_of-element_value table = refl
element_of-element_value list = refl
element_of-element_value image_caption = refl
element_of-element_value code = refl

unfoldable pub element_type_discrete : Discrete ElementType
unfolding element_of element_of-element_value
element_type_discrete =
    read_discrete element_value element_of element_of-element_value string_discrete
