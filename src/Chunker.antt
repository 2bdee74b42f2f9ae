-- ===== src/Chunker.antt =====
-- The chunk that the chunker hands on: src/vestibule/chunker/model.py, with the kinds of element of
-- src/vestibule/analyzer/model.py.
pub mod Model
pub mod Strategies
pub mod Tables
pub mod Regions
pub mod Partition
pub mod Merge
pub mod Tail
pub mod Assemble
pub mod Stage
pub mod Overtaken
mod Tests
pub mod Numbered
pub mod Counts
pub mod Sections
pub mod Grids
use vestibule.Prelude.{ℕ, String, Bool, List}
use vestibule.Dict.{Dict}

pub data ElementType : Type 0 where
  heading paragraph table list image_caption code : ElementType

-- `ElementType.value`
abbrev pub element_value : ElementType → String
element_value heading = "heading"
element_value paragraph = "paragraph"
element_value table = "table"
element_value list = "list"
element_value image_caption = "image_caption"
element_value code = "code"

-- What the chunker's strategies store in a chunk's metadata.
pub data MetadataValue : Type 0 where
  nothing : MetadataValue
  text : String → MetadataValue
  flag : Bool → MetadataValue
  number : ℕ → MetadataValue
  numbers : List ℕ → MetadataValue

pub record Chunk : Type 0 where
  pub chunk_id : String
  pub doc_id : String
  pub position : ℕ
  pub element_types : List ElementType
  pub text : String
  pub token_count : ℕ
  pub metadata : Dict MetadataValue
