-- ===== src/Embedder/Model.antt =====
-- src/vestibule/embedder/model.py, the configuration, and what the stage is given: an adapter
-- (src/vestibule/embedder/adapters/base.py) and the floating-point numbers, of which nothing is assumed.
use vestibule.Prelude.{ℕ, String, ◌⧺◌, Bool, List, Option, ℤ, Outcome}
use vestibule.Chunker.{Chunk}
use vestibule.Ledger.Model.{LedgerError}

pub data EmbedderCode : Type 0 where
  embedder_empty_chunks embedder_mrl_unsupported embedder_input_too_long embedder_rate_limited
        embedder_upstream_error embedder_timeout embedder_internal embedder_dependency_missing :
      EmbedderCode

abbrev pub embedder_code_text : EmbedderCode → String
embedder_code_text embedder_empty_chunks = "EMBEDDER_EMPTY_CHUNKS"
embedder_code_text embedder_mrl_unsupported = "EMBEDDER_MRL_UNSUPPORTED"
embedder_code_text embedder_input_too_long = "EMBEDDER_INPUT_TOO_LONG"
embedder_code_text embedder_rate_limited = "EMBEDDER_RATE_LIMITED"
embedder_code_text embedder_upstream_error = "EMBEDDER_UPSTREAM_ERROR"
embedder_code_text embedder_timeout = "EMBEDDER_TIMEOUT"
embedder_code_text embedder_internal = "EMBEDDER_INTERNAL"
embedder_code_text embedder_dependency_missing = "EMBEDDER_DEPENDENCY_MISSING"

pub record EmbedderError : Type 0 where
  pub doc_id : String
  pub reason : String
  pub error_code : EmbedderCode

-- `str(exc)` of an `EmbedderError`
abbrev pub embedder_error_text : EmbedderError → String
embedder_error_text e = e.doc_id ⧺ ": " ⧺ e.reason

-- What the pipeline of one document may throw: an `EmbedderError`, or another exception with its text.
pub data EmbeddingThrown : Type 0 where
  embedder_error : EmbedderError → EmbeddingThrown
  other_exception : String → EmbeddingThrown

-- What leaves the stage: an `EmbedderError`, or what the ledger raised.
pub data EmbedRaised : Type 0 where
  embedding_failed : EmbedderError → EmbedRaised
  ledger_failed : LedgerError → EmbedRaised

-- `EmbedderConfig`, but for `retry`, which only the adapters read.
pub record EmbedderConfig : Type 0 where
  pub target_dimensions : Option ℤ
  pub batch_size : Option ℤ

pub record EmbeddedChunk (F : Type 0) : Type 0 where
  pub chunk : Chunk
  pub vector : List F
  pub embedding_model : String
  pub embedding_dimensions : ℕ
  pub truncated_from : Option ℕ

-- The operations of `float` and the builtin `sum`.
pub record Floats (F : Type 0) : Type 0 where
  pub sum : List F → F
  pub times : F → F → F
  pub divided : F → F → F
  pub sqrt : F → F
  pub is_zero : F → Bool

-- The service answers the n-th call of `embed_batch` as it likes.
pub record EmbedderAdapter (F : Type 0) : Type 0 where
  pub model_name : String
  pub document_prefix : Option String
  pub max_batch_size : ℕ
  pub max_input_tokens : ℕ
  pub supports_mrl : Bool
  pub embed_batch : ℕ → List String → Outcome EmbeddingThrown (List (List F))
