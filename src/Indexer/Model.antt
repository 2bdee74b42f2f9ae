-- ===== src/Indexer/Model.antt =====
-- src/vestibule/indexer/model.py, the configuration, and the interface of an adapter
-- (src/vestibule/indexer/adapters/base.py) over the states `B` of a vector store.
use vestibule.Prelude.{ℕ, String, ◌⧺◌, Bool, List, Option, ℤ, Outcome}
use vestibule.Ledger.Model.{LedgerError}
use vestibule.Ledger.Store.{InMemoryLedgerStore}

pub data IndexerCode : Type 0 where
  indexer_empty_records indexer_dimension_mismatch indexer_mixed_model_batch indexer_schema_conflict
        indexer_record_too_large indexer_rate_limited indexer_upstream_error indexer_timeout
        indexer_partial_batch_failure indexer_internal indexer_dependency_missing :
      IndexerCode

abbrev pub indexer_code_text : IndexerCode → String
indexer_code_text indexer_empty_records = "INDEXER_EMPTY_RECORDS"
indexer_code_text indexer_dimension_mismatch = "INDEXER_DIMENSION_MISMATCH"
indexer_code_text indexer_mixed_model_batch = "INDEXER_MIXED_MODEL_BATCH"
indexer_code_text indexer_schema_conflict = "INDEXER_SCHEMA_CONFLICT"
indexer_code_text indexer_record_too_large = "INDEXER_RECORD_TOO_LARGE"
indexer_code_text indexer_rate_limited = "INDEXER_RATE_LIMITED"
indexer_code_text indexer_upstream_error = "INDEXER_UPSTREAM_ERROR"
indexer_code_text indexer_timeout = "INDEXER_TIMEOUT"
indexer_code_text indexer_partial_batch_failure = "INDEXER_PARTIAL_BATCH_FAILURE"
indexer_code_text indexer_internal = "INDEXER_INTERNAL"
indexer_code_text indexer_dependency_missing = "INDEXER_DEPENDENCY_MISSING"

pub record IndexerError : Type 0 where
  pub doc_id : String
  pub reason : String
  pub error_code : IndexerCode

-- `str(exc)` of an `IndexerError`
abbrev pub indexer_error_text : IndexerError → String
indexer_error_text e = e.doc_id ⧺ ": " ⧺ e.reason

-- What an adapter may throw: an `IndexerError`, or another exception with its text.
pub data IndexingThrown : Type 0 where
  indexer_error : IndexerError → IndexingThrown
  other_exception : String → IndexingThrown

-- What leaves the stage: an `IndexerError`, what the ledger raised, or pydantic's refusal of a record
-- whose `section_path` is no text.
pub data IndexRaised : Type 0 where
  indexing_failed : IndexerError → IndexRaised
  ledger_failed : LedgerError → IndexRaised
  record_invalid : IndexRaised

pub record IndexRecord (F : Type 0) : Type 0 where
  pub chunk_id : String
  pub doc_id : String
  pub doc_version : String
  pub vector : List F
  pub text : String
  pub position : ℕ
  pub section_path : Option String
  pub element_types : List String
  pub strategy : String
  pub allowed_groups : List String
  pub trust_tier : String
  pub embedding_model : String
  pub embedding_dimensions : ℕ
  pub config_version : String
  pub indexed_at : ℕ

pub record IndexResult : Type 0 where
  pub doc_id : String
  pub chunks_upserted : ℕ
  pub chunks_deleted : ℕ
  pub index_name : String
  pub embedding_model : String
  pub embedding_dimensions : ℕ

pub record UpsertOutcome : Type 0 where
  pub succeeded : List String
  pub failed : List (String × String)

-- `IndexerConfig`, but for `retry`, which only the adapters read.
pub record IndexerConfig : Type 0 where
  pub dimensions : ℤ
  pub metric : String
  pub batch_size : Option ℤ
  pub delete_before_upsert_on_version_change : Bool

-- A call of an adapter.
abbrev pub StoreAction : Type 0 → Type 0 → Type 0
StoreAction B A = B → Outcome IndexingThrown A × B

-- The operations that the stage calls.
pub record IndexerAdapter (F B : Type 0) : Type 0 where
  pub index_name : String
  pub max_batch_size : ℕ
  pub upsert : List (IndexRecord F) → StoreAction B UpsertOutcome
  pub delete_by_doc_id : String → StoreAction B ℕ
  pub get_doc_version : String → StoreAction B (Option String)
  pub ensure_schema : ℤ → String → StoreAction B (Unit {0})

-- The ledger and the vector store.
pub record Site (B : Type 0) : Type 0 where
  pub ledger : InMemoryLedgerStore
  pub store : B
