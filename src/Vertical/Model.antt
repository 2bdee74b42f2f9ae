-- ===== src/Vertical/Model.antt =====
-- src/vestibule/vertical/model.py, the configuration of loader.py, the registry of
-- review_queue.py, and the arrival envelope of src/vestibule/envelope/model.py.
use vestibule.Prelude.{ℕ, String, Bool, List, Option}
use vestibule.Dict.{Dict, lookup, insert, erase}
use vestibule.Ledger.Model.{LedgerError}
use vestibule.Ledger.Store.{InMemoryLedgerStore}

pub data TrustTier : Type 0 where
  public internal confidential restricted : TrustTier

pub record ArrivalEnvelope : Type 0 where
  pub doc_id : String
  pub source : String
  pub blob_path : String
  pub vertical : Option String
  pub scenario_id : Option String
  pub allowed_groups : List String
  pub trust_tier : TrustTier
  pub content_hash : String
  pub received_at : ℕ

pub data ResolutionSource : Type 0 where
  review_assignment envelope_scenario_id envelope_vertical source_mapping unresolved :
      ResolutionSource

-- `undecided` is the source's "unresolved".
pub data Confidence : Type 0 where
  explicit inferred undecided : Confidence

pub record VerticalResolution : Type 0 where
  pub vertical : Option String
  pub scenario_id : Option String
  pub source : ResolutionSource
  pub confidence : Confidence
  pub reason : String

pub data VerticalCode : Type 0 where
  vertical_unresolved vertical_mapping_invalid vertical_rejected review_item_not_found :
      VerticalCode

abbrev pub code_text : VerticalCode → String
code_text vertical_unresolved = "VERTICAL_UNRESOLVED"
code_text vertical_mapping_invalid = "VERTICAL_MAPPING_INVALID"
code_text vertical_rejected = "VERTICAL_REJECTED"
code_text review_item_not_found = "REVIEW_ITEM_NOT_FOUND"

-- `VerticalError`, `ScenarioError` with SCENARIO_NOT_FOUND, or what the ledger raised.
pub data Raised : Type 0 where
  vertical_error : (doc_id reason : String) → VerticalCode → Raised
  scenario_not_found : (scenario_id reason : String) → Raised
  from_ledger : LedgerError → Raised

pub record SourceMappingRule : Type 0 where
  pub match : String
  pub vertical : String

pub record VerticalLoaderConfig : Type 0 where
  pub source_mappings : List SourceMappingRule
  pub park_unresolved : Bool
  pub suggest_verticals : Bool

-- `_ParkedMetadata`
pub record ParkedMetadata : Type 0 where
  pub source : String
  pub blob_path : String
  pub suggested_verticals : List String

-- `ReviewRegistry`
abbrev pub ReviewRegistry : Type 0
ReviewRegistry = Dict ParkedMetadata

-- `ReviewRegistry.record`
unfoldable pub record_parked : String → ParkedMetadata → ReviewRegistry → ReviewRegistry
record_parked doc_id metadata registry = insert doc_id metadata registry

-- `ReviewRegistry.get`
unfoldable pub get_parked : String → ReviewRegistry → Option ParkedMetadata
get_parked doc_id registry = lookup doc_id registry

-- `ReviewRegistry.discard`
unfoldable pub discard : String → ReviewRegistry → ReviewRegistry
discard doc_id registry = erase doc_id registry

-- What the loader and the review queue share.
pub record Desk : Type 0 where
  pub ledger : InMemoryLedgerStore
  pub registry : ReviewRegistry

-- What other threads do between two of this thread's calls.
abbrev pub Others : Type 0
Others = Desk → Desk

abbrev pub alone : Others
alone d = d

-- Python's `repr` of a text, and `fnmatch.fnmatchcase`.
pub record Python : Type 0 where
  pub repr : String → String
  pub fnmatchcase : String → String → Bool
