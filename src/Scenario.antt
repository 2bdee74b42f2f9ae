-- ===== src/Scenario.antt =====
-- src/vestibule/scenario/model.py: a scenario's settings, and src/vestibule/scenario/stores/base.py:
-- the two lookups that the vertical loader and the review queue make. A `datetime` is a number of
-- microseconds.
pub mod Cached
pub mod Coherence
pub mod Transparent
pub mod Stale
pub mod Select
pub mod Validation
pub mod IndexName
pub mod Consistent
pub mod Configs
mod Tests
use vestibule.Prelude.{ℕ, String, ◌≡◌, Bool, true, Option, some, ℤ}

pub record ChunkerSettings : Type 0 where
  pub target_chunk_tokens : ℤ
  pub overlap_tokens : ℤ
  pub min_chunk_tokens : ℤ
  pub max_chunk_tokens : ℤ

pub data Adapter : Type 0 where
  azure_openai fastembed : Adapter

pub record EmbedderSettings : Type 0 where
  pub adapter : Adapter
  pub model : String
  pub target_dimensions : Option ℤ

pub record IndexerSettings : Type 0 where
  pub metric : String
  pub dimensions : ℤ
  pub hnsw_m : ℤ
  pub hnsw_ef_construction : ℤ
  pub hnsw_ef_search : ℤ

pub data AclSource : Type 0 where
  envelope blob_metadata source_system : AclSource

pub record Scenario : Type 0 where
  pub scenario_id : String
  pub vertical : String
  pub config_version : String
  pub index_name : String
  pub chunker : ChunkerSettings
  pub embedder : EmbedderSettings
  pub indexer : IndexerSettings
  pub acl_source : AclSource
  pub default_trust_tier : String
  pub enabled : Bool
  pub created_at : ℕ
  pub updated_at : ℕ
  pub index_template_id : Option String

-- The read side of a `ScenarioStore` at one time.
pub record ScenarioStore : Type 0 where
  pub get : String → Option Scenario
  pub get_by_vertical : String → Option Scenario

-- What the two methods promise.
pub record IsStore (store : ScenarioStore) : Type 0 where
  pub keyed : (k : String) (sc : Scenario) → store.get k ≡ some sc → sc.scenario_id ≡ k
  pub filed :
      (v : String) (sc : Scenario)
      → store.get_by_vertical v ≡ some sc
      → (sc.vertical ≡ v) × (sc.enabled ≡ true) × (store.get sc.scenario_id ≡ some sc)
