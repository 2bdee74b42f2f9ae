-- ===== src/Indexer/Records.antt =====
-- The records that `_build_records` of src/vestibule/indexer/indexer.py makes of embedded chunks.
use vestibule.Prelude.{
  ℕ, String, ◌⧺◌, true, false, List, [], ◌∷◌, map, Option, none, some, pos, Format,
}
use vestibule.Dict.{lookup}
use vestibule.Chunker.{MetadataValue, nothing, text, flag, number, numbers, element_value}
use vestibule.Embedder.Model.{EmbeddedChunk}
use vestibule.Vertical.Model.{
  ArrivalEnvelope, TrustTier, public, internal, confidential, restricted,
}
use vestibule.Indexer.Model.{IndexRecord}

-- `TrustTier.value`
abbrev pub tier_value : TrustTier → String
tier_value public = "public"
tier_value internal = "internal"
tier_value confidential = "confidential"
tier_value restricted = "restricted"

-- A metadata value as the record's `str | None`; `none` is pydantic's refusal.
unfoldable pub section_path_of : Option MetadataValue → Option (Option String)
section_path_of none = some none
section_path_of (some nothing) = some none
section_path_of (some (text t)) = some (some t)
section_path_of (some _) = none

-- A result in front of the others, if there is one and they are there.
unfoldable pub both : {A : Type 0} → Option A → Option (List A) → Option (List A)
both (some x) (some xs) = some (x ∷ xs)
both _ _ = none

module _ (py : Format) where
  -- `", ".join(str(n) for n in ns)`
  unfoldable pub listed : List ℕ → String
  listed [] = ""
  listed (n ∷ []) = py.digits (pos n)
  listed (n ∷ m ∷ ns) = py.digits (pos n) ⧺ ", " ⧺ listed (m ∷ ns)

  -- `str(metadata.get("strategy", ""))`
  unfoldable pub strategy_of : Option MetadataValue → String
  unfolding listed
  strategy_of none = ""
  strategy_of (some nothing) = "None"
  strategy_of (some (text t)) = t
  strategy_of (some (flag true)) = "True"
  strategy_of (some (flag false)) = "False"
  strategy_of (some (number n)) = py.digits (pos n)
  strategy_of (some (numbers ns)) = "[" ⧺ listed ns ⧺ "]"

module _ {F : Type 0} (py : Format) where
  unfoldable pub build_record :
      ArrivalEnvelope
      → (config_version : String) → (indexed_at : ℕ) → EmbeddedChunk F
      → Option (IndexRecord F)
  unfolding section_path_of strategy_of
  build_record envelope config_version indexed_at ec =
      elim (section_path_of (lookup "section_path" ec.chunk.metadata)) [
        | none ↦ none
        | some section_path ↦ some (record {
          chunk_id = ec.chunk.chunk_id;
          doc_id = envelope.doc_id;
          doc_version = envelope.content_hash;
          vector = ec.vector;
          text = ec.chunk.text;
          position = ec.chunk.position;
          section_path = section_path;
          element_types = map element_value ec.chunk.element_types;
          strategy = strategy_of py (lookup "strategy" ec.chunk.metadata);
          allowed_groups = envelope.allowed_groups;
          trust_tier = tier_value envelope.trust_tier;
          embedding_model = ec.embedding_model;
          embedding_dimensions = ec.embedding_dimensions;
          config_version = config_version;
          indexed_at = indexed_at;
        })
      ]

  -- The comprehension of `_build_records`
  unfoldable pub build_each :
      ArrivalEnvelope
      → (config_version : String) → (indexed_at : ℕ) → List (EmbeddedChunk F)
      → Option (List (IndexRecord F))
  unfolding build_record both
  build_each envelope config_version indexed_at [] = some []
  build_each envelope config_version indexed_at (ec ∷ ecs) =
      both (build_record envelope config_version indexed_at ec)
        (build_each envelope config_version indexed_at ecs)
