-- ===== src/Provisioning/InMemory.antt =====
-- `InMemoryProvisioner` of src/vestibule/provisioning/adapters/in_memory.py: the adapter over the
-- in-memory vector store.
use vestibule.Prelude.{String, Bool, true, false, Option, none, some, ℤ, Outcome, ok, err, Format}
use vestibule.Provisioning.Model.{index_schema_drift}
use vestibule.Provisioning.Template.{IndexTemplate}
use vestibule.Provisioning.World.{
  IndexDescription, AdapterRaised, classified, unmapped, StoreCall, IndexProvisionerAdapter,
}
use vestibule.Indexer.Model.{
  indexer_schema_conflict, indexer_error_text, IndexingThrown, indexer_error, other_exception,
}
use vestibule.Indexer.Memory.{InMemoryIndexer, Pick, ensure_schema}

abbrev pub is_some {ℓ} : {A : Type ℓ} → Option A → Bool
is_some none = false
is_some (some a) = true

-- What `create_index` makes of what `ensure_schema` did.
unfoldable pub drift_or :
    String → Outcome IndexingThrown (Unit {0}) → Outcome AdapterRaised (Unit {0})
drift_or index_name (ok u) = ok u
drift_or index_name (err (indexer_error e)) = elim e.error_code [
  | indexer_schema_conflict ↦ err (
      classified
        (record { index_name = index_name; reason = e.reason; error_code = index_schema_drift }))
  | _ ↦ err (unmapped (indexer_error_text e))
]
drift_or index_name (err (other_exception exc)) = err (unmapped exc)

abbrev pub described : Option (ℤ × String) → Option IndexDescription
described none = none
described (some (d, m)) = some (record { dimensions = d; metric = m })

module _ {F : Type 0} (py : Format) (pick : Pick) (store_name : String) where
  unfoldable pub index_exists : String → StoreCall (InMemoryIndexer F) Bool
  index_exists index_name s = (ok (is_some s.schema), s)

  unfoldable pub create_index :
      String → IndexTemplate → ℤ → String → StoreCall (InMemoryIndexer F) (Unit {0})
  unfolding drift_or
  create_index index_name template dimensions metric s =
      let (o, s') = ensure_schema py pick store_name dimensions metric s in
      (drift_or index_name o, s')

  unfoldable pub describe_index : String → StoreCall (InMemoryIndexer F) (Option IndexDescription)
  describe_index index_name s = (ok (described s.schema), s)

  unfoldable pub delete_index : String → InMemoryIndexer F → InMemoryIndexer F
  delete_index index_name s = record s { schema = none }

  -- The class as an adapter.
  unfoldable pub in_memory_provisioner : IndexProvisionerAdapter (InMemoryIndexer F)
  unfolding index_exists create_index describe_index
  in_memory_provisioner = record {
    index_exists = index_exists;
    create_index = create_index;
    describe_index = describe_index;
  }
