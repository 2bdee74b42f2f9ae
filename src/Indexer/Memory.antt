-- ===== src/Indexer/Memory.antt =====
-- `InMemoryIndexer` of src/vestibule/indexer/adapters/in_memory.py. A Python set is the list of its
-- members; which of them `next(iter(...))` gives is not known, so `pick` chooses it. `search` only
-- reads and is left out.
use vestibule.Prelude.{
  ℕ, ◌==◌, ◌&&◌, String, ◌⧺◌, Bool, true, false, List, [], ◌∷◌, map, Option, none, some, ℤ, pos,
  negsuc, ite, if◌then◌else◌, length, ok, err, string_discrete, Format,
}
use vestibule.Dict.{Dict, lookup, insert, erase}
use vestibule.Indexer.Model.{
  indexer_schema_conflict, indexer_error, other_exception, IndexRecord, UpsertOutcome,
  IndexerAdapter, StoreAction,
}
use vestibule.Indexer.Upsert.{member}

pub record InMemoryIndexer (F : Type 0) : Type 0 where
  pub records : Dict (IndexRecord F)
  pub by_doc : Dict (List String)
  pub schema : Option (ℤ × String)

-- `ids.add(k)`
unfoldable pub add : String → List String → List String
add k ids = if member k ids then ids else k ∷ ids

-- `by_doc.get(doc_id, ())`
unfoldable pub ids_of : String → Dict (List String) → List String
ids_of doc_id by_doc = elim (lookup doc_id by_doc) [ none ↦ [] | some ids ↦ ids ]

-- `for chunk_id in chunk_ids: records.pop(chunk_id, None)`
unfoldable pub erase_all : {F : Type 0} → List String → Dict (IndexRecord F) → Dict (IndexRecord F)
erase_all [] records = records
erase_all (k ∷ ks) records = erase_all ks (erase k records)

abbrev pub same_number : ℤ → ℤ → Bool
same_number (pos a) (pos b) = a == b
same_number (negsuc a) (negsuc b) = a == b
same_number _ _ = false

-- A set's choice of its first member.
abbrev pub Pick : Type 0
Pick = String → List String → String

module _ {F : Type 0} where
  -- One turn of the loop of `upsert`.
  unfoldable pub put : IndexRecord F → InMemoryIndexer F → InMemoryIndexer F
  put r s = record s {
    records = insert r.chunk_id r s.records;
    by_doc = insert r.doc_id (add r.chunk_id (ids_of r.doc_id s.by_doc)) s.by_doc;
  }

  unfoldable pub put_all : List (IndexRecord F) → InMemoryIndexer F → InMemoryIndexer F
  put_all [] s = s
  put_all (r ∷ rs) s = put_all rs (put r s)

  unfoldable pub upsert : List (IndexRecord F) → StoreAction (InMemoryIndexer F) UpsertOutcome
  upsert rs s = (ok (record { succeeded = map (λ r. r.chunk_id) rs; failed = [] }), put_all rs s)

  unfoldable pub delete_by_doc_id : String → StoreAction (InMemoryIndexer F) ℕ
  delete_by_doc_id doc_id s =
      let chunk_ids = ids_of doc_id s.by_doc in
      (
        ok (length chunk_ids),
        record s { records = erase_all chunk_ids s.records; by_doc = erase doc_id s.by_doc },
      )

  unfoldable pub count_by_doc_id : String → InMemoryIndexer F → ℕ
  unfolding ids_of
  count_by_doc_id doc_id s = length (ids_of doc_id s.by_doc)

  module _ (py : Format) (pick : Pick) where
    -- `get_doc_version` once the document's set is known; a missing record would be a `KeyError`
    unfoldable pub version_of : List String → StoreAction (InMemoryIndexer F) (Option String)
    version_of [] s = (ok none, s)
    version_of (k ∷ ks) s = elim (lookup (pick k ks) s.records) [
      | none ↦ (err (other_exception (py.repr (pick k ks))), s)
      | some r ↦ (ok (some r.doc_version), s)
    ]

    unfoldable pub get_doc_version : String → StoreAction (InMemoryIndexer F) (Option String)
    get_doc_version doc_id s = version_of (ids_of doc_id s.by_doc) s

    module _ (index_name : String) where
      -- `ensure_schema` once the present schema is known
      unfoldable pub ensure_against :
          ℤ → String → Option (ℤ × String) → StoreAction (InMemoryIndexer F) (Unit {0})
      ensure_against dimensions metric none s =
          (ok tt, record s { schema = some (dimensions, metric) })
      ensure_against dimensions metric (some (d, m)) s =
          if same_number d dimensions && ite (string_discrete m metric) true false
          then (ok tt, s)
          else (
            err (
                indexer_error (record {
                  doc_id = "";
                  reason =
                      "index "
                      ⧺ py.repr index_name
                      ⧺ " already has schema dimensions="
                      ⧺ py.digits d
                      ⧺ " metric="
                      ⧺ py.repr m
                      ⧺ "; requested dimensions="
                      ⧺ py.digits dimensions
                      ⧺ " metric="
                      ⧺ py.repr metric;
                  error_code = indexer_schema_conflict;
                })),
            s,
          )

      unfoldable pub ensure_schema : ℤ → String → StoreAction (InMemoryIndexer F) (Unit {0})
      unfolding ensure_against
      ensure_schema dimensions metric s = ensure_against dimensions metric s.schema s

      -- The class as an adapter.
      unfoldable pub in_memory : IndexerAdapter F (InMemoryIndexer F)
      unfolding upsert delete_by_doc_id get_doc_version ensure_schema
      in_memory = record {
        index_name = index_name;
        max_batch_size = 1000;
        upsert = upsert;
        delete_by_doc_id = delete_by_doc_id;
        get_doc_version = get_doc_version;
        ensure_schema = ensure_schema;
      }
