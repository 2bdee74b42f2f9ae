-- ===== src/Indexer/Redeliver.antt =====
-- A second delivery of the same version of a document.
use vestibule.Prelude.{
  String, ◌≡◌, refl, true, List, ◌∷◌, some, All, ok, length, arith, inl, inr, IsPositive, Format,
  ◌≢◌,
}
use vestibule.Dict.{lookup}
use vestibule.Indexer.Model.{IndexRecord, IndexerConfig}
use vestibule.Indexer.Upsert.{maybe_delete_stale_version, delete_stale, upsert_all}
use vestibule.Indexer.Memory.{InMemoryIndexer, in_memory, put_all, count_by_doc_id, Pick}
use vestibule.Indexer.Coherence.{IsCoherent}
use vestibule.Indexer.Puts.{lookup-put_all, receipt, upsert_all-puts}
use vestibule.Indexer.Replace.{
  IsLawful, IsBatch, get_doc_version-Reading, delete_stale-same, latest-kept, latest-version,
  upsert_all-replaces,
}

module _ {F : Type 0} (py : Format) (pick : Pick) (index_name : String) where
  removes_nothing :
      (owner : String → String) (config : IndexerConfig) (doc_id version : String)
      (s : InMemoryIndexer F)
      → IsLawful pick
      → IsCoherent owner s
      → config.delete_before_upsert_on_version_change ≡ true
      → ((k : String) (x : IndexRecord F)
          → lookup k s.records ≡ some x
          → x.doc_id ≡ doc_id
          → x.doc_version ≡ version)
      → maybe_delete_stale_version (in_memory py pick index_name) config doc_id version s
        ≡ (ok 0, s)
  unfolding maybe_delete_stale_version in_memory
  removes_nothing owner config doc_id version s lawful h on same =
      elim (get_doc_version-Reading py pick index_name owner doc_id s lawful h) [
        | inl (empty, e) ↦ rw (on, e) (unfold delete_stale in refl)
        | inr (k, x, found, mine, e) ↦
            rw
              (
                on,
                e,
                delete_stale-same (in_memory py pick index_name) doc_id version x.doc_version s
                    (same k x found mine),
              )
              refl
      ]

  -- When the call that replaced a document's version is made again, as a redelivery of its message would,
  -- it returns the same receipt but for the count of deleted chunks, which is 0, and every chunk id has the
  -- record that the first call left.
  pub upsert_all-again :
      (owner : String → String) (config : IndexerConfig) (doc_id : String) (r : IndexRecord F)
      (rs : List (IndexRecord F)) (s : InMemoryIndexer F)
      → IsLawful pick
      → IsCoherent owner s
      → IsPositive config.batch_size
      → config.delete_before_upsert_on_version_change ≡ true
      → All (IsBatch owner doc_id r.doc_version) (r ∷ rs)
      → ((k : String) (x : IndexRecord F)
          → lookup k s.records ≡ some x
          → x.doc_id ≡ doc_id
          → x.doc_version ≢ r.doc_version)
      → (s' s'' : InMemoryIndexer F) × (upsert_all
            (in_memory py pick index_name)
            config
            doc_id
            (r ∷ rs)
            s
          ≡ (
            ok (receipt py pick index_name doc_id (length (r ∷ rs)) (count_by_doc_id doc_id s) r),
            s',
          ))
        × (upsert_all (in_memory py pick index_name) config doc_id (r ∷ rs) s'
            ≡ (ok (receipt py pick index_name doc_id (length (r ∷ rs)) 0 r), s''))
        × ((k : String) → lookup k s''.records ≡ lookup k s'.records)
  upsert_all-again owner config doc_id r rs s lawful h p on batch stale =
      let (s', first, coherent, left) =
        upsert_all-replaces py pick index_name owner config doc_id r rs s lawful h p on batch
          stale in
      (
        s',
        put_all (r ∷ rs) s',
        first,
        upsert_all-puts py pick index_name config doc_id r rs s' s' 0 p (
            removes_nothing owner config doc_id r.doc_version s' lawful coherent on
              (λ k x found mine.
                latest-version owner doc_id r.doc_version k (r ∷ rs) x batch
                  (ground (arith, left k, found, coherent.owned k x found, mine)))),
        λ k. ground (
          arith,
          lookup-put_all k (r ∷ rs) s',
          left k,
          latest-kept owner doc_id r.doc_version k (r ∷ rs) batch,
        ),
      )
