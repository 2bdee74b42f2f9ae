-- ===== src/Indexer/Replace.antt =====
-- A document's new version replaces the old one in the in-memory indexer.
use vestibule.Prelude.{
  String, ◌≡◌, refl, sym, ◌∙◌, ◌≢◌, true, List, [], ◌∷◌, none, some, All, All-imp, ite, ok, length,
  string_discrete, arith, Option-cases, ◌⊎◌, inl, inr, IsPositive, Format,
}
use vestibule.Dict.{lookup}
use vestibule.Indexer.Model.{IndexRecord, IndexerAdapter, IndexerConfig}
use vestibule.Indexer.Upsert.{member, delete_stale, maybe_delete_stale_version, upsert_all}
use vestibule.Indexer.Memory.{
  InMemoryIndexer, ids_of, put_all, delete_by_doc_id, version_of, get_doc_version, count_by_doc_id,
  in_memory, Pick,
}
use vestibule.Indexer.Coherence.{IsCoherent, put_all-IsCoherent, delete-lookup, delete-IsCoherent}
use vestibule.Indexer.Puts.{latest, lookup-put_all, receipt, upsert_all-puts}

-- The choice of a set's member gives a member.
abbrev pub IsLawful : Pick → Type 0
IsLawful pick = (k : String) (ks : List String) → member (pick k ks) (k ∷ ks) ≡ true

delete_stale-differs :
    {F B : Type 0} (adapter : IndexerAdapter F B) (doc_id version existing : String) (s : B)
    → existing ≢ version
    → delete_stale adapter doc_id version (some existing) s ≡ adapter.delete_by_doc_id doc_id s
unfolding delete_stale
delete_stale-differs adapter doc_id version existing s differs = ground arith

pub delete_stale-same :
    {F B : Type 0} (adapter : IndexerAdapter F B) (doc_id version existing : String) (s : B)
    → existing ≡ version
    → delete_stale adapter doc_id version (some existing) s ≡ (ok 0, s)
unfolding delete_stale
delete_stale-same adapter doc_id version existing s same = ground arith

module _ {F : Type 0} where
  -- The records that are upserted are the document's, of one version.
  abbrev pub IsBatch : (owner : String → String) (doc_id version : String) → IndexRecord F → Type 0
  IsBatch owner doc_id version r =
      (r.doc_id ≡ doc_id) × (r.doc_version ≡ version) × (owner r.chunk_id ≡ doc_id)

  pub latest-owned :
      (owner : String → String) (doc_id version k : String) (rs : List (IndexRecord F))
      (x : IndexRecord F)
      → All (IsBatch owner doc_id version) rs
      → latest k rs ≡ some x
      → owner k ≡ doc_id
  unfolding latest
  latest-owned owner doc_id version k [] x h e = cc
  latest-owned owner doc_id version k (r ∷ rs) x h e = elim (Option-cases (latest k rs)) [
    | inl nothing ↦ ground (arith, nothing, h.0)
    | inr (y, there) ↦ latest-owned owner doc_id version k rs y h.1 there
  ]

  pub latest-version :
      (owner : String → String) (doc_id version k : String) (rs : List (IndexRecord F))
      (x : IndexRecord F)
      → All (IsBatch owner doc_id version) rs
      → latest k rs ≡ some x
      → x.doc_version ≡ version
  unfolding latest
  latest-version owner doc_id version k [] x h e = cc
  latest-version owner doc_id version k (r ∷ rs) x h e = elim (Option-cases (latest k rs)) [
    | inl nothing ↦ ground (arith, nothing, h.0)
    | inr (y, there) ↦ latest-version owner doc_id version k rs x h.1 (ground (arith, there))
  ]

  pub latest-kept :
      (owner : String → String) (doc_id version k : String) (rs : List (IndexRecord F))
      → All (IsBatch owner doc_id version) rs
      → (latest k rs ≡ none) ⊎ (owner k ≡ doc_id)
  latest-kept owner doc_id version k rs h = elim (Option-cases (latest k rs)) [
    | inl nothing ↦ inl nothing
    | inr (y, there) ↦ inr (latest-owned owner doc_id version k rs y h there)
  ]

module _ {F : Type 0} (py : Format) (pick : Pick) (index_name : String) where
  -- The version of a stored document is that of one of its records; of a document with no chunks, none.
  abbrev pub Reading : (String → String) → String → InMemoryIndexer F → Type 0
  Reading owner doc_id s =
      ((ids_of doc_id s.by_doc ≡ []) × (get_doc_version py pick doc_id s ≡ (ok none, s)))
      ⊎ ((k : String) × (x : IndexRecord F) × (lookup k s.records ≡ some x)
          × (x.doc_id ≡ doc_id)
          × (get_doc_version py pick doc_id s ≡ (ok (some x.doc_version), s)))

  pub get_doc_version-Reading :
      (owner : String → String) (doc_id : String) (s : InMemoryIndexer F)
      → IsLawful pick
      → IsCoherent owner s
      → Reading owner doc_id s
  unfolding get_doc_version version_of
  get_doc_version-Reading owner doc_id s lawful h = by_ids (ids_of doc_id s.by_doc) refl
    where
      by_ids : (ids : List String) → ids_of doc_id s.by_doc ≡ ids → Reading owner doc_id s
      by_ids [] e = inl (e, rw e refl)
      by_ids (k ∷ ks) e =
          let (belongs, (x, found)) = h.stored doc_id (pick k ks) (rw e (lawful k ks)) in
          inr (
            pick k ks,
            x,
            found,
            (h.owned (pick k ks) x found).1 ∙ belongs,
            rw (e, version_of, found) refl,
          )

  none_left :
      {owner : String → String} {s : InMemoryIndexer F} (doc_id : String)
      → IsCoherent owner s
      → ids_of doc_id s.by_doc ≡ []
      → (k : String)
      → lookup k s.records ≡ ite (string_discrete (owner k) doc_id) none (lookup k s.records)
  none_left {owner} {s} doc_id h empty k = elim (Option-cases (lookup k s.records)) [
    | inl nothing ↦ ground (arith, nothing)
    | inr (r, there) ↦ ground (arith, there, h.listed k r there, empty)
  ]

  -- What is removed before the upsert.
  removes :
      (owner : String → String) (config : IndexerConfig) (doc_id version : String)
      (s : InMemoryIndexer F)
      → IsLawful pick
      → IsCoherent owner s
      → config.delete_before_upsert_on_version_change ≡ true
      → ((k : String) (x : IndexRecord F)
          → lookup k s.records ≡ some x
          → x.doc_id ≡ doc_id
          → x.doc_version ≢ version)
      → (s' : InMemoryIndexer F) × (maybe_delete_stale_version
            (in_memory py pick index_name)
            config
            doc_id
            version
            s
          ≡ (ok (count_by_doc_id doc_id s), s'))
        × IsCoherent owner s'
        × ((k : String)
            → lookup k s'.records
              ≡ ite (string_discrete (owner k) doc_id) none (lookup k s.records))
  unfolding maybe_delete_stale_version in_memory count_by_doc_id
  removes owner config doc_id version s lawful h on stale =
      elim (get_doc_version-Reading owner doc_id s lawful h) [
        | inl (empty, e) ↦
            (s, rw (on, e, empty) (unfold delete_stale in refl), h, none_left doc_id h empty)
        | inr (k, x, found, mine, e) ↦ (
          (delete_by_doc_id doc_id s).1,
          rw
              (
                on,
                e,
                delete_stale-differs (in_memory py pick index_name) doc_id version x.doc_version s
                    (stale k x found mine),
              )
              (unfold delete_by_doc_id in refl),
          delete-IsCoherent owner doc_id s h,
          delete-lookup owner doc_id s h,
        )
      ]

  -- Upserting the records of a version of a document that the store does not hold replaces the document:
  -- under each chunk id of its own the store then has the last of the new records with that id, and
  -- nothing where there is none; other documents keep their records, and the two dictionaries still
  -- agree. The receipt counts the new records and the old chunks. This is for a configuration that
  -- deletes old versions, with a batch size that is unset or positive.
  pub upsert_all-replaces :
      (owner : String → String) (config : IndexerConfig) (doc_id : String) (r : IndexRecord F)
      (rs : List (IndexRecord F)) (s : InMemoryIndexer F)
      → IsLawful pick
      → IsCoherent owner s
      → IsPositive config.batch_size
      → config.delete_before_upsert_on_version_change ≡ true
      → All (IsBatch owner doc_id r.doc_version) (r ∷ rs)
      → ((k : String) (x : IndexRecord F)
          → lookup k s.records ≡ some x
          → x.doc_id ≡ doc_id
          → x.doc_version ≢ r.doc_version)
      → (s' : InMemoryIndexer F) × (upsert_all
            (in_memory py pick index_name)
            config
            doc_id
            (r ∷ rs)
            s
          ≡ (
            ok (receipt py pick index_name doc_id (length (r ∷ rs)) (count_by_doc_id doc_id s) r),
            s',
          ))
        × IsCoherent owner s'
        × ((k : String)
            → lookup k s'.records
              ≡ ite (string_discrete (owner k) doc_id) (latest k (r ∷ rs)) (lookup k s.records))
  upsert_all-replaces owner config doc_id r rs s lawful h p on batch stale =
      let (s', removed, coherent, left) =
        removes owner config doc_id r.doc_version s lawful h on stale in
      (
        put_all (r ∷ rs) s',
        upsert_all-puts py pick index_name config doc_id r rs s s' (count_by_doc_id doc_id s) p
            removed,
        put_all-IsCoherent owner (r ∷ rs) s'
            (All-imp (IsBatch owner doc_id r.doc_version) (λ x. x.doc_id ≡ owner x.chunk_id)
              (λ x b. b.0 ∙ sym b.2) (r ∷ rs) batch)
            coherent,
        λ k. ground (
          arith,
          lookup-put_all k (r ∷ rs) s',
          left k,
          latest-kept owner doc_id r.doc_version k (r ∷ rs) batch,
        ),
      )
