-- ===== src/Indexer/Coherence.antt =====
-- The two dictionaries of the in-memory indexer agree.
use vestibule.Prelude.{
  String, ◌≡◌, refl, sym, ◌∙◌, ap, ◌≢◌, true, List, [], ◌∷◌, none, some, All, if◌then◌else◌, ite,
  string_discrete, arith, Option-cases, ◌⊎◌, inl, inr,
}
use vestibule.Dict.{
  Dict, lookup, insert, erase, lookup-insert, lookup-erase_self, lookup-erase_ne, IsKeyed,
  insert-IsKeyed, erase-IsKeyed,
}
use vestibule.Indexer.Model.{IndexRecord}
use vestibule.Indexer.Upsert.{member}
use vestibule.Indexer.Memory.{
  InMemoryIndexer, add, ids_of, erase_all, put, put_all, upsert, delete_by_doc_id,
}

member-add :
    (j k : String) (ids : List String)
    → member j (add k ids) ≡ ite (string_discrete k j) true (member j ids)
unfolding add
member-add j k ids = ground arith

ids_of-insert :
    (j k : String) (ids : List String) (d : Dict (List String))
    → ids_of j (insert k ids d) ≡ ite (string_discrete k j) ids (ids_of j d)
unfolding ids_of
ids_of-insert j k ids d = ground (arith, lookup-insert j k ids d)

ids_of-erase :
    (j k : String) (d : Dict (List String))
    → IsKeyed d
    → ids_of j (erase k d) ≡ ite (string_discrete k j) [] (ids_of j d)
unfolding ids_of
ids_of-erase j k d h =
    ground (arith, lookup-erase_self k d h, lookup-erase_ne {V = List String} j k d)

module _ {F : Type 0} where
  erase_all-IsKeyed :
      (ks : List String) (d : Dict (IndexRecord F)) → IsKeyed d → IsKeyed (erase_all ks d)
  unfolding erase_all
  erase_all-IsKeyed [] d h = h
  erase_all-IsKeyed (k ∷ ks) d h = erase_all-IsKeyed ks (erase k d) (erase-IsKeyed k d h)

  lookup-erase_all :
      (j : String) (ks : List String) (d : Dict (IndexRecord F))
      → IsKeyed d
      → lookup j (erase_all ks d) ≡ (if member j ks then none else lookup j d)
  unfolding erase_all
  lookup-erase_all j [] d h = refl
  lookup-erase_all j (k ∷ ks) d h = ground (
    arith,
    lookup-erase_all j ks (erase k d) (erase-IsKeyed k d h),
    lookup-erase_self k d h,
    lookup-erase_ne {V = IndexRecord F} j k d,
  )

  -- `owner k` is the one document that has chunks under the id `k`.
  pub record IsCoherent (owner : String → String) (s : InMemoryIndexer F) : Type 0 where
    pub kept : IsKeyed s.records
    pub filed : IsKeyed s.by_doc
    pub owned :
        (k : String) (r : IndexRecord F)
        → lookup k s.records ≡ some r
        → (r.chunk_id ≡ k) × (r.doc_id ≡ owner k)
    pub listed :
        (k : String) (r : IndexRecord F)
        → lookup k s.records ≡ some r
        → member k (ids_of (owner k) s.by_doc) ≡ true
    pub stored :
        (doc_id k : String)
        → member k (ids_of doc_id s.by_doc) ≡ true
        → (owner k ≡ doc_id) × ((r : IndexRecord F) × (lookup k s.records ≡ some r))

  module _ (owner : String → String) where
    -- What a document's set has after a write.
    member-put :
        (r : IndexRecord F) (s : InMemoryIndexer F) (doc_id k : String)
        → member k (ids_of doc_id (put r s).by_doc) ≡ true
        → ((r.chunk_id ≡ k) × (r.doc_id ≡ doc_id)) ⊎ (member k (ids_of doc_id s.by_doc) ≡ true)
    unfolding put
    member-put r s doc_id k e = ground (
      arith,
      ids_of-insert doc_id r.doc_id (add r.chunk_id (ids_of r.doc_id s.by_doc)) s.by_doc,
      member-add k r.chunk_id (ids_of r.doc_id s.by_doc),
    )

    put-stored :
        (r : IndexRecord F) (s : InMemoryIndexer F)
        → r.doc_id ≡ owner r.chunk_id
        → IsCoherent owner s
        → (doc_id k : String) → member k (ids_of doc_id (put r s).by_doc) ≡ true
        → (owner k ≡ doc_id) × ((x : IndexRecord F) × (lookup k (put r s).records ≡ some x))
    unfolding put
    put-stored r s o h doc_id k e = elim (member-put r s doc_id k e) [
      | inl (same, mine) ↦ (
        ap owner (sym same) ∙ sym o ∙ mine,
        (r, ground (arith, lookup-insert k r.chunk_id r s.records, same)),
      )
      | inr before ↦
          let (belongs, (x, found)) = h.stored doc_id k before in
          (
            belongs,
            elim (string_discrete r.chunk_id k) [
              | yes same ↦ (r, ground (arith, lookup-insert k r.chunk_id r s.records, same))
              | no other ↦ (x, ground (arith, lookup-insert k r.chunk_id r s.records, found, other))
            ],
          )
    ]

    put-IsCoherent :
        (r : IndexRecord F) (s : InMemoryIndexer F)
        → r.doc_id ≡ owner r.chunk_id
        → IsCoherent owner s
        → IsCoherent owner (put r s)
    unfolding put
    put-IsCoherent r s o h = record {
      kept = insert-IsKeyed r.chunk_id r s.records h.kept;
      filed = insert-IsKeyed r.doc_id (add r.chunk_id (ids_of r.doc_id s.by_doc)) s.by_doc h.filed;
      owned = λ k x e. ground (arith, lookup-insert k r.chunk_id r s.records, h.owned k x, o);
      listed = λ k x e. ground (
        arith,
        lookup-insert k r.chunk_id r s.records,
        ids_of-insert (owner k) r.doc_id (add r.chunk_id (ids_of r.doc_id s.by_doc)) s.by_doc,
        member-add k r.chunk_id (ids_of r.doc_id s.by_doc),
        h.listed k x,
        o,
      );
      stored = λ doc_id k e. put-stored r s o h doc_id k e;
    }

    pub put_all-IsCoherent :
        (rs : List (IndexRecord F)) (s : InMemoryIndexer F)
        → All (λ r. r.doc_id ≡ owner r.chunk_id) rs
        → IsCoherent owner s
        → IsCoherent owner (put_all rs s)
    unfolding put_all
    put_all-IsCoherent [] s o h = h
    put_all-IsCoherent (r ∷ rs) s o h =
        put_all-IsCoherent rs (put r s) o.1 (put-IsCoherent r s o.0 h)

    -- Of a document that is deleted nothing is left, and nothing else is touched.
    pub delete-lookup :
        (doc_id : String) (s : InMemoryIndexer F)
        → IsCoherent owner s
        → (k : String)
        → lookup k (delete_by_doc_id doc_id s).1.records
          ≡ ite (string_discrete (owner k) doc_id) none (lookup k s.records)
    unfolding delete_by_doc_id
    delete-lookup doc_id s h k = elim (Option-cases (lookup k s.records)) [
      | inl none_there ↦
          ground (arith, lookup-erase_all k (ids_of doc_id s.by_doc) s.records h.kept, none_there)
      | inr (r, there) ↦ ground (
        arith,
        lookup-erase_all k (ids_of doc_id s.by_doc) s.records h.kept,
        there,
        h.listed k r there,
        h.stored doc_id k,
      )
    ]

    pub delete-IsCoherent :
        (doc_id : String) (s : InMemoryIndexer F)
        → IsCoherent owner s
        → IsCoherent owner (delete_by_doc_id doc_id s).1
    unfolding delete_by_doc_id
    delete-IsCoherent doc_id s h = record {
      kept = erase_all-IsKeyed (ids_of doc_id s.by_doc) s.records h.kept;
      filed = erase-IsKeyed doc_id s.by_doc h.filed;
      owned = λ k r e.
          h.owned k r
            (ground (arith, lookup-erase_all k (ids_of doc_id s.by_doc) s.records h.kept));
      listed = λ k r e. ground (
        arith,
        lookup-erase_all k (ids_of doc_id s.by_doc) s.records h.kept,
        ids_of-erase (owner k) doc_id s.by_doc h.filed,
        h.listed k r,
      );
      stored = λ d k e.
          let before = still d k e in
          let (belongs, (r, found)) = h.stored d k before.1 in
          (
            belongs,
            (
              r,
              ground (
                arith,
                lookup-erase_all k (ids_of doc_id s.by_doc) s.records h.kept,
                found,
                before.0,
                belongs,
                h.stored doc_id k,
              ),
            ),
          );
    }
      where
        still :
            (d k : String)
            → member k (ids_of d (erase doc_id s.by_doc)) ≡ true
            → (d ≢ doc_id) × (member k (ids_of d s.by_doc) ≡ true)
        still d k e = ground (arith, ids_of-erase d doc_id s.by_doc h.filed)

    -- Both calls that write keep the two dictionaries in agreement: each listed chunk is stored, for the
    -- document whose chunk it is, and each stored record is listed under its document. For `upsert` the
    -- records must belong to the documents that own their chunk ids.
    pub writes-IsCoherent :
        (rs : List (IndexRecord F)) (doc_id : String) (s : InMemoryIndexer F)
        → All (λ r. r.doc_id ≡ owner r.chunk_id) rs
        → IsCoherent owner s
        → IsCoherent owner (upsert rs s).1 × IsCoherent owner (delete_by_doc_id doc_id s).1
    unfolding upsert
    writes-IsCoherent rs doc_id s o h = (put_all-IsCoherent rs s o h, delete-IsCoherent doc_id s h)
