-- ===== src/Pipeline/Judge.antt =====
-- The indexer's verdict on chunks that it accepts, over the in-memory store.
use vestibule.Prelude.{
  ℕ, suc, String, ◌≡◌, refl, ap, ◌∙◌, sym, subst, ◌≢◌, true, List, [], ◌∷◌, map, some, pos, All,
  length, Format, arith, IsPositive, string_discrete, if_pos, Option-cases, inl, inr,
}
use vestibule.Dict.{lookup}
use vestibule.Embedder.Model.{EmbeddedChunk}
use vestibule.Vertical.Model.{ArrivalEnvelope}
use vestibule.Indexer.Model.{IndexRecord, IndexResult, IndexerConfig, Site}
use vestibule.Indexer.Upsert.{member}
use vestibule.Indexer.Index.{config_version_for}
use vestibule.Indexer.Verdict.{Verdict as Judgement, verdict as judge, fate, built, judged}
use vestibule.Indexer.Memory.{InMemoryIndexer, in_memory, count_by_doc_id, Pick}
use vestibule.Indexer.Coherence.{IsCoherent}
use vestibule.Indexer.Puts.{latest, receipt}
use vestibule.Indexer.Replace.{IsLawful, IsBatch, latest-owned, latest-version, upsert_all-replaces}
use vestibule.Pipeline.Accepted.{IsAccepted, refusal-accepts, build_each-accepts}

latest-found :
    {F : Type 0} (k : String) (rs : List (IndexRecord F))
    → member k (map (λ r. r.chunk_id) rs) ≡ true
    → (r : IndexRecord F) × (latest k rs ≡ some r)
unfolding latest
latest-found k [] h = absurd (ground arith)
latest-found k (r ∷ rs) h = elim (Option-cases (latest k rs)) [
  | inr (x, there) ↦ (x, rw there refl)
  | inl nothing ↦ elim (string_discrete r.chunk_id k) [
    | yes same ↦ (r, ground (arith, nothing, same))
    | no other ↦
        let (x, there) = latest-found k rs (ground arith) in absurd (ground (arith, nothing, there))
  ]
]

length-ids :
    {A B : Type 0} (g : A → String) (h : B → String) (xs : List A) (ys : List B)
    → map g xs ≡ map h ys
    → length xs ≡ length ys
length-ids g h [] [] e = refl
length-ids g h [] (y ∷ ys) e = cc
length-ids g h (x ∷ xs) [] e = cc
length-ids g h (x ∷ xs) (y ∷ ys) e = ap suc (length-ids g h xs ys (ground arith))

-- Every id has a record of that version.
abbrev pub Holds : {F : Type 0} → (version : String) → List String → InMemoryIndexer F → Type 0
Holds {F} version ids s =
    (k : String)
    → member k ids ≡ true
    → (r : IndexRecord F) × (lookup k s.records ≡ some r) × (r.doc_version ≡ version)

module _ {F : Type 0} (py : Format) (pick : Pick) (index_name : String) (owner : String → String)
    (config : IndexerConfig) (envelope : ArrivalEnvelope) (indexed_at : ℕ) (model : String)
    (dim : ℕ) (lawful : IsLawful pick) (positive : IsPositive config.batch_size)
    (deletes : config.delete_before_upsert_on_version_change ≡ true)
    (dimensioned : config.dimensions ≡ pos dim) where
  -- What the indexer makes of chunks that it accepts.
  abbrev pub Indexes : (ecs : List (EmbeddedChunk F)) → Site (InMemoryIndexer F) → Type 0
  Indexes ecs d =
      (result : IndexResult) × (store : InMemoryIndexer F) × (judged (in_memory py pick index_name)
          config py envelope indexed_at ecs d
        ≡ (Judgement.advance result, store))
      × (result.chunks_upserted ≡ length ecs)
      × Holds envelope.content_hash (map (λ c. c.chunk.chunk_id) ecs) store

  pub judged-Indexes :
      (ec : EmbeddedChunk F) (ecs : List (EmbeddedChunk F)) (d : Site (InMemoryIndexer F))
      → All (IsAccepted owner envelope.doc_id model dim) (ec ∷ ecs)
      → IsCoherent owner d.store
      → ((k : String) (x : IndexRecord F)
          → lookup k d.store.records ≡ some x
          → x.doc_id ≡ envelope.doc_id
          → x.doc_version ≢ envelope.content_hash)
      → Indexes (ec ∷ ecs) d
  judged-Indexes ec ecs d accepted coherent stale = from_records (
      build_each-accepts owner envelope.doc_id model dim py envelope
        (config_version_for envelope.doc_id d.ledger) indexed_at (ec ∷ ecs) refl accepted)
    where
      from_records :
          (rs : List (IndexRecord F)) × (built
                (in_memory py pick index_name)
                config
                py
                envelope
                indexed_at
                (ec ∷ ecs)
                d
              ≡ some rs)
            × All (IsBatch owner envelope.doc_id envelope.content_hash) rs
            × (map (λ r. r.chunk_id) rs ≡ map (λ c. c.chunk.chunk_id) (ec ∷ ecs))
          → Indexes (ec ∷ ecs) d
      from_records ([], made, batch, ids) = cc
      from_records (r ∷ rs, made, batch, ids) =
          let (store, ran, _, left) =
            upsert_all-replaces py pick index_name owner config envelope.doc_id r rs d.store lawful
              coherent positive deletes
              (subst (λ v. All (IsBatch owner envelope.doc_id v) (r ∷ rs)) (sym batch.0.1) batch)
              (subst
                (λ v.
                  (k : String) (x : IndexRecord F)
                  → lookup k d.store.records ≡ some x
                  → x.doc_id ≡ envelope.doc_id
                  → x.doc_version ≢ v)
                (sym batch.0.1) stale) in
          (
            receipt py pick index_name envelope.doc_id (length (r ∷ rs))
                (count_by_doc_id envelope.doc_id d.store) r,
            store,
            rw
                (
                  refusal-accepts owner envelope.doc_id model dim (in_memory py pick index_name)
                      config py dimensioned ec ecs accepted,
                  made,
                )
                (unfold judge fate in rw ran refl),
            length-ids (λ x. x.chunk_id) (λ c. c.chunk.chunk_id) (r ∷ rs) (ec ∷ ecs) ids,
            λ k h.
                let (x, there) =
                  latest-found k (r ∷ rs) (subst (λ ks. member k ks ≡ true) (sym ids) h) in
                (
                  x,
                  left k
                      ∙ if_pos (string_discrete (owner k) envelope.doc_id)
                          (latest-owned owner envelope.doc_id envelope.content_hash k (r ∷ rs) x
                            batch there)
                          (latest k (r ∷ rs)) (lookup k d.store.records)
                      ∙ there,
                  latest-version owner envelope.doc_id envelope.content_hash k (r ∷ rs) x batch
                      there,
                ),
          )
