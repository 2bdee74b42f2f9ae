-- ===== src/Pipeline/Accepted.antt =====
-- The embedded chunks that the indexer accepts, and the records that it makes of them.
use vestibule.Prelude.{
  ℕ, String, ◌≡◌, refl, ap, ◌∙◌, List, [], ◌∷◌, map, Option, none, some, pos, All, Format, arith,
  Option-cases, inl, inr,
}
use vestibule.Dict.{lookup}
use vestibule.Embedder.Model.{EmbeddedChunk}
use vestibule.Vertical.Model.{ArrivalEnvelope}
use vestibule.Indexer.Model.{IndexRecord, IndexerConfig, IndexerAdapter}
use vestibule.Indexer.Records.{section_path_of, both, build_record, build_each}
use vestibule.Indexer.Index.{distinct}
use vestibule.Indexer.Verdict.{first_mismatch, misfit, refusal}
use vestibule.Indexer.Replace.{IsBatch}

-- Of one model, of `dim` dimensions, with an id of the document's own and a section path that is a text
-- or missing.
pub record IsAccepted {F : Type 0} (owner : String → String) (doc_id model : String) (dim : ℕ)
    (ec : EmbeddedChunk F) : Type 0 where
  pub of_model : ec.embedding_model ≡ model
  pub of_size : ec.embedding_dimensions ≡ dim
  pub own : owner ec.chunk.chunk_id ≡ doc_id
  pub sectioned :
      (p : Option String) × (section_path_of (lookup "section_path" ec.chunk.metadata) ≡ some p)

distinct-one :
    (m : String) (xs : List String)
    → All (λ x. x ≡ m) xs
    → (x : String) → x ≡ m
    → distinct (x ∷ xs) ≡ m ∷ []
unfolding distinct
distinct-one m [] h x e = ap (λ y. y ∷ []) e
distinct-one m (y ∷ ys) h x e = ground (arith, distinct-one m ys h.1 y h.0, e)

build_record-made :
    {F : Type 0} (py : Format) (envelope : ArrivalEnvelope) (version : String) (indexed_at : ℕ)
    (ec : EmbeddedChunk F) (p : Option String)
    → section_path_of (lookup "section_path" ec.chunk.metadata) ≡ some p
    → (r : IndexRecord F) × (build_record py envelope version indexed_at ec ≡ some r)
      × (r.doc_id ≡ envelope.doc_id)
      × (r.doc_version ≡ envelope.content_hash)
      × (r.chunk_id ≡ ec.chunk.chunk_id)
build_record-made py envelope version indexed_at ec p path =
    elim (Option-cases (build_record py envelope version indexed_at ec)) [
      | inl refused ↦ absurd (unfold build_record in ground (arith, refused, path))
      | inr (r, made) ↦ (
        r,
        made,
        unfold build_record in ground (arith, made, path),
        unfold build_record in ground (arith, made, path),
        unfold build_record in ground (arith, made, path),
      )
    ]

module _ {F : Type 0} (owner : String → String) (doc_id model : String) (dim : ℕ) where
  models :
      (ecs : List (EmbeddedChunk F))
      → All (IsAccepted owner doc_id model dim) ecs
      → All (λ x. x ≡ model) (map (λ c. c.embedding_model) ecs)
  models [] h = tt
  models (ec ∷ ecs) h = (h.0.of_model, models ecs h.1)

  module _ {B : Type 0} (adapter : IndexerAdapter F B) (config : IndexerConfig) (py : Format) where
    first_mismatch-accepts :
        config.dimensions ≡ pos dim
        → (ecs : List (EmbeddedChunk F)) → All (IsAccepted owner doc_id model dim) ecs
        → first_mismatch adapter config py ecs ≡ none
    unfolding first_mismatch
    first_mismatch-accepts sized [] h = refl
    first_mismatch-accepts sized (ec ∷ ecs) h =
        ground (arith, first_mismatch-accepts sized ecs h.1, h.0.of_size, sized)

    pub refusal-accepts :
        config.dimensions ≡ pos dim
        → (ec : EmbeddedChunk F) (ecs : List (EmbeddedChunk F))
        → All (IsAccepted owner doc_id model dim) (ec ∷ ecs)
        → refusal adapter config py (ec ∷ ecs) ≡ none
    unfolding refusal misfit
    refusal-accepts sized ec ecs h =
        rw
          (
            distinct-one model (map (λ c. c.embedding_model) ecs) (models ecs h.1)
                ec.embedding_model h.0.of_model,
            first_mismatch-accepts sized (ec ∷ ecs) h,
          )
          refl

  -- The records of accepted chunks.
  pub build_each-accepts :
      (py : Format) (envelope : ArrivalEnvelope) (version : String) (indexed_at : ℕ)
      (ecs : List (EmbeddedChunk F))
      → envelope.doc_id ≡ doc_id
      → All (IsAccepted owner doc_id model dim) ecs
      → (rs : List (IndexRecord F)) × (build_each py envelope version indexed_at ecs ≡ some rs)
        × All (IsBatch owner doc_id envelope.content_hash) rs
        × (map (λ r. r.chunk_id) rs ≡ map (λ c. c.chunk.chunk_id) ecs)
  unfolding build_each both
  build_each-accepts py envelope version indexed_at [] named h = ([], refl, tt, refl)
  build_each-accepts py envelope version indexed_at (ec ∷ ecs) named h =
      let (r, made, r_doc, r_version, r_id) =
        build_record-made py envelope version indexed_at ec h.0.sectioned.0 h.0.sectioned.1 in
      let (rs, built, batch, ids) =
        build_each-accepts py envelope version indexed_at ecs named h.1 in
      (
        r ∷ rs,
        rw (made, built) refl,
        ((r_doc ∙ named, r_version, ap owner r_id ∙ h.0.own), batch),
        ground (arith, r_id, ids),
      )
