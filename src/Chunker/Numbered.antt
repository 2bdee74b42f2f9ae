-- ===== src/Chunker/Numbered.antt =====
-- The chunks of one call: their places and ids, and their token counts.
use vestibule.Prelude.{
  ℕ, suc, String, ◌≡◌, refl, List, [], ◌∷◌, pos, ok, Returns, >>=-Returns, at_will, Outcome-cases,
  inl, inr, ◌>>=◌,
}
use vestibule.Identity.{derive_chunk_id}
use vestibule.Chunker.{Chunk}
use vestibule.Chunker.Model.{Element, ChunkDraft}
use vestibule.Chunker.Regions.{partition_regions}
use vestibule.Chunker.Assemble.{
  Chunker, has_heading, drafts_from, chunk_of, or_unexpected, assign_from, assign_positions,
  assemble_chunks,
}

module _ (sha256_hex : String → String) (doc_id : String) where
  -- The chunks are the document's from place `n` on.
  abbrev pub Numbered : ℕ → List Chunk → Type 0
  Numbered n [] = Unit
  Numbered n (c ∷ cs) =
      (c.doc_id ≡ doc_id)
      × (c.position ≡ n)
      × (derive_chunk_id sha256_hex doc_id (pos n) ≡ ok c.chunk_id)
      × Numbered (suc n) cs

  abbrev Identified : ℕ → String → Type 0
  Identified n chunk_id = derive_chunk_id sha256_hex doc_id (pos n) ≡ ok chunk_id

  or_unexpected-Identified :
      (n : ℕ) → Returns (Identified n) (or_unexpected (derive_chunk_id sha256_hex doc_id (pos n)))
  or_unexpected-Identified n = elim (Outcome-cases (derive_chunk_id sha256_hex doc_id (pos n))) [
    | inl (c, e) ↦ rw e e
    | inr (x, e) ↦ rw e tt
  ]

  assign_from-Numbered :
      (n : ℕ) (drafts : List ChunkDraft)
      → Returns (Numbered n) (assign_from sha256_hex doc_id n drafts)
  unfolding assign_from
  assign_from-Numbered n [] = tt
  assign_from-Numbered n (draft ∷ drafts) =
      >>=-Returns (Identified n) (Numbered n)
        (or_unexpected (derive_chunk_id sha256_hex doc_id (pos n)))
        (λ chunk_id. assign_from sha256_hex doc_id (suc n) drafts >>= λ rest.
          ok (chunk_of doc_id n draft chunk_id ∷ rest))
        (or_unexpected-Identified n)
        (λ chunk_id. λ derived.
          >>=-Returns (Numbered (suc n)) (Numbered n) (assign_from sha256_hex doc_id (suc n) drafts)
            (λ rest. ok (chunk_of doc_id n draft chunk_id ∷ rest))
            (assign_from-Numbered (suc n) drafts)
            (λ rest. λ numbered. (refl, refl, derived, numbered)))

  -- Whatever strategies it is given, the chunks that `_assemble_chunks` returns are the document's, with
  -- the positions 0, 1, 2, ... in their order, each with the id that `derive_chunk_id` gives its position.
  pub assemble_chunks-Numbered :
      (self : Chunker) (elements : List Element)
      → Returns (Numbered 0) (assemble_chunks sha256_hex self doc_id elements)
  unfolding assemble_chunks assign_positions
  assemble_chunks-Numbered self elements =
      >>=-Returns (λ _. Unit) (Numbered 0)
        (drafts_from self (has_heading elements) (partition_regions elements))
        (assign_positions sha256_hex doc_id)
        (at_will (drafts_from self (has_heading elements) (partition_regions elements)))
        (λ drafts. λ made. assign_from-Numbered 0 drafts)
