-- ===== src/Embedder/Batching.antt =====
-- The batches that `embed_all` sends, and what it makes of the answers.
use vestibule.Prelude.{
  ℕ, suc, ◌<◌, String, ◌≡◌, refl, ap, List, [], ◌∷◌, ◌++◌, map, All, ok, in_batches, IsPositive,
  capped-Fits, joined, Fits,
}
use vestibule.Chunker.{Chunk}
use vestibule.Embedder.Model.{EmbedderConfig, EmbedderAdapter, Floats}
use vestibule.Embedder.Embed.{
  effective_batch_size, embed_batches, build_all, build_embedded_chunk, embed_all, apply_prefix,
  or_thrown,
}

map-append :
    {A : Type 0} {B : Type 0} (f : A → B) (xs ys : List A) → map f xs ++ map f ys ≡ map f (xs ++ ys)
map-append f [] ys = refl
map-append f (x ∷ xs) ys = ap (f x ∷◌) (map-append f xs ys)

map-map :
    {A : Type 0} {B : Type 0} {C : Type 0} (g : B → C) (f : A → B) (xs : List A)
    → map g (map f xs) ≡ map (λ x. g (f x)) xs
map-map g f [] = refl
map-map g f (x ∷ xs) = ap (g (f x) ∷◌) (map-map g f xs)

module _ {F : Type 0} (adapter : EmbedderAdapter F) (config : EmbedderConfig) where
  -- For a positive limit of the adapter, and a configured size that is unset or positive, the texts
  -- are split into batches that are not empty, keep to the adapter's limit, and together are the
  -- texts in their order.
  pub effective_batch_size-Fits :
      (texts : List String)
      → 0 < adapter.max_batch_size
      → IsPositive config.batch_size
      → (bs : List (List String)) × (in_batches (effective_batch_size adapter config) texts ≡ ok bs)
        × (joined bs ≡ texts)
        × All (Fits adapter.max_batch_size) bs
  unfolding effective_batch_size
  effective_batch_size-Fits texts positive p =
      capped-Fits config.batch_size adapter.max_batch_size texts positive p

  module _ (float : Floats F) (f : String → List F)
      (answers : (n : ℕ) (batch : List String)
        → Fits adapter.max_batch_size batch
        → adapter.embed_batch n batch ≡ ok (map f batch)) where
    embed_batches-pointwise :
        (n : ℕ) (bs : List (List String))
        → All (Fits adapter.max_batch_size) bs
        → embed_batches adapter n bs ≡ ok (map f (joined bs))
    unfolding embed_batches
    embed_batches-pointwise n [] h = refl
    embed_batches-pointwise n (b ∷ bs) h =
        rw (answers n b h.0, embed_batches-pointwise (suc n) bs h.1, map-append f b (joined bs))
          refl

    build_all-pointwise :
        (g : Chunk → List F) (chunks : List Chunk)
        → build_all float adapter config chunks (map g chunks)
          ≡ ok (map (λ c. build_embedded_chunk float adapter config c (g c)) chunks)
    unfolding build_all build_embedded_chunk
    build_all-pointwise g [] = refl
    build_all-pointwise g (c ∷ cs) = rw (build_all-pointwise g cs) refl

    -- With an adapter that answers each batch within its limit by one vector for each text, `embed_all`
    -- gives one embedded chunk for each chunk, in order, made from the chunk's own vector, whatever
    -- positive batch size is configured.
    pub embed_all-pointwise :
        (chunks : List Chunk)
        → 0 < adapter.max_batch_size
        → IsPositive config.batch_size
        → embed_all float adapter config chunks
          ≡ ok (
              map
                (λ c.
                  build_embedded_chunk float adapter config c
                    (f (apply_prefix c.text adapter.document_prefix)))
                chunks)
    unfolding embed_all or_thrown
    embed_all-pointwise chunks positive p =
        let texts = map (λ c. apply_prefix c.text adapter.document_prefix) chunks in
        let (bs, split, whole, fit) = effective_batch_size-Fits texts positive p in
        rw
          (
            split,
            embed_batches-pointwise 0 bs fit,
            whole,
            map-map f (λ c. apply_prefix c.text adapter.document_prefix) chunks,
            build_all-pointwise (λ c. f (apply_prefix c.text adapter.document_prefix)) chunks,
          )
          refl
