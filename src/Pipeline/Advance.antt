-- ===== src/Pipeline/Advance.antt =====
-- The embedder advances a document whose chunks are short enough, with a service that answers.
use vestibule.Prelude.{
  ℕ, ◌≤◌, ◌<◌, String, ◌≡◌, refl, List, [], ◌∷◌, map, none, All, ok, Format, arith, Fits,
  IsPositive,
}
use vestibule.Chunker.{Chunk}
use vestibule.Embedder.Model.{EmbeddedChunk, EmbedderConfig, EmbedderAdapter, Floats}
use vestibule.Embedder.Embed.{apply_prefix, build_embedded_chunk}
use vestibule.Embedder.Batching.{embed_all-pointwise}
use vestibule.Embedder.Stage.{Verdict, first_too_long, decided, verdict}

none_too_long :
    (limit : ℕ) (chunks : List Chunk)
    → All (λ c. c.token_count ≤ limit) chunks
    → first_too_long limit chunks ≡ none
unfolding first_too_long
none_too_long limit [] h = refl
none_too_long limit (c ∷ cs) h = ground (arith, none_too_long limit cs h.1, h.0)

module _ {F : Type 0} (float : Floats F) (adapter : EmbedderAdapter F) (config : EmbedderConfig)
    (py : Format) (f : String → List F)
    (answers : (n : ℕ) (batch : List String)
      → Fits adapter.max_batch_size batch
      → adapter.embed_batch n batch ≡ ok (map f batch))
    (sized : 0 < adapter.max_batch_size) (positive : IsPositive config.batch_size) where
  -- The chunk with the vector that the service gives its text.
  abbrev pub embedded : Chunk → EmbeddedChunk F
  embedded c =
      build_embedded_chunk float adapter config c (f (apply_prefix c.text adapter.document_prefix))

  pub verdict-advances :
      (c : Chunk) (cs : List Chunk)
      → All (λ x. x.token_count ≤ adapter.max_input_tokens) (c ∷ cs)
      → verdict float adapter config py (c ∷ cs) ≡ Verdict.advance (map embedded (c ∷ cs))
  unfolding verdict
  verdict-advances c cs short =
      rw
        (
          none_too_long adapter.max_input_tokens (c ∷ cs) short,
          embed_all-pointwise adapter config float f answers (c ∷ cs) sized positive,
        )
        (unfold decided in refl)
