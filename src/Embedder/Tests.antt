-- ===== src/Embedder/Tests.antt =====
-- The embedder's theorems at concrete inputs.
use vestibule.Prelude.{
  ℕ, ◌+◌, ◌*◌, ◌/◌, ◌==◌, String, ◌≡◌, refl, true, List, [], ◌∷◌, map, none, some, ok, err, Format,
  in_batches, joined, All, Fits, arith, batched, slices,
}
use vestibule.Samples.{doc_a, row_at, ledger_at, ledger_at-IsValid, ledger_at-lookup}
use vestibule.Chunker.{Chunk, paragraph, text}
use vestibule.Ledger.Model.{embedding}
use vestibule.Ledger.Store.{write}
use vestibule.Ledger.Stage.{retried}
use vestibule.Embedder.Model.{
  embedder_timeout, embedder_error, EmbedderConfig, EmbeddedChunk, Floats, EmbedderAdapter,
}
use vestibule.Embedder.Embed.{
  effective_batch_size, apply_prefix, or_thrown, is_known, recovered, embedding_error,
  embed_batches, build_embedded_chunk, embed_all, embed,
}
use vestibule.Embedder.Batching.{effective_batch_size-Fits, embed_all-pointwise}
use vestibule.Embedder.Stage.{Verdict, first_too_long, decided, verdict, embed-settled}

abbrev sum : List ℕ → ℕ
sum [] = 0
sum (n ∷ ns) = n + sum ns

abbrev numbers : Floats ℕ
numbers = record {
  sum = sum;
  times = λ a b. a * b;
  divided = λ a b. a / b;
  sqrt = λ a. a;
  is_zero = λ a. a == 0;
}

abbrev plain : Format
plain = record { digits = λ n. "n"; repr = λ s. s; repr_sorted = λ ss. "[]" }

abbrev vector_of : String → List ℕ
vector_of t = 1 ∷ 2 ∷ []

abbrev steady : EmbedderAdapter ℕ
steady = record {
  model_name = "tiny";
  document_prefix = some "passage: ";
  max_batch_size = 2;
  max_input_tokens = 100;
  supports_mrl = true;
  embed_batch = λ n batch. ok (map vector_of batch);
}

abbrev late : EmbedderAdapter ℕ
late = record steady {
  embed_batch = λ n batch.
      err (embedder_error (record { doc_id = ""; reason = "late"; error_code = embedder_timeout }));
}

abbrev defaults : EmbedderConfig
defaults = record { target_dimensions = none; batch_size = none }

abbrev chunk_at : ℕ → Chunk
chunk_at n = record {
  chunk_id = "c";
  doc_id = doc_a;
  position = n;
  element_types = paragraph ∷ [];
  text = "words";
  token_count = 7;
  metadata = ("strategy", text "recursive") ∷ [];
}

abbrev three : List Chunk
three = chunk_at 0 ∷ chunk_at 1 ∷ chunk_at 2 ∷ []

effective_batch_size-Fits_example :
    (bs : List (List String)) × (in_batches
        (effective_batch_size steady defaults)
        ("a" ∷ "b" ∷ "c" ∷ [])
      ≡ ok bs)
    × (joined bs ≡ "a" ∷ "b" ∷ "c" ∷ [])
    × All (Fits 2) bs
effective_batch_size-Fits_example =
    effective_batch_size-Fits steady defaults ("a" ∷ "b" ∷ "c" ∷ []) (omega arith) tt

embed_all-pointwise_example :
    embed_all numbers steady defaults three
    ≡ ok (
        map
          (λ c.
            build_embedded_chunk numbers steady defaults c
              (vector_of (apply_prefix c.text (some "passage: "))))
          three)
embed_all-pointwise_example =
    embed_all-pointwise steady defaults numbers vector_of (λ n batch fits. refl) three (omega arith)
      tt

late_retries : verdict numbers late defaults plain three ≡ Verdict.retry embedder_timeout "late"
unfolding verdict decided first_too_long embed_all or_thrown in_batches batched slices
    effective_batch_size embed_batches recovered is_known apply_prefix
late_retries = refl

embed-settled_example : embed numbers late defaults plain doc_a three (ledger_at embedding) ≡ (
  err (embedding_error doc_a embedder_timeout "late"),
  write doc_a (retried "EMBEDDER_TIMEOUT" "late" 105 (row_at embedding)) (ledger_at embedding),
)
unfolding verdict decided first_too_long embed_all or_thrown in_batches batched slices
    effective_batch_size embed_batches recovered is_known apply_prefix
embed-settled_example =
    embed-settled numbers late defaults plain doc_a three (ledger_at embedding) (row_at embedding)
      (ledger_at-IsValid embedding) (ledger_at-lookup embedding) refl

abbrev embedded : List (EmbeddedChunk ℕ)
unfolding build_embedded_chunk
embedded = map (λ c. build_embedded_chunk numbers steady defaults c (vector_of c.text)) three
