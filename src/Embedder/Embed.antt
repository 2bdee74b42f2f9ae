-- ===== src/Embedder/Embed.antt =====
-- src/vestibule/embedder/embedder.py. A call makes at most one write to the ledger, and `s` is the
-- ledger at that time, whatever other workers have made of it by then. Logging is left out.
use vestibule.Prelude.{
  ℕ, suc, ◌-◌, String, ◌⧺◌, Bool, true, false, not, List, [], ◌∷◌, ◌++◌, map, Option, none, some, ℤ,
  pos, negsuc, capped, ltb, if◌then◌else◌, length, take, Outcome, ok, err, ◌>>=◌, raise_if,
  and_then, in_batches, Format,
}
use vestibule.Chunker.{Chunk}
use vestibule.Ledger.Model.{embedding, indexing, failed, LedgerError}
use vestibule.Ledger.Store.{InMemoryLedgerStore, transition}
use vestibule.Ledger.Triaged.{triaged, move_to}
use vestibule.Embedder.Model.{
  EmbedderCode, embedder_empty_chunks, embedder_mrl_unsupported, embedder_input_too_long,
  embedder_rate_limited, embedder_upstream_error, embedder_timeout, embedder_internal,
  embedder_code_text, EmbedderError, embedder_error_text, EmbeddingThrown, embedder_error,
  other_exception, EmbedRaised, embedding_failed, ledger_failed, EmbedderConfig, EmbeddedChunk,
  Floats, EmbedderAdapter,
}

-- `vector[:n]`
unfoldable pub up_to {ℓ} : {A : Type ℓ} → ℤ → List A → List A
up_to (pos n) xs = take n xs
up_to (negsuc n) xs = take (length xs - suc n) xs

unfoldable pub truncate_and_renormalize : {F : Type 0} → Floats F → List F → ℤ → List F
unfolding up_to
truncate_and_renormalize float vector target =
    let truncated = up_to target vector in
    let norm = float.sqrt (float.sum (map (λ v. float.times v v) truncated)) in
    if float.is_zero norm then truncated else map (λ v. float.divided v norm) truncated

unfoldable pub apply_prefix : String → Option String → String
apply_prefix text none = text
apply_prefix text (some prefix) = prefix ⧺ text

-- An exception of the batching itself.
unfoldable pub or_thrown : {A : Type 0} → Outcome String A → Outcome EmbeddingThrown A
or_thrown (ok a) = ok a
or_thrown (err text) = err (other_exception text)

-- `error_code in _KNOWN_ADAPTER_ERROR_CODES`
unfoldable pub is_known : EmbedderCode → Bool
is_known embedder_rate_limited = true
is_known embedder_upstream_error = true
is_known embedder_timeout = true
is_known _ = false

-- The code and the reason that a failure of the pipeline is recorded with.
unfoldable pub recovered : EmbeddingThrown → EmbedderCode × String
unfolding is_known
recovered (embedder_error e) =
    if is_known e.error_code
    then (e.error_code, e.reason)
    else (embedder_internal, embedder_error_text e)
recovered (other_exception text) = (embedder_internal, text)

abbrev pub EmbedAction : Type 0 → Type 0
EmbedAction A = InMemoryLedgerStore → Outcome EmbedRaised A × InMemoryLedgerStore

abbrev pub embedding_error : String → EmbedderCode → String → EmbedRaised
embedding_error doc_id code reason =
    embedding_failed (record { doc_id = doc_id; reason = reason; error_code = code })

-- What a stage returns after its ledger call, unless that call raised.
unfoldable pub unless_raised :
    {A : Type 0} → Option LedgerError → Outcome EmbedRaised A → Outcome EmbedRaised A
unless_raised none r = r
unless_raised (some e) r = err (ledger_failed e)

-- `_terminalize`
unfoldable pub terminalize : {A : Type 0} → String → EmbedderCode → String → EmbedAction A
unfolding unless_raised
terminalize doc_id code reason s =
    let (o, s') =
      triaged doc_id (move_to failed (some (embedder_code_text code)) (some reason)) s in
    (unless_raised o (err (embedding_error doc_id code reason)), s')

-- `_self_transition_and_raise`
unfoldable pub self_transition_and_raise :
    {A : Type 0} → String → EmbedderCode → String → EmbedAction A
self_transition_and_raise doc_id code reason s =
    let (o, s') =
      transition doc_id (move_to embedding (some (embedder_code_text code)) (some reason)) s in
    (elim o [ ok _ ↦ err (embedding_error doc_id code reason) | err e ↦ err (ledger_failed e) ], s')

-- `_transition_to_indexing`
unfoldable pub transition_to_indexing : {A : Type 0} → String → A → EmbedAction A
unfolding unless_raised
transition_to_indexing doc_id embedded s =
    let (o, s') = triaged doc_id (move_to indexing none none) s in
    (unless_raised o (ok embedded), s')

-- What the handlers of `_run_with_recovery` do with what `_embed_all` did.
unfoldable pub recover : {A : Type 0} → String → Outcome EmbeddingThrown A → EmbedAction A
unfolding recovered self_transition_and_raise
recover doc_id (ok embedded) s = (ok embedded, s)
recover doc_id (err e) s = self_transition_and_raise doc_id (recovered e).0 (recovered e).1 s

module _ {F : Type 0} (adapter : EmbedderAdapter F) where
  unfoldable pub effective_batch_size : EmbedderConfig → ℤ
  effective_batch_size config = capped config.batch_size adapter.max_batch_size

  -- The loop over the batches, from the n-th call on.
  unfoldable pub embed_batches : ℕ → List (List String) → Outcome EmbeddingThrown (List (List F))
  embed_batches n [] = ok []
  embed_batches n (batch ∷ batches) = adapter.embed_batch n batch >>= λ vectors.
      embed_batches (suc n) batches >>= λ rest. ok (vectors ++ rest)

module _ {F : Type 0} (float : Floats F) (adapter : EmbedderAdapter F)
    (config : EmbedderConfig) where
  unfoldable pub build_embedded_chunk : Chunk → List F → EmbeddedChunk F
  build_embedded_chunk chunk vector = elim config.target_dimensions [
    | none ↦ record {
      chunk = chunk;
      vector = vector;
      embedding_model = adapter.model_name;
      embedding_dimensions = length vector;
      truncated_from = none;
    }
    | some target ↦
        let truncated = truncate_and_renormalize float vector target in
        record {
          chunk = chunk;
          vector = truncated;
          embedding_model = adapter.model_name;
          embedding_dimensions = length truncated;
          truncated_from = some (length vector);
        }
  ]

  -- The comprehension over `zip(chunks, vectors, strict=True)`.
  unfoldable pub build_all :
      List Chunk → List (List F) → Outcome EmbeddingThrown (List (EmbeddedChunk F))
  unfolding build_embedded_chunk
  build_all [] [] = ok []
  build_all [] (vector ∷ vectors) =
      err (other_exception "zip() argument 2 is longer than argument 1")
  build_all (chunk ∷ chunks) [] =
      err (other_exception "zip() argument 2 is shorter than argument 1")
  build_all (chunk ∷ chunks) (vector ∷ vectors) =
      build_all chunks vectors >>= λ rest. ok (build_embedded_chunk chunk vector ∷ rest)

  unfoldable pub embed_all : List Chunk → Outcome EmbeddingThrown (List (EmbeddedChunk F))
  unfolding build_all embed_batches effective_batch_size or_thrown apply_prefix
  embed_all chunks =
      or_thrown (
        in_batches (effective_batch_size adapter config)
          (map (λ c. apply_prefix c.text adapter.document_prefix) chunks))
      >>= λ batches. embed_batches adapter 0 batches >>= λ vectors. build_all chunks vectors

  unfoldable pub run_with_recovery : String → List Chunk → EmbedAction (List (EmbeddedChunk F))
  unfolding embed_all recover
  run_with_recovery doc_id chunks s = recover doc_id (embed_all chunks) s

  module _ (py : Format) where
    -- `Embedder.__init__`
    unfoldable pub init : Outcome EmbedderError (Unit {0})
    init = elim config.target_dimensions [
      | none ↦ ok tt
      | some target ↦ raise_if (not adapter.supports_mrl) (record {
        doc_id = "";
        reason =
            "target_dimensions="
            ⧺ py.digits target
            ⧺ " was configured but adapter "
            ⧺ py.repr adapter.model_name
            ⧺ " does not support MRL truncation";
        error_code = embedder_mrl_unsupported;
      })
    ]

    abbrev pub too_long : Chunk → String
    too_long chunk =
        "chunk position="
        ⧺ py.digits (pos chunk.position)
        ⧺ " token_count="
        ⧺ py.digits (pos chunk.token_count)
        ⧺ " exceeds adapter "
        ⧺ py.repr adapter.model_name
        ⧺ "'s max_input_tokens="
        ⧺ py.digits (pos adapter.max_input_tokens)

    unfoldable pub validate_input_lengths : String → List Chunk → EmbedAction (Unit {0})
    unfolding terminalize
    validate_input_lengths doc_id [] s = (ok tt, s)
    validate_input_lengths doc_id (chunk ∷ chunks) s =
        let rest = validate_input_lengths doc_id chunks s in
        if ltb adapter.max_input_tokens chunk.token_count
        then terminalize doc_id embedder_input_too_long (too_long chunk) s
        else rest

    unfoldable pub embed : String → List Chunk → EmbedAction (List (EmbeddedChunk F))
    unfolding terminalize validate_input_lengths run_with_recovery transition_to_indexing
    embed doc_id [] s =
        terminalize doc_id embedder_empty_chunks "Chunker returned zero chunks; nothing to embed" s
    embed doc_id (chunk ∷ chunks) s =
        and_then (validate_input_lengths doc_id (chunk ∷ chunks))
          (λ _.
            and_then (run_with_recovery doc_id (chunk ∷ chunks)) (transition_to_indexing doc_id))
          s
