-- ===== src/Embedder/Stage.antt =====
-- What `embed` returns and leaves in the ledger: from a row that waits for it, and from a row that
-- another worker has moved on.
use vestibule.Prelude.{
  ℕ, String, ◌≡◌, refl, sym, List, [], ◌∷◌, Option, none, some, ltb, Outcome, ok, err, Bool-cases,
  resume, and_then, inl, inr, Format, if◌then◌else◌, arith,
}
use vestibule.Dict.{lookup}
use vestibule.Chunker.{Chunk}
use vestibule.Ledger.Model.{embedding, indexing, LedgerRow}
use vestibule.Ledger.Store.{InMemoryLedgerStore, now, write}
use vestibule.Ledger.Legal.{Edge}
use vestibule.Ledger.Invariant.{IsValid}
use vestibule.Ledger.Stage.{
  advanced, given_up, retried, stage_advances, stage_gives_up, stage_retries,
}
use vestibule.Embedder.Model.{
  EmbedderCode, embedder_empty_chunks, embedder_input_too_long, embedder_code_text, EmbeddingThrown,
  EmbedRaised, EmbedderConfig, EmbeddedChunk, Floats, EmbedderAdapter,
}
use vestibule.Embedder.Embed.{
  EmbedAction, embedding_error, unless_raised, terminalize, self_transition_and_raise,
  transition_to_indexing, recovered, recover, embed_all, run_with_recovery, too_long,
  validate_input_lengths, embed,
}

-- What is to become of the document.
pub data Verdict (A : Type 0) : Type 0 where
  advance : A → Verdict A
  give_up : EmbedderCode → String → Verdict A
  retry : EmbedderCode → String → Verdict A

abbrev pub perform : {A : Type 0} → String → Verdict A → EmbedAction A
perform doc_id (advance embedded) s = transition_to_indexing doc_id embedded s
perform doc_id (give_up code reason) s = terminalize doc_id code reason s
perform doc_id (retry code reason) s = self_transition_and_raise doc_id code reason s

-- The first chunk of more than `limit` tokens.
unfoldable pub first_too_long : ℕ → List Chunk → Option Chunk
first_too_long limit [] = none
first_too_long limit (chunk ∷ chunks) =
    let rest = first_too_long limit chunks in
    if ltb limit chunk.token_count then some chunk else rest

module _ {F : Type 0} (float : Floats F) (adapter : EmbedderAdapter F) (config : EmbedderConfig)
    (py : Format) where
  unfoldable pub decided :
      Option Chunk
      → Outcome EmbeddingThrown (List (EmbeddedChunk F))
      → Verdict (List (EmbeddedChunk F))
  decided (some c) run = give_up embedder_input_too_long (too_long float adapter config py c)
  decided none (ok embedded) = advance embedded
  decided none (err e) = retry (recovered e).0 (recovered e).1

  -- No chunk, or one that is too long: give up. Otherwise what the pipeline returns or throws.
  unfoldable pub verdict : List Chunk → Verdict (List (EmbeddedChunk F))
  unfolding decided
  verdict [] = give_up embedder_empty_chunks "Chunker returned zero chunks; nothing to embed"
  verdict (chunk ∷ chunks) =
      decided (first_too_long adapter.max_input_tokens (chunk ∷ chunks))
        (embed_all float adapter config (chunk ∷ chunks))

  -- The check of the lengths, as one decision.
  abbrev refused : String → Option Chunk → EmbedAction (Unit {0})
  refused doc_id none s = (ok tt, s)
  refused doc_id (some c) s =
      terminalize doc_id embedder_input_too_long (too_long float adapter config py c) s

  validate_input_lengths-refused :
      (doc_id : String) (chunks : List Chunk) (s : InMemoryLedgerStore)
      → validate_input_lengths float adapter config py doc_id chunks s
        ≡ refused doc_id (first_too_long adapter.max_input_tokens chunks) s
  unfolding validate_input_lengths first_too_long
  validate_input_lengths-refused doc_id [] s = refl
  validate_input_lengths-refused doc_id (c ∷ cs) s =
      elim (Bool-cases (ltb adapter.max_input_tokens c.token_count)) [
        | inl over ↦ rw over refl
        | inr fits ↦ rw (fits, validate_input_lengths-refused doc_id cs s) refl
      ]

  -- What gives the document up does not go on.
  terminalize-stops :
      {A B : Type 0} (doc_id : String) (code : EmbedderCode) (reason : String)
      (k : A → EmbedAction B) (s : InMemoryLedgerStore)
      → resume k (terminalize doc_id code reason s) ≡ terminalize doc_id code reason s
  unfolding terminalize unless_raised
  terminalize-stops doc_id code reason k s = ground arith

  retry-stops :
      {A B : Type 0} (doc_id : String) (code : EmbedderCode) (reason : String)
      (k : A → EmbedAction B) (s : InMemoryLedgerStore)
      → resume k (self_transition_and_raise doc_id code reason s)
        ≡ self_transition_and_raise doc_id code reason s
  unfolding self_transition_and_raise
  retry-stops doc_id code reason k s = ground arith

  recovers :
      (doc_id : String) (run : Outcome EmbeddingThrown (List (EmbeddedChunk F)))
      (s : InMemoryLedgerStore)
      → resume (transition_to_indexing doc_id) (recover doc_id run s)
        ≡ perform doc_id (decided none run) s
  unfolding decided recover
  recovers doc_id (ok embedded) s = refl
  recovers doc_id (err x) s =
      retry-stops doc_id (recovered x).0 (recovered x).1 (transition_to_indexing doc_id) s

  settles :
      (doc_id : String) (chunks : List Chunk) (s : InMemoryLedgerStore) (over : Option Chunk)
      → resume
          (λ _.
            and_then
              (run_with_recovery float adapter config doc_id chunks)
              (transition_to_indexing doc_id))
          (refused doc_id over s)
        ≡ perform doc_id (decided over (embed_all float adapter config chunks)) s
  unfolding decided
  settles doc_id chunks s none =
      unfold run_with_recovery in recovers doc_id (embed_all float adapter config chunks) s
  settles doc_id chunks s (some c) =
      terminalize-stops doc_id embedder_input_too_long (too_long float adapter config py c)
        (λ _.
          and_then (run_with_recovery float adapter config doc_id chunks)
            (transition_to_indexing doc_id))
        s

  -- A call makes the one ledger write that the verdict on its chunks asks for.
  pub embed-perform :
      (doc_id : String) (chunks : List Chunk) (s : InMemoryLedgerStore)
      → embed float adapter config py doc_id chunks s ≡ perform doc_id (verdict chunks) s
  unfolding embed verdict
  embed-perform doc_id [] s = refl
  embed-perform doc_id (c ∷ cs) s =
      rw (validate_input_lengths-refused doc_id (c ∷ cs) s)
        (settles doc_id (c ∷ cs) s (first_too_long adapter.max_input_tokens (c ∷ cs)))

  module _ (doc_id : String) (chunks : List Chunk) (s : InMemoryLedgerStore) (row : LedgerRow)
      (valid : IsValid s) (found : lookup doc_id s.rows ≡ some row) where
    -- What a worker finds that has the document to itself.
    abbrev pub settled :
        Verdict (List (EmbeddedChunk F))
        → Outcome EmbedRaised (List (EmbeddedChunk F)) × InMemoryLedgerStore
    settled (advance embedded) = (ok embedded, write doc_id (advanced indexing (now s) row) s)
    settled (give_up code reason) = (
      err (embedding_error doc_id code reason),
      write doc_id (given_up (embedder_code_text code) reason (now s) row) s,
    )
    settled (retry code reason) = (
      err (embedding_error doc_id code reason),
      write doc_id (retried (embedder_code_text code) reason (now s) row) s,
    )

    perform-settled :
        row.status ≡ embedding
        → (v : Verdict (List (EmbeddedChunk F))) → perform doc_id v s ≡ settled v
    unfolding transition_to_indexing terminalize self_transition_and_raise unless_raised
    perform-settled h (advance embedded) =
        rw
          (stage_advances doc_id s row valid found indexing (rw h Edge.index) (rw h (λ e. cc))
            (λ e. cc) (rw h tt))
          refl
    perform-settled h (give_up code reason) =
        rw (stage_gives_up doc_id s row valid found (embedder_code_text code) reason (rw h tt)) refl
    perform-settled h (retry code reason) =
        rw
          (stage_retries doc_id s row valid found embedding (embedder_code_text code) reason (sym h)
            (rw h tt))
          refl

    -- For a document whose row waits at `embedding`, a call ends in one of three ways. When the adapter's
    -- pipeline returns, so does the call, and the row stands at `indexing` in its first attempt. For no
    -- chunks, or a chunk above the adapter's token limit, it raises the permanent error, and the row has
    -- failed with its code and reason. When the pipeline throws, it raises the transient error that the
    -- exception is mapped to, and the row is still at `embedding` with one more attempt and the error.
    pub embed-settled :
        row.status ≡ embedding
        → embed float adapter config py doc_id chunks s ≡ settled (verdict chunks)
    embed-settled h = rw (embed-perform doc_id chunks s) (perform-settled h (verdict chunks))
