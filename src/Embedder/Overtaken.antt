-- ===== src/Embedder/Overtaken.antt =====
-- `embed` in a worker whose document another worker has already moved on.
use vestibule.Prelude.{◌+◌, String, ◌≡◌, refl, sym, true, List, none, some, ok, err, Format}
use vestibule.Dict.{lookup}
use vestibule.Chunker.{Chunk}
use vestibule.Ledger.Model.{
  embedding, indexing, indexed, failed, LedgerRow, LedgerTransitionInvalid, transition_invalid,
}
use vestibule.Ledger.Store.{InMemoryLedgerStore, now, write, is_benign_concurrent_loss}
use vestibule.Ledger.Invariant.{IsValid}
use vestibule.Ledger.Triage.{Forward, Later}
use vestibule.Ledger.Overtaken.{retry_refused}
use vestibule.Ledger.Stage.{transition_finished, triaged_finished, stage_repeats}
use vestibule.Embedder.Model.{
  EmbedderCode, embedder_code_text, ledger_failed, EmbedderConfig, EmbeddedChunk, Floats,
  EmbedderAdapter,
}
use vestibule.Embedder.Embed.{
  unless_raised, terminalize, self_transition_and_raise, transition_to_indexing, embed,
}
use vestibule.Embedder.Stage.{Verdict, advance, give_up, retry, verdict, perform, embed-perform}

module _ {F : Type 0} (float : Floats F) (adapter : EmbedderAdapter F) (config : EmbedderConfig)
    (py : Format) (doc_id : String) (chunks : List Chunk) (s : InMemoryLedgerStore)
    (row : LedgerRow) (valid : IsValid s) (found : lookup doc_id s.rows ≡ some row) where
  -- When the pipeline throws in a worker whose document is already past `embedding`, the call does not
  -- raise the embedder's own error: the ledger's refusal leaves it, though `is_benign_concurrent_loss`
  -- calls that refusal benign. The ledger is left alone.
  embed_overtaken :
      (code : EmbedderCode) (reason : String)
      → Later indexing row.status
      → verdict float adapter config py chunks ≡ retry code reason
      → (e : LedgerTransitionInvalid) × (embed float adapter config py doc_id chunks s
          ≡ (err (ledger_failed (transition_invalid e)), s))
        × (is_benign_concurrent_loss e.observed_row embedding embedding ≡ some true)
  unfolding self_transition_and_raise
  embed_overtaken code reason later h =
      let (e, refused, benign) =
        retry_refused doc_id s row valid found Forward.index later (some (embedder_code_text code))
          (some reason) in
      (e, rw (embed-perform float adapter config py doc_id chunks s, h, refused) refl, benign)

  -- A call for a document that is already indexed leaves the ledger alone, whatever comes of it.
  embed_finished : row.status ≡ indexed → (embed float adapter config py doc_id chunks s).1 ≡ s
  embed_finished h =
      rw (embed-perform float adapter config py doc_id chunks s)
        (kept (verdict float adapter config py chunks))
    where
      kept : (v : Verdict (List (EmbeddedChunk F))) → (perform doc_id v s).1 ≡ s
      kept (advance embedded) =
          unfold transition_to_indexing in
          triaged_finished doc_id s row valid found h indexing none none
      kept (give_up code reason) =
          unfold terminalize in
          triaged_finished doc_id s row valid found h failed (some (embedder_code_text code))
            (some reason)
      kept (retry code reason) =
          unfold self_transition_and_raise in
          transition_finished doc_id s row valid found h embedding (some (embedder_code_text code))
            (some reason)

  -- A worker whose pipeline returns after another worker's has: the ledger takes its move to `indexing`
  -- for a retry of that stage, so the row is written again, with one attempt more.
  embed_twice :
      (embedded : List (EmbeddedChunk F))
      → row.status ≡ indexing
      → verdict float adapter config py chunks ≡ advance embedded
      → embed float adapter config py doc_id chunks s ≡ (
        ok embedded,
        write doc_id (record row { attempts = row.attempts + 1; updated_at = now s }) s,
      )
  unfolding transition_to_indexing unless_raised
  embed_twice embedded h v =
      rw
        (
          embed-perform float adapter config py doc_id chunks s,
          v,
          stage_repeats doc_id s row valid found indexing (sym h) (rw h tt),
        )
        refl
