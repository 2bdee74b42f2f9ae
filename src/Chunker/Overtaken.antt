-- ===== src/Chunker/Overtaken.antt =====
-- `chunk` in a worker whose document other workers have moved past `embedding`.
use vestibule.Prelude.{String, ◌≡◌, refl, true, List, ◌∷◌, some, none, Outcome, ok, err}
use vestibule.Dict.{lookup}
use vestibule.Chunker.{Chunk}
use vestibule.Chunker.Model.{Element, chunker_code_text, ChunkingThrown}
use vestibule.Chunker.Assemble.{
  Chunker, ledger_raised, unless_refused, self_transition_and_raise, transition_to_embedding,
  recovered, recover, assemble_chunks, build_chunks, chunk,
}
use vestibule.Ledger.Model.{
  chunking, indexing, LedgerRow, LedgerTransitionInvalid, transition_invalid,
}
use vestibule.Ledger.Store.{InMemoryLedgerStore, is_benign_concurrent_loss}
use vestibule.Ledger.Invariant.{IsValid}
use vestibule.Ledger.Triage.{Forward, Later}
use vestibule.Ledger.Overtaken.{Later-back, retry_refused, triaged_passes_by}

module _ (sha256_hex : String → String) (self : Chunker) (doc_id : String) (e : Element)
    (es : List Element) (s : InMemoryLedgerStore) (row : LedgerRow) (valid : IsValid s)
    (found : lookup doc_id s.rows ≡ some row) where
  -- What the call comes to, by what `_assemble_chunks` does.
  abbrev pub Passed : Outcome ChunkingThrown (List Chunk) → Type 0
  Passed (ok chunks) = chunk sha256_hex self doc_id (e ∷ es) s ≡ (ok chunks, s)
  Passed (err x) =
      (refusal : LedgerTransitionInvalid) × (chunk sha256_hex self doc_id (e ∷ es) s
        ≡ (err (ledger_raised (transition_invalid refusal)), s))
      × (is_benign_concurrent_loss refusal.observed_row chunking chunking ≡ some true)

  passes :
      Later indexing row.status
      → (work : Outcome ChunkingThrown (List Chunk))
      → assemble_chunks sha256_hex self doc_id (e ∷ es) ≡ work
      → Passed work
  unfolding chunk build_chunks recover transition_to_embedding unless_refused
      self_transition_and_raise
  passes later (ok chunks) made =
      rw (made, triaged_passes_by doc_id s row valid found Forward.index later none none) refl
  passes later (err x) made =
      let (refusal, refused, benign) =
        retry_refused doc_id s row valid found Forward.embed (Later-back Forward.index later)
          (some (chunker_code_text (recovered x).0)) (some (recovered x).1) in
      (refusal, rw (made, refused) refl, benign)

  -- A call for elements of a document that is past `embedding` leaves the ledger alone. If the strategies,
  -- the merge and the naming of the chunks return, so does the call. If one of them throws, the call does
  -- not raise the chunker's own error: the ledger's refusal of another attempt leaves it, though
  -- `is_benign_concurrent_loss` calls that refusal benign.
  pub chunk_overtaken :
      Later indexing row.status → Passed (assemble_chunks sha256_hex self doc_id (e ∷ es))
  chunk_overtaken later = passes later (assemble_chunks sha256_hex self doc_id (e ∷ es)) refl
