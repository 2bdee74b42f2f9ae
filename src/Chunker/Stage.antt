-- ===== src/Chunker/Stage.antt =====
-- What `chunk` returns and leaves in the ledger: from a row that waits for it, and from a row that
-- another worker has moved on.
use vestibule.Prelude.{String, ◌≡◌, refl, sym, List, [], ◌∷◌, some, Outcome, ok, err, resume}
use vestibule.Dict.{lookup}
use vestibule.Chunker.{Chunk}
use vestibule.Chunker.Model.{Element, chunker_empty_elements, chunker_code_text, ChunkingThrown}
use vestibule.Chunker.Assemble.{
  Chunker, ChunkRaised, chunking_error, no_elements, unless_refused, terminalize_empty_elements,
  self_transition_and_raise, transition_to_embedding, recovered, recover, assemble_chunks,
  build_chunks, chunk,
}
use vestibule.Ledger.Model.{chunking, embedding, LedgerRow}
use vestibule.Ledger.Store.{InMemoryLedgerStore, now, write}
use vestibule.Ledger.Legal.{Edge}
use vestibule.Ledger.Invariant.{IsValid}
use vestibule.Ledger.Stage.{
  advanced, given_up, retried, stage_advances, stage_gives_up, stage_retries,
}

module _ (sha256_hex : String → String) (self : Chunker) (doc_id : String) (elements : List Element)
    (s : InMemoryLedgerStore) (row : LedgerRow) (valid : IsValid s)
    (found : lookup doc_id s.rows ≡ some row) where
  -- What a worker finds that has the document to itself.
  abbrev pub settled :
      List Element
      → Outcome ChunkingThrown (List Chunk)
      → Outcome ChunkRaised (List Chunk) × InMemoryLedgerStore
  settled [] work = (
    err (chunking_error doc_id chunker_empty_elements no_elements),
    write doc_id (given_up (chunker_code_text chunker_empty_elements) no_elements (now s) row) s,
  )
  settled (e ∷ es) (ok chunks) = (ok chunks, write doc_id (advanced embedding (now s) row) s)
  settled (e ∷ es) (err x) = (
    err (chunking_error doc_id (recovered x).0 (recovered x).1),
    write doc_id (retried (chunker_code_text (recovered x).0) (recovered x).1 (now s) row) s,
  )

  settles :
      row.status ≡ chunking
      → (e : Element) (es : List Element) (work : Outcome ChunkingThrown (List Chunk))
      → resume (transition_to_embedding doc_id) (recover doc_id work s) ≡ settled (e ∷ es) work
  unfolding recover transition_to_embedding unless_refused self_transition_and_raise
  settles h e es (ok chunks) =
      rw
        (stage_advances doc_id s row valid found embedding (rw h Edge.embed) (rw h (λ x. cc))
          (λ x. cc) (rw h tt))
        refl
  settles h e es (err x) =
      rw
        (stage_retries doc_id s row valid found chunking (chunker_code_text (recovered x).0)
          (recovered x).1 (sym h) (rw h tt))
        refl

  empties : row.status ≡ chunking → terminalize_empty_elements doc_id s ≡ settled [] (ok [])
  unfolding terminalize_empty_elements unless_refused
  empties h =
      rw
        (stage_gives_up doc_id s row valid found (chunker_code_text chunker_empty_elements)
          no_elements (rw h tt))
        refl

  chunks :
      row.status ≡ chunking
      → (es : List Element)
      → chunk sha256_hex self doc_id es s ≡ settled es (assemble_chunks sha256_hex self doc_id es)
  unfolding chunk build_chunks
  chunks h [] = empties h
  chunks h (e ∷ es) = settles h e es (assemble_chunks sha256_hex self doc_id (e ∷ es))

  -- For a document whose row waits at `chunking`, a call ends in one of three ways. Without an element it
  -- raises the permanent error, and the row has failed with its code and reason. When the strategies, the
  -- merge and the naming of the chunks return, so does the call, and the row stands at `embedding` in its
  -- first attempt. When one of them throws, the call raises the transient error that the exception is
  -- mapped to, and the row is still at `chunking` with one more attempt and the error.
  pub chunk-settled :
      row.status ≡ chunking
      → chunk sha256_hex self doc_id elements s
        ≡ settled elements (assemble_chunks sha256_hex self doc_id elements)
  chunk-settled h = chunks h elements
