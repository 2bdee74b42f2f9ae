-- ===== src/Indexer/Stage.antt =====
-- What `index` returns and leaves in the ledger, from a row that waits for it, and from the row of a
-- document that another worker has finished.
use vestibule.Prelude.{ℕ, ◌≡◌, refl, sym, some, none, List, Outcome, ok, err, Format}
use vestibule.Dict.{lookup}
use vestibule.Embedder.Model.{EmbeddedChunk}
use vestibule.Vertical.Model.{ArrivalEnvelope}
use vestibule.Ledger.Model.{indexing, indexed, failed, Status-discrete, LedgerRow}
use vestibule.Ledger.Store.{InMemoryLedgerStore, now, write, triage}
use vestibule.Ledger.Legal.{Edge}
use vestibule.Ledger.Invariant.{IsValid}
use vestibule.Ledger.Stage.{
  advanced, given_up, retried, stage_advances, stage_gives_up, stage_retries_triaged, triaged_over,
}
use vestibule.Indexer.Model.{
  indexer_code_text, IndexRaised, record_invalid, IndexResult, IndexerConfig, IndexerAdapter, Site,
}
use vestibule.Indexer.Index.{
  indexing_error, unless_raised, moving, terminalize, self_transition_and_raise,
  transition_to_indexed, index,
}
use vestibule.Indexer.Verdict.{
  Verdict, advance, give_up, retry, invalid, perform, judged, index-perform,
}

-- What a call returns or raises for a verdict when no error of the ledger leaves it.
abbrev pub returned : ArrivalEnvelope → Verdict IndexResult → Outcome IndexRaised IndexResult
returned envelope (advance result) = ok result
returned envelope (give_up code reason) = err (indexing_error envelope.doc_id code reason)
returned envelope (retry code reason) = err (indexing_error envelope.doc_id code reason)
returned envelope invalid = err record_invalid

-- The ledger that a call leaves for a verdict, when the document waits at `indexing`.
abbrev pub recorded :
    ArrivalEnvelope → LedgerRow → Verdict IndexResult → InMemoryLedgerStore → InMemoryLedgerStore
recorded envelope row (advance result) s = write envelope.doc_id (advanced indexed (now s) row) s
recorded envelope row (give_up code reason) s =
    write envelope.doc_id (given_up (indexer_code_text code) reason (now s) row) s
recorded envelope row (retry code reason) s =
    write envelope.doc_id (retried (indexer_code_text code) reason (now s) row) s
recorded envelope row invalid s = s

module _ {F B : Type 0} (adapter : IndexerAdapter F B) (config : IndexerConfig) (py : Format)
    (envelope : ArrivalEnvelope) (indexed_at : ℕ) (ecs : List (EmbeddedChunk F)) (d : Site B)
    (row : LedgerRow) (valid : IsValid d.ledger)
    (found : lookup envelope.doc_id d.ledger.rows ≡ some row) where
  perform-recorded :
      row.status ≡ indexing
      → (v : Verdict IndexResult) (store : B)
      → perform envelope.doc_id v (record d { store = store })
        ≡ (returned envelope v, record { ledger = recorded envelope row v d.ledger; store = store })
  unfolding transition_to_indexed terminalize self_transition_and_raise moving unless_raised
  perform-recorded h (advance result) store =
      rw
        (stage_advances envelope.doc_id d.ledger row valid found indexed (rw h Edge.finish)
          (rw h (λ e. cc)) (λ e. cc) (rw h tt))
        refl
  perform-recorded h (give_up code reason) store =
      rw
        (stage_gives_up envelope.doc_id d.ledger row valid found (indexer_code_text code) reason
          (rw h tt))
        refl
  perform-recorded h (retry code reason) store =
      rw
        (stage_retries_triaged envelope.doc_id d.ledger row valid found indexing
          (indexer_code_text code) reason (sym h) (rw h tt))
        refl
  perform-recorded h invalid store = refl

  -- For a document whose row waits at `indexing`, a call does what its verdict says: when the store's
  -- calls return, it returns their result and the row is at `indexed`; a permanent error (chunks that are
  -- refused, or the store's own) leaves the row failed with its code and reason; a transient one leaves
  -- it at `indexing` with one more attempt; and a record that pydantic refuses changes nothing.
  pub index-recorded :
      row.status ≡ indexing
      → index adapter config py envelope indexed_at ecs d ≡ (
        returned envelope (judged adapter config py envelope indexed_at ecs d).0,
        record {
          ledger =
              recorded envelope row (judged adapter config py envelope indexed_at ecs d).0 d.ledger;
          store = (judged adapter config py envelope indexed_at ecs d).1;
        },
      )
  index-recorded h = rw (index-perform adapter config py envelope indexed_at ecs d) (
      perform-recorded h (judged adapter config py envelope indexed_at ecs d).0
        (judged adapter config py envelope indexed_at ecs d).1)

  perform-finished :
      row.status ≡ indexed
      → (v : Verdict IndexResult) (store : B)
      → perform envelope.doc_id v (record d { store = store })
        ≡ (returned envelope v, record { ledger = d.ledger; store = store })
  unfolding transition_to_indexed terminalize self_transition_and_raise moving unless_raised triage
      Status-discrete
  perform-finished h (advance result) store =
      rw (triaged_over envelope.doc_id d.ledger row valid found h indexed none none refl) refl
  perform-finished h (give_up code reason) store =
      rw
        (triaged_over envelope.doc_id d.ledger row valid found h failed
          (some (indexer_code_text code)) (some reason) refl)
        refl
  perform-finished h (retry code reason) store =
      rw
        (triaged_over envelope.doc_id d.ledger row valid found h indexing
          (some (indexer_code_text code)) (some reason) refl)
        refl
  perform-finished h invalid store = refl

  -- A call for a document that is already indexed leaves the ledger alone, and returns or raises what its
  -- own verdict says: no refusal by the ledger leaves it.
  index_finished :
      row.status ≡ indexed
      → index adapter config py envelope indexed_at ecs d ≡ (
        returned envelope (judged adapter config py envelope indexed_at ecs d).0,
        record {
          ledger = d.ledger;
          store = (judged adapter config py envelope indexed_at ecs d).1;
        },
      )
  index_finished h = rw (index-perform adapter config py envelope indexed_at ecs d) (
      perform-finished h (judged adapter config py envelope indexed_at ecs d).0
        (judged adapter config py envelope indexed_at ecs d).1)
