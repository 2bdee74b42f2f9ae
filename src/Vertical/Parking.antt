-- ===== src/Vertical/Parking.antt =====
-- What `load` does with a document that nothing resolves, alone and against other threads.
use vestibule.Prelude.{
  String, ◌≡◌, refl, sym, subst, ◌≢◌, ◌∙◌, none, some, Outcome, ok, err, arith, Bool, true, false,
  ◌⊎◌, inl, inr, ◌↔◌,
}
use vestibule.Dict.{lookup, insert, All-lookup}
use vestibule.Ledger.Model.{
  Status, pending, failed, needs_review, LedgerRow, LedgerTransitionInvalid, transition_invalid,
}
use vestibule.Ledger.Store.{Request, is_benign_concurrent_loss, transition, next_row, now, write}
use vestibule.Ledger.Legal.{Allowed, Edge}
use vestibule.Ledger.Effect.{transition-applies, transition-refuses}
use vestibule.Ledger.Invariant.{IsRow, IsValid}
use vestibule.Ledger.Triage.{triage_off_path, triage_total}
use vestibule.Scenario.{Scenario, ScenarioStore}
use vestibule.Vertical.Model.{
  ArrivalEnvelope, VerticalResolution, vertical_unresolved, code_text, Raised, vertical_error,
  from_ledger, VerticalLoaderConfig, Desk, Others, record_parked, Python,
}
use vestibule.Vertical.Resolve.{resolve}
use vestibule.Vertical.Load.{forgive, parked_metadata, park_request, park, load}

-- The two ends of an edge into `needs_review`.
into_review : {a b : Status} → Edge a b → b ≡ needs_review → (a ≡ pending) ⊎ (a ≡ needs_review)
into_review Edge.park h = inl refl
into_review (Edge.retry s l) h = inr h
into_review Edge.resume h = ground arith
into_review Edge.requeue h = ground arith
into_review (Edge.fail s l) h = ground arith
into_review Edge.analyze h = ground arith
into_review Edge.chunk h = ground arith
into_review Edge.embed h = ground arith
into_review Edge.index h = ground arith
into_review Edge.finish h = ground arith
into_review Edge.archive h = ground arith

-- The desk that `_park` hands to the ledger.
abbrev pub at_transition : VerticalLoaderConfig → Others → ArrivalEnvelope → Desk → Desk
at_transition config within envelope d =
    within
      (record d { registry = insert envelope.doc_id (parked_metadata config envelope) d.registry })

abbrev pub Loaded : Type 0
Loaded = Outcome Raised (Scenario × VerticalResolution) × Desk

-- What `load` has done when it found nothing to resolve the document by and the row was `row` when
-- the ledger's transition ran, on the desk `d`.
pub record Parks (envelope : ArrivalEnvelope) (reason : String) (row : LedgerRow) (d : Desk)
    (p : Loaded) : Type 0 where
  pub parked :
      (row.status ≡ pending) ⊎ (row.status ≡ needs_review)
      → p ≡ (
        err (vertical_error envelope.doc_id reason vertical_unresolved),
        record d {
          ledger =
              write envelope.doc_id
                (next_row envelope.doc_id row (park_request reason) (now d.ledger))
                d.ledger;
        },
      )
  pub passed :
      row.status ≢ pending
      → row.status ≢ needs_review
      → row.status ≢ failed
      → p ≡ (err (vertical_error envelope.doc_id reason vertical_unresolved), d)
  pub failed_first :
      row.status ≡ failed
      → (e : LedgerTransitionInvalid) × (p ≡ (err (from_ledger (transition_invalid e)), d))
        × (e.observed_row ≡ some row)

-- What is left of `load` once `resolve` has given no scenario.
unresolved-load :
    (py : Python) (store later : ScenarioStore) (config : VerticalLoaderConfig)
    (before within : Others) (envelope : ArrivalEnvelope) (d : Desk)
    (resolution : VerticalResolution)
    → resolve py store config.source_mappings envelope d.ledger ≡ ok resolution
    → resolution.scenario_id ≡ none
    → load py store later config before within envelope d ≡ (
      err (park config within envelope resolution.reason (before d)).0,
      (park config within envelope resolution.reason (before d)).1,
    )
unfolding load
unresolved-load py store later config before within envelope d resolution h n = ground (arith, h, n)

-- `load` of a document that resolves to nothing, with parking switched on, whatever other threads
-- do: it always raises. A pending or already parked row is written as parked, and a row that
-- another thread has moved on is left as it is, both under VERTICAL_UNRESOLVED; on a row that has
-- failed meanwhile the ledger's own error is raised and nothing is written.
pub load-Parks :
    (py : Python) (store later : ScenarioStore) (config : VerticalLoaderConfig)
    (before within : Others) (envelope : ArrivalEnvelope) (d : Desk)
    (resolution : VerticalResolution) (row : LedgerRow)
    → config.park_unresolved ≡ true
    → resolve py store config.source_mappings envelope d.ledger ≡ ok resolution
    → resolution.scenario_id ≡ none
    → let d' = at_transition config within envelope (before d) in
      IsValid d'.ledger
      → lookup envelope.doc_id d'.ledger.rows ≡ some row
      → Parks envelope resolution.reason row d'
          (load py store later config before within envelope d)
unfolding park record_parked forgive
load-Parks py store later config before within envelope d resolution row parks h n valid found =
    record {
      parked = λ s.
          loads
          ∙ ground (
            arith,
            parks,
            transition-applies envelope.doc_id envelope.doc_id request d'.ledger row is.formatted
                found (legal s),
          );
      passed = λ a b c.
          let (e, refused, observed) = barred (λ edge. away a b edge) in
          loads ∙ ground (arith, parks, refused, observed, benign.1 (a, c));
      failed_first = λ f.
          let (e, refused, observed) = barred (λ edge. away (λ g. cc) (λ g. cc) edge) in
          (e, loads ∙ ground (arith, parks, refused, observed, not_benign f), observed);
    }
  where
    d' : Desk
    d' = at_transition config within envelope (before d)

    request : Request
    request = park_request resolution.reason

    is : IsRow (envelope.doc_id, row)
    is = All-lookup IsRow envelope.doc_id row d'.ledger.rows valid.rows_hold found

    loads : load py store later config before within envelope d ≡ (
      err (park config within envelope resolution.reason (before d)).0,
      (park config within envelope resolution.reason (before d)).1,
    )
    loads = unresolved-load py store later config before within envelope d resolution h n

    legal :
        (row.status ≡ pending) ⊎ (row.status ≡ needs_review)
        → Allowed row needs_review needs_review (some (code_text vertical_unresolved))
    legal (inl s) = record {
      staged = refl;
      edge = subst (λ t. Edge t needs_review) (sym s) Edge.park;
      coded = λ e. cc;
    }
    legal (inr s) = record {
      staged = refl;
      edge = subst (λ t. Edge t needs_review) (sym s) (Edge.retry needs_review tt);
      coded = λ e. cc;
    }

    away : row.status ≢ pending → row.status ≢ needs_review → ¬ Edge row.status needs_review
    away a b edge = elim (into_review edge refl) [ inl s ↦ a s | inr s ↦ b s ]

    barred :
        ¬ Edge row.status needs_review
        → (e : LedgerTransitionInvalid) × (transition envelope.doc_id request d'.ledger
            ≡ (err (transition_invalid e), d'.ledger))
          × (e.observed_row ≡ some row)
    barred bar =
        transition-refuses envelope.doc_id envelope.doc_id request d'.ledger row is.formatted found
          (λ a. bar a.edge)

    benign :
        (is_benign_concurrent_loss (some row) needs_review needs_review ≡ some true)
        ↔ ((row.status ≢ pending) × (row.status ≢ failed))
    benign = (triage_off_path row is.staged).1

    not_benign :
        row.status ≡ failed
        → is_benign_concurrent_loss (some row) needs_review needs_review ≡ some false
    not_benign f =
        by_answer (triage_total (some row) needs_review needs_review).0
          (triage_total (some row) needs_review needs_review).1
      where
        by_answer :
            (b : Bool)
            → is_benign_concurrent_loss (some row) needs_review needs_review ≡ some b
            → is_benign_concurrent_loss (some row) needs_review needs_review ≡ some false
        by_answer false e = e
        by_answer true e = absurd ((benign.0 e).1 f)
