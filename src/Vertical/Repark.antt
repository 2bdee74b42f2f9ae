-- ===== src/Vertical/Repark.antt =====
-- What the review queue shows of a document that `load` has just parked, and what loading it again
-- does.
use vestibule.Prelude.{
  ℕ, ◌+◌, String, ◌≡◌, refl, ◌∙◌, ap, none, some, ok, err, arith, true, inl, inr, List,
}
use vestibule.Dict.{lookup, insert, lookup-insert_self, All-lookup}
use vestibule.Ledger.Model.{pending, needs_review, LedgerRow}
use vestibule.Ledger.Store.{InMemoryLedgerStore, next_row, now, write, get}
use vestibule.Ledger.Invariant.{IsRow, IsValid, write-IsValid}
use vestibule.Scenario.{ScenarioStore}
use vestibule.Vertical.Model.{
  ArrivalEnvelope, VerticalResolution, vertical_unresolved, code_text, vertical_error,
  VerticalLoaderConfig, Desk, alone, get_parked, SourceMappingRule, Python,
}
use vestibule.Vertical.Resolve.{resolve, assigned_scenario_id}
use vestibule.Vertical.Load.{parked_metadata, park_request, load}
use vestibule.Vertical.Review.{review_item}
use vestibule.Vertical.Parking.{load-Parks}

-- The row that a parking leaves, for the number of attempts.
abbrev pub parked_row : LedgerRow → ℕ → String → ℕ → LedgerRow
parked_row row attempts reason t = record row {
  status = needs_review;
  stage = needs_review;
  attempts = attempts;
  last_error_code = some (code_text vertical_unresolved);
  last_error_message = some reason;
  updated_at = t;
}

first_parking :
    (doc_id reason : String) (row : LedgerRow) (t : ℕ)
    → row.doc_id ≡ doc_id
    → row.status ≡ pending
    → next_row doc_id row (park_request reason) t ≡ parked_row row 1 reason t
unfolding next_row
first_parking doc_id reason row t named was = ground arith

next_parking :
    (doc_id reason : String) (row : LedgerRow) (t : ℕ)
    → row.doc_id ≡ doc_id
    → row.status ≡ needs_review
    → next_row doc_id row (park_request reason) t ≡ parked_row row (row.attempts + 1) reason t
unfolding next_row
next_parking doc_id reason row t named was = ground arith

-- The desk after a parking that leaves this row.
abbrev pub parked_desk : VerticalLoaderConfig → ArrivalEnvelope → LedgerRow → Desk → Desk
parked_desk config envelope row d = record {
  ledger = write envelope.doc_id row d.ledger;
  registry = insert envelope.doc_id (parked_metadata config envelope) d.registry;
}

module _ (py : Python) (store : ScenarioStore) (config : VerticalLoaderConfig)
    (envelope : ArrivalEnvelope) (resolution : VerticalResolution) where
  load_once :
      (d : Desk) (row : LedgerRow)
      → config.park_unresolved ≡ true
      → resolve py store config.source_mappings envelope d.ledger ≡ ok resolution
      → resolution.scenario_id ≡ none
      → IsValid d.ledger
      → lookup envelope.doc_id d.ledger.rows ≡ some row
      → row.status ≡ pending
      → load py store store config alone alone envelope d ≡ (
        err (vertical_error envelope.doc_id resolution.reason vertical_unresolved),
        parked_desk config envelope (parked_row row 1 resolution.reason (now d.ledger)) d,
      )
  load_once d row parks h n valid found was =
      (load-Parks py store store config alone alone envelope d resolution row parks h n valid
          found).parked
        (inl was)
      ∙ ap
          (λ r. (
            err (vertical_error envelope.doc_id resolution.reason vertical_unresolved),
            parked_desk config envelope r d,
          ))
          (first_parking envelope.doc_id resolution.reason row (now d.ledger)
            (All-lookup IsRow envelope.doc_id row d.ledger.rows valid.rows_hold found).keyed was)

-- A pending document that nothing resolves, loaded with no other thread about: VERTICAL_UNRESOLVED
-- is raised with the resolution's reason, the row is parked with that code and reason after one
-- attempt, and the review queue's item for it shows the envelope's source and path, that reason,
-- the time of the parking, and the suggestions.
load-review_item :
    (py : Python) (store : ScenarioStore) (config : VerticalLoaderConfig)
    (envelope : ArrivalEnvelope) (resolution : VerticalResolution) (d : Desk) (row : LedgerRow)
    → config.park_unresolved ≡ true
    → resolve py store config.source_mappings envelope d.ledger ≡ ok resolution
    → resolution.scenario_id ≡ none
    → IsValid d.ledger
    → lookup envelope.doc_id d.ledger.rows ≡ some row
    → row.status ≡ pending
    → let new = parked_row row 1 resolution.reason (now d.ledger) in
      let (r, d') = load py store store config alone alone envelope d in
      (r ≡ err (vertical_error envelope.doc_id resolution.reason vertical_unresolved))
      × (lookup envelope.doc_id d'.ledger.rows ≡ some new)
      × (review_item d'.registry new ≡ record {
        doc_id = envelope.doc_id;
        source = envelope.source;
        blob_path = envelope.blob_path;
        reason = resolution.reason;
        parked_at = now d.ledger;
        suggested_verticals = (parked_metadata config envelope).suggested_verticals;
      })
unfolding review_item get_parked
load-review_item py store config envelope resolution d row parks h n valid found was =
    rw (load_once py store config envelope resolution d row parks h n valid found was) (
      refl,
      lookup-insert_self envelope.doc_id _ d.ledger.rows,
      ground (
        arith,
        named,
        lookup-insert_self envelope.doc_id (parked_metadata config envelope) d.registry,
      ),
    )
  where
    named : row.doc_id ≡ envelope.doc_id
    named = (All-lookup IsRow envelope.doc_id row d.ledger.rows valid.rows_hold found).keyed

resolve_again :
    (py : Python) (store : ScenarioStore) (rules : List SourceMappingRule)
    (envelope : ArrivalEnvelope) (s t : InMemoryLedgerStore)
    → assigned_scenario_id envelope.doc_id s ≡ assigned_scenario_id envelope.doc_id t
    → resolve py store rules envelope s ≡ resolve py store rules envelope t
unfolding resolve
resolve_again py store rules envelope s t h = rw h refl

-- Loading such a document a second time raises the same error, but is not the no-op that it might
-- be: the parking is written again, with one attempt more and the time of the second loading.
load_again :
    (py : Python) (store : ScenarioStore) (config : VerticalLoaderConfig)
    (envelope : ArrivalEnvelope) (resolution : VerticalResolution) (d : Desk) (row : LedgerRow)
    → config.park_unresolved ≡ true
    → resolve py store config.source_mappings envelope d.ledger ≡ ok resolution
    → resolution.scenario_id ≡ none
    → IsValid d.ledger
    → lookup envelope.doc_id d.ledger.rows ≡ some row
    → row.status ≡ pending
    → let d' = (load py store store config alone alone envelope d).1 in
      let (r, d'') = load py store store config alone alone envelope d' in
      (r ≡ err (vertical_error envelope.doc_id resolution.reason vertical_unresolved))
      × (lookup envelope.doc_id d''.ledger.rows
          ≡ some (parked_row row 2 resolution.reason (d.ledger.clock (d.ledger.reads + 1))))
unfolding assigned_scenario_id get
load_again py store config envelope resolution d row parks h n valid found was =
    rw (load_once py store config envelope resolution d row parks h n valid found was) (
      rw again (
        refl,
        lookup-insert_self envelope.doc_id _ d'.ledger.rows
            ∙ ap some (
                next_parking envelope.doc_id resolution.reason first (now d'.ledger) is.keyed refl),
      ))
  where
    old : IsRow (envelope.doc_id, row)
    old = All-lookup IsRow envelope.doc_id row d.ledger.rows valid.rows_hold found

    first : LedgerRow
    first = parked_row row 1 resolution.reason (now d.ledger)

    is : IsRow (envelope.doc_id, first)
    is = record {
      keyed = old.keyed;
      formatted = old.formatted;
      staged = refl;
      coded = λ h e. cc;
      attempted = λ a b. omega arith;
    }

    d' : Desk
    d' = parked_desk config envelope first d

    found' : lookup envelope.doc_id d'.ledger.rows ≡ some first
    found' = lookup-insert_self envelope.doc_id first d.ledger.rows

    valid' : IsValid d'.ledger
    valid' = write-IsValid envelope.doc_id first d.ledger valid is

    h' : resolve py store config.source_mappings envelope d'.ledger ≡ ok resolution
    h' =
        resolve_again py store config.source_mappings envelope d'.ledger d.ledger
          (ground (arith, found, found'))
        ∙ h

    again : load py store store config alone alone envelope d' ≡ (
      err (vertical_error envelope.doc_id resolution.reason vertical_unresolved),
      record d' {
        ledger =
            write envelope.doc_id
              (next_row envelope.doc_id first (park_request resolution.reason) (now d'.ledger))
              d'.ledger;
        registry = insert envelope.doc_id (parked_metadata config envelope) d'.registry;
      },
    )
    again =
        (load-Parks py store store config alone alone envelope d' resolution first parks h' n valid'
            found').parked
          (inr refl)
