-- ===== src/Vertical/Assignment.antt =====
-- What a reviewer's `assign` does, and the loading that follows an assignment.
use vestibule.Prelude.{
  ℕ, String, ◌≡◌, refl, sym, subst, ◌≢◌, ◌∙◌, ap, none, some, ok, arith, true, ◌⧺◌,
}
use vestibule.Dict.{
  lookup, erase, lookup-insert_self, lookup-insert_ne, lookup-erase_self, All-lookup, IsKeyed,
}
use vestibule.Ledger.Model.{pending, needs_review, LedgerRow}
use vestibule.Ledger.Store.{
  InMemoryLedgerStore, Request, is_benign_concurrent_loss, next_row, now, write, get,
}
use vestibule.Ledger.Legal.{Allowed, Edge}
use vestibule.Ledger.Effect.{transition-applies, transition-refuses}
use vestibule.Ledger.Invariant.{IsRow, IsValid}
use vestibule.Ledger.Triage.{Later, triage_forward}
use vestibule.Ledger.Overtaken.{overtaken_barred}
use vestibule.Scenario.{Scenario, ScenarioStore, IsStore}
use vestibule.Vertical.Model.{
  ArrivalEnvelope, VerticalResolution, VerticalLoaderConfig, Desk, Others, alone, review_assignment,
  explicit, Python, discard,
}
use vestibule.Vertical.Resolve.{
  resolved, assigned_scenario_id, resolve_review_assignment, resolve_from, resolve,
}
use vestibule.Vertical.Load.{forgive, load}
use vestibule.Vertical.Review.{require_needs_review, decide, assign_request, assign}

pub requires :
    (caller doc_id : String) (s : InMemoryLedgerStore) (row : LedgerRow)
    → lookup doc_id s.rows ≡ some row
    → row.status ≡ needs_review
    → require_needs_review caller doc_id s ≡ ok tt
unfolding require_needs_review get
requires caller doc_id s row found h = ground arith

-- A decision that the state machine allows.
pub decide-moves :
    (within after : Others) (doc_id : String) (request : Request) (d : Desk) (row : LedgerRow)
    → IsValid (within d).ledger
    → lookup doc_id (within d).ledger.rows ≡ some row
    → Allowed row request.to_status request.stage request.error_code
    → let d' = within d in
      let d'' = after (record d' {
        ledger = write doc_id (next_row doc_id row request (now d'.ledger)) d'.ledger;
      }) in
      decide within after doc_id request d
      ≡ (ok tt, record d'' { registry = erase doc_id d''.registry })
unfolding decide forgive discard
decide-moves within after doc_id request d row valid found a = ground (
  arith,
  transition-applies doc_id doc_id request (within d).ledger row
      (All-lookup IsRow doc_id row (within d).ledger.rows valid.rows_hold found).formatted found a,
)

-- One that other threads have overtaken.
pub decide-forgives :
    (within after : Others) (doc_id : String) (request : Request) (d : Desk) (row : LedgerRow)
    → IsValid (within d).ledger
    → lookup doc_id (within d).ledger.rows ≡ some row
    → ¬ Allowed row request.to_status request.stage request.error_code
    → is_benign_concurrent_loss (some row) request.to_status request.to_status ≡ some true
    → let d' = after (within d) in
      decide within after doc_id request d
      ≡ (ok tt, record d' { registry = erase doc_id d'.registry })
unfolding decide forgive discard
decide-forgives within after doc_id request d row valid found a benign =
    let (e, refused, observed) =
      transition-refuses doc_id doc_id request (within d).ledger row
        (All-lookup IsRow doc_id row (within d).ledger.rows valid.rows_hold found).formatted found
        a in
    ground (arith, refused, observed, benign)

assigns :
    (py : Python) (store : ScenarioStore) (within after : Others) (doc_id k : String)
    (sc : Scenario) (d : Desk) (row : LedgerRow)
    → store.get k ≡ some sc
    → lookup doc_id d.ledger.rows ≡ some row
    → row.status ≡ needs_review
    → assign py store within after doc_id k d ≡ decide within after doc_id (assign_request k) d
unfolding assign
assigns py store within after doc_id k sc d row known found parked =
    ground (arith, known, requires "assign" doc_id d.ledger row found parked)

-- The row that an assignment leaves.
abbrev pub resumed : LedgerRow → String → ℕ → LedgerRow
resumed row k t = record row {
  status = pending;
  stage = pending;
  attempts = 1;
  last_error_code = none;
  last_error_message = none;
  updated_at = t;
  assigned_scenario_id = some k;
}

assigned-resumed :
    (doc_id k : String) (row : LedgerRow) (t : ℕ)
    → row.doc_id ≡ doc_id
    → row.status ≡ needs_review
    → next_row doc_id row (assign_request k) t ≡ resumed row k t
unfolding next_row
assigned-resumed doc_id k row t named was = ground arith

-- The resolution that an assignment of this scenario gives.
abbrev pub by_review : Python → String → Scenario → VerticalResolution
by_review py k sc =
    resolved sc review_assignment explicit
      ("human-assigned scenario_id=" ⧺ py.repr k ⧺ " via ReviewQueue.assign()")

assigned-load :
    (py : Python) (store later : ScenarioStore) (config : VerticalLoaderConfig)
    (before within : Others) (envelope : ArrivalEnvelope) (k : String) (sc : Scenario) (d : Desk)
    (row : LedgerRow)
    → store.get k ≡ some sc
    → later.get sc.scenario_id ≡ some sc
    → lookup envelope.doc_id d.ledger.rows ≡ some row
    → row.assigned_scenario_id ≡ some k
    → load py store later config before within envelope d ≡ (ok (sc, by_review py k sc), d)
unfolding load resolve resolve_from assigned_scenario_id get resolve_review_assignment
assigned-load py store later config before within envelope k sc d row known still found named =
    ground (arith, known, still, found, named)

-- A reviewer assigns a scenario that exists to a parked document: the call returns, the row is
-- pending again with that scenario and no error, the registry forgets the document, and no other
-- row changes. Loading any envelope of that document then gives that scenario by REVIEW_ASSIGNMENT,
-- whatever scenario or vertical the envelope names, and writes nothing.
pub assign-load :
    (py : Python) (store : ScenarioStore) (config : VerticalLoaderConfig)
    (envelope : ArrivalEnvelope) (k : String) (sc : Scenario) (d : Desk) (row : LedgerRow)
    → IsStore store
    → store.get k ≡ some sc
    → IsValid d.ledger
    → IsKeyed d.registry
    → lookup envelope.doc_id d.ledger.rows ≡ some row
    → row.status ≡ needs_review
    → let (r, d') = assign py store alone alone envelope.doc_id k d in
      (r ≡ ok tt)
      × (lookup envelope.doc_id d'.ledger.rows ≡ some (resumed row k (now d.ledger)))
      × (lookup envelope.doc_id d'.registry ≡ none)
      × ((j : String) → envelope.doc_id ≢ j → lookup j d'.ledger.rows ≡ lookup j d.ledger.rows)
      × ((before within : Others)
          → load py store store config before within envelope d' ≡ (ok (sc, by_review py k sc), d'))
assign-load py store config envelope k sc d row lawful known valid keyed found parked =
    rw (assigned_desk) (
      refl,
      after_row,
      lookup-erase_self envelope.doc_id d.registry keyed,
      λ j other. lookup-insert_ne j envelope.doc_id _ d.ledger.rows other,
      λ before within.
          assigned-load py store store config before within envelope k sc d'
            (resumed row k (now d.ledger)) known still after_row refl,
    )
  where
    new : LedgerRow
    new = next_row envelope.doc_id row (assign_request k) (now d.ledger)

    d' : Desk
    d' = record {
      ledger = write envelope.doc_id new d.ledger;
      registry = erase envelope.doc_id d.registry;
    }

    is : IsRow (envelope.doc_id, row)
    is = All-lookup IsRow envelope.doc_id row d.ledger.rows valid.rows_hold found

    legal : Allowed row pending pending none
    legal = record {
      staged = refl;
      edge = subst (λ t. Edge t pending) (sym parked) Edge.resume;
      coded = λ h. cc;
    }

    assigned_desk : assign py store alone alone envelope.doc_id k d ≡ (ok tt, d')
    assigned_desk =
        assigns py store alone alone envelope.doc_id k sc d row known found parked
        ∙ decide-moves alone alone envelope.doc_id (assign_request k) d row valid found legal

    after_row : lookup envelope.doc_id d'.ledger.rows ≡ some (resumed row k (now d.ledger))
    after_row =
        lookup-insert_self envelope.doc_id new d.ledger.rows
        ∙ ap some (assigned-resumed envelope.doc_id k row (now d.ledger) is.keyed parked)

    still : store.get sc.scenario_id ≡ some sc
    still = ap store.get (lawful.keyed k sc known) ∙ known

-- An assignment that other threads have overtaken: the document was parked when it was looked at,
-- but its row is already further along the pipeline when the transition runs. The call returns all
-- the same, and the ledger is left as it was, so the reviewer's scenario is not recorded.
pub assign_overtaken :
    (py : Python) (store : ScenarioStore) (within after : Others) (doc_id k : String)
    (sc : Scenario) (d : Desk) (seen row : LedgerRow)
    → store.get k ≡ some sc
    → lookup doc_id d.ledger.rows ≡ some seen
    → seen.status ≡ needs_review
    → IsValid (within d).ledger
    → lookup doc_id (within d).ledger.rows ≡ some row
    → Later pending row.status
    → row.status ≢ pending
    → let d' = after (within d) in
      assign py store within after doc_id k d
      ≡ (ok tt, record d' { registry = erase doc_id d'.registry })
assign_overtaken py store within after doc_id k sc d seen row known found parked valid found' l n =
    assigns py store within after doc_id k sc d seen known found parked
    ∙ decide-forgives within after doc_id (assign_request k) d row valid found'
        (λ a. overtaken_barred row.status l n a.edge)
        ((triage_forward row pending is.staged tt).1 l)
  where
    is : IsRow (doc_id, row)
    is = All-lookup IsRow doc_id row (within d).ledger.rows valid.rows_hold found'
