-- ===== src/Vertical/Review.antt =====
-- `ReviewQueue` of src/vestibule/vertical/review_queue.py. Other threads may run between its calls:
-- `within` between the check and the transition, `after` between that and the registry's discard.
use vestibule.Prelude.{ℕ, String, ◌⧺◌, Option, none, some, List, [], map, ite, Outcome, ok, err, ℤ}
use vestibule.Ledger.Model.{pending, failed, needs_review, LedgerRow, Status-discrete}
use vestibule.Ledger.Store.{InMemoryLedgerStore, Request, transition, get, list_by_status}
use vestibule.Scenario.{ScenarioStore}
use vestibule.Vertical.Model.{
  vertical_rejected, review_item_not_found, code_text, Raised, vertical_error, scenario_not_found,
  ReviewRegistry, Desk, Others, get_parked, discard, Python,
}
use vestibule.Vertical.Load.{forgive}

pub record ReviewItem : Type 0 where
  pub doc_id : String
  pub source : String
  pub blob_path : String
  pub reason : String
  pub parked_at : ℕ
  pub suggested_verticals : List String

-- `text or ""`
abbrev pub or_empty : Option String → String
or_empty none = ""
or_empty (some t) = t

-- The loop body of `list_pending`.
unfoldable pub review_item : ReviewRegistry → LedgerRow → ReviewItem
review_item registry row =
    let metadata = get_parked row.doc_id registry in
    record {
      doc_id = row.doc_id;
      source = elim metadata [ none ↦ "" | some m ↦ m.source ];
      blob_path = elim metadata [ none ↦ "" | some m ↦ m.blob_path ];
      reason = or_empty row.last_error_message;
      parked_at = row.updated_at;
      suggested_verticals = elim metadata [ none ↦ [] | some m ↦ m.suggested_verticals ];
    }

-- With no other thread between its reads.
unfoldable pub list_pending : ℤ → Desk → List ReviewItem
unfolding review_item
list_pending limit d = map (review_item d.registry) (list_by_status needs_review limit d.ledger)

-- `_require_needs_review`
unfoldable pub require_needs_review :
    String → String → InMemoryLedgerStore → Outcome Raised (Unit {0})
require_needs_review caller doc_id s =
    let refusal = err (
      vertical_error doc_id (caller ⧺ "() called for a doc_id not currently in needs_review")
        review_item_not_found) in
    elim (get doc_id s) [
      | none ↦ refusal
      | some current ↦ ite (Status-discrete current.status needs_review) (ok tt) refusal
    ]

-- The `transition` of `assign` and `reject`, its `except` clause, and the `discard`.
unfoldable pub decide :
    (within after : Others) → String → Request → Desk → Outcome Raised (Unit {0}) × Desk
decide within after doc_id request d =
    let d' = within d in
    let (r, ledger) = transition doc_id request d'.ledger in
    let moved = record d' { ledger = ledger } in
    elim (forgive request.to_status r) [
      | some e ↦ (err e, moved)
      | none ↦
          let d'' = after moved in (ok tt, record d'' { registry = discard doc_id d''.registry })
    ]

abbrev pub assign_request : String → Request
assign_request scenario_id = record {
  to_status = pending;
  stage = pending;
  error_code = none;
  error_message = none;
  assigned_scenario_id = some scenario_id;
}

unfoldable pub assign :
    Python
    → ScenarioStore
    → (within after : Others) → String
    → String
    → Desk
    → Outcome Raised (Unit {0}) × Desk
unfolding decide
assign py store within after doc_id scenario_id d = elim (store.get scenario_id) [
  | none ↦ (
    err (
        scenario_not_found scenario_id
          ("assign() referenced scenario_id=" ⧺ py.repr scenario_id ⧺ ", which does not exist")),
    d,
  )
  | some _ ↦ elim (require_needs_review "assign" doc_id d.ledger) [
    | err e ↦ (err e, d)
    | ok _ ↦ decide within after doc_id (assign_request scenario_id) d
  ]
]

abbrev pub reject_request : String → Request
reject_request reason = record {
  to_status = failed;
  stage = failed;
  error_code = some (code_text vertical_rejected);
  error_message = some reason;
  assigned_scenario_id = none;
}

unfoldable pub reject :
    (within after : Others) → String → String → Desk → Outcome Raised (Unit {0}) × Desk
unfolding decide
reject within after doc_id reason d = elim (require_needs_review "reject" doc_id d.ledger) [
  | err e ↦ (err e, d)
  | ok _ ↦ decide within after doc_id (reject_request reason) d
]
