-- ===== src/Vertical/Rejection.antt =====
-- What a reviewer's `reject` does, and the guard of both decisions.
use vestibule.Prelude.{
  ℕ, String, ◌≡◌, refl, sym, subst, ◌≢◌, ◌∙◌, ap, Option, none, some, Outcome, ok, err, arith, ◌⧺◌,
  ite, if_neg,
}
use vestibule.Dict.{
  lookup, erase, lookup-insert_self, lookup-insert_ne, lookup-erase_self, All-lookup, IsKeyed,
}
use vestibule.Ledger.Model.{failed, needs_review, LedgerRow, Status-discrete}
use vestibule.Ledger.Store.{InMemoryLedgerStore, next_row, now, write, get}
use vestibule.Ledger.Legal.{Allowed, Edge}
use vestibule.Ledger.Invariant.{IsRow, IsValid}
use vestibule.Scenario.{Scenario, ScenarioStore}
use vestibule.Vertical.Model.{
  vertical_rejected, review_item_not_found, code_text, Raised, vertical_error, scenario_not_found,
  Desk, Others, alone, Python,
}
use vestibule.Vertical.Review.{require_needs_review, decide, assign, reject_request, reject}
use vestibule.Vertical.Assignment.{requires, decide-moves}

rejects :
    (within after : Others) (doc_id reason : String) (d : Desk) (row : LedgerRow)
    → lookup doc_id d.ledger.rows ≡ some row
    → row.status ≡ needs_review
    → reject within after doc_id reason d ≡ decide within after doc_id (reject_request reason) d
unfolding reject
rejects within after doc_id reason d row found parked =
    ground (arith, requires "reject" doc_id d.ledger row found parked)

-- The row that a rejection leaves.
abbrev pub turned_down : LedgerRow → String → ℕ → LedgerRow
turned_down row reason t = record row {
  status = failed;
  stage = failed;
  last_error_code = some (code_text vertical_rejected);
  last_error_message = some reason;
  updated_at = t;
}

rejected-turned_down :
    (doc_id reason : String) (row : LedgerRow) (t : ℕ)
    → row.doc_id ≡ doc_id
    → next_row doc_id row (reject_request reason) t ≡ turned_down row reason t
unfolding next_row
rejected-turned_down doc_id reason row t named = ground arith

-- A reviewer rejects a parked document, with no other thread about: the call returns, the row is
-- failed with VERTICAL_REJECTED and the reviewer's reason and keeps its attempts, the registry
-- forgets the document, and no other row changes.
reject-turns_down :
    (doc_id reason : String) (d : Desk) (row : LedgerRow)
    → IsValid d.ledger
    → IsKeyed d.registry
    → lookup doc_id d.ledger.rows ≡ some row
    → row.status ≡ needs_review
    → let (r, d') = reject alone alone doc_id reason d in
      (r ≡ ok tt)
      × (lookup doc_id d'.ledger.rows ≡ some (turned_down row reason (now d.ledger)))
      × (lookup doc_id d'.registry ≡ none)
      × ((j : String) → doc_id ≢ j → lookup j d'.ledger.rows ≡ lookup j d.ledger.rows)
reject-turns_down doc_id reason d row valid keyed found parked = rw moved (
  refl,
  lookup-insert_self doc_id _ d.ledger.rows
      ∙ ap some (rejected-turned_down doc_id reason row (now d.ledger) is.keyed),
  lookup-erase_self doc_id d.registry keyed,
  λ j other. lookup-insert_ne j doc_id _ d.ledger.rows other,
)
  where
    is : IsRow (doc_id, row)
    is = All-lookup IsRow doc_id row d.ledger.rows valid.rows_hold found

    legal : Allowed row failed failed (some (code_text vertical_rejected))
    legal = record {
      staged = refl;
      edge = subst (λ t. Edge t failed) (sym parked) (Edge.fail needs_review tt);
      coded = λ h e. cc;
    }

    moved : reject alone alone doc_id reason d ≡ (
      ok tt,
      record {
        ledger = write doc_id (next_row doc_id row (reject_request reason) (now d.ledger)) d.ledger;
        registry = erase doc_id d.registry;
      },
    )
    moved =
        rejects alone alone doc_id reason d row found parked
        ∙ decide-moves alone alone doc_id (reject_request reason) d row valid found legal

refused :
    (caller doc_id : String) (s : InMemoryLedgerStore)
    → ((row : LedgerRow) → lookup doc_id s.rows ≡ some row → row.status ≢ needs_review)
    → require_needs_review caller doc_id s
      ≡ err (
          vertical_error doc_id
            (caller ⧺ "() called for a doc_id not currently in needs_review")
            review_item_not_found)
unfolding require_needs_review get
refused caller doc_id s h = by_row (lookup doc_id s.rows) h
  where
    refusal : Outcome Raised (Unit {0})
    refusal = err (
        vertical_error doc_id (caller ⧺ "() called for a doc_id not currently in needs_review")
          review_item_not_found)

    by_row :
        (o : Option LedgerRow)
        → ((row : LedgerRow) → o ≡ some row → row.status ≢ needs_review)
        → elim o as (λ _. Outcome Raised (Unit {0})) [
          | none ↦ refusal
          | some current ↦ ite (Status-discrete current.status needs_review) (ok tt) refusal
        ]
          ≡ refusal
    by_row none g = refl
    by_row (some row) g = rw (if_neg (Status-discrete row.status needs_review) (g row refl)) refl

-- The two decisions on a document that is not parked, or has no row: `reject` raises
-- REVIEW_ITEM_NOT_FOUND, and so does `assign` of a scenario that exists, while `assign` of one
-- that does not raises SCENARIO_NOT_FOUND; the desk stays as it was.
decisions_refuse :
    (py : Python) (store : ScenarioStore) (within after : Others) (doc_id k note : String)
    (d : Desk)
    → ((row : LedgerRow) → lookup doc_id d.ledger.rows ≡ some row → row.status ≢ needs_review)
    → (reject within after doc_id note d ≡ (
      err (
          vertical_error doc_id "reject() called for a doc_id not currently in needs_review"
            review_item_not_found),
      d,
    ))
      × ((sc : Scenario)
          → store.get k ≡ some sc
          → assign py store within after doc_id k d ≡ (
            err (
                vertical_error doc_id "assign() called for a doc_id not currently in needs_review"
                  review_item_not_found),
            d,
          ))
      × (store.get k ≡ none
          → (reason : String) × (assign py store within after doc_id k d
              ≡ (err (scenario_not_found k reason), d)))
unfolding assign reject
decisions_refuse py store within after doc_id k note d h = (
  ground (arith, refused "reject" doc_id d.ledger h),
  λ sc known. ground (arith, known, refused "assign" doc_id d.ledger h),
  λ unknown. (
    "assign() referenced scenario_id=" ⧺ py.repr k ⧺ ", which does not exist",
    ground (arith, unknown),
  ),
)
