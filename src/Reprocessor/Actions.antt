-- ===== src/Reprocessor/Actions.antt =====
-- `requeue`, `requeue_by_error_code` and `archive` of src/vestibule/reprocessor/reprocessor.py.
use vestibule.Prelude.{
  ℕ, suc, String, Bool, true, false, Option, none, some, List, [], ◌∷◌, ◌++◌, Outcome, ok, err, ℤ,
  min_ℤ,
}
use vestibule.Errors.{ErrorRegistry}
use vestibule.Ledger.Model.{
  pending, archived, LedgerRow, LedgerTransitionInvalid, LedgerError, transition_invalid,
  assertion_failed, value_error,
}
use vestibule.Ledger.Store.{InMemoryLedgerStore, Request, is_benign_concurrent_loss, transition}
use vestibule.Reprocessor.{
  Raised, reprocessor_error, from_ledger, reprocess_not_failed, FailedItem, RequeueResult,
  BatchRequeueResult, code_or_unknown, list_failed, require_failed,
}

-- What other threads do to the store between two of this thread's lock acquisitions.
abbrev pub Others : Type 0
Others = InMemoryLedgerStore → InMemoryLedgerStore

abbrev pub alone : Others
alone s = s

abbrev pub requeue_request : Request
requeue_request = record {
  to_status = pending;
  stage = pending;
  error_code = none;
  error_message = none;
  assigned_scenario_id = none;
}

abbrev pub requeue_result : String → String → LedgerRow → RequeueResult
requeue_result doc_id previous_error_code row = record {
  doc_id = doc_id;
  previous_error_code = previous_error_code;
  requeued_at = row.updated_at;
}

-- The `except LedgerTransitionInvalid` of `requeue`: the row it goes on with.
unfoldable pub requeue_loss : LedgerTransitionInvalid → Option Bool → Outcome Raised LedgerRow
requeue_loss e none = err (from_ledger value_error)
requeue_loss e (some false) = err (from_ledger (transition_invalid e))
requeue_loss e (some true) = elim (e.observed_row) [
  | none ↦ err (from_ledger assertion_failed)
  | some row ↦ ok row
]

-- The row that `requeue` goes on with after its `transition` call.
unfoldable pub requeued_row : Outcome LedgerError LedgerRow → Outcome Raised LedgerRow
unfolding requeue_loss
requeued_row (ok row) = ok row
requeued_row (err (transition_invalid e)) =
    requeue_loss e (is_benign_concurrent_loss e.observed_row pending pending)
requeued_row (err e) = err (from_ledger e)

abbrev pub to_result : String → String → Outcome Raised LedgerRow → Outcome Raised RequeueResult
to_result doc_id previous (ok row) = ok (requeue_result doc_id previous row)
to_result doc_id previous (err e) = err e

unfoldable pub requeue :
    Others → String → InMemoryLedgerStore → Outcome Raised RequeueResult × InMemoryLedgerStore
unfolding requeued_row
requeue others doc_id s = elim (require_failed "requeue" doc_id s) [
  | err e ↦ (err e, s)
  | ok current ↦
      let (r, s') = transition doc_id requeue_request (others s) in
      (to_result doc_id (code_or_unknown current.last_error_code) (requeued_row r), s')
]

-- The loop of `requeue_by_error_code`: `others n` runs before the n-th requeue, and `within n` inside it.
unfoldable pub requeue_each :
    (others within : ℕ → Others)
    → ℕ
    → List FailedItem
    → List String
    → List String
    → InMemoryLedgerStore
    → Outcome Raised (List String × List String) × InMemoryLedgerStore
requeue_each others within n [] requeued skipped s = (ok (requeued, skipped), s)
requeue_each others within n (item ∷ items) requeued skipped s =
    let (r, s') = requeue (within n) item.doc_id (others n s) in
    elim r [
      | ok _ ↦ requeue_each others within (suc n) items (requeued ++ item.doc_id ∷ []) skipped s'
      | err (reprocessor_error d reason reprocess_not_failed) ↦
          requeue_each others within (suc n) items requeued (skipped ++ item.doc_id ∷ []) s'
      | err e ↦ (err e, s')
    ]

abbrev pub to_batch_result :
    String → Outcome Raised (List String × List String) → Outcome Raised BatchRequeueResult
to_batch_result error_code (ok (requeued, skipped)) =
    ok (record { error_code = error_code; requeued = requeued; skipped = skipped })
to_batch_result error_code (err e) = err e

unfoldable pub requeue_by_error_code :
    ErrorRegistry
    → (max_batch_requeue : ℕ) → (others within : ℕ → Others) → String
    → ℤ
    → InMemoryLedgerStore
    → Outcome Raised BatchRequeueResult × InMemoryLedgerStore
unfolding requeue_each
requeue_by_error_code reg max_batch_requeue others within error_code limit s =
    let candidates =
      list_failed reg (min_ℤ limit max_batch_requeue) (some error_code) none none s in
    let (r, s') = requeue_each others within 0 candidates [] [] s in
    (to_batch_result error_code r, s')

abbrev pub archive_request : LedgerRow → String → Request
archive_request current reason = record {
  to_status = archived;
  stage = archived;
  error_code = current.last_error_code;
  error_message = some reason;
  assigned_scenario_id = none;
}

-- `archive` after its `transition` call.
unfoldable pub archive_outcome : Outcome LedgerError LedgerRow → Outcome Raised (Unit {0})
archive_outcome (ok row) = ok tt
archive_outcome (err (transition_invalid e)) =
    elim (is_benign_concurrent_loss e.observed_row archived archived) [
      | none ↦ err (from_ledger value_error)
      | some false ↦ err (from_ledger (transition_invalid e))
      | some true ↦ ok tt
    ]
archive_outcome (err e) = err (from_ledger e)

unfoldable pub archive :
    Others → String → String → InMemoryLedgerStore → Outcome Raised (Unit {0}) × InMemoryLedgerStore
unfolding archive_outcome
archive others doc_id reason s = elim (require_failed "archive" doc_id s) [
  | err e ↦ (err e, s)
  | ok current ↦
      let (r, s') = transition doc_id (archive_request current reason) (others s) in
      (archive_outcome r, s')
]
