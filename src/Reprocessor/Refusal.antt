-- ===== src/Reprocessor/Refusal.antt =====
-- The guard of `requeue` and `archive`.
use vestibule.Prelude.{
  String, ◌≡◌, refl, ◌≢◌, Option, none, some, Outcome, ok, err, arith, ite, if_neg, ◌⧺◌,
}
use vestibule.Dict.{lookup}
use vestibule.Ledger.Model.{failed, LedgerRow, Status-discrete, status_value}
use vestibule.Ledger.Store.{InMemoryLedgerStore, get}
use vestibule.Reprocessor.{
  Raised, reprocessor_error, ReprocessCode, reprocess_not_failed, reprocess_doc_not_found,
  require_failed,
}
use vestibule.Reprocessor.Actions.{Others, requeue, archive}

pub requires :
    (caller doc_id : String) (s : InMemoryLedgerStore) (row : LedgerRow)
    → lookup doc_id s.rows ≡ some row
    → row.status ≡ failed
    → require_failed caller doc_id s ≡ ok row
unfolding require_failed get
requires caller doc_id s row found h = ground arith

abbrev pub refusal : Option LedgerRow → ReprocessCode
refusal none = reprocess_doc_not_found
refusal (some row) = reprocess_not_failed

refused :
    (caller doc_id : String) (s : InMemoryLedgerStore)
    → ((row : LedgerRow) → lookup doc_id s.rows ≡ some row → row.status ≢ failed)
    → (reason : String) × (require_failed caller doc_id s
        ≡ err (reprocessor_error doc_id reason (refusal (lookup doc_id s.rows))))
unfolding require_failed get
refused caller doc_id s h = by_row (lookup doc_id s.rows) h
  where
    by_row :
        (o : Option LedgerRow)
        → ((row : LedgerRow) → o ≡ some row → row.status ≢ failed)
        → (reason : String) × (◌≡◌ {A = Outcome Raised LedgerRow}
            (elim o [
              | none ↦ err (
                  reprocessor_error doc_id
                    (caller ⧺ "() called for an unknown doc_id")
                    reprocess_doc_not_found)
              | some current ↦ ite (Status-discrete current.status failed) (ok current) (
                  err (
                    reprocessor_error doc_id
                      (caller
                        ⧺ "() called for a doc_id not currently failed (status="
                        ⧺ status_value current.status
                        ⧺ ")")
                      reprocess_not_failed))
            ])
            (err (reprocessor_error doc_id reason (refusal o))))
    by_row none g = (caller ⧺ "() called for an unknown doc_id", refl)
    by_row (some row) g = (
      caller
          ⧺ "() called for a doc_id not currently failed (status="
          ⧺ status_value row.status
          ⧺ ")",
      rw (if_neg _ (g row refl)) refl,
    )

-- `requeue` and `archive` of a document that has no row, or whose row is not failed, raise the
-- error of their own for it, and the store stays as it was.
pub actions_refuse :
    (others : Others) (doc_id note : String) (s : InMemoryLedgerStore)
    → ((row : LedgerRow) → lookup doc_id s.rows ≡ some row → row.status ≢ failed)
    → ((reason : String) × (requeue others doc_id s
          ≡ (err (reprocessor_error doc_id reason (refusal (lookup doc_id s.rows))), s)))
      × ((reason : String) × (archive others doc_id note s
            ≡ (err (reprocessor_error doc_id reason (refusal (lookup doc_id s.rows))), s)))
unfolding requeue archive
actions_refuse others doc_id note s h =
    let (reason, e) = refused "requeue" doc_id s h in
    let (reason', e') = refused "archive" doc_id s h in
    ((reason, ground (arith, e)), (reason', ground (arith, e')))
