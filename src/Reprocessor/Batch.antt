-- ===== src/Reprocessor/Batch.antt =====
-- `requeue_by_error_code` with no other thread about.
use mathlib.Core.List.{append_assoc, append-nil}
use vestibule.Prelude.{
  ℕ, suc, ◌≤◌, String, ◌≡◌, ◌≢◌, refl, sym, ◌∙◌, ap, none, some, List, [], ◌∷◌, ◌++◌, map, All,
  All-imp, All-both, Apart, ℤ, min_ℤ, length, ok,
}
use vestibule.Dict.{lookup}
use vestibule.Errors.{ErrorRegistry}
use vestibule.Ledger.Model.{pending, LedgerRow}
use vestibule.Ledger.Store.{InMemoryLedgerStore, now}
use vestibule.Ledger.Invariant.{IsValid}
use vestibule.Reprocessor.{FailedItem, list_failed}
use vestibule.Reprocessor.Actions.{alone, requeue, requeue_each, requeue_by_error_code}
use vestibule.Reprocessor.Candidates.{
  IsFailed, doc_id_of, list_failed-IsFailed, list_failed-Apart, list_failed_le,
}
use vestibule.Reprocessor.Requeue.{requeue-resets, requeue-IsValid, fresh_run}

-- The item's document waits at pending, with no attempts and no error.
abbrev pub IsRequeued : InMemoryLedgerStore → FailedItem → Type 0
IsRequeued s item =
    (row : LedgerRow) × (lookup item.doc_id s.rows ≡ some row)
    × (row.status ≡ pending)
    × (row.attempts ≡ 0)
    × (row.last_error_code ≡ none)

-- The documents of other items keep their rows.
abbrev pub Elsewhere : List FailedItem → InMemoryLedgerStore → InMemoryLedgerStore → Type 0
Elsewhere items s s' =
    (k : String) → All (λ item. k ≢ doc_id_of item) items → lookup k s'.rows ≡ lookup k s.rows

-- What the loop over `items` has done when it returns.
abbrev Completes :
    ℕ → List FailedItem → (requeued skipped : List String) → InMemoryLedgerStore → Type 0
Completes n items requeued skipped s =
    (s' : InMemoryLedgerStore) × (requeue_each (λ _. alone) (λ _. alone) n items requeued skipped s
      ≡ (ok (requeued ++ map doc_id_of items, skipped), s'))
    × All (IsRequeued s') items
    × Elsewhere items s s'

requeue_each-Completes :
    (n : ℕ) (items : List FailedItem) (requeued skipped : List String) (s : InMemoryLedgerStore)
    → IsValid s
    → All (IsFailed s) items
    → Apart doc_id_of items
    → Completes n items requeued skipped s
unfolding requeue_each
requeue_each-Completes n [] requeued skipped s valid failed apart =
    (s, rw (append-nil requeued) refl, tt, λ k others. refl)
requeue_each-Completes n (item ∷ items) requeued skipped s valid failed apart =
    let (row, found, was) = failed.0 in
    let s1 = (requeue alone item.doc_id s).1 in
    let (answer, here, elsewhere) = requeue-resets item.doc_id s row valid found was in
    let still =
      All-imp (λ i. (doc_id_of item ≢ doc_id_of i) × IsFailed s i) (IsFailed s1)
        (λ i both. (both.1.0, elsewhere i.doc_id both.0 ∙ both.1.1, both.1.2)) items
        (All-both (λ i. doc_id_of item ≢ doc_id_of i) (IsFailed s) items apart.0 failed.1) in
    let (s', runs, done, kept) =
      requeue_each-Completes (suc n) items (requeued ++ item.doc_id ∷ []) skipped s1
        (requeue-IsValid alone item.doc_id s valid valid) still apart.1 in
    (
      s',
      rw (requeue_each, answer)
          (runs
            ∙ ap (λ ids. (ok (ids, skipped), s'))
                (append_assoc requeued (item.doc_id ∷ []) (map doc_id_of items))),
      ((fresh_run row (now s), kept item.doc_id apart.0 ∙ here, refl, refl, refl), done),
      λ k others. kept k others.1 ∙ elsewhere k (λ same. others.0 (sym same)),
    )

-- With no other thread about, a batch requeue on a valid ledger returns. The candidates that
-- `list_failed` gives it are failed documents. It has requeued every one of them, in that order, and
-- skipped none: their rows are pending, with no attempts and no error code, and the rows of all other
-- documents are as they were. There are at most `max_batch_requeue` candidates, whatever limit the
-- caller asks for.
pub requeue_by_error_code_completes :
    (reg : ErrorRegistry) (max_batch_requeue : ℕ) (error_code : String) (limit : ℤ)
    (s : InMemoryLedgerStore)
    → IsValid s
    → let candidates =
        list_failed reg (min_ℤ limit max_batch_requeue) (some error_code) none none s in
      let (r, s') =
        requeue_by_error_code reg max_batch_requeue (λ _. alone) (λ _. alone) error_code limit s in
      (r
        ≡ ok
            (record { error_code = error_code; requeued = map doc_id_of candidates; skipped = [] }))
      × All (IsFailed s) candidates
      × All (IsRequeued s') candidates
      × Elsewhere candidates s s'
      × (length candidates ≤ max_batch_requeue)
unfolding requeue_by_error_code
requeue_by_error_code_completes reg max_batch_requeue error_code limit s valid =
    let effective = min_ℤ limit max_batch_requeue in
    let candidates = list_failed reg effective (some error_code) none none s in
    let (s', runs, done, kept) =
      requeue_each-Completes 0 candidates [] [] s valid
        (list_failed-IsFailed reg effective (some error_code) none none s valid)
        (list_failed-Apart reg effective (some error_code) none none s valid) in
    rw runs (
      refl,
      list_failed-IsFailed reg effective (some error_code) none none s valid,
      done,
      kept,
      list_failed_le reg limit max_batch_requeue (some error_code) s,
    )
