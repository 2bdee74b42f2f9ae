-- ===== src/Reprocessor/Requeue.antt =====
-- What `requeue` does to a document, alone and against other threads.
use vestibule.Prelude.{
  ℕ, String, ◌≡◌, refl, sym, subst, ◌≢◌, none, some, Outcome, ok, err, arith, Bool, true, false,
}
use vestibule.Dict.{lookup, lookup-insert_self, lookup-insert_ne, All-lookup}
use vestibule.Ledger.Model.{
  pending, failed, archived, LedgerRow, LedgerTransitionInvalid, transition_invalid,
}
use vestibule.Ledger.Store.{
  InMemoryLedgerStore, is_benign_concurrent_loss, transition, next_row, now, write,
}
use vestibule.Ledger.Legal.{Allowed, Edge}
use vestibule.Ledger.Overtaken.{Later-IsOnPath, overtaken_barred, archived_barred}
use vestibule.Reprocessor.Refusal.{requires}
use vestibule.Ledger.Effect.{transition-applies, transition-refuses}
use vestibule.Ledger.Invariant.{IsRow, IsValid, transition-IsValid}
use vestibule.Ledger.Triage.{Later, IsOnPath, triage_total, triage_forward}
use vestibule.Reprocessor.{Raised, from_ledger, RequeueResult, code_or_unknown, require_failed}
use vestibule.Reprocessor.Actions.{
  Others, requeue_request, requeue_result, to_result, requeued_row, requeue,
}

-- A stored row of a valid ledger.
stored :
    (doc_id : String) (row : LedgerRow) (s : InMemoryLedgerStore)
    → IsValid s
    → lookup doc_id s.rows ≡ some row
    → IsRow (doc_id, row)
stored doc_id row s h found = All-lookup IsRow doc_id row s.rows h.rows_hold found

-- What has become of the document once `requeue` has found it failed and other threads have run.
pub record Raced (doc_id previous : String) (row : LedgerRow) (s : InMemoryLedgerStore)
    (p : Outcome Raised RequeueResult × InMemoryLedgerStore) : Type 0 where
  pub moved :
      Edge row.status pending
      → p ≡ (
        ok (record { doc_id = doc_id; previous_error_code = previous; requeued_at = now s }),
        write doc_id (next_row doc_id row requeue_request (now s)) s,
      )
  pub overtaken :
      Later pending row.status
      → row.status ≢ pending
      → p ≡ (
        ok (record {
          doc_id = doc_id;
          previous_error_code = previous;
          requeued_at = row.updated_at;
        }),
        s,
      )
  pub archived_first :
      row.status ≡ archived
      → (e : LedgerTransitionInvalid) × (p ≡ (err (from_ledger (transition_invalid e)), s))
        × (e.observed_row ≡ some row)

archived_not_benign :
    (row : LedgerRow)
    → row.stage ≡ row.status
    → row.status ≡ archived
    → is_benign_concurrent_loss (some row) pending pending ≡ some false
archived_not_benign row mirrored h =
    by_answer (triage_total (some row) pending pending).0
      (triage_total (some row) pending pending).1
  where
    by_answer :
        (b : Bool)
        → is_benign_concurrent_loss (some row) pending pending ≡ some b
        → is_benign_concurrent_loss (some row) pending pending ≡ some false
    by_answer false e = e
    by_answer true e =
        absurd (subst IsOnPath h (Later-IsOnPath ((triage_forward row pending mirrored tt).0 e)))

-- `requeue` of a document that was failed when it looked, whatever other threads have done to it
-- in between. If the state machine lets its row go to pending, that is where it goes; if the row
-- is further along the pipeline already, the call returns and writes nothing; if it has been
-- archived, the call raises and writes nothing.
pub requeue-Raced :
    (others : Others) (doc_id : String) (s : InMemoryLedgerStore) (before row : LedgerRow)
    → lookup doc_id s.rows ≡ some before
    → before.status ≡ failed
    → IsValid (others s)
    → lookup doc_id (others s).rows ≡ some row
    → Raced doc_id (code_or_unknown before.last_error_code) row (others s) (requeue others doc_id s)
unfolding requeue next_row
requeue-Raced others doc_id s before row found was valid found' = record {
  moved = λ e. ground (
    arith,
    checked,
    transition-applies doc_id doc_id requeue_request (others s) row is.formatted found' (legal e),
  );
  overtaken = λ l n.
      let (e, refused, observed) =
        transition-refuses doc_id doc_id requeue_request (others s) row is.formatted found'
          (λ a. overtaken_barred row.status l n a.edge) in
      ground (arith, checked, refused, observed, (triage_forward row pending is.staged tt).1 l);
  archived_first = λ h.
      let (e, refused, observed) =
        transition-refuses doc_id doc_id requeue_request (others s) row is.formatted found'
          (λ a. archived_barred row.status h a.edge) in
      (e, ground (arith, checked, refused, observed, not_benign h), observed);
}
  where
    is : IsRow (doc_id, row)
    is = stored doc_id row (others s) valid found'

    checked : require_failed "requeue" doc_id s ≡ ok before
    checked = requires "requeue" doc_id s before found was

    legal : Edge row.status pending → Allowed row pending pending none
    legal e = record { staged = refl; edge = e; coded = λ h. cc }

    not_benign :
        row.status ≡ archived → is_benign_concurrent_loss (some row) pending pending ≡ some false
    not_benign h = archived_not_benign row is.staged h

-- The row that a requeue alone leaves.
abbrev pub fresh_run : LedgerRow → ℕ → LedgerRow
fresh_run row t = record row {
  status = pending;
  stage = pending;
  attempts = 0;
  last_error_code = none;
  last_error_message = none;
  updated_at = t;
}

requeued-fresh_run :
    (doc_id : String) (row : LedgerRow) (t : ℕ)
    → row.doc_id ≡ doc_id
    → row.status ≡ failed
    → next_row doc_id row requeue_request t ≡ fresh_run row t
unfolding next_row
requeued-fresh_run doc_id row t named was = ground arith

-- With no other thread in between, `requeue` of a failed document returns its error code and the
-- time, makes its row pending with no attempts and no error, keeps the row's other fields (its
-- ingestion time, configuration version and assigned scenario), and touches no other document.
pub requeue-resets :
    (doc_id : String) (s : InMemoryLedgerStore) (row : LedgerRow)
    → IsValid s
    → lookup doc_id s.rows ≡ some row
    → row.status ≡ failed
    → let (r, s') = requeue (λ t. t) doc_id s in
      (r ≡ ok (requeue_result doc_id (code_or_unknown row.last_error_code) (fresh_run row (now s))))
      × (lookup doc_id s'.rows ≡ some (fresh_run row (now s)))
      × ((k : String) → doc_id ≢ k → lookup k s'.rows ≡ lookup k s.rows)
requeue-resets doc_id s row valid found was =
    let raced =
      (requeue-Raced (λ t. t) doc_id s row row found was valid found).moved
        (subst (λ st. Edge st pending) (sym was) Edge.requeue) in
    let fresh = requeued-fresh_run doc_id row (now s) (stored doc_id row s valid found).keyed was in
    rw raced (
      refl,
      rw fresh (lookup-insert_self doc_id (fresh_run row (now s)) s.rows),
      λ k other. lookup-insert_ne k doc_id _ s.rows other,
    )

pub requeue-IsValid :
    (others : Others) (doc_id : String) (s : InMemoryLedgerStore)
    → IsValid s
    → IsValid (others s)
    → IsValid (requeue others doc_id s).1
unfolding requeue
requeue-IsValid others doc_id s h h' = kept (require_failed "requeue" doc_id s)
  where
    kept :
        (o : Outcome Raised LedgerRow)
        → IsValid
            (elim o as (λ _. Outcome Raised RequeueResult × InMemoryLedgerStore) [
              | err e ↦ (err e, s)
              | ok current ↦
                  let (r, s') = transition doc_id requeue_request (others s) in
                  (to_result doc_id (code_or_unknown current.last_error_code) (requeued_row r), s')
            ]).1
    kept (err e) = h
    kept (ok current) = transition-IsValid doc_id requeue_request (others s) h'

-- Two operators requeue the same failed document, the first's whole call falling between the
-- second's check and its `transition`: the second is taken for a retry, so the row ends pending
-- with one attempt, not with none.
requeue_twice :
    (doc_id : String) (s : InMemoryLedgerStore) (row : LedgerRow)
    → IsValid s
    → lookup doc_id s.rows ≡ some row
    → row.status ≡ failed
    → (row' : LedgerRow) × (lookup doc_id
          (requeue (λ t. (requeue (λ u. u) doc_id t).1) doc_id s).1.rows
        ≡ some row')
      × (row'.status ≡ pending)
      × (row'.attempts ≡ 1)
unfolding next_row
requeue_twice doc_id s row valid found was =
    let others : Others = λ t. (requeue (λ u. u) doc_id t).1 in
    let fresh = fresh_run row (now s) in
    let first = requeue-resets doc_id s row valid found was in
    let raced =
      (requeue-Raced others doc_id s row fresh found was
          (requeue-IsValid (λ u. u) doc_id s valid valid) first.1).moved
        (Edge.retry pending tt) in
    (
      next_row doc_id fresh requeue_request (now (others s)),
      rw raced (lookup-insert_self doc_id _ (others s).rows),
      refl,
      ground arith,
    )
