-- ===== src/Reprocessor/Archive.antt =====
-- What `archive` does to a document, alone and against other threads.
use vestibule.Prelude.{
  ℕ, String, ◌≡◌, refl, sym, subst, ◌≢◌, ◌∙◌, ap, some, Outcome, ok, err, arith, Bool, true, false,
  ◌↔◌,
}
use vestibule.Dict.{lookup, lookup-insert_self, lookup-insert_ne, All-lookup}
use vestibule.Ledger.Model.{
  Status, failed, archived, LedgerRow, LedgerTransitionInvalid, transition_invalid,
}
use vestibule.Ledger.Store.{
  InMemoryLedgerStore, is_benign_concurrent_loss, transition, next_row, now, write,
}
use vestibule.Ledger.Legal.{Allowed, Edge, IsLive}
use vestibule.Ledger.Effect.{transition-applies, transition-refuses}
use vestibule.Ledger.Invariant.{IsRow, IsValid}
use vestibule.Ledger.Triage.{triage_off_path, triage_total}
use vestibule.Reprocessor.{Raised, from_ledger, require_failed}
use vestibule.Reprocessor.Actions.{Others, archive_request, archive_outcome, archive}
use vestibule.Reprocessor.Refusal.{requires}

into_archived : {a b : Status} → Edge a b → b ≡ archived → a ≡ failed
into_archived Edge.archive h = refl
into_archived (Edge.retry s l) h = absurd (subst IsLive h l)
into_archived Edge.park h = ground arith
into_archived Edge.resume h = ground arith
into_archived Edge.requeue h = ground arith
into_archived (Edge.fail s l) h = ground arith
into_archived Edge.analyze h = ground arith
into_archived Edge.chunk h = ground arith
into_archived Edge.embed h = ground arith
into_archived Edge.index h = ground arith
into_archived Edge.finish h = ground arith

-- What has become of the document once `archive` has found it failed, with this error code, and
-- other threads have run.
pub record Shelved (doc_id reason : String) (before row : LedgerRow) (s : InMemoryLedgerStore)
    (p : Outcome Raised (Unit {0}) × InMemoryLedgerStore) : Type 0 where
  pub moved :
      row.status ≡ failed
      → p ≡ (ok tt, write doc_id (next_row doc_id row (archive_request before reason) (now s)) s)
  pub already : row.status ≡ archived → p ≡ (ok tt, s)
  pub requeued_first :
      row.status ≢ failed
      → row.status ≢ archived
      → (e : LedgerTransitionInvalid) × (p ≡ (err (from_ledger (transition_invalid e)), s))
        × (e.observed_row ≡ some row)

-- `archive` of a document that was failed when it looked, whatever other threads have done to it in
-- between. If it is still failed it is archived, if another thread has archived it the call returns
-- and writes nothing, and on any other status the ledger's error is raised and nothing is written.
archive-Shelved :
    (others : Others) (doc_id reason : String) (s : InMemoryLedgerStore) (before row : LedgerRow)
    → lookup doc_id s.rows ≡ some before
    → before.status ≡ failed
    → IsValid (others s)
    → lookup doc_id (others s).rows ≡ some row
    → Shelved doc_id reason before row (others s) (archive others doc_id reason s)
unfolding archive archive_outcome
archive-Shelved others doc_id reason s before row found was valid found' = record {
  moved = λ h. ground (
    arith,
    checked,
    transition-applies doc_id doc_id (archive_request before reason) (others s) row is.formatted
        found' (legal h),
  );
  already = λ h.
      let (e, refused, observed) = barred (λ edge. ground (arith, into_archived edge refl)) in
      ground (arith, checked, refused, observed, benign.1 h);
  requeued_first = λ a b.
      let (e, refused, observed) = barred (λ edge. a (into_archived edge refl)) in
      (e, ground (arith, checked, refused, observed, not_benign b), observed);
}
  where
    is : IsRow (doc_id, row)
    is = All-lookup IsRow doc_id row (others s).rows valid.rows_hold found'

    checked : require_failed "archive" doc_id s ≡ ok before
    checked = requires "archive" doc_id s before found was

    legal : row.status ≡ failed → Allowed row archived archived before.last_error_code
    legal h = record {
      staged = refl;
      edge = subst (λ t. Edge t archived) (sym h) Edge.archive;
      coded = λ e. cc;
    }

    barred :
        ¬ Edge row.status archived
        → (e : LedgerTransitionInvalid) × (transition doc_id
              (archive_request before reason)
              (others s)
            ≡ (err (transition_invalid e), others s))
          × (e.observed_row ≡ some row)
    barred bar =
        transition-refuses doc_id doc_id (archive_request before reason) (others s) row is.formatted
          found' (λ a. bar a.edge)

    benign :
        (is_benign_concurrent_loss (some row) archived archived ≡ some true)
        ↔ (row.status ≡ archived)
    benign = (triage_off_path row is.staged).2

    not_benign :
        row.status ≢ archived → is_benign_concurrent_loss (some row) archived archived ≡ some false
    not_benign n =
        by_answer (triage_total (some row) archived archived).0
          (triage_total (some row) archived archived).1
      where
        by_answer :
            (b : Bool)
            → is_benign_concurrent_loss (some row) archived archived ≡ some b
            → is_benign_concurrent_loss (some row) archived archived ≡ some false
        by_answer false e = e
        by_answer true e = absurd (n (benign.0 e))

-- The row that an archiving alone leaves.
abbrev pub shelved : LedgerRow → String → ℕ → LedgerRow
shelved row reason t = record row {
  status = archived;
  stage = archived;
  attempts = 1;
  last_error_message = some reason;
  updated_at = t;
}

archived-shelved :
    (doc_id reason : String) (row : LedgerRow) (t : ℕ)
    → row.doc_id ≡ doc_id
    → row.status ≡ failed
    → next_row doc_id row (archive_request row reason) t ≡ shelved row reason t
unfolding next_row
archived-shelved doc_id reason row t named was = ground arith

-- With no other thread in between, `archive` of a failed document returns, and its row is archived
-- with the error code that it failed with and the operator's reason; its count of attempts is set
-- to one. No other document is touched.
archive-shelves :
    (doc_id reason : String) (s : InMemoryLedgerStore) (row : LedgerRow)
    → IsValid s
    → lookup doc_id s.rows ≡ some row
    → row.status ≡ failed
    → let (r, s') = archive (λ t. t) doc_id reason s in
      (r ≡ ok tt)
      × (lookup doc_id s'.rows ≡ some (shelved row reason (now s)))
      × ((k : String) → doc_id ≢ k → lookup k s'.rows ≡ lookup k s.rows)
archive-shelves doc_id reason s row valid found was =
    let done = (archive-Shelved (λ t. t) doc_id reason s row row found was valid found).moved was in
    let named = (All-lookup IsRow doc_id row s.rows valid.rows_hold found).keyed in
    rw done (
      refl,
      lookup-insert_self doc_id _ s.rows
          ∙ ap some (archived-shelved doc_id reason row (now s) named was),
      λ k other. lookup-insert_ne k doc_id _ s.rows other,
    )
