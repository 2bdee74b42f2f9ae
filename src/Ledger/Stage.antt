-- ===== src/Ledger/Stage.antt =====
-- The writes of a pipeline stage to the row of its document, and the refusals for a document that is
-- indexed already.
use vestibule.Prelude.{
  ℕ, ◌+◌, String, ◌≡◌, sym, subst, ◌≢◌, Option, none, some, ok, arith, true, ap, ◌∙◌,
}
use vestibule.Dict.{lookup, All-lookup}
use vestibule.Ledger.Model.{Status, failed, indexed, LedgerRow}
use vestibule.Ledger.Store.{
  InMemoryLedgerStore, transition, next_row, now, write, is_benign_concurrent_loss, triage,
}
use vestibule.Ledger.Legal.{Edge, IsLive}
use vestibule.Ledger.Invariant.{IsRow, IsValid, transition-IsValid}
use vestibule.Ledger.Triaged.{move_to, triaged, moves, barred, triaged-moves, triaged-passes}

-- The row after it moved on.
abbrev pub advanced : Status → ℕ → LedgerRow → LedgerRow
advanced to t row = record row {
  status = to;
  stage = to;
  attempts = 1;
  last_error_code = none;
  last_error_message = none;
  updated_at = t;
}

-- The row after it was given up.
abbrev pub given_up : (code reason : String) → ℕ → LedgerRow → LedgerRow
given_up code reason t row = record row {
  status = failed;
  stage = failed;
  last_error_code = some code;
  last_error_message = some reason;
  updated_at = t;
}

-- The row after it was left for another attempt.
abbrev pub retried : (code reason : String) → ℕ → LedgerRow → LedgerRow
retried code reason t row = record row {
  attempts = row.attempts + 1;
  last_error_code = some code;
  last_error_message = some reason;
  updated_at = t;
}

leaves_indexed : {a b : Status} → Edge a b → a ≢ indexed
leaves_indexed (Edge.fail s l) h = subst IsLive h l
leaves_indexed (Edge.retry s l) h = subst IsLive h l
leaves_indexed _ h = cc

module _ (doc_id : String) (s : InMemoryLedgerStore) (row : LedgerRow) (valid : IsValid s)
    (found : lookup doc_id s.rows ≡ some row) where
  held : IsRow (doc_id, row)
  held = All-lookup IsRow doc_id row s.rows valid.rows_hold found

  next_row-advanced :
      (to : Status)
      → to ≢ row.status
      → to ≢ failed
      → row.status ≢ failed
      → next_row doc_id row (move_to to none none) (now s) ≡ advanced to (now s) row
  unfolding next_row
  next_row-advanced to moved live from = ground (arith, held.keyed)

  next_row-given_up :
      (code reason : String)
      → row.status ≢ failed
      → next_row doc_id row (move_to failed (some code) (some reason)) (now s)
        ≡ given_up code reason (now s) row
  unfolding next_row
  next_row-given_up code reason live = ground (arith, held.keyed)

  next_row-retried :
      (at : Status) (code reason : String)
      → at ≡ row.status
      → row.status ≢ failed
      → next_row doc_id row (move_to at (some code) (some reason)) (now s)
        ≡ retried code reason (now s) row
  unfolding next_row
  next_row-retried at code reason same live = ground (arith, held.keyed, held.staged, same)

  next_row-repeated :
      (at : Status)
      → at ≡ row.status
      → row.status ≢ failed
      → next_row doc_id row (move_to at none none) (now s)
        ≡ record row { attempts = row.attempts + 1; updated_at = now s }
  unfolding next_row
  next_row-repeated at same live = ground (arith, held.keyed, held.staged, same)

  live_not_failed : IsLive row.status → row.status ≢ failed
  live_not_failed live e = subst IsLive e live

  pub stage_advances :
      (to : Status)
      → Edge row.status to
      → to ≢ row.status
      → to ≢ failed
      → IsLive row.status
      → triaged doc_id (move_to to none none) s ≡ (none, write doc_id (advanced to (now s) row) s)
  stage_advances to edge moved on live =
      rw (sym (next_row-advanced to moved on (live_not_failed live)))
        (triaged-moves doc_id to none none s row valid found edge (λ e. absurd (on e)))

  pub stage_gives_up :
      (code reason : String)
      → IsLive row.status
      → triaged doc_id (move_to failed (some code) (some reason)) s
        ≡ (none, write doc_id (given_up code reason (now s) row) s)
  stage_gives_up code reason live =
      rw (sym (next_row-given_up code reason (live_not_failed live))) (
        triaged-moves doc_id failed (some code) (some reason) s row valid found
          (Edge.fail row.status live) (λ e. λ n. cc))

  -- Without the triage.
  pub stage_enters :
      (to : Status)
      → Edge row.status to
      → to ≢ row.status
      → to ≢ failed
      → IsLive row.status
      → transition doc_id (move_to to none none) s
        ≡ (ok (advanced to (now s) row), write doc_id (advanced to (now s) row) s)
  stage_enters to edge moved on live =
      rw (sym (next_row-advanced to moved on (live_not_failed live)))
        (moves doc_id to none none s row valid found edge (λ e. absurd (on e)))

  pub stage_fails :
      (code reason : String)
      → IsLive row.status
      → transition doc_id (move_to failed (some code) (some reason)) s
        ≡ (ok (given_up code reason (now s) row), write doc_id (given_up code reason (now s) row) s)
  stage_fails code reason live = rw (sym (next_row-given_up code reason (live_not_failed live))) (
      moves doc_id failed (some code) (some reason) s row valid found (Edge.fail row.status live)
        (λ e. λ n. cc))

  pub stage_retries :
      (at : Status) (code reason : String)
      → at ≡ row.status
      → IsLive row.status
      → transition doc_id (move_to at (some code) (some reason)) s
        ≡ (ok (retried code reason (now s) row), write doc_id (retried code reason (now s) row) s)
  stage_retries at code reason same live =
      rw (sym (next_row-retried at code reason same (live_not_failed live))) (
        moves doc_id at (some code) (some reason) s row valid found
          (rw same (Edge.retry row.status live)) (λ e. λ n. cc))

  pub stage_retries_triaged :
      (at : Status) (code reason : String)
      → at ≡ row.status
      → IsLive row.status
      → triaged doc_id (move_to at (some code) (some reason)) s
        ≡ (none, write doc_id (retried code reason (now s) row) s)
  stage_retries_triaged at code reason same live =
      rw (sym (next_row-retried at code reason same (live_not_failed live))) (
        triaged-moves doc_id at (some code) (some reason) s row valid found
          (rw same (Edge.retry row.status live)) (λ e. λ n. cc))

  -- A document that is indexed stays as it is, whatever is asked of the ledger.
  pub transition_finished :
      row.status ≡ indexed
      → (to : Status) (code message : Option String)
      → (transition doc_id (move_to to code message) s).1 ≡ s
  transition_finished h to code message =
      ap (λ p. p.1) (barred doc_id to code message s row valid found (λ e. leaves_indexed e h)).1

  -- Where the triage calls every such refusal benign, the stage goes on.
  pub triaged_over :
      row.status ≡ indexed
      → (to : Status) (code message : Option String) → triage indexed to ≡ some true
      → triaged doc_id (move_to to code message) s ≡ (none, s)
  triaged_over h to code message benign =
      triaged-passes doc_id to code message s row valid found (λ e. leaves_indexed e h)
        (unfold is_benign_concurrent_loss in ground (arith, held.staged, h, benign))

  pub triaged_finished :
      row.status ≡ indexed
      → (to : Status) (code message : Option String)
      → (triaged doc_id (move_to to code message) s).1 ≡ s
  unfolding triaged
  triaged_finished h to code message = transition_finished h to code message

  -- The move into the stage where the row is already.
  pub stage_repeats :
      (at : Status)
      → at ≡ row.status
      → IsLive row.status
      → triaged doc_id (move_to at none none) s
        ≡ (none, write doc_id (record row { attempts = row.attempts + 1; updated_at = now s }) s)
  stage_repeats at same live = rw (sym (next_row-repeated at same (live_not_failed live))) (
      triaged-moves doc_id at none none s row valid found (rw same (Edge.retry row.status live))
        (λ e. absurd (live_not_failed live (sym same ∙ e))))

  -- The ledger after the document moved on.
  pub advanced-IsValid :
      (to : Status)
      → Edge row.status to
      → to ≢ row.status
      → to ≢ failed
      → IsLive row.status
      → IsValid (write doc_id (advanced to (now s) row) s)
  unfolding triaged
  advanced-IsValid to edge moved on live =
      subst (λ p. IsValid p.1) (stage_advances to edge moved on live)
        (transition-IsValid doc_id (move_to to none none) s valid)
