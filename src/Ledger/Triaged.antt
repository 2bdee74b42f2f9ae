-- ===== src/Ledger/Triaged.antt =====
-- The call that every stage of the pipeline makes: `transition`, with a lost race triaged by
-- `is_benign_concurrent_loss`.
use vestibule.Prelude.{
  String, ◌≡◌, refl, ◌≢◌, Option, none, some, Outcome, ok, err, arith, true, false,
}
use vestibule.Dict.{lookup, All-lookup}
use vestibule.Ledger.Model.{
  Status, failed, LedgerRow, LedgerTransitionInvalid, LedgerError, transition_invalid, value_error,
}
use vestibule.Ledger.Store.{
  InMemoryLedgerStore, Request, is_benign_concurrent_loss, transition, next_row, now, write,
}
use vestibule.Ledger.Legal.{Edge}
use vestibule.Ledger.Effect.{transition-applies, transition-refuses}
use vestibule.Ledger.Invariant.{IsRow, IsValid}

-- What leaves `except LedgerTransitionInvalid as exc: if not is_benign_concurrent_loss(...): raise`
-- around a transition to `to`.
unfoldable pub escapes : Status → Outcome LedgerError LedgerRow → Option LedgerError
escapes to (ok row) = none
escapes to (err (transition_invalid e)) = elim (is_benign_concurrent_loss e.observed_row to to) [
  | none ↦ some value_error
  | some false ↦ some (transition_invalid e)
  | some true ↦ none
]
escapes to (err e) = some e

-- `transition` inside that `try`.
unfoldable pub triaged :
    String → Request → InMemoryLedgerStore → Option LedgerError × InMemoryLedgerStore
unfolding escapes
triaged doc_id r s = let (o, s') = transition doc_id r s in (escapes r.to_status o, s')

-- The arguments of a transition whose stage is its target.
abbrev pub move_to : Status → Option String → Option String → Request
move_to to error_code error_message = record {
  to_status = to;
  stage = to;
  error_code = error_code;
  error_message = error_message;
  assigned_scenario_id = none;
}

module _ (doc_id : String) (to : Status) (code message : Option String) (s : InMemoryLedgerStore)
    (row : LedgerRow) (valid : IsValid s) (found : lookup doc_id s.rows ≡ some row) where
  stored_row : IsRow (doc_id, row)
  stored_row = All-lookup IsRow doc_id row s.rows valid.rows_hold found

  pub moves :
      Edge row.status to
      → (to ≡ failed → code ≢ none)
      → transition doc_id (move_to to code message) s ≡ (
        ok (next_row doc_id row (move_to to code message) (now s)),
        write doc_id (next_row doc_id row (move_to to code message) (now s)) s,
      )
  moves edge coded =
      transition-applies doc_id doc_id (move_to to code message) s row stored_row.formatted found
        (record { staged = refl; edge = edge; coded = coded })

  pub barred :
      ¬ Edge row.status to
      → (e : LedgerTransitionInvalid) × (transition doc_id (move_to to code message) s
          ≡ (err (transition_invalid e), s))
        × (e.observed_row ≡ some row)
  barred bar =
      transition-refuses doc_id doc_id (move_to to code message) s row stored_row.formatted found
        (λ a. bar a.edge)

  pub triaged-moves :
      Edge row.status to
      → (to ≡ failed → code ≢ none)
      → triaged doc_id (move_to to code message) s
        ≡ (none, write doc_id (next_row doc_id row (move_to to code message) (now s)) s)
  unfolding triaged escapes
  triaged-moves edge coded = rw (moves edge coded) refl

  pub triaged-passes :
      ¬ Edge row.status to
      → is_benign_concurrent_loss (some row) to to ≡ some true
      → triaged doc_id (move_to to code message) s ≡ (none, s)
  unfolding triaged escapes
  triaged-passes bar benign =
      let (e, refused, observed) = barred bar in ground (arith, refused, observed, benign)

  triaged-raises :
      ¬ Edge row.status to
      → is_benign_concurrent_loss (some row) to to ≡ some false
      → (e : LedgerTransitionInvalid) × (triaged doc_id (move_to to code message) s
          ≡ (some (transition_invalid e), s))
        × (e.observed_row ≡ some row)
  unfolding triaged escapes
  triaged-raises bar harmful =
      let (e, refused, observed) = barred bar in
      (e, ground (arith, refused, observed, harmful), observed)
