-- ===== src/Ledger/Effect.antt =====
-- What `create` and `transition` do, on every branch.
use vestibule.Prelude.{
  ℕ, ◌+◌, String, ◌≡◌, refl, ◌≢◌, Option, none, some, Outcome, ok, err, arith, ap, ◌∙◌, subst,
}
use vestibule.Dict.{lookup, insert}
use vestibule.Identity.{IdentityInvalid, validate_id_format}
use vestibule.Ledger.Model.{
  assertion_failed, value_error, Status, pending, failed, LedgerRow, LedgerTransitionInvalid,
  LedgerError, identity_invalid, transition_invalid,
}
use vestibule.Ledger.Store.{
  InMemoryLedgerStore, Request, validate_transition, apply_transition, transition, next_row,
  next_attempts, next_error_fields, next_assigned_scenario_id, now, write,
}
use vestibule.Ledger.Legal.{Allowed, validate_transition_iff}

-- A rejection carries the request and the row that it was judged against.
abbrev pub Rejects : String → Option LedgerRow → Status → Status → LedgerError → Type 0
Rejects doc_id current to stage (transition_invalid e) =
    (e.doc_id ≡ doc_id)
    × (e.observed_row ≡ current)
    × (e.attempted_to_status ≡ to)
    × (e.attempted_stage ≡ stage)
Rejects doc_id current to stage _ = ⊥

pub validate_transition-Rejects :
    (doc_id : String) (current : Option LedgerRow) (to stage : Status) (error_code : Option String)
    (e : LedgerError)
    → validate_transition doc_id current to stage error_code ≡ err e
    → Rejects doc_id current to stage e
unfolding validate_transition
validate_transition-Rejects doc_id none to stage error_code (transition_invalid x) h = ground arith
validate_transition-Rejects doc_id (some row) to stage error_code (transition_invalid x) h =
    ground arith
validate_transition-Rejects doc_id none to stage error_code e h = cc
validate_transition-Rejects doc_id (some row) to stage error_code e h = ground arith

-- The row that a move to `to` makes of `current`, field by field.
pub record Moved (doc_id : String) (current : LedgerRow) (r : Request) (t : ℕ) (row : LedgerRow)
    : Type 0 where
  pub named : row.doc_id ≡ doc_id
  pub moved : row.status ≡ r.to_status
  pub staged : row.stage ≡ r.to_status
  pub versioned : row.config_version ≡ current.config_version
  pub ingested : row.ingested_at ≡ current.ingested_at
  pub stamped : row.updated_at ≡ t
  pub failed_attempts : r.to_status ≡ failed → row.attempts ≡ current.attempts
  pub reset_attempts : current.status ≡ failed → r.to_status ≡ pending → row.attempts ≡ 0
  pub retried_attempts :
      r.to_status ≢ failed → r.to_status ≡ current.status → row.attempts ≡ current.attempts + 1
  pub first_attempt :
      r.to_status ≢ failed
      → r.to_status ≢ current.status
      → ¬ ((current.status ≡ failed) × (r.to_status ≡ pending))
      → row.attempts ≡ 1
  pub errors_kept :
      r.to_status ≡ current.status
      → r.error_code ≡ none
      → (row.last_error_code ≡ current.last_error_code)
        × (row.last_error_message ≡ current.last_error_message)
  pub errors_given :
      ¬ ((r.to_status ≡ current.status) × (r.error_code ≡ none))
      → (row.last_error_code ≡ r.error_code) × (row.last_error_message ≡ r.error_message)
  pub assigned_kept :
      r.assigned_scenario_id ≡ none → row.assigned_scenario_id ≡ current.assigned_scenario_id
  pub assigned_given :
      (scenario_id : String)
      → r.assigned_scenario_id ≡ some scenario_id
      → row.assigned_scenario_id ≡ some scenario_id

next_row-Moved :
    (doc_id : String) (current : LedgerRow) (r : Request) (t : ℕ)
    → Allowed current r.to_status r.stage r.error_code
    → Moved doc_id current r t (next_row doc_id current r t)
unfolding next_row next_attempts next_error_fields next_assigned_scenario_id
next_row-Moved doc_id current r t a = record {
  named = refl;
  moved = refl;
  staged = a.staged;
  versioned = refl;
  ingested = refl;
  stamped = refl;
  failed_attempts = λ h. ground (arith, h);
  reset_attempts = λ h k. ground (arith, h, k);
  retried_attempts = λ n h. ground (arith, h);
  first_attempt = λ n m k. ground arith;
  errors_kept = λ h k. ground (arith, h, k);
  errors_given = λ k. ground arith;
  assigned_kept = λ h. ground (arith, h);
  assigned_given = λ x h. ground (arith, h);
}

-- What a `transition` call may have done.
abbrev pub Effect :
    String
    → Request
    → InMemoryLedgerStore
    → Outcome LedgerError LedgerRow × InMemoryLedgerStore
    → Type 0
Effect doc_id r s (ok row, s') =
    (current : LedgerRow) × (lookup doc_id s.rows ≡ some current)
    × Allowed current r.to_status r.stage r.error_code
    × (row ≡ next_row doc_id current r (now s))
    × Moved doc_id current r (now s) row
    × (s' ≡ record s { rows = insert doc_id row s.rows; reads = s.reads + 1 })
Effect doc_id r s (err (identity_invalid e), s') =
    (validate_id_format doc_id "doc_id" ≡ err e) × (s' ≡ s)
Effect doc_id r s (err e, s') =
    Rejects doc_id (lookup doc_id s.rows) r.to_status r.stage e
    × ((row : LedgerRow)
        → lookup doc_id s.rows ≡ some row
        → ¬ Allowed row r.to_status r.stage r.error_code)
    × (s' ≡ s)

absent_rejected :
    (doc_id : String) (to stage : Status) (error_code : Option String)
    → validate_transition doc_id none to stage error_code ≢ ok tt
unfolding validate_transition
absent_rejected doc_id to stage error_code h = cc

passes_not :
    (doc_id : String) (r : Request) (current : Option LedgerRow) (e : LedgerError)
    → validate_transition doc_id current r.to_status r.stage r.error_code ≡ err e
    → (row : LedgerRow) → current ≡ some row
    → ¬ Allowed row r.to_status r.stage r.error_code
passes_not doc_id r current e h row found a =
    cc ((validate_transition_iff doc_id row r.to_status r.stage r.error_code).1 a)

-- An error of `validate_transition` leaves `transition` with that error and the store as it was.
rejected-Effect :
    (doc_id : String) (r : Request) (s : InMemoryLedgerStore) (e : LedgerError)
    → validate_transition doc_id (lookup doc_id s.rows) r.to_status r.stage r.error_code ≡ err e
    → Effect doc_id r s (err e, s)
rejected-Effect doc_id r s e h =
    by_error e h (validate_transition-Rejects doc_id current r.to_status r.stage r.error_code e h)
  where
    current : Option LedgerRow
    current = lookup doc_id s.rows

    by_error :
        (x : LedgerError)
        → validate_transition doc_id current r.to_status r.stage r.error_code ≡ err x
        → Rejects doc_id current r.to_status r.stage x
        → Effect doc_id r s (err x, s)
    by_error (transition_invalid x) k fields =
        (fields, passes_not doc_id r current (transition_invalid x) k, refl)
    by_error x k fields = absurd fields

applied-Effect :
    (doc_id : String) (r : Request) (s : InMemoryLedgerStore) (current : Option LedgerRow)
    → lookup doc_id s.rows ≡ current
    → validate_transition doc_id current r.to_status r.stage r.error_code ≡ ok tt
    → Effect doc_id r s (apply_transition doc_id r current s)
unfolding apply_transition
applied-Effect doc_id r s none found h = absurd (absent_rejected doc_id _ _ _ h)
applied-Effect doc_id r s (some row) found h =
    let a = (validate_transition_iff doc_id row r.to_status r.stage r.error_code).0 h in
    (row, found, a, refl, next_row-Moved doc_id row r (now s) a, refl)

-- Every call of `transition` ends in one of three ways. When the request is allowed, it returns a
-- row and writes it in the place of the stored one: the row has the target as its status and stage;
-- its attempts are kept by a failure, 0 after a requeue, one more after a retry, and else 1; its
-- error fields are the request's, or on a retry without an error code the stored ones; its scenario
-- is the request's, or without one the stored one; it is stamped now, and keeps its configuration
-- version and its time of ingestion. When the request is not allowed or there is no row, the call
-- raises the ledger's transition error, with the request and the row it was judged against; and it
-- raises the format error of a malformed `doc_id`. Both errors leave the store alone.
pub transition-Effect :
    (doc_id : String) (r : Request) (s : InMemoryLedgerStore)
    → Effect doc_id r s (transition doc_id r s)
unfolding transition
transition-Effect doc_id r s = from_format (validate_id_format doc_id "doc_id") refl
  where
    current : Option LedgerRow
    current = lookup doc_id s.rows

    from_check :
        (v : Outcome LedgerError (Unit {0}))
        → validate_transition doc_id current r.to_status r.stage r.error_code ≡ v
        → Effect doc_id r s
            (elim v [ err e ↦ (err e, s) | ok _ ↦ apply_transition doc_id r current s ])
    from_check (ok _) passed = applied-Effect doc_id r s current refl passed
    from_check (err e) rejected = rejected-Effect doc_id r s e rejected

    from_format :
        (v : Outcome IdentityInvalid String)
        → validate_id_format doc_id "doc_id" ≡ v
        → Effect doc_id r s (elim v [
          | err e ↦ (err (identity_invalid e), s)
          | ok _ ↦ elim (validate_transition doc_id current r.to_status r.stage r.error_code) [
            | err e ↦ (err e, s)
            | ok _ ↦ apply_transition doc_id r current s
          ]
        ])
    from_format (ok _) good =
        from_check (validate_transition doc_id current r.to_status r.stage r.error_code) refl
    from_format (err e) bad = (bad, refl)

-- A legal request is applied.
pub transition-applies :
    (doc_id v : String) (r : Request) (s : InMemoryLedgerStore) (row : LedgerRow)
    → validate_id_format doc_id "doc_id" ≡ ok v
    → lookup doc_id s.rows ≡ some row
    → Allowed row r.to_status r.stage r.error_code
    → transition doc_id r s
      ≡ (ok (next_row doc_id row r (now s)), write doc_id (next_row doc_id row r (now s)) s)
unfolding transition apply_transition
transition-applies doc_id v r s row format found a =
    ground (arith, (validate_transition_iff doc_id row r.to_status r.stage r.error_code).1 a)

-- An illegal one is refused, with the row that stands in its way.
pub transition-refuses :
    (doc_id v : String) (r : Request) (s : InMemoryLedgerStore) (row : LedgerRow)
    → validate_id_format doc_id "doc_id" ≡ ok v
    → lookup doc_id s.rows ≡ some row
    → ¬ Allowed row r.to_status r.stage r.error_code
    → (e : LedgerTransitionInvalid) × (transition doc_id r s ≡ (err (transition_invalid e), s))
      × (e.observed_row ≡ some row)
transition-refuses doc_id v r s row format found barred =
    by_effect (transition doc_id r s) refl (transition-Effect doc_id r s)
  where
    by_effect :
        (p : Outcome LedgerError LedgerRow × InMemoryLedgerStore)
        → transition doc_id r s ≡ p
        → Effect doc_id r s p
        → (e : LedgerTransitionInvalid) × (transition doc_id r s ≡ (err (transition_invalid e), s))
          × (e.observed_row ≡ some row)
    by_effect (ok new, s') same (current, here, a, made, fields, wrote) =
        let old : current ≡ row = ground arith in
        absurd (barred (subst (λ x. Allowed x r.to_status r.stage r.error_code) old a))
    by_effect (err (identity_invalid x), s') same e = cc e.0
    by_effect (err (transition_invalid x), s') same e =
        (x, same ∙ ap (λ t. (err (transition_invalid x), t)) e.2, e.0.1 ∙ found)
    by_effect (err assertion_failed, s') same e = absurd e.0
    by_effect (err value_error, s') same e = absurd e.0
