-- ===== src/Ledger/Trace.antt =====
-- What holds of a document over any sequence of calls, by whichever threads: each public method
-- holds the lock throughout, so the calls come one after the other.
use vestibule.Prelude.{
  ℕ, String, ◌≡◌, refl, ◌≢◌, ◌⊎◌, Option, none, some, Outcome, ok, err, arith, List, [], ◌∷◌,
  string_discrete, subst,
}
use vestibule.Dict.{lookup, lookup-insert}
use vestibule.Identity.{IdentityInvalid, validate_id_format}
use vestibule.Ledger.Model.{
  Status, indexed, failed, archived, LedgerRow, EnvelopeSummary, LedgerError, identity_invalid,
  transition_invalid, assertion_failed, value_error,
}
use vestibule.Ledger.Store.{
  InMemoryLedgerStore, Request, transition, next_row, now, create, create_checked, fresh_row,
}
use vestibule.Ledger.Legal.{Allowed, Edge, IsLive}
use vestibule.Ledger.Effect.{Effect, transition-Effect}
use vestibule.Ledger.Invariant.{IsValid, transition-IsValid, create-IsValid}

-- A call that may change the store.
pub data Call : Type 0 where
  create_call : String → EnvelopeSummary → Call
  transition_call : String → Request → Call

unfoldable pub step : Call → InMemoryLedgerStore → InMemoryLedgerStore
step (create_call doc_id summary) s = (create doc_id summary s).1
step (transition_call doc_id r) s = (transition doc_id r s).1

unfoldable pub run : List Call → InMemoryLedgerStore → InMemoryLedgerStore
run [] s = s
run (c ∷ cs) s = run cs (step c s)

-- From a valid store, every sequence of calls ends in a valid store.
pub run-IsValid : (cs : List Call) (s : InMemoryLedgerStore) → IsValid s → IsValid (run cs s)
unfolding run step
run-IsValid [] s h = h
run-IsValid (create_call doc_id summary ∷ cs) s h =
    run-IsValid cs (create doc_id summary s).1 (create-IsValid doc_id summary s h)
run-IsValid (transition_call doc_id r ∷ cs) s h =
    run-IsValid cs (transition doc_id r s).1 (transition-IsValid doc_id r s h)

-- Any number of edges of the state machine.
pub data Route (a : Status) : Status → Type 0 where
  stay : Route a a
  move : {b c : Status} → Route a b → Edge b c → Route a c

-- A row and a later row of the same document.
pub record Descends (row row' : LedgerRow) : Type 0 where
  pub route : Route row.status row'.status
  pub same_ingested_at : row'.ingested_at ≡ row.ingested_at
  pub same_config_version : row'.config_version ≡ row.config_version
  pub assigned_stays : row.assigned_scenario_id ≢ none → row'.assigned_scenario_id ≢ none

Descends-refl : (row : LedgerRow) → Descends row row
Descends-refl row = record {
  route = Route.stay;
  same_ingested_at = refl;
  same_config_version = refl;
  assigned_stays = λ h. h;
}

Route-trans : {a b c : Status} → Route a b → Route b c → Route a c
Route-trans p Route.stay = p
Route-trans p (Route.move q e) = Route.move (Route-trans p q) e

Descends-trans : (a b c : LedgerRow) → Descends a b → Descends b c → Descends a c
Descends-trans a b c p q = record {
  route = Route-trans p.route q.route;
  same_ingested_at = ground arith;
  same_config_version = ground arith;
  assigned_stays = λ h. q.assigned_stays (p.assigned_stays h);
}

next_row-Descends :
    (doc_id : String) (row : LedgerRow) (r : Request) (t : ℕ)
    → Allowed row r.to_status r.stage r.error_code
    → Descends row (next_row doc_id row r t)
unfolding next_row
next_row-Descends doc_id row r t a = record {
  route = Route.move Route.stay a.edge;
  same_ingested_at = refl;
  same_config_version = refl;
  assigned_stays = λ h. ground arith;
}

-- What `doc_id`'s row becomes by one call.
Keeps : String → LedgerRow → InMemoryLedgerStore → Type 0
Keeps doc_id row s = (row' : LedgerRow) × (lookup doc_id s.rows ≡ some row') × Descends row row'

transition-Keeps :
    (k doc_id : String) (r : Request) (s : InMemoryLedgerStore) (row : LedgerRow)
    → lookup k s.rows ≡ some row
    → Keeps k row (transition doc_id r s).1
unfolding Keeps
transition-Keeps k doc_id r s row found =
    kept (transition doc_id r s) (transition-Effect doc_id r s)
  where
    kept :
        (p : Outcome LedgerError LedgerRow × InMemoryLedgerStore)
        → Effect doc_id r s p
        → (row' : LedgerRow) × (lookup k p.1.rows ≡ some row') × Descends row row'
    kept (ok new, s') (current, here, allowed, made, fields, wrote) =
        elim (string_discrete doc_id k) [
          | yes same ↦
              let old : current ≡ row = ground arith in
              (
                next_row doc_id current r (now s),
                ground (arith, lookup-insert k doc_id new s.rows),
                subst (λ x. Descends x (next_row doc_id current r (now s))) old
                    (next_row-Descends doc_id current r (now s) allowed),
              )
          | no other ↦ (row, ground (arith, lookup-insert k doc_id new s.rows), Descends-refl row)
        ]
    kept (err (identity_invalid x), s') e = (row, rw e.1 found, Descends-refl row)
    kept (err (transition_invalid x), s') e = (row, rw e.2 found, Descends-refl row)
    kept (err assertion_failed, s') e = (row, rw e.2 found, Descends-refl row)
    kept (err value_error, s') e = (row, rw e.2 found, Descends-refl row)

create-Keeps :
    (k doc_id : String) (summary : EnvelopeSummary) (s : InMemoryLedgerStore) (row : LedgerRow)
    → lookup k s.rows ≡ some row
    → lookup k (create doc_id summary s).1.rows ≡ some row
unfolding create create_checked
create-Keeps k doc_id summary s row found =
    kept (validate_id_format doc_id "doc_id") (lookup doc_id s.rows) refl
  where
    kept :
        (v : Outcome IdentityInvalid String) (existing : Option LedgerRow)
        → lookup doc_id s.rows ≡ existing
        → lookup k
            (elim v as (λ _. Outcome LedgerError LedgerRow × InMemoryLedgerStore) [
              | err e ↦ (err (identity_invalid e), s)
              | ok _ ↦ create_checked doc_id summary existing s
            ]).1.rows
          ≡ some row
    kept (err e) existing h = found
    kept (ok v) (some old) h = found
    kept (ok v) none h =
        ground (arith, lookup-insert k doc_id (fresh_row doc_id summary (now s)) s.rows)

step-Keeps :
    (k : String) (c : Call) (s : InMemoryLedgerStore) (row : LedgerRow)
    → lookup k s.rows ≡ some row
    → Keeps k row (step c s)
unfolding Keeps step
step-Keeps k (create_call doc_id summary) s row found =
    (row, create-Keeps k doc_id summary s row found, Descends-refl row)
step-Keeps k (transition_call doc_id r) s row found = transition-Keeps k doc_id r s row found

-- Over any sequence of calls a document keeps a row, reached by edges of the state machine, with
-- the ingestion time and configuration version of its first, and never without a scenario that
-- had been assigned.
pub run-Descends :
    (k : String) (cs : List Call) (s : InMemoryLedgerStore) (row : LedgerRow)
    → lookup k s.rows ≡ some row
    → (row' : LedgerRow) × (lookup k (run cs s).rows ≡ some row') × Descends row row'
unfolding run Keeps
run-Descends k [] s row found = (row, found, Descends-refl row)
run-Descends k (c ∷ cs) s row found =
    let (mid, there, first) = step-Keeps k c s row found in
    let (last, end, rest) = run-Descends k cs (step c s) mid there in
    (last, end, Descends-trans row mid last first rest)

abbrev pub IsFinal : Status → Type 0
IsFinal s = (s ≡ indexed) ⊎ (s ≡ archived)

live_not-IsFinal : (s : Status) → IsLive s → ¬ IsFinal s
live_not-IsFinal indexed l h = l
live_not-IsFinal archived l h = l
live_not-IsFinal failed l h = l
live_not-IsFinal _ l h = ground arith

no_exit : {s t : Status} → Edge s t → ¬ IsFinal s
no_exit Edge.analyze h = ground arith
no_exit Edge.chunk h = ground arith
no_exit Edge.embed h = ground arith
no_exit Edge.index h = ground arith
no_exit Edge.finish h = ground arith
no_exit (Edge.fail s l) h = live_not-IsFinal s l h
no_exit Edge.park h = ground arith
no_exit Edge.resume h = ground arith
no_exit Edge.requeue h = ground arith
no_exit Edge.archive h = ground arith
no_exit (Edge.retry s l) h = live_not-IsFinal s l h

step_final :
    (k : String) (c : Call) (s : InMemoryLedgerStore) (row : LedgerRow)
    → lookup k s.rows ≡ some row
    → IsFinal row.status
    → lookup k (step c s).rows ≡ some row
unfolding step
step_final k (create_call doc_id summary) s row found h = create-Keeps k doc_id summary s row found
step_final k (transition_call doc_id r) s row found h =
    kept (transition doc_id r s) (transition-Effect doc_id r s)
  where
    kept :
        (p : Outcome LedgerError LedgerRow × InMemoryLedgerStore)
        → Effect doc_id r s p
        → lookup k p.1.rows ≡ some row
    kept (ok new, s') (current, here, allowed, made, fields, wrote) =
        elim (string_discrete doc_id k) [
          | yes same ↦
              let old : row ≡ current = ground arith in
              absurd (no_exit allowed.edge (subst (λ x. IsFinal x.status) old h))
          | no other ↦ ground (arith, lookup-insert k doc_id new s.rows)
        ]
    kept (err (identity_invalid x), s') e = rw e.1 found
    kept (err (transition_invalid x), s') e = rw e.2 found
    kept (err assertion_failed, s') e = rw e.2 found
    kept (err value_error, s') e = rw e.2 found

-- A row that is indexed or archived stays exactly as it is, whatever is called afterwards.
pub final_absorbs :
    (k : String) (cs : List Call) (s : InMemoryLedgerStore) (row : LedgerRow)
    → lookup k s.rows ≡ some row
    → IsFinal row.status
    → lookup k (run cs s).rows ≡ some row
unfolding run
final_absorbs k [] s row found h = found
final_absorbs k (c ∷ cs) s row found h =
    final_absorbs k cs (step c s) row (step_final k c s row found h) h
