-- ===== src/Ledger/Invariant.antt =====
-- What holds of the ledger between two calls.
use vestibule.Prelude.{
  ℕ, ◌<◌, String, ◌≡◌, refl, ◌≢◌, Option, none, some, Outcome, ok, err, arith, All,
}
use vestibule.Dict.{lookup, IsKeyed, insert-IsKeyed, All-insert, All-lookup}
use vestibule.Identity.{IdentityInvalid, validate_id_format}
use vestibule.Ledger.Model.{
  pending, failed, LedgerRow, EnvelopeSummary, LedgerError, identity_invalid, transition_invalid,
  assertion_failed, value_error,
}
use vestibule.Ledger.Store.{
  InMemoryLedgerStore, Request, transition, next_row, now, write, create, create_checked, fresh_row,
}
use vestibule.Ledger.Legal.{Allowed}
use vestibule.Ledger.Effect.{Effect, transition-Effect}

-- A stored row, under its key.
pub record IsRow (e : String × LedgerRow) : Type 0 where
  pub keyed : e.1.doc_id ≡ e.0
  pub formatted : validate_id_format e.0 "doc_id" ≡ ok e.0
  pub staged : e.1.stage ≡ e.1.status
  pub coded : e.1.status ≡ failed → e.1.last_error_code ≢ none
  pub attempted : e.1.status ≢ pending → e.1.status ≢ failed → 0 < e.1.attempts

pub record IsValid (s : InMemoryLedgerStore) : Type 0 where
  pub distinct : IsKeyed s.rows
  pub rows_hold : All IsRow s.rows

fresh_row-IsRow :
    (doc_id : String) (summary : EnvelopeSummary) (t : ℕ)
    → validate_id_format doc_id "doc_id" ≡ ok doc_id
    → IsRow (doc_id, fresh_row doc_id summary t)
unfolding fresh_row
fresh_row-IsRow doc_id summary t h = record {
  keyed = refl;
  formatted = h;
  staged = refl;
  coded = λ e. cc;
  attempted = λ n _. absurd (n refl);
}

next_row-IsRow :
    (doc_id : String) (row : LedgerRow) (r : Request) (t : ℕ)
    → IsRow (doc_id, row)
    → Allowed row r.to_status r.stage r.error_code
    → IsRow (doc_id, next_row doc_id row r t)
unfolding next_row
next_row-IsRow doc_id row r t h a = record {
  keyed = refl;
  formatted = h.formatted;
  staged = a.staged;
  coded = λ e. ground (arith, a.coded e);
  attempted = λ n m. ground arith;
}

-- `validate_id_format` returns the text that it was given.
validated :
    (doc_id v : String)
    → validate_id_format doc_id "doc_id" ≡ ok v
    → validate_id_format doc_id "doc_id" ≡ ok doc_id
unfolding validate_id_format
validated doc_id v h = ground arith

pub write-IsValid :
    (doc_id : String) (row : LedgerRow) (s : InMemoryLedgerStore)
    → IsValid s
    → IsRow (doc_id, row)
    → IsValid (write doc_id row s)
write-IsValid doc_id row s h p = record {
  distinct = insert-IsKeyed doc_id row s.rows h.distinct;
  rows_hold = All-insert IsRow doc_id row s.rows h.rows_hold p;
}

-- Every `transition`, legal or not, keeps the invariant: each document has one row under its own
-- well-formed id, `stage` mirrors `status`, a failed row has an error code, and a row that is
-- neither pending nor failed counts at least one attempt.
pub transition-IsValid :
    (doc_id : String) (r : Request) (s : InMemoryLedgerStore)
    → IsValid s
    → IsValid (transition doc_id r s).1
transition-IsValid doc_id r s h = kept (transition doc_id r s) (transition-Effect doc_id r s)
  where
    kept :
        (p : Outcome LedgerError LedgerRow × InMemoryLedgerStore)
        → Effect doc_id r s p
        → IsValid p.1
    kept (ok row, s') (current, found, allowed, made, fields, wrote) =
        rw (wrote, made)
          (write-IsValid doc_id (next_row doc_id current r (now s)) s h (
            next_row-IsRow doc_id current r (now s)
              (All-lookup IsRow doc_id current s.rows h.rows_hold found) allowed))
    kept (err (identity_invalid x), s') e = rw e.1 h
    kept (err (transition_invalid x), s') e = rw e.2 h
    kept (err assertion_failed, s') e = rw e.2 h
    kept (err value_error, s') e = rw e.2 h

-- `create` keeps the invariant too.
pub create-IsValid :
    (doc_id : String) (summary : EnvelopeSummary) (s : InMemoryLedgerStore)
    → IsValid s
    → IsValid (create doc_id summary s).1
unfolding create
create-IsValid doc_id summary s h =
    kept (validate_id_format doc_id "doc_id") refl (lookup doc_id s.rows)
  where
    kept :
        (v : Outcome IdentityInvalid String)
        → validate_id_format doc_id "doc_id" ≡ v
        → (existing : Option LedgerRow)
        → IsValid
            (elim v as (λ _. Outcome LedgerError LedgerRow × InMemoryLedgerStore) [
              | err e ↦ (err (identity_invalid e), s)
              | ok _ ↦ create_checked doc_id summary existing s
            ]).1
    kept (err e) bad existing = h
    kept (ok v) good (some row) = h
    kept (ok v) good none =
        write-IsValid doc_id (fresh_row doc_id summary (now s)) s h
          (fresh_row-IsRow doc_id summary (now s) (validated doc_id v good))
