-- ===== src/Reprocessor/Candidates.antt =====
-- The candidates that `list_failed` gives a batch.
use vestibule.Prelude.{
  All-keep, Apart, Apart-keep, Apart-if_take, ◌≢◌, ℕ, ◌≤◌, String, ◌≡◌, Bool, true, false, Option,
  none, some, List, [], ◌∷◌, map, arith, All, All-take, ℤ, pos, negsuc, min_ℤ, is_nonpos, pos_part,
  take, length, length-take, if◌then◌else◌,
}
use vestibule.Dict.{lookup}
use vestibule.Errors.{ErrorRegistry}
use vestibule.Ledger.Model.{failed, LedgerRow}
use vestibule.Ledger.Store.{InMemoryLedgerStore, list_by_status, get}
use vestibule.Ledger.Invariant.{IsValid}
use vestibule.Ledger.Distinct.{id_of, list_by_status-Apart}
use vestibule.Ledger.Stored.{list_by_status-stored}
use vestibule.Reprocessor.{
  FailedItem, scan_limit, list_failed, failed_items, to_failed_item, keep_if_given,
}

-- The item's document is in the ledger, and failed.
abbrev pub IsFailed : InMemoryLedgerStore → FailedItem → Type 0
IsFailed s item = (row : LedgerRow) × (lookup item.doc_id s.rows ≡ some row) × (row.status ≡ failed)

abbrev pub doc_id_of : FailedItem → String
doc_id_of item = item.doc_id

module _ (P : FailedItem → Type 0) where
  All-given :
      {A : Type 0} (o : Option A) (test : A → FailedItem → Bool) (xs : List FailedItem)
      → All P xs
      → All P (keep_if_given o test xs)
  All-given none test xs h = h
  All-given (some a) test xs h = All-keep P (test a) xs h

  All-if-take :
      (b : Bool) (n : ℕ) (xs : List FailedItem) → All P xs → All P (if b then [] else take n xs)
  All-if-take true n xs h = tt
  All-if-take false n xs h = All-take P n xs h

items-IsFailed :
    (reg : ErrorRegistry) (s : InMemoryLedgerStore) (rows : List LedgerRow)
    → All (λ row. (get row.doc_id s ≡ some row) × (row.status ≡ failed)) rows
    → All (IsFailed s) (map (to_failed_item reg) rows)
unfolding to_failed_item get
items-IsFailed reg s [] h = tt
items-IsFailed reg s (row ∷ rows) h = ((row, h.0.0, h.0.1), items-IsFailed reg s rows h.1)

pub list_failed-IsFailed :
    (reg : ErrorRegistry) (limit : ℤ) (error_code stage : Option String) (since : Option ℕ)
    (s : InMemoryLedgerStore)
    → IsValid s
    → All (IsFailed s) (list_failed reg limit error_code stage since s)
unfolding list_failed failed_items
list_failed-IsFailed reg limit error_code stage since s valid =
    All-if-take (IsFailed s) (is_nonpos limit) (pos_part limit) _ (
      All-given (IsFailed s) since _ _ (
        All-given (IsFailed s) stage _ _ (
          All-given (IsFailed s) error_code _ _ (
            items-IsFailed reg s (list_by_status failed scan_limit s)
              (list_by_status-stored failed scan_limit s valid)))))

given-Apart :
    {A : Type 0} (o : Option A) (test : A → FailedItem → Bool) (xs : List FailedItem)
    → Apart doc_id_of xs
    → Apart doc_id_of (keep_if_given o test xs)
given-Apart none test xs h = h
given-Apart (some a) test xs h = Apart-keep doc_id_of (test a) xs h

items-other :
    (reg : ErrorRegistry) (doc_id : String) (rows : List LedgerRow)
    → All (λ row. doc_id ≢ id_of row) rows
    → All (λ item. doc_id ≢ doc_id_of item) (map (to_failed_item reg) rows)
unfolding to_failed_item
items-other reg doc_id [] h = tt
items-other reg doc_id (row ∷ rows) h = (h.0, items-other reg doc_id rows h.1)

items-Apart :
    (reg : ErrorRegistry) (rows : List LedgerRow)
    → Apart id_of rows
    → Apart doc_id_of (map (to_failed_item reg) rows)
unfolding to_failed_item
items-Apart reg [] h = tt
items-Apart reg (row ∷ rows) h = (items-other reg row.doc_id rows h.0, items-Apart reg rows h.1)

-- In a valid ledger, the items are of different documents.
pub list_failed-Apart :
    (reg : ErrorRegistry) (limit : ℤ) (error_code stage : Option String) (since : Option ℕ)
    (s : InMemoryLedgerStore)
    → IsValid s
    → Apart doc_id_of (list_failed reg limit error_code stage since s)
unfolding list_failed failed_items
list_failed-Apart reg limit error_code stage since s valid =
    Apart-if_take doc_id_of (is_nonpos limit) (pos_part limit) _ (
      given-Apart since _ _ (
        given-Apart stage _ _ (
          given-Apart error_code _ _ (
            items-Apart reg (list_by_status failed scan_limit s)
              (list_by_status-Apart failed scan_limit s valid)))))

if-take_le : (b : Bool) (n : ℕ) (xs : List FailedItem) → length (if b then [] else take n xs) ≤ n
if-take_le true n xs = omega arith
if-take_le false n xs = omega (arith, length-take n xs)

min_ℤ_le : (limit : ℤ) (n : ℕ) → pos_part (min_ℤ limit n) ≤ n
min_ℤ_le (pos a) n = omega arith
min_ℤ_le (negsuc a) n = omega arith

pub list_failed_le :
    (reg : ErrorRegistry) (limit : ℤ) (n : ℕ) (code : Option String) (s : InMemoryLedgerStore)
    → length (list_failed reg (min_ℤ limit n) code none none s) ≤ n
unfolding list_failed
list_failed_le reg limit n code s = omega (
  arith,
  if-take_le (is_nonpos (min_ℤ limit n)) (pos_part (min_ℤ limit n))
      (failed_items reg code none none s),
  min_ℤ_le limit n,
)
