-- ===== src/Ledger/Distinct.antt =====
-- The ids of the documents that `list_by_status` lists.
use vestibule.Prelude.{
  ◌≡◌, ◌≢◌, sym, ◌∙◌, String, Bool-cases, inl, inr, none, List, [], ◌∷◌, arith, All, All-imp, Apart,
  Apart-keep, Apart-if_take, ℤ, leb, is_nonpos, pos_part, keep,
}
use vestibule.Dict.{Dict, lookup, values, IsKeyed}
use vestibule.Ledger.Model.{Status, LedgerRow}
use vestibule.Ledger.Store.{InMemoryLedgerStore, equals, insert_newest, sort_newest, list_by_status}
use vestibule.Ledger.Invariant.{IsRow, IsValid}
use vestibule.Ledger.Listing.{All-insert_newest}
use vestibule.Ledger.Stored.{All-sort_newest}

abbrev pub id_of : LedgerRow → String
id_of row = row.doc_id

absent :
    (k : String) (d : Dict LedgerRow)
    → lookup k d ≡ none
    → All IsRow d
    → All (λ row. k ≢ id_of row) (values d)
unfolding lookup
absent k [] h rows = tt
absent k (e ∷ d) h rows =
    (λ same. ground (arith, h, same, rows.0.keyed), absent k d (ground (arith, h)) rows.1)

values-Apart : (d : Dict LedgerRow) → IsKeyed d → All IsRow d → Apart id_of (values d)
values-Apart [] h rows = tt
values-Apart (e ∷ d) h rows = (
  All-imp (λ row. e.0 ≢ id_of row) (λ row. id_of e.1 ≢ id_of row)
      (λ row other same. other (sym rows.0.keyed ∙ same)) (values d) (absent e.0 d h.0 rows.1),
  values-Apart d h.1 rows.1,
)

insert_newest-Apart :
    (x : LedgerRow) (xs : List LedgerRow)
    → All (λ y. id_of x ≢ id_of y) xs
    → Apart id_of xs
    → Apart id_of (insert_newest x xs)
unfolding insert_newest
insert_newest-Apart x [] h apart = (tt, tt)
insert_newest-Apart x (y ∷ ys) h apart = elim (Bool-cases (leb y.updated_at x.updated_at)) [
  | inl older ↦ rw older (h, apart)
  | inr newer ↦ rw newer (
    All-insert_newest (λ z. id_of y ≢ id_of z) x ys (λ same. h.0 (sym same)) apart.0,
    insert_newest-Apart x ys h.1 apart.1,
  )
]

sort_newest-Apart : (xs : List LedgerRow) → Apart id_of xs → Apart id_of (sort_newest xs)
unfolding sort_newest
sort_newest-Apart [] h = tt
sort_newest-Apart (x ∷ xs) h =
    insert_newest-Apart x (sort_newest xs) (All-sort_newest (λ y. id_of x ≢ id_of y) xs h.0)
      (sort_newest-Apart xs h.1)

-- In a valid ledger, the listed rows are of different documents.
pub list_by_status-Apart :
    (status : Status) (limit : ℤ) (s : InMemoryLedgerStore)
    → IsValid s
    → Apart id_of (list_by_status status limit s)
unfolding list_by_status
list_by_status-Apart status limit s h = Apart-if_take id_of (is_nonpos limit) (pos_part limit) _ (
    sort_newest-Apart (keep (λ row. equals row.status status) (values s.rows)) (
      Apart-keep id_of (λ row. equals row.status status) (values s.rows)
        (values-Apart s.rows h.distinct h.rows_hold)))
