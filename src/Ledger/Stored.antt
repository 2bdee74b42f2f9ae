-- ===== src/Ledger/Stored.antt =====
-- The listed rows are the stored ones.
use vestibule.Prelude.{
  String, ◌≡◌, ◌∙◌, ap, Bool, true, false, none, some, List, [], ◌∷◌, arith, All, All-imp, All-take,
  keep, Bool-cases, inl, inr, ℤ, is_nonpos, pos_part, take, if◌then◌else◌,
}
use vestibule.Dict.{Dict, lookup, values, IsKeyed}
use vestibule.Ledger.Model.{Status, LedgerRow}
use vestibule.Ledger.Store.{InMemoryLedgerStore, equals, sort_newest, list_by_status, get}
use vestibule.Ledger.Invariant.{IsRow, IsValid}
use vestibule.Ledger.Listing.{All-insert_newest}

module _ {V : Type 0} where
  -- What a fresh key in front leaves of the entries below it.
  below :
      (k : String) (v : V) (d : Dict V)
      → lookup k d ≡ none
      → (e : String × V) → lookup e.0 d ≡ some e.1
      → lookup e.0 ((k, v) ∷ d) ≡ some e.1
  unfolding lookup
  below k v d fresh e found = ground (arith, found, fresh)

  -- In a dict whose keys differ, each entry is what its key gives.
  pub entries-lookup : (d : Dict V) → IsKeyed d → All (λ e. lookup e.0 d ≡ some e.1) d
  unfolding lookup
  entries-lookup [] h = tt
  entries-lookup (e ∷ d) h =
      (ground arith, All-imp _ _ (below e.0 e.1 d h.0) d (entries-lookup d h.1))

module _ (P : LedgerRow → Type 0) where
  pub All-sort_newest : (xs : List LedgerRow) → All P xs → All P (sort_newest xs)
  unfolding sort_newest
  All-sort_newest [] h = tt
  All-sort_newest (x ∷ xs) h = All-insert_newest P x (sort_newest xs) h.0 (All-sort_newest xs h.1)

  All-kept :
      (test : LedgerRow → Bool) (xs : List LedgerRow)
      → All P xs
      → All (λ x. P x × (test x ≡ true)) (keep test xs)
  All-kept test [] h = tt
  All-kept test (x ∷ xs) h = elim (Bool-cases (test x)) [
    | inl passes ↦ rw passes ((h.0, passes), All-kept test xs h.1)
    | inr fails ↦ rw fails (All-kept test xs h.1)
  ]

-- A row that is stored under its own id.
abbrev pub IsStored : InMemoryLedgerStore → LedgerRow → Type 0
IsStored s row = lookup row.doc_id s.rows ≡ some row

values-IsStored : (s : InMemoryLedgerStore) → IsValid s → All (IsStored s) (values s.rows)
values-IsStored s h = over s.rows (entries-lookup s.rows h.distinct) h.rows_hold
  where
    over :
        (d : Dict LedgerRow)
        → All (λ e. lookup e.0 s.rows ≡ some e.1) d
        → All IsRow d
        → All (IsStored s) (values d)
    over [] a b = tt
    over (e ∷ d) a b = (ap (λ k. lookup k s.rows) b.0.keyed ∙ a.0, over d a.1 b.1)

-- In a valid ledger, whatever the limit, each listed row has the status asked for and is the row
-- that `get` gives for its own `doc_id`.
pub list_by_status-stored :
    (status : Status) (limit : ℤ) (s : InMemoryLedgerStore)
    → IsValid s
    → All
        (λ row. (get row.doc_id s ≡ some row) × (row.status ≡ status))
        (list_by_status status limit s)
unfolding list_by_status get
list_by_status-stored status limit s h = by_limit (is_nonpos limit)
  where
    rows : List LedgerRow
    rows = sort_newest (keep (λ row. equals row.status status) (values s.rows))

    decided :
        (x : LedgerRow)
        → IsStored s x × (equals x.status status ≡ true)
        → IsStored s x × (x.status ≡ status)
    decided x k = (k.0, ground (arith, k.1))

    listed : All (λ x. IsStored s x × (x.status ≡ status)) rows
    listed = All-sort_newest _ (keep (λ row. equals row.status status) (values s.rows)) (
        All-imp _ _ decided _ (
          All-kept (IsStored s) (λ row. equals row.status status) (values s.rows)
            (values-IsStored s h)))

    by_limit :
        (b : Bool)
        → All
            (λ x. IsStored s x × (x.status ≡ status))
            (if b then [] else take (pos_part limit) rows)
    by_limit true = tt
    by_limit false = All-take _ (pos_part limit) rows listed
