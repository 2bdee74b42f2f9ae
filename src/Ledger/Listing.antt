-- ===== src/Ledger/Listing.antt =====
-- `list_by_status`: what it lists, and in which order.
use mathlib.Core.List.{Perm}
use mathlib.Core.List.Perm
use vestibule.Prelude.{
  ℕ, suc, ◌≤◌, ◌≡◌, Bool, true, Bool-cases, inl, inr, List, [], ◌∷◌, arith, All, take, keep, leb,
  pos,
}
use vestibule.Dict.{values}
use vestibule.Ledger.Model.{Status, LedgerRow}
use vestibule.Ledger.Store.{InMemoryLedgerStore, equals, insert_newest, sort_newest, list_by_status}

-- Newest first: no row is older than one that follows it.
abbrev pub IsNewestFirst : List LedgerRow → Type 0
IsNewestFirst [] = Unit
IsNewestFirst (x ∷ xs) = All (λ y. y.updated_at ≤ x.updated_at) xs × IsNewestFirst xs

insert_newest-perm : (x : LedgerRow) (xs : List LedgerRow) → Perm (insert_newest x xs) (x ∷ xs)
unfolding insert_newest
insert_newest-perm x [] = Perm.refl (x ∷ [])
insert_newest-perm x (y ∷ ys) = elim (Bool-cases (leb y.updated_at x.updated_at)) [
  | inl older ↦ rw older (Perm.refl (x ∷ y ∷ ys))
  | inr newer ↦ rw newer (Perm.trans (Perm.cons y (insert_newest-perm x ys)) (Perm.swap x y ys))
]

pub All-insert_newest :
    (P : LedgerRow → Type 0) (x : LedgerRow) (xs : List LedgerRow)
    → P x
    → All P xs
    → All P (insert_newest x xs)
unfolding insert_newest
All-insert_newest P x [] p h = (p, tt)
All-insert_newest P x (y ∷ ys) p h = elim (Bool-cases (leb y.updated_at x.updated_at)) [
  | inl older ↦ rw older (p, h)
  | inr newer ↦ rw newer (h.0, All-insert_newest P x ys p h.1)
]

at_most_trans :
    (x y : LedgerRow)
    → y.updated_at ≤ x.updated_at
    → (ys : List LedgerRow) → All (λ z. z.updated_at ≤ y.updated_at) ys
    → All (λ z. z.updated_at ≤ x.updated_at) ys
at_most_trans x y h [] p = tt
at_most_trans x y h (z ∷ zs) p = (omega arith, at_most_trans x y h zs p.1)

insert_newest-IsNewestFirst :
    (x : LedgerRow) (xs : List LedgerRow) → IsNewestFirst xs → IsNewestFirst (insert_newest x xs)
unfolding insert_newest
insert_newest-IsNewestFirst x [] h = (tt, tt)
insert_newest-IsNewestFirst x (y ∷ ys) h = elim (Bool-cases (leb y.updated_at x.updated_at)) [
  | inl older ↦ rw older ((ground arith, at_most_trans x y (ground arith) ys h.0), h)
  | inr newer ↦ rw newer (
    All-insert_newest (λ z. z.updated_at ≤ y.updated_at) x ys (ground arith) h.0,
    insert_newest-IsNewestFirst x ys h.1,
  )
]

pub sort_newest-perm : (xs : List LedgerRow) → Perm (sort_newest xs) xs
unfolding sort_newest
sort_newest-perm [] = Perm.refl []
sort_newest-perm (x ∷ xs) =
    Perm.trans (insert_newest-perm x (sort_newest xs)) (Perm.cons x (sort_newest-perm xs))

pub sort_newest-IsNewestFirst : (xs : List LedgerRow) → IsNewestFirst (sort_newest xs)
unfolding sort_newest
sort_newest-IsNewestFirst [] = tt
sort_newest-IsNewestFirst (x ∷ xs) =
    insert_newest-IsNewestFirst x (sort_newest xs) (sort_newest-IsNewestFirst xs)

-- The rows of a status.
abbrev pub matching : Status → InMemoryLedgerStore → List LedgerRow
matching status s = keep (λ row. equals row.status status) (values s.rows)

pub All-keep :
    {A : Type 0} (test : A → Bool) (xs : List A) → All (λ x. test x ≡ true) (keep test xs)
All-keep test [] = tt
All-keep test (x ∷ xs) = elim (Bool-cases (test x)) [
  | inl passes ↦ rw passes (passes, All-keep test xs)
  | inr fails ↦ rw fails (All-keep test xs)
]

-- With a positive limit, the listing is the first `limit` rows of a newest-first arrangement of
-- exactly the rows of that status.
list_by_status-lists :
    (status : Status) (limit : ℕ) (s : InMemoryLedgerStore)
    → (ranked : List LedgerRow) × Perm ranked (matching status s)
      × IsNewestFirst ranked
      × (list_by_status status (pos (suc limit)) s ≡ take (suc limit) ranked)
unfolding list_by_status
list_by_status-lists status limit s = (
  sort_newest (matching status s),
  sort_newest-perm (matching status s),
  sort_newest-IsNewestFirst (matching status s),
  ground arith,
)
