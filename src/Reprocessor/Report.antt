-- ===== src/Reprocessor/Report.antt =====
-- What `summarize` reports.
use vestibule.Prelude.{
  ℕ, suc, ◌+◌, ◌≤◌, String, ◌≡◌, refl, true, false, Option, none, some, List, [], ◌∷◌, arith, All,
  keep, ite, inl, inr, ◌⊎◌, length, string_discrete, if◌then◌else◌,
}
use vestibule.Dict.{Dict, lookup, lookup-insert}
use vestibule.Ledger.Model.{failed, LedgerRow}
use vestibule.Ledger.Store.{InMemoryLedgerStore, list_by_status}
use vestibule.Reprocessor.{
  FailureSummary, scan_limit, infer_stage, code_or_unknown, bump, tally, tally_all, summarize,
}

-- `counts.get(key, 0)`
abbrev pub count_of : String → Dict ℕ → ℕ
count_of key counts = elim (lookup key counts) [ none ↦ 0 | some n ↦ n ]

-- The rows that a label is given to.
abbrev pub labelled : (LedgerRow → String) → String → List LedgerRow → List LedgerRow
labelled label key rows = keep (λ row. ite (string_discrete (label row) key) true false) rows

abbrev pub code_label : LedgerRow → String
code_label row = code_or_unknown row.last_error_code

abbrev pub stage_label : LedgerRow → String
stage_label row = infer_stage (code_or_unknown row.last_error_code)

count_of-bump :
    (j k : String) (d : Dict ℕ)
    → count_of j (bump k d)
      ≡ (if ite (string_discrete k j) true false then suc (count_of j d) else count_of j d)
unfolding bump
count_of-bump j k d = ground (arith, lookup-insert j k (count_of k d + 1) d)

module _ (j : String) where
  codes-counted :
      (rows : List LedgerRow) (acc : FailureSummary)
      → count_of j (tally_all rows acc).by_error_code
        ≡ count_of j acc.by_error_code + length (labelled code_label j rows)
  unfolding tally_all tally
  codes-counted [] acc = omega arith
  codes-counted (row ∷ rows) acc = ground (
    arith,
    codes-counted rows (tally row acc),
    count_of-bump j (code_label row) acc.by_error_code,
  )

  stages-counted :
      (rows : List LedgerRow) (acc : FailureSummary)
      → count_of j (tally_all rows acc).by_stage
        ≡ count_of j acc.by_stage + length (labelled stage_label j rows)
  unfolding tally_all tally
  stages-counted [] acc = omega arith
  stages-counted (row ∷ rows) acc =
      ground
        (arith, stages-counted rows (tally row acc), count_of-bump j (stage_label row) acc.by_stage)

total-kept : (rows : List LedgerRow) (acc : FailureSummary) → (tally_all rows acc).total ≡ acc.total
unfolding tally_all tally
total-kept [] acc = refl
total-kept (row ∷ rows) acc = total-kept rows (tally row acc)

-- The two times are there and enclose `t`.
abbrev pub Encloses : Option ℕ → Option ℕ → ℕ → Type 0
Encloses (some a) (some b) t = (a ≤ t) × (t ≤ b)
Encloses _ _ t = ⊥

tally-Encloses :
    (row : LedgerRow) (acc : FailureSummary) (t : ℕ)
    → Encloses acc.oldest_failure_at acc.newest_failure_at t
    → Encloses (tally row acc).oldest_failure_at (tally row acc).newest_failure_at t
unfolding tally
tally-Encloses row acc t h = ground arith

own-Encloses :
    (row : LedgerRow) (acc : FailureSummary)
    → Encloses (tally row acc).oldest_failure_at (tally row acc).newest_failure_at row.updated_at
unfolding tally
own-Encloses row acc = ground arith

all-Encloses :
    (rows : List LedgerRow) (acc : FailureSummary) (t : ℕ)
    → Encloses acc.oldest_failure_at acc.newest_failure_at t
    → Encloses (tally_all rows acc).oldest_failure_at (tally_all rows acc).newest_failure_at t
unfolding tally_all
all-Encloses [] acc t h = h
all-Encloses (row ∷ rows) acc t h = all-Encloses rows (tally row acc) t (tally-Encloses row acc t h)

rows-Encloses :
    (rows : List LedgerRow) (acc : FailureSummary)
    → All
        (λ r.
          Encloses
            (tally_all rows acc).oldest_failure_at
            (tally_all rows acc).newest_failure_at
            r.updated_at)
        rows
unfolding tally_all
rows-Encloses [] acc = tt
rows-Encloses (row ∷ rows) acc = (
  all-Encloses rows (tally row acc) row.updated_at (own-Encloses row acc),
  rows-Encloses rows (tally row acc),
)

-- A time that one of the rows has.
abbrev pub IsTimeOf : Option ℕ → List LedgerRow → Type 0
IsTimeOf o [] = ⊥
IsTimeOf o (row ∷ rows) = (o ≡ some row.updated_at) ⊎ IsTimeOf o rows

-- Each end of the final interval was there before, or is the time of a row.
attained :
    (rows : List LedgerRow) (acc : FailureSummary)
    → let res = tally_all rows acc in
      ((res.oldest_failure_at ≡ acc.oldest_failure_at) ⊎ IsTimeOf res.oldest_failure_at rows)
      × ((res.newest_failure_at ≡ acc.newest_failure_at) ⊎ IsTimeOf res.newest_failure_at rows)
unfolding tally_all tally
attained [] acc = (inl refl, inl refl)
attained (row ∷ rows) acc = ground (arith, attained rows (tally row acc))

given :
    {P Q : Type 0} (a b : Option ℕ) (t : ℕ)
    → Encloses a b t
    → ((a ≡ none) ⊎ P) × ((b ≡ none) ⊎ Q)
    → P × Q
given (some a) (some b) t h (inr p, inr q) = (p, q)
given (some a) (some b) t h (inl n, _) = cc
given (some a) (some b) t h (inr p, inl n) = cc
given none b t h _ = absurd h
given (some a) none t h _ = absurd h

-- What the summary must say of the rows.
pub record IsSummary (rows : List LedgerRow) (summary : FailureSummary) : Type 0 where
  pub totalled : summary.total ≡ length rows
  pub by_code :
      (code : String) → count_of code summary.by_error_code ≡ length (labelled code_label code rows)
  pub by_stage :
      (stage : String) → count_of stage summary.by_stage ≡ length (labelled stage_label stage rows)
  pub enclosed :
      All (λ row. Encloses summary.oldest_failure_at summary.newest_failure_at row.updated_at) rows
  pub attained_both :
      ((rows ≡ []) × (summary.oldest_failure_at ≡ none) × (summary.newest_failure_at ≡ none))
      ⊎ (IsTimeOf summary.oldest_failure_at rows × IsTimeOf summary.newest_failure_at rows)

-- The summary counts exactly the failed rows that one listing of the ledger gives: their number,
-- how many of them have each error code and each stage that a code belongs to, and the earliest
-- and the latest time of failure, which are there exactly when there is a row.
summarize-IsSummary :
    (s : InMemoryLedgerStore) → IsSummary (list_by_status failed scan_limit s) (summarize s)
unfolding summarize lookup
summarize-IsSummary s = record {
  totalled = total-kept rows start;
  by_code = λ code. omega (arith, codes-counted code rows start);
  by_stage = λ stage. omega (arith, stages-counted stage rows start);
  enclosed = rows-Encloses rows start;
  attained_both = both rows (rows-Encloses rows start) (attained rows start);
}
  where
    rows : List LedgerRow
    rows = list_by_status failed scan_limit s

    start : FailureSummary
    start = record {
      total = length rows;
      by_error_code = [];
      by_stage = [];
      oldest_failure_at = none;
      newest_failure_at = none;
    }

    both :
        (xs : List LedgerRow)
        → let res = tally_all xs start in
          All (λ row. Encloses res.oldest_failure_at res.newest_failure_at row.updated_at) xs
          → ((res.oldest_failure_at ≡ none) ⊎ IsTimeOf res.oldest_failure_at xs)
            × ((res.newest_failure_at ≡ none) ⊎ IsTimeOf res.newest_failure_at xs)
          → ((xs ≡ []) × (res.oldest_failure_at ≡ none) × (res.newest_failure_at ≡ none))
            ⊎ (IsTimeOf res.oldest_failure_at xs × IsTimeOf res.newest_failure_at xs)
    both [] e a = inl (refl, refl, refl)
    both (x ∷ xs) e a = inr (given _ _ x.updated_at e.0 a)
