-- ===== src/Ledger/Store.antt =====
-- `validate_transition`, `is_benign_concurrent_loss` and `InMemoryLedgerStore`. A method takes the
-- store and returns it with what it returned or raised. `datetime.now` reads the store's clock,
-- which is any sequence of times.
use vestibule.Prelude.{
  ℕ, suc, ◌+◌, String, ◌⧺◌, Bool, true, false, ◌&&◌, ◌||◌, not, List, [], ◌∷◌, Option, none, some,
  ite, Outcome, ok, err, ◌>>◌, raise_if, leb, ℤ, pos_part, is_nonpos, if◌then◌else◌, take, keep,
}
use vestibule.Dict.{Dict, lookup, insert, values}
use vestibule.Identity.{validate_id_format}
use vestibule.Ledger.Model.{
  Status, pending, indexed, failed, needs_review, archived, status_value, Status-discrete, contains,
  terminal_statuses, legal_transitions, forward_order, LedgerRow, EnvelopeSummary, LedgerError,
  identity_invalid, transition_invalid, assertion_failed,
}

abbrev pub equals : Status → Status → Bool
equals s t = ite (Status-discrete s t) true false

-- `xs.index(s)`; `none` stands for the `ValueError` of a missing item
abbrev pub index : Status → List Status → Option ℕ
index s [] = none
index s (x ∷ xs) =
    let rest = index s xs in
    ite (Status-discrete s x) (some 0) (elim rest [ none ↦ none | some i ↦ some (suc i) ])

-- `a >= b` where both `.index` calls returned
abbrev pub at_or_after : Option ℕ → Option ℕ → Option Bool
at_or_after (some a) (some b) = some (leb b a)
at_or_after _ _ = none

-- Steps 4 to 10, on an observed status and an attempted one.
unfoldable pub triage : Status → Status → Option Bool
triage observed to =
    if equals to failed
    then some (equals observed indexed)
    else if equals observed failed
    then some false
    else if equals to needs_review
    then some (not (equals observed pending))
    else if equals observed needs_review
    then some false
    else if equals to archived
    then some (equals observed archived)
    else if equals observed archived
    then some false
    else at_or_after (index observed forward_order) (index to forward_order)

-- `none` would be an escaping `ValueError`.
unfoldable pub is_benign_concurrent_loss : Option LedgerRow → Status → Status → Option Bool
is_benign_concurrent_loss none to stage = some false
is_benign_concurrent_loss (some row) to stage =
    if not (equals stage to)
    then some false
    else if not (equals row.status row.stage)
    then some false
    else triage row.status to

-- The exception that `_reject` raises.
abbrev pub reject : String → String → Option LedgerRow → Status → Status → LedgerError
reject doc_id reason observed_row to stage = transition_invalid (record {
  doc_id = doc_id;
  reason = reason;
  observed_row = observed_row;
  attempted_to_status = to;
  attempted_stage = stage;
})

abbrev pub is_none {ℓ} : {A : Type ℓ} → Option A → Bool
is_none none = true
is_none (some a) = false

-- `from in _TERMINAL_STATUSES and to not in _LEGAL_TRANSITIONS[from]`
unfoldable pub is_closed : Status → Status → Bool
is_closed from to = contains from terminal_statuses && not (contains to (legal_transitions from))

-- `to in _LEGAL_TRANSITIONS[from] or to == from`
unfoldable pub is_legal : Status → Status → Bool
is_legal from to = contains to (legal_transitions from) || equals to from

unfoldable pub validate_transition :
    String → Option LedgerRow → Status → Status → Option String → Outcome LedgerError (Unit {0})
validate_transition doc_id none to stage error_code =
    err (reject doc_id "unknown doc_id" none to stage)
validate_transition doc_id (some row) to stage error_code = do
  raise_if (not (equals stage to)) (reject doc_id "stage must equal to_status" (some row) to stage)
  raise_if (is_closed row.status to)
      (reject doc_id "no transitions out of terminal status" (some row) to stage)
  raise_if (not (is_legal row.status to)) (
      reject doc_id
        ("illegal transition from " ⧺ status_value row.status ⧺ " to " ⧺ status_value to) (some row)
        to stage)
  raise_if (equals to failed && is_none error_code)
      (reject doc_id "error_code required for failed transition" (some row) to stage)

-- `_next_attempts`
unfoldable pub next_attempts : LedgerRow → Status → ℕ
next_attempts current to =
    if equals to failed
    then current.attempts
    else if equals current.status failed && equals to pending
    then 0
    else if equals to current.status
    then current.attempts + 1
    else 1

-- `_next_error_fields`
unfoldable pub next_error_fields :
    LedgerRow → Status → Option String → Option String → Option String × Option String
next_error_fields current to error_code error_message =
    if equals to current.status && is_none error_code
    then (current.last_error_code, current.last_error_message)
    else (error_code, error_message)

-- `_next_assigned_scenario_id`
unfoldable pub next_assigned_scenario_id : LedgerRow → Option String → Option String
next_assigned_scenario_id current none = current.assigned_scenario_id
next_assigned_scenario_id current (some scenario_id) = some scenario_id

-- `clock n` is what the n-th call of `datetime.now` returns, and `reads` counts the calls.
pub record InMemoryLedgerStore : Type 0 where
  pub rows : Dict LedgerRow
  pub clock : ℕ → ℕ
  pub reads : ℕ

-- The arguments of `transition` after `doc_id`.
pub record Request : Type 0 where
  pub to_status : Status
  pub stage : Status
  pub error_code : Option String
  pub error_message : Option String
  pub assigned_scenario_id : Option String

-- The new row that `create` builds.
unfoldable pub fresh_row : String → EnvelopeSummary → ℕ → LedgerRow
fresh_row doc_id summary now = record {
  doc_id = doc_id;
  status = pending;
  stage = pending;
  attempts = 0;
  last_error_code = none;
  last_error_message = none;
  config_version = summary.config_version;
  ingested_at = now;
  updated_at = now;
  assigned_scenario_id = none;
}

-- The new row that `transition` builds.
unfoldable pub next_row : String → LedgerRow → Request → ℕ → LedgerRow
unfolding next_attempts next_error_fields next_assigned_scenario_id
next_row doc_id current r now =
    let (code, message) = next_error_fields current r.to_status r.error_code r.error_message in
    record {
      doc_id = doc_id;
      status = r.to_status;
      stage = r.stage;
      attempts = next_attempts current r.to_status;
      last_error_code = code;
      last_error_message = message;
      config_version = current.config_version;
      ingested_at = current.ingested_at;
      updated_at = now;
      assigned_scenario_id = next_assigned_scenario_id current r.assigned_scenario_id;
    }

abbrev pub now : InMemoryLedgerStore → ℕ
now s = s.clock s.reads

-- `self._rows[doc_id] = row`, after one reading of the clock
abbrev pub write : String → LedgerRow → InMemoryLedgerStore → InMemoryLedgerStore
write doc_id row s = record s { rows = insert doc_id row s.rows; reads = s.reads + 1 }

abbrev pub Action : Type 0 → Type 0
Action A = InMemoryLedgerStore → Outcome LedgerError A × InMemoryLedgerStore

-- `create` once the `doc_id` has been checked
unfoldable pub create_checked : String → EnvelopeSummary → Option LedgerRow → Action LedgerRow
create_checked doc_id summary (some existing) s = (ok existing, s)
create_checked doc_id summary none s =
    let row = fresh_row doc_id summary (now s) in (ok row, write doc_id row s)

unfoldable pub create : String → EnvelopeSummary → Action LedgerRow
unfolding create_checked
create doc_id summary s = elim (validate_id_format doc_id "doc_id") [
  | err e ↦ (err (identity_invalid e), s)
  | ok _ ↦ create_checked doc_id summary (lookup doc_id s.rows) s
]

-- `transition` once it has been found legal; a missing row would fail the `assert`
unfoldable pub apply_transition : String → Request → Option LedgerRow → Action LedgerRow
apply_transition doc_id r none s = (err assertion_failed, s)
apply_transition doc_id r (some current) s =
    let row = next_row doc_id current r (now s) in (ok row, write doc_id row s)

unfoldable pub transition : String → Request → Action LedgerRow
unfolding apply_transition
transition doc_id r s = elim (validate_id_format doc_id "doc_id") [
  | err e ↦ (err (identity_invalid e), s)
  | ok _ ↦
      let current = lookup doc_id s.rows in
      elim (validate_transition doc_id current r.to_status r.stage r.error_code) [
        | err e ↦ (err e, s)
        | ok _ ↦ apply_transition doc_id r current s
      ]
]

unfoldable pub get : String → InMemoryLedgerStore → Option LedgerRow
get doc_id s = lookup doc_id s.rows

-- One step of the stable sort by `updated_at`, newest first.
unfoldable pub insert_newest : LedgerRow → List LedgerRow → List LedgerRow
insert_newest row [] = row ∷ []
insert_newest row (x ∷ xs) =
    if leb x.updated_at row.updated_at then row ∷ x ∷ xs else x ∷ insert_newest row xs

-- `matches.sort(key=lambda row: row.updated_at, reverse=True)`
unfoldable pub sort_newest : List LedgerRow → List LedgerRow
unfolding insert_newest
sort_newest [] = []
sort_newest (x ∷ xs) = insert_newest x (sort_newest xs)

unfoldable pub list_by_status : Status → ℤ → InMemoryLedgerStore → List LedgerRow
unfolding sort_newest
list_by_status status limit s =
    if is_nonpos limit
    then []
    else take (pos_part limit)
        (sort_newest (keep (λ row. equals row.status status) (values s.rows)))
