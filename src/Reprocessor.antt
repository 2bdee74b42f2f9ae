-- ===== src/Reprocessor.antt =====
-- src/vestibule/reprocessor/reprocessor.py and model.py: operator tooling over failed rows.
-- Between the lock of `ledger.get` and that of `ledger.transition` other threads may run: they are
-- the argument `others`, any change of the store. Logging is left out.
pub mod Actions
pub mod Refusal
pub mod Requeue
pub mod Candidates
pub mod Batch
pub mod Archive
pub mod Report
mod Tests
use text.Mathlib.Text.{starts_with}
use vestibule.Prelude.{
  ℕ, ◌+◌, suc, String, ◌⧺◌, Bool, true, false, Option, none, some, List, [], ◌∷◌, ◌++◌, map,
  Outcome, ok, err, ite, if◌then◌else◌, ℤ, pos, pos_part, is_nonpos, min_ℤ, take, keep, leb, ltb,
  string_discrete, length,
}
use vestibule.Dict.{Dict, lookup, insert}
use vestibule.Identity.{is_empty}
use vestibule.Errors.{Severity, ErrorRegistry, classify}
use vestibule.Ledger.Model.{
  Status, pending, failed, archived, Status-discrete, status_value, LedgerRow,
  LedgerTransitionInvalid, LedgerError, transition_invalid, assertion_failed, value_error,
}
use vestibule.Ledger.Store.{
  InMemoryLedgerStore, Request, is_benign_concurrent_loss, transition, get, list_by_status,
}

pub data ReprocessCode : Type 0 where
  reprocess_not_failed reprocess_doc_not_found : ReprocessCode

-- `ReprocessorError`, or what the ledger raised.
pub data Raised : Type 0 where
  reprocessor_error : (doc_id reason : String) → ReprocessCode → Raised
  from_ledger : LedgerError → Raised

pub record FailedItem : Type 0 where
  pub doc_id : String
  pub source : Option String
  pub blob_path : Option String
  pub stage : String
  pub error_code : String
  pub error_message : Option String
  pub severity : Severity
  pub attempts : ℕ
  pub failed_at : ℕ
  pub first_ingested_at : ℕ
  pub assigned_scenario_id : Option String

pub record FailureSummary : Type 0 where
  pub total : ℕ
  pub by_error_code : Dict ℕ
  pub by_stage : Dict ℕ
  pub oldest_failure_at : Option ℕ
  pub newest_failure_at : Option ℕ

pub record RequeueResult : Type 0 where
  pub doc_id : String
  pub previous_error_code : String
  pub requeued_at : ℕ

pub record BatchRequeueResult : Type 0 where
  pub error_code : String
  pub requeued : List String
  pub skipped : List String

-- `_SCAN_LIMIT`
abbrev pub scan_limit : ℤ
scan_limit = pos 10_000

-- `_DEFAULT_LIST_LIMIT`
abbrev pub default_list_limit : ℤ
default_list_limit = pos 100

-- `_STAGE_PREFIXES`
abbrev pub stage_prefixes : List (String × String)
stage_prefixes =
    ("ANALYZER_", "analyzing")
    ∷ ("PARSER_", "analyzing")
    ∷ ("DOCINT_", "analyzing")
    ∷ ("CHUNKER_", "chunking")
    ∷ ("TOKENIZER_", "chunking")
    ∷ ("EMBEDDER_", "embedding")
    ∷ ("INDEXER_", "indexing")
    ∷ []

-- The loop of `_infer_stage`.
unfoldable pub stage_of : List (String × String) → String → String
stage_of [] error_code = "unknown"
stage_of ((prefix, stage) ∷ rest) error_code =
    let later = stage_of rest error_code in if starts_with error_code prefix then stage else later

unfoldable pub infer_stage : String → String
unfolding stage_of
infer_stage error_code = stage_of stage_prefixes error_code

-- `row.last_error_code or _UNKNOWN_ERROR_CODE`
unfoldable pub code_or_unknown : Option String → String
code_or_unknown none = "UNKNOWN"
code_or_unknown (some code) = if is_empty code then "UNKNOWN" else code

unfoldable pub to_failed_item : ErrorRegistry → LedgerRow → FailedItem
to_failed_item reg row =
    let error_code = code_or_unknown row.last_error_code in
    record {
      doc_id = row.doc_id;
      source = none;
      blob_path = none;
      stage = infer_stage error_code;
      error_code = error_code;
      error_message = row.last_error_message;
      severity = classify error_code reg;
      attempts = row.attempts;
      failed_at = row.updated_at;
      first_ingested_at = row.ingested_at;
      assigned_scenario_id = row.assigned_scenario_id;
    }

-- `if wanted is not None: items = [item for item in items if test(wanted, item)]`
abbrev pub keep_if_given :
    {A : Type 0} → Option A → (A → FailedItem → Bool) → List FailedItem → List FailedItem
keep_if_given none test items = items
keep_if_given (some wanted) test items = keep (test wanted) items

abbrev pub has_code : String → FailedItem → Bool
has_code code item = ite (string_discrete item.error_code code) true false

abbrev pub has_stage : String → FailedItem → Bool
has_stage stage item = ite (string_discrete item.stage stage) true false

abbrev pub failed_since : ℕ → FailedItem → Bool
failed_since since item = leb since item.failed_at

-- The items that `list_failed` counts off.
unfoldable pub failed_items :
    ErrorRegistry → Option String → Option String → Option ℕ → InMemoryLedgerStore → List FailedItem
failed_items reg error_code stage since s = keep_if_given since failed_since (
    keep_if_given stage has_stage (
      keep_if_given error_code has_code
        (map (to_failed_item reg) (list_by_status failed scan_limit s))))

unfoldable pub list_failed :
    ErrorRegistry
    → ℤ
    → Option String
    → Option String
    → Option ℕ
    → InMemoryLedgerStore
    → List FailedItem
unfolding failed_items
list_failed reg limit error_code stage since s =
    if is_nonpos limit
    then []
    else take (pos_part limit) (failed_items reg error_code stage since s)

-- `counts[key] = counts.get(key, 0) + 1`
unfoldable pub bump : String → Dict ℕ → Dict ℕ
bump key counts = insert key (elim (lookup key counts) [ none ↦ 0 | some n ↦ n ] + 1) counts

abbrev pub older : Option ℕ → ℕ → Option ℕ
older none t = some t
older (some u) t = if ltb t u then some t else some u

abbrev pub newer : Option ℕ → ℕ → Option ℕ
newer none t = some t
newer (some u) t = if ltb u t then some t else some u

-- The loop body of `summarize`; `total` is set at the end.
unfoldable pub tally : LedgerRow → FailureSummary → FailureSummary
unfolding bump
tally row acc =
    let error_code = code_or_unknown row.last_error_code in
    record acc {
      by_error_code = bump error_code acc.by_error_code;
      by_stage = bump (infer_stage error_code) acc.by_stage;
      oldest_failure_at = older acc.oldest_failure_at row.updated_at;
      newest_failure_at = newer acc.newest_failure_at row.updated_at;
    }

unfoldable pub tally_all : List LedgerRow → FailureSummary → FailureSummary
tally_all [] acc = acc
tally_all (row ∷ rows) acc = tally_all rows (tally row acc)

unfoldable pub summarize : InMemoryLedgerStore → FailureSummary
unfolding tally_all
summarize s =
    let rows = list_by_status failed scan_limit s in
    tally_all rows (record {
      total = length rows;
      by_error_code = [];
      by_stage = [];
      oldest_failure_at = none;
      newest_failure_at = none;
    })

-- `_require_failed`
unfoldable pub require_failed : String → String → InMemoryLedgerStore → Outcome Raised LedgerRow
require_failed caller doc_id s = elim (get doc_id s) [
  | none ↦ err (
      reprocessor_error doc_id (caller ⧺ "() called for an unknown doc_id") reprocess_doc_not_found)
  | some current ↦ ite (Status-discrete current.status failed) (ok current) (
      err (
        reprocessor_error doc_id
          (caller
            ⧺ "() called for a doc_id not currently failed (status="
            ⧺ status_value current.status
            ⧺ ")")
          reprocess_not_failed))
]
