-- ===== src/Reprocessor/Tests.antt =====
-- The theorems on the reprocessor at concrete ledgers.
use vestibule.Prelude.{◌≤◌, map, All, ◌≡◌, refl, none, some, [], ok, pos, length, min_ℤ}
use vestibule.Ledger.Model.{Status, analyzing, failed}
use vestibule.Reprocessor.{code_or_unknown, list_failed}
use vestibule.Reprocessor.Actions.{alone, Others, requeue, requeue_by_error_code}
use vestibule.Reprocessor.Requeue.{Raced, requeue-Raced}
use vestibule.Reprocessor.Batch.{IsRequeued, Elsewhere, requeue_by_error_code_completes}
use vestibule.Reprocessor.Candidates.{IsFailed, doc_id_of}
use vestibule.Samples.{doc_a, row_at, ledger_at, ledger_at-IsValid, ledger_at-lookup}

-- Another thread that has put the document at this status.
abbrev meanwhile : Status → Others
meanwhile status s = ledger_at status

requeue-Raced_example :
    Raced doc_a "PARSER_BROKEN"
      (row_at analyzing)
      (ledger_at analyzing)
      (requeue (meanwhile analyzing) doc_a (ledger_at failed))
unfolding code_or_unknown
requeue-Raced_example =
    requeue-Raced (meanwhile analyzing) doc_a (ledger_at failed) (row_at failed) (row_at analyzing)
      (ledger_at-lookup failed) refl (ledger_at-IsValid analyzing) (ledger_at-lookup analyzing)

requeue_by_error_code_completes_example :
    let candidates =
      list_failed [] (min_ℤ (pos 50) 10) (some "PARSER_BROKEN") none none (ledger_at failed) in
    let (r, s') =
      requeue_by_error_code [] 10
        (λ _. alone)
        (λ _. alone)
        "PARSER_BROKEN"
        (pos 50)
        (ledger_at failed) in
    (r
      ≡ ok (record {
        error_code = "PARSER_BROKEN";
        requeued = map doc_id_of candidates;
        skipped = [];
      }))
    × All (IsFailed (ledger_at failed)) candidates
    × All (IsRequeued s') candidates
    × Elsewhere candidates (ledger_at failed) s'
    × (length candidates ≤ 10)
requeue_by_error_code_completes_example =
    requeue_by_error_code_completes [] 10 "PARSER_BROKEN" (pos 50) (ledger_at failed)
      (ledger_at-IsValid failed)
