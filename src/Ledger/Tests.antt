-- ===== src/Ledger/Tests.antt =====
-- The theorems on the ledger at concrete rows and requests.
use vestibule.Prelude.{◌≡◌, refl, ◌↔◌, none, some, List, [], ◌∷◌, ok, true, inr}
use vestibule.Dict.{lookup}
use vestibule.Ledger.Model.{
  pending, analyzing, embedding, chunking, failed, archived, LedgerRow, EnvelopeSummary,
}
use vestibule.Ledger.Store.{
  Request, validate_transition, is_benign_concurrent_loss, transition, create,
}
use vestibule.Ledger.Legal.{Allowed, validate_transition_iff}
use vestibule.Ledger.Effect.{Effect, transition-Effect}
use vestibule.Ledger.Invariant.{IsValid, transition-IsValid, create-IsValid}
use vestibule.Ledger.Triage.{Later, triage_forward}
use vestibule.Ledger.Trace.{
  Call, create_call, transition_call, run, run-IsValid, Descends, run-Descends, final_absorbs,
}
use vestibule.Samples.{
  doc_a, doc_b, row_at, ledger_at, empty_ledger, empty_ledger-IsValid, ledger_at-IsValid,
  ledger_at-lookup,
}

abbrev to_analyzing : Request
to_analyzing = record {
  to_status = analyzing;
  stage = analyzing;
  error_code = none;
  error_message = none;
  assigned_scenario_id = none;
}

abbrev summary : EnvelopeSummary
summary = record { config_version = "v1" }

abbrev calls : List Call
calls =
    create_call doc_a summary
    ∷ transition_call doc_a to_analyzing
    ∷ transition_call doc_b to_analyzing
    ∷ []

validate_transition_iff_example :
    (validate_transition doc_a (some (row_at pending)) analyzing analyzing none ≡ ok tt)
    ↔ Allowed (row_at pending) analyzing analyzing none
validate_transition_iff_example =
    validate_transition_iff doc_a (row_at pending) analyzing analyzing none

transition-Effect_example :
    Effect doc_a to_analyzing
      (ledger_at pending)
      (transition doc_a to_analyzing (ledger_at pending))
transition-Effect_example = transition-Effect doc_a to_analyzing (ledger_at pending)

transition-IsValid_example : IsValid (transition doc_a to_analyzing (ledger_at pending)).1
transition-IsValid_example =
    transition-IsValid doc_a to_analyzing (ledger_at pending) (ledger_at-IsValid pending)

create-IsValid_example : IsValid (create doc_b summary (ledger_at pending)).1
create-IsValid_example =
    create-IsValid doc_b summary (ledger_at pending) (ledger_at-IsValid pending)

run-IsValid_example : IsValid (run calls empty_ledger)
run-IsValid_example = run-IsValid calls empty_ledger empty_ledger-IsValid

run-Descends_example :
    (row' : LedgerRow) × (lookup doc_a (run calls (ledger_at failed)).rows ≡ some row')
    × Descends (row_at failed) row'
run-Descends_example =
    run-Descends doc_a calls (ledger_at failed) (row_at failed) (ledger_at-lookup failed)

final_absorbs_example : lookup doc_a (run calls (ledger_at archived)).rows ≡ some (row_at archived)
final_absorbs_example =
    final_absorbs doc_a calls (ledger_at archived) (row_at archived) (ledger_at-lookup archived)
      (inr refl)

triage_forward_example :
    (is_benign_concurrent_loss (some (row_at embedding)) chunking chunking ≡ some true)
    ↔ Later chunking embedding
triage_forward_example = triage_forward (row_at embedding) chunking refl tt
