-- ===== src/Vertical/Load.antt =====
-- `load` and `_park` of src/vestibule/vertical/loader.py. Other threads may run between its calls:
-- `before` after the resolution, `within` between the registry's record and the ledger's transition,
-- and `later` is the scenario store when it is read again. Logging is left out.
use vestibule.Prelude.{String, true, false, Option, none, some, [], if◌then◌else◌, Outcome, ok, err}
use vestibule.Ledger.Model.{
  Status, needs_review, LedgerRow, LedgerError, transition_invalid, value_error,
}
use vestibule.Ledger.Store.{Request, is_benign_concurrent_loss, transition}
use vestibule.Scenario.{Scenario, ScenarioStore}
use vestibule.Vertical.Model.{
  ArrivalEnvelope, VerticalResolution, vertical_unresolved, code_text, Raised, vertical_error,
  scenario_not_found, from_ledger, VerticalLoaderConfig, ParkedMetadata, Desk, Others,
  record_parked, Python,
}
use vestibule.Vertical.Rules.{suggest_verticals}
use vestibule.Vertical.Resolve.{resolve}

-- `except LedgerTransitionInvalid as exc: if not is_benign_concurrent_loss(...): raise`, for a
-- transition to `to`: what the call raises, if it raises.
unfoldable pub forgive : Status → Outcome LedgerError LedgerRow → Option Raised
forgive to (ok row) = none
forgive to (err (transition_invalid e)) = elim (is_benign_concurrent_loss e.observed_row to to) [
  | none ↦ some (from_ledger value_error)
  | some false ↦ some (from_ledger (transition_invalid e))
  | some true ↦ none
]
forgive to (err e) = some (from_ledger e)

abbrev pub parked_metadata : VerticalLoaderConfig → ArrivalEnvelope → ParkedMetadata
parked_metadata config envelope = record {
  source = envelope.source;
  blob_path = envelope.blob_path;
  suggested_verticals =
      if config.suggest_verticals
      then suggest_verticals envelope.source config.source_mappings
      else [];
}

abbrev pub park_request : String → Request
park_request reason = record {
  to_status = needs_review;
  stage = needs_review;
  error_code = some (code_text vertical_unresolved);
  error_message = some reason;
  assigned_scenario_id = none;
}

-- `_park` never returns: the exception that it raises.
unfoldable pub park :
    VerticalLoaderConfig → (within : Others) → ArrivalEnvelope → String → Desk → Raised × Desk
unfolding forgive
park config within envelope reason d =
    let unresolved = vertical_error envelope.doc_id reason vertical_unresolved in
    if config.park_unresolved
    then (let d' = within (record d {
      registry = record_parked envelope.doc_id (parked_metadata config envelope) d.registry;
    }) in
        let (r, ledger) = transition envelope.doc_id (park_request reason) d'.ledger in
        (
          elim (forgive needs_review r) [ none ↦ unresolved | some e ↦ e ],
          record d' { ledger = ledger },
        ))
    else (unresolved, d)

unfoldable pub load :
    Python
    → (store later : ScenarioStore) → VerticalLoaderConfig
    → (before within : Others) → ArrivalEnvelope
    → Desk
    → Outcome Raised (Scenario × VerticalResolution) × Desk
unfolding park
load py store later config before within envelope d =
    elim (resolve py store config.source_mappings envelope d.ledger) [
      | err e ↦ (err e, d)
      | ok resolution ↦ elim resolution.scenario_id [
        | none ↦
            let (e, d') = park config within envelope resolution.reason (before d) in (err e, d')
        | some scenario_id ↦ elim (later.get scenario_id) [
          | none ↦ (
            err (
                scenario_not_found scenario_id
                  "scenario no longer exists (concurrent delete between resolve() and load())"),
            d,
          )
          | some scenario ↦ (ok (scenario, resolution), d)
        ]
      ]
    ]
