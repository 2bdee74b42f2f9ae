-- ===== src/Vertical/Resolve.antt =====
-- The construction check and `resolve` of src/vestibule/vertical/loader.py.
use vestibule.Prelude.{String, ◌⧺◌, Option, none, some, List, [], ◌∷◌, Outcome, ok, err}
use vestibule.Ledger.Store.{InMemoryLedgerStore, get as get_row}
use vestibule.Scenario.{Scenario, ScenarioStore}
use vestibule.Vertical.Model.{
  ArrivalEnvelope, ResolutionSource, review_assignment, envelope_scenario_id, envelope_vertical,
  source_mapping, unresolved, Confidence, explicit, inferred, undecided, VerticalResolution,
  vertical_mapping_invalid, Raised, vertical_error, scenario_not_found, SourceMappingRule, Python,
}
use vestibule.Vertical.Rules.{select_source_rule}

-- `_validate_mappings`
unfoldable pub validate_mappings :
    Python → ScenarioStore → List SourceMappingRule → Outcome Raised (Unit {0})
validate_mappings py store [] = ok tt
validate_mappings py store (rule ∷ rules) = elim (store.get_by_vertical rule.vertical) [
  | none ↦ err (
      vertical_error ""
        ("source mapping match="
          ⧺ py.repr rule.match
          ⧺ " references vertical="
          ⧺ py.repr rule.vertical
          ⧺ ", which has no enabled scenario")
        vertical_mapping_invalid)
  | some _ ↦ validate_mappings py store rules
]

-- The resolution to a scenario that was found.
abbrev pub resolved : Scenario → ResolutionSource → Confidence → String → VerticalResolution
resolved scenario source confidence reason = record {
  vertical = some scenario.vertical;
  scenario_id = some scenario.scenario_id;
  source = source;
  confidence = confidence;
  reason = reason;
}

-- `_assigned_scenario_id`
unfoldable pub assigned_scenario_id : String → InMemoryLedgerStore → Option String
unfolding get_row
assigned_scenario_id doc_id ledger = elim (get_row doc_id ledger) [
  | none ↦ none
  | some row ↦ row.assigned_scenario_id
]

-- `_resolve_review_assignment`
unfoldable pub resolve_review_assignment :
    Python → ScenarioStore → String → Outcome Raised VerticalResolution
resolve_review_assignment py store scenario_id = elim (store.get scenario_id) [
  | none ↦ err (
      scenario_not_found scenario_id (
        "ledger row carries assigned_scenario_id="
        ⧺ py.repr scenario_id
        ⧺ " (from a prior ReviewQueue.assign()), but no such scenario exists"))
  | some scenario ↦ ok (
      resolved scenario review_assignment explicit
        ("human-assigned scenario_id=" ⧺ py.repr scenario_id ⧺ " via ReviewQueue.assign()"))
]

-- `_resolve_scenario_id`
unfoldable pub resolve_scenario_id :
    Python → ScenarioStore → String → Outcome Raised VerticalResolution
resolve_scenario_id py store scenario_id = elim (store.get scenario_id) [
  | none ↦ err (
      scenario_not_found scenario_id
        ("envelope declared scenario_id=" ⧺ py.repr scenario_id ⧺ ", but no such scenario exists"))
  | some scenario ↦ ok (
      resolved scenario envelope_scenario_id explicit
        ("envelope declared scenario_id=" ⧺ py.repr scenario_id))
]

-- `_resolve_vertical`
unfoldable pub resolve_vertical :
    Python → ScenarioStore → String → Outcome Raised VerticalResolution
resolve_vertical py store vertical = elim (store.get_by_vertical vertical) [
  | none ↦ err (
      scenario_not_found vertical (
        "envelope declared vertical="
        ⧺ py.repr vertical
        ⧺ ", but no enabled scenario exists for it"))
  | some scenario ↦ ok (
      resolved scenario envelope_vertical explicit
        ("envelope declared vertical=" ⧺ py.repr vertical))
]

-- `_match_source_mapping` once a rule has been selected.
unfoldable pub apply_rule :
    Python → ScenarioStore → String → SourceMappingRule → Outcome Raised VerticalResolution
apply_rule py store source rule = elim (store.get_by_vertical rule.vertical) [
  | none ↦ err (
      scenario_not_found rule.vertical (
        "source mapping match="
        ⧺ py.repr rule.match
        ⧺ " matched, but vertical="
        ⧺ py.repr rule.vertical
        ⧺ " no longer has an enabled scenario"))
  | some scenario ↦ ok (
      resolved scenario source_mapping inferred
        ("source=" ⧺ py.repr source ⧺ " matched mapping rule match=" ⧺ py.repr rule.match))
]

-- `_unresolved_resolution`
unfoldable pub unresolved_resolution : Python → String → VerticalResolution
unresolved_resolution py source = record {
  vertical = none;
  scenario_id = none;
  source = unresolved;
  confidence = undecided;
  reason =
      "no scenario_id/vertical on the envelope and no source mapping matched source="
      ⧺ py.repr source;
}

-- `_match_source_mapping`, and what `resolve` does when it returns None.
unfoldable pub match_source_mapping :
    Python → ScenarioStore → List SourceMappingRule → String → Outcome Raised VerticalResolution
unfolding apply_rule unresolved_resolution
match_source_mapping py store rules source = elim (select_source_rule py source rules) [
  | none ↦ ok (unresolved_resolution py source)
  | some rule ↦ apply_rule py store source rule
]

-- `resolve` once the ledger has been read.
unfoldable pub resolve_from :
    Python
    → ScenarioStore
    → List SourceMappingRule
    → ArrivalEnvelope
    → (assigned scenario_id vertical : Option String) → Outcome Raised VerticalResolution
unfolding match_source_mapping resolve_review_assignment resolve_scenario_id resolve_vertical
resolve_from py store rules envelope (some assigned) _ _ =
    resolve_review_assignment py store assigned
resolve_from py store rules envelope none (some scenario_id) _ =
    resolve_scenario_id py store scenario_id
resolve_from py store rules envelope none none (some vertical) = resolve_vertical py store vertical
resolve_from py store rules envelope none none none =
    match_source_mapping py store rules envelope.source

unfoldable pub resolve :
    Python
    → ScenarioStore
    → List SourceMappingRule
    → ArrivalEnvelope
    → InMemoryLedgerStore
    → Outcome Raised VerticalResolution
unfolding resolve_from
resolve py store rules envelope ledger =
    resolve_from py store rules envelope (assigned_scenario_id envelope.doc_id ledger)
      envelope.scenario_id envelope.vertical
