-- ===== src/Vertical/Checked.antt =====
-- What the construction check of the source mappings rules out.
use vestibule.Prelude.{
  String, ◌≡◌, refl, ◌≢◌, subst, inl, inr, Option, none, some, Option-cases, List, [], ◌∷◌, ◌++◌,
  All, Outcome, Outcome-cases, ok, arith,
}
use vestibule.Ledger.Store.{InMemoryLedgerStore}
use vestibule.Scenario.{ScenarioStore}
use vestibule.Vertical.Model.{
  ArrivalEnvelope, VerticalResolution, Raised, SourceMappingRule, Python,
}
use vestibule.Vertical.Rules.{select_source_rule}
use vestibule.Vertical.Resolve.{
  validate_mappings, assigned_scenario_id, apply_rule, unresolved_resolution, match_source_mapping,
  resolve_from, resolve,
}
use vestibule.Vertical.Choice.{Selected, select_source_rule-Selected}

-- What the construction check has found of the rules.
abbrev Served : ScenarioStore → SourceMappingRule → Type 0
Served store r = store.get_by_vertical r.vertical ≢ none

checked :
    (py : Python) (store : ScenarioStore) (rules : List SourceMappingRule)
    → validate_mappings py store rules ≡ ok tt
    → All (Served store) rules
unfolding validate_mappings
checked py store [] h = tt
checked py store (r ∷ rules) h = elim (Option-cases (store.get_by_vertical r.vertical)) [
  | inl missing ↦ absurd (ground (arith, missing))
  | inr (sc, found) ↦ (λ e. cc, checked py store rules (ground (arith, found)))
]

All-middle :
    (P : SourceMappingRule → Type 0) (r : SourceMappingRule) (before after : List SourceMappingRule)
    → All P (before ++ r ∷ after)
    → P r
All-middle P r [] after h = h.0
All-middle P r (x ∷ before) after h = All-middle P r before after h.1

-- A chosen rule is one of the rules.
chosen_holds :
    (P : SourceMappingRule → Type 0) (py : Python) (source : String)
    (rules : List SourceMappingRule)
    → All P rules
    → (r : SourceMappingRule) → Selected py source rules (some r)
    → P r
chosen_holds P py source rules h r (inl (before, after, split, _, _)) =
    All-middle P r before after (subst (All P) split h)
chosen_holds P py source rules h r (inr (_, (before, after, split, _, _))) =
    All-middle P r before after (subst (All P) split h)

applied :
    (py : Python) (store : ScenarioStore) (source : String) (r : SourceMappingRule)
    → Served store r
    → (resolution : VerticalResolution) × (apply_rule py store source r ≡ ok resolution)
unfolding apply_rule
applied py store source r served = elim (Outcome-cases (apply_rule py store source r)) [
  | inl returned ↦ returned
  | inr (e, raised) ↦
      absurd (ground (arith, raised, Option-cases (store.get_by_vertical r.vertical)))
]

-- Once the construction check has passed, a document with neither an assignment nor a scenario or
-- vertical of its own is always given a resolution: it is matched or unresolved, and no error is
-- raised as long as the scenario store stays as it was.
checked-resolve :
    (py : Python) (store : ScenarioStore) (rules : List SourceMappingRule)
    (envelope : ArrivalEnvelope) (ledger : InMemoryLedgerStore)
    → validate_mappings py store rules ≡ ok tt
    → assigned_scenario_id envelope.doc_id ledger ≡ none
    → envelope.scenario_id ≡ none
    → envelope.vertical ≡ none
    → (resolution : VerticalResolution) × (resolve py store rules envelope ledger ≡ ok resolution)
unfolding resolve resolve_from match_source_mapping
checked-resolve py store rules envelope ledger valid a s v = rw a (
    rw s (
      rw v (
        by_choice (select_source_rule py envelope.source rules)
          (select_source_rule-Selected py envelope.source rules))))
  where
    by_choice :
        (o : Option SourceMappingRule)
        → Selected py envelope.source rules o
        → (resolution : VerticalResolution) × ((elim o as (λ _. Outcome Raised VerticalResolution) [
          | none ↦ ok (unresolved_resolution py envelope.source)
          | some rule ↦ apply_rule py store envelope.source rule
        ])
            ≡ ok resolution)
    by_choice none chosen = (unresolved_resolution py envelope.source, refl)
    by_choice (some r) chosen = applied py store envelope.source r (
        chosen_holds (Served store) py envelope.source rules (checked py store rules valid) r
          chosen)
