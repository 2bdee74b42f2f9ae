-- ===== src/Vertical/Mapping.antt =====
-- Which step of `resolve` decides, and what the construction check rules out.
use vestibule.Prelude.{String, ◌≡◌, refl, Option, none, some, List, Outcome, ok, err}
use vestibule.Ledger.Store.{InMemoryLedgerStore}
use vestibule.Scenario.{Scenario, ScenarioStore}
use vestibule.Vertical.Model.{
  ArrivalEnvelope, ResolutionSource, review_assignment, envelope_scenario_id, envelope_vertical,
  source_mapping, unresolved, Confidence, VerticalResolution, Raised, vertical_error,
  scenario_not_found, from_ledger, SourceMappingRule, Python,
}
use vestibule.Vertical.Rules.{select_source_rule}
use vestibule.Vertical.Resolve.{
  resolved, assigned_scenario_id, resolve_review_assignment, resolve_scenario_id, resolve_vertical,
  apply_rule, unresolved_resolution, match_source_mapping, resolve_from, resolve,
}

-- The signal that decides, the most explicit first.
pub data Signal : Type 0 where
  assignment scenario vertical : String → Signal
  mapping : SourceMappingRule → Signal
  nothing : Signal

-- A signal that is given, or the next one.
abbrev or_else : Option String → (String → Signal) → Signal → Signal
or_else none make next = next
or_else (some k) make next = make k

abbrev of_rule : Option SourceMappingRule → Signal
of_rule none = nothing
of_rule (some r) = mapping r

abbrev pub signal : Python → List SourceMappingRule → ArrivalEnvelope → InMemoryLedgerStore → Signal
signal py rules envelope ledger = or_else (assigned_scenario_id envelope.doc_id ledger) assignment (
    or_else envelope.scenario_id scenario
      (or_else envelope.vertical vertical (of_rule (select_source_rule py envelope.source rules))))

-- What that signal looks up, and the name it is recorded under.
abbrev pub sought : ScenarioStore → Signal → Option Scenario
sought store (assignment k) = store.get k
sought store (scenario k) = store.get k
sought store (vertical v) = store.get_by_vertical v
sought store (mapping r) = store.get_by_vertical r.vertical
sought store nothing = none

abbrev pub origin : Signal → ResolutionSource
origin (assignment k) = review_assignment
origin (scenario k) = envelope_scenario_id
origin (vertical v) = envelope_vertical
origin (mapping r) = source_mapping
origin nothing = unresolved

abbrev pub key : Signal → String
key (assignment k) = k
key (scenario k) = k
key (vertical v) = v
key (mapping r) = r.vertical
key nothing = ""

abbrev pub IsDecided : Signal → Type 0
IsDecided nothing = ⊥
IsDecided _ = Unit

-- What `resolve` must return or raise for a signal and what was found for it.
abbrev pub Answer : Signal → Option Scenario → Outcome Raised VerticalResolution → Type 0
Answer sig _ (err (vertical_error d reason c)) = ⊥
Answer sig _ (err (from_ledger e)) = ⊥
Answer sig found (err (scenario_not_found k reason)) =
    IsDecided sig × (k ≡ key sig) × (found ≡ none)
Answer sig none (ok res) =
    (sig ≡ nothing) × (res.source ≡ unresolved) × (res.scenario_id ≡ none) × (res.vertical ≡ none)
Answer sig (some sc) (ok res) =
    (res.source ≡ origin sig)
    × (res.scenario_id ≡ some sc.scenario_id)
    × (res.vertical ≡ some sc.vertical)

-- The shape that the four resolvers share.
found-Answer :
    (sig : Signal) (source : ResolutionSource) (confidence : Confidence) (k missing why : String)
    → IsDecided sig
    → k ≡ key sig
    → source ≡ origin sig
    → (found : Option Scenario)
    → Answer sig found (elim found as (λ _. Outcome Raised VerticalResolution) [
      | none ↦ err (scenario_not_found k missing)
      | some sc ↦ ok (resolved sc source confidence why)
    ])
found-Answer sig source confidence k missing why given named from none = (given, named, refl)
found-Answer sig source confidence k missing why given named from (some sc) = (from, refl, refl)

module _ (py : Python) (store : ScenarioStore) where
  by_assignment :
      (k : String) → Answer (assignment k) (store.get k) (resolve_review_assignment py store k)
  unfolding resolve_review_assignment
  by_assignment k = found-Answer (assignment k) _ _ k _ _ tt refl refl (store.get k)

  by_scenario : (k : String) → Answer (scenario k) (store.get k) (resolve_scenario_id py store k)
  unfolding resolve_scenario_id
  by_scenario k = found-Answer (scenario k) _ _ k _ _ tt refl refl (store.get k)

  by_vertical :
      (v : String) → Answer (vertical v) (store.get_by_vertical v) (resolve_vertical py store v)
  unfolding resolve_vertical
  by_vertical v = found-Answer (vertical v) _ _ v _ _ tt refl refl (store.get_by_vertical v)

  by_rule :
      (source : String) (r : SourceMappingRule)
      → Answer (mapping r) (store.get_by_vertical r.vertical) (apply_rule py store source r)
  unfolding apply_rule
  by_rule source r =
      found-Answer (mapping r) _ _ r.vertical _ _ tt refl refl (store.get_by_vertical r.vertical)

  by_mapping :
      (rules : List SourceMappingRule) (source : String)
      → let sig = of_rule (select_source_rule py source rules) in
        Answer sig (sought store sig) (match_source_mapping py store rules source)
  unfolding match_source_mapping unresolved_resolution
  by_mapping rules source = by_choice (select_source_rule py source rules)
    where
      by_choice :
          (o : Option SourceMappingRule)
          → Answer
              (of_rule o)
              (sought store (of_rule o))
              (elim o as (λ _. Outcome Raised VerticalResolution) [
                | none ↦ ok (unresolved_resolution py source)
                | some rule ↦ apply_rule py store source rule
              ])
      by_choice none = (refl, refl, refl, refl)
      by_choice (some r) = by_rule source r

-- The step that decides is the first whose signal is given: a human's assignment on the ledger
-- row, the envelope's scenario, its vertical, the source mapping. The resolution is what that
-- signal finds in the store, under that step's name; a signal that finds nothing raises
-- SCENARIO_NOT_FOUND and no later signal is tried; and a document is unresolved only without any.
pub resolve-Answer :
    (py : Python) (store : ScenarioStore) (rules : List SourceMappingRule)
    (envelope : ArrivalEnvelope) (ledger : InMemoryLedgerStore)
    → let sig = signal py rules envelope ledger in
      Answer sig (sought store sig) (resolve py store rules envelope ledger)
unfolding resolve resolve_from
resolve-Answer py store rules envelope ledger =
    by_signals (assigned_scenario_id envelope.doc_id ledger) envelope.scenario_id envelope.vertical
  where
    by_signals :
        (a s v : Option String)
        → let sig = or_else a assignment (
            or_else s scenario
              (or_else v vertical (of_rule (select_source_rule py envelope.source rules)))) in
          Answer sig (sought store sig) (resolve_from py store rules envelope a s v)
    by_signals (some k) s v = by_assignment py store k
    by_signals none (some k) v = by_scenario py store k
    by_signals none none (some w) = by_vertical py store w
    by_signals none none none = by_mapping py store rules envelope.source
