-- ===== src/Vertical/Tests.antt =====
-- The theorems on the vertical loader and the review queue at a concrete store and documents.
use text.Mathlib.Text.{starts_with}
use vestibule.Prelude.{
  String, ◌≡◌, refl, ◌≢◌, true, false, none, some, List, [], ◌∷◌, ok, arith, ite, string_discrete,
}
use vestibule.Dict.{lookup, erase}
use vestibule.Ledger.Model.{Status, pending, analyzing, needs_review}
use vestibule.Ledger.Store.{get}
use vestibule.Ledger.Triage.{Later, Forward}
use vestibule.Scenario.{ScenarioStore, IsStore}
use vestibule.Vertical.Model.{
  ArrivalEnvelope, internal, VerticalResolution, SourceMappingRule, VerticalLoaderConfig, Desk,
  Others, alone, Python,
}
use vestibule.Vertical.Rules.{select_source_rule, is_glob}
use vestibule.Vertical.Resolve.{assigned_scenario_id, unresolved_resolution, resolve}
use vestibule.Vertical.Load.{load}
use vestibule.Vertical.Review.{assign}
use vestibule.Vertical.Mapping.{signal, sought, Answer, resolve-Answer}
use vestibule.Vertical.Parking.{at_transition, Parks, load-Parks}
use vestibule.Vertical.Assignment.{resumed, by_review, assign-load, assign_overtaken}
use vestibule.Samples.{hr, doc_a, row_at, ledger_at, ledger_at-IsValid, ledger_at-lookup}

abbrev store : ScenarioStore
store = record {
  get = λ k. ite (string_discrete k "hr-v1") (some hr) none;
  get_by_vertical = λ v. ite (string_discrete v "hr") (some hr) none;
}

store-IsStore : IsStore store
store-IsStore = record { keyed = λ k sc h. ground arith; filed = λ v sc h. ground arith }

abbrev py : Python
py = record {
  repr = λ t. t;
  fnmatchcase = λ source pattern.
      ite (string_discrete pattern "blob:hr-*") (starts_with source "blob:hr-") false;
}

abbrev rules : List SourceMappingRule
rules =
    record { match = "blob:hr-*"; vertical = "hr" }
    ∷ record { match = "blob:hr-7"; vertical = "hr" }
    ∷ []

abbrev config : VerticalLoaderConfig
config = record { source_mappings = rules; park_unresolved = true; suggest_verticals = true }

abbrev from : String → ArrivalEnvelope
from source = record {
  doc_id = doc_a;
  source = source;
  blob_path = "in/7.pdf";
  vertical = none;
  scenario_id = none;
  allowed_groups = [];
  trust_tier = internal;
  content_hash = "c0";
  received_at = 6;
}

abbrev desk_at : Status → Desk
desk_at status = record {
  ledger = ledger_at status;
  registry =
      (doc_a, record { source = "mail:7"; blob_path = "in/7.pdf"; suggested_verticals = [] }) ∷ [];
}

-- Another thread that has put the document at this status.
abbrev meanwhile : Status → Others
meanwhile status d = record d { ledger = ledger_at status }

abbrev unknown : VerticalResolution
unknown = unresolved_resolution py "mail:7"

unknown-resolve :
    (status : Status) → resolve py store rules (from "mail:7") (ledger_at status) ≡ ok unknown
unfolding resolve assigned_scenario_id get lookup string_discrete select_source_rule is_glob
unknown-resolve status = refl

resolve-Answer_example :
    let sig = signal py rules (from "blob:hr-7") (ledger_at pending) in
    Answer sig (sought store sig) (resolve py store rules (from "blob:hr-7") (ledger_at pending))
resolve-Answer_example = resolve-Answer py store rules (from "blob:hr-7") (ledger_at pending)

load-Parks_example :
    Parks
      (from "mail:7")
      unknown.reason
      (row_at needs_review)
      (at_transition config (meanwhile needs_review) (from "mail:7") (desk_at pending))
      (load py store store config alone (meanwhile needs_review) (from "mail:7") (desk_at pending))
unfolding unresolved_resolution
load-Parks_example =
    load-Parks py store store config alone (meanwhile needs_review) (from "mail:7")
      (desk_at pending) unknown (row_at needs_review) refl (unknown-resolve pending) refl
      (ledger_at-IsValid needs_review) (ledger_at-lookup needs_review)

assign-load_example :
    let (r, d') = assign py store alone alone doc_a "hr-v1" (desk_at needs_review) in
    (r ≡ ok tt)
    × (lookup doc_a d'.ledger.rows ≡ some (resumed (row_at needs_review) "hr-v1" 105))
    × (lookup doc_a d'.registry ≡ none)
    × ((j : String) → doc_a ≢ j → lookup j d'.ledger.rows ≡ lookup j (ledger_at needs_review).rows)
    × ((before within : Others)
        → load py store store config before within (from "mail:7") d'
          ≡ (ok (hr, by_review py "hr-v1" hr), d'))
unfolding lookup string_discrete
assign-load_example =
    assign-load py store config (from "mail:7") "hr-v1" hr (desk_at needs_review)
      (row_at needs_review) store-IsStore refl (ledger_at-IsValid needs_review) (refl, tt)
      (ledger_at-lookup needs_review) refl

assign_overtaken_example :
    assign py store (meanwhile analyzing) alone doc_a "hr-v1" (desk_at needs_review) ≡ (
      ok tt,
      record { ledger = ledger_at analyzing; registry = erase doc_a (desk_at analyzing).registry },
    )
unfolding string_discrete
assign_overtaken_example =
    assign_overtaken py store (meanwhile analyzing) alone doc_a "hr-v1" hr (desk_at needs_review)
      (row_at needs_review) (row_at analyzing) refl (ledger_at-lookup needs_review) refl
      (ledger_at-IsValid analyzing) (ledger_at-lookup analyzing)
      (Later.then Later.here Forward.analyze) (λ e. cc)
