-- ===== src/Scenario/Tests.antt =====
-- The theorems on scenarios, on the cached store over a backend that holds one scenario.
use vestibule.Prelude.{
  ℤ_discrete, ℕ_discrete, String, ◌≡◌, ◌↔◌, refl, pos, Format, true, Option, none, some, List, [],
  ◌∷◌, ok, arith, ite, string_discrete,
}
use vestibule.Dict.{lookup}
use vestibule.Scenario.{Scenario, fastembed}
use vestibule.Scenario.Cached.{Backend, World, empty_cache, get, upsert}
use vestibule.Scenario.Coherence.{IsAtomic, IsCoherent}
use vestibule.Scenario.Transparent.{
  Op, get_op, get_by_vertical_op, list_all_op, upsert_op, delete_op, direct_all, step_all,
  step_all-direct_all,
}
use vestibule.Scenario.Stale.{gets, get_stale}
use vestibule.Scenario.Select.{before, select_enabled_for_vertical}
use vestibule.Scenario.Validation.{
  match_index_name, match_middle, match_last, validate_index_name, validate_cross_field_invariants,
}
use vestibule.Scenario.Consistent.{Consistent, validate_cross_field_invariants_iff}
use vestibule.Samples.{hr}

-- A store of at most one scenario, which never fails.
abbrev one : Backend (Option Scenario) String
one = record {
  get = λ k b.
      ok (elim b [ none ↦ none | some sc ↦ ite (string_discrete sc.scenario_id k) (some sc) none ]);
  get_by_vertical = λ v b.
      ok (elim b [ none ↦ none | some sc ↦ ite (string_discrete sc.vertical v) (some sc) none ]);
  list_all = λ d b. ok (elim b [ none ↦ [] | some sc ↦ sc ∷ [] ]);
  upsert = λ sc b. (ok sc, some sc);
  delete = λ k b. (ok true, none);
}

one-IsAtomic : IsAtomic one
one-IsAtomic = record { upsert_fails = λ sc b e h. cc; delete_fails = λ k b e h. cc }

abbrev start : World (Option Scenario)
start = record { cache = empty_cache; backend = none; clock = λ n. n; reads = 0 }

start-IsCoherent : IsCoherent one start
unfolding lookup
start-IsCoherent = record {
  ids = λ k v at h. cc;
  verticals = λ k v at h. cc;
  lists = λ d v at h. cc;
}

abbrev ops : List Op
ops =
    get_op "hr-v1"
    ∷ upsert_op hr
    ∷ get_op "hr-v1"
    ∷ get_op "hr-v1"
    ∷ list_all_op true
    ∷ delete_op "hr-v1"
    ∷ get_by_vertical_op "hr"
    ∷ []

step_all-direct_all_example : step_all one 60 ops start ≡ direct_all one 60 ops none
step_all-direct_all_example = step_all-direct_all one 60 ops start one-IsAtomic start-IsCoherent

get_stale_example :
    let w' = (get one 60 (λ t. t) (λ t. (upsert one 60 hr t).1) "hr-v1" start).1 in
    (w'.backend ≡ some hr)
    × ((before within : World (Option Scenario) → World (Option Scenario))
        → (get one 60 before within "hr-v1" (gets one 60 before within "hr-v1" 3 w')).0 ≡ ok none)
unfolding lookup
get_stale_example = get_stale one 60 "hr-v1" hr hr none start 3 refl refl refl (λ i le. omega arith)

abbrev hr_next : Scenario
hr_next = record hr { scenario_id = "hr-v2" }

selects_hr : select_enabled_for_vertical (hr_next ∷ hr ∷ []) ≡ some hr
unfolding select_enabled_for_vertical before
selects_hr = refl

abbrev plain : Format
plain = record { digits = λ n. "n"; repr = λ s. s; repr_sorted = λ ss. "[]" }

abbrev nomic : Scenario
nomic = record hr {
  embedder = record {
    adapter = fastembed;
    model = "nomic-ai/nomic-embed-text-v1.5";
    target_dimensions = some (pos 512);
  };
  indexer = record hr.indexer { dimensions = pos 512 };
}

validate_cross_field_invariants_iff_example :
    (validate_cross_field_invariants plain nomic ≡ ok nomic) ↔ Consistent nomic
validate_cross_field_invariants_iff_example = validate_cross_field_invariants_iff plain nomic

accepts_nomic : validate_cross_field_invariants plain nomic ≡ ok nomic
unfolding validate_cross_field_invariants match_index_name match_middle match_last string_discrete
    ℤ_discrete ℕ_discrete
accepts_nomic = refl

accepts_newline : validate_index_name plain "hr-index\n" ≡ ok tt
unfolding validate_index_name match_index_name match_middle match_last
accepts_newline = refl
