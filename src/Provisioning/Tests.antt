-- ===== src/Provisioning/Tests.antt =====
-- The theorems on the registry at concrete entries, whose templates are numbers.
use vestibule.Prelude.{
  ℕ, ◌+◌, String, ◌≡◌, refl, ap, ◌≢◌, [], ◌∷◌, Option, none, some, ok, err, ℕ_discrete,
  string_discrete, option_discrete, refuted, pos,
}
use vestibule.Dict.{lookup}
use vestibule.Provisioning.Model.{provisioning, IndexRegistryEntry}
use vestibule.Provisioning.Registry.{
  InMemoryIndexRegistry, conflict, write, register, reclaim, mark_ready, mark_failed,
}
use vestibule.Provisioning.Claims.{retiring, run, register-run}
use vestibule.Provisioning.Finalize.{stale, superseded, reclaim-excludes}

abbrev claim : String → IndexRegistryEntry ℕ
claim token = record {
  index_name = "hr-index";
  vertical = "hr";
  scenario_id = "hr-v1";
  template_id = "standard-v1";
  template_version = "1";
  dimensions = pos 384;
  metric = "cosine";
  embedding_model = "small";
  status = provisioning;
  created_at = 1;
  last_verified_at = none;
  document_count = none;
  claim_token = some token;
  claimed_at = some 1;
  last_error_message = none;
  resolved_template = some 7;
}

abbrev empty : InMemoryIndexRegistry ℕ
empty = record { entries = []; clock = λ n. 100 + n; reads = 0 }

abbrev held : InMemoryIndexRegistry ℕ
held = record empty { entries = ("hr-index", claim "a") ∷ [] }

held-lookup : lookup "hr-index" held.entries ≡ some (claim "a")
unfolding lookup string_discrete
held-lookup = refl

register-run_example :
    (x : IndexRegistryEntry ℕ) × (lookup "hr-index"
        (run ℕ_discrete (retiring "hr-index" ∷ []) (register (claim "a") empty).1).entries
      ≡ some x)
    × (register
          (claim "b")
          (run ℕ_discrete (retiring "hr-index" ∷ []) (register (claim "a") empty).1)
        ≡ (x, run ℕ_discrete (retiring "hr-index" ∷ []) (register (claim "a") empty).1))
register-run_example =
    register-run ℕ_discrete (claim "a") (claim "b") (retiring "hr-index" ∷ []) empty refl

abbrev token_of : IndexRegistryEntry ℕ → Option String
token_of e = e.claim_token

b_is_not_a : (claim "b").claim_token ≢ some "a"
unfolding option_discrete string_discrete
b_is_not_a = refuted (option_discrete string_discrete (some "b") (some "a")) refl

reclaim-excludes_example :
    (reclaim ℕ_discrete "hr-index" (claim "a") (claim "b") held
      ≡ (ok (claim "b"), write "hr-index" (claim "b") held))
    × (reclaim ℕ_discrete "hr-index" (claim "a") (claim "c") (write "hr-index" (claim "b") held)
        ≡ (err (conflict "hr-index" stale), write "hr-index" (claim "b") held))
    × (mark_ready "hr-index" (some "a") (write "hr-index" (claim "b") held)
        ≡ (err (conflict "hr-index" superseded), write "hr-index" (claim "b") held))
    × (mark_failed "hr-index" "late" (some "a") (write "hr-index" (claim "b") held)
        ≡ (err (conflict "hr-index" superseded), write "hr-index" (claim "b") held))
reclaim-excludes_example =
    reclaim-excludes ℕ_discrete "hr-index" "a" "late" (claim "a") (claim "b") (claim "c") held
      held-lookup (λ e. b_is_not_a (ap token_of e)) b_is_not_a
