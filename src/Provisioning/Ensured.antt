-- ===== src/Provisioning/Ensured.antt =====
-- The provisioner's theorems at concrete inputs.
use vestibule.Prelude.{
  ℕ, ◌+◌, ◌≤◌, ◌≡◌, refl, true, false, [], ◌∷◌, none, some, pos, ok, Format, string_discrete, arith,
}
use vestibule.Samples.{hr}
use vestibule.Dict.{lookup}
use vestibule.Provisioning.Template.{
  IndexTemplate, ProvisioningConfig, Resolved, resolve_template, resolve_against, get_or_raise,
}
use vestibule.Provisioning.World.{Entry, World, IndexProvisioner}
use vestibule.Provisioning.InMemory.{
  in_memory_provisioner, index_exists, create_index, describe_index, drift_or,
}
use vestibule.Provisioning.Calls.{claim_new, returned}
use vestibule.Provisioning.Provisioner.{run, ensure}
use vestibule.Provisioning.Ready.{EndsReady, run-EndsReady}
use vestibule.Provisioning.Bounded.{Leaves, wait_bounded}
use vestibule.Provisioning.Fresh.{claim, final_entry, final_world, ensure-creates}
use vestibule.Indexer.Memory.{InMemoryIndexer, ensure_schema, ensure_against}

abbrev plain : Format
plain = record { digits = λ n. "n"; repr = λ s. s; repr_sorted = λ ss. "[]" }

abbrev standard : IndexTemplate
standard = record {
  template_id = "standard-v1";
  template_version = "1";
  dimensions = none;
  metric = "cosine";
  hnsw = record { m = pos 4; ef_construction = pos 400; ef_search = pos 500 };
  fields = [];
  semantic_ranker_enabled = false;
  hybrid_enabled = true;
}

abbrev settings : ProvisioningConfig
settings = record {
  default_template_id = "standard-v1";
  provisioning_stale_after = 300;
  verification_interval = 300;
  wait_for_provisioning_timeout = 60;
  wait_poll_interval = 2;
  auto_create = true;
}

abbrev provisioner : IndexProvisioner (InMemoryIndexer ℕ)
provisioner = record {
  adapter = in_memory_provisioner plain (λ k ks. k) "local";
  config = settings;
  templates = ("standard-v1", standard) ∷ [];
  int_of = λ s. some (pos 1);
  py = plain;
  shown = λ d. "description";
  turn = λ w. w;
}

abbrev nothing_yet : World (InMemoryIndexer ℕ)
nothing_yet = record {
  registry = record { entries = []; clock = λ n. 100 + n; reads = 0 };
  store = record { records = []; by_doc = []; schema = none };
  clock = λ n. n + 5;
  reads = 0;
  tokens = λ n. "token";
  minted = 0;
}

abbrev resolved : Resolved
resolved = record { template = standard; dimensions = pos 384; metric = "cosine" }

abbrev made : InMemoryIndexer ℕ
made = record { records = []; by_doc = []; schema = some (pos 384, "cosine") }

template_found : resolve_template plain settings (("standard-v1", standard) ∷ []) hr ≡ ok resolved
unfolding resolve_template get_or_raise resolve_against lookup string_discrete
template_found = refl

ensure-creates_example : ensure provisioner hr 3 nothing_yet ≡ (
  some (returned (final_entry provisioner hr (λ w. refl) nothing_yet resolved)),
  final_world provisioner hr (λ w. refl) nothing_yet resolved made,
)
unfolding in_memory_provisioner index_exists create_index describe_index drift_or ensure_schema
    ensure_against lookup
ensure-creates_example =
    ensure-creates provisioner hr (λ w. refl) nothing_yet resolved nothing_yet.store made made refl
      refl template_found refl refl refl

run-EndsReady_example : EndsReady (run provisioner hr 3 claim_new nothing_yet).0
run-EndsReady_example = run-EndsReady provisioner hr 3 claim_new nothing_yet tt

abbrev claimed_entry : Entry
claimed_entry = claim provisioner hr (λ w. refl) nothing_yet resolved

wait_bounded_example :
    (m : ℕ) × (m ≤ 60 + 2)
    × Leaves provisioner hr (λ n w h. h) "hr-index" 60 m claimed_entry nothing_yet
wait_bounded_example =
    wait_bounded provisioner hr (λ n w h. h) "hr-index" 60 60 0 claimed_entry nothing_yet
      (omega arith) (omega arith, λ k. omega arith)
