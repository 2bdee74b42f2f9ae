-- ===== src/Provisioning/Fresh.antt =====
-- `ensure` for an index that nobody has asked for yet, when no other worker is about.
use vestibule.Prelude.{
  ◌+◌, String, ◌≡◌, refl, ap, ◌∙◌, if◌then◌else◌, Bool, true, false, none, some, ok, if_pos, ite,
  option_discrete, string_discrete, ℤ_discrete,
}
use vestibule.Dict.{lookup, insert, lookup-insert_self}
use vestibule.Scenario.{Scenario}
use vestibule.Provisioning.Model.{index_auto_create_disabled, provisioning, ready}
use vestibule.Provisioning.Registry.{
  get, register, register_checked, mark_ready, required, claimed, now, write_now,
}
use vestibule.Provisioning.Template.{Resolved, resolve_template}
use vestibule.Provisioning.World.{Entry, World, IndexProvisioner, call_adapter}
use vestibule.Provisioning.Calls.{
  claim_and_create, finalize_ready, returned, raised, error_of, finishes, calls,
}
use vestibule.Provisioning.Create.{
  claim_new_with, claim_new_body, created, describe_created, after_create, create_with,
  after_exists, claim_and_create_body, finalized, finalize_ready_body,
}
use vestibule.Provisioning.Provisioner.{body, run, ensure}

is_won_self :
    (token : String)
    → ite (option_discrete string_discrete (some token) (some token)) true false ≡ true
is_won_self token =
    if_pos (option_discrete string_discrete (some token) (some token)) refl true false

module _ {S : Type 0} (self : IndexProvisioner S) (scenario : Scenario)
    (alone : (w : World S) → self.turn w ≡ w) (w : World S) (r : Resolved) where
  -- What the worker is to propose.
  abbrev pub claim : Entry
  claim = record {
    index_name = scenario.index_name;
    vertical = scenario.vertical;
    scenario_id = scenario.scenario_id;
    template_id = r.template.template_id;
    template_version = r.template.template_version;
    dimensions = r.dimensions;
    metric = r.metric;
    embedding_model = scenario.embedder.model;
    status = provisioning;
    created_at = w.clock w.reads;
    last_verified_at = none;
    document_count = none;
    claim_token = some (w.tokens w.minted);
    claimed_at = some (w.clock w.reads);
    last_error_message = none;
    resolved_template = some r.template;
  }

  abbrev pub claimed_world : World S
  claimed_world = record w {
    registry = record w.registry { entries = insert scenario.index_name claim w.registry.entries };
    reads = w.reads + 1;
    minted = w.minted + 1;
  }

  -- What is to be made of it.
  abbrev pub final_entry : Entry
  final_entry = record {
    index_name = scenario.index_name;
    vertical = scenario.vertical;
    scenario_id = scenario.scenario_id;
    template_id = r.template.template_id;
    template_version = r.template.template_version;
    dimensions = r.dimensions;
    metric = r.metric;
    embedding_model = scenario.embedder.model;
    status = ready;
    created_at = w.clock w.reads;
    last_verified_at = some (now w.registry);
    document_count = none;
    claim_token = none;
    claimed_at = none;
    last_error_message = none;
    resolved_template = none;
  }

  -- The world at the end, with this store.
  abbrev pub final_world : S → World S
  final_world s = record claimed_world {
    registry = record w.registry {
      entries =
          insert scenario.index_name final_entry
            (insert scenario.index_name claim w.registry.entries);
      reads = w.registry.reads + 1;
    };
    store = s;
  }

  proposes :
      self.config.auto_create ≡ true
      → claim_new_body self scenario w
        ≡ claim_new_with self scenario
            (resolve_template self.py self.config self.templates scenario)
            w
  unfolding claim_new_body
  proposes creates =
      ap
        (λ (b : Bool).
          if b
          then claim_new_with self scenario
              (resolve_template self.py self.config self.templates scenario) w
          else (
            finishes (
                raised (
                  error_of scenario.index_name "no index exists and config.auto_create is False"
                    index_auto_create_disabled)),
            w,
          ))
        creates

  wins :
      lookup scenario.index_name w.registry.entries ≡ none
      → claim_new_with self scenario (ok r) w ≡ (calls (claim_and_create claim), claimed_world)
  unfolding claim_new_with register register_checked
  wins missing =
      rw
        (
          alone (record w { reads = w.reads + 1; minted = w.minted + 1 }),
          missing,
          is_won_self (w.tokens w.minted),
        )
        refl

  claims :
      lookup scenario.index_name w.registry.entries ≡ none
      → self.config.auto_create ≡ true
      → resolve_template self.py self.config self.templates scenario ≡ ok r
      → claim_new_body self scenario w ≡ (calls (claim_and_create claim), claimed_world)
  claims missing creates resolved =
      proposes creates ∙ ap (λ o. claim_new_with self scenario o w) resolved ∙ wins missing

  creates :
      (s s' s'' : S)
      → self.adapter.index_exists scenario.index_name w.store ≡ (ok false, s)
      → self.adapter.create_index scenario.index_name r.template r.dimensions r.metric s
        ≡ (ok tt, s')
      → self.adapter.describe_index scenario.index_name s'
        ≡ (ok (some (record { dimensions = r.dimensions; metric = r.metric })), s'')
      → claim_and_create_body self scenario claim claimed_world
        ≡ (calls (finalize_ready claim), record claimed_world { store = s'' })
  unfolding claim_and_create_body after_exists create_with after_create describe_created created
      call_adapter
  creates s s' s'' missing made described =
      rw
        (
          alone claimed_world,
          missing,
          alone (record claimed_world { store = s }),
          made,
          alone (record claimed_world { store = s' }),
          described,
          if_pos (ℤ_discrete r.dimensions r.dimensions) refl
              (ite (string_discrete r.metric r.metric) false true) true,
          if_pos (string_discrete r.metric r.metric) refl false true,
        )
        refl

  marks :
      mark_ready scenario.index_name (some (w.tokens w.minted)) claimed_world.registry
      ≡ (ok final_entry, write_now scenario.index_name final_entry claimed_world.registry)
  unfolding mark_ready required claimed
  marks =
      rw
        (
          required,
          lookup-insert_self scenario.index_name claim w.registry.entries,
          claimed,
          if_pos
              (option_discrete string_discrete (some (w.tokens w.minted))
                (some (w.tokens w.minted)))
              refl,
        )
        refl

  finalizes :
      (s : S)
      → finalize_ready_body self scenario claim (record claimed_world { store = s })
        ≡ (finishes (returned final_entry), final_world s)
  unfolding finalize_ready_body finalized
  finalizes s = rw (alone (record claimed_world { store = s }), marks) refl

  -- When no other worker is about, the registry has no entry, auto-creation is on, the template resolves,
  -- and the adapter finds no index, creates one, and describes it with the resolved dimensions and metric:
  -- `ensure` with fuel for three calls registers a claim under the index's name, and replaces it by the
  -- entry that it returns. This has the scenario's names and model, the template's id and version, and the
  -- resolved dimensions and metric; it is ready, created when the claim was made and verified now; and the
  -- claim's token, time and template are gone. The registry's other entries stay, and the store is as the
  -- adapter left it.
  pub ensure-creates :
      (s s' s'' : S)
      → lookup scenario.index_name w.registry.entries ≡ none
      → self.config.auto_create ≡ true
      → resolve_template self.py self.config self.templates scenario ≡ ok r
      → self.adapter.index_exists scenario.index_name w.store ≡ (ok false, s)
      → self.adapter.create_index scenario.index_name r.template r.dimensions r.metric s
        ≡ (ok tt, s')
      → self.adapter.describe_index scenario.index_name s'
        ≡ (ok (some (record { dimensions = r.dimensions; metric = r.metric })), s'')
      → ensure self scenario 3 w ≡ (some (returned final_entry), final_world s'')
  unfolding ensure run body get
  ensure-creates s s' s'' unknown creating resolved missing made described =
      rw
        (
          alone w,
          unknown,
          claims unknown creating resolved,
          creates s s' s'' missing made described,
          finalizes s'',
        )
        refl
