-- ===== src/Provisioning/Create.antt =====
-- The methods of src/vestibule/provisioning/provisioner.py that claim an index, create it and mark it
-- ready.
use vestibule.Prelude.{
  ℕ, String, ◌⧺◌, Bool, true, false, Option, none, some, if◌then◌else◌, ite, string_discrete,
  option_discrete, Outcome, ok, err,
}
use vestibule.Scenario.{Scenario}
use vestibule.Provisioning.Model.{
  ProvisioningError, index_schema_drift, index_auto_create_disabled, provisioning,
}
use vestibule.Provisioning.Registry.{register, mark_ready, mark_failed}
use vestibule.Provisioning.Template.{IndexTemplate, Resolved, resolve_template}
use vestibule.Provisioning.World.{
  IndexDescription, Entry, World, IndexProvisioner, tick, mint, provisioning_error_text,
  call_adapter,
}
use vestibule.Provisioning.Calls.{
  claim_new, after_losing_claim, claim_and_create, finalize_ready, returned, raised,
  assertion_failed, Step, finishes, calls, error_of, is_conflict, is_incompatible, absorbed,
  on_registry, observed,
}

module _ {S : Type 0} (self : IndexProvisioner S) (scenario : Scenario) where
  -- The entry that `_claim_new` proposes.
  abbrev pub candidate : Resolved → (now : ℕ) (token : String) → Entry
  candidate r now token = record {
    index_name = scenario.index_name;
    vertical = scenario.vertical;
    scenario_id = scenario.scenario_id;
    template_id = r.template.template_id;
    template_version = r.template.template_version;
    dimensions = r.dimensions;
    metric = r.metric;
    embedding_model = scenario.embedder.model;
    status = provisioning;
    created_at = now;
    last_verified_at = none;
    document_count = none;
    claim_token = some token;
    claimed_at = some now;
    last_error_message = none;
    resolved_template = some r.template;
  }

  abbrev pub is_won : Entry → String → Bool
  is_won won token = ite (option_discrete string_discrete won.claim_token (some token)) true false

  unfoldable pub claim_new_with : Outcome ProvisioningError Resolved → World S → Step × World S
  claim_new_with (err e) w = (finishes (raised e), w)
  claim_new_with (ok r) w =
      let (now, w1) = tick w in
      let (token, w2) = mint w1 in
      let (won, w3) = on_registry self (register (candidate r now token)) w2 in
      (
        if is_won won token then calls (claim_and_create won) else calls (after_losing_claim won),
        w3,
      )

  unfoldable pub claim_new_body : World S → Step × World S
  unfolding claim_new_with
  claim_new_body w =
      if self.config.auto_create
      then claim_new_with (resolve_template self.py self.config self.templates scenario) w
      else (
        finishes (
            raised (
              error_of scenario.index_name "no index exists and config.auto_create is False"
                index_auto_create_disabled)),
        w,
      )

  -- The registry is told of a failure, and the error leaves.
  unfoldable pub failing : Entry → String → ProvisioningError → World S → Step × World S
  failing won reason e w =
      let (o, w') = on_registry self (mark_failed won.index_name reason won.claim_token) w in
      (finishes (raised (absorbed o e)), w')

  abbrev pub incompatible_reason : Entry → Option IndexDescription → String
  incompatible_reason won description =
      "index "
      ⧺ self.py.repr won.index_name
      ⧺ " incompatible after creation/existence check: description="
      ⧺ self.shown description
      ⧺ ", expected dimensions="
      ⧺ self.py.digits won.dimensions
      ⧺ ", metric="
      ⧺ self.py.repr won.metric

  -- `_claim_and_create` from the description on
  unfoldable pub created :
      Entry → Outcome ProvisioningError (Option IndexDescription) × World S → Step × World S
  unfolding failing
  created won (err e, w) = (finishes (raised e), w)
  created won (ok description, w) =
      let reason = incompatible_reason won description in
      if is_incompatible description won.dimensions won.metric
      then failing won reason (error_of won.index_name reason index_schema_drift) w
      else (calls (finalize_ready won), w)

  unfoldable pub describe_created : Entry → World S → Step × World S
  unfolding created
  describe_created won w =
      created won
        (call_adapter won.index_name (self.adapter.describe_index won.index_name) (self.turn w))

  -- What follows the creation.
  unfoldable pub after_create :
      Entry → Outcome ProvisioningError (Unit {0}) × World S → Step × World S
  unfolding failing describe_created
  after_create won (err e, w) = failing won (provisioning_error_text e) e w
  after_create won (ok _, w) = describe_created won w

  -- The creation, with the template that the claim holds.
  unfoldable pub create_with : Entry → Option IndexTemplate → World S → Step × World S
  unfolding after_create
  create_with won none w = (finishes assertion_failed, w)
  create_with won (some template) w = after_create won (
      call_adapter won.index_name
        (self.adapter.create_index won.index_name template won.dimensions won.metric) (self.turn w))

  -- What follows the question whether the index exists.
  unfoldable pub after_exists : Entry → Outcome ProvisioningError Bool × World S → Step × World S
  unfolding describe_created create_with
  after_exists won (err e, w) = (finishes (raised e), w)
  after_exists won (ok true, w) = describe_created won w
  after_exists won (ok false, w) = create_with won won.resolved_template w

  unfoldable pub claim_and_create_body : Entry → World S → Step × World S
  unfolding after_exists
  claim_and_create_body won w =
      after_exists won
        (call_adapter won.index_name (self.adapter.index_exists won.index_name) (self.turn w))

  -- What follows a lost race for the last write.
  abbrev pub after_lost : Option Entry × World S → Step × World S
  after_lost (none, w) = (calls claim_new, w)
  after_lost (some current, w) = (calls (after_losing_claim current), w)

  unfoldable pub finalized : Entry → Outcome ProvisioningError Entry × World S → Step × World S
  finalized won (ok entry, w) = (finishes (returned entry), w)
  finalized won (err x, w) =
      if is_conflict x
      then after_lost (observed self won.index_name w)
      else (finishes (raised x), w)

  unfoldable pub finalize_ready_body : Entry → World S → Step × World S
  unfolding finalized
  finalize_ready_body won w =
      finalized won (on_registry self (mark_ready won.index_name won.claim_token) w)
