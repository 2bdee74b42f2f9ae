-- ===== src/Provisioning/Verify.antt =====
-- `_handle_ready` of src/vestibule/provisioning/provisioner.py.
use vestibule.Prelude.{
  ℤ, Bool, true, false, not, leb_ℤ, ℕ, String, ◌⧺◌, Option, none, some, if◌then◌else◌, Outcome, ok,
  err,
}
use vestibule.Scenario.{Scenario}
use vestibule.Provisioning.Model.{ProvisioningError, index_schema_drift}
use vestibule.Provisioning.Registry.{touch_verified}
use vestibule.Provisioning.Template.{Resolved, resolve_template}
use vestibule.Provisioning.World.{
  IndexDescription, Entry, World, IndexProvisioner, tick, call_adapter,
}
use vestibule.Provisioning.Calls.{
  returned, raised, value_error, ended, Step, finishes, error_of, elapsed, is_incompatible,
  on_registry,
}

module _ {S : Type 0} (self : IndexProvisioner S) (scenario : Scenario) where
  abbrev pub drift_reason : Entry → Resolved → Option IndexDescription → String
  drift_reason entry r description =
      "live index incompatible with resolved template: description="
      ⧺ self.shown description
      ⧺ ", resolved_dimensions="
      ⧺ self.py.digits r.dimensions
      ⧺ ", resolved_metric="
      ⧺ self.py.repr r.metric
      ⧺ ", entry.template_version="
      ⧺ self.py.repr entry.template_version
      ⧺ ", template.template_version="
      ⧺ self.py.repr r.template.template_version

  -- `int(a) < int(b)`
  abbrev pub is_below : Option ℤ → Option ℤ → Option Bool
  is_below (some a) (some b) = some (not (leb_ℤ b a))
  is_below _ _ = none

  -- `drifted`, or none for a version that is not a number
  abbrev pub drifted : Entry → Resolved → Option IndexDescription → Option Bool
  drifted entry r description =
      if is_incompatible description r.dimensions r.metric
      then some true
      else is_below (self.int_of entry.template_version) (self.int_of r.template.template_version)

  -- `_handle_ready` from the description of the index on
  unfoldable pub verified :
      Entry
      → Resolved
      → Outcome ProvisioningError (Option IndexDescription) × World S
      → Step × World S
  verified entry r (err e, w) = (finishes (raised e), w)
  verified entry r (ok description, w) = elim (drifted entry r description) [
    | none ↦ (finishes value_error, w)
    | some true ↦ (
      finishes (
          raised (error_of entry.index_name (drift_reason entry r description) index_schema_drift)),
      w,
    )
    | some false ↦
        let (o, w') = on_registry self (touch_verified entry.index_name) w in
        (finishes (ended o), w')
  ]

  unfoldable pub verify : Entry → Outcome ProvisioningError Resolved → World S → Step × World S
  unfolding verified
  verify entry (err e) w = (finishes (raised e), w)
  verify entry (ok r) w =
      verified entry r
        (call_adapter entry.index_name (self.adapter.describe_index entry.index_name) (self.turn w))

  -- `_handle_ready`, by `last_verified_at`
  unfoldable pub handle_ready_from : Entry → Option ℕ → World S → Step × World S
  unfolding verify
  handle_ready_from entry none w =
      verify entry (resolve_template self.py self.config self.templates scenario) w
  handle_ready_from entry (some since) w =
      let (now, w') = tick w in
      if elapsed now since self.config.verification_interval
      then verify entry (resolve_template self.py self.config self.templates scenario) w'
      else (finishes (returned entry), w')
