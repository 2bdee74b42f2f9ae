-- ===== src/Provisioning/Calls.antt =====
-- What the methods of `IndexProvisioner` in src/vestibule/provisioning/provisioner.py share. They end in
-- calls of each other: a `Call` is such a call, and a `Step` is how a method ends.
use vestibule.Prelude.{
  ℕ, ◌+◌, String, Bool, true, false, Option, none, some, ℤ, ℤ_discrete, leb, if◌then◌else◌, ite,
  string_discrete, Outcome, ok, err,
}
use vestibule.Provisioning.Model.{
  ProvisioningError, ProvisioningCode, index_provision_failed, index_retired,
  index_provision_conflict, ready, provisioning, failed, retired,
}
use vestibule.Provisioning.Registry.{InMemoryIndexRegistry, get}
use vestibule.Provisioning.Template.{IndexTemplate, or_text}
use vestibule.Provisioning.World.{IndexDescription, Entry, World, IndexProvisioner, placed}

pub data Call : Type 0 where
  claim_new : Call
  dispatch_existing : Entry → Call
  after_losing_claim : Entry → Call
  handle_ready : Entry → Call
  claim_and_create : Entry → Call
  finalize_ready : Entry → Call
  wait_for_ready : Entry → Call
  -- the loop of `_wait_for_ready`, with `entry.index_name`, `current` and `deadline`
  waiting : String → Entry → ℕ → Call

-- How the whole call ends: an entry, a `ProvisioningError`, or the `AssertionError` of
-- `_claim_and_create`.
pub data Ending : Type 0 where
  returned : Entry → Ending
  raised : ProvisioningError → Ending
  assertion_failed : Ending
  value_error : Ending

abbrev pub ended : Outcome ProvisioningError Entry → Ending
ended (ok entry) = returned entry
ended (err e) = raised e

-- How a method ends.
pub data Step : Type 0 where
  finishes : Ending → Step
  calls : Call → Step

abbrev pub error_of : String → String → ProvisioningCode → ProvisioningError
error_of index_name reason code = record {
  index_name = index_name;
  reason = reason;
  error_code = code;
}

-- `_failed_error`
abbrev pub failed_error : Entry → ProvisioningError
failed_error entry =
    error_of entry.index_name
      (or_text entry.last_error_message "index provisioning failed; requires human intervention")
      index_provision_failed

-- `_retired_error`
abbrev pub retired_error : Entry → ProvisioningError
retired_error entry = error_of entry.index_name "index has been retired" index_retired

-- `_elapsed`
abbrev pub elapsed : (now since threshold : ℕ) → Bool
elapsed now since threshold = leb (since + threshold) now

abbrev pub is_elapsed : ℕ → Option ℕ → ℕ → Bool
is_elapsed now none threshold = false
is_elapsed now (some since) threshold = elapsed now since threshold

abbrev pub is_conflict : ProvisioningError → Bool
is_conflict e = elim e.error_code [ index_provision_conflict ↦ true | _ ↦ false ]

-- `description is None or (description.dimensions, description.metric) != (dimensions, metric)`
abbrev pub is_incompatible : Option IndexDescription → ℤ → String → Bool
is_incompatible none dimensions metric = true
is_incompatible (some d) dimensions metric =
    ite (ℤ_discrete d.dimensions dimensions) (ite (string_discrete d.metric metric) false true) true

abbrev pub dispatch_existing_step : Entry → Step
dispatch_existing_step entry = elim entry.status [
  | ready ↦ calls (handle_ready entry)
  | provisioning ↦ calls (wait_for_ready entry)
  | failed ↦ finishes (raised (failed_error entry))
  | retired ↦ finishes (raised (retired_error entry))
]

abbrev pub after_losing_claim_step : Entry → Step
after_losing_claim_step entry = elim entry.status [
  | ready ↦ finishes (returned entry)
  | provisioning ↦ calls (wait_for_ready entry)
  | failed ↦ finishes (raised (failed_error entry))
  | retired ↦ finishes (raised (retired_error entry))
]

-- The error that leaves after `_absorb_conflict` did this.
abbrev pub absorbed : Outcome ProvisioningError Entry → ProvisioningError → ProvisioningError
absorbed (ok _) e = e
absorbed (err x) e = if is_conflict x then e else x

module _ {S : Type 0} (self : IndexProvisioner S) where
  -- A call of a method of the registry.
  abbrev pub on_registry :
      {A : Type 0}
      → (InMemoryIndexRegistry IndexTemplate → A × InMemoryIndexRegistry IndexTemplate)
      → World S
      → A × World S
  on_registry f w = placed (self.turn w) (f (self.turn w).registry)

  -- `self._registry.get(index_name)`
  abbrev pub observed : String → World S → Option Entry × World S
  observed index_name w = (get index_name (self.turn w).registry, self.turn w)
