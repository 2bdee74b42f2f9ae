-- ===== src/Provisioning/World.antt =====
-- What a call of the provisioner acts on: the registry, the store of the indexes, the clock and the
-- source of claim tokens. `turn` is what other workers have done by the time of the call's next access
-- to the registry or the store, and while it sleeps.
use vestibule.Prelude.{ℕ, ◌+◌, String, ◌⧺◌, Option, ℤ, Outcome, ok, err, Bool, Format}
use vestibule.Provisioning.Model.{
  ProvisioningError, IndexRegistryEntry, index_provisioner_unavailable,
}
use vestibule.Provisioning.Template.{IndexTemplate, IndexTemplateStore, ProvisioningConfig}
use vestibule.Provisioning.Registry.{InMemoryIndexRegistry}

pub record IndexDescription : Type 0 where
  pub dimensions : ℤ
  pub metric : String

-- What an adapter raises: an error that it has classified, or another exception with its text.
pub data AdapterRaised : Type 0 where
  classified : ProvisioningError → AdapterRaised
  unmapped : String → AdapterRaised

abbrev pub StoreCall : Type 0 → Type 0 → Type 0
StoreCall S A = S → Outcome AdapterRaised A × S

-- The operations of `IndexProvisionerAdapter` that the provisioner calls.
pub record IndexProvisionerAdapter (S : Type 0) : Type 0 where
  pub index_exists : String → StoreCall S Bool
  pub create_index : String → IndexTemplate → ℤ → String → StoreCall S (Unit {0})
  pub describe_index : String → StoreCall S (Option IndexDescription)

abbrev pub Entry : Type 0
Entry = IndexRegistryEntry IndexTemplate

pub record World (S : Type 0) : Type 0 where
  pub registry : InMemoryIndexRegistry IndexTemplate
  pub store : S
  pub clock : ℕ → ℕ
  pub reads : ℕ
  pub tokens : ℕ → String
  pub minted : ℕ

-- What `IndexProvisioner` keeps, but for the registry, the clock and the tokens; then
-- `int` of a version text, or no number for a `ValueError`, how Python writes values, and `turn`.
pub record IndexProvisioner (S : Type 0) : Type 0 where
  pub adapter : IndexProvisionerAdapter S
  pub config : ProvisioningConfig
  pub templates : IndexTemplateStore
  pub int_of : String → Option ℤ
  pub py : Format
  pub shown : Option IndexDescription → String
  pub turn : World S → World S

abbrev pub Action : Type 0 → Type 0 → Type 0
Action S A = World S → Outcome ProvisioningError A × World S

-- `str(exc)` of a `ProvisioningError`
abbrev pub provisioning_error_text : ProvisioningError → String
provisioning_error_text e = e.index_name ⧺ ": " ⧺ e.reason

-- What `_call_adapter` makes of what the adapter did.
abbrev pub wrapped : {A : Type 0} → String → Outcome AdapterRaised A → Outcome ProvisioningError A
wrapped index_name (ok a) = ok a
wrapped index_name (err (classified e)) = err e
wrapped index_name (err (unmapped exc)) =
    err
      (record { index_name = index_name; reason = exc; error_code = index_provisioner_unavailable })

module _ {S : Type 0} where
  -- `self._clock()`
  abbrev pub tick : World S → ℕ × World S
  tick w = (w.clock w.reads, record w { reads = w.reads + 1 })

  -- `self._new_claim_token()`
  abbrev pub mint : World S → String × World S
  mint w = (w.tokens w.minted, record w { minted = w.minted + 1 })

  -- What a call of the registry comes to in the world.
  abbrev pub placed : {A : Type 0} → World S → A × InMemoryIndexRegistry IndexTemplate → A × World S
  placed w (a, r) = (a, record w { registry = r })

  -- `_call_adapter`
  unfoldable pub call_adapter : {A : Type 0} → String → StoreCall S A → Action S A
  call_adapter index_name f w =
      let (o, store) = f w.store in (wrapped index_name o, record w { store = store })
