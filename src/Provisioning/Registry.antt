-- ===== src/Provisioning/Registry.antt =====
-- `InMemoryIndexRegistry` of src/vestibule/provisioning/registry.py. Each method holds the lock
-- throughout, so it is one step.
use vestibule.Prelude.{
  ℕ, ◌+◌, String, true, false, List, Option, none, some, Outcome, ok, err, keep, ite,
  string_discrete, option_discrete,
}
use vestibule.Dict.{Dict, lookup, insert, values}
use vestibule.Provisioning.Model.{
  index_provision_conflict, ProvisioningError, ready, failed, retired, IndexRegistryEntry,
  entry_discrete,
}

pub record InMemoryIndexRegistry (T : Type 0) : Type 0 where
  pub entries : Dict (IndexRegistryEntry T)
  pub clock : ℕ → ℕ
  pub reads : ℕ

-- What an error says and does not write.
abbrev pub conflict : String → String → ProvisioningError
conflict index_name reason = record {
  index_name = index_name;
  reason = reason;
  error_code = index_provision_conflict;
}

abbrev pub RegistryAction : Type 0 → Type 0
RegistryAction T =
    InMemoryIndexRegistry T
    → Outcome ProvisioningError (IndexRegistryEntry T) × InMemoryIndexRegistry T

module _ {T : Type 0} where
  abbrev pub now : InMemoryIndexRegistry T → ℕ
  now s = s.clock s.reads

  -- `self._entries[index_name] = entry`
  abbrev pub write :
      String → IndexRegistryEntry T → InMemoryIndexRegistry T → InMemoryIndexRegistry T
  write index_name entry s = record s { entries = insert index_name entry s.entries }

  -- The same, after one reading of the clock.
  abbrev pub write_now :
      String → IndexRegistryEntry T → InMemoryIndexRegistry T → InMemoryIndexRegistry T
  write_now index_name entry s = record s {
    entries = insert index_name entry s.entries;
    reads = s.reads + 1;
  }

  unfoldable pub get : String → InMemoryIndexRegistry T → Option (IndexRegistryEntry T)
  get index_name s = lookup index_name s.entries

  unfoldable pub list_by_vertical : String → InMemoryIndexRegistry T → List (IndexRegistryEntry T)
  list_by_vertical vertical s =
      keep (λ e. ite (string_discrete e.vertical vertical) true false) (values s.entries)

  -- `register` once the stored entry is known
  unfoldable pub register_checked :
      IndexRegistryEntry T
      → Option (IndexRegistryEntry T)
      → InMemoryIndexRegistry T
      → IndexRegistryEntry T × InMemoryIndexRegistry T
  register_checked entry (some existing) s = (existing, s)
  register_checked entry none s = (entry, write entry.index_name entry s)

  unfoldable pub register :
      IndexRegistryEntry T
      → InMemoryIndexRegistry T
      → IndexRegistryEntry T × InMemoryIndexRegistry T
  register entry s = register_checked entry (lookup entry.index_name s.entries) s

  -- `_require`, then what follows it.
  unfoldable pub required : String → (IndexRegistryEntry T → RegistryAction T) → RegistryAction T
  required index_name k s = elim (lookup index_name s.entries) [
    | none ↦ (err (conflict index_name "no registry entry exists for index_name"), s)
    | some current ↦ k current s
  ]

  -- `_check_claim_token`, then what follows it.
  unfoldable pub claimed :
      IndexRegistryEntry T → Option String → RegistryAction T → RegistryAction T
  claimed current none k s = k s
  claimed current (some token) k s =
      ite (option_discrete string_discrete current.claim_token (some token)) (k s) (
        err (
            conflict current.index_name
              "claim_token no longer matches the stored entry (superseded by a reclaim or a concurrent finalization)"),
        s,
      )

  abbrev pub made_ready : ℕ → IndexRegistryEntry T → IndexRegistryEntry T
  made_ready t current = record current {
    status = ready;
    last_verified_at = some t;
    claim_token = none;
    claimed_at = none;
    resolved_template = none;
  }

  abbrev pub made_failed : String → IndexRegistryEntry T → IndexRegistryEntry T
  made_failed reason current = record current {
    status = failed;
    last_error_message = some reason;
    claim_token = none;
    claimed_at = none;
    resolved_template = none;
  }

  unfoldable pub touch_verified : String → RegistryAction T
  touch_verified index_name = required index_name (λ current s.
      let updated = record current { last_verified_at = some (now s) } in
      (ok updated, write_now index_name updated s))

  unfoldable pub mark_ready : String → Option String → RegistryAction T
  mark_ready index_name expected = required index_name (λ current.
      claimed current expected (λ s.
        (ok (made_ready (now s) current), write_now index_name (made_ready (now s) current) s)))

  unfoldable pub mark_failed : String → (reason : String) → Option String → RegistryAction T
  mark_failed index_name reason expected = required index_name (λ current.
      claimed current expected
        (λ s. (ok (made_failed reason current), write index_name (made_failed reason current) s)))

  unfoldable pub mark_retired : String → RegistryAction T
  mark_retired index_name = required index_name (λ current s.
      let updated = record current { status = retired } in (ok updated, write index_name updated s))

  module _ (same_template : Discrete T) where
    unfoldable pub reclaim : String → (observed new_entry : IndexRegistryEntry T) → RegistryAction T
    reclaim index_name observed new_entry s =
        ite
          (option_discrete (entry_discrete same_template) (lookup index_name s.entries)
            (some observed))
          (ok new_entry, write index_name new_entry s)
          (
            err (
                conflict index_name
                  "reclaim observed a stale snapshot; the stored entry has since changed"),
            s,
          )
