-- ===== src/Provisioning/Claims.antt =====
-- Claims on the registry: which worker provisions an index.
use vestibule.Prelude.{
  String, ◌≡◌, refl, ◌∙◌, ap, ◌≢◌, List, [], ◌∷◌, Option, none, some, Outcome, err, arith,
  string_discrete, option_discrete, Option-cases, inl, inr, ite,
}
use vestibule.Dict.{lookup, insert, lookup-insert, lookup-insert_self}
use vestibule.Provisioning.Model.{ProvisioningError, retired, IndexRegistryEntry, entry_discrete}
use vestibule.Provisioning.Registry.{
  InMemoryIndexRegistry, RegistryAction, conflict, now, register, register_checked, reclaim,
  required, claimed, made_ready, made_failed, touch_verified, mark_ready, mark_failed, mark_retired,
}

-- A call that writes.
pub data Call (T : Type 0) : Type 0 where
  registering : IndexRegistryEntry T → Call T
  reclaiming : String → (observed new_entry : IndexRegistryEntry T) → Call T
  touching : String → Call T
  readying : String → Option String → Call T
  failing : String → String → Option String → Call T
  retiring : String → Call T

either : {C Q : Type 0} (P : C → Type 0) (d : Dec Q) {a b : C} → P a → P b → P (ite d a b)
either P (yes q) h g = h
either P (no q) h g = g

module _ {T : Type 0} (same_template : Discrete T) where
  abbrev pub step : Call T → InMemoryIndexRegistry T → InMemoryIndexRegistry T
  step (registering entry) s = (register entry s).1
  step (reclaiming n observed new_entry) s = (reclaim same_template n observed new_entry s).1
  step (touching n) s = (touch_verified n s).1
  step (readying n expected) s = (mark_ready n expected s).1
  step (failing n reason expected) s = (mark_failed n reason expected s).1
  step (retiring n) s = (mark_retired n s).1

  abbrev pub run : List (Call T) → InMemoryIndexRegistry T → InMemoryIndexRegistry T
  run [] s = s
  run (c ∷ cs) s = run cs (step c s)

  -- There is an entry under the name.
  abbrev pub IsEntered : String → InMemoryIndexRegistry T → Type 0
  IsEntered n s = lookup n s.entries ≢ none

  insert-IsEntered :
      (j k : String) (e : IndexRegistryEntry T) (s : InMemoryIndexRegistry T)
      → IsEntered j s
      → lookup j (insert k e s.entries) ≢ none
  insert-IsEntered j k e s h g = ground (arith, lookup-insert j k e s.entries, h)

  required-IsEntered :
      (j n : String) (k : IndexRegistryEntry T → RegistryAction T) (s : InMemoryIndexRegistry T)
      → IsEntered j s
      → ((current : IndexRegistryEntry T) → IsEntered j (k current s).1)
      → IsEntered j (required n k s).1
  unfolding required
  required-IsEntered j n k s h kept = by_entry (lookup n s.entries)
    where
      by_entry :
          (o : Option (IndexRegistryEntry T))
          → IsEntered j
              (elim o
                as (λ _.
                  Outcome ProvisioningError (IndexRegistryEntry T) × InMemoryIndexRegistry T) [
                    | none ↦ (err (conflict n "no registry entry exists for index_name"), s)
                    | some current ↦ k current s
                  ]).1
      by_entry none = h
      by_entry (some current) = kept current

  claimed-IsEntered :
      (j : String) (current : IndexRegistryEntry T) (expected : Option String)
      (k : RegistryAction T) (s : InMemoryIndexRegistry T)
      → IsEntered j s
      → IsEntered j (k s).1
      → IsEntered j (claimed current expected k s).1
  unfolding claimed
  claimed-IsEntered j current none k s h kept = kept
  claimed-IsEntered j current (some token) k s h kept =
      either
        (λ (p : Outcome ProvisioningError (IndexRegistryEntry T) × InMemoryIndexRegistry T).
          IsEntered j p.1)
        (option_discrete string_discrete current.claim_token (some token)) kept h

  register-IsEntered :
      (j : String) (e : IndexRegistryEntry T) (s : InMemoryIndexRegistry T)
      → IsEntered j s
      → IsEntered j (register e s).1
  unfolding register
  register-IsEntered j e s h = by_entry (lookup e.index_name s.entries)
    where
      by_entry : (o : Option (IndexRegistryEntry T)) → IsEntered j (register_checked e o s).1
      by_entry none = unfold register_checked in insert-IsEntered j e.index_name e s h
      by_entry (some x) = unfold register_checked in h

  reclaim-IsEntered :
      (j n : String) (observed new_entry : IndexRegistryEntry T) (s : InMemoryIndexRegistry T)
      → IsEntered j s
      → IsEntered j (reclaim same_template n observed new_entry s).1
  unfolding reclaim
  reclaim-IsEntered j n observed new_entry s h =
      either
        (λ (p : Outcome ProvisioningError (IndexRegistryEntry T) × InMemoryIndexRegistry T).
          IsEntered j p.1)
        (option_discrete (entry_discrete same_template) (lookup n s.entries) (some observed))
        (insert-IsEntered j n new_entry s h) h

  step-IsEntered :
      (j : String) (c : Call T) (s : InMemoryIndexRegistry T)
      → IsEntered j s
      → IsEntered j (step c s)
  unfolding touch_verified mark_ready mark_failed mark_retired
  step-IsEntered j (registering e) s h = register-IsEntered j e s h
  step-IsEntered j (reclaiming n observed new_entry) s h =
      reclaim-IsEntered j n observed new_entry s h
  step-IsEntered j (touching n) s h =
      required-IsEntered j n _ s h
        (λ current. insert-IsEntered j n (record current { last_verified_at = some (now s) }) s h)
  step-IsEntered j (readying n expected) s h = required-IsEntered j n _ s h (λ current.
      claimed-IsEntered j current expected _ s h
        (insert-IsEntered j n (made_ready (now s) current) s h))
  step-IsEntered j (failing n reason expected) s h = required-IsEntered j n _ s h (λ current.
      claimed-IsEntered j current expected _ s h
        (insert-IsEntered j n (made_failed reason current) s h))
  step-IsEntered j (retiring n) s h =
      required-IsEntered j n _ s h
        (λ current. insert-IsEntered j n (record current { status = retired }) s h)

  run-IsEntered :
      (j : String) (cs : List (Call T)) (s : InMemoryIndexRegistry T)
      → IsEntered j s
      → IsEntered j (run cs s)
  run-IsEntered j [] s h = h
  run-IsEntered j (c ∷ cs) s h = run-IsEntered j cs (step c s) (step-IsEntered j c s h)

  register_enters :
      (e : IndexRegistryEntry T) (s : InMemoryIndexRegistry T)
      → IsEntered e.index_name (register e s).1
  unfolding register
  register_enters e s = by_entry (lookup e.index_name s.entries) refl
    where
      by_entry :
          (o : Option (IndexRegistryEntry T))
          → lookup e.index_name s.entries ≡ o
          → IsEntered e.index_name (register_checked e o s).1
      by_entry none missing =
          unfold register_checked in
          λ g. ground (arith, lookup-insert_self e.index_name e s.entries)
      by_entry (some x) there = unfold register_checked in λ g. ground (arith, there)

  stands :
      (e x : IndexRegistryEntry T) (s : InMemoryIndexRegistry T)
      → lookup e.index_name s.entries ≡ some x
      → register e s ≡ (x, s)
  unfolding register register_checked
  stands e x s there = rw there refl

  -- Once a worker has registered an entry, whatever calls follow, the same worker's or others', the
  -- registration of another entry under its name writes nothing, and returns the entry that stands there.
  pub register-run :
      (e later : IndexRegistryEntry T) (cs : List (Call T)) (s : InMemoryIndexRegistry T)
      → later.index_name ≡ e.index_name
      → (x : IndexRegistryEntry T) × (lookup e.index_name (run cs (register e s).1).entries
          ≡ some x)
        × (register later (run cs (register e s).1) ≡ (x, run cs (register e s).1))
  register-run e later cs s named =
      elim (Option-cases (lookup e.index_name (run cs (register e s).1).entries)) [
        | inl none_there ↦
            absurd (run-IsEntered e.index_name cs (register e s).1 (register_enters e s) none_there)
        | inr (x, there) ↦ (
          x,
          there,
          stands later x (run cs (register e s).1)
              (ap (λ n. lookup n (run cs (register e s).1).entries) named ∙ there),
        )
      ]
