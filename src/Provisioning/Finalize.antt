-- ===== src/Provisioning/Finalize.antt =====
-- Claims that are taken over, and what their former holders can still write.
use vestibule.Prelude.{String, ◌≡◌, refl, ap, ◌∙◌, ◌≢◌, some, ok, err, arith}
use vestibule.Dict.{lookup, lookup-insert_self}
use vestibule.Provisioning.Model.{ready, retired, IndexRegistryEntry}
use vestibule.Provisioning.Registry.{
  InMemoryIndexRegistry, RegistryAction, conflict, now, write, write_now, required, claimed,
  made_ready, reclaim, mark_ready, mark_failed, mark_retired,
}

abbrev pub stale : String
stale = "reclaim observed a stale snapshot; the stored entry has since changed"

abbrev pub superseded : String
superseded =
    "claim_token no longer matches the stored entry (superseded by a reclaim or a concurrent finalization)"

module _ {T : Type 0} where
  required-found :
      (n : String) (k : IndexRegistryEntry T → RegistryAction T) (s : InMemoryIndexRegistry T)
      (x : IndexRegistryEntry T)
      → lookup n s.entries ≡ some x
      → required n k s ≡ k x s
  unfolding required
  required-found n k s x found = rw (required, found) refl

  claimed-refuses :
      (x : IndexRegistryEntry T) (t : String) (k : RegistryAction T) (s : InMemoryIndexRegistry T)
      → x.claim_token ≢ some t
      → claimed x (some t) k s ≡ (err (conflict x.index_name superseded), s)
  unfolding claimed
  claimed-refuses x t k s other = ground arith

  claimed-passes :
      (x : IndexRegistryEntry T) (t : String) (k : RegistryAction T) (s : InMemoryIndexRegistry T)
      → x.claim_token ≡ some t
      → claimed x (some t) k s ≡ k s
  unfolding claimed
  claimed-passes x t k s same = ground arith

  module _ (same_template : Discrete T) where
    -- From one snapshot of an entry at most one worker reclaims it. The first reclaim stores the new
    -- entry; after it, a reclaim from the same snapshot, with whatever entry, and the writes of the former
    -- holder of the claim that finalize it either way, raise INDEX_PROVISION_CONFLICT and change nothing.
    -- The new entry must differ from the snapshot, and not carry the former holder's token.
    pub reclaim-excludes :
        (n token reason : String) (observed taken other : IndexRegistryEntry T)
        (s : InMemoryIndexRegistry T)
        → lookup n s.entries ≡ some observed
        → taken ≢ observed
        → taken.claim_token ≢ some token
        → (reclaim same_template n observed taken s ≡ (ok taken, write n taken s))
          × (reclaim same_template n observed other (write n taken s)
              ≡ (err (conflict n stale), write n taken s))
          × (mark_ready n (some token) (write n taken s)
              ≡ (err (conflict taken.index_name superseded), write n taken s))
          × (mark_failed n reason (some token) (write n taken s)
              ≡ (err (conflict taken.index_name superseded), write n taken s))
    unfolding reclaim mark_ready mark_failed
    reclaim-excludes n token reason observed taken other s found differs lost =
        let stored : lookup n (write n taken s).entries ≡ some taken =
          lookup-insert_self n taken s.entries in
        (
          ground (arith, found),
          ground (arith, stored, differs),
          required-found n _ (write n taken s) taken stored
              ∙ claimed-refuses taken token _ (write n taken s) lost,
          required-found n _ (write n taken s) taken stored
              ∙ claimed-refuses taken token _ (write n taken s) lost,
        )

  -- Retiring an entry whose claim is still held does not end the claim: its holder's `mark_ready`, with
  -- the token that it was given, makes the retired entry ready.
  mark_retired-mark_ready :
      (n token : String) (x : IndexRegistryEntry T) (s : InMemoryIndexRegistry T)
      → lookup n s.entries ≡ some x
      → x.claim_token ≡ some token
      → (mark_retired n s
          ≡ (ok (record x { status = retired }), write n (record x { status = retired }) s))
        × ((y : IndexRegistryEntry T) × (s' : InMemoryIndexRegistry T) × (mark_ready n
                (some token)
                (mark_retired n s).1
              ≡ (ok y, s'))
            × (lookup n s'.entries ≡ some y)
            × (y.status ≡ ready))
  unfolding mark_retired mark_ready
  mark_retired-mark_ready n token x s found held =
      let r = record x { status = retired } in
      let s1 = write n r s in
      let stored : lookup n s1.entries ≡ some r = lookup-insert_self n r s.entries in
      let retires : mark_retired n s ≡ (ok r, s1) = required-found n _ s x found in
      (
        retires,
        (
          made_ready (now s1) r,
          write_now n (made_ready (now s1) r) s1,
          ap (λ p. mark_ready n (some token) p.1) retires
              ∙ required-found n _ s1 r stored
              ∙ claimed-passes r token _ s1 held,
          lookup-insert_self n (made_ready (now s1) r) s1.entries,
          refl,
        ),
      )
