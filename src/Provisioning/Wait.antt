-- ===== src/Provisioning/Wait.antt =====
-- `_wait_for_ready` and `_try_reclaim` of src/vestibule/provisioning/provisioner.py.
use vestibule.Prelude.{
  ℕ, String, Bool, false, Option, none, some, leb, if◌then◌else◌, Outcome, ok, err,
}
use vestibule.Provisioning.Model.{ProvisioningError, index_provision_timeout, provisioning}
use vestibule.Provisioning.Registry.{reclaim}
use vestibule.Provisioning.Equality.{template_discrete}
use vestibule.Provisioning.World.{Entry, World, IndexProvisioner, tick, mint}
use vestibule.Provisioning.Calls.{
  claim_new, after_losing_claim, claim_and_create, waiting, raised, Step, finishes, calls, error_of,
  elapsed, is_conflict, on_registry, observed,
}

module _ {S : Type 0} (self : IndexProvisioner S) where
  -- What a worker that waits finds after it slept.
  abbrev pub refreshed : String → ℕ → Option Entry × World S → Step × World S
  refreshed index_name deadline (none, w) = (calls claim_new, w)
  refreshed index_name deadline (some entry, w) = (
    elim entry.status [
      | provisioning ↦ calls (waiting index_name entry deadline)
      | _ ↦ calls (after_losing_claim entry)
    ],
    w,
  )

  -- The rest of the loop's body, when there was nothing to reclaim.
  unfoldable pub poll : String → ℕ → World S → Step × World S
  poll index_name deadline w =
      let (now, w') = tick w in
      if leb deadline now
      then (
        finishes (
            raised (
              error_of index_name
                "timed out waiting for another worker's provisioning claim to reach ready"
                index_provision_timeout)),
        w',
      )
      else refreshed index_name deadline (observed self index_name w')

  abbrev pub reclaimed_as : Entry → (now : ℕ) (token : String) → Entry
  reclaimed_as current now token = record current {
    claim_token = some token;
    claimed_at = some now;
  }

  -- What follows the attempt to reclaim.
  unfoldable pub after_reclaim :
      String → ℕ → Outcome ProvisioningError Entry × World S → Step × World S
  unfolding poll
  after_reclaim index_name deadline (ok entry, w) = (calls (claim_and_create entry), w)
  after_reclaim index_name deadline (err x, w) =
      if is_conflict x then poll index_name deadline w else (finishes (raised x), w)

  -- `_try_reclaim`
  unfoldable pub try_reclaim : Entry → World S → Outcome ProvisioningError Entry × World S
  try_reclaim current w =
      let (token, w1) = mint w in
      let (now, w2) = tick w1 in
      on_registry self
        (reclaim template_discrete current.index_name current (reclaimed_as current now token)) w2

  -- `_is_stale`
  unfoldable pub is_stale : Option ℕ → World S → Bool × World S
  is_stale none w = (false, w)
  is_stale (some since) w =
      let (now, w') = tick w in (elapsed now since self.config.provisioning_stale_after, w')

  -- One round of the loop of `_wait_for_ready`.
  unfoldable pub waiting_body : String → Entry → ℕ → World S → Step × World S
  unfolding poll after_reclaim try_reclaim is_stale
  waiting_body index_name current deadline w =
      let (stale, w') = is_stale current.claimed_at w in
      if stale
      then after_reclaim index_name deadline (try_reclaim current w')
      else poll index_name deadline w'
