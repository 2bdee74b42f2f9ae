-- ===== src/Provisioning/Ready.antt =====
-- The entries that `ensure` returns to a worker that claims an index or waits for it.
use vestibule.Prelude.{
  ℕ, zero, suc, String, ◌≡◌, refl, Bool, true, false, Option, none, some, Outcome, ok, err, arith,
  Bool-cases, inl, inr, Returns, Option-cases, leb,
}
use vestibule.Dict.{lookup}
use vestibule.Scenario.{Scenario}
use vestibule.Provisioning.Model.{
  ProvisioningError, ready, provisioning, failed, retired, RegistryStatus,
}
use vestibule.Provisioning.Registry.{
  InMemoryIndexRegistry, mark_ready, required, claimed, made_ready, write_now, now,
}
use vestibule.Provisioning.World.{IndexDescription, Entry, World, IndexProvisioner}
use vestibule.Provisioning.Template.{IndexTemplate, Resolved}
use vestibule.Provisioning.Calls.{
  Call, claim_new, dispatch_existing, after_losing_claim, handle_ready, claim_and_create,
  finalize_ready, wait_for_ready, waiting, Ending, returned, Step, finishes, calls,
  after_losing_claim_step, is_conflict,
}
use vestibule.Provisioning.Create.{
  claim_new_with, claim_new_body, failing, created, describe_created, after_create, create_with,
  after_exists, claim_and_create_body, after_lost, finalized, finalize_ready_body,
}
use vestibule.Provisioning.Wait.{refreshed, poll, after_reclaim, is_stale, waiting_body}
use vestibule.Provisioning.Provisioner.{settle, body, run}

-- Not the way of a worker that finds the index ready.
abbrev pub IsClaiming : Call → Type 0
IsClaiming (dispatch_existing entry) = ⊥
IsClaiming (handle_ready entry) = ⊥
IsClaiming _ = Unit

abbrev pub IsReady : Ending → Type 0
IsReady (returned entry) = entry.status ≡ ready
IsReady _ = Unit

-- The result of a run, if there is one.
abbrev pub EndsReady : Option Ending → Type 0
EndsReady none = Unit
EndsReady (some ending) = IsReady ending

abbrev IsGood : Step → Type 0
IsGood (finishes ending) = IsReady ending
IsGood (calls call) = IsClaiming call

losing-IsGood :
    (entry : Entry) (status : RegistryStatus)
    → entry.status ≡ status
    → IsGood (after_losing_claim_step entry)
losing-IsGood entry ready h = rw h refl
losing-IsGood entry provisioning h = rw h tt
losing-IsGood entry failed h = rw h tt
losing-IsGood entry retired h = rw h tt

-- What `mark_ready` returns is ready.
claimed-Returns :
    (index_name : String) (current : Entry) (token : Option String)
    (s : InMemoryIndexRegistry IndexTemplate)
    → Returns
        (λ (e : Entry). e.status ≡ ready)
        (claimed current token
          (λ s.
            (ok (made_ready (now s) current), write_now index_name (made_ready (now s) current) s))
          s).0
unfolding claimed
claimed-Returns index_name current none s = refl
claimed-Returns index_name current (some t) s = ground arith

mark_ready-Returns :
    (index_name : String) (token : Option String) (s : InMemoryIndexRegistry IndexTemplate)
    → Returns (λ (e : Entry). e.status ≡ ready) (mark_ready index_name token s).0
unfolding mark_ready required
mark_ready-Returns index_name token s = elim (Option-cases (lookup index_name s.entries)) [
  | inl missing ↦ rw (Returns, missing) tt
  | inr (current, found) ↦ rw (Returns, found) (claimed-Returns index_name current token s)
]

module _ {S : Type 0} (self : IndexProvisioner S) (scenario : Scenario) where
  created-IsGood :
      (won : Entry) (o : Outcome ProvisioningError (Option IndexDescription)) (w : World S)
      → IsGood (created self scenario won (o, w)).0
  unfolding created failing
  created-IsGood won (err e) w = tt
  created-IsGood won (ok d) w = ground arith

  describe_created-IsGood :
      (won : Entry) (w : World S) → IsGood (describe_created self scenario won w).0
  unfolding describe_created
  describe_created-IsGood won w = created-IsGood won _ _

  after_create-IsGood :
      (won : Entry) (o : Outcome ProvisioningError (Unit {0})) (w : World S)
      → IsGood (after_create self scenario won (o, w)).0
  unfolding after_create failing
  after_create-IsGood won (err e) w = tt
  after_create-IsGood won (ok u) w = describe_created-IsGood won w

  create_with-IsGood :
      (won : Entry) (template : Option IndexTemplate) (w : World S)
      → IsGood (create_with self scenario won template w).0
  unfolding create_with
  create_with-IsGood won none w = tt
  create_with-IsGood won (some template) w = after_create-IsGood won _ _

  after_exists-IsGood :
      (won : Entry) (o : Outcome ProvisioningError Bool) (w : World S)
      → IsGood (after_exists self scenario won (o, w)).0
  unfolding after_exists
  after_exists-IsGood won (err e) w = tt
  after_exists-IsGood won (ok true) w = describe_created-IsGood won w
  after_exists-IsGood won (ok false) w = create_with-IsGood won won.resolved_template w

  after_lost-IsGood : (o : Option Entry) (w : World S) → IsGood (after_lost self scenario (o, w)).0
  after_lost-IsGood none w = tt
  after_lost-IsGood (some current) w = tt

  finalized-IsGood :
      (won : Entry) (o : Outcome ProvisioningError Entry) (w : World S)
      → Returns (λ (e : Entry). e.status ≡ ready) o
      → IsGood (finalized self scenario won (o, w)).0
  unfolding finalized
  finalized-IsGood won (ok entry) w h = h
  finalized-IsGood won (err x) w h = elim (Bool-cases (is_conflict x)) [
    | inl lost ↦ rw lost (after_lost-IsGood _ _)
    | inr other ↦ rw other tt
  ]

  claim_new_with-IsGood :
      (o : Outcome ProvisioningError Resolved) (w : World S)
      → IsGood (claim_new_with self scenario o w).0
  unfolding claim_new_with
  claim_new_with-IsGood (err e) w = tt
  claim_new_with-IsGood (ok r) w = ground arith

  claim_new_body-IsGood : (w : World S) → IsGood (claim_new_body self scenario w).0
  unfolding claim_new_body
  claim_new_body-IsGood w = elim (Bool-cases self.config.auto_create) [
    | inl creates ↦ rw creates (claim_new_with-IsGood _ w)
    | inr refuses ↦ rw refuses tt
  ]

  refreshed-IsGood :
      (index_name : String) (deadline : ℕ) (o : Option Entry) (w : World S)
      → IsGood (refreshed self index_name deadline (o, w)).0
  refreshed-IsGood index_name deadline none w = tt
  refreshed-IsGood index_name deadline (some entry) w = refreshed_status entry.status refl
    where
      refreshed_status :
          (status : RegistryStatus)
          → entry.status ≡ status
          → IsGood (refreshed self index_name deadline (some entry, w)).0
      refreshed_status ready h = rw h tt
      refreshed_status provisioning h = rw h tt
      refreshed_status failed h = rw h tt
      refreshed_status retired h = rw h tt

  poll-IsGood :
      (index_name : String) (deadline : ℕ) (w : World S)
      → IsGood (poll self index_name deadline w).0
  unfolding poll
  poll-IsGood index_name deadline w = elim (Bool-cases (leb deadline (w.clock w.reads))) [
    | inl late ↦ rw late tt
    | inr early ↦ rw early (refreshed-IsGood index_name deadline _ _)
  ]

  after_reclaim-IsGood :
      (index_name : String) (deadline : ℕ) (o : Outcome ProvisioningError Entry) (w : World S)
      → IsGood (after_reclaim self index_name deadline (o, w)).0
  unfolding after_reclaim
  after_reclaim-IsGood index_name deadline (ok entry) w = tt
  after_reclaim-IsGood index_name deadline (err x) w = elim (Bool-cases (is_conflict x)) [
    | inl lost ↦ rw lost (poll-IsGood index_name deadline w)
    | inr other ↦ rw other tt
  ]

  waiting_body-IsGood :
      (index_name : String) (current : Entry) (deadline : ℕ) (w : World S)
      → IsGood (waiting_body self index_name current deadline w).0
  unfolding waiting_body
  waiting_body-IsGood index_name current deadline w =
      elim (Bool-cases (is_stale self current.claimed_at w).0) [
        | inl stale ↦ rw stale (after_reclaim-IsGood index_name deadline _ _)
        | inr fresh ↦
            rw fresh (poll-IsGood index_name deadline (is_stale self current.claimed_at w).1)
      ]

  body-IsGood : (call : Call) (w : World S) → IsClaiming call → IsGood (body self scenario call w).0
  unfolding body claim_and_create_body finalize_ready_body
  body-IsGood claim_new w h = claim_new_body-IsGood w
  body-IsGood (dispatch_existing entry) w h = absurd h
  body-IsGood (handle_ready entry) w h = absurd h
  body-IsGood (after_losing_claim entry) w h = losing-IsGood entry entry.status refl
  body-IsGood (claim_and_create won) w h = after_exists-IsGood won _ _
  body-IsGood (finalize_ready won) w h =
      finalized-IsGood won _ _ (mark_ready-Returns won.index_name won.claim_token _)
  body-IsGood (wait_for_ready entry) w h = tt
  body-IsGood (waiting index_name current deadline) w h =
      waiting_body-IsGood index_name current deadline w

  settle-EndsReady :
      (go : Call → World S → Option Ending × World S)
      → ((call : Call) (w : World S) → IsClaiming call → EndsReady (go call w).0)
      → (p : Step × World S) → IsGood p.0
      → EndsReady (settle go p).0
  settle-EndsReady go k (finishes ending, w) h = h
  settle-EndsReady go k (calls next, w) h = k next w h

  -- Whatever other workers do, and whatever the adapter answers: a worker that claims an index, creates
  -- it or waits for another's claim is given only entries that are ready.
  pub run-EndsReady :
      (fuel : ℕ) (call : Call) (w : World S)
      → IsClaiming call
      → EndsReady (run self scenario fuel call w).0
  unfolding run
  run-EndsReady zero call w h = tt
  run-EndsReady (suc fuel) call w h =
      settle-EndsReady (λ next w'. run self scenario fuel next w') (run-EndsReady fuel)
        (body self scenario call w) (body-IsGood call w h)
