-- ===== src/Provisioning/Bounded.antt =====
-- The wait for another worker's claim is bounded.
use vestibule.Prelude.{
  ℕ, zero, suc, ◌+◌, ◌≤◌, ◌<◌, String, ◌≡◌, refl, ap, ◌∙◌, leb, Bool-cases, inl, inr, Option, none,
  some, Outcome, ok, err, arith,
}
use vestibule.Scenario.{Scenario}
use vestibule.Provisioning.Model.{
  RegistryStatus, ready, provisioning, failed, retired, ProvisioningError,
}
use vestibule.Provisioning.World.{Entry, World, IndexProvisioner, tick}
use vestibule.Provisioning.Calls.{
  claim_new, dispatch_existing, after_losing_claim, handle_ready, claim_and_create, finalize_ready,
  wait_for_ready, waiting, Step, finishes, calls, is_conflict, observed,
}
use vestibule.Provisioning.Wait.{
  refreshed, poll, after_reclaim, try_reclaim, is_stale, waiting_body,
}
use vestibule.Provisioning.Provisioner.{settle, body, run}

-- The clock has been read `n` times at least, and its k-th reading is `k` or later: time goes on by a
-- microsecond at each reading.
abbrev pub IsLate : {S : Type 0} → ℕ → World S → Type 0
IsLate n w = (n ≤ w.reads) × ((k : ℕ) → k ≤ w.clock k)

-- The step leaves the wait.
abbrev pub IsElsewhere : Step → Type 0
IsElsewhere (calls (waiting index_name current deadline)) = ⊥
IsElsewhere _ = Unit

tick-IsLate : {S : Type 0} (n : ℕ) (w : World S) → IsLate n w → IsLate (suc n) (tick w).1
tick-IsLate n w h = (omega (arith, h.0), h.1)

weaker : {S : Type 0} (n : ℕ) (w : World S) → IsLate (suc n) w → IsLate n w
weaker n w h = (omega (arith, h.0), h.1)

module _ {S : Type 0} (self : IndexProvisioner S) (scenario : Scenario)
    (turns : (n : ℕ) (w : World S) → IsLate n w → IsLate n (self.turn w)) (index_name : String)
    (deadline : ℕ) where
  -- A step that stays in the wait comes before the deadline.
  abbrev Advances : ℕ → Step × World S → Type 0
  Advances n (calls (waiting name current d), w) =
      (name ≡ index_name) × (d ≡ deadline) × (n < deadline) × IsLate (suc n) w
  Advances n _ = Unit

  refreshed-Advances :
      (n : ℕ) (o : Option Entry) (w : World S)
      → n < deadline
      → IsLate (suc n) w
      → Advances n (refreshed self index_name deadline (o, w))
  refreshed-Advances n none w early late = tt
  refreshed-Advances n (some entry) w early late = by_status entry.status refl
    where
      by_status :
          (status : RegistryStatus)
          → entry.status ≡ status
          → Advances n (refreshed self index_name deadline (some entry, w))
      by_status ready h = rw h tt
      by_status provisioning h = rw h (refl, refl, early, late)
      by_status failed h = rw h tt
      by_status retired h = rw h tt

  poll-Advances : (n : ℕ) (w : World S) → IsLate n w → Advances n (poll self index_name deadline w)
  unfolding poll
  poll-Advances n w late = elim (Bool-cases (leb deadline (w.clock w.reads))) [
    | inl over ↦ rw over tt
    | inr early ↦ rw early (
        refreshed-Advances n (observed self index_name (tick w).1).0 (self.turn (tick w).1)
          (ground (arith, early, late.0, late.1 w.reads))
          (turns (suc n) (tick w).1 (tick-IsLate n w late)))
  ]

  is_stale-IsLate :
      (n : ℕ) (since : Option ℕ) (w : World S) → IsLate n w → IsLate n (is_stale self since w).1
  unfolding is_stale
  is_stale-IsLate n none w late = late
  is_stale-IsLate n (some since) w late = weaker n (tick w).1 (tick-IsLate n w late)

  try_reclaim-IsLate :
      (n : ℕ) (current : Entry) (w : World S) → IsLate n w → IsLate n (try_reclaim self current w).1
  unfolding try_reclaim
  try_reclaim-IsLate n current w late =
      turns n (record w { reads = w.reads + 1; minted = w.minted + 1 })
        (omega (arith, late.0), late.1)

  after_reclaim-Advances :
      (n : ℕ) (o : Outcome ProvisioningError Entry) (w : World S)
      → IsLate n w
      → Advances n (after_reclaim self index_name deadline (o, w))
  unfolding after_reclaim
  after_reclaim-Advances n (ok entry) w late = tt
  after_reclaim-Advances n (err x) w late = elim (Bool-cases (is_conflict x)) [
    | inl lost ↦ rw lost (poll-Advances n w late)
    | inr other ↦ rw other tt
  ]

  waiting_body-Advances :
      (n : ℕ) (current : Entry) (w : World S)
      → IsLate n w
      → Advances n (waiting_body self index_name current deadline w)
  unfolding waiting_body
  waiting_body-Advances n current w late =
      elim (Bool-cases (is_stale self current.claimed_at w).0) [
        | inl stale ↦ rw stale (
            after_reclaim-Advances n _ _
              (try_reclaim-IsLate n current _ (is_stale-IsLate n current.claimed_at w late)))
        | inr fresh ↦ rw fresh (
            poll-Advances n (is_stale self current.claimed_at w).1
              (is_stale-IsLate n current.claimed_at w late))
      ]

  -- After `rounds` rounds the wait is left, by a step to somewhere else.
  pub record Leaves (rounds : ℕ) (current : Entry) (w : World S) : Type 0 where
    pub step : Step
    pub world : World S
    pub elsewhere : IsElsewhere step
    pub goes_on :
        (fuel : ℕ)
        → run self scenario (rounds + fuel) (waiting index_name current deadline) w
          ≡ settle (λ next w'. run self scenario fuel next w') (step, world)

  suc_add : (m fuel : ℕ) → suc m + fuel ≡ suc (m + fuel)
  suc_add m fuel = omega arith

  zero_add : (fuel : ℕ) → 0 + fuel ≡ fuel
  zero_add fuel = omega arith

  leave_now :
      (current : Entry) (w : World S) (step : Step) (w' : World S)
      → IsElsewhere step
      → waiting_body self index_name current deadline w ≡ (step, w')
      → Leaves 1 current w
  unfolding run body
  leave_now current w step w' away made = record {
    step = step;
    world = w';
    elsewhere = away;
    goes_on = λ fuel.
        rw (suc_add 0 fuel, made)
          (ap (λ k. settle (λ next w''. run self scenario k next w'') (step, w')) (zero_add fuel));
  }

  leave_later :
      (m : ℕ) (current next : Entry) (w w' : World S)
      → waiting_body self index_name current deadline w
        ≡ (calls (waiting index_name next deadline), w')
      → Leaves m next w'
      → Leaves (suc m) current w
  unfolding run body
  leave_later m current next w w' made later = record {
    step = later.step;
    world = later.world;
    elsewhere = later.elsewhere;
    goes_on = λ fuel. rw (suc_add m fuel, made) (later.goes_on fuel);
  }

  abbrev Bounded : ℕ → Entry → World S → Type 0
  Bounded k current w = (m : ℕ) × (m ≤ suc k) × Leaves m current w

  now : (k : ℕ) (current : Entry) (w : World S) → Leaves 1 current w → Bounded k current w
  now k current w l = (1, omega arith, l)

  rounds :
      (k n : ℕ) (current : Entry) (w : World S) (p : Step × World S)
      → ((next : Entry) (w' : World S) → n < deadline → IsLate (suc n) w' → Bounded k next w')
      → Advances n p
      → waiting_body self index_name current deadline w ≡ p
      → Bounded (suc k) current w
  rounds k n current w (finishes e, w') more h made =
      now (suc k) current w (leave_now current w _ w' tt made)
  rounds k n current w (calls claim_new, w') more h made =
      now (suc k) current w (leave_now current w _ w' tt made)
  rounds k n current w (calls (dispatch_existing e), w') more h made =
      now (suc k) current w (leave_now current w _ w' tt made)
  rounds k n current w (calls (after_losing_claim e), w') more h made =
      now (suc k) current w (leave_now current w _ w' tt made)
  rounds k n current w (calls (handle_ready e), w') more h made =
      now (suc k) current w (leave_now current w _ w' tt made)
  rounds k n current w (calls (claim_and_create e), w') more h made =
      now (suc k) current w (leave_now current w _ w' tt made)
  rounds k n current w (calls (finalize_ready e), w') more h made =
      now (suc k) current w (leave_now current w _ w' tt made)
  rounds k n current w (calls (wait_for_ready e), w') more h made =
      now (suc k) current w (leave_now current w _ w' tt made)
  rounds k n current w (calls (waiting name next d), w') more (named, due, early, late) made =
      let (m, few, later) = more next w' early late in
      (
        suc m,
        omega (arith, few),
        leave_later m current next w w' (made ∙ (λ i. (calls (waiting (named i) next (due i)), w')))
            later,
      )

  -- Suppose that the clock goes on by a microsecond at each reading, whatever other workers do while this
  -- one sleeps. A worker that waits until `deadline`, and has read the clock `n` times, leaves the wait
  -- within `deadline - n + 2` rounds: with an error, such as the timeout, or to claim the index, to create
  -- it, or to take what another worker has made of it.
  pub wait_bounded :
      (k n : ℕ) (current : Entry) (w : World S)
      → deadline ≤ n + k
      → IsLate n w
      → (m : ℕ) × (m ≤ k + 2) × Leaves m current w
  wait_bounded zero n current w near late =
      let (m, few, l) =
        rounds zero n current w (waiting_body self index_name current deadline w)
          (λ next w' early late'. absurd (omega (arith, early, near)))
          (waiting_body-Advances n current w late) refl in
      (m, omega (arith, few), l)
  wait_bounded (suc k) n current w near late =
      let (m, few, l) =
        rounds (suc k) n current w (waiting_body self index_name current deadline w)
          (λ next w' early late'.
            let (m, few, l) = wait_bounded k (suc n) next w' (omega (arith, near)) late' in
            (m, omega (arith, few), l))
          (waiting_body-Advances n current w late) refl in
      (m, omega (arith, few), l)
