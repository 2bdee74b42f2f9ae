-- ===== src/Provisioning/Provisioner.antt =====
-- `IndexProvisioner.ensure` of src/vestibule/provisioning/provisioner.py. `body` runs a method up to the
-- call that it ends in or to its result, and `run` goes on from call to call, on fuel.
use vestibule.Prelude.{ℕ, zero, suc, ◌+◌, Option, none, some}
use vestibule.Scenario.{Scenario}
use vestibule.Provisioning.World.{Entry, World, IndexProvisioner, tick}
use vestibule.Provisioning.Calls.{
  Call, claim_new, dispatch_existing, after_losing_claim, handle_ready, claim_and_create,
  finalize_ready, wait_for_ready, waiting, Ending, Step, finishes, calls, dispatch_existing_step,
  after_losing_claim_step, observed,
}
use vestibule.Provisioning.Verify.{handle_ready_from}
use vestibule.Provisioning.Create.{claim_new_body, claim_and_create_body, finalize_ready_body}
use vestibule.Provisioning.Wait.{waiting_body}

abbrev pub settle :
    {S : Type 0}
    → (Call → World S → Option Ending × World S)
    → Step × World S
    → Option Ending × World S
settle go (finishes ending, w) = (some ending, w)
settle go (calls next, w) = go next w

module _ {S : Type 0} (self : IndexProvisioner S) (scenario : Scenario) where
  unfoldable pub body : Call → World S → Step × World S
  unfolding claim_new_body handle_ready_from claim_and_create_body finalize_ready_body waiting_body
  body claim_new w = claim_new_body self scenario w
  body (dispatch_existing entry) w = (dispatch_existing_step entry, w)
  body (after_losing_claim entry) w = (after_losing_claim_step entry, w)
  body (handle_ready entry) w = handle_ready_from self scenario entry entry.last_verified_at w
  body (claim_and_create won) w = claim_and_create_body self scenario won w
  body (finalize_ready won) w = finalize_ready_body self scenario won w
  body (wait_for_ready entry) w =
      let (now, w') = tick w in
      (calls (waiting entry.index_name entry (now + self.config.wait_for_provisioning_timeout)), w')
  body (waiting index_name current deadline) w = waiting_body self index_name current deadline w

  -- From call to call.
  unfoldable pub run : ℕ → Call → World S → Option Ending × World S
  unfolding body
  run zero call w = (none, w)
  run (suc fuel) call w = settle (λ next w'. run fuel next w') (body call w)

  abbrev pub first_call : Option Entry → Call
  first_call none = claim_new
  first_call (some entry) = dispatch_existing entry

  unfoldable pub ensure : ℕ → World S → Option Ending × World S
  unfolding run
  ensure fuel w =
      let (entry, w') = observed self scenario.index_name w in run fuel (first_call entry) w'
