-- ===== src/Scenario/Transparent.antt =====
-- Any sequence of calls to a cached store, against the same calls to its backend.
use vestibule.Prelude.{ℕ, String, ◌≡◌, refl, ap, Bool, Option, List, [], ◌∷◌, Outcome}
use vestibule.Scenario.{Scenario}
use vestibule.Scenario.Cached.{Backend, World, get, get_by_vertical, list_all, upsert, delete}
use vestibule.Scenario.Coherence.{
  IsAtomic, IsCoherent, get-Transparent, get_by_vertical-Transparent, list_all-Transparent, settled,
}

-- A call, and an answer to it.
pub data Op : Type 0 where
  get_op get_by_vertical_op delete_op : String → Op
  list_all_op : Bool → Op
  upsert_op : Scenario → Op

pub data Answer (E : Type 0) : Type 0 where
  found : Outcome E (Option Scenario) → Answer E
  listed : Outcome E (List Scenario) → Answer E
  stored : Outcome E Scenario → Answer E
  deleted : Outcome E Bool → Answer E

module _ {B E : Type 0} (backend : Backend B E) (ttl_seconds : ℕ) where
  -- The backend asked directly.
  unfoldable pub direct : Op → B → Answer E × B
  direct (get_op k) b = (found (backend.get k b), b)
  direct (get_by_vertical_op k) b = (found (backend.get_by_vertical k b), b)
  direct (list_all_op d) b = (listed (backend.list_all d b), b)
  direct (upsert_op sc) b = let (r, b') = backend.upsert sc b in (stored r, b')
  direct (delete_op k) b = let (r, b') = backend.delete k b in (deleted r, b')

  unfoldable pub direct_all : List Op → B → List (Answer E)
  direct_all [] b = []
  direct_all (op ∷ ops) b = let (a, b') = direct op b in a ∷ direct_all ops b'

  unfoldable pub step : Op → World B → Answer E × World B
  step (get_op k) w = let (r, w') = get backend ttl_seconds (λ t. t) (λ t. t) k w in (found r, w')
  step (get_by_vertical_op k) w =
      let (r, w') = get_by_vertical backend ttl_seconds (λ t. t) (λ t. t) k w in (found r, w')
  step (list_all_op d) w =
      let (r, w') = list_all backend ttl_seconds (λ t. t) (λ t. t) d w in (listed r, w')
  step (upsert_op sc) w = let (r, w') = upsert backend ttl_seconds sc w in (stored r, w')
  step (delete_op k) w = let (r, w') = delete backend ttl_seconds k w in (deleted r, w')

  unfoldable pub step_all : List Op → World B → List (Answer E)
  step_all [] w = []
  step_all (op ∷ ops) w = let (a, w') = step op w in a ∷ step_all ops w'

  step-direct :
      (op : Op) (w : World B)
      → IsAtomic backend
      → IsCoherent backend w
      → ((step op w).0 ≡ (direct op w.backend).0)
        × ((step op w).1.backend ≡ (direct op w.backend).1)
        × IsCoherent backend (step op w).1
  unfolding step direct upsert delete
  step-direct (get_op k) w atomic h =
      let (a, b, c) = get-Transparent backend ttl_seconds k w h in (ap found a, b, c)
  step-direct (get_by_vertical_op k) w atomic h =
      let (a, b, c) = get_by_vertical-Transparent backend ttl_seconds k w h in (ap found a, b, c)
  step-direct (list_all_op d) w atomic h =
      let (a, b, c) = list_all-Transparent backend ttl_seconds d w h in (ap listed a, b, c)
  step-direct (upsert_op sc) w atomic h =
      let (a, b, c) =
        settled backend ttl_seconds (backend.upsert sc w.backend) w
          (atomic.upsert_fails sc w.backend) h in
      (ap stored a, b, c)
  step-direct (delete_op k) w atomic h =
      let (a, b, c) =
        settled backend ttl_seconds (backend.delete k w.backend) w (atomic.delete_fails k w.backend)
          h in
      (ap deleted a, b, c)

  -- A thread that alone uses the cached store, over a backend that nobody else writes and whose
  -- failed writes write nothing, gets for any sequence of calls, from a coherent cache, exactly the
  -- answers of the backend itself, whatever the clock and the time to live.
  pub step_all-direct_all :
      (ops : List Op) (w : World B)
      → IsAtomic backend
      → IsCoherent backend w
      → step_all ops w ≡ direct_all ops w.backend
  unfolding step_all direct_all
  step_all-direct_all [] w atomic h = refl
  step_all-direct_all (op ∷ ops) w atomic h =
      let (a, b, c) = step-direct op w atomic h in
      rw (a, step_all-direct_all ops (step op w).1 atomic c, b) refl
