-- ===== src/Scenario/Stale.antt =====
-- A read that misses while another thread writes.
use vestibule.Prelude.{
  subst, some, ap, ◌≤◌, zero, suc, ℕ, ◌+◌, ◌<◌, String, ◌≡◌, refl, Option, none, Outcome, ok, err,
  arith, [],
}
use vestibule.Dict.{lookup, insert, lookup-insert_self}
use vestibule.Scenario.{Scenario}
use vestibule.Scenario.Cached.{
  Backend, Entry, World, time, tick, empty_cache, serve, get, upsert, settle, invalidate,
}

module _ {B E : Type 0} (backend : Backend B E) (ttl_seconds : ℕ) where
  settled_ok :
      {A : Type 0} (p : Outcome E A × B) (v : A) (w : World B)
      → p.0 ≡ ok v
      → (settle backend ttl_seconds p w).1 ≡ record w { cache = empty_cache; backend = p.1 }
  unfolding settle invalidate
  settled_ok (ok x, b) v w e = refl
  settled_ok (err x, b) v w e = cc

  -- The world that the race leaves.
  raced : String → Scenario → Option Scenario → World B → World B
  raced k sc old w = record (tick w) {
    backend = (backend.upsert sc w.backend).1;
    cache = record empty_cache { by_id = insert k (old, time w) [] };
  }

  races :
      (k : String) (sc sc' : Scenario) (old : Option Scenario) (w : World B)
      → lookup k w.cache.by_id ≡ none
      → backend.get k w.backend ≡ ok old
      → (backend.upsert sc w.backend).0 ≡ ok sc'
      → (get backend ttl_seconds (λ t. t) (λ t. (upsert backend ttl_seconds sc t).1) k w).1
        ≡ raced k sc old w
  unfolding get serve upsert raced
  races k sc sc' old w cold answered written =
      ground (arith, cold, answered, settled_ok (backend.upsert sc w.backend) sc' w written)

  module _ (before within : World B → World B) (k : String) where
    -- `get` of the same id, `n` times.
    unfoldable pub gets : ℕ → World B → World B
    gets zero w = w
    gets (suc n) w = gets n (get backend ttl_seconds before within k w).1

    hit :
        (old : Option Scenario) (at : ℕ) (w : World B)
        → lookup k w.cache.by_id ≡ some (old, at)
        → time w < at + ttl_seconds
        → get backend ttl_seconds before within k w ≡ (ok old, tick w)
    unfolding get serve
    hit old at w held soon = ground (arith, held, soon)

    -- An entry is served until the clock reads its time and `ttl_seconds`.
    served :
        (n : ℕ) (old : Option Scenario) (at : ℕ) (w : World B)
        → lookup k w.cache.by_id ≡ some (old, at)
        → ((i : ℕ) → i ≤ n → w.clock (w.reads + i) < at + ttl_seconds)
        → (get backend ttl_seconds before within k (gets n w)).0 ≡ ok old
    unfolding gets
    served zero old at w held soon =
        ap (λ p. p.0)
          (hit old at w held (
            subst (λ m. w.clock m < at + ttl_seconds) {x = w.reads + 0} {y = w.reads} (omega arith)
              (soon 0 (omega arith))))
    served (suc n) old at w held soon =
        rw
          (hit old at w held (
            subst (λ m. w.clock m < at + ttl_seconds) {x = w.reads + 0} {y = w.reads} (omega arith)
              (soon 0 (omega arith))))
          (served n old at (tick w) held (λ i le.
            subst (λ m. w.clock m < at + ttl_seconds) {x = w.reads + suc i} {y = w.reads + 1 + i}
              (omega arith) (soon (suc i) (omega arith))))

-- A `get` that misses has read the old value from the backend when another thread's `upsert` runs,
-- its invalidation of the whole cache included, and only then stores what it read. The backend then
-- has what the `upsert` wrote, but `get` of the same id gives the value from before it, once or after
-- any number of such calls with nothing in between, as long as the readings of the clock are before
-- the entry's expiry.
pub get_stale :
    {B E : Type 0} (backend : Backend B E) (ttl_seconds : ℕ) (k : String) (sc sc' : Scenario)
    (old : Option Scenario) (w : World B) (n : ℕ)
    → lookup k w.cache.by_id ≡ none
    → backend.get k w.backend ≡ ok old
    → (backend.upsert sc w.backend).0 ≡ ok sc'
    → ((i : ℕ) → i ≤ n → w.clock (w.reads + 1 + i) < w.clock w.reads + ttl_seconds)
    → let w' =
        (get backend ttl_seconds (λ t. t) (λ t. (upsert backend ttl_seconds sc t).1) k w).1 in
      (w'.backend ≡ (backend.upsert sc w.backend).1)
      × ((before within : World B → World B)
          → (get backend ttl_seconds before within k
              (gets backend ttl_seconds before within k n w')).0
            ≡ ok old)
unfolding raced
get_stale backend ttl_seconds k sc sc' old w n cold answered written soon =
    rw (races backend ttl_seconds k sc sc' old w cold answered written) (
      refl,
      λ before within.
          served backend ttl_seconds before within k n old (time w)
            (raced backend ttl_seconds k sc old w)
            (lookup-insert_self {V = Entry (Option Scenario)} k (old, time w) []) soon,
    )
