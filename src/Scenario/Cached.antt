-- ===== src/Scenario/Cached.antt =====
-- src/vestibule/scenario/stores/cached_store.py over any backend. Other threads may run between the
-- lookup in the cache and the backend's read (`before`), and between that and the write to the
-- cache (`within`); a write and its invalidation are one step. Times are numbers, and the clock is
-- any sequence of them.
use vestibule.Prelude.{
  ℕ, ◌+◌, String, Bool, Option, none, some, List, [], Outcome, ok, err, leb, if◌then◌else◌, true,
  false,
}
use vestibule.Dict.{Dict, lookup, insert}
use vestibule.Scenario.{Scenario}

-- What the wrapped store does in its state `B`; its calls may raise an `E`.
pub record Backend (B E : Type 0) : Type 0 where
  pub get : String → B → Outcome E (Option Scenario)
  pub get_by_vertical : String → B → Outcome E (Option Scenario)
  pub list_all : Bool → B → Outcome E (List Scenario)
  pub upsert : Scenario → B → Outcome E Scenario × B
  pub delete : String → B → Outcome E Bool × B

-- A stamped value.
abbrev pub Entry : Type 0 → Type 0
Entry A = A × ℕ

pub record Cache : Type 0 where
  pub by_id : Dict (Entry (Option Scenario))
  pub by_vertical : Dict (Entry (Option Scenario))
  pub list_cache : Bool → Option (Entry (List Scenario))

pub record World (B : Type 0) : Type 0 where
  pub cache : Cache
  pub backend : B
  pub clock : ℕ → ℕ
  pub reads : ℕ

abbrev pub time : {B : Type 0} → World B → ℕ
time w = w.clock w.reads

-- The world after a reading of the clock.
abbrev pub tick : {B : Type 0} → World B → World B
tick w = record w { reads = w.reads + 1 }

abbrev pub empty_cache : Cache
empty_cache = record { by_id = []; by_vertical = []; list_cache = λ b. none }

-- `d[b] = v` for a dict keyed by a Boolean
abbrev pub set_list :
    Bool
    → Entry (List Scenario)
    → (Bool → Option (Entry (List Scenario)))
    → Bool
    → Option (Entry (List Scenario))
set_list true v d true = some v
set_list true v d false = d false
set_list false v d true = d true
set_list false v d false = some v

module _ {B E : Type 0} (backend : Backend B E) (ttl_seconds : ℕ) where
  -- `_is_expired`, at the time that the clock gives.
  abbrev pub is_expired : ℕ → ℕ → Bool
  is_expired cached_at now = leb (cached_at + ttl_seconds) now

  -- A fresh entry, or what a miss does; the clock is read when there is an entry.
  unfoldable pub serve :
      {A : Type 0}
      → Option (Entry A)
      → (World B → Outcome E A × World B)
      → World B
      → Outcome E A × World B
  serve none miss w = miss w
  serve (some (value, cached_at)) miss w =
      if is_expired cached_at (time w) then miss (tick w) else (ok value, tick w)

  unfoldable pub get :
      (before within : World B → World B) → String → World B → Outcome E (Option Scenario) × World B
  unfolding serve
  get before within k w =
      serve (lookup k w.cache.by_id)
        (λ t.
          let u = before t in
          elim (backend.get k u.backend) [
            | err e ↦ (err e, u)
            | ok value ↦
                let v = within u in
                (
                  ok value,
                  record (tick v) {
                    cache = record v.cache { by_id = insert k (value, time v) v.cache.by_id };
                  },
                )
          ])
        w

  unfoldable pub get_by_vertical :
      (before within : World B → World B) → String → World B → Outcome E (Option Scenario) × World B
  unfolding serve
  get_by_vertical before within k w =
      serve (lookup k w.cache.by_vertical)
        (λ t.
          let u = before t in
          elim (backend.get_by_vertical k u.backend) [
            | err e ↦ (err e, u)
            | ok value ↦
                let v = within u in
                (
                  ok value,
                  record (tick v) {
                    cache = record v.cache {
                      by_vertical = insert k (value, time v) v.cache.by_vertical;
                    };
                  },
                )
          ])
        w

  unfoldable pub list_all :
      (before within : World B → World B) → Bool → World B → Outcome E (List Scenario) × World B
  unfolding serve
  list_all before within b w =
      serve (w.cache.list_cache b)
        (λ t.
          let u = before t in
          elim (backend.list_all b u.backend) [
            | err e ↦ (err e, u)
            | ok value ↦
                let v = within u in
                (
                  ok value,
                  record (tick v) {
                    cache = record v.cache {
                      list_cache = set_list b (value, time v) v.cache.list_cache;
                    };
                  },
                )
          ])
        w

  -- `invalidate`, which ignores its argument.
  unfoldable pub invalidate : World B → World B
  invalidate w = record w { cache = empty_cache }

  -- `upsert` and `delete` once the backend has answered: an exception skips the invalidation.
  unfoldable pub settle : {A : Type 0} → Outcome E A × B → World B → Outcome E A × World B
  unfolding invalidate
  settle (ok value, b) w = (ok value, invalidate (record w { backend = b }))
  settle (err e, b) w = (err e, record w { backend = b })

  unfoldable pub upsert : Scenario → World B → Outcome E Scenario × World B
  unfolding settle
  upsert scenario w = settle (backend.upsert scenario w.backend) w

  unfoldable pub delete : String → World B → Outcome E Bool × World B
  unfolding settle
  delete k w = settle (backend.delete k w.backend) w
