-- ===== src/Scenario/Coherence.antt =====
-- A cached store that one thread uses alone, with no other writer of its backend.
use vestibule.Prelude.{
  ℕ, String, ◌≡◌, refl, sym, ap, Bool, true, false, Bool-cases, ◌⊎◌, ◌∙◌, Option, none, some, List,
  Outcome, ok, err, arith, inl, inr,
}
use vestibule.Dict.{lookup, insert, lookup-insert}
use vestibule.Scenario.{Scenario}
use vestibule.Scenario.Cached.{
  Backend, Entry, World, time, tick, empty_cache, set_list, is_expired, serve, get, get_by_vertical,
  list_all, invalidate, settle,
}

-- A write that raises has written nothing.
pub record IsAtomic {B E : Type 0} (backend : Backend B E) : Type 0 where
  pub upsert_fails :
      (sc : Scenario) (b : B) (e : E)
      → (backend.upsert sc b).0 ≡ err e
      → (backend.upsert sc b).1 ≡ b
  pub delete_fails :
      (k : String) (b : B) (e : E) → (backend.delete k b).0 ≡ err e → (backend.delete k b).1 ≡ b

module _ {B E : Type 0} (backend : Backend B E) where
  -- Each entry is what the backend would answer now.
  pub record IsCoherent (w : World B) : Type 0 where
    pub ids :
        (k : String) (v : Option Scenario) (at : ℕ)
        → lookup k w.cache.by_id ≡ some (v, at)
        → backend.get k w.backend ≡ ok v
    pub verticals :
        (k : String) (v : Option Scenario) (at : ℕ)
        → lookup k w.cache.by_vertical ≡ some (v, at)
        → backend.get_by_vertical k w.backend ≡ ok v
    pub lists :
        (d : Bool) (v : List Scenario) (at : ℕ)
        → w.cache.list_cache d ≡ some (v, at)
        → backend.list_all d w.backend ≡ ok v

  tick-IsCoherent : (w : World B) → IsCoherent w → IsCoherent (tick w)
  tick-IsCoherent w h = record { ids = h.ids; verticals = h.verticals; lists = h.lists }

  emptied : (b : B) (w : World B) → IsCoherent (record w { cache = empty_cache; backend = b })
  unfolding lookup
  emptied b w = record { ids = λ k v at h. cc; verticals = λ k v at h. cc; lists = λ d v at h. cc }

  module _ (ttl_seconds : ℕ) where
    serve-cases :
        {A : Type 0} (P : Outcome E A × World B → Type 0) (entry : Option (Entry A))
        (miss : World B → Outcome E A × World B) (w : World B)
        → ((v : A) (at : ℕ) → entry ≡ some (v, at) → P (ok v, tick w))
        → P (miss w)
        → P (miss (tick w))
        → P (serve backend ttl_seconds entry miss w)
    unfolding serve
    serve-cases P none miss w hit cold expired = cold
    serve-cases P (some (v, at)) miss w hit cold expired =
        elim (Bool-cases (is_expired backend ttl_seconds at (time w))) [
          | inl old ↦ rw old expired
          | inr fresh ↦ rw fresh (hit v at refl)
        ]

    -- The answer is the backend's, which stays as it was, and so does the invariant.
    abbrev pub Transparent : {A : Type 0} → Outcome E A → World B → Outcome E A × World B → Type 0
    Transparent answer w p = (p.0 ≡ answer) × (p.1.backend ≡ w.backend) × IsCoherent p.1

    pub get-Transparent :
        (k : String) (w : World B)
        → IsCoherent w
        → Transparent (backend.get k w.backend) w (get backend ttl_seconds (λ t. t) (λ t. t) k w)
    unfolding get
    get-Transparent k w h =
        serve-cases (Transparent (backend.get k w.backend) w) (lookup k w.cache.by_id) _ w
          (λ v at e. (sym (h.ids k v at e), refl, tick-IsCoherent w h))
          (missed w refl h (backend.get k w.backend) refl)
          (missed (tick w) refl (tick-IsCoherent w h) (backend.get k w.backend) refl)
      where
        missed :
            (t : World B)
            → t.backend ≡ w.backend
            → IsCoherent t
            → (r : Outcome E (Option Scenario)) → backend.get k t.backend ≡ r
            → Transparent r w (elim r as (λ _. Outcome E (Option Scenario) × World B) [
              | err e ↦ (err e, t)
              | ok value ↦ (
                ok value,
                record (tick t) {
                  cache = record t.cache { by_id = insert k (value, time t) t.cache.by_id };
                },
              )
            ])
        missed t same g (err e) answered = (refl, same, g)
        missed t same g (ok value) answered = (
          refl,
          same,
          record {
            ids = λ j v at e.
                ground (arith, lookup-insert j k (value, time t) t.cache.by_id, g.ids j v at);
            verticals = g.verticals;
            lists = g.lists;
          },
        )

    pub get_by_vertical-Transparent :
        (k : String) (w : World B)
        → IsCoherent w
        → Transparent
            (backend.get_by_vertical k w.backend)
            w
            (get_by_vertical backend ttl_seconds (λ t. t) (λ t. t) k w)
    unfolding get_by_vertical
    get_by_vertical-Transparent k w h =
        serve-cases (Transparent (backend.get_by_vertical k w.backend) w)
          (lookup k w.cache.by_vertical) _ w
          (λ v at e. (sym (h.verticals k v at e), refl, tick-IsCoherent w h))
          (missed w refl h (backend.get_by_vertical k w.backend) refl)
          (missed (tick w) refl (tick-IsCoherent w h) (backend.get_by_vertical k w.backend) refl)
      where
        missed :
            (t : World B)
            → t.backend ≡ w.backend
            → IsCoherent t
            → (r : Outcome E (Option Scenario)) → backend.get_by_vertical k t.backend ≡ r
            → Transparent r w (elim r as (λ _. Outcome E (Option Scenario) × World B) [
              | err e ↦ (err e, t)
              | ok value ↦ (
                ok value,
                record (tick t) {
                  cache = record t.cache {
                    by_vertical = insert k (value, time t) t.cache.by_vertical;
                  };
                },
              )
            ])
        missed t same g (err e) answered = (refl, same, g)
        missed t same g (ok value) answered = (
          refl,
          same,
          record {
            ids = g.ids;
            verticals = λ j v at e.
                ground (
                  arith,
                  lookup-insert j k (value, time t) t.cache.by_vertical,
                  g.verticals j v at,
                );
            lists = g.lists;
          },
        )

    pub list_all-Transparent :
        (d : Bool) (w : World B)
        → IsCoherent w
        → Transparent
            (backend.list_all d w.backend)
            w
            (list_all backend ttl_seconds (λ t. t) (λ t. t) d w)
    unfolding list_all
    list_all-Transparent d w h =
        serve-cases (Transparent (backend.list_all d w.backend) w) (w.cache.list_cache d) _ w
          (λ v at e. (sym (h.lists d v at e), refl, tick-IsCoherent w h))
          (missed w refl h (backend.list_all d w.backend) refl)
          (missed (tick w) refl (tick-IsCoherent w h) (backend.list_all d w.backend) refl)
      where
        set :
            (d c : Bool) (x : Entry (List Scenario)) (f : Bool → Option (Entry (List Scenario)))
            (v : List Scenario) (at : ℕ)
            → set_list d x f c ≡ some (v, at)
            → ((d ≡ c) × (x.0 ≡ v)) ⊎ (f c ≡ some (v, at))
        set true true x f v at e = inl (refl, ground arith)
        set true false x f v at e = inr e
        set false true x f v at e = inr e
        set false false x f v at e = inl (refl, ground arith)

        missed :
            (t : World B)
            → t.backend ≡ w.backend
            → IsCoherent t
            → (r : Outcome E (List Scenario)) → backend.list_all d t.backend ≡ r
            → Transparent r w (elim r as (λ _. Outcome E (List Scenario) × World B) [
              | err e ↦ (err e, t)
              | ok value ↦ (
                ok value,
                record (tick t) {
                  cache = record t.cache {
                    list_cache = set_list d (value, time t) t.cache.list_cache;
                  };
                },
              )
            ])
        missed t same g (err e) answered = (refl, same, g)
        missed t same g (ok value) answered = (
          refl,
          same,
          record {
            ids = g.ids;
            verticals = g.verticals;
            lists = λ c v at e. elim (set d c (value, time t) t.cache.list_cache v at e) [
              | inl (same_key, same_value) ↦
                  ap (λ x. backend.list_all x t.backend) (sym same_key)
                  ∙ answered
                  ∙ ap ok same_value
              | inr before ↦ g.lists c v at before
            ];
          },
        )

    pub settled :
        {A : Type 0} (p : Outcome E A × B) (w : World B)
        → ((e : E) → p.0 ≡ err e → p.1 ≡ w.backend)
        → IsCoherent w
        → let (r, w') = settle backend ttl_seconds p w in
          (r ≡ p.0) × (w'.backend ≡ p.1) × IsCoherent w'
    unfolding settle invalidate
    settled (ok v, b) w keeps h = (refl, refl, emptied b w)
    settled (err e, b) w keeps h = (
      refl,
      refl,
      record {
        ids = λ k v at found. ap (backend.get k) (keeps e refl) ∙ h.ids k v at found;
        verticals = λ k v at found.
            ap (backend.get_by_vertical k) (keeps e refl) ∙ h.verticals k v at found;
        lists = λ d v at found. ap (backend.list_all d) (keeps e refl) ∙ h.lists d v at found;
      },
    )
