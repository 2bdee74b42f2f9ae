-- ===== src/Scenario/Consistent.antt =====
-- Which scenarios src/vestibule/scenario/model.py lets be constructed.
use vestibule.Prelude.{
  String, ◌≡◌, refl, ◌↔◌, true, false, Bool, ℤ, pos, leb_ℤ, leb_ℤ→≤ℤ, ≤ℤ→leb_ℤ, ◌≤ℤ◌, Option, none,
  some, ok, err, not, ◌&&◌, raise_if, ◌>>◌, Outcome, arith, ite, if_pos, ℤ_discrete,
  string_discrete, Format, ap, sym, subst, ◌∙◌,
}
use vestibule.Identity.{codes}
use vestibule.Scenario.{
  Adapter, azure_openai, fastembed, Scenario, ChunkerSettings, EmbedderSettings, IndexerSettings,
}
use vestibule.Scenario.IndexName.{IndexName, &&-both, match_index_name_iff}
use vestibule.Scenario.Validation.{
  unrecognized, match_index_name, native_dimensions, effective, exceeds, validate_index_name,
  validate_chunker_bounds, validate_effective, validate_dimension_consistency,
  validate_cross_field_invariants,
}

-- The models whose length of vectors is known.
abbrev pub IsNative : Adapter → String → ℤ → Type 0
IsNative azure_openai model native = (model ≡ "text-embedding-3-large") × (native ≡ pos 3072)
IsNative fastembed model native = (model ≡ "nomic-ai/nomic-embed-text-v1.5") × (native ≡ pos 768)

-- The length of the vectors that a target, or none, makes of a model's.
abbrev pub Truncated : Option ℤ → ℤ → ℤ → Type 0
Truncated none native dimensions = dimensions ≡ native
Truncated (some target) native dimensions = (target ≤ℤ native) × (dimensions ≡ target)

abbrev pub Consistent : Scenario → Type 0
Consistent sc =
    IndexName (codes sc.index_name)
    × (sc.chunker.min_chunk_tokens ≤ℤ sc.chunker.target_chunk_tokens)
    × (sc.chunker.target_chunk_tokens ≤ℤ sc.chunker.max_chunk_tokens)
    × ((native : ℤ) × IsNative sc.embedder.adapter sc.embedder.model native
        × Truncated sc.embedder.target_dimensions native sc.indexer.dimensions)

known :
    (model name : String) (native n : ℤ)
    → ite (string_discrete model name) (some n) none ≡ some native
    → (model ≡ name) × (native ≡ n)
known model name native n h = chosen (string_discrete model name) h
  where
    chosen :
        (d : Dec (model ≡ name)) → ite d (some n) none ≡ some native → (model ≡ name) × (native ≡ n)
    chosen (yes e) h = (e, ground arith)
    chosen (no e) h = cc

native_dimensions_iff :
    (adapter : Adapter) (model : String) (native : ℤ)
    → (native_dimensions adapter model ≡ some native) ↔ IsNative adapter model native
unfolding native_dimensions
native_dimensions_iff azure_openai model native = (
  known model "text-embedding-3-large" native (pos 3072),
  λ t.
      let (m, n) = t in
      if_pos (string_discrete model "text-embedding-3-large") m _ _ ∙ ap some (sym n),
)
native_dimensions_iff fastembed model native = (
  known model "nomic-ai/nomic-embed-text-v1.5" native (pos 768),
  λ t.
      let (m, n) = t in
      if_pos (string_discrete model "nomic-ai/nomic-embed-text-v1.5") m _ _ ∙ ap some (sym n),
)

raise_if-ok : (b : Bool) (e : String) → raise_if (not b) e ≡ ok tt → b ≡ true
raise_if-ok true e h = refl
raise_if-ok false e h = cc

-- Two checks pass when each does.
both :
    {A : Type 0} (m : Outcome String (Unit {0})) (k : Outcome String A) (a : A)
    → m >> k ≡ ok a
    → (m ≡ ok tt) × (k ≡ ok a)
both (ok u) k a h = (refl, h)
both (err e) k a h = cc

abbrev passes : Outcome String (Unit {0})
passes = ok tt

same_iff : (a b : ℤ) (e : String) → (ite (ℤ_discrete a b) passes (err e) ≡ passes) ↔ (a ≡ b)
same_iff a b e = (chosen (ℤ_discrete a b), λ same. if_pos (ℤ_discrete a b) same _ _)
  where
    chosen : (d : Dec (a ≡ b)) → ite d passes (err e) ≡ passes → a ≡ b
    chosen (yes same) h = same
    chosen (no differ) h = cc

effective_iff :
    (target : Option ℤ) (native dimensions : ℤ) (above other : String)
    → (raise_if (exceeds target native) above
          >> ite (ℤ_discrete dimensions (effective target native)) passes (err other)
        ≡ passes)
      ↔ Truncated target native dimensions
effective_iff none native dimensions above other = same_iff dimensions native other
effective_iff (some target) native dimensions above other = (
  λ h.
      let (below, same) =
        both (raise_if (not (leb_ℤ target native)) above)
          (ite (ℤ_discrete dimensions target) passes (err other)) tt h in
      (
        leb_ℤ→≤ℤ target native (raise_if-ok (leb_ℤ target native) above below),
        (same_iff dimensions target other).0 same,
      ),
  λ t. rw (≤ℤ→leb_ℤ target native t.0) ((same_iff dimensions target other).1 t.1),
)

module _ (py : Format) where
  validate_index_name_iff :
      (name : String) → (validate_index_name py name ≡ ok tt) ↔ IndexName (codes name)
  unfolding validate_index_name
  validate_index_name_iff name = (
    λ h. (match_index_name_iff (codes name)).0 (raise_if-ok (match_index_name (codes name)) _ h),
    λ t. rw ((match_index_name_iff (codes name)).1 t) refl,
  )

  validate_chunker_bounds_iff :
      (chunker : ChunkerSettings)
      → (validate_chunker_bounds py chunker ≡ ok tt) ↔ (
          (chunker.min_chunk_tokens ≤ℤ chunker.target_chunk_tokens)
          × (chunker.target_chunk_tokens ≤ℤ chunker.max_chunk_tokens))
  unfolding validate_chunker_bounds
  validate_chunker_bounds_iff chunker = (
    λ h.
        let (low, high) =
          &&-both (leb_ℤ chunker.min_chunk_tokens chunker.target_chunk_tokens)
            (leb_ℤ chunker.target_chunk_tokens chunker.max_chunk_tokens)
            (raise_if-ok
              (leb_ℤ chunker.min_chunk_tokens chunker.target_chunk_tokens
                && leb_ℤ chunker.target_chunk_tokens chunker.max_chunk_tokens)
              _ h) in
        (
          leb_ℤ→≤ℤ chunker.min_chunk_tokens chunker.target_chunk_tokens low,
          leb_ℤ→≤ℤ chunker.target_chunk_tokens chunker.max_chunk_tokens high,
        ),
    λ t.
        rw
          (
            ≤ℤ→leb_ℤ chunker.min_chunk_tokens chunker.target_chunk_tokens t.0,
            ≤ℤ→leb_ℤ chunker.target_chunk_tokens chunker.max_chunk_tokens t.1,
          )
          refl,
  )

  validate_effective_iff :
      (embedder : EmbedderSettings) (indexer : IndexerSettings) (native : ℤ)
      → (validate_effective py embedder indexer native ≡ ok tt)
        ↔ Truncated embedder.target_dimensions native indexer.dimensions
  unfolding validate_effective
  validate_effective_iff embedder indexer native =
      effective_iff embedder.target_dimensions native indexer.dimensions _ _

  validate_dimension_consistency_iff :
      (embedder : EmbedderSettings) (indexer : IndexerSettings)
      → (validate_dimension_consistency py embedder indexer ≡ ok tt) ↔ (
          (native : ℤ) × IsNative embedder.adapter embedder.model native
          × Truncated embedder.target_dimensions native indexer.dimensions)
  unfolding validate_dimension_consistency
  validate_dimension_consistency_iff embedder indexer =
      found (native_dimensions embedder.adapter embedder.model)
        (native_dimensions_iff embedder.adapter embedder.model)
    where
      found :
          (o : Option ℤ)
          → ((native : ℤ) → (o ≡ some native) ↔ IsNative embedder.adapter embedder.model native)
          → (elim o as (λ _. Outcome String (Unit {0})) [
            | none ↦ err (unrecognized py embedder)
            | some native ↦ validate_effective py embedder indexer native
          ]
              ≡ ok tt)
            ↔ ((native : ℤ) × IsNative embedder.adapter embedder.model native
                × Truncated embedder.target_dimensions native indexer.dimensions)
      found none iff = (λ h. cc, λ t. let (native, is, cut) = t in absurd (cc ((iff native).1 is)))
      found (some n) iff = (
        λ h. (n, (iff n).0 refl, (validate_effective_iff embedder indexer n).0 h),
        λ t.
            let (native, is, cut) = t in
            (validate_effective_iff embedder indexer n).1 (
              subst (λ m. Truncated embedder.target_dimensions m indexer.dimensions)
                (ground (arith, (iff native).1 is)) cut),
      )

  -- A scenario whose fields are otherwise in order can be constructed exactly when its index name is
  -- a letter or digit, at most 126 letters, digits or dashes and a letter or digit, all in lower
  -- case, possibly with one newline after them, its chunk sizes are ordered, its model is known, and
  -- the vectors of its index are as long as the model's, or as long as a target that is at most that.
  pub validate_cross_field_invariants_iff :
      (sc : Scenario) → (validate_cross_field_invariants py sc ≡ ok sc) ↔ Consistent sc
  unfolding validate_cross_field_invariants
  validate_cross_field_invariants_iff sc = (
    λ h.
        let (checked, rest) =
          both
            (validate_index_name py sc.index_name
              >> validate_chunker_bounds py sc.chunker
              >> validate_dimension_consistency py sc.embedder sc.indexer)
            (ok sc) sc h in
        let (first, dims) =
          both (validate_index_name py sc.index_name >> validate_chunker_bounds py sc.chunker)
            (validate_dimension_consistency py sc.embedder sc.indexer) tt checked in
        let (name, bounds) =
          both (validate_index_name py sc.index_name) (validate_chunker_bounds py sc.chunker) tt
            first in
        let (low, high) = (validate_chunker_bounds_iff sc.chunker).0 bounds in
        (
          (validate_index_name_iff sc.index_name).0 name,
          low,
          high,
          (validate_dimension_consistency_iff sc.embedder sc.indexer).0 dims,
        ),
    λ t.
        let (name, low, high, dims) = t in
        rw
          (
            (validate_index_name_iff sc.index_name).1 name,
            (validate_chunker_bounds_iff sc.chunker).1 (low, high),
            (validate_dimension_consistency_iff sc.embedder sc.indexer).1 dims,
          )
          refl,
  )
