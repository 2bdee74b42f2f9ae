-- ===== src/Identity/Batch.antt =====
-- `derive_chunk_ids_batch` against `derive_chunk_id`.
use vestibule.Prelude.{
  ℕ, String, ◌≡◌, refl, ◌≢◌, ap, sym, ◌∙◌, Option, none, some, List, [], ◌∷◌, ite, ℕ_discrete, ℤ,
  pos, negsuc, Outcome-cases, ok, arith, All,
}
use vestibule.Identity.{
  validate_id_format, validate_chunk_index, put, derive_chunk_id, derive_from,
  derive_chunk_ids_batch,
}

-- `result.get(i)`
unfoldable pub find : ℕ → List (ℕ × String) → Option String
find i [] = none
find i (e ∷ m) = ite (ℕ_discrete e.0 i) (some e.1) (find i m)

find-put :
    (j i : ℕ) (v : String) (m : List (ℕ × String))
    → find j (put i v m) ≡ ite (ℕ_discrete i j) (some v) (find j m)
unfolding find
find-put j i v [] = refl
find-put j i v (e ∷ m) = ground (arith, find-put j i v m)

module _ (sha256_hex : String → String) (doc_id : String) where
  -- The result has the id that this index is given alone.
  abbrev pub Holds : List (ℕ × String) → ℤ → Type 0
  Holds m i =
      (n : ℕ) × (v : String) × (i ≡ pos n)
      × (derive_chunk_id sha256_hex doc_id i ≡ ok v)
      × (find n m ≡ some v)

  abbrev pub Derives : ℤ → Type 0
  Derives i = (v : String) × (derive_chunk_id sha256_hex doc_id i ≡ ok v)

  put-Holds :
      (m : List (ℕ × String)) (k : ℕ) (w : String)
      → derive_chunk_id sha256_hex doc_id (pos k) ≡ ok w
      → (i : ℤ) → Holds m i
      → Holds (put k w m) i
  put-Holds m k w derived i (n, v, same, given, found) = elim (ℕ_discrete k n) [
    | yes eq ↦ (
      n,
      w,
      same,
      ap (derive_chunk_id sha256_hex doc_id) (same ∙ ap pos (sym eq)) ∙ derived,
      ground (arith, find-put n k w m),
    )
    | no other ↦ (n, v, same, given, ground (arith, find-put n k w m))
  ]

  negative : (n : ℕ) (v : String) → derive_chunk_id sha256_hex doc_id (negsuc n) ≢ ok v
  unfolding derive_chunk_id validate_chunk_index
  negative n v h = ground (arith, h, Outcome-cases (validate_id_format doc_id "doc_id"))

  from-Holds :
      (is : List ℤ) (acc : List (ℕ × String))
      → All Derives is
      → (m : List (ℕ × String)) × (derive_from sha256_hex doc_id is acc ≡ ok m)
        × All (Holds m) is
        × ((i : ℤ) → Holds acc i → Holds m i)
  unfolding derive_from validate_chunk_index
  from-Holds [] acc all = (acc, refl, tt, λ i h. h)
  from-Holds (negsuc n ∷ is) acc all = absurd (negative n all.0.0 all.0.1)
  from-Holds (pos n ∷ is) acc all =
      let (v, derived) = all.0 in
      let (m, done, each, rest) = from-Holds is (put n v acc) all.1 in
      (
        m,
        rw derived done,
        (rest (pos n) (n, v, refl, derived, ground (arith, find-put n n v acc)), each),
        λ i h. rest i (put-Holds acc n v derived i h),
      )

  -- If each index has a chunk id of its own, the batch returns, and its result has for every index
  -- exactly the id that `derive_chunk_id` gives it, repeated indices included.
  derive_chunk_ids_batch-Holds :
      (is : List ℤ)
      → All Derives is
      → (m : List (ℕ × String)) × (derive_chunk_ids_batch sha256_hex doc_id is ≡ ok m)
        × All (Holds m) is
  unfolding derive_chunk_ids_batch
  derive_chunk_ids_batch-Holds is all =
      let (m, done, each, _) = from-Holds is [] all in (m, done, each)
