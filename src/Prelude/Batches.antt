-- ===== src/Prelude/Batches.antt =====
-- A list split into consecutive slices.
use Prim.Native.Nat.{ℕ, zero, suc, ◌+◌, ◌≤◌, ◌<◌, min}
use Prim.Native.String.{String}
use mathlib.Core.Path.{◌≡◌, refl, ap, ◌∙◌}
use mathlib.Core.List.{List, [], ◌∷◌, ◌++◌}
use mathlib.Core.Option.{Option, none, some}
use native.Mathlib.Omega.{arith}
use vestibule.Prelude.Int.{ℤ, pos, negsuc, min_ℤ}
use vestibule.Prelude.Errors.{Outcome, ok, err}
use vestibule.Prelude.Lists.{length, take, drop, All, All-imp, length-take, take-append-drop}

module _ {ℓ} {A : Type ℓ} where
  -- The slices of `size` items, on fuel.
  unfoldable pub slices : (fuel size : ℕ) → List A → List (List A)
  slices zero size xs = []
  slices (suc fuel) size [] = []
  slices (suc fuel) size (x ∷ xs) = take size (x ∷ xs) ∷ slices fuel size (drop size (x ∷ xs))

  -- `[items[start : start + size] for start in range(0, len(items), size)]`, for `size > 0`. There are
  -- no more slices than items.
  unfoldable pub batched : ℕ → List A → List (List A)
  unfolding slices
  batched size xs = slices (length xs) size xs

  -- The same for any `size`: `range` refuses a step of 0, and a negative one gives no slice.
  unfoldable pub in_batches : ℤ → List A → Outcome String (List (List A))
  unfolding batched
  in_batches (pos zero) xs = err "range() arg 3 must not be zero"
  in_batches (pos (suc n)) xs = ok (batched (suc n) xs)
  in_batches (negsuc n) xs = ok []

  -- The slices in one list.
  abbrev pub joined : List (List A) → List A
  joined [] = []
  joined (b ∷ bs) = b ++ joined bs

  length-drop : (n : ℕ) (xs : List A) → length (drop n xs) + min n (length xs) ≡ length xs
  length-drop zero xs = omega arith
  length-drop (suc n) [] = omega arith
  length-drop (suc n) (x ∷ xs) = omega (arith, length-drop n xs)

  joined-slices :
      (fuel size : ℕ) (xs : List A)
      → length xs ≤ fuel
      → 0 < size
      → joined (slices fuel size xs) ≡ xs
  unfolding slices
  joined-slices zero size [] h positive = refl
  joined-slices zero size (x ∷ xs) h positive = absurd (omega arith)
  joined-slices (suc fuel) size [] h positive = refl
  joined-slices (suc fuel) size (x ∷ xs) h positive =
      ap (take size (x ∷ xs) ++◌) (
        joined-slices fuel size (drop size (x ∷ xs)) (omega (arith, length-drop size (x ∷ xs)))
          positive)
      ∙ take-append-drop size (x ∷ xs)

  joined-batched : (size : ℕ) (xs : List A) → 0 < size → joined (batched size xs) ≡ xs
  unfolding batched
  joined-batched size xs positive = joined-slices (length xs) size xs (omega arith) positive

  -- Not empty, and of at most `size` items.
  abbrev pub Fits : ℕ → List A → Type 0
  Fits size b = (0 < length b) × (length b ≤ size)

  slices-Fits : (fuel size : ℕ) (xs : List A) → 0 < size → All (Fits size) (slices fuel size xs)
  unfolding slices
  slices-Fits zero size xs positive = tt
  slices-Fits (suc fuel) size [] positive = tt
  slices-Fits (suc fuel) size (x ∷ xs) positive = (
    (omega (arith, length-take size (x ∷ xs)), omega (arith, length-take size (x ∷ xs))),
    slices-Fits fuel size (drop size (x ∷ xs)) positive,
  )

  batched-Fits : (size : ℕ) (xs : List A) → 0 < size → All (Fits size) (batched size xs)
  unfolding batched
  batched-Fits size xs positive = slices-Fits (length xs) size xs positive

  -- For a positive size no slice is empty or longer than the size, and together they are the list.
  in_batches-ok :
      (size : ℤ) (n : ℕ) (xs : List A)
      → size ≡ pos n
      → 0 < n
      → (bs : List (List A)) × (in_batches size xs ≡ ok bs) × (joined bs ≡ xs) × All (Fits n) bs
  unfolding in_batches
  in_batches-ok (pos (suc m)) n xs e positive = (
    batched (suc m) xs,
    refl,
    joined-batched (suc m) xs (omega arith),
    ground (arith, batched-Fits (suc m) xs (omega arith)),
  )
  in_batches-ok (pos zero) n xs e positive = absurd (ground arith)
  in_batches-ok (negsuc m) n xs e positive = cc

-- Unset, or a positive number.
abbrev pub IsPositive : Option ℤ → Type 0
IsPositive none = Unit
IsPositive (some (pos n)) = 0 < n
IsPositive (some (negsuc n)) = ⊥

-- A configured size, at most the limit; the limit when there is none.
abbrev pub capped : Option ℤ → ℕ → ℤ
capped none limit = pos limit
capped (some size) limit = min_ℤ size limit

capped-sized :
    (size : Option ℤ) (limit : ℕ)
    → 0 < limit
    → IsPositive size
    → (n : ℕ) × (capped size limit ≡ pos n) × (0 < n) × (n ≤ limit)
capped-sized none limit positive p = (limit, refl, positive, omega arith)
capped-sized (some (pos n)) limit positive p = (min n limit, refl, omega arith, omega arith)
capped-sized (some (negsuc n)) limit positive p = absurd p

pub capped-Fits {ℓ} :
    {A : Type ℓ} (size : Option ℤ) (limit : ℕ) (xs : List A)
    → 0 < limit
    → IsPositive size
    → (bs : List (List A)) × (in_batches (capped size limit) xs ≡ ok bs)
      × (joined bs ≡ xs)
      × All (Fits limit) bs
capped-Fits size limit xs positive p =
    let (n, sized, above, below) = capped-sized size limit positive p in
    let (bs, split, whole, fit) = in_batches-ok (capped size limit) n xs sized above in
    (
      bs,
      split,
      whole,
      All-imp (Fits n) (Fits limit) (λ b f. (f.0, omega (arith, f.1, below))) bs fit,
    )
