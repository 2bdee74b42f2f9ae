-- ===== src/Prelude/Separation.antt =====
-- Lists whose items have different keys.
use Prim.Native.Nat.{ℕ, zero, suc}
use Prim.Native.String.{String}
use mathlib.Core.Logic.{◌≢◌, inl, inr}
use mathlib.Core.Bool.{Bool, true, false}
use mathlib.Core.List.{List, [], ◌∷◌}
use vestibule.Prelude.Tests.{Bool-cases, if◌then◌else◌}
use vestibule.Prelude.Lists.{All, All-take, take, keep}

pub All-keep {ℓ} :
    {A : Type ℓ} (P : A → Type 0) (test : A → Bool) (xs : List A) → All P xs → All P (keep test xs)
All-keep P test [] h = tt
All-keep P test (x ∷ xs) h = elim (Bool-cases (test x)) [
  | inl passes ↦ rw passes (h.0, All-keep P test xs h.1)
  | inr fails ↦ rw fails (All-keep P test xs h.1)
]

pub All-both {ℓ} :
    {A : Type ℓ} (P Q : A → Type 0) (xs : List A) → All P xs → All Q xs → All (λ x. P x × Q x) xs
All-both P Q [] h j = tt
All-both P Q (x ∷ xs) h j = ((h.0, j.0), All-both P Q xs h.1 j.1)

module _ {A : Type 0} (key : A → String) where
  abbrev pub Apart : List A → Type 0
  Apart [] = Unit
  Apart (x ∷ xs) = All (λ y. key x ≢ key y) xs × Apart xs

  pub Apart-take : (n : ℕ) (xs : List A) → Apart xs → Apart (take n xs)
  Apart-take zero xs h = tt
  Apart-take (suc n) [] h = tt
  Apart-take (suc n) (x ∷ xs) h = (All-take (λ y. key x ≢ key y) n xs h.0, Apart-take n xs h.1)

  pub Apart-if_take :
      (b : Bool) (n : ℕ) (xs : List A) → Apart xs → Apart (if b then [] else take n xs)
  Apart-if_take true n xs h = tt
  Apart-if_take false n xs h = Apart-take n xs h

  pub Apart-keep : (test : A → Bool) (xs : List A) → Apart xs → Apart (keep test xs)
  Apart-keep test [] h = tt
  Apart-keep test (x ∷ xs) h = elim (Bool-cases (test x)) [
    | inl passes ↦ rw passes (All-keep (λ y. key x ≢ key y) test xs h.0, Apart-keep test xs h.1)
    | inr fails ↦ rw fails (Apart-keep test xs h.1)
  ]
