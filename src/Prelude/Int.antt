-- ===== src/Prelude/Int.antt =====
-- Python's `int` where the source takes a negative one (a caller's `limit`).
use Prim.Native.Nat.{ℕ, min, ◌≤◌}
use mathlib.Core.Path.{◌≡◌, refl}
use mathlib.Core.Bool.{Bool, true, false}
use native.Mathlib.Omega.{arith}
use vestibule.Prelude.Tests.{◌==◌, leb}

-- `negsuc n` is -(n + 1).
pub data ℤ : Type 0 where
  pos : ℕ → ℤ
  negsuc : ℕ → ℤ

-- The number itself, or 0 for a negative one.
abbrev pub pos_part : ℤ → ℕ
pos_part (pos n) = n
pos_part (negsuc n) = 0

-- `n <= 0`
abbrev pub is_nonpos : ℤ → Bool
is_nonpos (pos n) = n == 0
is_nonpos (negsuc n) = true

-- `min(a, b)` for a natural `b`
abbrev pub min_ℤ : ℤ → ℕ → ℤ
min_ℤ (pos a) b = pos (min a b)
min_ℤ (negsuc a) b = negsuc a

-- `a <= b`, as a test and as a statement.
abbrev pub leb_ℤ : ℤ → ℤ → Bool
leb_ℤ (pos a) (pos b) = leb a b
leb_ℤ (pos a) (negsuc b) = false
leb_ℤ (negsuc a) (pos b) = true
leb_ℤ (negsuc a) (negsuc b) = leb b a

infix 50 ◌≤ℤ◌
abbrev pub ◌≤ℤ◌ : ℤ → ℤ → Type 0
pos a ≤ℤ pos b = a ≤ b
pos a ≤ℤ negsuc b = ⊥
negsuc a ≤ℤ pos b = Unit
negsuc a ≤ℤ negsuc b = b ≤ a

pub leb_ℤ→≤ℤ : (a b : ℤ) → leb_ℤ a b ≡ true → a ≤ℤ b
leb_ℤ→≤ℤ (pos a) (pos b) h = ground arith
leb_ℤ→≤ℤ (pos a) (negsuc b) h = cc
leb_ℤ→≤ℤ (negsuc a) (pos b) h = tt
leb_ℤ→≤ℤ (negsuc a) (negsuc b) h = ground arith

pub ≤ℤ→leb_ℤ : (a b : ℤ) → a ≤ℤ b → leb_ℤ a b ≡ true
≤ℤ→leb_ℤ (pos a) (pos b) h = ground arith
≤ℤ→leb_ℤ (pos a) (negsuc b) h = absurd h
≤ℤ→leb_ℤ (negsuc a) (pos b) h = refl
≤ℤ→leb_ℤ (negsuc a) (negsuc b) h = ground arith
