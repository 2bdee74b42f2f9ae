-- ===== src/Prelude/Equality.antt =====
-- Equality of pairs and options, and of what pairs and options can be read off, as decisions.
use mathlib.Core.Path.{◌≡◌, refl, sym, ap, ◌∙◌}
use mathlib.Core.Bool.{Bool, true, false}
use mathlib.Core.Option.{Option, none, some}
use native.Mathlib.Decide.{ℕ_discrete}
use Prim.Native.Nat.{ℕ}
use vestibule.Prelude.Int.{ℤ, pos, negsuc, pos_part}

-- `n` of -(n + 1)
below : ℤ → ℕ
below (pos n) = 0
below (negsuc n) = n

unfoldable pub ℤ_discrete : Discrete ℤ
unfolding below
ℤ_discrete (pos a) (pos b) = elim (ℕ_discrete a b) [
  | no n ↦ no (λ e. n (ap pos_part e))
  | yes u ↦ yes (ap pos u)
]
ℤ_discrete (negsuc a) (negsuc b) = elim (ℕ_discrete a b) [
  | no n ↦ no (λ e. n (ap below e))
  | yes u ↦ yes (ap negsuc u)
]
ℤ_discrete (pos a) (negsuc b) = no (λ e. cc)
ℤ_discrete (negsuc a) (pos b) = no (λ e. cc)

unfoldable pub pair_discrete : {A B : Type 0} → Discrete A → Discrete B → Discrete (A × B)
pair_discrete da db (a, b) (c, d) = elim (da a c) [
  | no n ↦ no (λ e. n (ap (λ p. p.0) e))
  | yes u ↦ elim (db b d) [ no n ↦ no (λ e. n (ap (λ p. p.1) e)) | yes v ↦ yes (λ i. (u i, v i)) ]
]

value_of : {A : Type 0} → A → Option A → A
value_of d none = d
value_of d (some a) = a

unfoldable pub option_discrete : {A : Type 0} → Discrete A → Discrete (Option A)
unfolding value_of
option_discrete da none none = yes refl
option_discrete da none (some b) = no (λ e. cc)
option_discrete da (some a) none = no (λ e. cc)
option_discrete da (some a) (some b) = elim (da a b) [
  | no n ↦ no (λ e. n (ap (value_of a) e))
  | yes u ↦ yes (ap some u)
]

-- Values that can be read back from what is compared.
unfoldable pub read_discrete :
    {A B : Type 0} (shown : A → B) (back : B → A)
    → ((a : A) → back (shown a) ≡ a)
    → Discrete B
    → Discrete A
read_discrete shown back reads db a b = elim (db (shown a) (shown b)) [
  | no n ↦ no (λ e. n (ap shown e))
  | yes u ↦ yes (sym (reads a) ∙ ap back u ∙ reads b)
]

-- A decision that computes to `no` refutes.
pub refuted {ℓ} :
    {P : Type ℓ} (d : Dec P) → elim d as (λ _. Bool) [ yes _ ↦ false | no _ ↦ true ] ≡ true → ¬ P
refuted (yes p) h q = cc
refuted (no f) h q = f q
