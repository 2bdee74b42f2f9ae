-- ===== src/Prelude/Errors.antt =====
-- A call that returns or raises.
use mathlib.Core.Path.{◌≡◌, refl}
use mathlib.Core.Logic.{◌⊎◌, inl, inr}
use mathlib.Core.Bool.{Bool, true, false}

pub data Outcome {ℓ κ} (E : Type ℓ) (A : Type κ) : Type (ℓ ⊔ κ) where
  ok : A → Outcome E A
  err : E → Outcome E A

infixl 5 ◌>>=◌ ◌>>◌
abbrev pub ◌>>=◌ :
    {E : Type 0} {A : Type 0} {B : Type 0} → Outcome E A → (A → Outcome E B) → Outcome E B
ok a >>= f = f a
err e >>= f = err e

abbrev pub ◌>>◌ : {E : Type 0} {A : Type 0} {B : Type 0} → Outcome E A → Outcome E B → Outcome E B
m >> k = m >>= λ _. k

-- `if c: raise e`
abbrev pub raise_if : {E : Type 0} → Bool → E → Outcome E (Unit {0})
raise_if true e = err e
raise_if false e = ok tt

-- What follows a call on a state, if it returns.
abbrev pub resume :
    {S E A B : Type 0} → (A → S → Outcome E B × S) → Outcome E A × S → Outcome E B × S
resume k (ok a, s) = k a s
resume k (err e, s) = (err e, s)

-- One call on a state after another.
abbrev pub and_then :
    {S E A B : Type 0} → (S → Outcome E A × S) → (A → S → Outcome E B × S) → S → Outcome E B × S
and_then m k s = resume k (m s)

pub Outcome-cases :
    {E : Type 0} {A : Type 0} (r : Outcome E A) → ((a : A) × (r ≡ ok a)) ⊎ ((e : E) × (r ≡ err e))
Outcome-cases (ok a) = inl (a, refl)
Outcome-cases (err e) = inr (e, refl)

-- What a call raises, if it raises, satisfies `P`.
abbrev pub Raises : {E : Type 0} {A : Type 0} → (E → Type 0) → Outcome E A → Type 0
Raises P (ok a) = Unit
Raises P (err e) = P e

module _ {E : Type 0} (P : E → Type 0) where
  pub raise_if-Raises : (c : Bool) (e : E) → P e → Raises P (raise_if c e)
  raise_if-Raises true e p = p
  raise_if-Raises false e p = tt

  pub >>-Raises :
      {A B : Type 0} (m : Outcome E A) (k : Outcome E B)
      → Raises P m
      → Raises P k
      → Raises P (m >> k)
  >>-Raises (ok a) k h j = j
  >>-Raises (err e) k h j = h

-- What a call returns, if it returns, satisfies `P`.
abbrev pub Returns : {E : Type 0} {A : Type 0} → (A → Type 0) → Outcome E A → Type 0
Returns P (ok a) = P a
Returns P (err e) = Unit

pub >>=-Returns :
    {E A B : Type 0} (P : A → Type 0) (Q : B → Type 0) (m : Outcome E A) (f : A → Outcome E B)
    → Returns P m
    → ((a : A) → P a → Returns Q (f a))
    → Returns Q (m >>= f)
>>=-Returns P Q (ok a) f h k = k a h
>>=-Returns P Q (err e) f h k = tt

pub at_will : {E A : Type 0} (m : Outcome E A) → Returns (λ (a : A). Unit {0}) m
at_will (ok a) = tt
at_will (err e) = tt
