-- ===== src/Scenario/Select.antt =====
-- `select_enabled_for_vertical` of src/vestibule/scenario/stores/base.py. Python orders texts by
-- their code points. The warning on more than one candidate is left out.
use vestibule.Prelude.{
  ℕ, ◌≡◌, refl, Bool, true, false, inl, inr, ◌⊎◌, Option, none, some, List, [], ◌∷◌, ltb, ◌==◌,
  if◌then◌else◌, All, arith, ap, subst, ◌↔◌,
}
use vestibule.Identity.{codes}
use vestibule.Scenario.{Scenario}

-- `s < t` on the code points of two texts
unfoldable pub before : List ℕ → List ℕ → Bool
before [] [] = false
before [] (d ∷ ds) = true
before (c ∷ cs) [] = false
before (c ∷ cs) (d ∷ ds) =
    let rest = before cs ds in if ltb c d then true else if c == d then rest else false

abbrev pub precedes : Scenario → Scenario → Bool
precedes a b = before (codes a.scenario_id) (codes b.scenario_id)

-- `min(..., key=lambda c: c.scenario_id)`, the first of the least ones, after `best`.
unfoldable pub least : Scenario → List Scenario → Scenario
least best [] = best
least best (c ∷ cs) = least (if precedes c best then c else best) cs

unfoldable pub select_enabled_for_vertical : List Scenario → Option Scenario
unfolding least
select_enabled_for_vertical [] = none
select_enabled_for_vertical (c ∷ cs) = some (least c cs)

before_irrefl : (cs : List ℕ) → before cs cs ≡ false
unfolding before
before_irrefl [] = refl
before_irrefl (c ∷ cs) = ground (arith, before_irrefl cs)

-- What does not precede `b` does not precede what `b` precedes or equals.
not_before_trans : (a b c : List ℕ) → before a b ≡ false → before b c ≡ false → before a c ≡ false
unfolding before
not_before_trans [] [] c h k = k
not_before_trans [] (b ∷ bs) c h k = cc
not_before_trans (a ∷ xs) [] [] h k = refl
not_before_trans (a ∷ xs) [] (c ∷ cs) h k = cc
not_before_trans (a ∷ xs) (b ∷ bs) [] h k = refl
not_before_trans (a ∷ xs) (b ∷ bs) (c ∷ cs) h k = ground (arith, not_before_trans xs bs cs)

before_asym : (a b : List ℕ) → before a b ≡ true → before b a ≡ false
unfolding before
before_asym [] [] h = refl
before_asym [] (b ∷ bs) h = refl
before_asym (a ∷ xs) [] h = cc
before_asym (a ∷ xs) (b ∷ bs) h = ground (arith, before_asym xs bs)

before_eq : (a b : List ℕ) → before a b ≡ false → before b a ≡ false → a ≡ b
unfolding before
before_eq [] [] h k = refl
before_eq [] (b ∷ bs) h k = cc
before_eq (a ∷ xs) [] h k = cc
before_eq (a ∷ xs) (b ∷ bs) h k = ground (arith, before_eq xs bs)

-- None of the scenarios precedes this one.
abbrev pub IsLeast : Scenario → List Scenario → Type 0
IsLeast r cs = All (λ c. precedes c r ≡ false) cs

abbrev pub IsAmong : Scenario → List Scenario → Type 0
IsAmong r [] = ⊥
IsAmong r (c ∷ cs) = (r ≡ c) ⊎ IsAmong r cs

IsLeast-among :
    (r c : Scenario) (cs : List Scenario) → IsLeast r cs → IsAmong c cs → precedes c r ≡ false
IsLeast-among r c (x ∷ xs) h (inl e) = rw e h.0
IsLeast-among r c (x ∷ xs) h (inr m) = IsLeast-among r c xs h.1 m
IsLeast-among r c [] h m = absurd m

least-IsLeast : (best : Scenario) (cs : List Scenario) → IsLeast (least best cs) (best ∷ cs)
unfolding least
least-IsLeast best [] = (before_irrefl (codes best.scenario_id), tt)
least-IsLeast best (c ∷ cs) =
    by_test (precedes c best) refl (least-IsLeast c cs) (least-IsLeast best cs)
  where
    by_test :
        (b : Bool)
        → precedes c best ≡ b
        → IsLeast (least c cs) (c ∷ cs)
        → IsLeast (least best cs) (best ∷ cs)
        → IsLeast (least (if b then c else best) cs) (best ∷ c ∷ cs)
    by_test true smaller h k = (
      not_before_trans (codes best.scenario_id) (codes c.scenario_id) _
          (before_asym (codes c.scenario_id) (codes best.scenario_id) smaller) h.0,
      h,
    )
    by_test false larger h k =
        (k.0, (not_before_trans (codes c.scenario_id) (codes best.scenario_id) _ larger k.0, k.1))

least-IsAmong : (best : Scenario) (cs : List Scenario) → IsAmong (least best cs) (best ∷ cs)
unfolding least
least-IsAmong best [] = inl refl
least-IsAmong best (c ∷ cs) = by_test (precedes c best) (least-IsAmong c cs) (least-IsAmong best cs)
  where
    by_test :
        (b : Bool)
        → IsAmong (least c cs) (c ∷ cs)
        → IsAmong (least best cs) (best ∷ cs)
        → IsAmong (least (if b then c else best) cs) (best ∷ c ∷ cs)
    by_test true h k = inr h
    by_test false h (inl e) = inl e
    by_test false h (inr m) = inr (inr m)

-- What a selection from the candidates must be.
abbrev pub Chosen : List Scenario → Option Scenario → Type 0
Chosen cs none = cs ≡ []
Chosen cs (some r) = IsAmong r cs × IsLeast r cs

select-Chosen : (cs : List Scenario) → Chosen cs (select_enabled_for_vertical cs)
unfolding select_enabled_for_vertical
select-Chosen [] = refl
select-Chosen (c ∷ cs) = (least-IsAmong c cs, least-IsLeast c cs)

-- Two lists of the same scenarios, in any order and however often each is listed.
abbrev pub SameMembers : List Scenario → List Scenario → Type 0
SameMembers xs ys = (c : Scenario) → IsAmong c xs ↔ IsAmong c ys

-- A candidate is selected unless there is none; it is the one whose id is least by code points; and
-- if no two candidates share an id, the order in which a backend lists them does not matter.
select_enabled_for_vertical-Chosen :
    (xs : List Scenario)
    → Chosen xs (select_enabled_for_vertical xs)
      × ((ys : List Scenario)
          → ((a b : Scenario)
              → IsAmong a xs
              → IsAmong b xs
              → codes a.scenario_id ≡ codes b.scenario_id
              → a ≡ b)
          → SameMembers xs ys
          → select_enabled_for_vertical xs ≡ select_enabled_for_vertical ys)
select_enabled_for_vertical-Chosen xs = (
  select-Chosen xs,
  λ ys unique same.
      agree ys unique same (select_enabled_for_vertical xs) (select_enabled_for_vertical ys)
        (select-Chosen xs) (select-Chosen ys),
)
  where
    agree :
        (ys : List Scenario)
        → ((a b : Scenario)
            → IsAmong a xs
            → IsAmong b xs
            → codes a.scenario_id ≡ codes b.scenario_id
            → a ≡ b)
        → SameMembers xs ys
        → (o p : Option Scenario) → Chosen xs o
        → Chosen ys p
        → o ≡ p
    agree ys unique same none none h k = refl
    agree ys unique same none (some r) h k = absurd (subst (IsAmong r) h ((same r).1 k.0))
    agree ys unique same (some r) none h k = absurd (subst (IsAmong r) k ((same r).0 h.0))
    agree ys unique same (some r) (some q) h k = ap some (
        unique r q h.0 ((same q).1 k.0) (
          before_eq (codes r.scenario_id) (codes q.scenario_id)
            (IsLeast-among q r ys k.1 ((same r).0 h.0))
            (IsLeast-among r q xs h.1 ((same q).1 k.0))))
