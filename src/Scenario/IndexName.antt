-- ===== src/Scenario/IndexName.antt =====
-- Which names of an index the pattern of src/vestibule/scenario/_validation.py accepts.
use vestibule.Prelude.{
  ℕ, zero, suc, ◌≤◌, ◌≡◌, refl, ◌↔◌, ◌⊎◌, inl, inr, ◌&&◌, ◌||◌, true, false, Bool, List, [], ◌∷◌,
  ◌++◌, length, All, arith, ap, ◌∙◌,
}
use vestibule.Identity.{at_end}
use vestibule.Scenario.Validation.{
  is_lower_alnum, is_name_char, match_last, match_middle, match_index_name,
}

-- The end of the text, or one newline before it.
abbrev pub Ends : List ℕ → Type 0
Ends end = (end ≡ []) ⊎ (end ≡ 10 ∷ [])

-- At most `n` letters, digits or dashes, a letter or digit, and the end.
abbrev pub NameTail : ℕ → List ℕ → Type 0
NameTail n cs =
    (middle : List ℕ) × (last : ℕ) × (end : List ℕ) × (cs ≡ middle ++ last ∷ end)
    × (length middle ≤ n)
    × All (λ c. is_name_char c ≡ true) middle
    × (is_lower_alnum last ≡ true)
    × Ends end

-- A letter or digit before that.
abbrev pub IndexName : List ℕ → Type 0
IndexName cs =
    (first : ℕ) × (rest : List ℕ) × (cs ≡ first ∷ rest)
    × (is_lower_alnum first ≡ true)
    × NameTail 126 rest

at_end-Ends : (cs : List ℕ) → at_end cs ≡ true → Ends cs
at_end-Ends [] h = inl refl
at_end-Ends (c ∷ []) h = inr (ap (λ x. x ∷ []) (ground arith))
at_end-Ends (c ∷ d ∷ cs) h = cc

Ends-at_end : (cs : List ℕ) → Ends cs → at_end cs ≡ true
Ends-at_end cs (inl e) = rw e refl
Ends-at_end cs (inr e) = rw e refl

pub &&-both : (a b : Bool) → (a && b) ≡ true → (a ≡ true) × (b ≡ true)
&&-both true b h = (refl, h)
&&-both false b h = cc

||-either : (a b : Bool) → (a || b) ≡ true → (a ≡ true) ⊎ (b ≡ true)
||-either true b h = inl refl
||-either false b h = inr h

||-right : (a b : Bool) → b ≡ true → (a || b) ≡ true
||-right true b h = refl
||-right false b h = h

match_last→NameTail : (n : ℕ) (cs : List ℕ) → match_last cs ≡ true → NameTail n cs
unfolding match_last
match_last→NameTail n [] h = cc
match_last→NameTail n (c ∷ cs) h =
    let (alnum, ends) = &&-both (is_lower_alnum c) (at_end cs) h in
    ([], c, cs, refl, omega arith, tt, alnum, at_end-Ends cs ends)

match_middle→NameTail : (n : ℕ) (cs : List ℕ) → match_middle n cs ≡ true → NameTail n cs
unfolding match_middle
match_middle→NameTail zero cs h = match_last→NameTail zero cs h
match_middle→NameTail (suc n) [] h = cc
match_middle→NameTail (suc n) (c ∷ cs) h =
    elim (||-either (is_name_char c && match_middle n cs) (match_last (c ∷ cs)) h) [
      | inl more ↦
          let (char, rest) = &&-both (is_name_char c) (match_middle n cs) more in
          let (middle, last, end, split, short, chars, alnum, ends) =
            match_middle→NameTail n cs rest in
          (c ∷ middle, last, end, ap (λ x. c ∷ x) split, omega arith, (char, chars), alnum, ends)
      | inr final ↦ match_last→NameTail (suc n) (c ∷ cs) final
    ]

NameTail→match_middle :
    (n : ℕ) (middle : List ℕ) (last : ℕ) (end : List ℕ)
    → length middle ≤ n
    → All (λ c. is_name_char c ≡ true) middle
    → is_lower_alnum last ≡ true
    → Ends end
    → match_middle n (middle ++ last ∷ end) ≡ true
unfolding match_middle match_last
NameTail→match_middle zero [] last end short chars alnum ends =
    rw (alnum, Ends-at_end end ends) refl
NameTail→match_middle (suc n) [] last end short chars alnum ends =
    ||-right (is_name_char last && match_middle n end) (match_last (last ∷ end))
      (rw (alnum, Ends-at_end end ends) refl)
NameTail→match_middle zero (c ∷ middle) last end short chars alnum ends = absurd (omega arith)
NameTail→match_middle (suc n) (c ∷ middle) last end short (char, chars) alnum ends =
    rw (char, NameTail→match_middle n middle last end (omega arith) chars alnum ends) refl

pub match_index_name_iff : (cs : List ℕ) → (match_index_name cs ≡ true) ↔ IndexName cs
unfolding match_index_name
match_index_name_iff [] = (λ h. cc, λ t. let (c, cs, split, alnum, rest) = t in cc)
match_index_name_iff (c ∷ cs) = (
  λ h.
      let (alnum, rest) = &&-both (is_lower_alnum c) (match_middle 126 cs) h in
      (c, cs, refl, alnum, match_middle→NameTail 126 cs rest),
  λ t.
      let (first, rest, split, alnum, tail) = t in
      let (middle, last, end, parts, short, chars, final, ends) = tail in
      ap match_index_name split
      ∙ rw (alnum, parts, NameTail→match_middle 126 middle last end short chars final ends) refl,
)
