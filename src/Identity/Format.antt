-- ===== src/Identity/Format.antt =====
-- Which ids `validate_id_format` accepts.
use vestibule.Prelude.{
  ℕ, zero, suc, String, ◌≡◌, refl, ◌↔◌, ◌⊎◌, inl, inr, true, List, [], ◌∷◌, ◌++◌, length, All, ok,
  arith, ap, ◌∙◌,
}
use vestibule.Identity.{codes, is_hex_digit, match_hex, id_hex_length, validate_id_format}

-- `n` lower-case hexadecimal digits, and then nothing or one newline.
abbrev pub HexText : ℕ → List ℕ → Type 0
HexText n cs =
    (digits : List ℕ) × (end : List ℕ) × (cs ≡ digits ++ end)
    × (length digits ≡ n)
    × All (λ c. is_hex_digit c ≡ true) digits
    × ((end ≡ []) ⊎ (end ≡ 10 ∷ []))

match_hex→HexText : (n : ℕ) (cs : List ℕ) → match_hex n cs ≡ true → HexText n cs
unfolding match_hex
match_hex→HexText zero [] h = ([], [], refl, refl, tt, inl refl)
match_hex→HexText zero (c ∷ []) h =
    ([], c ∷ [], refl, refl, tt, inr (ap (λ x. x ∷ []) (ground arith)))
match_hex→HexText zero (c ∷ d ∷ cs) h = cc
match_hex→HexText (suc n) [] h = cc
match_hex→HexText (suc n) (c ∷ cs) h =
    let (digits, end, split, long, hex, ends) = match_hex→HexText n cs (ground arith) in
    (c ∷ digits, end, ap (λ x. c ∷ x) split, ap suc long, (ground arith, hex), ends)

HexText→match_hex :
    (n : ℕ) (digits end : List ℕ)
    → length digits ≡ n
    → All (λ c. is_hex_digit c ≡ true) digits
    → (end ≡ []) ⊎ (end ≡ 10 ∷ [])
    → match_hex n (digits ++ end) ≡ true
unfolding match_hex
HexText→match_hex zero [] end long hex (inl e) = rw e refl
HexText→match_hex zero [] end long hex (inr e) = rw e refl
HexText→match_hex zero (c ∷ digits) end long hex ends = absurd (omega arith)
HexText→match_hex (suc n) [] end long hex ends = absurd (omega arith)
HexText→match_hex (suc n) (c ∷ digits) end long hex ends =
    ground (arith, HexText→match_hex n digits end (omega arith) hex.1 ends)

pub match_hex_iff : (n : ℕ) (cs : List ℕ) → (match_hex n cs ≡ true) ↔ HexText n cs
match_hex_iff n cs = (
  match_hex→HexText n cs,
  λ t.
      let (digits, end, split, long, hex, ends) = t in
      ap (match_hex n) split ∙ HexText→match_hex n digits end long hex ends,
)

-- An id is accepted, and returned as it is, exactly when it is 64 lower-case hexadecimal digits,
-- possibly with one newline after them.
pub validate_id_format_iff :
    (value field_name : String)
    → (validate_id_format value field_name ≡ ok value) ↔ HexText id_hex_length (codes value)
unfolding validate_id_format
validate_id_format_iff value field_name = (
  λ h. (match_hex_iff id_hex_length (codes value)).0 (ground arith),
  λ t. ground (arith, (match_hex_iff id_hex_length (codes value)).1 t),
)
