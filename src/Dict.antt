-- ===== src/Dict.antt =====
-- A Python dict keyed by texts, in insertion order: a write to a key that is there keeps its place.
use vestibule.Prelude.{
  String, ◌≡◌, refl, ◌≢◌, Option, none, some, List, [], ◌∷◌, map, All, ite, if_pos, if_neg, subst,
  string_discrete, arith,
}

abbrev pub Dict {ℓ} : Type ℓ → Type ℓ
Dict V = List (String × V)

module _ {ℓ} {V : Type ℓ} where
  -- `d.get(k)`
  unfoldable pub lookup : String → Dict V → Option V
  lookup k [] = none
  lookup k (e ∷ d) = ite (string_discrete e.0 k) (some e.1) (lookup k d)

  -- `d[k] = v`
  unfoldable pub insert : String → V → Dict V → Dict V
  insert k v [] = (k, v) ∷ []
  insert k v (e ∷ d) = ite (string_discrete e.0 k) ((k, v) ∷ d) (e ∷ insert k v d)

  -- `d.pop(k, None)`
  unfoldable pub erase : String → Dict V → Dict V
  erase k [] = []
  erase k (e ∷ d) = ite (string_discrete e.0 k) d (e ∷ erase k d)

  -- `list(d.values())`
  abbrev pub values : Dict V → List V
  values = map (λ e. e.1)

  pub lookup-insert :
      (j k : String) (v : V) (d : Dict V)
      → lookup j (insert k v d) ≡ ite (string_discrete k j) (some v) (lookup j d)
  unfolding lookup insert
  lookup-insert j k v [] = refl
  lookup-insert j k v (e ∷ d) = ground (arith, lookup-insert j k v d)

  pub lookup-insert_self : (k : String) (v : V) (d : Dict V) → lookup k (insert k v d) ≡ some v
  lookup-insert_self k v d = ground (arith, lookup-insert k k v d)

  pub lookup-insert_ne :
      (j k : String) (v : V) (d : Dict V) → k ≢ j → lookup j (insert k v d) ≡ lookup j d
  lookup-insert_ne j k v d h = ground (arith, lookup-insert j k v d)

  pub lookup-erase_ne : (j k : String) (d : Dict V) → k ≢ j → lookup j (erase k d) ≡ lookup j d
  unfolding lookup erase
  lookup-erase_ne j k [] h = refl
  lookup-erase_ne j k (e ∷ d) h = ground (arith, lookup-erase_ne j k d h)

  -- No key is listed twice.
  abbrev pub IsKeyed : Dict V → Type ℓ
  IsKeyed [] = Unit
  IsKeyed (e ∷ d) = (lookup e.0 d ≡ none) × IsKeyed d

  pub insert-IsKeyed : (k : String) (v : V) (d : Dict V) → IsKeyed d → IsKeyed (insert k v d)
  unfolding insert lookup
  insert-IsKeyed k v [] h = (refl, tt)
  insert-IsKeyed k v (e ∷ d) h = ground (arith, insert-IsKeyed k v d h.1, lookup-insert e.0 k v d)

  pub lookup-erase_self : (k : String) (d : Dict V) → IsKeyed d → lookup k (erase k d) ≡ none
  unfolding lookup erase
  lookup-erase_self k [] h = refl
  lookup-erase_self k (e ∷ d) h = ground (arith, lookup-erase_self k d h.1)

  lookup-erase_missing :
      (j k : String) (d : Dict V) → lookup j d ≡ none → lookup j (erase k d) ≡ none
  unfolding lookup erase
  lookup-erase_missing j k [] h = refl
  lookup-erase_missing j k (e ∷ d) h = ground (arith, lookup-erase_missing j k d)

  pub erase-IsKeyed : (k : String) (d : Dict V) → IsKeyed d → IsKeyed (erase k d)
  unfolding erase
  erase-IsKeyed k [] h = tt
  erase-IsKeyed k (e ∷ d) h =
      ground (arith, erase-IsKeyed k d h.1, lookup-erase_missing e.0 k d h.0)

  -- What holds of every stored pair holds of what a write leaves.
  pub All-insert {κ} :
      (P : String × V → Type κ) (k : String) (v : V) (d : Dict V)
      → All P d
      → P (k, v)
      → All P (insert k v d)
  unfolding insert
  All-insert P k v [] h p = (p, tt)
  All-insert P k v (e ∷ d) h p = elim (string_discrete e.0 k) [
    | yes same ↦ rw (if_pos _ same) (p, h.1)
    | no other ↦ rw (if_neg _ other) (h.0, All-insert P k v d h.1 p)
  ]

  pub All-lookup {κ} :
      (P : String × V → Type κ) (k : String) (v : V) (d : Dict V)
      → All P d
      → lookup k d ≡ some v
      → P (k, v)
  unfolding lookup
  All-lookup P k v [] h e = cc
  All-lookup P k v (x ∷ d) h e = elim (string_discrete x.0 k) [
    | yes same ↦ subst P {x = x} {y = (k, v)} (ground arith) h.0
    | no other ↦ All-lookup P k v d h.1 (ground arith)
  ]
