-- ===== src/Chunker/Partition.antt =====
-- `partition_regions` against what it is to return.
use mathlib.Core.List.{append_assoc, append-nil}
use vestibule.Prelude.{
  ℕ, suc, String, ◌⊎◌, ◌≡◌, refl, sym, ap, ◌∙◌, subst, List, [], ◌∷◌, ◌++◌, Option, none, some, All,
  length, length-append, arith, if_pos, if_neg,
}
use vestibule.Chunker.{table, paragraph, image_caption}
use vestibule.Chunker.Model.{Element, element_type_discrete}
use vestibule.Chunker.Regions.{
  Region, table_region, get_elem?, caption_of, caption_for_table, run_of, flushed, partition_from,
  partition_regions,
}

abbrev pub IsTable : Element → Type 0
IsTable e = e.type ≡ table

abbrev pub IsOther : Element → Type 0
IsOther e = ¬ IsTable e

-- The last element, or `before` for no element.
abbrev pub last_of : Option Element → List Element → Option Element
last_of before [] = before
last_of before (e ∷ es) = last_of (some e) es

-- The elements end here, or a table is next.
abbrev pub RunEnds : List Element → Type 0
RunEnds [] = Unit
RunEnds (e ∷ es) = IsTable e

abbrev pub IsCaption : Element → Type 0
IsCaption e = (e.type ≡ paragraph) ⊎ (e.type ≡ image_caption)

-- The caption of a table that follows `before`: the text of a paragraph or image caption, else none.
abbrev pub Captioned : Option Element → Option String → Type 0
Captioned none caption = caption ≡ none
Captioned (some e) caption =
    (IsCaption e → caption ≡ some e.text) × (¬ IsCaption e → caption ≡ none)

caption_of-Captioned : (before : Option Element) → Captioned before (caption_of before)
unfolding caption_of
caption_of-Captioned none = refl
caption_of-Captioned (some e) = (λ h. ground (arith, h), λ n. ground (arith, n))

-- The regions of a document's elements that follow `before`: each table alone, with its caption, and
-- the longest runs of the other elements.
pub data Cut : Option Element → List Element → List Region → Type 0 where
  ends : {before : Option Element} → Cut before [] []
  table_alone :
      {before : Option Element} {e : Element} {es : List Element} {rs : List Region}
      {caption : Option String}
      → IsTable e
      → Captioned before caption
      → Cut (some e) es rs
      → Cut before
          (e ∷ es)
          (record { kind = table_region; elements = e ∷ []; caption_text = caption } ∷ rs)
  run :
      {before : Option Element} {es : List Element} {rs : List Region} (x : Element)
      (xs : List Element)
      → All IsOther (x ∷ xs)
      → RunEnds es
      → Cut (last_of (some x) xs) es rs
      → Cut before ((x ∷ xs) ++ es) (run_of (x ∷ xs) ∷ rs)

pub last_of-append :
    (before : Option Element) (xs ys : List Element)
    → last_of before (xs ++ ys) ≡ last_of (last_of before xs) ys
last_of-append before [] ys = refl
last_of-append before (x ∷ xs) ys = last_of-append (some x) xs ys

get_elem?-last :
    (x : Element) (xs ys : List Element)
    → get_elem? ((x ∷ xs) ++ ys) (length xs) ≡ last_of (some x) xs
get_elem?-last x [] ys = refl
get_elem?-last x (y ∷ xs) ys = get_elem?-last y xs ys

caption-last :
    (xs ys : List Element) → caption_for_table (xs ++ ys) (length xs) ≡ caption_of (last_of none xs)
unfolding caption_for_table caption_of
caption-last [] ys = refl
caption-last (x ∷ xs) ys = ap caption_of (get_elem?-last x xs ys)

All-snoc :
    (P : Element → Type 0) (xs : List Element) (y : Element) → All P xs → P y → All P (xs ++ y ∷ [])
All-snoc P [] y h p = (p, tt)
All-snoc P (x ∷ xs) y h p = (h.0, All-snoc P xs y h.1 p)

-- What is in the buffer becomes a run.
flushed-Cut :
    (before : Option Element) (buffer es : List Element) (rs : List Region)
    → All IsOther buffer
    → RunEnds es
    → Cut (last_of before buffer) es rs
    → Cut before (buffer ++ es) (flushed buffer rs)
flushed-Cut before [] es rs others stop cut = cut
flushed-Cut before (x ∷ xs) es rs others stop cut = Cut.run x xs others stop cut

pub append_snoc :
    (xs : List Element) (y : Element) (ys : List Element) → (xs ++ y ∷ []) ++ ys ≡ xs ++ y ∷ ys
append_snoc xs y ys = append_assoc xs (y ∷ []) ys

pub length-snoc : (xs : List Element) (y : Element) → suc (length xs) ≡ length (xs ++ y ∷ [])
length-snoc xs y = omega (arith, length-append xs (y ∷ []))

module _ (elements : List Element) where
  pub at_table :
      (index : ℕ) (before : List Element) (e : Element) (es : List Element)
      → before ++ e ∷ es ≡ elements
      → index ≡ length before
      → caption_for_table elements index ≡ caption_of (last_of none before)
  at_table index before e es whole here = rw (here, sym whole) (caption-last before (e ∷ es))

  passed :
      (before : List Element) (e : Element) (es : List Element)
      → before ++ e ∷ es ≡ elements
      → ((before ++ e ∷ []) ++ []) ++ es ≡ elements
  passed before e es whole = rw (append-nil (before ++ e ∷ []), append_snoc before e es) whole

  counted :
      (before : List Element) (e : Element)
      → suc (length before) ≡ length ((before ++ e ∷ []) ++ [])
  counted before e = rw (append-nil (before ++ e ∷ [])) (length-snoc before e)

  -- `seen` is what the loop has passed, less what is in the buffer.
  partition_from-Cut :
      (index : ℕ) (seen buffer rest : List Element)
      → (seen ++ buffer) ++ rest ≡ elements
      → index ≡ length (seen ++ buffer)
      → All IsOther buffer
      → Cut (last_of none seen) (buffer ++ rest) (partition_from elements index buffer rest)
  unfolding partition_from
  partition_from-Cut index seen buffer [] whole here others =
      flushed-Cut (last_of none seen) buffer [] [] others tt Cut.ends
  partition_from-Cut index seen buffer (e ∷ es) whole here others =
      elim (element_type_discrete e.type table) [
        | yes is ↦
            rw
              (
                if_pos _ is,
                at_table index (seen ++ buffer) e es whole here,
                last_of-append none seen buffer,
              )
              (flushed-Cut (last_of none seen) buffer (e ∷ es) _ others is (
                Cut.table_alone is (caption_of-Captioned (last_of (last_of none seen) buffer)) (
                  subst (λ b. Cut b es (partition_from elements (suc index) [] es))
                    (last_of-append none (seen ++ buffer) (e ∷ []))
                    (partition_from-Cut (suc index) ((seen ++ buffer) ++ e ∷ []) [] es
                      (passed (seen ++ buffer) e es whole)
                      (ap suc here ∙ counted (seen ++ buffer) e) tt))))
        | no other ↦
            rw (if_neg _ other, sym (append_snoc buffer e es))
              (partition_from-Cut (suc index) seen (buffer ++ e ∷ []) es
                (rw (sym (append_assoc seen buffer (e ∷ [])), append_snoc (seen ++ buffer) e es)
                  whole)
                (rw (sym (append_assoc seen buffer (e ∷ [])))
                  (ap suc here ∙ length-snoc (seen ++ buffer) e))
                (All-snoc IsOther buffer e others other))
      ]

-- A document's regions are its tables, each alone and with the text of the paragraph or image caption
-- right before it, or no caption when another element or none is there, and the longest runs of its other elements, in the order of the document: nothing
-- is lost, repeated or moved.
pub partition_regions-Cut :
    (elements : List Element) → Cut none elements (partition_regions elements)
unfolding partition_regions
partition_regions-Cut elements = partition_from-Cut elements 0 [] [] elements refl refl tt
