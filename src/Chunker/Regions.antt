-- ===== src/Chunker/Regions.antt =====
-- `_partition_regions` of src/vestibule/chunker/chunker.py.
use vestibule.Prelude.{ℕ, zero, suc, String, List, [], ◌∷◌, ◌++◌, Option, none, some, ite}
use vestibule.Chunker.{paragraph, table, image_caption}
use vestibule.Chunker.Model.{Element, element_type_discrete}

pub data RegionKind : Type 0 where
  table_region non_table : RegionKind

pub record Region : Type 0 where
  pub kind : RegionKind
  pub elements : List Element
  pub caption_text : Option String

-- `xs[n]`, if it is there
abbrev pub get_elem? {ℓ} : {A : Type ℓ} → List A → ℕ → Option A
get_elem? [] n = none
get_elem? (x ∷ xs) zero = some x
get_elem? (x ∷ xs) (suc n) = get_elem? xs n

-- The text of the element before a table, when that may be its caption.
unfoldable pub caption_of : Option Element → Option String
caption_of none = none
caption_of (some preceding) = elim preceding.type [
  | paragraph ↦ some preceding.text
  | image_caption ↦ some preceding.text
  | _ ↦ none
]

unfoldable pub caption_for_table : List Element → ℕ → Option String
unfolding caption_of
caption_for_table elements zero = none
caption_for_table elements (suc n) = caption_of (get_elem? elements n)

abbrev pub run_of : List Element → Region
run_of buffer = record { kind = non_table; elements = buffer; caption_text = none }

-- `if buffer: regions.append(...)`
abbrev pub flushed : List Element → List Region → List Region
flushed [] regions = regions
flushed (e ∷ es) regions = run_of (e ∷ es) ∷ regions

module _ (elements : List Element) where
  -- The loop, from `index` on.
  unfoldable pub partition_from : ℕ → List Element → List Element → List Region
  unfolding caption_for_table
  partition_from index buffer [] = flushed buffer []
  partition_from index buffer (e ∷ es) =
      ite (element_type_discrete e.type table)
        (flushed buffer (
          record {
            kind = table_region;
            elements = e ∷ [];
            caption_text = caption_for_table elements index;
          }
          ∷ partition_from (suc index) [] es))
        (partition_from (suc index) (buffer ++ e ∷ []) es)

unfoldable pub partition_regions : List Element → List Region
partition_regions elements = partition_from elements 0 [] elements
