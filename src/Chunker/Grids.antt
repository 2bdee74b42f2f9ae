-- ===== src/Chunker/Grids.antt =====
-- `_markdown_table`: the grid that the cells are written to.
use vestibule.Prelude.{
  ℕ, zero, suc, ◌<◌, String, ◌≡◌, refl, Bool, true, false, ◌&&◌, List, [], ◌∷◌, Option, none, some,
  ◌==◌, if◌then◌else◌, arith,
}
use vestibule.Chunker.Model.{Cell, content_text}
use vestibule.Chunker.Tables.{extent, copies, edit_at, Grid, fill, grid_of}
use vestibule.Chunker.Regions.{get_elem?}

-- `grid[r][c]`
abbrev pub entry : Option (List String) → ℕ → Option String
entry none c = none
entry (some row) c = get_elem? row c

-- The content of the last of the cells that is at this place, or `v`.
unfoldable pub written : ℕ → ℕ → List Cell → String → String
written r c [] v = v
written r c (cell ∷ cells) v =
    written r c cells
      (if (cell.row_index == r) && (cell.column_index == c) then content_text cell else v)

abbrev edited : {A : Type 0} → Bool → (A → A) → Option A → Option A
edited b f none = none
edited true f (some x) = some (f x)
edited false f (some x) = some x

edited-off : {A : Type 0} (f : A → A) (o : Option A) → edited false f o ≡ o
edited-off f none = refl
edited-off f (some x) = refl

get_elem?-edit_at :
    {A : Type 0} (n m : ℕ) (f : A → A) (xs : List A)
    → get_elem? (edit_at n f xs) m ≡ edited (n == m) f (get_elem? xs m)
unfolding edit_at
get_elem?-edit_at n m f [] = refl
get_elem?-edit_at zero zero f (x ∷ xs) = refl
get_elem?-edit_at (suc n) zero f (x ∷ xs) = ground arith
get_elem?-edit_at zero (suc m) f (x ∷ xs) = ground (arith, edited-off f (get_elem? xs m))
get_elem?-edit_at (suc n) (suc m) f (x ∷ xs) = ground (arith, get_elem?-edit_at n m f xs)

get_elem?-copies : {A : Type 0} (n m : ℕ) (v : A) → m < n → get_elem? (copies n v) m ≡ some v
unfolding copies
get_elem?-copies zero m v h = elim h [ ]
get_elem?-copies (suc n) zero v h = refl
get_elem?-copies (suc n) (suc m) v h = get_elem?-copies n m v (omega arith)

edited-content :
    (b : Bool) (content v : String)
    → edited b (λ _. content) (some v) ≡ some (if b then content else v)
edited-content true content v = refl
edited-content false content v = refl

entry-edited :
    (b : Bool) (n c : ℕ) (content : String) (o : Option (List String)) (v : String)
    → entry o c ≡ some v
    → entry (edited b (edit_at n (λ _. content)) o) c ≡ some (if b && (n == c) then content else v)
entry-edited b n c content none v h = cc
entry-edited true n c content (some row) v h =
    rw (get_elem?-edit_at n c (λ _. content) row, h) (edited-content (n == c) content v)
entry-edited false n c content (some row) v h = h

fill-written :
    (r c : ℕ) (cells : List Cell) (grid : Grid) (v : String)
    → entry (get_elem? grid r) c ≡ some v
    → entry (get_elem? (fill cells grid) r) c ≡ some (written r c cells v)
unfolding fill written
fill-written r c [] grid v h = h
fill-written r c (cell ∷ cells) grid v h =
    fill-written r c cells
      (edit_at cell.row_index (edit_at cell.column_index (λ _. content_text cell)) grid) _
      (rw
        (get_elem?-edit_at cell.row_index r (edit_at cell.column_index (λ _. content_text cell))
          grid)
        (entry-edited (cell.row_index == r) cell.column_index c (content_text cell)
          (get_elem? grid r) v h))

-- The grid of a table has, in each row below the largest row index and in each column below the largest
-- column index, one more each, the content of the last cell that names the place, and the empty text
-- where no cell does.
grid_of-written :
    (cells : List Cell) (r c : ℕ)
    → r < extent (λ cell. cell.row_index) cells
    → c < extent (λ cell. cell.column_index) cells
    → entry (get_elem? (grid_of cells) r) c ≡ some (written r c cells "")
unfolding grid_of
grid_of-written cells r c in_rows in_columns = fill-written r c cells _ "" (
    rw (get_elem?-copies (extent (λ cell. cell.row_index) cells) r _ in_rows)
      (get_elem?-copies (extent (λ cell. cell.column_index) cells) c "" in_columns))
