-- ===== src/Prelude/Rendering.antt =====
-- How Python writes values in messages: `str` of an `int`, `repr` of a text, and `repr` of the list
-- that `sorted` makes of a set of texts.
use Prim.Native.String.{String}
use mathlib.Core.List.{List}
use vestibule.Prelude.Int.{ℤ}

pub record Format : Type 0 where
  pub digits : ℤ → String
  pub repr : String → String
  pub repr_sorted : List String → String
