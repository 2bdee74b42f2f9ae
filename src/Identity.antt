-- ===== src/Identity.antt =====
-- src/vestibule/identity/derive.py: the rule by which documents and chunks are named.
-- Texts are `String`, so the checks that an argument is a `str` or an `int` are met by typing.
-- `hashlib.sha256(... .encode()).hexdigest()` is the parameter `sha256_hex`.
pub mod Format
pub mod Batch
mod Tests
use Prim.Native.Char.{code}
use Prim.Native.String.{String}
use vestibule.Prelude.{
  ℕ, zero, suc, ◌/◌, ◌%◌, ◌⧺◌, Bool, true, false, ◌&&◌, ◌||◌, List, [], ◌∷◌, leb, ltb, ◌==◌, ite,
  if◌then◌else◌, ℕ_discrete, ℤ, pos, negsuc, Outcome, ok, err, ◌>>=◌, ◌>>◌, raise_if,
}

pub record IdentityInvalid : Type 0 where
  pub field_name : String
  pub reason : String

-- The code points of a text.
abbrev pub codes : String → List ℕ
codes String.[] = []
codes (String.◌∷◌ c s) = code c ∷ codes s

-- `[0-9a-f]`
abbrev pub is_hex_digit : ℕ → Bool
is_hex_digit c = (leb b'0' c && leb c b'9') || (leb b'a' c && leb c b'f')

-- `$` of Python's `re`: the end of the text, or before a newline that ends it.
abbrev pub at_end : List ℕ → Bool
at_end [] = true
at_end (c ∷ []) = c == 10
at_end (c ∷ d ∷ cs) = false

-- `^[0-9a-f]{n}$`
unfoldable pub match_hex : ℕ → List ℕ → Bool
match_hex zero cs = at_end cs
match_hex (suc n) [] = false
match_hex (suc n) (c ∷ cs) = is_hex_digit c && match_hex n cs

abbrev pub id_hex_length : ℕ
id_hex_length = 64

unfoldable pub validate_id_format : String → String → Outcome IdentityInvalid String
validate_id_format value field_name =
    if match_hex id_hex_length (codes value)
    then ok value
    else err (record { field_name = field_name; reason = "not 64 hex chars" })

abbrev pub is_empty : String → Bool
is_empty String.[] = true
is_empty (String.◌∷◌ c s) = false

unfoldable pub validate_non_empty_str : String → String → Outcome IdentityInvalid (Unit {0})
validate_non_empty_str value field_name =
    raise_if (is_empty value) (record { field_name = field_name; reason = "empty string" })

unfoldable pub validate_chunk_index : ℤ → Outcome IdentityInvalid ℕ
validate_chunk_index (pos n) = ok n
validate_chunk_index (negsuc n) =
    err (record { field_name = "chunk_index"; reason = "negative int" })

abbrev pub digit : ℕ → String
digit d =
    if d == 0
    then "0"
    else if d == 1
    then "1"
    else if d == 2
    then "2"
    else if d == 3
    then "3"
    else if d == 4
    then "4"
    else if d == 5
    then "5"
    else if d == 6
    then "6"
    else if d == 7
    then "7"
    else if d == 8
    then "8"
    else "9"

-- `str(n)`, with fuel for the digits.
decimal : ℕ → ℕ → String
decimal zero n = ""
decimal (suc fuel) n =
    let front = decimal fuel (n / 10) in if ltb n 10 then digit n else front ⧺ digit (n % 10)

-- A number has no more digits than its successor.
unfoldable pub str : ℕ → String
unfolding decimal
str n = decimal (suc n) n

-- An entry of the `dict[int, str]` that the batch helper fills.
abbrev pub put : ℕ → String → List (ℕ × String) → List (ℕ × String)
put i v [] = (i, v) ∷ []
put i v (e ∷ m) = ite (ℕ_discrete e.0 i) ((i, v) ∷ m) (e ∷ put i v m)

module _ (sha256_hex : String → String) where
  unfoldable pub derive_doc_id : String → String → Outcome IdentityInvalid String
  unfolding validate_non_empty_str
  derive_doc_id source blob_path = do
    validate_non_empty_str source "source"
    validate_non_empty_str blob_path "blob_path"
    ok (sha256_hex (source ⧺ blob_path))

  unfoldable pub derive_chunk_id : String → ℤ → Outcome IdentityInvalid String
  unfolding validate_id_format validate_chunk_index
  derive_chunk_id doc_id chunk_index = do
    validated_doc_id ← validate_id_format doc_id "doc_id"
    i ← validate_chunk_index chunk_index
    ok (sha256_hex (validated_doc_id ⧺ str i))

  derive_from : String → List ℤ → List (ℕ × String) → Outcome IdentityInvalid (List (ℕ × String))
  derive_from doc_id [] result = ok result
  derive_from doc_id (i ∷ is) result = do
    chunk_id ← derive_chunk_id doc_id i
    n ← validate_chunk_index i
    derive_from doc_id is (put n chunk_id result)

  unfoldable pub derive_chunk_ids_batch :
      String → List ℤ → Outcome IdentityInvalid (List (ℕ × String))
  unfolding derive_from
  derive_chunk_ids_batch doc_id chunk_indices = derive_from doc_id chunk_indices []
