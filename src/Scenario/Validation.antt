-- ===== src/Scenario/Validation.antt =====
-- src/vestibule/scenario/_validation.py: the checks that `Scenario` of model.py makes when one is
-- constructed, in their order. A `ValueError` is its message.
use vestibule.Prelude.{
  ℕ, zero, suc, ◌⧺◌, String, Bool, false, ◌&&◌, ◌||◌, not, Option, none, some, List, [], ◌∷◌, leb,
  ◌==◌, ite, ℤ, pos, leb_ℤ, ℤ_discrete, string_discrete, Outcome, ok, err, ◌>>◌, raise_if, Format,
}
use vestibule.Identity.{codes, at_end}
use vestibule.Scenario.{
  Adapter, azure_openai, fastembed, ChunkerSettings, EmbedderSettings, IndexerSettings, Scenario,
}

-- `[a-z0-9]`
abbrev pub is_lower_alnum : ℕ → Bool
is_lower_alnum c = (leb b'a' c && leb c b'z') || (leb b'0' c && leb c b'9')

-- `[a-z0-9-]`
abbrev pub is_name_char : ℕ → Bool
is_name_char c = is_lower_alnum c || c == b'-'

-- `[a-z0-9]$`
unfoldable pub match_last : List ℕ → Bool
match_last [] = false
match_last (c ∷ cs) = is_lower_alnum c && at_end cs

-- `[a-z0-9-]{0,n}[a-z0-9]$`, with as many characters in the middle as will do.
unfoldable pub match_middle : ℕ → List ℕ → Bool
match_middle zero cs = match_last cs
match_middle (suc n) [] = false
match_middle (suc n) (c ∷ cs) = is_name_char c && match_middle n cs || match_last (c ∷ cs)

-- `_INDEX_NAME_RE`
unfoldable pub match_index_name : List ℕ → Bool
match_index_name [] = false
match_index_name (c ∷ cs) = is_lower_alnum c && match_middle 126 cs

unfoldable pub native_dimensions : Adapter → String → Option ℤ
native_dimensions azure_openai model =
    ite (string_discrete model "text-embedding-3-large") (some (pos 3072)) none
native_dimensions fastembed model =
    ite (string_discrete model "nomic-ai/nomic-embed-text-v1.5") (some (pos 768)) none

abbrev pub adapter_name : Adapter → String
adapter_name azure_openai = "azure_openai"
adapter_name fastembed = "fastembed"

-- `target is not None and target > native`
abbrev pub exceeds : Option ℤ → ℤ → Bool
exceeds none native = false
exceeds (some target) native = not (leb_ℤ target native)

abbrev pub effective : Option ℤ → ℤ → ℤ
effective none native = native
effective (some target) native = target

module _ (py : Format) where
  unfoldable pub validate_index_name : String → Outcome String (Unit {0})
  validate_index_name index_name = raise_if (not (match_index_name (codes index_name))) (
      "index_name="
      ⧺ py.repr index_name
      ⧺ " is invalid: must be 2-128 characters, "
      ⧺ "lowercase alphanumeric or dashes, and not start/end with a dash")

  unfoldable pub validate_chunker_bounds : ChunkerSettings → Outcome String (Unit {0})
  validate_chunker_bounds chunker =
      raise_if
        (not (
          leb_ℤ chunker.min_chunk_tokens chunker.target_chunk_tokens
          && leb_ℤ chunker.target_chunk_tokens chunker.max_chunk_tokens))
        ("chunker token bounds violated: expected min_chunk_tokens "
          ⧺ "("
          ⧺ py.digits chunker.min_chunk_tokens
          ⧺ ") <= target_chunk_tokens "
          ⧺ "("
          ⧺ py.digits chunker.target_chunk_tokens
          ⧺ ") <= max_chunk_tokens "
          ⧺ "("
          ⧺ py.digits chunker.max_chunk_tokens
          ⧺ ")")

  -- `{target!r}`
  abbrev pub target_repr : Option ℤ → String
  target_repr none = "None"
  target_repr (some target) = py.digits target

  unfoldable pub validate_effective :
      EmbedderSettings → IndexerSettings → ℤ → Outcome String (Unit {0})
  validate_effective embedder indexer native =
      raise_if (exceeds embedder.target_dimensions native) (
        "embedder.target_dimensions="
        ⧺ target_repr embedder.target_dimensions
        ⧺ " exceeds model "
        ⧺ py.repr embedder.model
        ⧺ "'s native_dimensions="
        ⧺ py.digits native)
      >> ite (ℤ_discrete indexer.dimensions (effective embedder.target_dimensions native)) (ok tt) (
          err (
            "indexer.dimensions="
            ⧺ py.digits indexer.dimensions
            ⧺ " does not match the embedder's effective dimensions="
            ⧺ py.digits (effective embedder.target_dimensions native)
            ⧺ " (target_dimensions="
            ⧺ target_repr embedder.target_dimensions
            ⧺ ", native="
            ⧺ py.digits native
            ⧺ ")"))

  abbrev pub unrecognized : EmbedderSettings → String
  unrecognized embedder =
      "embedder (adapter="
      ⧺ py.repr (adapter_name embedder.adapter)
      ⧺ ", model="
      ⧺ py.repr embedder.model
      ⧺ ") is not a recognized (adapter, model) combination in the "
      ⧺ "native-dimensions registry; add an entry to _NATIVE_DIMENSIONS"

  unfoldable pub validate_dimension_consistency :
      EmbedderSettings → IndexerSettings → Outcome String (Unit {0})
  unfolding validate_effective native_dimensions
  validate_dimension_consistency embedder indexer =
      elim (native_dimensions embedder.adapter embedder.model) [
        | none ↦ err (unrecognized embedder)
        | some native ↦ validate_effective embedder indexer native
      ]

  unfoldable pub validate_cross_field_invariants : Scenario → Outcome String Scenario
  unfolding validate_index_name validate_chunker_bounds validate_dimension_consistency
  validate_cross_field_invariants sc =
      validate_index_name sc.index_name
      >> validate_chunker_bounds sc.chunker
      >> validate_dimension_consistency sc.embedder sc.indexer
      >> ok sc
