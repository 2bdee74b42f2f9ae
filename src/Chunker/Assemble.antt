-- ===== src/Chunker/Assemble.antt =====
-- `Chunker` of src/vestibule/chunker/chunker.py, with the strategies it is given. A call makes at most
-- one write to the ledger, and `s` is the ledger at that time, whatever other workers have made of it
-- by then. Logging is left out.
use vestibule.Prelude.{
  ℕ, suc, String, ◌⧺◌, Bool, true, false, List, [], ◌∷◌, ◌++◌, Option, none, some, pos, ite,
  if◌then◌else◌, Outcome, ok, err, ◌>>=◌, and_then,
}
use vestibule.Identity.{IdentityInvalid, derive_chunk_id}
use vestibule.Chunker.{heading, Chunk}
use vestibule.Chunker.Model.{
  Element, ChunkDraft, ChunkerCode, chunker_empty_elements, tokenizer_load_failed, chunker_internal,
  chunker_code_text, ChunkerError, chunker_error_text, ChunkingThrown, chunker_error, unexpected,
  TokenCounter, ChunkerConfig, element_type_discrete,
}
use vestibule.Chunker.Strategies.{ChunkStrategy, Splitter, recursive_region, structure_aware_region}
use vestibule.Chunker.Tables.{table_atomic_region}
use vestibule.Chunker.Regions.{Region, table_region, non_table, partition_regions}
use vestibule.Chunker.Merge.{merge_undersized_tail}
use vestibule.Ledger.Model.{chunking, embedding, failed, LedgerError}
use vestibule.Ledger.Store.{InMemoryLedgerStore, transition}
use vestibule.Ledger.Triaged.{triaged, move_to}

abbrev pub TableStrategy : Type 0
TableStrategy =
    ChunkerConfig
    → TokenCounter
    → List Element
    → Option String
    → Outcome ChunkingThrown (List ChunkDraft)

-- What `Chunker.__init__` keeps, but for the ledger.
pub record Chunker : Type 0 where
  pub config : ChunkerConfig
  pub token_counter : TokenCounter
  pub recursive : ChunkStrategy
  pub structure_aware : ChunkStrategy
  pub table_atomic : TableStrategy

-- `Chunker.__init__` with the default strategies
abbrev pub default_chunker : Splitter → ChunkerConfig → TokenCounter → Chunker
default_chunker split_text config count = record {
  config = config;
  token_counter = count;
  recursive = recursive_region split_text;
  structure_aware = structure_aware_region (recursive_region split_text);
  table_atomic = table_atomic_region;
}

-- `any(element.type is ElementType.HEADING for element in elements)`
unfoldable pub has_heading : List Element → Bool
has_heading [] = false
has_heading (e ∷ es) = ite (element_type_discrete e.type heading) true (has_heading es)

module _ (self : Chunker) where
  unfoldable pub dispatch_region : Bool → Region → Outcome ChunkingThrown (List ChunkDraft)
  dispatch_region has_headings region = elim region.kind [
    | table_region ↦
        self.table_atomic self.config self.token_counter region.elements region.caption_text
    | non_table ↦
        (if has_headings then self.structure_aware else self.recursive) self.config
          self.token_counter region.elements
  ]

  -- The loop over the regions.
  unfoldable pub drafts_from : Bool → List Region → Outcome ChunkingThrown (List ChunkDraft)
  drafts_from has_headings [] = ok []
  drafts_from has_headings (region ∷ regions) =
      dispatch_region has_headings region >>= λ region_drafts.
      merge_undersized_tail self.token_counter self.config region_drafts >>= λ merged.
      drafts_from has_headings regions >>= λ rest. ok (merged ++ rest)

abbrev pub identity_text : IdentityInvalid → String
identity_text e = e.field_name ⧺ ": " ⧺ e.reason

abbrev pub chunk_of : String → ℕ → ChunkDraft → String → Chunk
chunk_of doc_id position draft chunk_id = record {
  chunk_id = chunk_id;
  doc_id = doc_id;
  position = position;
  element_types = draft.element_types;
  text = draft.text;
  token_count = draft.token_count;
  metadata = draft.metadata;
}

abbrev pub or_unexpected : {A : Type 0} → Outcome IdentityInvalid A → Outcome ChunkingThrown A
or_unexpected (ok a) = ok a
or_unexpected (err e) = err (unexpected (identity_text e))

-- What leaves the stage: a `ChunkerError`, or what the ledger raised.
pub data ChunkRaised : Type 0 where
  chunking_failed : ChunkerError → ChunkRaised
  ledger_raised : LedgerError → ChunkRaised

abbrev pub ChunkAction : Type 0 → Type 0
ChunkAction A = InMemoryLedgerStore → Outcome ChunkRaised A × InMemoryLedgerStore

abbrev pub chunking_error : String → ChunkerCode → String → ChunkRaised
chunking_error doc_id code reason =
    chunking_failed (record { doc_id = doc_id; reason = reason; error_code = code })

-- What a stage returns after its triaged ledger call, unless that call raised.
unfoldable pub unless_refused :
    {A : Type 0} → Option LedgerError → Outcome ChunkRaised A → Outcome ChunkRaised A
unless_refused none r = r
unless_refused (some e) r = err (ledger_raised e)

abbrev pub no_elements : String
no_elements = "Analyzer returned zero elements; nothing to chunk"

unfoldable pub terminalize_empty_elements : {A : Type 0} → String → ChunkAction A
unfolding unless_refused
terminalize_empty_elements doc_id s =
    let (o, s') =
      triaged doc_id
        (move_to failed (some (chunker_code_text chunker_empty_elements)) (some no_elements)) s in
    (unless_refused o (err (chunking_error doc_id chunker_empty_elements no_elements)), s')

unfoldable pub self_transition_and_raise :
    {A : Type 0} → String → ChunkerCode → String → ChunkAction A
self_transition_and_raise doc_id code reason s =
    let (o, s') =
      transition doc_id (move_to chunking (some (chunker_code_text code)) (some reason)) s in
    (elim o [ ok _ ↦ err (chunking_error doc_id code reason) | err e ↦ err (ledger_raised e) ], s')

unfoldable pub transition_to_embedding : {A : Type 0} → String → A → ChunkAction A
unfolding unless_refused
transition_to_embedding doc_id chunks s =
    let (o, s') = triaged doc_id (move_to embedding none none) s in
    (unless_refused o (ok chunks), s')

-- The code and the reason that a failure is recorded with.
unfoldable pub recovered : ChunkingThrown → ChunkerCode × String
recovered (chunker_error e) = elim e.error_code [
  | tokenizer_load_failed ↦ (tokenizer_load_failed, e.reason)
  | _ ↦ (chunker_internal, chunker_error_text e)
]
recovered (unexpected exc) = (chunker_internal, exc)

-- What the handlers of `_build_chunks` do with what `_assemble_chunks` did.
unfoldable pub recover : {A : Type 0} → String → Outcome ChunkingThrown A → ChunkAction A
unfolding recovered self_transition_and_raise
recover doc_id (ok chunks) s = (ok chunks, s)
recover doc_id (err e) s = self_transition_and_raise doc_id (recovered e).0 (recovered e).1 s

module _ (sha256_hex : String → String) where
  -- The loop of `_assign_positions`, from `position` on.
  unfoldable pub assign_from : String → ℕ → List ChunkDraft → Outcome ChunkingThrown (List Chunk)
  assign_from doc_id position [] = ok []
  assign_from doc_id position (draft ∷ drafts) =
      or_unexpected (derive_chunk_id sha256_hex doc_id (pos position)) >>= λ chunk_id.
      assign_from doc_id (suc position) drafts >>= λ rest.
      ok (chunk_of doc_id position draft chunk_id ∷ rest)

  unfoldable pub assign_positions : String → List ChunkDraft → Outcome ChunkingThrown (List Chunk)
  unfolding assign_from
  assign_positions doc_id drafts = assign_from doc_id 0 drafts

  module _ (self : Chunker) where
    unfoldable pub assemble_chunks : String → List Element → Outcome ChunkingThrown (List Chunk)
    assemble_chunks doc_id elements =
        drafts_from self (has_heading elements) (partition_regions elements)
        >>= assign_positions doc_id

    unfoldable pub build_chunks : String → List Element → ChunkAction (List Chunk)
    unfolding recover
    build_chunks doc_id elements s = recover doc_id (assemble_chunks doc_id elements) s

    unfoldable pub chunk : String → List Element → ChunkAction (List Chunk)
    unfolding terminalize_empty_elements build_chunks transition_to_embedding
    chunk doc_id [] s = terminalize_empty_elements doc_id s
    chunk doc_id (e ∷ es) s =
        and_then (build_chunks doc_id (e ∷ es)) (transition_to_embedding doc_id) s
