-- ===== src/Indexer/Tests.antt =====
-- The indexer's theorems at concrete inputs.
use vestibule.Prelude.{
  ℕ, String, refuted, sym, ◌∙◌, ◌≡◌, refl, true, List, [], ◌∷◌, none, some, pos, ok, err, Format,
  All, arith, ite, ◌≢◌, string_discrete, in_batches,
}
use vestibule.Samples.{doc_a, doc_b, row_at, ledger_at, ledger_at-IsValid, ledger_at-lookup}
use vestibule.Dict.{lookup, insert, All-lookup}
use vestibule.Chunker.{paragraph, text, nothing}
use vestibule.Ledger.Model.{Status, indexing}
use vestibule.Ledger.Store.{write}
use vestibule.Ledger.Stage.{retried}
use vestibule.Embedder.Model.{EmbeddedChunk}
use vestibule.Vertical.Model.{ArrivalEnvelope, internal}
use vestibule.Indexer.Model.{
  indexer_timeout, indexer_error, IndexRecord, IndexerConfig, IndexerAdapter, Site,
}
use vestibule.Indexer.Upsert.{upsert_all}
use vestibule.Indexer.Records.{build_each}
use vestibule.Indexer.Index.{indexing_error, distinct, index}
use vestibule.Indexer.Verdict.{refusal, first_mismatch, verdict}
use vestibule.Indexer.Stage.{index-recorded}
use vestibule.Indexer.Memory.{
  InMemoryIndexer, in_memory, put, put_all, upsert, delete_by_doc_id, count_by_doc_id, ids_of, add,
  version_of, Pick,
}
use vestibule.Indexer.Coherence.{IsCoherent, put_all-IsCoherent, writes-IsCoherent}
use vestibule.Indexer.Puts.{latest, receipt}
use vestibule.Indexer.Replace.{IsLawful, IsBatch, upsert_all-replaces}
use vestibule.Indexer.Redeliver.{upsert_all-again}

abbrev plain : Format
plain = record { digits = λ n. "n"; repr = λ s. s; repr_sorted = λ ss. "[]" }

abbrev first : Pick
first k ks = k

first-IsLawful : IsLawful first
first-IsLawful k ks = ground arith

abbrev config : IndexerConfig
config = record {
  dimensions = pos 2;
  metric = "cosine";
  batch_size = some (pos 1);
  delete_before_upsert_on_version_change = true;
}

abbrev memory : IndexerAdapter ℕ (InMemoryIndexer ℕ)
memory = in_memory plain first "dev"

abbrev late : IndexerAdapter ℕ (InMemoryIndexer ℕ)
unfolding in_memory
late = record memory {
  upsert = λ rs s. (
    err (indexer_error (record { doc_id = ""; reason = "late"; error_code = indexer_timeout })),
    s,
  );
}

abbrev arrival : ArrivalEnvelope
arrival = record {
  doc_id = doc_a;
  source = "share";
  blob_path = "a.pdf";
  vertical = none;
  scenario_id = none;
  allowed_groups = "staff" ∷ [];
  trust_tier = internal;
  content_hash = "new";
  received_at = 1;
}

abbrev embedded_at : String → EmbeddedChunk ℕ
embedded_at id = record {
  chunk = record {
    chunk_id = id;
    doc_id = doc_a;
    position = 0;
    element_types = paragraph ∷ [];
    text = "words";
    token_count = 7;
    metadata = ("strategy", text "recursive") ∷ ("section_path", nothing) ∷ [];
  };
  vector = 1 ∷ 2 ∷ [];
  embedding_model = "tiny";
  embedding_dimensions = 2;
  truncated_from = none;
}

abbrev record_of : (doc_id version id : String) → IndexRecord ℕ
record_of doc_id version id = record {
  chunk_id = id;
  doc_id = doc_id;
  doc_version = version;
  vector = 1 ∷ 2 ∷ [];
  text = "words";
  position = 0;
  section_path = none;
  element_types = "paragraph" ∷ [];
  strategy = "recursive";
  allowed_groups = "staff" ∷ [];
  trust_tier = "internal";
  embedding_model = "tiny";
  embedding_dimensions = 2;
  config_version = "v1";
  indexed_at = 50;
}

-- Chunks whose id is "b" are of one document, all others of another.
abbrev owner : String → String
owner k = ite (string_discrete k "b") doc_b doc_a

abbrev empty : InMemoryIndexer ℕ
empty = record { records = []; by_doc = []; schema = none }

empty-IsCoherent : IsCoherent owner empty
unfolding lookup ids_of
empty-IsCoherent = record {
  kept = tt;
  filed = tt;
  owned = λ k r e. cc;
  listed = λ k r e. cc;
  stored = λ d k e. cc;
}

abbrev old : List (IndexRecord ℕ)
old = record_of doc_a "old" "a0" ∷ record_of doc_b "old" "b" ∷ []

old-owned : All (λ r. r.doc_id ≡ owner r.chunk_id) old
unfolding string_discrete
old-owned = (refl, (refl, tt))

-- An old version of one document, and another document.
abbrev stored : InMemoryIndexer ℕ
stored = put_all old empty

stored-IsCoherent : IsCoherent owner stored
stored-IsCoherent = put_all-IsCoherent owner old empty old-owned empty-IsCoherent

old_is_not_new : (v : String) → v ≡ "old" → v ≢ "new"
unfolding string_discrete
old_is_not_new v h same = refuted (string_discrete "old" "new") refl (sym h ∙ same)

stale :
    (k : String) (x : IndexRecord ℕ)
    → lookup k stored.records ≡ some x
    → x.doc_id ≡ doc_a
    → x.doc_version ≢ "new"
unfolding put_all put insert string_discrete
stale k x e mine =
    old_is_not_new x.doc_version
      (All-lookup (λ p. p.1.doc_version ≡ "old") k x stored.records (refl, (refl, tt)) e)

new-IsBatch :
    All (IsBatch owner doc_a "new") (record_of doc_a "new" "a1" ∷ record_of doc_a "new" "a2" ∷ [])
unfolding string_discrete
new-IsBatch = ((refl, refl, refl), ((refl, refl, refl), tt))

abbrev site_at : Status → Site (InMemoryIndexer ℕ)
site_at status = record { ledger = ledger_at status; store = stored }

abbrev two : List (EmbeddedChunk ℕ)
two = embedded_at "a1" ∷ embedded_at "a2" ∷ []

index-recorded_example : index late config plain arrival 50 two (site_at indexing) ≡ (
  err (indexing_error doc_a indexer_timeout "late"),
  record {
    ledger =
        write doc_a (retried "INDEXER_TIMEOUT" "late" 105 (row_at indexing)) (ledger_at indexing);
    store = (delete_by_doc_id doc_a stored).1;
  },
)
unfolding verdict refusal delete_by_doc_id distinct string_discrete first_mismatch build_each lookup
    upsert_all late version_of ids_of put_all put insert add in_batches
index-recorded_example =
    index-recorded late config plain arrival 50 two (site_at indexing) (row_at indexing)
      (ledger_at-IsValid indexing) (ledger_at-lookup indexing) refl

writes-IsCoherent_example :
    IsCoherent owner (upsert old empty).1 × IsCoherent owner (delete_by_doc_id doc_a empty).1
writes-IsCoherent_example = writes-IsCoherent owner old doc_a empty old-owned empty-IsCoherent

abbrev new : IndexRecord ℕ
new = record_of doc_a "new" "a1"

abbrev newer : List (IndexRecord ℕ)
newer = record_of doc_a "new" "a2" ∷ []

upsert_all-replaces_example :
    (s' : InMemoryIndexer ℕ) × (upsert_all memory config doc_a (new ∷ newer) stored
      ≡ (ok (receipt plain first "dev" doc_a 2 (count_by_doc_id doc_a stored) new), s'))
    × IsCoherent owner s'
    × ((k : String)
        → lookup k s'.records
          ≡ ite
              (string_discrete (owner k) doc_a)
              (latest k (new ∷ newer))
              (lookup k stored.records))
upsert_all-replaces_example =
    upsert_all-replaces plain first "dev" owner config doc_a new newer stored first-IsLawful
      stored-IsCoherent (omega arith) refl new-IsBatch stale

upsert_all-again_example :
    (s' s'' : InMemoryIndexer ℕ) × (upsert_all memory config doc_a (new ∷ newer) stored
      ≡ (ok (receipt plain first "dev" doc_a 2 (count_by_doc_id doc_a stored) new), s'))
    × (upsert_all memory config doc_a (new ∷ newer) s'
        ≡ (ok (receipt plain first "dev" doc_a 2 0 new), s''))
    × ((k : String) → lookup k s''.records ≡ lookup k s'.records)
upsert_all-again_example =
    upsert_all-again plain first "dev" owner config doc_a new newer stored first-IsLawful
      stored-IsCoherent (omega arith) refl new-IsBatch stale
