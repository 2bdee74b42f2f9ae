-- ===== src/Samples.antt =====
-- Data for the tests: two documents, ledgers that hold them, and a scenario.
use vestibule.Prelude.{
  ◌+◌, String, ◌≡◌, refl, none, some, [], ◌∷◌, ok, arith, string_discrete, true, pos,
}
use vestibule.Dict.{lookup}
use vestibule.Identity.{validate_id_format, match_hex}
use vestibule.Ledger.Model.{Status, LedgerRow}
use vestibule.Ledger.Store.{InMemoryLedgerStore}
use vestibule.Ledger.Invariant.{IsRow, IsValid}
use vestibule.Scenario.{Scenario, fastembed, envelope}

abbrev pub doc_a : String
doc_a = "aaaaaaaaaaaaaaaaaaaaaaaaaaaaaaaaaaaaaaaaaaaaaaaaaaaaaaaaaaaaaaaa"

abbrev pub doc_b : String
doc_b = "bbbbbbbbbbbbbbbbbbbbbbbbbbbbbbbbbbbbbbbbbbbbbbbbbbbbbbbbbbbbbbbb"

-- A row of `doc_a` in its third attempt at some stage.
abbrev pub row_at : Status → LedgerRow
row_at status = record {
  doc_id = doc_a;
  status = status;
  stage = status;
  attempts = 3;
  last_error_code = some "PARSER_BROKEN";
  last_error_message = some "unreadable";
  config_version = "v1";
  ingested_at = 7;
  updated_at = 9;
  assigned_scenario_id = none;
}

abbrev pub ledger_at : Status → InMemoryLedgerStore
ledger_at status = record { rows = (doc_a, row_at status) ∷ []; clock = λ n. 100 + n; reads = 5 }

abbrev pub empty_ledger : InMemoryLedgerStore
empty_ledger = record { rows = []; clock = λ n. 100 + n; reads = 0 }

pub empty_ledger-IsValid : IsValid empty_ledger
empty_ledger-IsValid = record { distinct = tt; rows_hold = tt }

pub doc_a_formatted : validate_id_format doc_a "doc_id" ≡ ok doc_a
unfolding validate_id_format match_hex
doc_a_formatted = refl

row_at-IsRow : (status : Status) → IsRow (doc_a, row_at status)
row_at-IsRow status = record {
  keyed = refl;
  formatted = doc_a_formatted;
  staged = refl;
  coded = λ h e. cc;
  attempted = λ a b. omega arith;
}

pub ledger_at-IsValid : (status : Status) → IsValid (ledger_at status)
unfolding lookup
ledger_at-IsValid status = record { distinct = (refl, tt); rows_hold = (row_at-IsRow status, tt) }

pub ledger_at-lookup :
    (status : Status) → lookup doc_a (ledger_at status).rows ≡ some (row_at status)
unfolding lookup string_discrete
ledger_at-lookup status = refl

abbrev pub hr : Scenario
hr = record {
  scenario_id = "hr-v1";
  vertical = "hr";
  config_version = "v1";
  index_name = "hr-index";
  chunker = record {
    target_chunk_tokens = pos 400;
    overlap_tokens = pos 40;
    min_chunk_tokens = pos 50;
    max_chunk_tokens = pos 800;
  };
  embedder = record { adapter = fastembed; model = "small"; target_dimensions = none };
  indexer = record {
    metric = "cosine";
    dimensions = pos 384;
    hnsw_m = pos 4;
    hnsw_ef_construction = pos 400;
    hnsw_ef_search = pos 500;
  };
  acl_source = envelope;
  default_trust_tier = "internal";
  enabled = true;
  created_at = 1;
  updated_at = 1;
  index_template_id = none;
}
