-- ===== src/Analyzer/Tests.antt =====
-- The analyzer's theorems at concrete inputs.
use vestibule.Prelude.{pos, ℕ, ◌≡◌, refl, List, [], ◌∷◌, none, some, string_discrete}
use vestibule.Dict.{lookup, insert, lookup-insert_self}
use vestibule.Samples.{doc_a, row_at, ledger_at, ledger_at-IsValid, ledger_at-lookup}
use vestibule.Vertical.Model.{ArrivalEnvelope, internal}
use vestibule.Ledger.Model.{pending, analyzing, embedding}
use vestibule.Ledger.Legal.{Edge}
use vestibule.Ledger.Triage.{Later, Forward}
use vestibule.Ledger.Stage.{advanced-IsValid}
use vestibule.Analyzer.Model.{
  image, threw, ParserRegistry, AnalyzerConfig, register, get, parser_internal, docint_rate_limited,
}
use vestibule.Analyzer.Detect.{detect_type, starts_with, pdf_magic}
use vestibule.Analyzer.Analyze.{analyze}
use vestibule.Analyzer.Stage.{Verdict, verdict, settled, analyze-settled}
use vestibule.Analyzer.Overtaken.{Passed, analyze_overtaken}
use vestibule.Analyzer.Docint.{ParagraphRole, AnalyzeResult, map_status_to_error_code}

abbrev settings : AnalyzerConfig
settings = record {
  scanned_pdf_probe_pages = pos 3;
  scanned_pdf_min_chars_per_page = pos 50;
  parser_timeout_seconds = "240.0";
}

abbrev envelope : ArrivalEnvelope
envelope = record {
  doc_id = doc_a;
  source = "share";
  blob_path = "a.pdf";
  vertical = none;
  scenario_id = none;
  allowed_groups = [];
  trust_tier = internal;
  content_hash = doc_a;
  received_at = 1;
}

-- An image, and a parser of images that throws.
abbrev picture : List ℕ
picture = 255 ∷ 216 ∷ 255 ∷ 224 ∷ []

abbrev parsers : ParserRegistry
parsers = register image (λ e content. threw "no text layer") []

picture_retries :
    verdict none parsers settings envelope picture
    ≡ Verdict.retry parser_internal "no text layer" image
unfolding verdict detect_type starts_with get register lookup insert string_discrete
picture_retries = refl

too_many : map_status_to_error_code (some 429) ≡ some docint_rate_limited
unfolding map_status_to_error_code
too_many = refl

analyze-settled_example :
    analyze none parsers settings (λ s. s) envelope picture (ledger_at pending)
    ≡ settled none parsers settings
        (λ s. s)
        envelope
        picture
        (ledger_at pending)
        (row_at pending)
        (ledger_at-IsValid pending)
        (ledger_at-lookup pending)
        (verdict none parsers settings envelope picture)
analyze-settled_example =
    analyze-settled none parsers settings (λ s. s) envelope picture (ledger_at pending)
      (row_at pending) (ledger_at-IsValid pending) (ledger_at-lookup pending)
      (advanced-IsValid doc_a (ledger_at pending) (row_at pending) (ledger_at-IsValid pending)
        (ledger_at-lookup pending) analyzing Edge.analyze (λ x. cc) (λ x. cc) tt)
      (lookup-insert_self doc_a _ (ledger_at pending).rows) refl

-- A PDF, in a worker that lacks `pymupdf`.
analyze_overtaken_example :
    Passed none parsers settings
      (λ s. s)
      envelope
      pdf_magic
      (ledger_at embedding)
      (row_at embedding)
      (row_at embedding)
      (verdict none parsers settings envelope pdf_magic)
analyze_overtaken_example =
    analyze_overtaken none parsers settings (λ s. s) envelope pdf_magic (ledger_at embedding)
      (row_at embedding) (row_at embedding) (ledger_at-IsValid embedding)
      (ledger_at-lookup embedding) (ledger_at-IsValid embedding) (ledger_at-lookup embedding)
      (Later.then Later.here Forward.embed) (Later.then Later.here Forward.embed) (λ x. cc)

abbrev scan : AnalyzeResult
scan = record {
  paragraphs = some (
      record { role = some ParagraphRole.title; content = "Report" }
      ∷ record { role = none; content = "The end." }
      ∷ []);
  tables = some (record { cells = [] } ∷ record { cells = [] } ∷ []);
}
