-- ===== src/Analyzer/Model.antt =====
-- src/vestibule/analyzer/model.py and registry.py, but for the elements, which `Chunker.Model` has. A
-- document's bytes are a list of numbers.
use vestibule.Prelude.{ℤ, ℕ, String, List, Option}
use vestibule.Dict.{Dict, lookup, insert}
use vestibule.Vertical.Model.{ArrivalEnvelope}
use vestibule.Ledger.Model.{LedgerError}
use vestibule.Chunker.Model.{Element}

pub data AnalyzerCode : Type 0 where
  analyzer_unsupported_type analyzer_no_parser analyzer_dependency_missing parser_timeout
        docint_rate_limited docint_upstream_error parser_internal :
      AnalyzerCode

abbrev pub analyzer_code_text : AnalyzerCode → String
analyzer_code_text analyzer_unsupported_type = "ANALYZER_UNSUPPORTED_TYPE"
analyzer_code_text analyzer_no_parser = "ANALYZER_NO_PARSER"
analyzer_code_text analyzer_dependency_missing = "ANALYZER_DEPENDENCY_MISSING"
analyzer_code_text parser_timeout = "PARSER_TIMEOUT"
analyzer_code_text docint_rate_limited = "DOCINT_RATE_LIMITED"
analyzer_code_text docint_upstream_error = "DOCINT_UPSTREAM_ERROR"
analyzer_code_text parser_internal = "PARSER_INTERNAL"

pub data DetectedType : Type 0 where
  digital_pdf scanned_pdf docx image unsupported : DetectedType

-- `DetectedType.value`
abbrev pub detected_value : DetectedType → String
detected_value digital_pdf = "digital_pdf"
detected_value scanned_pdf = "scanned_pdf"
detected_value docx = "docx"
detected_value image = "image"
detected_value unsupported = "unsupported"

pub record AnalyzerError : Type 0 where
  pub doc_id : String
  pub reason : String
  pub error_code : AnalyzerCode
  pub detected_type : Option DetectedType

-- What comes of `future.result(timeout=...)`: what `parse` returned, no answer in time, an
-- `AnalyzerError`, or another exception with its text.
pub data Parsed : Type 0 where
  returned : List Element → Parsed
  timed_out : Parsed
  raised : AnalyzerError → Parsed
  threw : String → Parsed

-- `ParserAdapter.parse`, under the timeout
abbrev pub ParserAdapter : Type 0
ParserAdapter = ArrivalEnvelope → List ℕ → Parsed

-- `ParserRegistry`, by the value of the type
abbrev pub ParserRegistry : Type 0
ParserRegistry = Dict ParserAdapter

unfoldable pub register : DetectedType → ParserAdapter → ParserRegistry → ParserRegistry
register t parser parsers = insert (detected_value t) parser parsers

unfoldable pub get : DetectedType → ParserRegistry → Option ParserAdapter
get t parsers = lookup (detected_value t) parsers

-- `AnalyzerConfig`; of the timeout only its text is read here.
pub record AnalyzerConfig : Type 0 where
  pub scanned_pdf_probe_pages : ℤ
  pub scanned_pdf_min_chars_per_page : ℤ
  pub parser_timeout_seconds : String

-- What leaves the stage: an `AnalyzerError`, what the ledger raised, or an exception that nothing here
-- handles.
pub data AnalyzeRaised : Type 0 where
  analyzing_failed : AnalyzerError → AnalyzeRaised
  ledger_raised : LedgerError → AnalyzeRaised
  unhandled : String → AnalyzeRaised
