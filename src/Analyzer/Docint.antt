-- ===== src/Analyzer/Docint.antt =====
-- src/vestibule/analyzer/parsers/docint_parser.py. The client of Azure Document Intelligence is a
-- parameter.
use vestibule.Prelude.{
  ℕ, String, List, [], ◌++◌, map, Option, none, some, leb, ◌==◌, if◌then◌else◌, Outcome, ok, err,
}
use vestibule.Chunker.{ElementType, heading, paragraph, table}
use vestibule.Chunker.Model.{Cell, Element}
use vestibule.Chunker.Strategies.{join}
use vestibule.Analyzer.Model.{
  AnalyzerCode, docint_rate_limited, docint_upstream_error, Parsed, returned, timed_out, raised,
  threw, ParserAdapter,
}

pub data ParagraphRole : Type 0 where
  title section_heading other_role : ParagraphRole

pub record DocumentParagraph : Type 0 where
  pub role : Option ParagraphRole
  pub content : String

pub record DocumentTableCell : Type 0 where
  pub row_index : ℕ
  pub column_index : ℕ
  pub content : String

pub record DocumentTable : Type 0 where
  pub cells : List DocumentTableCell

pub record AnalyzeResult : Type 0 where
  pub paragraphs : Option (List DocumentParagraph)
  pub tables : Option (List DocumentTable)

-- An `HttpResponseError` with its status code and text, or another exception.
pub data ServiceRaised : Type 0 where
  http_response_error : Option ℕ → String → ServiceRaised
  service_raised : String → ServiceRaised

-- The analysis of these bytes, if it is there in time.
abbrev pub Client : Type 0
Client = List ℕ → Option (Outcome ServiceRaised AnalyzeResult)

unfoldable pub map_status_to_error_code : Option ℕ → Option AnalyzerCode
map_status_to_error_code none = none
map_status_to_error_code (some status) =
    if status == 429
    then some docint_rate_limited
    else if leb 500 status
    then some docint_upstream_error
    else none

-- `paragraph.role in _HEADING_ROLES`
abbrev pub paragraph_type : Option ParagraphRole → ElementType
paragraph_type (some title) = heading
paragraph_type (some section_heading) = heading
paragraph_type _ = paragraph

unfoldable pub paragraph_element : DocumentParagraph → Element
paragraph_element p = record {
  type = paragraph_type p.role;
  text = p.content;
  metadata = record { page = none; cells = none };
}

abbrev pub cell_of : DocumentTableCell → Cell
cell_of c = record {
  row_index = c.row_index;
  column_index = c.column_index;
  content = some c.content;
}

unfoldable pub table_element : DocumentTable → Element
table_element t = record {
  type = table;
  text = join "\n" (map (λ c. c.content) t.cells);
  metadata = record { page = none; cells = some (map cell_of t.cells) };
}

-- `xs or []`
abbrev pub or_nil : {A : Type 0} → Option (List A) → List A
or_nil none = []
or_nil (some xs) = xs

unfoldable pub elements_from_result : AnalyzeResult → List Element
elements_from_result result =
    map paragraph_element (or_nil result.paragraphs) ++ map table_element (or_nil result.tables)

-- The error that the service's failure is raised as.
abbrev pub mapped : String → Option AnalyzerCode → String → Parsed
mapped doc_id none exc = threw exc
mapped doc_id (some code) exc =
    raised (record { doc_id = doc_id; reason = exc; error_code = code; detected_type = none })

abbrev pub answered : String → Option (Outcome ServiceRaised AnalyzeResult) → Parsed
answered doc_id none = timed_out
answered doc_id (some (ok result)) = returned (elements_from_result result)
answered doc_id (some (err (http_response_error status exc))) =
    mapped doc_id (map_status_to_error_code status) exc
answered doc_id (some (err (service_raised exc))) = threw exc

-- `DocumentIntelligenceParser.parse`
unfoldable pub parse : Client → ParserAdapter
parse client envelope content = answered envelope.doc_id (client content)
