-- ===== src/Analyzer/Analyze.antt =====
-- src/vestibule/analyzer/analyzer.py. `meanwhile` is what other workers do to the ledger between this
-- call's first write and its later one. Logging and the executor are left out.
use vestibule.Prelude.{ℕ, String, ◌⧺◌, List, Option, none, some, Outcome, ok, err, and_then}
use vestibule.Vertical.Model.{ArrivalEnvelope}
use vestibule.Ledger.Model.{analyzing, chunking, failed, LedgerRow, LedgerError}
use vestibule.Ledger.Store.{InMemoryLedgerStore, transition}
use vestibule.Ledger.Triaged.{escapes, triaged, move_to}
use vestibule.Chunker.Model.{Element}
use vestibule.Analyzer.Model.{
  AnalyzerCode, analyzer_unsupported_type, analyzer_no_parser, parser_timeout, parser_internal,
  analyzer_code_text, DetectedType, unsupported, detected_value, Parsed, returned, timed_out,
  raised, threw, ParserAdapter, ParserRegistry, get, AnalyzerConfig, AnalyzeRaised,
  analyzing_failed, ledger_raised, unhandled,
}
use vestibule.Analyzer.Detect.{Pymupdf, DetectRaised, dependency_missing, escaped, detect_type}

abbrev pub AnalyzeAction : Type 0 → Type 0
AnalyzeAction A = InMemoryLedgerStore → Outcome AnalyzeRaised A × InMemoryLedgerStore

abbrev pub analyzing_error : String → AnalyzerCode → String → Option DetectedType → AnalyzeRaised
analyzing_error doc_id code reason t =
    analyzing_failed
      (record { doc_id = doc_id; reason = reason; error_code = code; detected_type = t })

-- What `_terminalize` and `_self_transition_and_raise` raise after their ledger call.
abbrev pub raised_after :
    {A : Type 0} → AnalyzeRaised → Outcome LedgerError LedgerRow → Outcome AnalyzeRaised A
raised_after e (ok row) = err e
raised_after e (err x) = err (ledger_raised x)

unfoldable pub terminalize :
    {A : Type 0} → String → AnalyzerCode → String → Option DetectedType → AnalyzeAction A
terminalize doc_id code reason t s =
    let (o, s') =
      transition doc_id (move_to failed (some (analyzer_code_text code)) (some reason)) s in
    (raised_after (analyzing_error doc_id code reason t) o, s')

unfoldable pub self_transition_and_raise :
    {A : Type 0} → String → AnalyzerCode → String → DetectedType → AnalyzeAction A
self_transition_and_raise doc_id code reason t s =
    let (o, s') =
      transition doc_id (move_to analyzing (some (analyzer_code_text code)) (some reason)) s in
    (raised_after (analyzing_error doc_id code reason (some t)) o, s')

-- The handlers around `future.result(...)`.
unfoldable pub parse_with_recovery :
    AnalyzerConfig → String → DetectedType → Parsed → AnalyzeAction (List Element)
unfolding self_transition_and_raise
parse_with_recovery config doc_id t (returned elements) s = (ok elements, s)
parse_with_recovery config doc_id t timed_out s =
    self_transition_and_raise doc_id parser_timeout
      ("parser did not return within " ⧺ config.parser_timeout_seconds ⧺ "s") t s
parse_with_recovery config doc_id t (raised e) s =
    self_transition_and_raise doc_id e.error_code e.reason t s
parse_with_recovery config doc_id t (threw exc) s =
    self_transition_and_raise doc_id parser_internal exc t s

module _ (pymupdf : Pymupdf) (parsers : ParserRegistry) (config : AnalyzerConfig) where
  -- From the parser that the registry has for the type on.
  unfoldable pub dispatch :
      ArrivalEnvelope → List ℕ → DetectedType → Option ParserAdapter → AnalyzeAction (List Element)
  unfolding terminalize parse_with_recovery
  dispatch envelope content t none s =
      terminalize envelope.doc_id analyzer_no_parser
        ("no parser registered for detected type " ⧺ detected_value t) (some t) s
  dispatch envelope content t (some parse) s =
      parse_with_recovery config envelope.doc_id t (parse envelope content) s

  -- From what `detect_type` did on.
  unfoldable pub after_detection :
      ArrivalEnvelope → List ℕ → Outcome DetectRaised DetectedType → AnalyzeAction (List Element)
  unfolding terminalize dispatch
  after_detection envelope content (err (dependency_missing e)) s =
      terminalize envelope.doc_id e.error_code e.reason none s
  after_detection envelope content (err (escaped exc)) s = (err (unhandled exc), s)
  after_detection envelope content (ok unsupported) s =
      terminalize envelope.doc_id analyzer_unsupported_type
        "document could not be classified as a supported type" (some unsupported) s
  after_detection envelope content (ok t) s = dispatch envelope content t (get t parsers) s

  unfoldable pub detect_and_parse : ArrivalEnvelope → List ℕ → AnalyzeAction (List Element)
  unfolding after_detection
  detect_and_parse envelope content s =
      after_detection envelope content (detect_type pymupdf config envelope content) s

  -- The transition to `chunking`, after the parse.
  unfoldable pub finished : String → List Element → AnalyzeAction (List Element)
  finished doc_id elements s =
      let (o, s') = triaged doc_id (move_to chunking none none) s in
      (elim o [ none ↦ ok elements | some e ↦ err (ledger_raised e) ], s')

  module _ (meanwhile : InMemoryLedgerStore → InMemoryLedgerStore) where
    -- From what the first transition did on.
    unfoldable pub analyze_from :
        ArrivalEnvelope → List ℕ → Outcome LedgerError LedgerRow → AnalyzeAction (List Element)
    unfolding detect_and_parse finished
    analyze_from envelope content (ok row) s =
        and_then (detect_and_parse envelope content) (finished envelope.doc_id) (meanwhile s)
    analyze_from envelope content (err x) s = elim (escapes analyzing (err x)) [
      | some e ↦ (err (ledger_raised e), s)
      | none ↦ detect_and_parse envelope content (meanwhile s)
    ]

    unfoldable pub analyze : ArrivalEnvelope → List ℕ → AnalyzeAction (List Element)
    unfolding analyze_from
    analyze envelope content s =
        let (o, s') = transition envelope.doc_id (move_to analyzing none none) s in
        analyze_from envelope content o s'
