-- ===== src/Analyzer/Stage.antt =====
-- What `analyze` returns and leaves in the ledger for a document that waits for it.
use vestibule.Prelude.{
  ℕ, String, ◌⧺◌, ◌≡◌, refl, List, Option, none, some, Outcome, ok, err, resume,
}
use vestibule.Dict.{lookup}
use vestibule.Vertical.Model.{ArrivalEnvelope}
use vestibule.Ledger.Model.{pending, analyzing, chunking, LedgerRow}
use vestibule.Ledger.Store.{InMemoryLedgerStore, now, write}
use vestibule.Ledger.Legal.{Edge}
use vestibule.Ledger.Invariant.{IsValid}
use vestibule.Ledger.Stage.{
  advanced, given_up, retried, stage_enters, stage_advances, stage_fails, stage_retries,
}
use vestibule.Chunker.Model.{Element}
use vestibule.Analyzer.Model.{
  AnalyzerCode, analyzer_unsupported_type, analyzer_no_parser, parser_timeout, parser_internal,
  analyzer_code_text, DetectedType, unsupported, digital_pdf, scanned_pdf, docx, image,
  detected_value, Parsed, returned, timed_out, raised, threw, ParserAdapter, ParserRegistry, get,
  AnalyzerConfig, AnalyzeRaised, unhandled,
}
use vestibule.Analyzer.Detect.{Pymupdf, DetectRaised, dependency_missing, escaped, detect_type}
use vestibule.Analyzer.Analyze.{
  AnalyzeAction, analyzing_error, terminalize, self_transition_and_raise, parse_with_recovery,
  dispatch, after_detection, detect_and_parse, finished, analyze_from, analyze,
}

-- What is to become of the document.
pub data Verdict : Type 0 where
  parsed : List Element → Verdict
  give_up : AnalyzerCode → String → Option DetectedType → Verdict
  retry : AnalyzerCode → String → DetectedType → Verdict
  let_escape : String → Verdict

abbrev pub perform : String → Verdict → AnalyzeAction (List Element)
perform doc_id (parsed elements) s = (ok elements, s)
perform doc_id (give_up code reason t) s = terminalize doc_id code reason t s
perform doc_id (retry code reason t) s = self_transition_and_raise doc_id code reason t s
perform doc_id (let_escape exc) s = (err (unhandled exc), s)

module _ (pymupdf : Pymupdf) (parsers : ParserRegistry) (config : AnalyzerConfig) where
  -- What the parser's answer asks for.
  abbrev pub parse_verdict : DetectedType → Parsed → Verdict
  parse_verdict t (returned elements) = parsed elements
  parse_verdict t timed_out =
      retry parser_timeout ("parser did not return within " ⧺ config.parser_timeout_seconds ⧺ "s") t
  parse_verdict t (raised e) = retry e.error_code e.reason t
  parse_verdict t (threw exc) = retry parser_internal exc t

  abbrev pub parser_verdict :
      ArrivalEnvelope → List ℕ → DetectedType → Option ParserAdapter → Verdict
  parser_verdict envelope content t none =
      give_up analyzer_no_parser ("no parser registered for detected type " ⧺ detected_value t)
        (some t)
  parser_verdict envelope content t (some parse) = parse_verdict t (parse envelope content)

  abbrev pub detected_verdict :
      ArrivalEnvelope → List ℕ → Outcome DetectRaised DetectedType → Verdict
  detected_verdict envelope content (err (dependency_missing e)) =
      give_up e.error_code e.reason none
  detected_verdict envelope content (err (escaped exc)) = let_escape exc
  detected_verdict envelope content (ok unsupported) =
      give_up analyzer_unsupported_type "document could not be classified as a supported type"
        (some unsupported)
  detected_verdict envelope content (ok t) = parser_verdict envelope content t (get t parsers)

  -- A missing `pymupdf`, an unsupported type and a missing parser give the document up. A timeout and what
  -- the parser throws leave it for another attempt. Nothing handles another exception of the detection.
  unfoldable pub verdict : ArrivalEnvelope → List ℕ → Verdict
  verdict envelope content =
      detected_verdict envelope content (detect_type pymupdf config envelope content)

  parses :
      (doc_id : String) (t : DetectedType) (p : Parsed) (s : InMemoryLedgerStore)
      → parse_with_recovery config doc_id t p s ≡ perform doc_id (parse_verdict t p) s
  unfolding parse_with_recovery
  parses doc_id t (returned elements) s = refl
  parses doc_id t timed_out s = refl
  parses doc_id t (raised e) s = refl
  parses doc_id t (threw exc) s = refl

  dispatches :
      (envelope : ArrivalEnvelope) (content : List ℕ) (t : DetectedType)
      (parser : Option ParserAdapter) (s : InMemoryLedgerStore)
      → dispatch pymupdf parsers config envelope content t parser s
        ≡ perform envelope.doc_id (parser_verdict envelope content t parser) s
  unfolding dispatch
  dispatches envelope content t none s = refl
  dispatches envelope content t (some parse) s = parses envelope.doc_id t (parse envelope content) s

  detects :
      (envelope : ArrivalEnvelope) (content : List ℕ) (o : Outcome DetectRaised DetectedType)
      (s : InMemoryLedgerStore)
      → after_detection pymupdf parsers config envelope content o s
        ≡ perform envelope.doc_id (detected_verdict envelope content o) s
  unfolding after_detection
  detects envelope content (err (dependency_missing e)) s = refl
  detects envelope content (err (escaped exc)) s = refl
  detects envelope content (ok unsupported) s = refl
  detects envelope content (ok digital_pdf) s =
      dispatches envelope content digital_pdf (get digital_pdf parsers) s
  detects envelope content (ok scanned_pdf) s =
      dispatches envelope content scanned_pdf (get scanned_pdf parsers) s
  detects envelope content (ok docx) s = dispatches envelope content docx (get docx parsers) s
  detects envelope content (ok image) s = dispatches envelope content image (get image parsers) s

  pub detect_and_parse-perform :
      (envelope : ArrivalEnvelope) (content : List ℕ) (s : InMemoryLedgerStore)
      → detect_and_parse pymupdf parsers config envelope content s
        ≡ perform envelope.doc_id (verdict envelope content) s
  unfolding detect_and_parse verdict
  detect_and_parse-perform envelope content s =
      detects envelope content (detect_type pymupdf config envelope content) s

  module _ (meanwhile : InMemoryLedgerStore → InMemoryLedgerStore) (envelope : ArrivalEnvelope)
      (content : List ℕ) (s : InMemoryLedgerStore) (row : LedgerRow) (valid : IsValid s)
      (found : lookup envelope.doc_id s.rows ≡ some row) where
    -- The row once the document is claimed, and the ledger when it is parsed.
    abbrev pub claimed : LedgerRow
    claimed = advanced analyzing (now s) row

    abbrev pub later : InMemoryLedgerStore
    later = meanwhile (write envelope.doc_id claimed s)

    -- What a worker finds that has the document to itself.
    abbrev pub settled : Verdict → Outcome AnalyzeRaised (List Element) × InMemoryLedgerStore
    settled (parsed elements) =
        (ok elements, write envelope.doc_id (advanced chunking (now later) claimed) later)
    settled (give_up code reason t) = (
      err (analyzing_error envelope.doc_id code reason t),
      write envelope.doc_id (given_up (analyzer_code_text code) reason (now later) claimed) later,
    )
    settled (retry code reason t) = (
      err (analyzing_error envelope.doc_id code reason (some t)),
      write envelope.doc_id (retried (analyzer_code_text code) reason (now later) claimed) later,
    )
    settled (let_escape exc) = (err (unhandled exc), later)

    module _ (valid' : IsValid later)
        (kept : lookup envelope.doc_id later.rows ≡ some claimed) where
      perform-settled :
          (v : Verdict)
          → resume
              (finished pymupdf parsers config envelope.doc_id)
              (perform envelope.doc_id v later)
            ≡ settled v
      unfolding finished terminalize self_transition_and_raise
      perform-settled (parsed elements) =
          rw
            (stage_advances envelope.doc_id later claimed valid' kept chunking Edge.chunk (λ x. cc)
              (λ x. cc) tt)
            refl
      perform-settled (give_up code reason t) =
          rw
            (stage_fails envelope.doc_id later claimed valid' kept (analyzer_code_text code) reason
              tt)
            refl
      perform-settled (retry code reason t) =
          rw
            (stage_retries envelope.doc_id later claimed valid' kept analyzing
              (analyzer_code_text code) reason refl tt)
            refl
      perform-settled (let_escape exc) = refl

      -- For a document whose row waits at `pending`, when other workers leave the row alone: the row is moved
      -- to `analyzing`. If the parser returns, so does the call, and the row stands at `chunking` in its first
      -- attempt. If `pymupdf` is missing, or the type is unsupported or without a parser, the call raises the
      -- permanent error, and the row has failed with its code and reason. If the parser throws or is too late,
      -- the call raises the transient error, and the row is at `analyzing` in its second attempt with that
      -- error. Another exception of the detection leaves the call, and the row at `analyzing`.
      pub analyze-settled :
          row.status ≡ pending
          → analyze pymupdf parsers config meanwhile envelope content s
            ≡ settled (verdict envelope content)
      unfolding analyze analyze_from
      analyze-settled h =
          rw
            (
              stage_enters envelope.doc_id s row valid found analyzing (rw h Edge.analyze)
                  (rw h (λ x. cc)) (λ x. cc) (rw h tt),
              detect_and_parse-perform envelope content later,
            )
            (perform-settled (verdict envelope content))
