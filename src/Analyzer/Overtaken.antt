-- ===== src/Analyzer/Overtaken.antt =====
-- `analyze` in a worker whose document other workers have moved past `analyzing`.
use vestibule.Prelude.{ℕ, ◌≡◌, refl, ◌≢◌, true, List, none, some, ok, err}
use vestibule.Dict.{lookup}
use vestibule.Vertical.Model.{ArrivalEnvelope}
use vestibule.Ledger.Model.{
  Status, analyzing, chunking, indexed, LedgerRow, LedgerTransitionInvalid, transition_invalid,
}
use vestibule.Ledger.Store.{InMemoryLedgerStore, now, write, is_benign_concurrent_loss}
use vestibule.Ledger.Legal.{IsLive}
use vestibule.Ledger.Invariant.{IsValid}
use vestibule.Ledger.Triage.{Forward, Later}
use vestibule.Ledger.Triaged.{escapes}
use vestibule.Ledger.Overtaken.{retry_refused}
use vestibule.Ledger.Stage.{given_up, stage_fails}
use vestibule.Analyzer.Model.{
  analyzer_code_text, ParserRegistry, AnalyzerConfig, ledger_raised, unhandled,
}
use vestibule.Analyzer.Detect.{Pymupdf}
use vestibule.Analyzer.Analyze.{
  analyzing_error, terminalize, self_transition_and_raise, detect_and_parse, analyze_from, analyze,
}
use vestibule.Analyzer.Stage.{
  Verdict, parsed, give_up, retry, let_escape, perform, verdict, detect_and_parse-perform,
}

until_indexed : {t : Status} → Later chunking t → t ≢ indexed → IsLive t
until_indexed Later.here h = tt
until_indexed (Later.then l Forward.analyze) h = tt
until_indexed (Later.then l Forward.chunk) h = tt
until_indexed (Later.then l Forward.embed) h = tt
until_indexed (Later.then l Forward.index) h = tt
until_indexed (Later.then l Forward.finish) h = absurd (h refl)

module _ (pymupdf : Pymupdf) (parsers : ParserRegistry) (config : AnalyzerConfig)
    (meanwhile : InMemoryLedgerStore → InMemoryLedgerStore) (envelope : ArrivalEnvelope)
    (content : List ℕ) (s : InMemoryLedgerStore) (row row' : LedgerRow) where
  -- What the call comes to, by what becomes of the document.
  abbrev pub Passed : Verdict → Type 0
  Passed (parsed elements) =
      analyze pymupdf parsers config meanwhile envelope content s ≡ (ok elements, meanwhile s)
  Passed (let_escape exc) =
      analyze pymupdf parsers config meanwhile envelope content s
      ≡ (err (unhandled exc), meanwhile s)
  Passed (retry code reason t) =
      (refusal : LedgerTransitionInvalid) × (analyze pymupdf parsers config meanwhile envelope
          content s
        ≡ (err (ledger_raised (transition_invalid refusal)), meanwhile s))
      × (is_benign_concurrent_loss refusal.observed_row analyzing analyzing ≡ some true)
  Passed (give_up code reason t) = analyze pymupdf parsers config meanwhile envelope content s ≡ (
    err (analyzing_error envelope.doc_id code reason t),
    write envelope.doc_id (given_up (analyzer_code_text code) reason (now (meanwhile s)) row')
        (meanwhile s),
  )

  analyze_from-benign :
      (refusal : LedgerTransitionInvalid)
      → is_benign_concurrent_loss refusal.observed_row analyzing analyzing ≡ some true
      → analyze_from pymupdf parsers config meanwhile envelope content
          (err (transition_invalid refusal))
          s
        ≡ detect_and_parse pymupdf parsers config envelope content (meanwhile s)
  unfolding analyze_from escapes
  analyze_from-benign refusal benign = rw (analyze_from, escapes, benign) refl

  module _ (valid : IsValid s) (found : lookup envelope.doc_id s.rows ≡ some row)
      (valid' : IsValid (meanwhile s))
      (found' : lookup envelope.doc_id (meanwhile s).rows ≡ some row') where
    benign_entry :
        Later chunking row.status
        → analyze pymupdf parsers config meanwhile envelope content s
          ≡ perform envelope.doc_id (verdict pymupdf parsers config envelope content) (meanwhile s)
    unfolding analyze
    benign_entry later =
        let (refusal, refused, benign) =
          retry_refused envelope.doc_id s row valid found Forward.chunk later none none in
        rw (refused, analyze_from-benign refusal benign)
          (detect_and_parse-perform pymupdf parsers config envelope content (meanwhile s))

    passes :
        Later chunking row.status
        → Later chunking row'.status
        → row'.status ≢ indexed
        → (v : Verdict) → verdict pymupdf parsers config envelope content ≡ v
        → Passed v
    unfolding terminalize self_transition_and_raise
    passes later later' live (parsed elements) made = rw (benign_entry later, made) refl
    passes later later' live (let_escape exc) made = rw (benign_entry later, made) refl
    passes later later' live (retry code reason t) made =
        let (refusal, refused, benign) =
          retry_refused envelope.doc_id (meanwhile s) row' valid' found' Forward.chunk later'
            (some (analyzer_code_text code)) (some reason) in
        (refusal, rw (benign_entry later, made, refused) refl, benign)
    passes later later' live (give_up code reason t) made =
        rw
          (
            benign_entry later,
            made,
            stage_fails envelope.doc_id (meanwhile s) row' valid' found' (analyzer_code_text code)
                reason (until_indexed later' live),
          )
          refl

    -- A call for a document that other workers have moved past `analyzing`, and not to `indexed` yet when
    -- this one has parsed it, finds the refusal of its first transition benign and goes on. If the parser
    -- returns, so does the call, and the ledger is left alone. If the parser throws or is too late, the
    -- ledger's refusal of another attempt leaves the call, though it is benign too. If `pymupdf` is missing
    -- here, or the type is unsupported or without a parser, the document fails, whatever stage the others
    -- have brought it to.
    pub analyze_overtaken :
        Later chunking row.status
        → Later chunking row'.status
        → row'.status ≢ indexed
        → Passed (verdict pymupdf parsers config envelope content)
    analyze_overtaken later later' live =
        passes later later' live (verdict pymupdf parsers config envelope content) refl
