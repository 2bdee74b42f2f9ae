-- ===== src/Analyzer/Detect.antt =====
-- src/vestibule/analyzer/detect.py. `pymupdf` is a parameter, or missing. Logging is left out.
use vestibule.Prelude.{
  ℤ, pos, negsuc, pos_part, min_ℤ, ℕ, zero, suc, ◌+◌, ◌*◌, String, Bool, true, false, ◌&&◌, ◌||◌,
  List, [], ◌∷◌, Option, none, some, ltb, ◌==◌, if◌then◌else◌, take, Outcome, ok, err, ◌>>=◌,
}
use vestibule.Vertical.Model.{ArrivalEnvelope}
use vestibule.Analyzer.Model.{
  DetectedType, digital_pdf, scanned_pdf, docx, image, unsupported, AnalyzerError,
  analyzer_dependency_missing, AnalyzerConfig,
}

-- What `pymupdf` raises: a `RuntimeError` or `ValueError`, or something else, with its text.
pub data PdfRaised : Type 0 where
  sniffing_failed : PdfRaised
  other_raised : String → PdfRaised

-- An open document: `len(doc[i].get_text())` may raise.
pub record PdfDocument : Type 0 where
  pub needs_pass : Bool
  pub page_count : ℕ
  pub text_length : ℕ → Outcome PdfRaised ℕ

-- `pymupdf.open(stream=data, filetype="pdf")`, where `pymupdf` can be imported
abbrev pub Pymupdf : Type 0
Pymupdf = Option (List ℕ → Outcome PdfRaised PdfDocument)

-- What leaves `detect_type`: an `AnalyzerError`, or an exception that nothing handles.
pub data DetectRaised : Type 0 where
  dependency_missing : AnalyzerError → DetectRaised
  escaped : String → DetectRaised

-- `data.startswith(magic)`
unfoldable pub starts_with : List ℕ → List ℕ → Bool
starts_with [] content = true
starts_with (b ∷ bs) [] = false
starts_with (b ∷ bs) (d ∷ ds) = (b == d) && starts_with bs ds

abbrev pub pdf_magic : List ℕ
pdf_magic = b'%' ∷ b'P' ∷ b'D' ∷ b'F' ∷ b'-' ∷ []

abbrev pub docx_magic : List ℕ
docx_magic = b'P' ∷ b'K' ∷ 3 ∷ 4 ∷ []

abbrev pub image_magics : List (List ℕ)
image_magics =
    (137 ∷ b'P' ∷ b'N' ∷ b'G' ∷ 13 ∷ 10 ∷ 26 ∷ 10 ∷ [])
    ∷ (255 ∷ 216 ∷ 255 ∷ [])
    ∷ (b'G' ∷ b'I' ∷ b'F' ∷ b'8' ∷ b'7' ∷ b'a' ∷ [])
    ∷ (b'G' ∷ b'I' ∷ b'F' ∷ b'8' ∷ b'9' ∷ b'a' ∷ [])
    ∷ []

abbrev pub starts_with_any : List (List ℕ) → List ℕ → Bool
starts_with_any [] content = false
starts_with_any (magic ∷ magics) content =
    starts_with magic content || starts_with_any magics content

-- `sum(len(doc[i].get_text()) for i in range(n))`, from page `i` on
unfoldable pub total_chars : (ℕ → Outcome PdfRaised ℕ) → ℕ → ℕ → Outcome PdfRaised ℕ
total_chars text_length i zero = ok 0
total_chars text_length i (suc n) =
    text_length i >>= λ chars. total_chars text_length (suc i) n >>= λ rest. ok (chars + rest)

-- The average of the characters, as the comparison of `total / pages` with `min_chars`: the quotient is
-- rounded, which changes nothing while `total` and `min_chars * pages` are below 2 ^ 53.
-- For a negative number of pages the total is 0, and so is the quotient.
abbrev pub is_sparse : (total : ℕ) → ℤ → (min_chars : ℤ) → Bool
is_sparse total (pos pages) (pos min_chars) = ltb total (min_chars * pages)
is_sparse total (negsuc n) (pos min_chars) = ltb 0 min_chars
is_sparse total pages (negsuc m) = false

abbrev pub classified : (total : ℕ) (pages min_chars : ℤ) → Outcome PdfRaised DetectedType
classified total (pos zero) min_chars = err (other_raised "division by zero")
classified total (pos (suc n)) min_chars =
    ok (if is_sparse total (pos (suc n)) min_chars then scanned_pdf else digital_pdf)
classified total (negsuc n) min_chars =
    ok (if is_sparse total (negsuc n) min_chars then scanned_pdf else digital_pdf)

unfoldable pub probe : (probe_pages min_chars : ℤ) → PdfDocument → Outcome PdfRaised DetectedType
probe probe_pages min_chars doc =
    if doc.needs_pass || (doc.page_count == 0)
    then ok unsupported
    else (total_chars doc.text_length 0 (pos_part (min_ℤ probe_pages doc.page_count)) >>= λ total.
        classified total (min_ℤ probe_pages doc.page_count) min_chars)

-- `except (RuntimeError, ValueError)`
abbrev pub sniffed : Outcome PdfRaised DetectedType → Outcome DetectRaised DetectedType
sniffed (ok t) = ok t
sniffed (err sniffing_failed) = ok unsupported
sniffed (err (other_raised exc)) = err (escaped exc)

abbrev pub missing_text : String
missing_text =
    "pymupdf could not be imported to sub-type this PDF; it is a core dependency of vestibule — reinstall with `pip install -e .` (or `pip install vestibule`) to restore it"

unfoldable pub detect_pdf_subtype :
    Pymupdf → String → List ℕ → (probe_pages min_chars : ℤ) → Outcome DetectRaised DetectedType
detect_pdf_subtype none doc_id content probe_pages min_chars = err (
    dependency_missing (record {
      doc_id = doc_id;
      reason = missing_text;
      error_code = analyzer_dependency_missing;
      detected_type = none;
    }))
detect_pdf_subtype (some open_pdf) doc_id content probe_pages min_chars =
    sniffed (open_pdf content >>= probe probe_pages min_chars)

unfoldable pub detect_type :
    Pymupdf → AnalyzerConfig → ArrivalEnvelope → List ℕ → Outcome DetectRaised DetectedType
detect_type pymupdf config envelope content =
    let header = take 16 content in
    if starts_with pdf_magic header
    then detect_pdf_subtype pymupdf envelope.doc_id content config.scanned_pdf_probe_pages
        config.scanned_pdf_min_chars_per_page
    else if starts_with docx_magic header
    then ok docx
    else if starts_with_any image_magics header
    then ok image
    else ok unsupported
