-- ===== src/Ingest/Engine.antt =====
-- src/utils/extraction-router.util.ts: the engine that extracts a document first. `to_lower` is
-- `toLowerCase`.
pub mod Laws
use musanad_contracts_backen.Base.{
  ℕ, ◌*◌, Bool, true, false, ◌||◌, Option, none, some, List, [], ◌∷◌, codes, length, ltb, ◌==◌,
  if◌then◌else◌,
}
use musanad_contracts_backen.Chars.{trim}
use musanad_contracts_backen.Calls.{Units, same_units}

pub data ExtractionEngine : Type 0 where
  mammoth_docx tesseract digital_pdf : ExtractionEngine

abbrev pub docx_mimes : List Units
docx_mimes =
    codes "application/vnd.openxmlformats-officedocument.wordprocessingml.document"
    ∷ codes "application/msword"
    ∷ codes "application/vnd.ms-word.document.macroEnabled.12"
    ∷ []

abbrev pub pdf_mimes : List Units
pdf_mimes = codes "application/pdf" ∷ codes "application/x-pdf" ∷ codes "application/acrobat" ∷ []

abbrev pub image_mimes : List Units
image_mimes =
    codes "image/jpeg"
    ∷ codes "image/jpg"
    ∷ codes "image/png"
    ∷ codes "image/tiff"
    ∷ codes "image/webp"
    ∷ codes "image/bmp"
    ∷ codes "image/gif"
    ∷ []

abbrev pub has_mime : List Units → Units → Bool
has_mime [] mime = false
has_mime (m ∷ mimes) mime = same_units mime m || has_mime mimes mime

-- `charsPerPage > threshold`, by products where there are pages.
abbrev pub is_digital : (chars threshold page_count : ℕ) → Bool
is_digital chars threshold page_count =
    if ltb 0 page_count then ltb (threshold * page_count) chars else ltb threshold chars

abbrev pub pdf_engine : Option Units → (threshold page_count : ℕ) → ExtractionEngine
pdf_engine none threshold page_count = tesseract
pdf_engine (some sample) threshold page_count =
    if is_digital (length sample) threshold page_count then digital_pdf else tesseract

module _ (to_lower : Units → Units) where
  unfoldable pub select_extraction_engine :
      (file_mime : Units) (sample_text : Option Units) (threshold page_count : ℕ) → ExtractionEngine
  select_extraction_engine file_mime sample_text threshold page_count =
      let mime = trim (to_lower file_mime) in
      if has_mime docx_mimes mime
      then mammoth_docx
      else if has_mime image_mimes mime
      then tesseract
      else if has_mime pdf_mimes mime
      then pdf_engine sample_text threshold page_count
      else tesseract

  unfoldable pub is_pdf_mime : Units → Bool
  is_pdf_mime file_mime = has_mime pdf_mimes (trim (to_lower file_mime))

  unfoldable pub is_docx_mime : Units → Bool
  is_docx_mime file_mime = has_mime docx_mimes (trim (to_lower file_mime))
