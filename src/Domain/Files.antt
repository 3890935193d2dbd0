-- ===== src/Domain/Files.antt =====
-- finassist/infrastructure/documents/file_safety_scanner.py: what a file must be before it is
-- stored. Bytes are numbers. `pypdf` is a parameter, the reading of a PDF; of `str.lower` only the
-- ASCII letters matter, since the extensions are ASCII and no other character has one of their
-- letters as its lower case.
pub mod Safety
use Prim.Native.Char.{code}
use loan_credit.Prelude.{
  ℕ, ◌+◌, Bool, true, false, not, ◌&&◌, Option, none, some, List, [], ◌∷◌, String, length, leb, ltb,
  ◌==◌, str_eq, if◌then◌else◌,
}
use loan_credit.Domain.Error.{
  Error, Result, ok, err, unsupported_document_type, document_too_large, page_limit_exceeded,
  extraction_failed, ◌>>=◌, ◌>>◌, raise_if,
}

-- What `PdfReader` says of some bytes; `failed` is any exception but PdfReadError.
pub data PdfReading : Type 0 where
  unreadable : PdfReading
  failed : Error → PdfReading
  encrypted : PdfReading
  readable : (pages : ℕ) → PdfReading

pub record FileSafetyReport : Type 0 where
  pub detected_content_type : String
  pub page_count : ℕ

-- The settings of the scanner, and the PDF library.
pub record Scanner : Type 0 where
  pub max_size_bytes : ℕ
  pub max_pages : ℕ
  pub read_pdf : List ℕ → PdfReading

abbrev pub starts_with : List ℕ → List ℕ → Bool
starts_with [] data' = true
starts_with (b ∷ bs) [] = false
starts_with (b ∷ bs) (d ∷ ds) = b == d && starts_with bs ds

-- The magic bytes of a content type; `none` for a type that is not in the dictionary.
abbrev pub magic_bytes : String → List ℕ
magic_bytes kind =
    if str_eq kind "application/pdf"
    then 0x25 ∷ 0x50 ∷ 0x44 ∷ 0x46 ∷ 0x2d ∷ []
    else if str_eq kind "image/png"
    then 0x89 ∷ 0x50 ∷ 0x4e ∷ 0x47 ∷ 0x0d ∷ 0x0a ∷ 0x1a ∷ 0x0a ∷ []
    else 0xff ∷ 0xd8 ∷ 0xff ∷ []

-- `_sniff_content_type`: the dictionary in its order.
unfoldable pub sniff_content_type : List ℕ → Option String
sniff_content_type bytes =
    if starts_with (magic_bytes "application/pdf") bytes
    then some "application/pdf"
    else if starts_with (magic_bytes "image/png") bytes
    then some "image/png"
    else if starts_with (magic_bytes "image/jpeg") bytes
    then some "image/jpeg"
    else none

-- `filename.rpartition(".")`: what stands after the last dot, or the whole name.
unfoldable pub suffix_from : (best : String) → String → String
suffix_from best String.[] = best
suffix_from best (String.◌∷◌ c s) = suffix_from (if code c == b'.' then s else best) s

-- A text in lower case is the given ASCII text.
unfoldable pub lowers_to : String → List ℕ → Bool
lowers_to String.[] [] = true
lowers_to String.[] (d ∷ ds) = false
lowers_to (String.◌∷◌ c s) [] = false
lowers_to (String.◌∷◌ c s) (d ∷ ds) =
    (if leb 65 (code c) && leb (code c) 90 then code c + 32 == d else code c == d) && lowers_to s ds

-- `_ALLOWED_EXTENSIONS.get(_extension_of(filename))`
unfoldable pub expected_content_type : (filename : String) → Option String
expected_content_type filename =
    let suffix = suffix_from filename filename in
    if lowers_to suffix (b'p' ∷ b'd' ∷ b'f' ∷ [])
    then some "application/pdf"
    else if lowers_to suffix (b'p' ∷ b'n' ∷ b'g' ∷ [])
    then some "image/png"
    else if lowers_to suffix (b'j' ∷ b'p' ∷ b'g' ∷ [])
    then some "image/jpeg"
    else if lowers_to suffix (b'j' ∷ b'p' ∷ b'e' ∷ b'g' ∷ [])
    then some "image/jpeg"
    else none

-- `_pdf_page_count`
abbrev pub pdf_page_count : PdfReading → Result ℕ
pdf_page_count unreadable = err (extraction_failed "unknown" "unreadable PDF")
pdf_page_count (failed e) = err e
pdf_page_count encrypted = err (unsupported_document_type "application/pdf (encrypted)")
pdf_page_count (readable pages) = ok pages

abbrev pub same_type : Option String → String → Bool
same_type none expected = false
same_type (some detected) expected = str_eq detected expected

-- From the expected content type on.
unfoldable pub scan_as :
    Scanner → List ℕ → (declared : String) → Option String → Result FileSafetyReport
scan_as scanner bytes declared none = err (unsupported_document_type declared)
scan_as scanner bytes declared (some expected) = do
  raise_if (not (same_type (sniff_content_type bytes) expected))
      (unsupported_document_type declared)
  page_count ←
      (if str_eq expected "application/pdf" then pdf_page_count (scanner.read_pdf bytes) else ok 1)
  raise_if (ltb scanner.max_pages page_count) (page_limit_exceeded page_count scanner.max_pages)
  ok (record { detected_content_type = expected; page_count = page_count })

-- `StubFileSafetyScanner.scan`; the malware scan is a stub that finds nothing.
unfoldable pub scan : Scanner → List ℕ → (filename declared : String) → Result FileSafetyReport
scan scanner bytes filename declared = do
  raise_if (ltb scanner.max_size_bytes (length bytes))
      (document_too_large (length bytes) scanner.max_size_bytes)
  scan_as scanner bytes declared (expected_content_type filename)
