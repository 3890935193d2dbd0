-- ===== src/Domain/Facts/Extractor.antt =====
-- finassist/infrastructure/documents/pdf_parser.py and regex_extractor.py. Parameters are the PDF
-- library, Python's `re.search` (the groups of a match), `str.strip`, `str.lower`, `str.replace` and
-- the round trip of `date.fromisoformat`.
use Prim.Native.String.{◌++◌ as ◌+++◌}
use loan_credit.Prelude.{
  ℕ, zero, suc, ◌+◌, Bool, true, false, ◌&&◌, ◌||◌, Option, none, some, List, [], ◌∷◌, ◌++◌, String,
  str_eq, ◌==◌, if◌then◌else◌,
}
use Prim.Native.Char.{code}
use loan_credit.Prelude.Int.{pos}
use loan_credit.Domain.Double.{one}
use loan_credit.Domain.Error.{Result, ok, err, unsupported_document_type, extraction_failed}
use loan_credit.Domain.Facts.{
  FactType, applicant_given_name, applicant_family_name, date_of_birth, street_address, city,
  synthetic_id, employer_name, gross_monthly_income, tenure_months, DocumentClassification,
  identity_document, income_proof, unknown, ExtractedFact,
}

pub record PageText : Type 0 where
  pub page : ℕ
  pub text : String

-- What `PdfReader` makes of some bytes: the texts of the pages, or the message of a `PdfReadError`.
pub data PdfPages : Type 0 where
  damaged : String → PdfPages
  texts : List String → PdfPages

pub record Reader : Type 0 where
  pub read_pages : List ℕ → PdfPages
  pub search : (pattern text : String) → Option (List String)
  pub strip : String → String
  pub lower : String → String
  pub without_commas : String → String
  pub iso_date : String → Option String

abbrev pub numbered : ℕ → List String → List PageText
numbered n [] = []
numbered n (t ∷ ts) = record { page = n; text = t } ∷ numbered (n + 1) ts

abbrev pub pages_of : PdfPages → Result (List PageText)
pages_of (damaged reason) = err (extraction_failed "unknown" ("unreadable PDF: " +++ reason))
pages_of (texts ts) = ok (numbered 1 ts)

-- `PyPdfDocumentParser.extract_text`
unfoldable pub extract_text : Reader → List ℕ → (content_type : String) → Result (List PageText)
extract_text reader bytes content_type =
    if str_eq content_type "application/pdf"
    then pages_of (reader.read_pages bytes)
    else err (unsupported_document_type content_type)

-- `"\n".join(page.text for page in pages)`
unfoldable pub joined : List PageText → String
joined [] = ""
joined (p ∷ []) = p.text
joined (p ∷ q ∷ ps) = p.text +++ "\n" +++ joined (q ∷ ps)

unfoldable pub begins : String → String → Bool
begins String.[] text = true
begins (String.◌∷◌ c cs) String.[] = false
begins (String.◌∷◌ c cs) (String.◌∷◌ d ds) = code c == code d && begins cs ds

-- `marker in text`
unfoldable pub occurs_in : String → String → Bool
unfolding begins
occurs_in marker String.[] = begins marker ""
occurs_in marker (String.◌∷◌ c cs) = begins marker (String.◌∷◌ c cs) || occurs_in marker cs

-- `RegexDocumentExtractor.classify`
unfoldable pub classify : List PageText → DocumentClassification
classify pages =
    if occurs_in "SYNTHETIC PAY STUB" (joined pages)
    then income_proof
    else if occurs_in "GOVERNMENT-ISSUED ID" (joined pages)
    then identity_document
    else unknown

pub record Found : Type 0 where
  pub on_page : ℕ
  pub groups : List String

-- `_find_page`: the first page with a match.
unfoldable pub find_page : Reader → List PageText → (pattern : String) → Option Found
find_page reader [] pattern = none
find_page reader (p ∷ ps) pattern = elim (reader.search pattern p.text) [
  | none ↦ find_page reader ps pattern
  | some groups ↦ some (record { on_page = p.page; groups = groups })
]

-- `match.group(n)`
abbrev pub group : ℕ → List String → String
group n [] = ""
group zero (g ∷ gs) = ""
group (suc zero) (g ∷ gs) = g
group (suc (suc n)) (g ∷ gs) = group (suc n) gs

-- `_fact`
unfoldable pub fact :
    FactType → (value normalized : String) → (page : ℕ) → (source_checksum : String) → ExtractedFact
fact kind value normalized page source_checksum = record {
  fact_type = kind;
  value = value;
  normalized_value = normalized;
  confidence = one;
  page = pos page;
  extraction_method = "regex_pattern_match";
  extractor_version = "regex-v1";
  source_checksum = source_checksum;
}

-- `if (found := _find_page(pages, pattern)) is not None: ...`
abbrev pub when_found : Option Found → (Found → List ExtractedFact) → List ExtractedFact
when_found none facts = []
when_found (some found) facts = facts found

unfoldable pub income_proof_facts :
    Reader → List PageText → (source_checksum : String) → List ExtractedFact
income_proof_facts reader pages source_checksum =
    when_found (find_page reader pages "SYNTHETIC PAY STUB\\s*--\\s*(.+)") (λ found.
      let name = reader.strip (group 1 found.groups) in
      fact employer_name name name found.on_page source_checksum ∷ [])
    ++ when_found (find_page reader pages "Gross pay:\\s*\\$([\\d,]+\\.\\d{2})") (λ found.
      let raw = group 1 found.groups in
      fact gross_monthly_income raw (reader.without_commas raw) found.on_page source_checksum ∷ [])
    ++ when_found (find_page reader pages "Tenure:\\s*(\\d+)\\s*months") (λ found.
      let months = group 1 found.groups in
      fact tenure_months months months found.on_page source_checksum ∷ [])

-- `with contextlib.suppress(ValueError): normalized = date.fromisoformat(raw).isoformat()`
abbrev pub normal_date : Reader → String → String
normal_date reader raw = elim (reader.iso_date raw) [ none ↦ raw | some normal ↦ normal ]

unfoldable pub identity_document_facts :
    Reader → List PageText → (source_checksum : String) → List ExtractedFact
identity_document_facts reader pages source_checksum =
    when_found (find_page reader pages "Name:\\s*(\\S+)\\s+(\\S+)") (λ found.
      let given = group 1 found.groups in
      let family = group 2 found.groups in
      fact applicant_given_name given (reader.lower given) found.on_page source_checksum
      ∷ fact applicant_family_name family (reader.lower family) found.on_page source_checksum
      ∷ [])
    ++ when_found (find_page reader pages "Date of birth:\\s*(\\d{4}-\\d{2}-\\d{2})") (λ found.
      let raw = group 1 found.groups in
      fact date_of_birth raw (normal_date reader raw) found.on_page source_checksum ∷ [])
    ++ when_found (find_page reader pages "Address:\\s*(.+),\\s*(.+)") (λ found.
      let street = reader.strip (group 1 found.groups) in
      let town = reader.strip (group 2 found.groups) in
      fact street_address street street found.on_page source_checksum
      ∷ fact city town town found.on_page source_checksum
      ∷ [])
    ++ when_found (find_page reader pages "Synthetic ID:\\s*([\\w-]+)") (λ found.
      let id = group 1 found.groups in fact synthetic_id id id found.on_page source_checksum ∷ [])

-- `RegexDocumentExtractor.extract_facts`
unfoldable pub extract_facts :
    Reader
    → List PageText
    → DocumentClassification
    → (source_checksum : String) → List ExtractedFact
extract_facts reader pages income_proof source_checksum =
    income_proof_facts reader pages source_checksum
extract_facts reader pages identity_document source_checksum =
    identity_document_facts reader pages source_checksum
extract_facts reader pages unknown source_checksum = []
