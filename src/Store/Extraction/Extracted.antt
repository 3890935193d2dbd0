-- ===== src/Store/Extraction/Extracted.antt =====
-- The facts that the extractor finds are facts that can be stored and read back.
use loan_credit.Prelude.{
  ℕ, ◌+◌, ◌≤◌, ◌≡◌, refl, sym, subst, none, some, List, [], ◌∷◌, ◌++◌, String, str_eq, Memᴰ, arith,
  Bool-cases, inl, inr,
}
use mathlib.Core.List.Memᴰ.{head, tail}
use loan_credit.Domain.Error.{ok, ok-injective, err-ne-ok}
use loan_credit.Domain.Facts.{
  FactType, DocumentClassification, income_proof, identity_document, unknown, ExtractedFact,
  is_confidence,
}
use loan_credit.Domain.Facts.Extractor.{
  PageText, PdfPages, damaged, texts, Reader, numbered, pages_of, extract_text, Found, find_page,
  fact, when_found, income_proof_facts, identity_document_facts, extract_facts,
}
use loan_credit.Store.Extraction.{ExtractionRun, fact_row, row_to_stored_fact}
use loan_credit.Store.Extraction.Roundtrip.{IsValid, stored_as, row_to_stored_fact-fact_row}

abbrev AllValid : List ExtractedFact → Type 0
AllValid [] = Unit {0}
AllValid (f ∷ fs) = IsValid f × AllValid fs

AllValid-append : (fs gs : List ExtractedFact) → AllValid fs → AllValid gs → AllValid (fs ++ gs)
AllValid-append [] gs h k = k
AllValid-append (f ∷ fs) gs (v, h) k = (v, AllValid-append fs gs h k)

AllValid-mem : (fs : List ExtractedFact) (f : ExtractedFact) → AllValid fs → Memᴰ f fs → IsValid f
AllValid-mem [] f h m = elim m [ ]
AllValid-mem (g ∷ fs) f (v, h) (head is) = subst IsValid (sym is) v
AllValid-mem (g ∷ fs) f (v, h) (tail m) = AllValid-mem fs f h m

abbrev AllNumbered : List PageText → Type 0
AllNumbered [] = Unit {0}
AllNumbered (p ∷ ps) = (1 ≤ p.page) × AllNumbered ps

numbered-AllNumbered : (n : ℕ) (ts : List String) → 1 ≤ n → AllNumbered (numbered n ts)
numbered-AllNumbered n [] h = tt
numbered-AllNumbered n (t ∷ ts) h = (h, numbered-AllNumbered (n + 1) ts (omega (arith, h)))

pages_of-AllNumbered :
    (p : PdfPages) (pages : List PageText) → pages_of p ≡ ok pages → AllNumbered pages
pages_of-AllNumbered (damaged reason) pages h = absurd (err-ne-ok h)
pages_of-AllNumbered (texts ts) pages h =
    subst AllNumbered (ok-injective h) (numbered-AllNumbered 1 ts (omega arith))

extract_text-AllNumbered :
    (reader : Reader) (bytes : List ℕ) (content_type : String) (pages : List PageText)
    → extract_text reader bytes content_type ≡ ok pages
    → AllNumbered pages
unfolding extract_text
extract_text-AllNumbered reader bytes content_type pages =
    elim (Bool-cases (str_eq content_type "application/pdf")) [
      | inl pdf ↦ rw pdf (pages_of-AllNumbered (reader.read_pages bytes) pages)
      | inr other ↦ rw other λ h. absurd (err-ne-ok h)
    ]

fact-IsValid :
    (kind : FactType) (value normal : String) (page : ℕ) (checksum : String)
    → 1 ≤ page
    → IsValid (fact kind value normal page checksum)
unfolding fact is_confidence
fact-IsValid kind value normal page checksum h = record {
  confident = refl;
  paged = ground (arith, h);
}

-- What is found on a page is valid if every page has a number.
when_found-AllValid :
    (reader : Reader) (pages : List PageText) (pattern : String)
    (facts : Found → List ExtractedFact)
    → AllNumbered pages
    → ((found : Found) → 1 ≤ found.on_page → AllValid (facts found))
    → AllValid (when_found (find_page reader pages pattern) facts)
unfolding find_page
when_found-AllValid reader [] pattern facts h valid = tt
when_found-AllValid reader (p ∷ ps) pattern facts (one_page, h) valid =
    elim (reader.search pattern p.text)
      as (λ o. AllValid (
        when_found
          (elim o [
            | none ↦ find_page reader ps pattern
            | some groups ↦ some (record { on_page = p.page; groups = groups })
          ])
          facts)) [
            | none ↦ when_found-AllValid reader ps pattern facts h valid
            | some groups ↦ valid (record { on_page = p.page; groups = groups }) one_page
          ]

module _ (reader : Reader) (pages : List PageText) (checksum : String) (h : AllNumbered pages) where
  income-AllValid : AllValid (income_proof_facts reader pages checksum)
  unfolding income_proof_facts
  income-AllValid =
      AllValid-append _ _
        (AllValid-append _ _
          (when_found-AllValid reader pages _ _ h
            (λ found p. (fact-IsValid _ _ _ _ checksum p, tt)))
          (when_found-AllValid reader pages _ _ h
            (λ found p. (fact-IsValid _ _ _ _ checksum p, tt))))
        (when_found-AllValid reader pages _ _ h (λ found p. (fact-IsValid _ _ _ _ checksum p, tt)))

  identity-AllValid : AllValid (identity_document_facts reader pages checksum)
  unfolding identity_document_facts
  identity-AllValid =
      AllValid-append _ _
        (AllValid-append _ _
          (AllValid-append _ _
            (when_found-AllValid reader pages _ _ h
              (λ found p. (fact-IsValid _ _ _ _ checksum p, (fact-IsValid _ _ _ _ checksum p, tt))))
            (when_found-AllValid reader pages _ _ h
              (λ found p. (fact-IsValid _ _ _ _ checksum p, tt))))
          (when_found-AllValid reader pages _ _ h
            (λ found p. (fact-IsValid _ _ _ _ checksum p, (fact-IsValid _ _ _ _ checksum p, tt)))))
        (when_found-AllValid reader pages _ _ h (λ found p. (fact-IsValid _ _ _ _ checksum p, tt)))

  extract_facts-AllValid :
      (kind : DocumentClassification) → AllValid (extract_facts reader pages kind checksum)
  unfolding extract_facts
  extract_facts-AllValid income_proof = income-AllValid
  extract_facts-AllValid identity_document = identity-AllValid
  extract_facts-AllValid unknown = tt

-- Every fact that the extractor finds in the text of a document, whatever its class, is stored in a
-- row from which the same fact is read back, with the id, the document and the run it was stored with.
pub extracted_facts_survive :
    (reader : Reader) (bytes : List ℕ) (content_type : String) (pages : List PageText)
    (kind : DocumentClassification) (checksum : String) (run : ExtractionRun) (fact_id : String)
    (f : ExtractedFact)
    → extract_text reader bytes content_type ≡ ok pages
    → Memᴰ f (extract_facts reader pages kind checksum)
    → row_to_stored_fact (fact_row run fact_id f) ≡ ok (stored_as run fact_id f)
extracted_facts_survive reader bytes content_type pages kind checksum run fact_id f parsed m =
    row_to_stored_fact-fact_row run fact_id f (
      AllValid-mem _ f
        (extract_facts-AllValid reader pages checksum
          (extract_text-AllNumbered reader bytes content_type pages parsed) kind)
        m)
