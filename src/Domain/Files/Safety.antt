-- ===== src/Domain/Files/Safety.antt =====
-- What is known of a file that the scanner lets through.
use Prim.Native.Char.{Char, code}
use Prim.Native.String.{◌++◌}
use Prim.Native.String.append
use loan_credit.Prelude.{
  refl, sym, ap, ◌∙◌, ◌⊎◌, Bool, false, ◌||◌, ◌==◌, ==→eq, any, [], ◌∷◌, if◌then◌else◌, ℕ, ◌≤◌,
  subst, ◌≡◌, true, Option, none, some, List, String, arith, length, str_eq, str_eq→eq, Bool-cases,
  inl, inr,
}
use loan_credit.Domain.Error.{ok}
use loan_credit.Domain.Files.{
  Scanner, FileSafetyReport, starts_with, magic_bytes, sniff_content_type, expected_content_type,
  suffix_from, lowers_to, scan_as, scan, same_type,
}

abbrev pub has_dot : String → Bool
has_dot String.[] = false
has_dot (String.◌∷◌ c s) = code c == b'.' || has_dot s

-- The extensions of a content type, in lower case.
abbrev pub extensions_of : String → List (List ℕ)
extensions_of kind =
    if str_eq kind "application/pdf"
    then (b'p' ∷ b'd' ∷ b'f' ∷ []) ∷ []
    else if str_eq kind "image/png"
    then (b'p' ∷ b'n' ∷ b'g' ∷ []) ∷ []
    else (b'j' ∷ b'p' ∷ b'g' ∷ []) ∷ (b'j' ∷ b'p' ∷ b'e' ∷ b'g' ∷ []) ∷ []

-- The name is `stem.extension`, or the extension alone with no dot before it; the extension has no
-- dot and is, in lower case, one of the content type's.
pub record IsNamed (filename kind : String) : Type 0 where
  pub extension : String
  pub split :
      (filename ≡ extension)
      ⊎ ((stem : String) × (dot : Char) × (code dot ≡ b'.')
          × (filename ≡ stem ++ String.◌∷◌ dot extension))
  pub no_dot : has_dot extension ≡ false
  pub listed : any (lowers_to extension) (extensions_of kind) ≡ true

abbrev IsSplit : (s extension : String) → Type 0
IsSplit s extension =
    (stem : String) × (dot : Char) × (code dot ≡ b'.') × (s ≡ stem ++ String.◌∷◌ dot extension)

front :
    {s : String} (c : Char) (stem tail : String)
    → s ≡ stem ++ tail
    → String.◌∷◌ c s ≡ String.◌∷◌ c stem ++ tail
front c stem tail e = ap (λ t. String.◌∷◌ c t) e ∙ sym (append.cons c stem tail)

-- The suffix: all of a text without a dot keeps `best`, any other is split at its last dot.
suffix_cases :
    (best s : String)
    → ((has_dot s ≡ false) × (suffix_from best s ≡ best))
      ⊎ ((has_dot (suffix_from best s) ≡ false) × IsSplit s (suffix_from best s))
unfolding suffix_from
suffix_cases best String.[] = inl (refl, refl)
suffix_cases best (String.◌∷◌ c s) = elim (Bool-cases (code c == b'.')) [
  | inl dot ↦ rw dot (elim (suffix_cases s s) [
    | inl (none_left, whole) ↦
        inr (rw whole (none_left, (String.[], c, ==→eq _ _ dot, sym (append.nil (String.◌∷◌ c s)))))
    | inr (none_left, (stem, d, is, parts)) ↦
        inr (none_left, (String.◌∷◌ c stem, d, is, front c stem _ parts))
  ])
  | inr other ↦ rw other (elim (suffix_cases best s) [
    | inl (none_left, same) ↦ inl (none_left, same)
    | inr (none_left, (stem, d, is, parts)) ↦
        inr (none_left, (String.◌∷◌ c stem, d, is, front c stem _ parts))
  ])
]

-- The first test that holds gives the content type, which lists the extension.
picked :
    (extension found kind : String)
    → some found ≡ some kind
    → any (lowers_to extension) (extensions_of found) ≡ true
    → any (lowers_to extension) (extensions_of kind) ≡ true
picked extension found kind same =
    subst (λ k. any (lowers_to extension) (extensions_of k) ≡ true) (let e : found ≡ kind = cc in e)

expected_listed :
    (filename kind : String)
    → expected_content_type filename ≡ some kind
    → any (lowers_to (suffix_from filename filename)) (extensions_of kind) ≡ true
unfolding expected_content_type
expected_listed filename kind h =
    let e = suffix_from filename filename in
    elim (Bool-cases (lowers_to e (b'p' ∷ b'd' ∷ b'f' ∷ []))) [
      | inl pdf ↦ picked e "application/pdf" kind (ground (arith, pdf, h)) (rw pdf refl)
      | inr not_pdf ↦ elim (Bool-cases (lowers_to e (b'p' ∷ b'n' ∷ b'g' ∷ []))) [
        | inl png ↦ picked e "image/png" kind (ground (arith, h)) (rw png refl)
        | inr not_png ↦ elim (Bool-cases (lowers_to e (b'j' ∷ b'p' ∷ b'g' ∷ []))) [
          | inl jpg ↦ picked e "image/jpeg" kind (ground (arith, h)) (rw jpg refl)
          | inr not_jpg ↦ elim (Bool-cases (lowers_to e (b'j' ∷ b'p' ∷ b'e' ∷ b'g' ∷ []))) [
            | inl jpeg ↦ picked e "image/jpeg" kind (ground (arith, h)) (rw (not_jpg, jpeg) refl)
            | inr not_jpeg ↦ absurd (ground (arith, h))
          ]
        ]
      ]
    ]

expected-IsNamed :
    (filename kind : String) → expected_content_type filename ≡ some kind → IsNamed filename kind
expected-IsNamed filename kind h = elim (suffix_cases filename filename) [
  | inl (none_left, whole) ↦ record {
    extension = suffix_from filename filename;
    split = inl (sym whole);
    no_dot = rw whole none_left;
    listed = expected_listed filename kind h;
  }
  | inr (none_left, parts) ↦ record {
    extension = suffix_from filename filename;
    split = inr parts;
    no_dot = none_left;
    listed = expected_listed filename kind h;
  }
]

pub record IsSafe (scanner : Scanner) (bytes : List ℕ) (filename : String) (r : FileSafetyReport)
    : Type 0 where
  pub size : length bytes ≤ scanner.max_size_bytes
  pub pages : r.page_count ≤ scanner.max_pages
  pub named : IsNamed filename r.detected_content_type
  pub content : starts_with (magic_bytes r.detected_content_type) bytes ≡ true

sniffed :
    (bytes : List ℕ) (kind : String)
    → same_type (sniff_content_type bytes) kind ≡ true
    → starts_with (magic_bytes kind) bytes ≡ true
unfolding sniff_content_type
sniffed bytes kind h = elim (Bool-cases (starts_with (magic_bytes "application/pdf") bytes)) [
  | inl pdf ↦ is_kind "application/pdf" pdf (ground arith)
  | inr not_pdf ↦ elim (Bool-cases (starts_with (magic_bytes "image/png") bytes)) [
    | inl png ↦ is_kind "image/png" png (ground arith)
    | inr not_png ↦ elim (Bool-cases (starts_with (magic_bytes "image/jpeg") bytes)) [
      | inl jpeg ↦ is_kind "image/jpeg" jpeg (ground arith)
      | inr not_jpeg ↦ absurd (ground arith)
    ]
  ]
]
  where
    is_kind :
        (found : String)
        → starts_with (magic_bytes found) bytes ≡ true
        → str_eq found kind ≡ true
        → starts_with (magic_bytes kind) bytes ≡ true
    is_kind found starts same =
        subst (λ k. starts_with (magic_bytes k) bytes ≡ true) (str_eq→eq found kind same) starts

scan_as-eq-ok :
    (scanner : Scanner) (bytes : List ℕ) (declared : String) (expected : Option String)
    (r : FileSafetyReport)
    → scan_as scanner bytes declared expected ≡ ok r
    → (expected ≡ some r.detected_content_type)
      × (same_type (sniff_content_type bytes) r.detected_content_type ≡ true)
      × (r.page_count ≤ scanner.max_pages)
unfolding scan_as
scan_as-eq-ok scanner bytes declared none r h = cc
scan_as-eq-ok scanner bytes declared (some expected) r h = ground arith

scan-eq-ok :
    (scanner : Scanner) (bytes : List ℕ) (filename declared : String) (r : FileSafetyReport)
    → scan scanner bytes filename declared ≡ ok r
    → (length bytes ≤ scanner.max_size_bytes)
      × (scan_as scanner bytes declared (expected_content_type filename) ≡ ok r)
unfolding scan
scan-eq-ok scanner bytes filename declared r h = ground arith

-- A file that the scanner lets through is within the size and page limits; what stands after the
-- last dot of its name, or the whole of a name without a dot, is in lower case an extension of the
-- content type that is reported; and its bytes start with the magic bytes of that content type,
-- whatever type the client declared.
pub scan-IsSafe :
    (scanner : Scanner) (bytes : List ℕ) (filename declared : String) (r : FileSafetyReport)
    → scan scanner bytes filename declared ≡ ok r
    → IsSafe scanner bytes filename r
scan-IsSafe scanner bytes filename declared r h =
    let (size, h') = scan-eq-ok scanner bytes filename declared r h in
    let (extension, same, pages) = scan_as-eq-ok scanner bytes declared _ r h' in
    record {
      size = size;
      pages = pages;
      named = expected-IsNamed filename r.detected_content_type extension;
      content = sniffed bytes r.detected_content_type same;
    }
