-- ===== src/Domain/Applicant.antt =====
-- finassist/domain/applications/applicant.py. Blank tests and the search for "@" go through the
-- characters of the text; a date is kept as its ordinal.
use Prim.Native.Char.{code}
use Prim.Native.String.{◌++◌}
use loan_credit.Prelude.{ℕ, Bool, true, false, not, ◌||◌, ◌&&◌, String, leb, ◌==◌}
use loan_credit.Domain.Error.{Result, ok, value_error, ◌>>◌, raise_if}

pub record Applicant : Type 0 where
  pub applicant_id : String
  pub tenant_id : String
  pub given_name : String
  pub family_name : String
  pub date_of_birth : ℕ
  pub email : String

-- The characters that `str.strip` removes.
abbrev pub is_space : ℕ → Bool
is_space c =
    (leb 9 c && leb c 13)
    || (leb 28 c && leb c 32)
    || c == 0x85
    || c == 0xa0
    || c == 0x1680
    || (leb 0x2000 c && leb c 0x200a)
    || c == 0x2028
    || c == 0x2029
    || c == 0x202f
    || c == 0x205f
    || c == 0x3000

-- `not text.strip()`
unfoldable pub is_blank : String → Bool
is_blank String.[] = true
is_blank (String.◌∷◌ c s) = is_space (code c) && is_blank s

-- `"@" in text`
unfoldable pub has_at_sign : String → Bool
has_at_sign String.[] = false
has_at_sign (String.◌∷◌ c s) = code c == b'@' || has_at_sign s

-- `__post_init__`; `repr` is Python's, of a text.
unfoldable pub validate : (repr : String → String) → Applicant → Result Applicant
validate repr a = do
  raise_if (is_blank a.given_name) (value_error "applicant given_name must not be blank")
  raise_if (is_blank a.family_name) (value_error "applicant family_name must not be blank")
  raise_if (not (has_at_sign a.email))
      (value_error ("applicant email " ++ repr a.email ++ " is not a valid address"))
  ok a
