-- ===== src/Engine/Identifier.antt =====
-- engine/identifier.rs: validation and quoting of SQL identifiers. A text is the list of its bytes.
pub mod Laws
pub mod Qualified
mod Tests
use dart_odbc_fast.Prelude.{
  ℕ, Bool, true, false, not, ◌&&◌, ◌||◌, ltb, leb, ◌==◌, if◌then◌else◌, List, [], ◌∷◌, ◌++◌, length,
  ok, err, reject, ◌>>=◌, ◌>>◌,
}
use dart_odbc_fast.Wire.{Bytes}
use dart_odbc_fast.Error.{OdbcResult, invalid, num, text}

abbrev pub max_identifier_len : ℕ
max_identifier_len = 128

pub data IdentifierQuoting : Type 0 where
  double_quote : IdentifierQuoting
  brackets : IdentifierQuoting
  backtick : IdentifierQuoting

unfoldable pub wrap : IdentifierQuoting → Bytes → Bytes
wrap double_quote validated = b'"' ∷ (validated ++ (b'"' ∷ []))
wrap brackets validated = b'[' ∷ (validated ++ (b']' ∷ []))
wrap backtick validated = b'`' ∷ (validated ++ (b'`' ∷ []))

-- `b.is_ascii_alphabetic() || b == b'_'`
abbrev pub is_first : ℕ → Bool
is_first b = ((leb b'a' b && leb b b'z') || (leb b'A' b && leb b b'Z')) || b == b'_'

-- `b.is_ascii_alphanumeric() || b == b'_'`
abbrev pub is_other : ℕ → Bool
is_other b = is_first b || (leb b'0' b && leb b b'9')

unfoldable pub check_others : Bytes → Bytes → OdbcResult (Unit {0})
check_others name [] = ok tt
check_others name (b ∷ bs) = do
  reject (not (is_other b))
      (invalid "Identifier {name:?} contains invalid character {:?}" (text name ∷ num b ∷ []))
  check_others name bs

unfoldable pub validate_identifier : Bytes → OdbcResult (Unit {0})
validate_identifier [] = err (invalid "Identifier must not be empty" [])
validate_identifier (first ∷ rest) = do
  reject (ltb max_identifier_len (length (first ∷ rest)))
      (invalid "Identifier exceeds {MAX_IDENTIFIER_LEN} characters" (num max_identifier_len ∷ []))
  reject (not (is_first first)) (
      invalid "Identifier {name:?} must start with ASCII letter or underscore"
        (text (first ∷ rest) ∷ []))
  check_others (first ∷ rest) rest

unfoldable pub quote_identifier : Bytes → IdentifierQuoting → OdbcResult Bytes
quote_identifier name style = do validate_identifier name; ok (wrap style name)

unfoldable pub quote_identifier_default : Bytes → OdbcResult Bytes
quote_identifier_default name = quote_identifier name double_quote

-- `s.split(c)`
unfoldable pub split : ℕ → Bytes → List Bytes
split c [] = [] ∷ []
split c (b ∷ bs) =
    let rest = split c bs in
    if b == c
    then [] ∷ rest
    else elim rest [ [] ↦ (b ∷ []) ∷ [] | part ∷ parts ↦ (b ∷ part) ∷ parts ]

-- `parts.join(".")`
unfoldable pub join : ℕ → List Bytes → Bytes
join c [] = []
join c (part ∷ []) = part
join c (part ∷ next ∷ parts) = part ++ (c ∷ join c (next ∷ parts))

unfoldable pub quote_parts : List Bytes → OdbcResult (List Bytes)
quote_parts [] = ok []
quote_parts (p ∷ parts) = do
  quoted ← quote_identifier_default p
  more ← quote_parts parts
  ok (quoted ∷ more)

-- `split` never returns an empty list, so that the source's test on `parts` always passes.
unfoldable pub quote_qualified_default : Bytes → OdbcResult Bytes
quote_qualified_default qualified = do
  quoted ← quote_parts (split b'.' qualified)
  ok (join b'.' quoted)
