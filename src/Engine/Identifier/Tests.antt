-- ===== src/Engine/Identifier/Tests.antt =====
-- Runs of the identifier functions, and their theorems at concrete texts.
use dart_odbc_fast.Prelude.{[], ◌∷◌, ◌++◌, ok, err, some, ◌≡◌, refl, ◌⊎◌, All}
use dart_odbc_fast.Wire.{Bytes}
use dart_odbc_fast.Error.{OdbcError, invalid, num, text}
use dart_odbc_fast.Engine.Identifier.{
  double_quote, brackets, wrap, check_others, validate_identifier, quote_identifier,
  quote_identifier_default, split, join, quote_parts, quote_qualified_default,
}
use dart_odbc_fast.Engine.Identifier.Laws.{
  IsIdentifier, read_body, read_delimited, quote_identifier_safe,
}
use dart_odbc_fast.Engine.Identifier.Qualified.{Reads, quote_qualified_default_safe}

-- `dbo.t1`
abbrev dbo_t1 : Bytes
dbo_t1 = b'd' ∷ b'b' ∷ b'o' ∷ b'.' ∷ b't' ∷ b'1' ∷ []

quote_qualified_default-dbo_t1 :
    quote_qualified_default dbo_t1
    ≡ ok (b'"' ∷ b'd' ∷ b'b' ∷ b'o' ∷ b'"' ∷ b'.' ∷ b'"' ∷ b't' ∷ b'1' ∷ b'"' ∷ [])
unfolding quote_qualified_default split quote_parts quote_identifier_default quote_identifier
    validate_identifier check_others wrap join
quote_qualified_default-dbo_t1 = refl

quote_identifier_injection :
    quote_identifier (b'a' ∷ b']' ∷ []) brackets
    ≡ err (
        invalid "Identifier {name:?} contains invalid character {:?}"
          (text (b'a' ∷ b']' ∷ []) ∷ num b']' ∷ []))
unfolding quote_identifier validate_identifier check_others
quote_identifier_injection = refl

read_body_doubled :
    read_delimited double_quote (b'"' ∷ b'a' ∷ b'"' ∷ b'"' ∷ b'b' ∷ b'"' ∷ b';' ∷ [])
    ≡ some (b'a' ∷ b'"' ∷ b'b' ∷ [], b';' ∷ [])
unfolding read_delimited read_body
read_body_doubled = refl

quote_identifier_safe_example :
    ((quoted : Bytes) × (quote_identifier (b's' ∷ b'p' ∷ []) brackets ≡ ok quoted)
      × IsIdentifier (b's' ∷ b'p' ∷ [])
      × (read_delimited brackets (quoted ++ (b';' ∷ [])) ≡ some (b's' ∷ b'p' ∷ [], b';' ∷ [])))
    ⊎ ((e : OdbcError) × (quote_identifier (b's' ∷ b'p' ∷ []) brackets ≡ err e)
        × (¬ IsIdentifier (b's' ∷ b'p' ∷ [])))
quote_identifier_safe_example = quote_identifier_safe (b's' ∷ b'p' ∷ []) (b';' ∷ []) brackets refl

quote_qualified_default_safe_example :
    ((out : Bytes) × (quote_qualified_default dbo_t1 ≡ ok out)
      × All IsIdentifier (split b'.' dbo_t1)
      × Reads out (split b'.' dbo_t1)
      × (join b'.' (split b'.' dbo_t1) ≡ dbo_t1))
    ⊎ ((e : OdbcError) × (quote_qualified_default dbo_t1 ≡ err e)
        × (¬ All IsIdentifier (split b'.' dbo_t1)))
quote_qualified_default_safe_example = quote_qualified_default_safe dbo_t1
