-- ===== src/Engine/Identifier/Laws.antt =====
-- What the quoted identifiers are to a reader of SQL.
use dart_odbc_fast.Prelude.{
  ℕ, ◌≤◌, Bool, true, false, ◌==◌, if◌then◌else◌, [], ◌∷◌, ◌++◌, length, All, ok, err, Option, none,
  some, ◌≡◌, refl, ◌↔◌, ◌⊎◌, inl, inr, arith, append_assoc, Result-cases, ==_self,
}
use dart_odbc_fast.Wire.{Bytes}
use dart_odbc_fast.Error.{OdbcError}
use dart_odbc_fast.Engine.Identifier.{
  max_identifier_len, IdentifierQuoting, double_quote, brackets, backtick, wrap, is_first, is_other,
  check_others, validate_identifier, quote_identifier,
}

abbrev pub IsOther : ℕ → Type 0
IsOther b = is_other b ≡ true

-- A letter or an underscore, then letters, digits and underscores, 128 bytes at most.
abbrev pub IsIdentifier : Bytes → Type 0
IsIdentifier [] = ⊥
IsIdentifier (b ∷ bs) =
    (length (b ∷ bs) ≤ max_identifier_len) × (is_first b ≡ true) × All IsOther bs

check_others_iff : (name bs : Bytes) → (check_others name bs ≡ ok tt) ↔ All IsOther bs
unfolding check_others
check_others_iff name [] = (λ h. tt, λ h. refl)
check_others_iff name (b ∷ bs) = ground (arith, check_others_iff name bs)

pub validate_identifier_iff :
    (name : Bytes) → (validate_identifier name ≡ ok tt) ↔ IsIdentifier name
unfolding validate_identifier
validate_identifier_iff [] = (λ h. cc, λ h. absurd h)
validate_identifier_iff (b ∷ bs) = ground (arith, check_others_iff (b ∷ bs) bs)

abbrev pub opener : IdentifierQuoting → ℕ
opener double_quote = b'"'
opener brackets = b'['
opener backtick = b'`'

abbrev pub closer : IdentifierQuoting → ℕ
closer double_quote = b'"'
closer brackets = b']'
closer backtick = b'`'

abbrev emit : ℕ → Option (Bytes × Bytes) → Option (Bytes × Bytes)
emit c none = none
emit c (some (name, rest)) = some (c ∷ name, rest)

-- How SQL reads the rest of a delimited identifier: up to the first closing quote that is not
-- doubled. The flag says that the byte before was a closing quote.
unfoldable pub read_body : ℕ → Bool → Bytes → Option (Bytes × Bytes)
read_body close false [] = none
read_body close true [] = some ([], [])
read_body close false (c ∷ cs) =
    if c == close then read_body close true cs else emit c (read_body close false cs)
read_body close true (c ∷ cs) =
    if c == close then emit c (read_body close false cs) else some ([], c ∷ cs)

unfoldable pub read_delimited : IdentifierQuoting → Bytes → Option (Bytes × Bytes)
read_delimited style [] = none
read_delimited style (c ∷ cs) =
    if c == opener style then read_body (closer style) false cs else none

-- What follows does not double the closing quote.
abbrev pub Ends : ℕ → Bytes → Type 0
Ends close [] = Unit
Ends close (c ∷ cs) = (c == close) ≡ false

not_closer : (style : IdentifierQuoting) (b : ℕ) → IsOther b → (b == closer style) ≡ false
not_closer double_quote b h = ground arith
not_closer brackets b h = ground arith
not_closer backtick b h = ground arith

first-IsOther : (b : ℕ) → is_first b ≡ true → IsOther b
first-IsOther b h = ground arith

pub IsIdentifier-All : (name : Bytes) → IsIdentifier name → All IsOther name
IsIdentifier-All [] h = absurd h
IsIdentifier-All (b ∷ bs) h = (first-IsOther b h.1, h.2)

read_end :
    (close : ℕ) (rest : Bytes) → Ends close rest → read_body close true rest ≡ some ([], rest)
unfolding read_body
read_end close [] h = refl
read_end close (c ∷ cs) h = rw h refl

read_body-name :
    (style : IdentifierQuoting) (name rest : Bytes)
    → All IsOther name
    → Ends (closer style) rest
    → read_body (closer style) false (name ++ (closer style ∷ rest)) ≡ some (name, rest)
unfolding read_body
read_body-name style [] rest h e = rw (==_self (closer style)) (read_end (closer style) rest e)
read_body-name style (b ∷ bs) rest h e =
    rw (not_closer style b h.0, read_body-name style bs rest h.1 e) refl

wrap_lem :
    (style : IdentifierQuoting) (name : Bytes)
    → wrap style name ≡ opener style ∷ (name ++ (closer style ∷ []))
unfolding wrap
wrap_lem double_quote name = refl
wrap_lem brackets name = refl
wrap_lem backtick name = refl

pub read_delimited-wrap :
    (style : IdentifierQuoting) (name rest : Bytes)
    → All IsOther name
    → Ends (closer style) rest
    → read_delimited style (wrap style name ++ rest) ≡ some (name, rest)
unfolding read_delimited
read_delimited-wrap style name rest h e =
    rw (wrap_lem style name, ==_self (opener style), append_assoc name (closer style ∷ []) rest)
      (read_body-name style name rest h e)

pub quote_identifier_cases :
    (name : Bytes) (style : IdentifierQuoting)
    → ((validate_identifier name ≡ ok tt) × (quote_identifier name style ≡ ok (wrap style name)))
      ⊎ ((e : OdbcError) × (validate_identifier name ≡ err e)
          × (quote_identifier name style ≡ err e))
unfolding quote_identifier
quote_identifier_cases name style = elim (Result-cases (validate_identifier name)) [
  | inl (u, e) ↦ inl (e, rw e refl)
  | inr (x, e) ↦ inr (x, e, rw e refl)
]

-- `quote_identifier` accepts exactly the identifiers: a letter or an underscore, then letters,
-- digits and underscores, 128 bytes at most. What it returns, SQL reads as one delimited identifier
-- with exactly that name and nothing behind it, whatever text follows that does not double the
-- closing quote.
pub quote_identifier_safe :
    (name rest : Bytes) (style : IdentifierQuoting)
    → Ends (closer style) rest
    → ((quoted : Bytes) × (quote_identifier name style ≡ ok quoted)
        × IsIdentifier name
        × (read_delimited style (quoted ++ rest) ≡ some (name, rest)))
      ⊎ ((e : OdbcError) × (quote_identifier name style ≡ err e) × (¬ IsIdentifier name))
quote_identifier_safe name rest style ends = elim (quote_identifier_cases name style) [
  | inl (v, q) ↦
      let fine = (validate_identifier_iff name).0 v in
      inl (
        wrap style name,
        q,
        fine,
        read_delimited-wrap style name rest (IsIdentifier-All name fine) ends,
      )
  | inr (x, v, q) ↦
      inr (x, q, λ fine. let bad = (validate_identifier_iff name).1 fine in cc (bad, v))
]
