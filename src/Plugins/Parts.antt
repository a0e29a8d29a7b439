-- ===== src/Plugins/Parts.antt =====
-- The parts of an UPSERT statement, and the placeholders in them.
use dart_odbc_fast.Prelude.{
  ℕ, zero, suc, ◌+◌, ◌≤◌, false, ◌==◌, if◌then◌else◌, List, [], ◌∷◌, ◌++◌, map, length, replicate,
  All, Option, none, some, ok, ◌≡◌, refl, ◌∙◌, arith, Bool-cases, inl, inr, ◌>>◌,
}
use dart_odbc_fast.Wire.{Bytes, ascii}
use dart_odbc_fast.Error.{OdbcResult}
use dart_odbc_fast.Engine.Identifier.{
  IdentifierQuoting, double_quote, brackets, backtick, wrap, validate_identifier, quote_identifier,
  quote_identifier_default, quote_qualified_default, split, join,
}
use dart_odbc_fast.Engine.Identifier.Laws.{
  IsOther, IsIdentifier, IsIdentifier-All, validate_identifier_iff,
}
use dart_odbc_fast.Engine.Identifier.Qualified.{quote_parts_cases}
use dart_odbc_fast.Plugins.Upsert.{
  join_with, traverse, collect, quote_columns, has_column, non_conflict, effective_update_columns,
  placeholder_list,
}
use dart_odbc_fast.Plugins.Vendors.{prefixed, paired, when_matched, quote_table_brackets}

-- The question marks of a text.
abbrev pub placeholders : Bytes → ℕ
placeholders [] = 0
placeholders (b ∷ bs) = (if b == b'?' then 1 else 0) + placeholders bs

pub placeholders-append :
    (xs ys : Bytes) → placeholders (xs ++ ys) ≡ placeholders xs + placeholders ys
placeholders-append [] ys = omega arith
placeholders-append (x ∷ xs) ys = omega (arith, placeholders-append xs ys)

others_lem : (name : Bytes) → All IsOther name → placeholders name ≡ 0
others_lem [] h = refl
others_lem (b ∷ bs) h = ground (arith, others_lem bs h.1)

name_lem : (name : Bytes) → IsIdentifier name → placeholders name ≡ 0
name_lem name h = others_lem name (IsIdentifier-All name h)

wrap_lem :
    (style : IdentifierQuoting) (name : Bytes)
    → IsIdentifier name
    → placeholders (wrap style name) ≡ 0
unfolding wrap
wrap_lem double_quote name h = omega (arith, placeholders-append name (b'"' ∷ []), name_lem name h)
wrap_lem brackets name h = omega (arith, placeholders-append name (b']' ∷ []), name_lem name h)
wrap_lem backtick name h = omega (arith, placeholders-append name (b'`' ∷ []), name_lem name h)

quote_identifier-IsIdentifier :
    (name : Bytes) (style : IdentifierQuoting)
    → IsIdentifier name
    → quote_identifier name style ≡ ok (wrap style name)
unfolding quote_identifier
quote_identifier-IsIdentifier name style h = rw ((validate_identifier_iff name).1 h) refl

-- A result that is a text with so many placeholders.
abbrev pub Yields : ℕ → OdbcResult Bytes → Type 0
Yields n r = (s : Bytes) × (r ≡ ok s) × (placeholders s ≡ n)

-- A closure that makes such a text of each name.
abbrev pub Part : ℕ → (Bytes → OdbcResult Bytes) → Type 0
Part k f = (c : Bytes) → IsIdentifier c → Yields k (f c)

pub prefixed-Part :
    (style : IdentifierQuoting) (before : Bytes)
    → Part (placeholders before) (prefixed style before)
unfolding prefixed
prefixed-Part style before c h = (
  before ++ wrap style c,
  rw (quote_identifier-IsIdentifier c style h) refl,
  omega (arith, placeholders-append before (wrap style c), wrap_lem style c h),
)

pub paired-Part :
    (style : IdentifierQuoting) (before between after : Bytes)
    → Part
        (placeholders before + placeholders between + placeholders after)
        (paired style before between after)
unfolding paired
paired-Part style before between after c h =
    let q = wrap style c in
    (
      before ++ (q ++ (between ++ (q ++ after))),
      rw (quote_identifier-IsIdentifier c style h) refl,
      omega (
        arith,
        wrap_lem style c h,
        placeholders-append q after,
        placeholders-append between (q ++ after),
        placeholders-append q (between ++ (q ++ after)),
        placeholders-append before (q ++ (between ++ (q ++ after))),
      ),
    )

-- `k` placeholders for each of `n` names.
abbrev pub total : ℕ → ℕ → ℕ
total k zero = 0
total k (suc n) = k + total k n

pub total-zero : (n : ℕ) → total 0 n ≡ 0
total-zero zero = refl
total-zero (suc n) = omega (arith, total-zero n)

pub total-one : (n : ℕ) → total 1 n ≡ n
total-one zero = refl
total-one (suc n) = omega (arith, total-one n)

abbrev pub sum_of : List Bytes → ℕ
sum_of [] = 0
sum_of (part ∷ parts) = placeholders part + sum_of parts

pub join_with_lem :
    (sep : Bytes) (parts : List Bytes)
    → placeholders sep ≡ 0
    → placeholders (join_with sep parts) ≡ sum_of parts
unfolding join_with
join_with_lem sep [] h = refl
join_with_lem sep (part ∷ []) h = omega arith
join_with_lem sep (part ∷ next ∷ parts) h = omega (
  arith,
  placeholders-append part (sep ++ join_with sep (next ∷ parts)),
  placeholders-append sep (join_with sep (next ∷ parts)),
  join_with_lem sep (next ∷ parts) h,
)

pub traverse-Part :
    (k : ℕ) (f : Bytes → OdbcResult Bytes) (names : List Bytes)
    → Part k f
    → All IsIdentifier names
    → (parts : List Bytes) × (traverse f names ≡ ok parts)
      × (length parts ≡ length names)
      × (sum_of parts ≡ total k (length names))
unfolding traverse
traverse-Part k f [] part h = ([], refl, refl, refl)
traverse-Part k f (name ∷ names) part h =
    let (s, e, c) = part name h.0 in
    let (parts, es, long, cs) = traverse-Part k f names part h.1 in
    (s ∷ parts, rw (e, es) refl, omega arith, omega arith)

pub collect-Part :
    (k : ℕ) (f : Bytes → OdbcResult Bytes) (sep : Bytes) (names : List Bytes)
    → Part k f
    → placeholders sep ≡ 0
    → All IsIdentifier names
    → Yields (total k (length names)) (collect f sep names)
unfolding collect
collect-Part k f sep names part none_in_sep h =
    let (parts, e, long, c) = traverse-Part k f names part h in
    (join_with sep parts, rw e refl, join_with_lem sep parts none_in_sep ∙ c)

default-Part : Part 0 quote_identifier_default
unfolding quote_identifier_default
default-Part c h =
    (wrap double_quote c, quote_identifier-IsIdentifier c double_quote h, wrap_lem double_quote c h)

pub quote_columns-Yields :
    (columns : List Bytes)
    → 1 ≤ length columns
    → All IsIdentifier columns
    → Yields 0 (quote_columns columns)
unfolding quote_columns
quote_columns-Yields columns long h =
    let (s, e, c) =
      collect-Part 0 quote_identifier_default (ascii ", ") columns default-Part refl h in
    let some_column : (length columns == 0) ≡ false = ground arith in
    (s, rw (some_column, e) refl, c ∙ total-zero (length columns))

dotted_lem :
    (parts : List Bytes)
    → All IsIdentifier parts
    → placeholders (join b'.' (map (wrap double_quote) parts)) ≡ 0
unfolding join
dotted_lem [] h = refl
dotted_lem (p ∷ []) h = wrap_lem double_quote p h.0
dotted_lem (p ∷ q ∷ parts) h = omega (
  arith,
  placeholders-append (wrap double_quote p)
      (b'.' ∷ join b'.' (map (wrap double_quote) (q ∷ parts))),
  wrap_lem double_quote p h.0,
  dotted_lem (q ∷ parts) h.1,
)

pub quote_qualified_default-Yields :
    (table : Bytes) → All IsIdentifier (split b'.' table) → Yields 0 (quote_qualified_default table)
unfolding quote_qualified_default
quote_qualified_default-Yields table h = elim (quote_parts_cases (split b'.' table)) [
  | inl (e, _) ↦ (
    join b'.' (map (wrap double_quote) (split b'.' table)),
    rw e refl,
    dotted_lem (split b'.' table) h,
  )
  | inr (x, e, bad) ↦ absurd (bad h)
]

segment-Part : Part 0 (λ seg. validate_identifier seg >> quote_identifier seg brackets)
segment-Part c h = (
  wrap brackets c,
  rw ((validate_identifier_iff c).1 h) (quote_identifier-IsIdentifier c brackets h),
  wrap_lem brackets c h,
)

pub quote_table_brackets-Yields :
    (table : Bytes) → All IsIdentifier (split b'.' table) → Yields 0 (quote_table_brackets table)
quote_table_brackets-Yields table h =
    let (s, e, c) = collect-Part 0 _ (ascii ".") (split b'.' table) segment-Part refl h in
    (s, e, c ∙ total-zero (length (split b'.' table)))

pub placeholder_list_lem : (n : ℕ) → placeholders (placeholder_list n) ≡ n
unfolding placeholder_list
placeholder_list_lem n = join_with_lem (ascii ", ") (replicate n (ascii "?")) refl ∙ marks n
  where
    marks : (n : ℕ) → sum_of (replicate n (ascii "?")) ≡ n
    marks zero = refl
    marks (suc n) = omega (arith, marks n)

pub when_matched-Yields :
    (f : Bytes → OdbcResult Bytes) (updates : List Bytes)
    → Part 0 f
    → All IsIdentifier updates
    → Yields 0 (when_matched f updates)
unfolding when_matched
when_matched-Yields f updates part h = elim (Bool-cases (length updates == 0)) [
  | inl e ↦ ([], rw e refl, refl)
  | inr e ↦
      let (s, q, c) = collect-Part 0 f (ascii ", ") updates part refl h in
      (
        ascii " WHEN MATCHED THEN UPDATE SET " ++ s,
        rw (e, q) refl,
        omega (arith, c, total-zero (length updates)),
      )
]

non_conflict-All :
    (conflict columns : List Bytes)
    → All IsIdentifier columns
    → All IsIdentifier (non_conflict conflict columns)
unfolding non_conflict
non_conflict-All conflict [] h = tt
non_conflict-All conflict (c ∷ columns) h = elim (Bool-cases (has_column c conflict)) [
  | inl e ↦ rw (non_conflict, e) (non_conflict-All conflict columns h.1)
  | inr e ↦ rw (non_conflict, e) (h.0, non_conflict-All conflict columns h.1)
]

abbrev pub AllOption : Option (List Bytes) → Type 0
AllOption none = Unit
AllOption (some names) = All IsIdentifier names

pub effective-All :
    (columns conflict : List Bytes) (update : Option (List Bytes))
    → All IsIdentifier columns
    → AllOption update
    → All IsIdentifier (effective_update_columns columns conflict update)
unfolding effective_update_columns
effective-All columns conflict none h g = non_conflict-All conflict columns h
effective-All columns conflict (some names) h g = g
