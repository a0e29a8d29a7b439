-- ===== src/Protocol/Decoder/Layout.antt =====
-- The bytes of a message: what the columns and the rows that `parse` accepts look like.
pub mod Rows
use dart_odbc_fast.Prelude.{
  ℕ, zero, suc, ◌+◌, ◌≤◌, ◌<◌, ◌^◌, List, [], ◌∷◌, ◌++◌, length, take, drop, ok, err, none, some,
  ◌≡◌, ◌≢◌, refl, sym, subst, arith, append_assoc, length-take, Result-cases, ◌⊎◌, inl, inr,
  All-drop, take-append-drop, drop-drop, length-drop,
}
use dart_odbc_fast.Wire.{Bytes, IsByte, AreBytes, le_bytes, get_le}
use dart_odbc_fast.Wire.Laws.{AreBytes-rest, le_bytes-get_le, get_le-lt}
use dart_odbc_fast.Protocol.Types.{
  OdbcType, varchar, discriminant, from_protocol_discriminant, from_protocol_discriminant_total,
}
use dart_odbc_fast.Protocol.RowBuffer.{Cell}
use dart_odbc_fast.Protocol.Decoder.{ColumnInfo, DecodedResult, parse_column, parse_columns}

-- Bytes that are the pieces of a list's elements, one after the other.
abbrev pub Pieces {ℓ} : {A : Type ℓ} → (A → Bytes → Type 0) → List A → Bytes → Type 0
Pieces IsPiece [] bytes = bytes ≡ []
Pieces IsPiece (x ∷ xs) bytes =
    (first : Bytes) × (rest : Bytes) × IsPiece x first
    × Pieces IsPiece xs rest
    × (bytes ≡ first ++ rest)

-- A type's code: its own discriminant, or one that no type has, which is read as VARCHAR.
abbrev pub IsCode : OdbcType → ℕ → Type 0
IsCode ty code = (code ≡ discriminant ty) ⊎ (((code ≡ 0) ⊎ (20 ≤ code)) × (ty ≡ varchar))

abbrev pub IsColumn : ColumnInfo → Bytes → Type 0
IsColumn col bytes =
    (code : ℕ) × (code < 2 ^ 16)
    × IsCode col.odbc_type code
    × (length col.name < 2 ^ 16)
    × (bytes ≡ le_bytes 2 code ++ (le_bytes 2 (length col.name) ++ col.name))

abbrev pub IsCell : Cell → Bytes → Type 0
IsCell none bytes = bytes ≡ 1 ∷ []
IsCell (some content) bytes =
    (flag : ℕ) × (flag ≢ 1) × (bytes ≡ flag ∷ (le_bytes 4 (length content) ++ content))

-- The whole message of a result: the header with the counts of columns and rows and the size of
-- what follows it, then the columns, then the rows, and nothing behind them.
abbrev pub IsMessage : DecodedResult → Bytes → Type 0
IsMessage r buffer =
    (columns : Bytes) × (rows : Bytes) × Pieces IsColumn r.columns columns
    × Pieces (Pieces IsCell) r.rows rows
    × (buffer
        ≡ le_bytes 4 0x4f444243
          ++ (le_bytes 2 1
              ++ (le_bytes 2 r.column_count
                  ++ (le_bytes 4 r.row_count
                      ++ (le_bytes 4 (length columns + length rows) ++ (columns ++ rows))))))

-- A piece at the front of what is read.
abbrev Read {ℓ} : {A : Type ℓ} → (A → Bytes → Type 0) → Bytes → A × Bytes → Type 0
Read IsPiece cursor (x, rest) = (bytes : Bytes) × IsPiece x bytes × (cursor ≡ bytes ++ rest)

piece_step {ℓ} :
    {A : Type ℓ} (IsPiece : A → Bytes → Type 0) (x : A) (xs : List A) (cursor after rest : Bytes)
    → Read IsPiece cursor (x, after)
    → Read (Pieces IsPiece) after (xs, rest)
    → Read (Pieces IsPiece) cursor (x ∷ xs, rest)
piece_step IsPiece x xs cursor after rest (first, w, here) (more, all, there) = (
  first ++ more,
  (first, more, w, all, refl),
  rw (here, there) (sym (append_assoc first more rest)),
)

IsCode_lem : (code : ℕ) → IsCode (from_protocol_discriminant code) code
IsCode_lem code = elim (from_protocol_discriminant_total code) [
  | inl (low, high, e) ↦ inl (sym e)
  | inr (out, e) ↦ inr (out, e)
]

-- A length-prefixed text or cell, and what is behind it.
prefixed_lem :
    (w : ℕ) (buf : Bytes)
    → AreBytes buf
    → w ≤ length buf
    → get_le w buf ≤ length (drop w buf)
    → let n = get_le w buf in
      let body = take n (drop w buf) in
      (length body ≡ n) × (buf ≡ le_bytes w (length body) ++ (body ++ drop n (drop w buf)))
prefixed_lem w buf bytes fits more =
    let n = get_le w buf in
    let e : length (take n (drop w buf)) ≡ n = omega (arith, length-take n (drop w buf)) in
    (e, rw (e, take-append-drop n (drop w buf)) (sym (le_bytes-get_le w buf bytes fits)))

abbrev Inverted : Bytes → ColumnInfo → Bytes → Type 0
Inverted cursor col after =
    let body = drop 2 cursor in
    let n = get_le 2 body in
    (4 ≤ length cursor)
    × (n ≤ length (drop 2 body))
    × (col.odbc_type ≡ from_protocol_discriminant (get_le 2 cursor))
    × (col.name ≡ take n (drop 2 body))
    × (after ≡ drop n (drop 2 body))

parse_column_read :
    (cursor : Bytes) (col : ColumnInfo) (after : Bytes)
    → parse_column cursor ≡ ok (col, after)
    → Inverted cursor col after
unfolding parse_column
parse_column_read cursor col after h = rw (drop-drop 2 2 cursor) (ground arith)

parse_column_layout :
    (cursor : Bytes) (col : ColumnInfo) (after : Bytes)
    → AreBytes cursor
    → parse_column cursor ≡ ok (col, after)
    → Read IsColumn cursor (col, after)
parse_column_layout cursor col after bytes h =
    let code = get_le 2 cursor in
    let (fits, more, ty, name, behind) = parse_column_read cursor col after h in
    let size = le_bytes 2 (length col.name) in
    let there =
      prefixed_lem 2 (drop 2 cursor) (All-drop IsByte 2 cursor bytes)
        (omega (arith, length-drop 2 cursor)) more in
    let small : length col.name < 2 ^ 16 =
      rw (name, there.0)
        (get_le-lt 2 (drop 2 cursor) (All-drop IsByte 2 cursor bytes)
          (omega (arith, length-drop 2 cursor))) in
    let tail : drop 2 cursor ≡ size ++ (col.name ++ after) = rw (name, behind) there.1 in
    let read : cursor ≡ le_bytes 2 code ++ (size ++ (col.name ++ after)) =
      rw (← tail) (sym (le_bytes-get_le 2 cursor bytes (omega arith))) in
    (
      le_bytes 2 code ++ (size ++ col.name),
      (code, get_le-lt 2 cursor bytes (omega arith), rw ty (IsCode_lem code), small, refl),
      rw (append_assoc (le_bytes 2 code) (size ++ col.name) after, append_assoc size col.name after)
          read,
    )

pub parse_columns_layout :
    (n : ℕ) (cursor : Bytes) (cols : List ColumnInfo) (rest : Bytes)
    → AreBytes cursor
    → parse_columns n cursor ≡ ok (cols, rest)
    → Read (Pieces IsColumn) cursor (cols, rest)
unfolding parse_columns
parse_columns_layout zero cursor cols rest bytes h =
    let same : ◌≡◌ {A = List ColumnInfo × Bytes} ([], cursor) (cols, rest) = cc h in
    subst (Read (Pieces IsColumn) cursor) same ([], refl, refl)
parse_columns_layout (suc n) cursor cols rest bytes h = elim (Result-cases (parse_column cursor)) [
  | inl ((col, after), e) ↦
      let (first, w, here) = parse_column_layout cursor col after bytes e in
      let behind : AreBytes after = AreBytes-rest first after (subst AreBytes here bytes) in
      elim (Result-cases (parse_columns n after)) [
        | inl ((more, end), e') ↦
            let run : ok (col ∷ more, end) ≡ parse_columns (suc n) cursor = rw (e, e') refl in
            let same : ◌≡◌ {A = List ColumnInfo × Bytes} (col ∷ more, end) (cols, rest) =
              cc (run, h) in
            subst (Read (Pieces IsColumn) cursor) same (
              piece_step IsColumn col more cursor after end (first, w, here)
                (parse_columns_layout n after more end behind e'))
        | inr (x, e') ↦
            let bad : parse_columns (suc n) cursor ≡ err x = rw (e, e') refl in cc (bad, h)
      ]
  | inr (x, e) ↦ let bad : parse_columns (suc n) cursor ≡ err x = rw e refl in cc (bad, h)
]
