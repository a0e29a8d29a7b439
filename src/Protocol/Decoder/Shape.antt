-- ===== src/Protocol/Decoder/Shape.antt =====
-- The shape of what `parse` accepts: the counts, the widths of the rows and the limits.
use dart_odbc_fast.Prelude.{
  ℕ, zero, suc, ◌*◌, ◌≤◌, ◌==◌, true, List, [], ◌∷◌, length, drop, ok, err, none, some, ◌≡◌, refl,
  arith, All, length-take, Result-cases, inl, inr, Bool-cases,
}
use dart_odbc_fast.Wire.{Bytes, get_le, checked_mul}
use dart_odbc_fast.Wire.Utf8.{is_utf8}
use dart_odbc_fast.Error.{OdbcResult}
use dart_odbc_fast.Protocol.RowBuffer.{Cell}
use dart_odbc_fast.Protocol.Decoder.{
  max_decoded_columns, max_decoded_rows, max_decoded_cells, max_decoded_payload_size, ColumnInfo,
  DecodedResult, validate_shape, parse_column, parse_columns, parse_content, parse_cell, parse_row,
  parse_rows,
}
use dart_odbc_fast.Protocol.Decoder.Parts.{CellFits, RowFits}

abbrev pub NameIsText : ColumnInfo → Type 0
NameIsText col = is_utf8 col.name ≡ true

parse_column_sound :
    (cursor : Bytes) (col : ColumnInfo) (after : Bytes)
    → parse_column cursor ≡ ok (col, after)
    → NameIsText col
unfolding parse_column
parse_column_sound cursor col after h = ground arith

pub parse_columns_sound :
    (n : ℕ) (cursor : Bytes) (cols : List ColumnInfo) (rest : Bytes)
    → parse_columns n cursor ≡ ok (cols, rest)
    → (length cols ≡ n) × All NameIsText cols
unfolding parse_columns
parse_columns_sound zero cursor [] rest h = (refl, tt)
parse_columns_sound zero cursor (col ∷ cols) rest h = cc
parse_columns_sound (suc n) cursor cols rest h = elim (Result-cases (parse_column cursor)) [
  | inl ((col, after), e) ↦ elim (Result-cases (parse_columns n after)) [
    | inl ((more, end), e') ↦
        let first = parse_column_sound cursor col after e in
        let (count, all) = parse_columns_sound n after more end e' in
        let same : ok (col ∷ more, end) ≡ parse_columns (suc n) cursor = rw (e, e') refl in
        ground (arith, first, count, all, same, h)
    | inr (x, e') ↦ let bad : parse_columns (suc n) cursor ≡ err x = rw (e, e') refl in cc (bad, h)
  ]
  | inr (x, e) ↦ let bad : parse_columns (suc n) cursor ≡ err x = rw e refl in cc (bad, h)
]

parse_content_sound :
    (cursor : Bytes) (cell : Cell) (after : Bytes)
    → parse_content cursor ≡ ok (cell, after)
    → CellFits cell
unfolding parse_content
parse_content_sound cursor none after h = tt
parse_content_sound cursor (some content) after h =
    ground (arith, length-take (get_le 4 cursor) (drop 4 cursor))

parse_cell_sound :
    (cursor : Bytes) (cell : Cell) (after : Bytes)
    → parse_cell cursor ≡ ok (cell, after)
    → CellFits cell
unfolding parse_cell
parse_cell_sound [] cell after h = cc
parse_cell_sound (flag ∷ cursor) none after h = tt
parse_cell_sound (flag ∷ cursor) (some content) after h = elim (Bool-cases (flag == 1)) [
  | inl e ↦
      let h' : ◌≡◌ {A = OdbcResult (Cell × Bytes)} (ok (none, cursor)) (ok (some content, after)) =
        rw e at h in
      cc
  | inr e ↦ parse_content_sound cursor (some content) after (rw e at h)
]

parse_row_sound :
    (n : ℕ) (cursor : Bytes) (row : List Cell) (rest : Bytes)
    → parse_row n cursor ≡ ok (row, rest)
    → RowFits n row
unfolding parse_row
parse_row_sound zero cursor [] rest h = (refl, tt)
parse_row_sound zero cursor (cell ∷ row) rest h = cc
parse_row_sound (suc n) cursor row rest h = elim (Result-cases (parse_cell cursor)) [
  | inl ((cell, after), e) ↦ elim (Result-cases (parse_row n after)) [
    | inl ((more, end), e') ↦
        let first = parse_cell_sound cursor cell after e in
        let (count, all) = parse_row_sound n after more end e' in
        let same : ok (cell ∷ more, end) ≡ parse_row (suc n) cursor = rw (e, e') refl in
        ground (arith, first, count, all, same, h)
    | inr (x, e') ↦ let bad : parse_row (suc n) cursor ≡ err x = rw (e, e') refl in cc (bad, h)
  ]
  | inr (x, e) ↦ let bad : parse_row (suc n) cursor ≡ err x = rw e refl in cc (bad, h)
]

pub parse_rows_sound :
    (cols n : ℕ) (cursor : Bytes) (rows : List (List Cell)) (rest : Bytes)
    → parse_rows cols n cursor ≡ ok (rows, rest)
    → (length rows ≡ n) × All (RowFits cols) rows
unfolding parse_rows
parse_rows_sound cols zero cursor [] rest h = (refl, tt)
parse_rows_sound cols zero cursor (row ∷ rows) rest h = cc
parse_rows_sound cols (suc n) cursor rows rest h = elim (Result-cases (parse_row cols cursor)) [
  | inl ((row, after), e) ↦ elim (Result-cases (parse_rows cols n after)) [
    | inl ((more, end), e') ↦
        let (width, fits) = parse_row_sound cols cursor row after e in
        let (count, all) = parse_rows_sound cols n after more end e' in
        let same : ok (row ∷ more, end) ≡ parse_rows cols (suc n) cursor = rw (e, e') refl in
        ground (arith, width, fits, count, all, same, h)
    | inr (x, e') ↦
        let bad : parse_rows cols (suc n) cursor ≡ err x = rw (e, e') refl in cc (bad, h)
  ]
  | inr (x, e) ↦ let bad : parse_rows cols (suc n) cursor ≡ err x = rw e refl in cc (bad, h)
]

pub validate_shape_sound :
    (cols nrows size : ℕ) (u : Unit {0})
    → validate_shape cols nrows size ≡ ok u
    → (cols ≤ max_decoded_columns)
      × (nrows ≤ max_decoded_rows)
      × (cols * nrows ≤ max_decoded_cells)
      × (size ≤ max_decoded_payload_size)
unfolding validate_shape checked_mul
validate_shape_sound cols nrows size u h = ground arith

-- A decoded result is a table of the declared shape, within the limits of the decoder.
pub record IsTable (r : DecodedResult) : Type 0 where
  pub width : length r.columns ≡ r.column_count
  pub height : length r.rows ≡ r.row_count
  pub names : All NameIsText r.columns
  pub cells : All (RowFits r.column_count) r.rows
  pub few_columns : r.column_count ≤ max_decoded_columns
  pub few_rows : r.row_count ≤ max_decoded_rows
  pub few_cells : r.column_count * r.row_count ≤ max_decoded_cells
