-- ===== src/Protocol/Decoder/Parts.antt =====
-- The parts of a message are read back: columns, cells and rows.
use dart_odbc_fast.Prelude.{
  ℕ, ◌^◌, ◌≤◌, ◌<◌, true, List, [], ◌∷◌, ◌++◌, length, drop, ok, none, some, ◌≡◌, refl, sym, ap,
  ◌∙◌, arith, All, append_assoc, length-append, take-append_eq, drop-append_eq, map, drop-drop,
}
use dart_odbc_fast.Wire.{Bytes, le_bytes}
use dart_odbc_fast.Wire.Utf8.{is_utf8}
use dart_odbc_fast.Wire.Laws.{drop-le_bytes, get_le-le_bytes, length-le_bytes-append}
use dart_odbc_fast.Protocol.Types.{
  OdbcType, varchar, discriminant, from_protocol_discriminant-discriminant,
}
use dart_odbc_fast.Protocol.RowBuffer.{ColumnMetadata, Cell}
use dart_odbc_fast.Protocol.Encoder.Sizes.{
  column_bytes, columns_bytes, cell_bytes, row_bytes, rows_bytes,
}
use dart_odbc_fast.Protocol.Decoder.{
  max_decoded_cell_size, ColumnInfo, parse_column, parse_columns, parse_cell, parse_row, parse_rows,
}

abbrev pub info : ColumnMetadata → ColumnInfo
info col = record { name = col.name; odbc_type = col.odbc_type }

abbrev pub ColumnFits : ColumnMetadata → Type 0
ColumnFits col = (length col.name < 2 ^ 16) × (is_utf8 col.name ≡ true)

abbrev pub CellFits : Cell → Type 0
CellFits none = Unit
CellFits (some content) = length content ≤ max_decoded_cell_size

-- A row as wide as the header says.
abbrev pub RowFits : ℕ → List Cell → Type 0
RowFits cols row = (length row ≡ cols) × All CellFits row

pub discriminant-lt : (t : OdbcType) → discriminant t < 256 ^ 2
discriminant-lt varchar = omega arith
discriminant-lt _ = omega arith

pub parse_column-column_bytes :
    (col : ColumnMetadata) (rest : Bytes)
    → ColumnFits col
    → parse_column (column_bytes col ++ rest) ≡ ok (info col, rest)
unfolding parse_column column_bytes
parse_column-column_bytes col rest h =
    let d = discriminant col.odbc_type in
    let n = length col.name in
    let tail = le_bytes 2 n ++ (col.name ++ rest) in
    let behind : drop 4 (le_bytes 2 d ++ tail) ≡ col.name ++ rest =
      sym (drop-drop 2 2 (le_bytes 2 d ++ tail))
      ∙ ap (drop 2) (drop-le_bytes 2 d tail)
      ∙ drop-le_bytes 2 n (col.name ++ rest) in
    rw
      (
        append_assoc (le_bytes 2 d) (le_bytes 2 n ++ col.name) rest,
        append_assoc (le_bytes 2 n) col.name rest,
        behind,
        drop-le_bytes 2 d tail,
        get_le-le_bytes 2 d tail (discriminant-lt col.odbc_type),
        get_le-le_bytes 2 n (col.name ++ rest) h.0,
        take-append_eq n col.name rest refl,
        drop-append_eq n col.name rest refl,
        from_protocol_discriminant-discriminant col.odbc_type,
        h.1,
      )
      (ground (
        arith,
        length-le_bytes-append 2 d tail,
        length-le_bytes-append 2 n (col.name ++ rest),
        length-append col.name rest,
      ))

pub parse_columns-columns_bytes :
    (cols : List ColumnMetadata) (rest : Bytes)
    → All ColumnFits cols
    → parse_columns (length cols) (columns_bytes cols ++ rest) ≡ ok (map info cols, rest)
unfolding parse_columns columns_bytes
parse_columns-columns_bytes [] rest h = refl
parse_columns-columns_bytes (col ∷ cols) rest h =
    rw
      (
        append_assoc (column_bytes col) (columns_bytes cols) rest,
        parse_column-column_bytes col (columns_bytes cols ++ rest) h.0,
        parse_columns-columns_bytes cols rest h.1,
      )
      refl

pub parse_cell-cell_bytes :
    (cell : Cell) (rest : Bytes)
    → CellFits cell
    → parse_cell (cell_bytes cell ++ rest) ≡ ok (cell, rest)
unfolding parse_cell cell_bytes
parse_cell-cell_bytes none rest h = refl
parse_cell-cell_bytes (some content) rest h =
    let n = length content in
    rw
      (
        append_assoc (le_bytes 4 n) content rest,
        get_le-le_bytes 4 n (content ++ rest) (omega arith),
        drop-le_bytes 4 n (content ++ rest),
        take-append_eq n content rest refl,
        drop-append_eq n content rest refl,
      )
      (ground (arith, length-le_bytes-append 4 n (content ++ rest), length-append content rest))

pub parse_row-row_bytes :
    (row : List Cell) (rest : Bytes)
    → All CellFits row
    → parse_row (length row) (row_bytes row ++ rest) ≡ ok (row, rest)
unfolding parse_row row_bytes
parse_row-row_bytes [] rest h = refl
parse_row-row_bytes (cell ∷ row) rest h =
    rw
      (
        append_assoc (cell_bytes cell) (row_bytes row) rest,
        parse_cell-cell_bytes cell (row_bytes row ++ rest) h.0,
        parse_row-row_bytes row rest h.1,
      )
      refl

pub parse_rows-rows_bytes :
    (cols : ℕ) (rows : List (List Cell)) (rest : Bytes)
    → All (RowFits cols) rows
    → parse_rows cols (length rows) (rows_bytes rows ++ rest) ≡ ok (rows, rest)
unfolding parse_rows rows_bytes
parse_rows-rows_bytes cols [] rest h = refl
parse_rows-rows_bytes cols (row ∷ rows) rest h =
    let tail = rows_bytes rows ++ rest in
    let first : parse_row cols (row_bytes row ++ tail) ≡ ok (row, tail) =
      rw h.0.0 at (parse_row-row_bytes row tail h.0.1) in
    rw
      (
        append_assoc (row_bytes row) (rows_bytes rows) rest,
        first,
        parse_rows-rows_bytes cols rows rest h.1,
      )
      refl
