-- ===== src/Protocol/Decoder/RoundTrip.antt =====
-- What `try_encode` writes, `parse` reads.
use dart_odbc_fast.Prelude.{
  ℕ, ◌+◌, ◌*◌, ◌^◌, ◌≤◌, List, [], ◌∷◌, ◌++◌, length, drop, ok, none, some, ◌≡◌, refl, sym, ap, ◌∙◌,
  arith, All, append-nil, map, lt→ltb, ==_iff, drop-drop,
}
use dart_odbc_fast.Wire.{Bytes, le_bytes, from_le, get_le, checked_add, checked_mul}
use dart_odbc_fast.Wire.Laws.{drop-le_bytes, get_le-le_bytes, length-le_bytes-append}
use dart_odbc_fast.Protocol.RowBuffer.{ColumnMetadata, Cell, RowBuffer, row_count, column_count}
use dart_odbc_fast.Protocol.Encoder.{try_encode}
use dart_odbc_fast.Protocol.Encoder.Sizes.{
  rows_bytes, payload_bytes, message, Encodable, try_encode-message, ShortName, SmallCell,
}
use dart_odbc_fast.Protocol.Decoder.{
  header_size, max_decoded_columns, max_decoded_rows, max_decoded_cells, max_decoded_payload_size,
  DecodedResult, validate_shape, parse_columns, parse_rows, parse_body, parse,
}
use dart_odbc_fast.Protocol.Decoder.Parts.{
  info, ColumnFits, CellFits, RowFits, parse_columns-columns_bytes, parse_rows-rows_bytes,
}

-- The result sets within the limits of both sides, with every row as wide as the columns.
pub record Decodable (b : RowBuffer) : Type 0 where
  pub few_columns : column_count b ≤ max_decoded_columns
  pub few_rows : row_count b ≤ max_decoded_rows
  pub few_cells : column_count b * row_count b ≤ max_decoded_cells
  pub payload : length (payload_bytes b) ≤ max_decoded_payload_size
  pub column_fits : All ColumnFits b.columns
  pub row_fits : All (RowFits (column_count b)) b.rows

abbrev pub decoded : RowBuffer → DecodedResult
decoded b = record {
  columns = map info b.columns;
  rows = b.rows;
  row_count = row_count b;
  column_count = column_count b;
}

-- The magic number and the version, as they stand in the buffer.
abbrev header : Bytes → Bytes
header rest = b'C' ∷ b'B' ∷ b'D' ∷ b'O' ∷ 1 ∷ 0 ∷ rest

parse-header : (rest : Bytes) → 10 ≤ length rest → parse (header rest) ≡ parse_body (header rest)
unfolding parse get_le from_le
parse-header rest h = ground arith

message-header :
    (b : RowBuffer)
    → message b
      ≡ header (
          le_bytes 2 (column_count b)
          ++ (le_bytes 4 (row_count b)
              ++ (le_bytes 4 (length (payload_bytes b)) ++ payload_bytes b)))
unfolding message le_bytes
message-header b = refl

validate_shape-Decodable :
    (cols nrows size : ℕ)
    → cols ≤ max_decoded_columns
    → nrows ≤ max_decoded_rows
    → cols * nrows ≤ max_decoded_cells
    → size ≤ max_decoded_payload_size
    → validate_shape cols nrows size ≡ ok tt
unfolding validate_shape checked_mul
validate_shape-Decodable cols nrows size hc hr hx hs = ground arith

parse_columns-payload :
    (b : RowBuffer)
    → All ColumnFits b.columns
    → parse_columns (column_count b) (payload_bytes b) ≡ ok (map info b.columns, rows_bytes b.rows)
unfolding payload_bytes
parse_columns-payload b h = parse_columns-columns_bytes b.columns (rows_bytes b.rows) h

parse_rows-payload :
    (b : RowBuffer)
    → All (RowFits (column_count b)) b.rows
    → parse_rows (column_count b) (row_count b) (rows_bytes b.rows) ≡ ok (b.rows, [])
parse_rows-payload b h = rw append-nil at (parse_rows-rows_bytes (column_count b) b.rows [] h)

parse_body-header :
    (b : RowBuffer)
    → Decodable b
    → parse_body (
        header (
          le_bytes 2 (column_count b)
          ++ (le_bytes 4 (row_count b)
              ++ (le_bytes 4 (length (payload_bytes b)) ++ payload_bytes b))))
      ≡ ok (decoded b)
unfolding parse_body checked_add
parse_body-header b h =
    let cols = column_count b in
    let nrows = row_count b in
    let payload = payload_bytes b in
    let size = length payload in
    let from_size = le_bytes 4 size ++ payload in
    let from_rows = le_bytes 4 nrows ++ from_size in
    let from_cols = le_bytes 2 cols ++ from_rows in
    let few_rows : nrows ≤ max_decoded_rows = h.few_rows in
    let few_columns : cols ≤ max_decoded_columns = h.few_columns in
    let small : size ≤ max_decoded_payload_size = h.payload in
    let d2 : drop 2 from_cols ≡ from_rows = drop-le_bytes 2 cols from_rows in
    let d6 : drop 6 from_cols ≡ from_size =
      sym (drop-drop 2 4 from_cols) ∙ ap (drop 4) d2 ∙ drop-le_bytes 4 nrows from_size in
    let d10 : drop 10 from_cols ≡ payload =
      sym (drop-drop 6 4 from_cols) ∙ ap (drop 4) d6 ∙ drop-le_bytes 4 size payload in
    let whole : header_size + size ≡ length (header from_cols) = omega (
      arith,
      length-le_bytes-append 2 cols from_rows,
      length-le_bytes-append 4 nrows from_size,
      length-le_bytes-append 4 size payload,
    ) in
    rw
      (
        d2,
        d6,
        d10,
        get_le-le_bytes 2 cols from_rows (omega arith),
        get_le-le_bytes 4 nrows from_size (omega arith),
        get_le-le_bytes 4 size payload (omega arith),
        validate_shape-Decodable cols nrows size few_columns few_rows h.few_cells small,
        parse_columns-payload b h.column_fits,
        parse_rows-payload b h.row_fits,
        lt→ltb (header_size + size) (2 ^ 64) (omega arith),
        (==_iff (header_size + size) (length (header from_cols))).1 whole,
      )
      refl

-- A result set that `parse` can read is one that `try_encode` can write.
cells_small : (row : List Cell) → All CellFits row → All SmallCell row
cells_small [] h = tt
cells_small (none ∷ row) h = (tt, cells_small row h.1)
cells_small (some content ∷ row) h = (omega arith, cells_small row h.1)

rows_small :
    (cols : ℕ) (rows : List (List Cell)) → All (RowFits cols) rows → All (All SmallCell) rows
rows_small cols [] h = tt
rows_small cols (row ∷ rows) h = (cells_small row h.0.1, rows_small cols rows h.1)

names_short : (cols : List ColumnMetadata) → All ColumnFits cols → All ShortName cols
names_short [] h = tt
names_short (col ∷ cols) h = (h.0.0, names_short cols h.1)

Decodable-Encodable : (b : RowBuffer) → Decodable b → Encodable b
Decodable-Encodable b h = record {
  few_columns = omega (arith, h.few_columns);
  few_rows = omega (arith, h.few_rows);
  names = names_short b.columns h.column_fits;
  cells = rows_small (column_count b) b.rows h.row_fits;
  payload = omega (arith, h.payload);
}

parse-message : (b : RowBuffer) → Decodable b → parse (message b) ≡ ok (decoded b)
parse-message b h = rw (message-header b) (
    parse-header _ (
      omega (
        arith,
        length-le_bytes-append 2 (column_count b) (
            le_bytes 4 (row_count b) ++ (le_bytes 4 (length (payload_bytes b)) ++ payload_bytes b)),
        length-le_bytes-append 4 (row_count b)
            (le_bytes 4 (length (payload_bytes b)) ++ payload_bytes b),
        length-le_bytes-append 4 (length (payload_bytes b)) (payload_bytes b),
      ))
    ∙ parse_body-header b h)

-- `try_encode` succeeds on a result set within the limits of the decoder, with all rows as wide as
-- the columns, and `parse` reads back from its bytes the same columns, cells and counts.
pub parse-try_encode :
    (b : RowBuffer)
    → Decodable b
    → (bytes : Bytes) × (try_encode b ≡ ok bytes) × (parse bytes ≡ ok (decoded b))
parse-try_encode b h =
    (message b, try_encode-message b (Decodable-Encodable b h), parse-message b h)
