-- ===== src/Protocol/Encoder/Sizes.antt =====
-- The size that the header declares is the size of what follows it.
use dart_odbc_fast.Prelude.{
  ℕ, ◌+◌, ◌^◌, ◌<◌, List, [], ◌∷◌, ◌++◌, length, ok, none, some, ◌≡◌, refl, ap, arith, All,
  length-append, String, append_assoc,
}
use dart_odbc_fast.Wire.{Bytes, le_bytes, checked_add}
use dart_odbc_fast.Wire.Laws.{length-le_bytes-append}
use dart_odbc_fast.Protocol.Types.{discriminant}
use dart_odbc_fast.Protocol.RowBuffer.{ColumnMetadata, Cell, RowBuffer, row_count, column_count}
use dart_odbc_fast.Protocol.Encoder.{
  magic, version, checked_u16_len, checked_u32_len, checked_payload_add, metadata_loop, add_cell,
  add_row_size, payload_loop, write_columns, write_cell, write_row, write_rows, try_encode,
}

-- The bytes of each part, where every length fits its field.
unfoldable pub column_bytes : ColumnMetadata → Bytes
column_bytes col =
    le_bytes 2 (discriminant col.odbc_type) ++ (le_bytes 2 (length col.name) ++ col.name)

unfoldable pub columns_bytes : List ColumnMetadata → Bytes
columns_bytes [] = []
columns_bytes (col ∷ columns) = column_bytes col ++ columns_bytes columns

unfoldable pub cell_bytes : Cell → Bytes
cell_bytes none = 1 ∷ []
cell_bytes (some content) = 0 ∷ (le_bytes 4 (length content) ++ content)

unfoldable pub row_bytes : List Cell → Bytes
row_bytes [] = []
row_bytes (cell ∷ row) = cell_bytes cell ++ row_bytes row

unfoldable pub rows_bytes : List (List Cell) → Bytes
rows_bytes [] = []
rows_bytes (row ∷ rows) = row_bytes row ++ rows_bytes rows

unfoldable pub payload_bytes : RowBuffer → Bytes
payload_bytes b = columns_bytes b.columns ++ rows_bytes b.rows

-- A whole message.
unfoldable pub message : RowBuffer → Bytes
message b =
    le_bytes 4 magic
    ++ (le_bytes 2 version
        ++ (le_bytes 2 (column_count b)
            ++ (le_bytes 4 (row_count b)
                ++ (le_bytes 4 (length (payload_bytes b)) ++ payload_bytes b))))

abbrev pub ShortName : ColumnMetadata → Type 0
ShortName col = length col.name < 2 ^ 16

abbrev pub SmallCell : Cell → Type 0
SmallCell none = Unit
SmallCell (some content) = length content < 2 ^ 32

u16_lem : (n : ℕ) (f : String) → n < 2 ^ 16 → checked_u16_len n f ≡ ok n
unfolding checked_u16_len
u16_lem n f h = ground arith

u32_lem : (n : ℕ) (f : String) → n < 2 ^ 32 → checked_u32_len n f ≡ ok n
unfolding checked_u32_len
u32_lem n f h = ground arith

add_lem : (n k : ℕ) (f : String) → n + k < 2 ^ 64 → checked_payload_add n k f ≡ ok (n + k)
unfolding checked_payload_add checked_add
add_lem n k f h = ground arith

length-column_bytes : (col : ColumnMetadata) → length (column_bytes col) ≡ 4 + length col.name
unfolding column_bytes
length-column_bytes col = omega (
  arith,
  length-le_bytes-append 2 (discriminant col.odbc_type) (le_bytes 2 (length col.name) ++ col.name),
  length-le_bytes-append 2 (length col.name) col.name,
)

metadata_loop_lem :
    (size end : ℕ) (cols : List ColumnMetadata)
    → All ShortName cols
    → size + length (columns_bytes cols) ≡ end
    → end < 2 ^ 64
    → metadata_loop size cols ≡ ok end
unfolding metadata_loop columns_bytes
metadata_loop_lem size end [] h e small = ap ok (omega arith)
metadata_loop_lem size end (col ∷ cols) h e small =
    let split = length-append (column_bytes col) (columns_bytes cols) in
    let wide = length-column_bytes col in
    rw
      (
        u16_lem (length col.name) "column name length" h.0,
        add_lem size 2 "column type" (omega arith),
        add_lem (size + 2) 2 "column name length" (omega arith),
        add_lem (size + 2 + 2) (length col.name) "column name" (omega arith),
      )
      (metadata_loop_lem (size + 2 + 2 + length col.name) end cols h.1 (omega arith) small)

add_cell_lem :
    (size end : ℕ) (cell : Cell)
    → SmallCell cell
    → size + length (cell_bytes cell) ≡ end
    → end < 2 ^ 64
    → add_cell size cell ≡ ok end
unfolding add_cell cell_bytes
add_cell_lem size end none h e small =
    let e' : size + 1 ≡ end = omega arith in
    rw (← e') (add_lem size 1 "cell null flag" (omega arith))
add_cell_lem size end (some content) h e small =
    let wide = length-le_bytes-append 4 (length content) content in
    let e' : size + 1 + 4 + length content ≡ end = omega arith in
    rw
      (
        add_lem size 1 "cell null flag" (omega arith),
        u32_lem (length content) "cell data length" h,
        add_lem (size + 1) 4 "cell data length" (omega arith),
        ← e',
      )
      (add_lem (size + 1 + 4) (length content) "cell data" (omega arith))

add_row_size_lem :
    (size end : ℕ) (row : List Cell)
    → All SmallCell row
    → size + length (row_bytes row) ≡ end
    → end < 2 ^ 64
    → add_row_size size row ≡ ok end
unfolding add_row_size row_bytes
add_row_size_lem size end [] h e small = ap ok (omega arith)
add_row_size_lem size end (cell ∷ row) h e small =
    let split = length-append (cell_bytes cell) (row_bytes row) in
    let mid = size + length (cell_bytes cell) in
    rw (add_cell_lem size mid cell h.0 refl (omega arith))
      (add_row_size_lem mid end row h.1 (omega arith) small)

payload_loop_lem :
    (size end : ℕ) (rows : List (List Cell))
    → All (All SmallCell) rows
    → size + length (rows_bytes rows) ≡ end
    → end < 2 ^ 64
    → payload_loop size rows ≡ ok end
unfolding payload_loop rows_bytes
payload_loop_lem size end [] h e small = ap ok (omega arith)
payload_loop_lem size end (row ∷ rows) h e small =
    let split = length-append (row_bytes row) (rows_bytes rows) in
    let mid = size + length (row_bytes row) in
    rw (add_row_size_lem size mid row h.0 refl (omega arith))
      (payload_loop_lem mid end rows h.1 (omega arith) small)

write_columns_lem :
    (cols : List ColumnMetadata) → All ShortName cols → write_columns cols ≡ ok (columns_bytes cols)
unfolding write_columns columns_bytes column_bytes
write_columns_lem [] h = refl
write_columns_lem (col ∷ cols) h =
    rw
      (
        u16_lem (length col.name) "column name length" h.0,
        write_columns_lem cols h.1,
        append_assoc (le_bytes 2 (discriminant col.odbc_type))
            (le_bytes 2 (length col.name) ++ col.name) (columns_bytes cols),
        append_assoc (le_bytes 2 (length col.name)) col.name (columns_bytes cols),
      )
      refl

write_row_lem : (row : List Cell) → All SmallCell row → write_row row ≡ ok (row_bytes row)
unfolding write_row write_cell row_bytes cell_bytes
write_row_lem [] h = refl
write_row_lem (none ∷ row) h = rw (write_row_lem row h.1) refl
write_row_lem (some content ∷ row) h =
    rw (u32_lem (length content) "cell data length" h.0, write_row_lem row h.1) refl

write_rows_lem :
    (rows : List (List Cell)) → All (All SmallCell) rows → write_rows rows ≡ ok (rows_bytes rows)
unfolding write_rows rows_bytes
write_rows_lem [] h = refl
write_rows_lem (row ∷ rows) h = rw (write_row_lem row h.0, write_rows_lem rows h.1) refl

-- Every length fits its field of the header or of a cell.
pub record Encodable (b : RowBuffer) : Type 0 where
  pub few_columns : column_count b < 2 ^ 16
  pub few_rows : row_count b < 2 ^ 32
  pub names : All ShortName b.columns
  pub cells : All (All SmallCell) b.rows
  pub payload : length (payload_bytes b) < 2 ^ 32

-- Where every length fits its field, `try_encode` succeeds and writes the header and the payload:
-- the two passes agree, so that the declared payload size is the number of bytes behind the header.
pub try_encode-message : (b : RowBuffer) → Encodable b → try_encode b ≡ ok (message b)
unfolding try_encode message payload_bytes
try_encode-message b h =
    let split = length-append (columns_bytes b.columns) (rows_bytes b.rows) in
    let size = length (columns_bytes b.columns ++ rows_bytes b.rows) in
    let small : size < 2 ^ 32 = h.payload in
    let mid = length (columns_bytes b.columns) in
    rw
      (
        u16_lem (column_count b) "column count" h.few_columns,
        u32_lem (row_count b) "row count" h.few_rows,
        metadata_loop_lem 0 mid b.columns h.names (omega arith) (omega arith),
        payload_loop_lem mid size b.rows h.cells (omega arith) (omega arith),
        u32_lem size "payload size" small,
        write_columns_lem b.columns h.names,
        write_rows_lem b.rows h.cells,
      )
      refl
