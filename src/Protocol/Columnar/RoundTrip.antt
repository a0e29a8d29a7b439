-- ===== src/Protocol/Columnar/RoundTrip.antt =====
-- What a reader finds in the message of a result set: its columns and, row for row, its cells.
use dart_odbc_fast.Prelude.{
  ℕ, suc, ◌^◌, ◌<◌, ◌==◌, Bool, true, false, if◌then◌else◌, List, [], ◌∷◌, ◌++◌, length, map, drop,
  ok, ◌≡◌, refl, ap, arith, All, append-nil, append_assoc, Result-cases, inl, inr, ==_self,
}
use dart_odbc_fast.Wire.{Bytes, le_bytes, get_le}
use dart_odbc_fast.Wire.Laws.{get_le-le_bytes}
use dart_odbc_fast.Wire.Repeat.{read_many}
use dart_odbc_fast.Protocol.RowBuffer
use dart_odbc_fast.Protocol.RowBuffer.{Cell, RowBuffer}
use dart_odbc_fast.Protocol.Columnar.{
  ColumnBlock, RowBufferV2, block, column_data, cell_at, add_column, set_row_count, new,
  add_columns, row_buffer_to_columnar,
}
use dart_odbc_fast.Protocol.Columnar.Cells.{CellBytes, seen, wire_cells-column_data}
use dart_odbc_fast.Protocol.Columnar.Blocks.{
  IsSmall, encode_column_block-inversion, read_column-block_bytes,
}
use dart_odbc_fast.Protocol.Columnar.Encode.{
  magic, version_v2, checked_u16, checked_u32, estimate_columns, encode_column_block, encode_blocks,
  encode, encode_for_bulk,
}
use dart_odbc_fast.Protocol.Columnar.Reader.{Column, read_column, read_message}
use dart_odbc_fast.Protocol.Compression.{Codecs}
use dart_odbc_fast.Protocol.Compression.Laws.{Lossless}

-- The blocks of the columns from the column `i` on.
unfoldable pub blocks : ℕ → List RowBuffer.ColumnMetadata → List (List Cell) → List ColumnBlock
blocks i [] rows = []
blocks i (c ∷ columns) rows =
    block (record { name = c.name; odbc_type = c.odbc_type }) (column_data c.odbc_type i rows)
    ∷ blocks (suc i) columns rows

add_columns-blocks :
    (i : ℕ) (columns : List RowBuffer.ColumnMetadata) (rows : List (List Cell)) (v2 : RowBufferV2)
    → add_columns i columns rows v2 ≡ record v2 { columns = v2.columns ++ blocks i columns rows }
unfolding add_columns blocks add_column
add_columns-blocks i [] rows v2 = rw append-nil refl
add_columns-blocks i (c ∷ columns) rows v2 =
    let b =
      block (record { name = c.name; odbc_type = c.odbc_type }) (column_data c.odbc_type i rows) in
    rw
      (
        add_columns-blocks (suc i) columns rows (record v2 { columns = v2.columns ++ (b ∷ []) }),
        append_assoc v2.columns (b ∷ []) (blocks (suc i) columns rows),
      )
      refl

length-blocks :
    (i : ℕ) (columns : List RowBuffer.ColumnMetadata) (rows : List (List Cell))
    → length (blocks i columns rows) ≡ length columns
unfolding blocks
length-blocks i [] rows = refl
length-blocks i (c ∷ columns) rows = ap suc (length-blocks (suc i) columns rows)

-- A result set by columns has one block for each column.
abbrev pub transposed : List RowBuffer.ColumnMetadata → List (List Cell) → RowBufferV2
transposed columns rows = record {
  columns = blocks 0 columns rows;
  row_count = length rows;
  flags = 0;
}

transposed_lem :
    (columns : List RowBuffer.ColumnMetadata) (rows : List (List Cell))
    → (let v2 = set_row_count new (length rows) in
        if length columns == 0 then v2 else add_columns 0 columns rows v2)
      ≡ transposed columns rows
unfolding set_row_count blocks
transposed_lem [] rows = refl
transposed_lem (c ∷ columns) rows =
    let some_columns : (suc (length columns) == 0) ≡ false = ground arith in
    rw some_columns (add_columns-blocks 0 (c ∷ columns) rows (set_row_count new (length rows)))

row_buffer_to_columnar-transposed :
    (b : RowBuffer) → row_buffer_to_columnar b ≡ transposed b.columns b.rows
unfolding row_buffer_to_columnar
row_buffer_to_columnar-transposed b = transposed_lem b.columns b.rows

-- The column `i` of the rows, with the cells as a reader sees them, and the columns after it.
unfoldable pub columns_seen : ℕ → List RowBuffer.ColumnMetadata → List (List Cell) → List Column
columns_seen i [] rows = []
columns_seen i (c ∷ columns) rows =
    record {
      name = c.name;
      odbc_type = c.odbc_type;
      cells = map (λ row. seen c.odbc_type (cell_at row i)) rows;
    }
    ∷ columns_seen (suc i) columns rows

read_columns-encode_blocks :
    (codecs : Codecs)
    → Lossless codecs
    → (i : ℕ) (columns : List RowBuffer.ColumnMetadata) (rows : List (List Cell)) (u : Bool)
    → All (All CellBytes) rows
    → All IsSmall (blocks i columns rows)
    → (out : Bytes) → encode_blocks codecs (blocks i columns rows) u ≡ ok out
    → read_many (read_column codecs (length rows)) (length columns) out
      ≡ ok (columns_seen i columns rows, [])
unfolding encode_blocks blocks columns_seen read_many
read_columns-encode_blocks codecs L i [] rows u bytes small out h =
    let e : [] ≡ out = ground arith in rw (← e) refl
read_columns-encode_blocks codecs L i (c ∷ columns) rows u bytes small out h =
    let b =
      block (record { name = c.name; odbc_type = c.odbc_type }) (column_data c.odbc_type i rows) in
    elim (Result-cases (encode_column_block codecs b u)) [
      | inl (first, e) ↦
          elim (Result-cases (encode_blocks codecs (blocks (suc i) columns rows) u)) [
            | inl (rest, e') ↦
                let whole : first ++ rest ≡ out = ground arith in
                let (short, (raw, r, fits, parts)) =
                  encode_column_block-inversion codecs b u first e in
                let one =
                  read_column-block_bytes codecs L c.name c.odbc_type i rows u raw rest short r fits
                    (small.0 raw r) in
                let more =
                  read_columns-encode_blocks codecs L (suc i) columns rows u bytes small.1 rest
                    e' in
                rw (← whole, ← parts, one, more, wire_cells-column_data c.odbc_type i rows bytes)
                  refl
            | inr (x, e') ↦ absurd (ground arith)
          ]
      | inr (x, e) ↦ absurd (ground arith)
    ]

-- The message of a result set with the payload `payload`.
abbrev message : ℕ → ℕ → Bool → Bytes → Bytes
message columns rows u payload =
    le_bytes 4 magic
    ++ (le_bytes 2 version_v2
        ++ (le_bytes 2 0
            ++ (le_bytes 2 columns
                ++ (le_bytes 4 rows
                    ++ ((if u then 1 else 0) ∷ (le_bytes 4 (length payload) ++ payload))))))

encode-inversion :
    (codecs : Codecs) (columns : List ColumnBlock) (rows : ℕ) (u : Bool) (out : Bytes)
    → encode codecs (record { columns = columns; row_count = rows; flags = 0 }) u ≡ ok out
    → (length columns < 2 ^ 16)
      × (rows < 2 ^ 32)
      × ((payload : Bytes) × (encode_blocks codecs columns u ≡ ok payload)
          × (length payload < 2 ^ 32)
          × (message (length columns) rows u payload ≡ out))
unfolding encode checked_u16 checked_u32
encode-inversion codecs columns rows u out h = elim (Result-cases (estimate_columns 19 columns)) [
  | inl (n, e) ↦ elim (Result-cases (encode_blocks codecs columns u)) [
    | inl (payload, e') ↦ (ground arith, ground arith, (payload, e', ground arith, ground arith))
    | inr (x, e') ↦ absurd (ground arith)
  ]
  | inr (x, e) ↦ absurd (ground arith)
]

read_message-message :
    (codecs : Codecs) (columns rows : ℕ) (u : Bool) (payload : Bytes) (seen_columns : List Column)
    → columns < 2 ^ 16
    → rows < 2 ^ 32
    → length payload < 2 ^ 32
    → read_many (read_column codecs rows) columns payload ≡ ok (seen_columns, [])
    → read_message codecs (message columns rows u payload) ≡ ok seen_columns
unfolding read_message le_bytes
read_message-message codecs columns rows u payload seen_columns hc hr hp h =
    let flag : ℕ = if u then 1 else 0 in
    let size = le_bytes 4 (length payload) ++ payload in
    let from_rows = le_bytes 4 rows ++ (flag ∷ size) in
    let c : get_le 2 (drop 8 (message columns rows u payload)) ≡ columns =
      get_le-le_bytes 2 columns from_rows hc in
    let r : get_le 4 (drop 10 (message columns rows u payload)) ≡ rows =
      get_le-le_bytes 4 rows (flag ∷ size) hr in
    let p : get_le 4 (drop 15 (message columns rows u payload)) ≡ length payload =
      get_le-le_bytes 4 (length payload) payload hp in
    let m : get_le 4 (message columns rows u payload) ≡ magic =
      get_le-le_bytes 4 magic (drop 4 (message columns rows u payload)) (omega arith) in
    let v : get_le 2 (drop 4 (message columns rows u payload)) ≡ version_v2 =
      get_le-le_bytes 2 version_v2 (drop 6 (message columns rows u payload)) (omega arith) in
    rw (c, r, p, m, v, ==_self (length payload), h) refl

-- What `encode_for_bulk` has written is read back: every column with its name and its type, and in
-- every row the cell that the row has there, compressed or not; a cell that the row lacks, or an integer
-- of another width than its type has, reads as NULL. The cells are bytes, the raw data of a column are
-- within what a reader decompresses, and the two crates decode what they have encoded.
pub read_message-encode_for_bulk :
    (codecs : Codecs)
    → Lossless codecs
    → (buffer : RowBuffer) → All (All CellBytes) buffer.rows
    → All IsSmall (row_buffer_to_columnar buffer).columns
    → (out : Bytes) → encode_for_bulk codecs buffer ≡ ok out
    → read_message codecs out ≡ ok (columns_seen 0 buffer.columns buffer.rows)
unfolding encode_for_bulk
read_message-encode_for_bulk codecs L buffer bytes small out h =
    let same = row_buffer_to_columnar-transposed buffer in
    let h' : encode codecs (transposed buffer.columns buffer.rows) true ≡ ok out = rw same at h in
    let small' : All IsSmall (blocks 0 buffer.columns buffer.rows) = rw same at small in
    let (few, fits, (payload, e, size, parts)) =
      encode-inversion codecs (blocks 0 buffer.columns buffer.rows) (length buffer.rows) true out
        h' in
    let count = length-blocks 0 buffer.columns buffer.rows in
    let few' : length buffer.columns < 2 ^ 16 = rw count at few in
    let columns =
      read_columns-encode_blocks codecs L 0 buffer.columns buffer.rows true bytes small' payload
        e in
    rw (← parts, count)
      (read_message-message codecs (length buffer.columns) (length buffer.rows) true payload
        (columns_seen 0 buffer.columns buffer.rows) few' fits size columns)
