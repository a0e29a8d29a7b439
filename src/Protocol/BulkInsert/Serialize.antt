-- ===== src/Protocol/BulkInsert/Serialize.antt =====
-- `serialize_bulk_insert_payload` and the writers that it calls.
use dart_odbc_fast.Prelude.{
  ℕ, ◌-◌, ◌^◌, min, ltb, if◌then◌else◌, List, [], ◌∷◌, ◌++◌, length, take, replicate, ok, err,
  reject, ◌>>=◌, ◌>>◌, Option, none, some, String,
}
use dart_odbc_fast.Prelude.Int.{ℤ, to_bits}
use dart_odbc_fast.Wire.{Bytes, le_bytes}
use dart_odbc_fast.Wire.Repeat.{write_all}
use dart_odbc_fast.Error.{
  OdbcResult, invalid, num, str, format, resource_limit_reached, malformed_payload,
}
use dart_odbc_fast.Protocol.BulkInsert.{
  max_bulk_columns, max_bulk_rows, max_bulk_cell_len, i16_half, i32_half, i64_half, BulkColumnType,
  i32, i64, text, decimal, binary, timestamp, to_tag, BulkColumnSpec, BulkTimestamp, BulkColumnData,
  i32_data, i64_data, text_data, binary_data, timestamp_data, BulkInsertPayload,
}

unfoldable pub len_to_u32 : ℕ → String → OdbcResult ℕ
len_to_u32 n what =
    if ltb n (2 ^ 32)
    then ok n
    else err (
        malformed_payload (
          format "{what} length {n} does not fit in u32 (max {})"
            (str what ∷ num n ∷ num (2 ^ 32 - 1) ∷ [])))

abbrev pub bitmap_bytes : Option Bytes → Bytes
bitmap_bytes none = []
bitmap_bytes (some bm) = bm

unfoldable pub write_i32 : ℤ → Bytes
write_i32 v = le_bytes 4 (to_bits i32_half v)

unfoldable pub write_i64 : ℤ → Bytes
write_i64 v = le_bytes 8 (to_bits i64_half v)

-- A cell cut to `max_len` bytes, or filled up with zeros.
unfoldable pub write_padded : ℕ → Bytes → Bytes
write_padded max_len row =
    let len = min (length row) max_len in take len row ++ replicate (max_len - len) 0

unfoldable pub write_timestamp : BulkTimestamp → Bytes
write_timestamp t =
    le_bytes 2 (to_bits i16_half t.year)
    ++ (le_bytes 2 t.month
        ++ (le_bytes 2 t.day
            ++ (le_bytes 2 t.hour
                ++ (le_bytes 2 t.minute ++ (le_bytes 2 t.second ++ le_bytes 4 t.fraction)))))

unfoldable pub serialize_column_data : BulkColumnType → BulkColumnData → OdbcResult Bytes
serialize_column_data i32 (i32_data values bm) = ok (bitmap_bytes bm ++ write_all write_i32 values)
serialize_column_data i64 (i64_data values bm) = ok (bitmap_bytes bm ++ write_all write_i64 values)
serialize_column_data text (text_data rows max_len bm) =
    ok (bitmap_bytes bm ++ write_all (write_padded max_len) rows)
serialize_column_data decimal (text_data rows max_len bm) =
    ok (bitmap_bytes bm ++ write_all (write_padded max_len) rows)
serialize_column_data binary (binary_data rows max_len bm) =
    ok (bitmap_bytes bm ++ write_all (write_padded max_len) rows)
serialize_column_data timestamp (timestamp_data values bm) =
    ok (bitmap_bytes bm ++ write_all write_timestamp values)
serialize_column_data _ _ = err (invalid "Bulk column data does not match spec" [])

-- One round of the loop over the column specs.
unfoldable pub serialize_spec : BulkColumnSpec → OdbcResult Bytes
serialize_spec spec = do
  name_len ← len_to_u32 (length spec.name) "column name"
  reject (ltb max_bulk_cell_len spec.max_len) (
      resource_limit_reached (
        format "max_len {} exceeds MAX_BULK_CELL_LEN={MAX_BULK_CELL_LEN}"
          (num spec.max_len ∷ num max_bulk_cell_len ∷ [])))
  len ← len_to_u32 spec.max_len "max_len"
  ok (
      le_bytes 4 name_len
      ++ (spec.name ++ (to_tag spec.col_type ∷ (if spec.nullable then 1 else 0) ∷ le_bytes 4 len)))

unfoldable pub serialize_specs : List BulkColumnSpec → OdbcResult Bytes
serialize_specs [] = ok []
serialize_specs (spec ∷ specs) = do
  s ← serialize_spec spec
  out ← serialize_specs specs
  ok (s ++ out)

-- The loop over `columns.zip(column_data)`.
unfoldable pub serialize_columns : List BulkColumnSpec → List BulkColumnData → OdbcResult Bytes
serialize_columns (spec ∷ specs) (col ∷ cols) = do
  c ← serialize_column_data spec.col_type col
  out ← serialize_columns specs cols
  ok (c ++ out)
serialize_columns _ _ = ok []

unfoldable pub serialize_bulk_insert_payload : BulkInsertPayload → OdbcResult Bytes
serialize_bulk_insert_payload payload = do
  let ncols = length payload.columns
  reject (ltb max_bulk_columns ncols) (
      resource_limit_reached (
        format "column count {} exceeds MAX_BULK_COLUMNS={MAX_BULK_COLUMNS}"
          (num ncols ∷ num max_bulk_columns ∷ [])))
  reject (ltb max_bulk_rows payload.row_count) (
      resource_limit_reached (
        format "row count {} exceeds MAX_BULK_ROWS={MAX_BULK_ROWS}"
          (num payload.row_count ∷ num max_bulk_rows ∷ [])))
  table_len ← len_to_u32 (length payload.table) "table name"
  col_count ← len_to_u32 ncols "column count"
  specs ← serialize_specs payload.columns
  cols ← serialize_columns payload.columns payload.column_data
  ok (
      le_bytes 4 table_len
      ++ (payload.table
          ++ (le_bytes 4 col_count ++ (specs ++ (le_bytes 4 payload.row_count ++ cols)))))
