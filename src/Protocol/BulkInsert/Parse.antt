-- ===== src/Protocol/BulkInsert/Parse.antt =====
-- `parse_bulk_insert_payload` and the readers that it calls. The offset is the cursor.
use dart_odbc_fast.Prelude.{
  ℕ, max, ltb, ◌==◌, Bool, true, false, not, if◌then◌else◌, List, [], ◌∷◌, length, take, drop, ok,
  err, reject, ◌>>=◌, ◌>>◌, Option, none, some, String,
}
use dart_odbc_fast.Prelude.Int.{ℤ, from_bits}
use dart_odbc_fast.Wire.{Bytes, get_le}
use dart_odbc_fast.Wire.Utf8.{is_utf8}
use dart_odbc_fast.Wire.Repeat.{read_many}
use dart_odbc_fast.Error.{
  OdbcResult, invalid, num, format, resource_limit_reached, malformed_payload,
}
use dart_odbc_fast.Protocol.BulkInsert.{
  max_bulk_columns, max_bulk_rows, max_bulk_cell_len, i16_half, i32_half, i64_half, BulkColumnType,
  i32, i64, text, decimal, binary, timestamp, from_tag, BulkColumnSpec, BulkTimestamp,
  BulkColumnData, i32_data, i64_data, text_data, binary_data, timestamp_data, BulkInsertPayload,
}
use dart_odbc_fast.Protocol.BulkInsert.Bitmap.{null_bitmap_size}

unfoldable pub read_u32_le : Bytes → OdbcResult (ℕ × Bytes)
read_u32_le cursor = do
  reject (ltb (length cursor) 4) (invalid "Bulk insert payload truncated (u32)" [])
  ok (get_le 4 cursor, drop 4 cursor)

unfoldable pub read_bytes : ℕ → Bytes → OdbcResult (Bytes × Bytes)
read_bytes len cursor = do
  reject (ltb (length cursor) len) (invalid "Bulk insert payload truncated (bytes)" [])
  ok (take len cursor, drop len cursor)

-- `if data.len() <= o { return Err(…) }; data[o]; o += 1`
unfoldable pub read_u8 : String → Bytes → OdbcResult (ℕ × Bytes)
read_u8 message [] = err (invalid message [])
read_u8 message (b ∷ cursor) = ok (b, cursor)

unfoldable pub read_null_bitmap : Bool → ℕ → Bytes → OdbcResult (Option Bytes × Bytes)
read_null_bitmap false row_count cursor = ok (none, cursor)
read_null_bitmap true row_count cursor = do
  let expected = null_bitmap_size row_count
  (bytes, after) ← read_bytes expected cursor
  reject (not (length bytes == expected)) (
      malformed_payload (
        format "null bitmap length mismatch: expected {expected}, got {}"
          (num expected ∷ num (length bytes) ∷ [])))
  ok (some bytes, after)

unfoldable pub read_i32 : Bytes → OdbcResult (ℤ × Bytes)
read_i32 cursor = do (v, after) ← read_u32_le cursor; ok (from_bits i32_half v, after)

unfoldable pub read_i64 : Bytes → OdbcResult (ℤ × Bytes)
read_i64 cursor = do
  reject (ltb (length cursor) 8) (invalid "Bulk insert payload truncated (i64)" [])
  ok (from_bits i64_half (get_le 8 cursor), drop 8 cursor)

-- `v.truncate(v.iter().position(|&b| b == 0))`
unfoldable pub truncate_at_zero : Bytes → Bytes
truncate_at_zero [] = []
truncate_at_zero (b ∷ bs) = if b == 0 then [] else b ∷ truncate_at_zero bs

-- A cell of a text, decimal or binary column.
unfoldable pub read_padded : ℕ → Bytes → OdbcResult (Bytes × Bytes)
read_padded max_len cursor = do
  (raw, after) ← read_bytes max_len cursor
  ok (truncate_at_zero raw, after)

unfoldable pub read_timestamp : Bytes → OdbcResult (BulkTimestamp × Bytes)
read_timestamp cursor = do
  reject (ltb (length cursor) 16) (invalid "Bulk insert payload truncated (timestamp)" [])
  ok (
    record {
      year = from_bits i16_half (get_le 2 cursor);
      month = get_le 2 (drop 2 cursor);
      day = get_le 2 (drop 4 cursor);
      hour = get_le 2 (drop 6 cursor);
      minute = get_le 2 (drop 8 cursor);
      second = get_le 2 (drop 10 cursor);
      fraction = get_le 4 (drop 12 cursor);
    },
    drop 16 cursor,
  )

-- The values of a column behind its bitmap.
unfoldable pub parse_values :
    BulkColumnType → ℕ → ℕ → Option Bytes → Bytes → OdbcResult (BulkColumnData × Bytes)
parse_values i32 max_len row_count bitmap cursor = do
  (values, after) ← read_many read_i32 row_count cursor
  ok (i32_data values bitmap, after)
parse_values i64 max_len row_count bitmap cursor = do
  (values, after) ← read_many read_i64 row_count cursor
  ok (i64_data values bitmap, after)
parse_values text max_len row_count bitmap cursor = do
  (rows, after) ← read_many (read_padded (max max_len 1)) row_count cursor
  ok (text_data rows (max max_len 1) bitmap, after)
parse_values decimal max_len row_count bitmap cursor = do
  (rows, after) ← read_many (read_padded (max max_len 1)) row_count cursor
  ok (text_data rows (max max_len 1) bitmap, after)
parse_values binary max_len row_count bitmap cursor = do
  (rows, after) ← read_many (read_padded (max max_len 1)) row_count cursor
  ok (binary_data rows (max max_len 1) bitmap, after)
parse_values timestamp max_len row_count bitmap cursor = do
  (values, after) ← read_many read_timestamp row_count cursor
  ok (timestamp_data values bitmap, after)

unfoldable pub parse_column_data : BulkColumnSpec → ℕ → Bytes → OdbcResult (BulkColumnData × Bytes)
parse_column_data spec row_count cursor = do
  (bitmap, after) ← read_null_bitmap spec.nullable row_count cursor
  parse_values spec.col_type spec.max_len row_count bitmap after

-- One round of the loop over the column specs.
unfoldable pub parse_spec : Bytes → OdbcResult (BulkColumnSpec × Bytes)
parse_spec cursor = do
  (name_len, c1) ← read_u32_le cursor
  (name_bytes, c2) ← read_bytes name_len c1
  reject (not (is_utf8 name_bytes)) (invalid "Bulk insert column name invalid UTF-8" [])
  (type_tag, c3) ← read_u8 "Bulk insert payload truncated (column spec)" c2
  (flag, c4) ← read_u8 "Bulk insert payload truncated (nullable)" c3
  (len, c5) ← read_u32_le c4
  reject (ltb max_bulk_cell_len len) (
      resource_limit_reached (
        format "max_len {max_len} exceeds MAX_BULK_CELL_LEN={MAX_BULK_CELL_LEN}"
          (num len ∷ num max_bulk_cell_len ∷ [])))
  ty ← from_tag type_tag
  ok (record { name = name_bytes; col_type = ty; nullable = not (flag == 0); max_len = len }, c5)

unfoldable pub parse_columns :
    ℕ → List BulkColumnSpec → Bytes → OdbcResult (List BulkColumnData × Bytes)
parse_columns row_count [] cursor = ok ([], cursor)
parse_columns row_count (spec ∷ specs) cursor = do
  (col, after) ← parse_column_data spec row_count cursor
  (cols, rest) ← parse_columns row_count specs after
  ok (col ∷ cols, rest)

unfoldable pub parse_bulk_insert_payload : Bytes → OdbcResult BulkInsertPayload
parse_bulk_insert_payload buf = do
  (table_len, c1) ← read_u32_le buf
  (table_bytes, c2) ← read_bytes table_len c1
  reject (not (is_utf8 table_bytes)) (invalid "Bulk insert table name invalid UTF-8" [])
  (col_count, c3) ← read_u32_le c2
  reject (ltb max_bulk_columns col_count) (
      resource_limit_reached (
        format "column count {col_count} exceeds MAX_BULK_COLUMNS={MAX_BULK_COLUMNS}"
          (num col_count ∷ num max_bulk_columns ∷ [])))
  (columns, c4) ← read_many parse_spec col_count c3
  (row_count, c5) ← read_u32_le c4
  reject (ltb max_bulk_rows row_count) (
      resource_limit_reached (
        format "row count {row_count} exceeds MAX_BULK_ROWS={MAX_BULK_ROWS}"
          (num row_count ∷ num max_bulk_rows ∷ [])))
  (column_data, rest) ← parse_columns row_count columns c5
  reject (not (length rest == 0)) (invalid "Bulk insert payload length mismatch" [])
  ok (record {
    table = table_bytes;
    columns = columns;
    row_count = row_count;
    column_data = column_data;
  })
