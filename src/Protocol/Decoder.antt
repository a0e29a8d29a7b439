-- ===== src/Protocol/Decoder.antt =====
-- protocol/decoder.rs: reading a row-major message.
pub mod Layout
pub mod Parts
pub mod RoundTrip
pub mod Shape
pub mod Sound
mod Tests
use dart_odbc_fast.Prelude.{
  ℕ, zero, suc, ◌+◌, ◌-◌, ◌*◌, ltb, ◌==◌, not, if◌then◌else◌, List, [], ◌∷◌, length, take, drop, ok,
  err, reject, ◌>>=◌, ◌>>◌, none, some,
}
use dart_odbc_fast.Wire.{Bytes, get_le, checked_add, checked_mul, ok_or}
use dart_odbc_fast.Wire.Utf8.{is_utf8}
use dart_odbc_fast.Error.{OdbcResult, invalid, num, text}
use dart_odbc_fast.Protocol.Types.{OdbcType, from_protocol_discriminant}
use dart_odbc_fast.Protocol.RowBuffer.{Cell}

abbrev pub magic : ℕ
magic = 0x4f444243

abbrev pub version : ℕ
version = 1

abbrev pub header_size : ℕ
header_size = 16

abbrev pub max_decoded_columns : ℕ
max_decoded_columns = 4096

abbrev pub max_decoded_rows : ℕ
max_decoded_rows = 1_000_000

abbrev pub max_decoded_cells : ℕ
max_decoded_cells = 5_000_000

abbrev pub max_decoded_payload_size : ℕ
max_decoded_payload_size = 256 * 1024 * 1024

abbrev pub max_decoded_cell_size : ℕ
max_decoded_cell_size = 64 * 1024 * 1024

pub record ColumnInfo : Type 0 where
  pub name : Bytes
  pub odbc_type : OdbcType

pub record DecodedResult : Type 0 where
  pub columns : List ColumnInfo
  pub rows : List (List Cell)
  pub row_count : ℕ
  pub column_count : ℕ

unfoldable pub validate_shape : ℕ → ℕ → ℕ → OdbcResult (Unit {0})
validate_shape cols nrows payload_size = do
  reject (ltb max_decoded_columns cols)
      (invalid "Column count {} exceeds limit {}" (num cols ∷ num max_decoded_columns ∷ []))
  reject (ltb max_decoded_rows nrows)
      (invalid "Row count {} exceeds limit {}" (num nrows ∷ num max_decoded_rows ∷ []))
  cell_count ← ok_or (checked_mul cols nrows) (invalid "Cell count overflow" [])
  reject (ltb max_decoded_cells cell_count)
      (invalid "Cell count {} exceeds limit {}" (num cell_count ∷ num max_decoded_cells ∷ []))
  reject (ltb max_decoded_payload_size payload_size) (
      invalid "Payload size {} exceeds limit {}"
        (num payload_size ∷ num max_decoded_payload_size ∷ []))

-- One round of the loop over the column metadata, with the cursor behind it. The position in a
-- UTF-8 error is not modelled: its message holds the bytes.
unfoldable pub parse_column : Bytes → OdbcResult (ColumnInfo × Bytes)
parse_column cursor = do
  reject (ltb (length cursor) 4) (invalid "Buffer too small for column metadata" [])
  let ty = from_protocol_discriminant (get_le 2 cursor)
  let name_len = get_le 2 (drop 2 cursor)
  let body = drop 4 cursor
  reject (ltb (length body) name_len) (invalid "Buffer too small for column name" [])
  let n = take name_len body
  reject (not (is_utf8 n)) (invalid "Invalid UTF-8 in column name: {}" (text n ∷ []))
  ok (record { name = n; odbc_type = ty }, drop name_len body)

unfoldable pub parse_columns : ℕ → Bytes → OdbcResult (List ColumnInfo × Bytes)
parse_columns zero cursor = ok ([], cursor)
parse_columns (suc count) cursor = do
  (col, after) ← parse_column cursor
  (cols, rest) ← parse_columns count after
  ok (col ∷ cols, rest)

-- The branch for a cell that is not NULL. `offset.checked_add(data_len)` never fails: a slice has at
-- most `isize::MAX` bytes, and `data_len` is at most 64 MiB there.
unfoldable pub parse_content : Bytes → OdbcResult (Cell × Bytes)
parse_content cursor = do
  reject (ltb (length cursor) 4) (invalid "Buffer too small for data length" [])
  let data_len = get_le 4 cursor
  reject (ltb max_decoded_cell_size data_len) (
      invalid "Cell data length {} exceeds limit {}"
        (num data_len ∷ num max_decoded_cell_size ∷ []))
  let body = drop 4 cursor
  reject (ltb (length body) data_len) (invalid "Buffer too small for cell data" [])
  ok (some (take data_len body), drop data_len body)

unfoldable pub parse_cell : Bytes → OdbcResult (Cell × Bytes)
unfolding parse_content
parse_cell [] = err (invalid "Buffer too small for row data" [])
parse_cell (is_null ∷ cursor) = if is_null == 1 then ok (none, cursor) else parse_content cursor

unfoldable pub parse_row : ℕ → Bytes → OdbcResult (List Cell × Bytes)
parse_row zero cursor = ok ([], cursor)
parse_row (suc count) cursor = do
  (cell, after) ← parse_cell cursor
  (row, rest) ← parse_row count after
  ok (cell ∷ row, rest)

unfoldable pub parse_rows : ℕ → ℕ → Bytes → OdbcResult (List (List Cell) × Bytes)
parse_rows cols zero cursor = ok ([], cursor)
parse_rows cols (suc count) cursor = do
  (row, after) ← parse_row cols cursor
  (rows, rest) ← parse_rows cols count after
  ok (row ∷ rows, rest)

-- `parse` behind the checks of the magic number and of the version.
unfoldable pub parse_body : Bytes → OdbcResult DecodedResult
parse_body buffer = do
  let cols = get_le 2 (drop 6 buffer)
  let nrows = get_le 4 (drop 8 buffer)
  let payload_size = get_le 4 (drop 12 buffer)
  validate_shape cols nrows payload_size
  (columns, after) ← parse_columns cols (drop 16 buffer)
  (rows, rest) ← parse_rows cols nrows after
  expected_len ← ok_or (checked_add header_size payload_size) (invalid "Payload size overflow" [])
  reject (not (expected_len == length buffer)) (
      invalid "Payload size mismatch: header declares {}, buffer has {} payload bytes"
        (num payload_size ∷ num (length buffer - header_size) ∷ []))
  reject (not (length rest == 0)) (invalid "Buffer has trailing bytes" [])
  ok (record { columns = columns; rows = rows; row_count = nrows; column_count = cols })

unfoldable pub parse : Bytes → OdbcResult DecodedResult
parse buffer = do
  reject (ltb (length buffer) header_size) (
      invalid "Buffer too small: need at least {} bytes, got {}"
        (num header_size ∷ num (length buffer) ∷ []))
  let m = get_le 4 buffer
  reject (not (m == magic))
      (invalid "Invalid magic number: expected 0x{:08X}, got 0x{:08X}" (num magic ∷ num m ∷ []))
  let v = get_le 2 (drop 4 buffer)
  reject (not (v == version))
      (invalid "Invalid version: expected {}, got {}" (num version ∷ num v ∷ []))
  parse_body buffer
