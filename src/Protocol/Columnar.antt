-- ===== src/Protocol/Columnar.antt =====
-- protocol/columnar.rs and protocol/converter.rs: a result set by columns, and the transposition of a
-- result set by rows.
pub mod Encode
pub mod Reader
pub mod Cells
pub mod Blocks
pub mod RoundTrip
pub mod Capacity
mod Tests
use dart_odbc_fast.Prelude.{
  ℕ, zero, suc, ◌-◌, ◌*◌, ◌^◌, ◌==◌, if◌then◌else◌, List, [], ◌∷◌, ◌++◌, length, map, Option, none,
  some, Bool, false,
}
use dart_odbc_fast.Prelude.Int.{ℤ, from_bits}
use dart_odbc_fast.Wire.{Bytes, from_le}
use dart_odbc_fast.Protocol.Types.{OdbcType}
use dart_odbc_fast.Protocol.RowBuffer
use dart_odbc_fast.Protocol.RowBuffer.{Cell, RowBuffer}

pub record ColumnMetadata : Type 0 where
  pub name : Bytes
  pub odbc_type : OdbcType

-- The cells of a column; an `i32` and an `i64` are signed integers.
pub data ColumnData : Type 0 where
  varchar : List (Option Bytes) → ColumnData
  integer : List (Option ℤ) → ColumnData
  big_int : List (Option ℤ) → ColumnData
  binary : List (Option Bytes) → ColumnData

-- `None` is `uncompressed`.
pub data CompressionType : Type 0 where
  uncompressed zstd lz4 : CompressionType

-- `compression_type as u8`
abbrev pub code : CompressionType → ℕ
code uncompressed = 0
code zstd = 1
code lz4 = 2

unfoldable pub from_u8 : ℕ → CompressionType
from_u8 value = if value == 1 then zstd else if value == 2 then lz4 else uncompressed

pub record ColumnBlock : Type 0 where
  pub metadata : ColumnMetadata
  pub content : ColumnData
  pub compressed : Bool
  pub compression_type : CompressionType

pub record RowBufferV2 : Type 0 where
  pub columns : List ColumnBlock
  pub row_count : ℕ
  pub flags : ℕ

abbrev pub new : RowBufferV2
new = record { columns = []; row_count = 0; flags = 0 }

abbrev pub block : ColumnMetadata → ColumnData → ColumnBlock
block metadata content = record {
  metadata = metadata;
  content = content;
  compressed = false;
  compression_type = uncompressed;
}

unfoldable pub add_column : RowBufferV2 → ColumnMetadata → ColumnData → RowBufferV2
add_column b metadata content = record b { columns = b.columns ++ (block metadata content ∷ []) }

abbrev pub column_count : RowBufferV2 → ℕ
column_count b = length b.columns

unfoldable pub set_row_count : RowBufferV2 → ℕ → RowBufferV2
set_row_count b count = record b { row_count = count }

-- `row.get(col_idx)`, without the difference between a NULL and a row that is too short.
unfoldable pub cell_at : List Cell → ℕ → Cell
cell_at [] col_idx = none
cell_at (cell ∷ row) zero = cell
cell_at (cell ∷ row) (suc col_idx) = cell_at row col_idx

-- `iN::from_le_bytes(bytes)` of `w` bytes, where the cell has that many.
unfoldable pub read_signed : ℕ → Cell → Option ℤ
read_signed w none = none
read_signed w (some bytes) =
    if length bytes == w then some (from_bits (2 ^ (8 * w - 1)) (from_le bytes)) else none

unfoldable pub column_data : OdbcType → ℕ → List (List Cell) → ColumnData
column_data OdbcType.integer col_idx rows =
    integer (map (λ row. read_signed 4 (cell_at row col_idx)) rows)
column_data OdbcType.big_int col_idx rows =
    big_int (map (λ row. read_signed 8 (cell_at row col_idx)) rows)
column_data _ col_idx rows = varchar (map (λ row. cell_at row col_idx) rows)

-- The loop over the columns, from the column `col_idx` on.
unfoldable pub add_columns :
    ℕ → List RowBuffer.ColumnMetadata → List (List Cell) → RowBufferV2 → RowBufferV2
add_columns col_idx [] rows v2 = v2
add_columns col_idx (col_meta ∷ columns) rows v2 = add_columns (suc col_idx) columns rows (
    add_column v2 (record { name = col_meta.name; odbc_type = col_meta.odbc_type })
      (column_data col_meta.odbc_type col_idx rows))

unfoldable pub row_buffer_to_columnar : RowBuffer → RowBufferV2
row_buffer_to_columnar buffer =
    let v2 = set_row_count new (RowBuffer.row_count buffer) in
    if RowBuffer.column_count buffer == 0 then v2 else add_columns 0 buffer.columns buffer.rows v2
