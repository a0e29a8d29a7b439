-- ===== src/Protocol/BulkInsert.antt =====
-- protocol/bulk_insert.rs: the data model of a bulk insert, column by column.
pub mod Bitmap
pub mod Parse
pub mod Serialize
pub mod RoundTrip
use dart_odbc_fast.Prelude.{ℕ, ◌*◌, ◌^◌, ◌==◌, if◌then◌else◌, List, [], ◌∷◌, Option, Bool, ok, err}
use dart_odbc_fast.Prelude.Int.{ℤ}
use dart_odbc_fast.Wire.{Bytes}
use dart_odbc_fast.Error.{OdbcResult, invalid, num}

abbrev pub max_bulk_columns : ℕ
max_bulk_columns = 4096

abbrev pub max_bulk_rows : ℕ
max_bulk_rows = 10_000_000

abbrev pub max_bulk_cell_len : ℕ
max_bulk_cell_len = 16 * 1024 * 1024

abbrev pub i16_half : ℕ
i16_half = 2 ^ 15

abbrev pub i32_half : ℕ
i32_half = 2 ^ 31

abbrev pub i64_half : ℕ
i64_half = 2 ^ 63

pub data BulkColumnType : Type 0 where
  i32 i64 text decimal binary timestamp : BulkColumnType

unfoldable pub from_tag : ℕ → OdbcResult BulkColumnType
from_tag tag =
    if tag == 0
    then ok i32
    else if tag == 1
    then ok i64
    else if tag == 2
    then ok text
    else if tag == 3
    then ok decimal
    else if tag == 4
    then ok binary
    else if tag == 5
    then ok timestamp
    else err (invalid "Unknown bulk column type tag: {}" (num tag ∷ []))

abbrev pub to_tag : BulkColumnType → ℕ
to_tag i32 = 0
to_tag i64 = 1
to_tag text = 2
to_tag decimal = 3
to_tag binary = 4
to_tag timestamp = 5

pub record BulkColumnSpec : Type 0 where
  pub name : Bytes
  pub col_type : BulkColumnType
  pub nullable : Bool
  pub max_len : ℕ

pub record BulkTimestamp : Type 0 where
  pub year : ℤ
  pub month : ℕ
  pub day : ℕ
  pub hour : ℕ
  pub minute : ℕ
  pub second : ℕ
  pub fraction : ℕ

-- The fields of each variant in the order of the source.
pub data BulkColumnData : Type 0 where
  i32_data : List ℤ → Option Bytes → BulkColumnData
  i64_data : List ℤ → Option Bytes → BulkColumnData
  text_data : List Bytes → ℕ → Option Bytes → BulkColumnData
  binary_data : List Bytes → ℕ → Option Bytes → BulkColumnData
  timestamp_data : List BulkTimestamp → Option Bytes → BulkColumnData

pub record BulkInsertPayload : Type 0 where
  pub table : Bytes
  pub columns : List BulkColumnSpec
  pub row_count : ℕ
  pub column_data : List BulkColumnData
