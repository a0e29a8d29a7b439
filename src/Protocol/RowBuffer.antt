-- ===== src/Protocol/RowBuffer.antt =====
-- protocol/row_buffer.rs: a result set in memory. A column name is a text, as a byte list.
use dart_odbc_fast.Prelude.{ℕ, List, [], ◌∷◌, ◌++◌, length, Option}
use dart_odbc_fast.Wire.{Bytes}
use dart_odbc_fast.Protocol.Types.{OdbcType}

pub record ColumnMetadata : Type 0 where
  pub name : Bytes
  pub odbc_type : OdbcType

abbrev pub Cell : Type 0
Cell = Option Bytes

pub record RowBuffer : Type 0 where
  pub columns : List ColumnMetadata
  pub rows : List (List Cell)

abbrev pub new : RowBuffer
new = record { columns = []; rows = [] }

unfoldable pub add_column : RowBuffer → Bytes → OdbcType → RowBuffer
add_column b n t = record b { columns = b.columns ++ (record { name = n; odbc_type = t } ∷ []) }

unfoldable pub add_row : RowBuffer → List Cell → RowBuffer
add_row b row = record b { rows = b.rows ++ (row ∷ []) }

abbrev pub row_count : RowBuffer → ℕ
row_count b = length b.rows

abbrev pub column_count : RowBuffer → ℕ
column_count b = length b.columns
