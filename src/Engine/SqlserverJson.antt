-- ===== src/Engine/SqlserverJson.antt =====
-- engine/sqlserver_json.rs: the rows of a SQL Server `FOR JSON` result, joined into one.
pub mod Laws
mod Tests
use dart_odbc_fast.Prelude.{
  ℕ, Bool, true, false, ◌&&◌, ◌==◌, if◌then◌else◌, List, [], ◌∷◌, ◌++◌, map, Option, none, some,
}
use dart_odbc_fast.Wire.{Bytes, ascii}
use dart_odbc_fast.Protocol.Types.{json}
use dart_odbc_fast.Protocol.RowBuffer.{ColumnMetadata, RowBuffer, Cell, column_count}
use dart_odbc_fast.Engine.Capabilities.{lower_byte, same_text}

abbrev pub sqlserver_for_json_column_name : Bytes
sqlserver_for_json_column_name = ascii "JSON_F52E2B61-18A1-11D1-B105-00805F49916B"

-- `s.eq_ignore_ascii_case(t)`
unfoldable pub eq_ignore_ascii_case : Bytes → Bytes → Bool
eq_ignore_ascii_case s t = same_text (map lower_byte s) (map lower_byte t)

abbrev pub first_is_json : List ColumnMetadata → Bool
first_is_json [] = false
first_is_json (c ∷ columns) = eq_ignore_ascii_case c.name sqlserver_for_json_column_name

unfoldable pub is_for_json_result : RowBuffer → Bool
is_for_json_result buffer = column_count buffer == 1 && first_is_json buffer.columns

-- `row.first()`, where it is a value.
abbrev pub first_chunk : List Cell → Option Bytes
first_chunk [] = none
first_chunk (cell ∷ row) = cell

-- The loop over the rows: the merged cell, none as long as every chunk is NULL.
unfoldable pub merge_rows : List (List Cell) → Option Bytes
merge_rows [] = none
merge_rows (row ∷ rows) =
    let rest = merge_rows rows in
    elim (first_chunk row) [
      | none ↦ rest
      | some chunk ↦ elim rest [ none ↦ some chunk | some more ↦ some (chunk ++ more) ]
    ]

abbrev pub force_json : List ColumnMetadata → List ColumnMetadata
force_json [] = []
force_json (c ∷ columns) = record c { odbc_type = json } ∷ columns

abbrev pub merged : RowBuffer → List (List Cell) → RowBuffer
merged buffer [] = buffer
merged buffer (row ∷ rows) = record {
  columns = force_json buffer.columns;
  rows = (merge_rows (row ∷ rows) ∷ []) ∷ [];
}

unfoldable pub coalesce_for_json_rows : RowBuffer → RowBuffer
coalesce_for_json_rows buffer =
    if is_for_json_result buffer then merged buffer buffer.rows else buffer
