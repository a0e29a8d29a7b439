-- ===== src/Engine/SqlserverJson/Tests.antt =====
-- A `FOR JSON` result in three rows, one of them NULL, and the theorems there.
use dart_odbc_fast.Prelude.{[], ◌∷◌, none, some, ◌≡◌, refl, ◌⊎◌}
use dart_odbc_fast.Wire.{ascii}
use dart_odbc_fast.Protocol.Types.{json, n_varchar}
use dart_odbc_fast.Protocol.RowBuffer.{ColumnMetadata, RowBuffer, Cell}
use dart_odbc_fast.Engine.Capabilities.{same_text}
use dart_odbc_fast.Engine.SqlserverJson.{
  sqlserver_for_json_column_name, eq_ignore_ascii_case, is_for_json_result, merge_rows,
  coalesce_for_json_rows,
}
use dart_odbc_fast.Engine.SqlserverJson.Laws.{IsForJson, Joins, coalesce_for_json_rows_lem}

abbrev two_chunks : RowBuffer
two_chunks = record {
  columns = record { name = sqlserver_for_json_column_name; odbc_type = n_varchar } ∷ [];
  rows = (some (ascii "[1,") ∷ []) ∷ (none ∷ []) ∷ (some (ascii "2]") ∷ []) ∷ [];
}

coalesce_two_chunks : (coalesce_for_json_rows two_chunks).rows ≡ (some (ascii "[1,2]") ∷ []) ∷ []
unfolding coalesce_for_json_rows is_for_json_result eq_ignore_ascii_case same_text merge_rows
coalesce_two_chunks = refl

coalesce_for_json_rows_lem_example :
    ((¬ IsForJson two_chunks) × (coalesce_for_json_rows two_chunks ≡ two_chunks))
    ⊎ (IsForJson two_chunks
        × (two_chunks.rows ≡ [])
        × (coalesce_for_json_rows two_chunks ≡ two_chunks))
    ⊎ (IsForJson two_chunks
        × (¬ two_chunks.rows ≡ [])
        × ((c : ColumnMetadata) × (cell : Cell) × (two_chunks.columns ≡ c ∷ [])
            × Joins two_chunks.rows cell
            × (coalesce_for_json_rows two_chunks ≡ record {
              columns = record { name = c.name; odbc_type = json } ∷ [];
              rows = (cell ∷ []) ∷ [];
            })))
coalesce_for_json_rows_lem_example = coalesce_for_json_rows_lem two_chunks
