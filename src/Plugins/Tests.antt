-- ===== src/Plugins/Tests.antt =====
-- Statements of the plugins, and the theorem on them.
use dart_odbc_fast.Prelude.{List, [], ◌∷◌, length, none, ok, err, ◌≡◌, refl, ◌⊎◌}
use dart_odbc_fast.Wire.{Bytes, ascii}
use dart_odbc_fast.Error.{OdbcError}
use dart_odbc_fast.Engine.Capabilities.{same_text, trim_start, trim_end}
use dart_odbc_fast.Engine.Identifier.{
  wrap, check_others, validate_identifier, quote_identifier, quote_identifier_default, split, join,
  quote_parts, quote_qualified_default,
}
use dart_odbc_fast.Plugins.Upsert.{
  join_with, traverse, collect, quote_columns, has_column, non_conflict, effective_update_columns,
  validate_all, check_conflicts, validate_upsert_inputs, placeholder_list,
}
use dart_odbc_fast.Plugins.Vendors.{
  paired, on_conflict, mysql_upsert, postgres, mysql, build_upsert_sql,
}
use dart_odbc_fast.Plugins.Parts.{Yields}
use dart_odbc_fast.Plugins.Inputs.{IsUpsert}
use dart_odbc_fast.Plugins.Contract.{Serves, updates, build_upsert_sql_lem}

abbrev columns : List Bytes
columns = ascii "id" ∷ ascii "a" ∷ []

abbrev key : List Bytes
key = ascii "id" ∷ []

postgres_statement :
    build_upsert_sql postgres (ascii "s.t") columns key none
    ≡ ok (
        ascii
          "INSERT INTO \"s\".\"t\" (\"id\", \"a\") VALUES (?, ?) ON CONFLICT (\"id\") DO UPDATE SET \"a\" = EXCLUDED.\"a\"")
unfolding build_upsert_sql on_conflict paired join_with traverse collect quote_columns has_column
    non_conflict effective_update_columns validate_all check_conflicts validate_upsert_inputs
    placeholder_list wrap check_others validate_identifier quote_identifier quote_identifier_default
    split join quote_parts quote_qualified_default same_text trim_start trim_end
postgres_statement = refl

-- The table and the columns are delimited by double quotes, the assignments by backticks.
mysql_statement :
    build_upsert_sql mysql (ascii "t") columns key none
    ≡ ok (
        ascii
          "INSERT INTO \"t\" (\"id\", \"a\") VALUES (?, ?) ON DUPLICATE KEY UPDATE `a` = VALUES(`a`)")
unfolding build_upsert_sql mysql_upsert paired join_with traverse collect quote_columns has_column
    non_conflict effective_update_columns validate_all check_conflicts validate_upsert_inputs
    placeholder_list wrap check_others validate_identifier quote_identifier quote_identifier_default
    split join quote_parts quote_qualified_default same_text trim_start trim_end
mysql_statement = refl

build_upsert_sql_lem_example :
    (IsUpsert (ascii "t") columns key none
      × Serves mysql (updates (ascii "t") columns key none)
      × Yields (length columns) (build_upsert_sql mysql (ascii "t") columns key none))
    ⊎ (((e : OdbcError) × (build_upsert_sql mysql (ascii "t") columns key none ≡ err e))
        × (¬ (
            IsUpsert (ascii "t") columns key none
            × Serves mysql (updates (ascii "t") columns key none))))
build_upsert_sql_lem_example = build_upsert_sql_lem (ascii "t") columns key none mysql
