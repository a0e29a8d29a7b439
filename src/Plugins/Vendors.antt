-- ===== src/Plugins/Vendors.antt =====
-- plugins/postgres.rs, sqlite.rs, mysql.rs, mariadb.rs, sqlserver.rs, oracle.rs, db2.rs and
-- snowflake.rs: the UPSERT statement of each vendor.
use dart_odbc_fast.Prelude.{
  ◌==◌, if◌then◌else◌, List, [], ◌++◌, length, Option, ok, err, ◌>>=◌, ◌>>◌,
}
use dart_odbc_fast.Wire.{Bytes, ascii}
use dart_odbc_fast.Error.{OdbcResult, invalid, unsupported_feature, format}
use dart_odbc_fast.Engine.Identifier.{
  IdentifierQuoting, double_quote, brackets, backtick, quote_identifier, quote_qualified_default,
  validate_identifier, split,
}
use dart_odbc_fast.Plugins.Upsert.{
  join_with, traverse, collect, quote_columns, effective_update_columns, validate_upsert_inputs,
  placeholder_list,
}

-- The closures of the builders: a quoted name behind a text, and a name quoted twice between texts.
unfoldable pub prefixed : IdentifierQuoting → Bytes → Bytes → OdbcResult Bytes
prefixed style before c = do q ← quote_identifier c style; ok (before ++ q)

unfoldable pub paired : IdentifierQuoting → Bytes → Bytes → Bytes → Bytes → OdbcResult Bytes
paired style before between after c = do
  q ← quote_identifier c style
  ok (before ++ (q ++ (between ++ (q ++ after))))

-- PostgreSQL and SQLite differ in the spelling of `EXCLUDED`.
unfoldable pub on_conflict :
    Bytes → Bytes → List Bytes → List Bytes → Option (List Bytes) → OdbcResult Bytes
on_conflict excluded table columns conflict update = do
  validate_upsert_inputs table columns conflict update
  qtable ← quote_qualified_default table
  qcols ← quote_columns columns
  qconflict ← quote_columns conflict
  let updates = effective_update_columns columns conflict update
  let head =
      ascii "INSERT INTO "
      ++ (qtable
          ++ (ascii " ("
              ++ (qcols
                  ++ (ascii ") VALUES ("
                      ++ (placeholder_list (length columns)
                          ++ (ascii ") ON CONFLICT (" ++ qconflict))))))
  if length updates == 0 then ok (head ++ ascii ") DO NOTHING") else do
    set_clause ← collect (paired double_quote [] excluded []) (ascii ", ") updates
    ok (head ++ (ascii ") DO UPDATE SET " ++ set_clause))

unfoldable pub postgres_upsert :
    Bytes → List Bytes → List Bytes → Option (List Bytes) → OdbcResult Bytes
postgres_upsert = on_conflict (ascii " = EXCLUDED.")

unfoldable pub sqlite_upsert :
    Bytes → List Bytes → List Bytes → Option (List Bytes) → OdbcResult Bytes
sqlite_upsert = on_conflict (ascii " = excluded.")

-- What MySQL and MariaDB write once the assignments are known.
abbrev pub duplicate_key : Bytes → Bytes → List Bytes → Bytes → Bytes
duplicate_key qtable qcols columns set_clause =
    ascii "INSERT INTO "
    ++ (qtable
        ++ (ascii " ("
            ++ (qcols
                ++ (ascii ") VALUES ("
                    ++ (placeholder_list (length columns)
                        ++ (ascii ") ON DUPLICATE KEY UPDATE " ++ set_clause))))))

unfoldable pub mysql_upsert :
    Bytes → List Bytes → List Bytes → Option (List Bytes) → OdbcResult Bytes
mysql_upsert table columns conflict update = do
  validate_upsert_inputs table columns conflict update
  qtable ← quote_qualified_default table
  qcols ← quote_columns columns
  let updates = effective_update_columns columns conflict update
  if length updates == 0
      then err (invalid "MySQL ON DUPLICATE KEY UPDATE requires at least one column to update" [])
      else do
        set_clause ←
            collect (paired backtick [] (ascii " = VALUES(") (ascii ")")) (ascii ", ") updates
        ok (duplicate_key qtable qcols columns set_clause)

unfoldable pub mariadb_upsert :
    Bytes → List Bytes → List Bytes → Option (List Bytes) → OdbcResult Bytes
mariadb_upsert table columns conflict update = do
  validate_upsert_inputs table columns conflict update
  qtable ← quote_qualified_default table
  qcols ← quote_columns columns
  set_parts ←
      traverse (paired backtick [] (ascii " = VALUES(") (ascii ")"))
        (effective_update_columns columns conflict update)
  ok (
      duplicate_key qtable qcols columns
        (if length set_parts == 0 then ascii "id = id" else join_with (ascii ", ") set_parts))

-- The clause `WHEN MATCHED` of a MERGE, left out if nothing is to be updated.
unfoldable pub when_matched : (Bytes → OdbcResult Bytes) → List Bytes → OdbcResult Bytes
when_matched assign updates = if length updates == 0 then ok [] else do
  set ← collect assign (ascii ", ") updates
  ok (ascii " WHEN MATCHED THEN UPDATE SET " ++ set)

-- A MERGE, from the texts around its table, its source and its condition.
abbrev pub merge : Bytes → Bytes → Bytes → Bytes → Bytes → Bytes → Bytes → Bytes → Bytes
merge qtable using source on on_clause matched insert_cols insert_vals =
    ascii "MERGE INTO "
    ++ (qtable
        ++ (using
            ++ (source
                ++ (on
                    ++ (on_clause
                        ++ (matched
                            ++ (ascii " WHEN NOT MATCHED THEN INSERT ("
                                ++ (insert_cols ++ (ascii ") VALUES (" ++ insert_vals)))))))))

-- `quote_cols_brackets` and `quote_table_brackets`; the segments of the table are validated before
-- they are quoted, which validates them too.
abbrev pub quote_table_brackets : Bytes → OdbcResult Bytes
quote_table_brackets table =
    collect (λ seg. validate_identifier seg >> quote_identifier seg brackets) (ascii ".")
      (split b'.' table)

unfoldable pub sqlserver_upsert :
    Bytes → List Bytes → List Bytes → Option (List Bytes) → OdbcResult Bytes
sqlserver_upsert table columns conflict update = do
  validate_upsert_inputs table columns conflict update
  qtable ← quote_table_brackets table
  qcols ← collect (prefixed brackets []) (ascii ", ") columns
  alias_list ← collect (prefixed brackets (ascii "? AS ")) (ascii ", ") columns
  on_clause ← collect (paired brackets (ascii "t.") (ascii " = s.") []) (ascii " AND ") conflict
  matched ←
      when_matched (paired brackets (ascii "t.") (ascii " = s.") [])
        (effective_update_columns columns conflict update)
  insert_vals ← collect (prefixed brackets (ascii "s.")) (ascii ", ") columns
  ok (
      merge qtable (ascii " AS t USING (SELECT ") alias_list (ascii ") AS s ON ") on_clause matched
        qcols (insert_vals ++ ascii ");"))

unfoldable pub oracle_upsert :
    Bytes → List Bytes → List Bytes → Option (List Bytes) → OdbcResult Bytes
oracle_upsert table columns conflict update = do
  validate_upsert_inputs table columns conflict update
  qtable ← quote_qualified_default table
  source ← collect (prefixed double_quote (ascii "? ")) (ascii ", ") columns
  on_clause ← collect (paired double_quote (ascii "t.") (ascii " = s.") []) (ascii " AND ") conflict
  matched ←
      when_matched (paired double_quote (ascii "t.") (ascii " = s.") [])
        (effective_update_columns columns conflict update)
  insert_cols ← collect (prefixed double_quote []) (ascii ", ") columns
  insert_vals ← collect (prefixed double_quote (ascii "s.")) (ascii ", ") columns
  ok (
      merge qtable (ascii " t USING (SELECT ") source (ascii " FROM dual) s ON (")
        (on_clause ++ ascii ")") matched insert_cols (insert_vals ++ ascii ")"))

unfoldable pub db2_upsert : Bytes → List Bytes → List Bytes → Option (List Bytes) → OdbcResult Bytes
db2_upsert table columns conflict update = do
  validate_upsert_inputs table columns conflict update
  qtable ← quote_qualified_default table
  alias_cols ← collect (prefixed double_quote []) (ascii ", ") columns
  on_clause ← collect (paired double_quote (ascii "t.") (ascii " = s.") []) (ascii " AND ") conflict
  matched ←
      when_matched (paired double_quote [] (ascii " = s.") [])
        (effective_update_columns columns conflict update)
  insert_vals ← collect (prefixed double_quote (ascii "s.")) (ascii ", ") columns
  ok (
      merge qtable (ascii " t USING (VALUES (")
        (placeholder_list (length columns) ++ (ascii ")) AS s(" ++ alias_cols)) (ascii ") ON ")
        on_clause matched alias_cols (insert_vals ++ ascii ")"))

unfoldable pub snowflake_upsert :
    Bytes → List Bytes → List Bytes → Option (List Bytes) → OdbcResult Bytes
snowflake_upsert table columns conflict update = do
  validate_upsert_inputs table columns conflict update
  qtable ← quote_qualified_default table
  source ← collect (prefixed double_quote (ascii "? AS ")) (ascii ", ") columns
  on_clause ← collect (paired double_quote (ascii "t.") (ascii " = s.") []) (ascii " AND ") conflict
  matched ←
      when_matched (paired double_quote (ascii "t.") (ascii " = s.") [])
        (effective_update_columns columns conflict update)
  insert_cols ← collect (prefixed double_quote []) (ascii ", ") columns
  insert_vals ← collect (prefixed double_quote (ascii "s.")) (ascii ", ") columns
  ok (
      merge qtable (ascii " t USING (SELECT ") source (ascii ") s ON ") on_clause matched
        insert_cols (insert_vals ++ ascii ")"))

-- The plugins as the trait `Upsertable` has them. Sybase's generic plugin builds nothing.
pub data Vendor : Type 0 where
  postgres sqlite mysql mariadb sqlserver oracle db2 snowflake sybase : Vendor

unfoldable pub build_upsert_sql :
    Vendor → Bytes → List Bytes → List Bytes → Option (List Bytes) → OdbcResult Bytes
unfolding postgres_upsert sqlite_upsert
build_upsert_sql postgres = postgres_upsert
build_upsert_sql sqlite = sqlite_upsert
build_upsert_sql mysql = mysql_upsert
build_upsert_sql mariadb = mariadb_upsert
build_upsert_sql sqlserver = sqlserver_upsert
build_upsert_sql oracle = oracle_upsert
build_upsert_sql db2 = db2_upsert
build_upsert_sql snowflake = snowflake_upsert
build_upsert_sql sybase = λ table columns conflict update. err (
    unsupported_feature (
      format
        "Generic Sybase plugin does not implement UPSERT; use SybaseAsaPlugin (MERGE-capable) when targeting SQL Anywhere"
        []))
