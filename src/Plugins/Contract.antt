-- ===== src/Plugins/Contract.antt =====
-- The contract of the trait `Upsertable`, for every plugin.
use dart_odbc_fast.Prelude.{
  ◌≤◌, true, ◌==◌, List, length, Option, err, ◌≡◌, refl, ◌⊎◌, inl, inr, arith, Bool-cases,
  Result-cases, [],
}
use dart_odbc_fast.Wire.{Bytes, ascii}
use dart_odbc_fast.Error.{OdbcError, invalid}
use dart_odbc_fast.Plugins.Upsert.{effective_update_columns, validate_upsert_inputs}
use dart_odbc_fast.Plugins.Vendors.{
  Vendor, postgres, sqlite, mysql, mariadb, sqlserver, oracle, db2, snowflake, sybase,
  build_upsert_sql, on_conflict, mysql_upsert, mariadb_upsert, sqlserver_upsert, oracle_upsert,
  db2_upsert, snowflake_upsert,
}
use dart_odbc_fast.Plugins.Parts.{Yields, quote_columns-Yields, quote_qualified_default-Yields}
use dart_odbc_fast.Plugins.Inputs.{IsUpsert, validate_upsert_inputs_iff}
use dart_odbc_fast.Plugins.Placeholders.{
  on_conflict-Yields, mysql-Yields, mariadb-Yields, sqlserver-Yields, oracle-Yields, db2-Yields,
  snowflake-Yields,
}

-- What a plugin asks for beside a valid request: MySQL's has a column to update; Sybase's generic
-- plugin serves none.
abbrev pub Serves : Vendor → List Bytes → Type 0
Serves mysql updates = 1 ≤ length updates
Serves sybase updates = ⊥
Serves vendor updates = Unit

module _ (table : Bytes) (columns conflict : List Bytes) (update : Option (List Bytes)) where
  abbrev pub updates : List Bytes
  updates = effective_update_columns columns conflict update

  rejected :
      (vendor : Vendor) (e : OdbcError)
      → validate_upsert_inputs table columns conflict update ≡ err e
      → (e' : OdbcError) × (build_upsert_sql vendor table columns conflict update ≡ err e')
  unfolding build_upsert_sql on_conflict mysql_upsert mariadb_upsert sqlserver_upsert oracle_upsert
      db2_upsert snowflake_upsert
  rejected postgres e h = (e, rw h refl)
  rejected sqlite e h = (e, rw h refl)
  rejected mysql e h = (e, rw h refl)
  rejected mariadb e h = (e, rw h refl)
  rejected sqlserver e h = (e, rw h refl)
  rejected oracle e h = (e, rw h refl)
  rejected db2 e h = (e, rw h refl)
  rejected snowflake e h = (e, rw h refl)
  rejected sybase e h = (_, refl)

  module _ (valid : IsUpsert table columns conflict update) where
    nothing_to_update :
        (length updates == 0) ≡ true
        → (e : OdbcError) × (mysql_upsert table columns conflict update ≡ err e)
    unfolding mysql_upsert
    nothing_to_update none_left =
        let accepted = (validate_upsert_inputs_iff table columns conflict update).1 valid in
        let (t, et, ct) = quote_qualified_default-Yields table valid.segments in
        let (c, ec, cc') = quote_columns-Yields columns valid.some_column valid.columns_fine in
        (
          invalid "MySQL ON DUPLICATE KEY UPDATE requires at least one column to update" [],
          rw (accepted, et, ec, none_left) refl,
        )

    served :
        (vendor : Vendor)
        → (Serves vendor updates
            × Yields (length columns) (build_upsert_sql vendor table columns conflict update))
          ⊎ ((¬ Serves vendor updates)
              × ((e : OdbcError) × (build_upsert_sql vendor table columns conflict update ≡ err e)))
    unfolding build_upsert_sql
    served postgres =
        inl (tt, on_conflict-Yields table columns conflict update valid (ascii " = EXCLUDED.") refl)
    served sqlite =
        inl (tt, on_conflict-Yields table columns conflict update valid (ascii " = excluded.") refl)
    served mysql = elim (Bool-cases (length updates == 0)) [
      | inl none_left ↦ inr ((λ some_left. ground arith), nothing_to_update none_left)
      | inr some_left ↦
          let long : 1 ≤ length updates = ground arith in
          inl (long, mysql-Yields table columns conflict update valid long)
    ]
    served mariadb = inl (tt, mariadb-Yields table columns conflict update valid)
    served sqlserver = inl (tt, sqlserver-Yields table columns conflict update valid)
    served oracle = inl (tt, oracle-Yields table columns conflict update valid)
    served db2 = inl (tt, db2-Yields table columns conflict update valid)
    served snowflake = inl (tt, snowflake-Yields table columns conflict update valid)
    served sybase = inr ((λ s. s), (_, refl))

  -- Every plugin's `build_upsert_sql` either succeeds, and then the request is valid (a table name
  -- with every segment an identifier, at least one column and one conflict column, all of them and
  -- all columns to update identifiers, each conflict column among the columns), the plugin serves it,
  -- and the statement has exactly one placeholder for each column; or it returns an error, and then
  -- the request is not valid or the plugin does not serve it.
  pub build_upsert_sql_lem :
      (vendor : Vendor)
      → (IsUpsert table columns conflict update
          × Serves vendor updates
          × Yields (length columns) (build_upsert_sql vendor table columns conflict update))
        ⊎ (((e : OdbcError) × (build_upsert_sql vendor table columns conflict update ≡ err e))
            × (¬ (IsUpsert table columns conflict update × Serves vendor updates)))
  build_upsert_sql_lem vendor =
      elim (Result-cases (validate_upsert_inputs table columns conflict update)) [
        | inl (u, fine) ↦
            let valid = (validate_upsert_inputs_iff table columns conflict update).0 fine in
            elim (served valid vendor) [
              | inl (serves, yields) ↦ inl (valid, serves, yields)
              | inr (refuses, failed) ↦ inr (failed, λ both. refuses both.1)
            ]
        | inr (e, bad) ↦ inr (
          rejected vendor e bad,
          λ both.
              let fine = (validate_upsert_inputs_iff table columns conflict update).1 both.0 in
              cc (fine, bad),
        )
      ]
