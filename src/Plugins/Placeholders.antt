-- ===== src/Plugins/Placeholders.antt =====
-- Each vendor's builder against the contract of the trait `Upsertable`.
use dart_odbc_fast.Prelude.{
  ℕ, ◌+◌, ◌≤◌, false, ◌==◌, if◌then◌else◌, List, [], length, Option, ok, ◌≡◌, refl, ◌∙◌, inl, inr,
  arith, Bool-cases, All,
}
use dart_odbc_fast.Wire.{Bytes, ascii}
use dart_odbc_fast.Engine.Identifier.{IdentifierQuoting, double_quote, brackets, backtick}
use dart_odbc_fast.Engine.Identifier.Laws.{IsIdentifier}
use dart_odbc_fast.Plugins.Upsert.{
  collect, join_with, effective_update_columns, validate_upsert_inputs,
}
use dart_odbc_fast.Plugins.Vendors.{
  prefixed, paired, on_conflict, duplicate_key, mysql_upsert, mariadb_upsert, sqlserver_upsert,
  oracle_upsert, db2_upsert, snowflake_upsert,
}
use dart_odbc_fast.Plugins.Parts.{
  placeholders, placeholders-append, Yields, prefixed-Part, paired-Part, total, total-zero,
  total-one, traverse-Part, collect-Part, quote_columns-Yields, quote_qualified_default-Yields,
  quote_table_brackets-Yields, placeholder_list_lem, when_matched-Yields, effective-All,
  join_with_lem,
}
use dart_odbc_fast.Plugins.Inputs.{IsUpsert, validate_upsert_inputs_iff}

plain_total :
    (excluded : Bytes)
    → placeholders excluded ≡ 0
    → (n : ℕ) → total (0 + placeholders excluded + 0) n ≡ 0
plain_total excluded plain n =
    let none : 0 + placeholders excluded + 0 ≡ 0 = omega arith in rw none (total-zero n)

module _ (table : Bytes) (columns conflict : List Bytes) (update : Option (List Bytes))
    (valid : IsUpsert table columns conflict update) where
  abbrev updates : List Bytes
  updates = effective_update_columns columns conflict update

  accepted : validate_upsert_inputs table columns conflict update ≡ ok tt
  accepted = (validate_upsert_inputs_iff table columns conflict update).1 valid

  updates_fine : All IsIdentifier updates
  updates_fine = effective-All columns conflict update valid.columns_fine valid.update_fine

  pub on_conflict-Yields :
      (excluded : Bytes)
      → placeholders excluded ≡ 0
      → Yields (length columns) (on_conflict excluded table columns conflict update)
  unfolding on_conflict
  on_conflict-Yields excluded plain =
      let (t, et, ct) = quote_qualified_default-Yields table valid.segments in
      let (c, ec, cc') = quote_columns-Yields columns valid.some_column valid.columns_fine in
      let (k, ek, ck) = quote_columns-Yields conflict valid.some_conflict valid.conflict_fine in
      let (u, eu, cu) =
        collect-Part _ _ (ascii ", ") updates (paired-Part double_quote [] excluded []) refl
          updates_fine in
      elim (Bool-cases (length updates == 0)) [
        | inl none_left ↦
            rw (on_conflict, accepted, et, ec, ek, none_left)
              (
                _,
                refl,
                simp (placeholders-append, placeholder_list_lem) (omega (arith, ct, cc', ck)),
              )
        | inr some_left ↦
            rw (on_conflict, accepted, et, ec, ek, some_left, eu)
              (
                _,
                refl,
                simp (placeholders-append, placeholder_list_lem)
                    (omega (arith, ct, cc', ck, cu, plain_total excluded plain (length updates))),
              )
      ]

  pub mysql-Yields :
      1 ≤ length updates → Yields (length columns) (mysql_upsert table columns conflict update)
  unfolding mysql_upsert
  mysql-Yields some_update =
      let (t, et, ct) = quote_qualified_default-Yields table valid.segments in
      let (c, ec, cc') = quote_columns-Yields columns valid.some_column valid.columns_fine in
      let (u, eu, cu) =
        collect-Part _ _ (ascii ", ") updates
          (paired-Part backtick [] (ascii " = VALUES(") (ascii ")")) refl updates_fine in
      let some_left : (length updates == 0) ≡ false = ground arith in
      rw (mysql_upsert, accepted, et, ec, some_left, eu)
        (
          _,
          refl,
          simp (placeholders-append, placeholder_list_lem)
              (omega (arith, ct, cc', cu, total-zero (length updates))),
        )

  pub mariadb-Yields : Yields (length columns) (mariadb_upsert table columns conflict update)
  unfolding mariadb_upsert
  mariadb-Yields =
      let (t, et, ct) = quote_qualified_default-Yields table valid.segments in
      let (c, ec, cc') = quote_columns-Yields columns valid.some_column valid.columns_fine in
      let (parts, eu, long, cu) =
        traverse-Part _ _ updates (paired-Part backtick [] (ascii " = VALUES(") (ascii ")"))
          updates_fine in
      let assigned = if length parts == 0 then ascii "id = id" else join_with (ascii ", ") parts in
      let plain : placeholders assigned ≡ 0 = elim (Bool-cases (length parts == 0)) [
        | inl e ↦ rw e refl
        | inr e ↦ rw e (join_with_lem (ascii ", ") parts refl ∙ cu ∙ total-zero (length updates))
      ] in
      rw (mariadb_upsert, accepted, et, ec, eu)
        (
          duplicate_key t c columns assigned,
          refl,
          simp (placeholders-append, placeholder_list_lem) (omega (arith, ct, cc', plain)),
        )

  -- The parts of a MERGE.
  conditions_lem :
      (style : IdentifierQuoting)
      → Yields 0 (collect (paired style (ascii "t.") (ascii " = s.") []) (ascii " AND ") conflict)
  conditions_lem style =
      let (s, e, c) =
        collect-Part 0 _ (ascii " AND ") conflict
          (paired-Part style (ascii "t.") (ascii " = s.") []) refl valid.conflict_fine in
      (s, e, c ∙ total-zero (length conflict))

  plain_columns_lem :
      (style : IdentifierQuoting) (before : Bytes)
      → placeholders before ≡ 0
      → Yields 0 (collect (prefixed style before) (ascii ", ") columns)
  plain_columns_lem style before plain =
      let (s, e, c) =
        collect-Part _ _ (ascii ", ") columns (prefixed-Part style before) refl
          valid.columns_fine in
      (s, e, rw plain at c ∙ total-zero (length columns))

  source_lem :
      (style : IdentifierQuoting) (before : Bytes)
      → placeholders before ≡ 1
      → Yields (length columns) (collect (prefixed style before) (ascii ", ") columns)
  source_lem style before one =
      let (s, e, c) =
        collect-Part _ _ (ascii ", ") columns (prefixed-Part style before) refl
          valid.columns_fine in
      (s, e, rw one at c ∙ total-one (length columns))

  pub sqlserver-Yields : Yields (length columns) (sqlserver_upsert table columns conflict update)
  unfolding sqlserver_upsert
  sqlserver-Yields =
      let (t, et, ct) = quote_table_brackets-Yields table valid.segments in
      let (c, ec, cc') = plain_columns_lem brackets [] refl in
      let (s, es, cs) = source_lem brackets (ascii "? AS ") refl in
      let (o, eo, co) = conditions_lem brackets in
      let (m, em, cm) =
        when_matched-Yields _ updates (paired-Part brackets (ascii "t.") (ascii " = s.") [])
          updates_fine in
      let (v, ev, cv) = plain_columns_lem brackets (ascii "s.") refl in
      rw (sqlserver_upsert, accepted, et, ec, es, eo, em, ev)
        (_, refl, simp placeholders-append (omega (arith, ct, cc', cs, co, cm, cv)))

  pub oracle-Yields : Yields (length columns) (oracle_upsert table columns conflict update)
  unfolding oracle_upsert
  oracle-Yields =
      let (t, et, ct) = quote_qualified_default-Yields table valid.segments in
      let (s, es, cs) = source_lem double_quote (ascii "? ") refl in
      let (o, eo, co) = conditions_lem double_quote in
      let (m, em, cm) =
        when_matched-Yields _ updates (paired-Part double_quote (ascii "t.") (ascii " = s.") [])
          updates_fine in
      let (c, ec, cc') = plain_columns_lem double_quote [] refl in
      let (v, ev, cv) = plain_columns_lem double_quote (ascii "s.") refl in
      rw (oracle_upsert, accepted, et, es, eo, em, ec, ev)
        (_, refl, simp placeholders-append (omega (arith, ct, cc', cs, co, cm, cv)))

  pub db2-Yields : Yields (length columns) (db2_upsert table columns conflict update)
  unfolding db2_upsert
  db2-Yields =
      let (t, et, ct) = quote_qualified_default-Yields table valid.segments in
      let (c, ec, cc') = plain_columns_lem double_quote [] refl in
      let (o, eo, co) = conditions_lem double_quote in
      let (m, em, cm) =
        when_matched-Yields _ updates (paired-Part double_quote [] (ascii " = s.") [])
          updates_fine in
      let (v, ev, cv) = plain_columns_lem double_quote (ascii "s.") refl in
      rw (db2_upsert, accepted, et, ec, eo, em, ev)
        (
          _,
          refl,
          simp (placeholders-append, placeholder_list_lem) (omega (arith, ct, cc', co, cm, cv)),
        )

  pub snowflake-Yields : Yields (length columns) (snowflake_upsert table columns conflict update)
  unfolding snowflake_upsert
  snowflake-Yields =
      let (t, et, ct) = quote_qualified_default-Yields table valid.segments in
      let (s, es, cs) = source_lem double_quote (ascii "? AS ") refl in
      let (o, eo, co) = conditions_lem double_quote in
      let (m, em, cm) =
        when_matched-Yields _ updates (paired-Part double_quote (ascii "t.") (ascii " = s.") [])
          updates_fine in
      let (c, ec, cc') = plain_columns_lem double_quote [] refl in
      let (v, ev, cv) = plain_columns_lem double_quote (ascii "s.") refl in
      rw (snowflake_upsert, accepted, et, es, eo, em, ec, ev)
        (_, refl, simp placeholders-append (omega (arith, ct, cc', cs, co, cm, cv)))
