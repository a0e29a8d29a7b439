-- ===== src/Engine/Transaction/Savepoints.antt =====
-- The statements that the savepoint operations send.
use dart_odbc_fast.Prelude.{
  [], ◌∷◌, ◌++◌, Option, none, some, ok, err, ◌≡◌, refl, ◌⊎◌, inl, inr, append-nil,
}
use dart_odbc_fast.Wire.{Bytes, ascii}
use dart_odbc_fast.Error.{OdbcError, OdbcResult}
use dart_odbc_fast.Engine.Identifier.{wrap, validate_identifier, quote_identifier}
use dart_odbc_fast.Engine.Identifier.Laws.{
  IsIdentifier, IsIdentifier-All, read_delimited, read_delimited-wrap, quote_identifier_cases,
  validate_identifier_iff,
}
use dart_odbc_fast.Engine.Transaction.{
  SavepointDialect, auto, sql92, sql_server, quoting_for, savepoint_create_sql,
  savepoint_rollback_to_sql, savepoint_release_sql,
}
use dart_odbc_fast.Engine.Transaction.Connection.{execute, Log, Driver, Handles, update}
use dart_odbc_fast.Engine.Transaction.Begin.{Transaction}
use dart_odbc_fast.Engine.Transaction.Lifecycle.{
  execute_sql, savepoint_create, savepoint_rollback_to, savepoint_release,
}
use dart_odbc_fast.Engine.Transaction.Ends.{get_connection-live}

abbrev pub create_keyword : SavepointDialect → Bytes
create_keyword sql_server = ascii "SAVE TRANSACTION "
create_keyword _ = ascii "SAVEPOINT "

abbrev pub rollback_keyword : SavepointDialect → Bytes
rollback_keyword sql_server = ascii "ROLLBACK TRANSACTION "
rollback_keyword _ = ascii "ROLLBACK TO SAVEPOINT "

abbrev pub release_of : SavepointDialect → Bytes → Option Bytes
release_of sql_server q = none
release_of _ q = some (ascii "RELEASE SAVEPOINT " ++ q)

-- The outcome of an operation that sends the statement, or none.
abbrev pub Sends :
    Driver → Transaction → Handles → Log → OdbcResult (Unit {0}) × Handles → Option Bytes → Type 0
Sends driver t handles log outcome none = outcome ≡ (ok tt, handles)
Sends driver t handles log outcome (some sql) =
    outcome ≡ (driver.answer log (execute sql), update handles t.conn_id (execute sql ∷ log))

execute_sql_live :
    (driver : Driver) (t : Transaction) (handles : Handles) (log : Log) (sql : Bytes)
    → handles t.conn_id ≡ some log
    → Sends driver t handles log (execute_sql driver t sql handles) (some sql)
unfolding execute_sql
execute_sql_live driver t handles log sql live =
    rw (execute_sql, get_connection-live handles t.conn_id log live) refl

-- The statements of a valid name, by dialect.
valid_sql :
    (dialect : SavepointDialect) (name : Bytes)
    → validate_identifier name ≡ ok tt
    → (savepoint_create_sql dialect name
        ≡ ok (some (create_keyword dialect ++ wrap (quoting_for dialect) name)))
      × (savepoint_rollback_to_sql dialect name
          ≡ ok (some (rollback_keyword dialect ++ wrap (quoting_for dialect) name)))
      × (savepoint_release_sql dialect name
          ≡ ok (release_of dialect (wrap (quoting_for dialect) name)))
unfolding savepoint_create_sql savepoint_rollback_to_sql savepoint_release_sql quote_identifier
valid_sql auto name v = (rw v refl, rw v refl, rw v refl)
valid_sql sql92 name v = (rw v refl, rw v refl, rw v refl)
valid_sql sql_server name v = (rw v refl, rw v refl, rw v refl)

invalid_sql :
    (dialect : SavepointDialect) (name : Bytes) (e : OdbcError)
    → validate_identifier name ≡ err e
    → (savepoint_create_sql dialect name ≡ err e)
      × (savepoint_rollback_to_sql dialect name ≡ err e)
      × (savepoint_release_sql dialect name ≡ err e)
unfolding savepoint_create_sql savepoint_rollback_to_sql savepoint_release_sql
invalid_sql dialect name e v = (rw v refl, rw v refl, rw v refl)

release_lem :
    (driver : Driver) (t : Transaction) (name q : Bytes) (handles : Handles) (log : Log)
    (dialect : SavepointDialect)
    → handles t.conn_id ≡ some log
    → savepoint_release_sql t.savepoint_dialect name ≡ ok (release_of dialect q)
    → Sends driver t handles log (savepoint_release driver t name handles) (release_of dialect q)
unfolding savepoint_release
release_lem driver t name q handles log sql_server live e = rw (savepoint_release, e) refl
release_lem driver t name q handles log auto live e =
    rw (savepoint_release, e) (execute_sql_live driver t handles log _ live)
release_lem driver t name q handles log sql92 live e =
    rw (savepoint_release, e) (execute_sql_live driver t handles log _ live)

-- On a live connection, each savepoint operation with a name that is an identifier sends one
-- statement, its keyword in the dialect of the transaction and then the quoted name, which SQL reads
-- as one identifier with exactly that name to the end of the statement; only the release on SQL
-- Server sends none. With any other name all three fail and send nothing.
pub savepoint_safe :
    (driver : Driver) (t : Transaction) (name : Bytes) (handles : Handles) (log : Log)
    → handles t.conn_id ≡ some log
    → (IsIdentifier name
        × (q : Bytes) × (read_delimited (quoting_for t.savepoint_dialect) q ≡ some (name, []))
        × Sends driver t handles log
            (savepoint_create driver t name handles)
            (some (create_keyword t.savepoint_dialect ++ q))
        × Sends driver t handles log
            (savepoint_rollback_to driver t name handles)
            (some (rollback_keyword t.savepoint_dialect ++ q))
        × Sends driver t handles log
            (savepoint_release driver t name handles)
            (release_of t.savepoint_dialect q))
      ⊎ ((¬ IsIdentifier name)
          × (e : OdbcError) × (savepoint_create driver t name handles ≡ (err e, handles))
          × (savepoint_rollback_to driver t name handles ≡ (err e, handles))
          × (savepoint_release driver t name handles ≡ (err e, handles)))
unfolding savepoint_create savepoint_rollback_to savepoint_release
savepoint_safe driver t name handles log live =
    let style = quoting_for t.savepoint_dialect in
    elim (quote_identifier_cases name style) [
      | inl (v, q) ↦
          let fine = (validate_identifier_iff name).0 v in
          let sqls = valid_sql t.savepoint_dialect name v in
          let reads : read_delimited style (wrap style name) ≡ some (name, []) =
            rw append-nil at (read_delimited-wrap style name [] (IsIdentifier-All name fine) tt) in
          inl (
            fine,
            wrap style name,
            reads,
            rw sqls.0 (execute_sql_live driver t handles log _ live),
            rw sqls.1 (execute_sql_live driver t handles log _ live),
            release_lem driver t name (wrap style name) handles log t.savepoint_dialect live sqls.2,
          )
      | inr (e, v, q) ↦
          let sqls = invalid_sql t.savepoint_dialect name e v in
          inr (
            (λ fine. let good = (validate_identifier_iff name).1 fine in cc (good, v)),
            e,
            rw sqls.0 refl,
            rw sqls.1 refl,
            rw sqls.2 refl,
          )
    ]
