-- ===== src/Engine/Transaction/Tests.antt =====
-- Runs of transactions against a driver that accepts every call, and the theorems there.
use dart_odbc_fast.Prelude.{
  true, false, List, [], ◌∷◌, ◌++◌, none, some, ok, err, ◌≡◌, refl, ◌⊎◌, inr,
}
use dart_odbc_fast.Wire.{Bytes, ascii}
use dart_odbc_fast.Wire.Print.{print_int}
use dart_odbc_fast.Error.{OdbcError}
use dart_odbc_fast.Engine.Capabilities.{postgres}
use dart_odbc_fast.Engine.Identifier.Laws.{IsIdentifier, read_delimited}
use dart_odbc_fast.Engine.Transaction.{
  active, serializable, read_only, read_write, auto, sql_server, quoting_for, isolation_sql,
  access_mode_sql, lock_timeout_sql,
}
use dart_odbc_fast.Engine.Transaction.Connection.{
  execute, commit_call, set_autocommit, Log, Driver, Handles, update, autocommit,
}
use dart_odbc_fast.Engine.Transaction.Begin.{Transaction, start, begin_with_lock_timeout}
use dart_odbc_fast.Engine.Transaction.Lifecycle.{
  savepoint_create, savepoint_rollback_to, savepoint_release, drop_transaction, commit, rollback,
  execute_with_lock_timeout,
}
use dart_odbc_fast.Engine.Transaction.Laws.{Begun, begin_with_lock_timeout_lem}
use dart_odbc_fast.Engine.Transaction.Ends.{commit_live, ends_idle}
use dart_odbc_fast.Engine.Transaction.Scope.{Outcome, execute_with_lock_timeout_lem}
use dart_odbc_fast.Engine.Transaction.Savepoints.{
  Sends, create_keyword, rollback_keyword, release_of, savepoint_safe,
}
use dart_odbc_fast.Engine.Transaction.Script.{
  Op, sql, create, run_ops, run_ops-OnlyStatements, autocommit-execute_with_lock_timeout,
}

abbrev postgres_driver : Driver
postgres_driver = record { answer = λ log call. ok tt; dbms_name = λ log. ok (ascii "PostgreSQL") }

abbrev one_connection : Handles
one_connection = update (λ k. none) 7 []

abbrev running : Transaction
running = record {
  conn_id = 7;
  state = active;
  isolation_level = serializable;
  savepoint_dialect = sql_server;
  access_mode = read_write;
  lock_timeout = none;
}

abbrev script : List Op
script = create (ascii "sp1") ∷ sql (ascii "DELETE FROM t") ∷ []

start_postgres : start postgres_driver postgres serializable read_only (some 1500) [] ≡ (
  ok tt,
  set_autocommit false
      ∷ execute (ascii "SET LOCAL lock_timeout = '1500ms'")
      ∷ execute (ascii "SET TRANSACTION READ ONLY")
      ∷ execute (ascii "SET TRANSACTION ISOLATION LEVEL SERIALIZABLE")
      ∷ [],
)
unfolding start isolation_sql access_mode_sql lock_timeout_sql print_int
start_postgres = refl

begin_with_lock_timeout_lem_example :
    ((t : Transaction) × (log' : Log) × (begin_with_lock_timeout postgres_driver one_connection 7
          serializable auto read_only
          (some 1500)
        ≡ (ok t, update one_connection 7 log'))
      × Begun postgres_driver 7 t log')
    ⊎ ((e : OdbcError) × (log' : Log) × (begin_with_lock_timeout postgres_driver one_connection 7
            serializable auto read_only
            (some 1500)
          ≡ (err e, update one_connection 7 log'))
        × (autocommit postgres_driver log' ≡ autocommit postgres_driver []))
begin_with_lock_timeout_lem_example =
    begin_with_lock_timeout_lem postgres_driver one_connection 7 serializable auto read_only
      (some 1500) [] refl

commit_live_example :
    commit postgres_driver running one_connection
    ≡ (ok tt, update one_connection 7 (set_autocommit true ∷ commit_call ∷ []))
commit_live_example = commit_live postgres_driver running one_connection [] refl refl

ends_idle_example :
    ((e : OdbcError) × (commit postgres_driver running (λ k. none) ≡ (err e, (λ k. none))))
    × ((e : OdbcError) × (rollback postgres_driver running (λ k. none) ≡ (err e, (λ k. none))))
    × (drop_transaction postgres_driver running (λ k. none) ≡ (λ k. none))
ends_idle_example = ends_idle postgres_driver running (λ k. none) (inr refl)

execute_with_lock_timeout_lem_example :
    Outcome postgres_driver one_connection 7 serializable auto read_write none
      (run_ops postgres_driver script)
      []
      (execute_with_lock_timeout postgres_driver one_connection 7 serializable auto read_write none
        (run_ops postgres_driver script))
execute_with_lock_timeout_lem_example =
    execute_with_lock_timeout_lem postgres_driver one_connection 7 serializable auto read_write none
      (run_ops postgres_driver script) [] refl (run_ops-OnlyStatements postgres_driver script)

autocommit-execute_with_lock_timeout_example :
    (log' : Log) × ((execute_with_lock_timeout postgres_driver one_connection 7 serializable auto
          read_write none
          (run_ops postgres_driver script)).1
        7
      ≡ some log')
    × (autocommit postgres_driver log' ≡ true)
unfolding autocommit
autocommit-execute_with_lock_timeout_example =
    autocommit-execute_with_lock_timeout postgres_driver one_connection 7 serializable auto
      read_write none script [] (λ log. refl) refl refl

savepoint_safe_example :
    (IsIdentifier (ascii "sp1")
      × (q : Bytes) × (read_delimited (quoting_for sql_server) q ≡ some (ascii "sp1", []))
      × Sends postgres_driver running one_connection []
          (savepoint_create postgres_driver running (ascii "sp1") one_connection)
          (some (create_keyword sql_server ++ q))
      × Sends postgres_driver running one_connection []
          (savepoint_rollback_to postgres_driver running (ascii "sp1") one_connection)
          (some (rollback_keyword sql_server ++ q))
      × Sends postgres_driver running one_connection []
          (savepoint_release postgres_driver running (ascii "sp1") one_connection)
          (release_of sql_server q))
    ⊎ ((¬ IsIdentifier (ascii "sp1"))
        × (e : OdbcError) × (savepoint_create postgres_driver running (ascii "sp1") one_connection
            ≡ (err e, one_connection))
        × (savepoint_rollback_to postgres_driver running (ascii "sp1") one_connection
            ≡ (err e, one_connection))
        × (savepoint_release postgres_driver running (ascii "sp1") one_connection
            ≡ (err e, one_connection)))
savepoint_safe_example = savepoint_safe postgres_driver running (ascii "sp1") one_connection [] refl
