-- ===== src/Engine/Transaction/Begin.antt =====
-- `Transaction::begin_with_lock_timeout` and what it calls. The shorter constructors pass defaults
-- to it.
use dart_odbc_fast.Prelude.{ℕ, false, Option, none, some, ok, err, ◌>>=◌}
use dart_odbc_fast.Wire.{Bytes}
use dart_odbc_fast.Error.{OdbcResult}
use dart_odbc_fast.Engine.Capabilities.{EngineId, sqlserver, unknown, from_driver_name}
use dart_odbc_fast.Engine.Transaction.{
  IsolationLevel, TransactionAccessMode, TransactionState, active, SavepointDialect, auto, sql92,
  sql_server, LockTimeout, resolve_savepoint_dialect_for_engine, isolation_sql, access_mode_sql,
  lock_timeout_sql,
}
use dart_odbc_fast.Engine.Transaction.Connection.{
  execute, set_autocommit, Log, Driver, Handles, update, get_connection, issue, and_then,
}

pub record Transaction : Type 0 where
  pub conn_id : ℕ
  pub state : TransactionState
  pub isolation_level : IsolationLevel
  pub savepoint_dialect : SavepointDialect
  pub access_mode : TransactionAccessMode
  pub lock_timeout : LockTimeout

-- `DbmsInfo::detect_for_conn_id`, for the engine that it finds.
unfoldable pub detect_for_conn_id : Driver → Handles → ℕ → OdbcResult EngineId
detect_for_conn_id driver handles conn_id = do
  log ← get_connection handles conn_id
  name ← driver.dbms_name log
  ok (from_driver_name name).engine

unfoldable pub detect_engine_and_dialect :
    Driver → Handles → ℕ → SavepointDialect → EngineId × SavepointDialect
detect_engine_and_dialect driver handles conn_id sql92 = (unknown, sql92)
detect_engine_and_dialect driver handles conn_id sql_server = (sqlserver, sql_server)
detect_engine_and_dialect driver handles conn_id auto =
    elim (detect_for_conn_id driver handles conn_id) [
      | ok engine ↦ (engine, resolve_savepoint_dialect_for_engine engine)
      | err e ↦ (unknown, sql92)
    ]

-- Sends a statement, if there is one.
abbrev pub send : Driver → Option Bytes → Log → OdbcResult (Unit {0}) × Log
send driver none log = (ok tt, log)
send driver (some sql) log = issue driver log (execute sql)

abbrev pub send_or_fail : Driver → OdbcResult (Option Bytes) → Log → OdbcResult (Unit {0}) × Log
send_or_fail driver (ok sql) log = send driver sql log
send_or_fail driver (err e) log = (err e, log)

-- The calls of `begin_with_lock_timeout` on the locked connection.
unfoldable pub start :
    Driver
    → EngineId
    → IsolationLevel
    → TransactionAccessMode
    → LockTimeout
    → Log
    → OdbcResult (Unit {0}) × Log
start driver engine level mode timeout log =
    and_then (send_or_fail driver (isolation_sql engine level) log) (λ log1.
      and_then (send driver (access_mode_sql engine mode) log1) (λ log2.
        and_then (send driver (lock_timeout_sql engine timeout) log2)
          (λ log3. issue driver log3 (set_autocommit false))))

unfoldable pub begin_with_lock_timeout :
    Driver
    → Handles
    → ℕ
    → IsolationLevel
    → SavepointDialect
    → TransactionAccessMode
    → LockTimeout
    → OdbcResult Transaction × Handles
begin_with_lock_timeout driver handles id level dialect mode timeout =
    let (engine, resolved) = detect_engine_and_dialect driver handles id dialect in
    elim (get_connection handles id) [
      | err e ↦ (err e, handles)
      | ok log ↦
          let (started, log') = start driver engine level mode timeout log in
          (
            started >>= (λ u. ok (record {
              conn_id = id;
              state = active;
              isolation_level = level;
              savepoint_dialect = resolved;
              access_mode = mode;
              lock_timeout = timeout;
            })),
            update handles id log',
          )
    ]
