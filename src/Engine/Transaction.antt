-- ===== src/Engine/Transaction.antt =====
-- engine/transaction.rs: the options of a transaction, and the SQL that sets them. The parts with
-- a connection stand in the child modules.
pub mod Connection
pub mod Begin
pub mod Lifecycle
pub mod Laws
pub mod Ends
pub mod Scope
pub mod Savepoints
pub mod Script
pub mod Timeouts
mod Tests
use dart_odbc_fast.Prelude.{
  ℕ, ◌+◌, ◌-◌, ◌*◌, ◌/◌, ◌^◌, min, max, Bool, true, false, ◌==◌, leb, ltb, if◌then◌else◌, List, [],
  ◌∷◌, ◌++◌, ok, err, ◌>>=◌, ◌>>◌, Option, none, some, String,
}
use dart_odbc_fast.Prelude.Int.{pos}
use dart_odbc_fast.Wire.{Bytes, ascii}
use dart_odbc_fast.Wire.Print.{print_int}
use dart_odbc_fast.Error.{OdbcResult, invalid, text}
use dart_odbc_fast.Engine.Identifier.{
  IdentifierQuoting, double_quote, brackets, validate_identifier, quote_identifier,
}
use dart_odbc_fast.Engine.Capabilities.{
  EngineId, sqlserver, postgres, mysql, mariadb, oracle, sqlite, db2, snowflake, unknown,
}

pub data IsolationLevel : Type 0 where
  read_uncommitted read_committed repeatable_read serializable : IsolationLevel

pub data TransactionAccessMode : Type 0 where
  read_write read_only : TransactionAccessMode

pub data TransactionState : Type 0 where
  no_state active committed rolled_back : TransactionState

pub data SavepointDialect : Type 0 where
  auto sql92 sql_server : SavepointDialect

-- `LockTimeout`: its only field.
abbrev pub LockTimeout : Type 0
LockTimeout = Option ℕ

unfoldable pub from_millis : ℕ → LockTimeout
from_millis millis = if millis == 0 then none else some millis

-- A `Duration` is its whole nanoseconds.
unfoldable pub from_duration : ℕ → LockTimeout
from_duration nanos =
    let raw_ms = nanos / 1000000 in
    if raw_ms == 0
    then (if nanos == 0 then none else some 1)
    else some (if ltb raw_ms (2 ^ 32) then raw_ms else 2 ^ 32 - 1)

unfoldable pub millis_as_seconds_rounded_up : LockTimeout → Option ℕ
millis_as_seconds_rounded_up none = none
millis_as_seconds_rounded_up (some ms) = some (max ((ms + 999) / 1000) 1)

abbrev pub to_sql_keyword : IsolationLevel → Bytes
to_sql_keyword read_uncommitted = ascii "READ UNCOMMITTED"
to_sql_keyword read_committed = ascii "READ COMMITTED"
to_sql_keyword repeatable_read = ascii "REPEATABLE READ"
to_sql_keyword serializable = ascii "SERIALIZABLE"

abbrev pub to_db2_keyword : IsolationLevel → Bytes
to_db2_keyword read_uncommitted = ascii "UR"
to_db2_keyword read_committed = ascii "CS"
to_db2_keyword repeatable_read = ascii "RS"
to_db2_keyword serializable = ascii "RR"

-- `TransactionAccessMode::to_sql_keyword`
abbrev pub access_mode_keyword : TransactionAccessMode → Bytes
access_mode_keyword read_only = ascii "READ ONLY"
access_mode_keyword read_write = ascii "READ WRITE"

-- The names that `{level:?}` prints.
abbrev pub level_debug : IsolationLevel → Bytes
level_debug read_uncommitted = ascii "ReadUncommitted"
level_debug read_committed = ascii "ReadCommitted"
level_debug repeatable_read = ascii "RepeatableRead"
level_debug serializable = ascii "Serializable"

abbrev pub state_debug : TransactionState → Bytes
state_debug no_state = ascii "None"
state_debug active = ascii "Active"
state_debug committed = ascii "Committed"
state_debug rolled_back = ascii "RolledBack"

unfoldable pub is_active_state : TransactionState → Bool
is_active_state active = true
is_active_state _ = false

pub data IsolationStrategy : Type 0 where
  plain_sql92 sqlite_pragma db2_set_current oracle_restricted skip : IsolationStrategy

abbrev pub for_engine : EngineId → IsolationStrategy
for_engine sqlite = sqlite_pragma
for_engine db2 = db2_set_current
for_engine oracle = oracle_restricted
for_engine snowflake = skip
for_engine _ = plain_sql92

abbrev pub resolve_savepoint_dialect_for_engine : EngineId → SavepointDialect
resolve_savepoint_dialect_for_engine sqlserver = sql_server
resolve_savepoint_dialect_for_engine _ = sql92

-- `apply_isolation`, `apply_access_mode` and `apply_lock_timeout`, each as the statement that it
-- sends, if any.
unfoldable pub isolation_sql : EngineId → IsolationLevel → OdbcResult (Option Bytes)
isolation_sql engine level = elim (for_engine engine) [
  | plain_sql92 ↦ ok (some (ascii "SET TRANSACTION ISOLATION LEVEL " ++ to_sql_keyword level))
  | sqlite_pragma ↦ elim level [
    | read_uncommitted ↦ ok (some (ascii "PRAGMA read_uncommitted = 1"))
    | _ ↦ ok (some (ascii "PRAGMA read_uncommitted = 0"))
  ]
  | db2_set_current ↦ ok (some (ascii "SET CURRENT ISOLATION = " ++ to_db2_keyword level))
  | oracle_restricted ↦ elim level [
    | read_committed ↦ ok (some (ascii "SET TRANSACTION ISOLATION LEVEL READ COMMITTED"))
    | serializable ↦ ok (some (ascii "SET TRANSACTION ISOLATION LEVEL SERIALIZABLE"))
    | other ↦ err (
        invalid
          "Oracle does not support isolation level {level:?}; only ReadCommitted and Serializable are supported"
          (text (level_debug other) ∷ []))
  ]
  | skip ↦ ok none
]

unfoldable pub access_mode_sql : EngineId → TransactionAccessMode → Option Bytes
access_mode_sql engine read_write = none
access_mode_sql postgres read_only =
    some (ascii "SET TRANSACTION " ++ access_mode_keyword read_only)
access_mode_sql mysql read_only = some (ascii "SET TRANSACTION " ++ access_mode_keyword read_only)
access_mode_sql mariadb read_only = some (ascii "SET TRANSACTION " ++ access_mode_keyword read_only)
access_mode_sql db2 read_only = some (ascii "SET TRANSACTION " ++ access_mode_keyword read_only)
access_mode_sql oracle read_only = some (ascii "SET TRANSACTION " ++ access_mode_keyword read_only)
access_mode_sql _ read_only = none

abbrev in_seconds : String → LockTimeout → Option Bytes
in_seconds prefix timeout = elim (millis_as_seconds_rounded_up timeout) [
  | none ↦ none
  | some secs ↦ some (ascii prefix ++ print_int (pos secs))
]

unfoldable pub lock_timeout_sql : EngineId → LockTimeout → Option Bytes
lock_timeout_sql engine none = none
lock_timeout_sql sqlserver (some ms) = some (ascii "SET LOCK_TIMEOUT " ++ print_int (pos ms))
lock_timeout_sql postgres (some ms) =
    some (ascii "SET LOCAL lock_timeout = '" ++ (print_int (pos ms) ++ ascii "ms'"))
lock_timeout_sql mysql (some ms) = in_seconds "SET SESSION innodb_lock_wait_timeout = " (some ms)
lock_timeout_sql mariadb (some ms) = in_seconds "SET SESSION innodb_lock_wait_timeout = " (some ms)
lock_timeout_sql db2 (some ms) = in_seconds "SET CURRENT LOCK TIMEOUT " (some ms)
lock_timeout_sql sqlite (some ms) = some (ascii "PRAGMA busy_timeout = " ++ print_int (pos ms))
lock_timeout_sql _ (some ms) = none

abbrev pub quoting_for : SavepointDialect → IdentifierQuoting
quoting_for sql_server = brackets
quoting_for _ = double_quote

-- The statements of `savepoint_create`, `savepoint_rollback_to` and `savepoint_release`.
unfoldable pub savepoint_create_sql : SavepointDialect → Bytes → OdbcResult (Option Bytes)
savepoint_create_sql dialect name = do
  validate_identifier name
  qname ← quote_identifier name (quoting_for dialect)
  elim dialect [
    | sql_server ↦ ok (some (ascii "SAVE TRANSACTION " ++ qname))
    | _ ↦ ok (some (ascii "SAVEPOINT " ++ qname))
  ]

unfoldable pub savepoint_rollback_to_sql : SavepointDialect → Bytes → OdbcResult (Option Bytes)
savepoint_rollback_to_sql dialect name = do
  validate_identifier name
  qname ← quote_identifier name (quoting_for dialect)
  elim dialect [
    | sql_server ↦ ok (some (ascii "ROLLBACK TRANSACTION " ++ qname))
    | _ ↦ ok (some (ascii "ROLLBACK TO SAVEPOINT " ++ qname))
  ]

unfoldable pub savepoint_release_sql : SavepointDialect → Bytes → OdbcResult (Option Bytes)
savepoint_release_sql dialect name = do
  validate_identifier name
  elim dialect [
    | sql_server ↦ ok none
    | _ ↦ quote_identifier name double_quote >>= λ qname.
        ok (some (ascii "RELEASE SAVEPOINT " ++ qname))
  ]
