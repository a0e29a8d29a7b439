-- ===== src/Engine/Transaction/Connection.antt =====
-- The connection that a transaction works on. The driver (the odbc_api crate and what lies under it)
-- is a parameter: it answers a call from all the calls that the connection has had before. A mutex
-- that another thread has poisoned is not modelled, so every lock is given.
use dart_odbc_fast.Prelude.{
  ℕ, Bool, true, ◌==◌, if◌then◌else◌, List, [], ◌∷◌, Option, none, some, ok, err,
}
use dart_odbc_fast.Wire.{Bytes}
use dart_odbc_fast.Error.{OdbcResult, invalid_handle}

pub data Call : Type 0 where
  execute : Bytes → Call
  commit_call rollback_call : Call
  set_autocommit : Bool → Call

-- The calls on a connection, the last one first.
abbrev pub Log : Type 0
Log = List Call

-- `Connection::execute`, `commit`, `rollback` and `set_autocommit`, and
-- `database_management_system_name`.
pub record Driver : Type 0 where
  pub answer : Log → Call → OdbcResult (Unit {0})
  pub dbms_name : Log → OdbcResult Bytes

-- The map `HandleManager::connections`: the live connections by their id.
abbrev pub Handles : Type 0
Handles = ℕ → Option Log

abbrev pub update : Handles → ℕ → Log → Handles
update handles id log = λ k. if k == id then some log else handles k

-- `HandleManager::get_connection`
unfoldable pub get_connection : Handles → ℕ → OdbcResult Log
get_connection handles id = elim (handles id) [ some log ↦ ok log | none ↦ err (invalid_handle id) ]

-- One call, with the log behind it.
abbrev pub issue : Driver → Log → Call → OdbcResult (Unit {0}) × Log
issue driver log call = (driver.answer log call, call ∷ log)

-- The `?` operator between calls.
abbrev pub and_then :
    OdbcResult (Unit {0}) × Log → (Log → OdbcResult (Unit {0}) × Log) → OdbcResult (Unit {0}) × Log
and_then (ok u, log) next = next log
and_then (err e, log) next = (err e, log)

-- Whether the connection commits each statement by itself, which a new connection does: what the
-- last call of `set_autocommit` that the driver accepted has set.
unfoldable pub autocommit : Driver → Log → Bool
autocommit driver [] = true
autocommit driver (execute sql ∷ log) = autocommit driver log
autocommit driver (commit_call ∷ log) = autocommit driver log
autocommit driver (rollback_call ∷ log) = autocommit driver log
autocommit driver (set_autocommit b ∷ log) =
    let before = autocommit driver log in
    elim (driver.answer log (set_autocommit b)) [ ok u ↦ b | err e ↦ before ]
