-- ===== src/Engine/Transaction/Lifecycle.antt =====
-- The operations of a transaction, and its end by commit, rollback or drop.
use dart_odbc_fast.Prelude.{ℕ, true, [], ◌∷◌, Option, none, some, ok, err, ◌>>=◌, if◌then◌else◌}
use dart_odbc_fast.Wire.{Bytes}
use dart_odbc_fast.Error.{OdbcResult, invalid, text}
use dart_odbc_fast.Engine.Transaction.{
  IsolationLevel, TransactionAccessMode, SavepointDialect, LockTimeout, TransactionState, committed,
  rolled_back, state_debug, is_active_state, savepoint_create_sql, savepoint_rollback_to_sql,
  savepoint_release_sql,
}
use dart_odbc_fast.Engine.Transaction.Connection.{
  Call, execute, commit_call, rollback_call, set_autocommit, Log, Driver, Handles, update,
  get_connection, issue,
}
use dart_odbc_fast.Engine.Transaction.Begin.{Transaction, begin_with_lock_timeout}

-- `Transaction::execute_sql`
unfoldable pub execute_sql :
    Driver → Transaction → Bytes → Handles → OdbcResult (Unit {0}) × Handles
execute_sql driver t sql handles = elim (get_connection handles t.conn_id) [
  | err e ↦ (err e, handles)
  | ok log ↦
      let (answer, log') = issue driver log (execute sql) in (answer, update handles t.conn_id log')
]

-- A savepoint operation: the checks, then the statement, if there is one.
abbrev pub run_savepoint :
    Driver → Transaction → OdbcResult (Option Bytes) → Handles → OdbcResult (Unit {0}) × Handles
run_savepoint driver t (err e) handles = (err e, handles)
run_savepoint driver t (ok none) handles = (ok tt, handles)
run_savepoint driver t (ok (some sql)) handles = execute_sql driver t sql handles

unfoldable pub savepoint_create :
    Driver → Transaction → Bytes → Handles → OdbcResult (Unit {0}) × Handles
savepoint_create driver t name handles =
    run_savepoint driver t (savepoint_create_sql t.savepoint_dialect name) handles

unfoldable pub savepoint_rollback_to :
    Driver → Transaction → Bytes → Handles → OdbcResult (Unit {0}) × Handles
savepoint_rollback_to driver t name handles =
    run_savepoint driver t (savepoint_rollback_to_sql t.savepoint_dialect name) handles

unfoldable pub savepoint_release :
    Driver → Transaction → Bytes → Handles → OdbcResult (Unit {0}) × Handles
savepoint_release driver t name handles =
    run_savepoint driver t (savepoint_release_sql t.savepoint_dialect name) handles

-- What both ends do with a live connection: the call, then autocommit again, whose failure is only
-- logged.
abbrev pub finish : Driver → Log → Call → OdbcResult (Unit {0}) × Log
finish driver log call =
    let (answer, log1) = issue driver log call in
    (answer, (issue driver log1 (set_autocommit true)).1)

abbrev pub state_after_commit : OdbcResult (Unit {0}) → TransactionState
state_after_commit (ok u) = committed
state_after_commit (err e) = rolled_back

-- The bodies of `commit` and `rollback`, which leave the consumed transaction to be dropped.
unfoldable pub commit_body :
    Driver → Transaction → Handles → OdbcResult (Unit {0}) × Transaction × Handles
commit_body driver t handles =
    if is_active_state t.state
    then elim (get_connection handles t.conn_id) [
      | err e ↦ (err e, t, handles)
      | ok log ↦
          let (answer, log') = finish driver log commit_call in
          (answer, record t { state = state_after_commit answer }, update handles t.conn_id log')
    ]
    else (
      err (invalid "Cannot commit: transaction state is {:?}" (text (state_debug t.state) ∷ [])),
      t,
      handles,
    )

unfoldable pub rollback_body :
    Driver → Transaction → Handles → OdbcResult (Unit {0}) × Transaction × Handles
rollback_body driver t handles =
    if is_active_state t.state
    then elim (get_connection handles t.conn_id) [
      | err e ↦ (err e, t, handles)
      | ok log ↦
          let (answer, log') = finish driver log rollback_call in
          (answer, record t { state = rolled_back }, update handles t.conn_id log')
    ]
    else (
      err (invalid "Cannot rollback: transaction state is {:?}" (text (state_debug t.state) ∷ [])),
      t,
      handles,
    )

-- `Drop::drop`
unfoldable pub drop_transaction : Driver → Transaction → Handles → Handles
drop_transaction driver t handles =
    if is_active_state t.state
    then elim (get_connection handles t.conn_id) [
      | err e ↦ handles
      | ok log ↦ update handles t.conn_id (finish driver log rollback_call).1
    ]
    else handles

-- `commit` and `rollback` consume the transaction: it is dropped when they return.
unfoldable pub commit : Driver → Transaction → Handles → OdbcResult (Unit {0}) × Handles
commit driver t handles =
    let (answer, t', handles') = commit_body driver t handles in
    (answer, drop_transaction driver t' handles')

unfoldable pub rollback : Driver → Transaction → Handles → OdbcResult (Unit {0}) × Handles
rollback driver t handles =
    let (answer, t', handles') = rollback_body driver t handles in
    (answer, drop_transaction driver t' handles')

-- The match on what the closure returned. The error of the commit replaces the result; the error of
-- the rollback is only logged.
abbrev pub settle {ℓ} :
    {T : Type ℓ} → Driver → Transaction → OdbcResult T × Handles → OdbcResult T × Handles
settle driver txn (ok result, handles) =
    let (answer, handles') = commit driver txn handles in (answer >>= (λ u. ok result), handles')
settle driver txn (err original, handles) = (err original, (rollback driver txn handles).1)

-- The closure in a transaction that has begun.
abbrev pub run_closure {ℓ} :
    {T : Type ℓ}
    → Driver
    → (Transaction → Handles → OdbcResult T × Handles)
    → OdbcResult Transaction × Handles
    → OdbcResult T × Handles
run_closure driver f (ok txn, handles) = settle driver txn (f txn handles)
run_closure driver f (err e, handles) = (err e, handles)

-- `execute_with_lock_timeout` with the caller's closure, which may change the connections.
unfoldable pub execute_with_lock_timeout {ℓ} :
    {T : Type ℓ}
    → Driver
    → Handles
    → ℕ
    → IsolationLevel
    → SavepointDialect
    → TransactionAccessMode
    → LockTimeout
    → (Transaction → Handles → OdbcResult T × Handles)
    → OdbcResult T × Handles
execute_with_lock_timeout driver handles id level dialect mode timeout f =
    run_closure driver f (begin_with_lock_timeout driver handles id level dialect mode timeout)
