-- ===== src/Engine/Transaction/Script.antt =====
-- A client of `execute_with_lock_timeout`: a closure that runs SQL and savepoint operations in turn
-- and stops at the first error.
use dart_odbc_fast.Prelude.{
  ℕ, true, List, [], ◌∷◌, ◌++◌, map, Option, none, some, ok, err, ◌≡◌, refl, ap, ◌∙◌, sym, inl, inr,
}
use dart_odbc_fast.Wire.{Bytes}
use dart_odbc_fast.Error.{OdbcResult}
use dart_odbc_fast.Engine.Transaction.{
  IsolationLevel, TransactionAccessMode, SavepointDialect, LockTimeout, savepoint_create_sql,
  savepoint_rollback_to_sql, savepoint_release_sql,
}
use dart_odbc_fast.Engine.Transaction.Connection.{
  execute, commit_call, rollback_call, set_autocommit, Log, Driver, Handles, autocommit,
}
use dart_odbc_fast.Engine.Transaction.Begin.{Transaction}
use dart_odbc_fast.Engine.Transaction.Lifecycle.{
  execute_sql, run_savepoint, savepoint_create, savepoint_rollback_to, savepoint_release,
  execute_with_lock_timeout,
}
use dart_odbc_fast.Engine.Transaction.Ends.{update_self, get_connection-live}
use dart_odbc_fast.Engine.Transaction.Scope.{OnlyStatements, Accepts, execute_with_lock_timeout_lem}

pub data Op : Type 0 where
  sql : Bytes → Op
  create rollback_to release : Bytes → Op

abbrev pub run_op : Driver → Op → Transaction → Handles → OdbcResult (Unit {0}) × Handles
run_op driver (sql s) t handles = execute_sql driver t s handles
run_op driver (create name) t handles = savepoint_create driver t name handles
run_op driver (rollback_to name) t handles = savepoint_rollback_to driver t name handles
run_op driver (release name) t handles = savepoint_release driver t name handles

unfoldable pub run_ops : Driver → List Op → Transaction → Handles → OdbcResult (Unit {0}) × Handles
run_ops driver [] t handles = (ok tt, handles)
run_ops driver (op ∷ ops) t handles =
    let (answer, handles') = run_op driver op t handles in
    let rest = run_ops driver ops t handles' in
    elim answer [ ok u ↦ rest | err e ↦ (err e, handles') ]

execute_sql-OnlyStatements :
    (driver : Driver) (s : Bytes) → OnlyStatements (λ t. execute_sql driver t s)
unfolding execute_sql
execute_sql-OnlyStatements driver s t handles log live = (
  s ∷ [],
  rw (execute_sql, get_connection-live handles t.conn_id log live)
      (update_self handles t.conn_id (execute s ∷ log)),
)

run_savepoint-OnlyStatements :
    (driver : Driver) (t : Transaction) (r : OdbcResult (Option Bytes)) (handles : Handles)
    (log : Log)
    → handles t.conn_id ≡ some log
    → (sqls : List Bytes) × ((run_savepoint driver t r handles).1 t.conn_id
        ≡ some (map execute sqls ++ log))
run_savepoint-OnlyStatements driver t (err e) handles log live = ([], live)
run_savepoint-OnlyStatements driver t (ok none) handles log live = ([], live)
run_savepoint-OnlyStatements driver t (ok (some s)) handles log live =
    execute_sql-OnlyStatements driver s t handles log live

run_op-OnlyStatements : (driver : Driver) (op : Op) → OnlyStatements (run_op driver op)
unfolding savepoint_create savepoint_rollback_to savepoint_release
run_op-OnlyStatements driver (sql s) = execute_sql-OnlyStatements driver s
run_op-OnlyStatements driver (create name) =
    λ t. run_savepoint-OnlyStatements driver t (savepoint_create_sql t.savepoint_dialect name)
run_op-OnlyStatements driver (rollback_to name) =
    λ t. run_savepoint-OnlyStatements driver t (savepoint_rollback_to_sql t.savepoint_dialect name)
run_op-OnlyStatements driver (release name) =
    λ t. run_savepoint-OnlyStatements driver t (savepoint_release_sql t.savepoint_dialect name)

map-append_statements :
    (xs ys : List Bytes) (log : Log)
    → map execute (xs ++ ys) ++ log ≡ map execute xs ++ (map execute ys ++ log)
map-append_statements [] ys log = refl
map-append_statements (x ∷ xs) ys log = ap (◌∷◌ (execute x)) (map-append_statements xs ys log)

run_ops_step :
    (driver : Driver) (op : Op) (ops : List Op) (t : Transaction) (handles : Handles) (log : Log)
    (m : OdbcResult (Unit {0}) × Handles)
    → run_op driver op t handles ≡ m
    → m.1 t.conn_id ≡ some log
    → (sqls : List Bytes) × ((run_ops driver ops t m.1).1 t.conn_id
        ≡ some (map execute sqls ++ log))
    → (sqls : List Bytes) × ((run_ops driver (op ∷ ops) t handles).1 t.conn_id
        ≡ some (map execute sqls ++ log))
unfolding run_ops
run_ops_step driver op ops t handles log (ok u, h1) e live (sqls, more) =
    (sqls, rw (run_ops, e, ap (λ m. m.1) e) more)
run_ops_step driver op ops t handles log (err x, h1) e live more =
    ([], rw (run_ops, e, ap (λ m. m.1) e) live)

pub run_ops-OnlyStatements : (driver : Driver) (ops : List Op) → OnlyStatements (run_ops driver ops)
unfolding run_ops
run_ops-OnlyStatements driver [] t handles log live = ([], live)
run_ops-OnlyStatements driver (op ∷ ops) t handles log live =
    let (first, live1) = run_op-OnlyStatements driver op t handles log live in
    let after : Log = map execute first ++ log in
    let h1 : Handles = (run_op driver op t handles).1 in
    let (more, live2) =
      run_ops_step driver op ops t handles after (run_op driver op t handles) refl live1
        (run_ops-OnlyStatements driver ops t h1 after live1) in
    (more ++ first, live2 ∙ ap some (sym (map-append_statements more first log)))

-- Whatever operations a client runs in a transaction, whatever the driver answers to them, and also
-- when the transaction cannot begin: the connection is in autocommit again when
-- `execute_with_lock_timeout` returns, if it was before, and if the driver accepts to switch
-- autocommit on.
pub autocommit-execute_with_lock_timeout :
    (driver : Driver) (handles : Handles) (id : ℕ) (level : IsolationLevel)
    (dialect : SavepointDialect) (mode : TransactionAccessMode) (timeout : LockTimeout)
    (ops : List Op) (log : Log)
    → Accepts driver
    → handles id ≡ some log
    → autocommit driver log ≡ true
    → (log' : Log) × ((execute_with_lock_timeout driver handles id level dialect mode timeout
            (run_ops driver ops)).1
          id
        ≡ some log')
      × (autocommit driver log' ≡ true)
unfolding autocommit
autocommit-execute_with_lock_timeout driver handles id level dialect mode timeout ops log accepts
      live on =
    elim (execute_with_lock_timeout_lem driver handles id level dialect mode timeout
      (run_ops driver ops) log live (run_ops-OnlyStatements driver ops)) [
        | inl (e, log1, begins, done, same) ↦
            (log1, rw done (update_self handles id log1), rw same on)
        | inr (inl (t, log1, e, h2, log2, ran, done)) ↦
            let last : Log = set_autocommit true ∷ rollback_call ∷ log2 in
            (
              last,
              rw done (update_self h2 id last),
              rw (accepts (rollback_call ∷ log2), autocommit) refl,
            )
        | inr (inr (t, log1, v, h2, log2, ran, done)) ↦
            let last : Log = set_autocommit true ∷ commit_call ∷ log2 in
            (
              last,
              rw done (update_self h2 id last),
              rw (accepts (commit_call ∷ log2), autocommit) refl,
            )
      ]
