-- ===== src/Engine/Transaction/Laws.antt =====
-- Autocommit over the life of a transaction.
use dart_odbc_fast.Prelude.{
  ℕ, Bool, false, List, [], ◌∷◌, ◌++◌, map, Option, none, some, ok, err, ◌≡◌, refl, ◌⊎◌, inl, inr,
  ◌≢◌,
}
use dart_odbc_fast.Wire.{Bytes}
use dart_odbc_fast.Error.{OdbcError, OdbcResult}
use dart_odbc_fast.Engine.Capabilities.{EngineId, sqlserver}
use dart_odbc_fast.Engine.Transaction.{
  IsolationLevel, TransactionAccessMode, active, SavepointDialect, auto, sql92, sql_server,
  LockTimeout, resolve_savepoint_dialect_for_engine, isolation_sql, access_mode_sql,
  lock_timeout_sql,
}
use dart_odbc_fast.Engine.Transaction.Connection.{
  execute, set_autocommit, Log, Driver, Handles, update, issue, and_then, autocommit,
}
use dart_odbc_fast.Engine.Transaction.Begin.{
  Transaction, detect_for_conn_id, detect_engine_and_dialect, send, send_or_fail, start,
  begin_with_lock_timeout,
}
use dart_odbc_fast.Engine.Transaction.Ends.{get_connection-live}

-- Statements leave autocommit as it is.
pub autocommit-statements :
    (driver : Driver) (sqls : List Bytes) (log : Log)
    → autocommit driver (map execute sqls ++ log) ≡ autocommit driver log
unfolding autocommit
autocommit-statements driver [] log = refl
autocommit-statements driver (sql ∷ sqls) log = autocommit-statements driver sqls log

send_lem :
    (driver : Driver) (sql : Option Bytes) (log : Log)
    → autocommit driver (send driver sql log).1 ≡ autocommit driver log
unfolding autocommit
send_lem driver none log = refl
send_lem driver (some sql) log = refl

pub send_or_fail_lem :
    (driver : Driver) (sql : OdbcResult (Option Bytes)) (log : Log)
    → autocommit driver (send_or_fail driver sql log).1 ≡ autocommit driver log
send_or_fail_lem driver (ok sql) log = send_lem driver sql log
send_or_fail_lem driver (err e) log = refl

-- What is known of a step of the start: on success autocommit is off, on failure it is as before.
abbrev Started : Driver → Bool → OdbcResult (Unit {0}) × Log → Type 0
Started driver before (ok u, log) = autocommit driver log ≡ false
Started driver before (err e, log) = autocommit driver log ≡ before

and_then_lem :
    (driver : Driver) (before : Bool) (m : OdbcResult (Unit {0}) × Log)
    (next : Log → OdbcResult (Unit {0}) × Log)
    → autocommit driver m.1 ≡ before
    → Started driver before (next m.1)
    → Started driver before (and_then m next)
and_then_lem driver before (ok u, log) next h g = g
and_then_lem driver before (err e, log) next h g = h

switch_off_lem :
    (driver : Driver) (log : Log) (r : OdbcResult (Unit {0}))
    → driver.answer log (set_autocommit false) ≡ r
    → Started driver (autocommit driver log) (r, set_autocommit false ∷ log)
unfolding autocommit
switch_off_lem driver log (ok u) h = rw (h, autocommit) refl
switch_off_lem driver log (err e) h = rw (h, autocommit) refl

start_lem :
    (driver : Driver) (engine : EngineId) (level : IsolationLevel) (mode : TransactionAccessMode)
    (timeout : LockTimeout) (log : Log)
    → Started driver (autocommit driver log) (start driver engine level mode timeout log)
unfolding start
start_lem driver engine level mode timeout log =
    let m1 = send_or_fail driver (isolation_sql engine level) log in
    let m2 = send driver (access_mode_sql engine mode) m1.1 in
    let m3 = send driver (lock_timeout_sql engine timeout) m2.1 in
    let before = autocommit driver log in
    let e1 : autocommit driver m1.1 ≡ before =
      send_or_fail_lem driver (isolation_sql engine level) log in
    let e2 : autocommit driver m2.1 ≡ before =
      rw (send_lem driver (access_mode_sql engine mode) m1.1) e1 in
    let e3 : autocommit driver m3.1 ≡ before =
      rw (send_lem driver (lock_timeout_sql engine timeout) m2.1) e2 in
    let off : Started driver before (issue driver m3.1 (set_autocommit false)) =
      rw e3 at (switch_off_lem driver m3.1 _ refl) in
    and_then_lem driver before m1 _ e1
      (and_then_lem driver before m2 _ e2 (and_then_lem driver before m3 _ e3 off))

resolved_lem : (engine : EngineId) → resolve_savepoint_dialect_for_engine engine ≢ auto
resolved_lem sqlserver = λ e. cc
resolved_lem _ = λ e. cc

detected_lem :
    (driver : Driver) (handles : Handles) (id : ℕ) (r : OdbcResult EngineId)
    → detect_for_conn_id driver handles id ≡ r
    → (detect_engine_and_dialect driver handles id auto).1 ≢ auto
unfolding detect_engine_and_dialect
detected_lem driver handles id (ok engine) h =
    rw (h, detect_engine_and_dialect) (resolved_lem engine)
detected_lem driver handles id (err e) h = rw (h, detect_engine_and_dialect) (λ e. cc)

dialect_lem :
    (driver : Driver) (handles : Handles) (id : ℕ) (dialect : SavepointDialect)
    → (detect_engine_and_dialect driver handles id dialect).1 ≢ auto
unfolding detect_engine_and_dialect
dialect_lem driver handles id auto = detected_lem driver handles id _ refl
dialect_lem driver handles id sql92 = λ e. cc
dialect_lem driver handles id sql_server = λ e. cc

-- What beginning a transaction comes to.
pub record Begun (driver : Driver) (id : ℕ) (t : Transaction) (log : Log) : Type 0 where
  pub on : t.conn_id ≡ id
  pub running : t.state ≡ active
  pub concrete : t.savepoint_dialect ≢ auto
  pub off : autocommit driver log ≡ false

begin_step :
    (driver : Driver) (handles : Handles) (id : ℕ) (level : IsolationLevel)
    (dialect : SavepointDialect) (mode : TransactionAccessMode) (timeout : LockTimeout) (log : Log)
    (m : OdbcResult (Unit {0}) × Log)
    → handles id ≡ some log
    → start driver (detect_engine_and_dialect driver handles id dialect).0 level mode timeout log
      ≡ m
    → Started driver (autocommit driver log) m
    → ((t : Transaction) × (log' : Log) × (begin_with_lock_timeout driver handles id level dialect
            mode timeout
          ≡ (ok t, update handles id log'))
        × Begun driver id t log')
      ⊎ ((e : OdbcError) × (log' : Log) × (begin_with_lock_timeout driver handles id level dialect
              mode timeout
            ≡ (err e, update handles id log'))
          × (autocommit driver log' ≡ autocommit driver log))
unfolding begin_with_lock_timeout
begin_step driver handles id level dialect mode timeout log (ok u, log') live e h = inl (
  record {
    conn_id = id;
    state = active;
    isolation_level = level;
    savepoint_dialect = (detect_engine_and_dialect driver handles id dialect).1;
    access_mode = mode;
    lock_timeout = timeout;
  },
  log',
  rw (begin_with_lock_timeout, get_connection-live handles id log live, e) refl,
  record { on = refl; running = refl; concrete = dialect_lem driver handles id dialect; off = h },
)
begin_step driver handles id level dialect mode timeout log (err x, log') live e h =
    inr (x, log', rw (begin_with_lock_timeout, get_connection-live handles id log live, e) refl, h)

-- On a live connection, beginning either gives an active transaction, with a savepoint dialect that
-- is not `Auto`, and has switched autocommit off; or it fails, and autocommit is as it was before,
-- whatever statement the driver refused.
pub begin_with_lock_timeout_lem :
    (driver : Driver) (handles : Handles) (id : ℕ) (level : IsolationLevel)
    (dialect : SavepointDialect) (mode : TransactionAccessMode) (timeout : LockTimeout) (log : Log)
    → handles id ≡ some log
    → ((t : Transaction) × (log' : Log) × (begin_with_lock_timeout driver handles id level dialect
            mode timeout
          ≡ (ok t, update handles id log'))
        × Begun driver id t log')
      ⊎ ((e : OdbcError) × (log' : Log) × (begin_with_lock_timeout driver handles id level dialect
              mode timeout
            ≡ (err e, update handles id log'))
          × (autocommit driver log' ≡ autocommit driver log))
begin_with_lock_timeout_lem driver handles id level dialect mode timeout log live =
    begin_step driver handles id level dialect mode timeout log _ live refl (
      start_lem driver (detect_engine_and_dialect driver handles id dialect).0 level mode timeout
        log)
