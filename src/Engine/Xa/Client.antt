-- ===== src/Engine/Xa/Client.antt =====
-- The clients of a branch, as the types of its three handles allow them, and the record of what has
-- happened on the connection.
use dart_odbc_fast.Prelude.{true, false, [], ◌∷◌, Option, none, some, ok, err, ◌≡◌, ◌⊎◌, ◌||◌}
use dart_odbc_fast.Wire.{Bytes}
use dart_odbc_fast.Error.{OdbcResult}
use dart_odbc_fast.Engine.Capabilities.{EngineId}
use dart_odbc_fast.Engine.Xid.{Xid}
use dart_odbc_fast.Engine.Transaction.Connection.{
  Call, execute, set_autocommit, Log, Driver, Handles, autocommit,
}
use dart_odbc_fast.Engine.Transaction.Begin.{send_or_fail}
use dart_odbc_fast.Engine.Xa.Sql.{xa_end, xa_prepare, xa_commit, xa_rollback, xa_rollback_prepared}
use dart_odbc_fast.Engine.Xa.Branch
use dart_odbc_fast.Engine.Xa.Branch.{
  XaState, active, idle, prepared, committed, rolled_back, XaBranch, Outcome, is_state, drop_branch,
  run_on_conn,
}

-- What a holder of a `PreparedXa`, of a `PreparingXa` and of an `XaTransaction` does with it. An
-- active branch takes statements first.
pub data PreparedClient : Type 0 where
  abandon commit rollback : PreparedClient

pub data IdleClient : Type 0 where
  leave undo : IdleClient
  prepare_then : PreparedClient → IdleClient

pub data ActiveClient : Type 0 where
  work : Bytes → ActiveClient → ActiveClient
  quit cancel commit_one_phase : ActiveClient
  end_then : IdleClient → ActiveClient

-- The next handle exists only if the operation before it succeeded.
abbrev pub and_next : Outcome → (XaBranch → Handles → Outcome) → Outcome
and_next (ok u, t, handles) next = next t handles
and_next (err e, t, handles) next = (err e, t, handles)

unfoldable pub run_prepared : Driver → PreparedClient → XaBranch → Handles → Outcome
run_prepared driver abandon t handles = (ok tt, t, handles)
run_prepared driver commit t handles = Branch.commit_prepared driver t handles
run_prepared driver rollback t handles = Branch.rollback_prepared driver t handles

unfoldable pub run_idle : Driver → IdleClient → XaBranch → Handles → Outcome
run_idle driver leave t handles = (ok tt, t, drop_branch driver t handles)
run_idle driver undo t handles = Branch.rollback_idle driver t handles
run_idle driver (prepare_then next) t handles =
    and_next (Branch.prepare driver t handles) (run_prepared driver next)

unfoldable pub run_active : Driver → ActiveClient → XaBranch → Handles → Outcome
run_active driver (work sql next) t handles =
    run_active driver next t (run_on_conn driver t (ok (some sql)) handles).1
run_active driver quit t handles = (ok tt, t, drop_branch driver t handles)
run_active driver cancel t handles = Branch.rollback driver t handles
run_active driver commit_one_phase t handles = Branch.commit_one_phase driver t handles
run_active driver (end_then next) t handles =
    and_next (Branch.end driver t handles) (run_idle driver next)

-- The state that a client's branch reaches if nothing fails.
abbrev pub prepared_goal : PreparedClient → XaState
prepared_goal abandon = prepared
prepared_goal commit = committed
prepared_goal rollback = rolled_back

abbrev pub idle_goal : IdleClient → XaState
idle_goal leave = idle
idle_goal undo = rolled_back
idle_goal (prepare_then next) = prepared_goal next

abbrev pub goal : ActiveClient → XaState
goal (work sql next) = goal next
goal quit = active
goal cancel = rolled_back
goal commit_one_phase = committed
goal (end_then next) = idle_goal next

-- The driver has accepted the call, on a connection with `P`.
abbrev pub Happened : Driver → Call → (Log → Type 0) → Log → Type 0
Happened driver call P [] = ⊥
Happened driver call P (c ∷ log) =
    ((c ≡ call) × (driver.answer log c ≡ ok tt) × P log) ⊎ Happened driver call P log

-- So for the statement of a step.
abbrev pub Did : Driver → OdbcResult (Option Bytes) → (Log → Type 0) → Log → Type 0
Did driver (ok (some sql)) P log = Happened driver (execute sql) P log
Did driver (ok none) P log = ⊥
Did driver (err e) P log = ⊥

abbrev pub Off : Driver → Log → Type 0
Off driver log = autocommit driver log ≡ false

-- How a branch may end: with this answer, in this state, and these calls on its connection.
pub record Closed (driver : Driver) (engine : EngineId) (xid : Xid) (target : XaState)
    (answer : OdbcResult (Unit {0})) (s : XaState) (log : Log) : Type 0 where
  pub restored : autocommit driver log ≡ true
  pub reached : answer ≡ ok tt → s ≡ target
  pub commits :
      s ≡ committed
      → Did driver (xa_commit engine xid true) (Off driver) log
        ⊎ Did driver
            (xa_commit engine xid false)
            (Did driver (xa_prepare engine xid) (Off driver))
            log
  pub rolls :
      s ≡ rolled_back
      → Did driver (xa_rollback engine xid) (Off driver) log
        ⊎ Did driver
            (xa_rollback_prepared engine xid)
            (Did driver (xa_prepare engine xid) (Off driver))
            log
  pub prepares : s ≡ prepared → Did driver (xa_prepare engine xid) (Off driver) log
  pub abandons :
      (is_state active s || is_state idle s) ≡ true
      → (before : Log) × (log
          ≡ set_autocommit true
            ∷ (send_or_fail driver
                (xa_rollback engine xid)
                (send_or_fail driver (xa_end engine xid) before).1).1)
