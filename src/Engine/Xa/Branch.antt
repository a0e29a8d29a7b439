-- ===== src/Engine/Xa/Branch.antt =====
-- The life of a branch: `XaTransaction`, `PreparingXa` and `PreparedXa`, over the driver and the
-- connections of an ordinary transaction.
use dart_odbc_fast.Prelude.{
  ℕ, Bool, true, false, ◌||◌, if◌then◌else◌, [], ◌∷◌, Option, ok, err, ◌>>=◌,
}
use dart_odbc_fast.Wire.{Bytes, ascii}
use dart_odbc_fast.Error.{OdbcResult, invalid, text}
use dart_odbc_fast.Engine.Capabilities.{EngineId, unknown}
use dart_odbc_fast.Engine.Xid.{Xid}
use dart_odbc_fast.Engine.Transaction.Connection.{
  set_autocommit, Driver, Handles, update, get_connection, issue, and_then,
}
use dart_odbc_fast.Engine.Transaction.Begin.{detect_for_conn_id, send_or_fail}
use dart_odbc_fast.Engine.Xa.Sql.{
  xa_start, xa_end, xa_prepare, xa_commit, xa_rollback, xa_rollback_prepared,
}

pub data XaState : Type 0 where
  fresh active idle prepared committed rolled_back failed : XaState

-- `{:?}` of a state.
abbrev pub xa_state_debug : XaState → Bytes
xa_state_debug fresh = ascii "None"
xa_state_debug active = ascii "Active"
xa_state_debug idle = ascii "Idle"
xa_state_debug prepared = ascii "Prepared"
xa_state_debug committed = ascii "Committed"
xa_state_debug rolled_back = ascii "RolledBack"
xa_state_debug failed = ascii "Failed"

-- `XaTransaction`. The three handles of a branch share its state, and each operation consumes the
-- handle it is called on, so that one record with the state in it serves all three.
pub record XaBranch : Type 0 where
  pub conn_id : ℕ
  pub xid : Xid
  pub engine_id : EngineId
  pub state : XaState

-- What an operation leaves: its answer, the branch for its drop, and the connections.
abbrev pub Outcome : Type 0
Outcome = OdbcResult (Unit {0}) × XaBranch × Handles

unfoldable pub detect_engine_id : Driver → Handles → ℕ → EngineId
detect_engine_id driver handles conn_id = elim (detect_for_conn_id driver handles conn_id) [
  | ok engine ↦ engine
  | err e ↦ unknown
]

-- `run_on_conn` with one of the statements.
unfoldable pub run_on_conn :
    Driver → XaBranch → OdbcResult (Option Bytes) → Handles → OdbcResult (Unit {0}) × Handles
run_on_conn driver t sql handles = elim (get_connection handles t.conn_id) [
  | err e ↦ (err e, handles)
  | ok log ↦
      let (answer, log') = send_or_fail driver sql log in (answer, update handles t.conn_id log')
]

-- `try_restore_autocommit`: its failure is only logged.
unfoldable pub try_restore_autocommit : Driver → XaBranch → Handles → Handles
try_restore_autocommit driver t handles = elim (get_connection handles t.conn_id) [
  | err e ↦ handles
  | ok log ↦ update handles t.conn_id (issue driver log (set_autocommit true)).1
]

unfoldable pub start : Driver → Handles → ℕ → Xid → OdbcResult XaBranch × Handles
start driver handles conn_id xid =
    let engine = detect_engine_id driver handles conn_id in
    elim (get_connection handles conn_id) [
      | err e ↦ (err e, handles)
      | ok log ↦
          let (started, log') =
            and_then (issue driver log (set_autocommit false))
              (λ log1. send_or_fail driver (xa_start engine xid) log1) in
          (
            started >>= (λ u.
                ok (record { conn_id = conn_id; xid = xid; engine_id = engine; state = active })),
            update handles conn_id log',
          )
    ]

abbrev pub is_state : XaState → XaState → Bool
is_state active active = true
is_state idle idle = true
is_state prepared prepared = true
is_state _ _ = false

-- `assert_state`; the name of the type and of the operation are in the message.
abbrev pub wrong_state : Bytes → XaState → XaState → OdbcResult (Unit {0})
wrong_state op expected actual = err (
    invalid "{op}: expected state {:?}, got {:?}"
      (text op ∷ text (xa_state_debug expected) ∷ text (xa_state_debug actual) ∷ []))

-- `Drop for XaTransaction`: the results of the two statements are not looked at.
unfoldable pub drop_branch : Driver → XaBranch → Handles → Handles
drop_branch driver t handles =
    if is_state active t.state || is_state idle t.state
    then elim (get_connection handles t.conn_id) [
      | err e ↦ handles
      | ok log ↦
          let log1 = (send_or_fail driver (xa_end t.engine_id t.xid) log).1 in
          let log2 = (send_or_fail driver (xa_rollback t.engine_id t.xid) log1).1 in
          update handles t.conn_id (issue driver log2 (set_autocommit true)).1
    ]
    else handles

-- `match r { Ok(()) => set_state(good), Err(e) => set_state(Failed) }`
abbrev pub settle : XaState → XaBranch → OdbcResult (Unit {0}) → Handles → Outcome
settle good t (ok u) handles = (ok u, record t { state = good }, handles)
settle good t (err e) handles = (err e, record t { state = failed }, handles)

unfoldable pub end_body : Driver → XaBranch → Handles → Outcome
end_body driver t handles =
    if is_state active t.state
    then (let (answer, handles') = run_on_conn driver t (xa_end t.engine_id t.xid) handles in
        elim answer [
          | ok u ↦ (ok u, record t { state = idle }, handles')
          | err e ↦ (err e, t, handles')
        ])
    else (wrong_state (ascii "XaTransaction::end") active t.state, t, handles)

unfoldable pub commit_one_phase_body : Driver → XaBranch → Handles → Outcome
commit_one_phase_body driver t handles =
    if is_state active t.state
    then (let (ended, handles1) = run_on_conn driver t (xa_end t.engine_id t.xid) handles in
        elim ended [
          | err e ↦ (err e, t, handles1)
          | ok u ↦
              let (answer, handles2) =
                run_on_conn driver t (xa_commit t.engine_id t.xid true) handles1 in
              settle committed t answer (try_restore_autocommit driver t handles2)
        ])
    else (wrong_state (ascii "XaTransaction::commit_one_phase") active t.state, t, handles)

unfoldable pub rollback_body : Driver → XaBranch → Handles → Outcome
rollback_body driver t handles =
    if is_state active t.state
    then (let handles1 = (run_on_conn driver t (xa_end t.engine_id t.xid) handles).1 in
        let (answer, handles2) = run_on_conn driver t (xa_rollback t.engine_id t.xid) handles1 in
        settle rolled_back t answer (try_restore_autocommit driver t handles2))
    else (wrong_state (ascii "XaTransaction::rollback") active t.state, t, handles)

-- `PreparingXa::prepare` and `PreparingXa::rollback`
unfoldable pub prepare_body : Driver → XaBranch → Handles → Outcome
prepare_body driver t handles =
    if is_state idle t.state
    then (let (answer, handles1) = run_on_conn driver t (xa_prepare t.engine_id t.xid) handles in
        settle prepared t answer (try_restore_autocommit driver t handles1))
    else (wrong_state (ascii "XaTransaction::prepare") idle t.state, t, handles)

unfoldable pub rollback_idle_body : Driver → XaBranch → Handles → Outcome
rollback_idle_body driver t handles =
    if is_state idle t.state
    then (let (answer, handles1) = run_on_conn driver t (xa_rollback t.engine_id t.xid) handles in
        settle rolled_back t answer (try_restore_autocommit driver t handles1))
    else (wrong_state (ascii "XaTransaction::rollback") idle t.state, t, handles)

-- `PreparedXa::commit` and `PreparedXa::rollback`. A `PreparedXa` has no drop of its own.
unfoldable pub commit_prepared : Driver → XaBranch → Handles → Outcome
commit_prepared driver t handles =
    if is_state prepared t.state
    then (let (answer, handles1) =
          run_on_conn driver t (xa_commit t.engine_id t.xid false) handles in
        settle committed t answer handles1)
    else (wrong_state (ascii "PreparedXa::commit") prepared t.state, t, handles)

unfoldable pub rollback_prepared : Driver → XaBranch → Handles → Outcome
rollback_prepared driver t handles =
    if is_state prepared t.state
    then (let (answer, handles1) =
          run_on_conn driver t (xa_rollback_prepared t.engine_id t.xid) handles in
        settle rolled_back t answer handles1)
    else (wrong_state (ascii "PreparedXa::rollback") prepared t.state, t, handles)

-- The branch is dropped when the operation that consumed it returns; on success the branch of `end`
-- lives on.
abbrev pub dropped : Driver → Outcome → Outcome
dropped driver (answer, t, handles) = (answer, t, drop_branch driver t handles)

abbrev pub dropped_on_error : Driver → Outcome → Outcome
dropped_on_error driver (ok u, t, handles) = (ok u, t, handles)
dropped_on_error driver (err e, t, handles) = (err e, t, drop_branch driver t handles)

unfoldable pub end : Driver → XaBranch → Handles → Outcome
end driver t handles = dropped_on_error driver (end_body driver t handles)

unfoldable pub commit_one_phase : Driver → XaBranch → Handles → Outcome
commit_one_phase driver t handles = dropped driver (commit_one_phase_body driver t handles)

unfoldable pub rollback : Driver → XaBranch → Handles → Outcome
rollback driver t handles = dropped driver (rollback_body driver t handles)

unfoldable pub prepare : Driver → XaBranch → Handles → Outcome
prepare driver t handles = dropped driver (prepare_body driver t handles)

unfoldable pub rollback_idle : Driver → XaBranch → Handles → Outcome
rollback_idle driver t handles = dropped driver (rollback_idle_body driver t handles)

unfoldable pub resume_prepared : Driver → Handles → ℕ → Xid → XaBranch
resume_prepared driver handles conn_id xid = record {
  conn_id = conn_id;
  xid = xid;
  engine_id = detect_engine_id driver handles conn_id;
  state = prepared;
}
