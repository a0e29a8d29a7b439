-- ===== src/Engine/Xa/Live.antt =====
-- What each operation of a branch does on a live connection.
use mathlib.Core.Path.{fun_ext}
use dart_odbc_fast.Prelude.{
  ℕ, true, false, ◌||◌, ◌∷◌, some, ok, err, ◌≡◌, refl, ap, ◌∙◌, arith, Option, Result-cases, ◌⊎◌,
  inl, inr,
}
use dart_odbc_fast.Wire.{Bytes}
use dart_odbc_fast.Error.{OdbcError, OdbcResult}
use dart_odbc_fast.Engine.Transaction.Connection.{set_autocommit, Log, Driver, Handles, update}
use dart_odbc_fast.Engine.Transaction.Begin.{send_or_fail}
use dart_odbc_fast.Engine.Transaction.Ends.{update_self, get_connection-live}
use dart_odbc_fast.Engine.Xa.Sql.{xa_end, xa_prepare, xa_commit, xa_rollback, xa_rollback_prepared}
use dart_odbc_fast.Engine.Xa.Branch.{
  XaState, active, idle, prepared, committed, rolled_back, XaBranch, run_on_conn,
  try_restore_autocommit, is_state, settle, dropped, drop_branch, end_body, commit_one_phase_body,
  rollback_body, prepare_body, rollback_idle_body, commit_prepared, rollback_prepared, end,
  commit_one_phase, rollback, prepare, rollback_idle,
}

pub update-update :
    (handles : Handles) (id : ℕ) (log log' : Log)
    → update (update handles id log) id log' ≡ update handles id log'
update-update handles id log log' = fun_ext (λ k. ground arith)

pub run_on_conn-live :
    (driver : Driver) (t : XaBranch) (sql : OdbcResult (Option Bytes)) (handles : Handles)
    (log : Log)
    → handles t.conn_id ≡ some log
    → run_on_conn driver t sql handles
      ≡ ((send_or_fail driver sql log).0, update handles t.conn_id (send_or_fail driver sql log).1)
unfolding run_on_conn
run_on_conn-live driver t sql handles log live =
    rw (run_on_conn, get_connection-live handles t.conn_id log live) refl

run_on_conn-updated :
    (driver : Driver) (t : XaBranch) (sql : OdbcResult (Option Bytes)) (handles : Handles)
    (log : Log)
    → run_on_conn driver t sql (update handles t.conn_id log)
      ≡ ((send_or_fail driver sql log).0, update handles t.conn_id (send_or_fail driver sql log).1)
run_on_conn-updated driver t sql handles log =
    run_on_conn-live driver t sql (update handles t.conn_id log) log
      (update_self handles t.conn_id log)
    ∙ ap (λ h. ((send_or_fail driver sql log).0, h)) (update-update handles t.conn_id log _)

restore-updated :
    (driver : Driver) (t : XaBranch) (handles : Handles) (log : Log)
    → try_restore_autocommit driver t (update handles t.conn_id log)
      ≡ update handles t.conn_id (set_autocommit true ∷ log)
unfolding try_restore_autocommit
restore-updated driver t handles log =
    rw
      (
        try_restore_autocommit,
        get_connection-live (update handles t.conn_id log) t.conn_id log
            (update_self handles t.conn_id log),
        update-update handles t.conn_id log,
      )
      refl

-- A branch that has left both states in which it can be rolled back is not touched by its drop.
dropped-settle :
    (driver : Driver) (good : XaState) (t : XaBranch) (r : OdbcResult (Unit {0}))
    (handles : Handles)
    → (is_state active good || is_state idle good) ≡ false
    → dropped driver (settle good t r handles) ≡ settle good t r handles
unfolding drop_branch
dropped-settle driver good t (ok u) handles h = rw h refl
dropped-settle driver good t (err e) handles h = refl

module _ (driver : Driver) (t : XaBranch) (handles : Handles) (log : Log)
    (live : handles t.conn_id ≡ some log) where
  -- The answer to a statement, and the calls of the connection with it.
  abbrev Sent : OdbcResult (Option Bytes) → OdbcResult (Unit {0}) × Log
  Sent sql = send_or_fail driver sql log

  on_live :
      (sql : OdbcResult (Option Bytes))
      → run_on_conn driver t sql handles ≡ ((Sent sql).0, update handles t.conn_id (Sent sql).1)
  on_live sql = run_on_conn-live driver t sql handles log live

  pub prepare_live :
      t.state ≡ idle
      → prepare driver t handles
        ≡ settle prepared t (Sent (xa_prepare t.engine_id t.xid)).0 (
            update handles t.conn_id
              (set_autocommit true ∷ (Sent (xa_prepare t.engine_id t.xid)).1))
  unfolding prepare prepare_body
  prepare_live here =
      let test : is_state idle t.state ≡ true = rw here refl in
      rw (test, on_live (xa_prepare t.engine_id t.xid), restore-updated)
        (dropped-settle driver prepared t _ _ refl)

  pub rollback_idle_live :
      t.state ≡ idle
      → rollback_idle driver t handles
        ≡ settle rolled_back t (Sent (xa_rollback t.engine_id t.xid)).0 (
            update handles t.conn_id
              (set_autocommit true ∷ (Sent (xa_rollback t.engine_id t.xid)).1))
  unfolding rollback_idle rollback_idle_body
  rollback_idle_live here =
      let test : is_state idle t.state ≡ true = rw here refl in
      rw (test, on_live (xa_rollback t.engine_id t.xid), restore-updated)
        (dropped-settle driver rolled_back t _ _ refl)

  pub commit_prepared_live :
      t.state ≡ prepared
      → commit_prepared driver t handles
        ≡ settle committed t
            (Sent (xa_commit t.engine_id t.xid false)).0
            (update handles t.conn_id (Sent (xa_commit t.engine_id t.xid false)).1)
  unfolding commit_prepared
  commit_prepared_live here =
      let test : is_state prepared t.state ≡ true = rw here refl in
      rw (test, on_live (xa_commit t.engine_id t.xid false)) refl

  pub rollback_prepared_live :
      t.state ≡ prepared
      → rollback_prepared driver t handles
        ≡ settle rolled_back t
            (Sent (xa_rollback_prepared t.engine_id t.xid)).0
            (update handles t.conn_id (Sent (xa_rollback_prepared t.engine_id t.xid)).1)
  unfolding rollback_prepared
  rollback_prepared_live here =
      let test : is_state prepared t.state ≡ true = rw here refl in
      rw (test, on_live (xa_rollback_prepared t.engine_id t.xid)) refl

  pub rollback_live :
      t.state ≡ active
      → rollback driver t handles ≡ (
          let log1 = (Sent (xa_end t.engine_id t.xid)).1 in
          settle rolled_back t (send_or_fail driver (xa_rollback t.engine_id t.xid) log1).0 (
            update handles t.conn_id
              (set_autocommit true ∷ (send_or_fail driver (xa_rollback t.engine_id t.xid) log1).1)))
  unfolding rollback rollback_body
  rollback_live here =
      let test : is_state active t.state ≡ true = rw here refl in
      rw
        (
          test,
          on_live (xa_end t.engine_id t.xid),
          run_on_conn-updated driver t (xa_rollback t.engine_id t.xid) handles,
          restore-updated,
        )
        (dropped-settle driver rolled_back t _ _ refl)

  pub drop_live :
      (is_state active t.state || is_state idle t.state) ≡ true
      → drop_branch driver t handles ≡ (
          let log1 = (Sent (xa_end t.engine_id t.xid)).1 in
          update handles t.conn_id
            (set_autocommit true ∷ (send_or_fail driver (xa_rollback t.engine_id t.xid) log1).1))
  unfolding drop_branch
  drop_live here = rw (here, get_connection-live handles t.conn_id log live) refl

  -- `end` either detaches the branch, or is refused, and then the branch is rolled back by its drop.
  pub end_live :
      t.state ≡ active
      → ((Sent (xa_end t.engine_id t.xid)).0 ≡ ok tt)
          × (end driver t handles ≡ (
            ok tt,
            record t { state = idle },
            update handles t.conn_id (Sent (xa_end t.engine_id t.xid)).1,
          ))
        ⊎ ((e : OdbcError) × ((Sent (xa_end t.engine_id t.xid)).0 ≡ err e)
            × (end driver t handles ≡ (
              err e,
              t,
              drop_branch driver t (update handles t.conn_id (Sent (xa_end t.engine_id t.xid)).1),
            )))
  unfolding end end_body
  end_live here =
      let test : is_state active t.state ≡ true = rw here refl in
      elim (Result-cases (Sent (xa_end t.engine_id t.xid)).0) [
        | inl (u, e) ↦ inl (
          e,
          rw (test, on_live (xa_end t.engine_id t.xid), e, on_live (xa_end t.engine_id t.xid)) refl,
        )
        | inr (x, e) ↦ inr (
          x,
          e,
          rw (test, on_live (xa_end t.engine_id t.xid), e, on_live (xa_end t.engine_id t.xid)) refl,
        )
      ]

  pub commit_one_phase_live :
      t.state ≡ active
      → ((Sent (xa_end t.engine_id t.xid)).0 ≡ ok tt)
          × (commit_one_phase driver t handles ≡ (
              let log1 = (Sent (xa_end t.engine_id t.xid)).1 in
              settle committed t (send_or_fail driver (xa_commit t.engine_id t.xid true) log1).0 (
                update handles t.conn_id (
                  set_autocommit true
                  ∷ (send_or_fail driver (xa_commit t.engine_id t.xid true) log1).1))))
        ⊎ ((e : OdbcError) × ((Sent (xa_end t.engine_id t.xid)).0 ≡ err e)
            × (commit_one_phase driver t handles ≡ (
              err e,
              t,
              drop_branch driver t (update handles t.conn_id (Sent (xa_end t.engine_id t.xid)).1),
            )))
  unfolding commit_one_phase commit_one_phase_body
  commit_one_phase_live here =
      let test : is_state active t.state ≡ true = rw here refl in
      elim (Result-cases (Sent (xa_end t.engine_id t.xid)).0) [
        | inl (u, e) ↦ inl (
          e,
          rw
              (
                test,
                on_live (xa_end t.engine_id t.xid),
                e,
                on_live (xa_end t.engine_id t.xid),
                run_on_conn-updated driver t (xa_commit t.engine_id t.xid true) handles,
                restore-updated,
              )
              (dropped-settle driver committed t _ _ refl),
        )
        | inr (x, e) ↦ inr (
          x,
          e,
          rw (test, on_live (xa_end t.engine_id t.xid), e, on_live (xa_end t.engine_id t.xid)) refl,
        )
      ]
