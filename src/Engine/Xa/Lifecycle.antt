-- ===== src/Engine/Xa/Lifecycle.antt =====
-- The whole life of a branch that is active.
use dart_odbc_fast.Prelude.{true, false, ◌∷◌, some, ok, err, ◌≡◌, refl, ◌∙◌, inl, inr}
use dart_odbc_fast.Error.{OdbcError}
use dart_odbc_fast.Engine.Transaction.Connection.{
  execute, set_autocommit, Log, Driver, Handles, update, autocommit,
}
use dart_odbc_fast.Engine.Transaction.Begin.{send_or_fail}
use dart_odbc_fast.Engine.Transaction.Ends.{update_self}
use dart_odbc_fast.Engine.Transaction.Laws.{send_or_fail_lem}
use dart_odbc_fast.Engine.Transaction.Scope.{Accepts}
use dart_odbc_fast.Engine.Xa.Sql.{xa_end, xa_commit, xa_rollback}
use dart_odbc_fast.Engine.Xa.Branch.{
  XaState, active, idle, committed, rolled_back, XaBranch, drop_branch,
}
use dart_odbc_fast.Engine.Xa.Live.{run_on_conn-live, rollback_live, end_live, commit_one_phase_live}
use dart_odbc_fast.Engine.Xa.Client.{
  IdleClient, ActiveClient, work, quit, cancel, commit_one_phase, end_then, run_active, idle_goal,
  goal, Off,
}
use dart_odbc_fast.Engine.Xa.TwoPhase.{drop_closes, idle_closes}
use dart_odbc_fast.Engine.Xa.Ends.{
  commit-Sends, rollback-Sends, sent-Did, later-Did, switch_on, Ended, settle-Ended, Ended-updated,
}

module _ (driver : Driver) (accepts : Accepts driver) (t : XaBranch) (handles : Handles) (log : Log)
    (running : t.state ≡ active) (live : handles t.conn_id ≡ some log)
    (off : autocommit driver log ≡ false) where
  cancel_closes : Ended driver t handles rolled_back (run_active driver cancel t handles)
  unfolding run_active
  cancel_closes =
      let sql = xa_rollback t.engine_id t.xid in
      let log1 = (send_or_fail driver (xa_end t.engine_id t.xid) log).1 in
      let log2 = (send_or_fail driver sql log1).1 in
      let off1 : autocommit driver log1 ≡ false =
        send_or_fail_lem driver (xa_end t.engine_id t.xid) log ∙ off in
      let on = switch_on driver log2 accepts in
      rw (rollback_live driver t handles log live running) (
        settle-Ended driver t handles rolled_back (send_or_fail driver sql log1).0
          (set_autocommit true ∷ log2)
          (λ fine. record {
            restored = on;
            reached = λ h. refl;
            commits = λ h. cc;
            rolls = λ h. inl (
                later-Did driver sql (Off driver) log2 _ (
                  sent-Did driver sql (Off driver) log1 (rollback-Sends t.engine_id t.xid) fine
                    off1));
            prepares = λ h. cc;
            abandons = λ h. cc;
          })
          on)

  -- An operation that fails at the end of the branch's work rolls it back by the drop.
  refused_closes :
      (e : OdbcError) (target : XaState) (log1 : Log)
      → Ended driver t handles target
          (err e, t, drop_branch driver t (update handles t.conn_id log1))
  refused_closes e target log1 = Ended-updated driver t handles t.state log1 target _ (
      drop_closes driver accepts t (update handles t.conn_id log1) log1 active running refl
        (update_self handles t.conn_id log1) (err e) target (λ h. cc))

  one_phase_closes : Ended driver t handles committed (run_active driver commit_one_phase t handles)
  unfolding run_active
  one_phase_closes =
      let sql = xa_commit t.engine_id t.xid true in
      let log1 = (send_or_fail driver (xa_end t.engine_id t.xid) log).1 in
      let log2 = (send_or_fail driver sql log1).1 in
      let off1 : autocommit driver log1 ≡ false =
        send_or_fail_lem driver (xa_end t.engine_id t.xid) log ∙ off in
      let on = switch_on driver log2 accepts in
      elim (commit_one_phase_live driver t handles log live running) [
        | inl (_, e) ↦ rw e (
            settle-Ended driver t handles committed (send_or_fail driver sql log1).0
              (set_autocommit true ∷ log2)
              (λ fine. record {
                restored = on;
                reached = λ h. refl;
                commits = λ h. inl (
                    later-Did driver sql (Off driver) log2 _ (
                      sent-Did driver sql (Off driver) log1 (commit-Sends t.engine_id t.xid true)
                        fine off1));
                rolls = λ h. cc;
                prepares = λ h. cc;
                abandons = λ h. cc;
              })
              on)
        | inr (x, _, e) ↦ rw e (refused_closes x committed log1)
      ]

  end_closes :
      (next : IdleClient)
      → Ended driver t handles (idle_goal next) (run_active driver (end_then next) t handles)
  unfolding run_active
  end_closes next =
      let log1 = (send_or_fail driver (xa_end t.engine_id t.xid) log).1 in
      let off1 : autocommit driver log1 ≡ false =
        send_or_fail_lem driver (xa_end t.engine_id t.xid) log ∙ off in
      elim (end_live driver t handles log live running) [
        | inl (_, e) ↦ rw e (
            Ended-updated driver t handles idle log1 (idle_goal next) _ (
              idle_closes driver accepts (record t { state = idle }) (update handles t.conn_id log1)
                next log1 refl (update_self handles t.conn_id log1) off1))
        | inr (x, _, e) ↦ rw e (refused_closes x (idle_goal next) log1)
      ]

-- For every client of an active branch whose connection is open with autocommit off, over a driver
-- that accepts to switch autocommit on: whatever else the driver refuses, the life of the branch
-- ends with autocommit on again, and only the branch's connection has had calls. The branch is
-- `Committed` only if the driver has accepted a one-phase commit while autocommit was off, or the
-- second phase after it had accepted the first; `Prepared` only if it has accepted the first phase;
-- `RolledBack` only if it has accepted a rollback, of the second kind only after the first phase. A
-- branch left `Active` or `Idle` has been rolled back by its drop. If nothing fails, the branch is
-- in the state that the client aims at.
pub run_active_lem :
    (client : ActiveClient) (driver : Driver) (t : XaBranch) (handles : Handles) (log : Log)
    → Accepts driver
    → t.state ≡ active
    → handles t.conn_id ≡ some log
    → autocommit driver log ≡ false
    → Ended driver t handles (goal client) (run_active driver client t handles)
unfolding run_active
run_active_lem (work sql next) driver t handles log accepts running live off =
    rw (run_on_conn-live driver t (ok (some sql)) handles log live) (
      Ended-updated driver t handles t.state (execute sql ∷ log) (goal next) _ (
        run_active_lem next driver t (update handles t.conn_id (execute sql ∷ log))
          (execute sql ∷ log) accepts running (update_self handles t.conn_id (execute sql ∷ log))
          (unfold autocommit in off)))
run_active_lem quit driver t handles log accepts running live off =
    drop_closes driver accepts t handles log active running refl live (ok tt) active (λ h. refl)
run_active_lem cancel driver t handles log accepts running live off =
    cancel_closes driver accepts t handles log running live off
run_active_lem commit_one_phase driver t handles log accepts running live off =
    one_phase_closes driver accepts t handles log running live off
run_active_lem (end_then next) driver t handles log accepts running live off =
    end_closes driver accepts t handles log running live off next
