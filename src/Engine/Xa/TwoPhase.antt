-- ===== src/Engine/Xa/TwoPhase.antt =====
-- How the life of a branch ends, for every client.
use dart_odbc_fast.Prelude.{
  ◌||◌, ◌≢◌, true, false, ◌∷◌, some, ok, err, ◌≡◌, refl, sym, ap, ◌∙◌, inl, inr, Bool,
}
use dart_odbc_fast.Error.{OdbcResult}
use dart_odbc_fast.Engine.Transaction.Connection.{
  set_autocommit, Log, Driver, Handles, update, autocommit,
}
use dart_odbc_fast.Engine.Transaction.Begin.{send_or_fail}
use dart_odbc_fast.Engine.Transaction.Ends.{update_self}
use dart_odbc_fast.Engine.Transaction.Laws.{send_or_fail_lem}
use dart_odbc_fast.Engine.Transaction.Scope.{Accepts}
use dart_odbc_fast.Engine.Xa.Sql.{xa_end, xa_prepare, xa_commit, xa_rollback, xa_rollback_prepared}
use dart_odbc_fast.Engine.Xa.Branch.{
  is_state, XaState, active, idle, prepared, committed, rolled_back, failed, XaBranch, settle,
  drop_branch,
}
use dart_odbc_fast.Engine.Xa.Live.{
  prepare_live, rollback_idle_live, commit_prepared_live, rollback_prepared_live, drop_live,
}
use dart_odbc_fast.Engine.Xa.Client.{
  PreparedClient, abandon, commit, rollback, IdleClient, leave, undo, prepare_then, and_next,
  run_prepared, run_idle, prepared_goal, idle_goal, Did, Off,
}
use dart_odbc_fast.Engine.Xa.Ends.{
  commit-Sends, prepare-Sends, rollback-Sends, rollback_prepared-Sends, sent-Did, later-Did,
  switch_on, Ended, settle-Ended, update_same, Ended-updated,
}

module _ (driver : Driver) (accepts : Accepts driver) (t : XaBranch) (handles : Handles) where
  abbrev Prepared : Log → Type 0
  Prepared = Did driver (xa_prepare t.engine_id t.xid) (Off driver)

  prepared_closes :
      (client : PreparedClient) (log : Log)
      → t.state ≡ prepared
      → handles t.conn_id ≡ some log
      → autocommit driver log ≡ true
      → Prepared log
      → Ended driver t handles (prepared_goal client) (run_prepared driver client t handles)
  unfolding run_prepared
  prepared_closes abandon log here live on before = (
    ok tt,
    prepared,
    log,
    λ i. (ok tt, record t { state = here i }, sym (update_same handles t.conn_id log live) i),
    record {
      restored = on;
      reached = λ h. refl;
      commits = λ h. cc;
      rolls = λ h. cc;
      prepares = λ h. before;
      abandons = λ h. cc;
    },
  )
  prepared_closes commit log here live on before =
      let sql = xa_commit t.engine_id t.xid false in
      let after : autocommit driver (send_or_fail driver sql log).1 ≡ true =
        send_or_fail_lem driver sql log ∙ on in
      rw (commit_prepared_live driver t handles log live here) (
        settle-Ended driver t handles committed (send_or_fail driver sql log).0
          (send_or_fail driver sql log).1
          (λ fine. record {
            restored = after;
            reached = λ h. refl;
            commits = λ h. inr (
                sent-Did driver sql Prepared log (commit-Sends t.engine_id t.xid false) fine
                  before);
            rolls = λ h. cc;
            prepares = λ h. cc;
            abandons = λ h. cc;
          })
          after)
  prepared_closes rollback log here live on before =
      let sql = xa_rollback_prepared t.engine_id t.xid in
      let after : autocommit driver (send_or_fail driver sql log).1 ≡ true =
        send_or_fail_lem driver sql log ∙ on in
      rw (rollback_prepared_live driver t handles log live here) (
        settle-Ended driver t handles rolled_back (send_or_fail driver sql log).0
          (send_or_fail driver sql log).1
          (λ fine. record {
            restored = after;
            reached = λ h. refl;
            commits = λ h. cc;
            rolls = λ h. inr (
                sent-Did driver sql Prepared log (rollback_prepared-Sends t.engine_id t.xid) fine
                  before);
            prepares = λ h. cc;
            abandons = λ h. cc;
          })
          after)

abbrev pub opened : XaState → Bool
opened s = is_state active s || is_state idle s

opened_ne :
    (s closed_state : XaState) → opened s ≡ true → opened closed_state ≡ false → s ≢ closed_state
opened_ne s closed_state h c e = cc (ap opened e)

module _ (driver : Driver) (accepts : Accepts driver) (t : XaBranch) (handles : Handles) where
  -- A drop of a branch that is active or idle.
  pub drop_closes :
      (log : Log) (s : XaState)
      → t.state ≡ s
      → opened s ≡ true
      → handles t.conn_id ≡ some log
      → (answer : OdbcResult (Unit {0})) (target : XaState) → (answer ≡ ok tt → s ≡ target)
      → Ended driver t handles target (answer, t, drop_branch driver t handles)
  drop_closes log s here open_now live answer target agree =
      let sql1 = xa_end t.engine_id t.xid in
      let sql2 = xa_rollback t.engine_id t.xid in
      let log1 = (send_or_fail driver sql1 log).1 in
      let log2 = (send_or_fail driver sql2 log1).1 in
      (
        answer,
        s,
        set_autocommit true ∷ log2,
        λ i. (
          answer,
          record t { state = here i },
          drop_live driver t handles log live (rw here open_now) i,
        ),
        record {
          restored = switch_on driver log2 accepts;
          reached = agree;
          commits = λ h. absurd (opened_ne s committed open_now refl h);
          rolls = λ h. absurd (opened_ne s rolled_back open_now refl h);
          prepares = λ h. absurd (opened_ne s prepared open_now refl h);
          abandons = λ h. (log, refl);
        },
      )

  prepare_step :
      (next : PreparedClient) (log : Log) (a : OdbcResult (Unit {0}))
      → (a ≡ ok tt → Did driver (xa_prepare t.engine_id t.xid) (Off driver) log)
      → autocommit driver log ≡ true
      → Ended driver t handles
          (prepared_goal next)
          (and_next (settle prepared t a (update handles t.conn_id log)) (run_prepared driver next))
  prepare_step next log (ok u) did on =
      Ended-updated driver t handles prepared log (prepared_goal next) _ (
        prepared_closes driver accepts (record t { state = prepared })
          (update handles t.conn_id log) next log refl (update_self handles t.conn_id log) on
          (did refl))
  prepare_step next log (err e) did on = (
    err e,
    failed,
    log,
    refl,
    record {
      restored = on;
      reached = λ h. cc;
      commits = λ h. cc;
      rolls = λ h. cc;
      prepares = λ h. cc;
      abandons = λ h. cc;
    },
  )

  pub idle_closes :
      (client : IdleClient) (log : Log)
      → t.state ≡ idle
      → handles t.conn_id ≡ some log
      → autocommit driver log ≡ false
      → Ended driver t handles (idle_goal client) (run_idle driver client t handles)
  unfolding run_idle
  idle_closes leave log here live off = drop_closes log idle here refl live (ok tt) idle (λ h. refl)
  idle_closes undo log here live off =
      let sql = xa_rollback t.engine_id t.xid in
      let log1 = (send_or_fail driver sql log).1 in
      let on = switch_on driver log1 accepts in
      rw (rollback_idle_live driver t handles log live here) (
        settle-Ended driver t handles rolled_back (send_or_fail driver sql log).0
          (set_autocommit true ∷ log1)
          (λ fine. record {
            restored = on;
            reached = λ h. refl;
            commits = λ h. cc;
            rolls = λ h. inl (
                later-Did driver sql (Off driver) log1 _ (
                  sent-Did driver sql (Off driver) log (rollback-Sends t.engine_id t.xid) fine
                    off));
            prepares = λ h. cc;
            abandons = λ h. cc;
          })
          on)
  idle_closes (prepare_then next) log here live off =
      let sql = xa_prepare t.engine_id t.xid in
      let log1 = (send_or_fail driver sql log).1 in
      rw (prepare_live driver t handles log live here) (
        prepare_step next (set_autocommit true ∷ log1) (send_or_fail driver sql log).0
          (λ fine.
            later-Did driver sql (Off driver) log1 _
              (sent-Did driver sql (Off driver) log (prepare-Sends t.engine_id t.xid) fine off))
          (switch_on driver log1 accepts))
