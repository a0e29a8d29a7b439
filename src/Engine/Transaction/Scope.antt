-- ===== src/Engine/Transaction/Scope.antt =====
-- `execute_with_lock_timeout`: a closure inside a transaction.
use dart_odbc_fast.Prelude.{
  ℕ, true, false, List, ◌∷◌, ◌++◌, map, some, ok, err, ◌>>=◌, ◌≡◌, refl, sym, ap, ◌∙◌, ◌⊎◌, inl,
  inr,
}
use dart_odbc_fast.Wire.{Bytes}
use dart_odbc_fast.Error.{OdbcError, OdbcResult}
use dart_odbc_fast.Engine.Transaction.{
  IsolationLevel, TransactionAccessMode, SavepointDialect, LockTimeout,
}
use dart_odbc_fast.Engine.Transaction.Connection.{
  execute, commit_call, rollback_call, set_autocommit, Log, Driver, Handles, update, autocommit,
}
use dart_odbc_fast.Engine.Transaction.Begin.{Transaction, begin_with_lock_timeout}
use dart_odbc_fast.Engine.Transaction.Lifecycle.{
  rollback, execute_with_lock_timeout, settle, run_closure,
}
use dart_odbc_fast.Engine.Transaction.Ends.{update_self, commit_live, rollback_live}
use dart_odbc_fast.Engine.Transaction.Laws.{
  Begun, begin_with_lock_timeout_lem, autocommit-statements,
}

-- A closure that works on the transaction's connection by statements alone, and leaves it open.
abbrev pub OnlyStatements {ℓ} :
    {T : Type ℓ} → (Transaction → Handles → OdbcResult T × Handles) → Type 0
OnlyStatements f =
    (t : Transaction) (handles : Handles) (log : Log)
    → handles t.conn_id ≡ some log
    → (sqls : List Bytes) × ((f t handles).1 t.conn_id ≡ some (map execute sqls ++ log))

-- A driver that accepts to switch autocommit on.
abbrev pub Accepts : Driver → Type 0
Accepts driver = (log : Log) → driver.answer log (set_autocommit true) ≡ ok tt

module _ {ℓ} {T : Type ℓ} (driver : Driver) (handles : Handles) (id : ℕ) (level : IsolationLevel)
    (dialect : SavepointDialect) (mode : TransactionAccessMode) (timeout : LockTimeout)
    (f : Transaction → Handles → OdbcResult T × Handles) where
  abbrev pub begun : OdbcResult Transaction × Handles
  begun = begin_with_lock_timeout driver handles id level dialect mode timeout

  -- What the closure is run on, and the connection behind it: `log2`, with autocommit off.
  abbrev pub Ran : Transaction → Log → OdbcResult T → Handles → Log → Type ℓ
  Ran t log1 r h2 log2 =
      (begun ≡ (ok t, update handles id log1))
      × Begun driver id t log1
      × (f t (update handles id log1) ≡ (r, h2))
      × (h2 id ≡ some log2)
      × (autocommit driver log2 ≡ false)

  -- The three ways in which a transaction's scope ends, and the calls that are the last ones then.
  abbrev pub Outcome : Log → OdbcResult T × Handles → Type ℓ
  Outcome log outcome =
      ((e : OdbcError) × (log1 : Log) × (begun ≡ (err e, update handles id log1))
        × (outcome ≡ (err e, update handles id log1))
        × (autocommit driver log1 ≡ autocommit driver log))
      ⊎ ((t : Transaction) × (log1 : Log) × (e : OdbcError) × (h2 : Handles) × (log2 : Log) × Ran t
            log1 (err e) h2 log2
          × (outcome ≡ (err e, update h2 id (set_autocommit true ∷ rollback_call ∷ log2))))
      ⊎ ((t : Transaction) × (log1 : Log) × (v : T) × (h2 : Handles) × (log2 : Log) × Ran t log1
            (ok v) h2 log2
          × (outcome ≡ (
            driver.answer log2 commit_call >>= (λ u. ok v),
            update h2 id (set_autocommit true ∷ commit_call ∷ log2),
          )))

  closure_step :
      (log log1 log2 : Log) (t : Transaction) (h2 : Handles) (r : OdbcResult T)
      → Ran t log1 r h2 log2
      → Outcome log (execute_with_lock_timeout driver handles id level dialect mode timeout f)
  unfolding execute_with_lock_timeout
  closure_step log log1 log2 t h2 (err e) (begins, b, run, live, off) =
      let live' : h2 t.conn_id ≡ some log2 = rw b.on live in
      let ended : ◌≡◌ {A = OdbcResult T × Handles} (err e, (rollback driver t h2).1)
          (err e, update h2 id (set_autocommit true ∷ rollback_call ∷ log2)) =
        rw (rollback_live driver t h2 log2 b.running live', b.on) refl in
      inr (
        inl (
          t,
          log1,
          e,
          h2,
          log2,
          (begins, b, run, live, off),
          ap (run_closure driver f) begins ∙ ap (settle driver t) run ∙ ended,
        ))
  closure_step log log1 log2 t h2 (ok v) (begins, b, run, live, off) =
      let live' : h2 t.conn_id ≡ some log2 = rw b.on live in
      let ended : settle driver t (ok v, h2) ≡ (
        driver.answer log2 commit_call >>= (λ u. ok v),
        update h2 id (set_autocommit true ∷ commit_call ∷ log2),
      ) =
        rw (commit_live driver t h2 log2 b.running live', b.on) refl in
      inr (
        inr (
          t,
          log1,
          v,
          h2,
          log2,
          (begins, b, run, live, off),
          ap (run_closure driver f) begins ∙ ap (settle driver t) run ∙ ended,
        ))

  -- For a closure that only sends statements on an open connection: if `begin_with_lock_timeout`
  -- fails, its error is returned and autocommit is as before; otherwise the closure is run on the
  -- transaction that has begun. If the closure fails, its error is returned after a rollback; if it
  -- succeeds, the transaction is committed, and its value is returned exactly if the driver accepts
  -- the commit, whose error is returned otherwise. The rollback or the commit follows the closure's
  -- last statement, while autocommit is off, and switching it on again is the last call.
  pub execute_with_lock_timeout_lem :
      (log : Log)
      → handles id ≡ some log
      → OnlyStatements f
      → Outcome log (execute_with_lock_timeout driver handles id level dialect mode timeout f)
  execute_with_lock_timeout_lem log live only =
      elim (begin_with_lock_timeout_lem driver handles id level dialect mode timeout log live) [
        | inl (t, log1, begins, b) ↦
            let open_now : update handles id log1 t.conn_id ≡ some log1 =
              rw b.on (update_self handles id log1) in
            let (sqls, live2) = only t (update handles id log1) log1 open_now in
            let live3 : (f t (update handles id log1)).1 id ≡ some (map execute sqls ++ log1) =
              sym (ap (λ k. (f t (update handles id log1)).1 k) b.on) ∙ live2 in
            closure_step log log1 (map execute sqls ++ log1) t (f t (update handles id log1)).1
              (f t (update handles id log1)).0
              (begins, b, refl, live3, rw (autocommit-statements driver sqls log1) b.off)
        | inr (e, log1, begins, same) ↦ inl (
          e,
          log1,
          begins,
          unfold execute_with_lock_timeout in ap (run_closure driver f) begins,
          same,
        )
      ]
