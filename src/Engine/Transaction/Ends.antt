-- ===== src/Engine/Transaction/Ends.antt =====
-- What the ends of a transaction do to its connection, on every branch.
use dart_odbc_fast.Prelude.{
  ℕ, true, false, [], ◌∷◌, none, some, ok, err, ◌≡◌, refl, ◌⊎◌, inl, inr, arith, ==_self,
  Bool-cases,
}
use dart_odbc_fast.Error.{OdbcError, OdbcResult, invalid_handle, invalid, text}
use dart_odbc_fast.Engine.Transaction.{active, is_active_state, state_debug}
use dart_odbc_fast.Engine.Transaction.Connection.{
  commit_call, rollback_call, set_autocommit, Log, Driver, Handles, update, get_connection,
}
use dart_odbc_fast.Engine.Transaction.Begin.{Transaction}
use dart_odbc_fast.Engine.Transaction.Lifecycle.{
  state_after_commit, commit_body, rollback_body, drop_transaction, commit, rollback,
}

pub update_self : (handles : Handles) (id : ℕ) (log : Log) → update handles id log id ≡ some log
update_self handles id log = rw (==_self id) refl

pub get_connection-live :
    (handles : Handles) (id : ℕ) (log : Log)
    → handles id ≡ some log
    → get_connection handles id ≡ ok log
unfolding get_connection
get_connection-live handles id log h = rw (h, get_connection) refl

ended_lem : (r : OdbcResult (Unit {0})) → is_active_state (state_after_commit r) ≡ false
unfolding is_active_state
ended_lem (ok u) = refl
ended_lem (err e) = refl

-- On a live connection, `commit` of an active transaction makes two calls, whatever the driver
-- answers: the commit and then autocommit on. It returns the driver's answer to the commit, and
-- the drop that follows does nothing more.
pub commit_live :
    (driver : Driver) (t : Transaction) (handles : Handles) (log : Log)
    → t.state ≡ active
    → handles t.conn_id ≡ some log
    → commit driver t handles ≡ (
      driver.answer log commit_call,
      update handles t.conn_id (set_autocommit true ∷ commit_call ∷ log),
    )
unfolding commit commit_body drop_transaction is_active_state
commit_live driver t handles log running live =
    rw
      (
        running,
        get_connection-live handles t.conn_id log live,
        ended_lem (driver.answer log commit_call),
      )
      refl

pub rollback_live :
    (driver : Driver) (t : Transaction) (handles : Handles) (log : Log)
    → t.state ≡ active
    → handles t.conn_id ≡ some log
    → rollback driver t handles ≡ (
      driver.answer log rollback_call,
      update handles t.conn_id (set_autocommit true ∷ rollback_call ∷ log),
    )
unfolding rollback rollback_body drop_transaction is_active_state
rollback_live driver t handles log running live =
    rw (running, is_active_state, get_connection-live handles t.conn_id log live) refl

pub drop_live :
    (driver : Driver) (t : Transaction) (handles : Handles) (log : Log)
    → t.state ≡ active
    → handles t.conn_id ≡ some log
    → drop_transaction driver t handles
      ≡ update handles t.conn_id (set_autocommit true ∷ rollback_call ∷ log)
unfolding drop_transaction is_active_state
drop_live driver t handles log running live =
    rw (running, is_active_state, get_connection-live handles t.conn_id log live) refl

abbrev Idle : Transaction → Handles → Type 0
Idle t handles = (is_active_state t.state ≡ false) ⊎ (handles t.conn_id ≡ none)

drop-Idle :
    (driver : Driver) (t : Transaction) (handles : Handles)
    → Idle t handles
    → drop_transaction driver t handles ≡ handles
unfolding drop_transaction get_connection
drop-Idle driver t handles (inl ended) = rw ended refl
drop-Idle driver t handles (inr gone) = ground (arith, gone)

commit-Idle :
    (driver : Driver) (t : Transaction) (handles : Handles)
    → Idle t handles
    → (e : OdbcError) × (commit_body driver t handles ≡ (err e, t, handles))
unfolding commit_body get_connection
commit-Idle driver t handles (inl ended) = (
  invalid "Cannot commit: transaction state is {:?}" (text (state_debug t.state) ∷ []),
  rw ended refl,
)
commit-Idle driver t handles (inr gone) = elim (Bool-cases (is_active_state t.state)) [
  | inl running ↦ (invalid_handle t.conn_id, rw (running, gone) refl)
  | inr ended ↦ (
    invalid "Cannot commit: transaction state is {:?}" (text (state_debug t.state) ∷ []),
    rw ended refl,
  )
]

rollback-Idle :
    (driver : Driver) (t : Transaction) (handles : Handles)
    → Idle t handles
    → (e : OdbcError) × (rollback_body driver t handles ≡ (err e, t, handles))
unfolding rollback_body get_connection
rollback-Idle driver t handles (inl ended) = (
  invalid "Cannot rollback: transaction state is {:?}" (text (state_debug t.state) ∷ []),
  rw ended refl,
)
rollback-Idle driver t handles (inr gone) = elim (Bool-cases (is_active_state t.state)) [
  | inl running ↦ (invalid_handle t.conn_id, rw (running, gone) refl)
  | inr ended ↦ (
    invalid "Cannot rollback: transaction state is {:?}" (text (state_debug t.state) ∷ []),
    rw ended refl,
  )
]

-- A transaction that has ended, or whose connection is gone, makes no call in any of its ends:
-- `commit` and `rollback` return an error, and the drop does nothing.
pub ends_idle :
    (driver : Driver) (t : Transaction) (handles : Handles)
    → (is_active_state t.state ≡ false) ⊎ (handles t.conn_id ≡ none)
    → ((e : OdbcError) × (commit driver t handles ≡ (err e, handles)))
      × ((e : OdbcError) × (rollback driver t handles ≡ (err e, handles)))
      × (drop_transaction driver t handles ≡ handles)
unfolding commit rollback
ends_idle driver t handles idle =
    let (e, c) = commit-Idle driver t handles idle in
    let (e', r) = rollback-Idle driver t handles idle in
    let d = drop-Idle driver t handles idle in ((e, rw (c, d) refl), (e', rw (r, d) refl), d)
