-- ===== src/Engine/Xa/Ends.antt =====
-- What holds at the end of a life of a branch.
use mathlib.Core.Path.{fun_ext}
use dart_odbc_fast.Prelude.{
  ℕ, ◌==◌, ==_iff, Bool-cases, true, false, ◌∷◌, Option, none, some, ok, err, ◌≡◌, refl, sym, ap,
  ◌∙◌, inl, inr, Bool,
}
use dart_odbc_fast.Wire.{Bytes}
use dart_odbc_fast.Error.{OdbcResult}
use dart_odbc_fast.Engine.Capabilities.{EngineId, postgres}
use dart_odbc_fast.Engine.Xid.{Xid}
use dart_odbc_fast.Engine.Transaction.Connection.{
  Call, set_autocommit, Log, Driver, Handles, update, autocommit,
}
use dart_odbc_fast.Engine.Transaction.Begin.{send_or_fail}
use dart_odbc_fast.Engine.Transaction.Scope.{Accepts}
use dart_odbc_fast.Engine.Xa.Sql.{xa_prepare, xa_commit, xa_rollback, xa_rollback_prepared}
use dart_odbc_fast.Engine.Xa.Branch.{XaState, failed, XaBranch, Outcome, settle}
use dart_odbc_fast.Engine.Xa.Live.{update-update}
use dart_odbc_fast.Engine.Xa.Client.{Did, Closed}

-- A step that never succeeds without a statement.
abbrev pub Sends : OdbcResult (Option Bytes) → Type 0
Sends (ok (some sql)) = Unit {0}
Sends (ok none) = ⊥
Sends (err e) = Unit {0}

pub commit-Sends :
    (engine : EngineId) (xid : Xid) (one_phase : Bool) → Sends (xa_commit engine xid one_phase)
unfolding xa_commit
commit-Sends postgres xid true = tt
commit-Sends postgres xid false = tt
commit-Sends _ xid one_phase = tt

pub prepare-Sends : (engine : EngineId) (xid : Xid) → Sends (xa_prepare engine xid)
unfolding xa_prepare
prepare-Sends postgres xid = tt
prepare-Sends _ xid = tt

pub rollback-Sends : (engine : EngineId) (xid : Xid) → Sends (xa_rollback engine xid)
unfolding xa_rollback
rollback-Sends postgres xid = tt
rollback-Sends _ xid = tt

pub rollback_prepared-Sends :
    (engine : EngineId) (xid : Xid) → Sends (xa_rollback_prepared engine xid)
unfolding xa_rollback_prepared xa_rollback
rollback_prepared-Sends postgres xid = tt
rollback_prepared-Sends _ xid = tt

pub sent-Did :
    (driver : Driver) (sql : OdbcResult (Option Bytes)) (P : Log → Type 0) (log : Log)
    → Sends sql
    → (send_or_fail driver sql log).0 ≡ ok tt
    → P log
    → Did driver sql P (send_or_fail driver sql log).1
sent-Did driver (ok (some sql)) P log s h p = inl (refl, h, p)
sent-Did driver (ok none) P log s h p = s
sent-Did driver (err e) P log s h p = cc

pub later-Did :
    (driver : Driver) (sql : OdbcResult (Option Bytes)) (P : Log → Type 0) (log : Log) (c : Call)
    → Did driver sql P log
    → Did driver sql P (c ∷ log)
later-Did driver (ok (some sql)) P log c h = inr h
later-Did driver (ok none) P log c h = h
later-Did driver (err e) P log c h = h

later_sent-Did :
    (driver : Driver) (sql next : OdbcResult (Option Bytes)) (P : Log → Type 0) (log : Log)
    → Did driver sql P log
    → Did driver sql P (send_or_fail driver next log).1
later_sent-Did driver sql (ok (some s)) P log h = later-Did driver sql P log _ h
later_sent-Did driver sql (ok none) P log h = h
later_sent-Did driver sql (err e) P log h = h

pub switch_on :
    (driver : Driver) (log : Log)
    → Accepts driver
    → autocommit driver (set_autocommit true ∷ log) ≡ true
unfolding autocommit
switch_on driver log accepts = rw (accepts log, autocommit) refl

-- The branch and the calls on its connection at the end of a life.
abbrev pub Ended : Driver → XaBranch → Handles → XaState → Outcome → Type 0
Ended driver t handles target outcome =
    (answer : OdbcResult (Unit {0})) × (s : XaState) × (log : Log) × (outcome
      ≡ (answer, record t { state = s }, update handles t.conn_id log))
    × Closed driver t.engine_id t.xid target answer s log

pub settle-Ended :
    (driver : Driver) (t : XaBranch) (handles : Handles) (good : XaState)
    (a : OdbcResult (Unit {0})) (log : Log)
    → (a ≡ ok tt → Closed driver t.engine_id t.xid good a good log)
    → autocommit driver log ≡ true
    → Ended driver t handles good (settle good t a (update handles t.conn_id log))
settle-Ended driver t handles good (ok u) log fine on = (ok u, good, log, refl, fine refl)
settle-Ended driver t handles good (err e) log fine on = (
  err e,
  failed,
  log,
  refl,
  record {
    restored = on;
    reached = λ h. cc;
    commits = λ h. cc;
    rolls = λ h. cc;
    prepares = λ h. cc;
    abandons = λ h. cc;
  },
)

pub update_same :
    (handles : Handles) (id : ℕ) (log : Log)
    → handles id ≡ some log
    → update handles id log ≡ handles
update_same handles id log live = fun_ext (λ k. same k)
  where
    same : (k : ℕ) → update handles id log k ≡ handles k
    same k = elim (Bool-cases (k == id)) [
      | inl e ↦ let here : k ≡ id = (==_iff k id).0 e in rw e (rw here (sym live))
      | inr e ↦ rw e refl
    ]

-- A later part of a life, told from its start.
pub Ended-updated :
    (driver : Driver) (t : XaBranch) (handles : Handles) (s : XaState) (log : Log)
    (target : XaState) (outcome : Outcome)
    → Ended driver (record t { state = s }) (update handles t.conn_id log) target outcome
    → Ended driver t handles target outcome
Ended-updated driver t handles s log target outcome (answer, s', log', e, closed) = (
  answer,
  s',
  log',
  e ∙ ap (λ h. (answer, record t { state = s' }, h)) (update-update handles t.conn_id log log'),
  closed,
)
