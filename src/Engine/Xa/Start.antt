-- ===== src/Engine/Xa/Start.antt =====
-- How a branch starts, and what a start that fails leaves behind.
use dart_odbc_fast.Prelude.{
  ℕ, false, [], ◌∷◌, ◌++◌, some, ok, err, ◌≡◌, refl, ◌⊎◌, inl, inr, Result-cases, arith,
}
use dart_odbc_fast.Wire.{Bytes, ascii}
use dart_odbc_fast.Error.{OdbcError, OdbcResult}
use dart_odbc_fast.Engine.Capabilities.{EngineId, postgres, mysql, mariadb, db2, oracle}
use dart_odbc_fast.Engine.Xid.{Xid}
use dart_odbc_fast.Engine.Xid.RoundTrip.{XidFits}
use dart_odbc_fast.Engine.Transaction.Connection.{
  execute, set_autocommit, Log, Driver, Handles, update, autocommit,
}
use dart_odbc_fast.Engine.Transaction.Ends.{get_connection-live}
use dart_odbc_fast.Engine.Xa.Sql.{mysql_xa, oracle_xid_literal, oracle_xa_block, xa_start}
use dart_odbc_fast.Engine.Xa.Branch.{active, XaBranch, detect_engine_id, start}
use dart_odbc_fast.Engine.Xa.Statements.{branch_of, mysql_reads}

-- The engines with XA statements.
abbrev pub HasXa : EngineId → Type 0
HasXa postgres = Unit
HasXa mysql = Unit
HasXa mariadb = Unit
HasXa db2 = Unit
HasXa oracle = Unit
HasXa _ = ⊥

-- The statement that opens a branch: PostgreSQL names the branch only when it is prepared, MySQL,
-- MariaDB and DB2 name it from the start, and Oracle is called with the literal of its identifier.
abbrev pub Opens : EngineId → Xid → Bytes → Type 0
Opens postgres xid s = s ≡ ascii "BEGIN"
Opens mysql xid s = (s ≡ mysql_xa (ascii "XA START") xid []) × (branch_of mysql s ≡ some xid)
Opens mariadb xid s = (s ≡ mysql_xa (ascii "XA START") xid []) × (branch_of mariadb s ≡ some xid)
Opens db2 xid s = (s ≡ mysql_xa (ascii "XA START") xid []) × (branch_of db2 s ≡ some xid)
Opens oracle xid s =
    s
    ≡ oracle_xa_block
        (ascii "DBMS_XA.XA_START(" ++ (oracle_xid_literal xid ++ ascii ", DBMS_XA.TMNOFLAGS)")) []
Opens _ xid s = ⊥

xa_start-cases :
    (engine : EngineId) (xid : Xid)
    → XidFits xid
    → ((s : Bytes) × (xa_start engine xid ≡ ok (some s)) × HasXa engine × Opens engine xid s)
      ⊎ ((e : OdbcError) × (xa_start engine xid ≡ err e) × (¬ HasXa engine))
unfolding xa_start
xa_start-cases postgres xid fits = inl (_, refl, tt, refl)
xa_start-cases mysql xid fits =
    inl (_, refl, tt, (refl, mysql_reads (ascii "XA START") xid (ground arith) fits))
xa_start-cases mariadb xid fits =
    inl (_, refl, tt, (refl, mysql_reads (ascii "XA START") xid (ground arith) fits))
xa_start-cases db2 xid fits =
    inl (_, refl, tt, (refl, mysql_reads (ascii "XA START") xid (ground arith) fits))
xa_start-cases oracle xid fits = inl (_, refl, tt, refl)
xa_start-cases _ xid fits = inr (_, refl, λ h. h)

module _ (driver : Driver) (handles : Handles) (id : ℕ) (xid : Xid) (log : Log) where
  -- The log once autocommit has been switched off, and the engine of the connection.
  abbrev pub log0 : Log
  log0 = set_autocommit false ∷ log

  abbrev pub engine_of : EngineId
  engine_of = detect_engine_id driver handles id

  -- The ways in which a start ends: the driver refuses to switch autocommit off, the engine has no XA
  -- statements, the driver refuses the opening statement, or it accepts both calls.
  abbrev pub Started : OdbcResult XaBranch × Handles → Type 0
  Started outcome =
      ((e : OdbcError) × (driver.answer log (set_autocommit false) ≡ err e)
        × (outcome ≡ (err e, update handles id log0))
        × (autocommit driver log0 ≡ autocommit driver log))
      ⊎ ((driver.answer log (set_autocommit false) ≡ ok tt)
          × (autocommit driver log0 ≡ false)
          × ((¬ HasXa engine_of) × (e : OdbcError) × (outcome ≡ (err e, update handles id log0))))
      ⊎ ((driver.answer log (set_autocommit false) ≡ ok tt)
          × HasXa engine_of
          × ((s : Bytes) × Opens engine_of xid s
              × (autocommit driver (execute s ∷ log0) ≡ false)
              × (((e : OdbcError) × (driver.answer log0 (execute s) ≡ err e)
                    × (outcome ≡ (err e, update handles id (execute s ∷ log0))))
                  ⊎ ((driver.answer log0 (execute s) ≡ ok tt)
                      × (outcome ≡ (
                        ok (record {
                          conn_id = id;
                          xid = xid;
                          engine_id = engine_of;
                          state = active;
                        }),
                        update handles id (execute s ∷ log0),
                      ))))))

  pub start_lem : XidFits xid → handles id ≡ some log → Started (start driver handles id xid)
  unfolding start autocommit
  start_lem fits live = elim (Result-cases (driver.answer log (set_autocommit false))) [
    | inr (x, e) ↦
        inl (
          x,
          e,
          rw (start, get_connection-live handles id log live, e) refl,
          rw (autocommit, e) refl,
        )
    | inl (u, e) ↦
        let off : autocommit driver log0 ≡ false = rw (autocommit, e) refl in
        elim (xa_start-cases engine_of xid fits) [
          | inr (x, f, without) ↦ inr (
              inl (
                e,
                off,
                (without, x, rw (start, get_connection-live handles id log live, e, f) refl),
              ))
          | inl (s, f, has, opens) ↦ elim (Result-cases (driver.answer log0 (execute s))) [
            | inr (x, g) ↦ inr (
                inr (
                  e,
                  has,
                  (
                    s,
                    opens,
                    off,
                    inl (x, g, rw (start, get_connection-live handles id log live, e, f, g) refl),
                  ),
                ))
            | inl (v, g) ↦ inr (
                inr (
                  e,
                  has,
                  (
                    s,
                    opens,
                    off,
                    inr (g, rw (start, get_connection-live handles id log live, e, f, g) refl),
                  ),
                ))
          ]
        ]
  ]
