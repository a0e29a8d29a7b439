-- ===== src/Engine/Xa/Sql.antt =====
-- The statement that each step of an XA branch sends, per engine.
use dart_odbc_fast.Prelude.{
  Bool, ◌==◌, if◌then◌else◌, List, [], ◌∷◌, ◌++◌, length, Option, none, some, ok, err,
}
use dart_odbc_fast.Prelude.Int.{ℤ, pos, negsuc}
use dart_odbc_fast.Wire.{Bytes, ascii}
use dart_odbc_fast.Wire.Print.{print_int}
use dart_odbc_fast.Error.{OdbcError, OdbcResult, unsupported_feature, format, text}
use dart_odbc_fast.Engine.Capabilities.{
  EngineId, engine_name, postgres, mysql, mariadb, db2, sqlserver, oracle,
}
use dart_odbc_fast.Engine.Xid.{
  Xid, encode_postgres, encode_mysql_components, encode_oracle_components,
}

abbrev pub unsupported_sqlserver : OdbcError
unsupported_sqlserver = unsupported_feature (
    format
      "XA / 2PC on SQL Server requires MSDTC enlistment via Windows COM (SQLSetConnectAttr(SQL_ATTR_ENLIST_IN_DTC, ITransaction*)). Build with `--features xa-dtc` on a Windows host with MSDTC enabled to activate the integration — see doc/Features/PENDING_IMPLEMENTATIONS.md §1.1 for prerequisites."
      [])

abbrev pub unsupported_other : EngineId → OdbcError
unsupported_other engine = unsupported_feature (
    format
      "XA / 2PC is not supported on engine {:?}. Supported engines: postgres, mysql, mariadb, db2, oracle (via DBMS_XA). SQL Server requires MSDTC enlistment (xa-dtc feature, Phase 2 pending)."
      (text (engine_name engine) ∷ []))

-- `SYS.DBMS_XA_XID(formatid, HEXTORAW('gtrid'), HEXTORAW('bqual'))`
unfoldable pub oracle_xid_literal : Xid → Bytes
oracle_xid_literal xid =
    let (fmt, g, b) = encode_oracle_components xid in
    ascii "SYS.DBMS_XA_XID("
    ++ (print_int fmt
        ++ (ascii ", HEXTORAW('" ++ (g ++ (ascii "'), HEXTORAW('" ++ (b ++ ascii "'))")))))

unfoldable pub allow_clause : List ℤ → Bytes
allow_clause [] = []
allow_clause (rc ∷ rcs) = ascii " AND rc <> " ++ (print_int rc ++ allow_clause rcs)

unfoldable pub oracle_xa_block : Bytes → List ℤ → Bytes
oracle_xa_block call allow_rcs =
    ascii "BEGIN DECLARE rc PLS_INTEGER; BEGIN rc := "
    ++ (call
        ++ (ascii "; IF rc <> 0"
            ++ (allow_clause allow_rcs
                ++ ascii
                    " THEN RAISE_APPLICATION_ERROR(-20100, 'DBMS_XA rc=' || rc); END IF; END; END;")))

abbrev pub oracle_xa_rdonly : ℤ
oracle_xa_rdonly = pos 3

abbrev pub oracle_xaer_nota : ℤ
oracle_xaer_nota = negsuc 3

-- The statement `XA VERB 'gtrid', 'bqual', formatID` with a suffix, which five places write out.
unfoldable pub mysql_xa : Bytes → Xid → Bytes → Bytes
mysql_xa verb xid suffix =
    let (g, b, f) = encode_mysql_components xid in
    if length b == 0
    then verb ++ (ascii " '" ++ (g ++ (ascii "', '', " ++ (print_int f ++ suffix))))
    else verb
      ++ (ascii " '" ++ (g ++ (ascii "', '" ++ (b ++ (ascii "', " ++ (print_int f ++ suffix))))))

-- `apply_xa_start`, for the statement that it executes, if any; so too the others.
unfoldable pub xa_start : EngineId → Xid → OdbcResult (Option Bytes)
xa_start postgres xid = ok (some (ascii "BEGIN"))
xa_start mysql xid = ok (some (mysql_xa (ascii "XA START") xid []))
xa_start mariadb xid = ok (some (mysql_xa (ascii "XA START") xid []))
xa_start db2 xid = ok (some (mysql_xa (ascii "XA START") xid []))
xa_start sqlserver xid = err unsupported_sqlserver
xa_start oracle xid = ok (
    some (
      oracle_xa_block
        (ascii "DBMS_XA.XA_START(" ++ (oracle_xid_literal xid ++ ascii ", DBMS_XA.TMNOFLAGS)")) []))
xa_start engine xid = err (unsupported_other engine)

unfoldable pub xa_end : EngineId → Xid → OdbcResult (Option Bytes)
xa_end postgres xid = ok none
xa_end mysql xid = ok (some (mysql_xa (ascii "XA END") xid []))
xa_end mariadb xid = ok (some (mysql_xa (ascii "XA END") xid []))
xa_end db2 xid = ok (some (mysql_xa (ascii "XA END") xid []))
xa_end sqlserver xid = err unsupported_sqlserver
xa_end oracle xid = ok (
    some (
      oracle_xa_block
        (ascii "DBMS_XA.XA_END(" ++ (oracle_xid_literal xid ++ ascii ", DBMS_XA.TMSUCCESS)")) []))
xa_end engine xid = err (unsupported_other engine)

unfoldable pub xa_prepare : EngineId → Xid → OdbcResult (Option Bytes)
xa_prepare postgres xid =
    ok (some (ascii "PREPARE TRANSACTION '" ++ (encode_postgres xid ++ ascii "'")))
xa_prepare mysql xid = ok (some (mysql_xa (ascii "XA PREPARE") xid []))
xa_prepare mariadb xid = ok (some (mysql_xa (ascii "XA PREPARE") xid []))
xa_prepare db2 xid = ok (some (mysql_xa (ascii "XA PREPARE") xid []))
xa_prepare sqlserver xid = err unsupported_sqlserver
xa_prepare oracle xid = ok (
    some (
      oracle_xa_block (ascii "DBMS_XA.XA_PREPARE(" ++ (oracle_xid_literal xid ++ ascii ")"))
        (oracle_xa_rdonly ∷ [])))
xa_prepare engine xid = err (unsupported_other engine)

unfoldable pub xa_commit : EngineId → Xid → Bool → OdbcResult (Option Bytes)
xa_commit postgres xid one_phase =
    if one_phase
    then ok (some (ascii "COMMIT"))
    else ok (some (ascii "COMMIT PREPARED '" ++ (encode_postgres xid ++ ascii "'")))
xa_commit mysql xid one_phase =
    ok (some (mysql_xa (ascii "XA COMMIT") xid (if one_phase then ascii " ONE PHASE" else [])))
xa_commit mariadb xid one_phase =
    ok (some (mysql_xa (ascii "XA COMMIT") xid (if one_phase then ascii " ONE PHASE" else [])))
xa_commit db2 xid one_phase =
    ok (some (mysql_xa (ascii "XA COMMIT") xid (if one_phase then ascii " ONE PHASE" else [])))
xa_commit sqlserver xid one_phase = err unsupported_sqlserver
xa_commit oracle xid one_phase = ok (
    some (
      oracle_xa_block
        (ascii "DBMS_XA.XA_COMMIT("
          ++ (oracle_xid_literal xid
              ++ (ascii ", "
                  ++ ((if one_phase then ascii "TRUE" else ascii "FALSE") ++ ascii ")"))))
        (if one_phase then [] else oracle_xaer_nota ∷ [])))
xa_commit engine xid one_phase = err (unsupported_other engine)

unfoldable pub xa_rollback : EngineId → Xid → OdbcResult (Option Bytes)
xa_rollback postgres xid = ok (some (ascii "ROLLBACK"))
xa_rollback mysql xid = ok (some (mysql_xa (ascii "XA ROLLBACK") xid []))
xa_rollback mariadb xid = ok (some (mysql_xa (ascii "XA ROLLBACK") xid []))
xa_rollback db2 xid = ok (some (mysql_xa (ascii "XA ROLLBACK") xid []))
xa_rollback sqlserver xid = err unsupported_sqlserver
xa_rollback oracle xid = ok (
    some (
      ascii "BEGIN DECLARE rc PLS_INTEGER; BEGIN rc := DBMS_XA.XA_END("
      ++ (oracle_xid_literal xid
          ++ (ascii
                ", DBMS_XA.TMSUCCESS); IF rc <> 0 THEN RAISE_APPLICATION_ERROR(-20100, 'DBMS_XA xa_end rc=' || rc); END IF; rc := DBMS_XA.XA_ROLLBACK("
              ++ (oracle_xid_literal xid
                  ++ ascii
                      "); IF rc <> 0 THEN RAISE_APPLICATION_ERROR(-20101, 'DBMS_XA xa_rollback rc=' || rc); END IF; END; END;")))))
xa_rollback engine xid = err (unsupported_other engine)

unfoldable pub xa_rollback_prepared : EngineId → Xid → OdbcResult (Option Bytes)
unfolding xa_rollback
xa_rollback_prepared postgres xid =
    ok (some (ascii "ROLLBACK PREPARED '" ++ (encode_postgres xid ++ ascii "'")))
xa_rollback_prepared mysql xid = xa_rollback mysql xid
xa_rollback_prepared mariadb xid = xa_rollback mariadb xid
xa_rollback_prepared db2 xid = xa_rollback db2 xid
xa_rollback_prepared sqlserver xid = err unsupported_sqlserver
xa_rollback_prepared oracle xid = ok (
    some (
      oracle_xa_block (ascii "DBMS_XA.XA_ROLLBACK(" ++ (oracle_xid_literal xid ++ ascii ")"))
        (oracle_xaer_nota ∷ [])))
xa_rollback_prepared engine xid = err (unsupported_other engine)
