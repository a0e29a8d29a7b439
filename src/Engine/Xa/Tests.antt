-- ===== src/Engine/Xa/Tests.antt =====
-- A branch on a driver that accepts every call, and the theorems there.
use dart_odbc_fast.Prelude.{false, [], ◌∷◌, none, ok, ◌≡◌, refl, arith}
use dart_odbc_fast.Prelude.Int.{pos}
use dart_odbc_fast.Wire.{ascii}
use dart_odbc_fast.Wire.Print.{print_int}
use dart_odbc_fast.Engine.Capabilities.{mysql}
use dart_odbc_fast.Engine.Xid.{Xid, hex_encode, hex_lut, encode_mysql_components}
use dart_odbc_fast.Engine.Xid.RoundTrip.{XidFits}
use dart_odbc_fast.Engine.Transaction.Connection.{
  set_autocommit, Driver, Handles, update, autocommit,
}
use dart_odbc_fast.Engine.Xa.Sql.{mysql_xa, xa_prepare, xa_commit, xa_rollback_prepared}
use dart_odbc_fast.Engine.Xa.Branch.{active, XaBranch}
use dart_odbc_fast.Engine.Xa.Client.{
  commit, prepare_then, ActiveClient, work, end_then, run_active, goal,
}
use dart_odbc_fast.Engine.Xa.Ends.{Ended}
use dart_odbc_fast.Engine.Xa.Lifecycle.{run_active_lem}
use dart_odbc_fast.Engine.Xa.Statements.{Names, second_phase-Names}

abbrev branch_xid : Xid
branch_xid = record { format_id = pos 27; gtrid = 0xab ∷ []; bqual = 1 ∷ 2 ∷ [] }

branch_xid-XidFits : XidFits branch_xid
branch_xid-XidFits = record {
  format = omega arith;
  some_gtrid = omega arith;
  short_gtrid = omega arith;
  short_bqual = omega arith;
  gtrid_bytes = omega arith;
  bqual_bytes = omega arith;
}

abbrev mysql_driver : Driver
mysql_driver = record { answer = λ log call. ok tt; dbms_name = λ log. ok (ascii "MySQL") }

abbrev one_connection : Handles
one_connection = update (λ k. none) 7 (set_autocommit false ∷ [])

abbrev branch : XaBranch
branch = record { conn_id = 7; xid = branch_xid; engine_id = mysql; state = active }

abbrev client : ActiveClient
client = work (ascii "DELETE FROM t") (end_then (prepare_then commit))

prepare_statement :
    mysql_xa (ascii "XA PREPARE") branch_xid [] ≡ ascii "XA PREPARE 'ab', '0102', 27"
unfolding mysql_xa encode_mysql_components hex_encode hex_lut print_int
prepare_statement = refl

run_active_lem_example :
    Ended mysql_driver branch one_connection
      (goal client)
      (run_active mysql_driver client branch one_connection)
unfolding autocommit
run_active_lem_example =
    run_active_lem client mysql_driver branch one_connection (set_autocommit false ∷ [])
      (λ log. refl) refl refl refl

second_phase-Names_example :
    Names mysql branch_xid (xa_prepare mysql branch_xid)
    × Names mysql branch_xid (xa_commit mysql branch_xid false)
    × Names mysql branch_xid (xa_rollback_prepared mysql branch_xid)
second_phase-Names_example = second_phase-Names mysql branch_xid tt branch_xid-XidFits
