-- ===== src/Engine/Capabilities/Tests.antt =====
-- A driver's name and a connection string.
use dart_odbc_fast.Prelude.{◌≡◌, refl}
use dart_odbc_fast.Wire.{ascii}
use dart_odbc_fast.Engine.Capabilities.{mariadb, contains, same_text, engine_from_name}

mariadb_driver : engine_from_name (ascii "mariadb odbc (mysql)") ≡ mariadb
unfolding engine_from_name contains same_text
mariadb_driver = refl
