-- ===== src/Engine/Capabilities.antt =====
-- engine/core/driver_capabilities.rs: which database engine a driver's name stands for. A name is
-- the list of the bytes of an ASCII text.
pub mod Laws
mod Tests
use dart_odbc_fast.Prelude.{
  ℕ, ◌+◌, Bool, true, false, ◌&&◌, ◌||◌, leb, ◌==◌, if◌then◌else◌, List, [], ◌∷◌, map, String,
}
use dart_odbc_fast.Wire.{Bytes, ascii, starts_with}

pub data EngineId : Type 0 where
  sqlserver postgres mysql mariadb oracle sybase_ase sybase_asa : EngineId
  sqlite db2 snowflake redshift bigquery mongodb unknown : EngineId

-- The texts of the `ENGINE_*` constants.
abbrev pub engine_name : EngineId → Bytes
engine_name sqlserver = ascii "sqlserver"
engine_name postgres = ascii "postgres"
engine_name mysql = ascii "mysql"
engine_name mariadb = ascii "mariadb"
engine_name oracle = ascii "oracle"
engine_name sybase_ase = ascii "sybase_ase"
engine_name sybase_asa = ascii "sybase_asa"
engine_name sqlite = ascii "sqlite"
engine_name db2 = ascii "db2"
engine_name snowflake = ascii "snowflake"
engine_name redshift = ascii "redshift"
engine_name bigquery = ascii "bigquery"
engine_name mongodb = ascii "mongodb"
engine_name unknown = ascii "unknown"

-- `s.contains(pattern)`
unfoldable pub contains : Bytes → Bytes → Bool
unfolding starts_with
contains [] pattern = starts_with [] pattern
contains (b ∷ bs) pattern = starts_with (b ∷ bs) pattern || contains bs pattern

-- `s == t`
unfoldable pub same_text : Bytes → Bytes → Bool
same_text [] [] = true
same_text [] (d ∷ t) = false
same_text (c ∷ s) [] = false
same_text (c ∷ s) (d ∷ t) = c == d && same_text s t

unfoldable pub engine_from_name : Bytes → EngineId
engine_from_name lower =
    let has : String → Bool = λ s. contains lower (ascii s) in
    let is : String → Bool = λ s. same_text lower (ascii s) in
    if has "sql anywhere"
      || (has "adaptive server anywhere" || (has "asa" && (has "sybase" || has "sql anywhere")))
    then sybase_asa
    else if has "adaptive server enterprise" || (has "ase" && (has "sybase" || has "adaptive"))
    then sybase_ase
    else if has "sybase"
    then sybase_ase
    else if has "mariadb"
    then mariadb
    else if has "microsoft sql server"
        || (has "sql server" || (has "mssql" || (is "sqlserver" || has "sqlsrv32")))
    then sqlserver
    else if has "postgresql" || has "postgres"
    then postgres
    else if has "mysql"
    then mysql
    else if has "oracle"
    then oracle
    else if has "sqlite"
    then sqlite
    else if is "db2" || (has " db2" || (has "ibm db2" || has "db2/"))
    then db2
    else if has "snowflake"
    then snowflake
    else if has "redshift"
    then redshift
    else if has "bigquery"
    then bigquery
    else if has "mongodb"
    then mongodb
    else unknown

-- `to_lowercase` on ASCII texts.
abbrev pub lower_byte : ℕ → ℕ
lower_byte b = if leb b'A' b && leb b b'Z' then b + 32 else b

-- `trim` on ASCII texts.
abbrev pub is_space : ℕ → Bool
is_space b = b == b' ' || (leb 9 b && leb b 13)

unfoldable pub trim_start : Bytes → Bytes
trim_start [] = []
trim_start (b ∷ bs) = let rest = trim_start bs in if is_space b then rest else b ∷ bs

unfoldable pub trim_end : Bytes → Bytes
trim_end [] = []
trim_end (b ∷ bs) = elim (trim_end bs) [
  | [] ↦ if is_space b then [] else b ∷ []
  | c ∷ cs ↦ b ∷ c ∷ cs
]

abbrev pub display_name : EngineId → Bytes
display_name sqlserver = ascii "SQL Server"
display_name postgres = ascii "PostgreSQL"
display_name mysql = ascii "MySQL"
display_name mariadb = ascii "MariaDB"
display_name oracle = ascii "Oracle"
display_name sybase_ase = ascii "Adaptive Server Enterprise"
display_name sybase_asa = ascii "SQL Anywhere"
display_name sqlite = ascii "SQLite"
display_name db2 = ascii "IBM Db2"
display_name snowflake = ascii "Snowflake"
display_name redshift = ascii "Amazon Redshift"
display_name bigquery = ascii "Google BigQuery"
display_name mongodb = ascii "MongoDB"
display_name unknown = ascii "Unknown"

abbrev pub max_array : EngineId → ℕ
max_array sqlserver = 2000
max_array postgres = 2000
max_array mysql = 1500
max_array mariadb = 1500
max_array oracle = 5000
max_array _ = 1000

pub record DriverCapabilities : Type 0 where
  pub supports_prepared_statements : Bool
  pub supports_batch_operations : Bool
  pub supports_streaming : Bool
  pub max_row_array_size : ℕ
  pub driver_name : Bytes
  pub driver_version : Bytes
  pub engine : EngineId

-- `canonical`, and `default` for an unknown engine, which has the same fields.
abbrev pub canonical : EngineId → DriverCapabilities
canonical e = record {
  supports_prepared_statements = true;
  supports_batch_operations = true;
  supports_streaming = true;
  max_row_array_size = max_array e;
  driver_name = display_name e;
  driver_version = ascii "Unknown";
  engine = e;
}

unfoldable pub from_driver_name : Bytes → DriverCapabilities
from_driver_name driver_name =
    canonical (engine_from_name (map lower_byte (trim_end (trim_start driver_name))))

unfoldable pub detect_from_connection_string : Bytes → DriverCapabilities
detect_from_connection_string connection_string =
    elim (engine_from_name (map lower_byte connection_string)) [
      | unknown ↦ canonical unknown
      | e ↦ from_driver_name (engine_name e)
    ]
