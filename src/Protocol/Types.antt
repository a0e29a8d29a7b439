-- ===== src/Protocol/Types.antt =====
-- protocol/types.rs: the column types of the wire format.
use dart_odbc_fast.Prelude.{
  ℕ, suc, ◌≤◌, ◌==◌, leb, ◌&&◌, ◌||◌, if◌then◌else◌, ◌≡◌, refl, arith, ◌⊎◌,
}
use dart_odbc_fast.Prelude.Int.{ℤ, pos, negsuc}

pub data OdbcType : Type 0 where
  varchar integer big_int decimal date timestamp binary : OdbcType
  n_varchar timestamp_with_tz datetime_offset time small_int boolean : OdbcType
  float double json uuid money interval : OdbcType

-- `odbc_type as u16`
abbrev pub discriminant : OdbcType → ℕ
discriminant varchar = 1
discriminant integer = 2
discriminant big_int = 3
discriminant decimal = 4
discriminant date = 5
discriminant timestamp = 6
discriminant binary = 7
discriminant n_varchar = 8
discriminant timestamp_with_tz = 9
discriminant datetime_offset = 10
discriminant time = 11
discriminant small_int = 12
discriminant boolean = 13
discriminant float = 14
discriminant double = 15
discriminant json = 16
discriminant uuid = 17
discriminant money = 18
discriminant interval = 19

unfoldable pub from_protocol_discriminant : ℕ → OdbcType
from_protocol_discriminant code =
    if code == 1
    then varchar
    else if code == 2
    then integer
    else if code == 3
    then big_int
    else if code == 4
    then decimal
    else if code == 5
    then date
    else if code == 6
    then timestamp
    else if code == 7
    then binary
    else if code == 8
    then n_varchar
    else if code == 9
    then timestamp_with_tz
    else if code == 10
    then datetime_offset
    else if code == 11
    then time
    else if code == 12
    then small_int
    else if code == 13
    then boolean
    else if code == 14
    then float
    else if code == 15
    then double
    else if code == 16
    then json
    else if code == 17
    then uuid
    else if code == 18
    then money
    else if code == 19
    then interval
    else varchar

-- `from_odbc_sql_type` at a code that is not negative.
unfoldable pub from_pos_code : ℕ → OdbcType
from_pos_code c =
    if c == 1
    then varchar
    else if c == 4
    then integer
    else if c == 3
    then decimal
    else if c == 9 || c == 91
    then date
    else if c == 11 || c == 93
    then timestamp
    else if c == 5
    then small_int
    else if c == 7
    then float
    else if c == 6 || c == 8
    then double
    else if c == 10 || c == 92
    then time
    else if c == 2
    then decimal
    else varchar

-- `from_odbc_sql_type` at the code -m.
unfoldable pub from_neg_code : ℕ → OdbcType
from_neg_code m =
    if m == 5
    then big_int
    else if leb 2 m && leb m 4
    then binary
    else if leb 8 m && leb m 10
    then n_varchar
    else if m == 6
    then small_int
    else if m == 7
    then boolean
    else if m == 11
    then uuid
    else varchar

unfoldable pub from_odbc_sql_type : ℤ → OdbcType
unfolding from_pos_code from_neg_code
from_odbc_sql_type (pos n) = from_pos_code n
from_odbc_sql_type (negsuc n) = from_neg_code (suc n)

-- Every type is decoded from its own discriminant.
pub from_protocol_discriminant-discriminant :
    (t : OdbcType) → from_protocol_discriminant (discriminant t) ≡ t
unfolding from_protocol_discriminant
from_protocol_discriminant-discriminant varchar = refl
from_protocol_discriminant-discriminant _ = refl

-- A code from 1 to 19 decodes to the type that has it; any other code decodes to VARCHAR.
pub from_protocol_discriminant_total :
    (code : ℕ)
    → ((1 ≤ code) × (code ≤ 19) × (discriminant (from_protocol_discriminant code) ≡ code))
      ⊎ (((code ≡ 0) ⊎ (20 ≤ code)) × (from_protocol_discriminant code ≡ varchar))
unfolding from_protocol_discriminant
from_protocol_discriminant_total code = ground arith
