-- ===== src/Engine/Xid/Tests.antt =====
-- An identifier, its text, and the theorems there.
use dart_odbc_fast.Prelude.{[], ◌∷◌, some, ◌≡◌, refl, arith}
use dart_odbc_fast.Prelude.Int.{negsuc}
use dart_odbc_fast.Wire.{ascii}
use dart_odbc_fast.Wire.Print.{print_int}
use dart_odbc_fast.Engine.Xid.{
  Xid, new_xid, hex_lut, hex_encode, hex_nibble, hex_decode, parse_digits, parse_positive,
  parse_negative, parse_i32, split_once, encode_postgres, decode_components, decode_postgres,
  encode_mysql_components, decode_mysql_components, encode_oracle_components,
  decode_oracle_components,
}
use dart_odbc_fast.Engine.Xid.RoundTrip.{XidFits, decode-encode}
use dart_odbc_fast.Engine.Xid.Sound.{decode_postgres_sound}

abbrev branch : Xid
branch = record { format_id = negsuc 26; gtrid = 0xab ∷ 7 ∷ []; bqual = [] }

branch-XidFits : XidFits branch
branch-XidFits = record {
  format = omega arith;
  some_gtrid = omega arith;
  short_gtrid = omega arith;
  short_bqual = omega arith;
  gtrid_bytes = omega arith;
  bqual_bytes = tt;
}

encode_postgres-branch : encode_postgres branch ≡ ascii "-27_ab07_"
unfolding encode_postgres hex_encode hex_lut print_int
encode_postgres-branch = refl

decode_postgres-branch : decode_postgres (ascii "-27_AB07_") ≡ some branch
unfolding decode_postgres decode_components split_once parse_i32 parse_positive parse_negative
    parse_digits hex_decode hex_nibble new_xid
decode_postgres-branch = refl

decode-encode_example :
    (decode_postgres (encode_postgres branch) ≡ some branch)
    × (decode_mysql_components (encode_mysql_components branch) ≡ some branch)
    × (decode_oracle_components (encode_oracle_components branch) ≡ some branch)
decode-encode_example = decode-encode branch branch-XidFits

decode_postgres_sound_example :
    XidFits branch × (decode_postgres (encode_postgres branch) ≡ some branch)
decode_postgres_sound_example =
    decode_postgres_sound (ascii "-27_AB07_") branch decode_postgres-branch
