-- ===== src/Protocol/Decoder/Tests.antt =====
-- A result set on the wire, and the theorems of both sides at it.
use dart_odbc_fast.Prelude.{◌+◌, ◌≡◌, refl, arith, [], ◌∷◌, length, drop, ok, some, none}
use dart_odbc_fast.Wire.{Bytes, AreBytes, le_bytes, get_le, checked_add, checked_mul}
use dart_odbc_fast.Wire.Utf8.{is_utf8}
use dart_odbc_fast.Protocol.Types.{varchar, integer, from_protocol_discriminant}
use dart_odbc_fast.Protocol.RowBuffer.{RowBuffer}
use dart_odbc_fast.Protocol.Encoder.{try_encode}
use dart_odbc_fast.Protocol.Encoder.Sizes.{
  Encodable, columns_bytes, column_bytes, rows_bytes, row_bytes, cell_bytes, payload_bytes,
}
use dart_odbc_fast.Protocol.Decoder.{
  DecodedResult, header_size, parse, parse_body, parse_column, parse_columns, parse_rows,
  validate_shape,
}
use dart_odbc_fast.Protocol.Decoder.RoundTrip.{Decodable, decoded, parse-try_encode}
use dart_odbc_fast.Protocol.Decoder.Shape.{IsTable}
use dart_odbc_fast.Protocol.Decoder.Layout.{IsMessage}
use dart_odbc_fast.Protocol.Decoder.Sound.{parse_sound}

-- Two columns, `a` and `b`, and a row with a NULL.
abbrev small_table : RowBuffer
small_table = record {
  columns =
      record { name = b'a' ∷ []; odbc_type = integer }
      ∷ record { name = b'b' ∷ []; odbc_type = varchar }
      ∷ [];
  rows = (some (5 ∷ 0 ∷ 0 ∷ 0 ∷ []) ∷ none ∷ []) ∷ [];
}

-- One column `a` of an unknown type, and no row.
abbrev one_column : Bytes
one_column =
    b'C' ∷ b'B' ∷ b'D' ∷ b'O' ∷ 1 ∷ 0 ∷ 1 ∷ 0 ∷ 0 ∷ 0 ∷ 0 ∷ 0 ∷ 5 ∷ 0 ∷ 0 ∷ 0 ∷ 99 ∷ 0 ∷ 1 ∷ 0
    ∷ b'a' ∷ []

abbrev one_column_result : DecodedResult
one_column_result = record {
  columns = record { name = b'a' ∷ []; odbc_type = varchar } ∷ [];
  rows = [];
  row_count = 0;
  column_count = 1;
}

parse-one_column : parse one_column ≡ ok one_column_result
unfolding parse parse_body validate_shape parse_columns parse_column parse_rows get_le checked_add
    checked_mul is_utf8 from_protocol_discriminant
parse-one_column = refl

small_table-Decodable : Decodable small_table
unfolding is_utf8 payload_bytes columns_bytes column_bytes rows_bytes row_bytes cell_bytes le_bytes
small_table-Decodable = record {
  few_columns = omega arith;
  few_rows = omega arith;
  few_cells = omega arith;
  payload = omega arith;
  column_fits = ((omega arith, refl), ((omega arith, refl), tt));
  row_fits = ((refl, (omega arith, (tt, tt))), tt);
}

small_table-Encodable : Encodable small_table
unfolding payload_bytes columns_bytes column_bytes rows_bytes row_bytes cell_bytes le_bytes
small_table-Encodable = record {
  few_columns = omega arith;
  few_rows = omega arith;
  names = omega arith;
  cells = ((omega arith, (tt, tt)), tt);
  payload = omega arith;
}

parse-try_encode_example :
    (bytes : Bytes) × (try_encode small_table ≡ ok bytes) × (parse bytes ≡ ok (decoded small_table))
parse-try_encode_example = parse-try_encode small_table small_table-Decodable

one_column-AreBytes : AreBytes one_column
one_column-AreBytes = ground arith

parse_sound_example :
    IsTable one_column_result
    × IsMessage one_column_result one_column
    × (length one_column ≡ header_size + get_le 4 (drop 12 one_column))
parse_sound_example = parse_sound one_column one_column_result one_column-AreBytes parse-one_column
