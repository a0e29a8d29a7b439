-- ===== src/Protocol/BulkInsert/RoundTrip/Tests.antt =====
-- A payload on the wire, and the theorems of bulk insert at it.
use dart_odbc_fast.Prelude.{◌≡◌, ◌↔◌, refl, arith, [], ◌∷◌, any, false, true, ok, some, none}
use dart_odbc_fast.Prelude.Int.{pos, negsuc}
use dart_odbc_fast.Wire.{Bytes}
use dart_odbc_fast.Wire.Utf8.{is_utf8}
use dart_odbc_fast.Protocol.BulkInsert.{i32, binary, i32_data, binary_data, BulkInsertPayload}
use dart_odbc_fast.Protocol.BulkInsert.Bitmap.{null_bitmap_size, is_null, byte_at}
use dart_odbc_fast.Protocol.BulkInsert.Parse.{parse_bulk_insert_payload, truncate_at_zero}
use dart_odbc_fast.Protocol.BulkInsert.Serialize.{serialize_bulk_insert_payload}
use dart_odbc_fast.Protocol.BulkInsert.RoundTrip.Payload.{
  PayloadFits, stored_payload, parse-serialize,
}
use dart_odbc_fast.Protocol.BulkInsert.RoundTrip.Exact.{has_zero_cell, parse-serialize_exact}

-- Two rows of a nullable integer and of a binary column; the binary cell 1 0 2 has a zero byte.
abbrev two_rows : BulkInsertPayload
two_rows = record {
  table = b't' ∷ [];
  columns =
      record { name = b'a' ∷ []; col_type = i32; nullable = true; max_len = 0 }
      ∷ record { name = b'b' ∷ []; col_type = binary; nullable = false; max_len = 3 }
      ∷ [];
  row_count = 2;
  column_data =
      i32_data (pos 7 ∷ negsuc 0 ∷ []) (some (2 ∷ []))
      ∷ binary_data ((1 ∷ 0 ∷ 2 ∷ []) ∷ (5 ∷ []) ∷ []) 3 none
      ∷ [];
}

two_rows-PayloadFits : PayloadFits two_rows
unfolding is_utf8 null_bitmap_size
two_rows-PayloadFits = record {
  table_text = (omega arith, refl);
  few_columns = omega arith;
  few_rows = omega arith;
  specs_fit = (((omega arith, refl), omega arith), (((omega arith, refl), omega arith), tt));
  columns_fit = (
    ((refl, (omega arith, (omega arith, tt))), (refl, refl)),
    (((refl, (omega arith, (omega arith, tt)), refl), refl), tt),
  );
}

second_is_null : is_null (2 ∷ []) 1 ≡ true
unfolding is_null byte_at
second_is_null = refl

cut_cell : truncate_at_zero (1 ∷ 0 ∷ 2 ∷ []) ≡ 1 ∷ []
unfolding truncate_at_zero
cut_cell = refl

parse-serialize_example :
    (bytes : Bytes) × (serialize_bulk_insert_payload two_rows ≡ ok bytes)
    × (parse_bulk_insert_payload bytes ≡ ok (stored_payload two_rows))
parse-serialize_example = parse-serialize two_rows two_rows-PayloadFits

parse-serialize_exact_example :
    (bytes : Bytes) × (serialize_bulk_insert_payload two_rows ≡ ok bytes)
    × ((parse_bulk_insert_payload bytes ≡ ok two_rows)
        ↔ (any has_zero_cell two_rows.column_data ≡ false))
parse-serialize_exact_example = parse-serialize_exact two_rows two_rows-PayloadFits
