-- ===== src/Protocol/Columnar/Tests.antt =====
-- A result set with a NULL, an integer of a wrong width and a short row, by columns.
use dart_odbc_fast.Prelude.{false, ℕ, ◌≤◌, [], ◌∷◌, length, none, some, ok, ◌≡◌, refl, arith, All}
use dart_odbc_fast.Wire.{Bytes, le_bytes, from_le, checked_add}
use dart_odbc_fast.Prelude.Int.{to_bits, from_bits}
use dart_odbc_fast.Protocol.Types.{OdbcType}
use dart_odbc_fast.Protocol.RowBuffer.{RowBuffer}
use dart_odbc_fast.Protocol.Columnar.{
  ColumnBlock, CompressionType, row_buffer_to_columnar, block, column_data, set_row_count,
  add_columns, add_column, cell_at, read_signed,
}
use dart_odbc_fast.Protocol.Columnar.Cells.{CellBytes}
use dart_odbc_fast.Protocol.Columnar.Blocks.{IsSmall}
use dart_odbc_fast.Protocol.Columnar.Capacity.{encode_lem}
use dart_odbc_fast.Protocol.Columnar.Encode.{
  encode_for_bulk, encode, estimate_columns, estimate_column_payload_size, estimate_texts,
  estimate_integers, encode_blocks, encode_column_block, raw_data, write_texts, write_integers,
  choose_compression, checked_u16, checked_u32, checked_size,
}
use dart_odbc_fast.Protocol.Columnar.Reader.{read_message}
use dart_odbc_fast.Protocol.Columnar.RoundTrip.{columns_seen, read_message-encode_for_bulk}
use dart_odbc_fast.Protocol.Compression.{
  Codecs, compress, read_limited, read_to_end, decompress_with_limit, default_max_decompressed_len,
}
use dart_odbc_fast.Protocol.Compression.Laws.{
  Lossless, IsLimited, decompress_with_limit-le, decompress_with_limit-compress,
}

-- Codecs that put a byte in front.
abbrev unframe : Bytes → Bytes
unframe [] = []
unframe (b ∷ bytes) = bytes

abbrev framed : Codecs
framed = record {
  zstd_encode_all = λ bytes level. ok (40 ∷ bytes);
  zstd_decoder = λ bytes. ok (record { content = unframe bytes; failure = none });
  lz4_build = λ level. ok tt;
  lz4_write_all = λ bytes. ok tt;
  lz4_finish = λ bytes. (4 ∷ bytes, ok tt);
  lz4_decoder = λ bytes. ok (record { content = unframe bytes; failure = none });
}

abbrev some_rows : RowBuffer
some_rows = record {
  columns =
      record { name = b'i' ∷ []; odbc_type = OdbcType.integer }
      ∷ record { name = b't' ∷ []; odbc_type = OdbcType.varchar }
      ∷ [];
  rows =
      (some (42 ∷ 0 ∷ 0 ∷ 0 ∷ []) ∷ some (b'x' ∷ b'y' ∷ []) ∷ [])
      ∷ (some (1 ∷ 2 ∷ 3 ∷ []) ∷ none ∷ [])
      ∷ (some (255 ∷ 255 ∷ 255 ∷ 255 ∷ []) ∷ [])
      ∷ [];
}

abbrev integer_raw : Bytes
integer_raw = 0 ∷ 42 ∷ 0 ∷ 0 ∷ 0 ∷ 1 ∷ 0 ∷ 255 ∷ 255 ∷ 255 ∷ 255 ∷ []

abbrev text_raw : Bytes
text_raw = 0 ∷ 2 ∷ 0 ∷ 0 ∷ 0 ∷ 120 ∷ 121 ∷ 1 ∷ 1 ∷ []

abbrev bulk_message : Bytes
bulk_message =
    67 ∷ 66 ∷ 68 ∷ 79 ∷ 2 ∷ 0 ∷ 0 ∷ 0 ∷ 2 ∷ 0 ∷ 3 ∷ 0 ∷ 0 ∷ 0 ∷ 1 ∷ 40 ∷ 0 ∷ 0 ∷ 0 ∷ 2 ∷ 0 ∷ 1 ∷ 0
    ∷ 105 ∷ 0 ∷ 11 ∷ 0 ∷ 0 ∷ 0 ∷ 0 ∷ 42 ∷ 0 ∷ 0 ∷ 0 ∷ 1 ∷ 0 ∷ 255 ∷ 255 ∷ 255 ∷ 255 ∷ 1 ∷ 0 ∷ 1 ∷ 0
    ∷ 116 ∷ 0 ∷ 9 ∷ 0 ∷ 0 ∷ 0 ∷ 0 ∷ 2 ∷ 0 ∷ 0 ∷ 0 ∷ 120 ∷ 121 ∷ 1 ∷ 1 ∷ []

encode_for_bulk_run : encode_for_bulk framed some_rows ≡ ok bulk_message
unfolding encode_for_bulk row_buffer_to_columnar set_row_count add_columns add_column column_data
    cell_at read_signed encode estimate_columns estimate_column_payload_size estimate_texts
    estimate_integers encode_blocks encode_column_block raw_data write_texts write_integers
    choose_compression checked_u16 checked_u32 checked_size from_bits to_bits from_le le_bytes
    checked_add
encode_for_bulk_run = refl

framed-Lossless : Lossless framed
framed-Lossless = record {
  zstd_lossless = λ bytes out level e. framed_zstd bytes out e;
  lz4_lossless = λ bytes e e'. refl;
}
  where
    framed_zstd :
        (bytes out : Bytes)
        → framed.zstd_encode_all bytes 3 ≡ ok out
        → framed.zstd_decoder out ≡ ok (record { content = bytes; failure = none })
    framed_zstd bytes out e = let same : 40 ∷ bytes ≡ out = cc in rw (← same) refl

IsSmall-raw_data :
    (b : ColumnBlock) (raw : Bytes)
    → raw_data b.content ≡ ok raw
    → length raw ≤ default_max_decompressed_len
    → IsSmall b
IsSmall-raw_data b raw e h other e' = let same : raw ≡ other = cc in rw (← same) h

some_rows-IsSmall : All IsSmall (row_buffer_to_columnar some_rows).columns
unfolding row_buffer_to_columnar set_row_count add_columns add_column column_data cell_at
    read_signed encode estimate_columns estimate_column_payload_size estimate_texts
    estimate_integers encode_blocks encode_column_block raw_data write_texts write_integers
    choose_compression checked_u16 checked_u32 checked_size from_bits to_bits from_le le_bytes
    checked_add
some_rows-IsSmall = (
  IsSmall-raw_data
      (block (record { name = b'i' ∷ []; odbc_type = OdbcType.integer })
        (column_data OdbcType.integer 0 some_rows.rows))
      integer_raw refl (omega arith),
  (
    IsSmall-raw_data
        (block (record { name = b't' ∷ []; odbc_type = OdbcType.varchar })
          (column_data OdbcType.varchar 1 some_rows.rows))
        text_raw refl (omega arith),
    tt,
  ),
)

some_rows-CellBytes : All (All CellBytes) some_rows.rows
some_rows-CellBytes = (
  ((
    (omega arith, (omega arith, (omega arith, (omega arith, tt)))),
    ((omega arith, (omega arith, tt)), tt),
  )),
  (
    ((omega arith, (omega arith, (omega arith, tt))), (tt, tt)),
    (((omega arith, (omega arith, (omega arith, (omega arith, tt)))), tt), tt),
  ),
)

read_message-encode_for_bulk_example :
    read_message framed bulk_message
    ≡ ok (
        record {
          name = b'i' ∷ [];
          odbc_type = OdbcType.integer;
          cells = some (42 ∷ 0 ∷ 0 ∷ 0 ∷ []) ∷ none ∷ some (255 ∷ 255 ∷ 255 ∷ 255 ∷ []) ∷ [];
        }
        ∷ record {
          name = b't' ∷ [];
          odbc_type = OdbcType.varchar;
          cells = some (b'x' ∷ b'y' ∷ []) ∷ none ∷ none ∷ [];
        }
        ∷ [])
unfolding columns_seen cell_at
read_message-encode_for_bulk_example =
    read_message-encode_for_bulk framed framed-Lossless some_rows some_rows-CellBytes
      some_rows-IsSmall bulk_message encode_for_bulk_run

decompress_with_limit-le_example : length {A = ℕ} (1 ∷ 2 ∷ []) ≤ 5
unfolding decompress_with_limit read_limited read_to_end checked_add
decompress_with_limit-le_example =
    decompress_with_limit-le framed (40 ∷ 1 ∷ 2 ∷ []) CompressionType.zstd 5 (1 ∷ 2 ∷ []) refl

decompress_with_limit-compress_example :
    IsLimited (1 ∷ 2 ∷ []) 5 (decompress_with_limit framed (40 ∷ 1 ∷ 2 ∷ []) CompressionType.zstd 5)
unfolding compress
decompress_with_limit-compress_example =
    decompress_with_limit-compress framed framed-Lossless (1 ∷ 2 ∷ []) (40 ∷ 1 ∷ 2 ∷ [])
      CompressionType.zstd 5 refl (omega arith)

encode_lem_example :
    (out : Bytes) × (encode framed (row_buffer_to_columnar some_rows) false ≡ ok out)
    × (length out ≤ 61)
unfolding row_buffer_to_columnar set_row_count add_columns add_column column_data cell_at
    read_signed estimate_columns estimate_column_payload_size estimate_texts estimate_integers
    checked_u32 checked_size from_bits from_le checked_add
encode_lem_example =
    encode_lem framed (row_buffer_to_columnar some_rows) false 61 refl (omega arith) (omega arith)
      (omega arith) (omega arith, (omega arith, tt))
