-- ===== src/Protocol/Columnar/Encode.antt =====
-- protocol/columnar_encoder.rs: a result set by columns as a message. `checked_add` of that file is
-- `checked_size` here.
use dart_odbc_fast.Prelude.{
  ℕ, ◌-◌, ◌*◌, ◌^◌, ltb, ◌&&◌, Bool, true, if◌then◌else◌, List, [], ◌∷◌, ◌++◌, length, Option, none,
  some, ok, err, ◌>>=◌, String,
}
use dart_odbc_fast.Prelude.Int.{ℤ, to_bits}
use dart_odbc_fast.Wire.{Bytes, le_bytes, checked_add, ok_or}
use dart_odbc_fast.Error.{num, str, format, OdbcResult, resource_limit_reached}
use dart_odbc_fast.Protocol.Types.{discriminant}
use dart_odbc_fast.Protocol.RowBuffer.{RowBuffer}
use dart_odbc_fast.Protocol.Columnar.{
  ColumnData, varchar, integer, big_int, binary, CompressionType, uncompressed, zstd, code,
  ColumnBlock, RowBufferV2, column_count, row_buffer_to_columnar,
}
use dart_odbc_fast.Protocol.Compression.{Codecs, compress}

abbrev pub magic : ℕ
magic = 0x4f444243

abbrev pub version_v2 : ℕ
version_v2 = 2

abbrev pub header_size : ℕ
header_size = 19

unfoldable pub checked_u16 : ℕ → String → OdbcResult ℕ
checked_u16 value field =
    if ltb value (2 ^ 16)
    then ok value
    else err (
        resource_limit_reached (format "{} {} exceeds u16 wire limit" (str field ∷ num value ∷ [])))

unfoldable pub checked_u32 : ℕ → String → OdbcResult ℕ
checked_u32 value field =
    if ltb value (2 ^ 32)
    then ok value
    else err (
        resource_limit_reached (format "{} {} exceeds u32 wire limit" (str field ∷ num value ∷ [])))

unfoldable pub checked_size : ℕ → ℕ → String → OdbcResult ℕ
checked_size current added context = ok_or (checked_add current added) (
    resource_limit_reached
      (format "Columnar payload size overflow while adding {}" (str context ∷ [])))

-- The loops of `estimate_column_payload_size`.
unfoldable pub estimate_texts : ℕ → List (Option Bytes) → OdbcResult ℕ
estimate_texts size [] = ok size
estimate_texts size (none ∷ cells) = do
  with_flag ← checked_size size 1 "cell null flag"
  estimate_texts with_flag cells
estimate_texts size (some bytes ∷ cells) = do
  with_flag ← checked_size size 1 "cell null flag"
  checked ← checked_u32 (length bytes) "cell length"
  with_len ← checked_size with_flag 4 "cell length"
  with_cell ← checked_size with_len (length bytes) "cell payload"
  estimate_texts with_cell cells

-- The integers of `w` bytes.
unfoldable pub estimate_integers : ℕ → String → ℕ → List (Option ℤ) → OdbcResult ℕ
estimate_integers w context size [] = ok size
estimate_integers w context size (none ∷ cells) = do
  with_flag ← checked_size size 1 "cell null flag"
  estimate_integers w context with_flag cells
estimate_integers w context size (some value ∷ cells) = do
  with_flag ← checked_size size 1 "cell null flag"
  with_cell ← checked_size with_flag w context
  estimate_integers w context with_cell cells

unfoldable pub estimate_column_payload_size : ColumnData → OdbcResult ℕ
estimate_column_payload_size (varchar cells) = estimate_texts 0 cells
estimate_column_payload_size (binary cells) = estimate_texts 0 cells
estimate_column_payload_size (integer cells) = estimate_integers 4 "integer cell" 0 cells
estimate_column_payload_size (big_int cells) = estimate_integers 8 "bigint cell" 0 cells

unfoldable pub estimate_columns : ℕ → List ColumnBlock → OdbcResult ℕ
estimate_columns size [] = ok size
estimate_columns size (col_block ∷ columns) = do
  with_type ← checked_size size 2 "column type"
  with_len ← checked_size with_type 2 "column name length"
  with_name ← checked_size with_len (length col_block.metadata.name) "column name"
  with_flag ← checked_size with_name 1 "compression flag"
  with_algorithm ← checked_size with_flag 1 "compression algorithm"
  with_payload_len ← checked_size with_algorithm 4 "column payload length"
  payload ← estimate_column_payload_size col_block.content
  with_payload ← checked_size with_payload_len payload "column payload"
  estimate_columns with_payload columns

abbrev pub estimate_encoded_size : RowBufferV2 → OdbcResult ℕ
estimate_encoded_size buffer = estimate_columns header_size buffer.columns

-- The loops of `encode_column_block` over the cells.
unfoldable pub write_texts : String → List (Option Bytes) → OdbcResult Bytes
write_texts field [] = ok []
write_texts field (none ∷ cells) = do raw ← write_texts field cells; ok (1 ∷ raw)
write_texts field (some bytes ∷ cells) = do
  len ← checked_u32 (length bytes) field
  raw ← write_texts field cells
  ok (0 ∷ (le_bytes 4 len ++ (bytes ++ raw)))

-- `value.to_le_bytes()` of `w` bytes.
unfoldable pub write_integers : ℕ → List (Option ℤ) → Bytes
write_integers w [] = []
write_integers w (none ∷ cells) = 1 ∷ write_integers w cells
write_integers w (some value ∷ cells) =
    0 ∷ (le_bytes w (to_bits (2 ^ (8 * w - 1)) value) ++ write_integers w cells)

unfoldable pub raw_data : ColumnData → OdbcResult Bytes
raw_data (varchar cells) = write_texts "varchar cell length" cells
raw_data (binary cells) = write_texts "binary cell length" cells
raw_data (integer cells) = ok (write_integers 4 cells)
raw_data (big_int cells) = ok (write_integers 8 cells)

-- The bytes of a block and how they are compressed: only if that makes them fewer.
unfoldable pub choose_compression : Codecs → Bool → Bytes → Bytes × CompressionType
choose_compression codecs use_compression raw =
    if use_compression && ltb 100 (length raw)
    then elim (compress codecs raw zstd) [
      | ok compressed ↦
          if ltb (length compressed) (length raw) then (compressed, zstd) else (raw, uncompressed)
      | err e ↦ (raw, uncompressed)
    ]
    else (raw, uncompressed)

-- The compression flag and the algorithm.
abbrev pub compression_mark : CompressionType → Bytes
compression_mark uncompressed = 0 ∷ []
compression_mark t = 1 ∷ code t ∷ []

unfoldable pub encode_column_block : Codecs → ColumnBlock → Bool → OdbcResult Bytes
encode_column_block codecs col_block use_compression = do
  name_len ← checked_u16 (length col_block.metadata.name) "column name length"
  estimated ← estimate_column_payload_size col_block.content
  raw ← raw_data col_block.content
  let chosen = choose_compression codecs use_compression raw
  payload_len ← checked_u32 (length chosen.0) "column payload length"
  ok (
      le_bytes 2 (discriminant col_block.metadata.odbc_type)
      ++ (le_bytes 2 name_len
          ++ (col_block.metadata.name
              ++ (compression_mark chosen.1 ++ (le_bytes 4 payload_len ++ chosen.0)))))

unfoldable pub encode_blocks : Codecs → List ColumnBlock → Bool → OdbcResult Bytes
encode_blocks codecs [] use_compression = ok []
encode_blocks codecs (col_block ∷ columns) use_compression = do
  first ← encode_column_block codecs col_block use_compression
  rest ← encode_blocks codecs columns use_compression
  ok (first ++ rest)

-- The payload size is written over a placeholder once the payload is known.
unfoldable pub encode : Codecs → RowBufferV2 → Bool → OdbcResult Bytes
encode codecs buffer use_compression = do
  capacity ← estimate_encoded_size buffer
  columns ← checked_u16 (column_count buffer) "column count"
  rows ← checked_u32 buffer.row_count "row count"
  payload ← encode_blocks codecs buffer.columns use_compression
  payload_size ← checked_u32 (length payload) "payload size"
  ok (
      le_bytes 4 magic
      ++ (le_bytes 2 version_v2
          ++ (le_bytes 2 buffer.flags
              ++ (le_bytes 2 columns
                  ++ (le_bytes 4 rows
                      ++ ((if use_compression then 1 else 0)
                          ∷ (le_bytes 4 payload_size ++ payload)))))))

unfoldable pub encode_for_bulk : Codecs → RowBuffer → OdbcResult Bytes
encode_for_bulk codecs buffer = encode codecs (row_buffer_to_columnar buffer) true
