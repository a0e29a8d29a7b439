-- ===== src/Protocol/Encoder.antt =====
-- protocol/encoder.rs: a result set as a row-major message, and the footers that may follow it.
pub mod Sizes
pub mod Footers
use dart_odbc_fast.Prelude.{
  ℕ, ◌+◌, ◌^◌, ltb, if◌then◌else◌, List, [], ◌∷◌, ◌++◌, length, Result, ok, err, ◌>>=◌, ◌>>◌,
  Option, none, some, String,
}
use dart_odbc_fast.Wire.{Bytes, le_bytes, checked_add, ok_or}
use mathlib.Core.Option
use dart_odbc_fast.Protocol.ParamValue.{ParamValue, try_serialize}
use dart_odbc_fast.Protocol.Types.{discriminant}
use dart_odbc_fast.Protocol.RowBuffer.{ColumnMetadata, Cell, RowBuffer, row_count, column_count}

abbrev pub magic : ℕ
magic = 0x4f444243

abbrev pub version : ℕ
version = 1

abbrev pub output_footer_magic : Bytes
output_footer_magic = b'O' ∷ b'U' ∷ b'T' ∷ b'1' ∷ []

abbrev pub ref_cursor_footer_magic : Bytes
ref_cursor_footer_magic = b'R' ∷ b'C' ∷ b'1' ∷ 0 ∷ []

pub data EncodeError : Type 0 where
  length_too_large : String → ℕ → String → EncodeError
  payload_size_overflow : String → EncodeError

unfoldable pub checked_u16_len : ℕ → String → Result EncodeError ℕ
checked_u16_len value field =
    if ltb value (2 ^ 16) then ok value else err (length_too_large field value "u16")

unfoldable pub checked_u32_len : ℕ → String → Result EncodeError ℕ
checked_u32_len value field =
    if ltb value (2 ^ 32) then ok value else err (length_too_large field value "u32")

unfoldable pub checked_payload_add : ℕ → ℕ → String → Result EncodeError ℕ
checked_payload_add current added context =
    ok_or (checked_add current added) (payload_size_overflow context)

-- The first loop of `encode_to_writer`: the size of the column metadata.
unfoldable pub metadata_loop : ℕ → List ColumnMetadata → Result EncodeError ℕ
metadata_loop size [] = ok size
metadata_loop size (col ∷ columns) = do
  checked ← checked_u16_len (length col.name) "column name length"
  with_type ← checked_payload_add size 2 "column type"
  with_len ← checked_payload_add with_type 2 "column name length"
  with_name ← checked_payload_add with_len (length col.name) "column name"
  metadata_loop with_name columns

unfoldable pub add_cell : ℕ → Cell → Result EncodeError ℕ
add_cell size none = checked_payload_add size 1 "cell null flag"
add_cell size (some content) = do
  with_flag ← checked_payload_add size 1 "cell null flag"
  checked ← checked_u32_len (length content) "cell data length"
  with_len ← checked_payload_add with_flag 4 "cell data length"
  checked_payload_add with_len (length content) "cell data"

unfoldable pub add_row_size : ℕ → List Cell → Result EncodeError ℕ
add_row_size size [] = ok size
add_row_size size (cell ∷ row) = do with_cell ← add_cell size cell; add_row_size with_cell row

unfoldable pub payload_loop : ℕ → List (List Cell) → Result EncodeError ℕ
payload_loop size [] = ok size
payload_loop size (row ∷ rows) = do with_row ← add_row_size size row; payload_loop with_row rows

unfoldable pub write_columns : List ColumnMetadata → Result EncodeError Bytes
write_columns [] = ok []
write_columns (col ∷ columns) = do
  name_len ← checked_u16_len (length col.name) "column name length"
  out ← write_columns columns
  ok (le_bytes 2 (discriminant col.odbc_type) ++ (le_bytes 2 name_len ++ (col.name ++ out)))

unfoldable pub write_cell : Cell → Result EncodeError Bytes
write_cell none = ok (1 ∷ [])
write_cell (some content) = do
  data_len ← checked_u32_len (length content) "cell data length"
  ok (0 ∷ (le_bytes 4 data_len ++ content))

unfoldable pub write_row : List Cell → Result EncodeError Bytes
write_row [] = ok []
write_row (cell ∷ row) = do c ← write_cell cell; out ← write_row row; ok (c ++ out)

unfoldable pub write_rows : List (List Cell) → Result EncodeError Bytes
write_rows [] = ok []
write_rows (row ∷ rows) = do r ← write_row row; out ← write_rows rows; ok (r ++ out)

-- What `encode_to_writer` writes to a writer that takes everything, as a `Vec` does.
unfoldable pub try_encode : RowBuffer → Result EncodeError Bytes
try_encode b = do
  cols ← checked_u16_len (column_count b) "column count"
  nrows ← checked_u32_len (row_count b) "row count"
  metadata_size ← metadata_loop 0 b.columns
  size ← payload_loop metadata_size b.rows
  payload_size ← checked_u32_len size "payload size"
  column_part ← write_columns b.columns
  row_part ← write_rows b.rows
  ok (
      le_bytes 4 magic
      ++ (le_bytes 2 version
          ++ (le_bytes 2 cols
              ++ (le_bytes 4 nrows ++ (le_bytes 4 payload_size ++ (column_part ++ row_part))))))

-- `serialize` panics where `try_serialize` fails: `none`.
unfoldable pub serialize : ParamValue → Option Bytes
serialize p = elim (try_serialize p) [ ok b ↦ some b | err e ↦ none ]

unfoldable pub serialize_all : List ParamValue → Option Bytes
serialize_all [] = some []
serialize_all (p ∷ params) =
    let rest = serialize_all params in
    elim (serialize p) [ none ↦ none | some b ↦ Option.map (λ out. b ++ out) rest ]

unfoldable pub try_append_output_footer :
    Bytes → List ParamValue → Result EncodeError (Option Bytes)
try_append_output_footer base [] = ok (some base)
try_append_output_footer base (p ∷ outputs) = do
  output_count ← checked_u32_len (length (p ∷ outputs)) "output parameter count"
  ok (
      Option.map (λ out. base ++ (output_footer_magic ++ (le_bytes 4 output_count ++ out)))
        (serialize_all (p ∷ outputs)))

unfoldable pub write_blobs : List Bytes → Result EncodeError Bytes
write_blobs [] = ok []
write_blobs (b ∷ blobs) = do
  blob_len ← checked_u32_len (length b) "ref cursor payload length"
  out ← write_blobs blobs
  ok (le_bytes 4 blob_len ++ (b ++ out))

unfoldable pub try_append_ref_cursor_footer : Bytes → List Bytes → Result EncodeError Bytes
try_append_ref_cursor_footer base [] = ok base
try_append_ref_cursor_footer base (b ∷ blobs) = do
  blob_count ← checked_u32_len (length (b ∷ blobs)) "ref cursor count"
  out ← write_blobs (b ∷ blobs)
  ok (base ++ (ref_cursor_footer_magic ++ (le_bytes 4 blob_count ++ out)))
