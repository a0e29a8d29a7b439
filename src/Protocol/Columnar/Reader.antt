-- ===== src/Protocol/Columnar/Reader.antt =====
-- How a reader of the column-major format takes a message apart, told apart from the encoder: a cell
-- is a NULL flag and its content, which has a length in front unless the type has a fixed width.
use dart_odbc_fast.Prelude.{
  ℕ, ◌^◌, ◌<◌, ◌==◌, ltb, not, ◌||◌, if◌then◌else◌, List, [], ◌∷◌, ◌++◌, length, take, drop, Option,
  none, some, ok, err, ◌>>=◌, ◌>>◌, ◌≡◌, reject,
}
use dart_odbc_fast.Wire.{Bytes, get_le, le_bytes}
use dart_odbc_fast.Wire.Repeat.{read_many}
use dart_odbc_fast.Error.{OdbcResult, malformed_payload, format, OdbcError}
use dart_odbc_fast.Protocol.Types.{OdbcType, from_protocol_discriminant}
use dart_odbc_fast.Protocol.RowBuffer.{Cell}
use dart_odbc_fast.Protocol.Columnar.{from_u8}
use dart_odbc_fast.Protocol.Compression.{Codecs, decompress}

abbrev pub fixed_width : OdbcType → Option ℕ
fixed_width OdbcType.integer = some 4
fixed_width OdbcType.big_int = some 8
fixed_width _ = none

-- The bytes of a cell, and the cells that have them.
unfoldable pub cell_wire : Option ℕ → Cell → Bytes
cell_wire w none = 1 ∷ []
cell_wire none (some bytes) = 0 ∷ (le_bytes 4 (length bytes) ++ bytes)
cell_wire (some k) (some bytes) = 0 ∷ bytes

abbrev pub CellFits : Option ℕ → Cell → Type 0
CellFits w none = Unit
CellFits none (some bytes) = length bytes < 2 ^ 32
CellFits (some k) (some bytes) = length bytes ≡ k

abbrev pub truncated : OdbcError
truncated = malformed_payload (format "truncated" [])

unfoldable pub read_content : Option ℕ → Bytes → Cell × Bytes
read_content none cursor =
    let len = get_le 4 cursor in (some (take len (drop 4 cursor)), drop len (drop 4 cursor))
read_content (some k) cursor = (some (take k cursor), drop k cursor)

unfoldable pub read_cell : Option ℕ → Bytes → OdbcResult (Cell × Bytes)
read_cell w [] = err truncated
read_cell w (flag ∷ cursor) = ok (if flag == 1 then (none, cursor) else read_content w cursor)

-- A column as it is read.
pub record Column : Type 0 where
  pub name : Bytes
  pub odbc_type : OdbcType
  pub cells : List Cell

-- The bytes behind a length, and what follows them.
unfoldable pub read_sized : Bytes → Bytes × Bytes
read_sized cursor =
    let len = get_le 4 cursor in (take len (drop 4 cursor), drop len (drop 4 cursor))

-- The payload of a block, behind its compression flag and perhaps its algorithm.
unfoldable pub read_payload : Codecs → Bytes → OdbcResult (Bytes × Bytes)
read_payload codecs [] = err truncated
read_payload codecs (flag ∷ []) = err truncated
read_payload codecs (flag ∷ algorithm ∷ cursor) =
    if flag == 0 then ok (read_sized (algorithm ∷ cursor)) else do
      raw ← decompress codecs (read_sized cursor).0 (from_u8 algorithm)
      ok (raw, (read_sized cursor).1)

unfoldable pub read_column : Codecs → ℕ → Bytes → OdbcResult (Column × Bytes)
read_column codecs rows cursor =
    let t = from_protocol_discriminant (get_le 2 cursor) in
    let len = get_le 2 (drop 2 cursor) in
    let behind = drop 4 cursor in
    read_payload codecs (drop len behind) >>= λ payload. do
      (cells, left) ← read_many (read_cell (fixed_width t)) rows payload.0
      reject (ltb 0 (length left)) truncated
      ok (record { name = take len behind; odbc_type = t; cells = cells }, payload.1)

-- A message: its magic number, version, number of columns, number of rows and payload size are those
-- of the header, and nothing follows the last column.
unfoldable pub read_message : Codecs → Bytes → OdbcResult (List Column)
read_message codecs buf = do
  reject
      (not (get_le 4 buf == 0x4f444243)
        || (not (get_le 2 (drop 4 buf) == 2)
            || not (get_le 4 (drop 15 buf) == length (drop 19 buf))))
      truncated
  (columns, left) ←
      read_many (read_column codecs (get_le 4 (drop 10 buf))) (get_le 2 (drop 8 buf)) (drop 19 buf)
  reject (ltb 0 (length left)) truncated
  ok columns
