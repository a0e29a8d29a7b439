-- ===== src/Protocol/MultiResult.antt =====
-- protocol/multi_result.rs: the framing of the results of a batch, with and without a header.
pub mod RoundTrip
pub mod Inversion
pub mod Sound
pub mod WithFooter
mod Tests
use dart_odbc_fast.Prelude.{
  ℕ, zero, suc, ◌+◌, ◌*◌, ◌%◌, ◌^◌, ltb, ◌==◌, Bool, true, false, not, ◌&&◌, ◌||◌, if◌then◌else◌,
  List, [], ◌∷◌, ◌++◌, length, take, drop, ok, err, reject, ◌>>=◌, ◌>>◌,
}
use dart_odbc_fast.Prelude.Int.{ℤ, to_bits, from_bits}
use dart_odbc_fast.Wire.{Bytes, le_bytes, from_le, get_le, starts_with, checked_mul, ok_or}
use dart_odbc_fast.Error.{OdbcResult, invalid, num}
use dart_odbc_fast.Protocol.Encoder.{output_footer_magic, ref_cursor_footer_magic}

abbrev pub tag_result_set : ℕ
tag_result_set = 0

abbrev pub tag_row_count : ℕ
tag_row_count = 1

abbrev pub multi_result_magic : ℕ
multi_result_magic = 0x544c554d

abbrev pub multi_result_version : ℕ
multi_result_version = 2

abbrev pub header_v2_len : ℕ
header_v2_len = 12

abbrev pub min_item_len : ℕ
min_item_len = 5

abbrev pub max_multi_result_items : ℕ
max_multi_result_items = 16384

abbrev pub max_multi_result_payload : ℕ
max_multi_result_payload = 256 * 1024 * 1024

abbrev pub i64_half : ℕ
i64_half = 2 ^ 63

pub data MultiResultItem : Type 0 where
  result_set : Bytes → MultiResultItem
  row_count : ℤ → MultiResultItem

-- One round of the loop of `encode_items`: the bytes that it appends.
unfoldable pub encode_item : MultiResultItem → Bytes
encode_item (result_set buf) = tag_result_set ∷ (le_bytes 4 (length buf % 2 ^ 32) ++ buf)
encode_item (row_count n) = tag_row_count ∷ (le_bytes 4 8 ++ le_bytes 8 (to_bits i64_half n))

unfoldable pub encode_items : List MultiResultItem → Bytes
encode_items [] = []
encode_items (item ∷ items) = encode_item item ++ encode_items items

unfoldable pub encode_multi : List MultiResultItem → Bytes
encode_multi items =
    le_bytes 4 multi_result_magic
    ++ (le_bytes 2 multi_result_version
        ++ (le_bytes 2 0 ++ (le_bytes 4 (length items % 2 ^ 32) ++ encode_items items)))

unfoldable pub encode_multi_v1 : List MultiResultItem → Bytes
encode_multi_v1 items = le_bytes 4 (length items % 2 ^ 32) ++ encode_items items

abbrev pub item_size : MultiResultItem → ℕ
item_size (result_set b) = 1 + 4 + length b
item_size (row_count n) = 1 + 4 + 8

unfoldable pub estimate_payload_size : List MultiResultItem → ℕ
estimate_payload_size [] = 0
estimate_payload_size (i ∷ items) = item_size i + estimate_payload_size items

-- The match on the tag at the end of a round of `decode_items`.
unfoldable pub decode_payload : ℕ → ℕ → Bytes → OdbcResult MultiResultItem
decode_payload tag len payload =
    if tag == tag_result_set
    then ok (result_set payload)
    else if tag == tag_row_count
    then (do
      reject (not (len == 8)) (invalid "RowCount item expected 8-byte payload" [])
      ok (row_count (from_bits i64_half (from_le payload))))
    else err (invalid "Unknown multi-result item tag: {}" (num tag ∷ []))

-- One round of the loop of `decode_items`, with the cursor behind the item. `offset.checked_add(len)`
-- never fails: a slice has at most `isize::MAX` bytes, and `len` is at most 256 MiB there.
unfoldable pub decode_item : Bytes → OdbcResult (MultiResultItem × Bytes)
decode_item [] = err (invalid "Multi-result buffer truncated at item" [])
decode_item (tag ∷ rest) = do
  reject (ltb (length rest) 4) (invalid "Multi-result buffer truncated at item length" [])
  let len = get_le 4 rest
  reject (ltb max_multi_result_payload len) (
      invalid "Multi-result item payload {} exceeds limit {}"
        (num len ∷ num max_multi_result_payload ∷ []))
  let body = drop 4 rest
  reject (ltb (length body) len) (invalid "Multi-result buffer truncated at item payload" [])
  item ← decode_payload tag len (take len body)
  ok (item, drop len body)

unfoldable pub decode_loop : ℕ → Bytes → OdbcResult (List MultiResultItem × Bytes)
decode_loop zero cursor = ok ([], cursor)
decode_loop (suc count) cursor = do
  (item, after) ← decode_item cursor
  (items, tail) ← decode_loop count after
  ok (item ∷ items, tail)

unfoldable pub is_known_footer : Bytes → Bool
is_known_footer buf = starts_with buf output_footer_magic || starts_with buf ref_cursor_footer_magic

unfoldable pub validate_item_count : Bytes → ℕ → OdbcResult (Unit {0})
validate_item_count cursor count = do
  reject (ltb max_multi_result_items count) (
      invalid "Multi-result item count {} exceeds limit {}"
        (num count ∷ num max_multi_result_items ∷ []))
  min_required ← ok_or (checked_mul count min_item_len) (invalid "Multi-result count overflow" [])
  reject (ltb (length cursor) min_required)
      (invalid "Multi-result count exceeds available payload" [])

unfoldable pub decode_items : Bytes → ℕ → Bool → OdbcResult (List MultiResultItem)
decode_items cursor count reject_trailing = do
  validate_item_count cursor count
  (items, tail) ← decode_loop count cursor
  reject (reject_trailing && (not (length tail == 0) && not (is_known_footer tail)))
      (invalid "Multi-result v2 buffer has trailing bytes" [])
  ok items

unfoldable pub decode_multi_v2 : Bytes → OdbcResult (List MultiResultItem)
decode_multi_v2 buf = do
  reject (ltb (length buf) header_v2_len) (invalid "Multi-result v2 buffer too short for header" [])
  let version = get_le 2 (drop 4 buf)
  reject (not (version == multi_result_version)) (
      invalid "Unsupported multi-result version: {} (expected {})"
        (num version ∷ num multi_result_version ∷ []))
  decode_items (drop header_v2_len buf) (get_le 4 (drop 8 buf)) true

unfoldable pub decode_multi_v1 : Bytes → OdbcResult (List MultiResultItem)
decode_multi_v1 buf = do
  reject (ltb (length buf) 4) (invalid "Multi-result buffer too short for count" [])
  decode_items (drop 4 buf) (get_le 4 buf) false

unfoldable pub decode_multi : Bytes → OdbcResult (List MultiResultItem)
decode_multi buf =
    if not (ltb (length buf) 4) && get_le 4 buf == multi_result_magic
    then decode_multi_v2 buf
    else decode_multi_v1 buf
