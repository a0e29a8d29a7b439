-- ===== src/Protocol/MultiResult/Tests.antt =====
-- Runs of the multi-result framing, and its theorems at concrete messages.
use dart_odbc_fast.Prelude.{◌≡◌, refl, arith, List, [], ◌∷◌, ◌++◌, ok, err, inr, some}
use dart_odbc_fast.Prelude.Int.{negsuc, from_bits}
use dart_odbc_fast.Wire.{Bytes, le_bytes, get_le, starts_with, checked_mul}
use dart_odbc_fast.Error.{invalid}
use dart_odbc_fast.Protocol.Encoder.{output_footer_magic}
use dart_odbc_fast.Protocol.MultiResult.{
  MultiResultItem, result_set, row_count, encode_items, encode_multi, decode_payload, decode_item,
  decode_loop, is_known_footer, validate_item_count, decode_items, decode_multi_v1, decode_multi_v2,
  decode_multi,
}
use dart_odbc_fast.Protocol.MultiResult.RoundTrip.{decode_multi-encode_multi}
use dart_odbc_fast.Protocol.MultiResult.Sound.{Accepted, decode_multi_sound}
use dart_odbc_fast.Protocol.ParamValue.{null}
use dart_odbc_fast.Protocol.Encoder.{try_append_output_footer, try_append_ref_cursor_footer}
use dart_odbc_fast.Protocol.MultiResult.WithFooter.{decode_multi-footers}

abbrev two_items : List MultiResultItem
two_items = result_set (10 ∷ 20 ∷ []) ∷ row_count (negsuc 0) ∷ []

-- The value -1, in a message whose reserved bytes are not zero.
abbrev one_count : Bytes
one_count =
    b'M' ∷ b'U' ∷ b'L' ∷ b'T' ∷ 2 ∷ 0 ∷ 9 ∷ 9 ∷ 1 ∷ 0 ∷ 0 ∷ 0 ∷ 1 ∷ 8 ∷ 0 ∷ 0 ∷ 0 ∷ 255 ∷ 255 ∷ 255
    ∷ 255 ∷ 255 ∷ 255 ∷ 255 ∷ 255 ∷ []

encode_multi_empty :
    encode_multi [] ≡ b'M' ∷ b'U' ∷ b'L' ∷ b'T' ∷ 2 ∷ 0 ∷ 0 ∷ 0 ∷ 0 ∷ 0 ∷ 0 ∷ 0 ∷ []
unfolding encode_multi encode_items le_bytes
encode_multi_empty = refl

decode_one_count : decode_multi one_count ≡ ok (row_count (negsuc 0) ∷ [])
unfolding decode_multi decode_multi_v2 decode_items validate_item_count decode_loop decode_item
    decode_payload checked_mul get_le is_known_footer starts_with from_bits
decode_one_count = refl

decode_too_short :
    decode_multi (0 ∷ 0 ∷ []) ≡ err (invalid "Multi-result buffer too short for count" [])
unfolding decode_multi decode_multi_v1
decode_too_short = refl

decode_trailing :
    decode_multi (b'M' ∷ b'U' ∷ b'L' ∷ b'T' ∷ 2 ∷ 0 ∷ 0 ∷ 0 ∷ 0 ∷ 0 ∷ 0 ∷ 0 ∷ 1 ∷ [])
    ≡ err (invalid "Multi-result v2 buffer has trailing bytes" [])
unfolding decode_multi decode_multi_v2 decode_items validate_item_count decode_loop checked_mul
    get_le is_known_footer starts_with
decode_trailing = refl

decode_multi-encode_multi_example :
    decode_multi (encode_multi two_items ++ output_footer_magic) ≡ ok two_items
unfolding is_known_footer starts_with
decode_multi-encode_multi_example =
    decode_multi-encode_multi two_items output_footer_magic (omega arith) (omega arith) (inr refl)

decode_multi_sound_example : Accepted one_count (row_count (negsuc 0) ∷ [])
decode_multi_sound_example =
    decode_multi_sound one_count (row_count (negsuc 0) ∷ []) (omega arith) decode_one_count

decode_multi-footers_example :
    (outputs : Bytes) × (cursors : Bytes) × (try_append_output_footer
        (encode_multi two_items)
        (null ∷ [])
      ≡ ok (some outputs))
    × (try_append_ref_cursor_footer outputs ((1 ∷ 2 ∷ []) ∷ []) ≡ ok cursors)
    × (decode_multi cursors ≡ ok two_items)
decode_multi-footers_example =
    decode_multi-footers two_items (null ∷ []) ((1 ∷ 2 ∷ []) ∷ []) (omega arith) (omega arith)
      (omega arith) (tt, tt) (omega arith) (omega arith)
