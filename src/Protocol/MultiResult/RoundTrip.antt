-- ===== src/Protocol/MultiResult/RoundTrip.antt =====
-- What `encode_multi` and `encode_multi_v1` write, `decode_multi` reads.
use dart_odbc_fast.Prelude.{
  ◌+◌, ◌*◌, ◌%◌, ◌^◌, ◌≤◌, Bool, true, false, List, [], ◌∷◌, ◌++◌, length, drop, ok, ◌≡◌, refl,
  arith, All, ◌⊎◌, inl, inr, append_assoc, length-append, take-append_eq, drop-append_eq,
}
use dart_odbc_fast.Prelude.Int.{FitsIn, to_bits, to_bits-lt, from_bits-to_bits}
use dart_odbc_fast.Wire.{Bytes, le_bytes, from_le, get_le, checked_mul}
use dart_odbc_fast.Wire.Laws.{
  length-le_bytes, from_le-le_bytes, drop-le_bytes, get_le-le_bytes, length-le_bytes-append,
}
use dart_odbc_fast.Protocol.MultiResult.{
  MultiResultItem, result_set, row_count, max_multi_result_payload, max_multi_result_items,
  i64_half, encode_item, encode_items, encode_multi, encode_multi_v1, decode_payload, decode_item,
  decode_loop, is_known_footer, validate_item_count, item_size, estimate_payload_size,
  header_v2_len, multi_result_magic, multi_result_version, decode_items, decode_multi_v1,
  decode_multi_v2, decode_multi,
}

-- What the wire format can carry.
abbrev pub ItemFits : MultiResultItem → Type 0
ItemFits (result_set buf) = length buf ≤ max_multi_result_payload
ItemFits (row_count n) = FitsIn i64_half n

pub decode_item-encode_item :
    (item : MultiResultItem) (rest : Bytes)
    → ItemFits item
    → decode_item (encode_item item ++ rest) ≡ ok (item, rest)
unfolding decode_item encode_item decode_payload
decode_item-encode_item (result_set buf) rest h =
    let n = length buf % 2 ^ 32 in
    let small : n ≡ length buf = omega arith in
    rw (append_assoc (le_bytes 4 n) buf rest) (
      ground (
        arith,
        small,
        length-le_bytes-append 4 n (buf ++ rest),
        get_le-le_bytes 4 n (buf ++ rest) (omega arith),
        drop-le_bytes 4 n (buf ++ rest),
        length-append buf rest,
        take-append_eq (length buf) buf rest refl,
        drop-append_eq (length buf) buf rest refl,
      ))
decode_item-encode_item (row_count z) rest h =
    let b = le_bytes 8 (to_bits i64_half z) in
    let wide : length b ≡ 8 = length-le_bytes 8 _ in
    rw (append_assoc (le_bytes 4 8) b rest) (
      ground (
        arith,
        length-le_bytes-append 4 8 (b ++ rest),
        get_le-le_bytes 4 8 (b ++ rest) (omega arith),
        drop-le_bytes 4 8 (b ++ rest),
        length-append b rest,
        take-append_eq 8 b rest wide,
        drop-append_eq 8 b rest wide,
        from_le-le_bytes 8 (to_bits i64_half z) (to_bits-lt i64_half z h),
        from_bits-to_bits i64_half z h,
      ))

pub decode_loop-encode_items :
    (items : List MultiResultItem) (rest : Bytes)
    → All ItemFits items
    → decode_loop (length items) (encode_items items ++ rest) ≡ ok (items, rest)
unfolding decode_loop encode_items
decode_loop-encode_items [] rest h = refl
decode_loop-encode_items (item ∷ items) rest h =
    rw
      (
        append_assoc (encode_item item) (encode_items items) rest,
        decode_item-encode_item item (encode_items items ++ rest) h.0,
        decode_loop-encode_items items rest h.1,
      )
      refl

length-encode_item : (item : MultiResultItem) → length (encode_item item) ≡ item_size item
unfolding encode_item
length-encode_item (result_set buf) =
    omega (arith, length-le_bytes-append 4 (length buf % 2 ^ 32) buf)
length-encode_item (row_count z) = omega (
  arith,
  length-le_bytes-append 4 8 (le_bytes 8 (to_bits i64_half z)),
  length-le_bytes 8 (to_bits i64_half z),
)

length-encode_items :
    (items : List MultiResultItem) → length (encode_items items) ≡ estimate_payload_size items
unfolding encode_items estimate_payload_size
length-encode_items [] = refl
length-encode_items (item ∷ items) = omega (
  arith,
  length-append (encode_item item) (encode_items items),
  length-encode_item item,
  length-encode_items items,
)

-- The capacity that the encoders reserve is the length of what they write.
length-encode_multi :
    (items : List MultiResultItem)
    → (length (encode_multi items) ≡ header_v2_len + estimate_payload_size items)
      × (length (encode_multi_v1 items) ≡ 4 + estimate_payload_size items)
unfolding encode_multi encode_multi_v1
length-encode_multi items =
    let n = length items % 2 ^ 32 in
    let body = encode_items items in
    omega (
      arith,
      length-le_bytes-append 4 multi_result_magic
          (le_bytes 2 multi_result_version ++ (le_bytes 2 0 ++ (le_bytes 4 n ++ body))),
      length-le_bytes-append 2 multi_result_version (le_bytes 2 0 ++ (le_bytes 4 n ++ body)),
      length-le_bytes-append 2 0 (le_bytes 4 n ++ body),
      length-le_bytes-append 4 n body,
      length-encode_items items,
    )

five_each : (items : List MultiResultItem) → length items * 5 ≤ estimate_payload_size items
unfolding estimate_payload_size
five_each [] = omega arith
five_each (result_set b ∷ items) = omega (arith, five_each items)
five_each (row_count z ∷ items) = omega (arith, five_each items)

validate_item_count-encode_items :
    (items : List MultiResultItem) (tail : Bytes)
    → length items ≤ max_multi_result_items
    → validate_item_count (encode_items items ++ tail) (length items) ≡ ok tt
unfolding validate_item_count checked_mul
validate_item_count-encode_items items tail h =
    ground
      (arith, length-append (encode_items items) tail, length-encode_items items, five_each items)

-- What may follow the items of a message with a header.
abbrev pub IsTail : Bytes → Type 0
IsTail tail = (tail ≡ []) ⊎ (is_known_footer tail ≡ true)

decode_items-encode_items :
    (items : List MultiResultItem) (tail : Bytes) (strict : Bool)
    → length items ≤ max_multi_result_items
    → All ItemFits items
    → (strict ≡ true → IsTail tail)
    → decode_items (encode_items items ++ tail) (length items) strict ≡ ok items
unfolding decode_items
decode_items-encode_items items tail true few fit known =
    rw (validate_item_count-encode_items items tail few, decode_loop-encode_items items tail fit)
      (elim (known refl) [ inl e ↦ rw e refl | inr k ↦ ground arith ])
decode_items-encode_items items tail false few fit known =
    rw (validate_item_count-encode_items items tail few, decode_loop-encode_items items tail fit)
      refl

-- The magic number, the version and the reserved bytes, as they stand in the buffer.
abbrev header : Bytes → Bytes
header rest = b'M' ∷ b'U' ∷ b'L' ∷ b'T' ∷ 2 ∷ 0 ∷ 0 ∷ 0 ∷ rest

header_lem :
    (rest : Bytes)
    → le_bytes 4 multi_result_magic ++ (le_bytes 2 multi_result_version ++ (le_bytes 2 0 ++ rest))
      ≡ header rest
unfolding le_bytes
header_lem rest = refl

decode_multi-header :
    (rest : Bytes)
    → 4 ≤ length rest
    → decode_multi (header rest) ≡ decode_items (drop 4 rest) (get_le 4 rest) true
unfolding decode_multi decode_multi_v2 get_le from_le
decode_multi-header rest h = ground arith

encode_multi-header :
    (items : List MultiResultItem) (tail : Bytes)
    → encode_multi items ++ tail
      ≡ header (le_bytes 4 (length items % 2 ^ 32) ++ (encode_items items ++ tail))
unfolding encode_multi
encode_multi-header items tail =
    rw (header_lem, append_assoc (le_bytes 4 (length items % 2 ^ 32)) (encode_items items) tail)
      refl

-- `decode_multi` reads back the items that `encode_multi` wrote, also with an `OUT1` or `RC1` footer
-- appended, if there are at most 16384 items, each within the limits of its length field.
pub decode_multi-encode_multi :
    (items : List MultiResultItem) (tail : Bytes)
    → length items ≤ max_multi_result_items
    → All ItemFits items
    → IsTail tail
    → decode_multi (encode_multi items ++ tail) ≡ ok items
decode_multi-encode_multi items tail few fit known =
    let n = length items % 2 ^ 32 in
    let body = encode_items items ++ tail in
    let small : n ≡ length items = omega arith in
    rw
      (
        encode_multi-header items tail,
        decode_multi-header (le_bytes 4 n ++ body) (omega (arith, length-le_bytes-append 4 n body)),
        get_le-le_bytes 4 n body (omega arith),
        drop-le_bytes 4 n body,
        small,
      )
      (decode_items-encode_items items tail true few fit (λ e. known))

-- `decode_multi` reads back the items that `encode_multi_v1` wrote, whatever follows them: the count
-- of a legacy message is never the magic number.
decode_multi-encode_multi_v1 :
    (items : List MultiResultItem) (tail : Bytes)
    → length items ≤ max_multi_result_items
    → All ItemFits items
    → decode_multi (encode_multi_v1 items ++ tail) ≡ ok items
unfolding decode_multi decode_multi_v1 encode_multi_v1
decode_multi-encode_multi_v1 items tail few fit =
    let n = length items % 2 ^ 32 in
    let body = encode_items items in
    let small : n ≡ length items = omega arith in
    rw (append_assoc (le_bytes 4 n) body tail) (
      ground (
        arith,
        small,
        length-le_bytes-append 4 n (body ++ tail),
        get_le-le_bytes 4 n (body ++ tail) (omega arith),
        drop-le_bytes 4 n (body ++ tail),
        decode_items-encode_items items tail false few fit (λ e. cc),
      ))
