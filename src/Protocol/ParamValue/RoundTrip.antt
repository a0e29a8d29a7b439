-- ===== src/Protocol/ParamValue/RoundTrip.antt =====
-- What `try_serialize` writes, `deserialize` reads.
use dart_odbc_fast.Prelude.{
  ℕ, zero, suc, ◌+◌, ◌≤◌, ltb, true, if◌then◌else◌, List, [], ◌∷◌, ◌++◌, length, take, drop, ok,
  ◌≡◌, refl, arith, All, append_assoc, append-nil, length-append, take-append_eq, drop-append_eq,
  le→ltb,
}
use dart_odbc_fast.Prelude.Int.{FitsIn, to_bits, to_bits-lt, from_bits-to_bits}
use dart_odbc_fast.Wire.{Bytes, le_bytes, checked_add}
use dart_odbc_fast.Wire.Utf8.{is_utf8}
use dart_odbc_fast.Wire.Laws.{
  length-le_bytes, from_le-le_bytes, drop-le_bytes, get_le-le_bytes, length-le_bytes-append,
}
use dart_odbc_fast.Protocol.ParamValue.{
  ParamValue, string, integer, big_int, decimal, binary, null, ref_cursor_out, i32_half, i64_half,
  max_param_count, max_param_value_payload_len, checked_payload_len, serialize_bytes, try_serialize,
  decode_value, deserialize, deserialize_loop, deserialize_params, serialize_loop,
  try_serialize_params,
}

abbrev pub ShortText : Bytes → Type 0
ShortText s = (length s ≤ max_param_value_payload_len) × (is_utf8 s ≡ true)

-- The values that Rust's types and the length limit allow.
abbrev pub ValueFits : ParamValue → Type 0
ValueFits (string s) = ShortText s
ValueFits (integer n) = FitsIn i32_half n
ValueFits (big_int n) = FitsIn i64_half n
ValueFits (decimal s) = ShortText s
ValueFits (binary b) = length b ≤ max_param_value_payload_len
ValueFits null = Unit
ValueFits ref_cursor_out = Unit

-- A tag and a payload of `n` bytes, as they stand on the wire.
unfoldable pub tagged : ℕ → ℕ → Bytes → Bytes
tagged tag n payload = tag ∷ (le_bytes 4 n ++ payload)

payload_slice :
    (n : ℕ) (payload rest : Bytes)
    → length payload ≡ n
    → (if ltb 0 n then take n (payload ++ rest) else []) ≡ payload
payload_slice n [] rest e = ground arith
payload_slice n (b ∷ bs) rest e = ground (arith, take-append_eq n (b ∷ bs) rest e)

-- `deserialize` on a tag and a payload within the limit is the match on the tag.
pub deserialize-tagged :
    (tag n : ℕ) (payload rest : Bytes) (p : ParamValue)
    → length payload ≡ n
    → n ≤ max_param_value_payload_len
    → decode_value tag n payload ≡ ok p
    → deserialize (tagged tag n payload ++ rest) ≡ ok (p, 5 + n)
unfolding deserialize tagged checked_add
deserialize-tagged tag n payload rest p wide few h =
    rw
      (
        append_assoc (le_bytes 4 n) payload rest,
        get_le-le_bytes 4 n (payload ++ rest) (omega arith),
        drop-le_bytes 4 n (payload ++ rest),
        payload_slice n payload rest wide,
        h,
      )
      (ground (arith, length-le_bytes-append 4 n (payload ++ rest), length-append payload rest))

abbrev pub tag_of : ParamValue → ℕ
tag_of null = 0
tag_of (string s) = 1
tag_of (integer n) = 2
tag_of (big_int n) = 3
tag_of (decimal s) = 4
tag_of (binary b) = 5
tag_of ref_cursor_out = 6

abbrev pub payload_of : ParamValue → Bytes
payload_of null = []
payload_of (string s) = s
payload_of (integer n) = le_bytes 4 (to_bits i32_half n)
payload_of (big_int n) = le_bytes 8 (to_bits i64_half n)
payload_of (decimal s) = s
payload_of (binary b) = b
payload_of ref_cursor_out = []

-- The wire form of a value that is within the limits.
unfoldable pub value_bytes : ParamValue → Bytes
unfolding tagged
value_bytes p = tagged (tag_of p) (length (payload_of p)) (payload_of p)

payload_fits : (p : ParamValue) → ValueFits p → length (payload_of p) ≤ max_param_value_payload_len
payload_fits null h = omega arith
payload_fits (string s) h = h.0
payload_fits (integer n) h = omega (arith, length-le_bytes 4 (to_bits i32_half n))
payload_fits (big_int n) h = omega (arith, length-le_bytes 8 (to_bits i64_half n))
payload_fits (decimal s) h = h.0
payload_fits (binary b) h = h
payload_fits ref_cursor_out h = omega arith

pub length-value_bytes : (p : ParamValue) → length (value_bytes p) ≡ 5 + length (payload_of p)
unfolding value_bytes
length-value_bytes p =
    omega (arith, length-le_bytes-append 4 (length (payload_of p)) (payload_of p))

pub try_serialize-value_bytes :
    (p : ParamValue) → ValueFits p → try_serialize p ≡ ok (value_bytes p)
unfolding try_serialize value_bytes serialize_bytes checked_payload_len
try_serialize-value_bytes null h = rw append-nil refl
try_serialize-value_bytes (string s) h = ground arith
try_serialize-value_bytes (integer n) h = rw (length-le_bytes 4 (to_bits i32_half n)) refl
try_serialize-value_bytes (big_int n) h = rw (length-le_bytes 8 (to_bits i64_half n)) refl
try_serialize-value_bytes (decimal s) h = ground arith
try_serialize-value_bytes (binary b) h = ground arith
try_serialize-value_bytes ref_cursor_out h = rw append-nil refl

decode_value-payload_of :
    (p : ParamValue)
    → ValueFits p
    → decode_value (tag_of p) (length (payload_of p)) (payload_of p) ≡ ok p
unfolding decode_value
decode_value-payload_of null h = refl
decode_value-payload_of (string s) h = rw h.1 refl
decode_value-payload_of (integer n) h =
    rw
      (
        length-le_bytes 4 (to_bits i32_half n),
        from_le-le_bytes 4 (to_bits i32_half n) (to_bits-lt i32_half n h),
        from_bits-to_bits i32_half n h,
      )
      refl
decode_value-payload_of (big_int n) h =
    rw
      (
        length-le_bytes 8 (to_bits i64_half n),
        from_le-le_bytes 8 (to_bits i64_half n) (to_bits-lt i64_half n h),
        from_bits-to_bits i64_half n h,
      )
      refl
decode_value-payload_of (decimal s) h = rw h.1 refl
decode_value-payload_of (binary b) h = refl
decode_value-payload_of ref_cursor_out h = refl

pub deserialize-value_bytes :
    (p : ParamValue) (rest : Bytes)
    → ValueFits p
    → deserialize (value_bytes p ++ rest) ≡ ok (p, length (value_bytes p))
deserialize-value_bytes p rest h = rw (length-value_bytes p) (
    unfold value_bytes in
    deserialize-tagged (tag_of p) (length (payload_of p)) (payload_of p) rest p refl
      (payload_fits p h) (decode_value-payload_of p h))

-- `deserialize` reads back a value that `try_serialize` wrote, whatever bytes follow it, and takes
-- exactly the bytes that were written: `try_serialize` succeeds on every value within the limits.
deserialize-try_serialize :
    (p : ParamValue) (rest : Bytes)
    → ValueFits p
    → (b : Bytes) × (try_serialize p ≡ ok b) × (deserialize (b ++ rest) ≡ ok (p, length b))
deserialize-try_serialize p rest h =
    (value_bytes p, try_serialize-value_bytes p h, deserialize-value_bytes p rest h)

-- A list of values on the wire.
unfoldable pub values_bytes : List ParamValue → Bytes
values_bytes [] = []
values_bytes (p ∷ ps) = value_bytes p ++ values_bytes ps

pub serialize_loop-values_bytes :
    (ps : List ParamValue) → All ValueFits ps → serialize_loop ps ≡ ok (values_bytes ps)
unfolding serialize_loop values_bytes
serialize_loop-values_bytes [] h = refl
serialize_loop-values_bytes (p ∷ ps) h =
    rw (try_serialize-value_bytes p h.0, serialize_loop-values_bytes ps h.1) refl

-- One round of the loop.
pub deserialize_loop_step :
    (room n : ℕ) (cursor : Bytes) (p : ParamValue) (ps : List ParamValue)
    → deserialize cursor ≡ ok (p, n)
    → deserialize_loop room (drop n cursor) ≡ ok ps
    → deserialize_loop (suc room) cursor ≡ ok (p ∷ ps)
unfolding deserialize_loop
deserialize_loop_step room n [] p ps h h' = absurd (unfold deserialize in cc)
deserialize_loop_step room n (b ∷ cursor) p ps h h' = rw (h, h') refl

pub deserialize_loop-values_bytes :
    (ps : List ParamValue) (room : ℕ)
    → length ps ≤ room
    → All ValueFits ps
    → deserialize_loop room (values_bytes ps) ≡ ok ps
unfolding values_bytes
deserialize_loop-values_bytes [] room few h = unfold deserialize_loop in refl
deserialize_loop-values_bytes (p ∷ ps) zero few h = absurd (omega arith)
deserialize_loop-values_bytes (p ∷ ps) (suc room) few h =
    deserialize_loop_step room (length (value_bytes p)) _ p ps
      (deserialize-value_bytes p (values_bytes ps) h.0)
      (rw (drop-append_eq (length (value_bytes p)) (value_bytes p) (values_bytes ps) refl)
        (deserialize_loop-values_bytes ps room (omega arith) h.1))

-- `deserialize_params` reads back the list that `try_serialize_params` wrote, and writing succeeds,
-- for at most 4096 values within the limits.
pub deserialize_params-try_serialize_params :
    (ps : List ParamValue)
    → length ps ≤ max_param_count
    → All ValueFits ps
    → (b : Bytes) × (try_serialize_params ps ≡ ok b) × (deserialize_params b ≡ ok ps)
unfolding try_serialize_params deserialize_params
deserialize_params-try_serialize_params ps few h = (
  values_bytes ps,
  rw (le→ltb max_param_count (length ps) few) (serialize_loop-values_bytes ps h),
  deserialize_loop-values_bytes ps max_param_count few h,
)
