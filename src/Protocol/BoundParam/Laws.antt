-- ===== src/Protocol/BoundParam/Laws.antt =====
-- Both request formats are read back, and neither is taken for the other.
use dart_odbc_fast.Prelude.{
  ℕ, ◌≤◌, ◌<◌, true, false, List, [], ◌∷◌, ◌++◌, length, ok, some, ◌≡◌, refl, arith, All,
  append_assoc, length-append, drop-append_eq, append-nil, le→ltb,
}
use dart_odbc_fast.Wire.{Bytes, le_bytes, starts_with}
use dart_odbc_fast.Wire.Laws.{drop-le_bytes, get_le-le_bytes, length-le_bytes-append}
use dart_odbc_fast.Protocol.ParamValue.{
  ParamValue, string, integer, big_int, decimal, binary, null, ref_cursor_out, max_param_count,
  deserialize_params, try_serialize_params,
}
use dart_odbc_fast.Protocol.ParamValue.RoundTrip.{
  ValueFits, tag_of, tagged, value_bytes, values_bytes, length-value_bytes, deserialize-value_bytes,
  serialize_loop-values_bytes, deserialize_loop-values_bytes,
}
use dart_odbc_fast.Protocol.BoundParam.{
  drt1, ParamDirection, input, output, in_out, direction_code, from_u8, BoundParam, legacy,
  directed, is_directed_param_buffer, decode_param, decode_params, decode_directed,
  deserialize_param_buffer,
}

-- The wire format: the magic, the count, and for each parameter its direction and its value.
unfoldable pub bound_bytes : BoundParam → Bytes
bound_bytes p = direction_code p.direction ∷ value_bytes p.value

unfoldable pub bounds_bytes : List BoundParam → Bytes
bounds_bytes [] = []
bounds_bytes (p ∷ ps) = bound_bytes p ++ bounds_bytes ps

unfoldable pub directed_bytes : List BoundParam → Bytes
directed_bytes ps = drt1 ++ (le_bytes 4 (length ps) ++ bounds_bytes ps)

abbrev pub BoundFits : BoundParam → Type 0
BoundFits p = ValueFits p.value

from_u8-direction_code : (d : ParamDirection) → from_u8 (direction_code d) ≡ some d
unfolding from_u8
from_u8-direction_code input = refl
from_u8-direction_code output = refl
from_u8-direction_code in_out = refl

decode_param-bound_bytes :
    (p : BoundParam) (rest : Bytes)
    → BoundFits p
    → decode_param (bound_bytes p ++ rest) ≡ ok (p, rest)
unfolding decode_param bound_bytes
decode_param-bound_bytes p rest h =
    rw
      (
        from_u8-direction_code p.direction,
        deserialize-value_bytes p.value rest h,
        drop-append_eq (length (value_bytes p.value)) (value_bytes p.value) rest refl,
      )
      (ground (arith, length-append (value_bytes p.value) rest, length-value_bytes p.value))

decode_params-bounds_bytes :
    (ps : List BoundParam) (rest : Bytes)
    → All BoundFits ps
    → decode_params (length ps) (bounds_bytes ps ++ rest) ≡ ok (ps, rest)
unfolding decode_params bounds_bytes
decode_params-bounds_bytes [] rest h = refl
decode_params-bounds_bytes (p ∷ ps) rest h =
    rw
      (
        append_assoc (bound_bytes p) (bounds_bytes ps) rest,
        decode_param-bound_bytes p (bounds_bytes ps ++ rest) h.0,
        decode_params-bounds_bytes ps rest h.1,
      )
      refl

length-bounds_bytes : (ps : List BoundParam) → length ps ≤ length (bounds_bytes ps)
unfolding bounds_bytes bound_bytes
length-bounds_bytes [] = omega arith
length-bounds_bytes (p ∷ ps) =
    omega (arith, length-append (value_bytes p.value) (bounds_bytes ps), length-bounds_bytes ps)

decode_directed-directed_bytes :
    (ps : List BoundParam)
    → length ps ≤ max_param_count
    → All BoundFits ps
    → decode_directed (directed_bytes ps) ≡ ok (directed ps)
unfolding decode_directed directed_bytes
decode_directed-directed_bytes ps few h =
    let n = length ps in
    let body = bounds_bytes ps in
    let read : decode_params n body ≡ ok (ps, []) =
      rw append-nil at (decode_params-bounds_bytes ps [] h) in
    rw
      (
        get_le-le_bytes 4 n body (omega arith),
        drop-le_bytes 4 n body,
        le→ltb max_param_count n few,
        le→ltb (length body) n (length-bounds_bytes ps),
        read,
      )
      refl

-- `deserialize_param_buffer` reads a directed list back from its wire format, directions included.
pub deserialize_param_buffer-directed :
    (ps : List BoundParam)
    → length ps ≤ max_param_count
    → All BoundFits ps
    → deserialize_param_buffer (directed_bytes ps) ≡ ok (directed ps)
unfolding deserialize_param_buffer is_directed_param_buffer directed_bytes
deserialize_param_buffer-directed ps few h =
    let known : is_directed_param_buffer (directed_bytes ps) ≡ true =
      unfold starts_with in
      ground (arith, length-le_bytes-append 4 (length ps) (bounds_bytes ps)) in
    rw (known, decode_directed-directed_bytes ps few h) refl

tag_of-lt : (p : ParamValue) → tag_of p < b'D'
tag_of-lt null = omega arith
tag_of-lt (string s) = omega arith
tag_of-lt (integer n) = omega arith
tag_of-lt (big_int n) = omega arith
tag_of-lt (decimal s) = omega arith
tag_of-lt (binary b) = omega arith
tag_of-lt ref_cursor_out = omega arith

not_directed : (tag : ℕ) (rest : Bytes) → tag < b'D' → is_directed_param_buffer (tag ∷ rest) ≡ false
unfolding is_directed_param_buffer starts_with
not_directed tag rest h = ground arith

legacy_lem :
    (ps qs : List ParamValue)
    → deserialize_params (values_bytes ps) ≡ ok qs
    → qs ≡ ps
    → deserialize_param_buffer (values_bytes ps) ≡ ok (legacy ps)
unfolding deserialize_param_buffer values_bytes value_bytes tagged
legacy_lem [] qs h e = refl
legacy_lem (p ∷ ps) qs h e = rw (not_directed (tag_of p) _ (tag_of-lt p), h, e) refl

-- A list that `try_serialize_params` wrote is never taken for a directed one: whatever its values,
-- `deserialize_param_buffer` reads it back as a legacy list.
pub deserialize_param_buffer-legacy :
    (ps : List ParamValue)
    → length ps ≤ max_param_count
    → All ValueFits ps
    → (b : Bytes) × (try_serialize_params ps ≡ ok b) × (deserialize_param_buffer b ≡ ok (legacy ps))
deserialize_param_buffer-legacy ps few h = (
  values_bytes ps,
  unfold try_serialize_params in
      rw (le→ltb max_param_count (length ps) few) (serialize_loop-values_bytes ps h),
  legacy_lem ps ps
      (unfold deserialize_params in deserialize_loop-values_bytes ps max_param_count few h) refl,
)
