-- ===== src/Protocol/ParamValue.antt =====
-- protocol/param_value.rs: one statement parameter, and the list of the parameters of a request.
pub mod RoundTrip
pub mod Sound
pub mod Strings
mod Tests
use dart_odbc_fast.Prelude.{
  ℕ, zero, suc, ◌+◌, ◌*◌, ◌^◌, ◌≤◌, max, ltb, ◌==◌, Bool, true, false, not, if◌then◌else◌, List, [],
  ◌∷◌, ◌++◌, length, take, drop, any, ok, err, reject, ◌>>=◌, ◌>>◌, Option, none, some, String,
}
use dart_odbc_fast.Prelude.Int.{ℤ, to_bits, from_bits}
use dart_odbc_fast.Wire.{Bytes, le_bytes, from_le, get_le, checked_add, ok_or}
use dart_odbc_fast.Wire.Utf8.{is_utf8}
use dart_odbc_fast.Wire.Print.{print_int, print_hex}
use dart_odbc_fast.Error.{OdbcResult, invalid, num, str}

abbrev pub max_param_count : ℕ
max_param_count = 4096

abbrev pub max_param_value_payload_len : ℕ
max_param_value_payload_len = 16 * 1024 * 1024

abbrev pub i32_half : ℕ
i32_half = 2 ^ 31

abbrev pub i64_half : ℕ
i64_half = 2 ^ 63

-- Texts are byte lists that `is_utf8` accepts. `RefCursorOut` has the wire tag 6.
pub data ParamValue : Type 0 where
  string : Bytes → ParamValue
  integer : ℤ → ParamValue
  big_int : ℤ → ParamValue
  decimal : Bytes → ParamValue
  binary : Bytes → ParamValue
  null : ParamValue
  ref_cursor_out : ParamValue

unfoldable pub checked_payload_len : ℕ → String → OdbcResult ℕ
checked_payload_len value field = do
  reject (ltb max_param_value_payload_len value) (
      invalid "{} length {} exceeds limit {}"
        (str field ∷ num value ∷ num max_param_value_payload_len ∷ []))
  reject (not (ltb value (2 ^ 32)))
      (invalid "{} length {} exceeds u32" (str field ∷ num value ∷ []))
  ok value

-- The tag, the length and the bytes of a value of variable length.
unfoldable pub serialize_bytes : ℕ → Bytes → String → OdbcResult Bytes
serialize_bytes tag b field = do
  len ← checked_payload_len (length b) field
  ok (tag ∷ (le_bytes 4 len ++ b))

unfoldable pub try_serialize : ParamValue → OdbcResult Bytes
try_serialize null = ok (0 ∷ le_bytes 4 0)
try_serialize (string s) = serialize_bytes 1 s "ParamValue::String"
try_serialize (integer n) = ok (2 ∷ (le_bytes 4 4 ++ le_bytes 4 (to_bits i32_half n)))
try_serialize (big_int n) = ok (3 ∷ (le_bytes 4 8 ++ le_bytes 8 (to_bits i64_half n)))
try_serialize (decimal s) = serialize_bytes 4 s "ParamValue::Decimal"
try_serialize (binary b) = serialize_bytes 5 b "ParamValue::Binary"
try_serialize ref_cursor_out = ok (6 ∷ le_bytes 4 0)

-- The match on the tag at the end of `deserialize`.
unfoldable pub decode_value : ℕ → ℕ → Bytes → OdbcResult ParamValue
decode_value tag len payload =
    if tag == 0
    then ok null
    else if tag == 1
    then (do
      reject (not (is_utf8 payload)) (invalid "Invalid UTF-8 in ParamValue::String" [])
      ok (string payload))
    else if tag == 2
    then (do
      reject (not (len == 4)) (invalid "ParamValue::Integer expected 4 bytes" [])
      ok (integer (from_bits i32_half (from_le payload))))
    else if tag == 3
    then (do
      reject (not (len == 8)) (invalid "ParamValue::BigInt expected 8 bytes" [])
      ok (big_int (from_bits i64_half (from_le payload))))
    else if tag == 4
    then (do
      reject (not (is_utf8 payload)) (invalid "Invalid UTF-8 in ParamValue::Decimal" [])
      ok (decimal payload))
    else if tag == 5
    then ok (binary payload)
    else if tag == 6
    then (do
      reject (not (len == 0)) (invalid "ParamValue::RefCursorOut expected 0-byte payload" [])
      ok ref_cursor_out)
    else err (invalid "Unknown ParamValue tag: {}" (num tag ∷ []))

-- The value at the front of the buffer, and the number of bytes that it takes. The empty buffer is
-- a short one.
unfoldable pub deserialize : Bytes → OdbcResult (ParamValue × ℕ)
deserialize [] = err (invalid "ParamValue buffer too short" [])
deserialize (tag ∷ rest) = do
  reject (ltb (length (tag ∷ rest)) 5) (invalid "ParamValue buffer too short" [])
  let len = get_le 4 rest
  reject (ltb max_param_value_payload_len len) (
      invalid "ParamValue payload length {} exceeds limit {}"
        (num len ∷ num max_param_value_payload_len ∷ []))
  consumed ← ok_or (checked_add 5 len) (invalid "ParamValue length overflow" [])
  reject (ltb (length (tag ∷ rest)) consumed) (invalid "ParamValue buffer truncated" [])
  p ← decode_value tag len (if ltb 0 len then take len (drop 4 rest) else [])
  ok (p, consumed)

-- The loop of `deserialize_params`; `room` is MAX_PARAM_COUNT - out.len().
unfoldable pub deserialize_loop : ℕ → Bytes → OdbcResult (List ParamValue)
deserialize_loop room [] = ok []
deserialize_loop zero (b ∷ cursor) =
    err (invalid "Parameter count exceeds limit {}" (num max_param_count ∷ []))
deserialize_loop (suc room) (b ∷ cursor) = do
  (p, n) ← deserialize (b ∷ cursor)
  ps ← deserialize_loop room (drop n (b ∷ cursor))
  ok (p ∷ ps)

unfoldable pub deserialize_params : Bytes → OdbcResult (List ParamValue)
deserialize_params buf = deserialize_loop max_param_count buf

unfoldable pub serialize_loop : List ParamValue → OdbcResult Bytes
serialize_loop [] = ok []
serialize_loop (p ∷ params) = do b ← try_serialize p; out ← serialize_loop params; ok (b ++ out)

unfoldable pub try_serialize_params : List ParamValue → OdbcResult Bytes
try_serialize_params params = do
  reject (ltb max_param_count (length params)) (
      invalid "Parameter count {} exceeds limit {}"
        (num (length params) ∷ num max_param_count ∷ []))
  serialize_loop params

unfoldable pub param_to_string : ParamValue → OdbcResult (Option Bytes)
param_to_string null = ok none
param_to_string (string s) = ok (some s)
param_to_string (integer n) = ok (some (print_int n))
param_to_string (big_int n) = ok (some (print_int n))
param_to_string (decimal s) = ok (some s)
param_to_string (binary b) = ok (some (print_hex b))
param_to_string ref_cursor_out =
    err (invalid "ParamValue::RefCursorOut is not convertible to string parameters" [])

unfoldable pub param_values_to_strings : List ParamValue → OdbcResult (List (Option Bytes))
param_values_to_strings [] = ok []
param_values_to_strings (p ∷ params) = do
  s ← param_to_string p
  out ← param_values_to_strings params
  ok (s ∷ out)

abbrev pub is_null_param : ParamValue → Bool
is_null_param null = true
is_null_param _ = false

unfoldable pub has_null_param : List ParamValue → Bool
has_null_param params = any is_null_param params

abbrev pub string_len : ParamValue → ℕ
string_len (string s) = length s
string_len (decimal s) = length s
string_len (binary b) = length b * 2
string_len _ = 0

unfoldable pub max_len_from : ℕ → List ParamValue → ℕ
max_len_from max_len [] = max_len
max_len_from max_len (p ∷ params) = max_len_from (max max_len (string_len p)) params

unfoldable pub max_param_string_len : List ParamValue → ℕ
unfolding max_len_from
max_param_string_len params = max_len_from 1 params

unfoldable pub param_count_exceeds_limit : List ParamValue → ℕ → Bool
param_count_exceeds_limit params limit = ltb limit (length params)
