-- ===== src/Protocol/ParamValue/Tests.antt =====
-- Runs of the parameter format, and its theorems at concrete values.
use dart_odbc_fast.Prelude.{
  ◌≤◌, ◌≡◌, refl, arith, List, [], ◌∷◌, length, ok, err, All, some, none, true, false,
}
use dart_odbc_fast.Prelude.Int.{negsuc, to_bits}
use dart_odbc_fast.Wire.{Bytes, le_bytes, get_le, checked_add}
use dart_odbc_fast.Wire.Utf8.{is_utf8}
use dart_odbc_fast.Wire.Print.{print_int, print_hex}
use dart_odbc_fast.Error.{invalid}
use dart_odbc_fast.Protocol.ParamValue.{
  ParamValue, string, integer, binary, null, try_serialize, decode_value, deserialize,
  deserialize_loop, deserialize_params, try_serialize_params, max_param_count,
  param_values_to_strings, param_to_string,
}
use dart_odbc_fast.Protocol.ParamValue.RoundTrip.{
  ValueFits, values_bytes, deserialize_params-try_serialize_params,
}
use dart_odbc_fast.Protocol.ParamValue.Sound.{deserialize_params_sound}

abbrev hi : ParamValue
hi = string (b'h' ∷ b'i' ∷ [])

abbrev mixed : List ParamValue
mixed = integer (negsuc 1) ∷ hi ∷ null ∷ binary (0xab ∷ 0xcd ∷ []) ∷ []

-- A NULL with a payload, which `try_serialize` never writes, is accepted.
abbrev padded_null : Bytes
padded_null = 0 ∷ 1 ∷ 0 ∷ 0 ∷ 0 ∷ 7 ∷ []

serialize_minus_two :
    try_serialize (integer (negsuc 1)) ≡ ok (2 ∷ 4 ∷ 0 ∷ 0 ∷ 0 ∷ 254 ∷ 255 ∷ 255 ∷ 255 ∷ [])
unfolding try_serialize le_bytes to_bits
serialize_minus_two = refl

deserialize-padded_null : deserialize padded_null ≡ ok (null, 6)
unfolding deserialize decode_value checked_add get_le
deserialize-padded_null = refl

deserialize_params-padded_null : deserialize_params padded_null ≡ ok (null ∷ [])
unfolding deserialize_params deserialize_loop deserialize decode_value checked_add get_le
deserialize_params-padded_null = refl

deserialize_bad_text :
    deserialize (1 ∷ 2 ∷ 0 ∷ 0 ∷ 0 ∷ 0xff ∷ 0xfe ∷ [])
    ≡ err (invalid "Invalid UTF-8 in ParamValue::String" [])
unfolding deserialize decode_value checked_add get_le is_utf8
deserialize_bad_text = refl

-- The euro sign, and an overlong form of the slash.
utf8_euro : is_utf8 (0xe2 ∷ 0x82 ∷ 0xac ∷ []) ≡ true
unfolding is_utf8
utf8_euro = refl

utf8_overlong : is_utf8 (0xc0 ∷ 0xaf ∷ []) ≡ false
unfolding is_utf8
utf8_overlong = refl

strings_mixed :
    param_values_to_strings mixed
    ≡ ok (
        some (b'-' ∷ b'2' ∷ [])
        ∷ some (b'h' ∷ b'i' ∷ [])
        ∷ none
        ∷ some (b'a' ∷ b'b' ∷ b'c' ∷ b'd' ∷ [])
        ∷ [])
unfolding param_values_to_strings param_to_string print_int print_hex
strings_mixed = refl

deserialize_params-try_serialize_params_example :
    (b : Bytes) × (try_serialize_params mixed ≡ ok b) × (deserialize_params b ≡ ok mixed)
unfolding is_utf8
deserialize_params-try_serialize_params_example =
    deserialize_params-try_serialize_params mixed (omega arith)
      (omega arith, ((omega arith, refl), (tt, (omega arith, tt))))

deserialize_params_sound_example :
    (1 ≤ max_param_count)
    × All ValueFits (null ∷ [])
    × (length (values_bytes (null ∷ [])) ≤ length padded_null)
deserialize_params_sound_example =
    deserialize_params_sound padded_null (null ∷ []) (omega arith) deserialize_params-padded_null
