-- ===== src/Protocol/BoundParam/Tests.antt =====
-- Runs of the directed format, and its theorems at concrete lists.
use dart_odbc_fast.Prelude.{◌≡◌, refl, arith, List, [], ◌∷◌, ok, err}
use dart_odbc_fast.Prelude.Int.{pos}
use dart_odbc_fast.Wire.{Bytes, get_le, starts_with}
use dart_odbc_fast.Error.{invalid, num}
use dart_odbc_fast.Protocol.ParamValue.{integer, null, try_serialize_params}
use dart_odbc_fast.Protocol.BoundParam.{
  BoundParam, input, output, legacy, directed, deserialize_param_buffer, is_directed_param_buffer,
  decode_directed, decode_params, decode_param, from_u8,
}
use dart_odbc_fast.Protocol.BoundParam.Laws.{
  directed_bytes, deserialize_param_buffer-directed, deserialize_param_buffer-legacy,
}

abbrev two_params : List BoundParam
two_params =
    record { direction = input; value = integer (pos 3) }
    ∷ record { direction = output; value = null }
    ∷ []

bad_direction :
    deserialize_param_buffer
      (b'D' ∷ b'R' ∷ b'T' ∷ b'1' ∷ 1 ∷ 0 ∷ 0 ∷ 0 ∷ 3 ∷ 0 ∷ 0 ∷ 0 ∷ 0 ∷ 0 ∷ [])
    ≡ err (invalid "DRT1 invalid direction {}" (num 3 ∷ []))
unfolding deserialize_param_buffer is_directed_param_buffer starts_with decode_directed get_le
    decode_params decode_param from_u8
bad_direction = refl

deserialize_param_buffer-directed_example :
    deserialize_param_buffer (directed_bytes two_params) ≡ ok (directed two_params)
deserialize_param_buffer-directed_example =
    deserialize_param_buffer-directed two_params (omega arith) (omega arith)

deserialize_param_buffer-legacy_example :
    (b : Bytes) × (try_serialize_params (null ∷ integer (pos 3) ∷ []) ≡ ok b)
    × (deserialize_param_buffer b ≡ ok (legacy (null ∷ integer (pos 3) ∷ [])))
deserialize_param_buffer-legacy_example =
    deserialize_param_buffer-legacy (null ∷ integer (pos 3) ∷ []) (omega arith) (omega arith)
