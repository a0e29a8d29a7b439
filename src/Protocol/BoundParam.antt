-- ===== src/Protocol/BoundParam.antt =====
-- protocol/bound_param.rs: parameters with directions (`DRT1`), and the legacy list without them.
pub mod Laws
mod Tests
use dart_odbc_fast.Prelude.{
  ℕ, zero, suc, ltb, ◌==◌, Bool, true, false, not, ◌&&◌, if◌then◌else◌, List, [], ◌∷◌, length, take,
  drop, ok, err, reject, ◌>>=◌, ◌>>◌, Option, none, some,
}
use dart_odbc_fast.Wire.{Bytes, get_le, starts_with, ok_or}
use dart_odbc_fast.Error.{OdbcResult, invalid, num}
use dart_odbc_fast.Protocol.ParamValue.{
  ParamValue, max_param_count, deserialize, deserialize_params,
}

abbrev pub drt1 : Bytes
drt1 = b'D' ∷ b'R' ∷ b'T' ∷ b'1' ∷ []

pub data ParamDirection : Type 0 where
  input output in_out : ParamDirection

-- The discriminants of `ParamDirection`.
abbrev pub direction_code : ParamDirection → ℕ
direction_code input = 0
direction_code output = 1
direction_code in_out = 2

unfoldable pub from_u8 : ℕ → Option ParamDirection
from_u8 b =
    if b == 0
    then some input
    else if b == 1
    then some output
    else if b == 2
    then some in_out
    else none

pub record BoundParam : Type 0 where
  pub direction : ParamDirection
  pub value : ParamValue

pub data ParamList : Type 0 where
  legacy : List ParamValue → ParamList
  directed : List BoundParam → ParamList

unfoldable pub is_directed_param_buffer : Bytes → Bool
is_directed_param_buffer buf = not (ltb (length buf) 8) && starts_with buf drt1

-- One round of the loop, with the cursor behind the parameter.
unfoldable pub decode_param : Bytes → OdbcResult (BoundParam × Bytes)
decode_param [] = err (invalid "DRT1 buffer truncated (direction)" [])
decode_param (d ∷ cursor) = do
  dir ← ok_or (from_u8 d) (invalid "DRT1 invalid direction {}" (num d ∷ []))
  reject (length cursor == 0) (invalid "DRT1 buffer truncated (value)" [])
  (v, n) ← deserialize cursor
  ok (record { direction = dir; value = v }, drop n cursor)

unfoldable pub decode_params : ℕ → Bytes → OdbcResult (List BoundParam × Bytes)
decode_params zero cursor = ok ([], cursor)
decode_params (suc count) cursor = do
  (p, after) ← decode_param cursor
  (ps, tail) ← decode_params count after
  ok (p ∷ ps, tail)

-- The branch of `deserialize_param_buffer` for a `DRT1` buffer.
unfoldable pub decode_directed : Bytes → OdbcResult ParamList
decode_directed buf = do
  let count = get_le 4 (drop 4 buf)
  reject (ltb max_param_count count)
      (invalid "DRT1 parameter count {} exceeds limit {}" (num count ∷ num max_param_count ∷ []))
  reject (ltb (length (drop 8 buf)) count)
      (invalid "DRT1 parameter count exceeds available payload" [])
  (out, tail) ← decode_params count (drop 8 buf)
  reject (not (length tail == 0)) (invalid "DRT1 buffer has trailing bytes" [])
  ok (directed out)

unfoldable pub deserialize_param_buffer : Bytes → OdbcResult ParamList
deserialize_param_buffer [] = ok (legacy [])
deserialize_param_buffer (b ∷ bs) =
    if is_directed_param_buffer (b ∷ bs)
    then decode_directed (b ∷ bs)
    else (do ps ← deserialize_params (b ∷ bs); ok (legacy ps))
