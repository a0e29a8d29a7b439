-- ===== src/Protocol/ParamValue/Sound.antt =====
-- What `deserialize` and `deserialize_params` accept on any bytes.
use dart_odbc_fast.Prelude.{
  ℕ, zero, suc, ◌≤◌, ltb, if◌then◌else◌, List, [], ◌∷◌, length, take, drop, ok, err, ◌≡◌, refl,
  arith, All, length-append, length-take, length-drop, All-take, All-drop, Result-cases, inl, inr,
  lt→ltb,
}
use dart_odbc_fast.Prelude.Int.{FitsIn, to_bits, from_bits, from_bits-FitsIn}
use dart_odbc_fast.Wire.{Bytes, IsByte, AreBytes, from_le, get_le, checked_add}
use dart_odbc_fast.Wire.Laws.{length-le_bytes, from_le-lt}
use dart_odbc_fast.Protocol.ParamValue.{
  ParamValue, string, integer, big_int, decimal, binary, null, ref_cursor_out, i32_half, i64_half,
  max_param_count, max_param_value_payload_len, decode_value, deserialize, deserialize_loop,
  deserialize_params,
}
use dart_odbc_fast.Protocol.ParamValue.RoundTrip.{
  ValueFits, payload_of, value_bytes, values_bytes, length-value_bytes,
}

four_bytes :
    (bs : Bytes) → AreBytes bs → length bs ≡ 4 → FitsIn i32_half (from_bits i32_half (from_le bs))
four_bytes bs bytes e = from_bits-FitsIn i32_half (from_le bs) (rw e at (from_le-lt bs bytes))

eight_bytes :
    (bs : Bytes) → AreBytes bs → length bs ≡ 8 → FitsIn i64_half (from_bits i64_half (from_le bs))
eight_bytes bs bytes e = from_bits-FitsIn i64_half (from_le bs) (rw e at (from_le-lt bs bytes))

-- A decoded value is one that Rust's types allow, and no longer than the payload that it was read from.
decode_value_sound :
    (tag len : ℕ) (payload : Bytes) (p : ParamValue)
    → AreBytes payload
    → length payload ≡ len
    → len ≤ max_param_value_payload_len
    → decode_value tag len payload ≡ ok p
    → ValueFits p × (length (payload_of p) ≤ len)
unfolding decode_value
decode_value_sound tag len payload null bytes e small h = omega arith
decode_value_sound tag len payload (string s) bytes e small h = ground arith
decode_value_sound tag len payload (integer z) bytes e small h =
    ground (arith, four_bytes payload bytes, length-le_bytes 4 (to_bits i32_half z))
decode_value_sound tag len payload (big_int z) bytes e small h =
    ground (arith, eight_bytes payload bytes, length-le_bytes 8 (to_bits i64_half z))
decode_value_sound tag len payload (decimal s) bytes e small h = ground arith
decode_value_sound tag len payload (binary b) bytes e small h = ground arith
decode_value_sound tag len payload ref_cursor_out bytes e small h = omega arith

-- The slice that `deserialize` takes.
slice_lem :
    (n : ℕ) (body : Bytes)
    → AreBytes body
    → n ≤ length body
    → (length (if ltb 0 n then take n body else []) ≡ n)
      × AreBytes (if ltb 0 n then take n body else [])
slice_lem zero body bytes h = (refl, tt)
slice_lem (suc n) body bytes h =
    rw (lt→ltb 0 (suc n) (omega arith))
      (omega (arith, length-take (suc n) body), All-take IsByte (suc n) body bytes)

-- Whatever `deserialize` accepts, it takes at least five bytes and no more than there are, and the
-- value is one that `try_serialize` can write in no more bytes than were taken.
deserialize_sound :
    (buf : Bytes) (p : ParamValue) (n : ℕ)
    → AreBytes buf
    → deserialize buf ≡ ok (p, n)
    → (5 ≤ n) × (n ≤ length buf) × ValueFits p × (length (value_bytes p) ≤ n)
unfolding deserialize checked_add
deserialize_sound [] p n bytes h = cc
deserialize_sound (tag ∷ rest) p n bytes h = ground (
  arith,
  length-drop 4 rest,
  length-value_bytes p,
  slice_lem (get_le 4 rest) (drop 4 rest) (All-drop IsByte 4 rest bytes.1),
  decode_value_sound tag (get_le 4 rest)
      (if ltb 0 (get_le 4 rest) then take (get_le 4 rest) (drop 4 rest) else []) p,
)

loop_step :
    (p : ParamValue) (more ps : List ParamValue) (n : ℕ) (cursor : Bytes) (room : ℕ)
    → p ∷ more ≡ ps
    → (5 ≤ n) × (n ≤ length cursor) × ValueFits p × (length (value_bytes p) ≤ n)
    → length more ≤ room
    → All ValueFits more
    → length (values_bytes more) ≤ length (drop n cursor)
    → (length ps ≤ suc room) × All ValueFits ps × (length (values_bytes ps) ≤ length cursor)
unfolding values_bytes
loop_step p more ps n cursor room same first few fit small = rw (← same) (
  omega arith,
  (first.2, fit),
  omega (arith, length-append (value_bytes p) (values_bytes more), length-drop n cursor, first),
)

deserialize_loop_sound :
    (room : ℕ) (cursor : Bytes) (ps : List ParamValue)
    → AreBytes cursor
    → deserialize_loop room cursor ≡ ok ps
    → (length ps ≤ room) × All ValueFits ps × (length (values_bytes ps) ≤ length cursor)
unfolding deserialize_loop values_bytes
deserialize_loop_sound room [] [] bytes h = omega arith
deserialize_loop_sound room [] (p ∷ ps) bytes h = cc
deserialize_loop_sound zero (b ∷ cursor) ps bytes h = cc
deserialize_loop_sound (suc room) (b ∷ cursor) ps bytes h =
    elim (Result-cases (deserialize (b ∷ cursor))) [
      | inl ((p, n), e) ↦ elim (Result-cases (deserialize_loop room (drop n (b ∷ cursor)))) [
        | inl (more, e') ↦
            let rest = drop n (b ∷ cursor) in
            let first = deserialize_sound (b ∷ cursor) p n bytes e in
            let (few, fit, small) =
              deserialize_loop_sound room rest more (All-drop IsByte n (b ∷ cursor) bytes) e' in
            let same : ok (p ∷ more) ≡ deserialize_loop (suc room) (b ∷ cursor) = rw (e, e') refl in
            loop_step p more ps n (b ∷ cursor) room (cc (same, h)) first few fit small
        | inr (x, e') ↦
            let bad : deserialize_loop (suc room) (b ∷ cursor) ≡ err x = rw (e, e') refl in
            cc (bad, h)
      ]
      | inr (x, e) ↦
          let bad : deserialize_loop (suc room) (b ∷ cursor) ≡ err x = rw e refl in cc (bad, h)
    ]

-- Whatever `deserialize_params` accepts is a list of at most 4096 values, each one that
-- `try_serialize` can write, and together they are written in no more bytes than were read.
pub deserialize_params_sound :
    (buf : Bytes) (ps : List ParamValue)
    → AreBytes buf
    → deserialize_params buf ≡ ok ps
    → (length ps ≤ max_param_count) × All ValueFits ps × (length (values_bytes ps) ≤ length buf)
unfolding deserialize_params
deserialize_params_sound buf ps bytes h = deserialize_loop_sound max_param_count buf ps bytes h
