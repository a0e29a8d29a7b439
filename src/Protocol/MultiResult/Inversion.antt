-- ===== src/Protocol/MultiResult/Inversion.antt =====
-- What the loop over the items accepts.
use dart_odbc_fast.Prelude.{
  ℕ, zero, suc, ◌*◌, ◌%◌, ◌^◌, ◌≤◌, ◌<◌, Bool, true, false, List, [], ◌∷◌, ◌++◌, length, take, drop,
  ok, err, ◌≡◌, ◌≢◌, refl, sym, subst, arith, All, append_assoc, Result-cases, inl, inr,
  take-append-drop, length-take, All-take, All-drop,
}
use dart_odbc_fast.Prelude.Int.{FitsIn, to_bits, from_bits, to_bits-from_bits, from_bits-FitsIn}
use dart_odbc_fast.Wire.{Bytes, IsByte, AreBytes, le_bytes, from_le, get_le}
use dart_odbc_fast.Wire.Laws.{AreBytes-rest, le_bytes-get_le, le_bytes-from_le, from_le-lt}
use dart_odbc_fast.Error.{OdbcError}
use dart_odbc_fast.Protocol.MultiResult.{
  MultiResultItem, result_set, row_count, max_multi_result_payload, max_multi_result_items,
  i64_half, encode_item, encode_items, decode_payload, decode_item, decode_loop,
  validate_item_count, decode_items,
}
use dart_odbc_fast.Protocol.MultiResult.RoundTrip.{ItemFits, IsTail}

-- Eight bytes are read as an `i64` and written back as they were.
pub eight_bytes :
    (payload : Bytes)
    → AreBytes payload
    → length payload ≡ 8
    → (le_bytes 8 (to_bits i64_half (from_bits i64_half (from_le payload))) ≡ payload)
      × FitsIn i64_half (from_bits i64_half (from_le payload))
eight_bytes payload bytes e =
    let small : from_le payload < 2 * i64_half = rw e at (from_le-lt payload bytes) in
    let back : le_bytes 8 (from_le payload) ≡ payload = rw e at (le_bytes-from_le payload bytes) in
    (
      rw (to_bits-from_bits i64_half (from_le payload) small) back,
      from_bits-FitsIn i64_half (from_le payload) small,
    )

-- The bytes of an item with tag `tag` and payload `payload`.
pub decode_payload_sound :
    (tag len : ℕ) (payload : Bytes) (item : MultiResultItem)
    → AreBytes payload
    → length payload ≡ len
    → len ≤ max_multi_result_payload
    → decode_payload tag len payload ≡ ok item
    → (encode_item item ≡ tag ∷ (le_bytes 4 len ++ payload)) × ItemFits item
unfolding decode_payload encode_item
decode_payload_sound tag len payload (result_set buf) bytes e small h =
    let fits : len % 2 ^ 32 ≡ len = omega arith in ground arith
decode_payload_sound tag len payload (row_count z) bytes e small h =
    ground (arith, eight_bytes payload bytes)

pub decode_item_sound :
    (cursor : Bytes) (item : MultiResultItem) (after : Bytes)
    → AreBytes cursor
    → decode_item cursor ≡ ok (item, after)
    → (cursor ≡ encode_item item ++ after) × ItemFits item
unfolding decode_item
decode_item_sound [] item after bytes h = cc
decode_item_sound (tag ∷ rest) item after bytes h = ground (
  arith,
  le_bytes-get_le 4 rest bytes.1,
  take-append-drop (get_le 4 rest) (drop 4 rest),
  length-take (get_le 4 rest) (drop 4 rest),
  decode_payload_sound tag (get_le 4 rest) (take (get_le 4 rest) (drop 4 rest)) item
      (All-take IsByte (get_le 4 rest) (drop 4 rest) (All-drop IsByte 4 rest bytes.1)),
  append_assoc (le_bytes 4 (get_le 4 rest)) (take (get_le 4 rest) (drop 4 rest)) after,
)

pub append_step :
    (cursor : Bytes) (item : MultiResultItem) (after : Bytes) (items : List MultiResultItem)
    (tail : Bytes)
    → cursor ≡ encode_item item ++ after
    → after ≡ encode_items items ++ tail
    → cursor ≡ encode_items (item ∷ items) ++ tail
unfolding encode_items
append_step cursor item after items tail here there =
    rw (here, there) (sym (append_assoc (encode_item item) (encode_items items) tail))

pub decode_loop_sound :
    (n : ℕ) (cursor : Bytes) (items : List MultiResultItem) (tail : Bytes)
    → AreBytes cursor
    → decode_loop n cursor ≡ ok (items, tail)
    → (cursor ≡ encode_items items ++ tail) × (length items ≡ n) × All ItemFits items
unfolding decode_loop encode_items
decode_loop_sound zero cursor [] tail bytes h = ground arith
decode_loop_sound zero cursor (i ∷ items) tail bytes h = cc
decode_loop_sound (suc n) cursor items tail bytes h = elim (Result-cases (decode_item cursor)) [
  | inl ((item, after), e) ↦
      let (here, fits) = decode_item_sound cursor item after bytes e in
      let below : AreBytes after =
        AreBytes-rest (encode_item item) after (subst AreBytes here bytes) in
      elim (Result-cases (decode_loop n after)) [
        | inl ((more, end), e') ↦
            let (there, count, all) = decode_loop_sound n after more end below e' in
            let whole = append_step cursor item after more end here there in
            let same : ok (item ∷ more, end) ≡ decode_loop (suc n) cursor = rw (e, e') refl in
            ground (arith, whole, count, all, fits, same, h)
        | inr (x, e') ↦
            let bad : decode_loop (suc n) cursor ≡ err x = rw (e, e') refl in cc (bad, h)
      ]
  | inr (x, e) ↦ let bad : decode_loop (suc n) cursor ≡ err x = rw e refl in cc (bad, h)
]

pub validate_item_count_sound :
    (cursor : Bytes) (count : ℕ) (u : Unit {0})
    → validate_item_count cursor count ≡ ok u
    → count ≤ max_multi_result_items
unfolding validate_item_count
validate_item_count_sound cursor count u h = ground arith

pub decode_items_end :
    (cursor : Bytes) (count : ℕ) (strict : Bool) (items : List MultiResultItem) (u : Unit {0})
    (more : List MultiResultItem) (tail : Bytes)
    → validate_item_count cursor count ≡ ok u
    → decode_loop count cursor ≡ ok (more, tail)
    → decode_items cursor count strict ≡ ok items
    → (items ≡ more) × (strict ≡ true → IsTail tail)
unfolding decode_items
decode_items_end cursor count false items u more tail v e h =
    let h' = rw (v, e) at h in (cc, λ x. cc)
decode_items_end cursor count true items u more [] v e h =
    let h' = rw (v, e) at h in (cc, λ x. inl refl)
decode_items_end cursor count true items u more (b ∷ tail) v e h =
    let h' = rw (v, e) at h in ground arith

pub decode_items_loop_err :
    (cursor : Bytes) (count : ℕ) (strict : Bool) (items : List MultiResultItem) (u : Unit {0})
    (x : OdbcError)
    → validate_item_count cursor count ≡ ok u
    → decode_loop count cursor ≡ err x
    → decode_items cursor count strict ≢ ok items
unfolding decode_items
decode_items_loop_err cursor count strict items u x v e h = let h' = rw (v, e) at h in cc

pub decode_items_count_err :
    (cursor : Bytes) (count : ℕ) (strict : Bool) (items : List MultiResultItem) (x : OdbcError)
    → validate_item_count cursor count ≡ err x
    → decode_items cursor count strict ≢ ok items
unfolding decode_items
decode_items_count_err cursor count strict items x v h = let h' = rw v at h in cc

-- `decode_items` reads exactly `count` items, at most 16384, and in strict mode nothing but a known
-- footer is left over.
pub decode_items_sound :
    (cursor : Bytes) (count : ℕ) (strict : Bool) (items : List MultiResultItem)
    → AreBytes cursor
    → decode_items cursor count strict ≡ ok items
    → (tail : Bytes) × (cursor ≡ encode_items items ++ tail)
      × (length items ≡ count)
      × (count ≤ max_multi_result_items)
      × All ItemFits items
      × (strict ≡ true → IsTail tail)
decode_items_sound cursor count strict items bytes h =
    elim (Result-cases (validate_item_count cursor count)) [
      | inl (u, v) ↦ elim (Result-cases (decode_loop count cursor)) [
        | inl ((more, tail), e) ↦
            let (here, n, all) = decode_loop_sound count cursor more tail bytes e in
            let (same, known) = decode_items_end cursor count strict items u more tail v e h in
            (
              tail,
              rw same here,
              rw same n,
              validate_item_count_sound cursor count u v,
              rw same all,
              known,
            )
        | inr (x, e) ↦ absurd (decode_items_loop_err cursor count strict items u x v e h)
      ]
      | inr (x, v) ↦ absurd (decode_items_count_err cursor count strict items x v h)
    ]
