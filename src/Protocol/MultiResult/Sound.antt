-- ===== src/Protocol/MultiResult/Sound.antt =====
-- What `decode_multi` accepts is what the encoders write.
use dart_odbc_fast.Prelude.{
  ◌%◌, ◌^◌, ◌≤◌, ltb, ◌==◌, true, false, not, ◌&&◌, List, [], ◌∷◌, ◌++◌, length, take, drop, ok,
  ◌≡◌, refl, sym, ◌∙◌, arith, All, append_assoc, Bool-cases, ◌⊎◌, inl, inr, All-drop, drop-drop,
  length-drop, ==_iff,
}
use dart_odbc_fast.Wire.{Bytes, IsByte, AreBytes, le_bytes, get_le}
use dart_odbc_fast.Wire.Laws.{le_bytes-get_le}
use dart_odbc_fast.Protocol.MultiResult.{
  MultiResultItem, max_multi_result_items, encode_items, encode_multi_v1, multi_result_magic,
  multi_result_version, decode_items, decode_multi_v1, decode_multi_v2, decode_multi,
}
use dart_odbc_fast.Protocol.MultiResult.RoundTrip.{ItemFits, IsTail}
use dart_odbc_fast.Protocol.MultiResult.Inversion.{decode_items_sound}

-- The items of a message that `decode_multi` accepts, and how their bytes stand in it.
pub record Accepted (buf : Bytes) (items : List MultiResultItem) : Type 0 where
  pub tail : Bytes
  pub few : length items ≤ max_multi_result_items
  pub fit : All ItemFits items
  pub framed :
      (buf ≡ encode_multi_v1 items ++ tail)
      ⊎ ((take 6 buf ≡ b'M' ∷ b'U' ∷ b'L' ∷ b'T' ∷ 2 ∷ 0 ∷ [])
          × (drop 8 buf ≡ encode_multi_v1 items ++ tail)
          × IsTail tail)

framed_v1 :
    (buf : Bytes) (items : List MultiResultItem) (tail : Bytes)
    → AreBytes buf
    → 4 ≤ length buf
    → length items ≤ max_multi_result_items
    → drop 4 buf ≡ encode_items items ++ tail
    → length items ≡ get_le 4 buf
    → buf ≡ encode_multi_v1 items ++ tail
unfolding encode_multi_v1
framed_v1 buf items tail bytes fits few body n =
    let count : length items % 2 ^ 32 ≡ get_le 4 buf = omega arith in
    rw (count, append_assoc (le_bytes 4 (get_le 4 buf)) (encode_items items) tail, ← body)
      (sym (le_bytes-get_le 4 buf bytes fits))

magic_and_version :
    (buf : Bytes)
    → AreBytes buf
    → 12 ≤ length buf
    → get_le 4 buf ≡ multi_result_magic
    → get_le 2 (drop 4 buf) ≡ multi_result_version
    → take 6 buf ≡ b'M' ∷ b'U' ∷ b'L' ∷ b'T' ∷ 2 ∷ 0 ∷ []
unfolding le_bytes
magic_and_version buf bytes fits magic version =
    let first = rw magic at (le_bytes-get_le 4 buf bytes (omega arith)) in
    let second = rw version at (
      le_bytes-get_le 2 (drop 4 buf) (All-drop IsByte 4 buf bytes)
        (omega (arith, length-drop 4 buf))) in
    rw (← first) (rw (← second) refl)

decode_multi_v1_sound :
    (buf : Bytes) (items : List MultiResultItem)
    → AreBytes buf
    → decode_multi_v1 buf ≡ ok items
    → Accepted buf items
unfolding decode_multi_v1
decode_multi_v1_sound buf items bytes h = elim (Bool-cases (ltb (length buf) 4)) [
  | inl short ↦ let h' = rw short at h in absurd (ground arith)
  | inr long ↦
      let h' : decode_items (drop 4 buf) (get_le 4 buf) false ≡ ok items = rw long at h in
      let (tail, body, n, few, fit, known) =
        decode_items_sound (drop 4 buf) (get_le 4 buf) false items (All-drop IsByte 4 buf bytes)
          h' in
      record {
        tail = tail;
        few = omega arith;
        fit = fit;
        framed = inl (framed_v1 buf items tail bytes (ground arith) (omega arith) body n);
      }
]

decode_multi_v2_sound :
    (buf : Bytes) (items : List MultiResultItem)
    → AreBytes buf
    → get_le 4 buf ≡ multi_result_magic
    → decode_multi_v2 buf ≡ ok items
    → Accepted buf items
unfolding decode_multi_v2
decode_multi_v2_sound buf items bytes magic h = elim (Bool-cases (ltb (length buf) 12)) [
  | inl short ↦ let h' = rw short at h in absurd (ground arith)
  | inr long ↦ elim (Bool-cases (get_le 2 (drop 4 buf) == multi_result_version)) [
    | inr other ↦ let h' = rw (long, other) at h in absurd (ground arith)
    | inl version ↦
        let h' : decode_items (drop 12 buf) (get_le 4 (drop 8 buf)) true ≡ ok items =
          rw (long, version) at h in
        let (tail, body, n, few, fit, known) =
          decode_items_sound (drop 12 buf) (get_le 4 (drop 8 buf)) true items
            (All-drop IsByte 12 buf bytes) h' in
        record {
          tail = tail;
          few = omega arith;
          fit = fit;
          framed = inr (
            magic_and_version buf bytes (ground arith) magic ((==_iff _ _).0 version),
            framed_v1 (drop 8 buf) items tail (All-drop IsByte 8 buf bytes)
                (ground (arith, length-drop 8 buf)) (omega arith) (drop-drop 8 4 buf ∙ body) n,
            known refl,
          );
        }
  ]
]

-- Whatever bytes `decode_multi` accepts, they are the encoding of the items that it returns: a
-- message without a header and any bytes behind it, or the magic number, the version, two reserved
-- bytes of any value, the encoding and nothing but a known footer. It returns at most 16384 items,
-- each within the limits of its length field.
pub decode_multi_sound :
    (buf : Bytes) (items : List MultiResultItem)
    → AreBytes buf
    → decode_multi buf ≡ ok items
    → Accepted buf items
unfolding decode_multi
decode_multi_sound buf items bytes h =
    elim (Bool-cases (not (ltb (length buf) 4) && get_le 4 buf == multi_result_magic)) [
      | inl framed ↦ decode_multi_v2_sound buf items bytes (ground arith) (rw framed at h)
      | inr bare ↦ decode_multi_v1_sound buf items bytes (rw bare at h)
    ]
