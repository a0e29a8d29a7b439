-- ===== src/Protocol/Encoder/Footers.antt =====
-- The footers behind a message.
use dart_odbc_fast.Prelude.{
  ◌^◌, ◌<◌, List, [], ◌∷◌, ◌++◌, length, ok, some, ◌≡◌, refl, arith, All, append-nil, lt→ltb,
}
use dart_odbc_fast.Wire.{Bytes, le_bytes}
use dart_odbc_fast.Protocol.ParamValue.{ParamValue}
use dart_odbc_fast.Protocol.ParamValue.RoundTrip.{
  ValueFits, value_bytes, values_bytes, try_serialize-value_bytes,
}
use dart_odbc_fast.Protocol.Encoder.{
  output_footer_magic, ref_cursor_footer_magic, checked_u32_len, serialize, serialize_all,
  try_append_output_footer, write_blobs, try_append_ref_cursor_footer,
}

serialize-value_bytes : (p : ParamValue) → ValueFits p → serialize p ≡ some (value_bytes p)
unfolding serialize
serialize-value_bytes p h = rw (try_serialize-value_bytes p h, serialize) refl

pub serialize_all-values_bytes :
    (ps : List ParamValue) → All ValueFits ps → serialize_all ps ≡ some (values_bytes ps)
unfolding serialize_all values_bytes
serialize_all-values_bytes [] h = refl
serialize_all-values_bytes (p ∷ ps) h =
    rw (serialize-value_bytes p h.0, serialize_all-values_bytes ps h.1, serialize_all) refl

-- What an output footer adds.
unfoldable pub output_footer : List ParamValue → Bytes
output_footer [] = []
output_footer (p ∷ ps) =
    output_footer_magic ++ (le_bytes 4 (length (p ∷ ps)) ++ values_bytes (p ∷ ps))

pub try_append_output_footer_lem :
    (base : Bytes) (ps : List ParamValue)
    → length ps < 2 ^ 32
    → All ValueFits ps
    → try_append_output_footer base ps ≡ ok (some (base ++ output_footer ps))
unfolding try_append_output_footer output_footer checked_u32_len
try_append_output_footer_lem base [] h fit = rw append-nil refl
try_append_output_footer_lem base (p ∷ ps) h fit =
    ground (arith, serialize_all-values_bytes (p ∷ ps) fit)

-- What a cursor footer adds.
unfoldable pub blobs_bytes : List Bytes → Bytes
blobs_bytes [] = []
blobs_bytes (b ∷ blobs) = le_bytes 4 (length b) ++ (b ++ blobs_bytes blobs)

unfoldable pub ref_cursor_footer : List Bytes → Bytes
ref_cursor_footer [] = []
ref_cursor_footer (b ∷ blobs) =
    ref_cursor_footer_magic ++ (le_bytes 4 (length (b ∷ blobs)) ++ blobs_bytes (b ∷ blobs))

abbrev pub SmallBlob : Bytes → Type 0
SmallBlob b = length b < 2 ^ 32

write_blobs-blobs_bytes :
    (blobs : List Bytes) → All SmallBlob blobs → write_blobs blobs ≡ ok (blobs_bytes blobs)
unfolding write_blobs blobs_bytes checked_u32_len
write_blobs-blobs_bytes [] h = refl
write_blobs-blobs_bytes (b ∷ blobs) h =
    rw (lt→ltb (length b) (2 ^ 32) h.0, write_blobs-blobs_bytes blobs h.1) refl

pub try_append_ref_cursor_footer_lem :
    (base : Bytes) (blobs : List Bytes)
    → length blobs < 2 ^ 32
    → All SmallBlob blobs
    → try_append_ref_cursor_footer base blobs ≡ ok (base ++ ref_cursor_footer blobs)
unfolding try_append_ref_cursor_footer ref_cursor_footer checked_u32_len
try_append_ref_cursor_footer_lem base [] h fit = rw append-nil refl
try_append_ref_cursor_footer_lem base (b ∷ blobs) h fit =
    rw (lt→ltb (length (b ∷ blobs)) (2 ^ 32) h, write_blobs-blobs_bytes (b ∷ blobs) fit) refl
