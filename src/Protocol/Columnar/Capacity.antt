-- ===== src/Protocol/Columnar/Capacity.antt =====
-- The estimate of a message's size: where it is found and the counts fit their fields, the message is
-- written and within it.
use dart_odbc_fast.Prelude.{
  ℕ, ◌+◌, ◌-◌, ◌*◌, ◌^◌, ◌≤◌, ◌<◌, Bool, List, [], ◌∷◌, ◌++◌, length, Option, none, some, ok, ◌≡◌,
  refl, arith, All, length-append, Result-cases, inl, inr, String, lt→ltb, if◌then◌else◌,
}
use dart_odbc_fast.Prelude.Int.{ℤ, to_bits}
use dart_odbc_fast.Wire.{Bytes, le_bytes, checked_add}
use dart_odbc_fast.Wire.Laws.{length-le_bytes-append}
use dart_odbc_fast.Protocol.Types.{discriminant}
use dart_odbc_fast.Protocol.Columnar.{
  ColumnData, varchar, integer, big_int, binary, ColumnBlock, RowBufferV2, column_count,
}
use dart_odbc_fast.Protocol.Columnar.Blocks.{choose_compression-cases}
use dart_odbc_fast.Protocol.Columnar.Encode.{
  magic, version_v2, header_size, checked_u16, checked_u32, checked_size, estimate_texts,
  estimate_integers, estimate_column_payload_size, estimate_columns, estimate_encoded_size,
  write_texts, write_integers, raw_data, choose_compression, compression_mark, encode_column_block,
  encode_blocks, encode,
}
use dart_odbc_fast.Protocol.Compression.{Codecs}

checked_size-ok : (a b n : ℕ) (s : String) → checked_size a b s ≡ ok n → a + b ≡ n
unfolding checked_size checked_add
checked_size-ok a b n s h = ground arith

estimate_texts-write_texts :
    (field : String) (size n : ℕ) (cells : List (Option Bytes))
    → estimate_texts size cells ≡ ok n
    → (raw : Bytes) × (write_texts field cells ≡ ok raw) × (size + length raw ≡ n)
unfolding estimate_texts write_texts checked_size checked_add checked_u32
estimate_texts-write_texts field size n [] h = ([], refl, ground arith)
estimate_texts-write_texts field size n (none ∷ cells) h =
    let (raw, w, e) = estimate_texts-write_texts field (size + 1) n cells (ground arith) in
    (1 ∷ raw, rw w refl, omega arith)
estimate_texts-write_texts field size n (some bytes ∷ cells) h =
    let len = length bytes in
    let (raw, w, e) =
      estimate_texts-write_texts field (size + 1 + 4 + len) n cells (ground arith) in
    let fits : len < 2 ^ 32 = ground arith in
    let ok_len : checked_u32 len field ≡ ok len = ground arith in
    (
      0 ∷ (le_bytes 4 len ++ (bytes ++ raw)),
      rw (ok_len, w) refl,
      omega (arith, length-le_bytes-append 4 len (bytes ++ raw), length-append bytes raw),
    )

estimate_integers-write_integers :
    (w size n : ℕ) (context : String) (cells : List (Option ℤ))
    → estimate_integers w context size cells ≡ ok n
    → size + length (write_integers w cells) ≡ n
unfolding estimate_integers write_integers checked_size checked_add
estimate_integers-write_integers w size n context [] h = ground arith
estimate_integers-write_integers w size n context (none ∷ cells) h =
    let more = estimate_integers-write_integers w (size + 1) n context cells (ground arith) in
    omega arith
estimate_integers-write_integers w size n context (some v ∷ cells) h =
    let more = estimate_integers-write_integers w (size + 1 + w) n context cells (ground arith) in
    omega (arith, length-le_bytes-append w (to_bits (2 ^ (8 * w - 1)) v) (write_integers w cells))

estimate-raw_data :
    (content : ColumnData) (n : ℕ)
    → estimate_column_payload_size content ≡ ok n
    → (raw : Bytes) × (raw_data content ≡ ok raw) × (length raw ≡ n)
unfolding estimate_column_payload_size raw_data
estimate-raw_data (varchar cells) n h =
    let (raw, w, e) = estimate_texts-write_texts "varchar cell length" 0 n cells h in
    (raw, w, omega arith)
estimate-raw_data (binary cells) n h =
    let (raw, w, e) = estimate_texts-write_texts "binary cell length" 0 n cells h in
    (raw, w, omega arith)
estimate-raw_data (integer cells) n h =
    let e = estimate_integers-write_integers 4 0 n "integer cell" cells h in
    (write_integers 4 cells, refl, omega arith)
estimate-raw_data (big_int cells) n h =
    let e = estimate_integers-write_integers 8 0 n "bigint cell" cells h in
    (write_integers 8 cells, refl, omega arith)

-- The payload of a block with its mark is within the raw data and the two bytes of the longer mark.
length-choose_compression :
    (codecs : Codecs) (u : Bool) (raw : Bytes)
    → (let chosen = choose_compression codecs u raw in
        (length chosen.0 ≤ length raw)
        × (length (compression_mark chosen.1) + length chosen.0 ≤ 2 + length raw))
length-choose_compression codecs u raw = elim (choose_compression-cases codecs u raw) [
  | inl e ↦ rw e (omega arith, omega arith)
  | inr (p, e, c, shorter) ↦ rw e (omega arith, omega arith)
]

length-block :
    (d n : ℕ) (name mark payload : Bytes)
    → length (
        le_bytes 2 d
        ++ (le_bytes 2 n ++ (name ++ (mark ++ (le_bytes 4 (length payload) ++ payload)))))
      ≡ 8 + length name + (length mark + length payload)
length-block d n name mark payload =
    let sized = le_bytes 4 (length payload) ++ payload in
    omega (
      arith,
      length-le_bytes-append 2 d (le_bytes 2 n ++ (name ++ (mark ++ sized))),
      length-le_bytes-append 2 n (name ++ (mark ++ sized)),
      length-append name (mark ++ sized),
      length-append mark sized,
      length-le_bytes-append 4 (length payload) payload,
    )

abbrev pub ShortName : ColumnBlock → Type 0
ShortName b = length b.metadata.name < 2 ^ 16

-- A block of which the estimate is `n`.
encode_column_block-fits :
    (codecs : Codecs) (b : ColumnBlock) (u : Bool) (n : ℕ)
    → estimate_column_payload_size b.content ≡ ok n
    → n < 2 ^ 32
    → ShortName b
    → (out : Bytes) × (encode_column_block codecs b u ≡ ok out)
      × (length out ≤ 10 + length b.metadata.name + n)
unfolding encode_column_block checked_u16 checked_u32
encode_column_block-fits codecs b u n h small short =
    let (raw, r, e) = estimate-raw_data b.content n h in
    let chosen = choose_compression codecs u raw in
    let (fewer, marked) = length-choose_compression codecs u raw in
    let d = discriminant b.metadata.odbc_type in
    let l = length b.metadata.name in
    (
      le_bytes 2 d
          ++ (le_bytes 2 l
              ++ (b.metadata.name
                  ++ (compression_mark chosen.1 ++ (le_bytes 4 (length chosen.0) ++ chosen.0)))),
      rw (lt→ltb l (2 ^ 16) short, h, r, lt→ltb (length chosen.0) (2 ^ 32) (omega arith)) refl,
      omega (arith, length-block d l b.metadata.name (compression_mark chosen.1) chosen.0),
    )

encode_blocks-append :
    (codecs : Codecs) (b : ColumnBlock) (columns : List ColumnBlock) (u : Bool) (first rest : Bytes)
    → encode_column_block codecs b u ≡ ok first
    → encode_blocks codecs columns u ≡ ok rest
    → encode_blocks codecs (b ∷ columns) u ≡ ok (first ++ rest)
unfolding encode_blocks
encode_blocks-append codecs b columns u first rest w w' = rw (w, w') refl

estimate_columns-le :
    (size n : ℕ) (columns : List ColumnBlock) → estimate_columns size columns ≡ ok n → size ≤ n
unfolding estimate_columns checked_size checked_add
estimate_columns-le size n [] h = ground arith
estimate_columns-le size n (b ∷ columns) h =
    elim (Result-cases (estimate_column_payload_size b.content)) [
      | inl (p, e) ↦
          let total = size + 2 + 2 + length b.metadata.name + 1 + 1 + 4 + p in
          let more = estimate_columns-le total n columns (ground arith) in omega arith
      | inr (x, e) ↦ absurd (ground arith)
    ]

encode_blocks-fits :
    (codecs : Codecs) (columns : List ColumnBlock) (u : Bool) (size n : ℕ)
    → estimate_columns size columns ≡ ok n
    → n < size + 2 ^ 32
    → All ShortName columns
    → (out : Bytes) × (encode_blocks codecs columns u ≡ ok out) × (size + length out ≤ n)
unfolding estimate_columns encode_blocks checked_size checked_add
encode_blocks-fits codecs [] u size n h small short = ([], refl, ground arith)
encode_blocks-fits codecs (b ∷ columns) u size n h small short =
    let l = length b.metadata.name in
    elim (Result-cases (estimate_column_payload_size b.content)) [
      | inl (p, e) ↦
          let total = size + 2 + 2 + l + 1 + 1 + 4 + p in
          let counted : estimate_columns total columns ≡ ok n = ground arith in
          let within = estimate_columns-le total n columns counted in
          let (first, w, f) = encode_column_block-fits codecs b u p e (omega arith) short.0 in
          let (rest, w', r) =
            encode_blocks-fits codecs columns u total n counted (omega arith) short.1 in
          (
            first ++ rest,
            encode_blocks-append codecs b columns u first rest w w',
            omega (arith, length-append first rest),
          )
      | inr (x, e) ↦ absurd (ground arith)
    ]

-- The message of a result set with the payload `payload`.
abbrev message : RowBufferV2 → Bool → Bytes → Bytes
message buffer u payload =
    le_bytes 4 magic
    ++ (le_bytes 2 version_v2
        ++ (le_bytes 2 buffer.flags
            ++ (le_bytes 2 (column_count buffer)
                ++ (le_bytes 4 buffer.row_count
                    ++ ((if u then 1 else 0) ∷ (le_bytes 4 (length payload) ++ payload))))))

length-message :
    (buffer : RowBufferV2) (u : Bool) (payload : Bytes)
    → length (message buffer u payload) ≡ 19 + length payload
unfolding le_bytes
length-message buffer u payload = omega arith

encode-message :
    (codecs : Codecs) (buffer : RowBufferV2) (u : Bool) (n : ℕ) (payload : Bytes)
    → estimate_encoded_size buffer ≡ ok n
    → column_count buffer < 2 ^ 16
    → buffer.row_count < 2 ^ 32
    → length payload < 2 ^ 32
    → encode_blocks codecs buffer.columns u ≡ ok payload
    → encode codecs buffer u ≡ ok (message buffer u payload)
unfolding encode checked_u16 checked_u32
encode-message codecs buffer u n payload h columns rows size w =
    rw
      (
        h,
        lt→ltb (column_count buffer) (2 ^ 16) columns,
        lt→ltb buffer.row_count (2 ^ 32) rows,
        w,
        lt→ltb (length payload) (2 ^ 32) size,
      )
      refl

-- If the encoder finds the size `n` for its buffer, the counts of columns and of rows and the lengths
-- of the names fit their fields and `n` is under 2 ^ 32, it writes the message, compressed or not and
-- whatever the two crates answer, and the message is within `n` bytes.
pub encode_lem :
    (codecs : Codecs) (buffer : RowBufferV2) (u : Bool) (n : ℕ)
    → estimate_encoded_size buffer ≡ ok n
    → n < 2 ^ 32
    → column_count buffer < 2 ^ 16
    → buffer.row_count < 2 ^ 32
    → All ShortName buffer.columns
    → (out : Bytes) × (encode codecs buffer u ≡ ok out) × (length out ≤ n)
encode_lem codecs buffer u n h small columns rows short =
    let (payload, w, f) =
      encode_blocks-fits codecs buffer.columns u header_size n h (omega arith) short in
    (
      message buffer u payload,
      encode-message codecs buffer u n payload h columns rows (omega arith) w,
      omega (arith, length-message buffer u payload),
    )
