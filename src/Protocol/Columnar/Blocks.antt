-- ===== src/Protocol/Columnar/Blocks.antt =====
-- A block of a message is read back.
use dart_odbc_fast.Prelude.{
  ℕ, ◌^◌, ◌≤◌, ◌<◌, ltb, ◌&&◌, Bool, List, ◌∷◌, ◌++◌, length, drop, ok, ◌≡◌, refl, sym, ap, ◌∙◌,
  arith, ◌⊎◌, append_assoc, take-append_eq, drop-append_eq, drop-drop, Bool-cases, ltb→lt,
  Result-cases, inl, inr,
}
use dart_odbc_fast.Wire.{Bytes, le_bytes}
use dart_odbc_fast.Wire.Laws.{drop-le_bytes, get_le-le_bytes}
use dart_odbc_fast.Protocol.Types.{OdbcType, discriminant, from_protocol_discriminant-discriminant}
use dart_odbc_fast.Protocol.RowBuffer.{Cell}
use dart_odbc_fast.Protocol.Columnar.{
  CompressionType, uncompressed, zstd, ColumnBlock, column_data, block, from_u8,
}
use dart_odbc_fast.Protocol.Columnar.Cells.{wire_cells, raw_data-RawData, read_column_cells}
use dart_odbc_fast.Protocol.Columnar.Encode.{
  checked_u16, checked_u32, estimate_column_payload_size, raw_data, choose_compression,
  compression_mark, encode_column_block,
}
use dart_odbc_fast.Protocol.Columnar.Reader.{read_sized, read_payload, read_column}
use dart_odbc_fast.Protocol.Compression.{Codecs, compress, decompress, default_max_decompressed_len}
use dart_odbc_fast.Protocol.Compression.Laws.{Lossless, decompress_with_limit-compress}

-- The bytes of a block with the raw data `raw`.
unfoldable pub block_bytes : Codecs → ColumnBlock → Bool → Bytes → Bytes
block_bytes codecs b use_compression raw =
    let chosen = choose_compression codecs use_compression raw in
    le_bytes 2 (discriminant b.metadata.odbc_type)
    ++ (le_bytes 2 (length b.metadata.name)
        ++ (b.metadata.name
            ++ (compression_mark chosen.1 ++ (le_bytes 4 (length chosen.0) ++ chosen.0))))

pub encode_column_block-inversion :
    (codecs : Codecs) (b : ColumnBlock) (u : Bool) (out : Bytes)
    → encode_column_block codecs b u ≡ ok out
    → (length b.metadata.name < 2 ^ 16)
      × ((raw : Bytes) × (raw_data b.content ≡ ok raw)
          × (length (choose_compression codecs u raw).0 < 2 ^ 32)
          × (block_bytes codecs b u raw ≡ out))
unfolding encode_column_block checked_u16 checked_u32 block_bytes
encode_column_block-inversion codecs b u out h =
    elim (Result-cases (estimate_column_payload_size b.content)) [
      | inl (n, e) ↦ elim (Result-cases (raw_data b.content)) [
        | inl (raw, e') ↦
            let chosen = choose_compression codecs u raw in
            let fits : length chosen.0 < 2 ^ 32 = ground arith in
            (ground arith, (raw, e', fits, ground arith))
        | inr (x, e') ↦ absurd (ground arith)
      ]
      | inr (x, e) ↦ absurd (ground arith)
    ]

read_sized-append :
    (bytes rest : Bytes)
    → length bytes < 2 ^ 32
    → read_sized (le_bytes 4 (length bytes) ++ (bytes ++ rest)) ≡ (bytes, rest)
unfolding read_sized
read_sized-append bytes rest h =
    let n = length bytes in
    rw
      (
        drop-le_bytes 4 n (bytes ++ rest),
        get_le-le_bytes 4 n (bytes ++ rest) h,
        take-append_eq n bytes rest refl,
        drop-append_eq n bytes rest refl,
      )
      refl

-- What the encoder has chosen is the raw data, or fewer bytes that they compress to.
pub choose_compression-cases :
    (codecs : Codecs) (u : Bool) (raw : Bytes)
    → (choose_compression codecs u raw ≡ (raw, uncompressed))
      ⊎ ((p : Bytes) × (choose_compression codecs u raw ≡ (p, zstd))
          × (compress codecs raw zstd ≡ ok p)
          × (length p < length raw))
unfolding choose_compression
choose_compression-cases codecs u raw = elim (Bool-cases (u && ltb 100 (length raw))) [
  | inl e ↦ elim (Result-cases (compress codecs raw zstd)) [
    | inl (p, e') ↦ elim (Bool-cases (ltb (length p) (length raw))) [
      | inl e'' ↦ inr (p, rw (e, e', e'') refl, e', ltb→lt (length p) (length raw) e'')
      | inr e'' ↦ inl (rw (e, e', e'') refl)
    ]
    | inr (x, e') ↦ inl (rw (e, e') refl)
  ]
  | inr e ↦ inl (rw e refl)
]

read_payload-plain :
    (codecs : Codecs) (raw rest : Bytes)
    → length raw < 2 ^ 32
    → read_payload codecs (0 ∷ (le_bytes 4 (length raw) ++ (raw ++ rest))) ≡ ok (raw, rest)
unfolding read_payload le_bytes
read_payload-plain codecs raw rest h = ap ok (read_sized-append raw rest h)

decompress-compress :
    (codecs : Codecs)
    → Lossless codecs
    → (raw p : Bytes) → compress codecs raw zstd ≡ ok p
    → length raw ≤ default_max_decompressed_len
    → decompress codecs p zstd ≡ ok raw
unfolding decompress
decompress-compress codecs L raw p c small =
    let limit = default_max_decompressed_len in
    elim (decompress_with_limit-compress codecs L raw p zstd limit c (omega arith)) [
      | inl (fits, e) ↦ e
      | inr (large, bad) ↦ absurd (omega arith)
    ]

read_payload-packed :
    (codecs : Codecs)
    → Lossless codecs
    → (raw p rest : Bytes) → compress codecs raw zstd ≡ ok p
    → length p < 2 ^ 32
    → length raw ≤ default_max_decompressed_len
    → read_payload codecs (1 ∷ 1 ∷ (le_bytes 4 (length p) ++ (p ++ rest))) ≡ ok (raw, rest)
unfolding read_payload from_u8
read_payload-packed codecs L raw p rest c h small =
    rw (read_sized-append p rest h, decompress-compress codecs L raw p c small) refl

-- The payload of a block with its mark, its length and what follows it.
abbrev payload_bytes : Bytes × CompressionType → Bytes → Bytes
payload_bytes chosen rest =
    compression_mark chosen.1 ++ (le_bytes 4 (length chosen.0) ++ (chosen.0 ++ rest))

read_payload-payload_bytes :
    (codecs : Codecs)
    → Lossless codecs
    → (u : Bool) (raw rest : Bytes) → length (choose_compression codecs u raw).0 < 2 ^ 32
    → length raw ≤ default_max_decompressed_len
    → read_payload codecs (payload_bytes (choose_compression codecs u raw) rest) ≡ ok (raw, rest)
read_payload-payload_bytes codecs L u raw rest h small =
    elim (choose_compression-cases codecs u raw) [
      | inl e ↦
          let h' : length raw < 2 ^ 32 = rw e at h in rw e (read_payload-plain codecs raw rest h')
      | inr (p, e, c, shorter) ↦
          let h' : length p < 2 ^ 32 = rw e at h in
          rw e (read_payload-packed codecs L raw p rest c h' small)
    ]

block_bytes-append :
    (codecs : Codecs) (b : ColumnBlock) (u : Bool) (raw rest : Bytes)
    → block_bytes codecs b u raw ++ rest
      ≡ le_bytes 2 (discriminant b.metadata.odbc_type)
        ++ (le_bytes 2 (length b.metadata.name)
            ++ (b.metadata.name ++ payload_bytes (choose_compression codecs u raw) rest))
unfolding block_bytes
block_bytes-append codecs b u raw rest = simp append_assoc

discriminant-lt : (t : OdbcType) → discriminant t < 256 ^ 2
discriminant-lt OdbcType.varchar = omega arith
discriminant-lt _ = omega arith

-- The raw data are within what a reader decompresses.
abbrev pub IsSmall : ColumnBlock → Type 0
IsSmall b = (raw : Bytes) → raw_data b.content ≡ ok raw → length raw ≤ default_max_decompressed_len

pub read_column-block_bytes :
    (codecs : Codecs)
    → Lossless codecs
    → (name : Bytes) (t : OdbcType) (i : ℕ) (rows : List (List Cell)) (u : Bool) (raw rest : Bytes)
    → length name < 2 ^ 16
    → raw_data (column_data t i rows) ≡ ok raw
    → length (choose_compression codecs u raw).0 < 2 ^ 32
    → length raw ≤ default_max_decompressed_len
    → (let b = block (record { name = name; odbc_type = t }) (column_data t i rows) in
        read_column codecs (length rows) (block_bytes codecs b u raw ++ rest))
      ≡ ok (record { name = name; odbc_type = t; cells = wire_cells (column_data t i rows) }, rest)
unfolding read_column
read_column-block_bytes codecs L name t i rows u raw rest short e h small =
    let b = block (record { name = name; odbc_type = t }) (column_data t i rows) in
    let d = discriminant t in
    let n = length name in
    let payload = payload_bytes (choose_compression codecs u raw) rest in
    let tail = le_bytes 2 n ++ (name ++ payload) in
    let behind : drop 4 (le_bytes 2 d ++ tail) ≡ name ++ payload =
      sym (drop-drop 2 2 (le_bytes 2 d ++ tail))
      ∙ ap (drop 2) (drop-le_bytes 2 d tail)
      ∙ drop-le_bytes 2 n (name ++ payload) in
    let r = raw_data-RawData t i rows raw e in
    rw
      (
        block_bytes-append codecs b u raw rest,
        behind,
        drop-le_bytes 2 d tail,
        get_le-le_bytes 2 d tail (discriminant-lt t),
        get_le-le_bytes 2 n (name ++ payload) short,
        take-append_eq n name payload refl,
        drop-append_eq n name payload refl,
        from_protocol_discriminant-discriminant t,
        read_payload-payload_bytes codecs L u raw rest h small,
        read_column_cells t i rows raw r,
      )
      refl
