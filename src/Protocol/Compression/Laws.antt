-- ===== src/Protocol/Compression/Laws.antt =====
-- No decompression yields more than its limit, and what was compressed comes back.
use dart_odbc_fast.Prelude.{
  ℕ, ◌+◌, ◌^◌, ◌≤◌, ◌<◌, ltb, length, take, none, Result, ok, err, ◌≡◌, refl, ◌⊎◌, inl, inr, arith,
  length-take, Result-cases, String, Bool-cases, ltb→lt, lt→ltb, le→ltb,
}
use dart_odbc_fast.Wire.{Bytes, checked_add}
use dart_odbc_fast.Error.{OdbcError}
use dart_odbc_fast.Protocol.Columnar.{CompressionType}
use dart_odbc_fast.Protocol.Compression.{
  Reader, Codecs, internal, compress, decompression_limit_error, read_to_end, read_limited,
  decompress_with_limit,
}

read_limited-le :
    (reader : Reader) (limit : ℕ) (out : Bytes)
    → read_limited reader limit ≡ ok out
    → length out ≤ limit
unfolding read_limited checked_add
read_limited-le reader limit out h = ground arith

-- Whatever the bytes are and whatever the two crates make of them, a decompression with a limit
-- yields no more bytes than the limit.
pub decompress_with_limit-le :
    (codecs : Codecs) (bytes : Bytes) (t : CompressionType) (limit : ℕ) (out : Bytes)
    → decompress_with_limit codecs bytes t limit ≡ ok out
    → length out ≤ limit
unfolding decompress_with_limit
decompress_with_limit-le codecs bytes CompressionType.uncompressed limit out h = ground arith
decompress_with_limit-le codecs bytes CompressionType.zstd limit out h =
    elim (Result-cases (codecs.zstd_decoder bytes)) [
      | inl (reader, e) ↦ read_limited-le reader limit out (ground arith)
      | inr (x, e) ↦ ground arith
    ]
decompress_with_limit-le codecs bytes CompressionType.lz4 limit out h =
    elim (Result-cases (codecs.lz4_decoder bytes)) [
      | inl (reader, e) ↦ read_limited-le reader limit out (ground arith)
      | inr (x, e) ↦ ground arith
    ]

-- What the documentation of the crates says: what an encoder has written decodes to what it was given.
pub record Lossless (codecs : Codecs) : Type 0 where
  pub zstd_lossless :
      (bytes out : Bytes) (level : ℕ)
      → codecs.zstd_encode_all bytes level ≡ ok out
      → codecs.zstd_decoder out ≡ ok (record { content = bytes; failure = none })
  pub lz4_lossless :
      (bytes : Bytes)
      → codecs.lz4_write_all bytes ≡ ok tt
      → (codecs.lz4_finish bytes).1 ≡ ok tt
      → codecs.lz4_decoder (codecs.lz4_finish bytes).0
        ≡ ok (record { content = bytes; failure = none })

read_limited_small :
    (bytes : Bytes) (limit : ℕ)
    → limit + 1 < 2 ^ 64
    → length bytes ≤ limit
    → read_limited (record { content = bytes; failure = none }) limit ≡ ok bytes
unfolding read_limited read_to_end checked_add
read_limited_small bytes limit h small = ground arith

read_limited_large :
    (bytes : Bytes) (limit : ℕ)
    → limit + 1 < 2 ^ 64
    → limit < length bytes
    → read_limited (record { content = bytes; failure = none }) limit
      ≡ err (decompression_limit_error (limit + 1) limit)
unfolding read_limited read_to_end checked_add
read_limited_large bytes limit h large =
    let e : length (take (limit + 1) bytes) ≡ limit + 1 =
      omega (arith, length-take (limit + 1) bytes) in
    rw
      (
        lt→ltb (limit + 1) (2 ^ 64) h,
        le→ltb (length bytes) (limit + 1) (omega arith),
        e,
        lt→ltb limit (limit + 1) (omega arith),
      )
      refl

-- A decompression of `bytes` with a limit: they come back, or they are too many.
abbrev pub IsLimited : Bytes → ℕ → Result OdbcError Bytes → Type 0
IsLimited bytes limit r =
    ((length bytes ≤ limit) × (r ≡ ok bytes))
    ⊎ ((limit < length bytes)
        × ((n : ℕ) × (limit < n) × (r ≡ err (decompression_limit_error n limit))))

read_limited-IsLimited :
    (bytes : Bytes) (limit : ℕ)
    → limit + 1 < 2 ^ 64
    → IsLimited bytes limit (read_limited (record { content = bytes; failure = none }) limit)
read_limited-IsLimited bytes limit h = elim (Bool-cases (ltb limit (length bytes))) [
  | inl e ↦
      let large = ltb→lt limit (length bytes) e in
      inr (large, (limit + 1, omega arith, read_limited_large bytes limit h large))
  | inr e ↦
      let fits : length bytes ≤ limit = ground arith in
      inl (fits, read_limited_small bytes limit h fits)
]

plain-IsLimited :
    (codecs : Codecs) (bytes : Bytes) (limit : ℕ)
    → IsLimited bytes limit (decompress_with_limit codecs bytes CompressionType.uncompressed limit)
unfolding decompress_with_limit
plain-IsLimited codecs bytes limit = elim (Bool-cases (ltb limit (length bytes))) [
  | inl e ↦
      inr (ltb→lt limit (length bytes) e, (length bytes, ltb→lt limit (length bytes) e, rw e refl))
  | inr e ↦ inl (ground arith, rw e refl)
]

internal_ok :
    (s : String) (r : Result Bytes Bytes) (out : Bytes) → internal s r ≡ ok out → r ≡ ok out
internal_ok s (ok bytes) out h = cc
internal_ok s (err e) out h = absurd cc

lz4_parts :
    (codecs : Codecs) (bytes out : Bytes)
    → compress codecs bytes CompressionType.lz4 ≡ ok out
    → (codecs.lz4_write_all bytes ≡ ok tt)
      × ((codecs.lz4_finish bytes).1 ≡ ok tt)
      × ((codecs.lz4_finish bytes).0 ≡ out)
unfolding compress
lz4_parts codecs bytes out h = ground arith

-- What `compress` has written decompresses, with a limit under the largest `usize`, to the bytes that
-- it was given if they are within the limit, and to the error for too many otherwise. The two crates
-- are assumed to decode what they have encoded.
pub decompress_with_limit-compress :
    (codecs : Codecs)
    → Lossless codecs
    → (bytes out : Bytes) (t : CompressionType) (limit : ℕ) → compress codecs bytes t ≡ ok out
    → limit + 1 < 2 ^ 64
    → IsLimited bytes limit (decompress_with_limit codecs out t limit)
unfolding compress decompress_with_limit
decompress_with_limit-compress codecs L bytes out CompressionType.uncompressed limit h small =
    let e : bytes ≡ out = cc in rw (← e) (plain-IsLimited codecs bytes limit)
decompress_with_limit-compress codecs L bytes out CompressionType.zstd limit h small =
    let e = internal_ok "Zstd compression failed: {}" (codecs.zstd_encode_all bytes 3) out h in
    rw (L.zstd_lossless bytes out 3 e) (read_limited-IsLimited bytes limit small)
decompress_with_limit-compress codecs L bytes out CompressionType.lz4 limit h small =
    let p = lz4_parts codecs bytes out h in
    rw (← p.2, L.lz4_lossless bytes p.0 p.1) (read_limited-IsLimited bytes limit small)
