-- ===== src/Protocol/Compression.antt =====
-- protocol/compression.rs: compressed payloads. The zstd and lz4 crates are the record Codecs; a text
-- of one of their errors is a byte list.
pub mod Laws
use dart_odbc_fast.Prelude.{
  ℕ, ltb, if◌then◌else◌, length, take, Option, none, some, Result, ok, err, ◌>>=◌, ◌>>◌, String,
  reject, [], ◌∷◌,
}
use dart_odbc_fast.Wire.{Bytes, checked_add, ok_or}
use dart_odbc_fast.Error.{
  num, text, format, OdbcError, OdbcResult, internal_error, resource_limit_reached,
}
use dart_odbc_fast.Protocol.Columnar.{CompressionType}

-- A `Read`: the bytes that it yields, and the error that stands in place of its end.
pub record Reader : Type 0 where
  pub content : Bytes
  pub failure : Option Bytes

-- What the code calls of the two crates.
pub record Codecs : Type 0 where
  pub zstd_encode_all : Bytes → ℕ → Result Bytes Bytes
  pub zstd_decoder : Bytes → Result Bytes Reader
  pub lz4_build : ℕ → Result Bytes (Unit {0})
  pub lz4_write_all : Bytes → Result Bytes (Unit {0})
  pub lz4_finish : Bytes → Bytes × Result Bytes (Unit {0})
  pub lz4_decoder : Bytes → Result Bytes Reader

-- `.map_err(|e| OdbcError::InternalError(format!(…, e)))?`
abbrev pub internal {ℓ} : {A : Type ℓ} → String → Result Bytes A → OdbcResult A
internal s (ok a) = ok a
internal s (err e) = err (internal_error (format s (text e ∷ [])))

abbrev pub compression_threshold_bytes : ℕ
compression_threshold_bytes = 1000000

abbrev pub default_max_decompressed_len : ℕ
default_max_decompressed_len = 268435456

unfoldable pub compress : Codecs → Bytes → CompressionType → OdbcResult Bytes
compress codecs bytes CompressionType.uncompressed = ok bytes
compress codecs bytes CompressionType.zstd =
    internal "Zstd compression failed: {}" (codecs.zstd_encode_all bytes 3)
compress codecs bytes CompressionType.lz4 = do
  internal "Lz4 encoder creation failed: {}" (codecs.lz4_build 4)
  internal "Lz4 write failed: {}" (codecs.lz4_write_all bytes)
  internal "Lz4 finish failed: {}" (codecs.lz4_finish bytes).1
  ok (codecs.lz4_finish bytes).0

-- `None` is `uncompressed`.
pub data CompressionStrategy : Type 0 where
  uncompressed : CompressionStrategy
  zstd : ℕ → CompressionStrategy
  lz4 : CompressionStrategy

unfoldable pub auto_select : ℕ → CompressionStrategy
auto_select payload_size =
    if ltb compression_threshold_bytes payload_size then zstd 3 else uncompressed

-- `CompressionStrategy::compress`, and `compress_cow` and `compress_owned`, which differ in who owns
-- the bytes.
unfoldable pub compress_with : Codecs → CompressionStrategy → Bytes → OdbcResult Bytes
compress_with codecs uncompressed bytes = ok bytes
compress_with codecs (zstd level) bytes =
    internal "Zstd compression failed: {}" (codecs.zstd_encode_all bytes level)
compress_with codecs lz4 bytes = compress codecs bytes CompressionType.lz4

abbrev pub decompression_limit_error : ℕ → ℕ → OdbcError
decompression_limit_error actual limit =
    resource_limit_reached
      (format "Decompressed payload length {} exceeds limit {}" (num actual ∷ num limit ∷ []))

-- `reader.take(limit).read_to_end(…)`: the reader is not asked again once the limit is reached.
unfoldable pub read_to_end : ℕ → Reader → Result Bytes Bytes
read_to_end limit reader =
    if ltb (length reader.content) limit
    then elim reader.failure [ none ↦ ok reader.content | some e ↦ err e ]
    else ok (take limit reader.content)

unfoldable pub read_limited : Reader → ℕ → OdbcResult Bytes
read_limited reader max_decompressed_len = do
  limit ←
      ok_or (checked_add max_decompressed_len 1)
        (resource_limit_reached (format "Decompression limit overflow" []))
  decompressed ← internal "Decompression read failed: {}" (read_to_end limit reader)
  reject (ltb max_decompressed_len (length decompressed))
      (decompression_limit_error (length decompressed) max_decompressed_len)
  ok decompressed

unfoldable pub decompress_with_limit : Codecs → Bytes → CompressionType → ℕ → OdbcResult Bytes
decompress_with_limit codecs bytes CompressionType.uncompressed max_decompressed_len = do
  reject (ltb max_decompressed_len (length bytes))
      (decompression_limit_error (length bytes) max_decompressed_len)
  ok bytes
decompress_with_limit codecs bytes CompressionType.zstd max_decompressed_len = do
  decoder ← internal "Zstd decoder creation failed: {}" (codecs.zstd_decoder bytes)
  read_limited decoder max_decompressed_len
decompress_with_limit codecs bytes CompressionType.lz4 max_decompressed_len = do
  decoder ← internal "Lz4 decoder creation failed: {}" (codecs.lz4_decoder bytes)
  read_limited decoder max_decompressed_len

unfoldable pub decompress : Codecs → Bytes → CompressionType → OdbcResult Bytes
decompress codecs bytes compression_type =
    decompress_with_limit codecs bytes compression_type default_max_decompressed_len
