-- ===== src/Protocol/BulkInsert/RoundTrip/Values.antt =====
-- The values of a column: each reader reads back what its writer wrote.
use dart_odbc_fast.Prelude.{
  ℕ, zero, suc, ◌+◌, ◌-◌, ◌*◌, ◌/◌, ◌%◌, ◌^◌, ◌≤◌, ◌<◌, min, [], ◌∷◌, ◌++◌, length, take, replicate,
  ok, ◌≡◌, refl, ap, arith, length-append, take-append_eq, drop-append_eq, length-replicate,
}
use dart_odbc_fast.Prelude.Int.{ℤ, FitsIn, to_bits, to_bits-lt, from_bits-to_bits}
use dart_odbc_fast.Wire.{Bytes, le_bytes, get_le}
use dart_odbc_fast.Wire.Laws.{drop-le_bytes, get_le-le_bytes, length-le_bytes-append}
use dart_odbc_fast.Protocol.BulkInsert.{i16_half, i32_half, i64_half, BulkTimestamp}
use dart_odbc_fast.Protocol.BulkInsert.Parse.{
  read_u32_le, read_bytes, read_i32, read_i64, truncate_at_zero, read_padded, read_timestamp,
}
use dart_odbc_fast.Protocol.BulkInsert.Serialize.{
  write_i32, write_i64, write_padded, write_timestamp,
}

pub read_u32_le-le_bytes :
    (n : ℕ) (rest : Bytes) → n < 2 ^ 32 → read_u32_le (le_bytes 4 n ++ rest) ≡ ok (n, rest)
unfolding read_u32_le
read_u32_le-le_bytes n rest h =
    rw (get_le-le_bytes 4 n rest (omega arith), drop-le_bytes 4 n rest)
      (ground (arith, length-le_bytes-append 4 n rest))

pub read_bytes-append :
    (n : ℕ) (bs rest : Bytes) → length bs ≡ n → read_bytes n (bs ++ rest) ≡ ok (bs, rest)
unfolding read_bytes
read_bytes-append n bs rest e =
    rw (take-append_eq n bs rest e, drop-append_eq n bs rest e)
      (ground (arith, length-append bs rest))

pub read_i32-write_i32 :
    (z : ℤ) (rest : Bytes) → FitsIn i32_half z → read_i32 (write_i32 z ++ rest) ≡ ok (z, rest)
unfolding read_i32 write_i32
read_i32-write_i32 z rest h =
    rw
      (
        read_u32_le-le_bytes (to_bits i32_half z) rest (to_bits-lt i32_half z h),
        from_bits-to_bits i32_half z h,
      )
      refl

pub read_i64-write_i64 :
    (z : ℤ) (rest : Bytes) → FitsIn i64_half z → read_i64 (write_i64 z ++ rest) ≡ ok (z, rest)
unfolding read_i64 write_i64
read_i64-write_i64 z rest h =
    let n = to_bits i64_half z in
    rw
      (
        get_le-le_bytes 8 n rest (to_bits-lt i64_half z h),
        drop-le_bytes 8 n rest,
        from_bits-to_bits i64_half z h,
      )
      (ground (arith, length-le_bytes-append 8 n rest))

abbrev pub RowFits : ℕ → Bytes → Type 0
RowFits max_len row = length row ≤ max_len

take_self : (row : Bytes) → take (length row) row ≡ row
take_self [] = refl
take_self (b ∷ bs) = ap (◌∷◌ b) (take_self bs)

pub write_padded_lem :
    (m : ℕ) (row : Bytes) → RowFits m row → write_padded m row ≡ row ++ replicate (m - length row) 0
unfolding write_padded
write_padded_lem m row h =
    let e : min (length row) m ≡ length row = omega arith in rw (e, take_self row) refl

-- The zeros behind a row are cut off, with all that stands behind a zero of its own.
truncate_zeros : (k : ℕ) → truncate_at_zero (replicate k 0) ≡ []
unfolding truncate_at_zero
truncate_zeros zero = refl
truncate_zeros (suc k) = refl

truncate_at_zero-append :
    (row : Bytes) (k : ℕ) → truncate_at_zero (row ++ replicate k 0) ≡ truncate_at_zero row
unfolding truncate_at_zero
truncate_at_zero-append [] k = truncate_zeros k
truncate_at_zero-append (b ∷ bs) k = rw (truncate_at_zero-append bs k) refl

pub read_padded-write_padded :
    (m : ℕ) (row rest : Bytes)
    → RowFits m row
    → read_padded m (write_padded m row ++ rest) ≡ ok (truncate_at_zero row, rest)
unfolding read_padded
read_padded-write_padded m row rest h =
    let k = m - length row in
    let wide : length (row ++ replicate k 0) ≡ m =
      omega (arith, length-append row (replicate k 0), length-replicate {A = ℕ} k 0) in
    rw
      (
        write_padded_lem m row h,
        read_bytes-append m (row ++ replicate k 0) rest wide,
        truncate_at_zero-append row k,
      )
      refl

abbrev pub TimestampFits : BulkTimestamp → Type 0
TimestampFits t =
    FitsIn i16_half t.year
    × (t.month < 2 ^ 16)
    × (t.day < 2 ^ 16)
    × (t.hour < 2 ^ 16)
    × (t.minute < 2 ^ 16)
    × (t.second < 2 ^ 16)
    × (t.fraction < 2 ^ 32)

-- The bytes of a field, put together again.
two_bytes : (n : ℕ) → n < 2 ^ 16 → n % 256 + 256 * (n / 256 % 256 + 256 * 0) ≡ n
two_bytes n h = omega arith

four_bytes :
    (n : ℕ)
    → n < 2 ^ 32
    → n % 256
        + 256
          * (n / 256 % 256
              + 256 * (n / 256 / 256 % 256 + 256 * (n / 256 / 256 / 256 % 256 + 256 * 0)))
      ≡ n
four_bytes n h = omega arith

pub read_timestamp-write_timestamp :
    (t : BulkTimestamp) (rest : Bytes)
    → TimestampFits t
    → read_timestamp (write_timestamp t ++ rest) ≡ ok (t, rest)
unfolding read_timestamp write_timestamp le_bytes get_le
read_timestamp-write_timestamp t rest (year, month, day, hour, minute, second, fraction) =
    rw
      (
        two_bytes (to_bits i16_half t.year) (to_bits-lt i16_half t.year year),
        two_bytes t.month month,
        two_bytes t.day day,
        two_bytes t.hour hour,
        two_bytes t.minute minute,
        two_bytes t.second second,
        four_bytes t.fraction fraction,
        from_bits-to_bits i16_half t.year year,
      )
      (ground arith)
