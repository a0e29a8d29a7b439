-- ===== src/Protocol/BulkInsert/Bitmap.antt =====
-- The null bitmap of a column: one bit a row, lowest bit first.
use dart_odbc_fast.Prelude.{
  ℕ, zero, suc, ◌+◌, ◌/◌, ◌%◌, ◌^◌, ◌≤◌, ◌<◌, ltb, ◌==◌, Bool, false, not, if◌then◌else◌, [], ◌∷◌,
  length, ok, err, reject, ◌>>◌, ◌≡◌, arith, ◌⊎◌,
}
use Prim.Native.Nat.{bit_and}
use dart_odbc_fast.Wire.{Bytes}
use dart_odbc_fast.Error.{OdbcResult, malformed_payload, format, num}

-- `n.div_ceil(8)`
unfoldable pub null_bitmap_size : ℕ → ℕ
null_bitmap_size n = (n + 7) / 8

-- `bitmap[i]`, where the index is in range.
unfoldable pub byte_at : Bytes → ℕ → ℕ
byte_at [] i = 0
byte_at (b ∷ bs) zero = b
byte_at (b ∷ bs) (suc i) = byte_at bs i

abbrev pub bit_set : Bytes → ℕ → Bool
bit_set bitmap row = not (bit_and (byte_at bitmap (row / 8)) (2 ^ (row % 8)) == 0)

unfoldable pub is_null : Bytes → ℕ → Bool
is_null bitmap row = if not (ltb (row / 8) (length bitmap)) then false else bit_set bitmap row

unfoldable pub is_null_strict : Bytes → ℕ → ℕ → OdbcResult Bool
is_null_strict bitmap row row_count = do
  reject (not (ltb row row_count)) (
      malformed_payload (
        format "row index {row} out of range (row_count={row_count})"
          (num row ∷ num row_count ∷ [])))
  let byte_idx = row / 8
  reject (not (ltb byte_idx (length bitmap))) (
      malformed_payload (
        format "null bitmap truncated: byte index {byte_idx} out of range (len={})"
          (num byte_idx ∷ num (length bitmap) ∷ [])))
  ok (bit_set bitmap row)

-- On a bitmap of the size that the parser insists on, the strict accessor agrees with the lenient one
-- at every row of the payload, and at no other row does it return a bit.
is_null_strict-is_null :
    (bitmap : Bytes) (row row_count : ℕ)
    → length bitmap ≡ null_bitmap_size row_count
    → ((row < row_count) × (is_null_strict bitmap row row_count ≡ ok (is_null bitmap row)))
      ⊎ ((row_count ≤ row)
          × (is_null_strict bitmap row row_count
              ≡ err (
                  malformed_payload (
                    format "row index {row} out of range (row_count={row_count})"
                      (num row ∷ num row_count ∷ [])))))
unfolding is_null_strict is_null null_bitmap_size
is_null_strict-is_null bitmap row row_count h = ground arith
