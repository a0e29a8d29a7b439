-- ===== src/Protocol/BulkInsert/RoundTrip/Columns.antt =====
-- One column: its bitmap and its values.
use dart_odbc_fast.Prelude.{
  ℕ, max, Bool, true, false, List, [], ◌∷◌, ◌++◌, length, ok, Result, Option, none, some, ◌≡◌, refl,
  ap, All, map, append_assoc, ==_self,
}
use dart_odbc_fast.Prelude.Int.{FitsIn}
use dart_odbc_fast.Wire.{Bytes}
use dart_odbc_fast.Wire.Repeat.{read_many, write_all, read_many-write_all}
use dart_odbc_fast.Error.{OdbcError}
use dart_odbc_fast.Protocol.BulkInsert.{
  i32_half, i64_half, BulkColumnType, i32, i64, text, decimal, binary, timestamp, BulkColumnSpec,
  BulkColumnData, i32_data, i64_data, text_data, binary_data, timestamp_data,
}
use dart_odbc_fast.Protocol.BulkInsert.Bitmap.{null_bitmap_size}
use dart_odbc_fast.Protocol.BulkInsert.Parse.{
  read_null_bitmap, read_i32, read_i64, read_padded, read_timestamp, truncate_at_zero, parse_values,
  parse_column_data,
}
use dart_odbc_fast.Protocol.BulkInsert.Serialize.{
  bitmap_bytes, write_i32, write_i64, write_padded, write_timestamp, serialize_column_data,
}
use dart_odbc_fast.Protocol.BulkInsert.RoundTrip.Values.{
  read_bytes-append, read_i32-write_i32, read_i64-write_i64, RowFits, read_padded-write_padded,
  TimestampFits, read_timestamp-write_timestamp,
}

abbrev pub BitmapFits : Bool → ℕ → Option Bytes → Type 0
BitmapFits nullable row_count none = nullable ≡ false
BitmapFits nullable row_count (some bm) =
    (nullable ≡ true) × (length bm ≡ null_bitmap_size row_count)

-- The values of a column are those of its type, as many as there are rows, and a text or binary
-- column is as wide as the spec says.
abbrev pub ValuesFit : BulkColumnType → ℕ → ℕ → BulkColumnData → Type 0
ValuesFit i32 max_len row_count (i32_data vs bm) =
    (length vs ≡ row_count) × All (FitsIn i32_half) vs
ValuesFit i64 max_len row_count (i64_data vs bm) =
    (length vs ≡ row_count) × All (FitsIn i64_half) vs
ValuesFit text max_len row_count (text_data rows m bm) =
    (length rows ≡ row_count) × All (RowFits m) rows × (m ≡ max max_len 1)
ValuesFit decimal max_len row_count (text_data rows m bm) =
    (length rows ≡ row_count) × All (RowFits m) rows × (m ≡ max max_len 1)
ValuesFit binary max_len row_count (binary_data rows m bm) =
    (length rows ≡ row_count) × All (RowFits m) rows × (m ≡ max max_len 1)
ValuesFit timestamp max_len row_count (timestamp_data ts bm) =
    (length ts ≡ row_count) × All TimestampFits ts
ValuesFit _ _ _ _ = ⊥

abbrev pub bitmap_of : BulkColumnData → Option Bytes
bitmap_of (i32_data vs bm) = bm
bitmap_of (i64_data vs bm) = bm
bitmap_of (text_data rows m bm) = bm
bitmap_of (binary_data rows m bm) = bm
bitmap_of (timestamp_data ts bm) = bm

-- What comes back: every row of a text or binary column ends before its first zero byte.
abbrev pub stored : BulkColumnData → BulkColumnData
stored (text_data rows m bm) = text_data (map truncate_at_zero rows) m bm
stored (binary_data rows m bm) = binary_data (map truncate_at_zero rows) m bm
stored d = d

abbrev pub values_bytes : BulkColumnData → Bytes
values_bytes (i32_data vs bm) = write_all write_i32 vs
values_bytes (i64_data vs bm) = write_all write_i64 vs
values_bytes (text_data rows m bm) = write_all (write_padded m) rows
values_bytes (binary_data rows m bm) = write_all (write_padded m) rows
values_bytes (timestamp_data ts bm) = write_all write_timestamp ts

map-id {ℓ} : {A : Type ℓ} (xs : List A) → map (λ x. x) xs ≡ xs
map-id [] = refl
map-id (x ∷ xs) = ap (◌∷◌ x) (map-id xs)

-- A reader that keeps every value.
pub read_many-kept :
    {A : Type 0} (read : Bytes → Result OdbcError (A × Bytes)) (write : A → Bytes)
    (Fits : A → Type 0)
    → ((a : A) (rest : Bytes) → Fits a → read (write a ++ rest) ≡ ok (a, rest))
    → (xs : List A) (n : ℕ) (rest : Bytes) → length xs ≡ n
    → All Fits xs
    → read_many read n (write_all write xs ++ rest) ≡ ok (xs, rest)
read_many-kept read write Fits one xs n rest e h =
    rw (← e, read_many-write_all read write (λ x. x) Fits one xs rest h, map-id xs) refl

read_many-truncated :
    (m n : ℕ) (rows : List Bytes) (rest : Bytes)
    → length rows ≡ n
    → All (RowFits m) rows
    → read_many (read_padded m) n (write_all (write_padded m) rows ++ rest)
      ≡ ok (map truncate_at_zero rows, rest)
read_many-truncated m n rows rest e h = rw (← e) (
    read_many-write_all (read_padded m) (write_padded m) truncate_at_zero (RowFits m)
      (read_padded-write_padded m) rows rest h)

parse_values-values_bytes :
    (ty : BulkColumnType) (max_len row_count : ℕ) (d : BulkColumnData) (rest : Bytes)
    → ValuesFit ty max_len row_count d
    → parse_values ty max_len row_count (bitmap_of d) (values_bytes d ++ rest) ≡ ok (stored d, rest)
unfolding parse_values
parse_values-values_bytes i32 k n (i32_data vs bm) rest h =
    rw (read_many-kept read_i32 write_i32 _ read_i32-write_i32 vs n rest h.0 h.1) refl
parse_values-values_bytes i64 k n (i64_data vs bm) rest h =
    rw (read_many-kept read_i64 write_i64 _ read_i64-write_i64 vs n rest h.0 h.1) refl
parse_values-values_bytes text k n (text_data rows m bm) rest h =
    rw (← h.2, read_many-truncated m n rows rest h.0 h.1) refl
parse_values-values_bytes decimal k n (text_data rows m bm) rest h =
    rw (← h.2, read_many-truncated m n rows rest h.0 h.1) refl
parse_values-values_bytes binary k n (binary_data rows m bm) rest h =
    rw (← h.2, read_many-truncated m n rows rest h.0 h.1) refl
parse_values-values_bytes timestamp k n (timestamp_data ts bm) rest h =
    rw
      (read_many-kept read_timestamp write_timestamp _ read_timestamp-write_timestamp ts n rest h.0
        h.1)
      refl
parse_values-values_bytes _ k n d rest h = absurd h

-- The bytes of a column.
unfoldable pub column_bytes : BulkColumnData → Bytes
column_bytes d = bitmap_bytes (bitmap_of d) ++ values_bytes d

pub serialize_column_data-column_bytes :
    (ty : BulkColumnType) (max_len row_count : ℕ) (d : BulkColumnData)
    → ValuesFit ty max_len row_count d
    → serialize_column_data ty d ≡ ok (column_bytes d)
unfolding serialize_column_data column_bytes
serialize_column_data-column_bytes i32 k n (i32_data vs bm) h = refl
serialize_column_data-column_bytes i64 k n (i64_data vs bm) h = refl
serialize_column_data-column_bytes text k n (text_data rows m bm) h = refl
serialize_column_data-column_bytes decimal k n (text_data rows m bm) h = refl
serialize_column_data-column_bytes binary k n (binary_data rows m bm) h = refl
serialize_column_data-column_bytes timestamp k n (timestamp_data ts bm) h = refl
serialize_column_data-column_bytes _ k n d h = absurd h

read_null_bitmap-bitmap_bytes :
    (nullable : Bool) (n : ℕ) (bm : Option Bytes) (rest : Bytes)
    → BitmapFits nullable n bm
    → read_null_bitmap nullable n (bitmap_bytes bm ++ rest) ≡ ok (bm, rest)
unfolding read_null_bitmap
read_null_bitmap-bitmap_bytes false n none rest h = refl
read_null_bitmap-bitmap_bytes true n none rest h = absurd (cc)
read_null_bitmap-bitmap_bytes false n (some bm) rest h = absurd (cc (h.0))
read_null_bitmap-bitmap_bytes true n (some bm) rest h =
    rw (read_bytes-append (null_bitmap_size n) bm rest h.1, h.1, ==_self (null_bitmap_size n)) refl

-- A column that belongs to a spec.
abbrev pub ColumnFits : ℕ → BulkColumnSpec → BulkColumnData → Type 0
ColumnFits row_count spec d =
    ValuesFit spec.col_type spec.max_len row_count d
    × BitmapFits spec.nullable row_count (bitmap_of d)

pub parse_column_data-column_bytes :
    (spec : BulkColumnSpec) (n : ℕ) (d : BulkColumnData) (rest : Bytes)
    → ColumnFits n spec d
    → parse_column_data spec n (column_bytes d ++ rest) ≡ ok (stored d, rest)
unfolding parse_column_data column_bytes
parse_column_data-column_bytes spec n d rest h =
    rw
      (
        append_assoc (bitmap_bytes (bitmap_of d)) (values_bytes d) rest,
        read_null_bitmap-bitmap_bytes spec.nullable n (bitmap_of d) (values_bytes d ++ rest) h.1,
      )
      (parse_values-values_bytes spec.col_type spec.max_len n d rest h.0)
