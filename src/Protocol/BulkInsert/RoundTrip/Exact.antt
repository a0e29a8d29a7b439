-- ===== src/Protocol/BulkInsert/RoundTrip/Exact.antt =====
-- When a payload comes back unchanged.
use dart_odbc_fast.Prelude.{
  ℕ, ◌+◌, ◌≤◌, ◌<◌, ◌==◌, Bool, true, false, List, [], ◌∷◌, length, any, ok, ◌≡◌, ◌↔◌, refl, ap,
  ◌∙◌, arith, map, inl, inr, Bool-cases,
}
use dart_odbc_fast.Wire.{Bytes}
use dart_odbc_fast.Protocol.BulkInsert.{
  BulkColumnData, i32_data, i64_data, text_data, binary_data, timestamp_data, BulkInsertPayload,
}
use dart_odbc_fast.Protocol.BulkInsert.Parse.{truncate_at_zero, parse_bulk_insert_payload}
use dart_odbc_fast.Protocol.BulkInsert.Serialize.{serialize_bulk_insert_payload}
use dart_odbc_fast.Protocol.BulkInsert.RoundTrip.Columns.{stored}
use dart_odbc_fast.Protocol.BulkInsert.RoundTrip.Payload.{
  PayloadFits, stored_payload, parse-serialize,
}

abbrev pub has_zero : Bytes → Bool
has_zero row = any (λ b. b == 0) row

-- A text, decimal or binary cell of the column has a zero byte.
abbrev pub has_zero_cell : BulkColumnData → Bool
has_zero_cell (text_data rows m bm) = any has_zero rows
has_zero_cell (binary_data rows m bm) = any has_zero rows
has_zero_cell _ = false

truncate_same : (row : Bytes) → has_zero row ≡ false → truncate_at_zero row ≡ row
unfolding truncate_at_zero
truncate_same [] h = refl
truncate_same (b ∷ bs) h = ground (arith, truncate_same bs)

truncate_le : (row : Bytes) → length (truncate_at_zero row) ≤ length row
unfolding truncate_at_zero
truncate_le [] = omega arith
truncate_le (b ∷ bs) = ground (arith, truncate_le bs)

truncate_lt : (row : Bytes) → has_zero row ≡ true → length (truncate_at_zero row) < length row
unfolding truncate_at_zero
truncate_lt [] h = cc
truncate_lt (b ∷ bs) h = ground (arith, truncate_lt bs)

abbrev total : List Bytes → ℕ
total [] = 0
total (row ∷ rows) = length row + total rows

rows_same : (rows : List Bytes) → any has_zero rows ≡ false → map truncate_at_zero rows ≡ rows
rows_same [] h = refl
rows_same (row ∷ rows) h = ground (arith, truncate_same row, rows_same rows)

rows_le : (rows : List Bytes) → total (map truncate_at_zero rows) ≤ total rows
rows_le [] = omega arith
rows_le (row ∷ rows) = omega (arith, truncate_le row, rows_le rows)

rows_lt :
    (rows : List Bytes) → any has_zero rows ≡ true → total (map truncate_at_zero rows) < total rows
rows_lt [] h = cc
rows_lt (row ∷ rows) h =
    ground (arith, truncate_le row, truncate_lt row, rows_le rows, rows_lt rows)

abbrev size : BulkColumnData → ℕ
size (text_data rows m bm) = total rows
size (binary_data rows m bm) = total rows
size _ = 0

abbrev sizes : List BulkColumnData → ℕ
sizes [] = 0
sizes (d ∷ ds) = size d + sizes ds

stored_same : (d : BulkColumnData) → has_zero_cell d ≡ false → stored d ≡ d
stored_same (i32_data vs bm) h = refl
stored_same (i64_data vs bm) h = refl
stored_same (text_data rows m bm) h = rw (rows_same rows h) refl
stored_same (binary_data rows m bm) h = rw (rows_same rows h) refl
stored_same (timestamp_data ts bm) h = refl

stored_le : (d : BulkColumnData) → size (stored d) ≤ size d
stored_le (i32_data vs bm) = omega arith
stored_le (i64_data vs bm) = omega arith
stored_le (text_data rows m bm) = rows_le rows
stored_le (binary_data rows m bm) = rows_le rows
stored_le (timestamp_data ts bm) = omega arith

stored_lt : (d : BulkColumnData) → has_zero_cell d ≡ true → size (stored d) < size d
stored_lt (i32_data vs bm) h = cc
stored_lt (i64_data vs bm) h = cc
stored_lt (text_data rows m bm) h = rows_lt rows h
stored_lt (binary_data rows m bm) h = rows_lt rows h
stored_lt (timestamp_data ts bm) h = cc

columns_same : (ds : List BulkColumnData) → any has_zero_cell ds ≡ false → map stored ds ≡ ds
columns_same [] h = refl
columns_same (d ∷ ds) h = ground (arith, stored_same d, columns_same ds)

columns_le : (ds : List BulkColumnData) → sizes (map stored ds) ≤ sizes ds
columns_le [] = omega arith
columns_le (d ∷ ds) = omega (arith, stored_le d, columns_le ds)

columns_lt :
    (ds : List BulkColumnData) → any has_zero_cell ds ≡ true → sizes (map stored ds) < sizes ds
columns_lt [] h = cc
columns_lt (d ∷ ds) h = ground (arith, stored_le d, stored_lt d, columns_le ds, columns_lt ds)

unchanged : (p : BulkInsertPayload) → stored_payload p ≡ p → any has_zero_cell p.column_data ≡ false
unchanged p e = elim (Bool-cases (any has_zero_cell p.column_data)) [
  | inl zeros ↦ absurd (
      omega (
        arith,
        columns_lt p.column_data zeros,
        ap (λ (q : BulkInsertPayload). sizes q.column_data) e,
      ))
  | inr none_at_all ↦ none_at_all
]

-- A payload within the limits, whose columns match their specs, comes back from its bytes exactly
-- when no text, decimal or binary cell has a zero byte: a binary cell with a zero byte is cut.
pub parse-serialize_exact :
    (p : BulkInsertPayload)
    → PayloadFits p
    → (bytes : Bytes) × (serialize_bulk_insert_payload p ≡ ok bytes)
      × ((parse_bulk_insert_payload bytes ≡ ok p) ↔ (any has_zero_cell p.column_data ≡ false))
parse-serialize_exact p h =
    let (bytes, written, read) = parse-serialize p h in
    (
      bytes,
      written,
      (
        λ same. unchanged p (cc (read, same)),
        λ clean.
            read
            ∙ ap (λ (ds : List BulkColumnData). ok (record p { column_data = ds }))
                (columns_same p.column_data clean),
      ),
    )
