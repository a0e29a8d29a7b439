-- ===== src/Protocol/BulkInsert/RoundTrip/Payload.antt =====
-- The whole payload.
use dart_odbc_fast.Prelude.{
  ℕ, ◌^◌, ◌≤◌, ◌<◌, ◌==◌, Bool, true, false, not, if◌then◌else◌, List, [], ◌∷◌, ◌++◌, length, ok,
  ◌≡◌, refl, arith, All, map, append_assoc, append-nil, le→ltb, String,
}
use dart_odbc_fast.Wire.{Bytes, le_bytes}
use dart_odbc_fast.Wire.Utf8.{is_utf8}
use dart_odbc_fast.Wire.Repeat.{read_many, write_all}
use dart_odbc_fast.Protocol.BulkInsert.{
  max_bulk_columns, max_bulk_rows, max_bulk_cell_len, BulkColumnType, i32, from_tag, to_tag,
  BulkColumnSpec, BulkColumnData, BulkInsertPayload,
}
use dart_odbc_fast.Protocol.BulkInsert.Parse.{
  read_u8, parse_spec, parse_columns, parse_bulk_insert_payload,
}
use dart_odbc_fast.Protocol.BulkInsert.Serialize.{
  len_to_u32, serialize_spec, serialize_specs, serialize_columns, serialize_bulk_insert_payload,
}
use dart_odbc_fast.Protocol.BulkInsert.RoundTrip.Values.{read_u32_le-le_bytes, read_bytes-append}
use dart_odbc_fast.Protocol.BulkInsert.RoundTrip.Columns.{
  stored, column_bytes, ColumnFits, read_many-kept, serialize_column_data-column_bytes,
  parse_column_data-column_bytes,
}

abbrev pub IsText : Bytes → Type 0
IsText s = (length s < 2 ^ 32) × (is_utf8 s ≡ true)

abbrev pub SpecFits : BulkColumnSpec → Type 0
SpecFits spec = IsText spec.name × (spec.max_len ≤ max_bulk_cell_len)

from_tag-to_tag : (ty : BulkColumnType) → from_tag (to_tag ty) ≡ ok ty
unfolding from_tag
from_tag-to_tag i32 = refl
from_tag-to_tag _ = refl

unfoldable pub spec_bytes : BulkColumnSpec → Bytes
spec_bytes spec =
    le_bytes 4 (length spec.name)
    ++ (spec.name
        ++ (to_tag spec.col_type ∷ (if spec.nullable then 1 else 0) ∷ le_bytes 4 spec.max_len))

len_lem : (n : ℕ) (what : String) → n < 2 ^ 32 → len_to_u32 n what ≡ ok n
unfolding len_to_u32
len_lem n what h = ground arith

serialize_spec-spec_bytes :
    (spec : BulkColumnSpec) → SpecFits spec → serialize_spec spec ≡ ok (spec_bytes spec)
unfolding serialize_spec spec_bytes
serialize_spec-spec_bytes spec h =
    rw
      (
        len_lem (length spec.name) "column name" h.0.0,
        le→ltb max_bulk_cell_len spec.max_len h.1,
        len_lem spec.max_len "max_len" (omega arith),
      )
      refl

serialize_specs-spec_bytes :
    (specs : List BulkColumnSpec)
    → All SpecFits specs
    → serialize_specs specs ≡ ok (write_all spec_bytes specs)
unfolding serialize_specs write_all
serialize_specs-spec_bytes [] h = refl
serialize_specs-spec_bytes (spec ∷ specs) h =
    rw (serialize_spec-spec_bytes spec h.0, serialize_specs-spec_bytes specs h.1) refl

flag_lem : (b : Bool) → not ((if b then 1 else 0) == 0) ≡ b
flag_lem true = refl
flag_lem false = refl

parse_spec-spec_bytes :
    (spec : BulkColumnSpec) (rest : Bytes)
    → SpecFits spec
    → parse_spec (spec_bytes spec ++ rest) ≡ ok (spec, rest)
unfolding parse_spec spec_bytes read_u8
parse_spec-spec_bytes spec rest h =
    let tail = to_tag spec.col_type ∷ (if spec.nullable then 1 else 0) ∷ le_bytes 4 spec.max_len in
    rw
      (
        append_assoc (le_bytes 4 (length spec.name)) (spec.name ++ tail) rest,
        append_assoc spec.name tail rest,
        read_u32_le-le_bytes (length spec.name) (spec.name ++ (tail ++ rest)) h.0.0,
        read_bytes-append (length spec.name) spec.name (tail ++ rest) refl,
        h.0.1,
        read_u32_le-le_bytes spec.max_len rest (omega arith),
        le→ltb max_bulk_cell_len spec.max_len h.1,
        from_tag-to_tag spec.col_type,
        flag_lem spec.nullable,
      )
      refl

-- One column for each spec.
abbrev pub ColumnsFit : ℕ → List BulkColumnSpec → List BulkColumnData → Type 0
ColumnsFit n [] [] = Unit
ColumnsFit n (spec ∷ specs) (d ∷ ds) = ColumnFits n spec d × ColumnsFit n specs ds
ColumnsFit n _ _ = ⊥

serialize_columns-column_bytes :
    (n : ℕ) (specs : List BulkColumnSpec) (ds : List BulkColumnData)
    → ColumnsFit n specs ds
    → serialize_columns specs ds ≡ ok (write_all column_bytes ds)
unfolding serialize_columns write_all
serialize_columns-column_bytes n [] [] h = refl
serialize_columns-column_bytes n [] (d ∷ ds) h = absurd h
serialize_columns-column_bytes n (spec ∷ specs) [] h = absurd h
serialize_columns-column_bytes n (spec ∷ specs) (d ∷ ds) h =
    rw
      (
        serialize_column_data-column_bytes spec.col_type spec.max_len n d h.0.0,
        serialize_columns-column_bytes n specs ds h.1,
      )
      refl

parse_columns-column_bytes :
    (n : ℕ) (specs : List BulkColumnSpec) (ds : List BulkColumnData) (rest : Bytes)
    → ColumnsFit n specs ds
    → parse_columns n specs (write_all column_bytes ds ++ rest) ≡ ok (map stored ds, rest)
unfolding parse_columns write_all
parse_columns-column_bytes n [] [] rest h = refl
parse_columns-column_bytes n [] (d ∷ ds) rest h = absurd h
parse_columns-column_bytes n (spec ∷ specs) [] rest h = absurd h
parse_columns-column_bytes n (spec ∷ specs) (d ∷ ds) rest h =
    rw
      (
        append_assoc (column_bytes d) (write_all column_bytes ds) rest,
        parse_column_data-column_bytes spec n d (write_all column_bytes ds ++ rest) h.0,
        parse_columns-column_bytes n specs ds rest h.1,
      )
      refl

-- A payload within the limits, whose columns match their specs.
pub record PayloadFits (p : BulkInsertPayload) : Type 0 where
  pub table_text : IsText p.table
  pub few_columns : length p.columns ≤ max_bulk_columns
  pub few_rows : p.row_count ≤ max_bulk_rows
  pub specs_fit : All SpecFits p.columns
  pub columns_fit : ColumnsFit p.row_count p.columns p.column_data

abbrev pub stored_payload : BulkInsertPayload → BulkInsertPayload
stored_payload p = record p { column_data = map stored p.column_data }

unfoldable pub payload_bytes : BulkInsertPayload → Bytes
payload_bytes p =
    le_bytes 4 (length p.table)
    ++ (p.table
        ++ (le_bytes 4 (length p.columns)
            ++ (write_all spec_bytes p.columns
                ++ (le_bytes 4 p.row_count ++ write_all column_bytes p.column_data))))

serialize-payload_bytes :
    (p : BulkInsertPayload) → PayloadFits p → serialize_bulk_insert_payload p ≡ ok (payload_bytes p)
unfolding serialize_bulk_insert_payload payload_bytes
serialize-payload_bytes p h =
    rw
      (
        le→ltb max_bulk_columns (length p.columns) h.few_columns,
        le→ltb max_bulk_rows p.row_count h.few_rows,
        len_lem (length p.table) "table name" h.table_text.0,
        len_lem (length p.columns) "column count" (omega (arith, h.few_columns)),
        serialize_specs-spec_bytes p.columns h.specs_fit,
        serialize_columns-column_bytes p.row_count p.columns p.column_data h.columns_fit,
      )
      refl

parse_specs-spec_bytes :
    (specs : List BulkColumnSpec) (rest : Bytes)
    → All SpecFits specs
    → read_many parse_spec (length specs) (write_all spec_bytes specs ++ rest) ≡ ok (specs, rest)
parse_specs-spec_bytes specs rest h =
    read_many-kept parse_spec spec_bytes SpecFits parse_spec-spec_bytes specs (length specs) rest
      refl h

parse-payload_bytes :
    (p : BulkInsertPayload)
    → PayloadFits p
    → parse_bulk_insert_payload (payload_bytes p) ≡ ok (stored_payload p)
unfolding parse_bulk_insert_payload payload_bytes
parse-payload_bytes p h =
    let cols = write_all column_bytes p.column_data in
    let from_rows = le_bytes 4 p.row_count ++ cols in
    let from_specs = write_all spec_bytes p.columns ++ from_rows in
    let from_count = le_bytes 4 (length p.columns) ++ from_specs in
    let last : parse_columns p.row_count p.columns cols ≡ ok (map stored p.column_data, []) =
      rw append-nil at
        (parse_columns-column_bytes p.row_count p.columns p.column_data [] h.columns_fit) in
    rw
      (
        read_u32_le-le_bytes (length p.table) (p.table ++ from_count) h.table_text.0,
        read_bytes-append (length p.table) p.table from_count refl,
        h.table_text.1,
        read_u32_le-le_bytes (length p.columns) from_specs (omega (arith, h.few_columns)),
        le→ltb max_bulk_columns (length p.columns) h.few_columns,
        parse_specs-spec_bytes p.columns from_rows h.specs_fit,
        read_u32_le-le_bytes p.row_count cols (omega (arith, h.few_rows)),
        le→ltb max_bulk_rows p.row_count h.few_rows,
        last,
      )
      refl

-- A payload within the limits, whose columns match their specs, is serialized, and parsing the bytes
-- gives back the table, the specs, the row count and the columns, bitmaps included, but each text,
-- decimal and binary cell only up to its first zero byte.
pub parse-serialize :
    (p : BulkInsertPayload)
    → PayloadFits p
    → (bytes : Bytes) × (serialize_bulk_insert_payload p ≡ ok bytes)
      × (parse_bulk_insert_payload bytes ≡ ok (stored_payload p))
parse-serialize p h = (payload_bytes p, serialize-payload_bytes p h, parse-payload_bytes p h)
