-- ===== src/Protocol/Columnar/Cells.antt =====
-- The cells of a column are read back from its raw data.
use dart_odbc_fast.Prelude.{
  ℕ, zero, suc, ◌-◌, ◌*◌, ◌^◌, ◌<◌, ◌==◌, List, [], ◌∷◌, ◌++◌, length, map, Option, none, some, ok,
  ◌≡◌, refl, ap, ◌∙◌, arith, All, append-nil, append_assoc, take-append_eq, drop-append_eq,
  if◌then◌else◌, String, ==_iff, Bool-cases, Result-cases, inl, inr,
}
use dart_odbc_fast.Prelude.Int.{ℤ, to_bits, to_bits-from_bits}
use dart_odbc_fast.Wire.{Bytes, AreBytes, le_bytes, from_le}
use dart_odbc_fast.Wire.Laws.{
  length-le_bytes, le_bytes-from_le, from_le-lt, drop-le_bytes, get_le-le_bytes,
}
use dart_odbc_fast.Wire.Repeat.{write_all, read_many, read_many-write_all}
use dart_odbc_fast.Protocol.Types.{OdbcType}
use dart_odbc_fast.Protocol.RowBuffer.{Cell}
use dart_odbc_fast.Protocol.Columnar.{
  ColumnData, varchar, integer, big_int, binary, cell_at, read_signed, column_data,
}
use dart_odbc_fast.Protocol.Columnar.Encode.{checked_u32, write_texts, write_integers, raw_data}
use dart_odbc_fast.Protocol.Columnar.Reader.{
  fixed_width, cell_wire, CellFits, read_content, read_cell,
}

read_cell-cell_wire :
    (w : Option ℕ) (c : Cell) (rest : Bytes)
    → CellFits w c
    → read_cell w (cell_wire w c ++ rest) ≡ ok (c, rest)
unfolding read_cell cell_wire read_content
read_cell-cell_wire w none rest h = refl
read_cell-cell_wire none (some bytes) rest h =
    let n = length bytes in
    rw
      (
        append_assoc (le_bytes 4 n) bytes rest,
        drop-le_bytes 4 n (bytes ++ rest),
        get_le-le_bytes 4 n (bytes ++ rest) h,
        take-append_eq n bytes rest refl,
        drop-append_eq n bytes rest refl,
      )
      refl
read_cell-cell_wire (some k) (some bytes) rest h =
    rw (take-append_eq k bytes rest h, drop-append_eq k bytes rest h) refl

map_id : {A : Type 0} (xs : List A) → map (λ x. x) xs ≡ xs
map_id [] = refl
map_id (x ∷ xs) = ap (◌∷◌ x) (map_id xs)

read_cells :
    (w : Option ℕ) (cells : List Cell)
    → All (CellFits w) cells
    → read_many (read_cell w) (length cells) (write_all (cell_wire w) cells) ≡ ok (cells, [])
read_cells w cells h =
    let all =
      read_many-write_all (read_cell w) (cell_wire w) (λ c. c) (CellFits w) (read_cell-cell_wire w)
        cells [] h in
    rw (append-nil, map_id) at all

-- What `write_texts` writes.
write_texts-write_all :
    (field : String) (cells : List Cell) (raw : Bytes)
    → write_texts field cells ≡ ok raw
    → (write_all (cell_wire none) cells ≡ raw) × All (CellFits none) cells
unfolding write_texts write_all cell_wire checked_u32
write_texts-write_all field [] raw h = (cc, tt)
write_texts-write_all field (none ∷ cells) raw h = elim (Result-cases (write_texts field cells)) [
  | inl (more, e) ↦
      let rest = write_texts-write_all field cells more e in
      let same : 1 ∷ more ≡ raw = ground arith in (rw rest.0 same, (tt, rest.1))
  | inr (x, e) ↦ absurd (ground arith)
]
write_texts-write_all field (some bytes ∷ cells) raw h =
    elim (Result-cases (write_texts field cells)) [
      | inl (more, e) ↦
          let rest = write_texts-write_all field cells more e in
          let fits : length bytes < 2 ^ 32 = ground arith in
          let same : 0 ∷ (le_bytes 4 (length bytes) ++ (bytes ++ more)) ≡ raw = ground arith in
          (
            rw
                (
                  append_assoc (le_bytes 4 (length bytes)) bytes (write_all (cell_wire none) cells),
                  rest.0,
                )
                same,
            (fits, rest.1),
          )
      | inr (x, e) ↦ absurd (ground arith)
    ]

-- The bytes of an integer of `w` bytes.
abbrev pub integer_cell : ℕ → Option ℤ → Cell
integer_cell w none = none
integer_cell w (some v) = some (le_bytes w (to_bits (2 ^ (8 * w - 1)) v))

write_integers-write_all :
    (w : ℕ) (cells : List (Option ℤ))
    → write_all (cell_wire (some w)) (map (integer_cell w) cells) ≡ write_integers w cells
unfolding write_integers write_all cell_wire
write_integers-write_all w [] = refl
write_integers-write_all w (none ∷ cells) = ap (◌∷◌ 1) (write_integers-write_all w cells)
write_integers-write_all w (some v ∷ cells) = rw (write_integers-write_all w cells) refl

integer_cell-CellFits :
    (w : ℕ) (cells : List (Option ℤ)) → All (CellFits (some w)) (map (integer_cell w) cells)
integer_cell-CellFits w [] = tt
integer_cell-CellFits w (none ∷ cells) = (tt, integer_cell-CellFits w cells)
integer_cell-CellFits w (some v ∷ cells) =
    (length-le_bytes w (to_bits (2 ^ (8 * w - 1)) v), integer_cell-CellFits w cells)

-- The cells of a column as the message carries them.
abbrev pub wire_cells : ColumnData → List Cell
wire_cells (varchar cells) = cells
wire_cells (binary cells) = cells
wire_cells (integer cells) = map (integer_cell 4) cells
wire_cells (big_int cells) = map (integer_cell 8) cells

abbrev pub RawData : Option ℕ → List Cell → Bytes → Type 0
RawData w cells raw = (write_all (cell_wire w) cells ≡ raw) × All (CellFits w) cells

integers-RawData :
    (w : ℕ) (cells : List (Option ℤ)) (raw : Bytes)
    → write_integers w cells ≡ raw
    → RawData (some w) (map (integer_cell w) cells) raw
integers-RawData w cells raw h =
    (rw (write_integers-write_all w cells) h, integer_cell-CellFits w cells)

pub raw_data-RawData :
    (t : OdbcType) (i : ℕ) (rows : List (List Cell)) (raw : Bytes)
    → raw_data (column_data t i rows) ≡ ok raw
    → RawData (fixed_width t) (wire_cells (column_data t i rows)) raw
unfolding raw_data column_data
raw_data-RawData OdbcType.integer i rows raw h =
    integers-RawData 4 (map (λ row. read_signed 4 (cell_at row i)) rows) raw cc
raw_data-RawData OdbcType.big_int i rows raw h =
    integers-RawData 8 (map (λ row. read_signed 8 (cell_at row i)) rows) raw cc
raw_data-RawData _ i rows raw h =
    write_texts-write_all "varchar cell length" (map (λ row. cell_at row i) rows) raw h

length-map : {A B : Type 0} (f : A → B) (xs : List A) → length (map f xs) ≡ length xs
length-map f [] = refl
length-map f (x ∷ xs) = ap suc (length-map f xs)

length-wire_cells :
    (t : OdbcType) (i : ℕ) (rows : List (List Cell))
    → length (wire_cells (column_data t i rows)) ≡ length rows
unfolding column_data
length-wire_cells OdbcType.integer i rows =
    length-map (integer_cell 4) (map (λ row. read_signed 4 (cell_at row i)) rows)
    ∙ length-map (λ row. read_signed 4 (cell_at row i)) rows
length-wire_cells OdbcType.big_int i rows =
    length-map (integer_cell 8) (map (λ row. read_signed 8 (cell_at row i)) rows)
    ∙ length-map (λ row. read_signed 8 (cell_at row i)) rows
length-wire_cells _ i rows = length-map (λ row. cell_at row i) rows

pub read_column_cells :
    (t : OdbcType) (i : ℕ) (rows : List (List Cell)) (raw : Bytes)
    → RawData (fixed_width t) (wire_cells (column_data t i rows)) raw
    → read_many (read_cell (fixed_width t)) (length rows) raw
      ≡ ok (wire_cells (column_data t i rows), [])
read_column_cells t i rows raw h =
    let cells = wire_cells (column_data t i rows) in
    rw (← h.0, ← length-wire_cells t i rows) (read_cells (fixed_width t) cells h.1)

-- What a reader sees of a cell: an integer of another width than its type has is NULL.
abbrev pub keep_width : ℕ → Cell → Cell
keep_width w none = none
keep_width w (some bytes) = if length bytes == w then some bytes else none

abbrev pub seen : OdbcType → Cell → Cell
seen OdbcType.integer c = keep_width 4 c
seen OdbcType.big_int c = keep_width 8 c
seen _ c = c

abbrev pub CellBytes : Cell → Type 0
CellBytes none = Unit
CellBytes (some bytes) = AreBytes bytes

cell_at-CellBytes : (row : List Cell) (i : ℕ) → All CellBytes row → CellBytes (cell_at row i)
unfolding cell_at
cell_at-CellBytes [] i h = tt
cell_at-CellBytes (c ∷ row) zero h = h.0
cell_at-CellBytes (c ∷ row) (suc i) h = cell_at-CellBytes row i h.1

integer_cell-read_signed :
    (w : ℕ) (c : Cell)
    → 256 ^ w ≡ 2 * 2 ^ (8 * w - 1)
    → CellBytes c
    → integer_cell w (read_signed w c) ≡ keep_width w c
unfolding read_signed
integer_cell-read_signed w none two h = refl
integer_cell-read_signed w (some bytes) two h = elim (Bool-cases (length bytes == w)) [
  | inl e ↦
      let wide : length bytes ≡ w = (==_iff (length bytes) w).0 e in
      let u = from_le bytes in
      let half = 2 ^ (8 * w - 1) in
      let small : u < 2 * half = rw (← two, ← wide) (from_le-lt bytes h) in
      let back : le_bytes w u ≡ bytes = rw (← wide) (le_bytes-from_le bytes h) in
      rw (e, to_bits-from_bits half u small, back) refl
  | inr e ↦ rw e refl
]

map-map :
    {A B C : Type 0} (f : A → B) (g : B → C) (k : A → C) (P : A → Type 0)
    → ((x : A) → P x → g (f x) ≡ k x)
    → (xs : List A) → All P xs
    → map g (map f xs) ≡ map k xs
map-map f g k P one [] h = refl
map-map f g k P one (x ∷ xs) h = rw (one x h.0, map-map f g k P one xs h.1) refl

pub wire_cells-column_data :
    (t : OdbcType) (i : ℕ) (rows : List (List Cell))
    → All (All CellBytes) rows
    → wire_cells (column_data t i rows) ≡ map (λ row. seen t (cell_at row i)) rows
unfolding column_data
wire_cells-column_data OdbcType.integer i rows h =
    map-map (λ row. read_signed 4 (cell_at row i)) (integer_cell 4)
      (λ row. keep_width 4 (cell_at row i)) (All CellBytes)
      (λ row b. integer_cell-read_signed 4 (cell_at row i) refl (cell_at-CellBytes row i b)) rows h
wire_cells-column_data OdbcType.big_int i rows h =
    map-map (λ row. read_signed 8 (cell_at row i)) (integer_cell 8)
      (λ row. keep_width 8 (cell_at row i)) (All CellBytes)
      (λ row b. integer_cell-read_signed 8 (cell_at row i) refl (cell_at-CellBytes row i b)) rows h
wire_cells-column_data _ i rows h = refl
