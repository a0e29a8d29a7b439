-- ===== src/Protocol/Decoder/Sound.antt =====
-- Whatever `parse` accepts: its shape and its bytes.
use dart_odbc_fast.Prelude.{
  ℕ, ◌+◌, ◌≤◌, List, [], ◌∷◌, ◌++◌, length, drop, ok, ◌≡◌, refl, sym, subst, ap, ◌∙◌, arith,
  Result-cases, inl, inr, All-drop, drop-drop, length-drop, length-append, append-nil,
}
use dart_odbc_fast.Wire.{Bytes, IsByte, AreBytes, le_bytes, get_le, checked_add}
use dart_odbc_fast.Wire.Laws.{AreBytes-rest, le_bytes-get_le}
use dart_odbc_fast.Protocol.RowBuffer.{Cell}
use dart_odbc_fast.Protocol.Decoder.{
  header_size, ColumnInfo, DecodedResult, validate_shape, parse_columns, parse_rows, parse_body,
  parse,
}
use dart_odbc_fast.Protocol.Decoder.Shape.{
  IsTable, parse_columns_sound, parse_rows_sound, validate_shape_sound,
}
use dart_odbc_fast.Protocol.Decoder.Layout.{
  Pieces, IsColumn, IsCell, IsMessage, parse_columns_layout,
}
use dart_odbc_fast.Protocol.Decoder.Layout.Rows.{parse_rows_layout}

empty_lem : (bytes : Bytes) → length bytes ≡ 0 → bytes ≡ []
empty_lem [] h = refl
empty_lem (b ∷ bytes) h = absurd (omega arith)

-- A field of the header, and what is behind it.
field_lem :
    (w at_byte : ℕ) (buffer : Bytes)
    → AreBytes buffer
    → at_byte + w ≤ length buffer
    → drop at_byte buffer ≡ le_bytes w (get_le w (drop at_byte buffer)) ++ drop (at_byte + w) buffer
field_lem w at_byte buffer bytes fits =
    let read =
      le_bytes-get_le w (drop at_byte buffer) (All-drop IsByte at_byte buffer bytes)
        (omega (arith, length-drop at_byte buffer)) in
    sym (rw (drop-drop at_byte w buffer) at read)

header_lem :
    (buffer : Bytes)
    → AreBytes buffer
    → 16 ≤ length buffer
    → buffer
      ≡ le_bytes 4 (get_le 4 buffer)
        ++ (le_bytes 2 (get_le 2 (drop 4 buffer))
            ++ (le_bytes 2 (get_le 2 (drop 6 buffer))
                ++ (le_bytes 4 (get_le 4 (drop 8 buffer))
                    ++ (le_bytes 4 (get_le 4 (drop 12 buffer)) ++ drop 16 buffer))))
header_lem buffer bytes fits =
    field_lem 4 0 buffer bytes (omega arith)
    ∙ ap (◌++◌ (le_bytes 4 (get_le 4 buffer))) (
        field_lem 2 4 buffer bytes (omega arith)
        ∙ ap (◌++◌ (le_bytes 2 (get_le 2 (drop 4 buffer)))) (
            field_lem 2 6 buffer bytes (omega arith)
            ∙ ap (◌++◌ (le_bytes 2 (get_le 2 (drop 6 buffer)))) (
                field_lem 4 8 buffer bytes (omega arith)
                ∙ ap (◌++◌ (le_bytes 4 (get_le 4 (drop 8 buffer))))
                    (field_lem 4 12 buffer bytes (omega arith)))))

parse_body_end :
    (buffer : Bytes) (r : DecodedResult) (u : Unit {0}) (cols : List ColumnInfo)
    (rows : List (List Cell)) (after rest : Bytes)
    → validate_shape
        (get_le 2 (drop 6 buffer))
        (get_le 4 (drop 8 buffer))
        (get_le 4 (drop 12 buffer))
      ≡ ok u
    → parse_columns (get_le 2 (drop 6 buffer)) (drop 16 buffer) ≡ ok (cols, after)
    → parse_rows (get_le 2 (drop 6 buffer)) (get_le 4 (drop 8 buffer)) after ≡ ok (rows, rest)
    → parse_body buffer ≡ ok r
    → (r ≡ record {
      columns = cols;
      rows = rows;
      row_count = get_le 4 (drop 8 buffer);
      column_count = get_le 2 (drop 6 buffer);
    })
      × (length buffer ≡ header_size + get_le 4 (drop 12 buffer))
      × (length rest ≡ 0)
unfolding parse_body checked_add
parse_body_end buffer r u cols rows after rest v c d h = let h' = rw (v, c, d) at h in ground arith

-- What `parse_body` read from the header, and what it read behind it.
abbrev Contents : Bytes → DecodedResult → Type 0
Contents buffer r =
    (columns : Bytes) × (rows : Bytes) × Pieces IsColumn r.columns columns
    × Pieces (Pieces IsCell) r.rows rows
    × (drop 16 buffer ≡ columns ++ rows)
    × (r.column_count ≡ get_le 2 (drop 6 buffer))
    × (r.row_count ≡ get_le 4 (drop 8 buffer))
    × (length buffer ≡ 16 + get_le 4 (drop 12 buffer))

parse_body_sound :
    (buffer : Bytes) (r : DecodedResult)
    → AreBytes buffer
    → parse_body buffer ≡ ok r
    → IsTable r × Contents buffer r
parse_body_sound buffer r bytes h =
    let nc = get_le 2 (drop 6 buffer) in
    let nr = get_le 4 (drop 8 buffer) in
    let start = drop 16 buffer in
    let behind : AreBytes start = All-drop IsByte 16 buffer bytes in
    elim (Result-cases (validate_shape nc nr (get_le 4 (drop 12 buffer)))) [
      | inl (u, v) ↦ elim (Result-cases (parse_columns nc start)) [
        | inl ((cols, after), c) ↦ elim (Result-cases (parse_rows nc nr after)) [
          | inl ((rows, rest), d) ↦
              let (same, size, nothing) = parse_body_end buffer r u cols rows after rest v c d h in
              let (few_columns, few_rows, few_cells, small) =
                validate_shape_sound nc nr (get_le 4 (drop 12 buffer)) u v in
              let (width, names) = parse_columns_sound nc start cols after c in
              let (height, cells) = parse_rows_sound nc nr after rows rest d in
              let (first, all, here) = parse_columns_layout nc start cols after behind c in
              let (second, every, there) =
                parse_rows_layout nc nr after rows rest
                  (AreBytes-rest first after (subst AreBytes here behind)) d in
              let end : after ≡ second =
                there ∙ (ap (◌++◌ second) (empty_lem rest nothing) ∙ rw append-nil refl) in
              (
                rw same (record {
                  width = width;
                  height = height;
                  names = names;
                  cells = cells;
                  few_columns = few_columns;
                  few_rows = few_rows;
                  few_cells = few_cells;
                }),
                rw same (first, second, all, every, here ∙ ap (◌++◌ first) end, refl, refl, size),
              )
          | inr (x, d) ↦ absurd (unfold parse_body in let h' = rw (v, c, d) at h in cc)
        ]
        | inr (x, c) ↦ absurd (unfold parse_body in let h' = rw (v, c) at h in cc)
      ]
      | inr (x, v) ↦ absurd (unfold parse_body in let h' = rw v at h in cc)
    ]

parse_lem :
    (buffer : Bytes) (r : DecodedResult)
    → parse buffer ≡ ok r
    → (16 ≤ length buffer)
      × (get_le 4 buffer ≡ 0x4f444243)
      × (get_le 2 (drop 4 buffer) ≡ 1)
      × (parse_body buffer ≡ ok r)
unfolding parse
parse_lem buffer r h = ground arith

Contents_lem :
    (buffer : Bytes) (r : DecodedResult)
    → AreBytes buffer
    → 16 ≤ length buffer
    → get_le 4 buffer ≡ 0x4f444243
    → get_le 2 (drop 4 buffer) ≡ 1
    → Contents buffer r
    → IsMessage r buffer
Contents_lem buffer r bytes fits m v (first, second, all, every, here, nc, nr, size) =
    let total : get_le 4 (drop 12 buffer) ≡ length first + length second =
      omega (arith, length-drop 16 buffer, ap length here, length-append first second) in
    (
      first,
      second,
      all,
      every,
      rw (nc, nr, ← total, ← here, ← m, ← v) (header_lem buffer bytes fits),
    )

-- Whatever buffer of bytes `parse` accepts, the result is a table: as many columns and rows as its
-- counts say, every row as wide as the columns, the names valid UTF-8, the cells and the counts
-- within the limits of the decoder. And the buffer is exactly that table's message: the magic
-- number, the version, the counts of columns and rows and the size of the rest, then each column with
-- its code, the length of its name and its name, then row by row each cell, as the byte 1 or as
-- another byte, its length and its content, and nothing behind them. A code that no type has
-- stands for VARCHAR. The declared size is the number of bytes behind the header.
pub parse_sound :
    (buffer : Bytes) (r : DecodedResult)
    → AreBytes buffer
    → parse buffer ≡ ok r
    → IsTable r × IsMessage r buffer × (length buffer ≡ header_size + get_le 4 (drop 12 buffer))
parse_sound buffer r bytes h =
    let (fits, m, v, body) = parse_lem buffer r h in
    let (table, contents) = parse_body_sound buffer r bytes body in
    (table, Contents_lem buffer r bytes fits m v contents, contents.7)
