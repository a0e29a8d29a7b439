-- ===== src/Protocol/Decoder/Layout/Rows.antt =====
-- The bytes of a message: the rows, cell by cell.
use dart_odbc_fast.Prelude.{
  ℕ, true, zero, suc, ◌==◌, List, [], ◌∷◌, ◌++◌, length, ok, err, none, some, ◌≡◌, refl, subst,
  arith, append_assoc, Result-cases, inl, inr, Bool-cases, ap,
}
use dart_odbc_fast.Wire.{Bytes, AreBytes, le_bytes}
use dart_odbc_fast.Error.{OdbcResult}
use dart_odbc_fast.Protocol.RowBuffer.{Cell}
use dart_odbc_fast.Wire.Laws.{AreBytes-rest}
use dart_odbc_fast.Protocol.Decoder.{parse_content, parse_cell, parse_row, parse_rows}
use dart_odbc_fast.Protocol.Decoder.Layout.{Pieces, IsCell, Read, piece_step, prefixed_lem}

parse_content_layout :
    (cursor : Bytes) (cell : Cell) (after : Bytes)
    → AreBytes cursor
    → parse_content cursor ≡ ok (cell, after)
    → (content : Bytes) × (cell ≡ some content)
      × (cursor ≡ le_bytes 4 (length content) ++ (content ++ after))
unfolding parse_content
parse_content_layout cursor none after bytes h = absurd (ground arith)
parse_content_layout cursor (some content) after bytes h =
    (content, refl, ground (arith, prefixed_lem 4 cursor bytes))

flag_one : (flag : ℕ) → flag ≡ 1 → (flag == 1) ≡ true
flag_one flag h = ground arith

parse_cell_layout :
    (cursor : Bytes) (cell : Cell) (after : Bytes)
    → AreBytes cursor
    → parse_cell cursor ≡ ok (cell, after)
    → Read IsCell cursor (cell, after)
unfolding parse_cell
parse_cell_layout [] cell after bytes h = cc
parse_cell_layout (flag ∷ cursor) none after bytes h = elim (Bool-cases (flag == 1)) [
  | inl e ↦
      let h' : ◌≡◌ {A = OdbcResult (Cell × Bytes)} (ok (none, cursor)) (ok (none, after)) =
        rw e at h in
      (1 ∷ [], refl, ground arith)
  | inr e ↦
      let (content, bad, same) = parse_content_layout cursor none after bytes.1 (rw e at h) in
      cc bad
]
parse_cell_layout (flag ∷ cursor) (some content) after bytes h = elim (Bool-cases (flag == 1)) [
  | inl e ↦
      let h' : ◌≡◌ {A = OdbcResult (Cell × Bytes)} (ok (none, cursor)) (ok (some content, after)) =
        rw e at h in
      cc
  | inr e ↦
      let (read, same, here) =
        parse_content_layout cursor (some content) after bytes.1 (rw e at h) in
      let equal : read ≡ content = cc same in
      let size = le_bytes 4 (length content) in
      (
        flag ∷ (size ++ content),
        (flag, (λ one. cc (e, flag_one flag one)), refl),
        ap (◌∷◌ flag) (rw (append_assoc size content after) (rw equal at here)),
      )
]

parse_row_layout :
    (n : ℕ) (cursor : Bytes) (cells : List Cell) (rest : Bytes)
    → AreBytes cursor
    → parse_row n cursor ≡ ok (cells, rest)
    → Read (Pieces IsCell) cursor (cells, rest)
unfolding parse_row
parse_row_layout zero cursor cells rest bytes h =
    let same : ◌≡◌ {A = List Cell × Bytes} ([], cursor) (cells, rest) = cc h in
    subst (Read (Pieces IsCell) cursor) same ([], refl, refl)
parse_row_layout (suc n) cursor cells rest bytes h = elim (Result-cases (parse_cell cursor)) [
  | inl ((cell, after), e) ↦
      let (first, w, here) = parse_cell_layout cursor cell after bytes e in
      let behind : AreBytes after = AreBytes-rest first after (subst AreBytes here bytes) in
      elim (Result-cases (parse_row n after)) [
        | inl ((more, end), e') ↦
            let run : ok (cell ∷ more, end) ≡ parse_row (suc n) cursor = rw (e, e') refl in
            let same : ◌≡◌ {A = List Cell × Bytes} (cell ∷ more, end) (cells, rest) = cc (run, h) in
            subst (Read (Pieces IsCell) cursor) same (
              piece_step IsCell cell more cursor after end (first, w, here)
                (parse_row_layout n after more end behind e'))
        | inr (x, e') ↦ let bad : parse_row (suc n) cursor ≡ err x = rw (e, e') refl in cc (bad, h)
      ]
  | inr (x, e) ↦ let bad : parse_row (suc n) cursor ≡ err x = rw e refl in cc (bad, h)
]

pub parse_rows_layout :
    (width n : ℕ) (cursor : Bytes) (table : List (List Cell)) (rest : Bytes)
    → AreBytes cursor
    → parse_rows width n cursor ≡ ok (table, rest)
    → Read (Pieces (Pieces IsCell)) cursor (table, rest)
unfolding parse_rows
parse_rows_layout width zero cursor table rest bytes h =
    let same : ◌≡◌ {A = List (List Cell) × Bytes} ([], cursor) (table, rest) = cc h in
    subst (Read (Pieces (Pieces IsCell)) cursor) same ([], refl, refl)
parse_rows_layout width (suc n) cursor table rest bytes h =
    elim (Result-cases (parse_row width cursor)) [
      | inl ((row, after), e) ↦
          let (first, w, here) = parse_row_layout width cursor row after bytes e in
          let behind : AreBytes after = AreBytes-rest first after (subst AreBytes here bytes) in
          elim (Result-cases (parse_rows width n after)) [
            | inl ((more, end), e') ↦
                let run : ok (row ∷ more, end) ≡ parse_rows width (suc n) cursor =
                  rw (e, e') refl in
                let same : ◌≡◌ {A = List (List Cell) × Bytes} (row ∷ more, end) (table, rest) =
                  cc (run, h) in
                subst (Read (Pieces (Pieces IsCell)) cursor) same (
                  piece_step (Pieces IsCell) row more cursor after end (first, w, here)
                    (parse_rows_layout width n after more end behind e'))
            | inr (x, e') ↦
                let bad : parse_rows width (suc n) cursor ≡ err x = rw (e, e') refl in cc (bad, h)
          ]
      | inr (x, e) ↦ let bad : parse_rows width (suc n) cursor ≡ err x = rw e refl in cc (bad, h)
    ]
