-- ===== src/Engine/SqlserverJson/Laws.antt =====
-- What joining the rows keeps.
use dart_odbc_fast.Prelude.{
  true, false, ◌==◌, List, [], ◌∷◌, ◌++◌, map, Option, none, some, ◌≡◌, refl, ◌⊎◌, inl, inr, arith,
  Bool-cases, append-nil, All,
}
use dart_odbc_fast.Wire.{Bytes, ascii}
use dart_odbc_fast.Protocol.Types.{json}
use dart_odbc_fast.Protocol.RowBuffer.{ColumnMetadata, RowBuffer, Cell}
use dart_odbc_fast.Engine.Capabilities.{lower_byte, same_text}
use dart_odbc_fast.Engine.SqlserverJson.{
  sqlserver_for_json_column_name, eq_ignore_ascii_case, is_for_json_result, merge_rows, force_json,
  coalesce_for_json_rows,
}

-- The one column that SQL Server gives such a result, however its name is capitalised.
abbrev pub IsForJson : RowBuffer → Type 0
IsForJson buffer =
    (c : ColumnMetadata) × (buffer.columns ≡ c ∷ [])
    × (map lower_byte c.name ≡ map lower_byte (ascii "JSON_F52E2B61-18A1-11D1-B105-00805F49916B"))

-- A row whose first cell is NULL, or that has none.
abbrev pub NoChunk : List Cell → Type 0
NoChunk [] = Unit {0}
NoChunk (cell ∷ row) = cell ≡ none

-- The bytes that the rows stream.
unfoldable pub content : List (List Cell) → Bytes
content [] = []
content ([] ∷ rows) = content rows
content ((none ∷ row) ∷ rows) = content rows
content ((some chunk ∷ row) ∷ rows) = chunk ++ content rows

-- The cell that rows are joined to: NULL exactly if every chunk is.
abbrev pub Joins : List (List Cell) → Cell → Type 0
Joins rows cell =
    (All NoChunk rows × (cell ≡ none)) ⊎ ((¬ All NoChunk rows) × (cell ≡ some (content rows)))

same_text_self : (s : Bytes) → same_text s s ≡ true
unfolding same_text
same_text_self [] = refl
same_text_self (c ∷ s) = ground (arith, same_text_self s)

same_text_sound : (s t : Bytes) → same_text s t ≡ true → s ≡ t
unfolding same_text
same_text_sound [] [] h = refl
same_text_sound [] (d ∷ t) h = cc
same_text_sound (c ∷ s) [] h = cc
same_text_sound (c ∷ s) (d ∷ t) h = elim (Bool-cases (c == d)) [
  | inl e ↦
      let tail : s ≡ t = same_text_sound s t (rw e at h) in
      let head : c ≡ d = ground arith in cc (head, tail)
  | inr e ↦ let bad : false ≡ true = rw e at h in cc
]

is_for_json_result_lem :
    (columns : List ColumnMetadata) (rows : List (List Cell))
    → let buffer : RowBuffer = record { columns = columns; rows = rows } in
      ((is_for_json_result buffer ≡ true) × IsForJson buffer)
      ⊎ ((is_for_json_result buffer ≡ false) × (¬ IsForJson buffer))
unfolding is_for_json_result eq_ignore_ascii_case
is_for_json_result_lem [] rows = inr (refl, λ h. cc)
is_for_json_result_lem (c ∷ []) rows =
    let s = map lower_byte c.name in
    let t = map lower_byte sqlserver_for_json_column_name in
    elim (Bool-cases (same_text s t)) [
      | inl e ↦ inl (e, (c, refl, same_text_sound s t e))
      | inr e ↦ inr (
        e,
        λ h.
            let one : c ≡ h.0 = cc (h.1) in
            let same : s ≡ t = rw one (h.2) in
            let yes : same_text s t ≡ true = rw same (same_text_self t) in cc (e, yes),
      )
    ]
is_for_json_result_lem (c ∷ d ∷ columns) rows = inr (ground arith, λ h. cc)

merge_rows_lem :
    (rows : List (List Cell))
    → (All NoChunk rows × (merge_rows rows ≡ none) × (content rows ≡ []))
      ⊎ ((¬ All NoChunk rows) × (merge_rows rows ≡ some (content rows)))
unfolding merge_rows content
merge_rows_lem [] = inl (tt, refl, refl)
merge_rows_lem ([] ∷ rows) = elim (merge_rows_lem rows) [
  | inl (all, m, c) ↦ inl ((tt, all), m, c)
  | inr (more, m) ↦ inr (λ h. more h.1, m)
]
merge_rows_lem ((none ∷ row) ∷ rows) = elim (merge_rows_lem rows) [
  | inl (all, m, c) ↦ inl ((refl, all), m, c)
  | inr (more, m) ↦ inr (λ h. more h.1, m)
]
merge_rows_lem ((some chunk ∷ row) ∷ rows) = elim (merge_rows_lem rows) [
  | inl (all, m, c) ↦ inr (λ h. cc (h.0), rw (m, c, append-nil) refl)
  | inr (more, m) ↦ inr (λ h. cc (h.0), rw m refl)
]

merge_rows-Joins : (rows : List (List Cell)) → Joins rows (merge_rows rows)
merge_rows-Joins rows = elim (merge_rows_lem rows) [
  | inl (all, m, c) ↦ inl (all, m)
  | inr (more, m) ↦ inr (more, m)
]

-- A buffer that is no `FOR JSON` result stays as it is, and so does a result without rows. Any other
-- result becomes one row of one cell in a column of the same name and of the type JSON. That cell is
-- NULL if the first cell of every row is, and otherwise the first cells that are not NULL, joined in
-- order.
pub coalesce_for_json_rows_lem :
    (buffer : RowBuffer)
    → ((¬ IsForJson buffer) × (coalesce_for_json_rows buffer ≡ buffer))
      ⊎ (IsForJson buffer × (buffer.rows ≡ []) × (coalesce_for_json_rows buffer ≡ buffer))
      ⊎ (IsForJson buffer
          × (¬ buffer.rows ≡ [])
          × ((c : ColumnMetadata) × (cell : Cell) × (buffer.columns ≡ c ∷ [])
              × Joins buffer.rows cell
              × (coalesce_for_json_rows buffer ≡ record {
                columns = record { name = c.name; odbc_type = json } ∷ [];
                rows = (cell ∷ []) ∷ [];
              })))
unfolding coalesce_for_json_rows
coalesce_for_json_rows_lem buffer = elim (is_for_json_result_lem buffer.columns buffer.rows) [
  | inr (e, other) ↦ inl (other, rw e refl)
  | inl (e, is) ↦ inr (for_json buffer.columns buffer.rows e is)
]
  where
    for_json :
        (columns : List ColumnMetadata) (rows : List (List Cell))
        → let buffer : RowBuffer = record { columns = columns; rows = rows } in
          is_for_json_result buffer ≡ true
          → IsForJson buffer
          → (IsForJson buffer × (rows ≡ []) × (coalesce_for_json_rows buffer ≡ buffer))
            ⊎ (IsForJson buffer
                × (¬ rows ≡ [])
                × ((c : ColumnMetadata) × (cell : Cell) × (columns ≡ c ∷ [])
                    × Joins rows cell
                    × (coalesce_for_json_rows buffer ≡ record {
                      columns = record { name = c.name; odbc_type = json } ∷ [];
                      rows = (cell ∷ []) ∷ [];
                    })))
    for_json columns [] e is = inl (is, refl, rw e refl)
    for_json [] (row ∷ rows) e is = absurd (unfold is_for_json_result in ground arith)
    for_json (c ∷ []) (row ∷ rows) e is =
        inr (
          is,
          λ h. cc,
          (c, merge_rows (row ∷ rows), refl, merge_rows-Joins (row ∷ rows), rw e refl),
        )
    for_json (c ∷ d ∷ columns) (row ∷ rows) e is =
        absurd (unfold is_for_json_result in ground arith)

single_lem : (m : Option Bytes) → merge_rows ((m ∷ []) ∷ []) ≡ m
unfolding merge_rows
single_lem none = refl
single_lem (some chunk) = refl

-- Joining the rows a second time changes nothing.
coalesce_for_json_rows_idem :
    (buffer : RowBuffer)
    → coalesce_for_json_rows (coalesce_for_json_rows buffer) ≡ coalesce_for_json_rows buffer
coalesce_for_json_rows_idem buffer = elim (Bool-cases (is_for_json_result buffer)) [
  | inr e ↦
      let same : coalesce_for_json_rows buffer ≡ buffer =
        unfold coalesce_for_json_rows in rw e refl in
      rw (same, same) refl
  | inl e ↦ twice buffer.columns buffer.rows e
]
  where
    twice :
        (columns : List ColumnMetadata) (rows : List (List Cell))
        → is_for_json_result (record { columns = columns; rows = rows }) ≡ true
        → coalesce_for_json_rows
            (coalesce_for_json_rows (record { columns = columns; rows = rows }))
          ≡ coalesce_for_json_rows (record { columns = columns; rows = rows })
    twice columns [] e =
        let same : coalesce_for_json_rows (record { columns = columns; rows = [] })
            ≡ record { columns = columns; rows = [] } =
          unfold coalesce_for_json_rows in rw e refl in
        rw (same, same) refl
    twice [] (row ∷ rows) e = absurd (unfold is_for_json_result in ground arith)
    twice (c ∷ columns) (row ∷ rows) e =
        let m = merge_rows (row ∷ rows) in
        let once : coalesce_for_json_rows (record { columns = c ∷ columns; rows = row ∷ rows })
            ≡ record { columns = force_json (c ∷ columns); rows = (m ∷ []) ∷ [] } =
          unfold coalesce_for_json_rows in rw e refl in
        let again : is_for_json_result
              (record { columns = force_json (c ∷ columns); rows = (m ∷ []) ∷ [] })
            ≡ true =
          unfold is_for_json_result in e in
        rw once (unfold coalesce_for_json_rows in rw (again, single_lem m) refl)
