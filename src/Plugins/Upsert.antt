-- ===== src/Plugins/Upsert.antt =====
-- plugins/capabilities/upsert.rs: what the UPSERT builders of all vendors share.
use dart_odbc_fast.Prelude.{
  ℕ, Bool, true, false, ◌==◌, if◌then◌else◌, List, [], ◌∷◌, ◌++◌, length, replicate, Option, none,
  some, ok, reject, not, ◌>>=◌, ◌>>◌,
}
use dart_odbc_fast.Wire.{Bytes, ascii}
use dart_odbc_fast.Error.{OdbcResult, invalid, text}
use dart_odbc_fast.Engine.Capabilities.{same_text, trim_start, trim_end}
use dart_odbc_fast.Engine.Identifier.{validate_identifier, quote_identifier_default, split}

-- `parts.join(sep)`
unfoldable pub join_with : Bytes → List Bytes → Bytes
join_with sep [] = []
join_with sep (part ∷ []) = part
join_with sep (part ∷ next ∷ parts) = part ++ (sep ++ join_with sep (next ∷ parts))

-- `names.iter().map(f).collect::<Result<Vec<_>>>()?`
unfoldable pub traverse : (Bytes → OdbcResult Bytes) → List Bytes → OdbcResult (List Bytes)
traverse f [] = ok []
traverse f (name ∷ names) = do part ← f name; parts ← traverse f names; ok (part ∷ parts)

-- The same with `.join(sep)` behind it.
unfoldable pub collect : (Bytes → OdbcResult Bytes) → Bytes → List Bytes → OdbcResult Bytes
collect f sep names = do parts ← traverse f names; ok (join_with sep parts)

unfoldable pub quote_columns : List Bytes → OdbcResult Bytes
quote_columns columns = do
  reject (length columns == 0) (invalid "Upsert requires at least one column" [])
  collect quote_identifier_default (ascii ", ") columns

-- `columns.contains(c)`
unfoldable pub has_column : Bytes → List Bytes → Bool
has_column c [] = false
has_column c (d ∷ columns) = if same_text c d then true else has_column c columns

unfoldable pub non_conflict : List Bytes → List Bytes → List Bytes
non_conflict conflict [] = []
non_conflict conflict (c ∷ columns) =
    let rest = non_conflict conflict columns in if has_column c conflict then rest else c ∷ rest

unfoldable pub effective_update_columns : List Bytes → List Bytes → Option (List Bytes) → List Bytes
effective_update_columns columns conflict none = non_conflict conflict columns
effective_update_columns columns conflict (some explicit) = explicit

-- The loops over names: `for c in names { validate_identifier(c)?; }`
unfoldable pub validate_all : List Bytes → OdbcResult (Unit {0})
validate_all [] = ok tt
validate_all (c ∷ names) = do validate_identifier c; validate_all names

unfoldable pub check_conflicts : List Bytes → List Bytes → OdbcResult (Unit {0})
check_conflicts columns [] = ok tt
check_conflicts columns (c ∷ conflict) = do
  reject (not (has_column c columns))
      (invalid "Conflict column {cc:?} must also appear in `columns`" (text c ∷ []))
  check_conflicts columns conflict

abbrev pub validate_option : Option (List Bytes) → OdbcResult (Unit {0})
validate_option none = ok tt
validate_option (some update) = validate_all update

unfoldable pub validate_upsert_inputs :
    Bytes → List Bytes → List Bytes → Option (List Bytes) → OdbcResult (Unit {0})
validate_upsert_inputs table columns conflict update = do
  reject (length (trim_end (trim_start table)) == 0) (invalid "Upsert table must not be empty" [])
  validate_all (split b'.' table)
  reject (length columns == 0) (invalid "Upsert requires at least one column" [])
  reject (length conflict == 0) (invalid "Upsert requires at least one conflict column" [])
  validate_all (columns ++ conflict)
  validate_option update
  check_conflicts columns conflict

unfoldable pub placeholder_list : ℕ → Bytes
placeholder_list n = join_with (ascii ", ") (replicate n (ascii "?"))
