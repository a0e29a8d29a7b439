-- ===== src/Plugins/Inputs.antt =====
-- Which requests for an UPSERT are valid.
use dart_odbc_fast.Prelude.{
  ◌≤◌, true, List, [], ◌∷◌, ◌++◌, length, All, All-append, Option, none, some, ok, ◌≡◌, ◌↔◌, arith,
  refl,
}
use dart_odbc_fast.Wire.{Bytes}
use dart_odbc_fast.Engine.Capabilities.{trim_start, trim_end}
use dart_odbc_fast.Engine.Identifier.{split}
use dart_odbc_fast.Engine.Identifier.Laws.{IsIdentifier, validate_identifier_iff}
use dart_odbc_fast.Plugins.Upsert.{
  has_column, validate_all, validate_option, check_conflicts, validate_upsert_inputs,
}
use dart_odbc_fast.Plugins.Parts.{AllOption}

pub record IsUpsert (table : Bytes) (columns conflict : List Bytes) (update : Option (List Bytes))
    : Type 0 where
  pub named : 1 ≤ length (trim_end (trim_start table))
  pub segments : All IsIdentifier (split b'.' table)
  pub some_column : 1 ≤ length columns
  pub some_conflict : 1 ≤ length conflict
  pub columns_fine : All IsIdentifier columns
  pub conflict_fine : All IsIdentifier conflict
  pub update_fine : AllOption update
  pub known : All (λ c. has_column c columns ≡ true) conflict

validate_all_iff : (names : List Bytes) → (validate_all names ≡ ok tt) ↔ All IsIdentifier names
unfolding validate_all
validate_all_iff [] = (λ h. tt, λ h. refl)
validate_all_iff (c ∷ names) = ground (arith, validate_identifier_iff c, validate_all_iff names)

validate_option_iff :
    (update : Option (List Bytes)) → (validate_option update ≡ ok tt) ↔ AllOption update
validate_option_iff none = (λ h. tt, λ h. refl)
validate_option_iff (some names) = validate_all_iff names

check_conflicts_iff :
    (columns conflict : List Bytes)
    → (check_conflicts columns conflict ≡ ok tt) ↔ All (λ c. has_column c columns ≡ true) conflict
unfolding check_conflicts
check_conflicts_iff columns [] = (λ h. tt, λ h. refl)
check_conflicts_iff columns (c ∷ conflict) = ground (arith, check_conflicts_iff columns conflict)

All-of-append :
    (xs ys : List Bytes) → All IsIdentifier (xs ++ ys) → All IsIdentifier xs × All IsIdentifier ys
All-of-append [] ys h = (tt, h)
All-of-append (x ∷ xs) ys h = let (hx, hy) = All-of-append xs ys h.1 in ((h.0, hx), hy)

pub validate_upsert_inputs_iff :
    (table : Bytes) (columns conflict : List Bytes) (update : Option (List Bytes))
    → (validate_upsert_inputs table columns conflict update ≡ ok tt)
      ↔ IsUpsert table columns conflict update
unfolding validate_upsert_inputs
validate_upsert_inputs_iff table columns conflict update = ground (
  arith,
  validate_all_iff (split b'.' table),
  validate_all_iff (columns ++ conflict),
  validate_option_iff update,
  check_conflicts_iff columns conflict,
  All-of-append columns conflict,
  All-append IsIdentifier columns conflict,
)
